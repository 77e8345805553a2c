-- ===== src/Scheduler/Health.antt =====
-- engine/scheduler.py: the health pass of one tunnel. The clock readings of a pass, the probe
-- verdicts and the runtime's answers are arguments.
use infinity_proxy.Prelude.{
  ℕ, suc, Bool, true, false, not, ◌||◌, Option, none, some, List, [], ◌∷◌, map, ltb, ◌==◌,
  if◌then◌else◌, length, contains,
}
use infinity_proxy.Prelude.Dict.{put, add, discard}
use infinity_proxy.Config.{Settings}
use infinity_proxy.Models.{Tunnel, ProbeResult, is_starting, is_stopped, degraded}
use infinity_proxy.Db.{Store, get_tunnel}
use infinity_proxy.Db.Nodes.{get_node, unassign_node, node_ids_assigned_to}
use infinity_proxy.Db.Probes.{apply_probe_results}
use infinity_proxy.Assigner.{top_up}
use infinity_proxy.Scheduler.{
  Engine, Runtime, rolled, skipped, raised, misses_of, pop_strike, put_strike, record_event,
  bump_granted, redeploy, is_starting_or_stopped, assignable_protocols,
}

-- time.time() where the pass reads it
pub record Clock : Type 0 where
  pub started : ℕ
  pub probed : ℕ
  pub judged : ℕ
  pub scored : ℕ

-- the engine, whether a node was swapped out, and whether no exception was raised
unfoldable pub strike : Settings → ℕ → ℕ → ℕ → Bool → Engine → Engine × Bool × Bool
strike c now tid nid is_alive e =
    let misses = suc (misses_of tid nid e.strikes) in
    let popped = pop_strike tid nid e.strikes in
    if is_alive
    then (record e { strikes = popped }, false, true)
    else if ltb misses c.max_misses
    then (record e { strikes = put_strike tid nid misses e.strikes }, false, true)
    else let freed = record e { strikes = popped; store = unassign_node nid e.store } in
      let (bumped, fine) = bump_granted tid 0 1 freed in
      if fine
      then (record bumped { swapped_24h = record_event now tid bumped.swapped_24h }, true, true)
      else (bumped, false, false)

-- `is_alive` reads the results of the batch. An exception ends the loop.
unfoldable pub apply_health_verdicts :
    Settings → ℕ → ℕ → (ℕ → Bool) → List ℕ → Engine → Engine × ℕ × Bool
apply_health_verdicts c now tid is_alive [] e = (e, 0, true)
apply_health_verdicts c now tid is_alive (nid ∷ nids) e =
    let (e', swapped, fine) = strike c now tid nid (is_alive nid) e in
    let (e'', count, done) = apply_health_verdicts c now tid is_alive nids e' in
    if fine then (e'', (if swapped then suc count else count), done) else (e', 0, false)

unfoldable pub after_provision : Settings → ℕ → ℕ → Engine → Engine × ℕ × Bool
after_provision c now tid e = elim (get_tunnel tid e.store) [
  | none ↦ (e, 0, true)
  | some t ↦
      if not (degraded t)
      then (e, 0, true)
      else let (added, s) = top_up c now tid t.node_count_requested assignable_protocols e.store in
        if length added == 0
        then (record e { store = s }, 0, true)
        else let (bumped, fine) = bump_granted tid (length added) 0 (record e { store = s }) in
          (bumped, length added, fine)
]

-- the flag is whether an exception was raised
unfoldable pub self_heal : Runtime → ℕ → ℕ → Engine → Engine × Bool
self_heal env now tid e =
    let (e', roll) = redeploy env env.heals true tid e in
    elim (get_tunnel tid e.store) [
      | none ↦ (e, false)
      | some t ↦ if is_stopped t.state then (e, false) else elim env.is_running [
        | none ↦ (e, false)
        | some true ↦ (e, false)
        | some false ↦ elim roll [
          | rolled ↦ (record e' { restarted_24h = record_event now tid e'.restarted_24h }, false)
          | skipped ↦ (e', false)
          | raised ↦ (e', true)
        ]
      ]
    ]

-- a pass returns (swapped, added), or an exception leaves it
pub data Pass : Type 0 where
  returned : ℕ → ℕ → Pass
  failed : Pass

abbrev pub known_ids : Store → List ℕ → List ℕ
known_ids s [] = []
known_ids s (i ∷ is) =
    let rest = known_ids s is in elim (get_node i s) [ none ↦ rest | some n ↦ i ∷ rest ]

-- after the verdicts: the redeployment that is due, then the check of the container
unfoldable pub finish_pass : Runtime → Clock → ℕ → ℕ → ℕ → Engine → Engine × Pass
finish_pass env t tid swapped added e =
    let pending = contains tid e.pending_redeploy in
    let (rolled_out, roll) = redeploy env env.updates false tid e in
    let e' = if pending then rolled_out else e in
    let fine = not pending || (elim roll [ raised ↦ false | _ ↦ true ]) in
    let (healed, broke) = self_heal env t.judged tid e' in
    if not fine
    then (e', failed)
    else if broke
    then (healed, failed)
    else (healed, returned swapped added)

-- the section under the engine lock
unfoldable pub judge_pass :
    Settings → Runtime → Clock → (ℕ → Bool) → ℕ → List ℕ → Engine → Engine × Pass
judge_pass c env t is_alive tid assigned e = elim (get_tunnel tid e.store) [
  | none ↦ (e, returned 0 0)
  | some fresh ↦
      if is_starting_or_stopped fresh.state
      then (e, returned 0 0)
      else let (e₁, swapped, fine) = apply_health_verdicts c t.judged tid is_alive assigned e in
        let (e₂, added, done) = after_provision c t.scored tid e₁ in
        let changed = not (swapped == 0) || not (added == 0) in
        let e₃ =
          if changed then record e₂ { pending_redeploy = add tid e₂.pending_redeploy } else e₂ in
        if not fine
        then (e₁, failed)
        else if not done
        then (e₂, failed)
        else finish_pass env t tid swapped added e₃
]

-- the mode in which a pass writes its verdicts
abbrev pub verdict_mode : Settings → Option (Option ℕ)
verdict_mode c = if c.stability_enabled then some (some c.stability_window_s) else none

-- `batch i` is what batch_probe reports of node `i`
unfoldable pub run_health_pass :
    Settings → Runtime → Clock → (ℕ → ProbeResult) → Tunnel → Engine → Engine × Pass
run_health_pass c env t batch tunnel e =
    let tid = tunnel.tunnel_id in
    let assigned = known_ids e.store (node_ids_assigned_to tid e.store) in
    let results = map (λ i. (i, batch i)) assigned in
    let checked = record e {
      last_check = put tid t.started e.last_check;
      store = apply_probe_results (verdict_mode c) t.probed results e.store;
    } in
    if is_starting tunnel.state
    then (e, returned 0 0)
    else judge_pass c env t (λ i. (batch i).alive) tid assigned checked

abbrev pub not_busy : ℕ → Engine × Pass → Engine × Pass
not_busy tid (e, p) = (record e { health_busy = discard tid e.health_busy }, p)

unfoldable pub health_check :
    Settings → Runtime → Clock → (ℕ → ProbeResult) → Tunnel → Engine → Engine × Pass
health_check c env t batch tunnel e =
    let tid = tunnel.tunnel_id in
    if contains tid e.health_busy
    then (e, returned 0 0)
    else not_busy tid
        (run_health_pass c env t batch tunnel (record e { health_busy = add tid e.health_busy }))
