-- ===== src/Scheduler/Passes.antt =====
-- A whole health pass of engine/scheduler.py, with the accounts of the store before and after.
use infinity_proxy.Prelude.{
  ℕ, ◌≡◌, refl, ◌∙◌, Bool, true, false, Option, List, [], ◌∷◌, map, ◌==◌, if◌then◌else◌, contains,
  Unique, arith, All, Bool-cases, Option-cases, inl, inr, length, select, holds, Unique-select,
}
use infinity_proxy.Prelude.Dict.{put, add}
use infinity_proxy.Config.{Settings}
use infinity_proxy.Models.{Tunnel, ProbeResult, degraded, is_starting}
use infinity_proxy.Db.{Store, NodeRow, get_tunnel}
use infinity_proxy.Db.Nodes.{node_ids_assigned_to}
use infinity_proxy.Db.Probes.{apply_probe_results}
use infinity_proxy.Db.Ownership.{ids, owns}
use infinity_proxy.Db.Slots.{slots, same-ids, same-owned, same-owns, slots-apply_probe_results}
use infinity_proxy.Db.Grants.{Accounts, same-IsBalanced}
use infinity_proxy.Assigner.{top_up}
use infinity_proxy.Assigner.Books.{grant-HasKeys, grant-BalancedBut, grant-due, no_grant-Accounts}
use infinity_proxy.Assigner.Exclusive.{top_up-IsGrant}
use infinity_proxy.Scheduler.{
  Control, Engine, Runtime, redeploy, assignable_protocols, is_starting_or_stopped,
}
use infinity_proxy.Scheduler.Health.{
  Clock, apply_health_verdicts, after_provision, self_heal, finish_pass, judge_pass,
  run_health_pass, health_check, known_ids, verdict_mode,
}
use infinity_proxy.Scheduler.Accounts.{
  bump_granted-Accounts, apply_health_verdicts-Accounts, AllMine,
}

-- The accounts of a store whose nodes have the owners that they had.
pub slots-Accounts :
    (s : Store) (rows : List NodeRow)
    → slots rows ≡ slots s.nodes
    → Accounts s
    → Accounts (record s { nodes = rows })
slots-Accounts s rows same a = record {
  keys = record {
    tunnel_keys = a.keys.tunnel_keys;
    port_keys = a.keys.port_keys;
    node_keys = rw (same-ids s.nodes rows same) a.keys.node_keys;
  };
  balanced = same-IsBalanced s.nodes rows s.tunnels (same-owned s.nodes rows same) a.balanced;
}

-- Where the accounts are in order, topping a tunnel up raises nothing and keeps them so.
pub after_provision-Accounts :
    (c : Settings) (now tid : ℕ) (e : Engine)
    → Accounts e.store
    → let (e', _, done) = after_provision c now tid e in (done ≡ true) × Accounts e'.store
unfolding after_provision
after_provision-Accounts c now tid e a = elim (Option-cases (get_tunnel tid e.store)) [
  | inl gone ↦ rw (gone, after_provision) (refl, a)
  | inr (t, there) ↦ elim (Bool-cases (degraded t)) [
    | inl lacking ↦
        let target = t.node_count_requested in
        let (added, s) = top_up c now tid target assignable_protocols e.store in
        let g = top_up-IsGrant c now tid target assignable_protocols e.store a.keys.node_keys in
        elim (Bool-cases (length added == 0)) [
          | inl nothing ↦
              rw (there, after_provision)
                (rw (lacking, nothing) (refl, no_grant-Accounts g a (ground arith)))
          | inr some_nodes ↦
              rw (there, after_provision)
                (rw (lacking, some_nodes)
                  (bump_granted-Accounts tid (length added) 0 (record e { store = s })
                    (grant-HasKeys g a) (grant-BalancedBut g a) (grant-due g a)))
        ]
    | inr enough ↦ rw (there, after_provision) (rw enough (refl, a))
  ]
]

-- Redeployment and self-healing write nothing to the store.
store-redeploy :
    (env : Runtime) (ok : Control) (force : Bool) (tid : ℕ) (e : Engine)
    → (redeploy env ok force tid e).0.store ≡ e.store
unfolding redeploy
store-redeploy env ok force tid e = ground arith

store-self_heal :
    (env : Runtime) (now tid : ℕ) (e : Engine) → (self_heal env now tid e).0.store ≡ e.store
unfolding self_heal
store-self_heal env now tid e = ground (arith, store-redeploy env env.heals true tid e)

store-finish_pass :
    (env : Runtime) (t : Clock) (tid swapped added : ℕ) (e : Engine)
    → (finish_pass env t tid swapped added e).0.store ≡ e.store
unfolding finish_pass
store-finish_pass env t tid swapped added e =
    let (rolled_out, roll) = redeploy env env.updates false tid e in
    ground (
      arith,
      store-redeploy env env.updates false tid e,
      store-self_heal env t.judged tid e,
      store-self_heal env t.judged tid rolled_out,
    )

marked-Accounts :
    (b : Bool) (e e' : Engine)
    → Accounts e.store
    → Accounts e'.store
    → Accounts (if b then e else e').store
marked-Accounts true e e' a a' = a
marked-Accounts false e e' a a' = a'

judge_pass-Accounts :
    (c : Settings) (env : Runtime) (t : Clock) (is_alive : ℕ → Bool) (tid : ℕ) (nids : List ℕ)
    (e : Engine)
    → Accounts e.store
    → Unique nids
    → AllMine tid e nids
    → Accounts (judge_pass c env t is_alive tid nids e).0.store
unfolding judge_pass
judge_pass-Accounts c env t is_alive tid nids e a u mine =
    let (e₁, swapped, _) = apply_health_verdicts c t.judged tid is_alive nids e in
    let (fine, a₁) = apply_health_verdicts-Accounts c t.judged tid is_alive nids e a u mine in
    let (done, a₂) = after_provision-Accounts c t.scored tid e₁ a₁ in
    elim (Option-cases (get_tunnel tid e.store)) [
      | inl gone ↦ rw (gone, judge_pass) a
      | inr (fresh, there) ↦ elim (Bool-cases (is_starting_or_stopped fresh.state)) [
        | inl off ↦ rw (there, judge_pass) (rw off a)
        | inr on ↦
            rw (there, judge_pass)
              (rw (on, fine, done) (rw store-finish_pass (marked-Accounts _ _ _ a₂ a₂)))
      ]
    ]

mine_of :
    (tid j : ℕ) (rows : List NodeRow)
    → contains j (map (λ r. r.node_id) (select (λ r. holds tid r.assigned_to) rows)) ≡ true
    → owns tid rows j ≡ true
mine_of tid j [] h = h
mine_of tid j (r ∷ rs) h = ground (arith, mine_of tid j rs)

known_ids-subset :
    (s : Store) (j : ℕ) (is : List ℕ) → contains j (known_ids s is) ≡ true → contains j is ≡ true
known_ids-subset s j [] h = h
known_ids-subset s j (i ∷ is) h = ground (arith, known_ids-subset s j is)

known_ids-Unique : (s : Store) (is : List ℕ) → Unique is → Unique (known_ids s is)
known_ids-Unique s [] u = tt
known_ids-Unique s (i ∷ is) u = ground (arith, known_ids-subset s i is, known_ids-Unique s is u.1)

All-owned :
    (tid : ℕ) (rows : List NodeRow) (is : List ℕ)
    → ((j : ℕ) → contains j is ≡ true → owns tid rows j ≡ true)
    → All (λ j. owns tid rows j ≡ true) is
All-owned tid rows [] h = tt
All-owned tid rows (i ∷ is) h =
    (h i (ground arith), All-owned tid rows is (λ j m. h j (ground arith)))

module _ (tid : ℕ) (s : Store) where
  abbrev assigned : List ℕ
  assigned = known_ids s (node_ids_assigned_to tid s)

  assigned-Unique : Unique (ids s.nodes) → Unique assigned
  unfolding node_ids_assigned_to
  assigned-Unique u =
      known_ids-Unique s _ (Unique-select (λ r. r.node_id) (λ r. holds tid r.assigned_to) s.nodes u)

  assigned-owned : (j : ℕ) → contains j assigned ≡ true → owns tid s.nodes j ≡ true
  unfolding node_ids_assigned_to
  assigned-owned j h = mine_of tid j s.nodes (known_ids-subset s j _ h)

pub probed-Accounts :
    (mode : Option (Option ℕ)) (now : ℕ) (results : List (ℕ × ProbeResult)) (s : Store)
    → Accounts s
    → Accounts (apply_probe_results mode now results s)
unfolding apply_probe_results
probed-Accounts mode now results s a =
    slots-Accounts s _ (slots-apply_probe_results mode now results s) a

run_health_pass-Accounts :
    (c : Settings) (env : Runtime) (t : Clock) (batch : ℕ → ProbeResult) (tunnel : Tunnel)
    (e : Engine)
    → Accounts e.store
    → Accounts (run_health_pass c env t batch tunnel e).0.store
unfolding run_health_pass
run_health_pass-Accounts c env t batch tunnel e a =
    let tid = tunnel.tunnel_id in
    let nids = assigned tid e.store in
    let results = map (λ i. (i, batch i)) nids in
    let probed = apply_probe_results (verdict_mode c) t.probed results e.store in
    let same = slots-apply_probe_results (verdict_mode c) t.probed results e.store in
    let mine =
      All-owned tid probed.nodes nids
        (λ j m. same-owns e.store.nodes probed.nodes same tid j ∙ assigned-owned tid e.store j m) in
    elim (Bool-cases (is_starting tunnel.state)) [
      | inl young ↦ rw young a
      | inr on ↦ rw on (
          judge_pass-Accounts c env t (λ i. (batch i).alive) tid nids
            (record e { last_check = put tid t.started e.last_check; store = probed })
            (probed-Accounts (verdict_mode c) t.probed results e.store a)
            (assigned-Unique tid e.store a.keys.node_keys) mine)
    ]

-- A health pass keeps the accounts: whatever the probes, the runtime and the renderer answer, and
-- also when an exception leaves it, every tunnel's node_count_granted is afterwards the number of
-- nodes assigned to it, if that was so before, and ids and ports stay distinct.
pub health_check-Accounts :
    (c : Settings) (env : Runtime) (t : Clock) (batch : ℕ → ProbeResult) (tunnel : Tunnel)
    (e : Engine)
    → Accounts e.store
    → Accounts (health_check c env t batch tunnel e).0.store
unfolding health_check
health_check-Accounts c env t batch tunnel e a =
    elim (Bool-cases (contains tunnel.tunnel_id e.health_busy)) [
      | inl busy ↦ rw busy a
      | inr idle ↦ rw idle (
          run_health_pass-Accounts c env t batch tunnel
            (record e { health_busy = add tunnel.tunnel_id e.health_busy }) a)
    ]
