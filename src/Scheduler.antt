-- ===== src/Scheduler.antt =====
-- engine/scheduler.py, class Engine: its state and the bookkeeping of strikes, grants, events and
-- rendered configurations. The store is a field, so an operation that raises keeps what it wrote.
pub mod Health
pub mod Accounts
pub mod Passes
pub mod Window
pub mod Reconcile
use infinity_proxy.Prelude.{
  ℕ, suc, ◌+◌, ◌-◌, Bool, true, false, not, ◌&&◌, ◌||◌, Option, none, some, List, [], ◌∷◌, ◌++◌,
  map, ltb, ◌==◌, if◌then◌else◌, delete_where, find, length, or_else, Key, asc, any,
}
use infinity_proxy.Prelude.Sort.{sort_by}
use infinity_proxy.Prelude.Dict.{get, put, pop, add, discard}
use infinity_proxy.Config.{Settings}
use infinity_proxy.Models.{
  Node, Tunnel, Protocol, TunnelState, vless, vmess, ss, trojan, tuic, hysteria2, http, socks5,
  running, starting, stopped, alive, same_state, same_protocol,
}
use infinity_proxy.Db.{Store, get_tunnel, save_tunnel}
use infinity_proxy.Db.Nodes.{get_node, unassign_node, node_ids_assigned_to}

-- the keys of _PROTOCOL_OUTBOUND_TYPE: every protocol but ssr
abbrev pub assignable_protocols : List Protocol
assignable_protocols = vless ∷ vmess ∷ ss ∷ trojan ∷ tuic ∷ hysteria2 ∷ http ∷ socks5 ∷ []

-- one entry of `_strikes`, the key being (tunnel, node)
pub record Strike : Type 0 where
  pub tunnel : ℕ
  pub node : ℕ
  pub misses : ℕ

pub record Engine : Type 0 where
  pub store : Store
  pub strikes : List Strike
  pub rendered : List (ℕ × List ℕ)
  pub swapped_24h : List (ℕ × List ℕ)
  pub restarted_24h : List (ℕ × List ℕ)
  pub last_check : List (ℕ × ℕ)
  pub health_busy : List ℕ
  pub pending_redeploy : List ℕ
  pub last_working_set_s : Option ℕ

abbrev pub boot : Store → Engine
boot s = record {
  store = s;
  strikes = [];
  rendered = [];
  swapped_24h = [];
  restarted_24h = [];
  last_check = [];
  health_busy = [];
  pending_redeploy = [];
  last_working_set_s = none;
}

abbrev pub is_entry : ℕ → ℕ → Strike → Bool
is_entry tid nid k = k.tunnel == tid && k.node == nid

-- self._strikes.get(key, 0)
unfoldable pub misses_of : ℕ → ℕ → List Strike → ℕ
misses_of tid nid ks = elim (find (is_entry tid nid) ks) [ none ↦ 0 | some k ↦ k.misses ]

unfoldable pub pop_strike : ℕ → ℕ → List Strike → List Strike
pop_strike tid nid ks = delete_where (is_entry tid nid) ks

unfoldable pub put_strike : ℕ → ℕ → ℕ → List Strike → List Strike
put_strike tid nid n ks = record { tunnel = tid; node = nid; misses = n } ∷ pop_strike tid nid ks

-- `while window and window[0] < horizon: window.popleft()`
unfoldable pub drop_before : ℕ → List ℕ → List ℕ
drop_before horizon [] = []
drop_before horizon (at ∷ ats) =
    let rest = drop_before horizon ats in if ltb at horizon then rest else at ∷ ats

unfoldable pub record_event : ℕ → ℕ → List (ℕ × List ℕ) → List (ℕ × List ℕ)
record_event now tid events =
    put tid (drop_before (now - 86400) (or_else (get tid events) [] ++ now ∷ [])) events

-- The counter, and the dictionary with the expired entries gone.
unfoldable pub events_in_window : ℕ → ℕ → List (ℕ × List ℕ) → List (ℕ × List ℕ) × ℕ
events_in_window now tid events = elim (get tid events) [
  | none ↦ (events, 0)
  | some window ↦ let kept = drop_before (now - 86400) window in (put tid kept events, length kept)
]

unfoldable pub forget_tunnel : ℕ → Engine → Engine
forget_tunnel tid e = record e {
  strikes = delete_where (λ k. k.tunnel == tid) e.strikes;
  health_busy = discard tid e.health_busy;
  rendered = pop tid e.rendered;
  pending_redeploy = discard tid e.pending_redeploy;
  last_check = pop tid e.last_check;
  swapped_24h = pop tid e.swapped_24h;
  restarted_24h = pop tid e.restarted_24h;
}

-- delta = plus - minus; `false` is an IntegrityError raised by the save.
unfoldable pub bump_granted : ℕ → ℕ → ℕ → Engine → Engine × Bool
bump_granted tid plus minus e = elim (get_tunnel tid e.store) [
  | none ↦ (e, true)
  | some t ↦
      elim (save_tunnel
        (record t { node_count_granted = t.node_count_granted + plus - minus; state = running })
        e.store) [ none ↦ (e, false) | some s ↦ (record e { store = s }, true) ]
]

-- how a call of the tunnel controller ends: TunnelRuntimeUnavailable is caught, another exception of
-- the Docker client is not
pub data Control : Type 0 where
  completed unreachable faulted : Control

-- what the Docker runtime and the renderer answer during one pass
pub record Runtime : Type 0 where
  pub renders : List Node → Bool
  pub updates : Control
  pub heals : Control
  pub is_running : Option Bool

-- `raised` is the ValueError of render_config, or an exception of the update that is not caught.
pub data Roll : Type 0 where
  rolled skipped raised : Roll

abbrev pub is_starting_or_stopped : TunnelState → Bool
is_starting_or_stopped starting = true
is_starting_or_stopped stopped = true
is_starting_or_stopped _ = false

abbrev pub same_ids : List ℕ → List ℕ → Bool
same_ids [] [] = true
same_ids (i ∷ is) (j ∷ js) = i == j && same_ids is js
same_ids _ _ = false

-- the assigned nodes that a configuration can use
unfoldable pub deployable : Store → List ℕ → List Node
deployable s [] = []
deployable s (i ∷ is) =
    let rest = deployable s is in
    elim (get_node i s) [
      | none ↦ rest
      | some n ↦
          if same_state n.state alive && any (λ p. same_protocol n.protocol p) assignable_protocols
          then n ∷ rest
          else rest
    ]

unfoldable pub signature : List Node → List ℕ
signature nodes = sort_by (λ i. asc i ∷ []) (map (λ n. n.node_id) nodes)

abbrev pub is_current : List ℕ → Option (List ℕ) → Bool
is_current sig none = false
is_current sig (some old) = same_ids old sig

unfoldable pub redeploy : Runtime → Control → Bool → ℕ → Engine → Engine × Roll
redeploy env updated force tid e = elim (get_tunnel tid e.store) [
  | none ↦ (e, skipped)
  | some t ↦
      if is_starting_or_stopped t.state
      then (e, skipped)
      else let nodes = deployable e.store (node_ids_assigned_to tid e.store) in
        let sig = signature nodes in
        let forgotten = discard tid e.pending_redeploy in
        if not force && is_current sig (get tid e.rendered)
        then (record e { pending_redeploy = forgotten }, skipped)
        else if not (env.renders nodes)
        then (e, raised)
        else elim updated [
          | completed ↦
              (record e { rendered = put tid sig e.rendered; pending_redeploy = forgotten }, rolled)
          | unreachable ↦ (e, skipped)
          | faulted ↦ (e, raised)
        ]
]
