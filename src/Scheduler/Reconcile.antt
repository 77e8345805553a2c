-- ===== src/Scheduler/Reconcile.antt =====
-- Engine.reconcile of engine/scheduler.py, on the store: assignments that point at no tunnel are
-- freed, and the live tunnels are marked as running. Containers are the controller's.
use infinity_proxy.Prelude.{
  ℕ, ◌≡◌, refl, sym, ap, ◌∙◌, ==_iff, Bool, false, not, none, List, [], ◌∷◌, arith, ◌==◌,
  if◌then◌else◌, select, update_where, contains, find, All, Bool-cases, inl, inr, map-update_where,
}
use infinity_proxy.Models.{Tunnel, running, is_stopped}
use infinity_proxy.Db.{Store, NodeRow, get_tunnel, load_tunnels, set_tunnel_state}
use infinity_proxy.Db.Nodes.{release_tunnel, assigned_tunnel_ids, owners}
use infinity_proxy.Db.Ownership.{owned}
use infinity_proxy.Db.Release.{
  owned-release_tunnel, release_tunnel-HasKeys, release_tunnel-BalancedBut,
}
use infinity_proxy.Db.Grants.{Accounts, IsBalanced, tunnel_ids, missing-Accounts}

unfoldable pub release_each : List ℕ → Store → Store
release_each [] s = s
release_each (i ∷ is) s = release_each is (release_tunnel i s).0

unfoldable pub mark_running : List ℕ → ℕ → Store → Store
mark_running [] now s = s
mark_running (i ∷ is) now s = mark_running is now (set_tunnel_state i running now s)

-- `expected`, the tunnels that are not stopped
unfoldable pub expected : Store → List ℕ
expected s = tunnel_ids (select (λ t. not (is_stopped t.state)) (load_tunnels s))

-- `assigned_tunnel_ids() - live`
unfoldable pub orphans : Store → List ℕ
orphans s = select (λ i. not (contains i (tunnel_ids s.tunnels))) (assigned_tunnel_ids s)

unfoldable pub reconcile : ℕ → Store → Store
reconcile now s = mark_running (expected s) now (release_each (orphans s) s)

nodes-mark_running : (is : List ℕ) (now : ℕ) (s : Store) → (mark_running is now s).nodes ≡ s.nodes
unfolding mark_running set_tunnel_state
nodes-mark_running [] now s = refl
nodes-mark_running (i ∷ is) now s = nodes-mark_running is now (set_tunnel_state i running now s)

marked-IsBalanced :
    (i now : ℕ) (rows : List NodeRow) (ts : List Tunnel)
    → All (IsBalanced rows) ts
    → All (IsBalanced rows) (
        update_where
          (λ t. t.tunnel_id == i)
          (λ t. record t { state = running; updated_at_s = now })
          ts)
marked-IsBalanced i now rows [] b = tt
marked-IsBalanced i now rows (t ∷ ts) b = elim (Bool-cases (t.tunnel_id == i)) [
  | inl hit ↦ rw hit (b.0, marked-IsBalanced i now rows ts b.1)
  | inr miss ↦ rw miss (b.0, marked-IsBalanced i now rows ts b.1)
]

mark_running-Accounts :
    (is : List ℕ) (now : ℕ) (s : Store) → Accounts s → Accounts (mark_running is now s)
unfolding mark_running set_tunnel_state
mark_running-Accounts [] now s a = a
mark_running-Accounts (i ∷ is) now s a =
    let hit : Tunnel → Bool = λ t. t.tunnel_id == i in
    let mark : Tunnel → Tunnel = λ t. record t { state = running; updated_at_s = now } in
    mark_running-Accounts is now (set_tunnel_state i running now s) (record {
      keys = record {
        tunnel_keys =
            rw (map-update_where (λ t. t.tunnel_id) hit mark s.tunnels (λ t. refl))
              a.keys.tunnel_keys;
        port_keys =
            rw (map-update_where (λ t. t.port) hit mark s.tunnels (λ t. refl)) a.keys.port_keys;
        node_keys = a.keys.node_keys;
      };
      balanced = marked-IsBalanced i now s.nodes s.tunnels a.balanced;
    })

-- no row has the id
no_row :
    (i : ℕ) (ts : List Tunnel)
    → contains i (tunnel_ids ts) ≡ false
    → find (λ t. t.tunnel_id == i) ts ≡ none
no_row i [] h = refl
no_row i (t ∷ ts) h = ground (arith, no_row i ts)

release_each-Accounts :
    (is : List ℕ) (s : Store)
    → All (λ i. contains i (tunnel_ids s.tunnels) ≡ false) is
    → Accounts s
    → Accounts (release_each is s)
unfolding release_each get_tunnel release_tunnel
release_each-Accounts [] s out a = a
release_each-Accounts (i ∷ is) s out a = release_each-Accounts is (release_tunnel i s).0 out.1 (
    missing-Accounts i (release_tunnel i s).0 (release_tunnel-HasKeys i s a.keys)
      (release_tunnel-BalancedBut i s a) (no_row i s.tunnels out.0))

owned-release_each :
    (tid : ℕ) (is : List ℕ) (s : Store)
    → owned tid (release_each is s).nodes ≡ (if contains tid is then 0 else owned tid s.nodes)
unfolding release_each
owned-release_each tid [] s = refl
owned-release_each tid (i ∷ is) s =
    let s₁ = (release_tunnel i s).0 in
    let rest = owned-release_each tid is s₁ in
    let (_, gone, kept, _) = owned-release_tunnel i s in
    elim (Bool-cases (i == tid)) [
      | inl same ↦
          let freed : owned tid s₁.nodes ≡ 0 =
            sym (ap (λ j. owned j s₁.nodes) ((==_iff i tid).0 same)) ∙ gone in
          ground (arith, rest, freed, same)
      | inr other ↦ ground (arith, rest, kept tid (λ p. ground arith), other)
    ]

All-orphans :
    (is live : List ℕ) → All (λ i. contains i live ≡ false) (select (λ i. not (contains i live)) is)
All-orphans [] live = tt
All-orphans (i ∷ is) live = elim (Bool-cases (contains i live)) [
  | inl known ↦ rw known (All-orphans is live)
  | inr orphan ↦ rw orphan (orphan, All-orphans is live)
]

owned-owners :
    (tid : ℕ) (rows : List NodeRow) → contains tid (owners rows) ≡ false → owned tid rows ≡ 0
unfolding owners
owned-owners tid [] h = refl
owned-owners tid (r ∷ rs) h = ground (arith, owned-owners tid rs)

contains-orphans :
    (tid : ℕ) (is live : List ℕ)
    → contains tid live ≡ false
    → contains tid (select (λ i. not (contains i live)) is) ≡ contains tid is
contains-orphans tid [] live h = refl
contains-orphans tid (i ∷ is) live h = ground (arith, contains-orphans tid is live h)

-- A reconciliation keeps the accounts.
pub reconcile-Accounts : (now : ℕ) (s : Store) → Accounts s → Accounts (reconcile now s)
unfolding reconcile orphans
reconcile-Accounts now s a = mark_running-Accounts (expected s) now (release_each (orphans s) s) (
    release_each-Accounts (orphans s) s (All-orphans (assigned_tunnel_ids s) (tunnel_ids s.tunnels))
      a)

-- After a reconciliation of a store whose accounts are in order, no node is assigned to a tunnel
-- that has no row, and the accounts are in order.
pub reconcile-no_orphans :
    (now tid : ℕ) (s : Store)
    → Accounts s
    → contains tid (tunnel_ids s.tunnels) ≡ false
    → (owned tid (reconcile now s).nodes ≡ 0) × Accounts (reconcile now s)
unfolding reconcile orphans assigned_tunnel_ids
reconcile-no_orphans now tid s a out =
    let freed = release_each (orphans s) s in
    let left = ap (owned tid) (nodes-mark_running (expected s) now freed) in
    (
      left
          ∙ ground (
            arith,
            owned-release_each tid (orphans s) s,
            owned-owners tid s.nodes,
            contains-orphans tid (owners s.nodes) (tunnel_ids s.tunnels) out,
          ),
      reconcile-Accounts now s a,
    )
