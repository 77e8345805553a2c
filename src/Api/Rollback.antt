-- ===== src/Api/Rollback.antt =====
-- The release and deletion of a tunnel that ends a failed creation, and a DELETE, in engine/app.py.
use infinity_proxy.Prelude.{
  ℕ, ◌≡◌, refl, ◌∙◌, Option, none, some, List, [], ◌∷◌, arith, ◌==◌, if◌then◌else◌, update_where,
  delete_where, All, Option-cases, Bool-cases, inl, inr,
}
use native.Mathlib.Decide.{ℕ_discrete}
use infinity_proxy.Models.{Tunnel}
use infinity_proxy.Db.{Store, NodeRow, get_tunnel, delete_tunnel}
use infinity_proxy.Db.Nodes
use infinity_proxy.Db.Ownership.{owned}
use infinity_proxy.Db.Release.{release_tunnel-HasKeys, delete_tunnel-Accounts}
use infinity_proxy.Db.Grants.{
  Accounts, IsBalanced, BalancedBut, is_row, get_tunnel-id, save_tunnel-replaces,
}
use infinity_proxy.Assigner.{release_tunnel}
use infinity_proxy.Assigner.Create.{Released, release_tunnel-Released}
use infinity_proxy.Api.{roll_back}

delete-replaced :
    (tid : ℕ) (t' : Tunnel) (ts : List Tunnel)
    → t'.tunnel_id ≡ tid
    → delete_where (is_row tid) (update_where (is_row tid) (λ u. t') ts)
      ≡ delete_where (is_row tid) ts
delete-replaced tid t' [] e = refl
delete-replaced tid t' (u ∷ us) e = ground (arith, delete-replaced tid t' us e)

same_rows :
    (tid : ℕ) (s : Store)
    → delete_where (is_row tid) (Nodes.release_tunnel tid s).0.tunnels
      ≡ delete_where (is_row tid) s.tunnels
unfolding Nodes.release_tunnel
same_rows tid s = refl

-- the other rows after a release
abbrev pub SameOthers : ℕ → Store → Option (ℕ × Store) → Type 0
SameOthers tid s none = Unit
SameOthers tid s (some (freed, s')) =
    delete_where (is_row tid) s'.tunnels ≡ delete_where (is_row tid) s.tunnels

release_tunnel-SameOthers :
    (tid : ℕ) (s : Store) → Accounts s → SameOthers tid s (release_tunnel tid s)
unfolding release_tunnel
release_tunnel-SameOthers tid s a =
    let (s₁, _) = Nodes.release_tunnel tid s in
    let k = release_tunnel-HasKeys tid s a.keys in
    elim (Option-cases (get_tunnel tid s₁)) [
      | inl missing ↦ rw (missing, release_tunnel) (same_rows tid s)
      | inr (t, there) ↦ elim (Bool-cases (t.node_count_granted == 0)) [
        | inl none_left ↦ rw (there, release_tunnel) (rw none_left (same_rows tid s))
        | inr some_left ↦
            let t' = record t { node_count_granted = 0 } in
            rw (there, release_tunnel)
              (rw (some_left, save_tunnel-replaces tid s₁ t t' k there refl refl)
                (delete-replaced tid t' s₁.tunnels (get_tunnel-id tid s₁ t there)
                  ∙ same_rows tid s))
      ]
    ]

pub weaken :
    (tid : ℕ) (rows : List NodeRow) (ts : List Tunnel)
    → All (IsBalanced rows) ts
    → BalancedBut tid rows ts
weaken tid rows [] b = tt
weaken tid rows (t ∷ ts) b = ((λ ne. b.0), weaken tid rows ts b.1)

-- what is left when a tunnel has been rolled back: the other rows, the other tunnels' nodes, and
-- accounts in order
abbrev pub RolledBack : ℕ → Store → Option Store → Type 0
RolledBack tid s none = ⊥
RolledBack tid s (some s') =
    (s'.tunnels ≡ delete_where (is_row tid) s.tunnels)
    × ((j : ℕ) → owned j s'.nodes ≡ (if tid == j then 0 else owned j s.nodes))
    × Accounts s'

-- Where the accounts are in order, a roll-back always succeeds: it deletes exactly the tunnel's row,
-- frees exactly the tunnel's nodes, and leaves the accounts in order.
pub roll_back-RolledBack : (tid : ℕ) (s : Store) → Accounts s → RolledBack tid s (roll_back tid s)
unfolding roll_back delete_tunnel
roll_back-RolledBack tid s a =
    let released = release_tunnel-Released tid s a in
    let others = release_tunnel-SameOthers tid s a in
    elim (Option-cases (release_tunnel tid s)) [
      | inl fault ↦ absurd (rw fault at released)
      | inr ((freed, s'), fine) ↦
          let (_, gone, kept, a') : Released tid s (some (freed, s')) = rw fine at released in
          let rows : SameOthers tid s (some (freed, s')) = rw fine at others in
          rw (fine, roll_back)
            (
              rows,
              λ j. elim (ℕ_discrete tid j) [
                | yes p ↦ rw (← p) (ground (arith, gone))
                | no ne ↦ ground (arith, kept j ne, ne)
              ],
              delete_tunnel-Accounts tid s' a'.keys (weaken tid s'.nodes s'.tunnels a'.balanced),
            )
    ]
