-- ===== src/Db/Release.antt =====
-- Store.release_tunnel of engine/db.py: every node of a tunnel goes back to the pool.
use infinity_proxy.Prelude.{
  ℕ, ◌≡◌, ◌≢◌, refl, none, List, [], ◌∷◌, ◌==◌, if◌then◌else◌, update_where, holds, arith,
  map-update_where, delete_where, All, Unique-select, Bool-cases, inl, inr,
}
use infinity_proxy.Models.{Tunnel}
use infinity_proxy.Db.{Store, NodeRow, delete_tunnel}
use infinity_proxy.Db.Nodes.{assign_row, release_tunnel}
use infinity_proxy.Db.Ownership.{ids, owned}
use infinity_proxy.Db.Grants.{
  HasKeys, Accounts, BalancedBut, others-BalancedBut, IsBalanced, is_row,
}

freed_rows : ℕ → List NodeRow → List NodeRow
freed_rows tid rows = update_where (λ r. holds tid r.assigned_to) (assign_row none) rows

owned-freed_rows :
    (tid t : ℕ) (rows : List NodeRow)
    → owned t (freed_rows tid rows) ≡ (if tid == t then 0 else owned t rows)
unfolding freed_rows
owned-freed_rows tid t [] = ground arith
owned-freed_rows tid t (r ∷ rs) = ground (arith, owned-freed_rows tid t rs)

ids-freed_rows : (tid : ℕ) (rows : List NodeRow) → ids (freed_rows tid rows) ≡ ids rows
unfolding freed_rows
ids-freed_rows tid rows = map-update_where (λ r. r.node_id) _ (assign_row none) rows (λ r. refl)

-- After a release the tunnel owns nothing, the count returned is what it owned, and every other
-- tunnel owns what it did.
pub owned-release_tunnel :
    (tid : ℕ) (s : Store)
    → let (s', freed) = release_tunnel tid s in
      (freed ≡ owned tid s.nodes)
      × (owned tid s'.nodes ≡ 0)
      × ((t : ℕ) → tid ≢ t → owned t s'.nodes ≡ owned t s.nodes)
      × (s'.tunnels ≡ s.tunnels)
unfolding release_tunnel freed_rows
owned-release_tunnel tid s = (
  refl,
  ground (arith, owned-freed_rows tid tid s.nodes),
  λ t ne. ground (arith, owned-freed_rows tid t s.nodes, ne),
  refl,
)

pub release_tunnel-HasKeys : (tid : ℕ) (s : Store) → HasKeys s → HasKeys (release_tunnel tid s).0
unfolding release_tunnel freed_rows
release_tunnel-HasKeys tid s k = record {
  tunnel_keys = k.tunnel_keys;
  port_keys = k.port_keys;
  node_keys = rw (ids-freed_rows tid s.nodes) k.node_keys;
}

pub release_tunnel-BalancedBut :
    (tid : ℕ) (s : Store)
    → Accounts s
    → BalancedBut tid (release_tunnel tid s).0.nodes (release_tunnel tid s).0.tunnels
unfolding release_tunnel freed_rows
release_tunnel-BalancedBut tid s a =
    others-BalancedBut tid s.nodes (freed_rows tid s.nodes) s.tunnels
      (λ t ne. ground (arith, owned-freed_rows tid t s.nodes, ne)) a.balanced

deleted-IsBalanced :
    (tid : ℕ) (rows : List NodeRow) (ts : List Tunnel)
    → BalancedBut tid rows ts
    → All (IsBalanced rows) (delete_where (is_row tid) ts)
deleted-IsBalanced tid rows [] b = tt
deleted-IsBalanced tid rows (t ∷ ts) b = elim (Bool-cases (is_row tid t)) [
  | inl gone ↦ rw gone (deleted-IsBalanced tid rows ts b.1)
  | inr kept ↦ rw kept (b.0 (λ p. ground arith), deleted-IsBalanced tid rows ts b.1)
]

-- Deleting a tunnel's row closes the accounts, if only that tunnel was out of balance.
pub delete_tunnel-Accounts :
    (tid : ℕ) (s : Store)
    → HasKeys s
    → BalancedBut tid s.nodes s.tunnels
    → Accounts (delete_tunnel tid s)
unfolding delete_tunnel
delete_tunnel-Accounts tid s k b = record {
  keys = record {
    tunnel_keys = Unique-select (λ t. t.tunnel_id) _ s.tunnels k.tunnel_keys;
    port_keys = Unique-select (λ t. t.port) _ s.tunnels k.port_keys;
    node_keys = k.node_keys;
  };
  balanced = deleted-IsBalanced tid s.nodes s.tunnels b;
}
