-- ===== src/Assigner/Books.antt =====
-- What a grant of nodes by engine/assigner.py does to the accounts of the store.
use infinity_proxy.Prelude.{
  ℕ, ◌+◌, ◌-◌, ◌≡◌, sym, ap, ◌∙◌, some, List, ◌==◌, if◌then◌else◌, find, any, length, arith,
}
use native.Mathlib.Decide.{ℕ_discrete}
use infinity_proxy.Models.{Node, Tunnel}
use infinity_proxy.Db.{Store, get_tunnel, port_in_use}
use infinity_proxy.Db.Ownership.{owned}
use infinity_proxy.Db.Grants.{
  HasKeys, Accounts, BalancedBut, get_tunnel-IsBalanced, others-BalancedBut, same-IsBalanced,
}
use infinity_proxy.Assigner.Exclusive.{IsGrant}

module _ {room tid : ℕ} {s : Store} {granted : List Node} {s' : Store}
    (g : IsGrant room tid s granted s') (a : Accounts s) where
  pub grant-HasKeys : HasKeys s'
  grant-HasKeys = record {
    tunnel_keys = rw (g.same_tunnels) a.keys.tunnel_keys;
    port_keys = rw (g.same_tunnels) a.keys.port_keys;
    node_keys = rw (g.same_ids) a.keys.node_keys;
  }

  pub grant-BalancedBut : BalancedBut tid s'.nodes s'.tunnels
  grant-BalancedBut =
      rw (g.same_tunnels) (others-BalancedBut tid s.nodes s'.nodes s.tunnels g.others a.balanced)

  pub same-get_tunnel : (i : ℕ) → get_tunnel i s' ≡ get_tunnel i s
  unfolding get_tunnel
  same-get_tunnel i = ap (find (λ u. u.tunnel_id == i)) g.same_tunnels

  pub same-port_in_use : (p : ℕ) → port_in_use p s' ≡ port_in_use p s
  unfolding port_in_use
  same-port_in_use p = ap (any (λ u. u.port == p)) g.same_tunnels

  pub grant-due :
      (t : Tunnel)
      → get_tunnel tid s' ≡ some t
      → t.node_count_granted + length granted - 0 ≡ owned tid s'.nodes
  unfolding get_tunnel
  grant-due t there = omega (
    arith,
    g.gains,
    get_tunnel-IsBalanced tid s t a
        (ap (find (λ u. u.tunnel_id == tid)) (sym g.same_tunnels) ∙ there),
  )

  -- A grant of nothing leaves the accounts in order.
  pub no_grant-Accounts : length granted ≡ 0 → Accounts s'
  no_grant-Accounts e = record {
    keys = grant-HasKeys;
    balanced = rw (g.same_tunnels) (
        same-IsBalanced s.nodes s'.nodes s.tunnels
          (λ t. elim (ℕ_discrete tid t) [
            | yes p ↦ rw (← p) (omega (arith, g.gains))
            | no ne ↦ g.others t ne
          ])
          a.balanced);
  }

  -- Who owns how many after a grant to a tunnel that owned nothing.
  pub grant-owned :
      owned tid s.nodes ≡ 0
      → (j : ℕ) → owned j s'.nodes ≡ (if tid == j then length granted else owned j s.nodes)
  grant-owned none_owned j = elim (ℕ_discrete tid j) [
    | yes p ↦ rw (← p) (ground (arith, g.gains))
    | no ne ↦ ground (arith, g.others j ne, ne)
  ]
