-- ===== src/Assigner/Create.antt =====
-- Creation and release of tunnels by engine/assigner.py, against the accounts of the store.
use infinity_proxy.Prelude.{
  ℕ, ◌≤◌, ◌≡◌, ◌≢◌, refl, sym, ap, ◌∙◌, Bool, false, not, ◌&&◌, Option, none, some, List, [], ◌∷◌,
  ◌++◌, map, arith, ◌==◌, if◌then◌else◌, length, find, any, contains, Unique-snoc, All,
  Option-cases, Bool-cases, inl, inr,
}
use infinity_proxy.Config.{Settings}
use infinity_proxy.Models.{Tunnel, Protocol}
use infinity_proxy.Db.{Store, NodeRow, get_tunnel, save_tunnel, port_in_use}
use infinity_proxy.Db.Nodes
use infinity_proxy.Db.Ownership.{owned}
use infinity_proxy.Db.Release.{
  owned-release_tunnel, release_tunnel-HasKeys, release_tunnel-BalancedBut,
}
use infinity_proxy.Db.Grants.{
  HasKeys, Accounts, IsBalanced, tunnel_ids, ports, is_row, save_tunnel-replaces,
  save_tunnel-Accounts, missing-Accounts, found-Accounts,
}
use infinity_proxy.Assigner.{
  release_tunnel, assign_new, allocate_port, create_tunnel_config, Creation, Secrets, new_tunnel,
  port_exhausted, integrity_error, created,
}
use infinity_proxy.Assigner.Exclusive.{assign_new-IsGrant}
use infinity_proxy.Assigner.Ports.{allocate_port-IsLeastUsable, IsLeastUsable}
use infinity_proxy.Assigner.Books.{
  grant-HasKeys, grant-BalancedBut, same-get_tunnel, same-port_in_use, grant-owned,
}

-- what a release returns: the count and the store, with the accounts closed
abbrev pub Released : ℕ → Store → Option (ℕ × Store) → Type 0
Released tid s none = ⊥
Released tid s (some (freed, s')) =
    (freed ≡ owned tid s.nodes)
    × (owned tid s'.nodes ≡ 0)
    × ((t : ℕ) → tid ≢ t → owned t s'.nodes ≡ owned t s.nodes)
    × Accounts s'

-- Where the accounts are in order, releasing a tunnel always succeeds: it frees all the tunnel's
-- nodes and no other's, returns their number, and leaves the accounts in order, also when the
-- tunnel's row is gone.
pub release_tunnel-Released :
    (tid : ℕ) (s : Store) → Accounts s → Released tid s (release_tunnel tid s)
unfolding release_tunnel
release_tunnel-Released tid s a =
    let (s₁, _) = Nodes.release_tunnel tid s in
    let k = release_tunnel-HasKeys tid s a.keys in
    let b = release_tunnel-BalancedBut tid s a in
    let (count, gone, kept, _) = owned-release_tunnel tid s in
    elim (Option-cases (get_tunnel tid s₁)) [
      | inl missing ↦
          rw (missing, release_tunnel) (count, gone, kept, missing-Accounts tid s₁ k b missing)
      | inr (t, there) ↦ elim (Bool-cases (t.node_count_granted == 0)) [
        | inl none_left ↦
            rw (there, release_tunnel)
              (rw none_left
                (count, gone, kept, found-Accounts tid s₁ t k b there (ground (arith, gone))))
        | inr some_left ↦
            let t' = record t { node_count_granted = 0 } in
            rw (there, release_tunnel)
              (rw (some_left, save_tunnel-replaces tid s₁ t t' k there refl refl)
                (
                  count,
                  gone,
                  kept,
                  save_tunnel-Accounts tid s₁ t t' k b there refl refl (sym gone),
                ))
      ]
    ]

new_row-IsBalanced :
    (rows : List NodeRow) (t : Tunnel) (ts : List Tunnel)
    → All (IsBalanced rows) ts
    → IsBalanced rows t
    → All (IsBalanced rows) (ts ++ t ∷ [])
new_row-IsBalanced rows t [] b e = (e, tt)
new_row-IsBalanced rows t (u ∷ us) b e = (b.0, new_row-IsBalanced rows t us b.1 e)

map-snoc :
    (f : Tunnel → ℕ) (ts : List Tunnel) (t : Tunnel) → map f (ts ++ t ∷ []) ≡ map f ts ++ f t ∷ []
map-snoc f [] t = refl
map-snoc f (u ∷ us) t = ap (◌∷◌ (f u)) (map-snoc f us t)

no_row-absent :
    (tid : ℕ) (ts : List Tunnel)
    → find (is_row tid) ts ≡ none
    → (contains tid (tunnel_ids ts) ≡ false) × (any (is_row tid) ts ≡ false)
no_row-absent tid [] h = (refl, refl)
no_row-absent tid (t ∷ ts) h = ground (arith, no_row-absent tid ts)

free_port-absent :
    (p tid : ℕ) (ts : List Tunnel)
    → any (λ t. t.port == p) ts ≡ false
    → (contains p (ports ts) ≡ false)
      × (any (λ u. u.port == p && not (u.tunnel_id == tid)) ts ≡ false)
free_port-absent p tid [] h = (refl, refl)
free_port-absent p tid (t ∷ ts) h = ground (arith, free_port-absent p tid ts)

-- A tunnel under a new id and on a free port is saved as a new row.
save_new :
    (t : Tunnel) (s : Store)
    → get_tunnel t.tunnel_id s ≡ none
    → port_in_use t.port s ≡ false
    → save_tunnel t s ≡ some (record s { tunnels = s.tunnels ++ t ∷ [] })
unfolding save_tunnel get_tunnel port_in_use
save_new t s new free =
    ground
      (arith, no_row-absent t.tunnel_id s.tunnels, free_port-absent t.port t.tunnel_id s.tunnels)

save_new-Accounts :
    (t : Tunnel) (s : Store)
    → HasKeys s
    → All (IsBalanced s.nodes) s.tunnels
    → get_tunnel t.tunnel_id s ≡ none
    → port_in_use t.port s ≡ false
    → t.node_count_granted ≡ owned t.tunnel_id s.nodes
    → Accounts (record s { tunnels = s.tunnels ++ t ∷ [] })
unfolding get_tunnel port_in_use
save_new-Accounts t s k b new free right = record {
  keys = record {
    tunnel_keys =
        rw (map-snoc (λ u. u.tunnel_id))
          (Unique-snoc _ _ k.tunnel_keys (no_row-absent t.tunnel_id s.tunnels new).0);
    port_keys =
        rw (map-snoc (λ u. u.port))
          (Unique-snoc _ _ k.port_keys (free_port-absent t.port t.tunnel_id s.tunnels free).0);
    node_keys = k.node_keys;
  };
  balanced = new_row-IsBalanced s.nodes t s.tunnels b right;
}

-- what the creation of a tunnel comes to
abbrev pub Created : Settings → Secrets → ℕ → Store → Creation → Type 0
Created c names requested s port_exhausted = Unit
Created c names requested s (integrity_error s') = ⊥
Created c names requested s (created t nodes s') =
    Accounts s'
    × (t.tunnel_id ≡ names.tunnel_id)
    × (t.node_count_granted ≡ length nodes)
    × (length nodes ≤ requested)
    × (c.tunnel_port_start ≤ t.port)
    × (t.port ≤ c.tunnel_port_end)
    × (port_in_use t.port s ≡ false)
    × (s'.tunnels ≡ s.tunnels ++ t ∷ [])
    × ((j : ℕ)
        → owned j s'.nodes ≡ (if names.tunnel_id == j then length nodes else owned j s.nodes))

pub create_tunnel_config-Created :
    (c : Settings) (bindable : ℕ → Bool) (now : ℕ) (names : Secrets) (requested : ℕ)
    (auto_renew : Bool) (protocols : List Protocol) (s : Store)
    → Accounts s
    → get_tunnel names.tunnel_id s ≡ none
    → owned names.tunnel_id s.nodes ≡ 0
    → c.tunnel_port_start ≤ c.tunnel_port_end
    → Created c names requested s
        (create_tunnel_config c bindable now names requested auto_renew protocols s)
unfolding create_tunnel_config
create_tunnel_config-Created c bindable now names requested auto_renew protocols s a new none_owned
      range =
    let tid = names.tunnel_id in
    let (nodes, s₁) = assign_new c now tid requested protocols s in
    let g = assign_new-IsGrant c now tid requested protocols s a.keys.node_keys in
    let least = allocate_port-IsLeastUsable c bindable s range in
    elim (Option-cases (allocate_port c bindable s)) [
      | inl exhausted ↦ rw (exhausted, create_tunnel_config) tt
      | inr (port, found) ↦
          let (in_low, in_high, unused, _, _) : IsLeastUsable bindable s c.tunnel_port_start
              c.tunnel_port_end (some port) =
            rw found at least in
          let t =
            new_tunnel now tid port names.username names.password requested (length nodes)
              auto_renew in
          let new₁ = same-get_tunnel g a tid ∙ new in
          let free₁ = same-port_in_use g a port ∙ unused in
          let a₁ = missing-Accounts tid s₁ (grant-HasKeys g a) (grant-BalancedBut g a) new₁ in
          rw (found, create_tunnel_config)
            (rw (save_new t s₁ new₁ free₁) (
              save_new-Accounts t s₁ a₁.keys a₁.balanced new₁ free₁ (omega (arith, g.gains)),
              refl,
              refl,
              g.at_most,
              in_low,
              in_high,
              unused,
              ap (λ ts. ts ++ t ∷ []) g.same_tunnels,
              grant-owned g a none_owned,
            ))
    ]
