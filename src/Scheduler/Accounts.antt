-- ===== src/Scheduler/Accounts.antt =====
-- The health pass of engine/scheduler.py keeps the accounts of the store.
use infinity_proxy.Prelude.{
  ℕ, suc, ◌+◌, ◌-◌, ◌≡◌, ◌≢◌, refl, ap, ◌∙◌, Bool, true, false, Option, none, some, ◌==◌,
  if◌then◌else◌, ltb, arith, Bool-cases, Option-cases, inl, inr, List, [], ◌∷◌, All, contains,
  Unique,
}
use infinity_proxy.Config.{Settings}
use infinity_proxy.Models.{Tunnel, running}
use infinity_proxy.Db.{Store, get_tunnel, save_tunnel}
use infinity_proxy.Db.Nodes.{unassign_node}
use infinity_proxy.Db.Ownership.{
  owned, owns, set_owner, owned-set_owner-none, owns-set_owner_ne, ids-set_owner,
}
use infinity_proxy.Db.Grants.{
  HasKeys, Accounts, BalancedBut, get_tunnel-IsBalanced, save_tunnel-replaces, save_tunnel-Accounts,
  missing-Accounts, others-BalancedBut,
}
use infinity_proxy.Scheduler.{Engine, bump_granted, misses_of, pop_strike}
use infinity_proxy.Scheduler.Health.{strike, apply_health_verdicts}

nodes-bump_granted :
    (tid plus minus : ℕ) (e : Engine)
    → (bump_granted tid plus minus e).0.store.nodes ≡ e.store.nodes
unfolding bump_granted save_tunnel
nodes-bump_granted tid plus minus e = ground arith

-- If only this tunnel is out of balance, and by the amount given, the bump puts it right.
pub bump_granted-Accounts :
    (tid plus minus : ℕ) (e : Engine)
    → HasKeys e.store
    → BalancedBut tid e.store.nodes e.store.tunnels
    → ((t : Tunnel)
        → get_tunnel tid e.store ≡ some t
        → t.node_count_granted + plus - minus ≡ owned tid e.store.nodes)
    → ((bump_granted tid plus minus e).1 ≡ true) × Accounts (bump_granted tid plus minus e).0.store
unfolding bump_granted
bump_granted-Accounts tid plus minus e k b due = elim (Option-cases (get_tunnel tid e.store)) [
  | inl gone ↦ rw (gone, bump_granted) (refl, missing-Accounts tid e.store k b gone)
  | inr (t, there) ↦
      let t' = record t {
        node_count_granted = t.node_count_granted + plus - minus;
        state = running;
      } in
      rw (there, bump_granted)
        (rw (save_tunnel-replaces tid e.store t t' k there refl refl)
          (refl, save_tunnel-Accounts tid e.store t t' k b there refl refl (due t there)))
]

set_owner-HasKeys :
    (o : Option ℕ) (i : ℕ) (s : Store)
    → HasKeys s
    → HasKeys (record s { nodes = set_owner o i s.nodes })
set_owner-HasKeys o i s k = record {
  tunnel_keys = k.tunnel_keys;
  port_keys = k.port_keys;
  node_keys = rw ids-set_owner k.node_keys;
}

-- the node taken away, before the grant is counted down
freed : ℕ → ℕ → Engine → Engine
freed tid nid e = record e {
  strikes = pop_strike tid nid e.strikes;
  store = record e.store { nodes = set_owner none nid e.store.nodes };
}

module _ (tid nid : ℕ) (e : Engine) (a : Accounts e.store)
    (mine : owns tid e.store.nodes nid ≡ true) where
  one_less :
      (t : ℕ)
      → owned t e.store.nodes ≡ (
          if tid == t
          then suc (owned t (set_owner none nid e.store.nodes))
          else owned t (set_owner none nid e.store.nodes))
  one_less t = owned-set_owner-none tid t nid e.store.nodes a.keys.node_keys mine

  freed-Accounts :
      ((bump_granted tid 0 1 (freed tid nid e)).1 ≡ true)
      × Accounts (bump_granted tid 0 1 (freed tid nid e)).0.store
  unfolding freed get_tunnel
  freed-Accounts =
      bump_granted-Accounts tid 0 1 (freed tid nid e) (set_owner-HasKeys none nid e.store a.keys)
        (others-BalancedBut tid e.store.nodes (set_owner none nid e.store.nodes) e.store.tunnels
          (λ t ne. ground (arith, one_less t, ne)) a.balanced)
        (λ t there. ground (arith, one_less tid, get_tunnel-IsBalanced tid e.store t a there))

  freed-owns :
      (j : ℕ)
      → nid ≢ j
      → owns tid (bump_granted tid 0 1 (freed tid nid e)).0.store.nodes j ≡ owns tid e.store.nodes j
  unfolding freed
  freed-owns j ne =
      ap (λ rows. owns tid rows j) (nodes-bump_granted tid 0 1 (freed tid nid e))
      ∙ owns-set_owner_ne none tid nid j e.store.nodes ne

  -- what one verdict leaves: no exception, the accounts, and the ownership of the other nodes
  pub strike-Accounts :
      (c : Settings) (now : ℕ) (is_alive : Bool)
      → let (e', _, fine) = strike c now tid nid is_alive e in
        (fine ≡ true)
        × Accounts e'.store
        × ((j : ℕ) → nid ≢ j → owns tid e'.store.nodes j ≡ owns tid e.store.nodes j)
  unfolding strike freed set_owner unassign_node
  strike-Accounts c now true = (refl, a, λ j ne. refl)
  strike-Accounts c now false =
      elim (Bool-cases (ltb (suc (misses_of tid nid e.strikes)) c.max_misses)) [
        | inl few ↦ rw few (refl, a, λ j ne. refl)
        | inr many ↦ rw many (rw (freed-Accounts.0) (refl, freed-Accounts.1, freed-owns))
      ]

-- every node of the list belongs to the tunnel
abbrev pub AllMine : ℕ → Engine → List ℕ → Type 0
AllMine tid e nids = All (λ j. owns tid e.store.nodes j ≡ true) nids

AllMine-after :
    (tid nid : ℕ) (e e' : Engine) (nids : List ℕ)
    → ((j : ℕ) → nid ≢ j → owns tid e'.store.nodes j ≡ owns tid e.store.nodes j)
    → contains nid nids ≡ false
    → AllMine tid e nids
    → AllMine tid e' nids
AllMine-after tid nid e e' [] same fresh mine = tt
AllMine-after tid nid e e' (j ∷ js) same fresh mine =
    (same j (λ p. ground arith) ∙ mine.0, AllMine-after tid nid e e' js same (ground arith) mine.1)

-- The verdicts of a pass over distinct nodes of the tunnel raise nothing and keep the accounts.
pub apply_health_verdicts-Accounts :
    (c : Settings) (now tid : ℕ) (is_alive : ℕ → Bool) (nids : List ℕ) (e : Engine)
    → Accounts e.store
    → Unique nids
    → AllMine tid e nids
    → let (e', _, fine) = apply_health_verdicts c now tid is_alive nids e in
      (fine ≡ true) × Accounts e'.store
unfolding apply_health_verdicts
apply_health_verdicts-Accounts c now tid is_alive [] e a u mine = (refl, a)
apply_health_verdicts-Accounts c now tid is_alive (nid ∷ nids) e a u mine =
    let (fine, a', same) = strike-Accounts tid nid e a mine.0 c now (is_alive nid) in
    let e' : Engine = (strike c now tid nid (is_alive nid) e).0 in
    rw fine (
      apply_health_verdicts-Accounts c now tid is_alive nids e' a' u.1
        (AllMine-after tid nid e e' nids same u.0 mine.1))
