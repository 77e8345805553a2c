-- ===== src/Assigner/Exclusive.antt =====
-- The exclusivity rule of engine/assigner.py: a tunnel is only ever granted nodes that nobody owns.
use infinity_proxy.Prelude.{
  ℕ, ◌+◌, ◌-◌, ◌≤◌, ◌≡◌, ◌≢◌, refl, ap, true, false, not, Option, none, some, List, [], ◌∷◌, map,
  arith, leb, ◌==◌, if◌then◌else◌, select, length, take, contains, is_some, Key, Unique,
  Unique-select, Unique-take, contains-select, contains-take, contains-take, Option-cases,
  Bool-cases, inl, inr, length-map, length-take,
}
use infinity_proxy.Prelude.Sort.{sort_by, contains-sort_by, Unique-sort_by}
use infinity_proxy.Config.{Settings, policy}
use infinity_proxy.Models.{Node, Tunnel, Protocol}
use infinity_proxy.Stability.{score_nodes, score_key, speed_percentile_map}
use infinity_proxy.Db.{Store, NodeRow, get_tunnel}
use infinity_proxy.Db.Nodes.{
  load_nodes, matches, order_named, chosen_order, node_ids_in_use, assign_nodes,
}
use infinity_proxy.Db.Ownership.{
  ids, owned, owns, free_in, free_in-known, owns-assign_each, owns-assign_each_ne, AllFree,
  owned-assign_each, ids-assign_each,
}
use infinity_proxy.Assigner.{
  alive_query, unused_nodes, free_nodes, prefer_best, best_key, node_ids, assign_new, top_up,
}

row_ids-nodes : (rows : List NodeRow) → node_ids (map (λ r. r.node) rows) ≡ ids rows
row_ids-nodes [] = refl
row_ids-nodes (r ∷ rs) = ap (◌∷◌ r.node_id) (row_ids-nodes rs)

-- an id with a row that is not in use is free
not_in_use-free :
    (i : ℕ) (rows : List NodeRow)
    → contains i (ids rows) ≡ true
    → contains i (map (λ r. r.node_id) (select (λ r. is_some r.assigned_to) rows)) ≡ false
    → free_in rows i ≡ true
not_in_use-free i [] h n = h
not_in_use-free i (r ∷ rs) h n = ground (arith, not_in_use-free i rs)

kept-passes :
    (i : ℕ) (used : List ℕ) (nodes : List Node)
    → contains i (node_ids (select (λ n. not (contains n.node_id used)) nodes)) ≡ true
    → (contains i (node_ids nodes) ≡ true) × (contains i used ≡ false)
kept-passes i used [] h = ground arith
kept-passes i used (n ∷ ns) h = ground (arith, kept-passes i used ns)

module _ (protocols : List Protocol) (s : Store) where
  matching : List NodeRow
  matching = select (matches (alive_query protocols)) s.nodes

  load_key : NodeRow → List Key
  load_key = order_named (chosen_order (alive_query protocols))

  loaded-ids : node_ids (load_nodes (alive_query protocols) s) ≡ ids (sort_by load_key matching)
  unfolding load_nodes matching load_key
  loaded-ids = row_ids-nodes (sort_by load_key matching)

  loaded-known :
      (i : ℕ)
      → contains i (node_ids (load_nodes (alive_query protocols) s)) ≡ true
      → contains i (ids s.nodes) ≡ true
  unfolding matching
  loaded-known i h = ground (
    arith,
    ap (contains i) loaded-ids,
    contains-sort_by load_key (λ (r : NodeRow). r.node_id) i matching,
    contains-select (λ (r : NodeRow). r.node_id) i (matches (alive_query protocols)) s.nodes,
  )

  loaded-Unique : Unique (ids s.nodes) → Unique (node_ids (load_nodes (alive_query protocols) s))
  unfolding matching
  loaded-Unique u = rw loaded-ids (
      Unique-sort_by load_key (λ r. r.node_id) matching
        (Unique-select (λ r. r.node_id) (matches (alive_query protocols)) s.nodes u))

  unused-AllFree : AllFree s.nodes (node_ids (unused_nodes protocols s))
  unfolding unused_nodes node_ids_in_use
  unused-AllFree i h =
      let (loaded, idle) =
        kept-passes i (node_ids_in_use s) (load_nodes (alive_query protocols) s) h in
      not_in_use-free i s.nodes (loaded-known i loaded) idle

  unused-Unique : Unique (ids s.nodes) → Unique (node_ids (unused_nodes protocols s))
  unfolding unused_nodes
  unused-Unique u =
      Unique-select (λ n. n.node_id) (λ n. not (contains n.node_id (node_ids_in_use s)))
        (load_nodes (alive_query protocols) s) (loaded-Unique u)

-- Both orders of preference only sort.
pub free_key : Settings → ℕ → List Protocol → Store → Node → List Key
free_key c now protocols s n =
    if c.stability_enabled
    then score_key (policy c) now
        (speed_percentile_map (unused_nodes protocols s) now (some c.stability_max_age_s)) n
    else best_key n

module _ (c : Settings) (now : ℕ) (protocols : List Protocol) (s : Store) where
  pub free_nodes-sorted :
      free_nodes c now protocols s ≡ sort_by (free_key c now protocols s) (unused_nodes protocols s)
  unfolding free_nodes free_key score_nodes prefer_best policy
  free_nodes-sorted = elim (Bool-cases c.stability_enabled) [ inl e ↦ rw e | inr e ↦ rw e ]

  free-AllFree : AllFree s.nodes (node_ids (free_nodes c now protocols s))
  free-AllFree i h = unused-AllFree protocols s i (
      ground (
        arith,
        ap (λ (ns : List Node). contains i (node_ids ns)) free_nodes-sorted,
        contains-sort_by (free_key c now protocols s) (λ (n : Node). n.node_id) i
            (unused_nodes protocols s),
      ))

  free-Unique : Unique (ids s.nodes) → Unique (node_ids (free_nodes c now protocols s))
  free-Unique u = rw free_nodes-sorted (
      Unique-sort_by (free_key c now protocols s) (λ n. n.node_id) (unused_nodes protocols s)
        (unused-Unique protocols s u))

-- What a grant of nodes is: at most `room` of them, distinct and free before; after it each of them
-- is the tunnel's, no other node has changed hands, and the tunnel owns that many more and every
-- other tunnel as many as it did.
pub record IsGrant (room tid : ℕ) (s : Store) (granted : List Node) (s' : Store) : Type 0 where
  pub at_most : length granted ≤ room
  pub distinct : Unique (node_ids granted)
  pub were_free : AllFree s.nodes (node_ids granted)
  pub all_granted : (i : ℕ) → contains i (node_ids granted) ≡ true → owns tid s'.nodes i ≡ true
  pub untouched :
      (i t : ℕ) → contains i (node_ids granted) ≡ false → owns t s'.nodes i ≡ owns t s.nodes i
  pub gains : owned tid s'.nodes ≡ owned tid s.nodes + length granted
  pub others : (t : ℕ) → tid ≢ t → owned t s'.nodes ≡ owned t s.nodes
  pub same_ids : ids s'.nodes ≡ ids s.nodes
  pub same_tunnels : s'.tunnels ≡ s.tunnels

no-IsGrant : (room tid : ℕ) (s : Store) → IsGrant room tid s [] s
no-IsGrant room tid s = record {
  at_most = omega arith;
  distinct = tt;
  were_free = λ j h. ground arith;
  all_granted = λ j h. ground arith;
  untouched = λ i t h. refl;
  gains = omega arith;
  others = λ t h. refl;
  same_ids = refl;
  same_tunnels = refl;
}

take-IsGrant :
    (c : Settings) (now room tid : ℕ) (protocols : List Protocol) (s : Store)
    → Unique (ids s.nodes)
    → let granted = take room (free_nodes c now protocols s) in
      IsGrant room tid s granted (assign_nodes (node_ids granted) tid s)
unfolding assign_nodes
take-IsGrant c now room tid protocols s u =
    let nodes = free_nodes c now protocols s in
    let granted = take room nodes in
    let distinct =
      Unique-take (λ (n : Node). n.node_id) room nodes (free-Unique c now protocols s u) in
    let free : AllFree s.nodes (node_ids granted) =
      λ j h. free-AllFree c now protocols s j (contains-take (λ n. n.node_id) j room nodes h) in
    record {
      at_most = omega (arith, length-take room nodes);
      distinct = distinct;
      were_free = free;
      all_granted = λ i h.
          owns-assign_each (node_ids granted) tid i s.nodes distinct h
            (free_in-known i s.nodes (free i h));
      untouched = λ i t h. owns-assign_each_ne (node_ids granted) tid t i s.nodes h;
      gains =
          let grown = owned-assign_each (node_ids granted) tid tid s.nodes u distinct free in
          ground (arith, length-map (λ (n : Node). n.node_id) granted);
      others = λ t ne.
          let kept = owned-assign_each (node_ids granted) tid t s.nodes u distinct free in
          ground (arith, ne);
      same_ids = ids-assign_each (node_ids granted) tid s.nodes;
      same_tunnels = refl;
    }

-- In a store with distinct node ids assign_new grants at most the requested number of distinct free
-- nodes; each of them is the new tunnel's afterwards, and no other node changes hands.
pub assign_new-IsGrant :
    (c : Settings) (now tid requested : ℕ) (protocols : List Protocol) (s : Store)
    → Unique (ids s.nodes)
    → let (granted, s') = assign_new c now tid requested protocols s in
      IsGrant requested tid s granted s'
unfolding assign_new
assign_new-IsGrant c now tid requested protocols s u = elim (Bool-cases (requested == 0)) [
  | inl nothing ↦ rw nothing (no-IsGrant requested tid s)
  | inr some_nodes ↦ rw some_nodes (take-IsGrant c now requested tid protocols s u)
]

-- how many nodes a tunnel still lacks of a target
abbrev pub room_of : ℕ → Option Tunnel → ℕ
room_of target none = 0
room_of target (some t) = target - t.node_count_granted

-- In a store with distinct node ids top_up grants only free nodes, at most what the tunnel lacks of
-- its target, and nothing to a tunnel with no row.
pub top_up-IsGrant :
    (c : Settings) (now tid target : ℕ) (protocols : List Protocol) (s : Store)
    → Unique (ids s.nodes)
    → let (added, s') = top_up c now tid target protocols s in
      IsGrant (room_of target (get_tunnel tid s)) tid s added s'
unfolding top_up
top_up-IsGrant c now tid target protocols s u = elim (Option-cases (get_tunnel tid s)) [
  | inl gone ↦ rw (gone, top_up) (no-IsGrant 0 tid s)
  | inr (t, there) ↦ elim (Bool-cases (leb target t.node_count_granted)) [
    | inl full ↦ rw (there, full, top_up) (no-IsGrant (target - t.node_count_granted) tid s)
    | inr room ↦
        rw (there, room, top_up)
          (take-IsGrant c now (target - t.node_count_granted) tid protocols s u)
  ]
]
