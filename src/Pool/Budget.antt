-- ===== src/Pool/Budget.antt =====
-- How many nodes one refresh of engine/pool.py probes.
use infinity_proxy.Prelude.{
  true, false, All, select, refl, zero, suc, ℕ, String, ◌+◌, ◌-◌, ◌≤◌, ◌≡◌, List, [], ◌∷◌, ◌++◌,
  map, leb, Option, none, some, arith, length, take, length-append, length-take, length-map,
  Bool-cases, inl, inr,
}
use infinity_proxy.Prelude.Sort.{All-sort_by}
use infinity_proxy.Config.{Settings}
use infinity_proxy.Models.{NodeState, Protocol, Node, untested, alive, dead, same_state}
use infinity_proxy.Db.{Store, NodeRow}
use infinity_proxy.Db.Nodes.{
  Query, any_node, load_nodes, matches, limited, order_named, chosen_order,
}
use infinity_proxy.Pool.{
  SourceManifest, gather_untested, retest_sample, nodes_to_probe, probe_tiers,
}

-- A query with a limit answers no more rows.
pub load_nodes-le : (q : Query) (n : ℕ) (s : Store) → q.limit ≡ some n → length (load_nodes q s) ≤ n
unfolding load_nodes
load_nodes-le q n s h = rw h (rw length-map (rw length-take (omega arith)))

leb-false : (a b : ℕ) → leb a b ≡ false → b ≤ a
leb-false a b h = ground arith

abbrev fresh_query : ℕ → List Protocol → List Node → Query
fresh_query budget tier found = record any_node {
  state = some untested;
  protocols = tier;
  limit = some (budget - length found);
  oldest_first = true;
}

abbrev retest_query : ℕ → String → Query
retest_query budget name = record any_node {
  state = some dead;
  source = some name;
  limit = some budget;
  oldest_first = true;
}

gather_untested-le :
    (budget : ℕ) (tiers : List (List Protocol)) (found : List Node) (s : Store)
    → length found ≤ budget
    → length (gather_untested budget tiers found s) ≤ budget
unfolding gather_untested
gather_untested-le budget [] found s h = h
gather_untested-le budget (tier ∷ tiers) found s h =
    let more = load_nodes (fresh_query budget tier found) s in
    elim (Bool-cases (leb budget (length found))) [
      | inl enough ↦ rw enough h
      | inr room ↦ rw room (
          gather_untested-le budget tiers (found ++ more) s (
            rw length-append (
              omega (
                arith,
                load_nodes-le (fresh_query budget tier found) (budget - length found) s refl,
                leb-false budget (length found) room,
              ))))
    ]

-- One refresh probes at most its budget of new nodes and its budget of dead ones.
pub nodes_to_probe-le :
    (c : Settings) (source : SourceManifest) (s : Store)
    → length (nodes_to_probe c source s) ≤ c.probe_budget_per_refresh + c.dead_retest_budget
unfolding nodes_to_probe retest_sample
nodes_to_probe-le c source s = rw length-append (
    omega (
      arith,
      gather_untested-le c.probe_budget_per_refresh probe_tiers [] s (omega arith),
      load_nodes-le (retest_query c.dead_retest_budget source.name) c.dead_retest_budget s refl,
    ))

All-take : (P : NodeRow → Type 0) (n : ℕ) (rows : List NodeRow) → All P rows → All P (take n rows)
All-take P zero rows a = tt
All-take P (suc n) [] a = tt
All-take P (suc n) (r ∷ rs) a = (a.0, All-take P n rs a.1)

All-limited :
    (P : NodeRow → Type 0) (o : Option ℕ) (rows : List NodeRow)
    → All P rows
    → All P (limited o rows)
All-limited P none rows a = a
All-limited P (some n) rows a = All-take P n rows a

All-nodes :
    (P : Node → Type 0) (Q : NodeRow → Type 0) (rows : List NodeRow)
    → ((r : NodeRow) → Q r → P r.node)
    → All Q rows
    → All P (map (λ r. r.node) rows)
All-nodes P Q [] h a = tt
All-nodes P Q (r ∷ rs) h a = (h r a.0, All-nodes P Q rs h a.1)

All-select :
    (q : Query) (rows : List NodeRow) → All (λ r. matches q r ≡ true) (select (matches q) rows)
All-select q [] = tt
All-select q (r ∷ rs) = elim (Bool-cases (matches q r)) [
  | inl hit ↦ rw hit (hit, All-select q rs)
  | inr miss ↦ rw miss (All-select q rs)
]

-- What holds of every row that the WHERE clause lets through holds of every node that is read.
pub load_nodes-All :
    (P : Node → Type 0) (q : Query) (s : Store)
    → ((r : NodeRow) → matches q r ≡ true → P r.node)
    → All P (load_nodes q s)
unfolding load_nodes
load_nodes-All P q s h =
    let Hit : NodeRow → Type 0 = λ r. matches q r ≡ true in
    let key = order_named (chosen_order q) in
    All-nodes P Hit _ h (All-limited Hit q.limit _ (All-sort_by key Hit _ (All-select q s.nodes)))

All-append : (P : Node → Type 0) (xs ys : List Node) → All P xs → All P ys → All P (xs ++ ys)
All-append P [] ys a b = b
All-append P (x ∷ xs) ys a b = (a.0, All-append P xs ys a.1 b)

abbrev pub IsNotAlive : Node → Type 0
IsNotAlive n = same_state n.state alive ≡ false

other_state :
    (q : Query) (st : NodeState) (r : NodeRow)
    → q.state ≡ some st
    → same_state st alive ≡ false
    → matches q r ≡ true
    → same_state r.state alive ≡ false
unfolding matches
other_state q st r is_st other hit = let checked = rw is_st at hit in ground arith

gather_untested-All :
    (budget : ℕ) (tiers : List (List Protocol)) (found : List Node) (s : Store)
    → All IsNotAlive found
    → All IsNotAlive (gather_untested budget tiers found s)
unfolding gather_untested
gather_untested-All budget [] found s a = a
gather_untested-All budget (tier ∷ tiers) found s a =
    elim (Bool-cases (leb budget (length found))) [
      | inl enough ↦ rw enough a
      | inr room ↦
          let q = fresh_query budget tier found in
          rw room (
            gather_untested-All budget tiers (found ++ load_nodes q s) s (
              All-append IsNotAlive found (load_nodes q s) a
                (load_nodes-All IsNotAlive q s (λ r hit. other_state q untested r refl refl hit))))
    ]

-- No alive node is probed by a refresh: alive rows are left to the health passes.
pub nodes_to_probe-All :
    (c : Settings) (source : SourceManifest) (s : Store)
    → All IsNotAlive (nodes_to_probe c source s)
unfolding nodes_to_probe retest_sample
nodes_to_probe-All c source s =
    let q = retest_query c.dead_retest_budget source.name in
    All-append IsNotAlive (gather_untested c.probe_budget_per_refresh probe_tiers [] s) _
      (gather_untested-All c.probe_budget_per_refresh probe_tiers [] s tt)
      (load_nodes-All IsNotAlive q s (λ r hit. other_state q dead r refl refl hit))
