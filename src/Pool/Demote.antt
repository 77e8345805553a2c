-- ===== src/Pool/Demote.antt =====
-- demote_unrenderable of engine/pool.py: the sweep over the alive nodes before a refresh.
use infinity_proxy.Prelude.{
  ℕ, ◌≡◌, refl, ap, ◌∙◌, sym, Bool, true, not, ◌&&◌, ◌||◌, none, some, List, [], ◌∷◌, map, ◌==◌,
  arith, All, any, select, count_where, update_where, Bool-cases, inl, inr,
}
use infinity_proxy.Prelude.Sort.{any-sort_by, count-sort_by}
use infinity_proxy.Models.{Node, alive}
use infinity_proxy.Db.{Store, NodeRow}
use infinity_proxy.Db.Nodes.{Query, any_node, load_nodes, matches, order_named, chosen_order}
use infinity_proxy.Db.Probes.{apply_each, apply_probe_results, apply_verdict, on_node}
use infinity_proxy.Pool.{demote_each, demote_unrenderable, unrenderable}
use infinity_proxy.Pool.Gate.{is_alive, verdict-is_alive}

abbrev alive_rows : Query
alive_rows = record any_node { state = some alive }

module _ (serves : Node → Bool) where
  -- the id of a node of the list that cannot serve
  abbrev failing : List Node → ℕ → Bool
  failing ns i = any (λ n. n.node_id == i && not (serves n)) ns

  -- the row is not alive, or serves, or the sweep has it still ahead
  abbrev Covered : List Node → NodeRow → Type 0
  Covered ns r = (not (is_alive r) || (serves r.node || failing ns r.node_id)) ≡ true

  sweep_one :
      (now : ℕ) (n : Node) (ns : List Node) (rows : List NodeRow)
      → All (Covered (n ∷ ns)) rows
      → All (Covered ns) (
          update_where
            (λ r. r.node_id == n.node_id)
            (on_node (apply_verdict none now (unrenderable n.node_id)))
            rows)
  sweep_one now n ns [] a = tt
  sweep_one now n ns (r ∷ rs) a = elim (Bool-cases (r.node_id == n.node_id)) [
    | inl hit ↦ rw hit (
      ground (arith, verdict-is_alive none now (unrenderable n.node_id) r),
      sweep_one now n ns rs a.1,
    )
    | inr miss ↦ rw miss (ground (arith, a.0), sweep_one now n ns rs a.1)
  ]

  skip_one :
      (n : Node) (ns : List Node) (rows : List NodeRow)
      → serves n ≡ true
      → All (Covered (n ∷ ns)) rows
      → All (Covered ns) rows
  skip_one n ns [] h a = tt
  skip_one n ns (r ∷ rs) h a = (ground (arith, a.0), skip_one n ns rs h a.1)

  swept :
      (now : ℕ) (n : Node) (ns : List Node) (s : Store)
      → All (Covered (n ∷ ns)) s.nodes
      → All
          (Covered ns)
          (apply_probe_results none now ((n.node_id, unrenderable n.node_id) ∷ []) s).nodes
  unfolding apply_probe_results apply_each
  swept now n ns s a = sweep_one now n ns s.nodes a

  demote_each-All :
      (now : ℕ) (ns : List Node) (s : Store)
      → All (Covered ns) s.nodes
      → All (Covered []) (demote_each serves now ns s).0.nodes
  unfolding demote_each
  demote_each-All now [] s a = a
  demote_each-All now (n ∷ ns) s a = elim (Bool-cases (serves n)) [
    | inl fine ↦ rw fine (demote_each-All now ns s (skip_one n ns s.nodes fine a))
    | inr bad ↦ rw bad (demote_each-All now ns _ (swept now n ns s a))
  ]

  demote_each-count :
      (now : ℕ) (ns : List Node) (s : Store)
      → (demote_each serves now ns s).1 ≡ count_where (λ n. not (serves n)) ns
  unfolding demote_each
  demote_each-count now [] s = refl
  demote_each-count now (n ∷ ns) s = ground (
    arith,
    demote_each-count now ns s,
    demote_each-count now ns
        (apply_probe_results none now ((n.node_id, unrenderable n.node_id) ∷ []) s),
  )

  any-failing :
      (i : ℕ) (rows : List NodeRow)
      → failing (map (λ r. r.node) rows) i ≡ any (λ r. r.node_id == i && not (serves r.node)) rows
  any-failing i [] = refl
  any-failing i (r ∷ rs) = ap (λ b. (r.node_id == i && not (serves r.node)) || b) (any-failing i rs)

  any-select :
      (i : ℕ) (rows : List NodeRow)
      → any (λ r. r.node_id == i && not (serves r.node)) (select (matches alive_rows) rows)
        ≡ any (λ r. is_alive r && (r.node_id == i && not (serves r.node))) rows
  unfolding matches
  any-select i [] = refl
  any-select i (r ∷ rs) = ground (arith, any-select i rs)

  loaded :
      (i : ℕ) (s : Store)
      → failing (load_nodes alive_rows s) i
        ≡ any (λ r. is_alive r && (r.node_id == i && not (serves r.node))) s.nodes
  unfolding load_nodes
  loaded i s =
      any-failing i _
      ∙ any-sort_by (order_named (chosen_order alive_rows)) _ (select (matches alive_rows) s.nodes)
      ∙ any-select i s.nodes

  all-Covered :
      (ns : List Node) (rows : List NodeRow)
      → ((i : ℕ)
          → any (λ r. is_alive r && (r.node_id == i && not (serves r.node))) rows ≡ true
          → failing ns i ≡ true)
      → All (Covered ns) rows
  all-Covered ns [] h = tt
  all-Covered ns (r ∷ rs) h =
      (ground (arith, h r.node_id), all-Covered ns rs (λ i m. h i (ground arith)))

  count-select :
      (rows : List NodeRow)
      → count_where (λ n. not (serves n)) (map (λ r. r.node) (select (matches alive_rows) rows))
        ≡ count_where (λ r. is_alive r && not (serves r.node)) rows
  unfolding matches
  count-select [] = refl
  count-select (r ∷ rs) = ground (arith, count-select rs)

  count-nodes :
      (rows : List NodeRow)
      → count_where (λ n. not (serves n)) (map (λ r. r.node) rows)
        ≡ count_where (λ r. not (serves r.node)) rows
  count-nodes [] = refl
  count-nodes (r ∷ rs) = ground (arith, count-nodes rs)

  loaded-count :
      (s : Store)
      → count_where (λ n. not (serves n)) (load_nodes alive_rows s)
        ≡ count_where (λ r. is_alive r && not (serves r.node)) s.nodes
  unfolding load_nodes
  loaded-count s =
      count-nodes _
      ∙ count-sort_by (order_named (chosen_order alive_rows)) _
          (select (matches alive_rows) s.nodes)
      ∙ sym (count-nodes (select (matches alive_rows) s.nodes))
      ∙ count-select s.nodes

All-served :
    (serves : Node → Bool) (rows : List NodeRow)
    → All (Covered serves []) rows
    → All (λ r. is_alive r ≡ true → serves r.node ≡ true) rows
All-served serves [] a = tt
All-served serves (r ∷ rs) a = ((λ live. ground (arith, a.0)), All-served serves rs a.1)

-- After the sweep every alive node has an outbound and is probeable, and the answer is how many
-- alive nodes there were that had not.
pub demote_unrenderable-All :
    (renders probeable : Node → Bool) (now : ℕ) (s : Store)
    → let (s', demoted) = demote_unrenderable renders probeable now s in
      All (λ r. is_alive r ≡ true → (renders r.node && probeable r.node) ≡ true) s'.nodes
      × (demoted
          ≡ count_where (λ r. is_alive r && not (renders r.node && probeable r.node)) s.nodes)
unfolding demote_unrenderable
demote_unrenderable-All renders probeable now s =
    let serves : Node → Bool = λ n. renders n && probeable n in
    let nodes = load_nodes alive_rows s in
    (
      All-served serves _ (
          demote_each-All serves now nodes s
            (all-Covered serves nodes s.nodes (λ i m. loaded serves i s ∙ m))),
      demote_each-count serves now nodes s ∙ loaded-count serves s,
    )
