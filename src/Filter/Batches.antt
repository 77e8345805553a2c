-- ===== src/Filter/Batches.antt =====
-- Batches against one pass: engine/filter/runner.py gives the same results whatever the batch size.
use infinity_proxy.Prelude.{
  ℕ, ◌<◌, ◌≡◌, refl, sym, ap, ◌∙◌, true, false, Option, some, List, [], ◌∷◌, ◌++◌, map, arith, ◌==◌,
  if◌then◌else◌, contains, contains-append, Unique,
}
use infinity_proxy.Prelude.Chunks.{chunks, concat, concat-chunks}
use infinity_proxy.Models.{Node, ProbeResult}
use infinity_proxy.Db.{Store, NodeRow}
use infinity_proxy.Db.Probes.{apply_each, apply_probe_results}
use infinity_proxy.Filter.{Probed, probe_one, set_result, set_each, run_chunks, batch_probe}

abbrev pub keys : List (ℕ × ProbeResult) → List ℕ
keys = map (λ e. e.0)

-- the results of one probe of each node, in order
abbrev pub one_by_one : (Node → Probed) → List Node → List (ℕ × ProbeResult)
one_by_one probe = map (λ n. (n.node_id, probe_one probe n))

set_result-new :
    (i : ℕ) (res : ProbeResult) (results : List (ℕ × ProbeResult))
    → contains i (keys results) ≡ false
    → set_result i res results ≡ results ++ (i, res) ∷ []
unfolding set_result
set_result-new i res [] h = refl
set_result-new i res (e ∷ es) h = ground (arith, set_result-new i res es)

append_assoc : {A : Type 0} (xs ys zs : List A) → (xs ++ ys) ++ zs ≡ xs ++ (ys ++ zs)
append_assoc [] ys zs = refl
append_assoc (x ∷ xs) ys zs = ap (◌∷◌ x) (append_assoc xs ys zs)

keys-snoc :
    (i j : ℕ) (res : ProbeResult) (results : List (ℕ × ProbeResult))
    → contains i (keys (results ++ (j, res) ∷ []))
      ≡ (if j == i then true else contains i (keys results))
keys-snoc i j res [] = ground arith
keys-snoc i j res (e ∷ es) = ground (arith, keys-snoc i j res es)

append-nil : {A : Type 0} (xs : List A) → xs ++ [] ≡ xs
append-nil [] = refl
append-nil (x ∷ xs) = ap (◌∷◌ x) (append-nil xs)

-- no node of the list has a result yet
abbrev pub AllNew : List Node → List (ℕ × ProbeResult) → Type 0
AllNew [] results = Unit
AllNew (n ∷ ns) results = (contains n.node_id (keys results) ≡ false) × AllNew ns results

AllNew-snoc :
    (ns : List Node) (results : List (ℕ × ProbeResult)) (i : ℕ) (res : ProbeResult)
    → contains i (map (λ n. n.node_id) ns) ≡ false
    → AllNew ns results
    → AllNew ns (results ++ (i, res) ∷ [])
AllNew-snoc [] results i res h new = tt
AllNew-snoc (n ∷ ns) results i res h new = (
  ground (arith, keys-snoc n.node_id i res results),
  AllNew-snoc ns results i res (ground arith) new.1,
)

set_each-appends :
    (probe : Node → Probed) (ns : List Node) (results : List (ℕ × ProbeResult))
    → Unique (map (λ n. n.node_id) ns)
    → AllNew ns results
    → set_each probe ns results ≡ results ++ one_by_one probe ns
unfolding set_each
set_each-appends probe [] results u new = sym (append-nil results)
set_each-appends probe (n ∷ ns) results u new =
    let res = probe_one probe n in
    let grown = results ++ (n.node_id, res) ∷ [] in
    ap (set_each probe ns) (set_result-new n.node_id res results new.0)
    ∙ set_each-appends probe ns grown u.1 (AllNew-snoc ns results n.node_id res u.0 new.1)
    ∙ append_assoc results ((n.node_id, res) ∷ []) (one_by_one probe ns)

map-append : {A B : Type 0} (f : A → B) (xs ys : List A) → map f (xs ++ ys) ≡ map f xs ++ map f ys
map-append f [] ys = refl
map-append f (x ∷ xs) ys = ap (◌∷◌ (f x)) (map-append f xs ys)

Unique-parts : (is js : List ℕ) → Unique (is ++ js) → Unique is × Unique js
Unique-parts [] js u = (tt, u)
Unique-parts (i ∷ is) js u =
    let (front, back) = Unique-parts is js u.1 in
    ((ground (arith, contains-append i is js, u.0), front), back)

AllNew-nil : (ns : List Node) → AllNew ns []
AllNew-nil [] = tt
AllNew-nil (n ∷ ns) = (refl, AllNew-nil ns)

set_each-append :
    (probe : Node → Probed) (xs ys : List Node) (results : List (ℕ × ProbeResult))
    → set_each probe (xs ++ ys) results ≡ set_each probe ys (set_each probe xs results)
unfolding set_each
set_each-append probe [] ys results = refl
set_each-append probe (x ∷ xs) ys results = set_each-append probe xs ys _

module _ {S : Type 0} (on_batch : List (ℕ × ProbeResult) → S → S) (probe : Node → Probed) where
  results-run_chunks :
      (cs : List (List Node)) (results : List (ℕ × ProbeResult)) (s : S)
      → (run_chunks on_batch probe cs results s).0 ≡ set_each probe (concat cs) results
  unfolding run_chunks set_each
  results-run_chunks [] results s = refl
  results-run_chunks (c ∷ cs) results s =
      results-run_chunks cs (set_each probe c results) (on_batch (set_each probe c []) s)
      ∙ sym (set_each-append probe c (concat cs) results)

  module _ (nothing : (s : S) → on_batch [] s ≡ s)
      (in_parts : (xs ys : List (ℕ × ProbeResult)) (s : S)
        → on_batch (xs ++ ys) s ≡ on_batch ys (on_batch xs s)) where
    state-run_chunks :
        (cs : List (List Node)) (results : List (ℕ × ProbeResult)) (s : S)
        → Unique (map (λ n. n.node_id) (concat cs))
        → (run_chunks on_batch probe cs results s).1 ≡ on_batch (one_by_one probe (concat cs)) s
    unfolding run_chunks
    state-run_chunks [] results s u = sym (nothing s)
    state-run_chunks (c ∷ cs) results s u =
        let split = map-append (λ (n : Node). n.node_id) c (concat cs) in
        let (front, back) =
          Unique-parts (map (λ n. n.node_id) c) (map (λ n. n.node_id) (concat cs))
            (rw split at u) in
        let chunk = set_each-appends probe c [] front (AllNew-nil c) in
        state-run_chunks cs (set_each probe c results) (on_batch (set_each probe c []) s) back
        ∙ ap (λ b. on_batch (one_by_one probe (concat cs)) (on_batch b s)) chunk
        ∙ sym (in_parts (one_by_one probe c) (one_by_one probe (concat cs)) s)
        ∙ ap (λ b. on_batch b s)
            (sym (map-append (λ (n : Node). (n.node_id, probe_one probe n)) c (concat cs)))

    -- A pass over nodes with distinct ids probes each once, in order, whatever the batch size, and a
    -- callback that may be given its results in parts has written what one call writes.
    pub batch_probe-one_by_one :
        (size : ℕ) (nodes : List Node) (s : S)
        → 0 < size
        → Unique (map (λ n. n.node_id) nodes)
        → batch_probe on_batch probe size nodes s
          ≡ some (one_by_one probe nodes, on_batch (one_by_one probe nodes) s)
    unfolding batch_probe
    batch_probe-one_by_one size nodes s positive u =
        let whole = concat-chunks size nodes positive in
        let run = run_chunks on_batch probe (chunks size nodes) [] s in
        let fine : (size == 0) ≡ false = ground arith in
        let results : run.0 ≡ one_by_one probe nodes =
          results-run_chunks (chunks size nodes) [] s
          ∙ ap (λ ns. set_each probe ns []) whole
          ∙ set_each-appends probe nodes [] u (AllNew-nil nodes) in
        let state : run.1 ≡ on_batch (one_by_one probe nodes) s =
          state-run_chunks (chunks size nodes) [] s (rw whole u)
          ∙ ap (λ ns. on_batch (one_by_one probe ns) s) whole in
        rw (fine, batch_probe) (λ i. some (results i, state i))

apply_each-append :
    (mode : Option (Option ℕ)) (now : ℕ) (xs ys : List (ℕ × ProbeResult)) (rows : List NodeRow)
    → apply_each mode now (xs ++ ys) rows ≡ apply_each mode now ys (apply_each mode now xs rows)
unfolding apply_each
apply_each-append mode now [] ys rows = refl
apply_each-append mode now ((i, res) ∷ xs) ys rows = apply_each-append mode now xs ys _

-- Probing distinct nodes in batches whose verdicts are written at one clock reading leaves the store
-- that writing the verdicts of single probes in one go leaves, whatever the batch size.
pub batch_probe-apply_probe_results :
    (mode : Option (Option ℕ)) (now size : ℕ) (probe : Node → Probed) (nodes : List Node)
    (s : Store)
    → 0 < size
    → Unique (map (λ n. n.node_id) nodes)
    → batch_probe (apply_probe_results mode now) probe size nodes s
      ≡ some (one_by_one probe nodes, apply_probe_results mode now (one_by_one probe nodes) s)
unfolding apply_probe_results
batch_probe-apply_probe_results mode now size probe nodes s positive u =
    batch_probe-one_by_one (apply_probe_results mode now) probe (λ s. refl)
      (λ xs ys s. ap (λ rows. record s { nodes = rows }) (apply_each-append mode now xs ys s.nodes))
      size nodes s positive u
