-- ===== src/Db/Counters.antt =====
-- The probe counters of a node under apply_probe_results of engine/db.py.
use infinity_proxy.Prelude.{
  ℕ, ◌≤◌, ◌<◌, Option, none, some, List, [], ◌∷◌, ◌==◌, update_where, All, arith, Bool-cases, inl,
  inr,
}
use infinity_proxy.Models.{ProbeResult}
use infinity_proxy.Stability.{unit}
use infinity_proxy.Stability.Wilson.{wilson_lower-lt-unit}
use infinity_proxy.Db.{Store, NodeRow}
use infinity_proxy.Db.Probes.{
  apply_each, apply_probe_results, apply_verdict, stable_verdict, plain_verdict, on_node, next_ok,
  next_total,
}

abbrev pub ScoreBelow : Option ℕ → Type 0
ScoreBelow none = Unit
ScoreBelow (some score) = score < unit

-- A node has passed at most the probes it was given, and its score is below 1.0.
abbrev pub IsCounted : NodeRow → Type 0
IsCounted r = (r.probe_ok ≤ r.probe_total) × ScoreBelow r.score_f

apply_verdict-IsCounted :
    (mode : Option (Option ℕ)) (now : ℕ) (res : ProbeResult) (r : NodeRow)
    → IsCounted r
    → IsCounted (on_node (apply_verdict mode now res) r)
unfolding apply_verdict stable_verdict plain_verdict
apply_verdict-IsCounted none now res r h = h
apply_verdict-IsCounted (some window) now res r h =
    let counted : next_ok window now res r.node ≤ next_total window now r.node =
      ground (arith, h.0) in
    (counted, wilson_lower-lt-unit _ _ counted)

update-IsCounted :
    (i : ℕ) (f : NodeRow → NodeRow) (rows : List NodeRow)
    → ((r : NodeRow) → IsCounted r → IsCounted (f r))
    → All IsCounted rows
    → All IsCounted (update_where (λ r. r.node_id == i) f rows)
update-IsCounted i f [] keeps h = tt
update-IsCounted i f (r ∷ rs) keeps h = elim (Bool-cases (r.node_id == i)) [
  | inl hit ↦ rw hit (keeps r h.0, update-IsCounted i f rs keeps h.1)
  | inr miss ↦ rw miss (h.0, update-IsCounted i f rs keeps h.1)
]

apply_each-IsCounted :
    (mode : Option (Option ℕ)) (now : ℕ) (results : List (ℕ × ProbeResult)) (rows : List NodeRow)
    → All IsCounted rows
    → All IsCounted (apply_each mode now results rows)
unfolding apply_each
apply_each-IsCounted mode now [] rows h = h
apply_each-IsCounted mode now ((i, res) ∷ results) rows h =
    apply_each-IsCounted mode now results _ (
      update-IsCounted i (on_node (apply_verdict mode now res)) rows
        (apply_verdict-IsCounted mode now res) h)

-- However verdicts are written and however the window folds the counters, every node has passed at
-- most the probes it was given, and its cached score is below 1.0, if that was so before.
pub apply_probe_results-IsCounted :
    (mode : Option (Option ℕ)) (now : ℕ) (results : List (ℕ × ProbeResult)) (s : Store)
    → All IsCounted s.nodes
    → All IsCounted (apply_probe_results mode now results s).nodes
unfolding apply_probe_results
apply_probe_results-IsCounted mode now results s h = apply_each-IsCounted mode now results s.nodes h
