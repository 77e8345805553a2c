-- ===== src/Db/Slots.antt =====
-- The part of a node's row that assignment reads: its id and its owner. Probe verdicts and feed
-- updates of engine/db.py leave it alone.
use infinity_proxy.Prelude.{
  ℕ, ◌≡◌, refl, sym, ap, ◌∙◌, ◌&&◌, Option, none, some, List, [], ◌∷◌, map, ◌==◌, update_where, any,
  count_where, holds, arith,
}
use infinity_proxy.Models.{Node, ProbeResult}
use infinity_proxy.Db.{Store, NodeRow}
use infinity_proxy.Db.Probes.{
  apply_each, apply_probe_results, apply_verdict, stable_verdict, plain_verdict, on_node,
}
use infinity_proxy.Db.Ownership.{ids, owned, owns}

pub slots : List NodeRow → List (ℕ × Option ℕ)
slots [] = []
slots (r ∷ rs) = (r.node_id, r.assigned_to) ∷ slots rs

module _ (rows rows' : List NodeRow) where
  slots-ids : (rs : List NodeRow) → ids rs ≡ map (λ p. p.0) (slots rs)
  unfolding slots
  slots-ids [] = refl
  slots-ids (r ∷ rs) = ap (◌∷◌ r.node_id) (slots-ids rs)

  slots-owned :
      (tid : ℕ) (rs : List NodeRow) → owned tid rs ≡ count_where (λ p. holds tid p.1) (slots rs)
  unfolding slots
  slots-owned tid [] = refl
  slots-owned tid (r ∷ rs) = ground (arith, slots-owned tid rs)

  slots-owns :
      (tid i : ℕ) (rs : List NodeRow)
      → owns tid rs i ≡ any (λ p. p.0 == i && holds tid p.1) (slots rs)
  unfolding slots
  slots-owns tid i [] = refl
  slots-owns tid i (r ∷ rs) = ground (arith, slots-owns tid i rs)

  module _ (same : slots rows' ≡ slots rows) where
    pub same-ids : ids rows' ≡ ids rows
    same-ids = slots-ids rows' ∙ ap (map (λ p. p.0)) same ∙ sym (slots-ids rows)

    pub same-owned : (tid : ℕ) → owned tid rows' ≡ owned tid rows
    same-owned tid =
        slots-owned tid rows'
        ∙ ap (count_where (λ p. holds tid p.1)) same
        ∙ sym (slots-owned tid rows)

    pub same-owns : (tid i : ℕ) → owns tid rows' i ≡ owns tid rows i
    same-owns tid i =
        slots-owns tid i rows'
        ∙ ap (any (λ p. p.0 == i && holds tid p.1)) same
        ∙ sym (slots-owns tid i rows)

pub slots-on_node :
    (i : ℕ) (f : Node → Node) (rows : List NodeRow)
    → ((n : Node) → (f n).node_id ≡ n.node_id)
    → slots (update_where (λ r. r.node_id == i) (on_node f) rows) ≡ slots rows
unfolding slots
slots-on_node i f [] h = refl
slots-on_node i f (r ∷ rs) h = ground (arith, h r.node, slots-on_node i f rs h)

node_id-apply_verdict :
    (mode : Option (Option ℕ)) (now : ℕ) (res : ProbeResult) (n : Node)
    → (apply_verdict mode now res n).node_id ≡ n.node_id
unfolding apply_verdict stable_verdict plain_verdict
node_id-apply_verdict none now res n = refl
node_id-apply_verdict (some window) now res n = refl

slots-apply_each :
    (mode : Option (Option ℕ)) (now : ℕ) (results : List (ℕ × ProbeResult)) (rows : List NodeRow)
    → slots (apply_each mode now results rows) ≡ slots rows
unfolding apply_each
slots-apply_each mode now [] rows = refl
slots-apply_each mode now ((i, res) ∷ results) rows =
    slots-apply_each mode now results _
    ∙ slots-on_node i (apply_verdict mode now res) rows (node_id-apply_verdict mode now res)

-- Probe verdicts move no node between tunnels.
pub slots-apply_probe_results :
    (mode : Option (Option ℕ)) (now : ℕ) (results : List (ℕ × ProbeResult)) (s : Store)
    → slots (apply_probe_results mode now results s).nodes ≡ slots s.nodes
unfolding apply_probe_results
slots-apply_probe_results mode now results s = slots-apply_each mode now results s.nodes
