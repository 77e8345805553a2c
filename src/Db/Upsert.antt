-- ===== src/Db/Upsert.antt =====
-- engine/db.py, Store.upsert_candidates: scraped candidates become rows of `nodes`.
use infinity_proxy.Prelude.{
  ℕ, ◌≡◌, refl, String, Bool, true, false, not, ◌&&◌, ◌||◌, Option, none, some, List, [], ◌∷◌, ◌++◌,
  map, ◌==◌, str_eq, if◌then◌else◌, select, update_where, length, contains, arith, contains-append,
  ap, ◌∙◌,
}
use infinity_proxy.Prelude.Chunks.{chunks, concat, concat-chunks}
use infinity_proxy.Models.{Node, NodeCandidate, untested, same_protocol, from_candidate}
use infinity_proxy.Db.{Store, NodeRow}

abbrev pub ids : List NodeRow → List ℕ
ids = map (λ r. r.node_id)

abbrev pub node_ids : List Node → List ℕ
node_ids = map (λ n. n.node_id)

-- SELECT node_id … WHERE node_id IN (slice)
unfoldable pub found_in : List NodeRow → List ℕ → List ℕ
found_in rows slice = select (λ i. contains i slice) (ids rows)

unfoldable pub found_in_slices : List NodeRow → List (List ℕ) → List ℕ
found_in_slices rows [] = []
found_in_slices rows (slice ∷ slices) = found_in rows slice ++ found_in_slices rows slices

-- SQLite limits the marks of a statement, so the ids go 900 at a time.
unfoldable pub existing_ids : List NodeRow → List ℕ → List ℕ
unfolding found_in_slices
existing_ids rows is = found_in_slices rows (chunks 900 is)

-- INSERT of a row under an id that is there raises; the rows before it stay inserted.
unfoldable pub insert_fresh : List Node → List NodeRow → List NodeRow × Bool
insert_fresh [] rows = (rows, true)
insert_fresh (n ∷ ns) rows =
    let rest = insert_fresh ns (rows ++ record { node = n; assigned_to = none } ∷ []) in
    if contains n.node_id (ids rows) then (rows, false) else rest

abbrev pub endpoint_changed : Node → Node → Bool
endpoint_changed new old =
    not (str_eq old.uri new.uri) || not (same_protocol old.protocol new.protocol)

-- the UPDATE of a known row: another endpoint behind the id voids every stored verdict
unfoldable pub refresh_node : Node → Node → Node
refresh_node new old =
    if endpoint_changed new old
    then record old {
      uri = new.uri;
      protocol = new.protocol;
      state = untested;
      last_latency_ms = none;
      throughput_kb_s = none;
      throughput_measured_s = none;
      probe_ok = 0;
      probe_total = 0;
      window_started_s = none;
      last_probe_s = none;
      last_alive_s = none;
      score_f = none;
      last_error = none;
    }
    else record old { uri = new.uri; protocol = new.protocol }

unfoldable pub refresh_known : List Node → List NodeRow → List NodeRow
refresh_known [] rows = rows
refresh_known (n ∷ ns) rows = refresh_known ns (
    update_where (λ r. r.node_id == n.node_id) (λ r. record r { node = refresh_node n r.node })
      rows)

-- The result counts the new rows; `none` is an IntegrityError.
unfoldable pub upsert_nodes : List Node → Store → Store × Option ℕ
unfolding insert_fresh refresh_known
upsert_nodes prepared s =
    let known = existing_ids s.nodes (node_ids prepared) in
    let fresh = select (λ n. not (contains n.node_id known)) prepared in
    let old = select (λ n. contains n.node_id known) prepared in
    let (rows, fine) = insert_fresh fresh s.nodes in
    if fine
    then (record s { nodes = refresh_known old rows }, some (length fresh))
    else (record s { nodes = rows }, none)

unfoldable pub upsert_candidates :
    (ℕ → String) → (String → ℕ) → ℕ → List NodeCandidate → Store → Store × Option ℕ
upsert_candidates decimal digest now candidates s =
    upsert_nodes (map (from_candidate decimal digest now) candidates) s

contains-found_in :
    (i : ℕ) (rows : List ℕ) (slice : List ℕ)
    → contains i (select (λ j. contains j slice) rows) ≡ (contains i rows && contains i slice)
contains-found_in i [] slice = refl
contains-found_in i (j ∷ js) slice = ground (arith, contains-found_in i js slice)

contains-found_in_slices :
    (i : ℕ) (rows : List NodeRow) (slices : List (List ℕ))
    → contains i (found_in_slices rows slices)
      ≡ (contains i (ids rows) && contains i (concat slices))
unfolding found_in_slices found_in
contains-found_in_slices i rows [] = ground arith
contains-found_in_slices i rows (slice ∷ slices) = ground (
  arith,
  contains-append i (select (λ j. contains j slice) (ids rows)) (found_in_slices rows slices),
  contains-found_in i (ids rows) slice,
  contains-append i slice (concat slices),
  contains-found_in_slices i rows slices,
)

-- The slicing into 900s cannot be seen: an id is known exactly if it was asked for and has a row.
pub contains-existing_ids :
    (i : ℕ) (rows : List NodeRow) (is : List ℕ)
    → contains i (existing_ids rows is) ≡ (contains i (ids rows) && contains i is)
unfolding existing_ids
contains-existing_ids i rows is =
    contains-found_in_slices i rows (chunks 900 is)
    ∙ ap (λ js. contains i (ids rows) && contains i js) (concat-chunks 900 is (omega arith))
