-- ===== src/Filter.antt =====
-- engine/filter/runner.py: probes in batches. What a probe answers is an argument; the threads of a
-- batch are joined before its results are read, so a batch is one step.
pub mod Batches
use infinity_proxy.Prelude.{
  ℕ, String, Bool, true, false, Option, none, some, List, [], ◌∷◌, ◌++◌, map, ◌==◌, if◌then◌else◌,
}
use infinity_proxy.Prelude.Chunks.{chunks}
use infinity_proxy.Models.{Node, ProbeResult}

-- what one probe comes to: a result, or an exception with its text
pub data Probed : Type 0 where
  answered : ProbeResult → Probed
  raised : String → Probed

unfoldable pub settle : Node → Probed → ProbeResult
settle n (answered res) = res
settle n (raised text) = record {
  node_id = n.node_id;
  alive = false;
  latency_ms = none;
  error = some text;
  throughput_kb_s = none;
}

unfoldable pub probe_one : (Node → Probed) → Node → ProbeResult
probe_one probe n = settle n (probe n)

-- `results[i] = res`: a key that is there keeps its place
unfoldable pub set_result : ℕ → ProbeResult → List (ℕ × ProbeResult) → List (ℕ × ProbeResult)
set_result i res [] = (i, res) ∷ []
set_result i res ((j, old) ∷ results) =
    let rest = set_result i res results in if j == i then (j, res) ∷ results else (j, old) ∷ rest

unfoldable pub set_each :
    (Node → Probed) → List Node → List (ℕ × ProbeResult) → List (ℕ × ProbeResult)
unfolding set_result
set_each probe [] results = results
set_each probe (n ∷ ns) results =
    set_each probe ns (set_result n.node_id (probe_one probe n) results)

module _ {S : Type 0} (on_batch : List (ℕ × ProbeResult) → S → S) (probe : Node → Probed) where
  -- the loop over the chunks, with what `on_batch` writes; a chunk's own results go to it
  unfoldable pub run_chunks :
      List (List Node) → List (ℕ × ProbeResult) → S → List (ℕ × ProbeResult) × S
  unfolding set_each
  run_chunks [] results s = (results, s)
  run_chunks (chunk ∷ rest) results s =
      run_chunks rest (set_each probe chunk results) (on_batch (set_each probe chunk []) s)

  -- `none` is the ValueError of a batch size below 1.
  unfoldable pub batch_probe : ℕ → List Node → S → Option (List (ℕ × ProbeResult) × S)
  unfolding run_chunks
  batch_probe size nodes s = if size == 0 then none else some (run_chunks (chunks size nodes) [] s)
