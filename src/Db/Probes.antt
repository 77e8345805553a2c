-- ===== src/Db/Probes.antt =====
-- engine/db.py, Store.apply_probe_results: what a probe verdict writes into its node's row.
use infinity_proxy.Prelude.{
  ℕ, ◌+◌, ◌-◌, ◌/◌, String, Bool, true, false, not, Option, none, some, List, [], ◌∷◌, ltb, ◌==◌,
  if◌then◌else◌, update_where,
}
use infinity_proxy.Models.{Node, NodeState, ProbeResult, alive, dead}
use infinity_proxy.Stability.{wilson_lower}
use infinity_proxy.Db.{Store, NodeRow}

abbrev pub verdict : ProbeResult → NodeState
verdict res = if res.alive then alive else dead

-- COALESCE(?, column)
abbrev pub coalesce {ℓ} : {A : Type ℓ} → Option A → Option A → Option A
coalesce none old = old
coalesce (some a) old = some a

-- a truthy reading: neither None nor 0
abbrev pub truthy : Option ℕ → Bool
truthy none = false
truthy (some n) = not (n == 0)

-- Is the counter window over? `started is None or now - started > window_s`
abbrev pub window_over : Option ℕ → ℕ → Option ℕ → Bool
window_over none now started = false
window_over (some window) now none = true
window_over (some window) now (some at) = ltb window (now - at)

-- the last_error column: NULL for a live verdict
abbrev pub error_after : ProbeResult → Option String
error_after res = if res.alive then none else res.error

abbrev pub measured_at : ℕ → ProbeResult → Option ℕ → Option ℕ
measured_at now res old = if truthy res.throughput_kb_s then some now else old

-- the counters after the fold, then after this verdict
abbrev pub folded : Bool → ℕ → ℕ
folded over n = if over then n / 2 else n

abbrev pub next_ok : Option ℕ → ℕ → ProbeResult → Node → ℕ
next_ok window now res n =
    folded (window_over window now n.window_started_s) n.probe_ok + (if res.alive then 1 else 0)

abbrev pub next_total : Option ℕ → ℕ → Node → ℕ
next_total window now n = folded (window_over window now n.window_started_s) n.probe_total + 1

abbrev pub next_started : Option ℕ → ℕ → Option ℕ → Option ℕ
next_started window now none = some now
next_started window now (some at) = if window_over window now (some at) then some now else some at

-- `stability=True`
unfoldable pub stable_verdict : Option ℕ → ℕ → ProbeResult → Node → Node
stable_verdict window now res n = record n {
  state = verdict res;
  last_latency_ms = res.latency_ms;
  throughput_kb_s = coalesce res.throughput_kb_s n.throughput_kb_s;
  throughput_measured_s = measured_at now res n.throughput_measured_s;
  probe_ok = next_ok window now res n;
  probe_total = next_total window now n;
  window_started_s = next_started window now n.window_started_s;
  last_probe_s = some now;
  last_alive_s = if res.alive then some now else n.last_alive_s;
  score_f = some (wilson_lower (next_ok window now res n) (next_total window now n));
  last_error = error_after res;
}

-- `stability=False`
unfoldable pub plain_verdict : ℕ → ProbeResult → Node → Node
plain_verdict now res n = record n {
  state = verdict res;
  last_latency_ms = res.latency_ms;
  throughput_kb_s = coalesce res.throughput_kb_s n.throughput_kb_s;
  throughput_measured_s = measured_at now res n.throughput_measured_s;
  last_error = error_after res;
}

-- `some window` for stability=True with that window_s, `none` for stability=False
unfoldable pub apply_verdict : Option (Option ℕ) → ℕ → ProbeResult → Node → Node
apply_verdict none now res n = plain_verdict now res n
apply_verdict (some window) now res n = stable_verdict window now res n

abbrev pub on_node : (Node → Node) → NodeRow → NodeRow
on_node f r = record r { node = f r.node }

unfoldable pub apply_each :
    Option (Option ℕ) → ℕ → List (ℕ × ProbeResult) → List NodeRow → List NodeRow
apply_each mode now [] rows = rows
apply_each mode now ((i, res) ∷ results) rows =
    apply_each mode now results
      (update_where (λ r. r.node_id == i) (on_node (apply_verdict mode now res)) rows)

unfoldable pub apply_probe_results : Option (Option ℕ) → ℕ → List (ℕ × ProbeResult) → Store → Store
unfolding apply_each
apply_probe_results mode now results s = record s { nodes = apply_each mode now results s.nodes }
