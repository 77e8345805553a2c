-- ===== src/Probe/Judge/Measure.antt =====
-- _measure_body of engine/filter/probe.py counts the bytes of a stream.
use infinity_proxy.Prelude.{ℕ, min, ◌≡◌, ◌≢◌, Option, List, length}
use infinity_proxy.Render.{timeout, Outcome, ok, raised}
use infinity_proxy.Wire.{Event, Conn}
use infinity_proxy.Wire.Stream.{stream}
use infinity_proxy.Probe.{Probing}
use infinity_proxy.Probe.Judge.{kib_s}

-- the bytes that are counted, and a failure that is no timeout
abbrev Counted : ℕ → Outcome ℕ → Type 0
Counted n (ok k) = k ≡ n
Counted n (raised f) = f ≢ timeout

-- what is measured of a sample of `n` bytes
abbrev pub IsMeasured : Probing → ℕ → List Event → Outcome (Option ℕ) × Conn → Type 0
IsMeasured p n script (ok kb, c) = kb ≡ kib_s p.elapsed_us (min n (length (stream script)))
IsMeasured p n script (raised f, c) = f ≢ timeout
