-- ===== src/Probe/Forward/Until.antt =====
-- _read_until of engine/filter/probe.py reads to the sentinel, or to the end.
use infinity_proxy.Prelude.{
  ℕ, zero, suc, ◌+◌, ◌<◌, min, ◌≡◌, ◌≢◌, ◌⊎◌, ◌↔◌, inl, inr, refl, ap, sym, ◌∙◌, true, ◌-◌, drop,
  length-append, List, [], ◌∷◌, ◌++◌, length, take, leb, Bool-cases, arith,
}
use infinity_proxy.Prelude.Chunks.{length-drop, take-append-drop}
use infinity_proxy.Render.{Fault, Outcome, ok, raised}
use infinity_proxy.Wire.{Bytes, Event, sends, closes, fails, Conn, recv_script, left_over}
use infinity_proxy.Wire.Stream.{stream, left_over_lem, append_assoc}
use infinity_proxy.Probe.Judge.Verdict.{same_bytes_lem}
use infinity_proxy.Probe.Forward.{
  ends_with, script_size, until_round, until_loop, with_script, read_until,
}

-- What is left of a segment is smaller by what was read.
script_size-left_over :
    (n : ℕ) (bs : Bytes) (rest : List Event)
    → script_size (left_over n bs rest) + min n (length bs) ≡ length bs + script_size rest
script_size-left_over n bs rest = elim (Bool-cases (leb (length bs) n)) [
  | inl is ↦ rw is (ground arith)
  | inr is ↦ rw is (ground (arith, length-drop n bs))
]

-- bytes that end with the sentinel
abbrev pub EndsIn : Bytes → Bytes → Type 0
EndsIn sentinel bs = (before : Bytes) × (bs ≡ before ++ sentinel)

-- The reads of at most 256 bytes that follow the bytes already read, none of them after bytes that
-- end with the sentinel, and how they end.
pub data Reads (sentinel : Bytes) : Bytes → List Event → Outcome Bytes × List Event → Type 0 where
  found :
      {buf : Bytes} {script : List Event}
      → EndsIn sentinel buf
      → Reads sentinel buf script (ok buf, script)
  ended :
      {buf : Bytes} {script rest : List Event}
      → (EndsIn sentinel buf → ⊥)
      → recv_script 256 script ≡ (ok [], rest)
      → stream rest ≡ []
      → Reads sentinel buf script (ok buf, rest)
  broken :
      {buf : Bytes} {script rest : List Event} {f : Fault}
      → (EndsIn sentinel buf → ⊥)
      → recv_script 256 script ≡ (raised f, rest)
      → Reads sentinel buf script (raised f, rest)
  read :
      {buf got : Bytes} {script left : List Event} {r : Outcome Bytes × List Event}
      → (EndsIn sentinel buf → ⊥)
      → recv_script 256 script ≡ (ok got, left)
      → got ≢ []
      → Reads sentinel (buf ++ got) left r
      → Reads sentinel buf script r

drop-append : (bs cs : Bytes) → drop (length bs) (bs ++ cs) ≡ cs
drop-append [] cs = refl
drop-append (b ∷ bs) cs = drop-append bs cs

ends_with-EndsIn : (sentinel buf : Bytes) → (ends_with sentinel buf ≡ true) ↔ EndsIn sentinel buf
ends_with-EndsIn sentinel buf =
    let n : ℕ = length buf - length sentinel in
    (
      λ h. (
        take n buf,
        sym (take-append-drop n buf)
            ∙ ap (λ l. take n buf ++ l) (sym ((same_bytes_lem sentinel (drop n buf)).0 h)),
      ),
      λ (before, same).
          let whole = ap length same ∙ length-append before sentinel in
          let long : length buf - length sentinel ≡ length before = omega (arith, whole) in
          (same_bytes_lem sentinel (drop n buf)).1 (
            sym (
              ap (λ m. drop m buf) long
              ∙ ap (drop (length before)) same
              ∙ drop-append before sentinel)),
    )

-- the reads, and the bytes after `buf`, of which the rest is left
abbrev Until : Bytes → Bytes → List Event → Outcome Bytes × List Event → Type 0
Until sentinel buf script (raised f, rest) = Reads sentinel buf script (raised f, rest)
Until sentinel buf script (ok bs, rest) =
    Reads sentinel buf script (ok bs, rest)
    × (bs ++ stream rest ≡ buf ++ stream script)
    × (EndsIn sentinel bs ⊎ (stream rest ≡ []))

went_on :
    (sentinel buf got : Bytes) (script left : List Event) (r : Outcome Bytes × List Event)
    → (EndsIn sentinel buf → ⊥)
    → recv_script 256 script ≡ (ok got, left)
    → got ≢ []
    → got ++ stream left ≡ stream script
    → Until sentinel (buf ++ got) left r
    → Until sentinel buf script r
went_on sentinel buf got script left (raised f, rest) not_yet is some_read split h =
    read not_yet is some_read h
went_on sentinel buf got script left (ok bs, rest) not_yet is some_read split (reads, whole, end) =
    (
      read not_yet is some_read reads,
      whole ∙ append_assoc buf got (stream left) ∙ ap (λ l. buf ++ l) split,
      end,
    )

until_round-Until :
    (fuel : ℕ) (sentinel buf : Bytes) (script : List Event)
    → (EndsIn sentinel buf → ⊥)
    → ((buf : Bytes) (script : List Event)
        → script_size script < fuel
        → Until sentinel buf script (until_loop fuel sentinel buf script))
    → script_size script < suc fuel
    → Until sentinel buf script
        (until_round (until_loop fuel sentinel) buf (recv_script 256 script))
unfolding recv_script
until_round-Until fuel sentinel buf [] not_yet further h = (ended not_yet refl refl, refl, inr refl)
until_round-Until fuel sentinel buf (closes ∷ rest) not_yet further h =
    (ended not_yet refl refl, refl, inr refl)
until_round-Until fuel sentinel buf (fails f ∷ rest) not_yet further h = broken not_yet refl
until_round-Until fuel sentinel buf (sends [] ∷ rest) not_yet further h =
    (ended not_yet refl refl, refl, inr refl)
until_round-Until fuel sentinel buf (sends (b ∷ bs) ∷ rest) not_yet further h =
    let got = b ∷ take 255 bs in
    let left = left_over 256 (b ∷ bs) rest in
    let split = (left_over_lem 256 (b ∷ bs) rest).0 in
    let smaller : script_size left < fuel =
      omega (arith, h, script_size-left_over 256 (b ∷ bs) rest) in
    went_on sentinel buf got (sends (b ∷ bs) ∷ rest) left
      (until_loop fuel sentinel (buf ++ got) left) not_yet refl (λ p. grind (arith, p)) split
      (further (buf ++ got) left smaller)

until_loop-Until :
    (fuel : ℕ) (sentinel buf : Bytes) (script : List Event)
    → script_size script < fuel
    → Until sentinel buf script (until_loop fuel sentinel buf script)
unfolding until_loop
until_loop-Until zero sentinel buf script h = absurd (omega (arith, h))
until_loop-Until (suc fuel) sentinel buf script h = elim (Bool-cases (ends_with sentinel buf)) [
  | inl is ↦
      let there = (ends_with-EndsIn sentinel buf).0 is in rw is (found there, refl, inl there)
  | inr is ↦
      let not_yet : EndsIn sentinel buf → ⊥ =
        λ there. grind (arith, is, (ends_with-EndsIn sentinel buf).1 there) in
      rw is (until_round-Until fuel sentinel buf script not_yet (until_loop-Until fuel sentinel) h)
]

-- The reads, each of which found that the bytes so far do not end with the sentinel; and what they
-- come to, unless one of them raised: bytes that end with it, or all of them, and the rest left to
-- read.
abbrev pub IsReadUntil : Bytes → Conn → Outcome Bytes × Conn → Type 0
IsReadUntil sentinel c (raised f, c') = Reads sentinel [] c.script (raised f, c'.script)
IsReadUntil sentinel c (ok bs, c') =
    Reads sentinel [] c.script (ok bs, c'.script)
    × (bs ++ stream c'.script ≡ stream c.script)
    × (EndsIn sentinel bs ⊎ (stream c'.script ≡ []))

with_script-IsReadUntil :
    (sentinel : Bytes) (c : Conn) (r : Outcome Bytes × List Event)
    → Until sentinel [] c.script r
    → IsReadUntil sentinel c (with_script c r)
with_script-IsReadUntil sentinel c (raised f, rest) h = h
with_script-IsReadUntil sentinel c (ok bs, rest) h = h

-- However the bytes arrive, the loop ends. It reads on exactly while the bytes so far do not end with
-- the sentinel and the peer has more, and raises only what a read raises. What it answers is a
-- beginning of the peer's stream that ends with the sentinel, or all of it; the rest is left to be
-- read.
pub read_until-IsReadUntil :
    (sentinel : Bytes) (c : Conn) → IsReadUntil sentinel c (read_until sentinel c)
unfolding read_until
read_until-IsReadUntil sentinel c =
    with_script-IsReadUntil sentinel c
      (until_loop (suc (script_size c.script)) sentinel [] c.script)
      (until_loop-Until (suc (script_size c.script)) sentinel [] c.script (omega arith))
