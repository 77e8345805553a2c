-- ===== src/Wire/Stream.antt =====
-- _recvn of engine/filter/probe.py reads a stream: the segments do not matter.
use infinity_proxy.Prelude.{
  ℕ, zero, suc, ◌+◌, ◌-◌, ◌≤◌, ◌<◌, min, length-append, length-take, ◌≡◌, ◌⊎◌, refl, ap, ◌∙◌, sym,
  List, [], ◌∷◌, ◌++◌, length, take, drop, leb, arith, Bool-cases, inl, inr,
}
use infinity_proxy.Prelude.Chunks.{take-append-drop, length-drop}
use infinity_proxy.Render.{Fault, Outcome, ok, raised}
use infinity_proxy.Wire.{
  Bytes, Event, sends, closes, fails, Conn, recvn, left_over, recv_script, recvn_loop,
}

-- the bytes up to the first event that is none
abbrev pub stream : List Event → Bytes
stream [] = []
stream (closes ∷ rest) = []
stream (fails f ∷ rest) = []
stream (sends [] ∷ rest) = []
stream (sends (b ∷ bs) ∷ rest) = (b ∷ bs) ++ stream rest

-- the peer ends by closing, and no read of it fails
abbrev pub EndsClosed : List Event → Type 0
EndsClosed [] = Unit
EndsClosed (closes ∷ rest) = Unit
EndsClosed (fails f ∷ rest) = ⊥
EndsClosed (sends [] ∷ rest) = Unit
EndsClosed (sends (b ∷ bs) ∷ rest) = EndsClosed rest

-- what a read of `k` bytes needs of the peer: as many bytes, or a close after them
abbrev pub Answers : ℕ → List Event → Type 0
Answers k script = EndsClosed script ⊎ (k ≤ length (stream script))

pub append_nil : (bs : Bytes) → bs ++ [] ≡ bs
append_nil [] = refl
append_nil (b ∷ bs) = ap (◌∷◌ b) (append_nil bs)

pub append_assoc : (xs bs cs : Bytes) → (xs ++ bs) ++ cs ≡ xs ++ (bs ++ cs)
append_assoc [] bs cs = refl
append_assoc (a ∷ xs) bs cs = ap (◌∷◌ a) (append_assoc xs bs cs)

take_all : (n : ℕ) (bs : Bytes) → length bs ≤ n → take n bs ≡ bs
take_all zero [] h = refl
take_all zero (b ∷ bs) h = absurd (omega (arith, h))
take_all (suc n) [] h = refl
take_all (suc n) (b ∷ bs) h = ap (◌∷◌ b) (take_all n bs (omega (arith, h)))

stream-sends :
    (bs : Bytes) (rest : List Event) → 0 < length bs → stream (sends bs ∷ rest) ≡ bs ++ stream rest
stream-sends [] rest h = absurd (omega (arith, h))
stream-sends (b ∷ bs) rest h = refl

EndsClosed-sends : (bs : Bytes) (rest : List Event) → EndsClosed rest → EndsClosed (sends bs ∷ rest)
EndsClosed-sends [] rest h = tt
EndsClosed-sends (b ∷ bs) rest h = h

-- What is taken from a segment and what is left of it are the segment.
pub left_over_lem :
    (k : ℕ) (bs : Bytes) (rest : List Event)
    → (take k bs ++ stream (left_over k bs rest) ≡ bs ++ stream rest)
      × (EndsClosed rest → EndsClosed (left_over k bs rest))
left_over_lem k bs rest = elim (Bool-cases (leb (length bs) k)) [
  | inl whole ↦ rw whole (ap (λ l. l ++ stream rest) (take_all k bs (ground arith)), λ h. h)
  | inr part ↦
      let some_left : 0 < length (drop k bs) = ground (arith, length-drop k bs) in
      rw part (
        ap (λ l. take k bs ++ l) (stream-sends (drop k bs) rest some_left)
            ∙ sym (append_assoc (take k bs) (drop k bs) (stream rest))
            ∙ ap (λ l. l ++ stream rest) (take-append-drop k bs),
        EndsClosed-sends (drop k bs) rest,
      )
]

-- the first `n` bytes of the stream, or all of them, after `total`
abbrev Reads : ℕ → Bytes → List Event → Outcome Bytes × List Event → Type 0
Reads n total script (raised f, rest) = ¬ Answers n script
Reads n total script (ok o, rest) =
    (x : Bytes) × (o ≡ total ++ x)
    × (x ++ stream rest ≡ stream script)
    × (length x ≡ min n (length (stream script)))
    × (EndsClosed script → EndsClosed rest)

nothing :
    (n : ℕ) (total : Bytes) (script : List Event)
    → min n (length (stream script)) ≡ 0
    → Reads n total script (ok total, script)
nothing n total script h = ([], sym (append_nil total), refl, sym h, λ c. c)

pub Answers-left :
    (n : ℕ) (got : Bytes) (script left : List Event)
    → got ++ stream left ≡ stream script
    → (EndsClosed script → EndsClosed left)
    → Answers n script
    → Answers (n - length got) left
Answers-left n got script left split closed (inl c) = inl (closed c)
Answers-left n got script left split closed (inr many) =
    let sizes : length (stream script) ≡ length got + length (stream left) =
      ap length (sym split) ∙ length-append got (stream left) in
    inr (omega (arith, many, sizes))

went_on :
    (n : ℕ) (total got : Bytes) (script left : List Event) (r : Outcome Bytes × List Event)
    → got ++ stream left ≡ stream script
    → length got ≤ n
    → (EndsClosed script → EndsClosed left)
    → Reads (n - length got) (total ++ got) left r
    → Reads n total script r
went_on n total got script left (raised f, rest) split few closed h =
    λ a. h (Answers-left n got script left split closed a)
went_on n total got script left (ok o, rest) split few closed (x, whole, streams, long, ends) =
    let sizes : length (stream script) ≡ length got + length (stream left) =
      ap length (sym split) ∙ length-append got (stream left) in
    (
      got ++ x,
      whole ∙ append_assoc total got x,
      append_assoc got x (stream rest) ∙ ap (λ l. got ++ l) streams ∙ split,
      length-append got x ∙ omega (arith, long, sizes, few),
      λ c. ends (closed c),
    )

cut_short : (n : ℕ) (f : Fault) (rest : List Event) → ¬ Answers (suc n) (fails f ∷ rest)
cut_short n f rest (inl c) = c
cut_short n f rest (inr many) = omega (arith, many)

recvn_loop-Reads :
    (fuel n : ℕ) (total : Bytes) (script : List Event)
    → n ≤ fuel
    → Reads n total script (recvn_loop fuel n total script)
unfolding recvn_loop recv_script
recvn_loop-Reads fuel zero total script h = nothing 0 total script (omega arith)
recvn_loop-Reads zero (suc n) total script h = absurd (omega (arith, h))
recvn_loop-Reads (suc fuel) (suc n) total [] h = nothing (suc n) total [] (omega arith)
recvn_loop-Reads (suc fuel) (suc n) total (closes ∷ rest) h =
    nothing (suc n) total (closes ∷ rest) (omega arith)
recvn_loop-Reads (suc fuel) (suc n) total (fails f ∷ rest) h = cut_short n f rest
recvn_loop-Reads (suc fuel) (suc n) total (sends [] ∷ rest) h =
    nothing (suc n) total (sends [] ∷ rest) (omega arith)
recvn_loop-Reads (suc fuel) (suc n) total (sends (b ∷ bs) ∷ rest) h =
    let got = b ∷ take n bs in
    let left = left_over (suc n) (b ∷ bs) rest in
    let (split, closed) = left_over_lem (suc n) (b ∷ bs) rest in
    let few : length got ≤ suc n = omega (arith, length-take n bs) in
    went_on (suc n) total got (sends (b ∷ bs) ∷ rest) left _ split few closed
      (recvn_loop-Reads fuel (suc n - length got) (total ++ got) left (omega (arith, h)))

-- the first `n` bytes of the stream, or all of them, and the rest left to read
abbrev pub IsRead : ℕ → List Event → Outcome Bytes × Conn → Type 0
IsRead n script (raised f, c) = ¬ Answers n script
IsRead n script (ok bs, c) =
    (bs ++ stream c.script ≡ stream script)
    × (length bs ≡ min n (length (stream script)))
    × (EndsClosed script → EndsClosed c.script)

is_read :
    (n : ℕ) (c : Conn) (r : Outcome Bytes × List Event)
    → Reads n [] c.script r
    → IsRead n c.script (r.0, record c { script = r.1 })
is_read n c (raised f, rest) h = h
is_read n c (ok o, rest) (x, whole, streams, long, ends) =
    (ap (λ l. l ++ stream rest) whole ∙ streams, ap length whole ∙ long, ends)

-- An exact read does not see how the bytes arrive: it answers the first `n` bytes of the peer's
-- stream, or all of them if there are fewer, and leaves the rest of the stream to be read. It raises
-- only where the peer neither sends `n` bytes nor closes after those it sends.
pub recvn-IsRead : (n : ℕ) (c : Conn) → IsRead n c.script (recvn n c)
unfolding recvn
recvn-IsRead n c =
    is_read n c (recvn_loop n n [] c.script) (recvn_loop-Reads n n [] c.script (omega arith))
