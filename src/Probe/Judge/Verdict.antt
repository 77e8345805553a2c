-- ===== src/Probe/Judge/Verdict.antt =====
-- _judge of engine/filter/probe.py is a function of the first 16 bytes of what the server relays.
use infinity_proxy.Prelude.{
  ℕ, zero, suc, ◌+◌, ◌-◌, ◌≤◌, min, ◌≡◌, ◌↔◌, inl, inr, refl, ap, ◌∙◌, sym, true, false, not, ◌&&◌,
  Option, none, some, List, [], ◌∷◌, ◌++◌, length, length-append, take, drop, ==_iff, if◌then◌else◌,
  Bool-cases, arith,
}
use infinity_proxy.Models.{Node}
use infinity_proxy.Render.{Outcome, ok, raised}
use infinity_proxy.Wire.{Bytes, same_bytes, begins_with, Event, Conn, ◌>>=◌, pure, recvn}
use infinity_proxy.Wire.Stream.{stream, Answers, Answers-left, IsRead, recvn-IsRead, append_assoc}
use infinity_proxy.Probe.{Cause, non_relay}
use infinity_proxy.Probe.Http.{is_successful_http}
use infinity_proxy.Probe.Judge.{is_vless, judged, judge_rest, judge}

pub same_bytes_lem : (bs cs : Bytes) → (same_bytes bs cs ≡ true) ↔ (bs ≡ cs)
same_bytes_lem [] [] = (λ h. refl, λ h. refl)
same_bytes_lem [] (c ∷ cs) = (λ h. absurd (grind (arith, h)), λ h. absurd (grind (arith, h)))
same_bytes_lem (b ∷ bs) [] = (λ h. absurd (grind (arith, h)), λ h. absurd (grind (arith, h)))
same_bytes_lem (b ∷ bs) (c ∷ cs) =
    let tails = same_bytes_lem bs cs in let heads = ==_iff b c in (grind arith, grind arith)

read_take_append :
    (n : ℕ) (bs rest : Bytes)
    → length bs ≡ min n (length (bs ++ rest))
    → (bs ≡ take n (bs ++ rest)) × (rest ≡ drop n (bs ++ rest))
read_take_append zero [] rest h = (refl, refl)
read_take_append zero (b ∷ bs) rest h = absurd (omega (arith, h))
read_take_append (suc n) [] [] h = (refl, refl)
read_take_append (suc n) [] (b ∷ rest) h = absurd (omega (arith, h))
read_take_append (suc n) (b ∷ bs) rest h =
    let (taken, dropped) = read_take_append n bs rest (omega (arith, h)) in
    (ap (◌∷◌ b) taken, dropped)

-- What is read is the beginning of the stream, and what is not read is the rest.
read_take :
    (n : ℕ) (bs rest s : Bytes)
    → bs ++ rest ≡ s
    → length bs ≡ min n (length s)
    → (bs ≡ take n s) × (rest ≡ drop n s)
read_take n bs rest s h k = rw (sym h) (read_take_append n bs rest (rw h k))

-- the bytes of an honest relay: no echo of what was sent, and a 2xx or 3xx status line; for vless the
-- first two are the server's header
abbrev pub IsCertified : Node → Bytes → Bytes → Type 0
IsCertified n sent got =
    (is_vless n.protocol ≡ true → take 2 got ≡ 0 ∷ 0 ∷ [])
    × (begins_with got sent ≡ false)
    × (is_successful_http got ≡ true)

-- a verdict on the bytes `s` that the peer sends, and what is left of them
abbrev pub IsJudged : Node → Bytes → List Event → Outcome (Option Cause) × Conn → Type 0
IsJudged n sent script (raised f, c) = ¬ Answers 16 script
IsJudged n sent script (ok r, c) =
    ((r ≡ none) ↔ IsCertified n sent (take 16 (stream script)))
    × (r ≡ none → stream c.script ≡ drop 16 (stream script))

judge_rest_lem :
    (n : Node) (sent got : Bytes)
    → (judge_rest n sent got ≡ none)
      ↔ ((begins_with got sent ≡ false) × (is_successful_http got ≡ true))
unfolding judged
judge_rest_lem n sent got = (grind arith, grind arith)

-- the two reads in a row
two_reads :
    (reply more s mid rest : Bytes)
    → reply ++ mid ≡ s
    → length reply ≡ min 2 (length s)
    → more ++ rest ≡ mid
    → length more ≡ min 14 (length mid)
    → (reply ++ more ≡ take 16 s) × (rest ≡ drop 16 s)
two_reads reply more s mid rest first short second small =
    let sizes : length s ≡ length reply + length mid =
      ap length (sym first) ∙ length-append reply mid in
    read_take 16 (reply ++ more) rest s
      (append_assoc reply more rest ∙ ap (λ l. reply ++ l) second ∙ first)
      (length-append reply more ∙ omega (arith, short, small, sizes))

take-take : (s : Bytes) → take 2 (take 16 s) ≡ take 2 s
take-take [] = refl
take-take (x ∷ []) = refl
take-take (x ∷ y ∷ s) = refl

Answers-le : (j k : ℕ) (script : List Event) → j ≤ k → Answers k script → Answers j script
Answers-le j k script h (inl c) = inl c
Answers-le j k script h (inr many) = inr (omega (arith, h, many))

-- the second read, and the tests
second_read :
    (n : Node) (sent reply : Bytes) (script : List Event) (c : Conn) (r : Outcome Bytes × Conn)
    → (is_vless n.protocol ≡ true → reply ≡ 0 ∷ 0 ∷ [])
    → IsRead 2 script (ok reply, c)
    → IsRead 14 c.script r
    → IsJudged n sent script (((λ _. r) >>= λ more. pure (judge_rest n sent (reply ++ more))) c)
second_read n sent reply script c (raised f, c') v (first, short, ends) second = λ answers. second (
    Answers-le 14 (16 - length reply) c.script (omega (arith, short))
      (Answers-left 16 reply script c.script first ends answers))
second_read n sent reply script c (ok more, c') v (first, short, ends) (second, small, _) =
    let (whole, left) =
      two_reads reply more (stream script) (stream c.script) (stream c'.script) first short second
        small in
    let starts : reply ≡ take 2 (stream script) =
      (read_take 2 reply (stream c.script) (stream script) first short).0 in
    let (to, from) = judge_rest_lem n sent (reply ++ more) in
    rw (sym whole) (
      (
        λ h. (
          λ is. ap (take 2) whole ∙ take-take (stream script) ∙ sym starts ∙ v is,
          (to h).0,
          (to h).1,
        ),
        λ (_, unlike, found). from (unlike, found),
      ),
      λ _. left,
    )

-- the first read
first_read :
    (n : Node) (sent : Bytes) (script : List Event) (c : Conn) (r : Outcome Bytes × Conn)
    → IsRead 2 script r
    → IsJudged n sent script (
        ((λ _. r) >>= λ reply.
        if is_vless n.protocol && not (same_bytes reply (0 ∷ 0 ∷ []))
        then pure (some non_relay)
        else (recvn 14 >>= λ more. pure (judge_rest n sent (reply ++ more))))
          c)
first_read n sent script c (raised f, c') h =
    λ answers. h (Answers-le 2 16 script (omega arith) answers)
first_read n sent script c (ok reply, c') h =
    let headed = same_bytes_lem reply (0 ∷ 0 ∷ []) in
    let starts : reply ≡ take 2 (stream script) =
      (read_take 2 reply (stream c'.script) (stream script) h.0 h.1).0 in
    elim (Bool-cases (is_vless n.protocol && not (same_bytes reply (0 ∷ 0 ∷ [])))) [
      | inl other ↦ rw other (
        (
          λ h. absurd (grind (arith, h)),
          λ (v, _, _). absurd (grind (arith, other, headed, starts, take-take (stream script), v)),
        ),
        λ h. absurd (grind (arith, h)),
      )
      | inr same ↦ rw same (
          second_read n sent reply script c' (recvn 14 c') (grind (arith, same, headed)) h
            (recvn-IsRead 14 c'))
    ]

-- The verdict does not see how the bytes arrive: the server is accepted exactly when the first 16
-- bytes of its stream are certified, and then the rest is left to be measured; reading raises only
-- where the server neither sends 16 bytes nor closes after those it sends.
pub judge-IsJudged :
    (n : Node) (sent : Bytes) (c : Conn) → IsJudged n sent c.script (judge n sent c)
unfolding judge
judge-IsJudged n sent c = first_read n sent c.script c (recvn 2 c) (recvn-IsRead 2 c)
