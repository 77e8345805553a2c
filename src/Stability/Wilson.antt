-- ===== src/Stability/Wilson.antt =====
-- The Wilson lower bound of engine/stability.py.
use infinity_proxy.Prelude.{ℕ, ◌+◌, ◌*◌, ◌≤◌, ◌<◌, ◌≡◌, refl, ap, arith, zero, suc, ◌-◌, ◌/◌}
use native.Mathlib.Decide.{dec_le}
use native.Mathlib.Nat.{div-lt_iff_lt-mul}
use infinity_proxy.Stability.Root.{isqrt, isqrt-square}
use infinity_proxy.Stability.{wilson_lower, unit}

square_mono : (a b : ℕ) → a ≤ b → a * a ≤ b * b
square_mono a b h = grind arith

margin : (x : ℕ) → 19_208 ≤ isqrt (x + 368_947_264)
margin x = elim (dec_le 19_208 (isqrt (x + 368_947_264))) [
  | yes h ↦ h
  | no h ↦ absurd (
      omega (
        arith,
        (isqrt-square (x + 368_947_264)).1,
        square_mono (isqrt (x + 368_947_264) + 1) 19_208 (omega arith),
      ))
]

module _ (x d t ok : ℕ) (h : x ≤ 10_000 * ok) (e : d ≡ 10_000 * t + 38_416) where
  times_quotient : x * unit / d * d ≤ x * unit
  times_quotient = omega arith

  quotient-le-share : x * unit / d * t ≤ unit * ok
  quotient-le-share = omega (arith, times_quotient, ap (λ (u : ℕ). x * unit / d * u) e)

  quotient-lt-unit : ok ≤ t → x * unit / d < unit
  quotient-lt-unit le = (div-lt_iff_lt-mul {k = d} (omega arith)).1 (omega arith)

numerator : ℕ → ℕ → ℕ
numerator ok total =
    10_000 * ok + 19_208 - isqrt (384_160_000 * (ok * (total - ok)) / total + 368_947_264)

numerator-le : (ok total : ℕ) → numerator ok total ≤ 10_000 * ok
unfolding numerator
numerator-le ok total = omega (arith, margin (384_160_000 * (ok * (total - ok)) / total))

wilson_lower-numerator :
    (ok n : ℕ) → wilson_lower ok (suc n) ≡ numerator ok (suc n) * unit / (10_000 * suc n + 38_416)
unfolding wilson_lower numerator
wilson_lower-numerator ok n = ground arith

-- The lower bound never exceeds the observed share ok / total, in millionths.
pub wilson_lower-le-share : (ok total : ℕ) → wilson_lower ok total * total ≤ unit * ok
wilson_lower-le-share ok zero = omega arith
wilson_lower-le-share ok (suc n) =
    rw wilson_lower-numerator
      (quotient-le-share (numerator ok (suc n)) _ (suc n) ok (numerator-le ok (suc n)) refl)

-- The lower bound stays below 1.0 however many probes passed.
pub wilson_lower-lt-unit : (ok total : ℕ) → ok ≤ total → wilson_lower ok total < unit
wilson_lower-lt-unit ok zero h = unfold wilson_lower in omega arith
wilson_lower-lt-unit ok (suc n) h =
    rw wilson_lower-numerator
      (quotient-lt-unit (numerator ok (suc n)) _ (suc n) ok (numerator-le ok (suc n)) refl h)

test_zero : wilson_lower 0 7 ≡ 0
unfolding wilson_lower isqrt
test_zero = refl

test_small : wilson_lower 2 2 ≡ 342371
unfolding wilson_lower isqrt
test_small = refl

test_large : wilson_lower 95 100 ≡ 888248
unfolding wilson_lower isqrt
test_large = refl
