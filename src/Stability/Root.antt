-- ===== src/Stability/Root.antt =====
-- `math.sqrt`, rounded down, by base-4 digits.
use infinity_proxy.Prelude.{
  ℕ, zero, suc, ◌+◌, ◌*◌, ◌/◌, ◌≤◌, ◌<◌, ◌≡◌, refl, arith, leb, ◌==◌, if◌then◌else◌, false,
  Bool-cases, inl, inr, leb→le,
}

root_step : ℕ → ℕ → ℕ
root_step n r = if leb ((2 * r + 1) * (2 * r + 1)) n then 2 * r + 1 else 2 * r

-- Each round drops a digit, so the fuel `n` is enough.
root_loop : ℕ → ℕ → ℕ
unfolding root_step
root_loop zero n = 0
root_loop (suc fuel) n = let rest = root_loop fuel (n / 4) in if n == 0 then 0 else root_step n rest

unfoldable pub isqrt : ℕ → ℕ
unfolding root_loop
isqrt n = root_loop n n

abbrev IsRoot : ℕ → ℕ → Type 0
IsRoot n r = (r * r ≤ n) × (n < (r + 1) * (r + 1))

leb-false : (a b : ℕ) → leb a b ≡ false → b < a
leb-false a b h = ground arith

root_step-IsRoot : (n r : ℕ) → IsRoot (n / 4) r → IsRoot n (root_step n r)
unfolding root_step
root_step-IsRoot n r h = elim (Bool-cases (leb ((2 * r + 1) * (2 * r + 1)) n)) [
  | inl fits ↦ rw fits (leb→le _ n fits, omega arith)
  | inr above ↦ let below = leb-false _ n above in rw above (omega arith, omega arith)
]

root_loop-zero : (fuel : ℕ) → root_loop fuel 0 ≡ 0
unfolding root_loop
root_loop-zero zero = refl
root_loop-zero (suc fuel) = refl

root_loop-suc :
    (fuel n : ℕ) → (n == 0) ≡ false → root_loop (suc fuel) n ≡ root_step n (root_loop fuel (n / 4))
unfolding root_loop
root_loop-suc fuel n e = rw e

root_loop-IsRoot : (fuel n : ℕ) → n ≤ fuel → IsRoot n (root_loop fuel n)
root_loop-IsRoot zero n h = ground (arith, root_loop-zero 0)
root_loop-IsRoot (suc fuel) n h = elim (Bool-cases (n == 0)) [
  | inl e ↦ ground (arith, root_loop-zero (suc fuel))
  | inr e ↦
      rw (root_loop-suc fuel n e)
        (root_step-IsRoot n (root_loop fuel (n / 4)) (root_loop-IsRoot fuel (n / 4) (ground arith)))
]

-- The root is exact up to rounding down.
pub isqrt-square : (n : ℕ) → (isqrt n * isqrt n ≤ n) × (n < (isqrt n + 1) * (isqrt n + 1))
unfolding isqrt
isqrt-square n = root_loop-IsRoot n n (omega arith)
