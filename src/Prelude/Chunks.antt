-- ===== src/Prelude/Chunks.antt =====
-- `for start in range(0, len(xs), size): xs[start : start + size]`
use Prim.Native.Nat.{ℕ, zero, suc, ◌≤◌, ◌<◌, ◌-◌}
use mathlib.Core.Path.{◌≡◌, refl, ap}
use mathlib.Core.List.{List, [], ◌∷◌, ◌++◌}
use native.Mathlib.Omega.{arith}
use infinity_proxy.Prelude.Lists.{length, take, drop, length-take, All}

module _ {ℓ} {A : Type ℓ} where
  -- The fuel is the number of elements: each round drops at least one.
  unfoldable pub chunks_loop : ℕ → ℕ → List A → List (List A)
  chunks_loop zero size xs = []
  chunks_loop (suc fuel) size [] = []
  chunks_loop (suc fuel) size (x ∷ xs) =
      take size (x ∷ xs) ∷ chunks_loop fuel size (drop size (x ∷ xs))

  unfoldable pub chunks : ℕ → List A → List (List A)
  unfolding chunks_loop
  chunks size xs = chunks_loop (length xs) size xs

  abbrev pub concat : List (List A) → List A
  concat [] = []
  concat (xs ∷ xss) = xs ++ concat xss

  pub take-append-drop : (n : ℕ) (xs : List A) → take n xs ++ drop n xs ≡ xs
  take-append-drop zero xs = refl
  take-append-drop (suc n) [] = refl
  take-append-drop (suc n) (x ∷ xs) = ap (◌∷◌ x) (take-append-drop n xs)

  pub length-drop : (n : ℕ) (xs : List A) → length (drop n xs) ≡ length xs - n
  length-drop zero xs = omega arith
  length-drop (suc n) [] = omega arith
  length-drop (suc n) (x ∷ xs) = omega (arith, length-drop n xs)

  concat-chunks_loop :
      (fuel size : ℕ) (xs : List A)
      → 0 < size
      → length xs ≤ fuel
      → concat (chunks_loop fuel size xs) ≡ xs
  unfolding chunks_loop
  concat-chunks_loop zero size [] p h = refl
  concat-chunks_loop zero size (x ∷ xs) p h = absurd (omega arith)
  concat-chunks_loop (suc fuel) size [] p h = refl
  concat-chunks_loop (suc fuel) size (x ∷ xs) p h =
      rw
        (concat-chunks_loop fuel size (drop size (x ∷ xs)) p
          (omega (arith, length-drop size (x ∷ xs))))
        (take-append-drop size (x ∷ xs))

  -- Nothing is lost or repeated between the slices.
  pub concat-chunks : (size : ℕ) (xs : List A) → 0 < size → concat (chunks size xs) ≡ xs
  unfolding chunks
  concat-chunks size xs p = concat-chunks_loop (length xs) size xs p (omega arith)

  chunks_loop-small :
      (fuel size : ℕ) (xs : List A) → All (λ c. length c ≤ size) (chunks_loop fuel size xs)
  unfolding chunks_loop
  chunks_loop-small zero size xs = tt
  chunks_loop-small (suc fuel) size [] = tt
  chunks_loop-small (suc fuel) size (x ∷ xs) =
      (omega (arith, length-take size (x ∷ xs)), chunks_loop-small fuel size (drop size (x ∷ xs)))

  pub chunks-small : (size : ℕ) (xs : List A) → All (λ c. length c ≤ size) (chunks size xs)
  unfolding chunks
  chunks-small size xs = chunks_loop-small (length xs) size xs
