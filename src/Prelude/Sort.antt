-- ===== src/Prelude/Sort.antt =====
-- `sorted(xs, key=…)` and `ORDER BY`: a stable sort by a key, here by insertion.
use mathlib.Core.List.{Perm}
use mathlib.Core.List.Perm
use Prim.Native.Nat.{ℕ}
use mathlib.Core.Path.{◌≡◌, refl}
use mathlib.Core.Logic.{inl, inr}
use mathlib.Core.Bool.{Bool, true, false, ◌||◌}
use mathlib.Core.List.{List, [], ◌∷◌, map}
use native.Mathlib.Omega.{arith}
use infinity_proxy.Prelude.Tests.{◌==◌, if◌then◌else◌, Bool-cases}
use infinity_proxy.Prelude.Lists.{All, contains, Unique, any, count_where}
use infinity_proxy.Prelude.Keys.{Key, lex_le, lex_le_total, lex_le_trans}

module _ {ℓ} {A : Type ℓ} (key : A → List Key) where
  -- before the first element that is not smaller, so equal keys keep their order
  unfoldable pub insert_by : A → List A → List A
  insert_by x [] = x ∷ []
  insert_by x (y ∷ ys) =
      let rest = insert_by x ys in if lex_le (key x) (key y) then x ∷ y ∷ ys else y ∷ rest

  unfoldable pub sort_by : List A → List A
  unfolding insert_by lex_le
  sort_by [] = []
  sort_by (x ∷ xs) = insert_by x (sort_by xs)

  insert_by-perm : (x : A) (xs : List A) → Perm (insert_by x xs) (x ∷ xs)
  unfolding insert_by
  insert_by-perm x [] = Perm.refl (x ∷ [])
  insert_by-perm x (y ∷ ys) = ground (
    arith,
    Perm.refl (x ∷ y ∷ ys),
    Perm.trans (Perm.cons y (insert_by-perm x ys)) (Perm.swap x y ys),
  )

  -- Sorting only rearranges.
  pub sort_by-perm : (xs : List A) → Perm (sort_by xs) xs
  unfolding sort_by
  sort_by-perm [] = Perm.refl []
  sort_by-perm (x ∷ xs) = Perm.trans (insert_by-perm x (sort_by xs)) (Perm.cons x (sort_by-perm xs))

  abbrev pub IsSortedBy : List A → Type ℓ
  IsSortedBy [] = Unit
  IsSortedBy (x ∷ xs) = All (λ y. lex_le (key x) (key y) ≡ true) xs × IsSortedBy xs

  All-lex_le :
      (x y : A) (xs : List A)
      → lex_le (key x) (key y) ≡ true
      → All (λ z. lex_le (key y) (key z) ≡ true) xs
      → All (λ z. lex_le (key x) (key z) ≡ true) xs
  All-lex_le x y [] h a = tt
  All-lex_le x y (z ∷ zs) h a =
      (lex_le_trans (key x) (key y) (key z) h a.0, All-lex_le x y zs h a.1)

  insert_by-All :
      (x : A) (z : A) (xs : List A)
      → lex_le (key z) (key x) ≡ true
      → All (λ y. lex_le (key z) (key y) ≡ true) xs
      → All (λ y. lex_le (key z) (key y) ≡ true) (insert_by x xs)
  unfolding insert_by
  insert_by-All x z [] h a = (h, tt)
  insert_by-All x z (y ∷ ys) h a = elim (Bool-cases (lex_le (key x) (key y))) [
    | inl le ↦ rw le (h, a)
    | inr gt ↦ rw gt (a.0, insert_by-All x z ys h a.1)
  ]

  insert_by-IsSortedBy : (x : A) (xs : List A) → IsSortedBy xs → IsSortedBy (insert_by x xs)
  unfolding insert_by
  insert_by-IsSortedBy x [] s = (tt, tt)
  insert_by-IsSortedBy x (y ∷ ys) s = elim (Bool-cases (lex_le (key x) (key y))) [
    | inl le ↦ rw le ((le, All-lex_le x y ys le s.0), s)
    | inr gt ↦ rw gt (
      insert_by-All x y ys (ground (arith, lex_le_total (key x) (key y))) s.0,
      insert_by-IsSortedBy x ys s.1,
    )
  ]

  -- The result is in the order of the keys.
  pub sort_by-IsSortedBy : (xs : List A) → IsSortedBy (sort_by xs)
  unfolding sort_by
  sort_by-IsSortedBy [] = tt
  sort_by-IsSortedBy (x ∷ xs) = insert_by-IsSortedBy x (sort_by xs) (sort_by-IsSortedBy xs)

  module _ (f : A → ℕ) where
    contains-insert_by :
        (i : ℕ) (x : A) (xs : List A)
        → contains i (map f (insert_by x xs)) ≡ (f x == i || contains i (map f xs))
    unfolding insert_by
    contains-insert_by i x [] = refl
    contains-insert_by i x (y ∷ ys) = ground (arith, contains-insert_by i x ys)

    -- Sorting keeps the set of ids.
    pub contains-sort_by :
        (i : ℕ) (xs : List A) → contains i (map f (sort_by xs)) ≡ contains i (map f xs)
    unfolding sort_by
    contains-sort_by i [] = refl
    contains-sort_by i (x ∷ xs) =
        ground (arith, contains-insert_by i x (sort_by xs), contains-sort_by i xs)

    Unique-insert_by :
        (x : A) (xs : List A)
        → contains (f x) (map f xs) ≡ false
        → Unique (map f xs)
        → Unique (map f (insert_by x xs))
    unfolding insert_by
    Unique-insert_by x [] h u = (refl, tt)
    Unique-insert_by x (y ∷ ys) h u = elim (Bool-cases (lex_le (key x) (key y))) [
      | inl le ↦ rw le (h, u)
      | inr gt ↦
          rw gt (
            ground (arith, contains-insert_by (f y) x ys),
            Unique-insert_by x ys (ground arith) u.1,
          )
    ]

    pub Unique-sort_by : (xs : List A) → Unique (map f xs) → Unique (map f (sort_by xs))
    unfolding sort_by
    Unique-sort_by [] u = tt
    Unique-sort_by (x ∷ xs) u =
        Unique-insert_by x (sort_by xs) (ground (arith, contains-sort_by (f x) xs))
          (Unique-sort_by xs u.1)

  All-insert_by {κ} :
      (P : A → Type κ) (x : A) (xs : List A) → P x → All P xs → All P (insert_by x xs)
  unfolding insert_by
  All-insert_by P x [] p a = (p, tt)
  All-insert_by P x (y ∷ ys) p a = elim (Bool-cases (lex_le (key x) (key y))) [
    | inl le ↦ rw le (p, a)
    | inr gt ↦ rw gt (a.0, All-insert_by P x ys p a.1)
  ]

  -- Sorting keeps what holds of every element.
  pub All-sort_by {κ} : (P : A → Type κ) (xs : List A) → All P xs → All P (sort_by xs)
  unfolding sort_by
  All-sort_by P [] a = tt
  All-sort_by P (x ∷ xs) a = All-insert_by P x (sort_by xs) a.0 (All-sort_by P xs a.1)

  any-insert_by : (p : A → Bool) (x : A) (xs : List A) → any p (insert_by x xs) ≡ (p x || any p xs)
  unfolding insert_by
  any-insert_by p x [] = refl
  any-insert_by p x (y ∷ ys) = ground (arith, any-insert_by p x ys)

  -- Sorting keeps whether some element passes a test.
  pub any-sort_by : (p : A → Bool) (xs : List A) → any p (sort_by xs) ≡ any p xs
  unfolding sort_by
  any-sort_by p [] = refl
  any-sort_by p (x ∷ xs) = ground (arith, any-insert_by p x (sort_by xs), any-sort_by p xs)

  count-insert_by :
      (p : A → Bool) (x : A) (xs : List A) → count_where p (insert_by x xs) ≡ count_where p (x ∷ xs)
  unfolding insert_by
  count-insert_by p x [] = refl
  count-insert_by p x (y ∷ ys) = ground (arith, count-insert_by p x ys)

  -- Sorting keeps how many elements pass a test.
  pub count-sort_by : (p : A → Bool) (xs : List A) → count_where p (sort_by xs) ≡ count_where p xs
  unfolding sort_by
  count-sort_by p [] = refl
  count-sort_by p (x ∷ xs) = ground (arith, count-insert_by p x (sort_by xs), count-sort_by p xs)
