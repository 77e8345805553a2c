-- ===== src/Prelude/Lists.antt =====
-- Lists as the rows of a table: selection, counting and update by a Boolean test; sets of ids.
use Prim.Native.Nat.{ℕ, zero, suc, ◌+◌, ◌≤◌, min}
use mathlib.Core.Path.{◌≡◌, refl, ap}
use mathlib.Core.Bool.{Bool, true, false, not, ◌||◌}
use mathlib.Core.List.{List, [], ◌∷◌, ◌++◌, map}
use mathlib.Core.Option.{Option, none, some}
use native.Mathlib.Omega.{arith}
use infinity_proxy.Prelude.Tests.{◌==◌, if◌then◌else◌}

module _ {ℓ} {A : Type ℓ} where
  abbrev pub length : List A → ℕ
  length [] = 0
  length (x ∷ xs) = suc (length xs)

  abbrev pub take : ℕ → List A → List A
  take zero xs = []
  take (suc n) [] = []
  take (suc n) (x ∷ xs) = x ∷ take n xs

  abbrev pub drop : ℕ → List A → List A
  drop zero xs = xs
  drop (suc n) [] = []
  drop (suc n) (x ∷ xs) = drop n xs

  -- `[x for x in xs if p(x)]`, `SELECT … WHERE`
  abbrev pub select : (A → Bool) → List A → List A
  select p [] = []
  select p (x ∷ xs) = let rest = select p xs in if p x then x ∷ rest else rest

  -- `DELETE … WHERE`
  abbrev pub delete_where : (A → Bool) → List A → List A
  delete_where p = select (λ x. not (p x))

  -- `UPDATE … SET … WHERE`
  abbrev pub update_where : (A → Bool) → (A → A) → List A → List A
  update_where p f [] = []
  update_where p f (x ∷ xs) = (if p x then f x else x) ∷ update_where p f xs

  -- `SELECT COUNT(*) … WHERE`
  abbrev pub count_where : (A → Bool) → List A → ℕ
  count_where p [] = 0
  count_where p (x ∷ xs) = if p x then suc (count_where p xs) else count_where p xs

  -- the first row that passes, `fetchone()`
  abbrev pub find : (A → Bool) → List A → Option A
  find p [] = none
  find p (x ∷ xs) = if p x then some x else find p xs

  abbrev pub any : (A → Bool) → List A → Bool
  any p [] = false
  any p (x ∷ xs) = p x || any p xs

  abbrev pub All {κ} : (A → Type κ) → List A → Type κ
  All P [] = Unit
  All P (x ∷ xs) = P x × All P xs

  pub length-append : (xs ys : List A) → length (xs ++ ys) ≡ length xs + length ys
  length-append [] ys = omega arith
  length-append (x ∷ xs) ys = omega (arith, length-append xs ys)

  pub length-take : (n : ℕ) (xs : List A) → length (take n xs) ≡ min n (length xs)
  length-take zero xs = omega arith
  length-take (suc n) [] = omega arith
  length-take (suc n) (x ∷ xs) = omega (arith, length-take n xs)

  pub length-select-le : (p : A → Bool) (xs : List A) → length (select p xs) ≤ length xs
  length-select-le p [] = omega arith
  length-select-le p (x ∷ xs) = ground (arith, length-select-le p xs)

  pub count_where-le-length : (p : A → Bool) (xs : List A) → count_where p xs ≤ length xs
  count_where-le-length p [] = omega arith
  count_where-le-length p (x ∷ xs) = ground (arith, count_where-le-length p xs)

  pub length-update_where :
      (p : A → Bool) (f : A → A) (xs : List A) → length (update_where p f xs) ≡ length xs
  length-update_where p f [] = refl
  length-update_where p f (x ∷ xs) = ap suc (length-update_where p f xs)

  pub any-append : (p : A → Bool) (xs ys : List A) → any p (xs ++ ys) ≡ (any p xs || any p ys)
  any-append p [] ys = refl
  any-append p (x ∷ xs) ys = ground (arith, any-append p xs ys)

  -- A row that is found passes the test.
  pub find-holds : (p : A → Bool) (xs : List A) (x : A) → find p xs ≡ some x → p x ≡ true
  find-holds p [] x h = ground arith
  find-holds p (y ∷ ys) x h = ground (arith, find-holds p ys x)

module _ {ℓ κ} {A : Type ℓ} {B : Type κ} where
  pub length-map : (f : A → B) (xs : List A) → length (map f xs) ≡ length xs
  length-map f [] = refl
  length-map f (x ∷ xs) = ap suc (length-map f xs)

-- `i in ids`, for a set or list of ids
abbrev pub contains : ℕ → List ℕ → Bool
contains i [] = false
contains i (j ∷ js) = j == i || contains i js

-- No id stands twice: the primary key of a table.
abbrev pub Unique : List ℕ → Type 0
Unique [] = Unit
Unique (i ∷ is) = (contains i is ≡ false) × Unique is

pub contains-append :
    (i : ℕ) (xs ys : List ℕ) → contains i (xs ++ ys) ≡ (contains i xs || contains i ys)
contains-append i [] ys = refl
contains-append i (x ∷ xs) ys = ground (arith, contains-append i xs ys)

-- A row put at the end under a new id.
pub Unique-snoc : (is : List ℕ) (i : ℕ) → Unique is → contains i is ≡ false → Unique (is ++ i ∷ [])
Unique-snoc [] i u h = (refl, tt)
Unique-snoc (j ∷ js) i u h =
    (ground (arith, contains-append j js (i ∷ [])), Unique-snoc js i u.1 (ground arith))

module _ {ℓ} {A : Type ℓ} (f : A → ℕ) where
  -- A selection holds no id that was not there.
  pub contains-select :
      (i : ℕ) (p : A → Bool) (xs : List A)
      → contains i (map f xs) ≡ false
      → contains i (map f (select p xs)) ≡ false
  contains-select i p [] h = refl
  contains-select i p (x ∷ xs) h = ground (arith, contains-select i p xs)

  pub Unique-select :
      (p : A → Bool) (xs : List A) → Unique (map f xs) → Unique (map f (select p xs))
  Unique-select p [] u = tt
  Unique-select p (x ∷ xs) u = ground (arith, contains-select (f x) p xs, Unique-select p xs u.1)

  pub contains-take :
      (i n : ℕ) (xs : List A) → contains i (map f (take n xs)) ≡ true → contains i (map f xs) ≡ true
  contains-take i zero xs h = ground arith
  contains-take i (suc n) [] h = h
  contains-take i (suc n) (x ∷ xs) h = ground (arith, contains-take i n xs)

  pub Unique-take : (n : ℕ) (xs : List A) → Unique (map f xs) → Unique (map f (take n xs))
  Unique-take zero xs u = tt
  Unique-take (suc n) [] u = tt
  Unique-take (suc n) (x ∷ xs) u = (ground (arith, contains-take (f x) n xs), Unique-take n xs u.1)

  -- An update that leaves the key alone leaves the keys alone.
  pub map-update_where :
      (p : A → Bool) (g : A → A) (xs : List A)
      → ((x : A) → f (g x) ≡ f x)
      → map f (update_where p g xs) ≡ map f xs
  map-update_where p g [] h = refl
  map-update_where p g (x ∷ xs) h = ground (arith, h x, map-update_where p g xs h)
