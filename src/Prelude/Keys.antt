-- ===== src/Prelude/Keys.antt =====
-- Sort keys: the columns of an ORDER BY, or the parts of the tuple that a Python `key` returns.
use Prim.Native.Nat.{ℕ, suc, ◌≤◌}
use mathlib.Core.Path.{◌≡◌}
use mathlib.Core.Logic.{◌⊎◌}
use mathlib.Core.Bool.{Bool, true, false}
use mathlib.Core.List.{List, [], ◌∷◌}
use mathlib.Core.Option.{Option, none, some}
use native.Mathlib.Omega.{arith}
use infinity_proxy.Prelude.Tests.{ltb, if◌then◌else◌}

-- `desc` is a column marked DESC, or a negated part of a tuple.
pub data Key : Type 0 where
  asc desc : ℕ → Key

-- SQLite puts NULL before every value.
abbrev pub nullable : Option ℕ → ℕ
nullable none = 0
nullable (some n) = suc n

-- a Boolean part of a key: False before True
abbrev pub flag : Bool → ℕ
flag false = 0
flag true = 1

unfoldable pub key_lt : Key → Key → Bool
key_lt (asc a) (asc b) = ltb a b
key_lt (desc a) (desc b) = ltb b a
key_lt (asc a) (desc b) = true
key_lt (desc a) (asc b) = false

-- Lexicographic: the first column that differs decides.
unfoldable pub lex_le : List Key → List Key → Bool
unfolding key_lt
lex_le [] ys = true
lex_le (x ∷ xs) [] = false
lex_le (x ∷ xs) (y ∷ ys) =
    let rest = lex_le xs ys in if key_lt x y then true else if key_lt y x then false else rest

pub lex_le_total : (xs ys : List Key) → (lex_le xs ys ≡ true) ⊎ (lex_le ys xs ≡ true)
unfolding lex_le
lex_le_total [] ys = ground arith
lex_le_total (x ∷ xs) [] = ground arith
lex_le_total (x ∷ xs) (y ∷ ys) = ground (arith, lex_le_total xs ys)

pub lex_le_trans :
    (xs ys zs : List Key) → lex_le xs ys ≡ true → lex_le ys zs ≡ true → lex_le xs zs ≡ true
unfolding lex_le
lex_le_trans [] ys zs p q = ground arith
lex_le_trans (x ∷ xs) [] zs p q = ground arith
lex_le_trans (x ∷ xs) (y ∷ ys) [] p q = ground arith
lex_le_trans (x ∷ xs) (y ∷ ys) (z ∷ zs) p q = ground (arith, lex_le_trans xs ys zs)

-- The first column decides first.
pub lex_le-asc : (i j : ℕ) (xs ys : List Key) → lex_le (asc i ∷ xs) (asc j ∷ ys) ≡ true → i ≤ j
unfolding lex_le
lex_le-asc i j xs ys h = ground arith
