-- ===== src/Prelude/Dict.antt =====
-- Python's `dict` with numeric keys, as an association list; a set of keys is a list of numbers.
use Prim.Native.Nat.{ℕ}
use mathlib.Core.Path.{◌≡◌}
use mathlib.Core.Bool.{true, false}
use mathlib.Core.Option.{Option, none, some}
use mathlib.Core.List.{List, [], ◌∷◌}
use native.Mathlib.Omega.{arith}
use infinity_proxy.Prelude.Tests.{◌==◌, if◌then◌else◌}
use infinity_proxy.Prelude.Lists.{contains, delete_where}

module _ {ℓ} {V : Type ℓ} where
  -- d.get(k)
  unfoldable pub get : ℕ → List (ℕ × V) → Option V
  get k [] = none
  get k ((j, v) ∷ d) = if j == k then some v else get k d

  -- d.pop(k, None)
  unfoldable pub pop : ℕ → List (ℕ × V) → List (ℕ × V)
  pop k [] = []
  pop k ((j, v) ∷ d) = let rest = pop k d in if j == k then rest else (j, v) ∷ rest

  -- d[k] = v
  unfoldable pub put : ℕ → V → List (ℕ × V) → List (ℕ × V)
  put k v d = (k, v) ∷ pop k d

  pub get-pop : (k j : ℕ) (d : List (ℕ × V)) → get j (pop k d) ≡ (if k == j then none else get j d)
  unfolding get pop
  get-pop k j [] = ground arith
  get-pop k j ((i, v) ∷ d) = ground (arith, get-pop k j d)

  pub get-put :
      (k j : ℕ) (v : V) (d : List (ℕ × V))
      → get j (put k v d) ≡ (if k == j then some v else get j d)
  unfolding get put
  get-put k j v d = ground (arith, get-pop k j d)

-- s.add(k)
unfoldable pub add : ℕ → List ℕ → List ℕ
add k s = if contains k s then s else k ∷ s

-- s.discard(k)
unfoldable pub discard : ℕ → List ℕ → List ℕ
discard k s = delete_where (λ j. j == k) s

pub contains-add :
    (k j : ℕ) (s : List ℕ) → contains j (add k s) ≡ (if k == j then true else contains j s)
unfolding add
contains-add k j s = ground arith

pub contains-discard :
    (k j : ℕ) (s : List ℕ) → contains j (discard k s) ≡ (if k == j then false else contains j s)
unfolding discard
contains-discard k j [] = ground arith
contains-discard k j (i ∷ s) = ground (arith, contains-discard k j s)
