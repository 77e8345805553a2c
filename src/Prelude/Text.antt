-- ===== src/Prelude/Text.antt =====
-- The methods of Python's `str` that the readers of node URIs call, over the code points of a text.
use Prim.Native.Nat.{ℕ, zero, suc, ◌-◌, ◌%◌}
use Prim.Native.Char.{Char, code}
use Prim.Native.String.append
use Prim.Native.String.{String, [], ◌∷◌, ◌++◌}
use mathlib.Core.Path.{◌≡◌, refl, sym, ap, ◌∙◌}
use mathlib.Core.Bool.{Bool, true, false, ◌||◌}
use mathlib.Core.Option.{Option, none, some}
use mathlib.Core.List.{List}
use native.Mathlib.Omega.{arith}
use infinity_proxy.Prelude.Tests.{==_refl, ◌==◌, if◌then◌else◌, is_some, or_else}

-- `sep in s`
unfoldable pub has : ℕ → String → Bool
has sep [] = false
has sep (c ∷ s) = code c == sep || has sep s

-- s.partition(sep), with the separator as whether it is there
unfoldable pub partition : ℕ → String → String × Bool × String
partition sep [] = ("", false, "")
partition sep (c ∷ s) =
    let (before, found, after) = partition sep s in
    if code c == sep then ("", true, s) else (c ∷ before, found, after)

-- s.rpartition(sep)
unfoldable pub rpartition : ℕ → String → String × Bool × String
rpartition sep [] = ("", false, "")
rpartition sep (c ∷ s) =
    let (before, found, after) = rpartition sep s in
    if found
    then (c ∷ before, true, after)
    else if code c == sep
    then ("", true, s)
    else ("", false, c ∷ s)

unfoldable pub strip_prefix : String → String → Option String
strip_prefix [] s = some s
strip_prefix (p ∷ ps) [] = none
strip_prefix (p ∷ ps) (c ∷ s) =
    let rest = strip_prefix ps s in if code p == code c then rest else none

-- s.startswith(prefix)
unfoldable pub starts_with : String → String → Bool
unfolding strip_prefix
starts_with prefix s = is_some (strip_prefix prefix s)

-- s.removeprefix(prefix)
unfoldable pub remove_prefix : String → String → String
unfolding strip_prefix
remove_prefix prefix s = or_else (strip_prefix prefix s) s

abbrev glue : String → List String → List String
glue s List.[] = List.◌∷◌ s List.[]
glue s (List.◌∷◌ part parts) = List.◌∷◌ (s ++ part) parts

-- s.split(sep)
unfoldable pub split : ℕ → String → List String
split sep [] = List.◌∷◌ "" List.[]
split sep (c ∷ s) =
    let parts = split sep s in if code c == sep then List.◌∷◌ "" parts else glue (c ∷ "") parts

-- whether a text is truthy
abbrev pub is_text : String → Bool
is_text [] = false
is_text (c ∷ s) = true

unfoldable pub count_chars : String → ℕ
count_chars [] = 0
count_chars (c ∷ s) = suc (count_chars s)

abbrev copies : ℕ → String → String
copies zero s = ""
copies (suc n) s = s ++ copies n s

-- data + "=" * (-len(data) % 4)
unfoldable pub padded : String → String
unfolding count_chars
padded s = s ++ copies ((4 - count_chars s % 4) % 4) "="

pub has-append : (sep : ℕ) (s t : String) → has sep (s ++ t) ≡ (has sep s || has sep t)
unfolding has
has-append sep [] t = rw append.nil refl
has-append sep (c ∷ s) t = rw append.cons (ground (arith, has-append sep s t))

pub rpartition-absent :
    (sep : ℕ) (s : String) → has sep s ≡ false → rpartition sep s ≡ ("", false, s)
unfolding rpartition has
rpartition-absent sep [] h = refl
rpartition-absent sep (c ∷ s) h =
    let rest = rpartition-absent sep s (ground arith) in
    let miss : (code c == sep) ≡ false = ground arith in rw (rest, rpartition) (rw miss refl)

-- The last separator cuts the text.
pub rpartition-append :
    (s : String) (d : Char) (t : String)
    → has (code d) t ≡ false
    → rpartition (code d) (s ++ (d ∷ t)) ≡ (s, true, t)
unfolding rpartition has
rpartition-append [] d t h =
    let rest = rpartition-absent (code d) t h in
    rw append.nil (rw (rest, rpartition) (rw (==_refl (code d)) refl))
rpartition-append (c ∷ s) d t h =
    let rest = rpartition-append s d t h in rw append.cons (rw (rest, rpartition) refl)

-- One character put before a text.
pub append-single : (c : Char) (s : String) → (c ∷ "") ++ s ≡ c ∷ s
append-single c s = rw append.cons (rw append.nil refl)

pub append_assoc : (s t u : String) → (s ++ t) ++ u ≡ s ++ (t ++ u)
append_assoc [] t u = ap (λ v. v ++ u) (append.nil t) ∙ sym (append.nil (t ++ u))
append_assoc (c ∷ s) t u =
    ap (λ v. v ++ u) (append.cons c s t)
    ∙ append.cons c (s ++ t) u
    ∙ ap (λ v. c ∷ v) (append_assoc s t u)
    ∙ sym (append.cons c s (t ++ u))

-- A prefix that was put before a text is taken off again.
pub strip_prefix-append : (prefix s : String) → strip_prefix prefix (prefix ++ s) ≡ some s
unfolding strip_prefix
strip_prefix-append [] s = rw append.nil refl
strip_prefix-append (c ∷ prefix) s =
    let rest = strip_prefix-append prefix s in rw append.cons (rw (==_refl (code c), rest) refl)

-- A text with more after it is one.
pub is_text-append : (s t : String) → is_text s ≡ true → is_text (s ++ t) ≡ true
is_text-append [] t h = absurd (grind (arith, h))
is_text-append (c ∷ s) t h = rw append.cons refl
