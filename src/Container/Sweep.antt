-- ===== src/Container/Sweep.antt =====
-- Which containers reconcile of engine/tunnel/container.py removes.
use Prim.Native.String.{◌++◌ as ◌<>◌}
use infinity_proxy.Prelude.{
  String, ◌≡◌, refl, sym, eq_iff, Bool, true, false, not, ◌&&◌, Option, none, List, [], ◌∷◌, any,
  str_eq, if◌then◌else◌, or_else, arith, Bool-cases, inl, inr, ap, ◌∙◌,
}
use infinity_proxy.Prelude.Text.{
  starts_with, remove_prefix, strip_prefix, append_assoc, strip_prefix-append,
}
use infinity_proxy.Container.{
  Call, remove_container, list_containers, Daemon, Run, bare, among, sweep, reconcile,
  container_name,
}

-- the names that a sweep is to remove
abbrev pub unexpected_name : String → List String → String → Bool
unexpected_name prefix expected name =
    starts_with (prefix <> "-") name && not (among expected (remove_prefix (prefix <> "-") name))

abbrev pub removals : String → List String → List (Option String) → List Call
removals prefix expected [] = []
removals prefix expected (name ∷ names) =
    let rest = removals prefix expected names in
    if unexpected_name prefix expected (or_else name "")
    then remove_container (or_else name "") ∷ rest
    else rest

sweep-removals :
    (d : Daemon) (prefix : String) (expected : List String) (names : List (Option String))
    → bare d.removes ≡ none
    → sweep d prefix expected names ≡ (removals prefix expected names, none)
unfolding sweep
sweep-removals d prefix expected [] ok = refl
sweep-removals d prefix expected (name ∷ names) ok =
    let rest = sweep-removals d prefix expected names ok in
    elim (Bool-cases (starts_with (prefix <> "-") (or_else name ""))) [
      | inr other ↦ rw (other, sweep) rest
      | inl own ↦
          elim (Bool-cases (among expected (remove_prefix (prefix <> "-") (or_else name "")))) [
            | inl live ↦ rw (own, sweep) (rw (live, sweep) rest)
            | inr orphan ↦ rw (own, sweep) (rw (orphan, sweep) (rw (ok, rest) refl))
          ]
    ]

abbrev pub is_removal : String → Call → Bool
is_removal name (remove_container n) = str_eq n name
is_removal name _ = false

own_id : (prefix tid : String) → remove_prefix (prefix <> "-") (container_name prefix tid) ≡ tid
unfolding remove_prefix container_name
own_id prefix tid =
    ap (λ t. or_else (strip_prefix (prefix <> "-") t) t) (sym (append_assoc prefix "-" tid))
    ∙ ap (λ o. or_else o ((prefix <> "-") <> tid)) (strip_prefix-append (prefix <> "-") tid)

kept :
    (prefix tid name : String) (expected : List String)
    → among expected tid ≡ true
    → unexpected_name prefix expected name ≡ true
    → str_eq name (container_name prefix tid) ≡ false
kept prefix tid name expected live h = elim (Bool-cases (str_eq name (container_name prefix tid))) [
  | inr other ↦ other
  | inl same ↦
      let path = (eq_iff name (container_name prefix tid)).0 same in
      let known : among expected (remove_prefix (prefix <> "-") name) ≡ true =
        ap (λ n. among expected (remove_prefix (prefix <> "-") n)) path
        ∙ ap (among expected) (own_id prefix tid)
        ∙ live in
      ground arith
]

removals-kept :
    (prefix tid : String) (expected : List String) (names : List (Option String))
    → among expected tid ≡ true
    → any (is_removal (container_name prefix tid)) (removals prefix expected names) ≡ false
removals-kept prefix tid expected [] live = refl
removals-kept prefix tid expected (name ∷ names) live =
    let rest = removals-kept prefix tid expected names live in
    elim (Bool-cases (unexpected_name prefix expected (or_else name ""))) [
      | inl orphan ↦
          rw (orphan, removals)
            (ground (arith, rest, kept prefix tid (or_else name "") expected live orphan))
      | inr fine_name ↦ rw (fine_name, removals) rest
    ]

-- Where the daemon answers, a reconciliation removes the containers that carry the engine's prefix
-- and the id of no expected tunnel, each of them and no others, and never the container of an
-- expected tunnel.
pub reconcile-removals :
    (d : Daemon) (prefix : String) (expected : List String) (tid : String)
    → d.reachable ≡ true
    → bare d.lists ≡ none
    → bare d.removes ≡ none
    → among expected tid ≡ true
    → (reconcile d prefix expected ≡ (list_containers ∷ removals prefix expected d.names, none))
      × (any (is_removal (container_name prefix tid)) (reconcile d prefix expected).0 ≡ false)
unfolding reconcile
reconcile-removals d prefix expected tid up listed ok live =
    let whole : reconcile d prefix expected
        ≡ (list_containers ∷ removals prefix expected d.names, none) =
      rw (up, reconcile)
        (rw (listed, reconcile) (rw (sweep-removals d prefix expected d.names ok) refl)) in
    (
      whole,
      ap (λ (r : Run). any (is_removal (container_name prefix tid)) r.0) whole
          ∙ removals-kept prefix tid expected d.names live,
    )
