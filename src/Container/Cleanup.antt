-- ===== src/Container/Cleanup.antt =====
-- What _run and update of engine/tunnel/container.py leave behind.
use infinity_proxy.Prelude.{
  String, ◌≡◌, ◌⊎◌, refl, Bool, true, false, Option, none, some, List, [], ◌∷◌, ◌++◌, any, is_some,
  Bool-cases, Option-cases, inl, inr, ap,
}
use infinity_proxy.Container.{
  Call, create_container, remove_container, put_archive, start_container, Daemon, Run, Lookup,
  found, missing, refused, Ending, pulled_if_missing, ensure_image, fill_container, create_and_fill,
  run_container, wrapped, and_then,
}

abbrev pub last_call : List Call → Option Call
last_call [] = none
last_call (c ∷ []) = some c
last_call (c ∷ d ∷ calls) = last_call (d ∷ calls)

abbrev pub is_create : Call → Bool
is_create (create_container name) = true
is_create _ = false

abbrev pub asks_to_create : List Call → Bool
asks_to_create calls = any is_create calls

-- how filling a created container ends
abbrev Filled : String → Run → Type 0
Filled name (calls, none) = calls ≡ put_archive name ∷ start_container name ∷ []
Filled name (calls, some f) = last_call calls ≡ some (remove_container name)

fill_container-Filled : (d : Daemon) (name : String) → Filled name (fill_container d name)
unfolding fill_container
fill_container-Filled d name = elim (Option-cases (wrapped d.ships)) [
  | inr (f, lost) ↦ rw (lost, fill_container) refl
  | inl shipped ↦ elim (Option-cases (wrapped d.starts)) [
    | inl started ↦ rw (shipped, fill_container) (rw (started, fill_container) refl)
    | inr (f, lost) ↦ rw (shipped, fill_container) (rw (lost, fill_container) refl)
  ]
]

-- how a run ends
abbrev pub Rolled : Daemon → String → Run → Type 0
Rolled d name (calls, none) =
    (before : List Call) × (asks_to_create before ≡ false)
    × (calls ≡ before ++ create_container name ∷ put_archive name ∷ start_container name ∷ [])
Rolled d name (calls, some f) =
    (asks_to_create calls ≡ false)
    ⊎ (is_some (wrapped d.creates) ≡ true)
    ⊎ (last_call calls ≡ some (remove_container name))

last_call-append :
    (calls more : List Call) (c : Call)
    → last_call more ≡ some c
    → last_call (calls ++ more) ≡ some c
last_call-append [] more c h = h
last_call-append (d ∷ []) [] c h = cc
last_call-append (d ∷ []) (m ∷ more) c h = h
last_call-append (d ∷ e ∷ calls) more c h = last_call-append (e ∷ calls) more c h

after_create :
    (d : Daemon) (name : String) (before : List Call) (r : Run)
    → asks_to_create before ≡ false
    → Filled name r
    → Rolled d name (and_then (before, none) (and_then (create_container name ∷ [], none) r))
after_create d name before (calls, none) quiet h =
    (before, quiet, ap (λ more. before ++ create_container name ∷ more) h)
after_create d name before (calls, some f) quiet h = inr (
    inr (
      last_call-append before (create_container name ∷ calls) _
        (last_call-append (create_container name ∷ []) calls _ h)))

create_and_fill-Rolled :
    (d : Daemon) (name : String) (before : List Call)
    → asks_to_create before ≡ false
    → Rolled d name (and_then (before, none) (create_and_fill d name))
unfolding create_and_fill
create_and_fill-Rolled d name before quiet = elim (Option-cases (wrapped d.creates)) [
  | inl made ↦
      rw (made, create_and_fill)
        (after_create d name before (fill_container d name) quiet (fill_container-Filled d name))
  | inr (f, lost) ↦ rw (lost, create_and_fill) (inr (inl (ap is_some lost)))
]

quiet_image :
    (image : Lookup) (pulls : Ending) → asks_to_create (pulled_if_missing image pulls).0 ≡ false
quiet_image (found status) pulls = refl
quiet_image missing pulls = refl
quiet_image refused pulls = refl

first_then :
    (d : Daemon) (name : String) (first : Run)
    → asks_to_create first.0 ≡ false
    → Rolled d name (and_then first (create_and_fill d name))
first_then d name (calls, none) quiet = create_and_fill-Rolled d name calls quiet
first_then d name (calls, some f) quiet = inl quiet

-- A start leaves no half-rolled container behind: it ends with a container that was created, got its
-- configuration and was started, in this order and as the last calls, or it raises, and then no
-- container was asked for, or the daemon refused to create one, or the last call removes it again.
pub run_container-Rolled : (d : Daemon) (name : String) → Rolled d name (run_container d name)
unfolding run_container ensure_image
run_container-Rolled d name = elim (Bool-cases d.reachable) [
  | inl up ↦
      rw (up, run_container)
        (first_then d name (pulled_if_missing d.image d.pulls) (quiet_image d.image d.pulls))
  | inr down ↦ rw (down, run_container) (inl refl)
]
