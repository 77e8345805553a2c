-- ===== src/Db/Ownership.antt =====
-- Which tunnel owns which node: the counts that assign_nodes, unassign_node and release_tunnel of
-- engine/db.py leave behind.
use infinity_proxy.Prelude.{
  ℕ, suc, ◌+◌, ◌≡◌, ◌≢◌, refl, ◌∙◌, Bool, true, false, not, ◌&&◌, Option, none, some, List, [], ◌∷◌,
  map, ◌==◌, if◌then◌else◌, update_where, any, length, count_where, is_some, holds, contains,
  Unique, arith, map-update_where, Bool-cases, inl, inr, ==_iff, ==_refl, sym,
}
use infinity_proxy.Db.{NodeRow}
use infinity_proxy.Db.Nodes.{assign_row, assign_one, assign_each}

abbrev pub ids : List NodeRow → List ℕ
ids = map (λ r. r.node_id)

-- how many nodes a tunnel owns
abbrev pub owned : ℕ → List NodeRow → ℕ
owned tid = count_where (λ r. holds tid r.assigned_to)

-- the id has a row, and no tunnel owns it
abbrev pub free_in : List NodeRow → ℕ → Bool
free_in rows i = any (λ r. r.node_id == i && not (is_some r.assigned_to)) rows

-- the tunnel of an id
abbrev pub owns : ℕ → List NodeRow → ℕ → Bool
owns tid rows i = any (λ r. r.node_id == i && holds tid r.assigned_to) rows

unfoldable pub set_owner : Option ℕ → ℕ → List NodeRow → List NodeRow
set_owner o i = update_where (λ r. r.node_id == i) (assign_row o)

pub ids-set_owner :
    (o : Option ℕ) (i : ℕ) (rows : List NodeRow) → ids (set_owner o i rows) ≡ ids rows
unfolding set_owner
ids-set_owner o i rows = map-update_where (λ r. r.node_id) _ (assign_row o) rows (λ r. refl)

set_owner-absent :
    (o : Option ℕ) (i : ℕ) (rows : List NodeRow)
    → contains i (ids rows) ≡ false
    → set_owner o i rows ≡ rows
unfolding set_owner
set_owner-absent o i [] h = refl
set_owner-absent o i (r ∷ rs) h = ground (arith, set_owner-absent o i rs)

absent-free_in :
    (i : ℕ) (rows : List NodeRow) → contains i (ids rows) ≡ false → free_in rows i ≡ false
absent-free_in i [] h = refl
absent-free_in i (r ∷ rs) h = ground (arith, absent-free_in i rs)

absent-owns :
    (t i : ℕ) (rows : List NodeRow) → contains i (ids rows) ≡ false → owns t rows i ≡ false
absent-owns t i [] h = refl
absent-owns t i (r ∷ rs) h = ground (arith, absent-owns t i rs)

-- Giving a free node to a tunnel adds one to its count, and to no other.
owned-set_owner_free :
    (tid t i : ℕ) (rows : List NodeRow)
    → Unique (ids rows)
    → free_in rows i ≡ true
    → owned t (set_owner (some tid) i rows)
      ≡ (if tid == t then suc (owned t rows) else owned t rows)
unfolding set_owner
owned-set_owner_free tid t i [] u h = ground arith
owned-set_owner_free tid t i (r ∷ rs) u h = ground (
  arith,
  owned-set_owner_free tid t i rs u.1,
  set_owner-absent (some tid) i rs,
  absent-free_in i rs,
)

free_in-set_owner :
    (o : Option ℕ) (i j : ℕ) (rows : List NodeRow)
    → i ≢ j
    → free_in (set_owner o i rows) j ≡ free_in rows j
unfolding set_owner
free_in-set_owner o i j [] h = refl
free_in-set_owner o i j (r ∷ rs) h = ground (arith, free_in-set_owner o i j rs h)

-- Freeing a node takes one from its owner's count, and from no other.
pub owned-set_owner-none :
    (tid t i : ℕ) (rows : List NodeRow)
    → Unique (ids rows)
    → owns tid rows i ≡ true
    → owned t rows ≡ (
        if tid == t then suc (owned t (set_owner none i rows)) else owned t (set_owner none i rows))
unfolding set_owner
owned-set_owner-none tid t i [] u h = ground arith
owned-set_owner-none tid t i (r ∷ rs) u h =
    ground
      (arith, owned-set_owner-none tid t i rs u.1, set_owner-absent none i rs, absent-owns tid i rs)

pub owns-set_owner_ne :
    (o : Option ℕ) (t i j : ℕ) (rows : List NodeRow)
    → i ≢ j
    → owns t (set_owner o i rows) j ≡ owns t rows j
unfolding set_owner
owns-set_owner_ne o t i j [] h = refl
owns-set_owner_ne o t i j (r ∷ rs) h = ground (arith, owns-set_owner_ne o t i j rs h)

owns-set_owner :
    (tid i : ℕ) (rows : List NodeRow)
    → contains i (ids rows) ≡ true
    → owns tid (set_owner (some tid) i rows) i ≡ true
unfolding set_owner
owns-set_owner tid i [] h = ground (arith, h)
owns-set_owner tid i (r ∷ rs) h = ground (arith, owns-set_owner tid i rs, ==_refl tid)

-- Assigning a list of ids touches no other.
pub owns-assign_each_ne :
    (is : List ℕ) (tid t j : ℕ) (rows : List NodeRow)
    → contains j is ≡ false
    → owns t (assign_each is tid rows) j ≡ owns t rows j
unfolding assign_each assign_one set_owner
owns-assign_each_ne [] tid t j rows h = refl
owns-assign_each_ne (i ∷ is) tid t j rows h =
    owns-assign_each_ne is tid t j (set_owner (some tid) i rows) (ground (arith, h))
    ∙ owns-set_owner_ne (some tid) t i j rows (λ e. ground (arith, e, h))

-- Each id of the list that has a row is the tunnel's afterwards.
pub owns-assign_each :
    (is : List ℕ) (tid j : ℕ) (rows : List NodeRow)
    → Unique is
    → contains j is ≡ true
    → contains j (ids rows) ≡ true
    → owns tid (assign_each is tid rows) j ≡ true
unfolding assign_each assign_one set_owner
owns-assign_each [] tid j rows u h k = ground (arith, h)
owns-assign_each (i ∷ is) tid j rows u h k = elim (Bool-cases (i == j)) [
  | inl here ↦
      let same : i ≡ j = (==_iff i j).0 here in
      rw (sym same) (
        owns-assign_each_ne is tid tid i (set_owner (some tid) i rows) u.0
        ∙ owns-set_owner tid i rows (rw same k))
  | inr further ↦
      owns-assign_each is tid j (set_owner (some tid) i rows) u.1 (ground (arith, h, further))
        (rw ids-set_owner k)
]

pub free_in-known :
    (i : ℕ) (rows : List NodeRow) → free_in rows i ≡ true → contains i (ids rows) ≡ true
free_in-known i [] h = ground (arith, h)
free_in-known i (r ∷ rs) h = ground (arith, h, free_in-known i rs)

pub ids-assign_each :
    (is : List ℕ) (tid : ℕ) (rows : List NodeRow) → ids (assign_each is tid rows) ≡ ids rows
unfolding assign_each assign_one
ids-assign_each [] tid rows = refl
ids-assign_each (i ∷ is) tid rows =
    ids-assign_each is tid _
    ∙ map-update_where (λ r. r.node_id) _ (assign_row (some tid)) rows (λ r. refl)

-- every id of the list is free
abbrev pub AllFree : List NodeRow → List ℕ → Type 0
AllFree rows is = (j : ℕ) → contains j is ≡ true → free_in rows j ≡ true

rest_free :
    (tid i : ℕ) (is : List ℕ) (rows : List NodeRow)
    → contains i is ≡ false
    → AllFree rows (i ∷ is)
    → AllFree (set_owner (some tid) i rows) is
rest_free tid i is rows fresh free j m =
    free_in-set_owner (some tid) i j rows (λ e. ground (arith, e, m, fresh)) ∙ free j (ground arith)

-- Assigning distinct free nodes adds their number to the tunnel's count, and to no other.
pub owned-assign_each :
    (is : List ℕ) (tid t : ℕ) (rows : List NodeRow)
    → Unique (ids rows)
    → Unique is
    → AllFree rows is
    → owned t (assign_each is tid rows)
      ≡ (if tid == t then owned t rows + length is else owned t rows)
unfolding assign_each assign_one set_owner
owned-assign_each [] tid t rows u v free = ground arith
owned-assign_each (i ∷ is) tid t rows u v free =
    let owned' = owned-set_owner_free tid t i rows u (free i (ground arith)) in
    let step =
      owned-assign_each is tid t (set_owner (some tid) i rows) (rw ids-set_owner u) v.1
        (rest_free tid i is rows v.0 free) in
    ground (arith)
