-- ===== src/Tenancy/Slots.antt =====
-- The slots that the tunnels and reservations of a tenant take, through the statements of
-- tenancy/store.py.
use infinity_proxy.Prelude.{
  ℕ, suc, ◌+◌, ◌≤◌, ◌≡◌, refl, Bool, true, false, ◌&&◌, Option, none, some, List, [], ◌∷◌, ◌++◌,
  arith, if◌then◌else◌, delete_where, update_where, find, any, count_where, Option-cases,
  Bool-cases, inl, inr,
}
use infinity_proxy.Tenancy.{TenantsStore, Reservation}
use infinity_proxy.Tenancy.Leases.{
  slots_taken, of_tenant, held_by, is_reservation, is_lease, note_reservation_tunnel,
  complete_reservation, release_reservation, unlink_tunnel,
}
use infinity_proxy.Tenancy.Handlers.{unlink_each}
use infinity_proxy.Tenancy.Provision.{release_if}

module _ {ℓ} {A : Type ℓ} where
  pub count_where-snoc :
      (p : A → Bool) (xs : List A) (y : A)
      → count_where p (xs ++ y ∷ []) ≡ count_where p xs + (if p y then 1 else 0)
  count_where-snoc p [] y = ground arith
  count_where-snoc p (x ∷ xs) y = ground (arith, count_where-snoc p xs y)

  pub count_where-delete :
      (p q : A → Bool) (xs : List A) → count_where p (delete_where q xs) ≤ count_where p xs
  count_where-delete p q [] = omega arith
  count_where-delete p q (x ∷ xs) = ground (arith, count_where-delete p q xs)

  pub count_where-update :
      (p q : A → Bool) (f : A → A) (xs : List A)
      → ((x : A) → p (f x) ≡ p x)
      → count_where p (update_where q f xs) ≡ count_where p xs
  count_where-update p q f [] h = refl
  count_where-update p q f (x ∷ xs) h = ground (arith, h x, count_where-update p q f xs h)

  -- Deleting what a search found counts down.
  pub count_where-delete_found :
      (p q : A → Bool) (xs : List A) (r : A)
      → find (λ x. q x && p x) xs ≡ some r
      → suc (count_where p (delete_where q xs)) ≤ count_where p xs
  count_where-delete_found p q [] r h = ground arith
  count_where-delete_found p q (x ∷ xs) r h =
      ground (arith, count_where-delete p q xs, count_where-delete_found p q xs r)

-- No tenant has more tunnels and reservations than the cap.
abbrev pub WithinCap : ℕ → TenantsStore → Type 0
WithinCap cap s = (tid : ℕ) → slots_taken tid s ≤ cap

-- no tenant has more slots in the second store
abbrev pub FewerSlots : TenantsStore → TenantsStore → Type 0
FewerSlots s s' = (tid : ℕ) → slots_taken tid s' ≤ slots_taken tid s

pub release-FewerSlots : (rid : ℕ) (s : TenantsStore) → FewerSlots s (release_reservation rid s)
unfolding slots_taken release_reservation
release-FewerSlots rid s tid =
    omega (arith, count_where-delete (held_by tid) (is_reservation rid) s.reservations)

pub release_if-FewerSlots :
    (b : Bool) (rid : ℕ) (s : TenantsStore) → FewerSlots s (release_if b rid s)
unfolding release_if
release_if-FewerSlots true rid s tid = release-FewerSlots rid s tid
release_if-FewerSlots false rid s tid = omega arith

pub unlink-FewerSlots : (t i : ℕ) (s : TenantsStore) → FewerSlots s (unlink_tunnel t i s)
unfolding slots_taken unlink_tunnel
unlink-FewerSlots t i s tid =
    omega (arith, count_where-delete (of_tenant tid) (is_lease t i) s.leases)

pub unlink_each-FewerSlots :
    (t : ℕ) (is : List ℕ) (s : TenantsStore) → FewerSlots s (unlink_each t is s)
unfolding unlink_each
unlink_each-FewerSlots t [] s tid = omega arith
unlink_each-FewerSlots t (i ∷ is) s tid =
    omega
      (arith, unlink-FewerSlots t i s tid, unlink_each-FewerSlots t is (unlink_tunnel t i s) tid)

pub note-FewerSlots :
    (rid i : ℕ) (s : TenantsStore) → FewerSlots s (note_reservation_tunnel rid i s)
unfolding slots_taken note_reservation_tunnel
note-FewerSlots rid i s tid = omega (
  arith,
  count_where-update (held_by tid) (is_reservation rid) (λ r. record r { tunnel_id = some i })
      s.reservations (λ r. refl),
)

-- the lease in place of its reservation
pub lease-FewerSlots :
    (t rid i : ℕ) (s : TenantsStore) (r : Reservation)
    → find (λ r. is_reservation rid r && held_by t r) s.reservations ≡ some r
    → FewerSlots s (
        release_reservation rid (record s {
          leases =
              s.leases
              ++ record { tenant_id = t; tunnel_id = i; created_at_s = r.created_at_s } ∷ [];
        }))
unfolding slots_taken release_reservation
lease-FewerSlots t rid i s r there tid = ground (
  arith,
  count_where-snoc (of_tenant tid) s.leases
      (record { tenant_id = t; tunnel_id = i; created_at_s = r.created_at_s }),
  count_where-delete_found (held_by t) (is_reservation rid) s.reservations r there,
  count_where-delete (held_by tid) (is_reservation rid) s.reservations,
)

-- what completing a reservation leaves
abbrev pub Completed : TenantsStore → Option (Bool × TenantsStore) → Type 0
Completed s none = Unit
Completed s (some (active, s')) = FewerSlots s s'

-- Completing a reservation turns it into a lease: no tenant has more slots taken than before.
pub complete_reservation-FewerSlots :
    (t rid i : ℕ) (s : TenantsStore) → Completed s (complete_reservation t rid i s)
unfolding complete_reservation slots_taken release_reservation
complete_reservation-FewerSlots t rid i s =
    elim (Option-cases (find (λ r. is_reservation rid r && held_by t r) s.reservations)) [
      | inl gone ↦ rw (gone, complete_reservation) (release-FewerSlots rid s)
      | inr (r, there) ↦ elim (Bool-cases (any (is_lease t i) s.leases)) [
        | inl twice ↦ rw (there, complete_reservation) (rw twice tt)
        | inr new ↦ rw (there, complete_reservation) (rw new (lease-FewerSlots t rid i s r there))
      ]
    ]
