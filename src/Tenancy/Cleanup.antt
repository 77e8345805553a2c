-- ===== src/Tenancy/Cleanup.antt =====
-- Disabling a tenant, admin_disable of tenancy/app.py: the tunnels that are deleted and those that
-- stay linked.
use infinity_proxy.Prelude.{
  ℕ, ◌≡◌, ◌≢◌, refl, sym, ap, ◌∙◌, Bool, true, false, not, ◌&&◌, Option, none, some, List, [], ◌∷◌,
  map, arith, ◌==◌, if◌then◌else◌, select, delete_where, find, contains, Bool-cases, inl, inr,
  ==_iff, find-holds,
}
use infinity_proxy.Tenancy.{TenantsStore, Tenant, disabled, Lease, is_tenant, get_tenant, disable}
use infinity_proxy.Tenancy.Leases.{tunnels_of, unlink_tunnel, of_tenant, is_lease}
use infinity_proxy.Tenancy.Handlers.{TenancySettings, Deletion, deleted, failed}
use infinity_proxy.Tenancy.Provision.{is_gone}
use infinity_proxy.Tenancy.Admin.{auth_admin, clean_up, admin_disable, shown, tenant_row}
use infinity_proxy.Tenancy.Charge.{find-update_where}

module _ {A : Type 0} where
  select-select :
      (p q : A → Bool) (xs : List A) → select p (select q xs) ≡ select (λ x. q x && p x) xs
  select-select p q [] = refl
  select-select p q (x ∷ xs) = ground (arith, select-select p q xs)

  select-ext : (p q : A → Bool) (xs : List A) → ((x : A) → p x ≡ q x) → select p xs ≡ select q xs
  select-ext p q [] h = refl
  select-ext p q (x ∷ xs) h = ground (arith, h x, select-ext p q xs h)

select-true : (p : ℕ → Bool) (xs : List ℕ) → ((x : ℕ) → p x ≡ true) → select p xs ≡ xs
select-true p [] h = refl
select-true p (x ∷ xs) h = ground (arith, h x, select-true p xs h)

-- A test that holds on the list anyway adds nothing.
select-within :
    (p : ℕ → Bool) (all ids : List ℕ)
    → ((j : ℕ) → contains j ids ≡ true → contains j all ≡ true)
    → select (λ j. not (contains j all && p j)) ids ≡ delete_where p ids
select-within p all [] h = refl
select-within p all (i ∷ is) h =
    ground (arith, h i, select-within p all is (λ j g. h j (ground arith)))

ids_but :
    (tid i : ℕ) (leases : List Lease)
    → map (λ l. l.tunnel_id) (select (of_tenant tid) (delete_where (is_lease tid i) leases))
      ≡ delete_where (λ j. j == i) (map (λ l. l.tunnel_id) (select (of_tenant tid) leases))
ids_but tid i [] = refl
ids_but tid i (l ∷ ls) = ground (arith, ids_but tid i ls)

others_same :
    (tid other i : ℕ) (leases : List Lease)
    → tid ≢ other
    → select (of_tenant other) (delete_where (is_lease tid i) leases)
      ≡ select (of_tenant other) leases
others_same tid other i [] ne = refl
others_same tid other i (l ∷ ls) ne = ground (arith, others_same tid other i ls ne)

module _ (delete_tunnel : ℕ → Deletion) (tid : ℕ) where
  abbrev gone : ℕ → Bool
  gone i = is_gone (delete_tunnel i)

  pending-clean_up :
      (is : List ℕ) (s : TenantsStore) → (clean_up delete_tunnel tid is s).0 ≡ delete_where gone is
  unfolding clean_up
  pending-clean_up [] s = refl
  pending-clean_up (i ∷ is) s =
      ground (arith, pending-clean_up is (if gone i then unlink_tunnel tid i s else s))

  tenants-clean_up :
      (is : List ℕ) (s : TenantsStore) → (clean_up delete_tunnel tid is s).1.tenants ≡ s.tenants
  unfolding clean_up unlink_tunnel
  tenants-clean_up [] s = refl
  tenants-clean_up (i ∷ is) s =
      ground (arith, tenants-clean_up is (if gone i then unlink_tunnel tid i s else s))

  others-clean_up :
      (is : List ℕ) (s : TenantsStore) (other : ℕ)
      → tid ≢ other
      → tunnels_of other (clean_up delete_tunnel tid is s).1 ≡ tunnels_of other s
  unfolding clean_up unlink_tunnel tunnels_of
  others-clean_up [] s other ne = refl
  others-clean_up (i ∷ is) s other ne = ground (
    arith,
    others-clean_up is (if gone i then unlink_tunnel tid i s else s) other ne,
    others_same tid other i s.leases ne,
  )

  same_gone : (i j : ℕ) → (j == i) ≡ true → gone j ≡ gone i
  same_gone i j h = ap gone ((==_iff j i).0 h)

  gone_case :
      (i : ℕ) (is : List ℕ)
      → gone i ≡ true
      → (j : ℕ)
      → (not (j == i) && not (contains j is && gone j)) ≡ not (contains j (i ∷ is) && gone j)
  gone_case i is was j = ground (arith, same_gone i j)

  stays_case :
      (i : ℕ) (is : List ℕ)
      → gone i ≡ false
      → (j : ℕ) → not (contains j is && gone j) ≡ not (contains j (i ∷ is) && gone j)
  stays_case i is stays j = ground (arith, same_gone i j)

  left-clean_up :
      (is : List ℕ) (s : TenantsStore)
      → tunnels_of tid (clean_up delete_tunnel tid is s).1
        ≡ select (λ j. not (contains j is && gone j)) (tunnels_of tid s)
  unfolding clean_up tunnels_of unlink_tunnel
  left-clean_up [] s = sym (select-true _ (tunnels_of tid s) (λ j. refl))
  left-clean_up (i ∷ is) s = elim (Bool-cases (gone i)) [
    | inl was ↦ rw was (
        left-clean_up is (unlink_tunnel tid i s)
        ∙ ap (select (λ j. not (contains j is && gone j))) (ids_but tid i s.leases)
        ∙ select-select _ _ (tunnels_of tid s)
        ∙ select-ext _ _ (tunnels_of tid s) (gone_case i is was))
    | inr stays ↦
        rw stays (left-clean_up is s ∙ select-ext _ _ (tunnels_of tid s) (stays_case i is stays))
  ]

  left-all :
      (s : TenantsStore)
      → tunnels_of tid (clean_up delete_tunnel tid (tunnels_of tid s) s).1
        ≡ delete_where gone (tunnels_of tid s)
  left-all s =
      left-clean_up (tunnels_of tid s) s
      ∙ select-within gone (tunnels_of tid s) (tunnels_of tid s) (λ j h. h)

-- the engine answered with a failure other than "there is no such tunnel"
abbrev pub is_left : Deletion → Bool
is_left deleted = false
is_left (failed status) = not (status == 404)

is_left-is_gone : (d : Deletion) → not (is_gone d) ≡ is_left d
unfolding is_gone
is_left-is_gone deleted = refl
is_left-is_gone (failed status) = ground arith

-- A request under the administrator's key to disable a tenant that exists stores it as disabled.
-- Exactly the tunnels that the engine neither deleted nor misses are reported as pending and stay
-- linked to the tenant, and the tunnels of other tenants stay as they are.
pub admin_disable-pending :
    (c : TenancySettings) (now tid : ℕ) (header : Option ℕ) (delete_tunnel : ℕ → Deletion)
    (s : TenantsStore) (t : Tenant) (other : ℕ)
    → auth_admin c header ≡ none
    → get_tenant tid s ≡ some t
    → tid ≢ other
    → let (answer, pending, s') = admin_disable c now header delete_tunnel tid s in
      (answer ≡ tenant_row (record t { state = disabled; updated_at_s = now }))
      × (get_tenant tid s' ≡ some (record t { state = disabled; updated_at_s = now }))
      × (pending ≡ select (λ i. is_left (delete_tunnel i)) (tunnels_of tid s))
      × (tunnels_of tid s' ≡ pending)
      × (tunnels_of other s' ≡ tunnels_of other s)
unfolding admin_disable disable get_tenant tunnels_of shown
admin_disable-pending c now tid header delete_tunnel s t other admitted there ne =
    let s₁ = disable tid now s in
    let is = tunnels_of tid s₁ in
    let s₂ = (clean_up delete_tunnel tid is s₁).1 in
    let pending = pending-clean_up delete_tunnel tid is s₁ in
    let t' : Tenant = record t { state = disabled; updated_at_s = now } in
    let stored : get_tenant tid s₂ ≡ some t' =
      ap (find (is_tenant tid)) (tenants-clean_up delete_tunnel tid is s₁)
      ∙ find-update_where (is_tenant tid) (is_tenant tid)
          (λ u. record u { state = disabled; updated_at_s = now }) s.tenants t there (λ y. refl)
          (find-holds (is_tenant tid) s.tenants t there) in
    rw (admitted, admin_disable)
      (rw there (
        rw (stored, shown)
          (
            refl,
            stored,
            pending ∙ select-ext _ _ is (λ i. is_left-is_gone (delete_tunnel i)),
            left-all delete_tunnel tid s₁ ∙ sym pending,
            others-clean_up delete_tunnel tid is s₁ other ne,
          )))
