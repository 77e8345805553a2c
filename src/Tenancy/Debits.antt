-- ===== src/Tenancy/Debits.antt =====
-- Debits by Store.spend of tenancy/store.py.
use infinity_proxy.Prelude.{
  or_else, ==_iff, ℕ, ◌≡◌, refl, ap, ◌∙◌, Bool, false, ◌&&◌, some, List, [], ◌∷◌, map, arith,
  if◌then◌else◌, any, update_where, find, find-holds, contains, Unique, Bool-cases, inl, inr,
}
use infinity_proxy.Prelude.Int.{ℤ, ◌-ℤ◌, leb_ℤ}
use infinity_proxy.Tenancy.{TenantsStore, Tenant, is_tenant, is_active, get_tenant}
use infinity_proxy.Tenancy.Meter.{spend, can_spend}
use infinity_proxy.Tenancy.Charge.{find-update_where}

abbrev pub tenant_ids : List Tenant → List ℕ
tenant_ids = map (λ t. t.tenant_id)

unchanged :
    (p : Tenant → Bool) (f : Tenant → Tenant) (ts : List Tenant)
    → any p ts ≡ false
    → update_where p f ts ≡ ts
unchanged p f [] h = refl
unchanged p f (t ∷ ts) h = ground (arith, unchanged p f ts)

module _ (tid : ℕ) (amount : ℤ) where
  nobody-can_spend :
      (ts : List Tenant)
      → contains tid (tenant_ids ts) ≡ false
      → any (can_spend tid amount) ts ≡ false
  nobody-can_spend [] h = refl
  nobody-can_spend (t ∷ ts) h = ground (arith, nobody-can_spend ts)

  -- Ids are distinct, so the guard of the UPDATE is that of the one row.
  any-can_spend :
      (ts : List Tenant) (t : Tenant)
      → Unique (tenant_ids ts)
      → find (is_tenant tid) ts ≡ some t
      → any (can_spend tid amount) ts ≡ (is_active t.state && leb_ℤ amount t.credits)
  any-can_spend [] t u h = ground arith
  any-can_spend (x ∷ xs) t u h = elim (Bool-cases (is_tenant tid x)) [
    | inl mine ↦
        let found : some x ≡ some t = rw mine at h in
        let first = ap (λ o. or_else o x) found in
        let others = nobody-can_spend xs (ground (arith, (==_iff x.tenant_id tid).0 mine)) in
        let guard : any (can_spend tid amount) (x ∷ xs)
            ≡ (is_active x.state && leb_ℤ amount x.credits) =
          ground (arith, others) in
        guard ∙ ap (λ y. is_active y.state && leb_ℤ amount y.credits) first
    | inr other ↦ ground (arith, any-can_spend xs t u.1)
  ]

-- With distinct tenant ids a debit succeeds exactly when the tenant is active and holds the amount.
-- It then takes the amount from the balance, and it leaves the tenant as it was otherwise.
pub spend-guarded :
    (tid : ℕ) (amount : ℤ) (now : ℕ) (s : TenantsStore) (t : Tenant)
    → Unique (tenant_ids s.tenants)
    → get_tenant tid s ≡ some t
    → let (ok, s') = spend tid amount now s in
      (ok ≡ (is_active t.state && leb_ℤ amount t.credits))
      × (get_tenant tid s'
          ≡ some (if ok then record t { credits = t.credits -ℤ amount; updated_at_s = now } else t))
unfolding spend get_tenant
spend-guarded tid amount now s t u there =
    let guard = any-can_spend tid amount s.tenants t u there in
    let debit : Tenant → Tenant =
      λ x. record x { credits = x.credits -ℤ amount; updated_at_s = now } in
    elim (Bool-cases (any (can_spend tid amount) s.tenants)) [
      | inl can ↦ (
        guard,
        rw can (
            find-update_where (is_tenant tid) (can_spend tid amount) debit s.tenants t there
              (λ y. refl) (ground (arith, find-holds (is_tenant tid) s.tenants t there))),
      )
      | inr cannot ↦ (
        guard,
        rw cannot (
            ap (find (is_tenant tid)) (unchanged (can_spend tid amount) debit s.tenants cannot)
            ∙ there),
      )
    ]
