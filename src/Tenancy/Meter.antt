-- ===== src/Tenancy/Meter.antt =====
-- tenancy/store.py and tenancy/billing.py: debits, the meter and grants.
use infinity_proxy.Prelude.{
  ℕ, ◌+◌, ◌-◌, ◌*◌, ◌/◌, Bool, not, ◌&&◌, ◌||◌, ◌==◌, Option, none, some, if◌then◌else◌, any,
  update_where, holds,
}
use infinity_proxy.Prelude.Int.{ℤ, pos, neg, ◌+ℤ◌, ◌-ℤ◌, leb_ℤ, ltb_ℤ}
use infinity_proxy.Stability.{unit}
use infinity_proxy.Tenancy.{
  TenantsStore, Tenant, Reason, metered, admin_grant, signup_grant, is_tenant, is_active,
  get_tenant, save_tenant, record_entry, prune_ledger,
}

abbrev pub can_spend : ℕ → ℤ → Tenant → Bool
can_spend tid amount t = is_tenant tid t && is_active t.state && leb_ℤ amount t.credits

-- true when a row was updated
unfoldable pub spend : ℕ → ℤ → ℕ → TenantsStore → Bool × TenantsStore
spend tid amount now s = (
  any (can_spend tid amount) s.tenants,
  record s {
    tenants =
        update_where (can_spend tid amount)
          (λ t. record t { credits = t.credits -ℤ amount; updated_at_s = now }) s.tenants;
  },
)

-- the whole periods since the last boundary; a clock that ran backwards gives none
unfoldable pub periods_due : ℕ → ℕ → ℕ → ℕ
periods_due interval now credited = (now - credited) / interval

-- `min(due, max(0.0, credits))`
unfoldable pub affordable : ℕ → ℤ → ℤ
affordable due credits =
    let held = if leb_ℤ credits (pos 0) then pos 0 else credits in
    if leb_ℤ (pos due) held then pos due else held

unfoldable pub drain_reason : ℕ → ℕ → ℕ → ℤ → Reason
drain_reason periods interval due actual =
    metered (periods * interval / 3_600)
      (if ltb_ℤ actual (pos due) then some (pos due -ℤ actual) else none)

-- the row of the UPDATE: the tenant, with the boundary that was read
abbrev pub at_boundary : ℕ → ℕ → Tenant → Bool
at_boundary tid credited t = is_tenant tid t && holds credited t.credited_s

-- Charges `periods` periods, at least one, to a tenant whose last boundary is `credited`.
unfoldable pub charge : ℕ → ℕ → ℕ → ℕ → ℕ → Tenant → TenantsStore → Tenant × ℤ × TenantsStore
charge interval now keep credited periods t s =
    let due = periods * unit in
    let actual = affordable due t.credits in
    let boundary = credited + periods * interval in
    let charged : Tenant → Tenant = λ u. record u {
      credits = u.credits -ℤ actual;
      credited_s = some boundary;
      updated_at_s = now;
    } in
    (
      charged t,
      actual,
      prune_ledger t.tenant_id keep (
          record_entry
            (record {
              tenant_id = t.tenant_id;
              delta = neg actual;
              reason = drain_reason periods interval due actual;
              at_s = now;
            })
            (record s {
              tenants = update_where (at_boundary t.tenant_id credited) charged s.tenants;
            })),
    )

-- from the row's `credited_s` on
abbrev pub drain_since :
    ℕ → ℕ → ℕ → Tenant → TenantsStore → Option ℕ → Option Tenant × ℤ × TenantsStore
drain_since interval now keep t s none = (some t, pos 0, s)
drain_since interval now keep t s (some credited) =
    let periods = periods_due interval now credited in
    if not (is_active t.state) || interval == 0 || periods == 0
    then (some t, pos 0, s)
    else let (t', actual, s') = charge interval now keep credited periods t s in
      (some t', actual, s')

unfoldable pub drain : ℕ → ℕ → ℕ → ℕ → TenantsStore → Option Tenant × ℤ × TenantsStore
drain tid interval now keep s = elim (get_tenant tid s) [
  | none ↦ (none, pos 0, s)
  | some t ↦ drain_since interval now keep t s t.credited_s
]

-- what grant comes to: it raises TenantNotFound or ValueError before it writes anything
pub data Granting : Type 0 where
  tenant_not_found not_finite : Granting
  granted : TenantsStore → Granting

-- An amount is `none` when it is infinite or not a number; `is_finite` tells whether a sum is.
unfoldable pub grant : (ℤ → Bool) → ℕ → Option ℤ → ℕ → ℕ → TenantsStore → Granting
grant is_finite tid amount now keep s = elim (get_tenant tid s) [
  | none ↦ tenant_not_found
  | some t ↦ elim amount [
    | none ↦ not_finite
    | some a ↦
        if is_finite (t.credits +ℤ a)
        then granted (
            prune_ledger tid keep (
              record_entry (record { tenant_id = tid; delta = a; reason = admin_grant; at_s = now })
                (record s {
                  tenants =
                      update_where (is_tenant tid)
                        (λ u. record u { credits = u.credits +ℤ a; updated_at_s = now }) s.tenants;
                })))
        else not_finite
  ]
]

-- the amount charged, the caller's refreshed tenant, and the store
unfoldable pub drain_elapsed : Tenant → ℕ → ℕ → ℕ → TenantsStore → ℤ × Tenant × TenantsStore
drain_elapsed t interval now keep s =
    let (row, actual, s') = drain t.tenant_id interval now keep s in
    elim row [ none ↦ (actual, t, s') | some t' ↦ (actual, t', s') ]

unfoldable pub grant_starting : Tenant → ℤ → ℕ → ℕ → TenantsStore → Option (Tenant × TenantsStore)
grant_starting t starting now keep s =
    let t' : Tenant = record t { credits = starting; credited_s = some now } in
    elim (save_tenant t' s) [
      | none ↦ none
      | some s₁ ↦ some (
        t',
        prune_ledger t.tenant_id keep (
            record_entry
              (record {
                tenant_id = t.tenant_id;
                delta = starting;
                reason = signup_grant;
                at_s = now;
              })
              s₁),
      )
    ]
