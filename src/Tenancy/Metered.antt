-- ===== src/Tenancy/Metered.antt =====
-- What one drain of tenancy/store.py takes from a tenant, told without the code's division.
use native.Mathlib.Nat.{div-mul-le_self, div-lt_iff_lt-mul}
use infinity_proxy.Prelude.{
  ℕ, zero, suc, ◌+◌, ◌-◌, ◌*◌, ◌/◌, ◌≤◌, ◌<◌, ◌≡◌, ◌⊎◌, refl, true, false, ◌==◌, none, some, leb,
  Option-cases, Bool-cases, inl, inr, arith,
}
use infinity_proxy.Prelude.Int.{ℤ, pos, negsuc, ◌-ℤ◌}
use infinity_proxy.Stability.{unit}
use infinity_proxy.Tenancy.{
  TenantsStore, Tenant, TenantState, active, disabled, draft, is_active, get_tenant,
}
use infinity_proxy.Tenancy.Meter.{periods_due, affordable, charge, drain}
use infinity_proxy.Tenancy.Charge.{idle, charge-stored, drain-never, drain-idle, drain-busy}

-- an amount that is due, paid from a balance as far as it goes, and not at all from a debt
abbrev pub IsPaid : ℕ → ℤ → ℤ → Type 0
IsPaid due (pos held) actual =
    ((due ≤ held) × (actual ≡ pos due)) ⊎ ((held < due) × (actual ≡ pos held))
IsPaid due (negsuc debt) actual = actual ≡ pos 0

-- a tenant that owes nothing yet
abbrev pub Rests : ℕ → ℕ → Tenant → Type 0
Rests interval now t =
    (t.credited_s ≡ none)
    ⊎ (t.state ≡ disabled)
    ⊎ (t.state ≡ draft)
    ⊎ (interval ≡ 0)
    ⊎ ((b : ℕ) × (t.credited_s ≡ some b) × (now < b + interval))

-- a tenant that owes for `k` periods since `b`, and what becomes of it
abbrev pub Pays : ℕ → ℕ → Tenant → Tenant → ℤ → Type 0
Pays interval now t t' actual =
    (b : ℕ) × (k : ℕ) × (t.credited_s ≡ some b)
    × (t.state ≡ active)
    × (0 < k)
    × (b + k * interval ≤ now)
    × (now < b + suc k * interval)
    × IsPaid (k * unit) t.credits actual
    × (t' ≡ record t {
      credits = t.credits -ℤ actual;
      credited_s = some (b + k * interval);
      updated_at_s = now;
    })

abbrev pub IsMetered : ℕ → ℕ → Tenant → Tenant → ℤ → Type 0
IsMetered interval now t t' actual =
    (Rests interval now t × (t' ≡ t) × (actual ≡ pos 0)) ⊎ Pays interval now t t' actual

affordable-IsPaid : (due : ℕ) (credits : ℤ) → IsPaid due credits (affordable due credits)
unfolding affordable
affordable-IsPaid due (pos n) = elim (Bool-cases (leb due n)) [
  | inl enough ↦ inl (ground arith, ground arith)
  | inr short ↦ inr (ground arith, ground arith)
]
affordable-IsPaid due (negsuc n) = ground arith

State-cases : (s : TenantState) → (s ≡ active) ⊎ (s ≡ disabled) ⊎ (s ≡ draft)
State-cases active = inl refl
State-cases disabled = inr (inl refl)
State-cases draft = inr (inr refl)

at_least : (k interval : ℕ) → 0 < k → interval ≤ k * interval
at_least zero interval h = absurd (omega (arith, h))
at_least (suc k) interval h = omega arith

active-state : (s : TenantState) → is_active s ≡ true → s ≡ active
active-state active h = refl
active-state disabled h = absurd (grind (arith, h))
active-state draft h = absurd (grind (arith, h))

module _ (interval now b : ℕ) where
  none_due : 0 < interval → periods_due interval now b ≡ 0 → now < b + interval
  unfolding periods_due
  none_due positive none_whole =
      let below : now - b < 1 * interval =
        (div-lt_iff_lt-mul {k = interval} {x = now - b} {y = 1} positive).0
          (omega (arith, none_whole)) in
      omega (arith, below)

  whole_periods :
      0 < interval
      → 0 < periods_due interval now b
      → (b + periods_due interval now b * interval ≤ now)
        × (now < b + suc (periods_due interval now b) * interval)
  unfolding periods_due
  whole_periods positive some_whole =
      let k : ℕ = (now - b) / interval in
      let below : k * interval ≤ now - b = div-mul-le_self (now - b) interval in
      let above : now - b < suc k * interval =
        (div-lt_iff_lt-mul {k = interval} {x = now - b} {y = suc k} positive).0 (omega arith) in
      let least = at_least k interval some_whole in
      (omega (arith, below, least, positive), omega (arith, above, below, least, positive))

  idle-Rests :
      (t : Tenant) → t.credited_s ≡ some b → idle interval now b t ≡ true → Rests interval now t
  idle-Rests t since rest = elim (State-cases t.state) [
    | inr (inl is) ↦ inr (inl is)
    | inr (inr is) ↦ inr (inr (inl is))
    | inl is ↦ elim (Bool-cases (interval == 0)) [
      | inl never ↦ inr (inr (inr (inl (ground arith))))
      | inr positive ↦ inr (inr (inr (inr (b, since, none_due (ground arith) (ground arith)))))
    ]
  ]

  busy-Pays :
      (t : Tenant)
      → t.credited_s ≡ some b
      → idle interval now b t ≡ false
      → let k : ℕ = periods_due interval now b in
        let actual = affordable (k * unit) t.credits in
        Pays interval now t
          (record t {
            credits = t.credits -ℤ actual;
            credited_s = some (b + k * interval);
            updated_at_s = now;
          })
          actual
  busy-Pays t since busy =
      let k : ℕ = periods_due interval now b in
      let some_whole : 0 < k = ground arith in
      let positive : 0 < interval = ground arith in
      let (low, high) = whole_periods positive some_whole in
      let on : t.state ≡ active = active-state t.state (ground arith) in
      (b, k, since, on, some_whole, low, high, affordable-IsPaid (k * unit) t.credits, refl)

  busy-charge :
      (keep : ℕ) (t : Tenant) (s : TenantsStore)
      → t.credited_s ≡ some b
      → idle interval now b t ≡ false
      → let (t', actual, s') = charge interval now keep b (periods_due interval now b) t s in
        Pays interval now t t' actual
  unfolding charge
  busy-charge keep t s since busy = busy-Pays t since busy

-- Draining a tenant that exists answers its row as it is stored then. The row is unchanged and
-- nothing is charged where the tenant was never credited, is disabled or a draft, where the interval
-- is 0 or no period is over. Otherwise the boundary moves on by the periods that are over, as many
-- as end by now, each costs 1.0, and the balance falls by the amount that is reported: all that is
-- due, or the whole balance where it is less, or nothing where it is negative.
pub drain-IsMetered :
    (tid interval now keep : ℕ) (s : TenantsStore) (t : Tenant)
    → get_tenant tid s ≡ some t
    → let (row, actual, s') = drain tid interval now keep s in
      (t' : Tenant) × (row ≡ some t')
      × (get_tenant tid s' ≡ some t')
      × IsMetered interval now t t' actual
drain-IsMetered tid interval now keep s t there = elim (Option-cases t.credited_s) [
  | inl never ↦
      rw (drain-never tid interval now keep s t there never)
        (t, refl, there, inl (inl never, refl, refl))
  | inr (b, since) ↦ elim (Bool-cases (idle interval now b t)) [
    | inl rest ↦
        rw (drain-idle tid interval now keep b s t there since rest)
          (t, refl, there, inl (idle-Rests interval now b t since rest, refl, refl))
    | inr busy ↦
        let k : ℕ = periods_due interval now b in
        rw (drain-busy tid interval now keep b s t there since busy) (
          (charge interval now keep b k t s).0,
          refl,
          charge-stored tid interval now keep b k t s there since,
          inr (busy-charge interval now b keep t s since busy),
        )
  ]
]
