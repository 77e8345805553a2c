-- ===== src/Tenancy/Charge.antt =====
-- The meter of tenancy/store.py: what a tenant is charged, however often it is polled.
use native.Mathlib.Nat.{add-mul-div_right, div-mul-le_self}
use mathlib.Core.Option.{map}
use infinity_proxy.Prelude.{
  ℕ, ◌+◌, ◌-◌, ◌*◌, ◌/◌, ◌≤◌, ◌<◌, ◌≡◌, refl, sym, ap, ◌∙◌, Bool, true, false, not, ◌||◌, ◌==◌,
  Option, none, some, List, [], ◌∷◌, if◌then◌else◌, leb, update_where, find, Option-cases,
  Bool-cases, inl, inr, arith,
}
use infinity_proxy.Prelude.Int.{ℤ, pos, negsuc, ◌-ℤ◌, ◌≤ℤ◌}
use infinity_proxy.Stability.{unit}
use infinity_proxy.Tenancy.{
  TenantsStore, Tenant, is_tenant, is_active, get_tenant, record_entry, prune_ledger,
}
use infinity_proxy.Tenancy.Meter.{periods_due, affordable, charge, drain_since, drain, at_boundary}

-- The periods of two polls are those of the second poll alone.
periods-split :
    (i b t₁ t₂ : ℕ)
    → 0 < i
    → b ≤ t₁
    → t₁ ≤ t₂
    → periods_due i t₁ b + periods_due i t₂ (b + periods_due i t₁ b * i) ≡ periods_due i t₂ b
unfolding periods_due
periods-split i b t₁ t₂ h p q =
    let k = (t₁ - b) / i in
    let x = t₂ - (b + k * i) in
    let below : k * i ≤ t₁ - b = div-mul-le_self (t₁ - b) i in
    let whole : t₂ - b ≡ x + k * i = omega arith in
    let split : (x + k * i) / i ≡ x / i + k = add-mul-div_right x k h in rw whole (omega arith)

-- A charge on a balance that is not negative is not negative itself, is at most what is due, and
-- leaves a balance that is not negative.
pub affordable_bounds :
    (due : ℕ) (credits : ℤ)
    → pos 0 ≤ℤ credits
    → (pos 0 ≤ℤ affordable due credits)
      × (affordable due credits ≤ℤ pos due)
      × (pos 0 ≤ℤ (credits -ℤ affordable due credits))
unfolding affordable ◌-ℤ◌
affordable_bounds due (pos n) h = ground arith
affordable_bounds due (negsuc n) h = ground arith

-- Charging in two parts takes as much as charging at once, a shortfall included.
affordable-split :
    (d₁ d₂ : ℕ) (c : ℤ)
    → (c -ℤ affordable d₁ c) -ℤ affordable d₂ (c -ℤ affordable d₁ c) ≡ c -ℤ affordable (d₁ + d₂) c
unfolding affordable ◌-ℤ◌
affordable-split d₁ d₂ (pos n) = elim (Bool-cases (leb d₁ n)) [
  | inl enough ↦ ground arith
  | inr short ↦ ground arith
]
affordable-split d₁ d₂ (negsuc n) = ground arith

-- The meter on one tenant, apart from any store: the whole periods since the boundary are charged,
-- as far as the credits go, and the boundary moves on by as many.
abbrev metered_since : ℕ → ℕ → Tenant → Option ℕ → Tenant
metered_since interval now t none = t
metered_since interval now t (some b) =
    let k = periods_due interval now b in
    if not (is_active t.state) || interval == 0 || k == 0 then t else record t {
      credits = t.credits -ℤ affordable (k * unit) t.credits;
      credited_s = some (b + k * interval);
      updated_at_s = now;
    }

unfoldable pub metered_tenant : ℕ → ℕ → Tenant → Tenant
metered_tenant interval now t = metered_since interval now t t.credited_s

pub find-update_where :
    {A : Type 0} (p q : A → Bool) (f : A → A) (xs : List A) (x : A)
    → find p xs ≡ some x
    → ((y : A) → p (f y) ≡ p y)
    → q x ≡ true
    → find p (update_where q f xs) ≡ some (f x)
find-update_where p q f [] x h same hit = ground arith
find-update_where p q f (y ∷ ys) x h same hit = ground (arith, same y, find-update_where p q f ys x)

no_charge : (c : ℤ) → c ≡ c -ℤ pos 0
unfolding ◌-ℤ◌
no_charge (pos n) = ground arith
no_charge (negsuc n) = ground arith

abbrev pub idle : ℕ → ℕ → ℕ → Tenant → Bool
idle interval now b t = not (is_active t.state) || interval == 0 || periods_due interval now b == 0

pub charge-stored :
    (tid interval now keep b k : ℕ) (t : Tenant) (s : TenantsStore)
    → get_tenant tid s ≡ some t
    → t.credited_s ≡ some b
    → let (t', _, s') = charge interval now keep b k t s in get_tenant tid s' ≡ some t'
unfolding charge get_tenant record_entry prune_ledger
charge-stored tid interval now keep b k t s there since =
    find-update_where (is_tenant tid) (at_boundary t.tenant_id b) _ s.tenants t there (λ y. refl)
      (rw since (ground arith))

module _ (interval now : ℕ) where
  metered-never : (t : Tenant) → t.credited_s ≡ none → metered_tenant interval now t ≡ t
  unfolding metered_tenant
  metered-never t never = ap (metered_since interval now t) never

  metered-idle :
      (b : ℕ) (t : Tenant)
      → t.credited_s ≡ some b
      → idle interval now b t ≡ true
      → metered_tenant interval now t ≡ t
  unfolding metered_tenant
  metered-idle b t since rest =
      ap (metered_since interval now t) since ∙ rw (rest, metered_since) refl

  metered-busy :
      (b : ℕ) (t : Tenant)
      → t.credited_s ≡ some b
      → idle interval now b t ≡ false
      → let k : ℕ = periods_due interval now b in
        metered_tenant interval now t ≡ record t {
          credits = t.credits -ℤ affordable (k * unit) t.credits;
          credited_s = some (b + k * interval);
          updated_at_s = now;
        }
  unfolding metered_tenant
  metered-busy b t since busy =
      ap (metered_since interval now t) since ∙ rw (busy, metered_since) refl

metered-charge :
    (interval now keep b : ℕ) (t : Tenant) (s : TenantsStore)
    → t.credited_s ≡ some b
    → idle interval now b t ≡ false
    → metered_tenant interval now t
      ≡ (charge interval now keep b (periods_due interval now b) t s).0
unfolding charge
metered-charge interval now keep b t s since busy = metered-busy interval now b t since busy

charge-credits :
    (interval now keep b k : ℕ) (t : Tenant) (s : TenantsStore)
    → let (t', actual, s') = charge interval now keep b k t s in t'.credits ≡ t.credits -ℤ actual
unfolding charge
charge-credits interval now keep b k t s = refl

module _ (tid interval now keep : ℕ) where
  pub drain-never :
      (s : TenantsStore) (t : Tenant)
      → get_tenant tid s ≡ some t
      → t.credited_s ≡ none
      → drain tid interval now keep s ≡ (some t, pos 0, s)
  unfolding drain
  drain-never s t there never = rw (there, drain) (ap (drain_since interval now keep t s) never)

  pub drain-idle :
      (b : ℕ) (s : TenantsStore) (t : Tenant)
      → get_tenant tid s ≡ some t
      → t.credited_s ≡ some b
      → idle interval now b t ≡ true
      → drain tid interval now keep s ≡ (some t, pos 0, s)
  unfolding drain
  drain-idle b s t there since rest =
      rw (there, drain) (ap (drain_since interval now keep t s) since ∙ rw (rest, drain_since) refl)

  pub drain-busy :
      (b : ℕ) (s : TenantsStore) (t : Tenant)
      → get_tenant tid s ≡ some t
      → t.credited_s ≡ some b
      → idle interval now b t ≡ false
      → let (t', actual, s') = charge interval now keep b (periods_due interval now b) t s in
        drain tid interval now keep s ≡ (some t', actual, s')
  unfolding drain
  drain-busy b s t there since busy =
      rw (there, drain) (ap (drain_since interval now keep t s) since ∙ rw (busy, drain_since) refl)

-- Draining a tenant that exists stores and returns the metered tenant, and the balance falls by the
-- amount that is reported.
drain-metered :
    (tid interval now keep : ℕ) (s : TenantsStore) (t : Tenant)
    → get_tenant tid s ≡ some t
    → let (row, actual, s') = drain tid interval now keep s in
      (row ≡ some (metered_tenant interval now t))
      × (get_tenant tid s' ≡ some (metered_tenant interval now t))
      × ((metered_tenant interval now t).credits ≡ t.credits -ℤ actual)
drain-metered tid interval now keep s t there = elim (Option-cases t.credited_s) [
  | inl never ↦
      rw (drain-never tid interval now keep s t there never)
        (rw (metered-never interval now t never) (refl, there, no_charge t.credits))
  | inr (b, since) ↦ elim (Bool-cases (idle interval now b t)) [
    | inl rest ↦
        rw (drain-idle tid interval now keep b s t there since rest)
          (rw (metered-idle interval now b t since rest) (refl, there, no_charge t.credits))
    | inr busy ↦
        let k : ℕ = periods_due interval now b in
        rw (drain-busy tid interval now keep b s t there since busy) (
          rw (metered-charge interval now keep b t s since busy) (
            refl,
            charge-stored tid interval now keep b k t s there since,
            charge-credits interval now keep b k t s,
          ))
  ]
]

abbrev pub balance : Tenant → ℤ × Option ℕ
balance t = (t.credits, t.credited_s)

module _ (interval : ℕ) (positive : 0 < interval) where
  metered-state : (now : ℕ) (t : Tenant) → (metered_tenant interval now t).state ≡ t.state
  unfolding metered_tenant
  metered-state now t = ground arith

  none_due : (k : ℕ) (c : ℤ) → k ≡ 0 → c ≡ c -ℤ affordable (k * unit) c
  unfolding affordable ◌-ℤ◌
  none_due k (pos n) h = ground arith
  none_due k (negsuc n) h = ground arith

  -- the meter of an active tenant, in one formula
  metered-balance :
      (now b : ℕ) (t : Tenant)
      → is_active t.state ≡ true
      → t.credited_s ≡ some b
      → let k = periods_due interval now b in
        balance (metered_tenant interval now t)
        ≡ (t.credits -ℤ affordable (k * unit) t.credits, some (b + k * interval))
  metered-balance now b t on since = elim (Bool-cases (idle interval now b t)) [
    | inl rest ↦
        let k : ℕ = periods_due interval now b in
        let zero_due : k ≡ 0 = ground arith in
        let back : b ≡ b + k * interval = rw zero_due (omega arith) in
        ap balance (metered-idle interval now b t since rest)
        ∙ (λ i. (none_due k t.credits zero_due i, (since ∙ ap some back) i))
    | inr busy ↦ ap balance (metered-busy interval now b t since busy)
  ]

  -- Metering at an earlier moment first makes no difference to the balance and the boundary.
  metered_tenant-split :
      (b t₁ t₂ : ℕ) (t : Tenant)
      → is_active t.state ≡ true
      → t.credited_s ≡ some b
      → b ≤ t₁
      → t₁ ≤ t₂
      → balance (metered_tenant interval t₂ (metered_tenant interval t₁ t))
        ≡ balance (metered_tenant interval t₂ t)
  metered_tenant-split b t₁ t₂ t on since p q =
      let first = metered-balance t₁ b t on since in
      let k₁ = periods_due interval t₁ b in
      let k₂ = periods_due interval t₂ (b + k₁ * interval) in
      let m : Tenant = metered_tenant interval t₁ t in
      let second =
        metered-balance t₂ (b + k₁ * interval) m (ap is_active (metered-state t₁ t) ∙ on)
          (λ i. (first i).1) in
      let k = periods-split interval b t₁ t₂ positive p q in
      let c = affordable-split (k₁ * unit) (k₂ * unit) t.credits in
      let due : k₁ * unit + k₂ * unit ≡ (k₁ + k₂) * unit = omega arith in
      let boundary : b + k₁ * interval + k₂ * interval ≡ b + (k₁ + k₂) * interval = grind arith in
      let step =
        ap (λ x. (x -ℤ affordable (k₂ * unit) x, some (b + k₁ * interval + k₂ * interval)))
          (λ i. (first i).0) in
      let merged = ap (λ d. t.credits -ℤ affordable d t.credits) due in
      second
      ∙ step
      ∙ (λ i. ((c ∙ merged) i, some (boundary i)))
      ∙ ap (λ n. (t.credits -ℤ affordable (n * unit) t.credits, some (b + n * interval))) k
      ∙ sym (metered-balance t₂ b t on since)

  -- With a positive interval, for an active tenant whose last boundary is not in the future,
  -- draining at two moments leaves the stored balance and boundary that draining at the second
  -- moment alone leaves.
  pub drain-poll :
      (tid keep b t₁ t₂ : ℕ) (s : TenantsStore) (t : Tenant)
      → get_tenant tid s ≡ some t
      → is_active t.state ≡ true
      → t.credited_s ≡ some b
      → b ≤ t₁
      → t₁ ≤ t₂
      → let s₁ = (drain tid interval t₁ keep s).2 in
        map balance (get_tenant tid (drain tid interval t₂ keep s₁).2)
        ≡ map balance (get_tenant tid (drain tid interval t₂ keep s).2)
  drain-poll tid keep b t₁ t₂ s t there on since p q =
      let s₁ = (drain tid interval t₁ keep s).2 in
      let m : Tenant = metered_tenant interval t₁ t in
      let once = (drain-metered tid interval t₁ keep s t there).1 in
      ap (map balance) ((drain-metered tid interval t₂ keep s₁ m once).1)
      ∙ ap some (metered_tenant-split b t₁ t₂ t on since p q)
      ∙ sym (ap (map balance) ((drain-metered tid interval t₂ keep s t there).1))
