-- ===== src/Tenancy/Cap.antt =====
-- The cap on the tunnels of a tenant, through create_tenant_tunnel of tenancy/app.py.
use infinity_proxy.Prelude.{
  ℕ, ◌≡◌, refl, ◌⊎◌, Bool, true, false, ◌&&◌, Option, none, some, List, [], ◌∷◌, ◌++◌, arith,
  if◌then◌else◌, Option-cases, Bool-cases, inl, inr,
}
use infinity_proxy.Prelude.Int.{ℤ, pos, ltb_ℤ}
use infinity_proxy.Stability.{unit}
use infinity_proxy.Tenancy.{TenantsStore, Tenant, get_tenant, record_entry, prune_ledger}
use infinity_proxy.Tenancy.Leases.{slots_taken, may_reserve, held_by, reserve_tunnel, tunnels_of}
use infinity_proxy.Tenancy.Meter.{drain, drain_elapsed, charge}
use infinity_proxy.Tenancy.Handlers.{
  Auth-cases, TenancySettings, metering_enabled, check_key, auth_tenant, EngineRow, PublicRow,
  tunnels_for_tenant, shaped_for_tenant, tombstones,
}
use infinity_proxy.Tenancy.Provision.{
  Provisioned-cases, World, release_if, note_if, settle, store_lease, hand_over, provision,
  lease_for, asked_nodes, clamp_nodes, min_credits, is_deleted, create_tenant_tunnel,
}
use infinity_proxy.Tenancy.Slots.{
  Completed, FewerSlots, WithinCap, complete_reservation-FewerSlots, count_where-snoc,
  note-FewerSlots, release-FewerSlots, release_if-FewerSlots, unlink-FewerSlots,
  unlink_each-FewerSlots,
}

-- the meter writes no lease and no reservation
drain-same :
    (t interval now keep : ℕ) (s : TenantsStore)
    → let (_, _, s') = drain t interval now keep s in
      (s'.leases ≡ s.leases) × (s'.reservations ≡ s.reservations)
unfolding drain charge record_entry prune_ledger
drain-same t interval now keep s = ground arith

metered-FewerSlots :
    (t : Tenant) (interval now keep : ℕ) (s : TenantsStore)
    → FewerSlots s (drain_elapsed t interval now keep s).2
unfolding drain_elapsed slots_taken
metered-FewerSlots t interval now keep s tid =
    ground (arith, drain-same t.tenant_id interval now keep s)

scope_cases : (is : List ℕ) → (is ≡ []) ⊎ ((j : ℕ) × (js : List ℕ) × (is ≡ j ∷ js))
scope_cases [] = inl refl
scope_cases (j ∷ js) = inr (j, js, refl)

metered_if-FewerSlots :
    (b : Bool) (t : Tenant) (interval now keep : ℕ) (s : TenantsStore)
    → FewerSlots s (if b then (drain_elapsed t interval now keep s).2 else s)
metered_if-FewerSlots true t interval now keep s tid = metered-FewerSlots t interval now keep s tid
metered_if-FewerSlots false t interval now keep s tid = omega arith

-- the store of a listing, when the engine answers
abbrev pub Within : ℕ → Option (List PublicRow × TenantsStore) → Type 0
Within cap none = Unit
Within cap (some (x, s)) = WithinCap cap s

module _ (cap : ℕ) where
  fewer-WithinCap : (s s' : TenantsStore) → FewerSlots s s' → WithinCap cap s → WithinCap cap s'
  fewer-WithinCap s s' f w tid = omega (arith, f tid, w tid)

  reserved-WithinCap :
      (rid now t : ℕ) (min_credits : ℤ) (s : TenantsStore) (row : Tenant)
      → may_reserve t cap min_credits s row ≡ true
      → WithinCap cap s
      → WithinCap cap (record s {
        reservations =
            s.reservations
            ++ record { reservation_id = rid; tenant_id = t; created_at_s = now; tunnel_id = none }
              ∷ [];
      })
  unfolding slots_taken may_reserve
  reserved-WithinCap rid now t min_credits s row may w tid = ground (
    arith,
    w tid,
    count_where-snoc (held_by tid) s.reservations
        (record { reservation_id = rid; tenant_id = t; created_at_s = now; tunnel_id = none }),
  )

  -- A reservation is made only under the cap.
  pub reserve_tunnel-WithinCap :
      (rid now t : ℕ) (min_credits : ℤ) (s : TenantsStore)
      → WithinCap cap s
      → WithinCap cap (reserve_tunnel rid now t cap min_credits s).1
  unfolding reserve_tunnel
  reserve_tunnel-WithinCap rid now t min_credits s w = elim (Option-cases (get_tenant t s)) [
    | inl gone ↦ rw (gone, reserve_tunnel) w
    | inr (row, there) ↦ elim (Bool-cases (may_reserve t cap min_credits s row)) [
      | inl may ↦
          rw (there, reserve_tunnel) (rw may (reserved-WithinCap rid now t min_credits s row may w))
      | inr full ↦ rw (there, reserve_tunnel) (rw full w)
    ]
  ]

  auth_tenant-WithinCap :
      (c : TenancySettings) (race : TenantsStore → TenantsStore) (now : ℕ) (header : Option ℕ)
      (s : TenantsStore)
      → ((r : TenantsStore) → WithinCap cap r → WithinCap cap (race r))
      → WithinCap cap s
      → WithinCap cap (auth_tenant c race now header s).1
  unfolding auth_tenant
  auth_tenant-WithinCap c race now none s safe w = w
  auth_tenant-WithinCap c race now (some key) s safe w = elim (Auth-cases (check_key key s)) [
    | inl (f, denial) ↦ rw (denial, auth_tenant) w
    | inr (t, success) ↦
        rw (success, auth_tenant)
          (safe _ (
            fewer-WithinCap s _
              (metered_if-FewerSlots (metering_enabled c) t c.credit_interval_s now c.ledger_keep s)
              w))
  ]

  tunnels_for_tenant-WithinCap :
      (c : TenancySettings) (listing : Option (List EngineRow)) (tid : ℕ) (s : TenantsStore)
      → WithinCap cap s
      → Within cap (tunnels_for_tenant c listing tid s)
  unfolding tunnels_for_tenant
  tunnels_for_tenant-WithinCap c listing tid s w = elim (scope_cases (tunnels_of tid s)) [
    | inl empty ↦ rw (empty, tunnels_for_tenant) w
    | inr (i, is, scope) ↦ elim (Option-cases listing) [
      | inl down ↦ rw (scope, tunnels_for_tenant) (rw down tt)
      | inr (rows, up) ↦
          rw (scope, tunnels_for_tenant)
            (rw up (
              fewer-WithinCap s _
                (unlink_each-FewerSlots tid
                  (tombstones (i ∷ is) (shaped_for_tenant c (i ∷ is) rows)) s)
                w))
    ]
  ]

  release_if-WithinCap :
      (b : Bool) (rid : ℕ) (s : TenantsStore) → WithinCap cap s → WithinCap cap (release_if b rid s)
  release_if-WithinCap b rid s w = fewer-WithinCap s _ (release_if-FewerSlots b rid s) w

  hand_over-FewerSlots :
      (c : TenancySettings) (x : World) (tid tunnel : ℕ) (row : EngineRow) (active : Bool)
      (s : TenantsStore)
      → FewerSlots s (hand_over c x tid tunnel row active s).1
  unfolding hand_over
  hand_over-FewerSlots c x tid tunnel row true s t = omega arith
  hand_over-FewerSlots c x tid tunnel row false s t =
      elim (Bool-cases (is_deleted (x.delete_tunnel tunnel))) [
        | inl gone ↦ rw gone (unlink-FewerSlots tid tunnel s t)
        | inr kept ↦ rw kept (omega arith)
      ]

  note_if-WithinCap :
      (b : Bool) (rid tunnel : ℕ) (s : TenantsStore)
      → WithinCap cap s
      → WithinCap cap (note_if b rid tunnel s)
  unfolding note_if
  note_if-WithinCap true rid tunnel s w = fewer-WithinCap s _ (note-FewerSlots rid tunnel s) w
  note_if-WithinCap false rid tunnel s w = w

  settle-WithinCap :
      (c : TenancySettings) (x : World) (tid tunnel : ℕ) (row : EngineRow) (noted : TenantsStore)
      (stored : Option (Bool × TenantsStore))
      → Completed noted stored
      → WithinCap cap noted
      → WithinCap cap (settle c x tid tunnel row noted stored).1
  unfolding settle
  settle-WithinCap c x tid tunnel row noted none f w = release_if-WithinCap _ x.reservation noted w
  settle-WithinCap c x tid tunnel row noted (some (active, s)) f w =
      fewer-WithinCap _ _ (release-FewerSlots x.reservation _) (
        fewer-WithinCap s _ (hand_over-FewerSlots c x tid tunnel row active s)
          (fewer-WithinCap noted s f w))

  store_lease-FewerSlots :
      (x : World) (tid tunnel : ℕ) (noted : TenantsStore)
      → Completed noted (store_lease x tid tunnel noted)
  unfolding store_lease
  store_lease-FewerSlots x tid tunnel noted = elim (Bool-cases (x.note_ok && x.complete_ok)) [
    | inl fine ↦ rw fine (complete_reservation-FewerSlots tid x.reservation tunnel noted)
    | inr fault ↦ rw fault tt
  ]

  provision-WithinCap :
      (c : TenancySettings) (x : World) (tid nodes : ℕ) (s : TenantsStore)
      → ((r : TenantsStore) → WithinCap cap r → WithinCap cap (x.meanwhile r))
      → WithinCap cap s
      → WithinCap cap (provision c x tid nodes s).1
  unfolding provision
  provision-WithinCap c x tid nodes s safe w = elim (Provisioned-cases (x.create_tunnel nodes)) [
    | inl (status, failure) ↦
        rw (failure, provision) (release_if-WithinCap _ x.reservation (x.meanwhile s) (safe s w))
    | inr (inl none_given) ↦ rw (none_given, provision) (safe s w)
    | inr (inr (tunnel, row, success)) ↦
        rw (success, provision)
          (settle-WithinCap c x tid tunnel row _ _ (store_lease-FewerSlots x tid tunnel _)
            (note_if-WithinCap x.note_ok x.reservation tunnel _ (safe s w)))
  ]

module _ (c : TenancySettings) (x : World) where
  abbrev pub cap : ℕ
  cap = c.max_tunnels_per_tenant

  lease_for-WithinCap :
      (t : Tenant) (nodes : ℕ) (s : TenantsStore)
      → ((r : TenantsStore) → WithinCap cap r → WithinCap cap (x.meanwhile r))
      → WithinCap cap s
      → WithinCap cap (lease_for c x t nodes s).1
  unfolding lease_for
  lease_for-WithinCap t nodes s safe w =
      let within = tunnels_for_tenant-WithinCap cap c x.listing t.tenant_id s w in
      elim (Option-cases (tunnels_for_tenant c x.listing t.tenant_id s)) [
        | inl down ↦ rw (down, lease_for) w
        | inr ((leases, s₁), up) ↦
            let w₁ : WithinCap cap s₁ = rw up at within in
            let w₂ =
              reserve_tunnel-WithinCap cap x.reservation x.now t.tenant_id (min_credits c) s₁ w₁ in
            let r = reserve_tunnel x.reservation x.now t.tenant_id cap (min_credits c) s₁ in
            elim (Option-cases r.0) [
              | inl full ↦ rw (up, lease_for) (rw full w₂)
              | inr (rid, made) ↦
                  rw (up, lease_for)
                    (rw made (provision-WithinCap cap c x t.tenant_id nodes r.1 safe w₂))
            ]
      ]

  -- Whatever the engine answers and whichever statement fails, a request for a tunnel leaves every
  -- tenant with at most the cap of tunnels and reservations, if the other workers keep to it.
  pub create_tenant_tunnel-WithinCap :
      (s : TenantsStore)
      → ((r : TenantsStore) → WithinCap cap r → WithinCap cap (x.race r))
      → ((r : TenantsStore) → WithinCap cap r → WithinCap cap (x.meanwhile r))
      → WithinCap cap s
      → WithinCap cap (create_tenant_tunnel c x s).1
  unfolding create_tenant_tunnel
  create_tenant_tunnel-WithinCap s race meanwhile w =
      let w₁ = auth_tenant-WithinCap cap c x.race x.now x.header s race w in
      let auth = auth_tenant c x.race x.now x.header s in
      elim (Auth-cases auth.0) [
        | inl (f, denial) ↦ rw (denial, create_tenant_tunnel) w₁
        | inr (t, success) ↦ elim (Option-cases (asked_nodes t.node_count_requested x.asked)) [
          | inl unreadable ↦ rw (success, create_tenant_tunnel) (rw unreadable w₁)
          | inr (n, asked) ↦ elim (Bool-cases (metering_enabled c && ltb_ℤ t.credits (pos unit))) [
            | inl broke ↦ rw (success, create_tenant_tunnel) (rw asked (rw broke w₁))
            | inr funded ↦
                rw (success, create_tenant_tunnel)
                  (rw asked
                    (rw funded (lease_for-WithinCap t (clamp_nodes c n) auth.1 meanwhile w₁)))
          ]
        ]
      ]
