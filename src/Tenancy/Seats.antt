-- ===== src/Tenancy/Seats.antt =====
-- The seats of the board, register of tenancy/app.py.
use infinity_proxy.Prelude.{
  ℕ, suc, ◌+◌, ◌≤◌, ◌≡◌, String, Bool, true, not, ◌&&◌, ◌||◌, Option, none, some, List, [], ◌∷◌,
  ◌++◌, arith, ◌==◌, str_eq, if◌then◌else◌, leb, any, update_where, length-append,
  length-update_where, Option-cases, Bool-cases, inl, inr, ==_refl,
}
use infinity_proxy.Tenancy.{
  TenantsStore, Tenant, create, is_tenant, save_tenant, tenant_count, record_entry, prune_ledger,
}
use infinity_proxy.Prelude.Int.{ℤ}
use infinity_proxy.Tenancy.Meter.{grant_starting}
use infinity_proxy.Tenancy.Handlers.{TenancySettings}
use infinity_proxy.Tenancy.Provision.{Asked, asked_nodes, clamp_nodes}
use infinity_proxy.Tenancy.Admin.{Fresh, sign_up, register}

-- how many rows a save adds: none when the tenant has a row
abbrev pub Saved : Tenant → TenantsStore → Option TenantsStore → Type 0
Saved t s none = Unit
Saved t s (some s') =
    (tenant_count s' ≤ tenant_count s + (if any (is_tenant t.tenant_id) s.tenants then 0 else 1))
    × (any (is_tenant t.tenant_id) s'.tenants ≡ true)

has_row : (t : Tenant) (ts : List Tenant) → any (is_tenant t.tenant_id) (ts ++ t ∷ []) ≡ true
has_row t [] = ground (arith, ==_refl t.tenant_id)
has_row t (u ∷ us) = ground (arith, has_row t us)

keeps_row :
    (t : Tenant) (ts : List Tenant)
    → any (is_tenant t.tenant_id) ts ≡ true
    → any (is_tenant t.tenant_id) (update_where (is_tenant t.tenant_id) (λ u. t) ts) ≡ true
keeps_row t [] h = h
keeps_row t (u ∷ us) h = ground (arith, keeps_row t us, ==_refl t.tenant_id)

save_tenant-Saved : (t : Tenant) (s : TenantsStore) → Saved t s (save_tenant t s)
unfolding save_tenant tenant_count
save_tenant-Saved t s =
    elim (Bool-cases
      (any (λ u. u.tenant_key == t.tenant_key && not (u.tenant_id == t.tenant_id)) s.tenants)) [
        | inl taken ↦ rw (taken, save_tenant) tt
        | inr free ↦ elim (Bool-cases (any (is_tenant t.tenant_id) s.tenants)) [
          | inl known ↦
              rw (free, save_tenant)
                (rw known (
                  omega (arith, length-update_where (is_tenant t.tenant_id) (λ u. t) s.tenants),
                  keeps_row t s.tenants known,
                ))
          | inr new ↦
              rw (free, save_tenant)
                (rw new (omega (arith, length-append s.tenants (t ∷ [])), has_row t s.tenants))
        ]
      ]

-- the store of a grant, which saves the same tenant again
abbrev pub Granted : ℕ → Option (Tenant × TenantsStore) → Type 0
Granted seats none = Unit
Granted seats (some (t, s)) = tenant_count s ≤ seats

grant_starting-Granted :
    (t : Tenant) (starting : ℤ) (now keep : ℕ) (s : TenantsStore)
    → any (is_tenant t.tenant_id) s.tenants ≡ true
    → Granted (tenant_count s) (grant_starting t starting now keep s)
unfolding grant_starting record_entry prune_ledger tenant_count
grant_starting-Granted t starting now keep s known =
    let t' : Tenant = record t { credits = starting; credited_s = some now } in
    let saved = save_tenant-Saved t' s in
    elim (Option-cases (save_tenant t' s)) [
      | inl taken ↦ rw (taken, grant_starting) tt
      | inr (s₁, fine) ↦
          let (rows, _) : Saved t' s (some s₁) = rw fine at saved in
          rw (fine, grant_starting) (ground (arith, rows))
    ]

sign_up-count :
    (c : TenancySettings) (now : ℕ) (fresh : Fresh) (title email : String) (nodes : ℕ)
    (s : TenantsStore)
    → tenant_count (sign_up c now fresh title email nodes s).1 ≤ suc (tenant_count s)
unfolding sign_up create
sign_up-count c now fresh title email nodes s =
    let t = create fresh.tenant_id fresh.tenant_key now title email nodes true in
    let saved = save_tenant-Saved t s in
    elim (Option-cases (save_tenant t s)) [
      | inl taken ↦ rw (taken, sign_up) (omega arith)
      | inr (s₁, fine) ↦
          let (rows, known) : Saved t s (some s₁) = rw fine at saved in
          let grant = grant_starting-Granted t c.starting_credits now c.ledger_keep s₁ known in
          elim (Option-cases (grant_starting t c.starting_credits now c.ledger_keep s₁)) [
            | inl clash ↦ rw (fine, sign_up) (rw clash (ground (arith, rows)))
            | inr ((t', s₂), made) ↦
                let least : tenant_count s₂ ≤ tenant_count s₁ = rw made at grant in
                rw (fine, sign_up) (rw made (ground (arith, rows, least)))
          ]
    ]

-- A registration never takes the board over its seats.
pub register-seats :
    (c : TenancySettings) (now : ℕ) (fresh : Fresh) (has_at : String → Bool) (title email : String)
    (asked : Asked) (s : TenantsStore)
    → tenant_count s ≤ c.max_tenants
    → tenant_count (register c now fresh has_at title email asked s).1 ≤ c.max_tenants
unfolding register
register-seats c now fresh has_at title email asked s h =
    elim (Bool-cases (str_eq title "" || str_eq email "" || not (has_at email))) [
      | inl invalid ↦ rw invalid h
      | inr valid ↦ elim (Bool-cases (leb c.max_tenants (tenant_count s))) [
        | inl full ↦ rw (valid, full) h
        | inr free ↦ elim (Option-cases (asked_nodes 4 asked)) [
          | inl unreadable ↦ rw (valid, free, unreadable) h
          | inr (n, given) ↦
              rw (valid, free, given)
                (ground (arith, sign_up-count c now fresh title email (clamp_nodes c n) s))
        ]
      ]
    ]
