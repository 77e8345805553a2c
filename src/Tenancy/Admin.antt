-- ===== src/Tenancy/Admin.antt =====
-- tenancy/app.py: registration and the handlers of the administrator.
use infinity_proxy.Prelude.{
  ℕ, String, Bool, true, not, ◌||◌, Option, none, some, List, [], ◌∷◌, ◌==◌, str_eq, if◌then◌else◌,
  leb,
}
use infinity_proxy.Prelude.Int.{ℤ, pos, leb_ℤ}
use infinity_proxy.Tenancy.{
  TenantsStore, Tenant, create, get_tenant, save_tenant, set_key, disable, tenant_count,
}
use infinity_proxy.Tenancy.Leases.{tunnels_of, unlink_tunnel}
use infinity_proxy.Tenancy.Meter.{grant, grant_starting, granted, not_finite, tenant_not_found}
use infinity_proxy.Tenancy.Handlers.{
  TenancySettings, Failure, admin_not_configured, invalid_key, invalid_request, not_found,
  board_full, internal, Deletion,
}
use infinity_proxy.Tenancy.Provision.{Asked, asked_nodes, clamp_nodes, is_gone}

-- `none` lets the request through
unfoldable pub auth_admin : TenancySettings → Option ℕ → Option Failure
auth_admin c header = elim c.admin_key [
  | none ↦ some admin_not_configured
  | some key ↦ elim header [
    | none ↦ some invalid_key
    | some given ↦ if given == key then none else some invalid_key
  ]
]

pub data Answer : Type 0 where
  refused : Failure → Answer
  tenant_row : Tenant → Answer

-- what uuid4 gives to a new tenant
pub record Fresh : Type 0 where
  pub tenant_id : ℕ
  pub tenant_key : ℕ

unfoldable pub sign_up :
    TenancySettings → ℕ → Fresh → String → String → ℕ → TenantsStore → Answer × TenantsStore
sign_up c now fresh title email nodes s =
    let t = create fresh.tenant_id fresh.tenant_key now title email nodes true in
    elim (save_tenant t s) [
      | none ↦ (refused internal, s)
      | some s₁ ↦ elim (grant_starting t c.starting_credits now c.ledger_keep s₁) [
        | none ↦ (refused internal, s₁)
        | some (t', s₂) ↦ (tenant_row t', s₂)
      ]
    ]

-- `title` and `email` are stripped, the email in lower case; `has_at` is `"@" in email`. A request
-- without a count asks for 4 nodes.
unfoldable pub register :
    TenancySettings
    → ℕ
    → Fresh
    → (String → Bool)
    → String
    → String
    → Asked
    → TenantsStore
    → Answer × TenantsStore
register c now fresh has_at title email asked s =
    if str_eq title "" || str_eq email "" || not (has_at email)
    then (refused invalid_request, s)
    else if leb c.max_tenants (tenant_count s)
    then (refused board_full, s)
    else elim (asked_nodes 4 asked) [
      | none ↦ (refused invalid_request, s)
      | some n ↦ sign_up c now fresh title email (clamp_nodes c n) s
    ]

unfoldable pub admin_create :
    TenancySettings → ℕ → Option ℕ → Fresh → String → String → TenantsStore → Answer × TenantsStore
admin_create c now header fresh title email s = elim (auth_admin c header) [
  | some f ↦ (refused f, s)
  | none ↦
      if str_eq title "" then (refused invalid_request, s) else sign_up c now fresh title email 4 s
]

-- the tenant that a handler shows after its change
unfoldable pub shown : ℕ → TenantsStore → Answer × TenantsStore
shown tid s = elim (get_tenant tid s) [ none ↦ (refused internal, s) | some t ↦ (tenant_row t, s) ]

-- The amount is `none` when it is not a number at all, and `some none` when it is not finite.
unfoldable pub admin_grant :
    TenancySettings
    → (ℤ → Bool)
    → ℕ
    → Option ℕ
    → ℕ
    → Option (Option ℤ)
    → TenantsStore
    → Answer × TenantsStore
admin_grant c is_finite now header tid amount s = elim (auth_admin c header) [
  | some f ↦ (refused f, s)
  | none ↦ elim (get_tenant tid s) [
    | none ↦ (refused not_found, s)
    | some _ ↦ elim amount [
      | none ↦ (refused invalid_request, s)
      | some none ↦ (refused invalid_request, s)
      | some (some a) ↦
          if leb_ℤ a (pos 0)
          then (refused invalid_request, s)
          else elim (grant is_finite tid (some a) now c.ledger_keep s) [
            | tenant_not_found ↦ (refused internal, s)
            | not_finite ↦ (refused invalid_request, s)
            | granted s₁ ↦ shown tid s₁
          ]
    ]
  ]
]

unfoldable pub admin_rotate :
    TenancySettings → ℕ → Option ℕ → ℕ → ℕ → TenantsStore → Answer × TenantsStore
admin_rotate c now header tid key s = elim (auth_admin c header) [
  | some f ↦ (refused f, s)
  | none ↦ elim (get_tenant tid s) [
    | none ↦ (refused not_found, s)
    | some _ ↦ elim (set_key tid key now s) [
      | none ↦ (refused internal, s)
      | some s₁ ↦ shown tid s₁
    ]
  ]
]

-- Deletes the tunnels one by one; the ids that the engine may still run stay linked.
unfoldable pub clean_up : (ℕ → Deletion) → ℕ → List ℕ → TenantsStore → List ℕ × TenantsStore
clean_up delete_tunnel tid [] s = ([], s)
clean_up delete_tunnel tid (i ∷ is) s =
    let gone = is_gone (delete_tunnel i) in
    let (pending, s₁) = clean_up delete_tunnel tid is (if gone then unlink_tunnel tid i s else s) in
    (if gone then pending else i ∷ pending, s₁)

-- the ids whose clean-up is pending, with the answer
unfoldable pub admin_disable :
    TenancySettings
    → ℕ
    → Option ℕ
    → (ℕ → Deletion)
    → ℕ
    → TenantsStore
    → Answer × List ℕ × TenantsStore
admin_disable c now header delete_tunnel tid s = elim (auth_admin c header) [
  | some f ↦ (refused f, [], s)
  | none ↦ elim (get_tenant tid s) [
    | none ↦ (refused not_found, [], s)
    | some _ ↦
        let s₁ = disable tid now s in
        let (pending, s₂) = clean_up delete_tunnel tid (tunnels_of tid s₁) s₁ in
        let (answer, s₃) = shown tid s₂ in (answer, pending, s₃)
  ]
]
