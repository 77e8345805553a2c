-- ===== src/Tenancy/Handlers.antt =====
-- tenancy/app.py and tenancy/engine.py: authentication, the projection of the engine's listing onto
-- one tenant, and the tenant's deletion of a tunnel. What the engine answers, the clock and what
-- other workers commit between two statements are arguments. tenancy/config.py gives the settings.
use infinity_proxy.Prelude.{
  ◌≡◌, ◌⊎◌, inl, inr, refl, ℕ, String, Bool, not, ◌&&◌, Option, none, some, List, [], ◌∷◌, map,
  str_eq, if◌then◌else◌, ltb, select, contains, or_else,
}
use infinity_proxy.Prelude.Int.{ℤ}
use infinity_proxy.Tenancy.{TenantsStore, Tenant, is_active, get_by_key}
use infinity_proxy.Tenancy.Leases.{tunnels_of, unlink_tunnel}
use infinity_proxy.Tenancy.Meter.{drain_elapsed}

pub record TenancySettings : Type 0 where
  pub admin_key : Option ℕ
  pub public_tunnel_host : String
  pub starting_credits : ℤ
  pub max_tenants : ℕ
  pub max_tunnels_per_tenant : ℕ
  pub max_nodes_per_tunnel : ℕ
  pub credit_interval_s : ℕ
  pub meter_enabled : Bool
  pub ledger_keep : ℕ

unfoldable pub metering_enabled : TenancySettings → Bool
metering_enabled c = c.meter_enabled && ltb 0 c.credit_interval_s

-- the codes of the error responses
pub data Failure : Type 0 where
  missing_key invalid_key key_disabled admin_not_configured : Failure
  invalid_request board_full out_of_credits lease_limit not_found : Failure
  engine_error lease_finalize_failed internal : Failure

pub data Auth : Type 0 where
  denied : Failure → Auth
  allowed : Tenant → Auth

pub Auth-cases : (a : Auth) → ((f : Failure) × (a ≡ denied f)) ⊎ ((t : Tenant) × (a ≡ allowed t))
Auth-cases (denied f) = inl (f, refl)
Auth-cases (allowed t) = inr (t, refl)

-- one lookup of a key
unfoldable pub check_key : ℕ → TenantsStore → Auth
check_key key s = elim (get_by_key key s) [
  | none ↦ denied invalid_key
  | some t ↦ if is_active t.state then allowed t else denied key_disabled
]

-- The key is looked up again after the meter; `race` is what other workers commit in between.
unfoldable pub auth_tenant :
    TenancySettings
    → (TenantsStore → TenantsStore)
    → ℕ
    → Option ℕ
    → TenantsStore
    → Auth × TenantsStore
auth_tenant c race now header s = elim header [
  | none ↦ (denied missing_key, s)
  | some key ↦ elim (check_key key s) [
    | denied f ↦ (denied f, s)
    | allowed t ↦
        let (_, _, metered) = drain_elapsed t c.credit_interval_s now c.ledger_keep s in
        let s₁ = race (if metering_enabled c then metered else s) in (check_key key s₁, s₁)
  ]
]

-- a row of the engine's listing; an absent field is `none`
pub record EngineRow : Type 0 where
  pub id : Option ℕ
  pub host : Option String
  pub port : Option ℕ
  pub state : Option String

-- the tenant's shape of a row; a port that is absent is shown as ""
pub record PublicRow : Type 0 where
  pub id : ℕ
  pub host : String
  pub port : Option ℕ
  pub state : String

unfoldable pub shape : EngineRow → ℕ → PublicRow
shape row i = record {
  id = i;
  host = or_else row.host "";
  port = row.port;
  state = or_else row.state "";
}

unfoldable pub shaped_tunnels : List ℕ → List EngineRow → List PublicRow
shaped_tunnels scope [] = []
shaped_tunnels scope (row ∷ rows) =
    let rest = shaped_tunnels scope rows in
    elim row.id [ none ↦ rest | some i ↦ if contains i scope then shape row i ∷ rest else rest ]

unfoldable pub set_host : String → PublicRow → PublicRow
set_host h row = if str_eq h "" then row else record row { host = h }

unfoldable pub shaped_for_tenant : TenancySettings → List ℕ → List EngineRow → List PublicRow
shaped_for_tenant c scope rows = map (set_host c.public_tunnel_host) (shaped_tunnels scope rows)

unfoldable pub unlink_each : ℕ → List ℕ → TenantsStore → TenantsStore
unlink_each tid [] s = s
unlink_each tid (i ∷ is) s = unlink_each tid is (unlink_tunnel tid i s)

-- `scope - {row["id"] for row in shaped}`
unfoldable pub tombstones : List ℕ → List PublicRow → List ℕ
tombstones scope shaped = select (λ i. not (contains i (map (λ row. row.id) shaped))) scope

-- The listing is `none` when the engine call fails, and is not asked for when the scope is empty.
unfoldable pub tunnels_for_tenant :
    TenancySettings
    → Option (List EngineRow)
    → ℕ
    → TenantsStore
    → Option (List PublicRow × TenantsStore)
tunnels_for_tenant c listing tid s = elim (tunnels_of tid s) [
  | [] ↦ some ([], s)
  | i ∷ is ↦ elim listing [
    | none ↦ none
    | some rows ↦
        let shaped = shaped_for_tenant c (i ∷ is) rows in
        some (shaped, unlink_each tid (tombstones (i ∷ is) shaped) s)
  ]
]

-- what a DELETE on the engine comes to: done, or the status of the failure (0: unreachable)
pub data Deletion : Type 0 where
  deleted : Deletion
  failed : ℕ → Deletion

pub data Outcome : Type 0 where
  refused : Failure → Outcome
  done : Outcome

unfoldable pub delete_tenant_tunnel :
    TenancySettings
    → (TenantsStore → TenantsStore)
    → ℕ
    → Option ℕ
    → Option (List EngineRow)
    → (ℕ → Deletion)
    → ℕ
    → TenantsStore
    → Outcome × TenantsStore
delete_tenant_tunnel c race now header listing delete_tunnel tunnel s =
    let (auth, s₁) = auth_tenant c race now header s in
    elim auth [
      | denied f ↦ (refused f, s₁)
      | allowed t ↦ elim (tunnels_for_tenant c listing t.tenant_id s₁) [
        | none ↦ (refused engine_error, s₁)
        | some (leases, s₂) ↦
            if contains tunnel (map (λ row. row.id) leases)
            then elim (delete_tunnel tunnel) [
              | failed status ↦ (refused engine_error, s₂)
              | deleted ↦ (done, unlink_tunnel t.tenant_id tunnel s₂)
            ]
            else (refused not_found, s₂)
      ]
    ]
