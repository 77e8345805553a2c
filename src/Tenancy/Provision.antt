-- ===== src/Tenancy/Provision.antt =====
-- tenancy/app.py, create_tenant_tunnel: the reservation, the engine call and its recovery.
use infinity_proxy.Prelude.{
  ◌≡◌, ◌⊎◌, inl, inr, refl, ℕ, max, min, Bool, true, false, not, ◌&&◌, Option, none, some, List,
  ◌==◌, if◌then◌else◌, ltb, leb,
}
use infinity_proxy.Prelude.Int.{ℤ, pos, ltb_ℤ}
use infinity_proxy.Stability.{unit}
use infinity_proxy.Tenancy.{TenantsStore, Tenant, is_active, get_tenant}
use infinity_proxy.Tenancy.Leases.{
  reserve_tunnel, note_reservation_tunnel, complete_reservation, release_reservation, unlink_tunnel,
}
use infinity_proxy.Tenancy.Handlers.{
  TenancySettings, metering_enabled, auth_tenant, denied, allowed, EngineRow, PublicRow, shape,
  set_host, tunnels_for_tenant, Failure, invalid_request, key_disabled, out_of_credits, lease_limit,
  engine_error, lease_finalize_failed, Deletion, deleted, failed,
}

-- what the engine answers to a creation: an error status, a body without an id, or a tunnel's row
pub data Provisioned : Type 0 where
  create_failed : ℕ → Provisioned
  no_row : Provisioned
  tunnel_row : ℕ → EngineRow → Provisioned

pub Provisioned-cases :
    (p : Provisioned)
    → ((status : ℕ) × (p ≡ create_failed status))
      ⊎ ((p ≡ no_row) ⊎ ((tunnel : ℕ) × (row : EngineRow) × (p ≡ tunnel_row tunnel row)))
Provisioned-cases (create_failed status) = inl (status, refl)
Provisioned-cases no_row = inr (inl refl)
Provisioned-cases (tunnel_row tunnel row) = inr (inr (tunnel, row, refl))

-- the `node_count` of the request; a negative one counts as 0, which the clamp raises alike
pub data Asked : Type 0 where
  absent not_integer : Asked
  count : ℕ → Asked

pub data Response : Type 0 where
  refused : Failure → Response
  leased : PublicRow → Response

-- The environment of one request. `race` is what other workers commit during authentication and
-- `meanwhile` what they commit while the engine provisions; `note_ok` and `complete_ok` are false
-- when the statement meets an sqlite3.Error of its own.
pub record World : Type 0 where
  pub now : ℕ
  pub header : Option ℕ
  pub race : TenantsStore → TenantsStore
  pub meanwhile : TenantsStore → TenantsStore
  pub listing : Option (List EngineRow)
  pub asked : Asked
  pub reservation : ℕ
  pub create_tunnel : ℕ → Provisioned
  pub note_ok : Bool
  pub complete_ok : Bool
  pub delete_tunnel : ℕ → Deletion

unfoldable pub clamp_nodes : TenancySettings → ℕ → ℕ
clamp_nodes c n = max 1 (min c.max_nodes_per_tunnel n)

unfoldable pub asked_nodes : ℕ → Asked → Option ℕ
asked_nodes default absent = some default
asked_nodes default not_integer = none
asked_nodes default (count n) = some n

-- deleted, or not there
unfoldable pub is_gone : Deletion → Bool
is_gone deleted = true
is_gone (failed status) = status == 404

unfoldable pub is_deleted : Deletion → Bool
is_deleted deleted = true
is_deleted (failed status) = false

-- `400 <= status < 500`: the engine refused, so nothing was created
unfoldable pub is_refusal : ℕ → Bool
is_refusal status = leb 400 status && ltb status 500

-- `finally: if release_slot`
unfoldable pub release_if : Bool → ℕ → TenantsStore → TenantsStore
release_if release_slot rid s = if release_slot then release_reservation rid s else s

-- after the lease is stored: a tenant that was disabled meanwhile loses the tunnel again
unfoldable pub hand_over :
    TenancySettings → World → ℕ → ℕ → EngineRow → Bool → TenantsStore → Response × TenantsStore
hand_over c w tid tunnel row active s =
    if active then (leased (set_host c.public_tunnel_host (shape row tunnel)), s) else (
      refused key_disabled,
      if is_deleted (w.delete_tunnel tunnel) then unlink_tunnel tid tunnel s else s,
    )

-- what is stored of a lease, in `none` when a statement failed
unfoldable pub store_lease : World → ℕ → ℕ → TenantsStore → Option (Bool × TenantsStore)
store_lease w tid tunnel noted =
    if w.note_ok && w.complete_ok then complete_reservation tid w.reservation tunnel noted else none

-- After `except sqlite3.Error` the slot is released only when the tunnel is known to be gone.
unfoldable pub settle :
    TenancySettings
    → World
    → ℕ
    → ℕ
    → EngineRow
    → TenantsStore
    → Option (Bool × TenantsStore)
    → Response × TenantsStore
settle c w tid tunnel row noted none = (
  refused lease_finalize_failed,
  release_if (is_gone (w.delete_tunnel tunnel)) w.reservation noted,
)
settle c w tid tunnel row noted (some (active, s)) =
    let (response, s₁) = hand_over c w tid tunnel row active s in
    (response, release_reservation w.reservation s₁)

unfoldable pub note_if : Bool → ℕ → ℕ → TenantsStore → TenantsStore
note_if ok rid tunnel s = if ok then note_reservation_tunnel rid tunnel s else s

-- the body of the `try`, with its handlers, from the reservation on
unfoldable pub provision : TenancySettings → World → ℕ → ℕ → TenantsStore → Response × TenantsStore
provision c w tid nodes s =
    let s₁ = w.meanwhile s in
    elim (w.create_tunnel nodes) [
      | create_failed status ↦
          (refused engine_error, release_if (is_refusal status) w.reservation s₁)
      | no_row ↦ (refused engine_error, s₁)
      | tunnel_row tunnel row ↦
          let noted = note_if w.note_ok w.reservation tunnel s₁ in
          settle c w tid tunnel row noted (store_lease w tid tunnel noted)
    ]

-- why a reservation was not made
unfoldable pub why_refused : TenancySettings → ℕ → TenantsStore → Failure
why_refused c tid s = elim (get_tenant tid s) [
  | none ↦ key_disabled
  | some t ↦
      if not (is_active t.state)
      then key_disabled
      else if metering_enabled c && ltb_ℤ t.credits (pos unit)
      then out_of_credits
      else lease_limit
]

unfoldable pub min_credits : TenancySettings → ℤ
min_credits c = if metering_enabled c then pos unit else pos 0

unfoldable pub lease_for :
    TenancySettings → World → Tenant → ℕ → TenantsStore → Response × TenantsStore
lease_for c w t nodes s =
    let tid = t.tenant_id in
    elim (tunnels_for_tenant c w.listing tid s) [
      | none ↦ (refused engine_error, s)
      | some (_, s₁) ↦
          let (reservation, s₂) =
            reserve_tunnel w.reservation w.now tid c.max_tunnels_per_tenant (min_credits c) s₁ in
          elim reservation [
            | none ↦ (refused (why_refused c tid s₂), s₂)
            | some _ ↦ provision c w tid nodes s₂
          ]
    ]

unfoldable pub create_tenant_tunnel :
    TenancySettings → World → TenantsStore → Response × TenantsStore
create_tenant_tunnel c w s =
    let (auth, s₁) = auth_tenant c w.race w.now w.header s in
    elim auth [
      | denied f ↦ (refused f, s₁)
      | allowed t ↦ elim (asked_nodes t.node_count_requested w.asked) [
        | none ↦ (refused invalid_request, s₁)
        | some n ↦
            if metering_enabled c && ltb_ℤ t.credits (pos unit)
            then (refused out_of_credits, s₁)
            else lease_for c w t (clamp_nodes c n) s₁
      ]
    ]
