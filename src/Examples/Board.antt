-- ===== src/Examples/Board.antt =====
-- Examples: a tenant with credits, and the theorems about the control center.
use infinity_proxy.Tenancy.Debits.{spend-guarded}
use infinity_proxy.Prelude.{
  select, ℕ, if◌then◌else◌, ◌≤◌, ◌≡◌, refl, arith, true, ◌&&◌, none, some, [], ◌∷◌,
}
use infinity_proxy.Prelude.Int.{leb_ℤ, pos, ◌-ℤ◌}
use mathlib.Core.Option.{map as Option_map}
use infinity_proxy.Tenancy.{
  is_active, tenant_count, TenantsStore, Tenant, active, disabled, get_tenant,
}
use infinity_proxy.Tenancy.Leases.{slots_taken, tunnels_of}
use infinity_proxy.Tenancy.Meter.{spend, drain}
use infinity_proxy.Tenancy.Handlers.{TenancySettings, EngineRow, deleted, failed, auth_tenant}
use infinity_proxy.Tenancy.Provision.{World, count, tunnel_row, create_tenant_tunnel}
use infinity_proxy.Tenancy.Admin.{Fresh, auth_admin, admin_disable, tenant_row}
use infinity_proxy.Tenancy.Slots.{WithinCap}
use infinity_proxy.Tenancy.Cap.{create_tenant_tunnel-WithinCap}
use infinity_proxy.Tenancy.Charge.{balance, drain-poll}
use infinity_proxy.Tenancy.Metered.{IsMetered, drain-IsMetered}
use infinity_proxy.Tenancy.Cleanup.{is_left, admin_disable-pending}
use infinity_proxy.Tenancy.Access.{Admitted, auth_tenant-Admitted}

-- The control center: tenant 3 under the key 33, with two credits.
abbrev tenant : Tenant
tenant = record {
  tenant_id = 3;
  tenant_key = 33;
  title = "t";
  email = "t@example";
  state = active;
  node_count_requested = 4;
  renewed_at = none;
  created_at_s = 0;
  updated_at_s = 0;
  credits = pos 2_000_000;
  credited_s = some 0;
  seeded = true;
}

abbrev board : TenantsStore
board = record {
  tenants = tenant ∷ [];
  entries = [];
  leases = record { tenant_id = 3; tunnel_id = 70; created_at_s = 0 } ∷ [];
  reservations =
      record { reservation_id = 5; tenant_id = 3; created_at_s = 0; tunnel_id = none } ∷ [];
}

abbrev control : TenancySettings
control = record {
  admin_key = some 99;
  public_tunnel_host = "";
  starting_credits = pos 720_000_000;
  max_tenants = 50;
  max_tunnels_per_tenant = 4;
  max_nodes_per_tunnel = 20;
  credit_interval_s = 3_600;
  meter_enabled = true;
  ledger_keep = 50;
}

abbrev row : ℕ → EngineRow
row i = record { id = some i; host = none; port = some 10_000; state = some "running" }

abbrev world : World
world = record {
  now = 4_000;
  header = some 33;
  race = λ s. s;
  meanwhile = λ s. s;
  listing = some (row 70 ∷ []);
  asked = count 3;
  reservation = 6;
  create_tunnel = λ n. tunnel_row 71 (row 71);
  note_ok = true;
  complete_ok = true;
  delete_tunnel = λ i. deleted;
}

board-WithinCap : WithinCap 4 board
unfolding slots_taken
board-WithinCap tid = ground arith

create_tenant_tunnel-WithinCap_example : WithinCap 4 (create_tenant_tunnel control world board).1
create_tenant_tunnel-WithinCap_example =
    create_tenant_tunnel-WithinCap control world board (λ r w. w) (λ r w. w) board-WithinCap

stored : get_tenant 3 board ≡ some tenant
unfolding get_tenant
stored = refl

drain-poll_example :
    let s₁ = (drain 3 3_600 4_000 50 board).2 in
    Option_map balance (get_tenant 3 (drain 3 3_600 9_000 50 s₁).2)
    ≡ Option_map balance (get_tenant 3 (drain 3 3_600 9_000 50 board).2)
drain-poll_example =
    drain-poll 3_600 (omega arith) 3 50 0 4_000 9_000 board tenant stored refl refl (omega arith)
      (omega arith)

drain-IsMetered_example :
    let (row, actual, s') = drain 3 3_600 9_000 50 board in
    (t' : Tenant) × (row ≡ some t')
    × (get_tenant 3 s' ≡ some t')
    × IsMetered 3_600 9_000 tenant t' actual
drain-IsMetered_example = drain-IsMetered 3 3_600 9_000 50 board tenant stored

admin : auth_admin control (some 99) ≡ none
unfolding auth_admin
admin = refl

admin_disable-pending_example :
    let (answer, pending, s') = admin_disable control 5_000 (some 99) (λ i. failed 500) 3 board in
    (answer ≡ tenant_row (record tenant { state = disabled; updated_at_s = 5_000 }))
    × (get_tenant 3 s' ≡ some (record tenant { state = disabled; updated_at_s = 5_000 }))
    × (pending ≡ select (λ i. is_left (failed 500)) (tunnels_of 3 board))
    × (tunnels_of 3 s' ≡ pending)
    × (tunnels_of 4 s' ≡ tunnels_of 4 board)
admin_disable-pending_example =
    admin_disable-pending control 5_000 3 (some 99) (λ i. failed 500) board tenant 4 admin stored
      (λ p. ground arith)

auth_tenant-Admitted_example :
    let (auth, s') = auth_tenant control (λ s. s) 4_000 (some 33) board in
    Admitted (some 33) s' auth
auth_tenant-Admitted_example = auth_tenant-Admitted control (λ s. s) 4_000 (some 33) board

few : tenant_count board ≤ 50
unfolding tenant_count
few = omega arith

spend-guarded_example :
    let (ok, s') = spend 3 (pos 1_000_000) 4_000 board in
    (ok ≡ (is_active tenant.state && leb_ℤ (pos 1_000_000) tenant.credits))
    × (get_tenant 3 s'
        ≡ some (
            if ok
            then record tenant { credits = tenant.credits -ℤ pos 1_000_000; updated_at_s = 4_000 }
            else tenant))
spend-guarded_example = spend-guarded 3 (pos 1_000_000) 4_000 board tenant (refl, tt) stored

abbrev newcomer : Fresh
newcomer = record { tenant_id = 4; tenant_key = 44 }
