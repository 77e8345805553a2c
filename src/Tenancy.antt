-- ===== src/Tenancy.antt =====
-- tenancy/models.py and the statements of tenancy/store.py over tenants and the ledger. Credits are
-- whole millionths of a credit, times whole seconds; a table is the list of its rows in the order
-- of insertion. The leases, the meter and the handlers are in the modules below.
pub mod Leases
pub mod Meter
pub mod Metered
pub mod Handlers
pub mod Provision
pub mod Admin
pub mod Slots
pub mod Cap
pub mod Charge
pub mod Cleanup
pub mod Access
pub mod Debits
pub mod Seats
use infinity_proxy.Prelude.{
  ℕ, suc, ◌+◌, ◌*◌, max, String, Bool, true, false, not, ◌&&◌, Option, none, some, List, [], ◌∷◌,
  ◌++◌, map, ◌==◌, if◌then◌else◌, select, delete_where, update_where, find, any, length,
  count_where, take, contains, Key, asc, desc, holds,
}
use infinity_proxy.Prelude.Sort.{sort_by}
use infinity_proxy.Prelude.Int.{ℤ, pos, ◌+ℤ◌}

pub data TenantState : Type 0 where
  active disabled draft : TenantState

abbrev pub is_active : TenantState → Bool
is_active active = true
is_active disabled = false
is_active draft = false

pub record Tenant : Type 0 where
  pub tenant_id : ℕ
  pub tenant_key : ℕ
  pub title : String
  pub email : String
  pub state : TenantState
  pub node_count_requested : ℕ
  pub renewed_at : Option ℕ
  pub created_at_s : ℕ
  pub updated_at_s : ℕ
  pub credits : ℤ
  pub credited_s : Option ℕ
  pub seeded : Bool

-- Tenant.create, with the id and the key drawn from uuid4
unfoldable pub create : ℕ → ℕ → ℕ → String → String → ℕ → Bool → Tenant
create tid key now title email nodes seeded = record {
  tenant_id = tid;
  tenant_key = key;
  title = title;
  email = email;
  state = active;
  node_count_requested = nodes;
  renewed_at = none;
  created_at_s = now;
  updated_at_s = now;
  credits = pos 0;
  credited_s = none;
  seeded = seeded;
}

-- the texts that the code writes: "{h}h metered", with a shortfall or none
pub data Reason : Type 0 where
  metered : ℕ → Option ℤ → Reason
  admin_grant signup_grant : Reason

pub record LedgerEntry : Type 0 where
  pub tenant_id : ℕ
  pub delta : ℤ
  pub reason : Reason
  pub at_s : ℕ

-- a row of `ledger`, with the rowid that SQLite gives it
pub record LedgerRow : Type 0 where
  pub rowid : ℕ
  pub entry : LedgerEntry

-- a row of `tenant_tunnels`
pub record Lease : Type 0 where
  pub tenant_id : ℕ
  pub tunnel_id : ℕ
  pub created_at_s : ℕ

-- a row of `tunnel_reservations`
pub record Reservation : Type 0 where
  pub reservation_id : ℕ
  pub tenant_id : ℕ
  pub created_at_s : ℕ
  pub tunnel_id : Option ℕ

pub record TenantsStore : Type 0 where
  pub tenants : List Tenant
  pub entries : List LedgerRow
  pub leases : List Lease
  pub reservations : List Reservation

abbrev pub no_tenants : TenantsStore
no_tenants = record { tenants = []; entries = []; leases = []; reservations = [] }

abbrev pub is_tenant : ℕ → Tenant → Bool
is_tenant tid t = t.tenant_id == tid

-- `none` is the IntegrityError of the UNIQUE key, after which nothing is written.
unfoldable pub save_tenant : Tenant → TenantsStore → Option TenantsStore
save_tenant t s =
    if any (λ u. u.tenant_key == t.tenant_key && not (u.tenant_id == t.tenant_id)) s.tenants
    then none
    else some (record s {
      tenants =
          if any (is_tenant t.tenant_id) s.tenants
          then update_where (is_tenant t.tenant_id) (λ u. t) s.tenants
          else s.tenants ++ t ∷ [];
    })

unfoldable pub load_tenants : TenantsStore → List Tenant
load_tenants s = sort_by (λ t. asc t.created_at_s ∷ []) s.tenants

unfoldable pub get_tenant : ℕ → TenantsStore → Option Tenant
get_tenant tid s = find (is_tenant tid) s.tenants

unfoldable pub get_by_key : ℕ → TenantsStore → Option Tenant
get_by_key key s = find (λ t. t.tenant_key == key) s.tenants

unfoldable pub delete_tenant : ℕ → TenantsStore → TenantsStore
delete_tenant tid s = record {
  tenants = delete_where (is_tenant tid) s.tenants;
  entries = delete_where (λ r. r.entry.tenant_id == tid) s.entries;
  leases = delete_where (λ l. l.tenant_id == tid) s.leases;
  reservations = delete_where (λ r. r.tenant_id == tid) s.reservations;
}

unfoldable pub tenant_count : TenantsStore → ℕ
tenant_count s = length s.tenants

unfoldable pub active_count : TenantsStore → ℕ
active_count s = count_where (λ t. is_active t.state) s.tenants

unfoldable pub next_rowid : List LedgerRow → ℕ
next_rowid [] = 1
next_rowid (r ∷ rs) = max (suc r.rowid) (next_rowid rs)

unfoldable pub record_entry : LedgerEntry → TenantsStore → TenantsStore
record_entry e s = record s {
  entries = s.entries ++ record { rowid = next_rowid s.entries; entry = e } ∷ [];
}

-- the newest `keep` rows of a tenant, newest first
unfoldable pub newest : ℕ → ℕ → List LedgerRow → List LedgerRow
newest tid keep rows = take keep (
    sort_by (λ r. desc r.entry.at_s ∷ desc r.rowid ∷ [])
      (select (λ r. r.entry.tenant_id == tid) rows))

unfoldable pub ledger : ℕ → ℕ → TenantsStore → List LedgerEntry
ledger tid keep s = map (λ r. r.entry) (newest tid keep s.entries)

unfoldable pub prune_ledger : ℕ → ℕ → TenantsStore → TenantsStore
prune_ledger tid keep s =
    let kept = map (λ r. r.rowid) (newest tid keep s.entries) in
    record s {
      entries =
          delete_where (λ r. r.entry.tenant_id == tid && not (contains r.rowid kept)) s.entries;
    }

unfoldable pub sum_credits : List Tenant → ℤ
sum_credits [] = pos 0
sum_credits (t ∷ ts) = t.credits +ℤ sum_credits ts

unfoldable pub total_credits : TenantsStore → ℤ
total_credits s = sum_credits s.tenants

unfoldable pub set_key : ℕ → ℕ → ℕ → TenantsStore → Option TenantsStore
set_key tid key now s =
    if any (is_tenant tid) s.tenants
      && any (λ u. u.tenant_key == key && not (u.tenant_id == tid)) s.tenants
    then none
    else some (record s {
      tenants =
          update_where (is_tenant tid) (λ t. record t { tenant_key = key; updated_at_s = now })
            s.tenants;
    })

unfoldable pub disable : ℕ → ℕ → TenantsStore → TenantsStore
disable tid now s = record s {
  tenants =
      update_where (is_tenant tid) (λ t. record t { state = disabled; updated_at_s = now })
        s.tenants;
}
