-- ===== src/Tenancy/Leases.antt =====
-- tenancy/store.py: the reservations that guard the cap on tunnels, and the tunnels of a tenant.
use infinity_proxy.Prelude.{
  ℕ, ◌+◌, Bool, false, ◌&&◌, Option, none, some, List, [], ◌∷◌, ◌++◌, map, ◌==◌, if◌then◌else◌, ltb,
  select, delete_where, update_where, find, any, count_where,
}
use infinity_proxy.Prelude.Int.{ℤ, leb_ℤ}
use infinity_proxy.Tenancy.{TenantsStore, Tenant, Lease, Reservation, is_active, get_tenant}

abbrev pub of_tenant : ℕ → Lease → Bool
of_tenant tid l = l.tenant_id == tid

abbrev pub held_by : ℕ → Reservation → Bool
held_by tid r = r.tenant_id == tid

abbrev pub is_reservation : ℕ → Reservation → Bool
is_reservation rid r = r.reservation_id == rid

-- the two counts that the INSERT of a reservation adds up
unfoldable pub slots_taken : ℕ → TenantsStore → ℕ
slots_taken tid s = count_where (of_tenant tid) s.leases + count_where (held_by tid) s.reservations

-- the WHERE clause of the INSERT, on the one row of the tenant
unfoldable pub may_reserve : ℕ → ℕ → ℤ → TenantsStore → Tenant → Bool
may_reserve tid cap min_credits s t =
    is_active t.state && leb_ℤ min_credits t.credits && ltb (slots_taken tid s) cap

-- `rid` is the fresh uuid4; the id is returned when a row was inserted
unfoldable pub reserve_tunnel : ℕ → ℕ → ℕ → ℕ → ℤ → TenantsStore → Option ℕ × TenantsStore
reserve_tunnel rid now tid cap min_credits s = elim (get_tenant tid s) [
  | none ↦ (none, s)
  | some t ↦
      if may_reserve tid cap min_credits s t
      then (
        some rid,
        record s {
          reservations =
              s.reservations
              ++ record {
                reservation_id = rid;
                tenant_id = tid;
                created_at_s = now;
                tunnel_id = none;
              }
                ∷ [];
        },
      )
      else (none, s)
]

unfoldable pub note_reservation_tunnel : ℕ → ℕ → TenantsStore → TenantsStore
note_reservation_tunnel rid tunnel s = record s {
  reservations =
      update_where (is_reservation rid) (λ r. record r { tunnel_id = some tunnel }) s.reservations;
}

unfoldable pub release_reservation : ℕ → TenantsStore → TenantsStore
release_reservation rid s = record s {
  reservations = delete_where (is_reservation rid) s.reservations;
}

abbrev pub is_lease : ℕ → ℕ → Lease → Bool
is_lease tid tunnel l = l.tenant_id == tid && l.tunnel_id == tunnel

-- the state column of the tenant, compared with 'active'
unfoldable pub tenant_active : ℕ → TenantsStore → Bool
tenant_active tid s = elim (get_tenant tid s) [ none ↦ false | some t ↦ is_active t.state ]

-- A reservation id is the primary key, so the SELECT has one row at most. `none` is the
-- IntegrityError of a tunnel that the tenant has already, which rolls the transaction back.
unfoldable pub complete_reservation : ℕ → ℕ → ℕ → TenantsStore → Option (Bool × TenantsStore)
complete_reservation tid rid tunnel s =
    elim (find (λ r. is_reservation rid r && held_by tid r) s.reservations) [
      | none ↦ some (false, release_reservation rid s)
      | some r ↦
          if any (is_lease tid tunnel) s.leases
          then none
          else some (
            tenant_active tid s,
            release_reservation rid (record s {
              leases =
                  s.leases
                  ++ record { tenant_id = tid; tunnel_id = tunnel; created_at_s = r.created_at_s }
                    ∷ [];
            }),
          )
    ]

-- INSERT OR IGNORE
unfoldable pub link_tunnel : ℕ → ℕ → ℕ → TenantsStore → TenantsStore
link_tunnel tid tunnel now s = if any (is_lease tid tunnel) s.leases then s else record s {
  leases = s.leases ++ record { tenant_id = tid; tunnel_id = tunnel; created_at_s = now } ∷ [];
}

unfoldable pub unlink_tunnel : ℕ → ℕ → TenantsStore → TenantsStore
unlink_tunnel tid tunnel s = record s { leases = delete_where (is_lease tid tunnel) s.leases }

unfoldable pub tunnels_of : ℕ → TenantsStore → List ℕ
tunnels_of tid s = map (λ l. l.tunnel_id) (select (of_tenant tid) s.leases)

unfoldable pub drop_tenant_tunnels : ℕ → TenantsStore → List ℕ × TenantsStore
drop_tenant_tunnels tid s =
    (tunnels_of tid s, record s { leases = delete_where (of_tenant tid) s.leases })
