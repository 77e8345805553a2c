-- ===== src/Tenancy/Access.antt =====
-- Authentication and scope in tenancy/app.py: who gets through, and what a tenant gets to see.
use infinity_proxy.Prelude.{
  ℕ, ◌≡◌, true, Option, none, some, List, [], ◌∷◌, ◌==◌, contains, All, Bool-cases, Option-cases,
  inl, inr, find-holds, ==_iff,
}
use infinity_proxy.Tenancy.{TenantsStore, Tenant, is_active, get_by_key}
use infinity_proxy.Tenancy.Handlers.{
  TenancySettings, Auth, denied, allowed, Auth-cases, check_key, auth_tenant, EngineRow, shape,
  shaped_tunnels,
}

-- what an answer of the authentication means in the store that it leaves
abbrev pub Admitted : Option ℕ → TenantsStore → Auth → Type 0
Admitted header s (denied f) = Unit
Admitted none s (allowed t) = ⊥
Admitted (some key) s (allowed t) =
    (get_by_key key s ≡ some t) × (t.tenant_key ≡ key) × (is_active t.state ≡ true)

key-holds :
    (key : ℕ) (s : TenantsStore) (t : Tenant) → get_by_key key s ≡ some t → t.tenant_key ≡ key
unfolding get_by_key
key-holds key s t there =
    (==_iff t.tenant_key key).0 (find-holds (λ u. u.tenant_key == key) s.tenants t there)

check_key-Admitted : (key : ℕ) (s : TenantsStore) → Admitted (some key) s (check_key key s)
unfolding check_key
check_key-Admitted key s = elim (Option-cases (get_by_key key s)) [
  | inl unknown ↦ rw (unknown, check_key) tt
  | inr (t, there) ↦ elim (Bool-cases (is_active t.state)) [
    | inl on ↦ rw (there, check_key) (rw on (there, key-holds key s t there, on))
    | inr off ↦ rw (there, check_key) (rw off tt)
  ]
]

-- Whatever other workers commit during the authentication, a tenant that is let through is in the
-- store that is left, under the key that was given, and active there.
pub auth_tenant-Admitted :
    (c : TenancySettings) (race : TenantsStore → TenantsStore) (now : ℕ) (header : Option ℕ)
    (s : TenantsStore)
    → let (auth, s') = auth_tenant c race now header s in Admitted header s' auth
unfolding auth_tenant
auth_tenant-Admitted c race now none s = tt
auth_tenant-Admitted c race now (some key) s = elim (Auth-cases (check_key key s)) [
  | inl (f, denial) ↦ rw (denial, auth_tenant) tt
  | inr (t, success) ↦ rw (success, auth_tenant) (check_key-Admitted key _)
]

-- A listing shows only tunnels of the scope.
pub shaped_tunnels-scope :
    (scope : List ℕ) (rows : List EngineRow)
    → All (λ row. contains row.id scope ≡ true) (shaped_tunnels scope rows)
unfolding shaped_tunnels shape
shaped_tunnels-scope scope [] = tt
shaped_tunnels-scope scope (row ∷ rows) = elim (Option-cases row.id) [
  | inl unnamed ↦ rw (unnamed, shaped_tunnels) (shaped_tunnels-scope scope rows)
  | inr (i, named) ↦ elim (Bool-cases (contains i scope)) [
    | inl mine ↦ rw (named, shaped_tunnels) (rw mine (mine, shaped_tunnels-scope scope rows))
    | inr foreign ↦ rw (named, shaped_tunnels) (rw foreign (shaped_tunnels-scope scope rows))
  ]
]
