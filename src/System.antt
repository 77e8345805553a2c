-- ===== src/System.antt =====
-- The handlers of engine/app.py, the passes of engine/scheduler.py and the refreshes of engine/pool.py
-- that run one after another, each to its end before the next begins. The engine does not see to
-- that: the lock of its store covers a statement, not a handler.
use infinity_proxy.Prelude.{
  ℕ, ◌<◌, ◌≤◌, ◌≡◌, ◌⊎◌, refl, Bool, Option, none, some, All, Option-cases, inl, inr,
}
use infinity_proxy.Config.{Settings}
use infinity_proxy.Models.{Tunnel, ProbeResult}
use infinity_proxy.Db.{Store, get_tunnel}
use infinity_proxy.Db.Ownership.{owned}
use infinity_proxy.Db.Grants.{Accounts}
use infinity_proxy.Scheduler.{Control, Engine, Runtime}
use infinity_proxy.Scheduler.Health.{Clock, Pass, failed, returned, health_check}
use infinity_proxy.Scheduler.Passes.{health_check-Accounts}
use infinity_proxy.Scheduler.Reconcile.{reconcile, reconcile-Accounts}
use infinity_proxy.Api.{
  Provision, NodeCount, ApiError, Reply, error, made, create_tunnel, delete_tunnel_request,
  renew_tunnel,
}
use infinity_proxy.Api.Requests.{
  Answered, create_tunnel-Answered, Deleted, delete_tunnel_request-Deleted,
}
use infinity_proxy.Pool.{Feeds, SourceManifest, refresh_source}
use infinity_proxy.Pool.Refresh.{Distinguishes, refresh_source-Refreshed}

Pass-cases :
    (p : Pass) → (p ≡ failed) ⊎ ((swapped : ℕ) × (added : ℕ) × (p ≡ returned swapped added))
Pass-cases failed = inl refl
Pass-cases (returned swapped added) = inr (swapped, added, refl)

module _ (c : Settings) where
  -- One operation from its beginning to its end, with no other meanwhile. A new tunnel's id is a fresh
  -- uuid: no row and no node has it.
  pub data Step (e e' : Engine) : Type 0 where
    creates :
        (env : Provision) (asked : NodeCount) (auto_renew : Bool)
        → get_tunnel env.secrets.tunnel_id e.store ≡ none
        → owned env.secrets.tunnel_id e.store.nodes ≡ 0
        → e' ≡ (create_tunnel c env asked auto_renew e).1
        → Step e e'
    deletes : (stops : Control) (tid : ℕ) → e' ≡ (delete_tunnel_request stops tid e).1 → Step e e'
    renews :
        (env : Runtime) (t : Clock) (batch : ℕ → ProbeResult) (tid : ℕ)
        → e' ≡ (renew_tunnel c env t batch tid e).1
        → Step e e'
    checks :
        (env : Runtime) (t : Clock) (batch : ℕ → ProbeResult) (tunnel : Tunnel)
        → e' ≡ (health_check c env t batch tunnel e).0
        → Step e e'
    reconciles : (now : ℕ) → e' ≡ record e { store = reconcile now e.store } → Step e e'
    refreshes :
        (env : Feeds) (source : SourceManifest) (s : Store)
        → All (Distinguishes env source) source.urls
        → refresh_source env c source e.store ≡ some s
        → e' ≡ record e { store = s }
        → Step e e'

  pub data Reach (start : Engine) : Engine → Type 0 where
    here : Reach start start
    next : {e e' : Engine} → Reach start e → Step e e' → Reach start e'

  Answered-Accounts :
      (env : Provision) (asked : NodeCount) (auto_renew : Bool) (e : Engine) (r : Reply × Engine)
      → Answered c env asked auto_renew e r
      → Accounts r.1.store
  Answered-Accounts env asked auto_renew e (error code, e') h = h.0
  Answered-Accounts env asked auto_renew e (made t, e') h = h.0

  ended :
      (stops : Control) (tid : ℕ) (e : Engine) (r : Option ApiError × Engine)
      → Accounts e.store
      → Deleted stops tid e r
      → Accounts r.1.store
  ended stops tid e (some code, e') a h = rw (h.2) a
  ended stops tid e (none, e') a h = h.1

  deleted-Accounts :
      (stops : Control) (tid : ℕ) (e : Engine)
      → Accounts e.store
      → Accounts (delete_tunnel_request stops tid e).1.store
  unfolding delete_tunnel_request
  deleted-Accounts stops tid e a = elim (Option-cases (get_tunnel tid e.store)) [
    | inl gone ↦ rw (gone, delete_tunnel_request) a
    | inr (t, there) ↦
        ended stops tid e (delete_tunnel_request stops tid e) a
          (delete_tunnel_request-Deleted stops tid e t a there)
  ]

  renewed-Accounts :
      (env : Runtime) (t : Clock) (batch : ℕ → ProbeResult) (tid : ℕ) (e : Engine)
      → Accounts e.store
      → Accounts (renew_tunnel c env t batch tid e).1.store
  unfolding renew_tunnel
  renewed-Accounts env t batch tid e a = elim (Option-cases (get_tunnel tid e.store)) [
    | inl gone ↦ rw (gone, renew_tunnel) a
    | inr (tunnel, there) ↦
        let checked = health_check-Accounts c env t batch tunnel e a in
        let (e', pass) = health_check c env t batch tunnel e in
        elim (Pass-cases pass) [
          | inl raised ↦ rw (there, renew_tunnel) (rw (raised, renew_tunnel) checked)
          | inr (swapped, added, fine) ↦ rw (there, renew_tunnel) (rw (fine, renew_tunnel) checked)
        ]
  ]

  refreshed-Accounts :
      (env : Feeds) (source : SourceManifest) (s s' : Store)
      → 0 < c.batch_size
      → All (Distinguishes env source) source.urls
      → refresh_source env c source s ≡ some s'
      → Accounts s
      → Accounts s'
  refreshed-Accounts env source s s' positive apart fine a =
      let done = refresh_source-Refreshed env c source s positive apart a in (rw fine at done).0

  module _ (range : c.tunnel_port_start ≤ c.tunnel_port_end) (positive : 0 < c.batch_size) where
    Step-Accounts : {e e' : Engine} → Step e e' → Accounts e.store → Accounts e'.store
    Step-Accounts {e} (creates env asked auto_renew new idle same) a = rw same (
        Answered-Accounts env asked auto_renew e _
          (create_tunnel-Answered c env asked auto_renew e a new idle range))
    Step-Accounts {e} (deletes stops tid same) a = rw same (deleted-Accounts stops tid e a)
    Step-Accounts {e} (renews env t batch tid same) a =
        rw same (renewed-Accounts env t batch tid e a)
    Step-Accounts {e} (checks env t batch tunnel same) a =
        rw same (health_check-Accounts c env t batch tunnel e a)
    Step-Accounts {e} (reconciles now same) a = rw same (reconcile-Accounts now e.store a)
    Step-Accounts {e} (refreshes env source s apart fine same) a =
        rw same (refreshed-Accounts env source e.store s positive apart fine a)

    -- Operations that run one after another, none overlapping another, keep the accounts in order,
    -- whichever they are and in whatever order they run: creations, deletions, renewals, health
    -- passes, reconciliations, and refreshes that return. After them every tunnel's
    -- node_count_granted is the number of nodes assigned to it, no id stands twice and no two tunnels
    -- share a port. This is so for a range of ports that is not empty, a positive batch size, fresh
    -- tunnel ids and feeds in which no two keys have one digest.
    pub Reach-Accounts :
        {start e : Engine} → Accounts start.store → Reach start e → Accounts e.store
    Reach-Accounts a here = a
    Reach-Accounts a (next r st) = Step-Accounts st (Reach-Accounts a r)
