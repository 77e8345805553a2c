-- ===== src/Examples.antt =====
-- Examples: a pool with one tunnel, and the theorems about the engine on it.
mod Board
mod Requests
mod Hosts
mod Feeds
mod Probes
use infinity_proxy.Scheduler.Reconcile.{reconcile, reconcile-no_orphans}
use infinity_proxy.Db.Ownership.{owned}
use infinity_proxy.Prelude.Dict.{get, put}
use infinity_proxy.Db.Counters.{IsCounted, apply_probe_results-IsCounted}
use infinity_proxy.Db.Feeds.{new_of, upsert_nodes-Unique}
use infinity_proxy.Scheduler.Window.{events_in_window-recent}
use infinity_proxy.Prelude.{
  ℕ, ltb, length, List, Unique, ◌+◌, ◌-◌, ◌*◌, ◌≤◌, ◌<◌, ◌≡◌, refl, arith, Bool, true, false, not,
  ◌&&◌, none, some, [], ◌∷◌, contains, ◌==◌, delete_where, All,
}
use infinity_proxy.Prelude.Int.{pos, ◌-ℤ◌, ◌≤ℤ◌}
use mathlib.Core.Option.{map as Option_map}
use infinity_proxy.Config.{default_settings}
use infinity_proxy.Models.{Node, Tunnel, ProbeResult, vless, alive, running}
use infinity_proxy.Stability.{percentile, wilson_lower, unit}
use infinity_proxy.Stability.Ranking.{percentile_bounds}
use infinity_proxy.Stability.Wilson.{wilson_lower-le-share, wilson_lower-lt-unit}
use infinity_proxy.Db.{Store, get_tunnel, delete_tunnel}
use infinity_proxy.Db.Ownership.{ids}
use infinity_proxy.Db.Grants.{HasKeys, Accounts}
use infinity_proxy.Db.Release.{delete_tunnel-Accounts}
use infinity_proxy.Db.Upsert.{upsert_nodes, existing_ids, contains-existing_ids}
use infinity_proxy.Db.Probes.{apply_probe_results}
use infinity_proxy.Db.Slots.{slots, slots-apply_probe_results}
use infinity_proxy.Assigner.{Secrets, assign_new, top_up, release_tunnel}
use infinity_proxy.Assigner.Exclusive.{IsGrant, room_of, assign_new-IsGrant, top_up-IsGrant}
use infinity_proxy.Assigner.Create.{Released, release_tunnel-Released}
use infinity_proxy.Scheduler.{completed, events_in_window, Engine, Runtime, boot}
use infinity_proxy.Scheduler.Health.{Clock, health_check, after_provision, apply_health_verdicts}
use infinity_proxy.Scheduler.Accounts.{apply_health_verdicts-Accounts}
use infinity_proxy.Scheduler.Passes.{health_check-Accounts, after_provision-Accounts}
use infinity_proxy.Tenancy.{TenantsStore, Tenant, active, disabled, get_tenant}
use infinity_proxy.Tenancy.Leases.{slots_taken, complete_reservation, tunnels_of}
use infinity_proxy.Tenancy.Meter.{affordable, drain}
use infinity_proxy.Tenancy.Handlers.{
  TenancySettings, EngineRow, deleted, failed, auth_tenant, shaped_tunnels,
}
use infinity_proxy.Tenancy.Provision.{World, count, tunnel_row, is_gone, create_tenant_tunnel}
use infinity_proxy.Tenancy.Admin.{auth_admin, admin_disable, tenant_row}
use infinity_proxy.Tenancy.Slots.{WithinCap, Completed, complete_reservation-FewerSlots}
use infinity_proxy.Tenancy.Cap.{create_tenant_tunnel-WithinCap}
use infinity_proxy.Tenancy.Charge.{balance, drain-poll, affordable_bounds}
use infinity_proxy.Tenancy.Cleanup.{admin_disable-pending}
use infinity_proxy.Tenancy.Access.{Admitted, auth_tenant-Admitted, shaped_tunnels-scope}

abbrev pub node : ℕ → ℕ → Node
node i kb = record {
  node_id = i;
  uri = "vless://a";
  protocol = vless;
  server = "a.example";
  port = 443;
  user = none;
  source = "feed";
  first_seen_s = 0;
  last_latency_ms = some 80;
  state = alive;
  throughput_kb_s = some kb;
  throughput_measured_s = some 900;
  probe_ok = 9;
  probe_total = 10;
  window_started_s = some 500;
  last_probe_s = some 900;
  last_alive_s = some 900;
  score_f = none;
  last_error = none;
}

abbrev pub tunnel : Tunnel
tunnel = record {
  tunnel_id = 7;
  state = running;
  port = 10_000;
  username = "u";
  password = "p";
  node_count_requested = 2;
  node_count_granted = 1;
  auto_renew = true;
  created_at_s = 0;
  updated_at_s = 0;
}

-- node 1 belongs to tunnel 7, node 2 to nobody
abbrev pub pool : Store
pool = record {
  tunnels = tunnel ∷ [];
  nodes =
      record { node = node 1 300; assigned_to = some 7 }
      ∷ record { node = node 2 500; assigned_to = none }
      ∷ [];
  sources = [];
}

pool-HasKeys : HasKeys pool
pool-HasKeys = record {
  tunnel_keys = (refl, tt);
  port_keys = (refl, tt);
  node_keys = (refl, (refl, tt));
}

pub pool-Accounts : Accounts pool
pool-Accounts = record { keys = pool-HasKeys; balanced = (refl, tt) }

abbrev pub answers : Runtime
answers = record {
  renders = λ nodes. true;
  updates = completed;
  heals = completed;
  is_running = some true;
}

abbrev pub clock : Clock
clock = record { started = 1_000; probed = 1_001; judged = 1_002; scored = 1_003 }

abbrev pub no_answer : ℕ → ProbeResult
no_answer i = record {
  node_id = i;
  alive = false;
  latency_ms = none;
  error = some "timeout";
  throughput_kb_s = none;
}

-- two misses are the limit, and one has been counted
abbrev pub engine : Engine
engine = record (boot pool) { strikes = record { tunnel = 7; node = 1; misses = 1 } ∷ [] }

health_check-Accounts_example :
    Accounts (health_check default_settings answers clock no_answer tunnel engine).0.store
health_check-Accounts_example =
    health_check-Accounts default_settings answers clock no_answer tunnel engine pool-Accounts

abbrev pub secrets : Secrets
secrets = record { tunnel_id = 8; username = "v"; password = "q" }

-- every port but 10001 can be bound
abbrev pub bindable : ℕ → Bool
bindable p = not (p == 10_001)

pub new_id : get_tunnel 8 pool ≡ none
unfolding get_tunnel
new_id = refl

release_tunnel-Released_example : Released 7 pool (release_tunnel 7 pool)
release_tunnel-Released_example = release_tunnel-Released 7 pool pool-Accounts

assign_new-IsGrant_example :
    let (granted, s') = assign_new default_settings 1_000 8 3 (vless ∷ []) pool in
    IsGrant 3 8 pool granted s'
assign_new-IsGrant_example =
    assign_new-IsGrant default_settings 1_000 8 3 (vless ∷ []) pool pool-HasKeys.node_keys

top_up-IsGrant_example :
    let (added, s') = top_up default_settings 1_000 7 2 (vless ∷ []) pool in
    IsGrant (room_of 2 (get_tunnel 7 pool)) 7 pool added s'
top_up-IsGrant_example =
    top_up-IsGrant default_settings 1_000 7 2 (vless ∷ []) pool pool-HasKeys.node_keys

node-IsCounted : All IsCounted pool.nodes
node-IsCounted = ((omega arith, tt), ((omega arith, tt), tt))

apply_probe_results-IsCounted_example :
    All IsCounted (apply_probe_results (some (some 60)) 1_000 ((1, no_answer 1) ∷ []) pool).nodes
apply_probe_results-IsCounted_example =
    apply_probe_results-IsCounted (some (some 60)) 1_000 ((1, no_answer 1) ∷ []) pool node-IsCounted

-- node 2 is known, node 3 is new
upsert_nodes-Unique_example :
    let (s', answer) = upsert_nodes (node 3 100 ∷ node 2 100 ∷ []) pool in
    let new = length (new_of pool.nodes (node 3 100 ∷ node 2 100 ∷ [])) in
    (answer ≡ some new) × Unique (ids s'.nodes) × (length s'.nodes ≡ length pool.nodes + new)
upsert_nodes-Unique_example =
    upsert_nodes-Unique (node 3 100 ∷ node 2 100 ∷ []) pool pool-HasKeys.node_keys
      (refl, (refl, tt))

abbrev times : List ℕ
times = 5 ∷ 90_000 ∷ 95_000 ∷ []

abbrev events : List (ℕ × List ℕ)
events = (7, times) ∷ []

events_there : get 7 events ≡ some times
unfolding get
events_there = refl

-- node 1 points at tunnel 7, whose row is gone
abbrev lost : Store
lost = record pool { tunnels = [] }

lost-Accounts : Accounts lost
lost-Accounts = record {
  keys = record { tunnel_keys = tt; port_keys = tt; node_keys = pool-HasKeys.node_keys };
  balanced = tt;
}

reconcile-no_orphans_example :
    (owned 7 (reconcile 1_000 lost).nodes ≡ 0) × Accounts (reconcile 1_000 lost)
reconcile-no_orphans_example = reconcile-no_orphans 1_000 7 lost lost-Accounts refl
