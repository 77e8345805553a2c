-- ===== src/Examples/Requests.antt =====
-- Examples: requests, refreshes, rendering and containers, and the theorems about them.
use infinity_proxy.Prelude.{
  ℕ, ◌++◌, ◌≤◌, ◌≡◌, refl, arith, true, false, none, some, List, [], ◌∷◌, map, length,
}
use infinity_proxy.Prelude.Text.{starts_with, rpartition, partition, strip_prefix, remove_prefix}
use infinity_proxy.Prelude.Int.{ℤ, pos}
use infinity_proxy.Config.{default_settings}
use infinity_proxy.Models.{Node, ProbeResult, vless, http}
use infinity_proxy.Db.{get_tunnel}
use infinity_proxy.Db.Nodes.{get_node}
use infinity_proxy.Db.Grants.{Accounts}
use infinity_proxy.Db.Counts.{Floors}
use infinity_proxy.Db.Probes.{apply_probe_results}
use infinity_proxy.Scheduler.{completed, unreachable}
use infinity_proxy.Api.{Provision, delete_tunnel_request}
use infinity_proxy.Api.Requests.{Deleted, delete_tunnel_request-Deleted}
use infinity_proxy.System.{deletes, here, next, Reach-Accounts}
use infinity_proxy.Filter.{Probed, raised as probe_raised, batch_probe}
use infinity_proxy.Filter.Batches.{one_by_one, batch_probe-apply_probe_results}
use infinity_proxy.Render.{Library, Value, text, Outcome, ok, raised, value_error, Yields}
use infinity_proxy.Render.Address.{host_port, split_authority, dial_address}
use infinity_proxy.Render.Builders.{node_tag, outbound_from_node}
use infinity_proxy.Render.Config.{
  Entry, urltest, tag_of, interval_of, tags_or_block, render_config, render_config-closes,
}
use infinity_proxy.Render.Fits.{FitsAs, outbound_from_node-Fits}
use infinity_proxy.Render.Faults.{IsOrdinary, RefusesTexts, render_config-IsOrdinary}
use infinity_proxy.Container.{Daemon, found, fine, api_error, run_container}
use infinity_proxy.Container.Cleanup.{Rolled, run_container-Rolled}
use infinity_proxy.Pool.{Feeds, SourceManifest, source_by_name, admit_batch}
use infinity_proxy.Pool.Gate.{StateIs, admit_batch-StateIs}
use infinity_proxy.Refreshes.{
  Refresher, raised as raised_refresh, requested, launched, IsSingleFlight, mark_source,
  start_thread, request_source_refresh, refresh_worker, Turns-IsSingleFlight,
  refresh_worker-restarts, here as turns_here, next as turns_next,
}
use infinity_proxy.History.{Sample}
use infinity_proxy.Examples.{
  node, tunnel, pool, engine, secrets, bindable, pool-Accounts, no_answer,
}

abbrev int_text : Value → Outcome ℤ
int_text (text s) = ok (pos 443)
int_text _ = raised value_error

-- every URI is read as one address
abbrev pub library : Library
library = record {
  unquote = λ s. s;
  lower = λ s. s;
  strip = λ s. s;
  decimal = λ n. "5";
  hexadecimal = λ n. "1";
  urlparse = λ s.
      ok (record { netloc = "u@a.example:443"; query = ""; username = some "u"; password = none });
  parse_qs = λ q. [];
  b64decode = λ s. none;
  b64decode_urlsafe = λ s. none;
  loads = λ s. none;
  int = int_text;
  int_float = λ s. raised value_error;
}

abbrev request : Provision
request = record {
  bindable = bindable;
  now = 1_000;
  secrets = secrets;
  library = library;
  interval = some 30;
  starts = unreachable;
}

known : get_tunnel 7 pool ≡ some tunnel
unfolding get_tunnel
known = refl

delete_tunnel_request-Deleted_example :
    Deleted unreachable 7 engine (delete_tunnel_request unreachable 7 engine)
delete_tunnel_request-Deleted_example =
    delete_tunnel_request-Deleted unreachable 7 engine tunnel pool-Accounts known

Reach-Accounts_example : Accounts (delete_tunnel_request completed 7 engine).1.store
Reach-Accounts_example =
    Reach-Accounts default_settings (omega arith) (omega arith) pool-Accounts
      (next here (deletes completed 7 refl))

abbrev unreached : Node → Probed
unreached n = probe_raised "timeout"

batch_probe-apply_probe_results_example :
    let nodes = node 1 300 ∷ node 2 500 ∷ [] in
    batch_probe (apply_probe_results none 1_000) unreached 1 nodes pool
    ≡ some (
      one_by_one unreached nodes,
      apply_probe_results none 1_000 (one_by_one unreached nodes) pool,
    )
batch_probe-apply_probe_results_example =
    batch_probe-apply_probe_results none 1_000 1 unreached (node 1 300 ∷ node 2 500 ∷ []) pool
      (omega arith) (refl, (refl, tt))

-- the opening bracket of an IPv6 address stays on the host
bracket_kept : host_port library "u@[::1]:443" (some 80) ≡ ok ("[::1", pos 443)
unfolding host_port split_authority dial_address rpartition partition starts_with strip_prefix
    remove_prefix
bracket_kept = refl

render_config-closes_example :
    let members = tags_or_block (map (node_tag library) (node 1 300 ∷ [])) in
    Yields
      (λ c.
        (os : List Entry) × (c.outbounds
          ≡ os ++ urltest c.final members (interval_of library (some 30)) ∷ [])
        × (map tag_of os ≡ members)
        × (1 ≤ length members))
      (render_config library tunnel (node 1 300 ∷ []) (some 30))
render_config-closes_example = render_config-closes library tunnel (node 1 300 ∷ []) (some 30)

outbound_from_node-Fits_example :
    Yields (FitsAs vless (node_tag library (node 1 300))) (outbound_from_node library (node 1 300))
outbound_from_node-Fits_example = outbound_from_node-Fits library (node 1 300)

library-RefusesTexts : RefusesTexts library
library-RefusesTexts = record { urlparse_refuses = λ s. tt; int_refuses = λ s. tt }

render_config-IsOrdinary_example : IsOrdinary (render_config library tunnel (node 1 300 ∷ []) none)
render_config-IsOrdinary_example =
    render_config-IsOrdinary library library-RefusesTexts tunnel (node 1 300 ∷ []) none (refl, tt)

-- the daemon creates a container and refuses its configuration
abbrev daemon : Daemon
daemon = record {
  reachable = true;
  image = found "";
  pulls = fine;
  creates = fine;
  ships = api_error;
  starts = fine;
  container = λ name. found "running";
  removes = fine;
  restarts = fine;
  lists = fine;
  names = some "inf-7" ∷ some "inf-8" ∷ none ∷ [];
}

run_container-Rolled_example : Rolled daemon "inf-7" (run_container daemon "inf-7")
run_container-Rolled_example = run_container-Rolled daemon "inf-7"

abbrev source : SourceManifest
source = record { name = "feed"; urls = "https://feed.example" ∷ [] }

abbrev feeds : Feeds
feeds = record {
  library = library;
  digest = λ k. 5;
  fetch_text = λ url. some "b.example:80";
  parse_feed = λ body s. some (
      record {
        uri = "http://b.example:80";
        protocol = http;
        server = "b.example";
        port = 80;
        user = none;
        source = "feed";
      }
      ∷ []);
  probeable = λ n. true;
  probe = unreached;
  now = 2_000;
}

-- a live answer whose download is below the floor of 200
abbrev slow : ProbeResult
slow = record (no_answer 1) { alive = true; throughput_kb_s = some 20 }

there_1 : get_node 1 pool ≡ some (node 1 300)
unfolding get_node
there_1 = refl

admit_batch-StateIs_example :
    StateIs false 1
      (admit_batch library.decimal
        (λ n. true)
        (some default_settings)
        1_000
        ((1, slow) ∷ [])
        pool).nodes
admit_batch-StateIs_example =
    admit_batch-StateIs library.decimal (λ n. true) (some default_settings) 1_000 false 1
      (node 1 300) ((1, slow) ∷ []) pool there_1 refl ((λ same. refl), tt)

abbrev resting : Refresher
resting = record { store = pool; refreshing = []; starting = []; threads = [] }

-- a request that has marked its source, and cannot start its thread
abbrev marking : Refresher
marking = record { store = pool; refreshing = "feed" ∷ []; starting = "feed" ∷ []; threads = [] }

by_name : source_by_name (source ∷ []) "feed" ≡ some source
unfolding source_by_name
by_name = refl

marking_next : marking ≡ (mark_source (source ∷ []) "feed" resting).1
unfolding mark_source source_by_name
marking_next = refl

Turns-IsSingleFlight_example : IsSingleFlight (start_thread false "feed" marking).1
Turns-IsSingleFlight_example =
    Turns-IsSingleFlight (source ∷ []) {start = resting} (λ name. omega arith)
      (turns_next (turns_next turns_here (requested "feed" marking_next))
        (launched false "feed" refl refl))

refresh_worker-restarts_example :
    let r₁ = refresh_worker (source ∷ []) (λ src s. raised_refresh s) "feed" marking in
    let (answer, r₂) = request_source_refresh (source ∷ []) true "feed" r₁ in
    let (fault, r₃) = request_source_refresh (source ∷ []) false "feed" r₁ in
    (answer ≡ some true)
    × (r₂.threads ≡ "feed" ∷ r₁.threads)
    × (fault ≡ none)
    × (request_source_refresh (source ∷ []) true "feed" r₃ ≡ (some true, r₃))
refresh_worker-restarts_example =
    refresh_worker-restarts (source ∷ []) (λ src s. raised_refresh s) "feed" source true marking
      by_name

abbrev sample : ℕ → Sample ℕ
sample t = record { at = t; metrics = 1 }

abbrev floors : Floors
floors = record {
  min_probes = 6;
  min_avail = 400_000;
  max_age_s = some 21_600;
  working_set_size = some 256;
}
