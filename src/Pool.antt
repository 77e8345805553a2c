-- ===== src/Pool.antt =====
-- engine/pool.py: one refresh of a source. What the feeds hold and what the probes answer are
-- arguments, and a refresh reads one time.
pub mod Gate
pub mod Budget
pub mod Demote
pub mod Refresh
use infinity_proxy.Prelude.{
  ℕ, suc, ◌-◌, String, Bool, true, false, not, ◌&&◌, Option, none, some, List, [], ◌∷◌, ◌++◌, map,
  ltb, leb, length, if◌then◌else◌, any, str_eq, find,
}
use Prim.Native.String.{◌++◌ as ◌<>◌}
use infinity_proxy.Config.{Settings}
use infinity_proxy.Models.{
  Protocol, vless, trojan, ss, vmess, tuic, hysteria2, ssr, http, socks5, Node, NodeCandidate,
  ProbeResult, untested, alive, dead,
}
use infinity_proxy.Db.{Store, upsert_source, record_fetch}
use infinity_proxy.Db.Nodes.{Query, any_node, load_nodes, get_node}
use infinity_proxy.Db.Probes.{apply_probe_results}
use infinity_proxy.Db.Upsert.{upsert_candidates}
use infinity_proxy.Scheduler.Health.{verdict_mode}
use infinity_proxy.Render.{Library}
use infinity_proxy.Render.Builders.{renders}
use infinity_proxy.Scraper.{dedup}
use infinity_proxy.Filter.{Probed, batch_probe}

-- the fields of SourceManifest that a refresh reads
pub record SourceManifest : Type 0 where
  pub name : String
  pub urls : List String

unfoldable pub seed_sources : List SourceManifest → Store → Store
seed_sources [] s = s
seed_sources (source ∷ sources) s = seed_sources sources (upsert_source source.name source.name s)

unfoldable pub source_by_name : List SourceManifest → String → Option SourceManifest
source_by_name sources name = find (λ source. str_eq source.name name) sources

-- _PROBE_TIERS
abbrev pub probe_tiers : List (List Protocol)
probe_tiers =
    (vless ∷ trojan ∷ ss ∷ []) ∷ (vmess ∷ tuic ∷ hysteria2 ∷ ssr ∷ []) ∷ (http ∷ socks5 ∷ []) ∷ []

-- `replace(result, alive=False, error=…)`
abbrev pub rejected : String → ProbeResult → ProbeResult
rejected why res = record res { alive = false; error = some why }

abbrev pub floor_error : (ℕ → String) → ℕ → ℕ → String
floor_error decimal speed floor =
    "download " <> (decimal speed <> (" KiB/s below floor " <> (decimal floor <> " KiB/s")))

-- the three steps of the loop after the node is read; `none` is a caller without settings
unfoldable pub gate_result :
    (ℕ → String) → (Node → Bool) → Option Settings → Node → ProbeResult → ProbeResult
gate_result decimal takes c n res = if not (takes n) then rejected "unrenderable" res else elim c [
  | none ↦ res
  | some settings ↦ if not settings.throughput_enabled then res else elim res.throughput_kb_s [
    | none ↦ rejected "no usable download (failed throughput certification)" res
    | some speed ↦
        if ltb speed settings.throughput_min_kb_s
        then rejected (floor_error decimal speed settings.throughput_min_kb_s) res
        else res
  ]
]

unfoldable pub admit_one :
    (ℕ → String) → (Node → Bool) → Option Settings → Store → ℕ → ProbeResult → ProbeResult
admit_one decimal takes c s i res =
    if not res.alive
    then res
    else elim (get_node i s) [ none ↦ res | some n ↦ gate_result decimal takes c n res ]

abbrev pub admit_mode : Option Settings → Option (Option ℕ)
admit_mode none = none
admit_mode (some c) = verdict_mode c

-- the loop writes no store, so every node is read from the one at the start
unfoldable pub admit_batch :
    (ℕ → String) → (Node → Bool) → Option Settings → ℕ → List (ℕ × ProbeResult) → Store → Store
admit_batch decimal takes c now batch s =
    apply_probe_results (admit_mode c) now
      (map (λ e. (e.0, admit_one decimal takes c s e.0 e.1)) batch) s

-- the verdict that takes a node out of the alive set
abbrev pub unrenderable : ℕ → ProbeResult
unrenderable i = record {
  node_id = i;
  alive = false;
  latency_ms = none;
  error = some "unrenderable";
  throughput_kb_s = none;
}

-- the loop of demote_unrenderable, with the count
unfoldable pub demote_each : (Node → Bool) → ℕ → List Node → Store → Store × ℕ
demote_each serves now [] s = (s, 0)
demote_each serves now (n ∷ ns) s =
    let kept = demote_each serves now ns s in
    let (s', demoted) =
      demote_each serves now ns
        (apply_probe_results none now ((n.node_id, unrenderable n.node_id) ∷ []) s) in
    if serves n then kept else (s', suc demoted)

unfoldable pub demote_unrenderable : (Node → Bool) → (Node → Bool) → ℕ → Store → Store × ℕ
unfolding demote_each
demote_unrenderable takes probeable now s =
    demote_each (λ n. takes n && probeable n) now
      (load_nodes (record any_node { state = some alive }) s) s

-- the loop over the tiers, with its break
unfoldable pub gather_untested : ℕ → List (List Protocol) → List Node → Store → List Node
gather_untested budget [] found s = found
gather_untested budget (tier ∷ tiers) found s =
    let more =
      load_nodes
        (record any_node {
          state = some untested;
          protocols = tier;
          limit = some (budget - length found);
          oldest_first = true;
        })
        s in
    let rest = gather_untested budget tiers (found ++ more) s in
    if leb budget (length found) then found else rest

unfoldable pub retest_sample : ℕ → String → Store → List Node
retest_sample budget name s =
    load_nodes
      (record any_node {
        state = some dead;
        source = some name;
        limit = some budget;
        oldest_first = true;
      })
      s

unfoldable pub nodes_to_probe : Settings → SourceManifest → Store → List Node
unfolding gather_untested
nodes_to_probe c source s =
    gather_untested c.probe_budget_per_refresh probe_tiers [] s
    ++ retest_sample c.dead_retest_budget source.name s

-- what a refresh asks of the world
pub record Feeds : Type 0 where
  pub library : Library
  pub digest : String → ℕ
  pub fetch_text : String → Option String
  pub parse_feed : String → SourceManifest → Option (List NodeCandidate)
  pub probeable : Node → Bool
  pub probe : Node → Probed
  pub now : ℕ

-- `none` is the ValueError of a batch size below 1
unfoldable pub probe_nodes : Feeds → Settings → List Node → Store → Option Store
probe_nodes env c [] s = some s
probe_nodes env c (n ∷ ns) s =
    elim (batch_probe (admit_batch env.library.decimal (renders env.library) (some c) env.now)
      env.probe c.batch_size (n ∷ ns) s) [ none ↦ none | some (results, s') ↦ some s' ]

unfoldable pub probe_new : Feeds → Settings → SourceManifest → Store → Option Store
unfolding probe_nodes
probe_new env c source s = probe_nodes env c (nodes_to_probe c source s) s

-- `none` is an IntegrityError
unfoldable pub store_candidates : Feeds → List NodeCandidate → Store → Option Store
store_candidates env [] s = some s
store_candidates env (c ∷ cs) s =
    let unique = dedup env.library.decimal env.digest (c ∷ cs) in
    let (s', answer) = upsert_candidates env.library.decimal env.digest env.now unique s in
    elim answer [ none ↦ none | some new ↦ some s' ]

-- one URL of the source
unfoldable pub read_feed : Feeds → SourceManifest → String → Store → Option Store
read_feed env source url s = elim (env.fetch_text url) [
  | none ↦ some s
  | some text ↦ elim (env.parse_feed text source) [
    | none ↦ none
    | some candidates ↦ store_candidates env candidates s
  ]
]

unfoldable pub read_feeds : Feeds → SourceManifest → List String → Store → Option Store
read_feeds env source [] s = some s
read_feeds env source (url ∷ urls) s = elim (read_feed env source url s) [
  | none ↦ none
  | some s' ↦ read_feeds env source urls s'
]

unfoldable pub refresh_source : Feeds → Settings → SourceManifest → Store → Option Store
refresh_source env c source s =
    let (swept, demoted) =
      demote_unrenderable (renders env.library) env.probeable env.now
        (upsert_source source.name source.name s) in
    elim (read_feeds env source source.urls swept) [
      | none ↦ none
      | some read ↦ elim (probe_new env c source read) [
        | none ↦ none
        | some probed ↦ some (record_fetch source.name env.now probed)
      ]
    ]
