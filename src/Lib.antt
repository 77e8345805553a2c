-- ===== src/Lib.antt =====
-- InfinityProxy: a pool of scraped proxy nodes, probed and scored by an engine that assigns them to
-- tunnels, and a control center that lends the tunnels to tenants against credits.
--
-- The engine (engine/) keeps nodes and tunnels in one SQLite store. A creation takes a free port and
-- free nodes; a health pass probes a tunnel's nodes, swaps out those that keep failing, fills the
-- tunnel up again and rolls its container. The control center (tenancy/) has its own store of
-- tenants, ledger, leases and reservations, meters tenants on every request, and calls the engine
-- over HTTP.
--
-- Prelude: Boolean tests, tables as lists of rows, sort keys, dictionaries and integers.
-- Models: engine/models.py. Config: engine/config.py, the settings that the modelled code reads.
-- Stability: engine/stability.py, with the root and the Wilson bound in the modules below it.
-- Db: engine/db.py, class Store. Db is the tables, tunnels and sources; Db/Nodes load_nodes and the
--   assignment of nodes; Db/Probes apply_probe_results; Db/Upsert upsert_candidates; Db/Counts
--   pool_counts; the other
--   modules below it are about the accounts of the store.
-- Assigner: engine/assigner.py. Scheduler: engine/scheduler.py, class Engine, with the health pass
--   in Scheduler/Health and the reconciliation at boot in Scheduler/Reconcile.
-- Api: engine/app.py, the handlers that create, delete and renew tunnels.
-- Filter: engine/filter/runner.py. Scraper: engine/scraper/dedup.py, and engine/scraper/parse.py in
--   Scraper/Parse. Pool: engine/pool.py, with the gate, the budget, the sweep and the refresh in the
--   modules below it.
-- Wire: the sockets of engine/filter/probe.py, with Wire/Stream and Wire/Exact on exact reads.
-- Probe: engine/filter/probe.py, the gate; Probe/Http the status line, Probe/Challenge what is sent,
--   Probe/Judge vless and trojan, Probe/Shadow Shadowsocks, Probe/Forward the forward proxies,
--   Probe/Dial the memo of refused dials, Probe/Run the function probe.
-- Render: engine/tunnel/config.py, the data; Render/Query, Render/Address, Render/Shadowsocks,
--   Render/Vmess and Render/Builders are the readers of URIs, Render/Config the configuration.
-- Container: engine/tunnel/container.py, as the calls that it makes to the Docker daemon.
-- Host: engine/host.py, the measures and the pick, and its calls of the agent in Host/Agent.
-- Refreshes: request_source_refresh of engine/scheduler.py, its thread, and the source loop beside it.
-- History: panel/history.py.
-- System: the handlers, passes and refreshes of the engine, run one after another.
-- Tenancy: tenancy/models.py and tenancy/store.py, Tenancy/Leases the reservations of the store,
--   Tenancy/Meter and Tenancy/Metered its meter and tenancy/billing.py, Tenancy/Handlers, Tenancy/Provision and
--   Tenancy/Admin the handlers of tenancy/app.py with the projection of tenancy/engine.py.
-- Examples, with Requests, Probes, Feeds, Hosts and Board below it: concrete stores and sockets on which the
--   theorems are applied.
--
-- The accounts of the engine's store are in order (Db/Grants, Accounts) when tunnel ids, ports and
-- node ids are distinct and every tunnel's node_count_granted is the number of nodes assigned to it.
--
-- A table is the list of its rows in the order of insertion, and a statement a function on it; an
-- IntegrityError is `none` or a flag, with what was written before it kept. A handler, pass
-- or refresh of the engine runs to its end with no other between its statements, which the engine
-- does not enforce, since the lock of its store covers one statement. In the control center, what
-- other workers commit between two steps of a request is an argument. Ids and keys are natural numbers, times whole seconds, credits, scores and availabilities whole
-- millionths, and a square root is rounded down, so rounding of floating point is not modelled.
-- A socket is the list of what the peer does, in order: a segment of bytes, a close, or a read that
-- fails, a timeout included, so that no deadline is counted; what was written is kept beside it.
-- Sorting is a stable insertion sort; SQL leaves the order of ties open. The root's
-- fuel is the number itself, which has more digits than rounds are made, and that of a loop of reads
-- the bytes it needs, or those the peer has left, since every round reads one at least. That of
-- the legacy Shadowsocks form is the length of its text, which decoding shortens. The other loops
-- are structural.
--
-- Arguments stand for what is outside: the answers of Docker, probe results, the clock, random
-- names, LIKE, sha1, urllib, base64, json, int and float, the bind of a port, TLS, the ciphers and
-- digests of a probe, and the engine as the control center sees it. A health pass takes
-- whether its nodes render as an argument too, and a refresh what parsing the feeds comes to, an
-- exception included.
--
-- Not modelled: the texts of a probe's errors, the fetching of feeds, operating-system control, web
-- pages, the overlap of the engine's handlers, and when the loops of the scheduler run; the grouping
-- of the pool by protocol, the status of the host, and the engine's listings.
pub mod Prelude
pub mod Models
pub mod Stability
pub mod Config
pub mod Db
pub mod Assigner
pub mod Scheduler
pub mod Tenancy
pub mod Api
pub mod Filter
pub mod Scraper
pub mod Pool
pub mod Render
pub mod Container
pub mod Wire
pub mod Host
pub mod Probe
pub mod History
pub mod Refreshes
pub mod System
pub mod Examples
