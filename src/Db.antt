-- ===== src/Db.antt =====
-- engine/db.py, class Store: the three tables and the statements over tunnels and sources. The
-- statements over nodes are in the modules below, with the proofs. A table is the list of its rows
-- in the order of insertion; `now` stands for time.time().
pub mod Nodes
pub mod Probes
pub mod Upsert
pub mod Ownership
pub mod Grants
pub mod Slots
pub mod Release
pub mod Counters
pub mod Feeds
pub mod Counts
use infinity_proxy.Prelude.{
  ℕ, String, Bool, true, false, not, ◌&&◌, Option, none, some, List, [], ◌∷◌, ◌++◌, map, ◌==◌,
  str_eq, if◌then◌else◌, select, delete_where, update_where, find, any, length, count_where, Key,
  asc,
}
use infinity_proxy.Prelude.Sort.{sort_by}
use infinity_proxy.Models.{Node, Tunnel, TunnelState, is_stopped}

-- a row of `nodes`; NULL counters are read as 0 wherever the code reads them
pub record NodeRow : Type 0 where
  pub node : Node
  pub open node use *
  pub assigned_to : Option ℕ

pub record SourceRow : Type 0 where
  pub name : String
  pub name_scm : String
  pub last_fetch_s : Option ℕ

pub record Store : Type 0 where
  pub tunnels : List Tunnel
  pub nodes : List NodeRow
  pub sources : List SourceRow

abbrev pub empty : Store
empty = record { tunnels = []; nodes = []; sources = [] }

-- `none` is the IntegrityError of the UNIQUE port, after which nothing is written.
unfoldable pub save_tunnel : Tunnel → Store → Option Store
save_tunnel t s =
    if any (λ u. u.port == t.port && not (u.tunnel_id == t.tunnel_id)) s.tunnels
    then none
    else some (record s {
      tunnels =
          if any (λ u. u.tunnel_id == t.tunnel_id) s.tunnels
          then update_where (λ u. u.tunnel_id == t.tunnel_id) (λ u. t) s.tunnels
          else s.tunnels ++ t ∷ [];
    })

unfoldable pub load_tunnels : Store → List Tunnel
load_tunnels s = sort_by (λ t. asc t.created_at_s ∷ []) s.tunnels

unfoldable pub get_tunnel : ℕ → Store → Option Tunnel
get_tunnel i s = find (λ t. t.tunnel_id == i) s.tunnels

unfoldable pub delete_tunnel : ℕ → Store → Store
delete_tunnel i s = record s { tunnels = delete_where (λ t. t.tunnel_id == i) s.tunnels }

unfoldable pub set_tunnel_state : ℕ → TunnelState → ℕ → Store → Store
set_tunnel_state i st now s = record s {
  tunnels =
      update_where (λ t. t.tunnel_id == i) (λ t. record t { state = st; updated_at_s = now })
        s.tunnels;
}

unfoldable pub tunnel_count : Store → ℕ
tunnel_count s = length s.tunnels

unfoldable pub port_in_use : ℕ → Store → Bool
port_in_use p s = any (λ t. t.port == p) s.tunnels

unfoldable pub tunnels_summary : Bool → Store → ℕ
tunnels_summary active s =
    if active
    then count_where (λ t. not (is_stopped t.state)) s.tunnels
    else count_where (λ t. is_stopped t.state) s.tunnels

unfoldable pub upsert_source : String → String → Store → Store
upsert_source name scm s = record s {
  sources =
      if any (λ r. str_eq r.name name) s.sources
      then update_where (λ r. str_eq r.name name) (λ r. record r { name_scm = scm }) s.sources
      else s.sources ++ record { name = name; name_scm = scm; last_fetch_s = none } ∷ [];
}

unfoldable pub record_fetch : String → ℕ → Store → Store
record_fetch name at s = record s {
  sources =
      update_where (λ r. str_eq r.name name) (λ r. record r { last_fetch_s = some at }) s.sources;
}
