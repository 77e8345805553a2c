-- ===== src/Db/Nodes.antt =====
-- engine/db.py, class Store: reading nodes, and assigning them to tunnels.
use infinity_proxy.Prelude.{
  ℕ, String, Bool, true, false, not, ◌&&◌, Option, none, some, List, [], ◌∷◌, map, ◌==◌, str_eq,
  if◌then◌else◌, select, update_where, find, any, count_where, take, Key, asc, desc, flag, nullable,
  is_some, holds, contains,
}
use infinity_proxy.Prelude.Sort.{sort_by}
use infinity_proxy.Models.{Node, NodeState, Protocol, same_protocol, same_state, state_rank, alive}
use infinity_proxy.Db.{Store, NodeRow}

pub data Order : Type 0 where
  by_default by_score by_latency by_throughput by_oldest : Order

-- The arguments of load_nodes. `like` is what SQLite's LIKE answers for the pattern on the server
-- and the id; an empty list of protocols is no filter.
pub record Query : Type 0 where
  pub state : Option NodeState
  pub protocols : List Protocol
  pub source : Option String
  pub limit : Option ℕ
  pub oldest_first : Bool
  pub like : Option (Node → Bool)
  pub in_use : Option Bool
  pub order_by_score : Bool
  pub order_by : Order

-- `load_nodes()` with every argument at its default
abbrev pub any_node : Query
any_node = record {
  state = none;
  protocols = [];
  source = none;
  limit = none;
  oldest_first = false;
  like = none;
  in_use = none;
  order_by_score = false;
  order_by = by_default;
}

abbrev pub of_protocols : List Protocol → Node → Bool
of_protocols [] n = true
of_protocols (p ∷ ps) n = any (λ q. same_protocol n.protocol q) (p ∷ ps)

abbrev pub passes {ℓ} : {A : Type ℓ} → Option A → (A → Bool) → Bool
passes none test = true
passes (some a) test = test a

-- the WHERE clause
unfoldable pub matches : Query → NodeRow → Bool
matches q r =
    passes q.state (λ st. same_state r.state st)
    && of_protocols q.protocols r.node
    && passes q.source (λ src. str_eq r.source src)
    && passes q.like (λ f. f r.node)
    && passes q.in_use (λ used. if used then is_some r.assigned_to else not (is_some r.assigned_to))

abbrev pub last_if_null : Option ℕ → Key
last_if_null o = asc (flag (not (is_some o)))

abbrev pub column_desc : Option ℕ → Key
column_desc o = desc (nullable o)

abbrev pub order_named : Order → NodeRow → List Key
order_named by_latency r = last_if_null r.last_latency_ms ∷ asc (nullable r.last_latency_ms) ∷ []
order_named by_throughput r = last_if_null r.throughput_kb_s ∷ column_desc r.throughput_kb_s ∷ []
order_named by_oldest r = asc r.first_seen_s ∷ asc r.node_id ∷ []
order_named by_score r =
    last_if_null r.score_f
    ∷ column_desc r.score_f
    ∷ asc (state_rank r.state)
    ∷ asc (nullable r.last_latency_ms)
    ∷ []
order_named by_default r = asc (state_rank r.state) ∷ asc (nullable r.last_latency_ms) ∷ []

-- the ladder that picks the ORDER BY clause
abbrev pub chosen_order : Query → Order
chosen_order q = if q.order_by_score then by_score else elim q.order_by [
  | by_latency ↦ by_latency
  | by_throughput ↦ by_throughput
  | _ ↦ if q.oldest_first then by_oldest else by_default
]

abbrev pub limited {ℓ} : {A : Type ℓ} → Option ℕ → List A → List A
limited none xs = xs
limited (some n) xs = take n xs

unfoldable pub load_nodes : Query → Store → List Node
load_nodes q s =
    map (λ r. r.node)
      (limited q.limit (sort_by (order_named (chosen_order q)) (select (matches q) s.nodes)))

unfoldable pub get_node : ℕ → Store → Option Node
get_node i s = elim (find (λ r. r.node_id == i) s.nodes) [ none ↦ none | some r ↦ some r.node ]

abbrev pub assign_row : Option ℕ → NodeRow → NodeRow
assign_row owner r = record r { assigned_to = owner }

-- one round of the executemany
unfoldable pub assign_one : ℕ → ℕ → List NodeRow → List NodeRow
assign_one tid i rows = update_where (λ r. r.node_id == i) (assign_row (some tid)) rows

unfoldable pub assign_each : List ℕ → ℕ → List NodeRow → List NodeRow
assign_each [] tid rows = rows
assign_each (i ∷ is) tid rows = assign_each is tid (assign_one tid i rows)

unfoldable pub assign_nodes : List ℕ → ℕ → Store → Store
unfolding assign_each
assign_nodes is tid s = record s { nodes = assign_each is tid s.nodes }

unfoldable pub unassign_node : ℕ → Store → Store
unassign_node i s = record s {
  nodes = update_where (λ r. r.node_id == i) (assign_row none) s.nodes;
}

-- the new store and cursor.rowcount
unfoldable pub release_tunnel : ℕ → Store → Store × ℕ
release_tunnel tid s = (
  record s { nodes = update_where (λ r. holds tid r.assigned_to) (assign_row none) s.nodes },
  count_where (λ r. holds tid r.assigned_to) s.nodes,
)

unfoldable pub node_ids_assigned_to : ℕ → Store → List ℕ
node_ids_assigned_to tid s = map (λ r. r.node_id) (select (λ r. holds tid r.assigned_to) s.nodes)

unfoldable pub node_ids_in_use : Store → List ℕ
node_ids_in_use s = map (λ r. r.node_id) (select (λ r. is_some r.assigned_to) s.nodes)

-- `COUNT` over the predicate that the assigner scans
unfoldable pub assignable_count : List Protocol → Store → ℕ
assignable_count ps s =
    count_where
      (λ r.
        same_state r.state alive
        && not (is_some r.assigned_to)
        && any (λ q. same_protocol r.protocol q) ps)
      s.nodes

-- SELECT DISTINCT assigned_to
unfoldable pub owners : List NodeRow → List ℕ
owners [] = []
owners (r ∷ rs) = elim r.assigned_to [
  | none ↦ owners rs
  | some tid ↦ let rest = owners rs in if contains tid rest then rest else tid ∷ rest
]

unfoldable pub assigned_tunnel_ids : Store → List ℕ
unfolding owners
assigned_tunnel_ids s = owners s.nodes
