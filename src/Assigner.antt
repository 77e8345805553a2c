-- ===== src/Assigner.antt =====
-- engine/assigner.py: exclusive node assignment, ports and tunnel creation. `bindable` is what the
-- operating system answers to a bind of a port; random names are arguments.
pub mod Ports
pub mod Exclusive
pub mod Books
pub mod Create
use infinity_proxy.Prelude.{
  ℕ, zero, suc, ◌-◌, String, Bool, true, false, not, ◌&&◌, Option, none, some, List, [], ◌∷◌, map,
  ltb, leb, ◌==◌, if◌then◌else◌, select, length, take, contains, is_some, or_else, Key, asc, desc,
  flag,
}
use infinity_proxy.Prelude.Sort.{sort_by}
use infinity_proxy.Config.{Settings, tunnel_ports, policy}
use infinity_proxy.Models.{Node, Tunnel, Protocol, alive, starting}
use infinity_proxy.Stability.{score_nodes}
use infinity_proxy.Db.{Store, save_tunnel, get_tunnel, port_in_use}
use infinity_proxy.Db.Nodes
use infinity_proxy.Db.Nodes.{Query, any_node, load_nodes, node_ids_in_use, assign_nodes}

unfoldable pub best_key : Node → List Key
best_key n =
    asc (flag (not (is_some n.throughput_kb_s)))
    ∷ desc (or_else n.throughput_kb_s 0)
    ∷ asc (flag (not (is_some n.last_latency_ms)))
    ∷ []

unfoldable pub prefer_best : List Node → List Node
prefer_best nodes = sort_by best_key nodes

abbrev pub usable : (ℕ → Bool) → Store → ℕ → Bool
usable bindable s port = not (port_in_use port s) && bindable port

unfoldable pub first_usable : (ℕ → Bool) → Store → List ℕ → Option ℕ
first_usable bindable s [] = none
first_usable bindable s (port ∷ ports) =
    if usable bindable s port then some port else first_usable bindable s ports

-- `none` is PortExhausted, or the ValueError of the range.
unfoldable pub allocate_port : Settings → (ℕ → Bool) → Store → Option ℕ
allocate_port c bindable s = elim (tunnel_ports c) [
  | none ↦ none
  | some ports ↦ first_usable bindable s ports
]

abbrev pub alive_query : List Protocol → Query
alive_query protocols = record any_node { state = some alive; protocols = protocols }

unfoldable pub unused_nodes : List Protocol → Store → List Node
unused_nodes protocols s =
    let in_use = node_ids_in_use s in
    select (λ n. not (contains n.node_id in_use)) (load_nodes (alive_query protocols) s)

unfoldable pub free_nodes : Settings → ℕ → List Protocol → Store → List Node
free_nodes c now protocols s =
    let nodes = unused_nodes protocols s in
    if c.stability_enabled then score_nodes (policy c) now nodes else prefer_best nodes

abbrev pub node_ids : List Node → List ℕ
node_ids = map (λ n. n.node_id)

unfoldable pub assign_new : Settings → ℕ → ℕ → ℕ → List Protocol → Store → List Node × Store
assign_new c now tid requested protocols s =
    if requested == 0
    then ([], s)
    else let granted = take requested (free_nodes c now protocols s) in
      (granted, assign_nodes (node_ids granted) tid s)

unfoldable pub top_up : Settings → ℕ → ℕ → ℕ → List Protocol → Store → List Node × Store
top_up c now tid target protocols s = elim (get_tunnel tid s) [
  | none ↦ ([], s)
  | some t ↦
      if leb target t.node_count_granted
      then ([], s)
      else let added = take (target - t.node_count_granted) (free_nodes c now protocols s) in
        (added, assign_nodes (node_ids added) tid s)
]

-- Saving a row that was just read: `none` would be an IntegrityError.
abbrev pub reset_granted : ℕ → Store → Option Store
reset_granted tid s = elim (get_tunnel tid s) [
  | none ↦ some s
  | some t ↦
      if t.node_count_granted == 0
      then some s
      else save_tunnel (record t { node_count_granted = 0 }) s
]

unfoldable pub release_tunnel : ℕ → Store → Option (ℕ × Store)
release_tunnel tid s =
    let (s', freed) = Nodes.release_tunnel tid s in
    elim (reset_granted tid s') [ none ↦ none | some s'' ↦ some (freed, s'') ]

-- what create_tunnel_config may come to: PortExhausted, an IntegrityError from the save, a tunnel
pub data Creation : Type 0 where
  port_exhausted : Creation
  integrity_error : Store → Creation
  created : Tunnel → List Node → Store → Creation

abbrev pub new_tunnel : ℕ → ℕ → ℕ → String → String → ℕ → ℕ → Bool → Tunnel
new_tunnel now tid port user password requested granted auto_renew = record {
  tunnel_id = tid;
  state = starting;
  port = port;
  username = user;
  password = password;
  node_count_requested = requested;
  node_count_granted = granted;
  auto_renew = auto_renew;
  created_at_s = now;
  updated_at_s = now;
}

-- the names that the `secrets` module draws
pub record Secrets : Type 0 where
  pub tunnel_id : ℕ
  pub username : String
  pub password : String

unfoldable pub create_tunnel_config :
    Settings → (ℕ → Bool) → ℕ → Secrets → ℕ → Bool → List Protocol → Store → Creation
create_tunnel_config c bindable now names requested auto_renew protocols s =
    elim (allocate_port c bindable s) [
      | none ↦ port_exhausted
      | some port ↦
          let (nodes, s') = assign_new c now names.tunnel_id requested protocols s in
          let t =
            new_tunnel now names.tunnel_id port names.username names.password requested
              (length nodes) auto_renew in
          elim (save_tunnel t s') [ none ↦ integrity_error s' | some s'' ↦ created t nodes s'' ]
    ]
