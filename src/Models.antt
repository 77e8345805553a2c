-- ===== src/Models.antt =====
-- engine/models.py: the domain records. Times are whole seconds; ids are the numbers that their
-- hexadecimal texts spell.
use Prim.Native.String.{◌++◌}
use infinity_proxy.Prelude.{ℕ, String, Bool, true, false, Option, none, ltb, ◌==◌, or_else}

-- PROXY_PROTOCOLS
pub data Protocol : Type 0 where
  vless vmess ss ssr trojan tuic hysteria2 http socks5 : Protocol

abbrev pub tag : Protocol → ℕ
tag vless = 0
tag vmess = 1
tag ss = 2
tag ssr = 3
tag trojan = 4
tag tuic = 5
tag hysteria2 = 6
tag http = 7
tag socks5 = 8

abbrev pub same_protocol : Protocol → Protocol → Bool
same_protocol p q = tag p == tag q

-- NODE_STATES
pub data NodeState : Type 0 where
  untested alive dead : NodeState

-- the order of the texts, as ORDER BY state compares them
abbrev pub state_rank : NodeState → ℕ
state_rank alive = 0
state_rank dead = 1
state_rank untested = 2

abbrev pub same_state : NodeState → NodeState → Bool
same_state s t = state_rank s == state_rank t

-- TUNNEL_STATES
pub data TunnelState : Type 0 where
  starting running stopping stopped : TunnelState

abbrev pub is_stopped : TunnelState → Bool
is_stopped stopped = true
is_stopped _ = false

abbrev pub is_starting : TunnelState → Bool
is_starting starting = true
is_starting _ = false

pub record NodeCandidate : Type 0 where
  pub uri : String
  pub protocol : Protocol
  pub server : String
  pub port : ℕ
  pub user : Option String
  pub source : String

pub record Node : Type 0 where
  pub node_id : ℕ
  pub uri : String
  pub protocol : Protocol
  pub server : String
  pub port : ℕ
  pub user : Option String
  pub source : String
  pub first_seen_s : ℕ
  pub last_latency_ms : Option ℕ
  pub state : NodeState
  pub throughput_kb_s : Option ℕ
  pub throughput_measured_s : Option ℕ
  pub probe_ok : ℕ
  pub probe_total : ℕ
  pub window_started_s : Option ℕ
  pub last_probe_s : Option ℕ
  pub last_alive_s : Option ℕ
  pub score_f : Option ℕ
  pub last_error : Option String

pub record ProbeResult : Type 0 where
  pub node_id : ℕ
  pub alive : Bool
  pub latency_ms : Option ℕ
  pub error : Option String
  pub throughput_kb_s : Option ℕ

pub record Tunnel : Type 0 where
  pub tunnel_id : ℕ
  pub state : TunnelState
  pub port : ℕ
  pub username : String
  pub password : String
  pub node_count_requested : ℕ
  pub node_count_granted : ℕ
  pub auto_renew : Bool
  pub created_at_s : ℕ
  pub updated_at_s : ℕ

unfoldable pub degraded : Tunnel → Bool
degraded t = ltb t.node_count_granted t.node_count_requested

-- `str` of a port and `hashlib.sha1` cut to 16 hexadecimal digits are the standard library's.
module _ (decimal : ℕ → String) (digest : String → ℕ) where
  unfoldable pub identity_key : NodeCandidate → String
  identity_key c = c.server ++ (":" ++ (decimal c.port ++ (":" ++ or_else c.user "")))

  unfoldable pub from_candidate : ℕ → NodeCandidate → Node
  unfolding identity_key
  from_candidate now c = record {
    node_id = digest (identity_key c);
    uri = c.uri;
    protocol = c.protocol;
    server = c.server;
    port = c.port;
    user = c.user;
    source = c.source;
    first_seen_s = now;
    last_latency_ms = none;
    state = untested;
    throughput_kb_s = none;
    throughput_measured_s = none;
    probe_ok = 0;
    probe_total = 0;
    window_started_s = none;
    last_probe_s = none;
    last_alive_s = none;
    score_f = none;
    last_error = none;
  }
