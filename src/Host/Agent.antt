-- ===== src/Host/Agent.antt =====
-- The calls of engine/host.py to the host agent, and the tunnel that an endpoint names.
pub mod Endpoint
use Prim.Native.String.{◌++◌}
use infinity_proxy.Prelude.{
  ℕ, ◌≡◌, refl, String, Bool, true, false, ◌&&◌, not, Option, none, some, is_some, List, [], ◌∷◌,
  leb, ◌==◌, or_else, if◌then◌else◌,
}
use infinity_proxy.Prelude.Text.{rpartition, is_text}
use infinity_proxy.Models.{Tunnel}
use infinity_proxy.Host.{Kept, Reading, up_tunnels, Controller}
use infinity_proxy.Prelude.Dict.{get}

-- what requests answers: it raises, or a response whose body may be no JSON; the error of the body
-- has a code if it names one
pub data AgentReply (P : Type 0) : Type 0 where
  unreachable : AgentReply P
  no_json : ℕ → AgentReply P
  answered : ℕ → Option String → P → AgentReply P

-- HostAgentError, by its status and code
pub data AgentResult (P : Type 0) : Type 0 where
  refused : ℕ → String → AgentResult P
  given : P → AgentResult P

-- _agent
unfoldable pub agent : {P : Type 0} → AgentReply P → AgentResult P
agent unreachable = refused 502 "hostagent_unreachable"
agent (no_json status) = refused 502 "host_unsupported"
agent (answered status code payload) =
    if leb 400 status then refused status (or_else code "host_unsupported") else given payload

-- what is posted
pub record Body : Type 0 where
  pub enabled : Bool
  pub endpoint : Option String
  pub login : Option (String × String)

-- `"127.0.0.1:{port}"`; printing a number is the library's
abbrev pub endpoint_text : (ℕ → String) → ℕ → String
endpoint_text decimal port = "127.0.0.1:" ++ decimal port

-- the body of a call that enables, if there is a tunnel with a port
abbrev pub endpoint_for : (ℕ → String) → Option Tunnel → Option (Tunnel × String)
endpoint_for decimal none = none
endpoint_for decimal (some t) = if t.port == 0 then none else some (t, endpoint_text decimal t.port)

abbrev pub proxy_body : Tunnel × String → Body
proxy_body (t, endpoint) = record { enabled = true; endpoint = some endpoint; login = none }

abbrev pub tun_body : Tunnel × String → Body
tun_body (t, endpoint) = record {
  enabled = true;
  endpoint = some endpoint;
  login = some (t.username, t.password);
}

abbrev pub off_body : Body
off_body = record { enabled = false; endpoint = none; login = none }

-- the calls made, the agent's answer and the tunnel that is named with it
abbrev pub Switched : Type 0 → Type 0
Switched P = List Body × AgentResult (P × Option ℕ)

abbrev pub named : {P : Type 0} → Option ℕ → AgentResult P → AgentResult (P × Option ℕ)
named tid (refused status code) = refused status code
named tid (given payload) = given (payload, tid)

abbrev pub post : {P : Type 0} → (Body → AgentReply P) → Option ℕ → Body → Switched P
post reply tid body = (body ∷ [], named tid (agent (reply body)))

abbrev pub switch_on :
    {P : Type 0}
    → (Body → AgentReply P)
    → (Tunnel × String → Body)
    → Option (Tunnel × String)
    → Switched P
switch_on reply body_of none = ([], refused 409 "host_target_unavailable")
switch_on reply body_of (some (t, endpoint)) = post reply (some t.tunnel_id) (body_of (t, endpoint))

unfoldable pub set_proxy :
    {P : Type 0} → (ℕ → String) → (Body → AgentReply P) → Bool → Option Tunnel → Switched P
set_proxy decimal reply true t = switch_on reply proxy_body (endpoint_for decimal t)
set_proxy decimal reply false t = post reply none off_body

unfoldable pub set_tun :
    {P : Type 0} → (ℕ → String) → (Body → AgentReply P) → Bool → Option Tunnel → Switched P
set_tun decimal reply true t = switch_on reply tun_body (endpoint_for decimal t)
set_tun decimal reply false t = post reply none off_body

-- _endpoint_port; `int` is the library's
unfoldable pub endpoint_port : (String → Option ℕ) → Option String → Option ℕ
endpoint_port int none = none
endpoint_port int (some endpoint) =
    let (_, _, port) = rpartition b':' endpoint in if is_text endpoint then int port else none

abbrev pub tunnel_at : ℕ → List Tunnel → Option ℕ
tunnel_at port [] = none
tunnel_at port (t ∷ ts) =
    let rest = tunnel_at port ts in if t.port == port then some t.tunnel_id else rest

abbrev pub tunnel_if : Option ℕ → List Tunnel → Option ℕ
tunnel_if none ts = none
tunnel_if (some port) ts = tunnel_at port (up_tunnels ts)

-- _endpoint_tunnel: the state is whether it is enabled, and its endpoint
unfoldable pub endpoint_tunnel :
    (String → Option ℕ) → Option (Bool × Option String) → List Tunnel → Option ℕ
endpoint_tunnel int none ts = none
endpoint_tunnel int (some (enabled, endpoint)) ts =
    if enabled then tunnel_if (endpoint_port int endpoint) ts else none

pub record Candidate : Type 0 where
  pub id : ℕ
  pub port : ℕ
  pub username : String
  pub reading : Option Reading

abbrev pub reading_in : Option Kept → Option Reading
reading_in none = none
reading_in (some kept) = some kept.reading

abbrev pub candidates_from : Controller → List Tunnel → List Candidate
candidates_from h [] = []
candidates_from h (t ∷ ts) =
    record {
      id = t.tunnel_id;
      port = t.port;
      username = t.username;
      reading = reading_in (get t.tunnel_id h.measures);
    }
    ∷ candidates_from h ts

-- _candidates
unfoldable pub candidates : Controller → List Tunnel → List Candidate
candidates h ts = candidates_from h (up_tunnels ts)
