-- ===== src/Render/Builders.antt =====
-- The other builders of engine/tunnel/config.py, and the table that picks one.
use Prim.Native.String.{◌++◌}
use infinity_proxy.Prelude.{String, Bool, true, false, Option, none, some, if◌then◌else◌, or_else}
use infinity_proxy.Prelude.Int.{ℤ}
use infinity_proxy.Prelude.Text.{is_text}
use infinity_proxy.Models.{
  Node, Protocol, vless, vmess, ss, ssr, trojan, tuic, hysteria2, http, socks5,
}
use infinity_proxy.Render.{
  Outcome, ok, raised, value_error, ◌>>=◌, Value, text, Library, Url, Obfs, Dial, Outbound,
  vless_dial, trojan_dial, tuic_dial, hysteria2_dial, http_dial, socks_dial,
}
use infinity_proxy.Render.Query.{
  Query, query_of, first, or_first, given, tls_from_query, required_tls, transport_from_query,
}
use infinity_proxy.Render.Address.{host_port}
use infinity_proxy.Render.Vmess.{build_vmess}
use infinity_proxy.Render.Shadowsocks.{build_shadowsocks}

unfoldable pub node_tag : Library → Node → String
node_tag lib n = "n_" ++ lib.hexadecimal n.node_id

-- `if u.password:`
abbrev pub filled : Option String → Option String
filled none = none
filled (some s) = if is_text s then some s else none

-- the fields that these builders share
abbrev pub dialled : String → String × ℤ → Dial → Outcome Outbound
dialled tag (host, port) dial =
    ok (record { tag = tag; server = text host; server_port = port; dial = dial })

unfoldable pub build_vless : Library → String → Node → Outcome Outbound
build_vless lib tag n = do
  u ← lib.urlparse n.uri
  let q = query_of lib u.query
  address ← host_port lib u.netloc (some 443)
  tls ← tls_from_query lib q false
  transport ← transport_from_query lib q "type"
  dialled tag address
      (vless_dial (lib.unquote (or_else u.username "")) (given (first q "flow")) tls transport)

unfoldable pub build_trojan : Library → String → Node → Outcome Outbound
build_trojan lib tag n = do
  u ← lib.urlparse n.uri
  let q = query_of lib u.query
  address ← host_port lib u.netloc (some 443)
  tls ← required_tls lib q
  transport ← transport_from_query lib q "type"
  dialled tag address (trojan_dial (lib.unquote (or_else u.username "")) tls transport)

abbrev pub unquoted : Library → Option String → Option String
unquoted lib none = none
unquoted lib (some s) = some (lib.unquote s)

unfoldable pub build_tuic : Library → String → Node → Outcome Outbound
build_tuic lib tag n = do
  u ← lib.urlparse n.uri
  let q = query_of lib u.query
  address ← host_port lib u.netloc (some 443)
  tls ← required_tls lib q
  dialled tag address (
      tuic_dial (lib.unquote (or_else u.username "")) (unquoted lib (filled u.password))
        (given (or_first (first q "congestion_control") (first q "congestion-controller")))
        (given (or_first (first q "udp_relay_mode") (first q "udp-relay-mode"))) tls)

-- `out[out_key] = int(float(value))`, where a ValueError leaves the key out
abbrev pub skip_value_error : Outcome ℤ → Outcome (Option ℤ)
skip_value_error (ok n) = ok (some n)
skip_value_error (raised value_error) = ok none
skip_value_error (raised f) = raised f

-- the values of a parsed query are texts, and `float` reads a text
abbrev pub mbps_of : Library → Option Value → Outcome (Option ℤ)
mbps_of lib (some (text s)) = skip_value_error (lib.int_float s)
mbps_of lib _ = ok none

abbrev pub obfs_of : Query → Option Obfs
obfs_of q = elim (given (first q "obfs")) [
  | none ↦ none
  | some kind ↦ some (record { kind = kind; obfs_password = given (first q "obfs-password") })
]

abbrev pub hysteria2_password : Library → Url → String
hysteria2_password lib u =
    let password = lib.unquote (or_else u.username "") in
    elim (filled u.password) [ none ↦ password | some more ↦ password ++ (":" ++ lib.unquote more) ]

unfoldable pub build_hysteria2 : Library → String → Node → Outcome Outbound
build_hysteria2 lib tag n = do
  u ← lib.urlparse n.uri
  let q = query_of lib u.query
  address ← host_port lib u.netloc (some 443)
  tls ← required_tls lib q
  up ← mbps_of lib (first q "up")
  down ← mbps_of lib (first q "down")
  dialled tag address (hysteria2_dial (hysteria2_password lib u) tls (obfs_of q) up down)

-- user and password, if there is a user
abbrev pub login_of : Library → Url → Option (String × String)
login_of lib u = elim (filled u.username) [
  | none ↦ none
  | some user ↦ some (lib.unquote user, lib.unquote (or_else u.password ""))
]

unfoldable pub build_http : Library → String → Node → Outcome Outbound
build_http lib tag n = do
  u ← lib.urlparse n.uri
  address ← host_port lib u.netloc (some 80)
  dialled tag address (http_dial (login_of lib u))

unfoldable pub build_socks : Library → String → Node → Outcome Outbound
build_socks lib tag n = do
  u ← lib.urlparse n.uri
  address ← host_port lib u.netloc (some 1080)
  dialled tag address (socks_dial (login_of lib u))

-- _BUILDERS, which has no entry for ssr
abbrev pub build : Library → Protocol → String → Node → Outcome Outbound
build lib vless = build_vless lib
build lib vmess = build_vmess lib
build lib ss = build_shadowsocks lib
build lib trojan = build_trojan lib
build lib tuic = build_tuic lib
build lib hysteria2 = build_hysteria2 lib
build lib http = build_http lib
build lib socks5 = build_socks lib
build lib ssr = λ tag n. raised value_error

unfoldable pub outbound_from_node : Library → Node → Outcome Outbound
outbound_from_node lib n = build lib n.protocol (node_tag lib n) n

-- whether the renderer takes a node, as the pool asks it
abbrev pub is_ok {ℓ} : {A : Type ℓ} → Outcome A → Bool
is_ok (ok a) = true
is_ok (raised f) = false

unfoldable pub renders : Library → Node → Bool
renders lib n = is_ok (outbound_from_node lib n)
