-- ===== src/Probe/Challenge.antt =====
-- The headers that engine/filter/probe.py sends to a server.
use infinity_proxy.Prelude.{
  ℕ, ◌/◌, ◌%◌, String, Bool, true, ◌||◌, Option, none, some, [], ◌∷◌, ◌++◌, ltb, length, is_some,
  if◌then◌else◌, or_else,
}
use infinity_proxy.Models.{Node, Protocol, trojan}
use infinity_proxy.Prelude.Text.{is_text}
use infinity_proxy.Render.{Outcome, ok, raised, value_error, overflow_error, ◌>>=◌, Url, one_of}
use infinity_proxy.Wire.{Bytes}
use infinity_proxy.Probe.{Probing, first_text, text_or}

-- bytes([n])
unfoldable pub byte : ℕ → Outcome Bytes
byte n = if ltb n 256 then ok (n ∷ []) else raised value_error

-- n.to_bytes(2, "big")
unfoldable pub two_bytes : ℕ → Outcome Bytes
two_bytes n = if ltb n 65536 then ok (n / 256 ∷ n % 256 ∷ []) else raised overflow_error

pub record RelayConfig : Type 0 where
  pub tls : Bool
  pub sni : Option String

-- `a or b`
abbrev pub or_host : Option String → Option String → Option String
or_host none b = b
or_host (some t) b = if is_text t then some t else b

abbrev pub config_from : Probing → Protocol → Url → RelayConfig
config_from p trojan u = record {
  tls = true;
  sni = or_host (first_text (p.parse_qs u.query) "sni") (p.hostname u);
}
config_from p _ u =
    let q = p.parse_qs u.query in
    record {
      tls =
          one_of ("tls" ∷ "reality" ∷ "xtls" ∷ [])
            (p.library.lower (text_or (first_text q "security") ""))
          || is_some (first_text q "sni");
      sni = first_text q "sni";
    }

unfoldable pub relay_config : Probing → Node → Outcome RelayConfig
relay_config p n = p.library.urlparse n.uri >>= λ u. ok (config_from p n.protocol u)

abbrev pub uuid_of : Option Bytes → Outcome Bytes
uuid_of none = raised value_error
uuid_of (some bs) = ok bs

-- version, uuid, no addons, TCP connect, port, FQDN
unfoldable pub vless_challenge : Probing → Node → Bytes → ℕ → Outcome Bytes
vless_challenge p n host port = do
  u ← p.library.urlparse n.uri
  uuid ← uuid_of (p.uuid_bytes (p.library.unquote (or_else u.username "")))
  target ← two_bytes port
  size ← byte (length host)
  ok (0 ∷ uuid ++ (0 ∷ 1 ∷ target ++ (2 ∷ size ++ host)))

-- TCP connect, FQDN
unfoldable pub trojan_challenge : Probing → Node → Bytes → ℕ → Outcome Bytes
trojan_challenge p n host port = do
  u ← p.library.urlparse n.uri
  size ← byte (length host)
  target ← two_bytes port
  let digest = p.sha224_hex (p.utf8 (p.library.unquote (or_else u.username "")))
  ok (digest ++ (13 ∷ 10 ∷ 1 ∷ 3 ∷ size ++ (host ++ (target ++ 13 ∷ 10 ∷ []))))

unfoldable pub challenge_for : Probing → Node → Bytes → ℕ → Outcome Bytes
challenge_for p n host port = elim n.protocol [
  | trojan ↦ trojan_challenge p n host port
  | _ ↦ vless_challenge p n host port
]

-- _ss_addr_header
unfoldable pub addr_header : Bytes → ℕ → Outcome Bytes
addr_header host port = do
  size ← byte (length host)
  target ← two_bytes port
  ok (3 ∷ size ++ (host ++ target))
