-- ===== src/Probe.antt =====
-- engine/filter/probe.py: which nodes can be probed, and with which parameters. What urllib, uuid,
-- hashlib, hmac and the ciphers answer are arguments.
pub mod Http
pub mod Challenge
pub mod Judge
pub mod Shadow
pub mod Forward
pub mod Dial
pub mod Run
use infinity_proxy.Prelude.{
  ℕ, String, Bool, true, false, not, ◌&&◌, ◌||◌, Option, none, some, List, [], ◌∷◌, str_eq, is_some,
  if◌then◌else◌, any,
}
use infinity_proxy.Prelude.Text.{has, partition, starts_with, remove_prefix, is_text}
use infinity_proxy.Models.{
  Node, Protocol, vless, vmess, ss, ssr, trojan, tuic, hysteria2, http, socks5,
}
use infinity_proxy.Render.{
  Fault, value_error, type_error, attribute_error, Outcome, ok, raised, ◌>>=◌, Value, text, Loaded,
  object, not_object, Library, Url, truth, one_of,
}
use infinity_proxy.Render.Query.{or_text, lower_of}
use infinity_proxy.Render.Address.{decode_b64}
use infinity_proxy.Render.Vmess.{get_field}
use infinity_proxy.Wire.{Bytes, Conn, Io}

-- SIP004 AEAD ciphers
pub data Cipher : Type 0 where
  aes_128_gcm aes_192_gcm aes_256_gcm chacha20_poly1305 : Cipher

-- why a node is not alive; the texts quote bytes and names, which Cause leaves out
pub data Cause : Type 0 where
  bad_transport bad_ss_uri has_plugin bad_method no_client : Cause
  non_relay closed_early echo canned : Cause
  no_salt no_length bad_length cut_chunk bad_tag : Cause
  connect_rejected no_method no_grant : Cause
  timed_out : Cause
  os_failure probe_raised : Fault → Cause

-- the libraries and the world of one probe
pub record Probing : Type 0 where
  pub library : Library
  pub parse_qs : String → List (String × List String)
  pub hostname : Url → Option String
  pub uuid_bytes : String → Option Bytes
  pub utf8 : String → Bytes
  pub sha224_hex : Bytes → Bytes
  pub md5 : Bytes → Bytes
  pub hmac_sha1 : Bytes → Bytes → Bytes
  pub encrypt : Cipher → Bytes → Bytes → Bytes → Bytes
  pub decrypt : Cipher → Bytes → Bytes → Bytes → Option Bytes
  pub random : ℕ → Bytes
  pub wrap_tls : String → Io (Unit {0})
  pub elapsed_us : ℕ
  pub in_time : Conn → Bool
  pub wording : Cause → String

-- _first, on texts
unfoldable pub first_text : List (String × List String) → String → Option String
first_text [] key = none
first_text ((k, values) ∷ q) key =
    let rest = first_text q key in
    if str_eq k key then (elim values [ [] ↦ none | v ∷ vs ↦ some v ]) else rest

-- `a or "…"`, for a text that may be missing
abbrev pub text_or : Option String → String → String
text_or none s = s
text_or (some t) s = if is_text t then t else s

-- `payload.get("net") if isinstance(payload, dict) else None`, lowered; the payload may be unreadable
abbrev pub net_of : Library → Option Loaded → Outcome (Option String)
net_of lib none = ok none
net_of lib (some not_object) = ok (some (lib.lower "tcp"))
net_of lib (some (object data_)) =
    lower_of lib (or_text (get_field "net" data_) "tcp") >>= λ net. ok (some net)

abbrev pub loaded : Library → Outcome String → Option Loaded
loaded lib (ok payload) = lib.loads payload
loaded lib (raised f) = none

unfoldable pub transport : Probing → Node → Outcome (Option String)
transport p n = do
  u ← p.library.urlparse n.uri
  let q = p.parse_qs u.query
  let body = (partition b'#' (remove_prefix "vmess://" n.uri)).0
  elim n.protocol [
    | vmess ↦
        if has b'@' body
        then ok (some (p.library.lower (text_or (first_text q "net") "tcp")))
        else net_of p.library (loaded p.library (decode_b64 p.library body))
    | _ ↦ ok (some (p.library.lower (text_or (first_text q "type") "tcp")))
  ]

-- `transport in ("tcp", "")`
abbrev pub is_plain : Option String → Bool
is_plain none = false
is_plain (some t) = one_of ("tcp" ∷ "" ∷ []) t

-- the keys of _SS_AEAD_SPECS
unfoldable pub cipher_of : String → Option Cipher
cipher_of method =
    if str_eq method "aes-128-gcm"
    then some aes_128_gcm
    else if str_eq method "aes-192-gcm"
    then some aes_192_gcm
    else if str_eq method "aes-256-gcm"
    then some aes_256_gcm
    else if str_eq method "chacha20-ietf-poly1305"
    then some chacha20_poly1305
    else none

-- key_len and salt_len; the nonces have 12 bytes
abbrev pub key_len : Cipher → ℕ
key_len aes_128_gcm = 16
key_len aes_192_gcm = 24
key_len aes_256_gcm = 32
key_len chacha20_poly1305 = 32

pub record SsParams : Type 0 where
  pub method : String
  pub password : String
  pub plugin : Option String

-- what stands before the address, as a text `method:password`
unfoldable pub ss_userinfo : Library → String → Outcome String
ss_userinfo lib body =
    let (userinfo, _, _) = partition b'@' body in
    if has b'@' body
    then (if has b':' userinfo then ok userinfo else decode_b64 lib userinfo)
    else (decode_b64 lib body >>= λ decoded.
        let (packed, _, _) = partition b'@' decoded in
        if is_text packed then ok packed else raised value_error)

unfoldable pub ss_params : Library → Node → Outcome SsParams
ss_params lib n = do
  let (body, _, query) = partition b'?' (partition b'#' (remove_prefix "ss://" n.uri)).0
  let asked = lib.unquote query
  userinfo ← ss_userinfo lib body
  let (method, _, password) = partition b':' userinfo
  if is_text method && is_text password
      then ok (record {
        method = lib.unquote method;
        password = lib.unquote password;
        plugin = if starts_with "plugin=" asked then some (remove_prefix "plugin=" asked) else none;
      })
      else raised value_error

-- a ValueError means no
abbrev pub ss_probeable : Outcome SsParams → Outcome Bool
ss_probeable (ok s) = ok (not (is_some s.plugin) && is_some (cipher_of s.method))
ss_probeable (raised value_error) = ok false
ss_probeable (raised f) = raised f

abbrev pub plain_transport : Probing → Node → Outcome Bool
plain_transport p n = transport p n >>= λ t. ok (is_plain t)

unfoldable pub probeable : Probing → Node → Outcome Bool
probeable p n = elim n.protocol [
  | ss ↦ ss_probeable (ss_params p.library n)
  | vless ↦ plain_transport p n
  | trojan ↦ plain_transport p n
  | http ↦ plain_transport p n
  | socks5 ↦ plain_transport p n
  | _ ↦ ok false
]

abbrev pub ss_reason : Outcome SsParams → Outcome Cause
ss_reason (ok s) = ok (if is_some s.plugin then has_plugin else bad_method)
ss_reason (raised value_error) = ok bad_ss_uri
ss_reason (raised f) = raised f

unfoldable pub unprobeable_reason : Probing → Node → Outcome Cause
unprobeable_reason p n = do
  t ← transport p n
  elim n.protocol [
    | ss ↦ ss_reason (ss_params p.library n)
    | _ ↦ ok (if is_plain t then no_client else bad_transport)
  ]
