-- ===== src/Render/Shadowsocks.antt =====
-- _build_shadowsocks of engine/tunnel/config.py.
use infinity_proxy.Prelude.{String, ◌&&◌, Option, none, some, List, [], ◌∷◌, if◌then◌else◌}
use infinity_proxy.Prelude.Text.{has, partition, starts_with, remove_prefix, is_text}
use infinity_proxy.Models.{Node}
use infinity_proxy.Render.{
  Outcome, ok, raised, value_error, ◌>>=◌, text, Library, one_of, Outbound, shadowsocks_dial,
}
use infinity_proxy.Render.Address.{decode_b64, host_port}

-- _SS_METHODS
abbrev pub ss_methods : List String
ss_methods =
    "2022-blake3-aes-128-gcm" ∷ "2022-blake3-aes-256-gcm" ∷ "2022-blake3-chacha20-poly1305"
    ∷ "aes-128-gcm" ∷ "aes-192-gcm" ∷ "aes-256-gcm" ∷ "chacha20-ietf-poly1305"
    ∷ "xchacha20-ietf-poly1305" ∷ "aes-128-cfb" ∷ "aes-192-cfb" ∷ "aes-256-cfb" ∷ "aes-128-ctr"
    ∷ "aes-192-ctr" ∷ "aes-256-ctr" ∷ "camellia-128-cfb" ∷ "camellia-192-cfb" ∷ "camellia-256-cfb"
    ∷ "chacha20-ietf" ∷ "xchacha20" ∷ "salsa20" ∷ "rc4" ∷ "rc4-md5" ∷ "none" ∷ []

-- what stands before the address, as method and password, and the address
pub record Credentials : Type 0 where
  pub method : String
  pub password : String
  pub authority : String

abbrev pub credentials_of : String → String → Credentials
credentials_of userinfo authority =
    let (method, _, password) = partition b':' userinfo in
    record { method = method; password = password; authority = authority }

abbrev pub both_given : Credentials → Outcome Credentials
both_given c = if is_text c.method && is_text c.password then ok c else raised value_error

-- the form with `@`
unfoldable pub open_credentials : Library → String → Outcome Credentials
open_credentials lib body =
    let (userinfo, _, authority) = partition b'@' body in
    if has b':' userinfo
    then both_given (credentials_of userinfo authority)
    else decode_b64 lib userinfo >>= λ decoded. both_given (credentials_of decoded authority)

-- the form that is encoded as a whole
unfoldable pub closed_credentials : Library → String → Outcome Credentials
closed_credentials lib body = do
  decoded ← decode_b64 lib body
  let (userinfo, _, authority) = partition b'@' decoded
  if is_text userinfo then ok (credentials_of userinfo authority) else raised value_error

-- the query, as far as it names a plugin
unfoldable pub plugin_of : Library → String → Option (String × Option String)
plugin_of lib query =
    let plugin = lib.unquote (partition b'=' query).2 in
    let (name, _, opts) = partition b';' plugin in
    if starts_with "plugin=" query && is_text plugin
    then some (lib.unquote name, (if is_text opts then some (lib.unquote opts) else none))
    else none

unfoldable pub build_shadowsocks : Library → String → Node → Outcome Outbound
build_shadowsocks lib tag n = do
  let (body, _, query) = partition b'?' (partition b'#' (remove_prefix "ss://" n.uri)).0
  c ← if has b'@' body then open_credentials lib body else closed_credentials lib body
  (host, port) ← host_port lib c.authority (some 8388)
  if one_of ss_methods (lib.unquote c.method)
      then ok (record {
        tag = tag;
        server = text host;
        server_port = port;
        dial =
            shadowsocks_dial (lib.unquote c.method) (lib.unquote c.password) (plugin_of lib query);
      })
      else raised value_error
