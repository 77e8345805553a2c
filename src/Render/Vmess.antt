-- ===== src/Render/Vmess.antt =====
-- _build_vmess of engine/tunnel/config.py, in its two forms.
use infinity_proxy.Prelude.{
  String, Bool, true, false, not, Option, none, some, List, [], ◌∷◌, ◌++◌, str_eq, if◌then◌else◌,
}
use infinity_proxy.Prelude.Int.{ℤ}
use infinity_proxy.Prelude.Text.{has, partition, remove_prefix}
use infinity_proxy.Models.{Node}
use infinity_proxy.Render.{
  Outcome, ok, raised, value_error, type_error, ◌>>=◌, Value, null, text, Fields, Loaded, object,
  not_object, Library, truth, one_of, Tls, Transport, Outbound, vmess_dial,
}
use infinity_proxy.Render.Query.{
  Query, query_of, first, or_first, or_text, given, lower_of, tls_from_query, transport_from_query,
}
use infinity_proxy.Render.Address.{decode_b64, host_port}

abbrev pub int_of : Library → Option Value → Outcome (Option ℤ)
int_of lib none = ok none
int_of lib (some v) = lib.int v >>= λ n. ok (some n)

-- the body with `@`, as a URI
unfoldable pub build_vmess_uri : Library → String → String → Outcome Outbound
build_vmess_uri lib tag body = do
  let (userinfo, _, rest) = partition b'@' body
  let (authority, _, query) = partition b'?' rest
  let q = query_of lib query
  (host, port) ← host_port lib authority (some 443)
  alter_id ← int_of lib (given (or_first (first q "alterId") (first q "aid")))
  tls ← tls_from_query lib q false
  transport ← transport_from_query lib q "net"
  ok (record {
    tag = tag;
    server = text host;
    server_port = port;
    dial =
        vmess_dial (text (lib.unquote userinfo))
          (or_text (or_first (first q "security") (first q "encryption")) "auto") alter_id tls
          transport;
  })

-- neither None nor the empty text
abbrev pub is_set : Value → Bool
is_set null = false
is_set (text s) = not (str_eq s "")
is_set _ = true

unfoldable pub get_field : String → Fields → Option Value
get_field key [] = none
get_field key ((k, v) ∷ data_) =
    let rest = get_field key data_ in if str_eq k key then some v else rest

-- the inner function `field`
unfoldable pub field_of : List String → Fields → Option Value
field_of [] data_ = none
field_of (key ∷ keys) data_ =
    let rest = field_of keys data_ in
    elim (get_field key data_) [ none ↦ rest | some v ↦ if is_set v then some v else rest ]

-- `{key: [value] for key, value in data.items() if value}`
unfoldable pub truthy_query : Fields → Query
truthy_query [] = []
truthy_query ((k, v) ∷ data_) =
    let rest = truthy_query data_ in if truth v then (k, v ∷ []) ∷ rest else rest

-- the TLS of a payload whose `tls` asks for it
unfoldable pub payload_tls : Library → Fields → Outcome (Option Tls)
payload_tls lib data_ = do
  asked ← lower_of lib (or_text (field_of ("tls" ∷ []) data_) "")
  if one_of ("tls" ∷ "1" ∷ "true" ∷ "reality" ∷ "xtls" ∷ []) asked
      then tls_from_query lib (truthy_query data_) true
      else ok none

abbrev pub entry_of : String → Option Value → Query
entry_of key none = []
entry_of key (some v) = (key, v ∷ []) ∷ []

-- the transport of a payload whose `net` is not plain TCP
abbrev pub payload_transport : Library → Fields → Option Value → Outcome (Option Transport)
payload_transport lib data_ none = ok none
payload_transport lib data_ (some net) = do
  transport ← lower_of lib net
  if one_of ("tcp" ∷ "none" ∷ "raw" ∷ "" ∷ []) transport
      then ok none
      else transport_from_query lib
          (entry_of "type" (some net)
            ++ (entry_of "path" (given (field_of ("path" ∷ "serviceName" ∷ []) data_))
                ++ entry_of "host" (given (field_of ("host" ∷ []) data_))))
          "type"

-- from the decoded object on
unfoldable pub vmess_outbound : Library → String → Fields → Value → Value → Value → Outcome Outbound
vmess_outbound lib tag data_ host port uuid = do
  n ← lib.int port
  alter_id ← int_of lib (field_of ("aid" ∷ "alterId" ∷ []) data_)
  tls ← payload_tls lib data_
  transport ← payload_transport lib data_ (given (field_of ("net" ∷ []) data_))
  ok (record {
    tag = tag;
    server = host;
    server_port = n;
    dial =
        vmess_dial uuid (or_text (field_of ("scy" ∷ "security" ∷ []) data_) "auto") alter_id tls
          transport;
  })

-- `if not host or port is None or not uuid: raise ValueError`
abbrev pub required : Option Value → Outcome Value
required none = raised value_error
required (some v) = ok v

unfoldable pub build_vmess_object : Library → String → Fields → Outcome Outbound
build_vmess_object lib tag data_ = do
  host ← required (given (field_of ("add" ∷ "host" ∷ []) data_))
  port ← required (field_of ("port" ∷ []) data_)
  uuid ← required (given (field_of ("id" ∷ []) data_))
  vmess_outbound lib tag data_ host port uuid

-- a ValueError of json.loads is raised again, and what is no object is a TypeError
abbrev pub fields_of : Option Loaded → Outcome Fields
fields_of none = raised value_error
fields_of (some not_object) = raised type_error
fields_of (some (object data_)) = ok data_

unfoldable pub build_vmess_json : Library → String → String → Outcome Outbound
build_vmess_json lib tag body = do
  payload ← decode_b64 lib body
  data_ ← fields_of (lib.loads payload)
  build_vmess_object lib tag data_

unfoldable pub build_vmess : Library → String → Node → Outcome Outbound
build_vmess lib tag n =
    let body = (partition b'#' (remove_prefix "vmess://" n.uri)).0 in
    if has b'@' body then build_vmess_uri lib tag body else build_vmess_json lib tag body
