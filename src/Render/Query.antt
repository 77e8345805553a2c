-- ===== src/Render/Query.antt =====
-- The query readers of engine/tunnel/config.py: TLS and transport options.
use infinity_proxy.Prelude.{
  String, Bool, true, not, ◌&&◌, Option, none, some, List, [], ◌∷◌, map, str_eq, select,
  if◌then◌else◌,
}
use infinity_proxy.Prelude.Text.{is_text, split}
use infinity_proxy.Render.{
  value_error, type_error, attribute_error, Outcome, ok, raised, ◌>>=◌, Value, text, composite,
  Library, truth, one_of, Reality, Tls, Transport, ws, grpc, httpupgrade, http_transport,
}

abbrev pub Query : Type 0
Query = List (String × List Value)

-- _query: the values of a parsed query are texts
unfoldable pub query_of : Library → String → Query
query_of lib q = map (λ e. (e.0, map text e.1)) (lib.parse_qs q)

unfoldable pub first : Query → String → Option Value
first [] key = none
first ((k, values) ∷ q) key =
    let rest = first q key in
    if str_eq k key then (elim values [ [] ↦ none | v ∷ vs ↦ some v ]) else rest

-- `a or b`
abbrev pub or_first : Option Value → Option Value → Option Value
or_first none b = b
or_first (some v) b = if truth v then some v else b

-- `a or "…"`
abbrev pub or_text : Option Value → String → Value
or_text none s = text s
or_text (some v) s = if truth v then v else text s

-- `if a:`
abbrev pub given : Option Value → Option Value
given none = none
given (some v) = if truth v then some v else none

-- v.lower()
unfoldable pub lower_of : Library → Value → Outcome String
lower_of lib (text s) = ok (lib.lower s)
lower_of lib _ = raised attribute_error

-- unquote(v)
unfoldable pub unquote_of : Library → Value → Outcome String
unquote_of lib (text s) = ok (lib.unquote s)
unquote_of lib (composite s b) = raised attribute_error
unquote_of lib _ = raised type_error

abbrev pub server_name_of : Library → Option Value → Outcome (Option String)
server_name_of lib none = ok none
server_name_of lib (some v) = unquote_of lib v >>= λ s. ok (some s)

-- `[p.strip() for p in alpn.split(",") if p.strip()]`
abbrev pub alpn_parts : Library → String → List String
alpn_parts lib s = select is_text (map lib.strip (split b',' s))

abbrev pub alpn_of : Library → Option Value → Outcome (Option (List String))
alpn_of lib none = ok none
alpn_of lib (some (text s)) = ok (some (alpn_parts lib s))
alpn_of lib (some _) = raised attribute_error

abbrev pub reality_of : String → Query → Option Reality
reality_of security q =
    if str_eq security "reality"
    then (elim (given (or_first (first q "pbk") (first q "publicKey"))) [
      | none ↦ none
      | some key ↦ some (record {
        public_key = key;
        short_id = given (or_first (first q "sid") (first q "shortId"));
      })
    ])
    else none

-- what follows the test of `security`
unfoldable pub tls_options : Library → Query → String → Outcome Tls
tls_options lib q security = do
  server_name ←
      server_name_of lib
        (given (or_first (or_first (first q "sni") (first q "serverName")) (first q "server_name")))
  insecure ← lower_of lib (or_text (or_first (first q "allowInsecure") (first q "insecure")) "0")
  alpn ← alpn_of lib (given (first q "alpn"))
  ok (record {
    server_name = server_name;
    insecure = one_of ("1" ∷ "true" ∷ "yes" ∷ []) insecure;
    alpn = alpn;
    fingerprint = given (or_first (first q "fp") (first q "fingerprint"));
    reality = reality_of security q;
  })

unfoldable pub tls_from_query : Library → Query → Bool → Outcome (Option Tls)
tls_from_query lib q require_tls = do
  security ← lower_of lib (or_text (first q "security") "")
  if not require_tls && not (one_of ("tls" ∷ "reality" ∷ "xtls" ∷ []) security)
      then ok none
      else tls_options lib q security >>= λ tls. ok (some tls)

-- a server name that is there
abbrev pub with_name : Option Tls → Outcome Tls
with_name none = raised value_error
with_name (some tls) = elim tls.server_name [ none ↦ raised value_error | some name ↦ ok tls ]

unfoldable pub required_tls : Library → Query → Outcome Tls
required_tls lib q = tls_from_query lib q true >>= with_name

-- the ladder over the name of the transport
abbrev pub transport_named : String → Option Value → Option Value → Option Transport
transport_named transport path host =
    if one_of ("tcp" ∷ "none" ∷ "raw" ∷ "" ∷ []) transport
    then none
    else if one_of ("ws" ∷ "websocket" ∷ []) transport
    then some (ws path host)
    else if one_of ("grpc" ∷ "gun" ∷ []) transport
    then some (grpc path none)
    else if str_eq transport "httpupgrade"
    then some (httpupgrade path host)
    else if one_of ("h2" ∷ "http" ∷ []) transport
    then some (http_transport path host)
    else none

unfoldable pub transport_from_query : Library → Query → String → Outcome (Option Transport)
transport_from_query lib q key = do
  transport ← lower_of lib (or_text (first q key) "tcp")
  ok (
      transport_named transport (given (or_first (first q "path") (first q "serviceName")))
        (given (first q "host")))
