-- ===== src/Render/Faults.antt =====
-- Which exceptions the builders of engine/tunnel/config.py raise: engine/app.py rolls a new tunnel
-- back on a ValueError only.
use infinity_proxy.Prelude.{
  ℕ, String, ◌≡◌, All, Bool, true, false, not, ◌&&◌, Option, none, some, List, [], ◌∷◌, map,
  if◌then◌else◌, arith, str_eq, Bool-cases, Option-cases, inl, inr,
}
use infinity_proxy.Prelude.Text.{
  has, partition, rpartition, remove_prefix, starts_with, is_text, padded,
}
use infinity_proxy.Models.{
  Node, Tunnel, Protocol, vless, vmess, ss, ssr, trojan, tuic, hysteria2, http, socks5,
}
use infinity_proxy.Render.{
  Outcome, ok, raised, value_error, ◌>>=◌, Library, Value, text, truth, Tls, one_of,
}
use infinity_proxy.Render.Query.{
  Query, query_of, first, or_first, or_text, given, lower_of, unquote_of, server_name_of, alpn_of,
  tls_options, tls_from_query, required_tls, with_name, transport_from_query,
}
use infinity_proxy.Render.Address.{decode_b64, port_text, split_authority, dial_address, host_port}
use infinity_proxy.Render.Shadowsocks.{
  ss_methods, build_shadowsocks, open_credentials, closed_credentials, both_given, Credentials,
  credentials_of,
}
use infinity_proxy.Render.Config.{outbounds_of, render_config}
use infinity_proxy.Render.Builders.{
  build_vless, build_trojan, build_tuic, build_http, build_socks, build, node_tag,
  outbound_from_node,
}

-- a result, or a ValueError
abbrev pub IsOrdinary {ℓ} : {A : Type ℓ} → Outcome A → Type 0
IsOrdinary (ok a) = Unit
IsOrdinary (raised value_error) = Unit
IsOrdinary (raised _) = ⊥

bind-IsOrdinary {ℓ κ} :
    {A : Type ℓ} {B : Type κ} (m : Outcome A) (k : A → Outcome B)
    → IsOrdinary m
    → ((a : A) → IsOrdinary (k a))
    → IsOrdinary (m >>= k)
bind-IsOrdinary (ok a) k h g = g a
bind-IsOrdinary (raised value_error) k h g = tt
bind-IsOrdinary (raised f) k h g = absurd h

either-IsOrdinary {ℓ} :
    {A : Type ℓ} (b : Bool) (m m' : Outcome A)
    → IsOrdinary m
    → IsOrdinary m'
    → IsOrdinary (if b then m else m')
either-IsOrdinary true m m' h h' = h
either-IsOrdinary false m m' h h' = h'

-- a text, if anything
abbrev pub IsPlain : Option Value → Type 0
IsPlain none = Unit
IsPlain (some (text s)) = Unit
IsPlain (some _) = ⊥

module _ (lib : Library) where
  -- `urlparse` and `int` refuse a text with a ValueError.
  pub record RefusesTexts : Type 0 where
    pub urlparse_refuses : (s : String) → IsOrdinary (lib.urlparse s)
    pub int_refuses : (s : String) → IsOrdinary (lib.int (text s))

  texts-first :
      (key : String) (q : List (String × List String))
      → IsPlain (first (map (λ e. (e.0, map text e.1)) q) key)
  unfolding first
  texts-first key [] = tt
  texts-first key ((k, []) ∷ q) = elim (Bool-cases (str_eq k key)) [
    | inl hit ↦ rw (hit, first) tt
    | inr miss ↦ rw (miss, first) (texts-first key q)
  ]
  texts-first key ((k, v ∷ vs) ∷ q) = elim (Bool-cases (str_eq k key)) [
    | inl hit ↦ rw (hit, first) tt
    | inr miss ↦ rw (miss, first) (texts-first key q)
  ]

  query-first : (query key : String) → IsPlain (first (query_of lib query) key)
  unfolding query_of
  query-first query key = texts-first key (lib.parse_qs query)

  or_first-IsPlain : (a b : Option Value) → IsPlain a → IsPlain b → IsPlain (or_first a b)
  or_first-IsPlain none b h k = k
  or_first-IsPlain (some (text s)) b h k = elim (Bool-cases (truth (text s))) [
    | inl full ↦ rw full tt
    | inr blank ↦ rw blank k
  ]
  or_first-IsPlain (some v) b h k = absurd h

  given-IsPlain : (a : Option Value) → IsPlain a → IsPlain (given a)
  given-IsPlain none h = tt
  given-IsPlain (some (text s)) h = elim (Bool-cases (truth (text s))) [
    | inl full ↦ rw full tt
    | inr blank ↦ rw blank tt
  ]
  given-IsPlain (some v) h = absurd h

  lower_or_text :
      (a : Option Value) (s : String) → IsPlain a → IsOrdinary (lower_of lib (or_text a s))
  unfolding lower_of
  lower_or_text none s h = tt
  lower_or_text (some (text t)) s h = elim (Bool-cases (truth (text t))) [
    | inl full ↦ rw (full, lower_of) tt
    | inr blank ↦ rw (blank, lower_of) tt
  ]
  lower_or_text (some v) s h = absurd h

  server_name_of-IsOrdinary : (a : Option Value) → IsPlain a → IsOrdinary (server_name_of lib a)
  unfolding unquote_of
  server_name_of-IsOrdinary none h = tt
  server_name_of-IsOrdinary (some (text s)) h = tt
  server_name_of-IsOrdinary (some v) h = absurd h

  alpn_of-IsOrdinary : (a : Option Value) → IsPlain a → IsOrdinary (alpn_of lib a)
  alpn_of-IsOrdinary none h = tt
  alpn_of-IsOrdinary (some (text s)) h = tt
  alpn_of-IsOrdinary (some v) h = absurd h

  module _ (query : String) where
    abbrev q : Query
    q = query_of lib query

    tls_options-IsOrdinary : (security : String) → IsOrdinary (tls_options lib q security)
    unfolding tls_options
    tls_options-IsOrdinary security =
        let sni =
          or_first-IsPlain (or_first (first q "sni") (first q "serverName")) (first q "server_name")
            (or_first-IsPlain (first q "sni") (first q "serverName") (query-first query "sni")
              (query-first query "serverName"))
            (query-first query "server_name") in
        let insecure =
          or_first-IsPlain (first q "allowInsecure") (first q "insecure")
            (query-first query "allowInsecure") (query-first query "insecure") in
        bind-IsOrdinary
          (server_name_of lib (
            given
              (or_first (or_first (first q "sni") (first q "serverName")) (first q "server_name"))))
          _ (server_name_of-IsOrdinary _ (given-IsPlain _ sni))
          (λ name.
            bind-IsOrdinary
              (lower_of lib (or_text (or_first (first q "allowInsecure") (first q "insecure")) "0"))
              _ (lower_or_text _ "0" insecure)
              (λ flag.
                bind-IsOrdinary (alpn_of lib (given (first q "alpn"))) _
                  (alpn_of-IsOrdinary _ (given-IsPlain _ (query-first query "alpn"))) (λ alpn. tt)))

    tls_from_query-IsOrdinary : (require_tls : Bool) → IsOrdinary (tls_from_query lib q require_tls)
    unfolding tls_from_query
    tls_from_query-IsOrdinary require_tls =
        bind-IsOrdinary (lower_of lib (or_text (first q "security") "")) _
          (lower_or_text (first q "security") "" (query-first query "security"))
          (λ security.
            elim (Bool-cases
              (not require_tls && not (one_of ("tls" ∷ "reality" ∷ "xtls" ∷ []) security))) [
                | inl clear ↦ rw (clear, one_of) tt
                | inr on ↦
                    rw (on, one_of)
                      (bind-IsOrdinary (tls_options lib q security) _
                        (tls_options-IsOrdinary security) (λ tls. tt))
              ])

    with_name-IsOrdinary : (o : Option Tls) → IsOrdinary (with_name o)
    with_name-IsOrdinary none = tt
    with_name-IsOrdinary (some tls) = elim (Option-cases tls.server_name) [
      | inl gone ↦ rw gone tt
      | inr (name, there) ↦ rw there tt
    ]

    required_tls-IsOrdinary : IsOrdinary (required_tls lib q)
    unfolding required_tls
    required_tls-IsOrdinary =
        bind-IsOrdinary (tls_from_query lib q true) with_name (tls_from_query-IsOrdinary true)
          with_name-IsOrdinary

    transport_from_query-IsOrdinary : (key : String) → IsOrdinary (transport_from_query lib q key)
    unfolding transport_from_query
    transport_from_query-IsOrdinary key =
        bind-IsOrdinary (lower_of lib (or_text (first q key) "tcp")) _
          (lower_or_text (first q key) "tcp" (query-first query key)) (λ transport. tt)

  decode_b64-IsOrdinary : (s : String) → IsOrdinary (decode_b64 lib s)
  unfolding decode_b64
  decode_b64-IsOrdinary s =
      let given_text = if has b'%' s then lib.unquote s else s in
      elim (Option-cases (lib.b64decode (padded given_text))) [
        | inl gone ↦ elim (Option-cases (lib.b64decode_urlsafe (padded given_text))) [
          | inl lost ↦ rw (gone, decode_b64) (rw (lost, decode_b64) tt)
          | inr (t, there) ↦ rw (gone, decode_b64) (rw (there, decode_b64) tt)
        ]
        | inr (t, there) ↦ rw (there, decode_b64) tt
      ]

  both_given-IsOrdinary : (c : Credentials) → IsOrdinary (both_given c)
  both_given-IsOrdinary c =
      either-IsOrdinary (is_text c.method && is_text c.password) (ok c) (raised value_error) tt tt

  open_credentials-IsOrdinary : (body : String) → IsOrdinary (open_credentials lib body)
  unfolding open_credentials
  open_credentials-IsOrdinary body =
      let (userinfo, _, authority) = partition b'@' body in
      either-IsOrdinary (has b':' userinfo) _ _
        (both_given-IsOrdinary (credentials_of userinfo authority))
        (bind-IsOrdinary (decode_b64 lib userinfo) _ (decode_b64-IsOrdinary userinfo)
          (λ decoded. both_given-IsOrdinary (credentials_of decoded authority)))

  closed_credentials-IsOrdinary : (body : String) → IsOrdinary (closed_credentials lib body)
  unfolding closed_credentials
  closed_credentials-IsOrdinary body =
      bind-IsOrdinary (decode_b64 lib body) _ (decode_b64-IsOrdinary body) (λ decoded.
        either-IsOrdinary (is_text (partition b'@' decoded).0) (ok _) (raised value_error) tt tt)

  module _ (law : RefusesTexts) where
    port_text-IsOrdinary : (o : Option ℕ) (port : String) → IsOrdinary (port_text lib o port)
    port_text-IsOrdinary none port =
        either-IsOrdinary (is_text port) (ok port) (raised value_error) tt tt
    port_text-IsOrdinary (some n) port = tt

    dial_address-IsOrdinary :
        (o : Option ℕ) (parts : String × String) → IsOrdinary (dial_address lib o parts)
    unfolding dial_address
    dial_address-IsOrdinary o (host, port) =
        either-IsOrdinary (is_text host) _ (raised value_error)
          (bind-IsOrdinary (port_text lib o port >>= λ shown. lib.int (text shown)) _
            (bind-IsOrdinary (port_text lib o port) _ (port_text-IsOrdinary o port)
              (λ shown. law.int_refuses shown))
            (λ n. tt))
          tt

    split_authority-IsOrdinary :
        (o : Option ℕ) (netloc : String) → IsOrdinary (split_authority lib o netloc)
    unfolding split_authority
    split_authority-IsOrdinary o netloc =
        either-IsOrdinary (starts_with "[" netloc) _ _
          (either-IsOrdinary (partition b']' netloc).1 (ok _) (raised value_error) tt tt) tt

    host_port-IsOrdinary : (netloc : String) (o : Option ℕ) → IsOrdinary (host_port lib netloc o)
    unfolding host_port
    host_port-IsOrdinary netloc o =
        bind-IsOrdinary (split_authority lib o (rpartition b'@' netloc).2) (dial_address lib o)
          (split_authority-IsOrdinary o (rpartition b'@' netloc).2) (dial_address-IsOrdinary o)

    module _ (tag : String) (n : Node) where
      build_vless-IsOrdinary : IsOrdinary (build_vless lib tag n)
      unfolding build_vless
      build_vless-IsOrdinary =
          bind-IsOrdinary (lib.urlparse n.uri) _ (law.urlparse_refuses n.uri) (λ u.
            bind-IsOrdinary (host_port lib u.netloc (some 443)) _ (host_port-IsOrdinary u.netloc _)
              (λ address.
                bind-IsOrdinary (tls_from_query lib (query_of lib u.query) false) _
                  (tls_from_query-IsOrdinary u.query false)
                  (λ tls.
                    bind-IsOrdinary (transport_from_query lib (query_of lib u.query) "type") _
                      (transport_from_query-IsOrdinary u.query "type") (λ transport. tt))))

      build_trojan-IsOrdinary : IsOrdinary (build_trojan lib tag n)
      unfolding build_trojan
      build_trojan-IsOrdinary =
          bind-IsOrdinary (lib.urlparse n.uri) _ (law.urlparse_refuses n.uri) (λ u.
            bind-IsOrdinary (host_port lib u.netloc (some 443)) _ (host_port-IsOrdinary u.netloc _)
              (λ address.
                bind-IsOrdinary (required_tls lib (query_of lib u.query)) _
                  (required_tls-IsOrdinary u.query)
                  (λ tls.
                    bind-IsOrdinary (transport_from_query lib (query_of lib u.query) "type") _
                      (transport_from_query-IsOrdinary u.query "type") (λ transport. tt))))

      build_tuic-IsOrdinary : IsOrdinary (build_tuic lib tag n)
      unfolding build_tuic
      build_tuic-IsOrdinary =
          bind-IsOrdinary (lib.urlparse n.uri) _ (law.urlparse_refuses n.uri) (λ u.
            bind-IsOrdinary (host_port lib u.netloc (some 443)) _ (host_port-IsOrdinary u.netloc _)
              (λ address.
                bind-IsOrdinary (required_tls lib (query_of lib u.query)) _
                  (required_tls-IsOrdinary u.query) (λ tls. tt)))

      build_http-IsOrdinary : IsOrdinary (build_http lib tag n)
      unfolding build_http
      build_http-IsOrdinary =
          bind-IsOrdinary (lib.urlparse n.uri) _ (law.urlparse_refuses n.uri) (λ u.
            bind-IsOrdinary (host_port lib u.netloc (some 80)) _ (host_port-IsOrdinary u.netloc _)
              (λ address. tt))

      build_socks-IsOrdinary : IsOrdinary (build_socks lib tag n)
      unfolding build_socks
      build_socks-IsOrdinary =
          bind-IsOrdinary (lib.urlparse n.uri) _ (law.urlparse_refuses n.uri) (λ u.
            bind-IsOrdinary (host_port lib u.netloc (some 1080)) _ (host_port-IsOrdinary u.netloc _)
              (λ address. tt))

      build_shadowsocks-IsOrdinary : IsOrdinary (build_shadowsocks lib tag n)
      unfolding build_shadowsocks
      build_shadowsocks-IsOrdinary =
          let body = (partition b'?' (partition b'#' (remove_prefix "ss://" n.uri)).0).0 in
          bind-IsOrdinary
            (if has b'@' body then open_credentials lib body else closed_credentials lib body) _
            (either-IsOrdinary (has b'@' body) _ _ (open_credentials-IsOrdinary body)
              (closed_credentials-IsOrdinary body))
            (λ c.
              bind-IsOrdinary (host_port lib c.authority (some 8388)) _
                (host_port-IsOrdinary c.authority _)
                (λ address.
                  either-IsOrdinary (one_of ss_methods (lib.unquote c.method)) (ok _)
                    (raised value_error) tt tt))

    -- the protocols whose nodes are read from the URI alone, without numbers besides the port
    abbrev pub is_uri_protocol : Protocol → Bool
    is_uri_protocol vmess = false
    is_uri_protocol hysteria2 = false
    is_uri_protocol _ = true

    build-IsOrdinary :
        (p : Protocol) (tag : String) (n : Node)
        → is_uri_protocol p ≡ true
        → IsOrdinary (build lib p tag n)
    build-IsOrdinary vless tag n h = build_vless-IsOrdinary tag n
    build-IsOrdinary vmess tag n h = ground arith
    build-IsOrdinary ss tag n h = build_shadowsocks-IsOrdinary tag n
    build-IsOrdinary ssr tag n h = tt
    build-IsOrdinary trojan tag n h = build_trojan-IsOrdinary tag n
    build-IsOrdinary tuic tag n h = build_tuic-IsOrdinary tag n
    build-IsOrdinary hysteria2 tag n h = ground arith
    build-IsOrdinary http tag n h = build_http-IsOrdinary tag n
    build-IsOrdinary socks5 tag n h = build_socks-IsOrdinary tag n

    outbound_from_node-IsOrdinary :
        (n : Node) → is_uri_protocol n.protocol ≡ true → IsOrdinary (outbound_from_node lib n)
    unfolding outbound_from_node
    outbound_from_node-IsOrdinary n h = build-IsOrdinary n.protocol (node_tag lib n) n h

    outbounds_of-IsOrdinary :
        (nodes : List Node)
        → All (λ n. is_uri_protocol n.protocol ≡ true) nodes
        → IsOrdinary (outbounds_of lib nodes)
    unfolding outbounds_of
    outbounds_of-IsOrdinary [] h = tt
    outbounds_of-IsOrdinary (n ∷ ns) h =
        bind-IsOrdinary (outbound_from_node lib n) _ (outbound_from_node-IsOrdinary n h.0)
          (λ o. bind-IsOrdinary (outbounds_of lib ns) _ (outbounds_of-IsOrdinary ns h.1) (λ os. tt))

    -- Where urlparse and int refuse a text with a ValueError, rendering nodes of which none is a
    -- vmess or hysteria2 node gives a configuration or a ValueError, the one exception on which the
    -- handler that creates tunnels rolls back, whatever the URIs of the nodes are.
    pub render_config-IsOrdinary :
        (tunnel : Tunnel) (nodes : List Node) (interval : Option ℕ)
        → All (λ n. is_uri_protocol n.protocol ≡ true) nodes
        → IsOrdinary (render_config lib tunnel nodes interval)
    unfolding render_config
    render_config-IsOrdinary tunnel nodes interval h =
        bind-IsOrdinary (outbounds_of lib nodes) _ (outbounds_of-IsOrdinary nodes h) (λ os. tt)
