-- ===== src/Render/Fits.antt =====
-- What an outbound of engine/tunnel/config.py has, so that sing-box starts with it.
use infinity_proxy.Prelude.{
  String, ◌≡◌, refl, true, false, Option, none, some, [], ◌∷◌, if◌then◌else◌, is_some, Bool-cases,
  Option-cases, inl, inr,
}
use infinity_proxy.Prelude.Text.{has, partition, remove_prefix}
use infinity_proxy.Models.{
  Node, Protocol, vless, vmess, ss, ssr, trojan, tuic, hysteria2, http, socks5,
}
use infinity_proxy.Render.{
  Value, Fields, Yields, Yields-bind, Yields-then, Library, Tls, Dial, Outbound, vless_dial,
  vmess_dial, shadowsocks_dial, trojan_dial, tuic_dial, hysteria2_dial, http_dial, socks_dial,
  one_of,
}
use infinity_proxy.Render.Query.{
  required_tls, tls_from_query, with_name, Query, query_of, transport_from_query, first, given,
  or_first,
}
use infinity_proxy.Render.Address.{host_port, decode_b64}
use infinity_proxy.Render.Vmess.{
  required, fields_of, int_of, field_of, build_vmess, build_vmess_uri, build_vmess_json,
  build_vmess_object, vmess_outbound, payload_tls, payload_transport,
}
use infinity_proxy.Render.Shadowsocks.{
  ss_methods, build_shadowsocks, open_credentials, closed_credentials,
}
use infinity_proxy.Render.Builders.{
  mbps_of, build_vless, build_trojan, build_tuic, build_hysteria2, build_http, build_socks, build,
  node_tag, outbound_from_node,
}

-- _PROTOCOL_OUTBOUND_TYPE, with the TLS name and the cipher that sing-box insists on
abbrev pub Fits : Protocol → Dial → Type 0
Fits vless (vless_dial _ _ _ _) = Unit
Fits vmess (vmess_dial _ _ _ _ _) = Unit
Fits ss (shadowsocks_dial method _ _) = one_of ss_methods method ≡ true
Fits trojan (trojan_dial _ tls _) = is_some tls.server_name ≡ true
Fits tuic (tuic_dial _ _ _ _ tls) = is_some tls.server_name ≡ true
Fits hysteria2 (hysteria2_dial _ tls _ _ _) = is_some tls.server_name ≡ true
Fits http (http_dial _) = Unit
Fits socks5 (socks_dial _) = Unit
Fits _ _ = ⊥

abbrev pub IsNamed : Tls → Type 0
IsNamed tls = is_some tls.server_name ≡ true

abbrev pub FitsAs : Protocol → String → Outbound → Type 0
FitsAs p tag o = (o.tag ≡ tag) × Fits p o.dial

with_name-IsNamed : (o : Option Tls) → Yields IsNamed (with_name o)
with_name-IsNamed none = tt
with_name-IsNamed (some tls) = elim (Option-cases tls.server_name) [
  | inl gone ↦ rw gone tt
  | inr (name, there) ↦ rw there (rw there refl)
]

module _ (lib : Library) where
  required_tls-IsNamed : (q : Query) → Yields IsNamed (required_tls lib q)
  unfolding required_tls
  required_tls-IsNamed q =
      Yields-bind IsNamed (tls_from_query lib q true) with_name with_name-IsNamed

  module _ (tag : String) (n : Node) where
    build_vless-Fits : Yields (FitsAs vless tag) (build_vless lib tag n)
    unfolding build_vless
    build_vless-Fits = Yields-bind _ (lib.urlparse n.uri) _ (λ u.
        Yields-bind _ (host_port lib u.netloc (some 443)) _ (λ address.
          Yields-bind _ (tls_from_query lib (query_of lib u.query) false) _ (λ tls.
            Yields-bind _ (transport_from_query lib (query_of lib u.query) "type") _
              (λ transport. (refl, tt)))))

    build_trojan-Fits : Yields (FitsAs trojan tag) (build_trojan lib tag n)
    unfolding build_trojan
    build_trojan-Fits = Yields-bind _ (lib.urlparse n.uri) _ (λ u.
        Yields-bind _ (host_port lib u.netloc (some 443)) _ (λ address.
          Yields-then IsNamed _ (required_tls lib (query_of lib u.query)) _
            (required_tls-IsNamed (query_of lib u.query))
            (λ tls named.
              Yields-bind _ (transport_from_query lib (query_of lib u.query) "type") _
                (λ transport. (refl, named)))))

    build_tuic-Fits : Yields (FitsAs tuic tag) (build_tuic lib tag n)
    unfolding build_tuic
    build_tuic-Fits = Yields-bind _ (lib.urlparse n.uri) _ (λ u.
        Yields-bind _ (host_port lib u.netloc (some 443)) _ (λ address.
          Yields-then IsNamed _ (required_tls lib (query_of lib u.query)) _
            (required_tls-IsNamed (query_of lib u.query)) (λ tls named. (refl, named))))

    build_hysteria2-Fits : Yields (FitsAs hysteria2 tag) (build_hysteria2 lib tag n)
    unfolding build_hysteria2
    build_hysteria2-Fits = Yields-bind _ (lib.urlparse n.uri) _ (λ u.
        Yields-bind _ (host_port lib u.netloc (some 443)) _ (λ address.
          Yields-then IsNamed _ (required_tls lib (query_of lib u.query)) _
            (required_tls-IsNamed (query_of lib u.query))
            (λ tls named. Yields-bind _ (mbps_of lib (first (query_of lib u.query) "up")) _ (λ up.
              Yields-bind _ (mbps_of lib (first (query_of lib u.query) "down")) _
                (λ down. (refl, named))))))

    build_http-Fits : Yields (FitsAs http tag) (build_http lib tag n)
    unfolding build_http
    build_http-Fits =
        Yields-bind _ (lib.urlparse n.uri) _
          (λ u. Yields-bind _ (host_port lib u.netloc (some 80)) _ (λ address. (refl, tt)))

    build_socks-Fits : Yields (FitsAs socks5 tag) (build_socks lib tag n)
    unfolding build_socks
    build_socks-Fits =
        Yields-bind _ (lib.urlparse n.uri) _
          (λ u. Yields-bind _ (host_port lib u.netloc (some 1080)) _ (λ address. (refl, tt)))

    build_shadowsocks-Fits : Yields (FitsAs ss tag) (build_shadowsocks lib tag n)
    unfolding build_shadowsocks
    build_shadowsocks-Fits =
        let body = (partition b'?' (partition b'#' (remove_prefix "ss://" n.uri)).0).0 in
        Yields-bind _
          (if has b'@' body then open_credentials lib body else closed_credentials lib body) _
          (λ c. Yields-bind _ (host_port lib c.authority (some 8388)) _ (λ address.
            elim (Bool-cases (one_of ss_methods (lib.unquote c.method))) [
              | inl known ↦ rw (known, one_of) (refl, known)
              | inr unknown ↦ rw (unknown, one_of) tt
            ]))

    vmess_outbound-Fits :
        (data_ : Fields) (host port uuid : Value)
        → Yields (FitsAs vmess tag) (vmess_outbound lib tag data_ host port uuid)
    unfolding vmess_outbound
    vmess_outbound-Fits data_ host port uuid = Yields-bind _ (lib.int port) _ (λ k.
        Yields-bind _ (int_of lib (field_of ("aid" ∷ "alterId" ∷ []) data_)) _ (λ alter_id.
          Yields-bind _ (payload_tls lib data_) _ (λ tls.
            Yields-bind _ (payload_transport lib data_ (given (field_of ("net" ∷ []) data_))) _
              (λ transport. (refl, tt)))))

    build_vmess_object-Fits :
        (data_ : Fields) → Yields (FitsAs vmess tag) (build_vmess_object lib tag data_)
    unfolding build_vmess_object
    build_vmess_object-Fits data_ =
        Yields-bind _ (required (given (field_of ("add" ∷ "host" ∷ []) data_))) _ (λ host.
          Yields-bind _ (required (field_of ("port" ∷ []) data_)) _ (λ port.
            Yields-bind _ (required (given (field_of ("id" ∷ []) data_))) _
              (λ uuid. vmess_outbound-Fits data_ host port uuid)))

    build_vmess_json-Fits :
        (body : String) → Yields (FitsAs vmess tag) (build_vmess_json lib tag body)
    unfolding build_vmess_json
    build_vmess_json-Fits body =
        Yields-bind _ (decode_b64 lib body) _
          (λ payload. Yields-bind _ (fields_of (lib.loads payload)) _ build_vmess_object-Fits)

    build_vmess_uri-Fits :
        (body : String) → Yields (FitsAs vmess tag) (build_vmess_uri lib tag body)
    unfolding build_vmess_uri
    build_vmess_uri-Fits body =
        let (authority, _, query) = partition b'?' (partition b'@' body).2 in
        let q = query_of lib query in
        Yields-bind _ (host_port lib authority (some 443)) _ (λ address.
          Yields-bind _ (int_of lib (given (or_first (first q "alterId") (first q "aid")))) _
            (λ alter_id. Yields-bind _ (tls_from_query lib q false) _ (λ tls.
              Yields-bind _ (transport_from_query lib q "net") _ (λ transport. (refl, tt)))))

    build_vmess-Fits : Yields (FitsAs vmess tag) (build_vmess lib tag n)
    unfolding build_vmess
    build_vmess-Fits =
        let body = (partition b'#' (remove_prefix "vmess://" n.uri)).0 in
        elim (Bool-cases (has b'@' body)) [
          | inl plain ↦ rw (plain, build_vmess) (build_vmess_uri-Fits body)
          | inr packed ↦ rw (packed, build_vmess) (build_vmess_json-Fits body)
        ]

    build-Fits : (p : Protocol) → Yields (FitsAs p tag) (build lib p tag n)
    build-Fits vless = build_vless-Fits
    build-Fits vmess = build_vmess-Fits
    build-Fits ss = build_shadowsocks-Fits
    build-Fits ssr = tt
    build-Fits trojan = build_trojan-Fits
    build-Fits tuic = build_tuic-Fits
    build-Fits hysteria2 = build_hysteria2-Fits
    build-Fits http = build_http-Fits
    build-Fits socks5 = build_socks-Fits

  -- An outbound that is rendered carries its node's tag and the fields of its node's protocol; that
  -- of a trojan, tuic or hysteria2 node has a TLS server name, and that of an ss node a cipher of
  -- the list. An ssr node renders no outbound.
  pub outbound_from_node-Fits :
      (n : Node) → Yields (FitsAs n.protocol (node_tag lib n)) (outbound_from_node lib n)
  unfolding outbound_from_node
  outbound_from_node-Fits n = build-Fits (node_tag lib n) n n.protocol
