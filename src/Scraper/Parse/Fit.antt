-- ===== src/Scraper/Parse/Fit.antt =====
-- What engine/scraper/parse.py lets into the pool.
use infinity_proxy.Prelude.{
  suc, ◌≡◌, refl, String, not, ◌&&◌, ◌||◌, Bool-cases, inl, inr, Option, none, some, List, [], ◌∷◌,
  ◌++◌, All, if◌then◌else◌, arith,
}
use infinity_proxy.Prelude.Text.{partition, count_chars, is_text, starts_with}
use infinity_proxy.Models.{
  NodeCandidate, Protocol, vless, vmess, ss, ssr, trojan, tuic, hysteria2, http, socks5,
}
use infinity_proxy.Render.{ok, ◌>>=◌, Yields, Yields-then}
use infinity_proxy.Scraper.Parse.{
  Parsing, parse_host_port, parse_vmess, parse_ssr, parse_ss, b64_to_text, scheme_of,
  partition_scheme, strip_query_fragment,
}
use infinity_proxy.Scraper.Parse.Uri.{
  parse_plain, user_of, needs_user, default_port_of, parse_as, parse_uri,
}
use infinity_proxy.Scraper.Parse.Tokens.{
  Feed, keep, parse_tokens, parse_line, parse_lines, parse_feed, scheme_tokens, feed_lines,
}
use infinity_proxy.Scraper.Parse.Ports.{
  PortFits, HasAddress, Fits, parse_host_port-AddressFits, from_address,
}
use infinity_proxy.Scraper.Parse.Payloads.{vmess_payload-Fits, ssr_payload-Fits, parse_ss_loop-Fits}

default_port_of-PortFits : (protocol : Protocol) → PortFits (default_port_of protocol)
default_port_of-PortFits vless = (omega arith, omega arith)
default_port_of-PortFits trojan = (omega arith, omega arith)
default_port_of-PortFits vmess = tt
default_port_of-PortFits ss = tt
default_port_of-PortFits ssr = tt
default_port_of-PortFits tuic = tt
default_port_of-PortFits hysteria2 = tt
default_port_of-PortFits http = tt
default_port_of-PortFits socks5 = tt

parse_plain-Fits :
    (p : Parsing) (protocol : Protocol) (token authority : String)
    → Yields Fits (parse_plain p protocol token authority)
unfolding parse_plain
parse_plain-Fits p protocol token authority =
    let (userinfo, found, hostpart) = partition b'@' authority in
    let address = if found then hostpart else authority in
    elim (Bool-cases (needs_user protocol && not (found && is_text userinfo))) [
      | inl is ↦ rw is tt
      | inr is ↦ rw is (
          from_address (parse_host_port p (default_port_of protocol) address) token protocol
            (user_of p protocol found userinfo)
            (parse_host_port-AddressFits p (default_port_of protocol) address
              (default_port_of-PortFits protocol)))
    ]

parse_as-Fits :
    (p : Parsing) (o : Option Protocol) (token authority : String)
    → Yields Fits (parse_as p o token authority)
unfolding parse_vmess parse_ssr parse_ss
parse_as-Fits p none token authority = tt
parse_as-Fits p (some vmess) token authority = vmess_payload-Fits p token (b64_to_text p authority)
parse_as-Fits p (some ssr) token authority = ssr_payload-Fits p token (b64_to_text p authority)
parse_as-Fits p (some ss) token authority =
    parse_ss_loop-Fits p (suc (count_chars authority)) token authority
parse_as-Fits p (some vless) token authority = parse_plain-Fits p vless token authority
parse_as-Fits p (some trojan) token authority = parse_plain-Fits p trojan token authority
parse_as-Fits p (some tuic) token authority = parse_plain-Fits p tuic token authority
parse_as-Fits p (some hysteria2) token authority = parse_plain-Fits p hysteria2 token authority
parse_as-Fits p (some http) token authority = parse_plain-Fits p http token authority
parse_as-Fits p (some socks5) token authority = parse_plain-Fits p socks5 token authority

parse_uri-Fits : (p : Parsing) (uri : String) → Yields Fits (parse_uri p uri)
unfolding parse_uri
parse_uri-Fits p uri =
    let token = p.strip uri in
    let (scheme, found, rest) = partition_scheme token in
    elim (Bool-cases (not (is_text token) || starts_with "#" token)) [
      | inl is ↦ rw is tt
      | inr is ↦ elim (Bool-cases found) [
        | inl there ↦
            rw (is, there)
              (parse_as-Fits p (scheme_of (p.lower scheme)) token (strip_query_fragment rest))
        | inr plain ↦
            rw (is, plain)
              (from_address (parse_host_port p none token) token http none
                (parse_host_port-AddressFits p none token tt))
      ]
    ]

-- a candidate of a feed
abbrev pub IsOf : Feed → NodeCandidate → Type 0
IsOf feed c = (c.source ≡ feed.name) × HasAddress c

tagged-All :
    (feed : Feed) (c : Option NodeCandidate) (cs : List NodeCandidate)
    → Fits c
    → All (IsOf feed) cs
    → All (IsOf feed) (keep feed c cs)
tagged-All feed none cs h k = k
tagged-All feed (some c) cs h k = ((refl, h), k)

All-append :
    (feed : Feed) (cs others : List NodeCandidate)
    → All (IsOf feed) cs
    → All (IsOf feed) others
    → All (IsOf feed) (cs ++ others)
All-append feed [] others h k = k
All-append feed (c ∷ cs) others h k = (h.0, All-append feed cs others h.1 k)

parse_tokens-IsOf :
    (p : Parsing) (feed : Feed) (ts : List String)
    → Yields (All (IsOf feed)) (parse_tokens p feed ts)
unfolding parse_tokens
parse_tokens-IsOf p feed [] = tt
parse_tokens-IsOf p feed (t ∷ ts) =
    Yields-then Fits (All (IsOf feed)) (parse_uri p t)
      (λ c. parse_tokens p feed ts >>= λ cs. ok (keep feed c cs)) (parse_uri-Fits p t)
      (λ c fits.
        Yields-then (All (IsOf feed)) (All (IsOf feed)) (parse_tokens p feed ts)
          (λ cs. ok (keep feed c cs)) (parse_tokens-IsOf p feed ts)
          (λ cs all. tagged-All feed c cs fits all))

parse_line-IsOf :
    (p : Parsing) (feed : Feed) (raw : String) → Yields (All (IsOf feed)) (parse_line p feed raw)
unfolding parse_line
parse_line-IsOf p feed raw =
    let line = p.strip raw in
    elim (Bool-cases (not (is_text line) || starts_with "#" line)) [
      | inl is ↦ rw is tt
      | inr is ↦ rw is (parse_tokens-IsOf p feed (scheme_tokens p line))
    ]

parse_lines-IsOf :
    (p : Parsing) (feed : Feed) (lines : List String)
    → Yields (All (IsOf feed)) (parse_lines p feed lines)
unfolding parse_lines
parse_lines-IsOf p feed [] = tt
parse_lines-IsOf p feed (line ∷ lines) =
    Yields-then (All (IsOf feed)) (All (IsOf feed)) (parse_line p feed line)
      (λ cs. parse_lines p feed lines >>= λ others. ok (cs ++ others)) (parse_line-IsOf p feed line)
      (λ cs h.
        Yields-then (All (IsOf feed)) (All (IsOf feed)) (parse_lines p feed lines)
          (λ others. ok (cs ++ others)) (parse_lines-IsOf p feed lines)
          (λ others k. All-append feed cs others h k))

-- Whatever a feed holds, each of its candidates carries the feed's name, and has a host and a port
-- from 1 to 65535.
pub parse_feed-IsOf :
    (p : Parsing) (feed : Feed) (body : String) → Yields (All (IsOf feed)) (parse_feed p feed body)
unfolding parse_feed
parse_feed-IsOf p feed body = parse_lines-IsOf p feed (feed_lines p feed body)
