-- ===== src/Scraper/Parse/Uri.antt =====
-- parse_uri of engine/scraper/parse.py.
use infinity_proxy.Prelude.{
  ℕ, String, Bool, true, false, not, ◌&&◌, ◌||◌, Option, none, some, if◌then◌else◌,
}
use infinity_proxy.Prelude.Text.{partition, starts_with, is_text}
use infinity_proxy.Models.{Protocol, vless, vmess, ss, ssr, trojan, tuic, http, socks5}
use infinity_proxy.Render.{ok, ◌>>=◌}
use infinity_proxy.Scraper.Parse.{
  Parsing, partition_scheme, scheme_of, strip_query_fragment, parse_host_port, leading_user, Parsed,
  candidate, parse_vmess, parse_ssr, parse_ss,
}

-- the protocols whose address stands in the URI
abbrev pub user_of : Parsing → Protocol → Bool → String → Option String
user_of p tuic found userinfo = leading_user userinfo
user_of p http found userinfo = if found then leading_user userinfo else none
user_of p socks5 found userinfo = if found then leading_user userinfo else none
user_of p _ found userinfo = some (p.unquote userinfo)

abbrev pub needs_user : Protocol → Bool
needs_user http = false
needs_user socks5 = false
needs_user _ = true

abbrev pub default_port_of : Protocol → Option ℕ
default_port_of vless = some 443
default_port_of trojan = some 443
default_port_of _ = none

unfoldable pub parse_plain : Parsing → Protocol → String → String → Parsed
parse_plain p protocol token authority =
    let (userinfo, found, hostpart) = partition b'@' authority in
    if needs_user protocol && not (found && is_text userinfo)
    then ok none
    else (parse_host_port p (default_port_of protocol) (if found then hostpart else authority)
        >>= λ hp. ok (candidate token protocol (user_of p protocol found userinfo) hp))

abbrev pub parse_as : Parsing → Option Protocol → String → String → Parsed
parse_as p none token authority = ok none
parse_as p (some vmess) token authority = parse_vmess p token authority
parse_as p (some ssr) token authority = parse_ssr p token authority
parse_as p (some ss) token authority = parse_ss p token authority
parse_as p (some protocol) token authority = parse_plain p protocol token authority

unfoldable pub parse_uri : Parsing → String → Parsed
parse_uri p uri =
    let token = p.strip uri in
    let (scheme, found, rest) = partition_scheme token in
    if not (is_text token) || starts_with "#" token
    then ok none
    else if found
    then parse_as p (scheme_of (p.lower scheme)) token (strip_query_fragment rest)
    else (parse_host_port p none token >>= λ hp. ok (candidate token http none hp))
