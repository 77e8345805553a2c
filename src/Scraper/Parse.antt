-- ===== src/Scraper/Parse.antt =====
-- engine/scraper/parse.py: from the lines of a feed to candidates. What str, re's classes, base64,
-- json and urllib answer are arguments.
pub mod Uri
pub mod Tokens
pub mod Ports
pub mod Payloads
pub mod Fit
pub mod Address
use Prim.Native.Char.{code}
use Prim.Native.String
use infinity_proxy.Prelude.{
  ℕ, zero, suc, ◌+◌, String, Bool, true, false, not, ◌&&◌, ◌||◌, Option, none, some, List, [], ◌∷◌,
  str_eq, is_some, leb, if◌then◌else◌,
}
use infinity_proxy.Prelude.Int.{ℤ, pos, negsuc}
use infinity_proxy.Prelude.Text.{
  has, partition, rpartition, split, strip_prefix, starts_with, is_text, padded, count_chars,
}
use infinity_proxy.Models.{
  NodeCandidate, Protocol, vless, vmess, ss, ssr, trojan, tuic, hysteria2, http, socks5,
}
use infinity_proxy.Render.{
  Fault, value_error, attribute_error, Outcome, ok, raised, ◌>>=◌, Value, boolean, number, text,
  Loaded, object, not_object,
}
use infinity_proxy.Render.Vmess.{get_field}

pub record Parsing : Type 0 where
  pub strip : String → String
  pub lower : String → String
  pub unquote : String → String
  pub splitlines : String → List String
  pub is_space : ℕ → Bool
  pub is_word : ℕ → Bool
  pub isdigit : String → Bool
  pub int : String → Outcome ℕ
  pub urlsafe_b64decode : String → Option (List ℕ)
  pub b64decode : String → Option (List ℕ)
  pub decode_utf8 : List ℕ → Option String
  pub loads : String → Option Loaded

-- s.partition("://")
unfoldable pub partition_scheme : String → String × Bool × String
partition_scheme String.[] = ("", false, "")
partition_scheme (String.◌∷◌ c s) =
    let (before, found, after) = partition_scheme s in
    elim (strip_prefix "://" (String.◌∷◌ c s)) [
      | some rest ↦ ("", true, rest)
      | none ↦ (String.◌∷◌ c before, found, after)
    ]

-- SUPPORTED_SCHEMES, with the alias of hysteria2
unfoldable pub scheme_of : String → Option Protocol
scheme_of s =
    if str_eq s "vless"
    then some vless
    else if str_eq s "vmess"
    then some vmess
    else if str_eq s "ss"
    then some ss
    else if str_eq s "ssr"
    then some ssr
    else if str_eq s "trojan"
    then some trojan
    else if str_eq s "tuic"
    then some tuic
    else if str_eq s "hysteria2" || str_eq s "hy2"
    then some hysteria2
    else if str_eq s "http"
    then some http
    else if str_eq s "socks5"
    then some socks5
    else none

unfoldable pub strip_query_fragment : String → String
strip_query_fragment s = (partition b'#' (partition b'?' s).0).0

abbrev pub in_ports : ℕ → Option ℕ
in_ports n = if leb 1 n && leb n 65535 then some n else none

unfoldable pub coerce_port : Parsing → String → Outcome (Option ℕ)
coerce_port p s = if p.isdigit s then (p.int s >>= λ n. ok (in_ports n)) else ok none

abbrev pub with_host : String → Option ℕ → Option (String × ℕ)
with_host host none = none
with_host host (some port) = some (host, port)

-- _parse_host_port; no answer where there is no host or no port
unfoldable pub parse_host_port : Parsing → Option ℕ → String → Outcome (Option (String × ℕ))
parse_host_port p default_port authority =
    let (host, found, port) = rpartition b':' authority in
    if not (is_text authority)
    then ok none
    else if not found
    then ok (with_host authority default_port)
    else if is_text host
    then (coerce_port p port >>= λ n. ok (with_host host n))
    else ok none

abbrev pub text_option : String → Option String
text_option s = if is_text s then some s else none

-- _leading_user
unfoldable pub leading_user : String → Option String
leading_user userinfo = text_option (partition b':' userinfo).0

-- the first decoder that does not raise
abbrev pub first_of {ℓ} : {A : Type ℓ} → Option A → Option A → Option A
first_of none o = o
first_of (some a) o = some a

abbrev pub decoded : Parsing → Option (List ℕ) → Option String
decoded p none = none
decoded p (some bs) = p.decode_utf8 bs

unfoldable pub b64_to_text : Parsing → String → Option String
b64_to_text p s = decoded p (first_of (p.urlsafe_b64decode (padded s)) (p.b64decode (padded s)))

abbrev pub Parsed : Type 0
Parsed = Outcome (Option NodeCandidate)

abbrev pub candidate :
    String → Protocol → Option String → Option (String × ℕ) → Option NodeCandidate
candidate token protocol user none = none
candidate token protocol user (some (server, port)) = some (record {
  uri = token;
  protocol = protocol;
  server = server;
  port = port;
  user = user;
  source = "";
})

-- the port of a vmess payload: a text, or an int, which True and False are
abbrev pub vmess_port : Parsing → Option Value → Outcome (Option ℕ)
vmess_port p (some (text s)) = coerce_port p s
vmess_port p (some (number (pos n))) = ok (in_ports n)
vmess_port p (some (boolean true)) = ok (some 1)
vmess_port p _ = ok none

-- `isinstance(v, str) and v`
abbrev pub some_text : Option Value → Option String
some_text (some (text s)) = text_option s
some_text _ = none

abbrev pub vmess_candidate :
    String → Option String → Option ℕ → Option String → Option NodeCandidate
vmess_candidate token (some server) (some port) (some user) =
    candidate token vmess (some user) (some (server, port))
vmess_candidate token _ _ _ = none

-- `data.get` on what is no object raises
abbrev pub vmess_loaded : Parsing → String → Option Loaded → Parsed
vmess_loaded p token none = ok none
vmess_loaded p token (some not_object) = raised attribute_error
vmess_loaded p token (some (object data_)) =
    let server = some_text (get_field "add" data_) in
    if is_some server
    then (vmess_port p (get_field "port" data_) >>= λ port.
        ok (vmess_candidate token server port (some_text (get_field "id" data_))))
    else ok none

abbrev pub vmess_payload : Parsing → String → Option String → Parsed
vmess_payload p token none = ok none
vmess_payload p token (some payload) = vmess_loaded p token (p.loads payload)

unfoldable pub parse_vmess : Parsing → String → String → Parsed
parse_vmess p token authority = vmess_payload p token (b64_to_text p authority)

abbrev pub host_if : String → Option ℕ → Option (String × ℕ)
host_if server port = if is_text server then with_host server port else none

-- `payload.split(":", 5)`, of which the first two fields are read
abbrev pub ssr_fields : Parsing → String → List String → Parsed
ssr_fields p token (server ∷ port ∷ fields) =
    coerce_port p port >>= λ n. ok (candidate token ssr none (host_if server n))
ssr_fields p token _ = ok none

abbrev pub ssr_payload : Parsing → String → Option String → Parsed
ssr_payload p token none = ok none
ssr_payload p token (some payload) = ssr_fields p token (split b':' payload)

unfoldable pub parse_ssr : Parsing → String → String → Parsed
parse_ssr p token authority = ssr_payload p token (b64_to_text p authority)

-- what stands after the colon of a decoded userinfo, or the userinfo as it is
abbrev pub password_in : String → Option String → String
password_in userinfo none = userinfo
password_in userinfo (some plain) = if has b':' plain then (partition b':' plain).2 else userinfo

abbrev pub ss_password : Parsing → String → String
ss_password p userinfo =
    if has b':' userinfo
    then (partition b':' userinfo).2
    else password_in userinfo (b64_to_text p userinfo)

unfoldable pub parse_ss_open : Parsing → String → String → Parsed
parse_ss_open p token authority =
    let (userinfo, _, hostpart) = partition b'@' authority in
    if is_text userinfo && is_text hostpart
    then (parse_host_port p none hostpart >>= λ hp.
        ok (candidate token ss (some (ss_password p userinfo)) hp))
    else ok none

-- the payload of the legacy form, unless it is what was decoded
abbrev pub opened : String → Option String → Option String
opened authority none = none
opened authority (some payload) = if str_eq payload authority then none else some payload

abbrev pub legacy : (String → Parsed) → Option String → Parsed
legacy further none = ok none
legacy further (some payload) = further payload

-- _parse_ss: a payload is shorter than the text that it is decoded from.
unfoldable pub parse_ss_loop : Parsing → ℕ → String → String → Parsed
parse_ss_loop p zero token authority = ok none
parse_ss_loop p (suc fuel) token authority =
    if has b'@' authority
    then parse_ss_open p token authority
    else legacy (parse_ss_loop p fuel token) (opened authority (b64_to_text p authority))

unfoldable pub parse_ss : Parsing → String → String → Parsed
parse_ss p token authority = parse_ss_loop p (suc (count_chars authority)) token authority
