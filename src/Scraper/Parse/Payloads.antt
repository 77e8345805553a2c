-- ===== src/Scraper/Parse/Payloads.antt =====
-- Candidates of encoded payloads: vmess, ssr and ss of engine/scraper/parse.py.
use infinity_proxy.Prelude.{
  ℕ, zero, suc, ◌≡◌, String, true, false, ◌&&◌, Bool-cases, inl, inr, Option, none, some, List, [],
  ◌∷◌, is_some, arith,
}
use infinity_proxy.Prelude.Text.{has, partition, split, is_text}
use infinity_proxy.Models.{ss, ssr}
use infinity_proxy.Prelude.Int.{pos, negsuc}
use infinity_proxy.Render.{
  ok, Yields, Yields-then, Value, null, boolean, number, real, text, composite, Loaded, object,
  not_object,
}
use infinity_proxy.Render.Vmess.{get_field}
use infinity_proxy.Scraper.Parse.{
  Parsing, Parsed, coerce_port, parse_host_port, text_option, candidate, some_text, vmess_port,
  vmess_candidate, vmess_loaded, vmess_payload, host_if, ssr_fields, ssr_payload, parse_ss_open,
  parse_ss_loop, legacy, opened, b64_to_text, ss_password,
}
use infinity_proxy.Scraper.Parse.Ports.{
  PortFits, AddressFits, Fits, in_ports-PortFits, coerce_port-PortFits, with_host-AddressFits,
  parse_host_port-AddressFits, candidate-Fits, from_address,
}

abbrev pub TextFits : Option String → Type 0
TextFits none = Unit
TextFits (some s) = is_text s ≡ true

pub text_option-TextFits : (s : String) → TextFits (text_option s)
text_option-TextFits s = elim (Bool-cases (is_text s)) [ inl is ↦ rw is is | inr is ↦ rw is tt ]

pub some_text-TextFits : (v : Option Value) → TextFits (some_text v)
some_text-TextFits none = tt
some_text-TextFits (some (text s)) = text_option-TextFits s
some_text-TextFits (some null) = tt
some_text-TextFits (some (boolean b)) = tt
some_text-TextFits (some (number n)) = tt
some_text-TextFits (some (real s b)) = tt
some_text-TextFits (some (composite s b)) = tt

pub vmess_port-PortFits : (p : Parsing) (v : Option Value) → Yields PortFits (vmess_port p v)
vmess_port-PortFits p none = tt
vmess_port-PortFits p (some (text s)) = coerce_port-PortFits p s
vmess_port-PortFits p (some null) = tt
vmess_port-PortFits p (some (boolean true)) = (omega arith, omega arith)
vmess_port-PortFits p (some (boolean false)) = tt
vmess_port-PortFits p (some (number (pos n))) = in_ports-PortFits n
vmess_port-PortFits p (some (number (negsuc n))) = tt
vmess_port-PortFits p (some (real s b)) = tt
vmess_port-PortFits p (some (composite s b)) = tt

pub vmess_candidate-Fits :
    (token : String) (server : Option String) (port : Option ℕ) (user : Option String)
    → TextFits server
    → PortFits port
    → Fits (vmess_candidate token server port user)
vmess_candidate-Fits token (some server) (some port) (some user) h k = (h, k)
vmess_candidate-Fits token (some server) (some port) none h k = tt
vmess_candidate-Fits token (some server) none user h k = tt
vmess_candidate-Fits token none port user h k = tt

pub vmess_payload-Fits :
    (p : Parsing) (token : String) (payload : Option String)
    → Yields Fits (vmess_payload p token payload)
vmess_payload-Fits p token none = tt
vmess_payload-Fits p token (some payload) = loaded (p.loads payload)
  where
    loaded : (o : Option Loaded) → Yields Fits (vmess_loaded p token o)
    loaded none = tt
    loaded (some not_object) = tt
    loaded (some (object data_)) =
        let server = some_text (get_field "add" data_) in
        let user = some_text (get_field "id" data_) in
        elim (Bool-cases (is_some server)) [
          | inl is ↦ rw is (
              Yields-then PortFits Fits (vmess_port p (get_field "port" data_))
                (λ port. ok (vmess_candidate token server port user))
                (vmess_port-PortFits p (get_field "port" data_))
                (λ port fits.
                  vmess_candidate-Fits token server port user
                    (some_text-TextFits (get_field "add" data_)) fits))
          | inr is ↦ rw is tt
        ]

pub host_if-AddressFits :
    (server : String) (n : Option ℕ) → PortFits n → AddressFits (host_if server n)
host_if-AddressFits server n h = elim (Bool-cases (is_text server)) [
  | inl is ↦ rw is (with_host-AddressFits server n is h)
  | inr is ↦ rw is tt
]

pub ssr_fields-Fits :
    (p : Parsing) (token : String) (fields : List String) → Yields Fits (ssr_fields p token fields)
ssr_fields-Fits p token [] = tt
ssr_fields-Fits p token (server ∷ []) = tt
ssr_fields-Fits p token (server ∷ port ∷ fields) =
    Yields-then PortFits Fits (coerce_port p port)
      (λ n. ok (candidate token ssr none (host_if server n))) (coerce_port-PortFits p port)
      (λ n fits.
        candidate-Fits token ssr none (host_if server n) (host_if-AddressFits server n fits))

pub ssr_payload-Fits :
    (p : Parsing) (token : String) (payload : Option String)
    → Yields Fits (ssr_payload p token payload)
ssr_payload-Fits p token none = tt
ssr_payload-Fits p token (some payload) = ssr_fields-Fits p token (split b':' payload)

pub parse_ss_open-Fits :
    (p : Parsing) (token authority : String) → Yields Fits (parse_ss_open p token authority)
unfolding parse_ss_open
parse_ss_open-Fits p token authority =
    let (userinfo, _, hostpart) = partition b'@' authority in
    elim (Bool-cases (is_text userinfo && is_text hostpart)) [
      | inl is ↦ rw is (
          from_address (parse_host_port p none hostpart) token ss (some (ss_password p userinfo))
            (parse_host_port-AddressFits p none hostpart tt))
      | inr is ↦ rw is tt
    ]

pub legacy-Fits :
    (further : String → Parsed) (o : Option String)
    → ((payload : String) → Yields Fits (further payload))
    → Yields Fits (legacy further o)
legacy-Fits further none h = tt
legacy-Fits further (some payload) h = h payload

pub parse_ss_loop-Fits :
    (p : Parsing) (fuel : ℕ) (token authority : String)
    → Yields Fits (parse_ss_loop p fuel token authority)
unfolding parse_ss_loop
parse_ss_loop-Fits p zero token authority = tt
parse_ss_loop-Fits p (suc fuel) token authority = elim (Bool-cases (has b'@' authority)) [
  | inl is ↦ rw is (parse_ss_open-Fits p token authority)
  | inr is ↦ rw is (
      legacy-Fits (parse_ss_loop p fuel token) (opened authority (b64_to_text p authority))
        (parse_ss_loop-Fits p fuel token))
]
