-- ===== src/Scraper/Parse/Address.antt =====
-- Addresses and the legacy form of Shadowsocks URIs, engine/scraper/parse.py.
use Prim.Native.String.{◌++◌}
use infinity_proxy.Prelude.{
  ℕ, zero, suc, ◌≤◌, ◌<◌, ◌≡◌, refl, ap, ◌∙◌, String, true, false, ◌&&◌, Bool-cases, inl, inr,
  Option, none, some, leb, arith,
}
use infinity_proxy.Prelude.Text.{
  has, rpartition, rpartition-append, is_text, is_text-append, count_chars, append-single,
}
use infinity_proxy.Render.{ok}
use infinity_proxy.Scraper.Parse.{
  Parsing, Parsed, coerce_port, parse_host_port, b64_to_text, opened, legacy, parse_ss_loop,
}

-- A host and a port that are written with a colon between them are read back: the port is digits
-- that int reads as a number from 1 to 65535, and holds no colon; the host may hold colons.
pub parse_host_port-append :
    (p : Parsing) (default_port : Option ℕ) (host port : String) (n : ℕ)
    → is_text host ≡ true
    → has b':' port ≡ false
    → p.isdigit port ≡ true
    → p.int port ≡ ok n
    → 1 ≤ n
    → n ≤ 65535
    → parse_host_port p default_port (host ++ (":" ++ port)) ≡ ok (some (host, n))
unfolding parse_host_port coerce_port
parse_host_port-append p default_port host port n hosted plain digits reads low high =
    let cut : rpartition b':' (host ++ (":" ++ port)) ≡ (host, true, port) =
      ap (λ t. rpartition b':' (host ++ t)) (append-single ":" port)
      ∙ rpartition-append host ":" port plain in
    let in_range : leb 1 n && leb n 65535 ≡ true = ground (arith, low, high) in
    rw (is_text-append host (":" ++ port) hosted, cut, hosted, digits, reads, in_range) refl

legacy-enough :
    (f g : String → Parsed) (o : Option String)
    → ((payload : String) → o ≡ some payload → f payload ≡ g payload)
    → legacy f o ≡ legacy g o
legacy-enough f g none h = refl
legacy-enough f g (some payload) h = h payload refl

-- The payloads of the legacy form get shorter, so more rounds than the text has characters change
-- nothing.
pub parse_ss_loop-enough :
    (p : Parsing) (fuel : ℕ) (token authority : String)
    → ((s t : String) → opened s (b64_to_text p s) ≡ some t → count_chars t < count_chars s)
    → count_chars authority < fuel
    → parse_ss_loop p (suc fuel) token authority ≡ parse_ss_loop p fuel token authority
unfolding parse_ss_loop
parse_ss_loop-enough p zero token authority shorter h = absurd (omega (arith, h))
parse_ss_loop-enough p (suc fuel) token authority shorter h =
    elim (Bool-cases (has b'@' authority)) [
      | inl is ↦ rw is refl
      | inr is ↦ rw is (
          legacy-enough (parse_ss_loop p (suc fuel) token) (parse_ss_loop p fuel token)
            (opened authority (b64_to_text p authority))
            (λ payload there.
              parse_ss_loop-enough p fuel token payload shorter
                (omega (arith, h, shorter authority payload there))))
    ]
