-- ===== src/Scraper/Parse/Ports.antt =====
-- Hosts and ports that engine/scraper/parse.py reads.
use infinity_proxy.Prelude.{
  ℕ, ◌≤◌, ◌≡◌, String, true, ◌&&◌, Bool-cases, inl, inr, Option, none, some, leb, arith,
}
use infinity_proxy.Prelude.Text.{rpartition, is_text}
use infinity_proxy.Models.{NodeCandidate, Protocol}
use infinity_proxy.Render.{Outcome, ok, ◌>>=◌, Yields, Yields-bind, Yields-then}
use infinity_proxy.Scraper.Parse.{
  Parsing, in_ports, coerce_port, with_host, parse_host_port, candidate,
}

abbrev pub IsPort : ℕ → Type 0
IsPort n = (1 ≤ n) × (n ≤ 65535)

-- a port, if there is one
abbrev pub PortFits : Option ℕ → Type 0
PortFits none = Unit
PortFits (some n) = IsPort n

-- a host that is there and a port
abbrev pub AddressFits : Option (String × ℕ) → Type 0
AddressFits none = Unit
AddressFits (some (host, port)) = (is_text host ≡ true) × IsPort port

-- a candidate with an address that can be dialled
abbrev pub HasAddress : NodeCandidate → Type 0
HasAddress c = (is_text c.server ≡ true) × IsPort c.port

abbrev pub Fits : Option NodeCandidate → Type 0
Fits none = Unit
Fits (some c) = HasAddress c

pub in_ports-PortFits : (n : ℕ) → PortFits (in_ports n)
in_ports-PortFits n = elim (Bool-cases (leb 1 n && leb n 65535)) [
  | inl is ↦ rw is (ground arith, ground arith)
  | inr is ↦ rw is tt
]

pub coerce_port-PortFits : (p : Parsing) (s : String) → Yields PortFits (coerce_port p s)
unfolding coerce_port
coerce_port-PortFits p s = elim (Bool-cases (p.isdigit s)) [
  | inl is ↦
      rw is (Yields-bind PortFits (p.int s) (λ n. ok (in_ports n)) (λ n. in_ports-PortFits n))
  | inr is ↦ rw is tt
]

pub with_host-AddressFits :
    (host : String) (n : Option ℕ)
    → is_text host ≡ true
    → PortFits n
    → AddressFits (with_host host n)
with_host-AddressFits host none h k = tt
with_host-AddressFits host (some n) h k = (h, k)

pub parse_host_port-AddressFits :
    (p : Parsing) (default_port : Option ℕ) (authority : String)
    → PortFits default_port
    → Yields AddressFits (parse_host_port p default_port authority)
unfolding parse_host_port
parse_host_port-AddressFits p default_port authority d = elim (Bool-cases (is_text authority)) [
  | inr is ↦ rw is tt
  | inl is ↦ elim (Bool-cases (rpartition b':' authority).1) [
    | inr found ↦ rw (is, found) (with_host-AddressFits authority default_port is d)
    | inl found ↦ elim (Bool-cases (is_text (rpartition b':' authority).0)) [
      | inr hosted ↦ rw (is, found, hosted) tt
      | inl hosted ↦
          rw (is, found, hosted)
            (Yields-then PortFits AddressFits (coerce_port p (rpartition b':' authority).2)
              (λ n. ok (with_host (rpartition b':' authority).0 n))
              (coerce_port-PortFits p (rpartition b':' authority).2)
              (λ n fits. with_host-AddressFits (rpartition b':' authority).0 n hosted fits))
    ]
  ]
]

pub candidate-Fits :
    (token : String) (protocol : Protocol) (user : Option String) (hp : Option (String × ℕ))
    → AddressFits hp
    → Fits (candidate token protocol user hp)
candidate-Fits token protocol user none h = tt
candidate-Fits token protocol user (some (host, port)) h = h

-- what is made of an address that was read
pub from_address :
    (m : Outcome (Option (String × ℕ))) (token : String) (protocol : Protocol)
    (user : Option String)
    → Yields AddressFits m
    → Yields Fits (m >>= λ hp. ok (candidate token protocol user hp))
from_address m token protocol user h =
    Yields-then AddressFits Fits m (λ hp. ok (candidate token protocol user hp)) h
      (λ hp fits. candidate-Fits token protocol user hp fits)
