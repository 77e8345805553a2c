-- ===== src/Wire.antt =====
-- The sockets of engine/filter/probe.py. A peer is the list of what it does, in order: how its bytes
-- arrive in segments, when it closes, and when a read runs into the deadline or an error.
pub mod Stream
pub mod Exact
use Prim.Native.Char.{code}
use Prim.Native.String
use infinity_proxy.Prelude.{
  ℕ, zero, suc, ◌+◌, ◌-◌, String, Bool, true, false, ◌&&◌, List, [], ◌∷◌, ◌++◌, length, take, drop,
  leb, ◌==◌, if◌then◌else◌,
}
use infinity_proxy.Render.{Fault, os_error, timeout, Outcome, ok, raised}

abbrev pub Bytes : Type 0
Bytes = List ℕ

-- s.encode("ascii")
abbrev pub ascii : String → Bytes
ascii String.[] = []
ascii (String.◌∷◌ c s) = code c ∷ ascii s

abbrev pub same_bytes : Bytes → Bytes → Bool
same_bytes [] [] = true
same_bytes [] (c ∷ cs) = false
same_bytes (b ∷ bs) [] = false
same_bytes (b ∷ bs) (c ∷ cs) = b == c && same_bytes bs cs

-- data.startswith(prefix)
abbrev pub begins_with : Bytes → Bytes → Bool
begins_with [] bs = true
begins_with (p ∷ ps) [] = false
begins_with (p ∷ ps) (b ∷ bs) = p == b && begins_with ps bs

pub data Event : Type 0 where
  sends : Bytes → Event
  closes : Event
  fails : Fault → Event

-- the socket: what the peer still does, what was written, and whether writing raises
pub record Conn : Type 0 where
  pub script : List Event
  pub written : List Bytes
  pub broken : Bool

abbrev pub Io {ℓ} : Type ℓ → Type ℓ
Io A = Conn → Outcome A × Conn

infixl 5 ◌>>=◌ ◌>>◌
abbrev pub ◌>>=◌ {ℓ κ} : {A : Type ℓ} {B : Type κ} → Io A → (A → Io B) → Io B
(m >>= k) c = let (r, c') = m c in elim r [ ok a ↦ k a c' | raised f ↦ (raised f, c') ]

abbrev pub ◌>>◌ {ℓ} : {B : Type ℓ} → Io (Unit {0}) → Io B → Io B
m >> k = m >>= λ _. k

abbrev pub pure {ℓ} : {A : Type ℓ} → A → Io A
pure a c = (ok a, c)

-- a computation that reads no socket
abbrev pub lift {ℓ} : {A : Type ℓ} → Outcome A → Io A
lift r c = (r, c)

unfoldable pub send_all : Bytes → Io (Unit {0})
send_all bs c =
    if c.broken then (raised os_error, c) else (ok tt, record c { written = c.written ++ bs ∷ [] })

-- what is left of a segment of which `n` bytes are read
abbrev pub left_over : ℕ → Bytes → List Event → List Event
left_over n bs rest = if leb (length bs) n then rest else sends (drop n bs) ∷ rest

-- sock.recv(n): no bytes once the peer has closed, and an empty segment is a close
unfoldable pub recv_script : ℕ → List Event → Outcome Bytes × List Event
recv_script n [] = (ok [], [])
recv_script n (closes ∷ rest) = (ok [], closes ∷ rest)
recv_script n (fails f ∷ rest) = (raised f, rest)
recv_script n (sends [] ∷ rest) = (ok [], sends [] ∷ rest)
recv_script n (sends (b ∷ bs) ∷ rest) = (ok (take n (b ∷ bs)), left_over n (b ∷ bs) rest)

-- The loop of _recvn on the peer alone; `need` is `n - len(total)`. Every round that goes on reads a
-- byte at least, so as many rounds as bytes are needed are enough.
unfoldable pub recvn_loop : ℕ → ℕ → Bytes → List Event → Outcome Bytes × List Event
recvn_loop fuel zero total script = (ok total, script)
recvn_loop zero (suc need) total script = (ok total, script)
recvn_loop (suc fuel) (suc need) total script =
    let (r, rest) = recv_script (suc need) script in
    elim r [
      | ok [] ↦ (ok total, rest)
      | ok (b ∷ bs) ↦ recvn_loop fuel (suc need - length (b ∷ bs)) (total ++ b ∷ bs) rest
      | raised f ↦ (raised f, rest)
    ]

unfoldable pub recvn : ℕ → Io Bytes
unfolding recvn_loop
recvn n c = let (r, rest) = recvn_loop n n [] c.script in (r, record c { script = rest })
