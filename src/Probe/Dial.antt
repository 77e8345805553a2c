-- ===== src/Probe/Dial.antt =====
-- The memo of refused dials of engine/filter/probe.py: _dial and _dial_fails. A dial holds the lock
-- twice, when it looks the endpoint up and when it has failed; the connection is made in between.
pub mod Bound
pub mod Refused
use infinity_proxy.Prelude.{
  ℕ, ◌+◌, String, Bool, true, false, ◌&&◌, ◌||◌, not, Option, none, some, List, [], ◌∷◌, length,
  drop, select, str_eq, leb, ltb, ◌==◌, if◌then◌else◌,
}
use infinity_proxy.Models.{Node}
use infinity_proxy.Render.{Fault, os_error, timeout, Outcome, ok, raised}
use infinity_proxy.Wire.{Conn}

pub record Endpoint : Type 0 where
  pub host : String
  pub port : ℕ

-- _dial_fails: the dict in its order, from the oldest key; the times are microseconds
abbrev pub Memo : Type 0
Memo = List (Endpoint × ℕ)

-- _clear_dial_memo_for_tests
abbrev pub clear_dial_memo : Memo → Memo
clear_dial_memo m = []

abbrev pub same_endpoint : Endpoint → Endpoint → Bool
same_endpoint e f = str_eq e.host f.host && e.port == f.port

-- _DIAL_MEMO_TTL_S and _DIAL_MEMO_MAX
abbrev pub ttl_us : ℕ
ttl_us = 30000000

abbrev pub memo_max : ℕ
memo_max = 4096

-- `failed_at < now - _DIAL_MEMO_TTL_S`
abbrev pub is_stale : ℕ → ℕ → Bool
is_stale now failed_at = ltb (failed_at + ttl_us) now

abbrev pub failed_at : Endpoint → Memo → Option ℕ
failed_at e [] = none
failed_at e ((f, t) ∷ m) = if same_endpoint e f then some t else failed_at e m

abbrev pub forget : Endpoint → Memo → Memo
forget e = select (λ (f, _). not (same_endpoint e f))

-- `_dial_fails[key] = now`: a key keeps its place
abbrev pub put_failure : Endpoint → ℕ → Memo → Memo
put_failure e now [] = (e, now) ∷ []
put_failure e now ((f, t) ∷ m) =
    if same_endpoint e f then (f, now) ∷ m else (f, t) ∷ put_failure e now m

-- what becomes of a dial whose endpoint failed, or did not
abbrev pub looked : Endpoint → ℕ → Memo → Option ℕ → Bool × Memo
looked e now m none = (false, m)
looked e now m (some t) = if is_stale now t then (false, forget e m) else (true, m)

-- the first critical section: whether the dial is refused, and the memo after it
unfoldable pub look_up : Endpoint → ℕ → Memo → Bool × Memo
look_up e now m = looked e now m (failed_at e m)

abbrev pub without_stale : ℕ → Memo → Memo
without_stale now m =
    if leb memo_max (length m) then select (λ (_, t). not (is_stale now t)) m else m

abbrev pub without_oldest : Memo → Memo
without_oldest m = if leb memo_max (length m) then drop 1 m else m

-- the second critical section; `now` is the time of the first
unfoldable pub record_failure : Endpoint → ℕ → Memo → Memo
record_failure e now m = put_failure e now (without_oldest (without_stale now m))

-- an OSError, which socket.timeout is
abbrev pub is_os : Fault → Bool
is_os os_error = true
is_os timeout = true
is_os f = false

abbrev pub endpoint_of : Node → Endpoint
endpoint_of n = record { host = n.server; port = n.port }

-- what the connection attempt gives, and the memo after it
abbrev pub after_connect : Endpoint → ℕ → Outcome Conn → Memo → Outcome Conn × Memo
after_connect e now (ok c) m = (ok c, m)
after_connect e now (raised f) m = (raised f, if is_os f then record_failure e now m else m)

-- _dial on its own; `connect` is socket.create_connection
unfoldable pub dial : (Endpoint → Outcome Conn) → ℕ → Node → Memo → Outcome Conn × Memo
dial connect now n m =
    let e = endpoint_of n in
    let (refused, m') = look_up e now m in
    if refused then (raised os_error, m') else after_connect e now (connect e) m'
