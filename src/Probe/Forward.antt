-- ===== src/Probe/Forward.antt =====
-- The clients of forward proxies in engine/filter/probe.py: HTTP CONNECT and SOCKS5.
pub mod Until
use infinity_proxy.Prelude.{
  ℕ, zero, suc, ◌+◌, ◌-◌, Bool, true, false, not, Option, none, some, List, [], ◌∷◌, ◌++◌, length,
  take, drop, if◌then◌else◌,
}
use infinity_proxy.Models.{Node, Protocol, socks5}
use infinity_proxy.Render.{Outcome, ok, raised}
use infinity_proxy.Wire.{
  Bytes, ascii, same_bytes, Event, sends, closes, fails, Conn, Io, ◌>>=◌, ◌>>◌, pure, lift,
  send_all, recv_script, recvn,
}
use infinity_proxy.Probe.{Probing, Cause, connect_rejected, no_method, no_grant}
use infinity_proxy.Probe.Http.{is_successful_http, probe_request}
use infinity_proxy.Probe.Challenge.{byte, two_bytes}
use infinity_proxy.Probe.Judge.{Throughput, Target, Verdict, judged, and_measure}

-- buf.endswith(sentinel)
abbrev pub ends_with : Bytes → Bytes → Bool
ends_with sentinel buf = same_bytes sentinel (drop (length buf - length sentinel) buf)

-- the bytes that a peer has left to send
abbrev pub script_size : List Event → ℕ
script_size [] = 0
script_size (sends bs ∷ rest) = length bs + script_size rest
script_size (closes ∷ rest) = script_size rest
script_size (fails f ∷ rest) = script_size rest

-- what a round does with what it reads
abbrev pub until_round :
    (Bytes → List Event → Outcome Bytes × List Event)
    → Bytes
    → Outcome Bytes × List Event
    → Outcome Bytes × List Event
until_round further buf (ok [], rest) = (ok buf, rest)
until_round further buf (ok (b ∷ bs), rest) = further (buf ++ b ∷ bs) rest
until_round further buf (raised f, rest) = (raised f, rest)

-- The loop of _read_until: every round that goes on reads a byte at least.
unfoldable pub until_loop : ℕ → Bytes → Bytes → List Event → Outcome Bytes × List Event
until_loop zero sentinel buf script = (ok buf, script)
until_loop (suc fuel) sentinel buf script =
    let next = until_loop fuel sentinel in
    if ends_with sentinel buf
    then (ok buf, script)
    else until_round next buf (recv_script 256 script)

abbrev pub with_script : Conn → Outcome Bytes × List Event → Outcome Bytes × Conn
with_script c (r, rest) = (r, record c { script = rest })

unfoldable pub read_until : Bytes → Io Bytes
read_until sentinel c = with_script c (until_loop (suc (script_size c.script)) sentinel [] c.script)

abbrev pub blank_line : Bytes
blank_line = ascii "\r\n\r\n"

unfoldable pub http_connect_setup : Probing → Bytes → ℕ → Io (Option Cause)
http_connect_setup p host port =
    let target = host ++ (ascii ":" ++ ascii (p.library.decimal port)) in
    send_all
      (ascii "CONNECT " ++ (target ++ (ascii " HTTP/1.1\r\nHost: " ++ (target ++ blank_line))))
    >> read_until blank_line
    >>= λ resp. pure (if is_successful_http resp then none else some connect_rejected)

-- the answer to CONNECT
abbrev pub socks5_grant : Bytes → Option Cause
socks5_grant grant = if same_bytes (take 2 grant) (5 ∷ 0 ∷ []) then none else some no_grant

abbrev pub socks5_connect : Bytes → ℕ → Io (Option Cause)
socks5_connect host port = lift (byte (length host)) >>= λ size. lift (two_bytes port) >>= λ target.
    send_all (5 ∷ 1 ∷ 0 ∷ 3 ∷ size ++ (host ++ target)) >> recvn 10 >>= λ grant.
    pure (socks5_grant grant)

unfoldable pub socks5_setup : Bytes → ℕ → Io (Option Cause)
socks5_setup host port = send_all (5 ∷ 1 ∷ 0 ∷ []) >> recvn 2 >>= λ reply.
    if same_bytes reply (5 ∷ 0 ∷ []) then socks5_connect host port else pure (some no_method)

abbrev pub setup : Probing → Protocol → Bytes → ℕ → Io (Option Cause)
setup p socks5 host port = socks5_setup host port
setup p _ host port = http_connect_setup p host port

-- once the proxy has granted the tunnel
abbrev pub through : Probing → Target → Option Throughput → Option Cause → Io Verdict
through p target asked (some reason) = pure (some reason, none)
through p target asked none =
    let sent = probe_request target.path target.host in
    send_all sent >> recvn 16 >>= λ relayed. and_measure p asked (judged sent relayed)

-- _attempt_forward once the endpoint has answered the dial
unfoldable pub forward : Probing → Node → Target → Option Throughput → Io Verdict
forward p n target asked = setup p n.protocol target.host target.port >>= through p target asked
