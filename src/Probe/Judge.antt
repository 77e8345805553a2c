-- ===== src/Probe/Judge.antt =====
-- The verdict on what a server relays, and the measure of its body: _judge, _measure_body and
-- _attempt_relay of engine/filter/probe.py.
pub mod Verdict
pub mod Measure
pub mod Relayed
use infinity_proxy.Prelude.{
  ℕ, zero, suc, ◌+◌, ◌-◌, ◌*◌, ◌/◌, ◌%◌, min, max, String, Bool, true, false, not, ◌||◌, ◌&&◌,
  Option, none, some, List, [], ◌∷◌, ◌++◌, length, ltb, ◌==◌, if◌then◌else◌, or_else,
}
use infinity_proxy.Prelude.Text.{is_text}
use infinity_proxy.Models.{Node, Protocol, vless, trojan}
use infinity_proxy.Render.{Fault, timeout, Outcome, ok, raised}
use infinity_proxy.Wire.{
  Bytes, ascii, same_bytes, begins_with, Event, Conn, Io, ◌>>=◌, ◌>>◌, pure, lift, send_all,
  recv_script, recvn,
}
use infinity_proxy.Probe.{Probing, Cause, non_relay, closed_early, echo, canned, text_or}
use infinity_proxy.Probe.Http.{is_successful_http, probe_request}
use infinity_proxy.Probe.Challenge.{RelayConfig, relay_config, challenge_for}

-- ThroughputSpec; the host is kept as the bytes it encodes to
pub record Throughput : Type 0 where
  pub host : Bytes
  pub port : ℕ
  pub path : String
  pub sample_bytes : ℕ

-- where the probe is relayed to: the throughput target, or the default one
pub record Target : Type 0 where
  pub host : Bytes
  pub port : ℕ
  pub path : String

abbrev pub target_of : Target → Option Throughput → Target
target_of default none = default
target_of default (some t) = record { host = t.host; port = t.port; path = t.path }

-- the error of a probe, or none where the node is alive, and what was measured
abbrev pub Verdict : Type 0
Verdict = Option Cause × Option ℕ

abbrev pub is_vless : Protocol → Bool
is_vless vless = true
is_vless _ = false

abbrev pub is_trojan : Protocol → Bool
is_trojan trojan = true
is_trojan _ = false

-- the tests on the bytes relayed, for every protocol
unfoldable pub judged : Bytes → Bytes → Option Cause
judged sent got =
    if begins_with got sent then some echo else if is_successful_http got then none else some canned

abbrev pub judge_rest : Node → Bytes → Bytes → Option Cause
judge_rest n sent got =
    if is_trojan n.protocol && length got == 0 then some closed_early else judged sent got

unfoldable pub judge : Node → Bytes → Io (Option Cause)
judge n sent = recvn 2 >>= λ reply.
    if is_vless n.protocol && not (same_bytes reply (0 ∷ 0 ∷ []))
    then pure (some non_relay)
    else (recvn 14 >>= λ more. pure (judge_rest n sent (reply ++ more)))

-- `received += len(chunk)`, before what the rounds after it count
abbrev pub plus_chunk : ℕ → Outcome ℕ × List Event → Outcome ℕ × List Event
plus_chunk n (ok k, script) = (ok (n + k), script)
plus_chunk n (raised f, script) = (raised f, script)

-- a read that fails: a timeout ends the loop
abbrev pub end_of : Fault → Outcome ℕ
end_of timeout = ok 0
end_of f = raised f

-- what a round does with what it reads; `further` counts for the rounds after it
abbrev pub measure_round :
    (ℕ → List Event → Outcome ℕ × List Event)
    → ℕ
    → Outcome Bytes × List Event
    → Outcome ℕ × List Event
measure_round further need (ok [], rest) = (ok 0, rest)
measure_round further need (ok (b ∷ bs), rest) =
    plus_chunk (length (b ∷ bs)) (further (need - length (b ∷ bs)) rest)
measure_round further need (raised f, rest) = (end_of f, rest)

-- The loop of _measure_body; `need` is `sample_bytes - received`, and every round that goes on reads
-- a byte at least. The timeout of the socket is set once before the loop and holds for each read, so
-- it ends a round and is no deadline of the loop.
unfoldable pub measure_loop : ℕ → ℕ → List Event → Outcome ℕ × List Event
measure_loop fuel zero script = (ok 0, script)
measure_loop zero (suc need) script = (ok 0, script)
measure_loop (suc fuel) (suc need) script =
    measure_round (measure_loop fuel) (suc need) (recv_script (min 65536 (suc need)) script)

-- round(num / den), ties to the even number; the floats of the code are exact here
unfoldable pub round_div : ℕ → ℕ → ℕ
round_div num den =
    let q = num / den in
    let rest = 2 * (num % den) in if ltb den rest || (rest == den && q % 2 == 1) then suc q else q

-- received / 1024 / elapsed, the elapsed time in microseconds, 1 at least
unfoldable pub kib_s : ℕ → ℕ → Option ℕ
kib_s elapsed zero = none
kib_s elapsed (suc k) = some (round_div (suc k * 1000000) (1024 * max elapsed 1))

-- the rate, and the connection after the loop
abbrev pub rated : Probing → Conn → Outcome ℕ × List Event → Outcome (Option ℕ) × Conn
rated p c (ok k, rest) = (ok (kib_s p.elapsed_us k), record c { script = rest })
rated p c (raised f, rest) = (raised f, record c { script = rest })

unfoldable pub measure_body : Probing → ℕ → Io (Option ℕ)
measure_body p sample c = rated p c (measure_loop sample sample c.script)

-- a node that is alive is measured where a throughput is asked for
abbrev pub and_measure : Probing → Option Throughput → Option Cause → Io Verdict
and_measure p asked (some reason) = pure (some reason, none)
and_measure p none none = pure (none, none)
and_measure p (some t) none = measure_body p t.sample_bytes >>= λ kb. pure (none, kb)

-- `with ctx.wrap_socket(...)`
unfoldable pub secure : Probing → Node → RelayConfig → Io (Unit {0})
secure p n conf = if conf.tls then p.wrap_tls (text_or conf.sni n.server) else pure tt

-- what is sent, and the verdict on what comes back
abbrev pub exchange : Probing → Node → RelayConfig → Target → Option Throughput → Bytes → Io Verdict
exchange p n conf target asked challenge =
    let sent = challenge ++ probe_request target.path target.host in
    secure p n conf >> send_all sent >> judge n sent >>= and_measure p asked

-- _attempt_relay once the endpoint has answered the dial
unfoldable pub relay : Probing → Node → RelayConfig → Target → Option Throughput → Io Verdict
relay p n conf target asked =
    lift (challenge_for p n target.host target.port) >>= exchange p n conf target asked
