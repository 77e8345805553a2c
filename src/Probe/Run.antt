-- ===== src/Probe/Run.antt =====
-- probe of engine/filter/probe.py: the gate, the attempt of the protocol, and what is reported.
pub mod Reported
use infinity_proxy.Prelude.{
  ℕ, String, Bool, true, false, Option, none, some, is_some, not, if◌then◌else◌,
}
use infinity_proxy.Models.{Node, Protocol, vless, trojan, ss, ProbeResult}
use infinity_proxy.Render.{Fault, os_error, timeout, Outcome, ok, raised}
use infinity_proxy.Wire.{Conn, Io}
use infinity_proxy.Probe.{
  Probing, Cipher, Cause, timed_out, os_failure, probe_raised, probeable, unprobeable_reason,
  SsParams, ss_params, cipher_of, key_len,
}
use infinity_proxy.Probe.Challenge.{relay_config}
use infinity_proxy.Probe.Judge.{Throughput, Target, target_of, Verdict, relay}
use infinity_proxy.Probe.Shadow.{spec_of, ss_master_key, ss_relay}
use infinity_proxy.Probe.Forward.{forward}
use infinity_proxy.Probe.Dial.{Endpoint, Memo, dial}

-- one call of probe: the world, the clock, the default target and what is asked for
pub record ProbeCall : Type 0 where
  pub probing : Probing
  pub connect : Endpoint → Outcome Conn
  pub now_us : ℕ
  pub latency_ms : ℕ
  pub default_target : Target
  pub asked : Option Throughput

abbrev pub Attempt : Type 0
Attempt = Outcome Verdict × Memo

-- what is done over the connection, if the dial gives one
abbrev pub over : Io Verdict → Outcome Conn × Memo → Attempt
over m (ok c, memo) = ((m c).0, memo)
over m (raised f, memo) = (raised f, memo)

-- a step before the dial, which leaves the memo as it is
abbrev pub before {ℓ} : {A : Type ℓ} → Outcome A → Memo → (A → Attempt) → Attempt
before (ok a) memo k = k a
before (raised f) memo k = (raised f, memo)

abbrev pub target : ProbeCall → Target
target c = target_of c.default_target c.asked

abbrev pub attempt_relay : ProbeCall → Node → Memo → Attempt
attempt_relay c n memo =
    before (relay_config c.probing n) memo
      λ conf. over (relay c.probing n conf (target c) c.asked) (dial c.connect c.now_us n memo)

abbrev pub attempt_ss : ProbeCall → Node → Memo → Attempt
attempt_ss c n memo =
    let p = c.probing in
    before (ss_params p.library n) memo λ s. before (spec_of (cipher_of s.method)) memo λ k.
      over (ss_relay p k (ss_master_key p (p.utf8 s.password) (key_len k)) (target c) c.asked)
        (dial c.connect c.now_us n memo)

abbrev pub attempt_forward : ProbeCall → Node → Memo → Attempt
attempt_forward c n memo =
    over (forward c.probing n (target c) c.asked) (dial c.connect c.now_us n memo)

abbrev pub attempt_as : Protocol → ProbeCall → Node → Memo → Attempt
attempt_as vless = attempt_relay
attempt_as trojan = attempt_relay
attempt_as ss = attempt_ss
attempt_as _ = attempt_forward

-- the gate: a node that cannot be probed is a verdict of its own
abbrev pub attempt_if : ProbeCall → Node → Memo → Bool → Attempt
attempt_if c n memo true = attempt_as n.protocol c n memo
attempt_if c n memo false =
    before (unprobeable_reason c.probing n) memo λ why. (ok (some why, none), memo)

-- the body of the try block
abbrev pub attempt : ProbeCall → Node → Memo → Attempt
attempt c n memo = before (probeable c.probing n) memo (attempt_if c n memo)

-- the two except clauses
abbrev pub caught : Fault → Cause
caught timeout = timed_out
caught os_error = os_failure os_error
caught f = probe_raised f

abbrev pub dead : ProbeCall → Node → Cause → Option ℕ → ProbeResult
dead c n reason kb = record {
  node_id = n.node_id;
  alive = false;
  latency_ms = some c.latency_ms;
  error = some (c.probing.wording reason);
  throughput_kb_s = kb;
}

abbrev pub reported : ProbeCall → Node → Outcome Verdict → ProbeResult
reported c n (ok (none, kb)) = record {
  node_id = n.node_id;
  alive = true;
  latency_ms = some c.latency_ms;
  error = none;
  throughput_kb_s = kb;
}
reported c n (ok (some reason, kb)) = dead c n reason kb
reported c n (raised f) = dead c n (caught f) none

unfoldable pub probe : ProbeCall → Node → Memo → ProbeResult × Memo
probe c n memo = let (verdict, memo') = attempt c n memo in (reported c n verdict, memo')
