-- ===== src/Probe/Run/Reported.antt =====
-- What a result of probe, engine/filter/probe.py, says of the node.
use infinity_proxy.Prelude.{ℕ, ◌≡◌, refl, ap, ◌∙◌, Bool, true, false, Option, none, some, arith}
use infinity_proxy.Models.{Node, Protocol, vless, trojan}
use infinity_proxy.Render.{Outcome, ok, raised}
use infinity_proxy.Wire.{Conn, Io}
use infinity_proxy.Probe.{probeable, unprobeable_reason}
use infinity_proxy.Probe.Challenge.{RelayConfig, relay_config}
use infinity_proxy.Probe.Judge.{Verdict, relay}
use infinity_proxy.Probe.Judge.Relayed.{IsRelayed, relay-IsRelayed}
use infinity_proxy.Probe.Dial.{Memo, dial}
use infinity_proxy.Probe.Run.{
  ProbeCall, Attempt, over, before, target, attempt_relay, attempt_as, attempt_if, attempt,
  reported, probe,
}

-- vless and trojan
abbrev pub is_relay : Protocol → Bool
is_relay vless = true
is_relay trojan = true
is_relay _ = false

-- an attempt that certifies the node
abbrev Certifies : Attempt → Type 0
Certifies ((ok (none, kb)), memo) = Unit
Certifies ((ok (some reason, kb)), memo) = ⊥
Certifies (raised f, memo) = ⊥

before-Certifies {ℓ} :
    {A : Type ℓ} (o : Outcome A) (memo : Memo) (k : A → Attempt)
    → Certifies (before o memo k)
    → (a : A) × (o ≡ ok a) × Certifies (k a)
before-Certifies (ok a) memo k h = (a, refl, h)
before-Certifies (raised f) memo k h = absurd h

-- the verdict of a connection
run_of :
    (m : Io Verdict) (c : Conn) (memo : Memo) (r : Outcome Verdict × Conn)
    → m c ≡ r
    → Certifies (r.0, memo)
    → (kb : Option ℕ) × (c' : Conn) × (m c ≡ (ok (none, kb), c'))
run_of m c memo (ok (none, kb), c') h k = (kb, c', h)
run_of m c memo (ok (some reason, kb), c') h k = absurd k
run_of m c memo (raised f, c') h k = absurd k

over-Certifies :
    (m : Io Verdict) (d : Outcome Conn × Memo)
    → Certifies (over m d)
    → (c : Conn) × (d.0 ≡ ok c) × ((kb : Option ℕ) × (c' : Conn) × (m c ≡ (ok (none, kb), c')))
over-Certifies m (ok c, memo) h = (c, refl, run_of m c memo (m c) refl h)
over-Certifies m (raised f, memo) h = absurd h

reported-Certifies :
    (call : ProbeCall) (n : Node) (a : Attempt) → (reported call n a.0).alive ≡ true → Certifies a
reported-Certifies call n (ok (none, kb), memo) h = tt
reported-Certifies call n (ok (some reason, kb), memo) h = absurd (grind (arith, h))
reported-Certifies call n (raised f, memo) h = absurd (grind (arith, h))

-- The endpoint answered the dial, and over that connection the server relayed.
abbrev pub HasRelayed : ProbeCall → Node → Memo → Type 0
HasRelayed call n memo =
    (conf : RelayConfig) × (relay_config call.probing n ≡ ok conf)
    × ((c : Conn) × ((dial call.connect call.now_us n memo).0 ≡ ok c)
        × IsRelayed call.probing n conf (target call) c)

attempt_relay-HasRelayed :
    (call : ProbeCall) (n : Node) (memo : Memo)
    → Certifies (attempt_relay call n memo)
    → HasRelayed call n memo
attempt_relay-HasRelayed call n memo h =
    let p = call.probing in
    let (conf, is, over_) = before-Certifies (relay_config p n) memo _ h in
    let m = relay p n conf (target call) call.asked in
    let (c, dials, (kb, c', runs)) =
      over-Certifies m (dial call.connect call.now_us n memo) over_ in
    (conf, is, (c, dials, relay-IsRelayed p n conf (target call) call.asked c c' kb runs))

attempt_as-HasRelayed :
    (protocol : Protocol) (call : ProbeCall) (n : Node) (memo : Memo)
    → is_relay protocol ≡ true
    → Certifies (attempt_as protocol call n memo)
    → HasRelayed call n memo
attempt_as-HasRelayed vless call n memo is h = attempt_relay-HasRelayed call n memo h
attempt_as-HasRelayed trojan call n memo is h = attempt_relay-HasRelayed call n memo h
attempt_as-HasRelayed _ call n memo is h = absurd (grind (arith, is))

attempt_if-Certifies :
    (call : ProbeCall) (n : Node) (memo : Memo) (able : Bool)
    → Certifies (attempt_if call n memo able)
    → (able ≡ true) × Certifies (attempt_as n.protocol call n memo)
attempt_if-Certifies call n memo true h = (refl, h)
attempt_if-Certifies call n memo false h =
    absurd (before-Certifies (unprobeable_reason call.probing n) memo _ h).2

-- A vless or trojan node is reported alive only if it can be probed, its endpoint answered the dial,
-- and, sent the challenge and the request, it relayed bytes that are certified.
pub probe-HasRelayed :
    (call : ProbeCall) (n : Node) (memo : Memo)
    → is_relay n.protocol ≡ true
    → (probe call n memo).0.alive ≡ true
    → (probeable call.probing n ≡ ok true) × HasRelayed call n memo
unfolding probe
probe-HasRelayed call n memo is h =
    let certified = reported-Certifies call n (attempt call n memo) h in
    let (able, asks, rest) =
      before-Certifies (probeable call.probing n) memo (attempt_if call n memo) certified in
    let (passed, ran) = attempt_if-Certifies call n memo able rest in
    (asks ∙ ap ok passed, attempt_as-HasRelayed n.protocol call n memo is ran)
