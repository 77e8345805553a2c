-- ===== src/Probe/Judge/Relayed.antt =====
-- What a vless or trojan server has done when _attempt_relay of engine/filter/probe.py accepts it.
use infinity_proxy.Prelude.{ℕ, ◌≡◌, refl, ap, ◌∙◌, Option, none, some, ◌++◌, take, arith}
use mathlib.Core.Path.{subst}
use infinity_proxy.Models.{Node}
use infinity_proxy.Render.{Outcome, ok}
use infinity_proxy.Wire.{Bytes, Conn, ◌>>◌, lift, send_all}
use infinity_proxy.Wire.Stream.{stream}
use infinity_proxy.Wire.Exact.{bind-inverse}
use infinity_proxy.Probe.{Probing, Cause}
use infinity_proxy.Probe.Http.{probe_request}
use infinity_proxy.Probe.Challenge.{RelayConfig, challenge_for}
use infinity_proxy.Probe.Judge.{Throughput, Target, judge, and_measure, secure, exchange, relay}
use infinity_proxy.Probe.Judge.Verdict.{IsCertified, IsJudged, judge-IsJudged}

-- The challenge and the request were sent, over TLS where the node asks for it, and what the server
-- then sends is certified.
abbrev pub IsRelayed : Probing → Node → RelayConfig → Target → Conn → Type 0
IsRelayed p n conf target c =
    (challenge : Bytes) × (challenge_for p n target.host target.port ≡ ok challenge)
    × (let sent = challenge ++ probe_request target.path target.host in
        (c' : Conn) × ((secure p n conf >> send_all sent) c ≡ (ok tt, c'))
        × IsCertified n sent (take 16 (stream c'.script)))

judged_none :
    (n : Node) (sent : Bytes) (c c' : Conn) (r : Outcome (Option Cause) × Conn)
    → r ≡ (ok none, c')
    → IsJudged n sent c.script r
    → IsCertified n sent (take 16 (stream c.script))
judged_none n sent c c' r h k = ((subst (IsJudged n sent c.script) h k).0).0 refl

and_measure-none :
    (p : Probing) (asked : Option Throughput) (error : Option Cause) (kb : Option ℕ) (c c' : Conn)
    → and_measure p asked error c ≡ (ok (none, kb), c')
    → error ≡ none
and_measure-none p asked none kb c c' h = refl
and_measure-none p asked (some reason) kb c c' h = absurd (grind (arith, ap (λ x. x.0) h))

-- A relay that is accepted is one that relayed.
pub relay-IsRelayed :
    (p : Probing) (n : Node) (conf : RelayConfig) (target : Target) (asked : Option Throughput)
    (c c' : Conn) (kb : Option ℕ)
    → relay p n conf target asked c ≡ (ok (none, kb), c')
    → IsRelayed p n conf target c
unfolding relay
relay-IsRelayed p n conf target asked c c' kb h =
    let made = challenge_for p n target.host target.port in
    let (challenge, d, asks, sends) =
      bind-inverse (lift made) (exchange p n conf target asked) c (none, kb) c' h in
    let sent = challenge ++ probe_request target.path target.host in
    let here : c ≡ d = ap (λ x. x.1) asks in
    let (error, e, hears, measures) =
      bind-inverse (secure p n conf >> send_all sent >> judge n sent) (and_measure p asked) d
        (none, kb) c' sends in
    let (_, f, opens, judges) =
      bind-inverse (secure p n conf >> send_all sent) (λ _. judge n sent) d error e hears in
    let accepted = and_measure-none p asked error kb e c' measures in
    (
      challenge,
      ap (λ x. x.0) asks,
      (
        f,
        ap (secure p n conf >> send_all sent) here ∙ opens,
        judged_none n sent f e (judge n sent f) (judges ∙ ap (λ r. (ok r, e)) accepted)
            (judge-IsJudged n sent f),
      ),
    )
