-- ===== src/Examples/Probes.antt =====
-- Examples: a probe over sockets that are given, and the theorems about it.
use infinity_proxy.Prelude.{
  ◌<◌, ℕ, ◌+◌, ◌≤◌, ◌≡◌, ◌≢◌, refl, arith, true, false, none, some, List, [], ◌∷◌, ◌++◌, length,
  drop,
}
use infinity_proxy.Render.{ok}
use infinity_proxy.Wire.{
  Bytes, ascii, Event, sends, closes, Conn, send_all, recv_script, recvn_loop, recvn, pure,
}
use infinity_proxy.Wire.Stream.{stream, IsRead, recvn-IsRead}
use infinity_proxy.Probe.{Probing, aes_128_gcm, probeable, transport, first_text}
use infinity_proxy.Probe.Http.{
  code_at, after_version, status_at, http_status, is_successful_http, probe_request,
}
use infinity_proxy.Probe.Challenge.{relay_config, challenge_for, vless_challenge, byte, two_bytes}
use infinity_proxy.Probe.Judge.{Target, judged, judge, secure, relay}
use infinity_proxy.Probe.Judge.Verdict.{IsJudged, judge-IsJudged}
use infinity_proxy.Probe.Shadow.{Session, framed, session, ss_answer}
use infinity_proxy.Probe.Shadow.Nonce.{nonce_at, capacity, framed-IsSealed}
use infinity_proxy.Probe.Shadow.Server.{answer_of, ss_answer-honest}
use infinity_proxy.Probe.Forward.{blank_line, read_until}
use infinity_proxy.Probe.Forward.Until.{IsReadUntil, read_until-IsReadUntil}
use infinity_proxy.Probe.Dial.{Endpoint, look_up, record_failure, memo_max, ttl_us, dial}
use infinity_proxy.Probe.Dial.Bound.{Dials, start, fails, Dials-length}
use infinity_proxy.Probe.Dial.Refused.{IsRecorded, look_up-refuses}
use infinity_proxy.Probe.Run.{ProbeCall, probe}
use infinity_proxy.Probe.Run.Reported.{HasRelayed, probe-HasRelayed}
use infinity_proxy.Examples.{node}
use infinity_proxy.Examples.Requests.{library}

abbrev zeros16 : Bytes
zeros16 = 0 ∷ 0 ∷ 0 ∷ 0 ∷ 0 ∷ 0 ∷ 0 ∷ 0 ∷ 0 ∷ 0 ∷ 0 ∷ 0 ∷ 0 ∷ 0 ∷ 0 ∷ 0 ∷ []

abbrev probing : Probing
probing = record {
  library = library;
  parse_qs = λ q. [];
  hostname = λ u. none;
  uuid_bytes = λ s. some zeros16;
  utf8 = ascii;
  sha224_hex = λ bs. bs;
  md5 = λ bs. zeros16;
  hmac_sha1 = λ key bs. zeros16;
  encrypt = λ k key nonce bs. zeros16 ++ bs;
  decrypt = λ k key nonce bs. some (drop 16 bs);
  random = λ n. zeros16;
  wrap_tls = λ s. pure tt;
  elapsed_us = 1_000_000;
  in_time = λ c. true;
  wording = λ reason. "dead";
}

-- a server that answers in three pieces
abbrev answer : List Event
answer =
    sends (0 ∷ []) ∷ sends (0 ∷ ascii "HTTP/1.1 2") ∷ sends (ascii "04 No Content") ∷ closes ∷ []

abbrev served : Conn
served = record { script = answer; written = []; broken = false }

recvn-IsRead_example : IsRead 16 answer (recvn 16 served)
recvn-IsRead_example = recvn-IsRead 16 served

judge-IsJudged_example :
    IsJudged (node 1 300) (ascii "GET") answer (judge (node 1 300) (ascii "GET") served)
judge-IsJudged_example = judge-IsJudged (node 1 300) (ascii "GET") served

abbrev keyed : Session
keyed = session probing aes_128_gcm zeros16 zeros16

framed-IsSealed_example :
    (framed probing keyed (ascii "GET") served ≡ (
      ok (
          probing.encrypt keyed.cipher keyed.key (nonce_at 0) (0 ∷ 3 ∷ [])
          ++ probing.encrypt keyed.cipher keyed.key (nonce_at 1) (ascii "GET")),
      served,
    ))
    × (nonce_at 0 ≢ nonce_at 1)
    × ((i j : ℕ) → i < j → j < capacity 12 → nonce_at i ≢ nonce_at j)
framed-IsSealed_example = framed-IsSealed probing keyed (ascii "GET") served (omega arith)

abbrev granted : Conn
granted = record {
  script = sends (ascii "HTTP/1.1 200 OK\r\n\r") ∷ sends (ascii "\nHTTP") ∷ [];
  written = [];
  broken = false;
}

read_until-IsReadUntil_example : IsReadUntil blank_line granted (read_until blank_line granted)
read_until-IsReadUntil_example = read_until-IsReadUntil blank_line granted

abbrev endpoint : Endpoint
endpoint = record { host = "a.example"; port = 443 }

abbrev failed_once : Dials (record_failure endpoint 5 []) ((endpoint, 5) ∷ [])
failed_once = fails endpoint 5 start

Dials-length_example : length (record_failure endpoint 5 []) ≤ memo_max
Dials-length_example = Dials-length (record_failure endpoint 5 []) ((endpoint, 5) ∷ []) failed_once

refused : (look_up endpoint 9 (record_failure endpoint 5 [])).0 ≡ true
unfolding look_up record_failure
refused = refl

look_up-refuses_example : (t : ℕ) × IsRecorded endpoint t ((endpoint, 5) ∷ []) × (9 ≤ t + ttl_us)
look_up-refuses_example =
    look_up-refuses (record_failure endpoint 5 []) ((endpoint, 5) ∷ []) endpoint 9 failed_once
      refused

abbrev salted : Conn
salted = record {
  script =
      sends (
        zeros16
        ++ answer_of probing (session probing aes_128_gcm zeros16 zeros16) (ascii "HTTP/1.0 200")
            [])
      ∷ [];
  written = [];
  broken = false;
}

ss_answer-honest_example :
    (c' : Conn) × (ss_answer probing aes_128_gcm zeros16 (ascii "GET") salted ≡ (
      ok (judged (ascii "GET") (ascii "HTTP/1.0 200"), session probing aes_128_gcm zeros16 zeros16),
      c',
    ))
    × (stream c'.script ≡ [])
ss_answer-honest_example =
    ss_answer-honest probing aes_128_gcm zeros16 (ascii "GET") zeros16 (ascii "HTTP/1.0 200") []
      salted (λ k key nonce bs. (refl, omega arith)) refl (omega arith) (omega arith) refl

abbrev target : Target
target = record { host = ascii "www"; port = 80; path = "/" }

abbrev call : ProbeCall
call = record {
  probing = probing;
  connect = λ e. ok served;
  now_us = 5;
  latency_ms = 40;
  default_target = target;
  asked = none;
}

is_alive : (probe call (node 1 300) []).0.alive ≡ true
unfolding probe probeable transport relay_config first_text dial look_up relay secure challenge_for
    vless_challenge byte two_bytes send_all judge recvn recvn_loop recv_script judged
    is_successful_http http_status status_at after_version code_at probe_request
is_alive = refl

probe-HasRelayed_example :
    (probeable probing (node 1 300) ≡ ok true) × HasRelayed call (node 1 300) []
probe-HasRelayed_example = probe-HasRelayed call (node 1 300) [] refl is_alive
