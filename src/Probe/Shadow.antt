-- ===== src/Probe/Shadow.antt =====
-- The Shadowsocks client of engine/filter/probe.py: keys, nonces, chunks and the verdict.
pub mod Nonce
pub mod Server
pub mod Keys
use infinity_proxy.Prelude.{
  ℕ, zero, suc, ◌+◌, ◌-◌, ◌*◌, ◌%◌, Bool, true, false, ◌||◌, Option, none, some, List, [], ◌∷◌,
  ◌++◌, length, take, ltb, ◌==◌, if◌then◌else◌,
}
use infinity_proxy.Models.{Node}
use infinity_proxy.Render.{Fault, timeout, key_error, Outcome, ok, raised}
use infinity_proxy.Wire.{Bytes, ascii, Event, Conn, Io, ◌>>=◌, ◌>>◌, pure, lift, send_all, recvn}
use infinity_proxy.Probe.{
  Probing, Cipher, Cause, no_salt, no_length, bad_length, cut_chunk, bad_tag, key_len, cipher_of,
  SsParams,
}
use infinity_proxy.Probe.Http.{probe_request}
use infinity_proxy.Probe.Challenge.{two_bytes, addr_header}
use infinity_proxy.Probe.Judge.{Throughput, Target, Verdict, judged, kib_s}

-- The loop of _ss_master_key: `prev = md5(prev + password)`, appended until there are `need` bytes
-- more. Every digest has a byte at least, so as many rounds as bytes are needed are enough.
unfoldable pub master_loop : ℕ → ℕ → (Bytes → Bytes) → Bytes → Bytes → Bytes
master_loop fuel zero md5 password prev = []
master_loop zero (suc need) md5 password prev = []
master_loop (suc fuel) (suc need) md5 password prev =
    let digest = md5 (prev ++ password) in
    digest ++ master_loop fuel (suc need - length digest) md5 password digest

unfoldable pub ss_master_key : Probing → Bytes → ℕ → Bytes
ss_master_key p password len = take len (master_loop len len p.md5 password [])

-- The loop of _ss_subkey, HKDF-SHA1: the counter is one byte.
unfoldable pub subkey_loop : ℕ → ℕ → (Bytes → Bytes) → Bytes → ℕ → Bytes
subkey_loop fuel zero mac block counter = []
subkey_loop zero (suc need) mac block counter = []
subkey_loop (suc fuel) (suc need) mac block counter =
    let block' = mac (block ++ (ascii "ss-subkey" ++ counter ∷ [])) in
    block' ++ subkey_loop fuel (suc need - length block') mac block' (suc counter)

unfoldable pub ss_subkey : Probing → Bytes → Bytes → ℕ → Bytes
ss_subkey p master salt len =
    take len (subkey_loop len len (p.hmac_sha1 (p.hmac_sha1 salt master)) [] 1)

-- _ss_inc_nonce: a counter, its lowest byte first
unfoldable pub inc_nonce : Bytes → Bytes
inc_nonce [] = []
inc_nonce (b ∷ bs) =
    let carried = inc_nonce bs in
    let low = (b + 1) % 256 in if low == 0 then low ∷ carried else low ∷ bs

abbrev pub zeros : ℕ → Bytes
zeros zero = []
zeros (suc n) = 0 ∷ zeros n

-- bytearray(spec.nonce_len)
abbrev pub first_nonce : Bytes
first_nonce = zeros 12

abbrev pub tag_len : ℕ
tag_len = 16

abbrev pub max_packet : ℕ
max_packet = 16383

-- int.from_bytes(…, "big")
abbrev pub from_big : Bytes → ℕ → ℕ
from_big [] acc = acc
from_big (b ∷ bs) acc = from_big bs (acc * 256 + b)

-- one direction of the stream: a cipher under its session key
pub record Session : Type 0 where
  pub cipher : Cipher
  pub key : Bytes

unfoldable pub session : Probing → Cipher → Bytes → Bytes → Session
session p k master salt = record { cipher = k; key = ss_subkey p master salt (key_len k) }

abbrev pub seal : Probing → Session → Bytes → Bytes → Bytes
seal p s = p.encrypt s.cipher s.key

-- `decrypt`, which raises InvalidTag
abbrev pub unseal : Probing → Session → Bytes → Bytes → Option Bytes
unseal p s = p.decrypt s.cipher s.key

-- the first chunk of the client, after its salt
unfoldable pub framed : Probing → Session → Bytes → Io Bytes
framed p s payload = lift (two_bytes (length payload)) >>= λ size.
    pure (seal p s first_nonce size ++ seal p s (inc_nonce first_nonce) payload)

-- `length == 0 or length > _SS_MAX_PACKET_SIZE`
abbrev pub out_of_range : ℕ → Bool
out_of_range n = n == 0 || ltb max_packet n

-- a chunk's length, decrypted
abbrev pub opened_length : Option Bytes → Option ℕ
opened_length none = none
opened_length (some bs) = some (from_big bs 0)

-- the tests on the first chunk, decrypted
abbrev pub judge_chunk : Bytes → Option Bytes → Option Cause
judge_chunk payload none = some bad_tag
judge_chunk payload (some relayed) = judged payload relayed

-- the first chunk of the server, and its body once its length is known
abbrev pub chunk_verdict : Probing → Session → Bytes → ℕ → Bytes → Option Cause
chunk_verdict p s payload len body =
    if ltb (length body) (len + tag_len)
    then some cut_chunk
    else judge_chunk payload (unseal p s (inc_nonce first_nonce) body)

abbrev pub ss_chunk : Probing → Session → Bytes → Option ℕ → Io (Option Cause)
ss_chunk p s payload none = pure (some bad_tag)
ss_chunk p s payload (some len) =
    if out_of_range len
    then pure (some bad_length)
    else (recvn (len + tag_len) >>= λ body. pure (chunk_verdict p s payload len body))

abbrev pub ss_head : Probing → Session → Bytes → Bytes → Io (Option Cause)
ss_head p s payload head =
    if ltb (length head) (2 + tag_len)
    then pure (some no_length)
    else ss_chunk p s payload (opened_length (unseal p s first_nonce head))

abbrev pub ss_salt : Probing → Cipher → Bytes → Bytes → Bytes → Io (Option Cause × Session)
ss_salt p k master payload salt =
    let s = session p k master salt in
    if ltb (length salt) (key_len k)
    then pure (some no_salt, s)
    else (recvn (2 + tag_len) >>= ss_head p s payload >>= λ error. pure (error, s))

-- The answer of the server: its salt, a length and a chunk. The error, and the session to read on.
unfoldable pub ss_answer : Probing → Cipher → Bytes → Bytes → Io (Option Cause × Session)
ss_answer p k master payload = recvn (key_len k) >>= ss_salt p k master payload

-- `except socket.timeout: break`
abbrev pub or_timeout {ℓ} : {A : Type ℓ} → Outcome A × Conn → Outcome (Option A) × Conn
or_timeout (ok a, c) = (ok (some a), c)
or_timeout (raised timeout, c) = (ok none, c)
or_timeout (raised f, c) = (raised f, c)

-- a whole piece, or none
abbrev pub whole : ℕ → Bytes → Option Bytes
whole n bs = if ltb (length bs) n then none else some bs

-- the decrypted bytes of a chunk whose length is known
abbrev pub body_chunk : Probing → Session → Bytes → Option ℕ → Io (Option Bytes)
body_chunk p s nonce none = pure none
body_chunk p s nonce (some len) =
    if out_of_range len
    then pure none
    else (recvn (len + tag_len) >>= λ chunk.
        pure (if ltb (length chunk) (len + tag_len) then none else unseal p s nonce chunk))

abbrev pub after_head : Probing → Session → Bytes → Option Bytes → Io (Option Bytes)
after_head p s nonce none = pure none
after_head p s nonce (some head) =
    if ltb (length head) (2 + tag_len)
    then pure none
    else body_chunk p s (inc_nonce nonce) (opened_length (unseal p s nonce head))

-- A round of _ss_body_kb: none where the loop breaks. Only the read of the length expects a timeout.
unfoldable pub next_chunk : Probing → Session → Bytes → Io (Option Bytes)
next_chunk p s nonce = (λ c. or_timeout (recvn (2 + tag_len) c)) >>= after_head p s nonce

-- `received += …`, before what the rounds after it count
abbrev pub plus_read : ℕ → Outcome ℕ × Conn → Outcome ℕ × Conn
plus_read n (ok k, c) = (ok (n + k), c)
plus_read n (raised f, c) = (raised f, c)

abbrev pub body_round :
    (ℕ → Conn → Outcome ℕ × Conn) → ℕ → Outcome (Option Bytes) × Conn → Outcome ℕ × Conn
body_round further need (ok none, c) = (ok 0, c)
body_round further need (ok (some bs), c) = plus_read (length bs) (further (need - length bs) c)
body_round further need (raised f, c) = (raised f, c)

-- The loop of _ss_body_kb; `need` is `sample_bytes - received`. A chunk has a byte at least, so as
-- many rounds as bytes are needed are enough.
unfoldable pub ss_body_loop : Probing → Session → ℕ → Bytes → ℕ → Conn → Outcome ℕ × Conn
ss_body_loop p s fuel nonce zero c = (ok 0, c)
ss_body_loop p s zero nonce (suc need) c = (ok 0, c)
ss_body_loop p s (suc fuel) nonce (suc need) c =
    let next = ss_body_loop p s fuel (inc_nonce (inc_nonce nonce)) in
    if p.in_time c then body_round next (suc need) (next_chunk p s nonce c) else (ok 0, c)

abbrev pub rated_read : Probing → Outcome ℕ × Conn → Outcome (Option ℕ) × Conn
rated_read p (ok k, c) = (ok (kib_s p.elapsed_us k), c)
rated_read p (raised f, c) = (raised f, c)

unfoldable pub ss_body_kb : Probing → Session → Bytes → ℕ → Io (Option ℕ)
ss_body_kb p s nonce sample c = rated_read p (ss_body_loop p s sample nonce sample c)

abbrev pub ss_measured : Probing → Option Throughput → Option Cause × Session → Io Verdict
ss_measured p asked (some reason, s) = pure (some reason, none)
ss_measured p none (none, s) = pure (none, none)
ss_measured p (some t) (none, s) =
    ss_body_kb p s (inc_nonce (inc_nonce first_nonce)) t.sample_bytes >>= λ kb. pure (none, kb)

-- `_SS_AEAD_SPECS[method]`, which `probeable` has found
abbrev pub spec_of : Option Cipher → Outcome Cipher
spec_of none = raised key_error
spec_of (some k) = ok k

-- what is sent: the salt, and the address and the request in one chunk
unfoldable pub ss_relay : Probing → Cipher → Bytes → Target → Option Throughput → Io Verdict
ss_relay p k master target asked =
    let salt = p.random (key_len k) in
    lift (addr_header target.host target.port) >>= λ header.
    let payload = header ++ probe_request target.path target.host in
    framed p (session p k master salt) payload >>= λ frame.
    send_all (salt ++ frame) >> ss_answer p k master payload >>= ss_measured p asked
