-- ===== src/Probe/Shadow/Server.antt =====
-- A Shadowsocks server that holds the key, against the client of engine/filter/probe.py.
use infinity_proxy.Prelude.{
  ◌+◌, ◌/◌, ◌%◌, ◌≤◌, ◌<◌, ◌≡◌, refl, ◌∙◌, false, some, [], ◌∷◌, ◌++◌, length, ltb, arith,
}
use infinity_proxy.Render.{ok}
use infinity_proxy.Wire.{Bytes, Conn, recvn, ◌>>=◌, pure}
use infinity_proxy.Wire.Stream.{stream}
use infinity_proxy.Wire.Exact.{recvn-exact, bind-ok}
use infinity_proxy.Probe.{Probing, Cipher, key_len}
use infinity_proxy.Probe.Judge.{judged}
use infinity_proxy.Probe.Shadow.{
  Session, session, seal, inc_nonce, first_nonce, from_big, tag_len, max_packet, out_of_range,
  chunk_verdict, ss_chunk, ss_head, ss_salt, ss_answer,
}

-- an AEAD cipher: what is encrypted is decrypted under the same key and nonce, and the tag has 16
-- bytes
abbrev pub IsAead : Probing → Type 0
IsAead p =
    (k : Cipher) (key nonce bs : Bytes)
    → (p.decrypt k key nonce (p.encrypt k key nonce bs) ≡ some bs)
      × (length (p.encrypt k key nonce bs) ≡ length bs + tag_len)

abbrev pub big_length : Bytes → Bytes
big_length bs = length bs / 256 ∷ length bs % 256 ∷ []

-- what the server sends after its salt
abbrev pub answer_of : Probing → Session → Bytes → Bytes → Bytes
answer_of p s relayed more =
    seal p s first_nonce (big_length relayed) ++ (seal p s (inc_nonce first_nonce) relayed ++ more)

from_big-big_length : (bs : Bytes) → from_big (big_length bs) 0 ≡ length bs
from_big-big_length bs = omega arith

chunk-honest :
    (p : Probing) (s : Session) (payload relayed more : Bytes) (c : Conn)
    → IsAead p
    → 0 < length relayed
    → length relayed ≤ max_packet
    → stream c.script ≡ seal p s (inc_nonce first_nonce) relayed ++ more
    → (c' : Conn) × (ss_chunk p s payload (some (length relayed)) c
        ≡ (ok (judged payload relayed), c'))
      × (stream c'.script ≡ more)
chunk-honest p s payload relayed more c law some_bytes few h =
    let (opens, long) = law s.cipher s.key (inc_nonce first_nonce) relayed in
    let (c', reads, left) =
      recvn-exact (length relayed + tag_len) (seal p s (inc_nonce first_nonce) relayed) more c long
        h in
    let in_range : out_of_range (length relayed) ≡ false = ground (arith, some_bytes, few) in
    let full : ltb (length (seal p s (inc_nonce first_nonce) relayed)) (length relayed + tag_len)
        ≡ false =
      ground (arith, long) in
    (
      c',
      rw in_range (
          bind-ok (recvn (length relayed + tag_len))
            (λ body. pure (chunk_verdict p s payload (length relayed) body)) c
            (seal p s (inc_nonce first_nonce) relayed) c' reads
          ∙ rw (full, opens) refl),
      left,
    )

head-honest :
    (p : Probing) (s : Session) (payload relayed more : Bytes) (c : Conn)
    → IsAead p
    → 0 < length relayed
    → length relayed ≤ max_packet
    → stream c.script ≡ answer_of p s relayed more
    → (c' : Conn) × ((recvn (2 + tag_len) >>= ss_head p s payload) c
        ≡ (ok (judged payload relayed), c'))
      × (stream c'.script ≡ more)
head-honest p s payload relayed more c law some_bytes few h =
    let sealed = seal p s first_nonce (big_length relayed) in
    let (opens, long) = law s.cipher s.key first_nonce (big_length relayed) in
    let (c', reads, left) =
      recvn-exact (2 + tag_len) sealed (seal p s (inc_nonce first_nonce) relayed ++ more) c long
        h in
    let (c'', verdict, further) =
      chunk-honest p s payload relayed more c' law some_bytes few left in
    let full : ltb (length sealed) (2 + tag_len) ≡ false = ground (arith, long) in
    (
      c'',
      bind-ok (recvn (2 + tag_len)) (ss_head p s payload) c sealed c' reads
          ∙ rw (full, opens, from_big-big_length relayed) verdict,
      further,
    )

-- A server that holds the key is heard: it sends a salt of its own, and the length of what it relays
-- and what it relays under the session key of that salt. Then the verdict is the one on the bytes
-- relayed, and what follows them is left to be measured in that session.
pub ss_answer-honest :
    (p : Probing) (k : Cipher) (master payload salt relayed more : Bytes) (c : Conn)
    → IsAead p
    → length salt ≡ key_len k
    → 0 < length relayed
    → length relayed ≤ max_packet
    → stream c.script ≡ salt ++ answer_of p (session p k master salt) relayed more
    → (c' : Conn) × (ss_answer p k master payload c
        ≡ (ok (judged payload relayed, session p k master salt), c'))
      × (stream c'.script ≡ more)
unfolding ss_answer
ss_answer-honest p k master payload salt relayed more c law long some_bytes few h =
    let s = session p k master salt in
    let (c', reads, left) = recvn-exact (key_len k) salt (answer_of p s relayed more) c long h in
    let (c'', verdict, further) = head-honest p s payload relayed more c' law some_bytes few left in
    let full : ltb (length salt) (key_len k) ≡ false = ground (arith, long) in
    (
      c'',
      bind-ok (recvn (key_len k)) (ss_salt p k master payload) c salt c' reads
          ∙ rw full (
              bind-ok (recvn (2 + tag_len) >>= ss_head p s payload) (λ error. pure (error, s)) c'
                (judged payload relayed) c'' verdict),
      further,
    )
