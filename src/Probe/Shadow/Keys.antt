-- ===== src/Probe/Shadow/Keys.antt =====
-- The loops of the Shadowsocks client of engine/filter/probe.py end with what they are for: keys of
-- the length asked for, and a sample that is counted whole.
use infinity_proxy.Prelude.{
  ℕ, zero, suc, ◌-◌, ◌≤◌, ◌<◌, ◌≡◌, [], ◌∷◌, ◌++◌, length, length-append, length-take, arith,
}
use infinity_proxy.Wire.{Bytes, ascii}
use infinity_proxy.Probe.{Probing, Cipher, key_len}
use infinity_proxy.Probe.Shadow.{session, master_loop, ss_master_key, subkey_loop, ss_subkey}

master_loop-length :
    (fuel need : ℕ) (md5 : Bytes → Bytes) (password prev : Bytes)
    → ((bs : Bytes) → 0 < length (md5 bs))
    → need ≤ fuel
    → need ≤ length (master_loop fuel need md5 password prev)
unfolding master_loop
master_loop-length fuel zero md5 password prev full h = omega arith
master_loop-length zero (suc need) md5 password prev full h = absurd (omega (arith, h))
master_loop-length (suc fuel) (suc need) md5 password prev full h =
    let digest = md5 (prev ++ password) in
    let further = master_loop fuel (suc need - length digest) md5 password digest in
    let rest =
      master_loop-length fuel (suc need - length digest) md5 password digest full
        (omega (arith, h, full (prev ++ password))) in
    omega (arith, rest, length-append digest further)

subkey_loop-length :
    (fuel need : ℕ) (mac : Bytes → Bytes) (block : Bytes) (counter : ℕ)
    → ((bs : Bytes) → 0 < length (mac bs))
    → need ≤ fuel
    → need ≤ length (subkey_loop fuel need mac block counter)
unfolding subkey_loop
subkey_loop-length fuel zero mac block counter full h = omega arith
subkey_loop-length zero (suc need) mac block counter full h = absurd (omega (arith, h))
subkey_loop-length (suc fuel) (suc need) mac block counter full h =
    let input = block ++ (ascii "ss-subkey" ++ counter ∷ []) in
    let further = subkey_loop fuel (suc need - length (mac input)) mac (mac input) (suc counter) in
    let rest =
      subkey_loop-length fuel (suc need - length (mac input)) mac (mac input) (suc counter) full
        (omega (arith, h, full input)) in
    omega (arith, rest, length-append (mac input) further)

-- Whatever the password, the two keys of a session have the length of the cipher's keys: no digest
-- is empty.
pub session-key_len :
    (p : Probing) (k : Cipher) (password salt : Bytes)
    → ((bs : Bytes) → 0 < length (p.md5 bs))
    → ((key bs : Bytes) → 0 < length (p.hmac_sha1 key bs))
    → let master = ss_master_key p password (key_len k) in
      (length master ≡ key_len k) × (length (session p k master salt).key ≡ key_len k)
unfolding ss_master_key ss_subkey session
session-key_len p k password salt digests macs =
    let len = key_len k in
    let master = ss_master_key p password len in
    let prk = p.hmac_sha1 salt master in
    (
      omega (
        arith,
        length-take len (master_loop len len p.md5 password []),
        master_loop-length len len p.md5 password [] digests (omega arith),
      ),
      omega (
        arith,
        length-take len (subkey_loop len len (p.hmac_sha1 prk) [] 1),
        subkey_loop-length len len (p.hmac_sha1 prk) [] 1 (macs prk) (omega arith),
      ),
    )
