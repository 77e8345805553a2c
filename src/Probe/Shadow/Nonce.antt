-- ===== src/Probe/Shadow/Nonce.antt =====
-- The nonces of engine/filter/probe.py are a counter of 12 bytes, and a request is sealed under two
-- of them.
use infinity_proxy.Prelude.{
  ℕ, zero, suc, ◌+◌, ◌*◌, ◌%◌, ◌/◌, ◌<◌, ◌++◌, ltb, true, ◌≡◌, ◌≢◌, refl, ap, ◌∙◌, [], ◌∷◌, length,
  All, ◌==◌, Bool-cases, inl, inr, arith,
}
use infinity_proxy.Render.{ok}
use infinity_proxy.Wire.{Bytes, Conn}
use infinity_proxy.Probe.{Probing}
use infinity_proxy.Probe.Challenge.{two_bytes}
use infinity_proxy.Probe.Shadow.{Session, inc_nonce, first_nonce, framed}

-- bytes as a number, the lowest first
unfoldable pub from_little : Bytes → ℕ
from_little [] = 0
from_little (b ∷ bs) = b + 256 * from_little bs

-- the numbers that so many bytes hold
abbrev pub capacity : ℕ → ℕ
capacity zero = 1
capacity (suc n) = 256 * capacity n

abbrev AreBytes : Bytes → Type 0
AreBytes = All (λ b. b < 256)

-- a number of so many bytes
abbrev IsCounter : ℕ → Bytes → Type 0
IsCounter n bs = AreBytes bs × (length bs ≡ n)

from_little-bound : (bs : Bytes) → AreBytes bs → from_little bs < capacity (length bs)
unfolding from_little
from_little-bound [] h = omega arith
from_little-bound (b ∷ bs) h = omega (arith, h.0, from_little-bound bs h.1)

inc_nonce-AreBytes :
    (bs : Bytes) → AreBytes bs → AreBytes (inc_nonce bs) × (length (inc_nonce bs) ≡ length bs)
unfolding inc_nonce
inc_nonce-AreBytes [] h = (tt, refl)
inc_nonce-AreBytes (b ∷ bs) h =
    let (further, long) = inc_nonce-AreBytes bs h.1 in
    let low : (b + 1) % 256 < 256 = omega arith in
    elim (Bool-cases ((b + 1) % 256 == 0)) [
      | inl is ↦ rw is ((low, further), ap suc long)
      | inr is ↦ rw is ((low, h.1), refl)
    ]

-- One is added, unless every byte is 255.
inc_nonce-from_little :
    (bs : Bytes)
    → AreBytes bs
    → (from_little bs + 1 < capacity (length bs) → from_little (inc_nonce bs) ≡ from_little bs + 1)
      × (from_little bs + 1 ≡ capacity (length bs) → from_little (inc_nonce bs) ≡ 0)
unfolding inc_nonce from_little
inc_nonce-from_little [] h = (λ k. absurd (omega (arith, k)), λ k. refl)
inc_nonce-from_little (b ∷ bs) h =
    let (add, wrap) = inc_nonce-from_little bs h.1 in
    let fits = from_little-bound bs h.1 in
    elim (Bool-cases ((b + 1) % 256 == 0)) [
      | inl is ↦
          let last : b ≡ 255 = ground (arith, h.0) in
          rw is (
            λ k. let more = add (omega (arith, k, last)) in omega (arith, more, last),
            λ k. let none_left = wrap (omega (arith, k, last)) in omega (arith, none_left, last),
          )
      | inr is ↦
          let small : b < 255 = ground (arith, h.0) in
          rw is (λ k. omega (arith, small), λ k. absurd (omega (arith, k, small, fits)))
    ]

-- the nonce of operation `k` of a direction
unfoldable pub nonce_at : ℕ → Bytes
nonce_at zero = first_nonce
nonce_at (suc k) = inc_nonce (nonce_at k)

nonce_at-IsCounter : (k : ℕ) → IsCounter 12 (nonce_at k)
unfolding nonce_at
nonce_at-IsCounter zero = (ground arith, refl)
nonce_at-IsCounter (suc k) =
    let (bytes, long) = nonce_at-IsCounter k in
    let (next, same) = inc_nonce-AreBytes (nonce_at k) bytes in (next, same ∙ long)

nonce_at-from_little : (k : ℕ) → k < capacity 12 → from_little (nonce_at k) ≡ k
unfolding nonce_at from_little
nonce_at-from_little zero h = refl
nonce_at-from_little (suc k) h =
    let (bytes, long) = nonce_at-IsCounter k in
    let before = nonce_at-from_little k (omega (arith, h)) in
    let room : from_little (nonce_at k) + 1 < capacity (length (nonce_at k)) =
      rw (ap capacity long) (omega (arith, h, before)) in
    (inc_nonce-from_little (nonce_at k) bytes).0 room ∙ omega (arith, before)

nonce_at-differ : (i j : ℕ) → i < j → j < capacity 12 → nonce_at i ≢ nonce_at j
nonce_at-differ i j h k same =
    let before = nonce_at-from_little i (omega (arith, h, k)) in
    let after = nonce_at-from_little j k in omega (arith, h, before, after, ap from_little same)

-- A request of less than 65,536 bytes goes out as two sealed pieces under the session's key, its
-- length, the high byte first, and itself, and the two nonces that they are sealed under are not the
-- same. They are the first two of a counter, whose first 256 ^ 12 values differ from one another.
pub framed-IsSealed :
    (p : Probing) (s : Session) (payload : Bytes) (c : Conn)
    → length payload < 65536
    → let size = length payload / 256 ∷ length payload % 256 ∷ [] in
      (framed p s payload c ≡ (
        ok (
            p.encrypt s.cipher s.key (nonce_at 0) size
            ++ p.encrypt s.cipher s.key (nonce_at 1) payload),
        c,
      ))
      × (nonce_at 0 ≢ nonce_at 1)
      × ((i j : ℕ) → i < j → j < capacity 12 → nonce_at i ≢ nonce_at j)
unfolding framed two_bytes nonce_at
framed-IsSealed p s payload c short =
    let fits : ltb (length payload) 65536 ≡ true = ground (arith, short) in
    (rw fits refl, nonce_at-differ 0 1 (omega arith) (omega arith), nonce_at-differ)
