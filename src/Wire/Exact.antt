-- ===== src/Wire/Exact.antt =====
-- _recvn of engine/filter/probe.py where the peer sends all that is asked for.
use infinity_proxy.Prelude.{
  ℕ, ◌≡◌, refl, ap, ◌∙◌, sym, [], ◌∷◌, ◌++◌, length, length-append, inr, arith,
}
use infinity_proxy.Render.{Outcome, ok, raised}
use infinity_proxy.Wire.{Bytes, Conn, Io, ◌>>=◌, recvn}
use infinity_proxy.Wire.Stream.{stream, IsRead, recvn-IsRead}

-- Two ways to cut the same bytes, at the same place.
cut_same :
    (xs rest ys more : Bytes)
    → xs ++ rest ≡ ys ++ more
    → length xs ≡ length ys
    → (xs ≡ ys) × (rest ≡ more)
cut_same [] rest [] more h k = (refl, h)
cut_same [] rest (y ∷ ys) more h k = absurd (omega (arith, k))
cut_same (x ∷ xs) rest [] more h k = absurd (omega (arith, k))
cut_same (x ∷ xs) rest (y ∷ ys) more h k =
    let same = cut_same xs rest ys more (grind (arith, h)) (omega (arith, k)) in
    (grind (arith, h, same), same.1)

exactly :
    (xs rest : Bytes) (c : Conn) (r : Outcome Bytes × Conn)
    → stream c.script ≡ xs ++ rest
    → IsRead (length xs) c.script r
    → (c' : Conn) × (r ≡ (ok xs, c')) × (stream c'.script ≡ rest)
exactly xs rest c (raised f, c') h k =
    absurd (k (inr (omega (arith, ap length h, length-append xs rest))))
exactly xs rest c (ok bs, c') h (split, long, _) =
    let (same, left) =
      cut_same bs (stream c'.script) xs rest (split ∙ h)
        (omega (arith, long, ap length h, length-append xs rest)) in
    (c', ap (λ o. (ok o, c')) same, left)

-- A read of as many bytes as come first answers them.
pub recvn-exact :
    (n : ℕ) (xs rest : Bytes) (c : Conn)
    → length xs ≡ n
    → stream c.script ≡ xs ++ rest
    → (c' : Conn) × (recvn n c ≡ (ok xs, c')) × (stream c'.script ≡ rest)
recvn-exact n xs rest c k h =
    rw (sym k) (exactly xs rest c (recvn (length xs) c) h (recvn-IsRead (length xs) c))

-- What follows a step that answers.
pub bind-ok {ℓ κ} :
    {A : Type ℓ} {B : Type κ} (m : Io A) (k : A → Io B) (c : Conn) (a : A) (c' : Conn)
    → m c ≡ (ok a, c')
    → (m >>= k) c ≡ k a c'
bind-ok m k c a c' h = ap (λ r. ((λ _. r) >>= k) c) h

-- A step that fails ends what follows it.
inverse_at {ℓ κ} :
    {A : Type ℓ} {B : Type κ} (r : Outcome A × Conn) (k : A → Io B) (c : Conn) (b : B) (c' : Conn)
    → ((λ _. r) >>= k) c ≡ (ok b, c')
    → (a : A) × (d : Conn) × (r ≡ (ok a, d)) × (k a d ≡ (ok b, c'))
inverse_at (ok a, d) k c b c' h = (a, d, refl, h)
inverse_at (raised f, d) k c b c' h = absurd (grind (arith, ap (λ x. x.0) h))

-- What answers has answered in each of its steps.
pub bind-inverse {ℓ κ} :
    {A : Type ℓ} {B : Type κ} (m : Io A) (k : A → Io B) (c : Conn) (b : B) (c' : Conn)
    → (m >>= k) c ≡ (ok b, c')
    → (a : A) × (d : Conn) × (m c ≡ (ok a, d)) × (k a d ≡ (ok b, c'))
bind-inverse m k c b c' h = inverse_at (m c) k c b c' h
