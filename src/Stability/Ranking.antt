-- ===== src/Stability/Ranking.antt =====
-- The order that `score_nodes` of engine/stability.py puts candidates in.
use native.Mathlib.Nat.{div-lt_iff_lt-mul, mul-div_cancel_left}
use infinity_proxy.Prelude.{
  ℕ, zero, suc, ◌+◌, ◌*◌, ◌-◌, ◌/◌, ◌≤◌, ◌<◌, ◌≡◌, refl, arith, List, [], ◌∷◌, true, length, All,
  leb, Bool, ◌&&◌, Option, none, some,
}
use infinity_proxy.Models.{Node}
use infinity_proxy.Stability.{Policy, percentile, bisect_right, unit, availability, is_fresh}

-- enough probes to judge a node by
abbrev pub is_judged : Policy → Node → Bool
is_judged p n = leb p.min_probes n.probe_total

-- a measure that is young enough, where the policy asks for one
abbrev pub is_recent : Option ℕ → ℕ → Node → Bool
is_recent none now n = true
is_recent (some age) now n = is_fresh n now age

-- Tier A: enough probes, available enough, and a recent measure
abbrev pub is_best : Policy → ℕ → Node → Bool
is_best p now n = is_judged p n && (leb p.min_avail (availability n) && is_recent p.max_age_s now n)

-- A node that comes first is of Tier A if one after it is, and judged if one after it is.
abbrev pub InTierOrder : Policy → ℕ → List Node → Type 0
InTierOrder p now [] = Unit
InTierOrder p now (n ∷ ns) =
    All
      (λ m.
        (is_best p now m ≡ true → is_best p now n ≡ true)
        × (is_judged p m ≡ true → is_judged p n ≡ true))
      ns
    × InTierOrder p now ns

bisect_right-le-length : (ms : List ℕ) (kb : ℕ) → bisect_right ms kb ≤ length ms
unfolding bisect_right
bisect_right-le-length [] kb = omega arith
bisect_right-le-length (m ∷ ms) kb = ground (arith, bisect_right-le-length ms kb)

share-le-unit : (k n : ℕ) → k ≤ n → k * unit / n ≤ unit
share-le-unit k zero h = omega arith
share-le-unit k (suc n) h = omega (
  arith,
  (div-lt_iff_lt-mul {k = suc n} {x = k * unit} {y = unit + 1} (omega arith)).1 (omega arith),
)

bisect_right-All : (ms : List ℕ) (kb : ℕ) → All (λ m. m ≤ kb) ms → bisect_right ms kb ≡ length ms
unfolding bisect_right
bisect_right-All [] kb h = refl
bisect_right-All (m ∷ ms) kb h = ground (arith, bisect_right-All ms kb h.1)

module _ (m : ℕ) (ms : List ℕ) where
  at_most : (kb : ℕ) → percentile (m ∷ ms) kb ≤ unit
  unfolding percentile
  at_most kb =
      let fits = bisect_right-le-length (m ∷ ms) kb in
      ground (arith, share-le-unit (bisect_right (m ∷ ms) kb - 1) (length ms) (omega arith))

  fastest : (kb : ℕ) → All (λ x. x ≤ kb) (m ∷ ms) → percentile (m ∷ ms) kb ≡ unit
  unfolding percentile
  fastest kb h =
      let all = bisect_right-All (m ∷ ms) kb h in
      ground (arith, λ (p : 0 < length ms). mul-div_cancel_left unit p)

  slowest : (k : ℕ) (ks : List ℕ) → ms ≡ k ∷ ks → m < k → percentile (m ∷ ms) m ≡ 0
  unfolding percentile bisect_right
  slowest k ks e h = rw e (ground arith)

-- Among several readings a percentile is at most 1.0; a reading that no other exceeds ranks 1.0;
-- and the slowest, when no other reading is as slow, ranks 0.
pub percentile_bounds :
    (m k kb top : ℕ) (ks : List ℕ)
    → m < k
    → All (λ x. x ≤ top) (m ∷ k ∷ ks)
    → (percentile (m ∷ k ∷ ks) kb ≤ unit)
      × (percentile (m ∷ k ∷ ks) top ≡ unit)
      × (percentile (m ∷ k ∷ ks) m ≡ 0)
percentile_bounds m k kb top ks h up =
    (at_most m (k ∷ ks) kb, fastest m (k ∷ ks) top up, slowest m (k ∷ ks) k ks refl h)
