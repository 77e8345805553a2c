-- ===== src/Stability.antt =====
-- engine/stability.py: the membership vote. The program's floats are fixed-point numbers here:
-- availability, percentiles and weights count millionths (`unit`), a weighted term counts
-- millionths of millionths, and a square root is rounded down.
pub mod Root
pub mod Wilson
pub mod Ranking
use Root.{isqrt}
use infinity_proxy.Prelude.{
  ℕ, zero, suc, ◌+◌, ◌-◌, ◌*◌, ◌/◌, ◌^◌, Bool, true, false, not, ◌&&◌, ◌||◌, Option, none, some,
  List, [], ◌∷◌, map, ltb, leb, ◌==◌, if◌then◌else◌, select, length, Key, asc, desc, flag, is_some,
}
use infinity_proxy.Prelude.Sort.{sort_by}
use infinity_proxy.Models.{Node, same_protocol}

-- 1.0
abbrev pub unit : ℕ
unit = 1_000_000

-- (ok + z²/2 - z √(ok (total - ok) / total + z²/4)) / (total + z²) at z = 1.96, the numerator and
-- the denominator times ten thousand; subtraction stops at 0, which is the `max`.
unfoldable pub wilson_lower : ℕ → ℕ → ℕ
wilson_lower ok total =
    if total == 0
    then 0
    else (10_000 * ok + 19_208 - isqrt (384_160_000 * (ok * (total - ok)) / total + 368_947_264))
      * unit
      / (10_000 * total + 38_416)

unfoldable pub availability : Node → ℕ
availability n = wilson_lower n.probe_ok n.probe_total

unfoldable pub is_fresh : Node → ℕ → ℕ → Bool
is_fresh n now max_age = elim n.last_probe_s [ none ↦ false | some at ↦ leb (now - at) max_age ]

-- `bisect_right` on an ascending list: how many of its first elements are at most `x`
unfoldable pub bisect_right : List ℕ → ℕ → ℕ
bisect_right [] x = 0
bisect_right (y ∷ ys) x = let rest = bisect_right ys x in if leb y x then suc rest else 0

-- a reading that the freshness horizon, if there is one, lets count
unfoldable pub reading_counts : ℕ → Option ℕ → Node → Bool
reading_counts now none n = true
reading_counts now (some max_age) n =
    not (is_some n.throughput_kb_s)
    || (elim n.throughput_measured_s [ none ↦ true | some at ↦ leb (now - at) max_age ])

unfoldable pub readings : List Node → List ℕ
readings [] = []
readings (n ∷ ns) = elim n.throughput_kb_s [ none ↦ readings ns | some kb ↦ kb ∷ readings ns ]

-- the sorted readings of one protocol
unfoldable pub measured : List Node → Node → List ℕ
measured nodes n =
    sort_by (λ kb. asc kb ∷ []) (readings (select (λ m. same_protocol m.protocol n.protocol) nodes))

unfoldable pub percentile : List ℕ → ℕ → ℕ
percentile ms kb =
    if length ms == 1 then unit else (bisect_right ms kb - 1) * unit / (length ms - 1)

unfoldable pub rank_each : List Node → List Node → List (ℕ × ℕ)
rank_each all [] = []
rank_each all (n ∷ ns) = elim n.throughput_kb_s [
  | none ↦ rank_each all ns
  | some kb ↦ (n.node_id, percentile (measured all n) kb) ∷ rank_each all ns
]

unfoldable pub speed_percentile_map : List Node → ℕ → Option ℕ → List (ℕ × ℕ)
speed_percentile_map nodes now max_age =
    let counted = select (reading_counts now max_age) nodes in rank_each counted counted

-- `percentile_map.get(node_id, 0.0)`
unfoldable pub speed_of : List (ℕ × ℕ) → ℕ → ℕ
speed_of [] i = 0
speed_of ((j, v) ∷ m) i = if j == i then v else speed_of m i

pub data Tier : Type 0 where
  a b : Tier

-- the floors and weights of Settings
pub record Policy : Type 0 where
  pub min_probes : ℕ
  pub min_avail : ℕ
  pub weight_avail : ℕ
  pub weight_speed : ℕ
  pub max_age_s : Option ℕ

unfoldable pub tier : Policy → ℕ → Node → Option Tier
tier p now n =
    let judged = if leb p.min_avail (availability n) then some a else some b in
    if ltb n.probe_total p.min_probes then none else elim p.max_age_s [
      | none ↦ judged
      | some age ↦ if is_fresh n now age then judged else some b
    ]

unfoldable pub composite_score : Policy → List (ℕ × ℕ) → Node → ℕ
composite_score p percentiles n =
    let speed = p.weight_speed * speed_of percentiles n.node_id in
    if ltb n.probe_total p.min_probes then speed else p.weight_avail * availability n + speed

abbrev pub tier_rank : Option Tier → ℕ
tier_rank none = 2
tier_rank (some a) = 0
tier_rank (some b) = 1

unfoldable pub score_key : Policy → ℕ → List (ℕ × ℕ) → Node → List Key
score_key p now percentiles n =
    asc (tier_rank (tier p now n))
    ∷ desc (composite_score p percentiles n)
    ∷ asc (flag (not (is_some n.last_latency_ms)))
    ∷ []

unfoldable pub score_nodes : Policy → ℕ → List Node → List Node
score_nodes p now nodes =
    sort_by (score_key p now (speed_percentile_map nodes now p.max_age_s)) nodes
