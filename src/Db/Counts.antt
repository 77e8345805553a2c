-- ===== src/Db/Counts.antt =====
-- engine/db.py, class Store: the statistics of the pool.
use infinity_proxy.Prelude.{
  ℕ, ◌+◌, ◌-◌, ◌≤◌, ◌<◌, ◌≡◌, refl, Option-cases, Bool, true, false, not, ◌&&◌, Option, none, some,
  List, [], ◌∷◌, leb, ◌==◌, length, select, count_where, is_some, if◌then◌else◌, arith, Key, desc,
  nullable, asc, flag, take, inl, inr,
}
use infinity_proxy.Prelude.Sort.{sort_by}
use infinity_proxy.Models.{alive, dead, untested, same_state, NodeState}
use infinity_proxy.Stability.{wilson_lower, is_fresh, availability, Policy, Tier, a, b, tier}
use infinity_proxy.Db.{Store, NodeRow}

-- the Wilson bound in SQL, where a division by zero makes it NULL
abbrev pub wilson_sql : ℕ → ℕ → Option ℕ
wilson_sql ok total = if total == 0 then none else some (wilson_lower ok total)

abbrev pub in_state : NodeState → NodeRow → Bool
in_state st r = same_state r.state st

abbrev pub is_probed : ℕ → NodeRow → Bool
is_probed min_probes r = in_state alive r && leb min_probes r.probe_total

abbrev pub at_least : ℕ → Option ℕ → Bool
at_least floor none = false
at_least floor (some n) = leb floor n

abbrev pub fresh_if : ℕ → Option ℕ → NodeRow → Bool
fresh_if now none r = true
fresh_if now (some age) r = is_fresh r.node now age

abbrev pub is_tier_a : ℕ → ℕ → ℕ → Option ℕ → NodeRow → Bool
is_tier_a now min_probes min_avail max_age r =
    is_probed min_probes r
    && (at_least min_avail (wilson_sql r.probe_ok r.probe_total) && fresh_if now max_age r)

abbrev pub working_key : NodeRow → List Key
working_key r =
    asc (flag (not (is_some r.score_f)))
    ∷ desc (nullable r.score_f)
    ∷ desc (nullable r.last_probe_s)
    ∷ []

unfoldable pub working_set_count : ℕ → Store → ℕ
working_set_count limit s = length (
    take limit
      (sort_by working_key (select (λ r. in_state alive r && not (is_some r.assigned_to)) s.nodes)))

-- the stability part is there when both floors are given
pub record Floors : Type 0 where
  pub min_probes : ℕ
  pub min_avail : ℕ
  pub max_age_s : Option ℕ
  pub working_set_size : Option ℕ

pub record PoolCounts : Type 0 where
  pub total : ℕ
  pub alive_nodes : ℕ
  pub dead_nodes : ℕ
  pub untested_nodes : ℕ
  pub in_use : ℕ
  pub tier_a : ℕ
  pub tier_b : ℕ
  pub working_set : ℕ

abbrev plain_counts : Store → PoolCounts
plain_counts s = record {
  total = length s.nodes;
  alive_nodes = count_where (in_state alive) s.nodes;
  dead_nodes = count_where (in_state dead) s.nodes;
  untested_nodes = count_where (in_state untested) s.nodes;
  in_use = count_where (λ r. in_state alive r && is_some r.assigned_to) s.nodes;
  tier_a = 0;
  tier_b = 0;
  working_set = 0;
}

abbrev sized : Option ℕ → Store → ℕ
sized none s = 0
sized (some limit) s = working_set_count limit s

-- `avg_score` is left out: it is a mean in floating point
unfoldable pub pool_counts : ℕ → Option Floors → Store → PoolCounts
pool_counts now none s = plain_counts s
pool_counts now (some f) s =
    let in_a = count_where (is_tier_a now f.min_probes f.min_avail f.max_age_s) s.nodes in
    record (plain_counts s) {
      tier_a = in_a;
      tier_b = count_where (is_probed f.min_probes) s.nodes - in_a;
      working_set = sized f.working_set_size s;
    }

partition_states :
    (rows : List NodeRow)
    → length rows
      ≡ count_where (in_state alive) rows
        + (count_where (in_state dead) rows + count_where (in_state untested) rows)
partition_states [] = refl
partition_states (r ∷ rs) = ground (arith, partition_states rs)

tier_a-le :
    (now p floor : ℕ) (age : Option ℕ) (rows : List NodeRow)
    → count_where (is_tier_a now p floor age) rows ≤ count_where (is_probed p) rows
tier_a-le now p floor age [] = omega arith
tier_a-le now p floor age (r ∷ rs) = ground (arith, tier_a-le now p floor age rs)

in_use-le :
    (rows : List NodeRow)
    → count_where (λ r. in_state alive r && is_some r.assigned_to) rows
      ≤ count_where (in_state alive) rows
in_use-le [] = omega arith
in_use-le (r ∷ rs) = ground (arith, in_use-le rs)

probed-le :
    (p : ℕ) (rows : List NodeRow)
    → count_where (is_probed p) rows ≤ count_where (in_state alive) rows
probed-le p [] = omega arith
probed-le p (r ∷ rs) = ground (arith, probed-le p rs)

-- the floors as the policy that the vote of engine/stability.py reads
abbrev pub policy_of : Floors → Policy
policy_of f = record {
  min_probes = f.min_probes;
  min_avail = f.min_avail;
  weight_avail = 0;
  weight_speed = 0;
  max_age_s = f.max_age_s;
}

abbrev pub is_a : Option Tier → Bool
is_a none = false
is_a (some a) = true
is_a (some b) = false

tier_agrees :
    (now : ℕ) (f : Floors) (r : NodeRow)
    → 0 < f.min_probes
    → is_tier_a now f.min_probes f.min_avail f.max_age_s r
      ≡ (in_state alive r && is_a (tier (policy_of f) now r.node))
unfolding tier availability
tier_agrees now f r positive = elim (Option-cases f.max_age_s) [
  | inl ageless ↦ ground arith
  | inr (age, there) ↦ ground arith
]

tier_a-count :
    (now : ℕ) (f : Floors) (rows : List NodeRow)
    → 0 < f.min_probes
    → count_where (is_tier_a now f.min_probes f.min_avail f.max_age_s) rows
      ≡ count_where (λ r. in_state alive r && is_a (tier (policy_of f) now r.node)) rows
tier_a-count now f [] positive = refl
tier_a-count now f (r ∷ rs) positive =
    ground (arith, tier_agrees now f r positive, tier_a-count now f rs positive)

-- The numbers add up: every node is alive, dead or untested, no more nodes are in use than are
-- alive, Tier A and Tier B together are the alive nodes with enough probes, and, where at least one
-- probe is asked for, Tier A in SQL is the alive nodes that the vote puts in Tier A.
pub pool_counts-partition :
    (now : ℕ) (f : Floors) (s : Store)
    → 0 < f.min_probes
    → let c = pool_counts now (some f) s in
      (c.total ≡ c.alive_nodes + (c.dead_nodes + c.untested_nodes))
      × (c.in_use ≤ c.alive_nodes)
      × (c.tier_a + c.tier_b ≡ count_where (is_probed f.min_probes) s.nodes)
      × (c.tier_a + c.tier_b ≤ c.alive_nodes)
      × (c.tier_a
          ≡ count_where (λ r. in_state alive r && is_a (tier (policy_of f) now r.node)) s.nodes)
unfolding pool_counts
pool_counts-partition now f s positive =
    let below = tier_a-le now f.min_probes f.min_avail f.max_age_s s.nodes in
    (
      partition_states s.nodes,
      in_use-le s.nodes,
      omega (arith, below),
      omega (arith, below, probed-le f.min_probes s.nodes),
      tier_a-count now f s.nodes positive,
    )
