-- ===== src/Probe/Dial/Bound.antt =====
-- The memo of refused dials of engine/filter/probe.py under any number of dials at once.
use infinity_proxy.Prelude.{
  ℕ, ◌+◌, ◌≤◌, ◌<◌, inl, inr, not, Option, none, some, List, [], ◌∷◌, length, length-select-le,
  Bool-cases, arith,
}
use infinity_proxy.Prelude.Chunks.{length-drop}
use infinity_proxy.Probe.Dial.{
  Endpoint, Memo, same_endpoint, memo_max, is_stale, failed_at, put_failure, looked, look_up,
  without_stale, without_oldest, record_failure,
}

-- The memos that the critical sections of the dials lead to, in whatever order they come, and the
-- failures that were recorded on the way.
pub data Dials : Memo → List (Endpoint × ℕ) → Type 0 where
  start : Dials [] []
  looks :
      {m : Memo} {past : List (Endpoint × ℕ)}
      → (e : Endpoint) (now : ℕ) → Dials m past
      → Dials (look_up e now m).1 past
  fails :
      {m : Memo} {past : List (Endpoint × ℕ)}
      → (e : Endpoint) (now : ℕ) → Dials m past
      → Dials (record_failure e now m) ((e, now) ∷ past)

length-put_failure :
    (e : Endpoint) (now : ℕ) (m : Memo) → length (put_failure e now m) ≤ length m + 1
length-put_failure e now [] = omega arith
length-put_failure e now ((f, t) ∷ m) = ground (arith, length-put_failure e now m)

looked-length :
    (e : Endpoint) (now : ℕ) (m : Memo) (o : Option ℕ) → length (looked e now m o).1 ≤ length m
looked-length e now m none = omega arith
looked-length e now m (some t) = elim (Bool-cases (is_stale now t)) [
  | inl old ↦ rw (old, length) (length-select-le (λ (f, _). not (same_endpoint e f)) m)
  | inr new ↦ rw (new, length) (omega arith)
]

without_oldest-length : (m : Memo) → length m ≤ memo_max → length (without_oldest m) < memo_max
without_oldest-length m h = ground (arith, length-drop 1 m)

without_stale-length : (now : ℕ) (m : Memo) → length (without_stale now m) ≤ length m
without_stale-length now m = ground (arith, length-select-le (λ (_, t). not (is_stale now t)) m)

record_failure-length :
    (e : Endpoint) (now : ℕ) (m : Memo)
    → length m ≤ memo_max
    → length (record_failure e now m) ≤ memo_max
unfolding record_failure
record_failure-length e now m h =
    let fresh = without_stale now m in
    omega (
      arith,
      h,
      length-put_failure e now (without_oldest fresh),
      without_oldest-length fresh (omega (arith, h, without_stale-length now m)),
    )

-- However the dials interleave, the memo never holds more than 4096 endpoints.
pub Dials-length : (m : Memo) (past : List (Endpoint × ℕ)) → Dials m past → length m ≤ memo_max
unfolding look_up
Dials-length _ _ start = omega arith
Dials-length _ _ (looks {m} e now r) =
    omega (arith, looked-length e now m (failed_at e m), Dials-length m _ r)
Dials-length _ _ (fails {m} e now r) = record_failure-length e now m (Dials-length m _ r)
