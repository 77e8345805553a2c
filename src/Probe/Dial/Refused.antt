-- ===== src/Probe/Dial/Refused.antt =====
-- Which dials the memo of engine/filter/probe.py refuses.
use infinity_proxy.Prelude.{
  ℕ, ◌+◌, ◌≤◌, ◌≡◌, ◌⊎◌, inl, inr, refl, ap, ◌∙◌, sym, Bool, true, false, not, Option, none, some,
  List, [], ◌∷◌, length, drop, select, All, str_eq, eq_iff, leb, ◌==◌, ==_refl, ==_iff,
  if◌then◌else◌, Bool-cases, arith,
}
use infinity_proxy.Probe.Dial.{
  Endpoint, Memo, same_endpoint, ttl_us, memo_max, is_stale, failed_at, put_failure, looked,
  look_up, without_stale, without_oldest, record_failure,
}
use infinity_proxy.Probe.Dial.Bound.{Dials, start, looks, fails}

-- a failure that was recorded
abbrev pub IsRecorded : Endpoint → ℕ → List (Endpoint × ℕ) → Type 0
IsRecorded e t [] = ⊥
IsRecorded e t ((f, u) ∷ past) = ((f ≡ e) × (u ≡ t)) ⊎ IsRecorded e t past

abbrev AreRecorded : List (Endpoint × ℕ) → Memo → Type 0
AreRecorded past = All (λ (f, t). IsRecorded f t past)

same_endpoint-path : (e f : Endpoint) → same_endpoint e f ≡ true → e ≡ f
same_endpoint-path e f h =
    let hosts : str_eq e.host f.host ≡ true = ground arith in
    let ports : (e.port == f.port) ≡ true = ground arith in
    let host = (eq_iff e.host f.host).0 hosts in
    let port = (==_iff e.port f.port).0 ports in
    ap (λ s. record { host = s; port = e.port }) host
    ∙ ap (λ n. record { host = f.host; port = n }) port

AreRecorded-select :
    (past : List (Endpoint × ℕ)) (p : Endpoint × ℕ → Bool) (m : Memo)
    → AreRecorded past m
    → AreRecorded past (select p m)
AreRecorded-select past p [] h = tt
AreRecorded-select past p (x ∷ m) h = elim (Bool-cases (p x)) [
  | inl is ↦ rw (is, All) (h.0, AreRecorded-select past p m h.1)
  | inr is ↦ rw (is, All) (AreRecorded-select past p m h.1)
]

AreRecorded-drop :
    (past : List (Endpoint × ℕ)) (m : Memo) → AreRecorded past m → AreRecorded past (drop 1 m)
AreRecorded-drop past [] h = tt
AreRecorded-drop past (x ∷ m) h = h.1

AreRecorded-later :
    (x : Endpoint × ℕ) (past : List (Endpoint × ℕ)) (m : Memo)
    → AreRecorded past m
    → AreRecorded (x ∷ past) m
AreRecorded-later x past [] h = tt
AreRecorded-later x past (y ∷ m) h = (inr h.0, AreRecorded-later x past m h.1)

AreRecorded-put_failure :
    (e : Endpoint) (now : ℕ) (past : List (Endpoint × ℕ)) (m : Memo)
    → AreRecorded ((e, now) ∷ past) m
    → AreRecorded ((e, now) ∷ past) (put_failure e now m)
AreRecorded-put_failure e now past [] h = (inl (refl, refl), tt)
AreRecorded-put_failure e now past ((f, t) ∷ m) h = elim (Bool-cases (same_endpoint e f)) [
  | inl is ↦ rw (is, All) (inl (same_endpoint-path e f is, refl), h.1)
  | inr is ↦ rw (is, All) (h.0, AreRecorded-put_failure e now past m h.1)
]

AreRecorded-if :
    (past : List (Endpoint × ℕ)) (b : Bool) (m m' : Memo)
    → AreRecorded past m
    → AreRecorded past m'
    → AreRecorded past (if b then m else m')
AreRecorded-if past true m m' h k = h
AreRecorded-if past false m m' h k = k

looked-AreRecorded :
    (past : List (Endpoint × ℕ)) (e : Endpoint) (now : ℕ) (m : Memo) (o : Option ℕ)
    → AreRecorded past m
    → AreRecorded past (looked e now m o).1
looked-AreRecorded past e now m none h = h
looked-AreRecorded past e now m (some t) h = elim (Bool-cases (is_stale now t)) [
  | inl is ↦ rw (is, All) (AreRecorded-select past (λ (f, _). not (same_endpoint e f)) m h)
  | inr is ↦ rw (is, All) h
]

Dials-AreRecorded : (m : Memo) (past : List (Endpoint × ℕ)) → Dials m past → AreRecorded past m
unfolding look_up record_failure
Dials-AreRecorded _ _ start = tt
Dials-AreRecorded _ past (looks {m} e now r) =
    looked-AreRecorded past e now m (failed_at e m) (Dials-AreRecorded m past r)
Dials-AreRecorded _ _ (fails {m} {past} e now r) =
    let here = AreRecorded-later (e, now) past m (Dials-AreRecorded m past r) in
    let all = (e, now) ∷ past in
    let fresh = without_stale now m in
    let kept =
      AreRecorded-if all (leb memo_max (length m)) (select (λ (_, t). not (is_stale now t)) m) m
        (AreRecorded-select all (λ (_, t). not (is_stale now t)) m here) here in
    AreRecorded-put_failure e now past (without_oldest fresh) (
      AreRecorded-if all (leb memo_max (length fresh)) (drop 1 fresh) fresh
        (AreRecorded-drop all fresh kept) kept)

failed_at-IsRecorded :
    (past : List (Endpoint × ℕ)) (e : Endpoint) (t : ℕ) (m : Memo)
    → AreRecorded past m
    → failed_at e m ≡ some t
    → IsRecorded e t past
failed_at-IsRecorded past e t [] h k = absurd (grind (arith, k))
failed_at-IsRecorded past e t ((f, u) ∷ m) h k = elim (Bool-cases (same_endpoint e f)) [
  | inl is ↦
      let same : u ≡ t = grind (arith, rw is at k) in
      rw (same_endpoint-path e f is) (rw (sym same) h.0)
  | inr is ↦ failed_at-IsRecorded past e t m h.1 (rw is at k)
]

looked-refuses :
    (e : Endpoint) (now : ℕ) (m : Memo) (o : Option ℕ)
    → (looked e now m o).0 ≡ true
    → (t : ℕ) × (o ≡ some t) × (now ≤ t + ttl_us)
looked-refuses e now m none h = absurd (grind (arith, h))
looked-refuses e now m (some t) h = (t, refl, ground arith)

-- A dial is refused only if a dial of the same endpoint failed in the 30 seconds before, in whatever
-- order the dials come.
pub look_up-refuses :
    (m : Memo) (past : List (Endpoint × ℕ)) (e : Endpoint) (now : ℕ)
    → Dials m past
    → (look_up e now m).0 ≡ true
    → (t : ℕ) × IsRecorded e t past × (now ≤ t + ttl_us)
unfolding look_up
look_up-refuses m past e now r h =
    let (t, there, recent) = looked-refuses e now m (failed_at e m) h in
    (t, failed_at-IsRecorded past e t m (Dials-AreRecorded m past r) there, recent)

same_endpoint_refl : (e : Endpoint) → same_endpoint e e ≡ true
same_endpoint_refl e = rw ((eq_iff e.host e.host).1 refl) (==_refl e.port)

failed_at-put_failure :
    (e : Endpoint) (now : ℕ) (m : Memo) → failed_at e (put_failure e now m) ≡ some now
failed_at-put_failure e now [] = rw (same_endpoint_refl e) refl
failed_at-put_failure e now ((f, t) ∷ m) = elim (Bool-cases (same_endpoint e f)) [
  | inl is ↦ rw (is, failed_at) (rw is refl)
  | inr is ↦ rw (is, failed_at) (rw is (failed_at-put_failure e now m))
]

-- A failure is remembered for 30 seconds.
pub record_failure-refuses :
    (e : Endpoint) (now later : ℕ) (m : Memo)
    → later ≤ now + ttl_us
    → look_up e later (record_failure e now m) ≡ (true, record_failure e now m)
unfolding look_up record_failure
record_failure-refuses e now later m h =
    let new : is_stale later now ≡ false = ground (arith, h) in
    rw (failed_at-put_failure e now (without_oldest (without_stale now m))) (rw new refl)
