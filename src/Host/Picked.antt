-- ===== src/Host/Picked.antt =====
-- The picks of engine/host.py name tunnels that are up.
use infinity_proxy.Prelude.{
  ℕ, ◌+◌, ◌<◌, ◌≤◌, ◌≡◌, ◌≢◌, ◌⊎◌, refl, ap, ◌∙◌, sym, Bool, true, false, ◌&&◌, ◌||◌, Bool-cases,
  inl, inr, Option, none, some, List, [], ◌∷◌, map, select, contains, All, ltb, ltb→lt, ◌==◌,
  ==_iff, ==_refl, if◌then◌else◌, asc, lex_le, arith,
}
use infinity_proxy.Prelude.Dict.{get}
use infinity_proxy.Prelude.Sort.{sort_by, contains-sort_by, sort_by-IsSortedBy, IsSortedBy}
use infinity_proxy.Models.{Tunnel, TunnelState, stopped, is_stopped}
use infinity_proxy.Config.{Settings}
use infinity_proxy.Host.{
  Reading, Kept, Measurement, Pick, Sign, Controller, Watch, is_candidate, up_tunnels, signs,
  host_signature, same_signs, is_signature, PickAnswer, unavailable, picked, cached_pick,
  good_measure, note_reading, measure_one, measure_all, speed_key, pick_first, pick_fresh,
  pick_cached, pick_up, pick_best,
}

abbrev sign_id : Sign → ℕ
sign_id s = s.0

abbrev pub measured_tunnel : Measurement → ℕ
measured_tunnel m = m.tunnel

abbrev pub id_of : Tunnel → ℕ
id_of t = t.tunnel_id

-- a tunnel of the list, under this id, that is not stopped and has a port
abbrev pub IsUp : ℕ → List Tunnel → Type 0
IsUp i [] = ⊥
IsUp i (t ∷ ts) = ((t.tunnel_id ≡ i) × (t.state ≢ stopped) × (t.port ≢ 0)) ⊎ IsUp i ts

-- a lower latency, or the same and no less throughput
abbrev pub NotSlower : Measurement → Measurement → Type 0
NotSlower m n =
    (m.reading.latency_ms < n.reading.latency_ms)
    ⊎ ((m.reading.latency_ms ≡ n.reading.latency_ms)
        × (n.reading.throughput_kb_s ≤ m.reading.throughput_kb_s))

-- a tunnel that comes first of its measurements, none of which is faster
abbrev pub IsFastest : ℕ → List Measurement → Type 0
IsFastest i [] = ⊥
IsFastest i (m ∷ ms) = (m.tunnel ≡ i) × All (λ n. NotSlower m n) ms

-- the code's own candidates
abbrev Up : ℕ → List Tunnel → Type 0
Up i ts = contains i (map id_of (up_tunnels ts)) ≡ true

is_stopped-stopped : (s : TunnelState) → is_stopped s ≡ false → s ≢ stopped
is_stopped-stopped s h same = absurd (grind (arith, h, same))

Up-IsUp : (i : ℕ) (ts : List Tunnel) → Up i ts → IsUp i ts
unfolding up_tunnels
Up-IsUp i [] h = absurd (grind (arith, h))
Up-IsUp i (t ∷ ts) h = elim (Bool-cases (is_candidate t)) [
  | inl is ↦ elim (Bool-cases (t.tunnel_id == i)) [
    | inl hit ↦ inl (
      (==_iff t.tunnel_id i).0 hit,
      is_stopped-stopped t.state (ground arith),
      λ p. ground (arith, is, p),
    )
    | inr miss ↦ inr (Up-IsUp i ts (rw (miss, ◌||◌) at (rw (is, select) at h)))
  ]
  | inr is ↦ inr (Up-IsUp i ts (rw (is, select) at h))
]

speed_key-NotSlower :
    (m n : Measurement) → lex_le (speed_key m) (speed_key n) ≡ true → NotSlower m n
unfolding lex_le
speed_key-NotSlower m n h = elim (Bool-cases (ltb m.reading.latency_ms n.reading.latency_ms)) [
  | inl lower ↦ inl (ltb→lt m.reading.latency_ms n.reading.latency_ms lower)
  | inr not_lower ↦ inr (ground arith, ground arith)
]

none_faster :
    (m : Measurement) (ms : List Measurement)
    → All (λ n. lex_le (speed_key m) (speed_key n) ≡ true) ms
    → All (λ n. NotSlower m n) ms
none_faster m [] h = tt
none_faster m (n ∷ ns) h = (speed_key-NotSlower m n h.0, none_faster m ns h.1)

-- a pick stands with the signature of candidates among which it is
abbrev Signed : Option Pick → Option (List Sign) → Type 0
Signed none sig = Unit
Signed (some p) none = ⊥
Signed (some p) (some ss) =
    (contains p.tunnel (map sign_id ss) ≡ true) × IsFastest p.tunnel p.measurements

abbrev pub HoldsPick : Controller → Type 0
HoldsPick h = Signed h.pick h.pick_signature

contains-signs :
    (i : ℕ) (ts : List Tunnel) → contains i (map sign_id (signs ts)) ≡ contains i (map id_of ts)
contains-signs i [] = refl
contains-signs i (t ∷ ts) = ap (λ b. t.tunnel_id == i || b) (contains-signs i ts)

contains-host_signature :
    (i : ℕ) (ts : List Tunnel)
    → contains i (map sign_id (host_signature ts)) ≡ contains i (map id_of (up_tunnels ts))
unfolding host_signature
contains-host_signature i ts =
    contains-sort_by (λ (i, port, _). asc i ∷ asc port ∷ []) sign_id i (signs (up_tunnels ts))
    ∙ contains-signs i (up_tunnels ts)

same_signs-contains :
    (i : ℕ) (xs ys : List Sign)
    → same_signs xs ys ≡ true
    → contains i (map sign_id xs) ≡ contains i (map sign_id ys)
same_signs-contains i [] [] h = refl
same_signs-contains i [] (y ∷ ys) h = absurd (grind (arith, h))
same_signs-contains i (x ∷ xs) [] h = absurd (grind (arith, h))
same_signs-contains i ((j, port, user) ∷ xs) ((k, port', user') ∷ ys) h =
    let same : (j == k) ≡ true = ground (arith, h) in
    let rest : same_signs xs ys ≡ true = ground (arith, h) in
    rw ((==_iff j k).0 same) (ap (λ b. k == i || b) (same_signs-contains i xs ys rest))

select-select : (ts : List Tunnel) → up_tunnels (up_tunnels ts) ≡ up_tunnels ts
unfolding up_tunnels
select-select [] = refl
select-select (t ∷ ts) = elim (Bool-cases (is_candidate t)) [
  | inl is ↦ rw (is, select) (rw (is, select) (ap (◌∷◌ t) (select-select ts)))
  | inr is ↦ rw (is, select) (select-select ts)
]

-- A pick that is answered from the cache is up now.
Signed-Up :
    (p : Pick) (ts : List Tunnel) (pick : Option Pick) (sig : Option (List Sign))
    → Signed pick sig
    → pick ≡ some p
    → is_signature (host_signature ts) sig ≡ true
    → Up p.tunnel ts × IsFastest p.tunnel p.measurements
Signed-Up p ts none sig h k same = absurd (grind (arith, k))
Signed-Up p ts (some q) none h k same = absurd h
Signed-Up p ts (some q) (some ss) h k same =
    let is : q ≡ p = grind (arith, k) in
    (
      sym (contains-host_signature p.tunnel ts)
          ∙ same_signs-contains p.tunnel (host_signature ts) ss same
          ∙ rw (sym is) h.0,
      rw (sym is) h.1,
    )

-- the cached pick is recent, and up
cached_pick-Up :
    (c : Settings) (now : ℕ) (ts : List Tunnel) (h : Controller) (p : Pick)
    → HoldsPick h
    → cached_pick c now ts h ≡ some p
    → (Up p.tunnel ts × IsFastest p.tunnel p.measurements) × (now < h.pick_at + c.host_pick_ttl_s)
unfolding cached_pick
cached_pick-Up c now ts h p holds k =
    elim (Bool-cases (
      is_signature (host_signature ts) h.pick_signature
      && ltb now (h.pick_at + c.host_pick_ttl_s))) [
        | inl is ↦
            let same : is_signature (host_signature ts) h.pick_signature ≡ true =
              ground (arith, is) in
            let recent : ltb now (h.pick_at + c.host_pick_ttl_s) ≡ true = ground (arith, is) in
            (
              Signed-Up p ts h.pick h.pick_signature holds (rw is at k) same,
              ltb→lt now (h.pick_at + c.host_pick_ttl_s) recent,
            )
        | inr is ↦ absurd (grind (arith, rw is at k))
      ]

note_reading-contains :
    (i : ℕ) (t : Tunnel) (r : Option Reading) (rest : List Measurement) (ts : List Tunnel)
    → (contains i (map measured_tunnel rest) ≡ true → contains i (map id_of ts) ≡ true)
    → contains i (map measured_tunnel (note_reading t r rest)) ≡ true
    → contains i (map id_of (t ∷ ts)) ≡ true
note_reading-contains i t none rest ts h k = ground (arith, h k)
note_reading-contains i t (some r) rest ts h k = elim (Bool-cases (t.tunnel_id == i)) [
  | inl is ↦ rw is refl
  | inr is ↦ rw is (h (rw is at k))
]

-- What is measured is a tunnel of the list.
measure_all-contains :
    (c : Settings) (w : Watch) (force : Bool) (ts : List Tunnel) (ms : List (ℕ × Kept)) (i : ℕ)
    → contains i (map measured_tunnel (measure_all c w force ts ms).0) ≡ true
    → contains i (map id_of ts) ≡ true
unfolding measure_all
measure_all-contains c w force [] ms i h = h
measure_all-contains c w force (t ∷ ts) ms i h =
    let (r, ms') = measure_one w t (good_measure c w force (get t.tunnel_id ms)) ms in
    note_reading-contains i t r (measure_all c w force ts ms').0 ts
      (measure_all-contains c w force ts ms' i) h

-- what pick_best answers: a tunnel that is up, the fastest of those measured
abbrev pub IsPick : List Tunnel → PickAnswer → Type 0
IsPick ts unavailable = Unit
IsPick ts (picked p cached stale) = IsUp p.tunnel ts × IsFastest p.tunnel p.measurements

pick_first-IsPick :
    (c : Settings) (w : Watch) (ts : List Tunnel) (found : List Measurement) (h : Controller)
    → HoldsPick h
    → ((i : ℕ)
        → contains i (map measured_tunnel found) ≡ true
        → contains i (map id_of (up_tunnels ts)) ≡ true)
    → IsSortedBy speed_key found
    → let (a, h') = pick_first c w (up_tunnels ts) found h in IsPick ts a × HoldsPick h'
pick_first-IsPick c w ts [] h holds k sorted = (tt, holds)
pick_first-IsPick c w ts (m ∷ ms) h holds k sorted =
    let up : Up m.tunnel ts = k m.tunnel (rw (==_refl m.tunnel) refl) in
    (
      (Up-IsUp m.tunnel ts up, (refl, none_faster m ms sorted.0)),
      (
        contains-host_signature m.tunnel (up_tunnels ts)
            ∙ ap (λ l. contains m.tunnel (map id_of l)) (select-select ts)
            ∙ up,
        (refl, none_faster m ms sorted.0),
      ),
    )

pick_fresh-IsPick :
    (c : Settings) (w : Watch) (force : Bool) (ts : List Tunnel) (h : Controller)
    → HoldsPick h
    → let (a, h') = pick_fresh c w force (up_tunnels ts) h in IsPick ts a × HoldsPick h'
pick_fresh-IsPick c w force ts h holds =
    let (found, ms) = measure_all c w force (up_tunnels ts) h.measures in
    pick_first-IsPick c w ts (sort_by speed_key found) (record h { measures = ms }) holds
      (λ i k.
        measure_all-contains c w force (up_tunnels ts) h.measures i
          (sym (contains-sort_by speed_key measured_tunnel i found) ∙ k))
      (sort_by-IsSortedBy speed_key found)

pick_cached-IsPick :
    (c : Settings) (w : Watch) (force : Bool) (ts : List Tunnel) (h : Controller) (o : Option Pick)
    → HoldsPick h
    → ((p : Pick) → o ≡ some p → Up p.tunnel ts × IsFastest p.tunnel p.measurements)
    → let (a, h') = pick_cached c w force (up_tunnels ts) h o in IsPick ts a × HoldsPick h'
pick_cached-IsPick c w force ts h none holds k = pick_fresh-IsPick c w force ts h holds
pick_cached-IsPick c w force ts h (some p) holds k =
    let (up, fastest) = k p refl in ((Up-IsUp p.tunnel ts up, fastest), holds)

Up-again : (i : ℕ) (ts : List Tunnel) → Up i (up_tunnels ts) → Up i ts
Up-again i ts h = sym (ap (λ l. contains i (map id_of l)) (select-select ts)) ∙ h

-- the cache is not asked where a measure is forced
asked_cache :
    (c : Settings) (w : Watch) (force : Bool) (ts : List Tunnel) (h : Controller) (p : Pick)
    → HoldsPick h
    → (if force then none else cached_pick c w.now (up_tunnels ts) h) ≡ some p
    → Up p.tunnel ts × IsFastest p.tunnel p.measurements
asked_cache c w true ts h p holds k = absurd (grind (arith, k))
asked_cache c w false ts h p holds k =
    let (up, fastest) = (cached_pick-Up c w.now (up_tunnels ts) h p holds k).0 in
    (Up-again p.tunnel ts up, fastest)

pick_up-IsPick :
    (c : Settings) (w : Watch) (force : Bool) (ts tuns : List Tunnel) (h : Controller)
    → up_tunnels ts ≡ tuns
    → HoldsPick h
    → let (a, h') = pick_up c w force tuns h in IsPick ts a × HoldsPick h'
pick_up-IsPick c w force ts [] h e holds = (tt, holds)
pick_up-IsPick c w force ts (t ∷ tuns) h e holds = rw (sym e) (
    pick_cached-IsPick c w force ts h
      (if force then none else cached_pick c w.now (up_tunnels ts) h) holds
      (λ p k. asked_cache c w force ts h p holds k))

-- A pick, cached or fresh, is a tunnel that is not stopped and has a port now, and the fastest of the
-- measurements that are answered with it, where the pick that is cached was one among the candidates
-- it is cached for; and so is the pick that is cached after it.
pub pick_best-IsPick :
    (c : Settings) (w : Watch) (force : Bool) (ts : List Tunnel) (h : Controller)
    → HoldsPick h
    → let (a, h') = pick_best c w force ts h in IsPick ts a × HoldsPick h'
unfolding pick_best
pick_best-IsPick c w force ts h holds = pick_up-IsPick c w force ts (up_tunnels ts) h refl holds
