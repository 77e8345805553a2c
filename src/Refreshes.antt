-- ===== src/Refreshes.antt =====
-- Source refreshes of engine/scheduler.py: request_source_refresh marks a source and starts a
-- background thread for it, _refresh_worker is the thread, and _refresh_due is the source loop's own
-- refresh, which asks no mark. Marking and starting are two steps.
use infinity_proxy.Prelude.{
  ℕ, suc, ◌+◌, ◌≤◌, ◌≡◌, ◌⊎◌, refl, ap, ◌∙◌, String, Bool, true, false, Option, none, some, List,
  [], ◌∷◌, str_eq, eq_iff, if◌then◌else◌, delete_where, arith, Bool-cases, Option-cases, inl, inr,
  not, ◌&&◌,
}
use infinity_proxy.Db.{Store}
use infinity_proxy.Pool.{SourceManifest, source_by_name}
use infinity_proxy.Scraper.{contains_text}

-- The store, `_refreshing`, the names that a request has marked and not yet started a thread for, and
-- the names that a thread is at work on.
pub record Refresher : Type 0 where
  pub store : Store
  pub refreshing : List String
  pub starting : List String
  pub threads : List String

-- what is answered under the lock
pub data Marking : Type 0 where
  unknown busy marked : Marking

-- how a refresh ends, with the store it leaves
pub data Ended : Type 0 where
  returned raised : Store → Ended

abbrev pub without : String → List String → List String
without name names = delete_where (λ n. str_eq n name) names

abbrev pub without_first : String → List String → List String
without_first name [] = []
without_first name (n ∷ names) = if str_eq n name then names else n ∷ without_first name names

-- the `finally` clause
unfoldable pub finish_refresh : String → Refresher → Refresher
finish_refresh name r = record {
  store = r.store;
  refreshing = without name r.refreshing;
  starting = r.starting;
  threads = without_first name r.threads;
}

-- the logging of an exception, which keeps the store
abbrev pub left_by : Ended → Store
left_by (returned s) = s
left_by (raised s) = s

-- `Thread(…).start()`, which raises where the system has no thread left
unfoldable pub start_thread : Bool → String → Refresher → Option Bool × Refresher
start_thread starts name r =
    let r' : Refresher = record r { starting = without_first name r.starting } in
    if starts then (some true, record r' { threads = name ∷ r.threads }) else (none, r')

module _ (sources : List SourceManifest) where
  -- up to the end of the `with self._refresh_lock` block
  unfoldable pub mark_source : String → Refresher → Marking × Refresher
  mark_source name r = elim (source_by_name sources name) [
    | none ↦ (unknown, r)
    | some source ↦
        if contains_text name r.refreshing
        then (busy, r)
        else (marked, record r { refreshing = name ∷ r.refreshing; starting = name ∷ r.starting })
  ]

  -- after the block; `none` is the exception of starting the thread
  abbrev answer_mark : Bool → String → Marking × Refresher → Option Bool × Refresher
  answer_mark starts name (unknown, r) = (some false, r)
  answer_mark starts name (busy, r) = (some true, r)
  answer_mark starts name (marked, r) = start_thread starts name r

  unfoldable pub request_source_refresh : Bool → String → Refresher → Option Bool × Refresher
  request_source_refresh starts name r = answer_mark starts name (mark_source name r)

  -- the `try` clause
  abbrev pub try_refresh : (SourceManifest → Store → Ended) → String → Store → Ended
  try_refresh work name s = elim (source_by_name sources name) [
    | none ↦ returned s
    | some source ↦ work source s
  ]

  -- A thread's work; `work` is how the refresh of a source ends.
  unfoldable pub refresh_worker : (SourceManifest → Store → Ended) → String → Refresher → Refresher
  refresh_worker work name r = elim (try_refresh work name r.store) [
    | returned s ↦ finish_refresh name (record r { store = s })
    | raised s ↦ finish_refresh name (record r { store = left_by (raised s) })
  ]

  -- A request that marks or is answered, the start of its thread, the end of a thread that is at
  -- work, or a refresh of the source loop.
  pub data Turn (r r' : Refresher) : Type 0 where
    requested : (name : String) → r' ≡ (mark_source name r).1 → Turn r r'
    launched :
        (starts : Bool) (name : String)
        → contains_text name r.starting ≡ true
        → r' ≡ (start_thread starts name r).1
        → Turn r r'
    finished :
        (work : SourceManifest → Store → Ended) (name : String)
        → contains_text name r.threads ≡ true
        → r' ≡ refresh_worker work name r
        → Turn r r'
    looped :
        (work : SourceManifest → Store → Ended) (source : SourceManifest)
        → r' ≡ record r { store = left_by (work source r.store) }
        → Turn r r'

  pub data Turns (start : Refresher) : Refresher → Type 0 where
    here : Turns start start
    next : {r r' : Refresher} → Turns start r → Turn r r' → Turns start r'

abbrev pub count_text : String → List String → ℕ
count_text name [] = 0
count_text name (n ∷ names) =
    let rest = count_text name names in if str_eq n name then suc rest else rest

-- A source has at most one thread of a request, started or about to be, and none unless it is marked.
abbrev pub IsSingleFlight : Refresher → Type 0
IsSingleFlight r =
    (name : String)
    → count_text name r.starting + count_text name r.threads
      ≤ (if contains_text name r.refreshing then 1 else 0)

contains-without :
    (name n : String) (names : List String)
    → contains_text n (without name names) ≡ (not (str_eq name n) && contains_text n names)
contains-without name n [] = ground arith
contains-without name n (m ∷ names) =
    ground (arith, eq_iff m name, eq_iff m n, eq_iff name n, contains-without name n names)

count-without_first :
    (name n : String) (names : List String)
    → contains_text name names ≡ true
    → count_text n (without_first name names) + (if str_eq name n then 1 else 0)
      ≡ count_text n names
count-without_first name n [] h = ground arith
count-without_first name n (m ∷ names) h = elim (Bool-cases (str_eq m name)) [
  | inl hit ↦ rw hit (ground (arith, eq_iff m name, eq_iff m n, eq_iff name n))
  | inr miss ↦ rw miss (ground (arith, count-without_first name n names (ground arith)))
]

finish_refresh-IsSingleFlight :
    (name : String) (r : Refresher)
    → contains_text name r.threads ≡ true
    → IsSingleFlight r
    → IsSingleFlight (finish_refresh name r)
unfolding finish_refresh
finish_refresh-IsSingleFlight name r at_work h n =
    ground (
      arith,
      h n,
      contains-without name n r.refreshing,
      count-without_first name n r.threads at_work,
    )

start_thread-IsSingleFlight :
    (starts : Bool) (name : String) (r : Refresher)
    → contains_text name r.starting ≡ true
    → IsSingleFlight r
    → IsSingleFlight (start_thread starts name r).1
unfolding start_thread
start_thread-IsSingleFlight true name r waits h n =
    ground (arith, h n, count-without_first name n r.starting waits)
start_thread-IsSingleFlight false name r waits h n =
    ground (arith, h n, count-without_first name n r.starting waits)

Ended-cases : (e : Ended) → ((s : Store) × (e ≡ returned s)) ⊎ ((s : Store) × (e ≡ raised s))
Ended-cases (returned s) = inl (s, refl)
Ended-cases (raised s) = inr (s, refl)

module _ (sources : List SourceManifest) where
  mark_source-IsSingleFlight :
      (name : String) (r : Refresher)
      → IsSingleFlight r
      → IsSingleFlight (mark_source sources name r).1
  unfolding mark_source
  mark_source-IsSingleFlight name r h = elim (Option-cases (source_by_name sources name)) [
    | inl none_such ↦ rw (none_such, mark_source) h
    | inr (source, known) ↦ elim (Bool-cases (contains_text name r.refreshing)) [
      | inl is ↦ rw (known, mark_source) (rw (is, mark_source) h)
      | inr idle ↦
          rw (known, mark_source) (rw (idle, mark_source) (λ n. ground (arith, h n, eq_iff name n)))
    ]
  ]

  refresh_worker-IsSingleFlight :
      (work : SourceManifest → Store → Ended) (name : String) (r : Refresher)
      → contains_text name r.threads ≡ true
      → IsSingleFlight r
      → IsSingleFlight (refresh_worker sources work name r)
  unfolding refresh_worker
  refresh_worker-IsSingleFlight work name r at_work h =
      elim (Ended-cases (try_refresh sources work name r.store)) [
        | inl (s, fine) ↦
            rw (fine, refresh_worker)
              (finish_refresh-IsSingleFlight name (record r { store = s }) at_work h)
        | inr (s, fault) ↦
            rw (fault, refresh_worker)
              (finish_refresh-IsSingleFlight name (record r { store = s }) at_work h)
      ]

  Turn-IsSingleFlight :
      {r r' : Refresher} → Turn sources r r' → IsSingleFlight r → IsSingleFlight r'
  Turn-IsSingleFlight {r} (requested name same) h = rw same (mark_source-IsSingleFlight name r h)
  Turn-IsSingleFlight {r} (launched starts name waits same) h =
      rw same (start_thread-IsSingleFlight starts name r waits h)
  Turn-IsSingleFlight {r} (finished work name at_work same) h =
      rw same (refresh_worker-IsSingleFlight work name r at_work h)
  Turn-IsSingleFlight {r} (looped work source same) h = rw same h

  -- However requests, the starts and ends of their threads and the refreshes of the source loop
  -- follow one another: a source has at most one thread of a request at work or about to start, and
  -- none unless it is marked as refreshing. The refreshes of the source loop are outside this.
  pub Turns-IsSingleFlight :
      {start r : Refresher} → IsSingleFlight start → Turns sources start r → IsSingleFlight r
  Turns-IsSingleFlight h here = h
  Turns-IsSingleFlight h (next turns turn) = Turn-IsSingleFlight turn (Turns-IsSingleFlight h turns)

  worker_done :
      (work : SourceManifest → Store → Ended) (name : String) (r : Refresher)
      → contains_text name (refresh_worker sources work name r).refreshing ≡ false
  unfolding refresh_worker finish_refresh
  worker_done work name r =
      let out = contains-without name name r.refreshing in
      elim (Ended-cases (try_refresh sources work name r.store)) [
        | inl (s, fine) ↦ rw (fine, refresh_worker) (ground (arith, out, eq_iff name name))
        | inr (s, fault) ↦ rw (fault, refresh_worker) (ground (arith, out, eq_iff name name))
      ]

  abbrev with_mark : String → Refresher → Refresher
  with_mark name r = record r { refreshing = name ∷ r.refreshing; starting = name ∷ r.starting }

  module _ (name : String) (source : SourceManifest)
      (known : source_by_name sources name ≡ some source) where
    mark_source-idle :
        (r : Refresher)
        → contains_text name r.refreshing ≡ false
        → mark_source sources name r ≡ (marked, with_mark name r)
    unfolding mark_source
    mark_source-idle r idle = rw (known, mark_source) (rw (idle, mark_source) refl)

    mark_source-busy :
        (r : Refresher)
        → contains_text name r.refreshing ≡ true
        → mark_source sources name r ≡ (busy, r)
    unfolding mark_source
    mark_source-busy r is = rw (known, mark_source) (rw (is, mark_source) refl)

    request-idle :
        (starts : Bool) (r : Refresher)
        → contains_text name r.refreshing ≡ false
        → request_source_refresh sources starts name r ≡ start_thread starts name (with_mark name r)
    unfolding request_source_refresh
    request-idle starts r idle = ap (answer_mark sources starts name) (mark_source-idle r idle)

    restarted :
        (again : Bool) (r : Refresher)
        → contains_text name r.refreshing ≡ false
        → let (answer, r₂) = request_source_refresh sources true name r in
          let (fault, r₃) = request_source_refresh sources false name r in
          (answer ≡ some true)
          × (r₂.threads ≡ name ∷ r.threads)
          × (fault ≡ none)
          × (request_source_refresh sources again name r₃ ≡ (some true, r₃))
    unfolding request_source_refresh start_thread
    restarted again r idle =
        let started = request-idle true r idle in
        let failed = request-idle false r idle in
        let r₃ : Refresher = (request_source_refresh sources false name r).1 in
        let still : contains_text name r₃.refreshing ≡ true =
          ap (λ x. contains_text name x.1.refreshing) failed ∙ ground (arith, eq_iff name name) in
        (
          ap (λ x. x.0) started,
          ap (λ x. x.1.threads) started,
          ap (λ x. x.0) failed,
          ap (answer_mark sources again name) (mark_source-busy r₃ still),
        )

  -- Once the thread of a source of the manifest has ended, whether its refresh returned or raised,
  -- the next request starts a thread for it again if the system can start one. If it cannot, the
  -- request raises, and the request after it answers true, starts no thread and changes nothing.
  pub refresh_worker-restarts :
      (work : SourceManifest → Store → Ended) (name : String) (source : SourceManifest)
      (again : Bool) (r : Refresher)
      → source_by_name sources name ≡ some source
      → let r₁ = refresh_worker sources work name r in
        let (answer, r₂) = request_source_refresh sources true name r₁ in
        let (fault, r₃) = request_source_refresh sources false name r₁ in
        (answer ≡ some true)
        × (r₂.threads ≡ name ∷ r₁.threads)
        × (fault ≡ none)
        × (request_source_refresh sources again name r₃ ≡ (some true, r₃))
  refresh_worker-restarts work name source again r known =
      restarted name source known again (refresh_worker sources work name r)
        (worker_done work name r)
