-- ===== src/Pool/Refresh.antt =====
-- A whole refresh of engine/pool.py: it comes to an end, and the accounts of the store stand.
use infinity_proxy.Prelude.{
  ℕ, ◌<◌, ◌≡◌, ◌⊎◌, refl, All, update_where, str_eq, Bool, true, false, ◌&&◌, Option, none, some,
  List, [], ◌∷◌, map, ◌==◌, arith, Bool-cases, Option-cases, inl, inr, String,
}
use infinity_proxy.Prelude.Chunks.{chunks}
use infinity_proxy.Config.{Settings}
use infinity_proxy.Models.{Node, NodeCandidate, ProbeResult, from_candidate}
use infinity_proxy.Db.{Store, SourceRow, upsert_source, record_fetch}
use infinity_proxy.Db.Upsert.{upsert_candidates}
use infinity_proxy.Db.Feeds.{upsert_nodes-Unique, upsert_nodes-Accounts}
use infinity_proxy.Db.Grants.{Accounts}
use infinity_proxy.Scheduler.Passes.{probed-Accounts}
use infinity_proxy.Render.Builders.{renders}
use infinity_proxy.Scraper.{dedup}
use infinity_proxy.Scraper.Distinct.{keys_of, NoCollision, dedup-Unique}
use infinity_proxy.Filter.{Probed, set_each, run_chunks, batch_probe}
use infinity_proxy.Pool.{
  probe_nodes, store_candidates, Feeds, SourceManifest, admit_batch, admit_mode, admit_one,
  demote_each, demote_unrenderable, unrenderable, nodes_to_probe, probe_new, read_feed, read_feeds,
  refresh_source,
}

upsert_source-Accounts :
    (name scm : String) (s : Store) → Accounts s → Accounts (upsert_source name scm s)
unfolding upsert_source
upsert_source-Accounts name scm s a = record {
  keys = record {
    tunnel_keys = a.keys.tunnel_keys;
    port_keys = a.keys.port_keys;
    node_keys = a.keys.node_keys;
  };
  balanced = a.balanced;
}

record_fetch-Accounts :
    (name : String) (at : ℕ) (s : Store) → Accounts s → Accounts (record_fetch name at s)
unfolding record_fetch
record_fetch-Accounts name at s a = record {
  keys = record {
    tunnel_keys = a.keys.tunnel_keys;
    port_keys = a.keys.port_keys;
    node_keys = a.keys.node_keys;
  };
  balanced = a.balanced;
}

noted :
    (name : String) (at : ℕ) (rows : List SourceRow)
    → All
        (λ r. str_eq r.name name ≡ true → r.last_fetch_s ≡ some at)
        (update_where (λ r. str_eq r.name name) (λ r. record r { last_fetch_s = some at }) rows)
noted name at [] = tt
noted name at (r ∷ rs) = elim (Bool-cases (str_eq r.name name)) [
  | inl hit ↦ rw hit ((λ same. refl), noted name at rs)
  | inr miss ↦ rw miss ((λ same. ground (arith, miss)), noted name at rs)
]

fetched :
    (name : String) (at : ℕ) (s : Store)
    → All
        (λ r. str_eq r.name name ≡ true → r.last_fetch_s ≡ some at)
        (record_fetch name at s).sources
unfolding record_fetch
fetched name at s = noted name at s.sources

demote_each-Accounts :
    (serves : Node → Bool) (now : ℕ) (ns : List Node) (s : Store)
    → Accounts s
    → Accounts (demote_each serves now ns s).0
unfolding demote_each
demote_each-Accounts serves now [] s a = a
demote_each-Accounts serves now (n ∷ ns) s a = elim (Bool-cases (serves n)) [
  | inl fine ↦ rw fine (demote_each-Accounts serves now ns s a)
  | inr bad ↦ rw bad (
      demote_each-Accounts serves now ns _
        (probed-Accounts none now ((n.node_id, unrenderable n.node_id) ∷ []) s a))
]

-- a callback that keeps a property keeps it over all chunks
run_chunks-keeps :
    (P : Store → Type 0) (on_batch : List (ℕ × ProbeResult) → Store → Store) (probe : Node → Probed)
    → ((b : List (ℕ × ProbeResult)) (s : Store) → P s → P (on_batch b s))
    → (cs : List (List Node)) (results : List (ℕ × ProbeResult)) (s : Store) → P s
    → P (run_chunks on_batch probe cs results s).1
unfolding run_chunks
run_chunks-keeps P on_batch probe keeps [] results s p = p
run_chunks-keeps P on_batch probe keeps (c ∷ cs) results s p =
    run_chunks-keeps P on_batch probe keeps cs _ _ (keeps (set_each probe c []) s p)

admit_batch-Accounts :
    (decimal : ℕ → String) (takes : Node → Bool) (c : Option Settings) (now : ℕ)
    (b : List (ℕ × ProbeResult)) (s : Store)
    → Accounts s
    → Accounts (admit_batch decimal takes c now b s)
unfolding admit_batch
admit_batch-Accounts decimal takes c now b s a =
    probed-Accounts (admit_mode c) now (map (λ e. (e.0, admit_one decimal takes c s e.0 e.1)) b) s a

-- the call returned, and the accounts of its store are in order
abbrev pub Sound : Option Store → Type 0
Sound none = ⊥
Sound (some s) = Accounts s

probe_nodes-Sound :
    (env : Feeds) (c : Settings) (ns : List Node) (s : Store)
    → 0 < c.batch_size
    → Accounts s
    → Sound (probe_nodes env c ns s)
unfolding probe_nodes batch_probe
probe_nodes-Sound env c [] s positive a = a
probe_nodes-Sound env c (n ∷ ns) s positive a =
    let fine : (c.batch_size == 0) ≡ false = ground arith in
    let on_batch = admit_batch env.library.decimal (renders env.library) (some c) env.now in
    rw (fine, Sound)
      (run_chunks-keeps Accounts on_batch env.probe
        (admit_batch-Accounts env.library.decimal (renders env.library) (some c) env.now)
        (chunks c.batch_size (n ∷ ns)) [] s a)

module _ (env : Feeds) where
  -- No two keys of what a feed holds have one digest.
  abbrev pub Distinguishes : SourceManifest → String → Type 0
  Distinguishes source url =
      (text : String) (candidates : List NodeCandidate)
      → env.fetch_text url ≡ some text
      → env.parse_feed text source ≡ some candidates
      → NoCollision env.library.decimal env.digest
          (keys_of env.library.decimal env.digest candidates)

  -- One of the feeds was fetched, and parsing it raises.
  abbrev pub Unparsed : SourceManifest → List String → Type 0
  Unparsed source [] = ⊥
  Unparsed source (url ∷ urls) =
      ((text : String) × (env.fetch_text url ≡ some text) × (env.parse_feed text source ≡ none))
      ⊎ Unparsed source urls

  abbrev SoundOr : SourceManifest → List String → Option Store → Type 0
  SoundOr source urls none = Unparsed source urls
  SoundOr source urls (some s) = Accounts s

  Sound-SoundOr :
      (source : SourceManifest) (urls : List String) (o : Option Store)
      → Sound o
      → SoundOr source urls o
  Sound-SoundOr source urls none h = absurd h
  Sound-SoundOr source urls (some s) h = h

  store_candidates-Sound :
      (cs : List NodeCandidate) (s : Store)
      → NoCollision env.library.decimal env.digest (keys_of env.library.decimal env.digest cs)
      → Accounts s
      → Sound (store_candidates env cs s)
  unfolding store_candidates upsert_candidates
  store_candidates-Sound [] s apart a = a
  store_candidates-Sound (c ∷ cs) s apart a =
      let prepared =
        map (from_candidate env.library.decimal env.digest env.now)
          (dedup env.library.decimal env.digest (c ∷ cs)) in
      let distinct = dedup-Unique env.library.decimal env.digest env.now (c ∷ cs) apart in
      let (answered, _, _) = upsert_nodes-Unique prepared s a.keys.node_keys distinct in
      rw (answered, Sound) (upsert_nodes-Accounts prepared s a distinct)

  read_feed-Sound :
      (source : SourceManifest) (url : String) (s : Store)
      → Distinguishes source url
      → Accounts s
      → SoundOr source (url ∷ []) (read_feed env source url s)
  unfolding read_feed
  read_feed-Sound source url s apart a = elim (Option-cases (env.fetch_text url)) [
    | inl gone ↦ rw (gone, SoundOr) a
    | inr (text, there) ↦ elim (Option-cases (env.parse_feed text source)) [
      | inl raises ↦ rw (there, SoundOr) (rw (raises, SoundOr) (inl (text, there, raises)))
      | inr (candidates, parsed) ↦
          rw (there, SoundOr)
            (rw (parsed, SoundOr)
              (Sound-SoundOr source (url ∷ []) (store_candidates env candidates s)
                (store_candidates-Sound candidates s (apart text candidates there parsed) a)))
    ]
  ]

  first_raises :
      (source : SourceManifest) (url : String) (urls : List String)
      → Unparsed source (url ∷ [])
      → Unparsed source (url ∷ urls)
  first_raises source url urls (inl h) = inl h
  first_raises source url urls (inr h) = absurd h

  later_raises :
      (source : SourceManifest) (url : String) (urls : List String) (o : Option Store)
      → SoundOr source urls o
      → SoundOr source (url ∷ urls) o
  later_raises source url urls none h = inr h
  later_raises source url urls (some s) h = h

  read_feeds-Sound :
      (source : SourceManifest) (urls : List String) (s : Store)
      → All (Distinguishes source) urls
      → Accounts s
      → SoundOr source urls (read_feeds env source urls s)
  unfolding read_feeds
  read_feeds-Sound source [] s apart a = a
  read_feeds-Sound source (url ∷ urls) s apart a =
      let one = read_feed-Sound source url s apart.0 a in
      elim (Option-cases (read_feed env source url s)) [
        | inl raised ↦
            rw (raised, SoundOr) (first_raises source url urls (rw (raised, SoundOr) at one))
        | inr (s', fine) ↦
            rw (fine, SoundOr)
              (later_raises source url urls (read_feeds env source urls s')
                (read_feeds-Sound source urls s' apart.1 (rw (fine, SoundOr) at one)))
      ]

  -- The call returned, the accounts of its store are in order, and its source's fetch is noted; or it
  -- raised, and parsing a text that was fetched does.
  abbrev pub Refreshed : SourceManifest → Option Store → Type 0
  Refreshed source none = Unparsed source source.urls
  Refreshed source (some s) =
      Accounts s
      × All (λ r. str_eq r.name source.name ≡ true → r.last_fetch_s ≡ some env.now) s.sources

  pub refresh_source-Refreshed :
      (c : Settings) (source : SourceManifest) (s : Store)
      → 0 < c.batch_size
      → All (Distinguishes source) source.urls
      → Accounts s
      → Refreshed source (refresh_source env c source s)
  unfolding refresh_source demote_unrenderable probe_new
  refresh_source-Refreshed c source s positive apart a =
      let known = upsert_source source.name source.name s in
      let swept = (demote_unrenderable (renders env.library) env.probeable env.now known).0 in
      let a₁ =
        demote_each-Accounts (λ n. renders env.library n && env.probeable n) env.now _ known
          (upsert_source-Accounts source.name source.name s a) in
      let fed = read_feeds-Sound source source.urls swept apart a₁ in
      elim (Option-cases (read_feeds env source source.urls swept)) [
        | inl raised ↦ rw (raised, Refreshed) (rw (raised, SoundOr) at fed)
        | inr (s', fine) ↦
            let a₂ : Accounts s' = rw (fine, SoundOr) at fed in
            let probed = probe_nodes-Sound env c (nodes_to_probe c source s') s' positive a₂ in
            elim (Option-cases (probe_nodes env c (nodes_to_probe c source s') s')) [
              | inl stuck ↦ elim (rw stuck at probed) [ ]
              | inr (s'', done) ↦
                  rw (fine, Refreshed)
                    (rw (done, Refreshed)
                      (
                        record_fetch-Accounts source.name env.now s'' (rw done at probed),
                        fetched source.name env.now s'',
                      ))
            ]
      ]
