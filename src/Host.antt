-- ===== src/Host.antt =====
-- engine/host.py, class HostController: the measures of the tunnels and the pick among them. What a
-- download through a tunnel gives, and the clock, are arguments.
pub mod Picked
pub mod Agent
use infinity_proxy.Prelude.{
  ℕ, zero, suc, ◌+◌, ◌-◌, ◌*◌, String, Bool, true, false, not, ◌&&◌, ◌||◌, Option, none, some, List,
  [], ◌∷◌, select, str_eq, leb, ltb, ◌==◌, if◌then◌else◌, Key, asc, desc,
}
use infinity_proxy.Prelude.Dict.{get, put, pop}
use infinity_proxy.Prelude.Sort.{sort_by}
use infinity_proxy.Models.{Tunnel, is_stopped}
use infinity_proxy.Config.{Settings}
use infinity_proxy.Probe.Judge.{round_div}

-- A download through a tunnel: the status, the sizes of the chunks, whether the connection breaks
-- after them, the time to the first byte in tenths of a millisecond and the time after it.
pub record Fetch : Type 0 where
  pub status : ℕ
  pub chunks : List ℕ
  pub breaks : Bool
  pub first_byte : ℕ
  pub download_us : ℕ

-- a measure; both numbers count tenths
pub record Reading : Type 0 where
  pub latency_ms : ℕ
  pub throughput_kb_s : ℕ

pub record Kept : Type 0 where
  pub reading : Reading
  pub at_s : ℕ

pub record Measurement : Type 0 where
  pub tunnel : ℕ
  pub port : ℕ
  pub username : String
  pub reading : Reading

pub record Pick : Type 0 where
  pub tunnel : ℕ
  pub measurements : List Measurement

-- a candidate of a signature
abbrev pub Sign : Type 0
Sign = ℕ × ℕ × String

pub record Controller : Type 0 where
  pub measures : List (ℕ × Kept)
  pub pick : Option Pick
  pub pick_at : ℕ
  pub pick_signature : Option (List Sign)

-- HostController.__init__
abbrev pub fresh_controller : Controller
fresh_controller = record { measures = []; pick = none; pick_at = 0; pick_signature = none }

-- the clock of one call, and the downloads that it makes
pub record Watch : Type 0 where
  pub now : ℕ
  pub measured_at : ℕ → ℕ
  pub picked_at : ℕ
  pub sample_bytes : ℕ
  pub fetch : Tunnel → Option Fetch

-- the loop over the chunks: what was downloaded, unless the connection broke before the sample was
-- there
unfoldable pub download : ℕ → Bool → List ℕ → ℕ → Option ℕ
download target breaks [] got = if breaks then none else some got
download target breaks (n ∷ ns) got =
    let further = download target breaks ns (got + n) in
    if not (n == 0) && leb target (got + n) then some (got + n) else further

abbrev pub throughput_of : ℕ → ℕ → ℕ
throughput_of got zero = 0
throughput_of got (suc us) = round_div (got * 10 * 1000000) (1024 * suc us)

abbrev pub reading_of : Fetch → Option ℕ → Option Reading
reading_of f none = none
reading_of f (some zero) = none
reading_of f (some (suc got)) =
    some (record {
      latency_ms = f.first_byte;
      throughput_kb_s = throughput_of (suc got) f.download_us;
    })

abbrev pub fetched : ℕ → Option Fetch → Option Reading
fetched target none = none
fetched target (some f) =
    let got = download target f.breaks f.chunks 0 in
    if leb 400 f.status then none else reading_of f got

unfoldable pub measure : Watch → Tunnel → Option Reading
measure w t = if t.port == 0 then none else fetched w.sample_bytes (w.fetch t)

abbrev pub is_candidate : Tunnel → Bool
is_candidate t = not (is_stopped t.state) && not (t.port == 0)

-- _tunnels
unfoldable pub up_tunnels : List Tunnel → List Tunnel
up_tunnels ts = select is_candidate ts

abbrev pub signs : List Tunnel → List Sign
signs [] = []
signs (t ∷ ts) = (t.tunnel_id, t.port, t.username) ∷ signs ts

-- _signature; two tunnels of one store differ in their ids, which decide the order
unfoldable pub host_signature : List Tunnel → List Sign
host_signature ts = sort_by (λ (i, port, _). asc i ∷ asc port ∷ []) (signs (up_tunnels ts))

abbrev pub same_signs : List Sign → List Sign → Bool
same_signs [] [] = true
same_signs [] (x ∷ xs) = false
same_signs (x ∷ xs) [] = false
same_signs ((i, port, user) ∷ xs) ((i', port', user') ∷ ys) =
    (i == i') && ((port == port') && (str_eq user user' && same_signs xs ys))

-- `signature == self._pick_signature`
abbrev pub is_signature : List Sign → Option (List Sign) → Bool
is_signature xs none = false
is_signature xs (some ys) = same_signs xs ys

-- what a cached pick answers: it was made at `at`, less than the TTL ago
pub data PickAnswer : Type 0 where
  unavailable : PickAnswer
  picked : Pick → Bool → ℕ → PickAnswer

-- the cached pick, where the candidates and the TTL still hold
unfoldable pub cached_pick : Settings → ℕ → List Tunnel → Controller → Option Pick
cached_pick c now tuns h =
    if is_signature (host_signature tuns) h.pick_signature
      && ltb now (h.pick_at + c.host_pick_ttl_s)
    then h.pick
    else none

-- current_pick
unfoldable pub current_pick : Settings → ℕ → List Tunnel → Controller → Option (Pick × ℕ)
current_pick c now ts h = elim (up_tunnels ts) [
  | [] ↦ none
  | t ∷ tuns ↦ elim (cached_pick c now (t ∷ tuns) h) [
    | none ↦ none
    | some p ↦ some (p, c.host_pick_ttl_s - (now - h.pick_at))
  ]
]

abbrev pub measurement : Tunnel → Reading → Measurement
measurement t r = record { tunnel = t.tunnel_id; port = t.port; username = t.username; reading = r }

-- a measure that is still good
abbrev pub good_measure : Settings → Watch → Bool → Option Kept → Option Reading
good_measure c w force none = none
good_measure c w force (some kept) =
    if force || leb (kept.at_s + c.host_pick_ttl_s) w.now then none else some kept.reading

-- a fresh measure is kept, and a failed one forgotten
abbrev pub keep_measure : Watch → Tunnel → Option Reading → List (ℕ × Kept) → List (ℕ × Kept)
keep_measure w t none ms = pop t.tunnel_id ms
keep_measure w t (some r) ms =
    put t.tunnel_id (record { reading = r; at_s = w.measured_at t.tunnel_id }) ms

abbrev pub note_reading : Tunnel → Option Reading → List Measurement → List Measurement
note_reading t none rest = rest
note_reading t (some r) rest = measurement t r ∷ rest

abbrev pub measure_one :
    Watch → Tunnel → Option Reading → List (ℕ × Kept) → Option Reading × List (ℕ × Kept)
measure_one w t (some r) ms = (some r, ms)
measure_one w t none ms = let r = measure w t in (r, keep_measure w t r ms)

-- the loop of pick_best: the measurements, and the measures that are kept
unfoldable pub measure_all :
    Settings → Watch → Bool → List Tunnel → List (ℕ × Kept) → List Measurement × List (ℕ × Kept)
measure_all c w force [] ms = ([], ms)
measure_all c w force (t ∷ ts) ms =
    let (r, ms') = measure_one w t (good_measure c w force (get t.tunnel_id ms)) ms in
    let (rest, left) = measure_all c w force ts ms' in (note_reading t r rest, left)

-- `key=lambda m: (m["latency_ms"], -m["throughput_kb_s"])`
abbrev pub speed_key : Measurement → List Key
speed_key m = asc m.reading.latency_ms ∷ desc m.reading.throughput_kb_s ∷ []

-- the first of the sorted measurements is picked
abbrev pub pick_first :
    Settings → Watch → List Tunnel → List Measurement → Controller → PickAnswer × Controller
pick_first c w tuns [] h = (unavailable, h)
pick_first c w tuns (m ∷ ms) h =
    let p : Pick = record { tunnel = m.tunnel; measurements = m ∷ ms } in
    (
      picked p false c.host_pick_ttl_s,
      record h {
        pick = some p;
        pick_at = w.picked_at;
        pick_signature = some (host_signature tuns);
      },
    )

abbrev pub pick_fresh : Settings → Watch → Bool → List Tunnel → Controller → PickAnswer × Controller
pick_fresh c w force tuns h =
    let (found, ms) = measure_all c w force tuns h.measures in
    pick_first c w tuns (sort_by speed_key found) (record h { measures = ms })

abbrev pub pick_cached :
    Settings → Watch → Bool → List Tunnel → Controller → Option Pick → PickAnswer × Controller
pick_cached c w force tuns h (some p) = (picked p true (c.host_pick_ttl_s - (w.now - h.pick_at)), h)
pick_cached c w force tuns h none = pick_fresh c w force tuns h

abbrev pub pick_up : Settings → Watch → Bool → List Tunnel → Controller → PickAnswer × Controller
pick_up c w force [] h = (unavailable, h)
pick_up c w force (t ∷ tuns) h =
    pick_cached c w force (t ∷ tuns) h (if force then none else cached_pick c w.now (t ∷ tuns) h)

unfoldable pub pick_best :
    Settings → Watch → Bool → List Tunnel → Controller → PickAnswer × Controller
pick_best c w force ts h = pick_up c w force (up_tunnels ts) h
