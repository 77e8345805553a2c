-- ===== src/Container.antt =====
-- engine/tunnel/container.py: the calls that the controller makes to the Docker daemon. What the
-- daemon answers is an argument, and an operation is the calls it makes and the way it ends.
pub mod Cleanup
pub mod Sweep
use Prim.Native.String.{◌++◌ as ◌<>◌}
use infinity_proxy.Prelude.{
  String, Bool, true, false, not, Option, none, some, List, [], ◌∷◌, ◌++◌, any, str_eq,
  if◌then◌else◌, or_else,
}
use infinity_proxy.Prelude.Text.{starts_with, remove_prefix}

pub data Call : Type 0 where
  get_container stop_container remove_container restart_container : String → Call
  get_image pull_image list_containers : Call
  create_container put_archive start_container : String → Call

-- TunnelRuntimeUnavailable, or another exception
pub data Failure : Type 0 where
  unavailable unexpected : Failure

-- what a lookup comes to: the status of what is found, a NotFound or KeyError, or an API error
pub data Lookup : Type 0 where
  found : String → Lookup
  missing refused : Lookup

-- how a call ends: an API error is one of docker.errors
pub data Ending : Type 0 where
  fine api_error other_error : Ending

-- the daemon during one operation
pub record Daemon : Type 0 where
  pub reachable : Bool
  pub image : Lookup
  pub pulls : Ending
  pub creates : Ending
  pub ships : Ending
  pub starts : Ending
  pub container : String → Lookup
  pub removes : Ending
  pub restarts : Ending
  pub lists : Ending
  pub names : List (Option String)

-- the calls made, and the exception that left the operation
abbrev pub Run : Type 0
Run = List Call × Option Failure

-- one operation after another, unless the first raises
abbrev pub and_then : Run → Run → Run
and_then (calls, some f) next = (calls, some f)
and_then (calls, none) (more, ending) = (calls ++ more, ending)

-- an API error wrapped as TunnelRuntimeUnavailable
abbrev pub wrapped : Ending → Option Failure
wrapped fine = none
wrapped api_error = some unavailable
wrapped other_error = some unexpected

-- an API error that is not caught
abbrev pub bare : Ending → Option Failure
bare fine = none
bare _ = some unexpected

-- the lazily built client: an unreachable daemon is TunnelRuntimeUnavailable
abbrev pub connected : Daemon → Run → Run
connected d run = if d.reachable then run else ([], some unavailable)

unfoldable pub container_name : String → String → String
container_name prefix tid = prefix <> ("-" <> tid)

unfoldable pub is_running : Daemon → String → String → Option Bool × List Call
is_running d prefix tid =
    let name = container_name prefix tid in
    if d.reachable
    then (
      (elim (d.container name) [
        | found status ↦ some (str_eq status "running")
        | missing ↦ some false
        | refused ↦ some false
      ]),
      get_container name ∷ [],
    )
    else (none, [])

abbrev pub pulled_if_missing : Lookup → Ending → Run
pulled_if_missing (found status) pulls = (get_image ∷ [], none)
pulled_if_missing refused pulls = (get_image ∷ [], some unavailable)
pulled_if_missing missing pulls = (get_image ∷ pull_image ∷ [], wrapped pulls)

unfoldable pub ensure_image : Daemon → Run
ensure_image d = pulled_if_missing d.image d.pulls

-- a container that got no usable configuration is removed, and the exception goes on
abbrev pub scrapped : String → List Call → Option Failure → Run
scrapped name calls none = (calls, none)
scrapped name calls (some f) = (calls ++ remove_container name ∷ [], some f)

-- from the created container on
unfoldable pub fill_container : Daemon → String → Run
fill_container d name = elim (wrapped d.ships) [
  | some f ↦ scrapped name (put_archive name ∷ []) (some f)
  | none ↦ scrapped name (put_archive name ∷ start_container name ∷ []) (wrapped d.starts)
]

unfoldable pub create_and_fill : Daemon → String → Run
unfolding fill_container
create_and_fill d name =
    and_then (create_container name ∷ [], wrapped d.creates) (fill_container d name)

-- _run
unfoldable pub run_container : Daemon → String → Run
unfolding ensure_image create_and_fill
run_container d name = connected d (and_then (ensure_image d) (create_and_fill d name))

-- a stop that raises is passed over
abbrev pub cleared : String → Lookup → Ending → Run
cleared name missing removes = (get_container name ∷ [], none)
cleared name refused removes = (get_container name ∷ [], some unexpected)
cleared name (found status) removes =
    (get_container name ∷ stop_container name ∷ remove_container name ∷ [], bare removes)

-- _remove
unfoldable pub discard_container : Daemon → String → Run
discard_container d name = connected d (cleared name (d.container name) d.removes)

unfoldable pub start : Daemon → String → String → Run
start d prefix tid = run_container d (container_name prefix tid)

unfoldable pub update : Daemon → String → String → Run
update d prefix tid =
    let name = container_name prefix tid in
    and_then (discard_container d name) (run_container d name)

unfoldable pub restart : Daemon → String → String → Run
restart d prefix tid =
    let name = container_name prefix tid in
    connected d (elim (d.container name) [
      | found status ↦ (get_container name ∷ restart_container name ∷ [], bare d.restarts)
      | _ ↦ (get_container name ∷ [], some unexpected)
    ])

unfoldable pub stop : Daemon → String → String → Run
stop d prefix tid = discard_container d (container_name prefix tid)

abbrev pub among : List String → String → Bool
among ids tid = any (λ i. str_eq i tid) ids

-- the loop of reconcile over the names of the containers that are listed
unfoldable pub sweep : Daemon → String → List String → List (Option String) → Run
sweep d prefix expected [] = ([], none)
sweep d prefix expected (name ∷ names) =
    let rest = sweep d prefix expected names in
    let own = starts_with (prefix <> "-") (or_else name "") in
    let tid = remove_prefix (prefix <> "-") (or_else name "") in
    if own
    then (if among expected tid
        then rest
        else and_then (remove_container (or_else name "") ∷ [], bare d.removes) rest)
    else rest

unfoldable pub reconcile : Daemon → String → List String → Run
unfolding sweep
reconcile d prefix expected =
    connected d (and_then (list_containers ∷ [], bare d.lists) (sweep d prefix expected d.names))
