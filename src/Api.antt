-- ===== src/Api.antt =====
-- engine/app.py: the handlers that create, delete and renew tunnels, as functions on the state of the
-- engine: nothing else comes between the statements of a request. What Docker answers is an argument.
pub mod Rollback
pub mod Requests
use infinity_proxy.Prelude.{
  ℕ, Bool, true, false, Option, none, some, List, [], ◌∷◌, map, ◌==◌, if◌then◌else◌, not,
}
use infinity_proxy.Prelude.Dict.{put}
use infinity_proxy.Config.{Settings}
use infinity_proxy.Models.{Node, Tunnel, ProbeResult, running}
use infinity_proxy.Render.{Library, Outcome, ok, raised, value_error}
use infinity_proxy.Render.Config.{SingBox, render_config}
use infinity_proxy.Db.{Store, get_tunnel, save_tunnel, delete_tunnel}
use infinity_proxy.Assigner.{
  Creation, Secrets, create_tunnel_config, port_exhausted, integrity_error, created, release_tunnel,
}
use infinity_proxy.Scheduler.{
  Engine, Control, completed, unreachable, faulted, Runtime, assignable_protocols, signature,
  forget_tunnel,
}
use infinity_proxy.Scheduler.Health.{Clock, Pass, returned, failed, health_check}

-- the codes of the error responses
pub data ApiError : Type 0 where
  invalid_request no_port invalid_nodes tunnel_runtime not_found renew_failed internal : ApiError

-- how rendering a configuration ends: a ValueError is caught, another exception is not
pub data Rendering : Type 0 where
  rendered unrepresentable crashed : Rendering

abbrev pub rendering_of : Outcome SingBox → Rendering
rendering_of (ok config) = rendered
rendering_of (raised value_error) = unrepresentable
rendering_of (raised f) = crashed

-- The environment of one creation; `starts` is how `controller.start` ends
pub record Provision : Type 0 where
  pub bindable : ℕ → Bool
  pub now : ℕ
  pub secrets : Secrets
  pub library : Library
  pub interval : Option ℕ
  pub starts : Control

-- `int(body.get("node_count", 10))`; a number below 1 is read as 0
pub data NodeCount : Type 0 where
  absent not_integer : NodeCount
  given : ℕ → NodeCount

abbrev pub node_count_of : NodeCount → Option ℕ
node_count_of absent = some 10
node_count_of not_integer = none
node_count_of (given n) = some n

pub data Reply : Type 0 where
  error : ApiError → Reply
  made : Tunnel → Reply

-- `none` is an IntegrityError
unfoldable pub roll_back : ℕ → Store → Option Store
roll_back tid s = elim (release_tunnel tid s) [
  | none ↦ none
  | some (freed, s') ↦ some (delete_tunnel tid s')
]

unfoldable pub undo : ApiError → ℕ → Store → Engine → Reply × Engine
undo code tid s e = elim (roll_back tid s) [
  | none ↦ (error internal, record e { store = s })
  | some s' ↦ (error code, record e { store = s' })
]

-- the tunnel that runs, and the configuration that it runs on
unfoldable pub finish_creation : Tunnel → List Node → Store → Engine → Reply × Engine
finish_creation t nodes s e =
    let t' : Tunnel = record t { state = running } in
    elim (save_tunnel t' s) [
      | none ↦ (error internal, record e { store = s })
      | some s' ↦ (
        made t',
        record e { store = s'; rendered = put t.tunnel_id (signature nodes) e.rendered },
      )
    ]

-- from the call of `controller.start` on
unfoldable pub settle_start : Control → Tunnel → List Node → Store → Engine → Reply × Engine
settle_start completed t nodes s e = finish_creation t nodes s e
settle_start unreachable t nodes s e = undo tunnel_runtime t.tunnel_id s e
settle_start faulted t nodes s e = (error internal, record e { store = s })

-- from the result of create_tunnel_config on
unfoldable pub settle_creation : Provision → Creation → Engine → Reply × Engine
settle_creation env port_exhausted e = (error no_port, e)
settle_creation env (integrity_error s) e = (error internal, record e { store = s })
settle_creation env (created t nodes s) e =
    elim (rendering_of (render_config env.library t nodes env.interval)) [
      | rendered ↦ settle_start env.starts t nodes s e
      | unrepresentable ↦ undo invalid_nodes t.tunnel_id s e
      | crashed ↦ (error internal, record e { store = s })
    ]

unfoldable pub provision_tunnel : Settings → Provision → ℕ → Bool → Engine → Reply × Engine
provision_tunnel c env requested auto_renew e =
    settle_creation env
      (create_tunnel_config c env.bindable env.now env.secrets requested auto_renew
        assignable_protocols e.store)
      e

unfoldable pub create_tunnel : Settings → Provision → NodeCount → Bool → Engine → Reply × Engine
create_tunnel c env asked auto_renew e = elim (node_count_of asked) [
  | none ↦ (error invalid_request, e)
  | some n ↦ if n == 0 then (error invalid_request, e) else provision_tunnel c env n auto_renew e
]

-- a runtime that cannot be reached is only logged
abbrev pub is_stopping : Control → Bool
is_stopping completed = true
is_stopping unreachable = true
is_stopping faulted = false

-- `stops` is how `controller.stop` ends; the `none` of the result is the 204
unfoldable pub delete_tunnel_request : Control → ℕ → Engine → Option ApiError × Engine
delete_tunnel_request stops tid e = elim (get_tunnel tid e.store) [
  | none ↦ (some not_found, e)
  | some t ↦ if not (is_stopping stops) then (some internal, e) else elim (roll_back tid e.store) [
    | none ↦ (some internal, e)
    | some s ↦ (none, forget_tunnel tid (record e { store = s }))
  ]
]

pub data Renewal : Type 0 where
  not_renewed : ApiError → Renewal
  renewed : ℕ → ℕ → ℕ → Renewal

abbrev pub granted_of : Option Tunnel → ℕ
granted_of none = 0
granted_of (some t) = t.node_count_granted

unfoldable pub renew_tunnel :
    Settings → Runtime → Clock → (ℕ → ProbeResult) → ℕ → Engine → Renewal × Engine
renew_tunnel c env t batch tid e = elim (get_tunnel tid e.store) [
  | none ↦ (not_renewed not_found, e)
  | some tunnel ↦
      let (e', pass) = health_check c env t batch tunnel e in
      elim pass [
        | failed ↦ (not_renewed renew_failed, e')
        | returned swapped added ↦
            (renewed swapped added (granted_of (get_tunnel tid e'.store)), e')
      ]
]
