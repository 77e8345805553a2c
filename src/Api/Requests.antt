-- ===== src/Api/Requests.antt =====
-- Creation and deletion of tunnels by the handlers of engine/app.py, on every branch.
use infinity_proxy.Prelude.{
  ℕ, ◌≤◌, ◌≡◌, ◌≢◌, ◌⊎◌, refl, ap, ◌∙◌, Bool, true, false, Option, none, some, List, [], ◌∷◌, ◌++◌,
  arith, ◌==◌, if◌then◌else◌, update_where, delete_where, find, contains, Option-cases, Bool-cases,
  inl, inr,
}
use infinity_proxy.Prelude.Dict.{get, get-pop, contains-discard}
use infinity_proxy.Config.{Settings}
use infinity_proxy.Models.{Node, Tunnel, running}
use infinity_proxy.Render.Config.{render_config}
use infinity_proxy.Db.{Store, get_tunnel}
use infinity_proxy.Db.Ownership.{owned}
use infinity_proxy.Db.Grants.{
  Accounts, is_row, save_tunnel-replaces, save_tunnel-Accounts, get_tunnel-IsBalanced,
}
use infinity_proxy.Assigner.{
  Creation, create_tunnel_config, port_exhausted, integrity_error, created,
}
use infinity_proxy.Assigner.Create.{Created, create_tunnel_config-Created}
use infinity_proxy.Scheduler.{
  Control, completed, unreachable, faulted, Engine, Strike, assignable_protocols, forget_tunnel,
}
use infinity_proxy.Api.{
  is_stopping, internal, rendering_of, Rendering, rendered, unrepresentable, crashed,
  tunnel_runtime, invalid_nodes, ApiError, Provision, NodeCount, node_count_of, Reply, error, made,
  roll_back, undo, finish_creation, settle_creation, settle_start, provision_tunnel, create_tunnel,
  delete_tunnel_request,
}
use infinity_proxy.Api.Rollback.{RolledBack, weaken, roll_back-RolledBack}

-- a creation that got its port and its nodes, and ended in an exception that the handler does not
-- catch, of rendering just this tunnel or of starting it: what create_tunnel_config stored stays
abbrev pub Stranded : Settings → Provision → NodeCount → Bool → Engine → Engine → Type 0
Stranded c env asked auto_renew e e' =
    (n : ℕ) × (t : Tunnel) × (nodes : List Node) × (node_count_of asked ≡ some n)
    × (create_tunnel_config c env.bindable env.now env.secrets n auto_renew assignable_protocols
          e.store
        ≡ created t nodes e'.store)
    × ((rendering_of (render_config env.library t nodes env.interval) ≡ crashed)
        ⊎ ((rendering_of (render_config env.library t nodes env.interval) ≡ rendered)
            × (env.starts ≡ faulted)))

-- the answer to a POST /tunnels: after an error nothing is left of the tunnel, unless it is stranded
abbrev pub Answered : Settings → Provision → NodeCount → Bool → Engine → Reply × Engine → Type 0
Answered c env asked auto_renew e (error code, e') =
    Accounts e'.store
    × (((e'.store.tunnels ≡ e.store.tunnels)
          × ((j : ℕ) → owned j e'.store.nodes ≡ owned j e.store.nodes))
        ⊎ Stranded c env asked auto_renew e e')
Answered c env asked auto_renew e (made t, e') =
    Accounts e'.store
    × (get_tunnel t.tunnel_id e'.store ≡ some t)
    × (t.state ≡ running)
    × (t.node_count_granted ≡ owned t.tunnel_id e'.store.nodes)
    × ((j : ℕ)
        → owned j e'.store.nodes
          ≡ (if t.tunnel_id == j then t.node_count_granted else owned j e.store.nodes))

find-appended :
    (tid : ℕ) (ts : List Tunnel) (t : Tunnel)
    → find (is_row tid) ts ≡ none
    → t.tunnel_id ≡ tid
    → find (is_row tid) (ts ++ t ∷ []) ≡ some t
find-appended tid [] t h e = ground arith
find-appended tid (u ∷ us) t h e = ground (arith, find-appended tid us t)

find-replaced :
    (tid : ℕ) (ts : List Tunnel) (t t' : Tunnel)
    → find (is_row tid) ts ≡ some t
    → t'.tunnel_id ≡ tid
    → find (is_row tid) (update_where (is_row tid) (λ u. t') ts) ≡ some t'
find-replaced tid [] t t' h e = cc
find-replaced tid (u ∷ us) t t' h e = ground (arith, find-replaced tid us t t')

delete-appended :
    (tid : ℕ) (ts : List Tunnel) (t : Tunnel)
    → find (is_row tid) ts ≡ none
    → t.tunnel_id ≡ tid
    → delete_where (is_row tid) (ts ++ t ∷ []) ≡ ts
delete-appended tid [] t h e = ground arith
delete-appended tid (u ∷ us) t h e = ground (arith, delete-appended tid us t)

find-deleted :
    (tid : ℕ) (ts : List Tunnel) → find (is_row tid) (delete_where (is_row tid) ts) ≡ none
find-deleted tid [] = refl
find-deleted tid (t ∷ ts) = ground (arith, find-deleted tid ts)

-- a store with the new tunnel, against the engine before
record Fresh (e : Engine) (t : Tunnel) (s : Store) : Type 0 where
  accounts : Accounts s
  new : get_tunnel t.tunnel_id e.store ≡ none
  idle : owned t.tunnel_id e.store.nodes ≡ 0
  rows : s.tunnels ≡ e.store.tunnels ++ t ∷ []
  grants :
      (j : ℕ)
      → owned j s.nodes ≡ (if t.tunnel_id == j then t.node_count_granted else owned j e.store.nodes)

module _ (c : Settings) (env : Provision) (asked : NodeCount) (auto_renew : Bool) (e : Engine)
    (t : Tunnel) (s : Store) (f : Fresh e t s) where
  undo-Answered : (code : ApiError) → Answered c env asked auto_renew e (undo code t.tunnel_id s e)
  unfolding undo get_tunnel
  undo-Answered code =
      let back = roll_back-RolledBack t.tunnel_id s f.accounts in
      elim (Option-cases (roll_back t.tunnel_id s)) [
        | inl fault ↦ absurd (rw fault at back)
        | inr (s', fine) ↦
            let (left, gone, a') : RolledBack t.tunnel_id s (some s') = rw fine at back in
            rw (fine, undo)
              (
                a',
                inl (
                  left
                      ∙ ap (delete_where (is_row t.tunnel_id)) f.rows
                      ∙ delete-appended t.tunnel_id e.store.tunnels t f.new refl,
                  λ j. ground (arith, gone j, f.grants j, f.idle),
                ),
              )
      ]

  finish-Answered :
      (nodes : List Node) → Answered c env asked auto_renew e (finish_creation t nodes s e)
  unfolding finish_creation get_tunnel
  finish-Answered nodes =
      let t' : Tunnel = record t { state = running } in
      let there : get_tunnel t.tunnel_id s ≡ some t =
        ap (find (is_row t.tunnel_id)) f.rows
        ∙ find-appended t.tunnel_id e.store.tunnels t f.new refl in
      let right = get_tunnel-IsBalanced t.tunnel_id s t f.accounts there in
      rw (save_tunnel-replaces t.tunnel_id s t t' f.accounts.keys there refl refl, finish_creation)
        (
          save_tunnel-Accounts t.tunnel_id s t t' f.accounts.keys
              (weaken t.tunnel_id s.nodes s.tunnels f.accounts.balanced) there refl refl right,
          find-replaced t.tunnel_id s.tunnels t t' there refl,
          refl,
          right,
          f.grants,
        )

  start-Answered :
      (nodes : List Node) (starts : Control)
      → (starts ≡ faulted → Stranded c env asked auto_renew e (record e { store = s }))
      → Answered c env asked auto_renew e (settle_start starts t nodes s e)
  unfolding settle_start
  start-Answered nodes completed stranded = finish-Answered nodes
  start-Answered nodes unreachable stranded = undo-Answered tunnel_runtime
  start-Answered nodes faulted stranded = (f.accounts, inr (stranded refl))

Rendering-cases : (r : Rendering) → (r ≡ rendered) ⊎ (r ≡ unrepresentable) ⊎ (r ≡ crashed)
Rendering-cases rendered = inl refl
Rendering-cases unrepresentable = inr (inl refl)
Rendering-cases crashed = inr (inr refl)

Creation-Answered :
    (c : Settings) (env : Provision) (asked : NodeCount) (n : ℕ) (auto_renew : Bool) (e : Engine)
    (made_of : Creation)
    → node_count_of asked ≡ some n
    → create_tunnel_config c env.bindable env.now env.secrets n auto_renew assignable_protocols
        e.store
      ≡ made_of
    → Accounts e.store
    → get_tunnel env.secrets.tunnel_id e.store ≡ none
    → owned env.secrets.tunnel_id e.store.nodes ≡ 0
    → Created c env.secrets n e.store made_of
    → Answered c env asked auto_renew e (settle_creation env made_of e)
unfolding settle_creation
Creation-Answered c env asked n auto_renew e port_exhausted readable same a new idle r =
    (a, inl (refl, λ j. refl))
Creation-Answered c env asked n auto_renew e (integrity_error s) readable same a new idle r =
    absurd r
Creation-Answered c env asked n auto_renew e (created t nodes s) readable same a new idle r =
    let (a', id, granted, _, _, _, _, rows, grants) = r in
    let f : Fresh e t s = record {
      accounts = a';
      new = ap (λ i. get_tunnel i e.store) id ∙ new;
      idle = ap (λ i. owned i e.store.nodes) id ∙ idle;
      rows = rows;
      grants = λ j. rw (id, granted) (grants j);
    } in
    elim (Rendering-cases (rendering_of (render_config env.library t nodes env.interval))) [
      | inl fine ↦
          rw (fine, settle_creation)
            (start-Answered c env asked auto_renew e t s f nodes env.starts
              (λ fault. (n, t, nodes, readable, same, inr (fine, fault))))
      | inr (inl unusable) ↦
          rw (unusable, settle_creation)
            (undo-Answered c env asked auto_renew e t s f invalid_nodes)
      | inr (inr fault) ↦
          rw (fault, settle_creation) (a', inr (n, t, nodes, readable, same, inl fault))
    ]

pub create_tunnel-Answered :
    (c : Settings) (env : Provision) (asked : NodeCount) (auto_renew : Bool) (e : Engine)
    → Accounts e.store
    → get_tunnel env.secrets.tunnel_id e.store ≡ none
    → owned env.secrets.tunnel_id e.store.nodes ≡ 0
    → c.tunnel_port_start ≤ c.tunnel_port_end
    → Answered c env asked auto_renew e (create_tunnel c env asked auto_renew e)
unfolding create_tunnel provision_tunnel
create_tunnel-Answered c env asked auto_renew e a new idle range =
    elim (Option-cases (node_count_of asked)) [
      | inl unreadable ↦ rw (unreadable, create_tunnel) (a, inl (refl, λ j. refl))
      | inr (n, readable) ↦ elim (Bool-cases (n == 0)) [
        | inl too_few ↦ rw (readable, create_tunnel) (rw too_few (a, inl (refl, λ j. refl)))
        | inr some_asked ↦
            rw (readable, create_tunnel)
              (rw some_asked (
                Creation-Answered c env asked n auto_renew e _ readable refl a new idle (
                  create_tunnel_config-Created c env.bindable env.now env.secrets n auto_renew
                    assignable_protocols e.store a new idle range)))
      ]
    ]

-- what the engine remembers of a tunnel besides the store
abbrev pub IsForgotten : ℕ → Engine → Type 0
IsForgotten tid e =
    (get tid e.rendered ≡ none)
    × (get tid e.last_check ≡ none)
    × (get tid e.swapped_24h ≡ none)
    × (get tid e.restarted_24h ≡ none)
    × (contains tid e.health_busy ≡ false)
    × (contains tid e.pending_redeploy ≡ false)
    × (find (λ k. k.tunnel == tid) e.strikes ≡ none)

strikes_gone :
    (tid : ℕ) (ks : List Strike)
    → find (λ k. k.tunnel == tid) (delete_where (λ k. k.tunnel == tid) ks) ≡ none
strikes_gone tid [] = refl
strikes_gone tid (k ∷ ks) = ground (arith, strikes_gone tid ks)

forget_tunnel-IsForgotten : (tid : ℕ) (e : Engine) → IsForgotten tid (forget_tunnel tid e)
unfolding forget_tunnel
forget_tunnel-IsForgotten tid e = (
  ground (arith, get-pop tid tid e.rendered),
  ground (arith, get-pop tid tid e.last_check),
  ground (arith, get-pop tid tid e.swapped_24h),
  ground (arith, get-pop tid tid e.restarted_24h),
  ground (arith, contains-discard tid tid e.health_busy),
  ground (arith, contains-discard tid tid e.pending_redeploy),
  strikes_gone tid e.strikes,
)

-- What a DELETE of a tunnel leaves: an error only where stopping it raised what the handler does not
-- catch, and then nothing has changed.
abbrev pub Deleted : Control → ℕ → Engine → Option ApiError × Engine → Type 0
Deleted stops tid e (some code, e') = (code ≡ internal) × (stops ≡ faulted) × (e' ≡ e)
Deleted stops tid e (none, e') =
    (stops ≢ faulted)
    × Accounts e'.store
    × (get_tunnel tid e'.store ≡ none)
    × (e'.store.tunnels ≡ delete_where (is_row tid) e.store.tunnels)
    × ((j : ℕ) → owned j e'.store.nodes ≡ (if tid == j then 0 else owned j e.store.nodes))
    × IsForgotten tid e'

removed-Deleted :
    (stops : Control) (tid : ℕ) (e : Engine) (t : Tunnel)
    → Accounts e.store
    → get_tunnel tid e.store ≡ some t
    → stops ≢ faulted
    → is_stopping stops ≡ true
    → Deleted stops tid e (delete_tunnel_request stops tid e)
unfolding delete_tunnel_request get_tunnel forget_tunnel
removed-Deleted stops tid e t a there apart stopping =
    let back = roll_back-RolledBack tid e.store a in
    elim (Option-cases (roll_back tid e.store)) [
      | inl fault ↦ absurd (rw fault at back)
      | inr (s', fine) ↦
          let (left, gone, a') : RolledBack tid e.store (some s') = rw fine at back in
          rw (there, delete_tunnel_request)
            (rw stopping (
              rw fine (
                apart,
                a',
                ap (find (is_row tid)) left ∙ find-deleted tid e.store.tunnels,
                left,
                gone,
                forget_tunnel-IsForgotten tid (record e { store = s' }),
              )))
    ]

-- Where the accounts are in order, deleting a tunnel that exists fails exactly if stopping its
-- container raises anything but TunnelRuntimeUnavailable, and then changes nothing. Otherwise its row
-- is gone and no other, its nodes are free and no others', the engine has forgotten it, and the
-- accounts are in order.
pub delete_tunnel_request-Deleted :
    (stops : Control) (tid : ℕ) (e : Engine) (t : Tunnel)
    → Accounts e.store
    → get_tunnel tid e.store ≡ some t
    → Deleted stops tid e (delete_tunnel_request stops tid e)
unfolding delete_tunnel_request
delete_tunnel_request-Deleted faulted tid e t a there =
    rw (there, delete_tunnel_request) (refl, refl, refl)
delete_tunnel_request-Deleted completed tid e t a there =
    removed-Deleted completed tid e t a there (λ p. grind (arith, p)) refl
delete_tunnel_request-Deleted unreachable tid e t a there =
    removed-Deleted unreachable tid e t a there (λ p. grind (arith, p)) refl
