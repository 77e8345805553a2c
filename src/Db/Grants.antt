-- ===== src/Db/Grants.antt =====
-- The accounts of the store: every tunnel's node_count_granted is the number of nodes that point at
-- it. `save_tunnel` and `assigned_to` of engine/db.py keep the two sides in different tables.
use infinity_proxy.Prelude.{
  ℕ, ◌≡◌, ◌≢◌, refl, sym, ap, ◌∙◌, Bool, true, false, not, ◌&&◌, none, some, List, [], ◌∷◌, map,
  ◌==◌, update_where, any, find, contains, Unique, All, arith, Bool-cases, inl, inr, find-holds,
}
use infinity_proxy.Models.{Tunnel}
use infinity_proxy.Db.{Store, NodeRow, save_tunnel, get_tunnel}
use infinity_proxy.Db.Ownership.{ids, owned}

abbrev pub tunnel_ids : List Tunnel → List ℕ
tunnel_ids = map (λ t. t.tunnel_id)

abbrev pub ports : List Tunnel → List ℕ
ports = map (λ t. t.port)

-- PRIMARY KEY and UNIQUE of the schema
pub record HasKeys (s : Store) : Type 0 where
  pub tunnel_keys : Unique (tunnel_ids s.tunnels)
  pub port_keys : Unique (ports s.tunnels)
  pub node_keys : Unique (ids s.nodes)

abbrev pub IsBalanced : List NodeRow → Tunnel → Type 0
IsBalanced rows t = t.node_count_granted ≡ owned t.tunnel_id rows

pub record Accounts (s : Store) : Type 0 where
  pub keys : HasKeys s
  pub balanced : All (IsBalanced s.nodes) s.tunnels

-- balanced but for one tunnel
abbrev pub BalancedBut : ℕ → List NodeRow → List Tunnel → Type 0
BalancedBut tid rows ts = All (λ t. tid ≢ t.tunnel_id → IsBalanced rows t) ts

abbrev pub is_row : ℕ → Tunnel → Bool
is_row tid t = t.tunnel_id == tid

-- A tunnel that is found has the id, and is balanced if all are.
pub get_tunnel-id :
    (tid : ℕ) (s : Store) (t : Tunnel) → get_tunnel tid s ≡ some t → t.tunnel_id ≡ tid
unfolding get_tunnel
get_tunnel-id tid s t h = ground (arith, find-holds (is_row tid) s.tunnels t h)

find-IsBalanced :
    (rows : List NodeRow) (tid : ℕ) (ts : List Tunnel) (t : Tunnel)
    → All (IsBalanced rows) ts
    → find (is_row tid) ts ≡ some t
    → IsBalanced rows t
find-IsBalanced rows tid [] t b h = cc
find-IsBalanced rows tid (u ∷ us) t b h = elim (Bool-cases (is_row tid u)) [
  | inl here ↦ ground arith
  | inr there ↦ find-IsBalanced rows tid us t b.1 (ground arith)
]

pub get_tunnel-IsBalanced :
    (tid : ℕ) (s : Store) (t : Tunnel)
    → Accounts s
    → get_tunnel tid s ≡ some t
    → t.node_count_granted ≡ owned tid s.nodes
unfolding get_tunnel
get_tunnel-IsBalanced tid s t a h =
    find-IsBalanced s.nodes tid s.tunnels t a.balanced h
    ∙ ap (λ i. owned i s.nodes) (get_tunnel-id tid s t h)

absent-not_found :
    (tid : ℕ) (ts : List Tunnel)
    → contains tid (tunnel_ids ts) ≡ false
    → any (is_row tid) ts ≡ false
absent-not_found tid [] h = refl
absent-not_found tid (t ∷ ts) h = ground (arith, absent-not_found tid ts)

-- the tunnel found is the only one of its id
pub OnlyRow : ℕ → Tunnel → List Tunnel → Type 0
OnlyRow tid t ts = All (λ u. is_row tid u ≡ true → u ≡ t) ts

none_there :
    (tid : ℕ) (t : Tunnel) (ts : List Tunnel)
    → contains tid (tunnel_ids ts) ≡ false
    → OnlyRow tid t ts
unfolding OnlyRow
none_there tid t [] h = tt
none_there tid t (u ∷ us) h = ((λ e. ground arith), none_there tid t us (ground arith))

find-OnlyRow :
    (tid : ℕ) (ts : List Tunnel) (t : Tunnel)
    → Unique (tunnel_ids ts)
    → find (is_row tid) ts ≡ some t
    → OnlyRow tid t ts
unfolding OnlyRow
find-OnlyRow tid [] t u h = tt
find-OnlyRow tid (x ∷ xs) t u h = elim (Bool-cases (is_row tid x)) [
  | inl here ↦ ((λ e. ground arith), none_there tid t xs (ground arith))
  | inr there ↦ ((λ e. ground arith), find-OnlyRow tid xs t u.1 (ground arith))
]

map-replace :
    (f : Tunnel → ℕ) (tid : ℕ) (t t' : Tunnel) (ts : List Tunnel)
    → OnlyRow tid t ts
    → f t' ≡ f t
    → map f (update_where (is_row tid) (λ u. t') ts) ≡ map f ts
unfolding OnlyRow
map-replace f tid t t' [] o e = refl
map-replace f tid t t' (x ∷ xs) o e = elim (Bool-cases (is_row tid x)) [
  | inl here ↦ rw here (cc (map-replace f tid t t' xs o.1 e, e, o.0 here))
  | inr there ↦ rw there (ap (◌∷◌ (f x)) (map-replace f tid t t' xs o.1 e))
]

find-port :
    (tid : ℕ) (ts : List Tunnel) (t : Tunnel)
    → find (is_row tid) ts ≡ some t
    → contains t.port (ports ts) ≡ true
find-port tid [] t h = cc
find-port tid (x ∷ xs) t h = elim (Bool-cases (is_row tid x)) [
  | inl here ↦ ground arith
  | inr there ↦ let rest = find-port tid xs t (ground arith) in ground arith
]

port_elsewhere :
    (tid p : ℕ) (ts : List Tunnel)
    → contains p (ports ts) ≡ false
    → any (λ u. u.port == p && not (u.tunnel_id == tid)) ts ≡ false
port_elsewhere tid p [] h = refl
port_elsewhere tid p (x ∷ xs) h = ground (arith, port_elsewhere tid p xs)

-- no other tunnel has the port of the one found
port_is_own :
    (tid : ℕ) (ts : List Tunnel) (t : Tunnel)
    → Unique (ports ts)
    → find (is_row tid) ts ≡ some t
    → any (λ u. u.port == t.port && not (u.tunnel_id == tid)) ts ≡ false
port_is_own tid [] t u h = refl
port_is_own tid (x ∷ xs) t u h = elim (Bool-cases (is_row tid x)) [
  | inl here ↦
      let e : x ≡ t = ground arith in
      let gone =
        port_elsewhere tid t.port xs
          (ap (λ (p : ℕ). contains p (ports xs)) (sym (ap (λ (v : Tunnel). v.port) e)) ∙ u.0) in
      ground arith
  | inr there ↦
      let later : find (is_row tid) xs ≡ some t = ground arith in
      let rest = port_is_own tid xs t u.1 later in
      let held = find-port tid xs t later in ground arith
]

find-any :
    (tid : ℕ) (ts : List Tunnel) (t : Tunnel)
    → find (is_row tid) ts ≡ some t
    → any (is_row tid) ts ≡ true
find-any tid [] t h = cc
find-any tid (x ∷ xs) t h = ground (arith, find-any tid xs t)

-- Saving a row that was read, with its id and port as they were, replaces it and cannot fail.
pub save_tunnel-replaces :
    (tid : ℕ) (s : Store) (t t' : Tunnel)
    → HasKeys s
    → get_tunnel tid s ≡ some t
    → t'.tunnel_id ≡ t.tunnel_id
    → t'.port ≡ t.port
    → save_tunnel t' s ≡ some (record s { tunnels = update_where (is_row tid) (λ u. t') s.tunnels })
unfolding save_tunnel get_tunnel
save_tunnel-replaces tid s t t' k h same_id same_port =
    let e : t'.tunnel_id ≡ tid = same_id ∙ get_tunnel-id tid s t h in
    rw (e, same_port, port_is_own tid s.tunnels t k.port_keys h, find-any tid s.tunnels t h)

replaced-IsBalanced :
    (tid : ℕ) (rows : List NodeRow) (t' : Tunnel) (ts : List Tunnel)
    → BalancedBut tid rows ts
    → IsBalanced rows t'
    → All (IsBalanced rows) (update_where (is_row tid) (λ u. t') ts)
replaced-IsBalanced tid rows t' [] b e = tt
replaced-IsBalanced tid rows t' (u ∷ us) b e = elim (Bool-cases (is_row tid u)) [
  | inl here ↦ rw here (e, replaced-IsBalanced tid rows t' us b.1 e)
  | inr there ↦ rw there (b.0 (λ p. ground arith), replaced-IsBalanced tid rows t' us b.1 e)
]

-- After such a save the accounts are in order, if the row saved is right and the others were.
pub save_tunnel-Accounts :
    (tid : ℕ) (s : Store) (t t' : Tunnel)
    → HasKeys s
    → BalancedBut tid s.nodes s.tunnels
    → get_tunnel tid s ≡ some t
    → t'.tunnel_id ≡ t.tunnel_id
    → t'.port ≡ t.port
    → t'.node_count_granted ≡ owned tid s.nodes
    → Accounts (record s { tunnels = update_where (is_row tid) (λ u. t') s.tunnels })
unfolding get_tunnel
save_tunnel-Accounts tid s t t' k b h same_id same_port right =
    let only = find-OnlyRow tid s.tunnels t k.tunnel_keys h in
    record {
      keys = record {
        tunnel_keys =
            rw (map-replace (λ u. u.tunnel_id) tid t t' s.tunnels only same_id) k.tunnel_keys;
        port_keys = rw (map-replace (λ u. u.port) tid t t' s.tunnels only same_port) k.port_keys;
        node_keys = k.node_keys;
      };
      balanced =
          replaced-IsBalanced tid s.nodes t' s.tunnels b
            (right ∙ ap (λ i. owned i s.nodes) (sym (same_id ∙ get_tunnel-id tid s t h)));
    }

missing-IsBalanced :
    (tid : ℕ) (rows : List NodeRow) (ts : List Tunnel)
    → BalancedBut tid rows ts
    → find (is_row tid) ts ≡ none
    → All (IsBalanced rows) ts
missing-IsBalanced tid rows [] b h = tt
missing-IsBalanced tid rows (t ∷ ts) b h =
    (b.0 (λ p. ground arith), missing-IsBalanced tid rows ts b.1 (ground arith))

-- With no row for the one tunnel that is left open, nothing is open.
pub missing-Accounts :
    (tid : ℕ) (s : Store)
    → HasKeys s
    → BalancedBut tid s.nodes s.tunnels
    → get_tunnel tid s ≡ none
    → Accounts s
unfolding get_tunnel
missing-Accounts tid s k b h = record {
  keys = k;
  balanced = missing-IsBalanced tid s.nodes s.tunnels b h;
}

-- A change that moves only one tunnel's nodes leaves the other tunnels balanced.
pub others-BalancedBut :
    (tid : ℕ) (rows rows' : List NodeRow) (ts : List Tunnel)
    → ((t : ℕ) → tid ≢ t → owned t rows' ≡ owned t rows)
    → All (IsBalanced rows) ts
    → BalancedBut tid rows' ts
others-BalancedBut tid rows rows' [] same b = tt
others-BalancedBut tid rows rows' (t ∷ ts) same b =
    ((λ ne. b.0 ∙ sym (same t.tunnel_id ne)), others-BalancedBut tid rows rows' ts same b.1)

-- A change that moves no node leaves every tunnel balanced.
pub same-IsBalanced :
    (rows rows' : List NodeRow) (ts : List Tunnel)
    → ((t : ℕ) → owned t rows' ≡ owned t rows)
    → All (IsBalanced rows) ts
    → All (IsBalanced rows') ts
same-IsBalanced rows rows' [] same b = tt
same-IsBalanced rows rows' (t ∷ ts) same b =
    (b.0 ∙ sym (same t.tunnel_id), same-IsBalanced rows rows' ts same b.1)

only-IsBalanced :
    (tid : ℕ) (rows : List NodeRow) (t : Tunnel) (ts : List Tunnel)
    → BalancedBut tid rows ts
    → OnlyRow tid t ts
    → IsBalanced rows t
    → All (IsBalanced rows) ts
unfolding OnlyRow
only-IsBalanced tid rows t [] b o e = tt
only-IsBalanced tid rows t (u ∷ us) b o e = elim (Bool-cases (is_row tid u)) [
  | inl here ↦ (rw (o.0 here) e, only-IsBalanced tid rows t us b.1 o.1 e)
  | inr there ↦ (b.0 (λ p. ground arith), only-IsBalanced tid rows t us b.1 o.1 e)
]

-- If the one row left open turns out right, nothing is open.
pub found-Accounts :
    (tid : ℕ) (s : Store) (t : Tunnel)
    → HasKeys s
    → BalancedBut tid s.nodes s.tunnels
    → get_tunnel tid s ≡ some t
    → t.node_count_granted ≡ owned tid s.nodes
    → Accounts s
unfolding get_tunnel
found-Accounts tid s t k b h right = record {
  keys = k;
  balanced =
      only-IsBalanced tid s.nodes t s.tunnels b (find-OnlyRow tid s.tunnels t k.tunnel_keys h)
        (right ∙ ap (λ i. owned i s.nodes) (sym (get_tunnel-id tid s t h)));
}
