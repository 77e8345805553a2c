-- ===== src/Db/Feeds.antt =====
-- Feed updates, Store.upsert_candidates of engine/db.py: the ids of the table.
use infinity_proxy.Prelude.{
  Bool-cases, inl, inr, ℕ, ◌+◌, ◌≡◌, refl, ap, ◌∙◌, Bool, true, false, not, none, some, List, [],
  ◌∷◌, ◌++◌, arith, ◌==◌, select, length, any, contains, contains-append, if◌then◌else◌, Unique,
  Unique-snoc, Unique-select, map-update_where, update_where, length-update_where, length-append,
}
use infinity_proxy.Models.{Node}
use infinity_proxy.Db.{Store, NodeRow}
use infinity_proxy.Db.Upsert.{
  ids, node_ids, existing_ids, contains-existing_ids, insert_fresh, refresh_node, refresh_known,
  upsert_nodes,
}
use infinity_proxy.Db.Ownership.{owned}
use infinity_proxy.Db.Grants.{Accounts, same-IsBalanced}

abbrev unowned : Node → NodeRow
unowned n = record { node = n; assigned_to = none }

ids-append :
    (rows : List NodeRow) (n : Node) → ids (rows ++ unowned n ∷ []) ≡ ids rows ++ n.node_id ∷ []
ids-append [] n = refl
ids-append (r ∷ rs) n = ap (◌∷◌ r.node_id) (ids-append rs n)

apart : (i j : ℕ) (is : List ℕ) → contains i is ≡ false → contains j is ≡ true → (i == j) ≡ false
apart i j [] h k = ground arith
apart i j (x ∷ xs) h k = ground (arith, apart i j xs)

still_new :
    (n : Node) (ns : List Node) (rows : List NodeRow)
    → contains n.node_id (node_ids ns) ≡ false
    → ((i : ℕ) → contains i (node_ids (n ∷ ns)) ≡ true → contains i (ids rows) ≡ false)
    → (i : ℕ) → contains i (node_ids ns) ≡ true
    → contains i (ids (rows ++ unowned n ∷ [])) ≡ false
still_new n ns rows alone new i h = rw ids-append (
    ground (
      arith,
      contains-append i (ids rows) (n.node_id ∷ []),
      new i (ground arith),
      apart n.node_id i (node_ids ns) alone h,
    ))

-- rows under new and distinct ids are all inserted
insert_fresh-Unique :
    (ns : List Node) (rows : List NodeRow)
    → Unique (ids rows)
    → Unique (node_ids ns)
    → ((i : ℕ) → contains i (node_ids ns) ≡ true → contains i (ids rows) ≡ false)
    → let (rows', fine) = insert_fresh ns rows in
      (fine ≡ true) × Unique (ids rows') × (length rows' ≡ length rows + length ns)
unfolding insert_fresh
insert_fresh-Unique [] rows u v new = (refl, u, omega arith)
insert_fresh-Unique (n ∷ ns) rows u v new =
    let absent : contains n.node_id (ids rows) ≡ false = new n.node_id (ground arith) in
    let rows₁ = rows ++ unowned n ∷ [] in
    let grown : Unique (ids rows₁) = rw ids-append (Unique-snoc (ids rows) n.node_id u absent) in
    let (fine, distinct, count) =
      insert_fresh-Unique ns rows₁ grown v.1 (still_new n ns rows v.0 new) in
    rw (absent, insert_fresh)
      (fine, distinct, omega (arith, length-append rows (unowned n ∷ []), count))

ids-refresh_known :
    (ns : List Node) (rows : List NodeRow)
    → (ids (refresh_known ns rows) ≡ ids rows) × (length (refresh_known ns rows) ≡ length rows)
unfolding refresh_known refresh_node
ids-refresh_known [] rows = (refl, refl)
ids-refresh_known (n ∷ ns) rows =
    let renew : NodeRow → NodeRow = λ r. record r { node = refresh_node n r.node } in
    let hit : NodeRow → Bool = λ r. r.node_id == n.node_id in
    let (same, long) = ids-refresh_known ns (update_where hit renew rows) in
    (
      same ∙ map-update_where (λ r. r.node_id) hit renew rows (λ r. ground arith),
      long ∙ length-update_where hit renew rows,
    )

-- the candidates whose id has no row
abbrev pub fresh_of : List NodeRow → List Node → List Node
fresh_of rows ns = select (λ n. not (contains n.node_id (existing_ids rows (node_ids ns)))) ns

kept-unknown :
    (i : ℕ) (known : List ℕ) (ns : List Node)
    → contains i (node_ids (select (λ n. not (contains n.node_id known)) ns)) ≡ true
    → (contains i (node_ids ns) ≡ true) × (contains i known ≡ false)
kept-unknown i known [] h = ground arith
kept-unknown i known (n ∷ ns) h = ground (arith, kept-unknown i known ns)

fresh_of-new :
    (rows : List NodeRow) (ns : List Node) (i : ℕ)
    → contains i (node_ids (fresh_of rows ns)) ≡ true
    → contains i (ids rows) ≡ false
fresh_of-new rows ns i h = ground (
  arith,
  kept-unknown i (existing_ids rows (node_ids ns)) ns h,
  contains-existing_ids i rows (node_ids ns),
)

-- the candidates under an id that no row of the table has
abbrev pub new_of : List NodeRow → List Node → List Node
new_of rows [] = []
new_of rows (n ∷ ns) =
    let rest = new_of rows ns in if any (λ r. r.node_id == n.node_id) rows then rest else n ∷ rest

contains-ids :
    (i : ℕ) (rows : List NodeRow) → contains i (ids rows) ≡ any (λ r. r.node_id == i) rows
contains-ids i [] = refl
contains-ids i (r ∷ rs) = ground (arith, contains-ids i rs)

-- asking for the ids of a longer list finds the same of this one
new_of-known :
    (rows : List NodeRow) (known : List ℕ) (ns : List Node)
    → ((i : ℕ)
        → contains i (node_ids ns) ≡ true
        → contains i known ≡ any (λ r. r.node_id == i) rows)
    → select (λ n. not (contains n.node_id known)) ns ≡ new_of rows ns
new_of-known rows known [] same = refl
new_of-known rows known (n ∷ ns) same =
    let here = same n.node_id (ground arith) in
    ground (arith, here, new_of-known rows known ns (λ i h. same i (ground (arith, h))))

fresh_of-new_of : (rows : List NodeRow) (ns : List Node) → fresh_of rows ns ≡ new_of rows ns
fresh_of-new_of rows ns =
    new_of-known rows (existing_ids rows (node_ids ns)) ns
      (λ i h. ground (arith, h, contains-existing_ids i rows (node_ids ns), contains-ids i rows))

-- A batch of candidates with distinct ids meets no IntegrityError in a store whose node ids are
-- distinct: it answers how many of them have an id that no row had, the table grows by as many rows,
-- and its ids stay distinct.
pub upsert_nodes-Unique :
    (prepared : List Node) (s : Store)
    → Unique (ids s.nodes)
    → Unique (node_ids prepared)
    → let (s', answer) = upsert_nodes prepared s in
      let new = length (new_of s.nodes prepared) in
      (answer ≡ some new) × Unique (ids s'.nodes) × (length s'.nodes ≡ length s.nodes + new)
unfolding upsert_nodes
upsert_nodes-Unique prepared s u v =
    let fresh = fresh_of s.nodes prepared in
    let known = existing_ids s.nodes (node_ids prepared) in
    let old = select (λ n. contains n.node_id known) prepared in
    let rows = (insert_fresh fresh s.nodes).0 in
    let (fine, distinct, count) =
      insert_fresh-Unique fresh s.nodes u
        (Unique-select (λ n. n.node_id) (λ n. not (contains n.node_id known)) prepared v)
        (fresh_of-new s.nodes prepared) in
    let (same, long) = ids-refresh_known old rows in
    let counted = ap length (fresh_of-new_of s.nodes prepared) in
    rw (fine, upsert_nodes) (ap some counted, rw same distinct, omega (arith, long, count, counted))

owned-append :
    (tid : ℕ) (rows : List NodeRow) (n : Node) → owned tid (rows ++ unowned n ∷ []) ≡ owned tid rows
owned-append tid [] n = refl
owned-append tid (r ∷ rs) n = ground (arith, owned-append tid rs n)

owned-insert_fresh :
    (tid : ℕ) (ns : List Node) (rows : List NodeRow)
    → owned tid (insert_fresh ns rows).0 ≡ owned tid rows
unfolding insert_fresh
owned-insert_fresh tid [] rows = refl
owned-insert_fresh tid (n ∷ ns) rows =
    ground (arith, owned-insert_fresh tid ns (rows ++ unowned n ∷ []), owned-append tid rows n)

owned-renewed :
    (tid : ℕ) (p : NodeRow → Bool) (f : NodeRow → NodeRow) (rows : List NodeRow)
    → ((r : NodeRow) → (f r).assigned_to ≡ r.assigned_to)
    → owned tid (update_where p f rows) ≡ owned tid rows
owned-renewed tid p f [] same = refl
owned-renewed tid p f (r ∷ rs) same = ground (arith, same r, owned-renewed tid p f rs same)

owned-refresh_known :
    (tid : ℕ) (ns : List Node) (rows : List NodeRow)
    → owned tid (refresh_known ns rows) ≡ owned tid rows
unfolding refresh_known
owned-refresh_known tid [] rows = refl
owned-refresh_known tid (n ∷ ns) rows =
    let renew : NodeRow → NodeRow = λ r. record r { node = refresh_node n r.node } in
    let hit : NodeRow → Bool = λ r. r.node_id == n.node_id in
    owned-refresh_known tid ns (update_where hit renew rows)
    ∙ owned-renewed tid hit renew rows (λ r. refl)

-- A batch of candidates assigns and frees no node.
pub owned-upsert_nodes :
    (tid : ℕ) (prepared : List Node) (s : Store)
    → owned tid (upsert_nodes prepared s).0.nodes ≡ owned tid s.nodes
unfolding upsert_nodes
owned-upsert_nodes tid prepared s =
    let known = existing_ids s.nodes (node_ids prepared) in
    let fresh = fresh_of s.nodes prepared in
    let old = select (λ n. contains n.node_id known) prepared in
    let (rows, fine) = insert_fresh fresh s.nodes in
    elim (Bool-cases fine) [
      | inl all ↦
          rw (all, upsert_nodes)
            (owned-refresh_known tid old rows ∙ owned-insert_fresh tid fresh s.nodes)
      | inr clash ↦ rw (clash, upsert_nodes) (owned-insert_fresh tid fresh s.nodes)
    ]

tunnels-upsert_nodes :
    (prepared : List Node) (s : Store) → (upsert_nodes prepared s).0.tunnels ≡ s.tunnels
unfolding upsert_nodes
tunnels-upsert_nodes prepared s = ground arith

-- A batch of candidates with distinct ids keeps the accounts in order.
pub upsert_nodes-Accounts :
    (prepared : List Node) (s : Store)
    → Accounts s
    → Unique (node_ids prepared)
    → Accounts (upsert_nodes prepared s).0
upsert_nodes-Accounts prepared s a u =
    let (_, distinct, _) = upsert_nodes-Unique prepared s a.keys.node_keys u in
    let same = tunnels-upsert_nodes prepared s in
    record {
      keys = record {
        tunnel_keys = rw same a.keys.tunnel_keys;
        port_keys = rw same a.keys.port_keys;
        node_keys = distinct;
      };
      balanced = rw same (
          same-IsBalanced s.nodes (upsert_nodes prepared s).0.nodes s.tunnels
            (λ t. owned-upsert_nodes t prepared s) a.balanced);
    }
