-- ===== src/Pool/Gate.antt =====
-- The admission gate of engine/pool.py: what a batch of verdicts makes of the rows of its nodes.
use infinity_proxy.Prelude.{
  ℕ, String, ◌≡◌, ◌⊎◌, refl, ap, ◌∙◌, Bool, true, false, not, ◌&&◌, ◌||◌, Option, none, some, List,
  [], ◌∷◌, map, leb, ◌==◌, arith, All, contains, update_where, Bool-cases, Option-cases, inl, inr,
}
use infinity_proxy.Config.{Settings}
use infinity_proxy.Models.{Node, ProbeResult, alive, same_state}
use infinity_proxy.Db.{Store, NodeRow}
use infinity_proxy.Db.Nodes.{get_node}
use infinity_proxy.Db.Probes.{
  apply_each, apply_probe_results, apply_verdict, stable_verdict, plain_verdict, on_node,
}
use infinity_proxy.Filter.Batches.{keys}
use infinity_proxy.Pool.{gate_result, admit_one, admit_mode, admit_batch}

abbrev pub is_alive : NodeRow → Bool
is_alive r = same_state r.state alive

-- the rows under an id are alive, or none of them is
abbrev pub StateIs : Bool → ℕ → List NodeRow → Type 0
StateIs b i = All (λ r. (r.node_id == i) ≡ true → is_alive r ≡ b)

-- the verdicts on an id all say the same
abbrev pub Agree : Bool → ℕ → List (ℕ × ProbeResult) → Type 0
Agree b i = All (λ e. (e.0 == i) ≡ true → e.1.alive ≡ b)

pub verdict-is_alive :
    (mode : Option (Option ℕ)) (now : ℕ) (res : ProbeResult) (r : NodeRow)
    → is_alive (on_node (apply_verdict mode now res) r) ≡ res.alive
unfolding apply_verdict stable_verdict plain_verdict
verdict-is_alive none now res r = ground arith
verdict-is_alive (some window) now res r = ground arith

pub verdict-node_id :
    (mode : Option (Option ℕ)) (now : ℕ) (res : ProbeResult) (r : NodeRow)
    → (on_node (apply_verdict mode now res) r).node_id ≡ r.node_id
unfolding apply_verdict stable_verdict plain_verdict
verdict-node_id none now res r = refl
verdict-node_id (some window) now res r = refl

module _ (mode : Option (Option ℕ)) (now : ℕ) where
  abbrev judge : ℕ → ProbeResult → List NodeRow → List NodeRow
  judge j res = update_where (λ r. r.node_id == j) (on_node (apply_verdict mode now res))

  judge-sets :
      (b : Bool) (i j : ℕ) (res : ProbeResult) (rows : List NodeRow)
      → (j == i) ≡ true
      → res.alive ≡ b
      → StateIs b i (judge j res rows)
  judge-sets b i j res [] same h = tt
  judge-sets b i j res (r ∷ rs) same h = elim (Bool-cases (r.node_id == j)) [
    | inl hit ↦ rw hit ((λ m. verdict-is_alive mode now res r ∙ h), judge-sets b i j res rs same h)
    | inr miss ↦ rw miss ((λ m. ground arith), judge-sets b i j res rs same h)
  ]

  judge-keeps :
      (b : Bool) (i j : ℕ) (res : ProbeResult) (rows : List NodeRow)
      → ((j == i) ≡ true → res.alive ≡ b)
      → StateIs b i rows
      → StateIs b i (judge j res rows)
  judge-keeps b i j res [] h st = tt
  judge-keeps b i j res (r ∷ rs) h st = elim (Bool-cases (r.node_id == j)) [
    | inl hit ↦ rw hit (
      (λ m. verdict-is_alive mode now res r ∙ h (ground (arith, verdict-node_id mode now res r))),
      judge-keeps b i j res rs h st.1,
    )
    | inr miss ↦ rw miss (st.0, judge-keeps b i j res rs h st.1)
  ]

  -- Once a verdict on the id is written, or if the rows stand so already, later ones change nothing.
  apply_each-StateIs :
      (b : Bool) (i : ℕ) (results : List (ℕ × ProbeResult)) (rows : List NodeRow)
      → Agree b i results
      → (contains i (keys results) ≡ true) ⊎ StateIs b i rows
      → StateIs b i (apply_each mode now results rows)
  unfolding apply_each
  apply_each-StateIs b i [] rows agree (inl h) = cc
  apply_each-StateIs b i [] rows agree (inr st) = st
  apply_each-StateIs b i ((j, res) ∷ results) rows agree (inr st) =
      apply_each-StateIs b i results (judge j res rows) agree.1
        (inr (judge-keeps b i j res rows agree.0 st))
  apply_each-StateIs b i ((j, res) ∷ results) rows agree (inl h) = elim (Bool-cases (j == i)) [
    | inl here ↦
        apply_each-StateIs b i results (judge j res rows) agree.1
          (inr (judge-sets b i j res rows here (agree.0 here)))
    | inr there ↦ apply_each-StateIs b i results (judge j res rows) agree.1 (inl (ground arith))
  ]

-- What the gate asks of a live node: an outbound, and a download at the floor or above it.
abbrev pub is_served : (Node → Bool) → Option Settings → Node → ProbeResult → Bool
is_served renders none n res = renders n
is_served renders (some c) n res =
    renders n
    && (not c.throughput_enabled
        || elim res.throughput_kb_s [ none ↦ false | some speed ↦ leb c.throughput_min_kb_s speed ])

module _ (decimal : ℕ → String) (renders : Node → Bool) where
  gate_result-alive :
      (c : Option Settings) (n : Node) (res : ProbeResult)
      → (gate_result decimal renders c n res).alive ≡ (res.alive && is_served renders c n res)
  unfolding gate_result
  gate_result-alive none n res = ground arith
  gate_result-alive (some c) n res = elim (Option-cases res.throughput_kb_s) [
    | inl gone ↦ ground arith
    | inr (speed, there) ↦ ground arith
  ]

  admit_one-alive :
      (c : Option Settings) (s : Store) (i : ℕ) (n : Node) (res : ProbeResult)
      → get_node i s ≡ some n
      → (admit_one decimal renders c s i res).alive ≡ (res.alive && is_served renders c n res)
  unfolding admit_one
  admit_one-alive c s i n res there =
      rw (there, admit_one) (ground (arith, gate_result-alive c n res))

  Agree-admitted :
      (c : Option Settings) (s : Store) (b : Bool) (i : ℕ) (n : Node)
      (batch : List (ℕ × ProbeResult))
      → get_node i s ≡ some n
      → All (λ e. (e.0 == i) ≡ true → (e.1.alive && is_served renders c n e.1) ≡ b) batch
      → Agree b i (map (λ e. (e.0, admit_one decimal renders c s e.0 e.1)) batch)
  Agree-admitted c s b i n [] there h = tt
  Agree-admitted c s b i n ((j, res) ∷ batch) there h = (
    (λ same.
        let found : get_node j s ≡ some n = ap (λ k. get_node k s) (ground arith) ∙ there in
        admit_one-alive c s j n res found ∙ h.0 same),
    Agree-admitted c s b i n batch there h.1,
  )

  keys-admitted :
      (c : Option Settings) (s : Store) (batch : List (ℕ × ProbeResult))
      → keys (map (λ e. (e.0, admit_one decimal renders c s e.0 e.1)) batch) ≡ keys batch
  keys-admitted c s [] = refl
  keys-admitted c s (e ∷ es) = ap (◌∷◌ e.0) (keys-admitted c s es)

  -- The gate decides: after a batch that holds a node, its row is alive exactly if its probe
  -- succeeded, the renderer takes it and, where downloads are certified, the speed is known and at
  -- the floor or above it. If the batch holds several verdicts on the node, they agree on that.
  pub admit_batch-StateIs :
      (c : Option Settings) (now : ℕ) (b : Bool) (i : ℕ) (n : Node) (batch : List (ℕ × ProbeResult))
      (s : Store)
      → get_node i s ≡ some n
      → contains i (keys batch) ≡ true
      → All (λ e. (e.0 == i) ≡ true → (e.1.alive && is_served renders c n e.1) ≡ b) batch
      → StateIs b i (admit_batch decimal renders c now batch s).nodes
  unfolding admit_batch apply_probe_results
  admit_batch-StateIs c now b i n batch s there among h =
      apply_each-StateIs (admit_mode c) now b i _ s.nodes (Agree-admitted c s b i n batch there h)
        (inl (ap (contains i) (keys-admitted c s batch) ∙ among))
