-- ===== src/Scraper/Distinct.antt =====
-- What dedup of engine/scraper/dedup.py keeps, and the ids that the store gets from it.
use infinity_proxy.Prelude.{
  ℕ, String, ◌≡◌, ◌≢◌, refl, sym, ap, true, false, not, ◌&&◌, List, [], ◌∷◌, map, arith, str_eq,
  eq_iff, contains, Unique, Bool-cases, inl, inr,
}
use infinity_proxy.Models.{NodeCandidate, identity_key, from_candidate}
use infinity_proxy.Db.Upsert.{node_ids}
use infinity_proxy.Scraper.{contains_text, dedup_from, dedup}

abbrev pub UniqueText : List String → Type 0
UniqueText [] = Unit
UniqueText (k ∷ ks) = (contains_text k ks ≡ false) × UniqueText ks

same_text :
    (k j : String) (ks : List String) → str_eq j k ≡ true → contains_text j ks ≡ contains_text k ks
same_text k j ks h = ap (λ t. contains_text t ks) ((eq_iff j k).0 h)

module _ (decimal : ℕ → String) (digest : String → ℕ) where
  abbrev pub keys_of : List NodeCandidate → List String
  keys_of = map (identity_key decimal digest)

  -- a key is kept if it comes in and was not seen before
  keys-dedup_from :
      (k : String) (seen : List String) (cs : List NodeCandidate)
      → contains_text k (keys_of (dedup_from decimal digest seen cs))
        ≡ (contains_text k (keys_of cs) && not (contains_text k seen))
  unfolding dedup_from
  keys-dedup_from k seen [] = refl
  keys-dedup_from k seen (c ∷ cs) =
      let key = identity_key decimal digest c in
      ground
        (arith, same_text k key seen, keys-dedup_from k seen cs, keys-dedup_from k (key ∷ seen) cs)

  dedup_from-UniqueText :
      (seen : List String) (cs : List NodeCandidate)
      → UniqueText (keys_of (dedup_from decimal digest seen cs))
  unfolding dedup_from
  dedup_from-UniqueText seen [] = tt
  dedup_from-UniqueText seen (c ∷ cs) =
      let key = identity_key decimal digest c in
      elim (Bool-cases (contains_text key seen)) [
        | inl old ↦ rw old (dedup_from-UniqueText seen cs)
        | inr new ↦ rw new (
          ground (arith, keys-dedup_from key (key ∷ seen) cs, eq_iff key key),
          dedup_from-UniqueText (key ∷ seen) cs,
        )
      ]

  -- Two keys of the batch with one digest are one key: the cut SHA-1 meets no collision in it.
  abbrev pub NoCollision : List String → Type 0
  NoCollision ks =
      (k j : String)
      → contains_text k ks ≡ true
      → contains_text j ks ≡ true
      → digest k ≡ digest j
      → k ≡ j

  new_digest :
      (now : ℕ) (k : String) (cs : List NodeCandidate)
      → ((j : String) → contains_text j (keys_of cs) ≡ true → k ≢ j → digest k ≢ digest j)
      → contains_text k (keys_of cs) ≡ false
      → contains (digest k) (node_ids (map (from_candidate decimal digest now) cs)) ≡ false
  unfolding from_candidate
  new_digest now k [] apart h = refl
  new_digest now k (c ∷ cs) apart h =
      let key = identity_key decimal digest c in
      let other : k ≢ key = λ same. ground (arith, eq_iff key k, sym same) in
      ground (
        arith,
        apart key (ground (arith, eq_iff key key)) other,
        new_digest now k cs (λ j m. apart j (ground arith)) (ground arith),
      )

  Unique-digests :
      (now : ℕ) (cs : List NodeCandidate)
      → UniqueText (keys_of cs)
      → NoCollision (keys_of cs)
      → Unique (node_ids (map (from_candidate decimal digest now) cs))
  unfolding from_candidate
  Unique-digests now [] u apart = tt
  Unique-digests now (c ∷ cs) u apart =
      let key = identity_key decimal digest c in
      (
        new_digest now key cs
            (λ j m other same.
              other (apart key j (ground (arith, eq_iff key key)) (ground arith) same))
            u.0,
        Unique-digests now cs u.1 (λ k j hk hj same. apart k j (ground arith) (ground arith) same),
      )

  -- The rows that the candidates of one feed become have distinct ids.
  pub dedup-Unique :
      (now : ℕ) (cs : List NodeCandidate)
      → NoCollision (keys_of cs)
      → Unique (node_ids (map (from_candidate decimal digest now) (dedup decimal digest cs)))
  unfolding dedup
  dedup-Unique now cs apart =
      let kept = dedup decimal digest cs in
      Unique-digests now kept (dedup_from-UniqueText [] cs) (λ k j hk hj same.
        apart k j (ground (arith, keys-dedup_from k [] cs, hk))
          (ground (arith, keys-dedup_from j [] cs, hj)) same)
