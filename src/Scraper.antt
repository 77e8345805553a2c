-- ===== src/Scraper.antt =====
-- engine/scraper/dedup.py: the first candidate of each identity key is kept.
pub mod Distinct
pub mod Parse
use infinity_proxy.Prelude.{
  ℕ, String, Bool, true, false, ◌||◌, List, [], ◌∷◌, str_eq, if◌then◌else◌,
}
use infinity_proxy.Models.{NodeCandidate, identity_key}

-- `key in seen`, for a set of texts
abbrev pub contains_text : String → List String → Bool
contains_text k [] = false
contains_text k (j ∷ js) = str_eq j k || contains_text k js

module _ (decimal : ℕ → String) (digest : String → ℕ) where
  unfoldable pub dedup_from : List String → List NodeCandidate → List NodeCandidate
  dedup_from seen [] = []
  dedup_from seen (c ∷ cs) =
      let key = identity_key decimal digest c in
      let known = contains_text key seen in
      let rest = dedup_from (if known then seen else key ∷ seen) cs in
      if known then rest else c ∷ rest

  unfoldable pub dedup : List NodeCandidate → List NodeCandidate
  unfolding dedup_from
  dedup cs = dedup_from [] cs
