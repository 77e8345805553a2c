-- ===== src/History.antt =====
-- panel/history.py: the bounded store of samples behind the charts. Times are whole seconds.
use infinity_proxy.Prelude.{
  ℕ, ◌-◌, ◌≤◌, ◌≡◌, refl, List, [], ◌∷◌, ◌++◌, map, ltb, if◌then◌else◌, length, take, drop, ap, ◌∙◌,
  All, arith, Bool-cases, inl, inr,
}
use infinity_proxy.Prelude.Chunks.{take-append-drop, length-drop}
use infinity_proxy.Scheduler.Window.{IsChronological}

pub record Sample {ℓ} (A : Type ℓ) : Type ℓ where
  pub at : ℕ
  pub metrics : A

-- while self._samples and self._samples[0][0] < cutoff: self._samples.pop(0)
unfoldable pub drop_old {ℓ} : {A : Type ℓ} → ℕ → List (Sample A) → List (Sample A)
drop_old cutoff [] = []
drop_old cutoff (s ∷ samples) =
    let rest = drop_old cutoff samples in if ltb s.at cutoff then rest else s ∷ samples

-- del self._samples[: len(self._samples) - self._max_samples]
unfoldable pub trim {ℓ} : {A : Type ℓ} → ℕ → List (Sample A) → List (Sample A)
trim max_samples samples =
    if ltb max_samples (length samples)
    then drop (length samples - max_samples) samples
    else samples

unfoldable pub add {ℓ} : {A : Type ℓ} → ℕ → ℕ → ℕ → A → List (Sample A) → List (Sample A)
add window_s max_samples t metrics samples =
    trim max_samples
      (drop_old (t - window_s) (samples ++ record { at = t; metrics = metrics } ∷ []))

-- the second list is the end of the first
abbrev pub IsEnd {ℓ} : {A : Type ℓ} → List A → List A → Type ℓ
IsEnd {A} xs ys = (dropped : List A) × (dropped ++ ys ≡ xs)

append_assoc {ℓ} : {A : Type ℓ} (xs ys zs : List A) → (xs ++ ys) ++ zs ≡ xs ++ (ys ++ zs)
append_assoc [] ys zs = refl
append_assoc (x ∷ xs) ys zs = ap (◌∷◌ x) (append_assoc xs ys zs)

IsEnd-trans {ℓ} : {A : Type ℓ} (xs ys zs : List A) → IsEnd xs ys → IsEnd ys zs → IsEnd xs zs
IsEnd-trans xs ys zs (front, left) (more, right) =
    (front ++ more, append_assoc front more zs ∙ ap (λ l. front ++ l) right ∙ left)

module _ {A : Type 0} where
  drop_old-IsEnd :
      (cutoff : ℕ) (samples : List (Sample A)) → IsEnd samples (drop_old cutoff samples)
  unfolding drop_old
  drop_old-IsEnd cutoff [] = ([], refl)
  drop_old-IsEnd cutoff (s ∷ samples) = elim (Bool-cases (ltb s.at cutoff)) [
    | inl old ↦
        let (dropped, same) = drop_old-IsEnd cutoff samples in
        rw (old, drop_old) (s ∷ dropped, ap (◌∷◌ s) same)
    | inr recent ↦ rw (recent, drop_old) ([], refl)
  ]

  trim-IsEnd : (n : ℕ) (samples : List (Sample A)) → IsEnd samples (trim n samples)
  unfolding trim
  trim-IsEnd n samples = elim (Bool-cases (ltb n (length samples))) [
    | inl many ↦
        rw (many, trim)
          (take (length samples - n) samples, take-append-drop (length samples - n) samples)
    | inr few ↦ rw (few, trim) ([], refl)
  ]

  length-trim : (n : ℕ) (samples : List (Sample A)) → length (trim n samples) ≤ n
  unfolding trim
  length-trim n samples = ground (arith, length-drop (length samples - n) samples)

  abbrev pub times : List (Sample A) → List ℕ
  times = map (λ s. s.at)

  abbrev pub IsRecent : ℕ → List (Sample A) → Type 0
  IsRecent cutoff = All (λ s. cutoff ≤ s.at)

  later :
      (cutoff at : ℕ) (samples : List (Sample A))
      → cutoff ≤ at
      → All (λ x. at ≤ x) (times samples)
      → IsRecent cutoff samples
  later cutoff at [] h a = tt
  later cutoff at (s ∷ samples) h a = (omega (arith, h, a.0), later cutoff at samples h a.1)

  drop_old-IsRecent :
      (cutoff : ℕ) (samples : List (Sample A))
      → IsChronological (times samples)
      → IsRecent cutoff (drop_old cutoff samples)
  unfolding drop_old
  drop_old-IsRecent cutoff [] c = tt
  drop_old-IsRecent cutoff (s ∷ samples) c = elim (Bool-cases (ltb s.at cutoff)) [
    | inl old ↦ rw (old, drop_old) (drop_old-IsRecent cutoff samples c.1)
    | inr recent ↦
        let at : cutoff ≤ s.at = ground arith in
        rw (recent, drop_old) (at, later cutoff s.at samples at c.0)
  ]

  end-IsRecent :
      (cutoff : ℕ) (dropped samples : List (Sample A))
      → IsRecent cutoff (dropped ++ samples)
      → IsRecent cutoff samples
  end-IsRecent cutoff [] samples h = h
  end-IsRecent cutoff (s ∷ dropped) samples h = end-IsRecent cutoff dropped samples h.1

  -- Adding a sample keeps the store bounded: of the samples so far and the new one it keeps an
  -- unbroken end, at most `max_samples` long, and where the times ascend nothing in it is older than
  -- the window.
  pub add-IsEnd :
      (window_s max_samples t : ℕ) (metrics : A) (samples : List (Sample A))
      → let all_samples = samples ++ record { at = t; metrics = metrics } ∷ [] in
        let kept = add window_s max_samples t metrics samples in
        IsEnd all_samples kept
        × (length kept ≤ max_samples)
        × (IsChronological (times all_samples) → IsRecent (t - window_s) kept)
  unfolding add
  add-IsEnd window_s max_samples t metrics samples =
      let all_samples = samples ++ record { at = t; metrics = metrics } ∷ [] in
      let recent = drop_old (t - window_s) all_samples in
      let (dropped, same) = trim-IsEnd max_samples recent in
      (
        IsEnd-trans all_samples recent (trim max_samples recent)
            (drop_old-IsEnd (t - window_s) all_samples) (dropped, same),
        length-trim max_samples recent,
        λ c.
            end-IsRecent (t - window_s) dropped (trim max_samples recent)
              (rw same (drop_old-IsRecent (t - window_s) all_samples c)),
      )
