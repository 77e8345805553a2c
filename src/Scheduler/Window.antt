-- ===== src/Scheduler/Window.antt =====
-- The 24-hour windows of swaps and restarts in engine/scheduler.py.
use infinity_proxy.Prelude.{
  ℕ, ◌-◌, ◌≤◌, ◌≡◌, refl, sym, ap, false, some, List, [], ◌∷◌, arith, ltb, length, delete_where,
  All, Bool-cases, inl, inr,
}
use infinity_proxy.Prelude.Dict.{get, put}
use infinity_proxy.Scheduler.{drop_before, events_in_window}

-- the times of events, oldest first
abbrev pub IsChronological : List ℕ → Type 0
IsChronological [] = Unit
IsChronological (at ∷ ats) = All (λ later. at ≤ later) ats × IsChronological ats

All-recent :
    (horizon at : ℕ) (ats : List ℕ)
    → ltb at horizon ≡ false
    → All (λ later. at ≤ later) ats
    → delete_where (λ x. ltb x horizon) ats ≡ ats
All-recent horizon at [] h a = refl
All-recent horizon at (x ∷ xs) h a = ground (arith, a.0, All-recent horizon at xs h a.1)

-- On times in order, dropping from the front drops every event before the horizon.
drop_before-delete :
    (horizon : ℕ) (ats : List ℕ)
    → IsChronological ats
    → drop_before horizon ats ≡ delete_where (λ x. ltb x horizon) ats
unfolding drop_before
drop_before-delete horizon [] c = refl
drop_before-delete horizon (at ∷ ats) c = elim (Bool-cases (ltb at horizon)) [
  | inl old ↦ rw old (drop_before-delete horizon ats c.1)
  | inr recent ↦ rw recent (ap (◌∷◌ at) (sym (All-recent horizon at ats recent c.0)))
]

-- For a tunnel whose events were recorded in the order of time, the count of the window is the
-- number of its events of the last 24 hours, and those are what is kept.
pub events_in_window-recent :
    (now tid : ℕ) (events : List (ℕ × List ℕ)) (ats : List ℕ)
    → get tid events ≡ some ats
    → IsChronological ats
    → let recent = delete_where (λ x. ltb x (now - 86_400)) ats in
      let (kept, count) = events_in_window now tid events in
      (count ≡ length recent) × (kept ≡ put tid recent events)
unfolding events_in_window
events_in_window-recent now tid events ats there c =
    let exact = drop_before-delete (now - 86_400) ats c in
    rw (there, events_in_window) (ap length exact, ap (λ xs. put tid xs events) exact)
