-- ===== src/Jobs/Windows.antt =====
-- The window of jobs/reconciliation.py.
use me_invest_paper.Base.{
  ℕ, ◌-◌, ◌*◌, ◌≤◌, ◌≡◌, refl, ◌⊎◌, inl, inr, Option, none, some, List, [], ◌∷◌, map, min, ltb,
  filter, arith, All, Bool-cases,
}
use me_invest_paper.Calendar.{day}
use me_invest_paper.Store.{Execution}
use me_invest_paper.Jobs.{is_still_open, earliest, since_last, reach_back, window_start}

-- The time is not after any of the list.
abbrev pub IsBeforeAll : Option ℕ → List ℕ → Type 0
IsBeforeAll none ts = ts ≡ []
IsBeforeAll (some t) ts = All (λ u. t ≤ u) ts

lower : (t u : ℕ) (ts : List ℕ) → t ≤ u → All (λ x. u ≤ x) ts → All (λ x. t ≤ x) ts
lower t u [] le h = tt
lower t u (x ∷ ts) le h = (omega (arith, h.0), lower t u ts le h.1)

earliest-IsBeforeAll : (ts : List ℕ) → IsBeforeAll (earliest ts) ts
earliest-IsBeforeAll [] = refl
earliest-IsBeforeAll (t ∷ ts) = let rest = earliest-IsBeforeAll ts in by_rest (earliest ts) rest
  where
    by_rest :
        (o : Option ℕ)
        → IsBeforeAll o ts
        → IsBeforeAll (elim o [ none ↦ some t | some u ↦ some (min t u) ]) (t ∷ ts)
    by_rest none h = (omega arith, rw h tt)
    by_rest (some u) h = (ground arith, lower (min t u) u ts (ground arith) h)

reach_back_lem :
    (o : Option ℕ) (since : ℕ) (ts : List ℕ)
    → IsBeforeAll o ts
    → (reach_back o since ≤ since) × All (λ t. reach_back o since ≤ t - 3600) ts
reach_back_lem none since ts h = (omega arith, rw h tt)
reach_back_lem (some oldest) since ts h = (ground arith, each ts h)
  where
    each :
        (us : List ℕ)
        → All (λ u. oldest ≤ u) us
        → All (λ t. min since (oldest - 3600) ≤ t - 3600) us
    each [] k = tt
    each (u ∷ us) k = (let le = k.0 in ground arith, each us k.1)

-- The window never starts before the cap. It starts at the cap, or both an hour before the last run,
-- if there was one, and an hour before the creation of every order of the account that is still open,
-- or earlier.
pub window_start_lem :
    (now max_days account : ℕ) (last : Option ℕ) (executions : List Execution)
    → let start = window_start now max_days account last executions in
      (now - max_days * day ≤ start)
      × ((start ≡ now - max_days * day)
          ⊎ ((start ≤ since_last now last)
              × All
                  (λ t. start ≤ t - 3600)
                  (map (λ e. e.created_at) (filter (is_still_open account) executions))))
unfolding window_start
window_start_lem now max_days account last executions =
    let times = map (λ (e : Execution). e.created_at) (filter (is_still_open account) executions) in
    let since = reach_back (earliest times) (since_last now last) in
    elim (Bool-cases (ltb since (now - max_days * day))) [
      | inl early ↦ rw early (omega arith, inl refl)
      | inr late ↦ rw late (
        ground arith,
        inr (
            reach_back_lem (earliest times) (since_last now last) times
              (earliest-IsBeforeAll times)),
      )
    ]
