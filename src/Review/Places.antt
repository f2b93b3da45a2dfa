-- ===== src/Review/Places.antt =====
-- The places of drafts in a list, counted from an index on.
use me_invest_paper.Base.{
  ℕ, suc, ◌+◌, ◌-◌, ◌≤◌, ◌<◌, ◌≡◌, ap, ◌∙◌, some, List, ◌∷◌, [], arith, get_elem?, All, All-map,
}
use me_invest_paper.Suggest.Persist.{SuggestionRow}

-- The draft at the index, where the first of the list has the index `i`.
abbrev pub IsAt : ℕ → List SuggestionRow → ℕ → SuggestionRow → Type 0
IsAt i ds k d = (i ≤ k) × (get_elem? ds (k - i) ≡ some d)

pub IsAt-head : (i : ℕ) (d : SuggestionRow) (ds : List SuggestionRow) → IsAt i (d ∷ ds) i d
IsAt-head i d ds =
    let none_left : i - i ≡ 0 = omega arith in (omega arith, ap (get_elem? (d ∷ ds)) none_left)

pub IsAt-tail :
    (i k : ℕ) (d e : SuggestionRow) (ds : List SuggestionRow)
    → IsAt (i + 1) ds k d
    → IsAt i (e ∷ ds) k d
IsAt-tail i k d e ds (above, at) =
    let further : k - i ≡ suc (k - (i + 1)) = omega arith in
    (omega arith, ap (get_elem? (e ∷ ds)) further ∙ at)

-- What a loop with indices leaves: each row has the index of a draft that it is related to.
abbrev pub Comes :
    (ℕ → SuggestionRow → SuggestionRow → Type 0)
    → ℕ
    → List SuggestionRow
    → ℕ × SuggestionRow
    → Type 0
Comes Related i ds (k, r) = (d : SuggestionRow) × IsAt i ds k d × Related k d r

pub Comes-tail :
    (Related : ℕ → SuggestionRow → SuggestionRow → Type 0) (i : ℕ) (e : SuggestionRow)
    (ds : List SuggestionRow) (kept : List (ℕ × SuggestionRow))
    → All (Comes Related (i + 1) ds) kept
    → All (Comes Related i (e ∷ ds)) kept
Comes-tail Related i e ds kept h =
    All-map (Comes Related (i + 1) ds) (Comes Related i (e ∷ ds))
      (λ kr c. (c.0, IsAt-tail i kr.0 c.0 e ds c.1, c.2)) kept h

-- The indices rise.
abbrev pub Ascends : List (ℕ × SuggestionRow) → Type 0
Ascends [] = Unit
Ascends ((k, r) ∷ kept) = All (λ x. k < x.0) kept × Ascends kept

pub Comes-above :
    (Related : ℕ → SuggestionRow → SuggestionRow → Type 0) (i : ℕ) (ds : List SuggestionRow)
    (kept : List (ℕ × SuggestionRow))
    → All (Comes Related (i + 1) ds) kept
    → All (λ x. i < x.0) kept
Comes-above Related i ds kept h =
    All-map (Comes Related (i + 1) ds) (λ x. i < x.0) (λ kr c. beyond kr.0 c.1.0) kept h
  where
    beyond : (k : ℕ) → i + 1 ≤ k → i < k
    beyond k le = omega arith
