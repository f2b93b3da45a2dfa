-- ===== src/Review/Reach.antt =====
-- The levels that `_deeper_anchor` and `_find_level` of graphs/suggestion_review.py give.
use me_invest_paper.Base.{
  ℕ, ◌*◌, ◌≤◌, ◌≡◌, refl, ◌≢◌, ◌⊎◌, inl, inr, Bool, true, false, some, List, [], ◌∷◌, ◌==◌, arith,
  ltb, filter, Has, Has-filter, Has-find, Bool-cases, if◌then◌else◌,
}
use me_invest_paper.Store.{Side}
use me_invest_paper.Reconciliation.Matching.{distance}
use me_invest_paper.Suggest.Anchor.{ScoredLevel, is_support}
use me_invest_paper.Suggest.Budget.{OnSome, on_some}
use me_invest_paper.Review.Levels.{
  highest, lowest, is_deeper, nearest_of, deeper_anchor, is_choice, find_level,
}

-- At least as good a price: lower for a purchase, higher for a sale.
abbrev pub IsNoWorse : Side → ℕ → ℕ → Type 0
IsNoWorse Side.buy a b = a ≤ b
IsNoWorse Side.sell a b = b ≤ a

-- A level that serves: it betters the limit of before, or it is on the right side of the close and at
-- most 15 percent from it, unless there is no close.
abbrev pub Serves : Side → ℕ → ℕ → ScoredLevel → Type 0
Serves side limit close lv =
    (IsNoWorse side lv.price limit × (lv.price ≢ limit))
    ⊎ (IsNoWorse side lv.price close × (distance lv.price close * 100 ≤ 15 * close))
    ⊎ (close ≡ 0)

-- Whichever of two is picked stands among them.
Has-pick :
    (b : Bool) (x y z : ScoredLevel) (rest : List ScoredLevel)
    → Has z ((if b then x else y) ∷ rest)
    → Has z (y ∷ x ∷ rest)
Has-pick true x y z rest m = inr m
Has-pick false x y z rest (inl e) = inl e
Has-pick false x y z rest (inr m) = inr (inr m)

Has-highest : (best : ScoredLevel) (lvs : List ScoredLevel) → Has (highest best lvs) (best ∷ lvs)
Has-highest best [] = inl refl
Has-highest best (lv ∷ lvs) =
    let next = if ltb best.price lv.price then lv else best in
    Has-pick (ltb best.price lv.price) lv best (highest next lvs) lvs (Has-highest next lvs)

Has-lowest : (best : ScoredLevel) (lvs : List ScoredLevel) → Has (lowest best lvs) (best ∷ lvs)
Has-lowest best [] = inl refl
Has-lowest best (lv ∷ lvs) =
    let next = if ltb lv.price best.price then lv else best in
    Has-pick (ltb lv.price best.price) lv best (lowest next lvs) lvs (Has-lowest next lvs)

Has-nearest_of :
    (side : Side) (lvs : List ScoredLevel) → OnSome (λ lv. Has lv lvs) (nearest_of side lvs)
Has-nearest_of Side.buy [] = tt
Has-nearest_of Side.buy (lv ∷ lvs) = Has-highest lv lvs
Has-nearest_of Side.sell [] = tt
Has-nearest_of Side.sell (lv ∷ lvs) = Has-lowest lv lvs

-- A level of the right type for the side.
abbrev pub IsOfSide : Side → ScoredLevel → Type 0
IsOfSide Side.buy lv = is_support lv.type ≡ true
IsOfSide Side.sell lv = is_support lv.type ≡ false

deeper-Serves :
    (side : Side) (limit close : ℕ) (lv : ScoredLevel)
    → is_deeper side limit lv ≡ true
    → IsOfSide side lv × Serves side limit close lv
deeper-Serves Side.buy limit close lv h = (ground arith, inl (ground arith, ground arith))
deeper-Serves Side.sell limit close lv h = (ground arith, inl (ground arith, ground arith))

choice-Serves :
    (method : ℕ) (side : Side) (limit close : ℕ) (lv : ScoredLevel)
    → is_choice method side close lv ≡ true
    → IsOfSide side lv × Serves side limit close lv
choice-Serves method Side.buy limit close lv h = elim (Bool-cases (close == 0)) [
  | inl no_close ↦ (ground arith, inr (inr (ground arith)))
  | inr priced ↦ (ground arith, inr (inl (ground arith, ground arith)))
]
choice-Serves method Side.sell limit close lv h = elim (Bool-cases (close == 0)) [
  | inl no_close ↦ (ground arith, inr (inr (ground arith)))
  | inr priced ↦ (ground arith, inr (inl (ground arith, ground arith)))
]

pub Has-deeper :
    (side : Side) (limit close : ℕ) (levels : List ScoredLevel) (lv : ScoredLevel)
    → deeper_anchor side limit levels ≡ some lv
    → Has lv levels × IsOfSide side lv × Serves side limit close lv
unfolding deeper_anchor
Has-deeper side limit close levels lv e =
    let found =
      on_some (λ x. Has x (filter (is_deeper side limit) levels)) e
        (Has-nearest_of side (filter (is_deeper side limit) levels)) in
    let (m, deeper) = Has-filter (is_deeper side limit) lv levels found in
    let (sided, serves) = deeper-Serves side limit close lv deeper in (m, sided, serves)

pub Has-found :
    (levels : List ScoredLevel) (method : ℕ) (side : Side) (limit close : ℕ) (lv : ScoredLevel)
    → find_level levels method side close ≡ some lv
    → Has lv levels × IsOfSide side lv × Serves side limit close lv
unfolding find_level
Has-found levels method side limit close lv e =
    let (m, chosen) = Has-find (is_choice method side close) lv levels e in
    let (sided, serves) = choice-Serves method side limit close lv chosen in (m, sided, serves)
