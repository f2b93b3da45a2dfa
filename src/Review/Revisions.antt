-- ===== src/Review/Revisions.antt =====
-- What `_apply_changes` of graphs/suggestion_review.py leaves of a draft.
use me_invest_paper.Base.{
  ℕ, ◌≤◌, ◌≡◌, refl, ◌⊎◌, inl, inr, Option, none, some, List, ◌==◌, arith, Has, Has-find, leb→le,
  Bool-cases, Option-cases, ltb, find?,
}
use me_invest_paper.Reconciliation.Matching.{distance}
use me_invest_paper.Base.Int.{ℤ, pos, negsuc}
use me_invest_paper.Suggest.Anchor.{ScoredLevel}
use me_invest_paper.Suggest.Persist.{SuggestionRow}
use me_invest_paper.Review.Critic.{
  is_priced, Number, number, raises, Changes, Revision, raised, refused, revised, with_qty,
  with_limit, with_anchor,
}

-- The row is the draft with another quantity of at least one share, and with another limit that is
-- within a cent of a scored level of the ticker: or with those of the draft.
abbrev pub IsSameOrder : List ScoredLevel → SuggestionRow → SuggestionRow → Type 0
IsSameOrder levels d r =
    (r.ticker ≡ d.ticker)
    × (r.side ≡ d.side)
    × (r.kind ≡ d.kind)
    × (r.base_qty ≡ d.base_qty)
    × (r.size_factor ≡ d.size_factor)
    × ((r.qty ≡ d.qty) ⊎ (1 ≤ r.qty))
    × ((r.limit_price ≡ d.limit_price)
        ⊎ ((lv : ScoredLevel) × Has lv levels × (distance lv.price r.limit_price ≤ 100)))

pub IsSameOrder-refl : (levels : List ScoredLevel) (d : SuggestionRow) → IsSameOrder levels d d
IsSameOrder-refl levels d = (refl, refl, refl, refl, refl, inl refl, inl refl)

module _ (levels : List ScoredLevel) where
  abbrev pub SameIfRevised : SuggestionRow → Revision → Type 0
  SameIfRevised d raised = Unit
  SameIfRevised d refused = Unit
  SameIfRevised d (revised r) = IsSameOrder levels d r

  with_qty-Same :
      (d e : SuggestionRow) (qty : Option (Number ℤ))
      → IsSameOrder levels d e
      → SameIfRevised d (with_qty e qty)
  with_qty-Same d e none h = h
  with_qty-Same d e (some raises) h = tt
  with_qty-Same d e (some (number (negsuc n))) h = tt
  with_qty-Same d e (some (number (pos n))) (ticker, side, kind, base, factor, qty, limit) =
      elim (Bool-cases (ltb n 1)) [
        | inl few ↦ rw few tt
        | inr enough ↦ rw enough (ticker, side, kind, base, factor, inr (ground arith), limit)
      ]

  with_limit-Same :
      (d : SuggestionRow) (limit : Option (Number ℕ)) (qty : Option (Number ℤ))
      → SameIfRevised d (with_limit levels d limit qty)
  with_limit-Same d none qty = with_qty-Same d d qty (IsSameOrder-refl levels d)
  with_limit-Same d (some raises) qty = tt
  with_limit-Same d (some (number price)) qty =
      elim (Option-cases (find? (is_priced price) levels)) [
        | inl unknown ↦ rw (unknown, SameIfRevised, with_limit) tt
        | inr (lv, found) ↦
            let (has, near) = Has-find (is_priced price) lv levels found in
            rw (found, SameIfRevised, with_limit)
              (with_qty-Same d (record d { limit_price = price }) qty
                (refl, refl, refl, refl, refl, inl refl, inr (lv, has, leb→le _ _ near)))
      ]

  pub with_anchor-Same :
      (d : SuggestionRow) (changes : Changes) (method : Option ℕ)
      → SameIfRevised d (with_anchor levels d changes method)
  with_anchor-Same d changes none = with_limit-Same d changes.limit_price changes.qty
  with_anchor-Same d changes (some method) =
      elim (Option-cases (find? (λ lv. lv.method == method) levels)) [
        | inl unknown ↦ rw (unknown, SameIfRevised, with_anchor) tt
        | inr (lv, found) ↦
            let (has, _) = Has-find (λ l. l.method == method) lv levels found in
            rw (found, SameIfRevised, with_anchor)
              (with_qty-Same d (record d { limit_price = lv.price; anchor_method = some lv.method })
                changes.qty
                (refl, refl, refl, refl, refl, inl refl, inr (lv, has, same_price lv.price)))
      ]
    where
      same_price : (n : ℕ) → distance n n ≤ 100
      same_price n = ground arith
