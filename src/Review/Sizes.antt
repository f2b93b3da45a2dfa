-- ===== src/Review/Sizes.antt =====
-- The bounds of what `context_adjust_node` of graphs/suggestion_review.py makes of a draft.
use me_invest_paper.Base.{
  ℕ, ◌+◌, ◌*◌, ◌/◌, ◌≤◌, ◌<◌, ◌≡◌, refl, ap, ◌⊎◌, inl, inr, true, false, max, Option, none, some,
  List, [], ◌∷◌, arith, ltb, All, Has, Bool-cases, Option-cases, present,
}
use me_invest_paper.Base.Int.{ℤ, pos, negsuc}
use me_invest_paper.Store.{Text, Kind}
use me_invest_paper.Suggest.Anchor.{ScoredLevel}
use me_invest_paper.Suggest.Persist.{SuggestionRow}
use me_invest_paper.Suggest.Budget.{OnSome, on_some, mul_le}
use me_invest_paper.Review.Levels.{deeper_anchor, find_level}
use me_invest_paper.Review.Sizing.{
  ReviewContext, Settings, DraftSizeAdjustment, item_at, clamp, is_topup, Aim, aim_at, aim_of,
  aim_or_keep, close_or_zero, earnings_factor, earnings_anchor, narrative_factor, preferred_level,
  narrative_anchor, aim, adjust, adjust_from,
}
use me_invest_paper.Review.Places.{Ascends, Comes, Comes-above, Comes-tail, IsAt-head}
use me_invest_paper.Review.Reach.{Has-deeper, Has-found, IsOfSide, Serves}

clamp_le : (low high : ℕ) (m : ℤ) → clamp low high m ≤ max low high
clamp_le low high (pos n) = ground arith
clamp_le low high (negsuc n) = ground arith

module _ (ctx : ReviewContext) (settings : Settings) where
  -- The limit and the anchor are those of the draft, or those at a scored level of its ticker.
  abbrev pub IsAimed : SuggestionRow → Aim → Type 0
  IsAimed d a =
      (a ≡ aim_of d)
      ⊎ ((lv : ScoredLevel) × Has lv (ctx.scored_levels d.ticker)
          × IsOfSide d.side lv
          × Serves d.side d.limit_price (close_or_zero (ctx.closes d.ticker)) lv
          × (a ≡ aim_at d lv))

  narrative_factor_le :
      (n : Option DraftSizeAdjustment)
      → narrative_factor ctx settings n
        ≤ max 100 (max settings.context_size_min settings.context_size_max)
  narrative_factor_le none = ground arith
  narrative_factor_le (some n) =
      let within = clamp_le settings.context_size_min settings.context_size_max n.size_multiplier in
      ground arith

  IsAimed-preferred :
      (d : SuggestionRow) (method : Option ℕ)
      → IsAimed d (aim_or_keep d (preferred_level ctx settings d method))
  IsAimed-preferred d none = inl refl
  IsAimed-preferred d (some method) =
      let close = close_or_zero (ctx.closes d.ticker) in
      elim (Option-cases (find_level (ctx.scored_levels d.ticker) method d.side close)) [
        | inl lost ↦ rw lost (inl refl)
        | inr (lv, found) ↦
            let (m, sided, serves) =
              Has-found (ctx.scored_levels d.ticker) method d.side d.limit_price close lv found in
            rw found (inr (lv, m, sided, serves, refl))
      ]

  IsAimed-earnings :
      (d : SuggestionRow) (n : Option DraftSizeAdjustment)
      → IsAimed d (aim ctx settings d n (earnings_anchor ctx settings d))
  IsAimed-earnings d n = elim (Bool-cases (present (ctx.earnings_by_ticker d.ticker))) [
    | inr calm ↦ rw calm (IsAimed-preferred d (narrative_anchor ctx settings n))
    | inl soon ↦ elim (Bool-cases settings.earnings_reanchor) [
      | inr stays ↦ rw (soon, stays) (IsAimed-preferred d (narrative_anchor ctx settings n))
      | inl moves ↦
          elim (Option-cases (deeper_anchor d.side d.limit_price (ctx.scored_levels d.ticker))) [
            | inl lost ↦
                rw (soon, moves, lost) (IsAimed-preferred d (narrative_anchor ctx settings n))
            | inr (lv, found) ↦
                let (m, sided, serves) =
                  Has-deeper d.side d.limit_price (close_or_zero (ctx.closes d.ticker))
                    (ctx.scored_levels d.ticker) lv found in
                rw (soon, moves, found) (inr (lv, m, sided, serves, refl))
          ]
    ]
  ]

  module _ (note_text : SuggestionRow → Option DraftSizeAdjustment → Text) where
    -- The row is the draft in a new size, and the old one is kept beside it.
    abbrev pub IsResized : SuggestionRow → SuggestionRow → Type 0
    IsResized d r =
        (r.ticker ≡ d.ticker)
        × (r.side ≡ d.side)
        × (r.kind ≡ d.kind)
        × (r.base_qty ≡ some d.qty)
        × (1 ≤ r.qty)
        × (r.qty * 10000 ≤ d.qty * r.size_factor)
        × (d.qty * r.size_factor < (r.qty + 1) * 10000)
        × (r.size_factor
            ≤ earnings_factor ctx settings d
              * max 100 (max settings.context_size_min settings.context_size_max))
        × IsAimed d (record { limit = r.limit_price; anchor = r.anchor_method })

    -- A top-up stays as it is.
    abbrev pub IsKept : Kind → SuggestionRow → SuggestionRow → Type 0
    IsKept Kind.topup d r = r ≡ d
    IsKept Kind.regular d r = IsResized d r

    abbrev pub Related : ℕ → SuggestionRow → SuggestionRow → Type 0
    Related k d r = IsKept d.kind d r

    size_fits :
        (n factor : ℕ)
        → ltb (n * factor / 10000) 1 ≡ false
        → (1 ≤ n * factor / 10000)
          × (n * factor / 10000 * 10000 ≤ n * factor)
          × (n * factor < (n * factor / 10000 + 1) * 10000)
    size_fits n factor enough = (ground arith, omega arith, omega arith)

    adjust-regular :
        (d : SuggestionRow) (n : Option DraftSizeAdjustment)
        → is_topup d.kind ≡ false
        → OnSome (IsResized d) (adjust ctx settings note_text d n)
    unfolding adjust
    adjust-regular d n regular =
        let factor = earnings_factor ctx settings d * narrative_factor ctx settings n in
        elim (Bool-cases (ltb (d.qty * factor / 10000) 1)) [
          | inl few ↦ rw (regular, few) tt
          | inr enough ↦
              let (whole, below, above) = size_fits d.qty factor enough in
              rw (regular, enough)
                (
                  refl,
                  refl,
                  refl,
                  refl,
                  whole,
                  below,
                  above,
                  mul_le (earnings_factor ctx settings d) _ _ (narrative_factor_le n),
                  IsAimed-earnings d n,
                )
        ]

    adjust-topup :
        (d : SuggestionRow) (n : Option DraftSizeAdjustment)
        → is_topup d.kind ≡ true
        → OnSome (λ r. r ≡ d) (adjust ctx settings note_text d n)
    unfolding adjust
    adjust-topup d n topup = rw topup refl

    adjust-Related :
        (d : SuggestionRow) (n : Option DraftSizeAdjustment)
        → OnSome (IsKept d.kind d) (adjust ctx settings note_text d n)
    adjust-Related d n = by_kind d.kind refl
      where
        by_kind :
            (kind : Kind)
            → d.kind ≡ kind
            → OnSome (IsKept kind d) (adjust ctx settings note_text d n)
        by_kind Kind.topup e = adjust-topup d n (ap is_topup e)
        by_kind Kind.regular e = adjust-regular d n (ap is_topup e)

    -- The drafts that the context leaves come in their order, with their indices. A top-up is left
    -- as it is. Of every other draft that is left, the quantity is that of the draft times the size
    -- factor, rounded down, at least one share; the draft's quantity is kept as the base; the size
    -- factor is at most that for earnings times the greatest of one and the two bounds of the
    -- settings; and the limit and its anchor are those of the draft, or the cent below (for a
    -- purchase) or above (for a sale) a scored level of the ticker of the side's type, that betters
    -- the limit or is on the right side of the close and within 15 percent of it, if there is one.
    pub adjust_from-Related :
        (items : List DraftSizeAdjustment) (i : ℕ) (ds : List SuggestionRow)
        → Ascends (adjust_from ctx settings note_text items i ds)
          × All (Comes Related i ds) (adjust_from ctx settings note_text items i ds)
    unfolding adjust_from
    adjust_from-Related items i [] = (tt, tt)
    adjust_from-Related items i (d ∷ ds) =
        let narrative = item_at (λ n. n.draft_index) i items in
        let (ascends, comes) = adjust_from-Related items (i + 1) ds in
        let rest = adjust_from ctx settings note_text items (i + 1) ds in
        elim (Option-cases (adjust ctx settings note_text d narrative)) [
          | inl gone ↦ rw (gone, adjust_from) (ascends, Comes-tail Related i d ds rest comes)
          | inr (r, left) ↦
              let related = on_some (IsKept d.kind d) left (adjust-Related d narrative) in
              rw (left, adjust_from)
                (
                  (Comes-above Related i ds rest comes, ascends),
                  ((d, IsAt-head i d ds, related), Comes-tail Related i d ds rest comes),
                )
        ]
