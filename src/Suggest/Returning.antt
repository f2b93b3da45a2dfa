-- ===== src/Suggest/Returning.antt =====
-- When `generate_suggestions` of services/suggest.py returns.
use me_invest_paper.Base.{
  ℕ, zero, suc, ◌+◌, ◌-◌, ◌*◌, arith, ◌≡◌, refl, ap, ◌∙◌, ◌≢◌, false, not, ◌&&◌, Option, none, some,
  List, [], ◌∷◌, inl, inr, leb, filter, Bool-cases, Option-cases,
}
use me_invest_paper.Suggest.Anchor.{
  ScoredLevel, NearbyLevels, Choice, anchored, skipped, is_support, select_anchor, buy_levels,
  scored_or_fallback, select_buy_anchor, select_sell_anchor,
}
use me_invest_paper.Suggest.Generate.{
  BandStatus, GapRow, Inputs, Verdict, is_positive, round_qty, with_shares, buy_shares, sell_shares,
  size_buy, size_sell, with_choice, trim, with_nearby, judge, report, cost_of, generate_from,
  generate_suggestions,
}

-- The call returns.
abbrev pub Returns : {A : Type 0} → Option A → Type 0
Returns {A} o = (a : A) × (o ≡ some a)

select_anchor-Returns :
    (max_distance : ℕ) (lvs : List ScoredLevel) (current : ℕ)
    → current ≢ 0
    → Returns (select_anchor max_distance lvs current)
unfolding select_anchor
select_anchor-Returns max_distance [] current ne = (none, refl)
select_anchor-Returns max_distance (lv ∷ lvs) zero ne = absurd (ne refl)
select_anchor-Returns max_distance (lv ∷ lvs) (suc c) ne = (_, refl)

scored_or_fallback-Returns :
    (nearby : NearbyLevels) (max_distance : ℕ) (o : Option ScoredLevel)
    → Returns (scored_or_fallback nearby max_distance (some o))
scored_or_fallback-Returns nearby max_distance none = (_, refl)
scored_or_fallback-Returns nearby max_distance (some lv) = (_, refl)

select_buy_anchor-Returns :
    (nearby : NearbyLevels) (scored : List ScoredLevel) (max_distance : ℕ)
    → nearby.current_price ≢ 0
    → Returns (select_buy_anchor nearby scored max_distance)
unfolding select_buy_anchor
select_buy_anchor-Returns nearby scored max_distance ne =
    let (o, e) =
      select_anchor-Returns max_distance (buy_levels nearby scored) nearby.current_price ne in
    rw (e, select_buy_anchor) (scored_or_fallback-Returns nearby max_distance o)

select_sell_anchor-Returns :
    (nearby : NearbyLevels) (scored : List ScoredLevel) (max_distance : ℕ)
    → nearby.current_price ≢ 0
    → Returns (select_sell_anchor nearby scored max_distance)
unfolding select_sell_anchor
select_sell_anchor-Returns nearby scored max_distance ne =
    let (o, e) =
      select_anchor-Returns max_distance
        (filter (λ lv. not (is_support lv.type) && leb nearby.current_price lv.price) scored)
        nearby.current_price ne in
    elim (Option-cases o) [
      | inl n ↦ rw (e ∙ ap some n, select_sell_anchor) (_, refl)
      | inr (lv, l) ↦ rw (e ∙ ap some l, select_sell_anchor) (_, refl)
    ]

-- No price is divided by that is zero.
round_qty-Returns : (dollars price : ℕ) → Returns (round_qty dollars price)
round_qty-Returns dollars zero = (0, refl)
round_qty-Returns dollars (suc p) =
    let positive : suc p * 100 ≡ suc (suc p * 100 - 1) = omega arith in
    let above : leb (suc p) 0 ≡ false = ground arith in rw (above, positive) (_, refl)

module _ (inputs : Inputs) where
  with_choice-Returns :
      (f : Choice → Option Verdict) (o : Option Choice)
      → ((choice : Choice) → Returns (f choice))
      → Returns o
      → Returns (with_choice inputs f o)
  with_choice-Returns f o each (choice, e) = rw e (each choice)

  with_shares-Returns :
      (f : ℕ → Verdict) (o : Option ℕ) → Returns o → Returns (with_shares inputs f o)
  with_shares-Returns f o (qty, e) = rw e (f qty, refl)

  size_buy-Returns :
      (spent : ℕ) (g : GapRow) (choice : Choice) → Returns (size_buy inputs spent g choice)
  size_buy-Returns spent g (skipped reason) = (_, refl)
  size_buy-Returns spent g (anchored a) =
      with_shares-Returns (buy_shares inputs spent g a) _ (round_qty-Returns _ a.price)

  size_sell-Returns : (g : GapRow) (choice : Choice) → Returns (size_sell inputs g choice)
  size_sell-Returns g (skipped reason) = (_, refl)
  size_sell-Returns g (anchored a) =
      with_shares-Returns (sell_shares inputs g a) _ (round_qty-Returns _ a.price)

  trim-Returns :
      (g : GapRow) (nearby : NearbyLevels) (st : BandStatus)
      → nearby.current_price ≢ 0
      → Returns (trim inputs g nearby st)
  trim-Returns g nearby BandStatus.over ne =
      with_choice-Returns (size_sell inputs g) _ (size_sell-Returns g)
        (select_sell_anchor-Returns nearby (inputs.scored_levels g.ticker) inputs.max_distance ne)
  trim-Returns g nearby BandStatus.under ne = (_, refl)
  trim-Returns g nearby BandStatus.in_band ne = (_, refl)

  with_nearby-Returns :
      (spent : ℕ) (g : GapRow) (o : Option NearbyLevels)
      → ((nearby : NearbyLevels) → o ≡ some nearby → nearby.current_price ≢ 0)
      → Returns (with_nearby inputs spent g o)
  with_nearby-Returns spent g none priced = (_, refl)
  with_nearby-Returns spent g (some nearby) priced = elim (Bool-cases (is_positive g.gap_pct)) [
    | inl up ↦ rw up (
        with_choice-Returns (size_buy inputs spent g) _ (size_buy-Returns spent g) (
          select_buy_anchor-Returns nearby (inputs.scored_levels g.ticker) inputs.max_distance
            (priced nearby refl)))
    | inr down ↦ rw down (trim-Returns g nearby g.band_status (priced nearby refl))
  ]

  module _
      (priced : (ticker : ℕ) (nearby : NearbyLevels)
        → inputs.nearby_levels ticker ≡ some nearby
        → nearby.current_price ≢ 0) where
    judge-Returns : (spent : ℕ) (g : GapRow) (st : BandStatus) → Returns (judge inputs spent g st)
    judge-Returns spent g BandStatus.in_band = (_, refl)
    judge-Returns spent g BandStatus.under =
        with_nearby-Returns spent g (inputs.nearby_levels g.ticker) (priced g.ticker)
    judge-Returns spent g BandStatus.over =
        with_nearby-Returns spent g (inputs.nearby_levels g.ticker) (priced g.ticker)

    generate_from-Returns : (spent : ℕ) (gs : List GapRow) → Returns (generate_from inputs spent gs)
    unfolding generate_from
    generate_from-Returns spent [] = (_, refl)
    generate_from-Returns spent (g ∷ gs) =
        let (v, judged) = judge-Returns spent g g.band_status in
        let (rest, generated) = generate_from-Returns (spent + cost_of inputs v) gs in
        rw (judged, generated, generate_from) (report inputs v rest, refl)

  -- Where every ticker with levels has a current price, the function returns: no division by zero is
  -- raised, by the distance of an anchor or by its price, whatever the gaps and the cash are and
  -- whatever the prices of the levels, zero among them.
  pub generate_suggestions-Returns :
      ((ticker : ℕ) (nearby : NearbyLevels)
        → inputs.nearby_levels ticker ≡ some nearby
        → nearby.current_price ≢ 0)
      → (gap_rows : List GapRow) → Returns (generate_suggestions inputs gap_rows)
  unfolding generate_suggestions
  generate_suggestions-Returns priced gap_rows = generate_from-Returns priced 0 gap_rows
