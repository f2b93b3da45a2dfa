-- ===== src/Suggest/Headroom.antt =====
-- What `generate_topup_suggestions` of services/suggest.py promises of the top-ups: the budget of the
-- cash, and the band that the holding stays in.
use me_invest_paper.Base.{
  ℕ, ◌+◌, ◌*◌, ◌≤◌, ◌≡◌, refl, ◌⊎◌, inl, inr, true, false, some, List, [], ◌∷◌, leb, arith, All,
  All-map, Has, Bool-cases, Option-cases,
}
use me_invest_paper.Base.Int.{pos_part, neg_part}
use me_invest_paper.Store.{Kind}
use me_invest_paper.Suggest.Persist.{SuggestionRow}
use me_invest_paper.Suggest.Generate.{GapRow, is_positive}
use me_invest_paper.Suggest.Budget.{purchase_shares, purchase_cost, OnSome, on_some}
use me_invest_paper.Suggest.Topup.{
  TopupInputs, Topup, pass, top_up, topup_of, cost_of_topup, collect, topups_from,
  generate_topup_suggestions,
}
use me_invest_paper.Suggest.TopupFit.{IsFit, IsMeant, topup_of-IsMeant}

module _ (inputs : TopupInputs) where
  -- The row belongs to one of the gaps: its holding stays in the band at the limit price, up to half a
  -- cent for each share.
  abbrev pub IsTopupOf : List GapRow → SuggestionRow → Type 0
  IsTopupOf gap_rows r =
      (1 ≤ r.qty)
      × (r.kind ≡ Kind.topup)
      × (inputs.regular_buy_tickers r.ticker ≡ false)
      × ((g : GapRow) × Has g gap_rows
          × (r.ticker ≡ g.ticker)
          × (is_positive g.gap_pct ≡ true)
          × ((band_high : ℕ) × (inputs.band_high_by_ticker g.ticker ≡ some band_high)
              × (pos_part g.current_pct * pos_part inputs.equity_usd
                    + 10000 * (r.qty * r.limit_price)
                  ≤ (band_high + neg_part g.current_pct) * pos_part inputs.equity_usd
                    + 500000 * r.qty)))

  abbrev Within : ℕ → List GapRow → List SuggestionRow → Type 0
  Within spent gap_rows rows =
      All (IsTopupOf gap_rows) rows
      × (((purchase_shares rows ≡ 0) × (purchase_cost rows ≡ 0))
          ⊎ (neg_part inputs.cash_available + spent + inputs.cash_floor + purchase_cost rows
              ≤ pos_part inputs.cash_available + 50 * purchase_shares rows))

  IsTopupOf-more :
      (g : GapRow) (gs : List GapRow) (r : SuggestionRow) → IsTopupOf gs r → IsTopupOf (g ∷ gs) r
  IsTopupOf-more g gs r (whole, kind, other, (g', m, ticker, up, rest)) =
      (whole, kind, other, (g', inr m, ticker, up, rest))

  collect-Within :
      (spent : ℕ) (g : GapRow) (gs : List GapRow) (t : Topup) (rest : List SuggestionRow)
      → IsMeant inputs spent g t
      → Within (spent + cost_of_topup inputs t) gs rest
      → Within spent (g ∷ gs) (collect inputs t rest)
  collect-Within spent g gs pass rest meant (all, fits) =
      (All-map (IsTopupOf gs) (IsTopupOf (g ∷ gs)) (IsTopupOf-more g gs) rest all, ground arith)
  collect-Within spent g gs (top_up r cost) rest (up, other, (band_high, band, fit)) (all, fits) = (
    (topup_row_lem, All-map (IsTopupOf gs) (IsTopupOf (g ∷ gs)) (IsTopupOf-more g gs) rest all),
    spending fit fits,
  )
    where
      topup_row_lem : IsTopupOf (g ∷ gs) r
      topup_row_lem =
          let (whole, ticker, kind, side, limit, cash, stays) : IsFit inputs spent g band_high
              (top_up r cost) =
            fit in
          (whole, kind, rw ticker other, (g, inl refl, ticker, up, (band_high, band, omega arith)))

      spending :
          IsFit inputs spent g band_high (top_up r cost)
          → ((purchase_shares rest ≡ 0) × (purchase_cost rest ≡ 0))
            ⊎ (neg_part inputs.cash_available
                  + (spent + cost)
                  + inputs.cash_floor
                  + purchase_cost rest
                ≤ pos_part inputs.cash_available + 50 * purchase_shares rest)
          → ((purchase_shares (r ∷ rest) ≡ 0) × (purchase_cost (r ∷ rest) ≡ 0))
            ⊎ (neg_part inputs.cash_available + spent + inputs.cash_floor + purchase_cost (r ∷ rest)
                ≤ pos_part inputs.cash_available + 50 * purchase_shares (r ∷ rest))
      spending (whole, ticker, kind, side, limit, cash, stays) h = ground arith

  topups_from-Within :
      (spent : ℕ) (gs : List GapRow) → OnSome (Within spent gs) (topups_from inputs spent gs)
  unfolding topups_from
  topups_from-Within spent [] = (tt, inl (refl, refl))
  topups_from-Within spent (g ∷ gs) = elim (Option-cases (topup_of inputs spent g)) [
    | inl raised ↦ rw (raised, topups_from) tt
    | inr (t, meant) ↦
        let next = spent + cost_of_topup inputs t in
        elim (Option-cases (topups_from inputs next gs)) [
          | inl raised ↦ rw (meant, raised, topups_from) tt
          | inr (rest, generated) ↦
              rw (meant, generated, topups_from)
                (collect-Within spent g gs t rest
                  (on_some (IsMeant inputs spent g) meant (topup_of-IsMeant inputs spent g))
                  (on_some (Within next gs) generated (topups_from-Within next gs)))
        ]
  ]

  generate_topups-Within :
      (gap_rows : List GapRow)
      → OnSome (Within 0 gap_rows) (generate_topup_suggestions inputs gap_rows)
  unfolding generate_topup_suggestions
  generate_topups-Within gap_rows = elim (Bool-cases (leb (pos_part inputs.equity_usd) 0)) [
    | inl poor ↦ rw (poor, generate_topup_suggestions) (tt, inl (refl, refl))
    | inr funded ↦ rw (funded, generate_topup_suggestions) (topups_from-Within 0 gap_rows)
  ]

  -- When the function returns, each top-up is of at least one share, for a ticker without a regular
  -- purchase and with a gap below its target, and the holding with the purchase at its limit price
  -- stays in the band of the ticker. Either nothing is bought, or all top-ups together, with the cash
  -- floor on top, cost at most the cash. Both bounds are up to half a cent for each share, since the
  -- limit price is rounded to the nearest cent.
  pub generate_topup_suggestions-Within :
      (gap_rows : List GapRow) (rows : List SuggestionRow)
      → generate_topup_suggestions inputs gap_rows ≡ some rows
      → All (IsTopupOf gap_rows) rows
        × (((purchase_shares rows ≡ 0) × (purchase_cost rows ≡ 0))
            ⊎ (neg_part inputs.cash_available + inputs.cash_floor + purchase_cost rows
                ≤ pos_part inputs.cash_available + 50 * purchase_shares rows))
  generate_topup_suggestions-Within gap_rows rows e =
      let (all, fits) : Within 0 gap_rows rows =
        on_some (Within 0 gap_rows) e (generate_topups-Within gap_rows) in
      (all, ground arith)
