-- ===== src/Suggest/Topup.antt =====
-- `topup_size_fraction` and `generate_topup_suggestions` of services/suggest.py. A percentage is a
-- number of hundredths of a percent, a fraction or a confidence a number of hundredths. The words of
-- the reasons and of the notes are parameters.
use me_invest_paper.Base.{
  ℕ, zero, suc, ◌+◌, ◌-◌, ◌*◌, ◌/◌, min, max, Bool, false, Option, none, some, List, [], ◌∷◌, leb,
  ltb, if◌then◌else◌,
}
use me_invest_paper.Base.Int.{ℤ, pos_part, neg_part}
use me_invest_paper.Store.{Text, Side, Kind}
use me_invest_paper.Suggest.Anchor.{
  NearbyLevels, ScoredLevel, Anchor, Choice, anchored, skipped, select_buy_anchor,
}
use me_invest_paper.Suggest.Generate.{GapRow, round_cents, is_positive}
use me_invest_paper.Suggest.Persist.{SuggestionRow}

-- The volatility index in hundredths, where there is no index of fear and greed.
abbrev pub fraction_of_vix : Option ℕ → ℕ
fraction_of_vix none = 50
fraction_of_vix (some vix) = if leb 3000 vix then 100 else if leb 2000 vix then 75 else 50

unfoldable pub topup_size_fraction : Option ℕ → Option ℕ → ℕ
topup_size_fraction vix none = fraction_of_vix vix
topup_size_fraction vix (some fear_greed) =
    if leb fear_greed 25
    then 100
    else if leb fear_greed 45
    then 75
    else if leb fear_greed 55
    then 50
    else 25

-- The arguments of the function, the dicts as functions of the ticker and the set of tickers as a test.
pub record TopupInputs : Type 0 where
  pub nearby_levels : ℕ → Option NearbyLevels
  pub scored_levels : ℕ → List ScoredLevel
  pub equity_usd : ℤ
  pub band_high_by_ticker : ℕ → Option ℕ
  pub regular_buy_tickers : ℕ → Bool
  pub sentiment_fraction : ℕ
  pub cash_available : ℤ
  pub cash_floor : ℕ
  pub max_distance : ℕ
  pub expires_at : ℕ
  pub topup_text : GapRow → Anchor → Text
  pub topup_note : ℕ → Text

-- `anchor.confidence if anchor.confidence is not None else 0.5`
abbrev pub confidence_or_neutral : Option ℕ → ℕ
confidence_or_neutral none = 50
confidence_or_neutral (some conf) = conf

-- What becomes of one gap: nothing, or a top-up with its cost at the price of the anchor.
pub data Topup : Type 0 where
  pass : Topup
  top_up : SuggestionRow → ℕ → Topup

module _ (inputs : TopupInputs) where
  -- The whole shares that keep the holding within the band. A negative headroom has none.
  abbrev pub band_cap_shares : GapRow → ℕ → ℕ → ℕ
  band_cap_shares g band_high price =
      (band_high + neg_part g.current_pct - pos_part g.current_pct)
      * pos_part inputs.equity_usd
      / (10000 * price)

  abbrev pub base_shares : GapRow → ℕ → ℕ
  base_shares g price = max 1 (pos_part g.gap_usd / price)

  -- `sentiment_fraction * conf`, in ten-thousandths.
  abbrev pub effective_fraction : Anchor → ℕ
  effective_fraction a = inputs.sentiment_fraction * confidence_or_neutral a.confidence

  -- Cash below what has been spent and the floor affords nothing.
  abbrev pub affordable : ℕ → ℕ → ℕ
  affordable spent price =
      (pos_part inputs.cash_available
        - (neg_part inputs.cash_available + spent + inputs.cash_floor))
      / price

  abbrev pub topup_qty : ℕ → GapRow → ℕ → Anchor → ℕ → ℕ
  topup_qty spent g band_high a price =
      min
        (min (max 1 (base_shares g price * effective_fraction a / 10000))
          (band_cap_shares g band_high price))
        (affordable spent price)

  abbrev pub topup_row : GapRow → Anchor → ℕ → SuggestionRow
  topup_row g a qty = record {
    ticker = g.ticker;
    side = Side.buy;
    qty = qty;
    limit_price = round_cents a.price;
    reason = inputs.topup_text g a;
    expires_at = inputs.expires_at;
    confidence_at_creation = a.confidence;
    anchor_method = some a.method;
    base_qty = some (base_shares g a.price);
    size_factor = round_cents (effective_fraction a);
    context_note = inputs.topup_note (confidence_or_neutral a.confidence);
    kind = Kind.topup;
    is_highlighted = false;
  }

  -- `none` is a raised `ZeroDivisionError`.
  unfoldable pub size_topup : ℕ → GapRow → ℕ → Anchor → ℕ → Option Topup
  size_topup spent g band_high a zero = none
  size_topup spent g band_high a (suc p) =
      if ltb (band_cap_shares g band_high (suc p)) 1
      then some pass
      else let qty = topup_qty spent g band_high a (suc p) in
        if ltb qty 1 then some pass else some (top_up (topup_row g a qty) (qty * suc p))

  abbrev pub topup_at : ℕ → GapRow → ℕ → Option Choice → Option Topup
  topup_at spent g band_high none = none
  topup_at spent g band_high (some (skipped reason)) = some pass
  topup_at spent g band_high (some (anchored a)) = size_topup spent g band_high a a.price

  abbrev pub topup_near : ℕ → GapRow → ℕ → Option NearbyLevels → Option Topup
  topup_near spent g band_high none = some pass
  topup_near spent g band_high (some nearby) =
      topup_at spent g band_high
        (select_buy_anchor nearby (inputs.scored_levels g.ticker) inputs.max_distance)

  abbrev pub topup_in_band : ℕ → GapRow → Option ℕ → Option Topup
  topup_in_band spent g none = some pass
  topup_in_band spent g (some band_high) =
      topup_near spent g band_high (inputs.nearby_levels g.ticker)

  -- The body of the loop.
  unfoldable pub topup_of : ℕ → GapRow → Option Topup
  topup_of spent g =
      if is_positive g.gap_pct
      then if inputs.regular_buy_tickers g.ticker
        then some pass
        else topup_in_band spent g (inputs.band_high_by_ticker g.ticker)
      else some pass

  abbrev pub cost_of_topup : Topup → ℕ
  cost_of_topup pass = 0
  cost_of_topup (top_up r cost) = cost

  abbrev pub collect : Topup → List SuggestionRow → List SuggestionRow
  collect pass out = out
  collect (top_up r cost) out = r ∷ out

  -- The loop, with what has been spent so far.
  unfoldable pub topups_from : ℕ → List GapRow → Option (List SuggestionRow)
  topups_from spent [] = some []
  topups_from spent (g ∷ gs) = elim (topup_of spent g) [
    | none ↦ none
    | some t ↦ elim (topups_from (spent + cost_of_topup t) gs) [
      | none ↦ none
      | some rest ↦ some (collect t rest)
    ]
  ]

  unfoldable pub generate_topup_suggestions : List GapRow → Option (List SuggestionRow)
  generate_topup_suggestions gap_rows =
      if leb (pos_part inputs.equity_usd) 0 then some [] else topups_from 0 gap_rows
