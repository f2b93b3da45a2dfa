-- ===== src/Suggest/Generate.antt =====
-- `generate_suggestions` of services/suggest.py. Money is in ten-thousandths of a dollar, a fraction a
-- number of hundredths, so that the dollars to deploy are in hundredths of those. The words of the
-- reasons are a parameter.
use me_invest_paper.Base.{
  ℕ, zero, suc, ◌+◌, ◌*◌, ◌/◌, ◌%◌, Bool, true, false, ◌&&◌, ◌||◌, Option, none, some, List, [],
  ◌∷◌, ◌==◌, leb, ltb, if◌then◌else◌,
}
use me_invest_paper.Base.Int.{ℤ, pos, negsuc, pos_part, neg_part}
use me_invest_paper.Store.{Text, Side, Kind}
use me_invest_paper.Suggest.Anchor.{
  NearbyLevels, ScoredLevel, SkipReason, no_nearby_levels, too_small, Anchor, Choice, anchored,
  skipped, select_buy_anchor, select_sell_anchor,
}
use me_invest_paper.Suggest.Persist.{SuggestionRow}

pub data BandStatus : Type 0 where
  under in_band over : BandStatus

-- `GapRow` of services/gap.py, with the columns that are read here.
pub record GapRow : Type 0 where
  pub ticker : ℕ
  pub current_pct : ℤ
  pub gap_pct : ℤ
  pub gap_usd : ℤ
  pub band_status : BandStatus

pub record SkippedRow : Type 0 where
  pub ticker : ℕ
  pub gap_pct : ℤ
  pub side : Side
  pub reason : SkipReason

pub record SizingRule : Type 0 where
  pub fraction : ℕ
  pub max_dollars : Option ℕ

-- The arguments of the function, the dicts as functions of the ticker.
pub record Inputs : Type 0 where
  pub nearby_levels : ℕ → Option NearbyLevels
  pub scored_levels : ℕ → List ScoredLevel
  pub cash_usd : ℤ
  pub sizing_rule : SizingRule
  pub cash_floor : ℕ
  pub max_distance : ℕ
  pub expires_at : ℕ
  pub reason_text : GapRow → Anchor → Text

-- `min(dollars, max_dollars)`, where there is a maximum.
abbrev pub capped : Option ℕ → ℕ → ℕ
capped none dollars = dollars
capped (some m) dollars = if ltb (m * 100) dollars then m * 100 else dollars

-- `int(a / b)`, where `none` is a raised `ZeroDivisionError`.
abbrev pub int_div : ℕ → ℕ → Option ℕ
int_div a zero = none
int_div a (suc b) = some (a / suc b)

-- `_round_qty`
abbrev pub round_qty : ℕ → ℕ → Option ℕ
round_qty dollars price = if leb price 0 then some 0 else int_div dollars (price * 100)

-- `round(price, 2)`: to the nearest cent, and halves to an even number of cents.
unfoldable pub round_cents : ℕ → ℕ
round_cents p =
    let cents = p / 100 in
    let rest = p % 100 in
    if ltb rest 50 || (rest == 50 && cents % 2 == 0) then cents * 100 else (cents + 1) * 100

-- What becomes of one gap: it is not reported, it is skipped, or it is suggested, at a cost.
pub data Verdict : Type 0 where
  silent : Verdict
  skip : SkippedRow → Verdict
  suggest : SuggestionRow → ℕ → Verdict

abbrev pub is_positive : ℤ → Bool
is_positive (pos zero) = false
is_positive (pos (suc n)) = true
is_positive (negsuc n) = false

abbrev pub side_of : ℤ → Side
side_of gap = if is_positive gap then Side.buy else Side.sell

module _ (inputs : Inputs) where
  abbrev pub skip_row : GapRow → Side → SkipReason → Verdict
  skip_row g side reason =
      skip (record { ticker = g.ticker; gap_pct = g.gap_pct; side = side; reason = reason })

  abbrev pub row : GapRow → Side → ℕ → Anchor → SuggestionRow
  row g side qty a = record {
    ticker = g.ticker;
    side = side;
    qty = qty;
    limit_price = round_cents a.price;
    reason = inputs.reason_text g a;
    expires_at = inputs.expires_at;
    confidence_at_creation = a.confidence;
    anchor_method = some a.method;
    base_qty = none;
    size_factor = 10000;
    context_note = [];
    kind = Kind.regular;
    is_highlighted = false;
  }

  -- The shares for an amount that is to be closed. A negative amount gives none.
  abbrev pub shares_for : ℕ → ℕ → Option ℕ
  shares_for usd price =
      round_qty (capped inputs.sizing_rule.max_dollars (usd * inputs.sizing_rule.fraction)) price

  -- `cost > cash_remaining - cash_floor`, with what has been spent so far.
  abbrev pub breaches : ℕ → ℕ → Bool
  breaches spent cost =
      ltb (pos_part inputs.cash_usd) (neg_part inputs.cash_usd + spent + inputs.cash_floor + cost)

  abbrev pub with_shares : (ℕ → Verdict) → Option ℕ → Option Verdict
  with_shares f none = none
  with_shares f (some qty) = some (f qty)

  -- What becomes of the shares that are to be purchased.
  unfoldable pub buy_shares : ℕ → GapRow → Anchor → ℕ → Verdict
  buy_shares spent g a qty =
      let cost = qty * a.price in
      if ltb qty 1
      then skip_row g Side.buy too_small
      else if breaches spent cost
      then skip_row g Side.buy SkipReason.cash_floor
      else suggest (row g Side.buy qty a) cost

  abbrev pub size_buy : ℕ → GapRow → Choice → Option Verdict
  size_buy spent g (skipped reason) = some (skip_row g Side.buy reason)
  size_buy spent g (anchored a) =
      with_shares (buy_shares spent g a) (shares_for (pos_part g.gap_usd) a.price)

  -- A trim costs nothing.
  unfoldable pub sell_shares : GapRow → Anchor → ℕ → Verdict
  sell_shares g a qty =
      if ltb qty 1 then skip_row g Side.sell too_small else suggest (row g Side.sell qty a) 0

  abbrev pub size_sell : GapRow → Choice → Option Verdict
  size_sell g (skipped reason) = some (skip_row g Side.sell reason)
  size_sell g (anchored a) =
      with_shares (sell_shares g a) (shares_for (pos_part g.gap_usd + neg_part g.gap_usd) a.price)

  abbrev pub with_choice : (Choice → Option Verdict) → Option Choice → Option Verdict
  with_choice f none = none
  with_choice f (some choice) = f choice

  abbrev pub trim : GapRow → NearbyLevels → BandStatus → Option Verdict
  trim g nearby BandStatus.over =
      with_choice (size_sell g)
        (select_sell_anchor nearby (inputs.scored_levels g.ticker) inputs.max_distance)
  trim g nearby _ = some silent

  abbrev pub with_nearby : ℕ → GapRow → Option NearbyLevels → Option Verdict
  with_nearby spent g none = some (skip_row g (side_of g.gap_pct) no_nearby_levels)
  with_nearby spent g (some nearby) =
      if is_positive g.gap_pct
      then with_choice (size_buy spent g)
          (select_buy_anchor nearby (inputs.scored_levels g.ticker) inputs.max_distance)
      else trim g nearby g.band_status

  -- The body of the loop. `none` is a raised `ZeroDivisionError`.
  abbrev pub judge : ℕ → GapRow → BandStatus → Option Verdict
  judge spent g BandStatus.in_band = some silent
  judge spent g _ = with_nearby spent g (inputs.nearby_levels g.ticker)

  -- What a verdict adds to the two lists.
  abbrev pub report :
      Verdict → List SuggestionRow × List SkippedRow → List SuggestionRow × List SkippedRow
  report silent rest = rest
  report (skip s) (out, skips) = (out, s ∷ skips)
  report (suggest r cost) (out, skips) = (r ∷ out, skips)

  abbrev pub cost_of : Verdict → ℕ
  cost_of (suggest r cost) = cost
  cost_of _ = 0

  -- The loop, with what has been spent so far.
  unfoldable pub generate_from : ℕ → List GapRow → Option (List SuggestionRow × List SkippedRow)
  generate_from spent [] = some ([], [])
  generate_from spent (g ∷ gs) = elim (judge spent g g.band_status) [
    | none ↦ none
    | some v ↦ elim (generate_from (spent + cost_of v) gs) [
      | none ↦ none
      | some rest ↦ some (report v rest)
    ]
  ]

  unfoldable pub generate_suggestions : List GapRow → Option (List SuggestionRow × List SkippedRow)
  generate_suggestions gap_rows = generate_from 0 gap_rows
