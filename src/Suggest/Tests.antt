-- ===== src/Suggest/Tests.antt =====
-- services/suggest.py on two gaps of which one is skipped, and on the small account's suggestions.
use me_invest_paper.Base.{
  ℕ, ◌+◌, ◌*◌, ◌≤◌, ◌≡◌, refl, ap, ◌∙◌, ◌≢◌, ◌⊎◌, ◌==◌, true, false, Option, none, some, [], ◌∷◌,
  filter, All, arith, if◌then◌else◌,
}
use me_invest_paper.Base.Int.{pos, neg_part, pos_part}
use me_invest_paper.Calendar.{day}
use me_invest_paper.Store.{Side, Kind, Db, Mode}
use me_invest_paper.Unaccept.{get_suggestion}
use me_invest_paper.Suggest.Anchor.{
  NearbyLevels, no_nearby_levels, Anchor, anchored, select_buy_anchor, select_anchor, choose_anchor,
}
use me_invest_paper.Suggest.Generate.{
  BandStatus, GapRow, SkippedRow, Inputs, round_cents, buy_shares, generate_from,
  generate_suggestions,
}
use me_invest_paper.Suggest.Persist.{SuggestionRow, persist_suggestions}
use me_invest_paper.Suggest.Budget.{purchase_shares, purchase_cost, generate_suggestions-Fits}
use me_invest_paper.Suggest.Coverage.{is_reported, Covers, generate_suggestions-Covers}
use me_invest_paper.Suggest.Anchors.{IsGoodAnchor, select_buy_anchor-IsGoodAnchor}
use me_invest_paper.Suggest.Returning.{Returns, generate_suggestions-Returns}
use me_invest_paper.Suggest.Keeping.{IsNumbered, persist_suggestions-keeps}
use me_invest_paper.Suggest.Slots.{slot_count, persist_suggestions-slot_count}
use me_invest_paper.Suggest.Topup.{
  TopupInputs, size_topup, topup_of, topups_from, generate_topup_suggestions,
}
use me_invest_paper.Suggest.Headroom.{IsTopupOf, generate_topup_suggestions-Within}
use me_invest_paper.AutoTrade.Samples.{now, first, db_in}

abbrev levels : ℕ → Option NearbyLevels
levels ticker =
    if ticker == 7
    then some (record {
      current_price = 1000000;
      supports = record { price = 990060; method = 1 } ∷ [];
      resistances = [];
      stats = λ method price. none;
    })
    else none

abbrev inputs : Inputs
inputs = record {
  nearby_levels = levels;
  scored_levels = λ ticker. [];
  cash_usd = pos 3000000;
  sizing_rule = record { fraction = 50; max_dollars = none };
  cash_floor = 1000000;
  max_distance = 1500;
  expires_at = now + 5 * day;
  reason_text = λ g a. [];
}

abbrev gap : ℕ → GapRow
gap ticker = record {
  ticker = ticker;
  current_pct = pos 500;
  gap_pct = pos 500;
  gap_usd = pos 5000000;
  band_status = BandStatus.under;
}

abbrev suggested : SuggestionRow
suggested = record {
  ticker = 7;
  side = Side.buy;
  qty = 2;
  limit_price = 990100;
  reason = [];
  expires_at = now + 5 * day;
  confidence_at_creation = none;
  anchor_method = some 1;
  base_qty = none;
  size_factor = 10000;
  context_note = [];
  kind = Kind.regular;
  is_highlighted = false;
}

abbrev left_out : SkippedRow
left_out = record { ticker = 8; gap_pct = pos 500; side = Side.buy; reason = no_nearby_levels }

generated : generate_suggestions inputs (gap 7 ∷ gap 8 ∷ []) ≡ some (suggested ∷ [], left_out ∷ [])
unfolding generate_suggestions generate_from buy_shares select_buy_anchor select_anchor
    choose_anchor round_cents
generated = refl

generate_suggestions-Fits_example :
    All (λ (r : SuggestionRow). 1 ≤ r.qty) (suggested ∷ [])
    × (((purchase_shares (suggested ∷ []) ≡ 0) × (purchase_cost (suggested ∷ []) ≡ 0))
        ⊎ (neg_part inputs.cash_usd + inputs.cash_floor + purchase_cost (suggested ∷ [])
            ≤ pos_part inputs.cash_usd + 50 * purchase_shares (suggested ∷ [])))
generate_suggestions-Fits_example =
    generate_suggestions-Fits inputs (gap 7 ∷ gap 8 ∷ []) (suggested ∷ []) (left_out ∷ []) generated

generate_suggestions-Covers_example :
    Covers (filter (is_reported inputs) (gap 7 ∷ gap 8 ∷ [])) (suggested ∷ []) (left_out ∷ [])
generate_suggestions-Covers_example =
    generate_suggestions-Covers inputs (gap 7 ∷ gap 8 ∷ []) (suggested ∷ []) (left_out ∷ [])
      generated

abbrev db : Db
db = db_in Mode.live

db-IsNumbered : IsNumbered db
db-IsNumbered = (omega arith, omega arith)

-- The row is for the ticker of the first suggestion, which was accepted.
persist_suggestions-keeps_example :
    get_suggestion 1 (persist_suggestions none 11 1 now (suggested ∷ []) db).1 ≡ some first
persist_suggestions-keeps_example =
    persist_suggestions-keeps none 11 1 now (suggested ∷ []) 1 first db db-IsNumbered refl refl

db_single : (ticker : ℕ) (side : Side) → slot_count 11 1 ticker side db ≤ 1
db_single ticker Side.buy = ground arith
db_single ticker Side.sell = ground arith

persist_suggestions-slot_count_example :
    let after = (persist_suggestions none 11 1 now (suggested ∷ []) db).1 in
    ((ticker : ℕ) (side : Side)
      → (slot_count 11 1 ticker side db ≤ slot_count 11 1 ticker side after)
        × (slot_count 11 1 ticker side after ≤ 1))
    × All (λ (r : SuggestionRow). slot_count 11 1 r.ticker r.side after ≡ 1) (suggested ∷ [])
persist_suggestions-slot_count_example =
    persist_suggestions-slot_count none 11 1 now (suggested ∷ []) db db_single

abbrev nearby : NearbyLevels
nearby = record {
  current_price = 1000000;
  supports = record { price = 990060; method = 1 } ∷ record { price = 980000; method = 2 } ∷ [];
  resistances = [];
  stats = λ method price. if method == 1 then some true else none;
}

-- The nearest support was broken, so the next one is the anchor.
abbrev next_support : Anchor
next_support = record { price = 980000; method = 2; confidence = none; rationale = [] }

second_support : select_buy_anchor nearby [] 1500 ≡ some (anchored next_support)
unfolding select_buy_anchor select_anchor
second_support = refl

select_buy_anchor-IsGoodAnchor_example : IsGoodAnchor nearby [] 1500 next_support
select_buy_anchor-IsGoodAnchor_example =
    select_buy_anchor-IsGoodAnchor nearby [] 1500 next_support (ground arith) second_support

abbrev price_of : Option NearbyLevels → ℕ
price_of none = 1
price_of (some n) = n.current_price

levels-priced : (ticker : ℕ) → price_of (inputs.nearby_levels ticker) ≢ 0
levels-priced ticker = ground arith

inputs-priced :
    (ticker : ℕ) (levels : NearbyLevels)
    → inputs.nearby_levels ticker ≡ some levels
    → levels.current_price ≢ 0
inputs-priced ticker levels e zero_price = levels-priced ticker (ap price_of e ∙ zero_price)

generate_suggestions-Returns_example : Returns (generate_suggestions inputs (gap 7 ∷ gap 8 ∷ []))
generate_suggestions-Returns_example =
    generate_suggestions-Returns inputs inputs-priced (gap 7 ∷ gap 8 ∷ [])

-- An equity of 20,000 dollars, a band up to 12.5 percent, and 7 has a regular purchase.
abbrev topup_inputs : TopupInputs
topup_inputs = record {
  nearby_levels = λ ticker. levels 7;
  scored_levels = λ ticker. [];
  equity_usd = pos 200000000;
  band_high_by_ticker = λ ticker. some 1250;
  regular_buy_tickers = λ ticker. ticker == 7;
  sentiment_fraction = 80;
  cash_available = pos 3000000;
  cash_floor = 1000000;
  max_distance = 1500;
  expires_at = now + 5 * day;
  topup_text = λ g a. [];
  topup_note = λ conf. [];
}

-- Two of the five shares of the gap, after the fraction and the cash above the floor.
abbrev topped_up : SuggestionRow
topped_up = record suggested {
  ticker = 8;
  base_qty = some 5;
  size_factor = 4000;
  kind = Kind.topup;
}

topped_up_one : generate_topup_suggestions topup_inputs (gap 7 ∷ gap 8 ∷ []) ≡ some (topped_up ∷ [])
unfolding generate_topup_suggestions topups_from topup_of size_topup select_buy_anchor select_anchor
    choose_anchor round_cents
topped_up_one = refl

generate_topup_suggestions-Within_example :
    All (IsTopupOf topup_inputs (gap 7 ∷ gap 8 ∷ [])) (topped_up ∷ [])
    × (((purchase_shares (topped_up ∷ []) ≡ 0) × (purchase_cost (topped_up ∷ []) ≡ 0))
        ⊎ (neg_part topup_inputs.cash_available
              + topup_inputs.cash_floor
              + purchase_cost (topped_up ∷ [])
            ≤ pos_part topup_inputs.cash_available + 50 * purchase_shares (topped_up ∷ [])))
generate_topup_suggestions-Within_example =
    generate_topup_suggestions-Within topup_inputs (gap 7 ∷ gap 8 ∷ []) (topped_up ∷ [])
      topped_up_one
