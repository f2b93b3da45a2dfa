-- ===== src/Suggest/Anchor.antt =====
-- The anchor of a limit price in services/suggest.py. Prices are whole ten-thousandths of a dollar, so
-- that `round(price, 4)` is the price; a distance is a number of hundredths of a percent.
use me_invest_paper.Base.{
  ℕ, zero, suc, ◌*◌, Bool, true, false, ◌&&◌, not, Option, none, some, List, [], ◌∷◌, ◌==◌, ltb,
  leb, filter, if◌then◌else◌,
}
use me_invest_paper.Store.{Text}
use me_invest_paper.Reconciliation.Matching.{distance}

-- services/levels.py and services/llm_levels.py: what the anchors are chosen from.
pub data LevelType : Type 0 where
  support resistance : LevelType

pub record SrLevel : Type 0 where
  pub price : ℕ
  pub method : ℕ

pub record ScoredLevel : Type 0 where
  pub method : ℕ
  pub price : ℕ
  pub type : LevelType
  pub confidence : ℕ
  pub rationale : Text

-- `stats` is the dict of the candle histories, by method and price; of a history only the flag of a
-- broken level is read here.
pub record NearbyLevels : Type 0 where
  pub current_price : ℕ
  pub supports : List SrLevel
  pub resistances : List SrLevel
  pub stats : ℕ → ℕ → Option Bool

pub data SkipReason : Type 0 where
  no_nearby_levels no_support no_valid_support no_resistance : SkipReason
  too_far too_small cash_floor : SkipReason

-- `abs(price / current - 1) * 100 <= max_distance_pct`, where a current price of zero raises.
abbrev pub is_in_band : ℕ → ℕ → ℕ → Bool
is_in_band max_distance current price =
    leb (distance price current * 10000) (max_distance * current)

-- `max(scored, key=confidence)`: the first of the greatest, onto the best so far.
abbrev pub most_confident : ScoredLevel → List ScoredLevel → ScoredLevel
most_confident best [] = best
most_confident best (lv ∷ lvs) =
    most_confident (if ltb best.confidence lv.confidence then lv else best) lvs

-- `min(in_band, key=distance)`: the first of the least.
abbrev pub nearest : ℕ → ScoredLevel → List ScoredLevel → ScoredLevel
nearest current best [] = best
nearest current best (lv ∷ lvs) =
    nearest current
      (if ltb (distance lv.price current) (distance best.price current) then lv else best) lvs

-- The confidence that is asked for, 0.4.
abbrev pub min_confidence : ℕ
min_confidence = 40

unfoldable pub choose_anchor : ℕ → List ScoredLevel → List ScoredLevel → Option ScoredLevel
choose_anchor current in_band (lv ∷ lvs) = some (most_confident lv lvs)
choose_anchor current (lv ∷ lvs) [] = some (nearest current lv lvs)
choose_anchor current [] [] = none

-- `none` is a raised `ZeroDivisionError`: a current price of zero with a level to divide by it.
unfoldable pub select_anchor : ℕ → List ScoredLevel → ℕ → Option (Option ScoredLevel)
select_anchor max_distance [] current = some none
select_anchor max_distance (lv ∷ lvs) zero = none
select_anchor max_distance (lv ∷ lvs) (suc c) =
    let in_band = filter (λ l. is_in_band max_distance (suc c) l.price) (lv ∷ lvs) in
    some (choose_anchor (suc c) in_band (filter (λ l. leb min_confidence l.confidence) in_band))

abbrev pub is_true : Option Bool → Bool
is_true none = false
is_true (some b) = b

-- `_is_broken_level`
abbrev pub is_broken_level : NearbyLevels → ℕ → ℕ → Bool
is_broken_level nearby method price = is_true (nearby.stats method price)

-- `_BuyAnchor`, which also serves for the anchor of a sale.
pub record Anchor : Type 0 where
  pub price : ℕ
  pub method : ℕ
  pub confidence : Option ℕ
  pub rationale : Text

abbrev pub scored_anchor : ScoredLevel → Anchor
scored_anchor lv = record {
  price = lv.price;
  method = lv.method;
  confidence = some lv.confidence;
  rationale = lv.rationale;
}

abbrev pub plain_anchor : SrLevel → Anchor
plain_anchor lv = record { price = lv.price; method = lv.method; confidence = none; rationale = [] }

abbrev pub is_support : LevelType → Bool
is_support LevelType.support = true
is_support LevelType.resistance = false

-- What choosing an anchor ends in.
pub data Choice : Type 0 where
  anchored : Anchor → Choice
  skipped : SkipReason → Choice

-- The guard on the distance, which a current price of zero never passes unless the limit is 999 percent.
abbrev pub within_distance : ℕ → ℕ → Anchor → Choice
within_distance max_distance current a =
    if (if current == 0 then leb 99900 max_distance else is_in_band max_distance current a.price)
    then anchored a
    else skipped too_far

-- The nearest support that is not broken.
abbrev pub fallback_support : NearbyLevels → List SrLevel → List SrLevel → ℕ → Choice
fallback_support nearby [] valid max_distance = skipped no_support
fallback_support nearby (lv ∷ lvs) [] max_distance = skipped no_valid_support
fallback_support nearby (lv ∷ lvs) (v ∷ vs) max_distance =
    within_distance max_distance nearby.current_price (plain_anchor v)

-- The scored supports at or below the current price that are not broken.
abbrev pub buy_levels : NearbyLevels → List ScoredLevel → List ScoredLevel
buy_levels nearby scored =
    filter
      (λ lv.
        is_support lv.type
        && leb lv.price nearby.current_price
        && not (is_broken_level nearby lv.method lv.price))
      scored

-- The scored level, else the fallback.
abbrev pub scored_or_fallback : NearbyLevels → ℕ → Option (Option ScoredLevel) → Option Choice
scored_or_fallback nearby max_distance none = none
scored_or_fallback nearby max_distance (some (some lv)) =
    some (within_distance max_distance nearby.current_price (scored_anchor lv))
scored_or_fallback nearby max_distance (some none) = some (
    fallback_support nearby nearby.supports
      (filter (λ lv. not (is_broken_level nearby lv.method lv.price)) nearby.supports) max_distance)

unfoldable pub select_buy_anchor : NearbyLevels → List ScoredLevel → ℕ → Option Choice
select_buy_anchor nearby scored max_distance =
    scored_or_fallback nearby max_distance
      (select_anchor max_distance (buy_levels nearby scored) nearby.current_price)

abbrev pub fallback_resistance : NearbyLevels → List SrLevel → ℕ → Choice
fallback_resistance nearby [] max_distance = skipped no_resistance
fallback_resistance nearby (lv ∷ lvs) max_distance =
    within_distance max_distance nearby.current_price (plain_anchor lv)

-- The part of `generate_suggestions` that chooses the anchor of a trim.
unfoldable pub select_sell_anchor : NearbyLevels → List ScoredLevel → ℕ → Option Choice
select_sell_anchor nearby scored max_distance =
    elim (select_anchor max_distance
      (filter (λ lv. not (is_support lv.type) && leb nearby.current_price lv.price) scored)
      nearby.current_price) [
        | none ↦ none
        | some (some lv) ↦
            some (within_distance max_distance nearby.current_price (scored_anchor lv))
        | some none ↦ some (fallback_resistance nearby nearby.resistances max_distance)
      ]
