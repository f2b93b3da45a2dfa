-- ===== src/Review/Levels.antt =====
-- The levels that a draft can be anchored to again in graphs/suggestion_review.py. Prices are whole
-- ten-thousandths of a dollar, a cent is a hundred of them.
use me_invest_paper.Base.{
  ℕ, ◌+◌, ◌*◌, ◌/◌, Bool, ◌&&◌, ◌||◌, not, Option, none, some, List, [], ◌∷◌, ◌==◌, ltb, leb,
  filter, find?, if◌then◌else◌,
}
use me_invest_paper.Store.{Side}
use me_invest_paper.Reconciliation.Matching.{distance}
use me_invest_paper.Suggest.Anchor.{ScoredLevel, is_support}

-- `_floor2dp` and `_ceil2dp` of services/suggest.py.
abbrev pub floor2dp : ℕ → ℕ
floor2dp price = price / 100 * 100

abbrev pub ceil2dp : ℕ → ℕ
ceil2dp price = (price + 99) / 100 * 100

-- The limit at a level: a purchase is never dearer, a sale never cheaper.
abbrev pub limit_at : Side → ℕ → ℕ
limit_at Side.buy price = floor2dp price
limit_at Side.sell price = ceil2dp price

-- `max(candidates, key=price)`: the first of the greatest, onto the best so far.
abbrev pub highest : ScoredLevel → List ScoredLevel → ScoredLevel
highest best [] = best
highest best (lv ∷ lvs) = highest (if ltb best.price lv.price then lv else best) lvs

abbrev pub lowest : ScoredLevel → List ScoredLevel → ScoredLevel
lowest best [] = best
lowest best (lv ∷ lvs) = lowest (if ltb lv.price best.price then lv else best) lvs

abbrev pub highest_of : List ScoredLevel → Option ScoredLevel
highest_of [] = none
highest_of (lv ∷ lvs) = some (highest lv lvs)

abbrev pub lowest_of : List ScoredLevel → Option ScoredLevel
lowest_of [] = none
lowest_of (lv ∷ lvs) = some (lowest lv lvs)

-- The candidates of `_deeper_anchor`.
abbrev pub is_deeper : Side → ℕ → ScoredLevel → Bool
is_deeper Side.buy limit lv = is_support lv.type && ltb lv.price limit
is_deeper Side.sell limit lv = not (is_support lv.type) && ltb limit lv.price

abbrev pub nearest_of : Side → List ScoredLevel → Option ScoredLevel
nearest_of Side.buy levels = highest_of levels
nearest_of Side.sell levels = lowest_of levels

unfoldable pub deeper_anchor : Side → ℕ → List ScoredLevel → Option ScoredLevel
deeper_anchor side limit levels = nearest_of side (filter (is_deeper side limit) levels)

-- A level on the right side of the current price, and at most 15 percent from it.
abbrev pub is_reachable : Side → ℕ → ScoredLevel → Bool
is_reachable Side.buy current lv =
    leb lv.price current && leb (distance lv.price current * 100) (15 * current)
is_reachable Side.sell current lv =
    leb current lv.price && leb (distance lv.price current * 100) (15 * current)

abbrev pub has_type_of : Side → ScoredLevel → Bool
has_type_of Side.buy lv = is_support lv.type
has_type_of Side.sell lv = not (is_support lv.type)

-- The tests of `_find_level`, where a price of zero stands for no indicator.
abbrev pub is_choice : ℕ → Side → ℕ → ScoredLevel → Bool
is_choice method side current lv =
    lv.method == method && has_type_of side lv && (current == 0 || is_reachable side current lv)

unfoldable pub find_level : List ScoredLevel → ℕ → Side → ℕ → Option ScoredLevel
find_level levels method side current = find? (is_choice method side current) levels
