-- ===== src/Calendar/Laws.antt =====
-- What `_next_monday` and `_next_friday_eod` promise.
use me_invest_paper.Base.{ℕ, ◌+◌, ◌*◌, ◌≤◌, ◌<◌, ◌≡◌, arith}
use me_invest_paper.Calendar.{day, weekday, next_monday, next_friday_eod}

-- From the first Monday after the epoch on, the week of a suggestion is a Monday, at most two days
-- back and four days ahead, and that Monday is its own week.
pub next_monday_lem :
    (d : ℕ)
    → 4 ≤ d
    → (weekday (next_monday d) ≡ 0)
      × (d ≤ next_monday d + 2)
      × (next_monday d ≤ d + 4)
      × (next_monday (next_monday d) ≡ next_monday d)
unfolding next_monday
next_monday_lem d h = ground arith

-- A suggestion that is made on the day `d` expires at the earliest 45 hours after the end of that
-- day, and less than nine days after its start.
pub next_friday_eod_bounds :
    (d : ℕ)
    → 4 ≤ d
    → ((d + 1) * day + 45 * 3600 ≤ next_friday_eod d) × (next_friday_eod d < (d + 9) * day)
unfolding next_friday_eod
next_friday_eod_bounds d h = let m = next_monday_lem d h in omega arith
