-- ===== src/Calendar.antt =====
-- The dates of services/suggest.py and services/auto_trade.py. A date is the number of days since
-- 1970-01-01, a Thursday, and an instant is the number of seconds since then, in UTC.
pub mod Laws
mod Tests
use me_invest_paper.Base.{ℕ, ◌+◌, ◌-◌, ◌*◌, ◌/◌, ◌%◌, leb, if◌then◌else◌}

abbrev pub day : ℕ
day = 86400

-- `date.weekday()`: 0 is Monday.
abbrev pub weekday : ℕ → ℕ
weekday d = (d + 3) % 7

-- `now.date()`
abbrev pub date_of : ℕ → ℕ
date_of t = t / day

-- `now.replace(hour=0, minute=0, second=0, microsecond=0)`
abbrev pub today_start : ℕ → ℕ
today_start t = t - t % day

-- `ref_date - timedelta(days=ref_date.weekday())`
abbrev pub current_week_monday : ℕ → ℕ
current_week_monday d = d - weekday d

abbrev pub week_start : ℕ → ℕ
week_start t = today_start t - weekday (date_of t) * day

unfoldable pub next_monday : ℕ → ℕ
next_monday d = if leb (weekday d) 2 then d - weekday d else d + (7 - weekday d) % 7

unfoldable pub next_friday_eod : ℕ → ℕ
next_friday_eod d = (next_monday d + 4) * day + 21 * 3600
