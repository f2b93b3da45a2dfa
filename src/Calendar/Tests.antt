-- ===== src/Calendar/Tests.antt =====
-- The dates of services/suggest.py at one day: Wednesday 1970-01-14.
use me_invest_paper.Base.{◌≡◌, refl}
use me_invest_paper.Calendar.{weekday, next_monday}

wednesday : weekday 13 ≡ 2
wednesday = refl

monday_of_week : next_monday 13 ≡ 11
unfolding next_monday
monday_of_week = refl
