-- ===== src/ClientId/Tests.antt =====
-- A client order id of services/auto_trade.py, read back.
use me_invest_paper.Base.{◌≡◌, refl, some}
use me_invest_paper.ClientId.{format, parse_suggestion_id, number, decimal, digits, is_suffix, scan}

read_back : parse_suggestion_id (format 120 3) ≡ some 120
unfolding format parse_suggestion_id number decimal digits is_suffix scan
read_back = refl
