-- ===== src/Safety.antt =====
-- safety.py: the guards of the paper-only build.
use me_invest_paper.Base.{Bool, true, false, Option, some}

-- `getattr(adapter, "paper", None) is True`: false is a raised `LiveTradingBlocked`.
unfoldable pub assert_paper_only : Option Bool → Bool
assert_paper_only (some true) = true
assert_paper_only _ = false
