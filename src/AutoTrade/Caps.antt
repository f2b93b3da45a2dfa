-- ===== src/AutoTrade/Caps.antt =====
-- The caps of `_check_caps` in services/auto_trade.py hold over a whole pass.
use me_invest_paper.Base.{ℕ, ◌≤◌, ◌≡◌, Bool, ◌&&◌, Option, some, ◌==◌, if◌then◌else◌, arith, All}
use me_invest_paper.Calendar.{today_start, week_start}
use me_invest_paper.Store.{Suggestion, Execution, Mode, Caps, spend}
use me_invest_paper.AutoTrade.State.{State, Env}
use me_invest_paper.AutoTrade.Queries.{get_mode, get_active_caps}
use me_invest_paper.AutoTrade.Guards.{
  is_dry_run, counts_since, day_spend, ticker_week_spend, day_order_count, check_caps,
}
use me_invest_paper.AutoTrade.Pass.{run_auto_trade_pass}
use me_invest_paper.AutoTrade.Rows.{IsKeyed}
use me_invest_paper.AutoTrade.Spend.{cost, OnBook, Books, Guarded, pass-Bounded}

module _ {W : Type 0} (env : Env W) (mode : Mode) (caps : Caps) (book : ℕ → Suggestion) where
  abbrev today : Execution → Bool
  today = counts_since env.account (today_start env.now) (is_dry_run mode)

  abbrev this_week : ℕ → Execution → Bool
  this_week ticker e =
      e.ticker == ticker && counts_since env.account (week_start env.now) (is_dry_run mode) e

  day_spend-Guarded : Guarded env mode (some caps) book today spend caps.per_day_max_usd cost
  unfolding check_caps day_spend
  day_spend-Guarded = record {
    marked = λ e r. ground arith;
    placed = λ sug broker boid id status i live. ground arith;
    readopted = λ sug e known on t. ground arith;
    passed = λ sug db e le. ground arith;
  }

  day_order_count-Guarded :
      Guarded env mode (some caps) book today (λ _. 1) caps.per_day_max_orders (λ _. 1)
  unfolding check_caps day_order_count
  day_order_count-Guarded = record {
    marked = λ e r. ground arith;
    placed = λ sug broker boid id status i live. ground arith;
    readopted = λ sug e known on t. ground arith;
    passed = λ sug db e le. ground arith;
  }

  ticker_week_spend-Guarded :
      (ticker : ℕ)
      → Guarded env mode
          (some caps)
          book
          (this_week ticker)
          spend
          caps.per_week_max_usd_per_ticker
          (λ sug. if sug.ticker == ticker then cost sug else 0)
  unfolding check_caps ticker_week_spend
  ticker_week_spend-Guarded ticker = record {
    marked = λ e r. ground arith;
    placed = λ sug broker boid id status i live. ground arith;
    readopted = λ sug e known on t. ground arith;
    passed = λ sug db e le. ground arith;
  }

-- What the three theorems ask of the rows at the start of a pass: the primary keys are keys, caps
-- are in force, and the executions and suggestions agree with the book.
pub record Starts {W : Type 0} (env : Env W) (caps : Caps) (book : ℕ → Suggestion) (s : State W)
    : Type 0 where
  pub keyed : IsKeyed s.db
  pub in_force : get_active_caps s.db ≡ some caps
  pub on_book : All (OnBook book) s.db.executions
  pub known : All (Books book) s.db.suggestions

-- Whether a pass from the state simulates its orders.
abbrev pub simulated : {W : Type 0} → Env W → State W → Bool
simulated env s = is_dry_run (get_mode s.db env.account)

module _ {W : Type 0} (env : Env W) (as_of : Option ℕ) (s : State W) (caps : Caps)
    (book : ℕ → Suggestion) (start : Starts env caps book s) where
  -- Where keys are not repeated, these caps are in force, and the rows and the suggestions agree on
  -- what each suggestion is, a pass keeps the day's spending of its account, simulated or real
  -- as its mode is, within the cap for a day, if it was within it before.
  pub run_auto_trade_pass-day_spend :
      day_spend env.account env.now (simulated env s) s.db.executions ≤ caps.per_day_max_usd
      → day_spend env.account env.now
          (simulated env s)
          (run_auto_trade_pass env as_of s).1.db.executions
        ≤ caps.per_day_max_usd
  unfolding day_spend
  run_auto_trade_pass-day_spend h =
      let mode = get_mode s.db env.account in
      pass-Bounded env as_of s book (today env mode caps book) spend caps.per_day_max_usd cost
        (rw start.in_force (day_spend-Guarded env mode caps book)) start.known
        (start.keyed, start.on_book, h)

  -- Where keys are not repeated, these caps are in force, and the rows and the suggestions agree on
  -- what each suggestion is, a pass keeps the week's spending of its account on a ticker, simulated
  -- or real as its mode is, within its cap, if it was within it before.
  pub run_auto_trade_pass-ticker_week_spend :
      (ticker : ℕ)
      → ticker_week_spend env.account env.now (simulated env s) ticker s.db.executions
        ≤ caps.per_week_max_usd_per_ticker
      → ticker_week_spend env.account env.now
          (simulated env s)
          ticker
          (run_auto_trade_pass env as_of s).1.db.executions
        ≤ caps.per_week_max_usd_per_ticker
  unfolding ticker_week_spend
  run_auto_trade_pass-ticker_week_spend ticker h =
      let mode = get_mode s.db env.account in
      pass-Bounded env as_of s book (this_week env mode caps book ticker) spend
        caps.per_week_max_usd_per_ticker (λ sug. if sug.ticker == ticker then cost sug else 0)
        (rw start.in_force (ticker_week_spend-Guarded env mode caps book ticker)) start.known
        (start.keyed, start.on_book, h)

  -- Where keys are not repeated, these caps are in force, and the rows and the suggestions agree on
  -- what each suggestion is, a pass keeps the number of the day's orders of its account, simulated
  -- or real as its mode is, within its cap, if it was within it before.
  pub run_auto_trade_pass-day_order_count :
      day_order_count env.account env.now (simulated env s) s.db.executions
        ≤ caps.per_day_max_orders
      → day_order_count env.account env.now
          (simulated env s)
          (run_auto_trade_pass env as_of s).1.db.executions
        ≤ caps.per_day_max_orders
  unfolding day_order_count
  run_auto_trade_pass-day_order_count h =
      let mode = get_mode s.db env.account in
      pass-Bounded env as_of s book (today env mode caps book) (λ _. 1) caps.per_day_max_orders
        (λ _. 1) (rw start.in_force (day_order_count-Guarded env mode caps book)) start.known
        (start.keyed, start.on_book, h)
