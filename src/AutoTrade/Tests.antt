-- ===== src/AutoTrade/Tests.antt =====
-- Runs of services/auto_trade.py on the small account, and the theorems at it.
use me_invest_paper.Base.{
  ℕ, ◌≡◌, ◌≤◌, ◌≢◌, ◌==◌, if◌then◌else◌, refl, Bool, true, false, arith, map, List, [], ◌∷◌, ◌++◌,
  Option, none, some, ◌⊎◌, All,
}
use me_invest_paper.Store.{Suggestion, Mode, off, KillSwitchLog, broker_error, readback_failed}
use me_invest_paper.Broker.{OrderStatus, OrderConfirmation, Submission, error}
use me_invest_paper.AutoTrade.State.{State, Env, ok}
use me_invest_paper.AutoTrade.Queries.{get_mode}
use me_invest_paper.AutoTrade.Guards.{is_dry_run, day_spend, ticker_week_spend, day_order_count}
use me_invest_paper.AutoTrade.Round.{Outcome, break, settle, refused_as, kill_switch}
use me_invest_paper.AutoTrade.Pass.{run_auto_trade_pass}
use me_invest_paper.AutoTrade.Rows.{IsKeyed}
use me_invest_paper.AutoTrade.Caps.{
  Starts, run_auto_trade_pass-day_spend, run_auto_trade_pass-ticker_week_spend,
  run_auto_trade_pass-day_order_count,
}
use me_invest_paper.AutoTrade.Once.{standing, run_auto_trade_pass-standing}
use me_invest_paper.AutoTrade.Paper.{with_adapter, run_auto_trade_pass-paper_only}
use me_invest_paper.AutoTrade.Simulation.{other_orders, run_auto_trade_pass-simulated}
use me_invest_paper.AutoTrade.Ending.{Ended, run_auto_trade_pass-Ended}
use me_invest_paper.AutoTrade.Loop.{fetched}
use me_invest_paper.AutoTrade.Lost.{Unknown, other_cancel, settle_lost}
use me_invest_paper.AutoTrade.Samples.{
  now, adapter, env, caps, first, second, third, start, program, Orders,
}

abbrev after : Mode → State Orders
after mode = (run_auto_trade_pass env none (start mode)).1

-- The first two are placed, the working order of the second's ticker is cancelled, and the third
-- would breach the cap for a day.
live_pass :
    (day_spend 1 now false (after Mode.live).db.executions ≡ 5000000)
    × (map (λ e. e.broker_order_id) (after Mode.live).db.executions
        ≡ some 50 ∷ some 51 ∷ some 102 ∷ some 103 ∷ [])
unfolding program
live_pass = (refl, refl)

-- The suggestion of each id.
abbrev book : ℕ → Suggestion
book i = if i == 1 then first else if i == 3 then third else second

start-IsKeyed : (mode : Mode) → IsKeyed (start mode).db
start-IsKeyed mode = record { distinct = omega arith; fresh = omega arith }

start-Starts : (mode : Mode) → Starts env caps book (start mode)
unfolding program
start-Starts mode = record {
  keyed = start-IsKeyed mode;
  in_force = refl;
  on_book = ((omega arith, refl), ((omega arith, refl), tt));
  known = ((refl, refl), ((refl, refl), ((refl, refl), tt)));
}

start-mode : (mode : Mode) → get_mode (start mode).db 1 ≡ mode
unfolding program
start-mode mode = refl

day_spend-start :
    (mode : Mode) → day_spend 1 now (is_dry_run mode) (start mode).db.executions ≤ 6000000
unfolding program
day_spend-start Mode.off = omega arith
day_spend-start Mode.dry_run = omega arith
day_spend-start Mode.live = omega arith

ticker_week_spend-start :
    (mode : Mode) → ticker_week_spend 1 now (is_dry_run mode) 8 (start mode).db.executions ≤ 6000000
unfolding program
ticker_week_spend-start Mode.off = omega arith
ticker_week_spend-start Mode.dry_run = omega arith
ticker_week_spend-start Mode.live = omega arith

day_order_count-start :
    (mode : Mode) → day_order_count 1 now (is_dry_run mode) (start mode).db.executions ≤ 5
unfolding program
day_order_count-start Mode.off = omega arith
day_order_count-start Mode.dry_run = omega arith
day_order_count-start Mode.live = omega arith

run_auto_trade_pass-day_spend_example :
    day_spend 1 now false (after Mode.live).db.executions ≤ 6000000
unfolding program
run_auto_trade_pass-day_spend_example =
    run_auto_trade_pass-day_spend env none (start Mode.live) caps book (start-Starts Mode.live)
      (day_spend-start Mode.live)

run_auto_trade_pass-ticker_week_spend_example :
    ticker_week_spend 1 now false 8 (after Mode.live).db.executions ≤ 6000000
unfolding program
run_auto_trade_pass-ticker_week_spend_example =
    run_auto_trade_pass-ticker_week_spend env none (start Mode.live) caps book
      (start-Starts Mode.live) 8 (ticker_week_spend-start Mode.live)

run_auto_trade_pass-day_order_count_example :
    day_order_count 1 now true (after Mode.dry_run).db.executions ≤ 5
unfolding program
run_auto_trade_pass-day_order_count_example =
    run_auto_trade_pass-day_order_count env none (start Mode.dry_run) caps book
      (start-Starts Mode.dry_run) (day_order_count-start Mode.dry_run)

start-standing : standing env Mode.live 1 (start Mode.live).db ≤ 1
start-standing = omega arith

run_auto_trade_pass-standing_example : standing env Mode.live 1 (after Mode.live).db ≤ 1
unfolding program
run_auto_trade_pass-standing_example =
    run_auto_trade_pass-standing env none (start Mode.live) 1 (start-IsKeyed Mode.live)
      start-standing

-- The account behind an adapter that says that it is live.
abbrev live_env : Env Orders
live_env = record env { adapter = record adapter { paper = some false } }

abbrev refuse : {A : Type 0} → A → Orders → Submission × Orders
refuse req orders = (error, [])

run_auto_trade_pass-paper_only_example :
    run_auto_trade_pass
      (record live_env { adapter = record live_env.adapter { submit_order = refuse } })
      none
      (start Mode.live)
    ≡ run_auto_trade_pass live_env none (start Mode.live)
run_auto_trade_pass-paper_only_example =
    run_auto_trade_pass-paper_only live_env refuse none (start Mode.live) (λ e. cc)

abbrev no_answer : ℕ → Orders → Option OrderConfirmation × Orders
no_answer i orders = (none, [])

abbrev no_cancel : ℕ → Orders → Bool × Orders
no_cancel i orders = (false, [])

run_auto_trade_pass-simulated_example :
    run_auto_trade_pass
      (with_adapter env (other_orders env refuse no_answer no_cancel))
      none
      (start Mode.dry_run)
    ≡ run_auto_trade_pass env none (start Mode.dry_run)
run_auto_trade_pass-simulated_example =
    run_auto_trade_pass-simulated env refuse no_answer no_cancel none (start Mode.dry_run)
      (start-mode Mode.dry_run)

abbrev outcomes : List Outcome
outcomes = refused_as live_env first false none (kill_switch broker_error) ∷ []

live_account : (run_auto_trade_pass live_env none (start Mode.live)).0 ≡ ok outcomes
unfolding program
live_account = refl

run_auto_trade_pass-Ended_example :
    ((get_mode (start Mode.live).db 1 ≡ off)
      × (outcomes ≡ [])
      × ((run_auto_trade_pass live_env none (start Mode.live)).1 ≡ start Mode.live))
    ⊎ ((get_mode (start Mode.live).db 1 ≢ off)
        × Ended live_env
            (fetched live_env none (start Mode.live))
            outcomes
            (start Mode.live)
            (run_auto_trade_pass live_env none (start Mode.live)).1)
run_auto_trade_pass-Ended_example =
    run_auto_trade_pass-Ended live_env none (start Mode.live) outcomes live_account

-- A confirmation whose order the broker does not find again.
abbrev confirmation : OrderConfirmation
confirmation = record { broker_order_id = 77; client_order_id = none; status = OrderStatus.new }

abbrev lost : Outcome
lost = refused_as env first false (some 77) (kill_switch readback_failed)

settle-lost : (settle env first [] confirmation (start Mode.live)).0 ≡ break lost
unfolding program
settle-lost = refl

settle_lost_example :
    let after = (settle env first [] confirmation (start Mode.live)).1 in
    (lost.broker_order_id ≡ some 77)
    × All (Unknown 77) after.db.executions
    × ((other : Orders → Bool × Orders)
        → settle
            (with_adapter env (other_cancel env.adapter 77 other))
            first
            []
            confirmation
            (start Mode.live)
          ≡ settle env first [] confirmation (start Mode.live))
    × ((entry : KillSwitchLog) × (after.db.kill_log ≡ [] ++ entry ∷ [])
        × All (λ b. b ≢ 77) entry.cancelled_order_ids)
settle_lost_example =
    settle_lost env first [] confirmation (start Mode.live) lost (ground arith) settle-lost
