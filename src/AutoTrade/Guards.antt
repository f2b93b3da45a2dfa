-- ===== src/AutoTrade/Guards.antt =====
-- The guards of services/auto_trade.py, in the order in which `run_auto_trade_pass` calls them.
use me_invest_paper.Base.{
  ℕ, ◌+◌, ◌-◌, ◌*◌, Bool, true, false, ◌&&◌, not, Option, none, some, List, [], ◌∷◌, ◌==◌, holds,
  differs, ltb, leb, if◌then◌else◌, filter, find?, total,
}
use me_invest_paper.Base.Int.{ℤ, pos, ltb_ℤ}
use me_invest_paper.Calendar.{day, today_start, week_start}
use me_invest_paper.Store.{
  Suggestion, Execution, Mode, Caps, Db, is_buy, is_routing, is_broker_cancelled, is_rejected,
  truthy, spend, set_execution, ExecutionStatus,
}
use me_invest_paper.Broker.{OrderStatus, Adapter}
use me_invest_paper.AutoTrade.State.{
  Env, Result, ok, guard_failure, raised, already_executed, stale_not_live, stale_unknown,
  wash_sale, no_caps, per_order, per_day, per_week_per_ticker, per_day_count, insufficient_cash,
  Action, pure, check, ◌>>◌,
}

-- `_LIVE_ORDER_STATUSES`
abbrev pub is_live_status : OrderStatus → Bool
is_live_status OrderStatus.new = true
is_live_status OrderStatus.partially_filled = true
is_live_status OrderStatus.pending_new = true
is_live_status OrderStatus.accepted = true
is_live_status OrderStatus.held = true
is_live_status OrderStatus.pending_cancel = true
is_live_status _ = false

-- `mode == "DRY_RUN"`
abbrev pub is_dry_run : Mode → Bool
is_dry_run Mode.dry_run = true
is_dry_run _ = false

abbrev pub is_live : Mode → Bool
is_live Mode.live = true
is_live _ = false

-- `dry_run.is_(flag)`
abbrev pub flagged : Bool → Bool → Bool
flagged true b = b
flagged false b = not b

-- A row that the idempotency guard finds.
abbrev pub is_prior : ℕ → ℕ → Bool → Execution → Bool
is_prior account sid dry e =
    holds e.suggestion_id sid
    && e.broker_account_id == account
    && flagged dry e.dry_run
    && not (is_broker_cancelled e.status)

unfoldable pub check_idempotency : ℕ → Suggestion → Mode → Db → Result Unit
check_idempotency account sug mode db =
    elim (find? (is_prior account sug.id (is_dry_run mode)) db.executions) [
      | none ↦ ok tt
      | some e ↦ guard_failure already_executed
    ]

-- A working placement of another suggestion for the ticker.
abbrev pub is_stale : ℕ → Suggestion → Execution → Bool
is_stale account sug e =
    e.ticker == sug.ticker
    && e.broker_account_id == account
    && is_routing e.status
    && not e.dry_run
    && differs e.suggestion_id sug.id

abbrev pub mark_broker_cancelled : Execution → Execution
mark_broker_cancelled e = record e { status = ExecutionStatus.broker_cancelled }

abbrev pub cancel_row : ℕ → Db → Db
cancel_row i db = set_execution i mark_broker_cancelled db

module _ {W : Type 0} (adapter : Adapter W) where
  -- One round of the loop over the stale rows. An exception of `cancel_order` is not caught.
  unfoldable pub reconcile_stale : Execution → Action W Unit
  reconcile_stale e s = elim e.broker_order_id [
    | none ↦ (ok tt, record s { db = cancel_row e.id s.db })
    | some boid ↦
        if not (truthy (some boid))
        then (ok tt, record s { db = cancel_row e.id s.db })
        else let (answer, w) = adapter.get_order boid s.broker in
          elim answer [
            | none ↦ (guard_failure stale_unknown, record s { broker = w })
            | some conf ↦
                if not (is_live_status conf.status)
                then (ok tt, record s { db = cancel_row e.id s.db; broker = w })
                else let (done, w') = adapter.cancel_order boid w in
                  if done
                  then (ok tt, record s { db = cancel_row e.id s.db; broker = w' })
                  else (raised, record s { broker = w' })
          ]
  ]

  unfoldable pub reconcile_stales : List Execution → Action W Unit
  reconcile_stales [] = pure tt
  reconcile_stales (e ∷ es) = reconcile_stale e >> reconcile_stales es

  unfoldable pub settle_stales : Mode → List Execution → Action W Unit
  settle_stales mode [] s = (ok tt, s)
  settle_stales mode (e ∷ es) s =
      if is_live mode then reconcile_stales (e ∷ es) s else (guard_failure stale_not_live, s)

  unfoldable pub check_stale_live_order : ℕ → Suggestion → Mode → Action W Unit
  check_stale_live_order account sug mode s =
      settle_stales mode (filter (is_stale account sug) s.db.executions) s

  unfoldable pub check_cash_sufficiency : Suggestion → Action W Unit
  check_cash_sufficiency sug s =
      if not (is_buy sug.side)
      then (ok tt, s)
      else let (power, w) = adapter.buying_power_usd s.broker in
        elim power [
          | none ↦ (raised, record s { broker = w })
          | some usd ↦
              if ltb usd (sug.qty * sug.limit_price)
              then (guard_failure insufficient_cash, record s { broker = w })
              else (ok tt, record s { broker = w })
        ]

abbrev pub is_loss : Option ℤ → Bool
is_loss none = false
is_loss (some pnl) = ltb_ℤ pnl (pos 0)

abbrev pub is_since : ℕ → Option ℕ → Bool
is_since cutoff none = false
is_since cutoff (some t) = leb cutoff t

abbrev pub is_loss_sell : ℕ → ℕ → Suggestion → Execution → Bool
is_loss_sell account now sug e =
    e.ticker == sug.ticker
    && e.broker_account_id == account
    && not (is_buy e.side)
    && not e.dry_run
    && is_loss e.realized_pnl_usd
    && is_since (now - 30 * day) e.filled_at

unfoldable pub check_wash_sale : ℕ → ℕ → Suggestion → Db → Result Unit
check_wash_sale account now sug db =
    if not (is_buy sug.side)
    then ok tt
    else elim (find? (is_loss_sell account now sug) db.executions) [
      | none ↦ ok tt
      | some e ↦ guard_failure wash_sale
    ]

-- The rows of the two spending sums and of the count.
abbrev pub counts_since : ℕ → ℕ → Bool → Execution → Bool
counts_since account start dry e =
    e.broker_account_id == account
    && flagged dry e.dry_run
    && leb start e.created_at
    && not (is_rejected e.status)

unfoldable pub day_spend : ℕ → ℕ → Bool → List Execution → ℕ
day_spend account now dry rows = total (counts_since account (today_start now) dry) spend rows

unfoldable pub ticker_week_spend : ℕ → ℕ → Bool → ℕ → List Execution → ℕ
ticker_week_spend account now dry ticker rows =
    total (λ e. e.ticker == ticker && counts_since account (week_start now) dry e) spend rows

unfoldable pub day_order_count : ℕ → ℕ → Bool → List Execution → ℕ
day_order_count account now dry rows =
    total (counts_since account (today_start now) dry) (λ _. 1) rows

unfoldable pub check_caps : ℕ → ℕ → Suggestion → Option Caps → Mode → Db → Result Unit
check_caps account now sug none mode db = guard_failure no_caps
check_caps account now sug (some caps) mode db =
    let cost = sug.qty * sug.limit_price in
    let dry = is_dry_run mode in
    if ltb caps.per_order_max_usd cost
    then guard_failure per_order
    else if ltb caps.per_day_max_usd (day_spend account now dry db.executions + cost)
    then guard_failure per_day
    else if ltb caps.per_week_max_usd_per_ticker
        (ticker_week_spend account now dry sug.ticker db.executions + cost)
    then guard_failure per_week_per_ticker
    else if leb caps.per_day_max_orders (day_order_count account now dry db.executions)
    then guard_failure per_day_count
    else ok tt

-- The `try` block at the head of the loop's body.
unfoldable pub guards : {W : Type 0} → Env W → Option Caps → Mode → Suggestion → Action W Unit
guards env caps mode sug = do
  check (check_idempotency env.account sug mode)
  check_stale_live_order env.adapter env.account sug mode
  check (check_wash_sale env.account env.now sug)
  check (check_caps env.account env.now sug caps mode)
  check_cash_sufficiency env.adapter sug
