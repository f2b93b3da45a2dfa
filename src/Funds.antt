-- ===== src/Funds.antt =====
-- services/funds.py and jobs/funds_detection.py: cash that came or went without a trade. The start of
-- the day in New York is given; the words of a note and the mails are left out.
pub mod Flows
mod Tests
use me_invest_paper.Base.{
  ℕ, zero, suc, ◌+◌, ◌*◌, Bool, true, false, ◌&&◌, not, Option, none, some, List, [], ◌∷◌, ◌++◌,
  map, ◌==◌, ltb, leb, filter, total, latest_by, holds, present, if◌then◌else◌,
}
use me_invest_paper.Base.Int.{ℤ, pos, negsuc, pos_part, neg_part, sub_ℕ, ◌-ℤ◌}
use me_invest_paper.Store.{Execution, is_buy}
use me_invest_paper.Accounts.{BrokerAccount, AccountInfo, list_active_accounts}
use me_invest_paper.Snapshot.{latest_state}

pub data FlowKind : Type 0 where
  deposit withdrawal : FlowKind

pub record FundsFlow : Type 0 where
  pub broker_account_id : ℕ
  pub delta_usd : ℤ
  pub kind : FlowKind
  pub prev_cash : ℤ
  pub cur_cash : ℤ
  pub trade_cash_flow : ℤ

-- `FundsEvent`: the flow, and when it was written.
pub record FundsEvent : Type 0 where
  pub ts : ℕ
  pub flow : FundsFlow

-- The latest state row, open or not, that was read before the day began.
abbrev pub state_before : ℕ → ℕ → List BrokerAccount → Option BrokerAccount
state_before ref today_start rows =
    latest_by (λ r. r.last_sync)
      (filter (λ r. holds r.account_ref ref && ltb r.last_sync today_start) rows)

abbrev pub is_within_window : ℕ → ℕ → Option ℕ → Bool
is_within_window from_time to_time none = false
is_within_window from_time to_time (some at) = ltb from_time at && leb at to_time

-- A real fill of the account, after the first time and up to the second.
abbrev pub is_fill_between : ℕ → ℕ → ℕ → Execution → Bool
is_fill_between ref from_time to_time e =
    e.broker_account_id == ref && not e.dry_run && is_within_window from_time to_time e.filled_at

abbrev pub value_at : ℕ → Option ℕ → ℕ
value_at qty none = 0
value_at qty (some price) = qty * price

abbrev pub fill_value : Execution → ℕ
fill_value e = value_at e.filled_qty e.filled_price

-- What the sales brought less what the purchases cost.
abbrev pub trade_cash_flow_of : List Execution → ℤ
trade_cash_flow_of fills =
    sub_ℕ (total (λ e. not (is_buy e.side)) fill_value fills)
      (total (λ e. is_buy e.side) fill_value fills)

abbrev pub kind_of : ℤ → FlowKind
kind_of (pos zero) = FlowKind.withdrawal
kind_of (pos (suc n)) = FlowKind.deposit
kind_of (negsuc n) = FlowKind.withdrawal

-- The flow, unless its size is within the threshold.
abbrev pub flow_if : ℕ → ℕ → BrokerAccount → BrokerAccount → ℤ → ℤ → Option FundsFlow
flow_if threshold ref cur prev trades external =
    if leb (pos_part external + neg_part external) threshold
    then none
    else some (record {
      broker_account_id = ref;
      delta_usd = external;
      kind = kind_of external;
      prev_cash = prev.cash_usd;
      cur_cash = cur.cash_usd;
      trade_cash_flow = trades;
    })

abbrev pub flow_between : ℕ → ℕ → List Execution → BrokerAccount → BrokerAccount → Option FundsFlow
flow_between threshold ref executions cur prev =
    let trades =
      trade_cash_flow_of (filter (is_fill_between ref prev.last_sync cur.last_sync) executions) in
    flow_if threshold ref cur prev trades ((cur.cash_usd -ℤ prev.cash_usd) -ℤ trades)

abbrev pub flow_since :
    ℕ → ℕ → List Execution → BrokerAccount → Option BrokerAccount → Option FundsFlow
flow_since threshold ref executions cur none = none
flow_since threshold ref executions cur (some prev) = flow_between threshold ref executions cur prev

abbrev pub flow_from :
    ℕ → ℕ → List Execution → Option BrokerAccount → Option BrokerAccount → Option FundsFlow
flow_from threshold ref executions none prev = none
flow_from threshold ref executions (some cur) prev = flow_since threshold ref executions cur prev

module _ (threshold today_start now : ℕ) (rows : List BrokerAccount)
    (executions : List Execution) where
  unfoldable pub detect_funds_flow : ℕ → Option FundsFlow
  detect_funds_flow ref =
      flow_from threshold ref executions (latest_state ref rows) (state_before ref today_start rows)

  abbrev pub noted : Option FundsFlow → List FundsEvent → List FundsEvent
  noted none events = events
  noted (some flow) events = events ++ record { ts = now; flow = flow } ∷ []

  -- The loop over the accounts.
  unfoldable pub detect_each : List AccountInfo → List FundsEvent → List FundsEvent
  detect_each [] events = events
  detect_each (account ∷ accounts) events =
      detect_each accounts (noted (detect_funds_flow account.account_ref) events)

  unfoldable pub run_funds_detection_all_brokers : List FundsEvent → List FundsEvent
  run_funds_detection_all_brokers events = detect_each (list_active_accounts rows) events
