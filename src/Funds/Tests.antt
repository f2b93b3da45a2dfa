-- ===== src/Funds/Tests.antt =====
-- services/funds.py on an account that sold two shares and had a deposit besides.
use me_invest_paper.Base.{ℕ, ◌≡◌, refl, Option, some, none, List, [], ◌∷◌, map, All, true}
use me_invest_paper.Base.Int.{pos, ◌-ℤ◌}
use me_invest_paper.Store.{Execution, ExecutionStatus, Side}
use me_invest_paper.AutoTrade.Samples.{execution}
use me_invest_paper.Accounts.{BrokerAccount, active_rows, first_of_each}
use me_invest_paper.Funds.{
  FundsEvent, detect_funds_flow, detect_each, run_funds_detection_all_brokers,
}
use me_invest_paper.Funds.Flows.{IsExplained, run_funds_detection-Explained}

abbrev state : ℕ → ℕ → Option ℕ → ℕ → BrokerAccount
state id sync closed cash = record {
  id = id;
  account_ref = some 1;
  account_id = none;
  broker = b'a' ∷ [];
  mode = [];
  nickname = none;
  is_active = true;
  connection_config = none;
  cash_usd = pos cash;
  equity_usd = pos 0;
  last_sync = sync;
  effective_from = none;
  effective_to = closed;
}

abbrev states : List BrokerAccount
states = state 1 500 (some 2000) 1000000 ∷ state 2 2000 none 9000000 ∷ []

abbrev sale : Execution
sale = record (execution 2 9 7 1 1000000 51 ExecutionStatus.filled 0) {
  side = Side.sell;
  filled_qty = 2;
  filled_price = some 1500000;
  filled_at = some 1500;
}

abbrev events : List FundsEvent
events = run_funds_detection_all_brokers 1000000 1000 2100 states (sale ∷ []) []

one_deposit : map (λ e. e.flow.delta_usd) events ≡ pos 5000000 ∷ []
unfolding run_funds_detection_all_brokers detect_each detect_funds_flow active_rows first_of_each
    ◌-ℤ◌
one_deposit = refl

run_funds_detection-Explained_example :
    All (λ e. IsExplained 1000000 1000 2100 states (sale ∷ []) e.flow) events
run_funds_detection-Explained_example =
    run_funds_detection-Explained 1000000 1000 2100 states (sale ∷ [])
