-- ===== src/AutoTrade/Samples.antt =====
-- A small account on which a pass of services/auto_trade.py is run, and what it does there.
use me_invest_paper.Base.{
  ℕ, ◌+◌, ◌*◌, true, false, ◌==◌, if◌then◌else◌, Option, none, some, List, [], ◌∷◌,
}
use me_invest_paper.Calendar.{day}
use me_invest_paper.Store.{
  Text, Side, Kind, SuggestionStatus, ExecutionStatus, MatchMethod, Suggestion, Execution, Mode,
  Caps, Db,
}
use me_invest_paper.Broker.{OrderStatus, OrderRequest, OrderConfirmation, confirmed, Adapter}
use me_invest_paper.ClientId.{format, same_text, decimal, digits}
use me_invest_paper.Safety.{assert_paper_only}
use me_invest_paper.AutoTrade.State.{State, Env}
use me_invest_paper.AutoTrade.Queries.{
  get_mode, get_active_caps, fetch_accepted_unexecuted, next_client_order_id, set_mode,
}
use me_invest_paper.AutoTrade.Guards.{
  check_idempotency, check_stale_live_order, check_wash_sale, check_caps, check_cash_sufficiency,
  settle_stales, reconcile_stales, reconcile_stale, day_spend, ticker_week_spend, day_order_count,
  guards,
}
use me_invest_paper.AutoTrade.KillSwitch.{trigger_kill_switch, cancel_all, cancel_recent}
use me_invest_paper.AutoTrade.Round.{
  dry_run_round, settle, place, adopt_or_place, live_round, round,
}
use me_invest_paper.AutoTrade.Pass.{rounds, run_auto_trade_pass}

-- Monday 1970-01-12, half past nine.
abbrev pub now : ℕ
now = 11 * day + 34200

abbrev pub suggestion : ℕ → ℕ → ℕ → ℕ → Suggestion
suggestion id ticker qty limit_price = record {
  id = id;
  broker_account_id = 1;
  week_of = 11;
  ticker = ticker;
  side = Side.buy;
  qty = qty;
  limit_price = limit_price;
  reason = [];
  status = SuggestionStatus.accepted;
  target_allocation_id = none;
  created_at = 10 * day;
  expires_at = some (15 * day + 75600);
  confidence_at_creation = none;
  anchor_method = none;
  acted_at = none;
  note = [];
  base_qty = none;
  size_factor = 10000;
  context_note = [];
  llm_rationale = [];
  kind = Kind.regular;
  is_highlighted = false;
}

abbrev pub execution : ℕ → ℕ → ℕ → ℕ → ℕ → ℕ → ExecutionStatus → ℕ → Execution
execution id sid ticker qty price boid status created_at = record {
  id = id;
  broker_account_id = 1;
  suggestion_id = some sid;
  ticker = ticker;
  side = Side.buy;
  submitted_qty = some qty;
  filled_qty = 0;
  limit_price = some price;
  filled_price = none;
  filled_at = none;
  broker = [];
  broker_order_id = some boid;
  client_order_id = some (b's' ∷ []);
  dry_run = false;
  status = status;
  realized_pnl_usd = none;
  match_method = MatchMethod.auto_trade_placed;
  match_confidence = 100;
  created_at = created_at;
  cancelled_at = none;
}

-- The broker's orders: ids, client order ids and statuses.
abbrev pub Orders : Type 0
Orders = List (ℕ × Text × OrderStatus)

abbrev look_up : ℕ → Orders → Option OrderConfirmation
look_up i [] = none
look_up i ((j, id, status) ∷ orders) =
    if i == j
    then some (record { broker_order_id = j; client_order_id = some id; status = status })
    else look_up i orders

abbrev cancel_in : ℕ → Orders → Orders
cancel_in i [] = []
cancel_in i ((j, id, status) ∷ orders) =
    if i == j then (j, id, OrderStatus.canceled) ∷ orders else (j, id, status) ∷ cancel_in i orders

abbrev count_orders : Orders → ℕ
count_orders [] = 0
count_orders (o ∷ orders) = count_orders orders + 1

abbrev new_order : OrderRequest → Orders → OrderConfirmation
new_order req orders = record {
  broker_order_id = count_orders orders + 100;
  client_order_id = some req.client_order_id;
  status = OrderStatus.accepted;
}

abbrev pub adapter : Adapter Orders
adapter = record {
  paper = some true;
  buying_power_usd = λ orders. (some 100000000, orders);
  submit_order = λ req orders. (
    confirmed (new_order req orders),
    (count_orders orders + 100, req.client_order_id, OrderStatus.accepted) ∷ orders,
  );
  get_order = λ i orders. (look_up i orders, orders);
  cancel_order = λ i orders. (true, cancel_in i orders);
  list_closed_orders = λ orders. (some [], orders);
}

abbrev pub env : Env Orders
env = record { adapter = adapter; broker = []; account = 1; now = now }

abbrev pub caps : Caps
caps = record {
  per_order_max_usd = 5000000;
  per_day_max_usd = 6000000;
  per_week_max_usd_per_ticker = 6000000;
  per_day_max_orders = 5;
  effective_from = 0;
  effective_to = none;
}

abbrev pub first : Suggestion
first = suggestion 1 7 2 1000000

abbrev pub second : Suggestion
second = suggestion 2 8 1 3000000

abbrev pub third : Suggestion
third = suggestion 3 9 1 3000000

-- An order of the first suggestion was cancelled the week before, another ticker's is working.
abbrev pub db_in : Mode → Db
db_in mode = record {
  suggestions = first ∷ second ∷ third ∷ [];
  executions =
      execution 1 1 7 2 1000000 50 ExecutionStatus.broker_cancelled (9 * day)
      ∷ execution 2 9 8 1 1000000 51 ExecutionStatus.accepted_for_routing (9 * day)
      ∷ [];
  next_execution = 3;
  next_suggestion = 4;
  states =
      record {
        broker_account_id = 1;
        mode = mode;
        promoted_at = none;
        last_kill_switch_event = none;
      }
      ∷ [];
  caps = caps ∷ [];
  kill_log = [];
  promotion_log = [];
}

abbrev pub start : Mode → State Orders
start mode = record {
  db = db_in mode;
  broker = (50, b's' ∷ [], OrderStatus.canceled) ∷ (51, b't' ∷ [], OrderStatus.new) ∷ [];
  alerts = [];
}

unfoldable pub program : Unit {0}
unfolding run_auto_trade_pass rounds round guards check_idempotency check_stale_live_order
    check_wash_sale check_caps check_cash_sufficiency settle_stales reconcile_stales reconcile_stale
    day_spend ticker_week_spend day_order_count trigger_kill_switch cancel_all cancel_recent
    dry_run_round settle place adopt_or_place live_round get_mode get_active_caps
    fetch_accepted_unexecuted next_client_order_id set_mode format decimal digits same_text
    assert_paper_only
program = tt
