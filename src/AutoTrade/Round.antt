-- ===== src/AutoTrade/Round.antt =====
-- The body of the loop of `run_auto_trade_pass` in services/auto_trade.py.
use me_invest_paper.Base.{
  ℕ, Bool, true, false, ◌&&◌, not, Option, none, some, [], ◌∷◌, present, if◌then◌else◌, filter,
  latest_by,
}
use me_invest_paper.Store.{
  Text, Suggestion, Execution, ExecutionStatus, MatchMethod, Mode, Trigger, Caps, Db, broker_error,
  readback_mismatch, readback_failed, set_execution, add_execution,
}
use me_invest_paper.Broker.{
  OrderRequest, TimeInForce, OrderConfirmation, confirmed, validation_error, error,
}
use me_invest_paper.Safety.{assert_paper_only}
use me_invest_paper.ClientId.{format, same_text}
use me_invest_paper.AutoTrade.State.{State, Env, GuardReason, ok, guard_failure, raised, Action}
use me_invest_paper.AutoTrade.Queries.{next_client_order_id, is_cancelled_for}
use me_invest_paper.AutoTrade.Guards.{is_live_status, is_dry_run, guards}
use me_invest_paper.AutoTrade.KillSwitch.{trigger_kill_switch}

pub data RejectedReason : Type 0 where
  guard : GuardReason → RejectedReason
  broker_validation : RejectedReason
  kill_switch : Trigger → RejectedReason

pub record Outcome : Type 0 where
  pub suggestion_id : ℕ
  pub placed : Bool
  pub dry_run : Bool
  pub broker_order_id : Option ℕ
  pub rejected_reason : Option RejectedReason

-- How a round of the loop ends: it goes on, or it breaks off.
pub data Round : Type 0 where
  next : Outcome → Round
  break : Outcome → Round

abbrev pub dry_run_broker : Text
dry_run_broker = b'd' ∷ b'r' ∷ b'y' ∷ b'_' ∷ b'r' ∷ b'u' ∷ b'n' ∷ []

module _ {W : Type 0} (env : Env W) (sug : Suggestion) where
  abbrev pub placement : Text → Bool → Option ℕ → Text → ExecutionStatus → ℕ → Execution
  placement broker dry boid client_order_id status i = record {
    id = i;
    broker_account_id = env.account;
    suggestion_id = some sug.id;
    ticker = sug.ticker;
    side = sug.side;
    submitted_qty = some sug.qty;
    filled_qty = 0;
    limit_price = some sug.limit_price;
    filled_price = none;
    filled_at = none;
    broker = broker;
    broker_order_id = boid;
    client_order_id = some client_order_id;
    dry_run = dry;
    status = status;
    realized_pnl_usd = none;
    match_method = MatchMethod.auto_trade_placed;
    match_confidence = 100;
    created_at = env.now;
    cancelled_at = none;
  }

  abbrev pub placed_as : Bool → Option ℕ → Outcome
  placed_as dry boid = record {
    suggestion_id = sug.id;
    placed = true;
    dry_run = dry;
    broker_order_id = boid;
    rejected_reason = none;
  }

  abbrev pub refused_as : Bool → Option ℕ → RejectedReason → Outcome
  refused_as dry boid reason = record {
    suggestion_id = sug.id;
    placed = false;
    dry_run = dry;
    broker_order_id = boid;
    rejected_reason = some reason;
  }

  -- The kill switch fires and the loop breaks off.
  abbrev pub kill : Trigger → Option ℕ → State W → Round × State W
  kill trigger boid s =
      (break (refused_as false boid (kill_switch trigger)), trigger_kill_switch env trigger s)

  abbrev pub echoes : Option Text → Text → Bool
  echoes none t = false
  echoes (some u) t = same_text u t

  unfoldable pub dry_run_round : State W → Round × State W
  dry_run_round s = (
    next (placed_as true none),
    record s {
      db =
          add_execution
            (placement dry_run_broker true none (format sug.id 0) ExecutionStatus.dry_run) s.db;
    },
  )

  -- The read-back of an order that the broker has confirmed, and the new row.
  unfoldable pub settle : Text → OrderConfirmation → State W → Round × State W
  settle client_order_id conf s =
      let (answer, w) = env.adapter.get_order conf.broker_order_id s.broker in
      let s' = record s { broker = w } in
      elim answer [
        | none ↦ kill readback_failed (some conf.broker_order_id) s'
        | some readback ↦
            if echoes readback.client_order_id client_order_id
            then (
              next (placed_as false (some conf.broker_order_id)),
              record s' {
                db =
                    add_execution
                      (placement env.broker false (some conf.broker_order_id) client_order_id
                        ExecutionStatus.accepted_for_routing)
                      s'.db;
              },
            )
            else kill readback_mismatch (some conf.broker_order_id) s'
      ]

  abbrev pub request : Text → OrderRequest
  request client_order_id = record {
    client_order_id = client_order_id;
    ticker = sug.ticker;
    side = sug.side;
    qty = sug.qty;
    limit_price = sug.limit_price;
    time_in_force = TimeInForce.gtc;
  }

  -- A fresh order. `LiveTradingBlocked` is caught like any error of the broker.
  unfoldable pub place : State W → Round × State W
  place s =
      let client_order_id = next_client_order_id s.db sug in
      if not (assert_paper_only env.adapter.paper)
      then kill broker_error none s
      else let (answer, w) = env.adapter.submit_order (request client_order_id) s.broker in
        let s' = record s { broker = w } in
        elim answer [
          | validation_error ↦ (next (refused_as false none broker_validation), s')
          | error ↦ kill broker_error none s'
          | confirmed conf ↦ settle client_order_id conf s'
        ]

  abbrev pub is_readoptable : Execution → Bool
  is_readoptable e = is_cancelled_for sug.id e && present e.broker_order_id

  abbrev pub readopt : Execution → Execution
  readopt e = record e { status = ExecutionStatus.accepted_for_routing; created_at = env.now }

  -- The latest cancelled order of the suggestion, if the broker still works it, is adopted again.
  unfoldable pub adopt_or_place : Execution → Option ℕ → State W → Round × State W
  adopt_or_place e none s = place s
  adopt_or_place e (some boid) s =
      let (answer, w) = env.adapter.get_order boid s.broker in
      let s' = record s { broker = w } in
      elim answer [
        | none ↦ place s'
        | some prev ↦
            if is_live_status prev.status
            then (
              next (placed_as false (some boid)),
              record s' { db = set_execution e.id readopt s'.db },
            )
            else place s'
      ]

  abbrev pub last_cancelled : Db → Option Execution
  last_cancelled db = latest_by (λ e. e.created_at) (filter is_readoptable db.executions)

  unfoldable pub live_round : State W → Round × State W
  live_round s = elim (last_cancelled s.db) [
    | none ↦ place s
    | some e ↦ adopt_or_place e e.broker_order_id s
  ]

  -- What follows the guards: the outcome of a failed one, or the placement.
  abbrev pub conclude : Mode → Action W Unit → Action W Round
  conclude mode guarded s =
      let (r, s') = guarded s in
      elim r [
        | raised ↦ (raised, s')
        | guard_failure g ↦ (ok (next (refused_as (is_dry_run mode) none (guard g))), s')
        | ok _ ↦
            let (outcome, s'') = if is_dry_run mode then dry_run_round s' else live_round s' in
            (ok outcome, s'')
      ]

  unfoldable pub round : Option Caps → Mode → Action W Round
  round caps mode = conclude mode (guards env caps mode sug)
