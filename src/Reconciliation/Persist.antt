-- ===== src/Reconciliation/Persist.antt =====
-- `persist_reconciliation` of services/reconciliation.py: the rows that are kept of the matched
-- fills. The unique constraint of the table is not modelled.
use me_invest_paper.Base.{
  ℕ, Bool, true, false, ◌&&◌, not, Option, none, some, List, [], ◌∷◌, ◌==◌, find?, holds,
  if◌then◌else◌,
}
use me_invest_paper.Store.{
  Text, SuggestionStatus, Execution, ExecutionStatus, MatchMethod, Db, is_buy, is_accepted, truthy,
  set_execution, set_suggestion, add_execution,
}
use me_invest_paper.Broker.{Activity, ActivityStatus}
use me_invest_paper.Unaccept.{get_suggestion}
use me_invest_paper.Reconciliation.Matching.{MatchResult}
use me_invest_paper.Reconciliation.Pnl.{compute_realized_pnl}

abbrev pub execution_status : ActivityStatus → ExecutionStatus
execution_status ActivityStatus.filled = ExecutionStatus.filled
execution_status ActivityStatus.partially_filled = ExecutionStatus.partially_filled
execution_status ActivityStatus.rejected = ExecutionStatus.rejected
execution_status ActivityStatus.expired = ExecutionStatus.expired
execution_status ActivityStatus.canceled = ExecutionStatus.canceled

abbrev pub is_filled_activity : ActivityStatus → Bool
is_filled_activity ActivityStatus.filled = true
is_filled_activity _ = false

abbrev pub is_auto_matched : MatchMethod → Bool
is_auto_matched MatchMethod.auto_matched = true
is_auto_matched _ = false

-- The rows that stand for an order of the account.
abbrev pub is_row_of : ℕ → ℕ → Execution → Bool
is_row_of account boid e =
    holds e.broker_order_id boid && e.broker_account_id == account && not e.dry_run

-- The assignments to an existing row.
abbrev pub with_fill : Activity → Execution → Execution
with_fill act e = record e {
  filled_qty = act.filled_qty;
  filled_price = some act.filled_price;
  filled_at = act.filled_at;
  status = execution_status act.status;
}

-- The fill onto an existing row, and the profit of a sale from the rows as they are then.
unfoldable pub fill_row : Activity → ℕ → Db → Db
fill_row act id db =
    let db₁ = set_execution id (with_fill act) db in
    if is_buy act.side
    then db₁
    else set_execution id (λ e. record e { realized_pnl_usd = compute_realized_pnl db₁ act }) db₁

-- The suggestion is filled, if it was still accepted.
unfoldable pub fill_suggestion : ℕ → Option ℕ → Db → Db
fill_suggestion sid at db = elim (get_suggestion sid db) [
  | none ↦ db
  | some sug ↦
      if is_accepted sug.status
      then set_suggestion sug.id (λ s. record s { status = SuggestionStatus.filled; acted_at = at })
          db
      else db
]

-- The suggestion of a complete, certain fill.
unfoldable pub flip : MatchResult → Db → Db
flip r db = elim r.suggestion_id [
  | none ↦ db
  | some sid ↦
      if truthy (some sid) && is_auto_matched r.method && is_filled_activity r.activity.status
      then fill_suggestion sid r.activity.filled_at db
      else db
]

module _ (broker : Text) (account now : ℕ) where
  abbrev pub new_row : MatchResult → Db → ℕ → Execution
  new_row r db id =
      let act = r.activity in
      record {
        id = id;
        broker_account_id = account;
        suggestion_id = r.suggestion_id;
        ticker = act.ticker;
        side = act.side;
        submitted_qty = none;
        filled_qty = act.filled_qty;
        limit_price = none;
        filled_price = some act.filled_price;
        filled_at = act.filled_at;
        broker = broker;
        broker_order_id = some act.broker_order_id;
        client_order_id = act.client_order_id;
        dry_run = false;
        status = execution_status act.status;
        realized_pnl_usd = if is_buy act.side then none else compute_realized_pnl db act;
        match_method = r.method;
        match_confidence = r.confidence;
        created_at = now;
        cancelled_at = none;
      }

  unfoldable pub upsert : MatchResult → Db → Db
  upsert r db = elim (find? (is_row_of account r.activity.broker_order_id) db.executions) [
    | some existing ↦ fill_row r.activity existing.id db
    | none ↦ add_execution (new_row r db) db
  ]

  unfoldable pub persist_reconciliation : List MatchResult → Db → Db
  persist_reconciliation [] db = db
  persist_reconciliation (r ∷ rs) db = persist_reconciliation rs (flip r (upsert r db))
