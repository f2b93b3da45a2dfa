-- ===== src/Reconciliation/Tests.antt =====
-- Reconciliations of services/reconciliation.py on the small account.
use me_invest_paper.Base.{
  ℕ, ◌*◌, ◌≤◌, ◌≡◌, ◌≢◌, ◌⊎◌, ◌&&◌, ◌==◌, Option, none, some, List, [], ◌∷◌, map, filter, present,
  All, arith,
}
use mathlib.Core.List.{Perm}
use me_invest_paper.Base.Int.{sub_ℕ}
use me_invest_paper.Base.Rows.{Distinct}
use me_invest_paper.Calendar.{day}
use me_invest_paper.ClientId.{format}
use me_invest_paper.Store.{
  Text, Side, Suggestion, Execution, ExecutionStatus, MatchMethod, Mode, Db, is_accepted,
}
use me_invest_paper.Broker.{Activity, ActivityStatus, OrderConfirmation, OrderStatus, Adapter}
use me_invest_paper.Reconciliation.Matching.{MatchResult, reconcile_activities}
use me_invest_paper.Reconciliation.MatchingLaws.{IsJustified, reconcile_activities-IsJustified}
use me_invest_paper.Reconciliation.Pnl.{is_prior_buy, compute_realized_pnl}
use me_invest_paper.Reconciliation.PnlLaws.{
  IsAscending, sum_first, share_prices, compute_realized_pnl_lem,
}
use me_invest_paper.Reconciliation.Persist.{persist_reconciliation}
use me_invest_paper.Reconciliation.PersistLaws.{KeptOrFilled, persist_reconciliation-KeptOrFilled}
use me_invest_paper.Reconciliation.RowLaws.{row_count, persist_reconciliation-row_count}
use me_invest_paper.AutoTrade.Samples.{adapter, now, execution, start, db_in, Orders}

abbrev db : Db
db = db_in Mode.live

abbrev orders : Orders
orders = (start Mode.live).broker

abbrev fill : ℕ → Option Text → Side → ℕ → ℕ → ℕ → Activity
fill boid client_order_id side ticker qty price = record {
  broker_order_id = boid;
  client_order_id = client_order_id;
  ticker = ticker;
  side = side;
  filled_qty = qty;
  filled_price = price;
  filled_at = some now;
  status = ActivityStatus.filled;
}

-- A fill of the engine, one that was ordered by hand, and one that nobody suggested.
abbrev fills : List Activity
fills =
    fill 60 (some (format 1 1)) Side.buy 7 2 1000000
    ∷ fill 61 none Side.buy 8 1 3001000
    ∷ fill 62 none Side.buy 4 1 10000
    ∷ []

abbrev pending : List Suggestion
pending = filter (λ s. is_accepted s.status && s.broker_account_id == 1) db.suggestions

reconcile_activities-IsJustified_example :
    (rs : List MatchResult) × (reconcile_activities 48 50 1 (some fills) db ≡ some rs)
    × (map (λ r. r.activity) rs ≡ filter (λ act. present act.filled_at) fills)
    × All (IsJustified 48 50 pending) rs
reconcile_activities-IsJustified_example =
    reconcile_activities-IsJustified 48 50 1 fills db (omega arith)

abbrev result : ℕ → Activity → MatchResult
result sid act = record {
  suggestion_id = some sid;
  activity = act;
  method = MatchMethod.auto_matched;
  confidence = 100;
}

-- The order of a row that stands, and an order of which there is none.
abbrev results : List MatchResult
results =
    result 9 (fill 51 none Side.buy 8 1 1000000) ∷ result 1 (fill 60 none Side.buy 7 2 1000000) ∷ []

abbrev broker : Text
broker = b'a' ∷ []

persist_reconciliation-KeptOrFilled_example :
    KeptOrFilled 1 results db (persist_reconciliation broker 1 now results db)
persist_reconciliation-KeptOrFilled_example =
    persist_reconciliation-KeptOrFilled broker 1 now 1 results db

db_single : (boid : ℕ) → row_count 1 boid db ≤ 1
db_single boid = ground arith

persist_reconciliation-row_count_example :
    let after = persist_reconciliation broker 1 now results db in
    ((boid : ℕ) → (row_count 1 boid db ≤ row_count 1 boid after) × (row_count 1 boid after ≤ 1))
    × All (λ r. row_count 1 r.activity.broker_order_id after ≡ 1) results
persist_reconciliation-row_count_example =
    persist_reconciliation-row_count broker 1 now results db db_single

-- Two shares were bought at 100, then one at 110.
abbrev lot : ℕ → ℕ → ℕ → ℕ → Execution
lot id qty price at = record (execution id 1 7 qty price id ExecutionStatus.filled at) {
  filled_qty = qty;
  filled_price = some price;
  filled_at = some at;
}

abbrev bought : Db
bought = record db { executions = lot 1 2 1000000 100 ∷ lot 2 1 1100000 50 ∷ [] }

abbrev sale : Activity
sale = fill 70 none Side.sell 7 2 1200000

compute_realized_pnl_lem_example :
    (lots : List Execution) × Perm lots (filter (is_prior_buy sale) bought.executions)
    × IsAscending lots
    × (((lots ≡ []) × (compute_realized_pnl bought sale ≡ none))
        ⊎ ((lots ≢ [])
            × (compute_realized_pnl bought sale
                ≡ some (
                    sub_ℕ
                      (sale.filled_qty * sale.filled_price)
                      (sum_first sale.filled_qty (share_prices lots))))))
compute_realized_pnl_lem_example = compute_realized_pnl_lem bought sale

abbrev sold : Execution
sold = record (lot 3 2 1200000 200) { side = Side.sell }

abbrev closed : List OrderConfirmation
closed = record { broker_order_id = 51; client_order_id = none; status = OrderStatus.expired } ∷ []

abbrev asking : Adapter Orders
asking = record adapter { list_closed_orders = λ os. (some closed, os) }

db-Distinct : Distinct (λ (e : Execution). e.id) db.executions
db-Distinct = omega arith

suggestions-Distinct : Distinct (λ (s : Suggestion). s.id) db.suggestions
suggestions-Distinct = omega arith

-- The order of the first suggestion was cancelled two days ago and not placed again.
abbrev lapsed : Db
lapsed = record db {
  executions =
      record (execution 1 1 7 2 1000000 50 ExecutionStatus.broker_cancelled (9 * day)) {
        cancelled_at = some (9 * day);
      }
      ∷ [];
}
