-- ===== src/Jobs.antt =====
-- The daily reconciliation of jobs/reconciliation.py, account by account. The broker's list of
-- activities from a time on is a parameter, where none is an exception; the settings give the limits.
pub mod Windows
mod Tests
use me_invest_paper.Base.{
  ℕ, zero, suc, ◌+◌, ◌-◌, ◌*◌, Bool, true, false, ◌&&◌, not, Option, none, some, List, [], ◌∷◌, map,
  min, max, ◌==◌, ltb, filter, if◌then◌else◌,
}
use me_invest_paper.Calendar.{day}
use me_invest_paper.Store.{Text, Execution, Db, is_routing}
use me_invest_paper.Broker.{Activity, Adapter}
use me_invest_paper.Accounts.{BrokerAccount, AccountInfo, list_active_accounts}
use me_invest_paper.Reconciliation.Matching.{MatchResult, reconcile_activities}
use me_invest_paper.Reconciliation.Persist.{persist_reconciliation}
use me_invest_paper.Reconciliation.Sync.{sync_open_order_statuses, infer_manual_cancels}

-- An order of the account that is still open.
abbrev pub is_still_open : ℕ → Execution → Bool
is_still_open account e = e.broker_account_id == account && is_routing e.status && not e.dry_run

-- The earliest of the times, `ORDER BY created_at ASC LIMIT 1`.
abbrev pub earliest : List ℕ → Option ℕ
earliest [] = none
earliest (t ∷ ts) = elim (earliest ts) [ none ↦ some t | some u ↦ some (min t u) ]

-- An hour before the last run, or seven days before now.
abbrev pub since_last : ℕ → Option ℕ → ℕ
since_last now none = now - 7 * day
since_last now (some last) = last - 3600

abbrev pub reach_back : Option ℕ → ℕ → ℕ
reach_back none since = since
reach_back (some oldest) since = min since (oldest - 3600)

-- The start of the window, not before the cap.
unfoldable pub window_start : ℕ → ℕ → ℕ → Option ℕ → List Execution → ℕ
window_start now max_days account last executions =
    let cap = now - max_days * day in
    let oldest = earliest (map (λ e. e.created_at) (filter (is_still_open account) executions)) in
    let since = reach_back oldest (since_last now last) in if ltb since cap then cap else since

-- What a job works on: the tables, the times of the last runs by account, and the brokers.
pub record Desk (W : Type 0) : Type 0 where
  pub db : Db
  pub last_runs : ℕ → Option ℕ
  pub brokers : W

abbrev pub ran_at : ℕ → ℕ → (ℕ → Option ℕ) → ℕ → Option ℕ
ran_at account now last_runs ref = if ref == account then some now else last_runs ref

module _ {W : Type 0} (get_activities : ℕ → ℕ → W → Option (List Activity) × W)
    (adapters : ℕ → Option (Adapter W)) (inference_hours max_days now : ℕ) where
  -- The second session, from the matched activities on.
  abbrev pub book : Adapter W → AccountInfo → List MatchResult → Desk W → W → Desk W
  book adapter account results desk w =
      let db₁ = persist_reconciliation account.broker account.account_ref now results desk.db in
      let (synced, db₂, w₂) = sync_open_order_statuses adapter now account.account_ref db₁ w in
      let (inferred, db₃) = infer_manual_cancels now inference_hours account.account_ref db₂ in
      record { db = db₃; last_runs = ran_at account.account_ref now desk.last_runs; brokers = w₂ }

  -- An exception undoes the session, but not what the broker did.
  abbrev pub book_if :
      Adapter W → AccountInfo → Option (List MatchResult) → Desk W → W → Bool × Desk W
  book_if adapter account none desk w = (false, record desk { brokers = w })
  book_if adapter account (some results) desk w = (true, book adapter account results desk w)

  -- Whether the run came to its end, and what it left.
  unfoldable pub run_daily_reconciliation_for_account :
      Adapter W → AccountInfo → Desk W → Bool × Desk W
  run_daily_reconciliation_for_account adapter account desk =
      let ref = account.account_ref in
      let since = window_start now max_days ref (desk.last_runs ref) desk.db.executions in
      let (activities, w) = get_activities ref since desk.brokers in
      book_if adapter account (reconcile_activities 48 50 ref activities desk.db) desk w

  -- The loop: an account without an adapter is passed over, and one that fails does not stop the rest.
  unfoldable pub reconcile_each : List AccountInfo → Desk W → Desk W
  reconcile_each [] desk = desk
  reconcile_each (account ∷ accounts) desk = elim (adapters account.account_ref) [
    | none ↦ reconcile_each accounts desk
    | some adapter ↦
        reconcile_each accounts (run_daily_reconciliation_for_account adapter account desk).1
  ]

  unfoldable pub run_daily_reconciliation_all_brokers : List BrokerAccount → Desk W → Desk W
  run_daily_reconciliation_all_brokers rows desk = reconcile_each (list_active_accounts rows) desk
