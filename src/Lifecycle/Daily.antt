-- ===== src/Lifecycle/Daily.antt =====
-- The daily reconciliation of jobs/reconciliation.py goes along the diagram.
use me_invest_paper.Base.{
  ℕ, refl, inl, inr, Option, none, some, List, [], ◌∷◌, filter, Bool-cases, Option-cases,
}
use me_invest_paper.Store.{Execution, Db, set_execution}
use me_invest_paper.Broker.{Activity, Adapter, OrderConfirmation}
use me_invest_paper.Accounts.{BrokerAccount, AccountInfo, list_active_accounts}
use me_invest_paper.Reconciliation.Matching.{MatchResult}
use me_invest_paper.Reconciliation.Persist.{persist_reconciliation}
use me_invest_paper.Reconciliation.Sync.{
  is_open_execution, has_ended, as_ended, mark_ended, poll, sync_open_order_statuses,
  infer_manual_cancels,
}
use me_invest_paper.Jobs.{
  Desk, book, book_if, run_daily_reconciliation_for_account, reconcile_each,
  run_daily_reconciliation_all_brokers,
}
use me_invest_paper.Targets.Dropping.{SameRows}
use me_invest_paper.Lifecycle.Changes.{Goes, Goes-same, Goes-trans}
use me_invest_paper.Lifecycle.Sweeps.{persist_reconciliation-Goes, infer_manual_cancels-Goes}

mark_ended-SameRows :
    (now : ℕ) (closed : List OrderConfirmation) (es : List Execution) (db : Db)
    → SameRows db (mark_ended now closed es db).1
unfolding mark_ended
mark_ended-SameRows now closed [] db = (refl, refl)
mark_ended-SameRows now closed (e ∷ es) db = elim (Bool-cases (has_ended closed e)) [
  | inl t ↦
      rw (t, mark_ended) (mark_ended-SameRows now closed es (set_execution e.id (as_ended now) db))
  | inr f ↦ rw (f, mark_ended) (mark_ended-SameRows now closed es db)
]

module _ {W : Type 0} where
  poll-SameRows :
      (adapter : Adapter W) (now : ℕ) (es : List Execution) (db : Db) (w : W)
      → SameRows db (poll adapter now es db w).1
  unfolding poll
  poll-SameRows adapter now [] db w = (refl, refl)
  poll-SameRows adapter now (e ∷ es) db w = elim (Option-cases (adapter.list_closed_orders w).0) [
    | inl silent ↦ rw (silent, poll) (refl, refl)
    | inr (closed, answer) ↦ rw (answer, poll) (mark_ended-SameRows now closed (e ∷ es) db)
  ]

  sync-SameRows :
      (adapter : Adapter W) (now account : ℕ) (db : Db) (w : W)
      → SameRows db (sync_open_order_statuses adapter now account db w).1
  unfolding sync_open_order_statuses
  sync-SameRows adapter now account db w =
      poll-SameRows adapter now (filter (is_open_execution account) db.executions) db w

  module _ (get_activities : ℕ → ℕ → W → Option (List Activity) × W)
      (adapters : ℕ → Option (Adapter W)) (inference_hours max_days now : ℕ) where
    book-Goes :
        (adapter : Adapter W) (account : AccountInfo) (results : List MatchResult) (desk : Desk W)
        (w : W)
        → Goes desk.db
            (book get_activities adapters inference_hours max_days now adapter account results desk
              w).db
    book-Goes adapter account results desk w =
        let ref = account.account_ref in
        let db₁ = persist_reconciliation account.broker ref now results desk.db in
        let (_, db₂, _) = sync_open_order_statuses adapter now ref db₁ w in
        let (same, key) = sync-SameRows adapter now ref db₁ w in
        let booked = persist_reconciliation-Goes account.broker ref now results desk.db in
        let synced : Goes desk.db db₂ =
          Goes-trans {a = desk.db} {b = db₁} {c = db₂} booked (Goes-same db₁ db₂ same key) in
        Goes-trans {a = desk.db} {b = db₂}
          {c = (infer_manual_cancels now inference_hours ref db₂).1} synced
          (infer_manual_cancels-Goes now inference_hours ref db₂)

    book_if-Goes :
        (adapter : Adapter W) (account : AccountInfo) (o : Option (List MatchResult))
        (desk : Desk W) (w : W)
        → Goes desk.db
            (book_if get_activities adapters inference_hours max_days now adapter account o desk
              w).1.db
    book_if-Goes adapter account none desk w = Goes-same desk.db desk.db refl refl
    book_if-Goes adapter account (some results) desk w = book-Goes adapter account results desk w

    for_account-Goes :
        (adapter : Adapter W) (account : AccountInfo) (desk : Desk W)
        → Goes desk.db
            (run_daily_reconciliation_for_account get_activities adapters inference_hours max_days
              now adapter account desk).1.db
    unfolding run_daily_reconciliation_for_account
    for_account-Goes adapter account desk = book_if-Goes adapter account _ desk _

    each-Goes :
        (accounts : List AccountInfo) (desk : Desk W)
        → Goes desk.db
            (reconcile_each get_activities adapters inference_hours max_days now accounts desk).db
    unfolding reconcile_each
    each-Goes [] desk = Goes-same desk.db desk.db refl refl
    each-Goes (account ∷ accounts) desk = elim (Option-cases (adapters account.account_ref)) [
      | inl unknown ↦ rw (unknown, reconcile_each) (each-Goes accounts desk)
      | inr (adapter, known) ↦
          let desk₁ =
            (run_daily_reconciliation_for_account get_activities adapters inference_hours max_days
              now adapter account desk).1 in
          rw (known, reconcile_each)
            (Goes-trans {a = desk.db} {b = desk₁.db} {c = _} (for_account-Goes adapter account desk)
              (each-Goes accounts desk₁))
    ]

    pub daily_reconciliation-Goes :
        (rows : List BrokerAccount) (desk : Desk W)
        → Goes desk.db
            (run_daily_reconciliation_all_brokers get_activities adapters inference_hours max_days
              now rows desk).db
    unfolding run_daily_reconciliation_all_brokers
    daily_reconciliation-Goes rows desk = each-Goes (list_active_accounts rows) desk
