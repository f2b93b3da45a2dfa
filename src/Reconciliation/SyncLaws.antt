-- ===== src/Reconciliation/SyncLaws.antt =====
-- What `sync_open_order_statuses` and `infer_manual_cancels` of services/reconciliation.py promise.
use me_invest_paper.Base.{
  ℕ, suc, ◌≡◌, refl, ap, ◌∙◌, inl, inr, Bool, ◌&&◌, some, List, [], ◌∷◌, map, ◌==◌, length, filter,
  Bool-cases,
}
use me_invest_paper.Base.Rows.{Distinct}
use me_invest_paper.Base.Sweeps.{filter-filter, when, updates, updates-filter}
use me_invest_paper.Store.{Suggestion, Execution, Db, is_accepted, set_execution, set_suggestion}
use me_invest_paper.Broker.{OrderConfirmation, Adapter}
use me_invest_paper.Reconciliation.Sync.{
  is_open_execution, has_ended, as_ended, mark_ended, poll, sync_open_order_statuses, as_inferred,
  is_inferred, infer_each, infer_manual_cancels,
}

mark_ended_lem :
    (now : ℕ) (closed : List OrderConfirmation) (es : List Execution) (db : Db)
    → let (n, db') = mark_ended now closed es db in
      (n ≡ length (filter (has_ended closed) es))
      × (db'.executions
          ≡ updates (λ e. e.id) (as_ended now) (filter (has_ended closed) es) db.executions)
      × (db'.suggestions ≡ db.suggestions)
unfolding mark_ended
mark_ended_lem now closed [] db = (refl, refl, refl)
mark_ended_lem now closed (e ∷ es) db = elim (Bool-cases (has_ended closed e)) [
  | inl t ↦
      let (n, rows, kept) = mark_ended_lem now closed es (set_execution e.id (as_ended now) db) in
      rw (t, mark_ended) (ap suc n, rows, kept)
  | inr f ↦ rw (f, mark_ended) (mark_ended_lem now closed es db)
]

abbrev pub is_ended_open : ℕ → List OrderConfirmation → Execution → Bool
is_ended_open account closed e = is_open_execution account e && has_ended closed e

module _ {W : Type 0} (adapter : Adapter W) (now : ℕ) where
  poll_lem :
      (es : List Execution) (db : Db) (w : W) (closed : List OrderConfirmation)
      → (adapter.list_closed_orders w).0 ≡ some closed
      → let (n, db', _) = poll adapter now es db w in
        (n ≡ length (filter (has_ended closed) es))
        × (db'.executions
            ≡ updates (λ e. e.id) (as_ended now) (filter (has_ended closed) es) db.executions)
        × (db'.suggestions ≡ db.suggestions)
  unfolding poll
  poll_lem [] db w closed answer = (refl, refl, refl)
  poll_lem (e ∷ es) db w closed answer = rw (answer, poll) (mark_ended_lem now closed (e ∷ es) db)

  -- Where no key stands twice, and the broker answers with its closed orders, the executions afterwards are those before, in
  -- their order, except that each open one of the account whose order is over by a terminal status is
  -- marked as cancelled at the broker, now; their number is returned, and no suggestion changes.
  pub sync_open_order_statuses_lem :
      (account : ℕ) (db : Db) (w : W) (closed : List OrderConfirmation)
      → Distinct (λ (e : Execution). e.id) db.executions
      → (adapter.list_closed_orders w).0 ≡ some closed
      → let (updated, db', _) = sync_open_order_statuses adapter now account db w in
        (updated ≡ length (filter (is_ended_open account closed) db.executions))
        × (db'.executions ≡ map (when (is_ended_open account closed) (as_ended now)) db.executions)
        × (db'.suggestions ≡ db.suggestions)
  unfolding sync_open_order_statuses
  sync_open_order_statuses_lem account db w closed distinct answer =
      let open_execs = filter (is_open_execution account) db.executions in
      let (n, rows, kept) = poll_lem open_execs db w closed answer in
      let both = filter-filter (has_ended closed) (is_open_execution account) db.executions in
      (
        n ∙ ap length both,
        rows
            ∙ ap (λ l. updates (λ e. e.id) (as_ended now) l db.executions) both
            ∙ updates-filter (λ e. e.id) (as_ended now) (λ _. refl) (is_ended_open account closed)
                db.executions distinct,
        kept,
      )

infer_each_lem :
    (now hours : ℕ) (ss : List Suggestion) (db : Db)
    → let (n, db') = infer_each now hours ss db in
      (n ≡ length (filter (is_inferred now hours db) ss))
      × (db'.suggestions
          ≡ updates
              (λ s. s.id)
              (as_inferred now)
              (filter (is_inferred now hours db) ss)
              db.suggestions)
      × (db'.executions ≡ db.executions)
unfolding infer_each
infer_each_lem now hours [] db = (refl, refl, refl)
infer_each_lem now hours (s ∷ ss) db = elim (Bool-cases (is_inferred now hours db s)) [
  | inl t ↦
      let (n, rows, kept) =
        infer_each_lem now hours ss (set_suggestion s.id (as_inferred now) db) in
      rw (t, infer_each) (ap suc n, rows, kept)
  | inr f ↦ rw (f, infer_each) (infer_each_lem now hours ss db)
]

abbrev pub is_inferred_of : ℕ → ℕ → ℕ → Db → Suggestion → Bool
is_inferred_of now hours account db s =
    (s.broker_account_id == account && is_accepted s.status) && is_inferred now hours db s

-- Where no key stands twice, the suggestions afterwards are those before, in their order, except that each accepted one of the
-- account with no open execution, whose latest real execution was cancelled at the broker more than
-- the given hours ago, is cancelled with a remark; their number is returned, and no execution changes.
pub infer_manual_cancels_lem :
    (now hours account : ℕ) (db : Db)
    → Distinct (λ (s : Suggestion). s.id) db.suggestions
    → let (flipped, db') = infer_manual_cancels now hours account db in
      (flipped ≡ length (filter (is_inferred_of now hours account db) db.suggestions))
      × (db'.suggestions
          ≡ map (when (is_inferred_of now hours account db) (as_inferred now)) db.suggestions)
      × (db'.executions ≡ db.executions)
unfolding infer_manual_cancels
infer_manual_cancels_lem now hours account db distinct =
    let mine = λ (s : Suggestion). s.broker_account_id == account && is_accepted s.status in
    let (n, rows, kept) = infer_each_lem now hours (filter mine db.suggestions) db in
    let both = filter-filter (is_inferred now hours db) mine db.suggestions in
    (
      n ∙ ap length both,
      rows
          ∙ ap (λ l. updates (λ s. s.id) (as_inferred now) l db.suggestions) both
          ∙ updates-filter (λ s. s.id) (as_inferred now) (λ _. refl)
              (is_inferred_of now hours account db) db.suggestions distinct,
      kept,
    )
