-- ===== src/Unaccept.antt =====
-- services/unaccept.py: taking back the acceptance of a suggestion.
pub mod Laws
pub mod Answers
mod Tests
use me_invest_paper.Base.{
  ℕ, Bool, true, false, ◌&&◌, not, Option, none, some, ◌==◌, holds, present, filter, find?,
  latest_by, if◌then◌else◌,
}
use me_invest_paper.Store.{
  Suggestion, SuggestionStatus, Execution, Db, is_accepted, set_execution, set_suggestion,
}
use me_invest_paper.Broker.{Adapter}
use me_invest_paper.Orders.{CancelOutcome, cancel_working_execution}

pub data UnacceptResult : Type 0 where
  cancelled partial filled not_actionable not_found : UnacceptResult

-- `session.get(OrderSuggestion, id)`
abbrev pub get_suggestion : ℕ → Db → Option Suggestion
get_suggestion i db = find? (λ s. s.id == i) db.suggestions

abbrev pub is_placed_for : ℕ → ℕ → Execution → Bool
is_placed_for sid account e =
    holds e.suggestion_id sid
    && e.broker_account_id == account
    && not e.dry_run
    && present e.broker_order_id

abbrev pub cancel_suggestion : ℕ → ℕ → Db → Db
cancel_suggestion now sid db =
    set_suggestion sid (λ s. record s { status = SuggestionStatus.cancelled; acted_at = some now })
      db

module _ {W : Type 0} (adapter : Adapter W) (now : ℕ) where
  -- The broker's side, for the latest execution that has an order.
  unfoldable pub cancel_latest : Option Execution → Db → W → CancelOutcome × Db × W
  cancel_latest none db w = (CancelOutcome.cancelled, db, w)
  cancel_latest (some e) db w = elim e.broker_order_id [
    | none ↦ (CancelOutcome.cancelled, db, w)
    | some boid ↦
        let (outcome, e', w') = cancel_working_execution adapter boid e w in
        (outcome, set_execution e.id (λ x. record x { status = e'.status }) db, w')
  ]

  -- What becomes of the suggestion, by the outcome at the broker.
  unfoldable pub conclude_unaccept : ℕ → CancelOutcome → Db → UnacceptResult × Db
  conclude_unaccept sid CancelOutcome.already_filled db = (UnacceptResult.filled, db)
  conclude_unaccept sid CancelOutcome.partial db =
      (UnacceptResult.partial, cancel_suggestion now sid db)
  conclude_unaccept sid _ db = (UnacceptResult.cancelled, cancel_suggestion now sid db)

  unfoldable pub unaccept_suggestion : ℕ → ℕ → Db → W → UnacceptResult × Db × W
  unaccept_suggestion sid account db w = elim (get_suggestion sid db) [
    | none ↦ (not_found, db, w)
    | some sug ↦
        if not (sug.broker_account_id == account)
        then (not_found, db, w)
        else if not (is_accepted sug.status)
        then (not_actionable, db, w)
        else let latest =
            latest_by (λ e. e.created_at) (filter (is_placed_for sug.id account) db.executions) in
          let (outcome, db₁, w₁) = cancel_latest latest db w in
          let (result, db₂) = conclude_unaccept sug.id outcome db₁ in (result, db₂, w₁)
  ]
