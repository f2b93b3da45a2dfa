-- ===== src/Expiry.antt =====
-- jobs/suggestion_expiry.py: the daily sweep of suggestions past their expiry.
pub mod Laws
mod Tests
use me_invest_paper.Base.{
  ℕ, Bool, true, false, ◌&&◌, not, Option, none, some, List, [], ◌∷◌, ◌==◌, ltb, holds, present,
  filter, find?,
}
use me_invest_paper.Store.{
  Suggestion, SuggestionStatus, Execution, Db, is_accepted, is_pending, set_execution,
  set_suggestion,
}
use me_invest_paper.Broker.{Adapter}
use me_invest_paper.Orders.{cancel_working_execution}
use me_invest_paper.Accounts.{BrokerAccount, AccountInfo, list_active_accounts}

-- `expires_at < now`, which a null does not meet.
abbrev pub is_expired_at : ℕ → Option ℕ → Bool
is_expired_at now none = false
is_expired_at now (some at) = ltb at now

-- `scope`
abbrev pub in_scope : Option ℕ → Suggestion → Bool
in_scope none s = true
in_scope (some account) s = s.broker_account_id == account

abbrev pub is_stale : (SuggestionStatus → Bool) → Option ℕ → ℕ → Suggestion → Bool
is_stale has_status account now s =
    has_status s.status && is_expired_at now s.expires_at && in_scope account s

-- The assignments `sug.status = "expired"; sug.acted_at = now`.
abbrev pub as_expired : ℕ → Suggestion → Suggestion
as_expired now s = record s { status = SuggestionStatus.expired; acted_at = some now }

abbrev pub is_real_for : ℕ → Execution → Bool
is_real_for sid e = holds e.suggestion_id sid && not e.dry_run && present e.broker_order_id

-- The loop over `pending_stale`.
unfoldable pub sweep_pending : ℕ → List Suggestion → Db → Db
sweep_pending now [] db = db
sweep_pending now (sug ∷ sugs) db =
    sweep_pending now sugs (set_suggestion sug.id (as_expired now) db)

module _ {W : Type 0} where
  -- The query for the order has no ORDER BY: the first row in the order of the table.
  unfoldable pub cancel_first : Adapter W → ℕ → Db → W → Db × W
  cancel_first adapter sid db w = elim (find? (is_real_for sid) db.executions) [
    | none ↦ (db, w)
    | some e ↦ elim e.broker_order_id [
      | none ↦ (db, w)
      | some boid ↦
          let (_, e', w') = cancel_working_execution adapter boid e w in
          (set_execution e.id (λ x. record x { status = e'.status }) db, w')
    ]
  ]

  unfoldable pub cancel_if_any : Option (Adapter W) → ℕ → Db → W → Db × W
  cancel_if_any none sid db w = (db, w)
  cancel_if_any (some adapter) sid db w = cancel_first adapter sid db w

  module _ (adapter : Option (Adapter W)) (now : ℕ) where
    -- The loop over `accepted_stale`.
    unfoldable pub sweep_accepted : List Suggestion → Db → W → Db × W
    sweep_accepted [] db w = (db, w)
    sweep_accepted (sug ∷ sugs) db w =
        let (db₁, w₁) = cancel_if_any adapter sug.id db w in
        sweep_accepted sugs (set_suggestion sug.id (as_expired now) db₁) w₁

    unfoldable pub sweep_expired_suggestions : Option ℕ → Db → W → Db × W
    sweep_expired_suggestions account db w =
        let accepted_stale = filter (is_stale is_accepted account now) db.suggestions in
        let (db₁, w₁) = sweep_accepted accepted_stale db w in
        let pending_stale = filter (is_stale is_pending account now) db₁.suggestions in
        (sweep_pending now pending_stale db₁, w₁)

  -- The sweep of each account with its own adapter, the accounts in the order of the list. The
  -- handler of exceptions has nothing to catch: no call of the sweep on a broker raises.
  unfoldable pub sweep_accounts : (ℕ → Option (Adapter W)) → ℕ → List AccountInfo → Db → W → Db × W
  sweep_accounts adapters now [] db w = (db, w)
  sweep_accounts adapters now (acct ∷ accounts) db w =
      let (db₁, w₁) =
        sweep_expired_suggestions (adapters acct.account_ref) now (some acct.account_ref) db w in
      sweep_accounts adapters now accounts db₁ w₁

  unfoldable pub sweep_expired_suggestions_all_brokers :
      (ℕ → Option (Adapter W)) → ℕ → List BrokerAccount → Db → W → Db × W
  sweep_expired_suggestions_all_brokers adapters now rows db w =
      sweep_accounts adapters now (list_active_accounts rows) db w
