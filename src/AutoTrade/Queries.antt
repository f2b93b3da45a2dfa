-- ===== src/AutoTrade/Queries.antt =====
-- The queries of services/auto_trade.py.
use me_invest_paper.Base.{
  ℕ, Bool, true, false, ◌&&◌, not, Option, none, some, List, [], ◌∷◌, ◌++◌, ◌==◌, holds, present,
  any, filter, find?, total, latest_by,
}
use me_invest_paper.Base.Rows.{update}
use me_invest_paper.Calendar.{current_week_monday}
use me_invest_paper.ClientId.{format}
use me_invest_paper.Store.{
  Text, Suggestion, Execution, Mode, off, Caps, Db, is_accepted, is_broker_cancelled,
}

-- A real execution of the suggestion that the broker has cancelled.
abbrev pub is_cancelled_for : ℕ → Execution → Bool
is_cancelled_for sid e = holds e.suggestion_id sid && not e.dry_run && is_broker_cancelled e.status

unfoldable pub next_client_order_id : Db → Suggestion → Text
next_client_order_id db sug = format sug.id (total (is_cancelled_for sug.id) (λ _. 1) db.executions)

-- A stored mode that is none of the three reads as `off` too.
unfoldable pub get_mode : Db → ℕ → Mode
get_mode db account = elim (find? (λ s. s.broker_account_id == account) db.states) [
  | none ↦ off
  | some s ↦ s.mode
]

abbrev pub has_state : Db → ℕ → Bool
has_state db account = any (λ s. s.broker_account_id == account) db.states

unfoldable pub set_mode : Db → ℕ → Mode → Db
set_mode db account mode = record db {
  states = elim (has_state db account) [
    | true ↦ update (λ s. s.broker_account_id) account (λ s. record s { mode = mode }) db.states
    | false ↦
        db.states
        ++ record {
          broker_account_id = account;
          mode = mode;
          promoted_at = none;
          last_kill_switch_event = none;
        }
          ∷ []
  ];
}

unfoldable pub get_active_caps : Db → Option Caps
get_active_caps db =
    latest_by (λ c. c.effective_from) (filter (λ c. not (present c.effective_to)) db.caps)

-- A real execution of the suggestion that still counts.
abbrev pub is_active_for : ℕ → Execution → Bool
is_active_for sid e =
    holds e.suggestion_id sid && not e.dry_run && not (is_broker_cancelled e.status)

abbrev pub is_tradable : ℕ → ℕ → Suggestion → Bool
is_tradable account monday sug =
    is_accepted sug.status && sug.week_of == monday && sug.broker_account_id == account

unfoldable pub fetch_accepted_unexecuted : Db → ℕ → ℕ → List Suggestion
fetch_accepted_unexecuted db account ref_date =
    filter (λ sug. not (any (is_active_for sug.id) db.executions))
      (filter (is_tradable account (current_week_monday ref_date)) db.suggestions)
