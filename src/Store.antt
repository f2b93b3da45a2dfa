-- ===== src/Store.antt =====
-- The rows of models.py that the engines read and write. Identifiers, tickers and broker order ids
-- are only compared, so they are numbers, and the empty order id is 0. A price or an amount of
-- money is a number of ten-thousandths of a dollar, a quantity a number of shares, a confidence a
-- number of hundredths, a size factor one of ten-thousandths, an instant a number of seconds.
use me_invest_paper.Base.{
  ℕ, zero, suc, ◌*◌, ◌+◌, Bool, true, false, Option, none, some, List, [], ◌∷◌, ◌++◌,
}
use me_invest_paper.Base.Int.{ℤ}
use me_invest_paper.Base.Rows.{update}

-- A text is the list of its code points.
abbrev pub Text : Type 0
Text = List ℕ

pub data Side : Type 0 where
  buy sell : Side

pub data Kind : Type 0 where
  regular topup : Kind

pub data SuggestionStatus : Type 0 where
  pending accepted rejected cancelled expired filled : SuggestionStatus

pub record Suggestion : Type 0 where
  pub id : ℕ
  pub broker_account_id : ℕ
  pub week_of : ℕ
  pub ticker : ℕ
  pub side : Side
  pub qty : ℕ
  pub limit_price : ℕ
  pub reason : Text
  pub status : SuggestionStatus
  pub target_allocation_id : Option ℕ
  pub created_at : ℕ
  pub expires_at : Option ℕ
  pub confidence_at_creation : Option ℕ
  pub anchor_method : Option ℕ
  pub acted_at : Option ℕ
  pub note : Text
  pub base_qty : Option ℕ
  pub size_factor : ℕ
  pub context_note : Text
  pub llm_rationale : Text
  pub kind : Kind
  pub is_highlighted : Bool

-- What `order_execution.status` is set to in the source.
pub data ExecutionStatus : Type 0 where
  filled partially_filled rejected expired canceled : ExecutionStatus
  accepted_for_routing dry_run broker_cancelled : ExecutionStatus

pub data MatchMethod : Type 0 where
  auto_trade_placed auto_matched manual_matched manual_review untracked : MatchMethod

pub record Execution : Type 0 where
  pub id : ℕ
  pub broker_account_id : ℕ
  pub suggestion_id : Option ℕ
  pub ticker : ℕ
  pub side : Side
  pub submitted_qty : Option ℕ
  pub filled_qty : ℕ
  pub limit_price : Option ℕ
  pub filled_price : Option ℕ
  pub filled_at : Option ℕ
  pub broker : Text
  pub broker_order_id : Option ℕ
  pub client_order_id : Option Text
  pub dry_run : Bool
  pub status : ExecutionStatus
  pub realized_pnl_usd : Option ℤ
  pub match_method : MatchMethod
  pub match_confidence : ℕ
  pub created_at : ℕ
  pub cancelled_at : Option ℕ

pub data Mode : Type 0 where
  off dry_run live : Mode

pub record AutoTradeState : Type 0 where
  pub broker_account_id : ℕ
  pub mode : Mode
  pub promoted_at : Option ℕ
  pub last_kill_switch_event : Option ℕ

pub record Caps : Type 0 where
  pub per_order_max_usd : ℕ
  pub per_day_max_usd : ℕ
  pub per_week_max_usd_per_ticker : ℕ
  pub per_day_max_orders : ℕ
  pub effective_from : ℕ
  pub effective_to : Option ℕ

pub data Trigger : Type 0 where
  broker_error readback_mismatch readback_failed manual : Trigger

pub record KillSwitchLog : Type 0 where
  pub ts : ℕ
  pub trigger : Trigger
  pub cancelled_order_ids : List ℕ

-- `broker_scope`, of which this build has one value.
pub data BrokerScope : Type 0 where
  alpaca_paper : BrokerScope

pub record PromotionLog : Type 0 where
  pub ts : ℕ
  pub from_mode : Mode
  pub to_mode : Mode
  pub broker_scope : BrokerScope
  pub reason : Option Text

pub record Db : Type 0 where
  pub suggestions : List Suggestion
  pub executions : List Execution
  -- the next value of the executions' primary key
  pub next_execution : ℕ
  pub next_suggestion : ℕ
  pub states : List AutoTradeState
  pub caps : List Caps
  pub kill_log : List KillSwitchLog
  pub promotion_log : List PromotionLog

abbrev pub is_buy : Side → Bool
is_buy buy = true
is_buy sell = false

abbrev pub same_side : Side → Side → Bool
same_side buy buy = true
same_side sell sell = true
same_side _ _ = false

abbrev pub is_accepted : SuggestionStatus → Bool
is_accepted SuggestionStatus.accepted = true
is_accepted _ = false

abbrev pub is_pending : SuggestionStatus → Bool
is_pending SuggestionStatus.pending = true
is_pending _ = false

abbrev pub is_routing : ExecutionStatus → Bool
is_routing ExecutionStatus.accepted_for_routing = true
is_routing _ = false

abbrev pub is_broker_cancelled : ExecutionStatus → Bool
is_broker_cancelled ExecutionStatus.broker_cancelled = true
is_broker_cancelled _ = false

abbrev pub is_rejected : ExecutionStatus → Bool
is_rejected ExecutionStatus.rejected = true
is_rejected _ = false

-- The truth value of an order id: neither null nor the empty text.
abbrev pub truthy : Option ℕ → Bool
truthy none = false
truthy (some zero) = false
truthy (some (suc n)) = true

-- `submitted_qty * limit_price`, where a null factor leaves the row out of a SQL sum.
abbrev pub spend : Execution → ℕ
spend e = elim e.submitted_qty [
  | none ↦ 0
  | some qty ↦ elim e.limit_price [ none ↦ 0 | some price ↦ qty * price ]
]

-- Assignments to the attributes of one row.
abbrev pub set_execution : ℕ → (Execution → Execution) → Db → Db
set_execution i f db = record db { executions = update (λ e. e.id) i f db.executions }

abbrev pub set_suggestion : ℕ → (Suggestion → Suggestion) → Db → Db
set_suggestion i f db = record db { suggestions = update (λ s. s.id) i f db.suggestions }

-- `session.add` of an execution: the row gets the next key.
abbrev pub add_execution : (ℕ → Execution) → Db → Db
add_execution row db = record db {
  executions = db.executions ++ row db.next_execution ∷ [];
  next_execution = db.next_execution + 1;
}
