-- ===== src/Broker.antt =====
-- brokers/base.py: the adapter's protocol. The broker behind it is outside the program, so its
-- state `W` and each call on it are parameters; a call that raises says so in its result.
use me_invest_paper.Base.{ℕ, Bool, Option, List, ◌≡◌, refl, ◌⊎◌, inl, inr}
use me_invest_paper.Store.{Text, Side}

-- The order statuses that the source names, and any other.
pub data OrderStatus : Type 0 where
  new partially_filled pending_new accepted held pending_cancel : OrderStatus
  filled canceled expired rejected done_for_day replaced other : OrderStatus

pub data TimeInForce : Type 0 where
  day gtc : TimeInForce

pub record OrderRequest : Type 0 where
  pub client_order_id : Text
  pub ticker : ℕ
  pub side : Side
  pub qty : ℕ
  pub limit_price : ℕ
  pub time_in_force : TimeInForce

pub record OrderConfirmation : Type 0 where
  pub broker_order_id : ℕ
  pub client_order_id : Option Text
  pub status : OrderStatus

pub data ActivityStatus : Type 0 where
  filled partially_filled rejected expired canceled : ActivityStatus

pub record Activity : Type 0 where
  pub broker_order_id : ℕ
  pub client_order_id : Option Text
  pub ticker : ℕ
  pub side : Side
  pub filled_qty : ℕ
  pub filled_price : ℕ
  pub filled_at : Option ℕ
  pub status : ActivityStatus

-- How `submit_order` ends: `BrokerValidationError` is told apart from every other exception.
pub data Submission : Type 0 where
  confirmed : OrderConfirmation → Submission
  validation_error : Submission
  error : Submission

-- `paper` is the adapter's attribute, if it has one. `none` of a call stands for an exception,
-- and so does `false` of `cancel_order`.
pub record Adapter (W : Type 0) : Type 0 where
  pub paper : Option Bool
  pub buying_power_usd : W → Option ℕ × W
  pub submit_order : OrderRequest → W → Submission × W
  pub get_order : ℕ → W → Option OrderConfirmation × W
  pub cancel_order : ℕ → W → Bool × W
  pub list_closed_orders : W → Option (List OrderConfirmation) × W

pub Submission-cases :
    (a : Submission)
    → (a ≡ validation_error) ⊎ (a ≡ error) ⊎ ((conf : OrderConfirmation) × (a ≡ confirmed conf))
Submission-cases validation_error = inl refl
Submission-cases error = inr (inl refl)
Submission-cases (confirmed conf) = inr (inr (conf, refl))
