-- ===== src/Orders.antt =====
-- services/orders.py: cancelling the broker order of an execution.
pub mod Laws
mod Tests
use me_invest_paper.Base.{ℕ, Bool, true, false, Option, none, some, if◌then◌else◌}
use me_invest_paper.Store.{Execution, ExecutionStatus}
use me_invest_paper.Broker.{OrderStatus, OrderConfirmation, Adapter}

pub data CancelOutcome : Type 0 where
  cancelled partial already_filled noop : CancelOutcome

-- `_TERMINAL`
abbrev pub is_terminal : OrderStatus → Bool
is_terminal OrderStatus.canceled = true
is_terminal OrderStatus.expired = true
is_terminal OrderStatus.rejected = true
is_terminal OrderStatus.done_for_day = true
is_terminal OrderStatus.replaced = true
is_terminal _ = false

abbrev pub is_filled : OrderStatus → Bool
is_filled OrderStatus.filled = true
is_filled _ = false

abbrev pub is_partial : OrderStatus → Bool
is_partial OrderStatus.partially_filled = true
is_partial _ = false

abbrev pub as_cancelled : Execution → Execution
as_cancelled e = record e { status = ExecutionStatus.broker_cancelled }

module _ {W : Type 0} (adapter : Adapter W) where
  -- `_try_cancel`: an exception is a failure.
  unfoldable pub try_cancel : ℕ → W → Bool × W
  try_cancel boid w = adapter.cancel_order boid w

  -- The outcome, the execution as it is left, and the broker. The caller has the order id.
  unfoldable pub cancel_working_execution : ℕ → Execution → W → CancelOutcome × Execution × W
  cancel_working_execution boid e w =
      let (answer, w₁) = adapter.get_order boid w in
      let (done, w₂) = try_cancel boid w₁ in
      elim answer [
        | none ↦ if done then (cancelled, as_cancelled e, w₂) else (noop, e, w₂)
        | some conf ↦
            if is_filled conf.status
            then (already_filled, e, w₁)
            else if is_terminal conf.status
            then (noop, as_cancelled e, w₁)
            else if is_partial conf.status
            then (partial, e, w₂)
            else if done
            then (cancelled, as_cancelled e, w₂)
            else (noop, e, w₂)
      ]
