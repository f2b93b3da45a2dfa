-- ===== src/Orders/Laws.antt =====
-- What `cancel_working_execution` of services/orders.py promises.
use me_invest_paper.Base.{
  ℕ, ◌≡◌, Bool, true, some, arith, ◌⊎◌, inl, inr, ◌↔◌, ◌≢◌, ◌||◌, Bool-cases, Option-cases,
}
use me_invest_paper.Store.{Execution}
use me_invest_paper.Broker.{OrderConfirmation, Adapter}
use me_invest_paper.Orders.{
  cancelled, already_filled, noop, is_terminal, is_filled, as_cancelled, try_cancel,
  cancel_working_execution,
}

-- The execution is marked exactly in two cases: the cancel that was sent went through on an order
-- that is not partly filled, with the outcome `cancelled`, or the broker says that the order is
-- over without being filled. In every other case, `partial` and `already_filled` among them, the
-- execution is left as it was.
pub cancel_working_execution_lem :
    {W : Type 0} (adapter : Adapter W) (boid : ℕ) (e : Execution) (w : W)
    → let (outcome, e', w') = cancel_working_execution adapter boid e w in
      let (answer, asked) = adapter.get_order boid w in
      ((outcome ≡ cancelled)
        × (e' ≡ as_cancelled e)
        × ((adapter.cancel_order boid asked).0 ≡ true)
        × (w' ≡ (adapter.cancel_order boid asked).1))
      ⊎ ((outcome ≡ noop)
          × (e' ≡ as_cancelled e)
          × (w' ≡ asked)
          × ((conf : OrderConfirmation) × (answer ≡ some conf) × (is_terminal conf.status ≡ true)))
      ⊎ ((outcome ≢ cancelled) × (e' ≡ e))
unfolding cancel_working_execution try_cancel
cancel_working_execution_lem adapter boid e w = elim (Option-cases (adapter.get_order boid w).0) [
  | inl failed ↦ rw (failed, cancel_working_execution) (ground arith)
  | inr (conf, got) ↦ elim (Bool-cases (is_terminal conf.status)) [
    | inl over ↦ inr (inl (ground arith, ground arith, ground arith, (conf, got, over)))
    | inr open_order ↦ ground arith
  ]
]

-- `already_filled` is said exactly of the orders that the broker reports as filled, and no cancel is
-- sent for an order that is filled or over: any other way to cancel gives the same result.
pub cancel_working_execution-spares :
    {W : Type 0} (adapter : Adapter W) (cancel : ℕ → W → Bool × W) (boid : ℕ) (e : Execution)
    (w : W) (conf : OrderConfirmation)
    → (adapter.get_order boid w).0 ≡ some conf
    → (((cancel_working_execution adapter boid e w).0 ≡ already_filled)
        ↔ (is_filled conf.status ≡ true))
      × ((is_filled conf.status || is_terminal conf.status) ≡ true
          → cancel_working_execution (record adapter { cancel_order = cancel }) boid e w
            ≡ cancel_working_execution adapter boid e w)
unfolding cancel_working_execution try_cancel
cancel_working_execution-spares adapter cancel boid e w conf h =
    ((λ same. ground arith, λ filled_now. ground arith), λ over. ground arith)
