-- ===== src/Orders/Tests.antt =====
-- Cancels of services/orders.py on the small account: of the order that is over, of the working one.
use me_invest_paper.Base.{some, Bool, false, ℕ, ◌∷◌, []}
use me_invest_paper.Store.{Mode, Execution, ExecutionStatus}
use me_invest_paper.Broker.{OrderStatus, OrderConfirmation}
use me_invest_paper.AutoTrade.Samples.{execution, start, Orders}

abbrev working : Execution
working = execution 2 9 8 1 1000000 51 ExecutionStatus.accepted_for_routing 0

abbrev orders : Orders
orders = (start Mode.live).broker

abbrev over : OrderConfirmation
over = record {
  broker_order_id = 50;
  client_order_id = some (b's' ∷ []);
  status = OrderStatus.canceled;
}

abbrev no_cancel : ℕ → Orders → Bool × Orders
no_cancel i os = (false, [])
