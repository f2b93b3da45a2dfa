-- ===== src/AutoTrade/Ids.antt =====
-- The client order ids that a pass of services/auto_trade.py gives to its orders.
use me_invest_paper.Base.{ℕ, ◌≡◌, some, total}
use me_invest_paper.ClientId.{parse_suggestion_id}
use me_invest_paper.ClientId.RoundTrip.{parse_suggestion_id-format, format-injective}
use me_invest_paper.Store.{Suggestion, Db}
use me_invest_paper.AutoTrade.Queries.{is_cancelled_for, next_client_order_id}

abbrev pub cancelled_orders : ℕ → Db → ℕ
cancelled_orders sid db = total (is_cancelled_for sid) (λ _. 1) db.executions

-- Reconciliation reads the suggestion back from the id of each order that is placed for it. The
-- same id is given again only to the same suggestion with as many cancelled orders, so an id that
-- belongs to a cancelled order is never used again.
pub next_client_order_id_lem :
    (db db' : Db) (sug sug' : Suggestion)
    → (parse_suggestion_id (next_client_order_id db sug) ≡ some sug.id)
      × (next_client_order_id db sug ≡ next_client_order_id db' sug'
          → (sug.id ≡ sug'.id) × (cancelled_orders sug.id db ≡ cancelled_orders sug'.id db'))
unfolding next_client_order_id
next_client_order_id_lem db db' sug sug' = (
  parse_suggestion_id-format sug.id (cancelled_orders sug.id db),
  format-injective sug.id (cancelled_orders sug.id db) sug'.id (cancelled_orders sug'.id db'),
)
