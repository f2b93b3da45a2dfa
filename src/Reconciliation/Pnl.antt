-- ===== src/Reconciliation/Pnl.antt =====
-- `compute_realized_pnl` of services/reconciliation.py, in ten-thousandths of a dollar.
use me_invest_paper.Base.{
  ℕ, ◌-◌, ◌*◌, ◌+◌, Bool, false, ◌&&◌, not, Option, none, some, List, [], ◌∷◌, ◌==◌, ltb, leb,
  filter, if◌then◌else◌,
}
use me_invest_paper.Base.Int.{ℤ, sub_ℕ}
use me_invest_paper.Store.{Execution, Db, is_buy}
use me_invest_paper.Broker.{Activity}

-- `filled_at <= t`, which null on either side does not meet.
abbrev pub is_filled_by : Option ℕ → Option ℕ → Bool
is_filled_by none t = false
is_filled_by (some at) none = false
is_filled_by (some at) (some t) = leb at t

abbrev pub is_prior_buy : Activity → Execution → Bool
is_prior_buy sell e =
    e.ticker == sell.ticker
    && is_buy e.side
    && not e.dry_run
    && ltb 0 e.filled_qty
    && is_filled_by e.filled_at sell.filled_at

abbrev pub filled_key : Execution → ℕ
filled_key e = elim e.filled_at [ none ↦ 0 | some at ↦ at ]

-- `ORDER BY filled_at ASC`, ties in the order of the table.
abbrev pub insert_by_fill : Execution → List Execution → List Execution
insert_by_fill e [] = e ∷ []
insert_by_fill e (x ∷ xs) =
    if ltb (filled_key x) (filled_key e) then x ∷ insert_by_fill e xs else e ∷ x ∷ xs

abbrev pub sort_by_fill : List Execution → List Execution
sort_by_fill [] = []
sort_by_fill (e ∷ es) = insert_by_fill e (sort_by_fill es)

abbrev pub prior_buys : Db → Activity → List Execution
prior_buys db sell = sort_by_fill (filter (is_prior_buy sell) db.executions)

-- `buy.filled_price or 0.0`
abbrev pub price_or_zero : Option ℕ → ℕ
price_or_zero none = 0
price_or_zero (some p) = p

-- The loop over the lots, `applied` being the lesser number: the cost of the shares that are still to be sold.
unfoldable pub lots_cost : ℕ → List Execution → ℕ
lots_cost qty [] = 0
lots_cost qty (buy ∷ buys) =
    let applied = if ltb buy.filled_qty qty then buy.filled_qty else qty in
    let rest = lots_cost (qty - applied) buys in
    if leb qty 0 then 0 else applied * price_or_zero buy.filled_price + rest

unfoldable pub profit_of : Activity → List Execution → Option ℤ
profit_of sell [] = none
profit_of sell (buy ∷ buys) =
    some (sub_ℕ (sell.filled_qty * sell.filled_price) (lots_cost sell.filled_qty (buy ∷ buys)))

unfoldable pub compute_realized_pnl : Db → Activity → Option ℤ
compute_realized_pnl db sell = profit_of sell (prior_buys db sell)
