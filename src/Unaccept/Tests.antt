-- ===== src/Unaccept/Tests.antt =====
-- services/unaccept.py on the small account: the order is over, or its cancel is refused.
use me_invest_paper.Orders.{as_cancelled}
use me_invest_paper.Base.{
  ℕ, find?, if◌then◌else◌, ◌≡◌, refl, ◌≢◌, ◌⊎◌, ◌&&◌, ◌==◌, true, false, some, ◌∷◌, [],
}
use me_invest_paper.Store.{Mode, Db, Execution, ExecutionStatus, is_accepted}
use me_invest_paper.Broker.{Adapter}
use me_invest_paper.Unaccept.{not_found, not_actionable, unaccept_suggestion}
use me_invest_paper.Unaccept.Laws.{TakenBackOrKept, unaccept_suggestion-TakenBackOrKept}
use me_invest_paper.Unaccept.Answers.{result_for, is_marked, unaccept_suggestion-answers}
use me_invest_paper.AutoTrade.Samples.{adapter, now, execution, first, second, start, db_in, Orders}

abbrev db : Db
db = db_in Mode.live

abbrev orders : Orders
orders = (start Mode.live).broker

unaccept_suggestion-TakenBackOrKept_example :
    let (result, db', w') = unaccept_suggestion adapter now 1 1 db orders in
    TakenBackOrKept now 1 first db result db'
    × (((first.broker_account_id == 1 && is_accepted first.status) ≡ true)
          × (result ≢ not_found)
          × (result ≢ not_actionable)
        ⊎ ((first.broker_account_id == 1 && is_accepted first.status) ≡ false)
          × ((result ≡ not_found) ⊎ (result ≡ not_actionable))
          × (db' ≡ db)
          × (w' ≡ orders))
unaccept_suggestion-TakenBackOrKept_example =
    unaccept_suggestion-TakenBackOrKept adapter now 1 1 first db orders refl

-- The second suggestion has a working order, and the broker refuses every cancel.
abbrev working : Execution
working = execution 3 2 8 1 3000000 51 ExecutionStatus.accepted_for_routing 0

abbrev placed : Db
placed = record db { executions = working ∷ [] }

abbrev refusing : Adapter Orders
refusing = record adapter { cancel_order = λ i os. (false, os) }

unaccept_suggestion-answers_example :
    let (result, db', _) = unaccept_suggestion refusing now 2 1 placed orders in
    let (answer, asked) = refusing.get_order 51 orders in
    (result ≡ result_for refusing now answer)
    × ((j : ℕ)
        → find? (λ x. x.id == j) db'.executions ≡ (
            if (working.id == j) && is_marked refusing now answer (refusing.cancel_order 51 asked).0
            then some (as_cancelled working)
            else find? (λ x. x.id == j) placed.executions))
unaccept_suggestion-answers_example =
    unaccept_suggestion-answers refusing now 2 1 51 second working placed orders (tt, tt) refl refl
      refl refl refl
