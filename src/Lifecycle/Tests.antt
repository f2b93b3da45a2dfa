-- ===== src/Lifecycle/Tests.antt =====
-- A suggestion is accepted by its link and then taken back by the administrator.
use me_invest_paper.Base.{ℕ, ◌+◌, ◌*◌, ◌≡◌, refl, Option, some, none, [], ◌∷◌, arith}
use me_invest_paper.Store.{Text, Mode, SuggestionStatus, Db}
use me_invest_paper.Broker.{Adapter}
use me_invest_paper.ClientId.{same_text}
use me_invest_paper.Orders.{cancel_working_execution, try_cancel}
use me_invest_paper.Unaccept.{UnacceptResult, unaccept_suggestion, cancel_latest, conclude_unaccept}
use me_invest_paper.AutoTrade.Samples.{Orders, adapter, now, start, db_in, first, second, third}
use me_invest_paper.Suggest.Keeping.{IsNumbered}
use me_invest_paper.Calendar.{day}
use me_invest_paper.Expiry.{sweep_expired_suggestions_all_brokers}
use me_invest_paper.Web.Reply.{ok, token_auth}
use me_invest_paper.Web.Acting.{accept, act, patch_suggestion, unaccept_by_account, admin_unaccept}
use me_invest_paper.Web.Stopping.{as_pending}
use me_invest_paper.Lifecycle.Diagram.{status_at, Evolution}
use me_invest_paper.Lifecycle.Histories.{Step, History, History-Goes, History-final}

abbrev orders : Orders
orders = (start Mode.live).broker

abbrev waiting : Db
waiting = record (db_in Mode.live) { suggestions = as_pending first ∷ second ∷ third ∷ [] }

abbrev accepted_now : Db
accepted_now = record waiting {
  suggestions = record first { acted_at = some now } ∷ second ∷ third ∷ [];
}

abbrev taken_back : Db
taken_back = record waiting {
  suggestions =
      record first { status = SuggestionStatus.cancelled; acted_at = some now }
      ∷ second
      ∷ third
      ∷ [];
}

abbrev key : Text
key = b'k' ∷ []

abbrev adapters : ℕ → Option (Adapter Orders)
adapters ref = some adapter

accepting :
    patch_suggestion key key 1 accept none now waiting
    ≡ ok (SuggestionStatus.accepted, accepted_now)
unfolding patch_suggestion act token_auth same_text
accepting = refl

taking_back :
    admin_unaccept adapters now key key 1 accepted_now orders
    ≡ ok (UnacceptResult.cancelled, taken_back, orders)
unfolding admin_unaccept unaccept_by_account token_auth same_text unaccept_suggestion cancel_latest
    conclude_unaccept cancel_working_execution try_cancel
taking_back = refl

abbrev two_steps : History Orders waiting taken_back
two_steps =
    History.next
      (History.next History.here
        (Step.patched key key 1 accept none now SuggestionStatus.accepted accepting))
      (Step.unaccepted adapters now key key 1 orders orders UnacceptResult.cancelled taking_back)

History-Goes_example : Evolution waiting taken_back × IsNumbered taken_back
History-Goes_example = History-Goes two_steps (omega arith)

-- A sweep that is run long after leaves it as it is.
abbrev later : Db
later = (sweep_expired_suggestions_all_brokers adapters (now + 9 * day) [] taken_back orders).0

abbrev last_step : History Orders taken_back later
last_step = History.next History.here (Step.swept adapters (now + 9 * day) [] orders refl)

History-final_example : status_at 1 later ≡ some SuggestionStatus.cancelled
History-final_example = History-final 1 SuggestionStatus.cancelled (omega arith) refl refl last_step
