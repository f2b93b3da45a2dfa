-- ===== src/Expiry/Tests.antt =====
-- The sweep of jobs/suggestion_expiry.py on the small account, a week later.
use me_invest_paper.Base.{ℕ, ◌+◌, ◌*◌, ◌≡◌, none, some, Option, List, ◌∷◌, [], map, true, arith}
use me_invest_paper.Base.Int.{pos}
use me_invest_paper.Base.Rows.{Distinct}
use me_invest_paper.Base.Sweeps.{when}
use me_invest_paper.Calendar.{day}
use me_invest_paper.Store.{Mode, Db}
use me_invest_paper.Broker.{Adapter}
use me_invest_paper.Accounts.{BrokerAccount, resolve_active_account_refs}
use me_invest_paper.Expiry.{as_expired, sweep_expired_suggestions_all_brokers}
use me_invest_paper.Expiry.Laws.{is_due_in, key, sweep_expired_suggestions_all_brokers-suggestions}
use me_invest_paper.AutoTrade.Samples.{adapter, now, start, db_in, Orders}

abbrev later : ℕ
later = now + 7 * day

abbrev db : Db
db = db_in Mode.live

abbrev orders : Orders
orders = (start Mode.live).broker

db-Distinct : Distinct key db.suggestions
db-Distinct = omega arith

abbrev accounts : List BrokerAccount
accounts =
    record {
      account_ref = some 1;
      nickname = none;
      broker = [];
      is_active = true;
      effective_to = none;
      id = 1;
      account_id = none;
      mode = [];
      connection_config = none;
      cash_usd = pos 0;
      equity_usd = pos 0;
      effective_from = none;
      last_sync = 0;
    }
    ∷ []

abbrev adapters : ℕ → Option (Adapter Orders)
adapters ref = some adapter

sweep_expired_suggestions_all_brokers-suggestions_example :
    (sweep_expired_suggestions_all_brokers adapters later accounts db orders).0.suggestions
    ≡ map
        (when (is_due_in later (resolve_active_account_refs accounts)) (as_expired later))
        db.suggestions
sweep_expired_suggestions_all_brokers-suggestions_example =
    sweep_expired_suggestions_all_brokers-suggestions adapters later accounts db orders db-Distinct
