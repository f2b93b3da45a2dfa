-- ===== src/Accounts/Tests.antt =====
-- Three rows of two accounts, of which the second is not active.
use me_invest_paper.Base.{ℕ, ◌≡◌, refl, true, false, Bool, none, some, List, ◌∷◌, [], Option}
use me_invest_paper.Base.Int.{pos}
use me_invest_paper.Accounts.{
  BrokerAccount, active_rows, first_of_each, resolve_active_account_refs,
  resolve_primary_account_ref,
}

abbrev account : ℕ → Bool → Option ℕ → ℕ → BrokerAccount
account ref active closed sync = record {
  account_ref = some ref;
  nickname = none;
  broker = [];
  is_active = active;
  effective_to = closed;
  id = ref;
  account_id = none;
  mode = [];
  connection_config = none;
  cash_usd = pos 0;
  equity_usd = pos 0;
  effective_from = none;
  last_sync = sync;
}

abbrev rows : List BrokerAccount
rows =
    account 4 true (some 10) 10
    ∷ account 4 true none 20
    ∷ account 7 true none 30
    ∷ account 2 false none 40
    ∷ []

active_refs : resolve_active_account_refs rows ≡ 7 ∷ 4 ∷ []
unfolding active_rows first_of_each
active_refs = refl

primary_ref : resolve_primary_account_ref rows ≡ some 4
unfolding active_rows first_of_each
primary_ref = refl
