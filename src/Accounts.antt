-- ===== src/Accounts.antt =====
-- services/accounts.py: the active broker accounts, and the primary one.
pub mod Laws
mod Tests
use me_invest_paper.Base.{
  ℕ, zero, suc, Bool, true, false, ◌&&◌, not, Option, none, some, List, [], ◌∷◌, map, min, ◌==◌,
  ltb, any, filter, present, if◌then◌else◌,
}
use me_invest_paper.Base.Int.{ℤ}
use me_invest_paper.Store.{Text}

pub record BrokerAccount : Type 0 where
  pub id : ℕ
  pub account_ref : Option ℕ
  pub account_id : Option Text
  pub broker : Text
  pub mode : Text
  pub nickname : Option Text
  pub is_active : Bool
  pub connection_config : Option Text
  pub cash_usd : ℤ
  pub equity_usd : ℤ
  pub last_sync : ℕ
  pub effective_from : Option ℕ
  pub effective_to : Option ℕ

pub record AccountInfo : Type 0 where
  pub account_ref : ℕ
  pub nickname : Text
  pub broker : Text

abbrev pub is_open_row : BrokerAccount → Bool
is_open_row r = not (present r.effective_to) && r.is_active

-- `ORDER BY last_sync DESC`, ties in the order of the table.
abbrev pub insert_by_sync : BrokerAccount → List BrokerAccount → List BrokerAccount
insert_by_sync r [] = r ∷ []
insert_by_sync r (x ∷ xs) =
    if ltb r.last_sync x.last_sync then x ∷ insert_by_sync r xs else r ∷ x ∷ xs

abbrev pub sort_by_sync : List BrokerAccount → List BrokerAccount
sort_by_sync [] = []
sort_by_sync (r ∷ rs) = insert_by_sync r (sort_by_sync rs)

-- `_active_rows`
unfoldable pub active_rows : List BrokerAccount → List BrokerAccount
active_rows rows = sort_by_sync (filter is_open_row rows)

-- `nickname or broker`
abbrev pub nickname_or : Option Text → Text → Text
nickname_or none broker = broker
nickname_or (some []) broker = broker
nickname_or (some (c ∷ cs)) broker = c ∷ cs

abbrev pub info : ℕ → BrokerAccount → AccountInfo
info ref r = record {
  account_ref = ref;
  nickname = nickname_or r.nickname r.broker;
  broker = r.broker;
}

-- The loop over the rows, with the references that were seen.
unfoldable pub first_of_each : List ℕ → List BrokerAccount → List AccountInfo
first_of_each seen [] = []
first_of_each seen (r ∷ rs) = elim r.account_ref [
  | none ↦ first_of_each seen rs
  | some ref ↦
      if any (λ x. x == ref) seen
      then first_of_each seen rs
      else info ref r ∷ first_of_each (ref ∷ seen) rs
]

abbrev pub list_active_accounts : List BrokerAccount → List AccountInfo
list_active_accounts rows = first_of_each [] (active_rows rows)

abbrev pub resolve_active_account_refs : List BrokerAccount → List ℕ
resolve_active_account_refs rows = map (λ a. a.account_ref) (list_active_accounts rows)

abbrev pub least : List ℕ → Option ℕ
least [] = none
least (x ∷ xs) = elim (least xs) [ none ↦ some x | some y ↦ some (if ltb y x then y else x) ]

abbrev pub resolve_primary_account_ref : List BrokerAccount → Option ℕ
resolve_primary_account_ref rows = least (resolve_active_account_refs rows)
