-- ===== src/Snapshot.antt =====
-- services/snapshot.py: the positions and the state of an account, read from the broker and written.
-- Quantities are whole shares, a weight is a number of hundredths of a percent, rounded to zero; what
-- the two calls of the broker give is a parameter, where none is an exception.
pub mod Updates
pub mod States
pub mod Batches
mod Tests
use me_invest_paper.Base.{
  ℕ, zero, suc, ◌+◌, ◌-◌, ◌*◌, ◌/◌, Bool, true, false, ◌&&◌, not, Option, none, some, List, [], ◌∷◌,
  ◌++◌, map, ◌==◌, any, filter, length, latest_by, present, holds, leb, ltb, if◌then◌else◌,
}
use me_invest_paper.Base.Int.{ℤ, pos, negsuc, pos_part, neg_part}
use me_invest_paper.Base.Rows.{update}
use me_invest_paper.Calendar.{day, date_of}
use me_invest_paper.Store.{Text}
use me_invest_paper.ClientId.{same_text}
use me_invest_paper.Accounts.{BrokerAccount}
use me_invest_paper.Reconciliation.Matching.{distance}
use me_invest_paper.Web.MagicLink.{negate}

-- `Account` and `Position` of brokers/base.py, without the buying power.
pub record Account : Type 0 where
  pub account_id : Text
  pub cash_usd : ℤ
  pub equity_usd : ℤ
  pub as_of : ℕ
  pub currency : Text

pub record Position : Type 0 where
  pub ticker : ℕ
  pub qty : ℕ
  pub avg_cost : ℕ
  pub market_value : ℕ
  pub currency : Text

pub record PositionsSnapshot : Type 0 where
  pub broker_account_id : ℕ
  pub account_id : Text
  pub ts : ℕ
  pub ticker : ℕ
  pub qty : ℕ
  pub avg_cost : ℕ
  pub market_value : ℕ
  pub weight_pct : ℤ
  pub currency : Text

-- `settings.broker.partition("_")`: the parts at the first underscore.
abbrev pub split_name : Text → Text × Text
split_name [] = ([], [])
split_name (c ∷ s) =
    if c == b'_' then ([], s) else let (front, back) = split_name s in (c ∷ front, back)

abbrev pub or_live : Text → Text
or_live [] = b'l' ∷ b'i' ∷ b'v' ∷ b'e' ∷ []
or_live (c ∷ s) = c ∷ s

abbrev pub weight_of : ℕ → ℤ → ℤ
weight_of value (pos zero) = pos 0
weight_of value (pos (suc n)) = pos (value * 10000 / suc n)
weight_of value (negsuc n) = negate (value * 10000 / suc n)

abbrev pub is_in : List ℕ → ℕ → Bool
is_in tickers t = any (λ x. x == t) tickers

-- `SELECT DISTINCT`, in the order of the table.
abbrev pub distinct : List ℕ → List ℕ
distinct [] = []
distinct (t ∷ ts) = t ∷ filter (λ x. not (x == t)) (distinct ts)

-- The two texts are compared, and the stored one has a space where the cutoff has a `T`: no row of the
-- cutoff's date passes.
abbrev pub is_recent_row : ℕ → ℕ → PositionsSnapshot → Bool
is_recent_row now account r =
    ltb (date_of (now - 2 * day)) (date_of r.ts) && r.broker_account_id == account

-- At most a cent apart.
abbrev pub is_same_amount : ℤ → ℤ → Bool
is_same_amount a b = leb (distance (pos_part a + neg_part b) (pos_part b + neg_part a)) 100

abbrev pub is_open_state : ℕ → BrokerAccount → Bool
is_open_state ref r = holds r.account_ref ref && not (present r.effective_to)

abbrev pub is_id : Text → Option Text → Bool
is_id account_id none = false
is_id account_id (some t) = same_text t account_id

abbrev pub same_values : Account → BrokerAccount → Bool
same_values account latest =
    is_id account.account_id latest.account_id
    && is_same_amount latest.cash_usd account.cash_usd
    && is_same_amount latest.equity_usd account.equity_usd

-- The new row of the state. What identifies the account is that of the latest row.
abbrev pub new_state : Account → Text → Text → ℕ → ℕ → Option BrokerAccount → BrokerAccount
new_state account broker_name mode ref id none = record {
  id = id;
  account_ref = some ref;
  account_id = some account.account_id;
  broker = broker_name;
  mode = mode;
  nickname = none;
  is_active = true;
  connection_config = none;
  cash_usd = account.cash_usd;
  equity_usd = account.equity_usd;
  last_sync = account.as_of;
  effective_from = some account.as_of;
  effective_to = none;
}
new_state account broker_name mode ref id (some latest) = record latest {
  id = id;
  account_ref = some ref;
  account_id = some account.account_id;
  cash_usd = account.cash_usd;
  equity_usd = account.equity_usd;
  last_sync = account.as_of;
  effective_from = some account.as_of;
  effective_to = none;
}

abbrev pub latest_state : ℕ → List BrokerAccount → Option BrokerAccount
latest_state ref rows = latest_by (λ r. r.last_sync) (filter (is_open_state ref) rows)

-- The latest row is touched, or closed with a new one behind it; `id` is the key of a new row.
abbrev pub write_state :
    Account → Text → Text → ℕ → ℕ → List BrokerAccount → Option BrokerAccount → List BrokerAccount
write_state account broker_name mode ref id rows none =
    rows ++ new_state account broker_name mode ref id none ∷ []
write_state account broker_name mode ref id rows (some latest) =
    if same_values account latest
    then update (λ r. r.id) latest.id (λ r. record r { last_sync = account.as_of }) rows
    else update (λ r. r.id) latest.id (λ r. record r { effective_to = some account.as_of }) rows
      ++ new_state account broker_name mode ref id (some latest) ∷ []

-- `_write_broker_account`
unfoldable pub write_broker_account :
    Account → Text → Text → ℕ → ℕ → List BrokerAccount → List BrokerAccount
write_broker_account account broker_name mode ref id rows =
    write_state account broker_name mode ref id rows (latest_state ref rows)

abbrev pub position_row : ℕ → Account → Position → PositionsSnapshot
position_row ref account p = record {
  broker_account_id = ref;
  account_id = account.account_id;
  ts = account.as_of;
  ticker = p.ticker;
  qty = p.qty;
  avg_cost = p.avg_cost;
  market_value = p.market_value;
  weight_pct = weight_of p.market_value account.equity_usd;
  currency = p.currency;
}

abbrev pub tombstone : ℕ → Account → ℕ → PositionsSnapshot
tombstone ref account ticker = record {
  broker_account_id = ref;
  account_id = account.account_id;
  ts = account.as_of;
  ticker = ticker;
  qty = 0;
  avg_cost = 0;
  market_value = 0;
  weight_pct = pos 0;
  currency = account.currency;
}

-- The rows of one batch.
unfoldable pub batch :
    ℕ → ℕ → Account → List Position → List PositionsSnapshot → List PositionsSnapshot
batch now ref account positions table =
    let recent = distinct (map (λ r. r.ticker) (filter (is_recent_row now ref) table)) in
    let held = map (λ p. p.ticker) positions in
    map (position_row ref account) positions
    ++ map (tombstone ref account) (filter (λ t. not (is_in held t)) recent)

-- How many rows were written, and the tables. `none` is an exception.
unfoldable pub take_snapshot :
    ℕ
    → Text
    → ℕ
    → ℕ
    → Option Account
    → Option (List Position)
    → List PositionsSnapshot
    → List BrokerAccount
    → Option (ℕ × List PositionsSnapshot × List BrokerAccount)
take_snapshot now broker ref id none positions table accounts = none
take_snapshot now broker ref id (some account) none table accounts = none
take_snapshot now broker ref id (some account) (some positions) table accounts =
    let rows = batch now ref account positions table in
    let (broker_name, mode_hint) = split_name broker in
    some (
      length rows,
      table ++ rows,
      write_broker_account account broker_name (or_live mode_hint) ref id accounts,
    )
