-- ===== src/Targets.antt =====
-- services/targets.py: the target allocations of an account, kept by closing rows and adding new ones.
-- A percentage is a number of hundredths, the hash of the content is given, and the diff of a change
-- event is kept as its two dicts. The new targets come from settings that are already checked.
pub mod Closing
pub mod Dropping
mod Tests
use me_invest_paper.Base.{
  ℕ, zero, suc, ◌+◌, Bool, true, false, ◌&&◌, not, max, Option, none, some, List, [], ◌∷◌, ◌++◌,
  map, ◌==◌, any, find?, filter, present, holds, if◌then◌else◌,
}
use me_invest_paper.Calendar.{date_of, current_week_monday}
use me_invest_paper.Store.{Text, Suggestion, Execution, Db, is_accepted, is_routing, set_suggestion}
use me_invest_paper.Broker.{Adapter}
use me_invest_paper.ClientId.{same_text}
use me_invest_paper.Expiry.{as_expired}
use me_invest_paper.Reconciliation.Matching.{distance}
use me_invest_paper.Review.Sizing.{item_at}
use me_invest_paper.Web.Stopping.{cancel_each}

pub record TargetAllocation : Type 0 where
  pub broker_account_id : ℕ
  pub ticker : ℕ
  pub target_pct : ℕ
  pub band_low_pct : ℕ
  pub band_high_pct : ℕ
  pub effective_from : ℕ
  pub effective_to : Option ℕ

-- An entry of `TargetsConfig.targets`.
pub record Target : Type 0 where
  pub ticker : ℕ
  pub pct : ℕ
  pub band_low : ℕ
  pub band_high : ℕ

pub record TargetChangeEvent : Type 0 where
  pub broker_account_id : ℕ
  pub ts : ℕ
  pub source : Text
  pub old : List (ℕ × ℕ)
  pub new : List (ℕ × ℕ)
  pub max_shift_pp : ℕ

-- The rows of `Meta` with the hashes, by the account of their key.
pub record Meta : Type 0 where
  pub account : ℕ
  pub value : Text

pub record TargetTables : Type 0 where
  pub hashes : List Meta
  pub allocations : List TargetAllocation
  pub events : List TargetChangeEvent

pub data LoadResult : Type 0 where
  unchanged updated : LoadResult

abbrev pub is_open_target : ℕ → TargetAllocation → Bool
is_open_target account r = not (present r.effective_to) && r.broker_account_id == account

abbrev pub closed_at : ℕ → TargetAllocation → TargetAllocation
closed_at now r = record r { effective_to = some now }

-- The rows of the account that are open are closed.
abbrev pub close_open : ℕ → ℕ → List TargetAllocation → List TargetAllocation
close_open account now rows =
    map (λ r. if is_open_target account r then closed_at now r else r) rows

abbrev pub allocation : ℕ → ℕ → Target → TargetAllocation
allocation account now t = record {
  broker_account_id = account;
  ticker = t.ticker;
  target_pct = t.pct;
  band_low_pct = t.band_low;
  band_high_pct = t.band_high;
  effective_from = now;
  effective_to = none;
}

abbrev pub pct_of : ℕ → List (ℕ × ℕ) → ℕ
pct_of ticker dict = elim (item_at (λ (e : ℕ × ℕ). e.0) ticker dict) [
  | none ↦ 0
  | some (t, pct) ↦ pct
]

-- The size of an entry of `compute_target_shifts`, at one ticker.
abbrev pub shift_at : List (ℕ × ℕ) → List (ℕ × ℕ) → ℕ → ℕ
shift_at old new ticker = distance (pct_of ticker new) (pct_of ticker old)

-- The largest shift over the tickers of both dicts.
abbrev pub max_shift : List (ℕ × ℕ) → List (ℕ × ℕ) → List (ℕ × ℕ) → ℕ
max_shift old new [] = 0
max_shift old new ((ticker, pct) ∷ entries) =
    max (shift_at old new ticker) (max_shift old new entries)

abbrev pub stored_hash : ℕ → List Meta → Option Meta
stored_hash account rows = find? (λ m. m.account == account) rows

abbrev pub set_hash : ℕ → Text → List Meta → List Meta
set_hash account value [] = record { account = account; value = value } ∷ []
set_hash account value (m ∷ ms) =
    if m.account == account then record m { value = value } ∷ ms else m ∷ set_hash account value ms

abbrev pub is_same_hash : Text → Option Meta → Bool
is_same_hash content_hash none = false
is_same_hash content_hash (some m) = same_text m.value content_hash

-- An accepted suggestion of the week.
abbrev pub is_of_week : ℕ → ℕ → Suggestion → Bool
is_of_week account now s =
    is_accepted s.status
    && s.week_of == current_week_monday (date_of now)
    && s.broker_account_id == account

abbrev pub is_target : List Target → ℕ → Bool
is_target targets ticker = any (λ t. t.ticker == ticker) targets

abbrev pub is_cancellable : ℕ → ℕ → Execution → Bool
is_cancellable sid account e =
    holds e.suggestion_id sid
    && e.broker_account_id == account
    && is_routing e.status
    && not e.dry_run
    && present e.broker_order_id

module _ {W : Type 0} (adapter : Option (Adapter W)) (now account : ℕ) (targets : List Target) where
  -- The orders of one suggestion, where there is an adapter.
  abbrev pub cancel_orders : Option (Adapter W) → ℕ → Db → W → Db × W
  cancel_orders none sid db w = (db, w)
  cancel_orders (some a) sid db w =
      let (report, db', w') =
        cancel_each (λ e. some a) (filter (is_cancellable sid account) db.executions) db w in
      (db', w')

  -- The loop over the accepted suggestions.
  unfoldable pub drop_each : List Suggestion → Db → W → Db × W
  drop_each [] db w = (db, w)
  drop_each (s ∷ sugs) db w =
      if is_target targets s.ticker
      then drop_each sugs db w
      else let (db', w') = cancel_orders adapter s.id (set_suggestion s.id (as_expired now) db) w in
        drop_each sugs db' w'

  module _ (source content_hash : Text) where
    abbrev pub change_event : List (ℕ × ℕ) → List (ℕ × ℕ) → TargetChangeEvent
    change_event old new = record {
      broker_account_id = account;
      ts = now;
      source = source;
      old = old;
      new = new;
      max_shift_pp = max_shift old new (old ++ new);
    }

    abbrev pub loaded : TargetTables → TargetTables
    loaded tables =
        let old =
          map (λ r. (r.ticker, r.target_pct))
            (filter (is_open_target account) tables.allocations) in
        let new = map (λ t. (t.ticker, t.pct)) targets in
        record {
          hashes = set_hash account content_hash tables.hashes;
          allocations =
              close_open account now tables.allocations ++ map (allocation account now) targets;
          events = tables.events ++ change_event old new ∷ [];
        }

    unfoldable pub load_targets_into_db : TargetTables → Db → W → LoadResult × TargetTables × Db × W
    load_targets_into_db tables db w =
        if is_same_hash content_hash (stored_hash account tables.hashes)
        then (unchanged, tables, db, w)
        else let (db', w') = drop_each (filter (is_of_week account now) db.suggestions) db w in
          (updated, loaded tables, db', w')
