-- ===== src/Lifecycle/Targets.antt =====
-- The loading of new targets by services/targets.py goes along the diagram.
use me_invest_paper.Base.{ℕ, ◌≡◌, refl, Bool, true, ◌&&◌, not, Option, List, arith, ◌==◌}
use me_invest_paper.Calendar.{date_of, current_week_monday}
use me_invest_paper.Store.{Text, SuggestionStatus, pending, accepted, Db, is_accepted}
use me_invest_paper.Broker.{Adapter}
use me_invest_paper.Expiry.{as_expired}
use me_invest_paper.Targets.{
  Target, TargetTables, is_same_hash, stored_hash, is_of_week, load_targets_into_db,
}
use me_invest_paper.Targets.Dropping.{is_dropped, load_targets_into_db-suggestions}
use me_invest_paper.Lifecycle.Diagram.{◌⟶◌, lapse_accepted}
use me_invest_paper.Lifecycle.Changes.{Goes, Goes-map}

accepted_expires : (s : SuggestionStatus) → is_accepted s ≡ true → s ⟶ SuggestionStatus.expired
accepted_expires accepted h = lapse_accepted
accepted_expires pending h = cc
accepted_expires SuggestionStatus.rejected h = cc
accepted_expires SuggestionStatus.cancelled h = cc
accepted_expires SuggestionStatus.expired h = cc
accepted_expires SuggestionStatus.filled h = cc

and_second : (a b c d e : Bool) → (a && (b && c && d) && e) ≡ true → b ≡ true
and_second a b c d e h = ground arith

module _ {W : Type 0} (adapter : Option (Adapter W)) (now account : ℕ) (targets : List Target) where
  pub load_targets-Goes :
      (source content_hash : Text) (tables : TargetTables) (db : Db) (w : W)
      → Goes db (load_targets_into_db adapter now account targets source content_hash tables db w).2
  load_targets-Goes source content_hash tables db w (distinct, below) =
      let stale = is_same_hash content_hash (stored_hash account tables.hashes) in
      let (_, _, db', w') =
        load_targets_into_db adapter now account targets source content_hash tables db w in
      let (rows, key) =
        load_targets_into_db-suggestions adapter now account targets source content_hash tables db w
          distinct in
      Goes-map
        (λ s. not stale && is_of_week account now s && is_dropped adapter now account targets s)
        (as_expired now) db db' (λ s. refl)
        (λ s chosen. accepted_expires s.status (
          and_second (not stale) (is_accepted s.status)
            (s.week_of == current_week_monday (date_of now)) (s.broker_account_id == account)
            (is_dropped adapter now account targets s) chosen))
        (λ _. rows) key (distinct, below)
