-- ===== src/Targets/Tests.antt =====
-- services/targets.py on an account whose second ticker is dropped.
use me_invest_paper.Base.{ℕ, ◌≡◌, refl, ◌⊎◌, some, [], ◌∷◌, map, arith, not, ◌&&◌}
use me_invest_paper.Base.Sweeps.{when}
use me_invest_paper.Store.{Text, Mode, Db}
use me_invest_paper.Expiry.{as_expired}
use me_invest_paper.ClientId.{same_text}
use me_invest_paper.Web.Stopping.{cancel_at, cancel_each}
use me_invest_paper.AutoTrade.Samples.{Orders, adapter, now, start, db_in}
use me_invest_paper.Targets.{
  Target, TargetTables, LoadResult, unchanged, updated, allocation, closed_at, is_same_hash,
  stored_hash, is_of_week, drop_each, load_targets_into_db,
}
use me_invest_paper.Targets.Closing.{IsReplaced, load_targets_into_db-IsReplaced}
use me_invest_paper.Targets.Dropping.{is_dropped, load_targets_into_db-suggestions}

abbrev target : ℕ → Target
target ticker = record { ticker = ticker; pct = 2000; band_low = 1500; band_high = 2500 }

abbrev tables : TargetTables
tables = record {
  hashes = record { account = 1; value = b'a' ∷ [] } ∷ [];
  allocations =
      allocation 1 0 (target 7) ∷ allocation 2 0 (target 7) ∷ allocation 1 0 (target 8) ∷ [];
  events = [];
}

abbrev db : Db
db = db_in Mode.live

abbrev orders : Orders
orders = (start Mode.live).broker

abbrev load : LoadResult × TargetTables × Db × Orders
load = load_targets_into_db (some adapter) now 1 (target 8 ∷ []) [] (b'b' ∷ []) tables db orders

loaded_new :
    (load.0 ≡ updated)
    × (load.1.allocations
        ≡ closed_at now (allocation 1 0 (target 7))
          ∷ allocation 2 0 (target 7)
          ∷ closed_at now (allocation 1 0 (target 8))
          ∷ allocation 1 now (target 8)
          ∷ [])
    × (map (λ e. e.max_shift_pp) load.1.events ≡ 2000 ∷ [])
unfolding load_targets_into_db drop_each same_text cancel_each cancel_at
loaded_new = (refl, refl, refl)

load_targets_into_db-IsReplaced_example :
    (((load.0 ≡ unchanged) × (load.1 ≡ tables) × (load.2 ≡ db) × (load.3 ≡ orders))
      ⊎ ((load.0 ≡ updated)
          × IsReplaced (some adapter) now 1 (target 8 ∷ []) [] (b'b' ∷ []) tables load.1))
    × ((later : ℕ) (again : Text) (db₁ : Db) (w₁ : Orders)
        → load_targets_into_db
            (some adapter)
            later
            1
            (target 8 ∷ [])
            again
            (b'b' ∷ [])
            load.1
            db₁
            w₁
          ≡ (unchanged, load.1, db₁, w₁))
load_targets_into_db-IsReplaced_example =
    load_targets_into_db-IsReplaced (some adapter) now 1 (target 8 ∷ []) [] (b'b' ∷ []) tables db
      orders

load_targets_into_db-suggestions_example :
    (load.2.suggestions
      ≡ map
          (when
            (λ s.
              not (is_same_hash (b'b' ∷ []) (stored_hash 1 tables.hashes))
              && is_of_week 1 now s
              && is_dropped (some adapter) now 1 (target 8 ∷ []) s)
            (as_expired now))
          db.suggestions)
    × (load.2.next_suggestion ≡ db.next_suggestion)
load_targets_into_db-suggestions_example =
    load_targets_into_db-suggestions (some adapter) now 1 (target 8 ∷ []) [] (b'b' ∷ []) tables db
      orders (omega arith)
