-- ===== src/Jobs/Tests.antt =====
-- The window of jobs/reconciliation.py on the small account, whose order is older than the last run.
use me_invest_paper.Base.{◌-◌, ◌*◌, ◌≤◌, ◌≡◌, refl, ◌⊎◌, some, [], ◌∷◌, map, filter, All}
use me_invest_paper.Calendar.{day}
use me_invest_paper.Store.{Execution, ExecutionStatus}
use me_invest_paper.AutoTrade.Samples.{now, execution}
use me_invest_paper.Jobs.{is_still_open, since_last, window_start}
use me_invest_paper.Jobs.Windows.{window_start_lem}

abbrev open_order : Execution
open_order = record (execution 2 9 8 1 1000000 51 ExecutionStatus.accepted_for_routing 0) {
  created_at = now - 3 * day;
}

reaches_back : window_start now 30 1 (some (now - 3600)) (open_order ∷ []) ≡ now - 3 * day - 3600
unfolding window_start
reaches_back = refl

window_start_lem_example :
    let start = window_start now 30 1 (some (now - 3600)) (open_order ∷ []) in
    (now - 30 * day ≤ start)
    × ((start ≡ now - 30 * day)
        ⊎ ((start ≤ since_last now (some (now - 3600)))
            × All
                (λ t. start ≤ t - 3600)
                (map (λ e. e.created_at) (filter (is_still_open 1) (open_order ∷ [])))))
window_start_lem_example = window_start_lem now 30 1 (some (now - 3600)) (open_order ∷ [])
