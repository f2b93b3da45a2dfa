-- ===== src/AutoTrade/Pass.antt =====
-- `run_auto_trade_pass` of services/auto_trade.py.
use me_invest_paper.Base.{ℕ, Option, none, some, List, [], ◌∷◌, ◌++◌}
use me_invest_paper.Store.{Suggestion, Mode, Caps}
use me_invest_paper.Calendar.{date_of}
use me_invest_paper.AutoTrade.State.{Env, ok, guard_failure, raised, Action}
use me_invest_paper.AutoTrade.Queries.{get_mode, get_active_caps, fetch_accepted_unexecuted}
use me_invest_paper.AutoTrade.Round.{Outcome, next, break, round}

module _ {W : Type 0} (env : Env W) where
  -- The loop, with the outcomes so far.
  unfoldable pub rounds :
      Option Caps → Mode → List Suggestion → List Outcome → Action W (List Outcome)
  rounds caps mode [] outcomes s = (ok outcomes, s)
  rounds caps mode (sug ∷ rest) outcomes s =
      let (r, s') = round env sug caps mode s in
      elim r [
        | raised ↦ (raised, s')
        | guard_failure g ↦ (guard_failure g, s')
        | ok (next o) ↦ rounds caps mode rest (outcomes ++ o ∷ []) s'
        | ok (break o) ↦ (ok (outcomes ++ o ∷ []), s')
      ]

  -- `as_of` is the date of the run, today if it is not given.
  unfoldable pub run_auto_trade_pass : Option ℕ → Action W (List Outcome)
  run_auto_trade_pass as_of s =
      let suggestions =
        fetch_accepted_unexecuted s.db env.account
          (elim as_of [ none ↦ date_of env.now | some d ↦ d ]) in
      elim (get_mode s.db env.account) [
        | Mode.off ↦ (ok [], s)
        | mode ↦ rounds (get_active_caps s.db) mode suggestions [] s
      ]
