-- ===== src/AutoTrade/Simulation.antt =====
-- The simulation mode of services/auto_trade.py.
use mathlib.Core.Path.{fun_ext}
use me_invest_paper.Base.{ℕ, ◌≡◌, refl, ap, ◌∙◌, Bool, Option, List, [], ◌∷◌, inl, inr, filter}
use me_invest_paper.Store.{Suggestion, Execution, Mode, Caps}
use me_invest_paper.Broker.{Adapter, OrderRequest, OrderConfirmation, Submission}
use me_invest_paper.AutoTrade.State.{State, Env, Action, check, Result-cases, ◌>>◌}
use me_invest_paper.AutoTrade.Queries.{get_mode, get_active_caps}
use me_invest_paper.AutoTrade.Guards.{
  is_stale, settle_stales, check_stale_live_order, check_cash_sufficiency, check_idempotency,
  check_wash_sale, check_caps, guards,
}
use me_invest_paper.AutoTrade.Round.{dry_run_round, conclude, round}
use me_invest_paper.AutoTrade.Pass.{run_auto_trade_pass}
use me_invest_paper.AutoTrade.Paper.{with_adapter, pass-same}

module _ {W : Type 0} (env : Env W) (submit : OrderRequest → W → Submission × W)
    (get : ℕ → W → Option OrderConfirmation × W) (cancel : ℕ → W → Bool × W) where
  -- An adapter that agrees with the given one on the account alone.
  abbrev pub other_orders : Adapter W
  other_orders = record env.adapter {
    submit_order = submit;
    get_order = get;
    cancel_order = cancel;
  }

  settle_stales-simulated :
      (es : List Execution) (s : State W)
      → settle_stales other_orders Mode.dry_run es s ≡ settle_stales env.adapter Mode.dry_run es s
  unfolding settle_stales
  settle_stales-simulated [] s = refl
  settle_stales-simulated (e ∷ es) s = refl

  guards-simulated :
      (caps : Option Caps) (sug : Suggestion)
      → guards (with_adapter env other_orders) caps Mode.dry_run sug
        ≡ guards env caps Mode.dry_run sug
  unfolding guards check_stale_live_order check_cash_sufficiency
  guards-simulated caps sug =
      ap
        (λ (k : Action W Unit).
          check (check_idempotency env.account sug Mode.dry_run)
          >> (k
              >> (check (check_wash_sale env.account env.now sug)
                  >> (check (check_caps env.account env.now sug caps Mode.dry_run)
                      >> check_cash_sufficiency env.adapter sug))))
        (fun_ext λ s. settle_stales-simulated (filter (is_stale env.account sug) s.db.executions) s)

  round-simulated :
      (caps : Option Caps) (sug : Suggestion) (s : State W)
      → round (with_adapter env other_orders) sug caps Mode.dry_run s
        ≡ round env sug caps Mode.dry_run s
  unfolding round dry_run_round
  round-simulated caps sug s =
      ap (λ (k : Action W Unit). conclude (with_adapter env other_orders) sug Mode.dry_run k s)
        (guards-simulated caps sug)
      ∙ concluded (guards env caps Mode.dry_run sug)
    where
      concluded :
          (k : Action W Unit)
          → conclude (with_adapter env other_orders) sug Mode.dry_run k s
            ≡ conclude env sug Mode.dry_run k s
      concluded k = elim (Result-cases (k s).0) [
        | inr (inr e) ↦ rw (e, conclude)
        | inr (inl (g, e)) ↦ rw (e, conclude)
        | inl (u, e) ↦ rw (e, conclude)
      ]

  -- A pass in simulation mode submits, reads and cancels no order at the broker: with any other
  -- calls in place of these three it ends in the same way, in the same state.
  pub run_auto_trade_pass-simulated :
      (as_of : Option ℕ) (s : State W)
      → get_mode s.db env.account ≡ Mode.dry_run
      → run_auto_trade_pass (with_adapter env other_orders) as_of s
        ≡ run_auto_trade_pass env as_of s
  run_auto_trade_pass-simulated as_of s mode =
      pass-same env other_orders (get_active_caps s.db) Mode.dry_run
        (λ sug s'. round-simulated (get_active_caps s.db) sug s') as_of s mode refl
