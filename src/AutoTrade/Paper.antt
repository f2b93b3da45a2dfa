-- ===== src/AutoTrade/Paper.antt =====
-- What a pass of services/auto_trade.py never does to the broker: the last layer of the paper-only
-- rule of safety.py, and the promise of the simulation mode. That a call is not made is said by
-- putting any other function in its place.
use me_invest_paper.Base.{
  ℕ, ◌≡◌, refl, sym, ap, ◌∙◌, ◌≢◌, Bool, true, false, Option, some, none, List, [], ◌∷◌, ◌++◌,
  arith, inl, inr, Bool-cases, Option-cases, filter,
}
use mathlib.Core.Path.{fun_ext}
use me_invest_paper.Safety.{assert_paper_only}
use me_invest_paper.Store.{Suggestion, Execution, Mode, Caps, Trigger}
use me_invest_paper.Broker.{Adapter, OrderRequest, Submission}
use me_invest_paper.AutoTrade.State.{State, Env, Result-cases, Action, check, ◌>>◌}
use me_invest_paper.AutoTrade.Queries.{get_mode, get_active_caps}
use me_invest_paper.AutoTrade.Guards.{
  is_stale, is_dry_run, reconcile_stale, reconcile_stales, settle_stales, check_stale_live_order,
  check_cash_sufficiency, check_idempotency, check_wash_sale, check_caps, guards,
}
use me_invest_paper.AutoTrade.KillSwitch.{cancel_recent, cancel_all, trigger_kill_switch}
use me_invest_paper.AutoTrade.Round.{
  Outcome, last_cancelled, dry_run_round, place, adopt_or_place, live_round, conclude, round,
}
use me_invest_paper.AutoTrade.Pass.{rounds, run_auto_trade_pass}
use me_invest_paper.AutoTrade.Loop.{rounds_cases, pass_cases, fetched}

unproven_lem : (paper : Option Bool) → paper ≢ some true → assert_paper_only paper ≡ false
unfolding assert_paper_only
unproven_lem none h = refl
unproven_lem (some true) h = absurd (h refl)
unproven_lem (some false) h = refl

module _ {W : Type 0} (env : Env W) where
  -- The same run with another adapter.
  abbrev pub with_adapter : Adapter W → Env W
  with_adapter a = record env { adapter = a }

  module _ (b : Adapter W) (caps : Option Caps) (mode : Mode)
      (same : (sug : Suggestion) (s : State W)
        → round (with_adapter b) sug caps mode s ≡ round env sug caps mode s) where
    rounds-same :
        (sugs : List Suggestion) (outcomes : List Outcome) (s : State W)
        → rounds (with_adapter b) caps mode sugs outcomes s ≡ rounds env caps mode sugs outcomes s
    unfolding rounds
    rounds-same [] outcomes s = refl
    rounds-same (sug ∷ sugs) outcomes s = elim (rounds_cases env caps mode sug s sugs outcomes) [
      | inl (o, e, _) ↦
          rw (same sug s, e, rounds)
            (rw (same sug s) (rounds-same sugs (outcomes ++ o ∷ []) (round env sug caps mode s).1))
      | inr (inl (o, e, _)) ↦ rw (same sug s, e, rounds) (rw (same sug s))
      | inr (inr (e, _)) ↦ rw (same sug s, e, rounds) (rw (same sug s))
    ]

    pub pass-same :
        (as_of : Option ℕ) (s : State W)
        → get_mode s.db env.account ≡ mode
        → get_active_caps s.db ≡ caps
        → run_auto_trade_pass (with_adapter b) as_of s ≡ run_auto_trade_pass env as_of s
    pass-same as_of s e e' = elim (pass_cases env as_of s) [
      | inl (off, r) ↦ elim (pass_cases (with_adapter b) as_of s) [
        | inl (_, r') ↦ r' ∙ sym r
        | inr (on, _) ↦ absurd (on off)
      ]
      | inr (on, r) ↦ elim (pass_cases (with_adapter b) as_of s) [
        | inl (off, _) ↦ absurd (on off)
        | inr (_, r') ↦ r' ∙ rw (e, e') (rounds-same (fetched env as_of s) [] s) ∙ sym r
      ]
    ]

  module _ (submit : OrderRequest → W → Submission × W) where
    abbrev submitting : Adapter W
    submitting = record env.adapter { submit_order = submit }

    reconcile_stales-submitting :
        (es : List Execution) → reconcile_stales submitting es ≡ reconcile_stales env.adapter es
    unfolding reconcile_stales reconcile_stale
    reconcile_stales-submitting [] = refl
    reconcile_stales-submitting (e ∷ es) =
        ap (λ k. reconcile_stale env.adapter e >> k) (reconcile_stales-submitting es)

    settle_stales-submitting :
        (mode : Mode) (es : List Execution) (s : State W)
        → settle_stales submitting mode es s ≡ settle_stales env.adapter mode es s
    unfolding settle_stales
    settle_stales-submitting mode [] s = refl
    settle_stales-submitting mode (e ∷ es) s = rw (reconcile_stales-submitting (e ∷ es))

    cancel_all-submitting :
        (es : List Execution) (w : W) → cancel_all submitting es w ≡ cancel_all env.adapter es w
    unfolding cancel_all cancel_recent
    cancel_all-submitting [] w = refl
    cancel_all-submitting (e ∷ es) w =
        let (id, w') = cancel_recent env.adapter e w in
        ap (λ (r : List ℕ × W). (id ++ r.0, r.1)) (cancel_all-submitting es w')

    trigger_kill_switch-submitting :
        (trigger : Trigger) (s : State W)
        → trigger_kill_switch (with_adapter submitting) trigger s
          ≡ trigger_kill_switch env trigger s
    unfolding trigger_kill_switch
    trigger_kill_switch-submitting trigger s = rw cancel_all-submitting

    module _ (unproven : assert_paper_only env.adapter.paper ≡ false) where
      place-submitting :
          (sug : Suggestion) (s : State W) → place (with_adapter submitting) sug s ≡ place env sug s
      unfolding place
      place-submitting sug s = rw unproven (rw trigger_kill_switch-submitting)

      adopt_or_place-submitting :
          (sug : Suggestion) (e : Execution) (boid : Option ℕ) (s : State W)
          → adopt_or_place (with_adapter submitting) sug e boid s ≡ adopt_or_place env sug e boid s
      unfolding adopt_or_place
      adopt_or_place-submitting sug e none s = place-submitting sug s
      adopt_or_place-submitting sug e (some boid) s =
          let (answer, w) = env.adapter.get_order boid s.broker in
          ground (arith, place-submitting sug (record s { broker = w }))

      live_round-submitting :
          (sug : Suggestion) (s : State W)
          → live_round (with_adapter submitting) sug s ≡ live_round env sug s
      unfolding live_round
      live_round-submitting sug s = elim (Option-cases (last_cancelled env sug s.db)) [
        | inl e ↦ rw (e, live_round) (place-submitting sug s)
        | inr (r, e) ↦ rw (e, live_round) (adopt_or_place-submitting sug r r.broker_order_id s)
      ]

      guards-submitting :
          (caps : Option Caps) (mode : Mode) (sug : Suggestion)
          → guards (with_adapter submitting) caps mode sug ≡ guards env caps mode sug
      unfolding guards check_stale_live_order check_cash_sufficiency
      guards-submitting caps mode sug =
          ap
            (λ (k : Action W Unit).
              check (check_idempotency env.account sug mode)
              >> (k
                  >> (check (check_wash_sale env.account env.now sug)
                      >> (check (check_caps env.account env.now sug caps mode)
                          >> check_cash_sufficiency env.adapter sug))))
            (fun_ext λ s.
              settle_stales-submitting mode (filter (is_stale env.account sug) s.db.executions) s)

      conclude-submitting :
          (mode : Mode) (sug : Suggestion) (guarded : Action W Unit) (s : State W)
          → conclude (with_adapter submitting) sug mode guarded s ≡ conclude env sug mode guarded s
      unfolding dry_run_round
      conclude-submitting mode sug guarded s =
          let middle : State W = (guarded s).1 in
          elim (Result-cases (guarded s).0) [
            | inr (inr e) ↦ rw (e, conclude)
            | inr (inl (g, e)) ↦ rw (e, conclude)
            | inl (u, e) ↦ elim (Bool-cases (is_dry_run mode)) [
              | inl dry ↦ rw (e, dry, conclude)
              | inr live ↦ rw (e, live, conclude) (rw (live_round-submitting sug middle))
            ]
          ]

      round-submitting :
          (caps : Option Caps) (mode : Mode) (sug : Suggestion) (s : State W)
          → round (with_adapter submitting) sug caps mode s ≡ round env sug caps mode s
      unfolding round
      round-submitting caps mode sug s =
          ap (λ (k : Action W Unit). conclude (with_adapter submitting) sug mode k s)
            (guards-submitting caps mode sug)
          ∙ conclude-submitting mode sug (guards env caps mode sug) s

-- A pass over an adapter that does not prove that it is a paper adapter submits no order: with any
-- other way to submit orders in its place, the pass ends in the same way, in the same state.
pub run_auto_trade_pass-paper_only :
    {W : Type 0} (env : Env W) (submit : OrderRequest → W → Submission × W) (as_of : Option ℕ)
    (s : State W)
    → env.adapter.paper ≢ some true
    → run_auto_trade_pass
        (record env { adapter = record env.adapter { submit_order = submit } })
        as_of
        s
      ≡ run_auto_trade_pass env as_of s
run_auto_trade_pass-paper_only env submit as_of s unproven =
    pass-same env (submitting env submit) (get_active_caps s.db) (get_mode s.db env.account)
      (λ sug s'.
        round-submitting env submit (unproven_lem env.adapter.paper unproven) (get_active_caps s.db)
          (get_mode s.db env.account) sug s')
      as_of s refl refl
