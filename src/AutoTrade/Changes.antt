-- ===== src/AutoTrade/Changes.antt =====
-- What one round of the loop in services/auto_trade.py does to the table of executions, behind
-- its guards: nothing, one new row, or one row adopted again.
use me_invest_paper.Base.{
  ℕ, ◌+◌, ◌≡◌, refl, Bool, true, false, Option, some, none, [], ◌∷◌, ◌++◌, arith, Has, Has-filter,
  Has-latest_by, ◌⊎◌, inl, inr, Bool-cases, Option-cases,
}
use me_invest_paper.Base.Rows.{update}
use me_invest_paper.Store.{
  Text, Suggestion, Execution, ExecutionStatus, Mode, Trigger, Caps, Db, is_rejected,
}
use me_invest_paper.Broker.{OrderConfirmation, Submission-cases}
use me_invest_paper.AutoTrade.State.{State, Env, ok, Result-cases}
use me_invest_paper.AutoTrade.Queries.{next_client_order_id, set_mode}
use me_invest_paper.AutoTrade.Guards.{is_live_status, is_dry_run, guards}
use me_invest_paper.AutoTrade.Rows.{IsKeyed, set_execution-IsKeyed, add_execution-IsKeyed}
use me_invest_paper.AutoTrade.KillSwitch.{trigger_kill_switch}
use me_invest_paper.AutoTrade.Round.{
  request, placement, dry_run_broker, dry_run_round, settle, place, is_readoptable, readopt,
  adopt_or_place, last_cancelled, live_round, conclude, round,
}
use me_invest_paper.ClientId.{format}
use me_invest_paper.Safety.{assert_paper_only}

module _ {W : Type 0} (env : Env W) where
  -- The rows and their next key are as they were.
  abbrev pub Kept : Db → Db → Type 0
  Kept before after =
      (after.executions ≡ before.executions) × (after.next_execution ≡ before.next_execution)

  pub trigger_kill_switch-Kept :
      (trigger : Trigger) (s : State W) → Kept s.db (trigger_kill_switch env trigger s).db
  unfolding trigger_kill_switch set_mode
  trigger_kill_switch-Kept trigger s = (refl, refl)

  module _ (sug : Suggestion) where
    -- One row more: a placement of the suggestion.
    abbrev pub Added : Text → Bool → Option ℕ → Text → ExecutionStatus → Db → Db → Type 0
    Added broker dry boid client_order_id status before after =
        (after.executions
          ≡ before.executions
            ++ placement env sug broker dry boid client_order_id status before.next_execution ∷ [])
        × (after.next_execution ≡ before.next_execution + 1)

    -- A live placement with the next client order id.
    abbrev pub AddedLive : Text → ℕ → Db → Db → Type 0
    AddedLive client_order_id boid =
        Added env.broker false (some boid) client_order_id ExecutionStatus.accepted_for_routing

    settle_cases :
        (client_order_id : Text) (conf : OrderConfirmation) (s : State W)
        → let after = (settle env sug client_order_id conf s).1.db in
          Kept s.db after ⊎ AddedLive client_order_id conf.broker_order_id s.db after
    unfolding settle
    settle_cases client_order_id conf s = ground (
      arith,
      trigger_kill_switch-Kept Trigger.readback_failed
          (record s { broker = (env.adapter.get_order conf.broker_order_id s.broker).1 }),
      trigger_kill_switch-Kept Trigger.readback_mismatch
          (record s { broker = (env.adapter.get_order conf.broker_order_id s.broker).1 }),
    )

    pub data Change (dry : Bool) (before after : Db) : Type 0 where
      kept : Kept before after → Change dry before after
      added :
          (broker : Text) (boid : Option ℕ) (client_order_id : Text) (status : ExecutionStatus)
          → is_rejected status ≡ false
          → Added broker dry boid client_order_id status before after
          → Change dry before after
      adopted :
          (e : Execution)
          → Has e before.executions
          → is_readoptable env sug e ≡ true
          → dry ≡ false
          → after.executions ≡ update (λ r. r.id) e.id (readopt env sug) before.executions
          → after.next_execution ≡ before.next_execution
          → Change dry before after

    settle-Change :
        (client_order_id : Text) (conf : OrderConfirmation) (s : State W)
        → Change false s.db (settle env sug client_order_id conf s).1.db
    settle-Change client_order_id conf s = elim (settle_cases client_order_id conf s) [
      | inl same ↦ kept same
      | inr new ↦
          added env.broker (some conf.broker_order_id) client_order_id
            ExecutionStatus.accepted_for_routing refl new
    ]

    place-Change : (s : State W) → Change false s.db (place env sug s).1.db
    unfolding place
    place-Change s =
        let client_order_id = next_client_order_id s.db sug in
        let (answer, w) = env.adapter.submit_order (request env sug client_order_id) s.broker in
        elim (Bool-cases (assert_paper_only env.adapter.paper)) [
          | inr blocked ↦ rw blocked (kept (trigger_kill_switch-Kept Trigger.broker_error s))
          | inl paper ↦ rw paper (elim (Submission-cases answer) [
            | inl invalid ↦ rw invalid (kept (refl, refl))
            | inr (inl failed) ↦
                rw failed
                  (kept (trigger_kill_switch-Kept Trigger.broker_error (record s { broker = w })))
            | inr (inr (conf, e)) ↦
                rw e (settle-Change client_order_id conf (record s { broker = w }))
          ])
        ]

    dry_run_round-Change : (s : State W) → Change true s.db (dry_run_round env sug s).1.db
    unfolding dry_run_round
    dry_run_round-Change s =
        added dry_run_broker none (format sug.id 0) ExecutionStatus.dry_run refl (refl, refl)

    adopt_or_place-Change :
        (e : Execution) (boid : Option ℕ) (s : State W)
        → Has e s.db.executions
        → is_readoptable env sug e ≡ true
        → Change false s.db (adopt_or_place env sug e boid s).1.db
    unfolding adopt_or_place
    adopt_or_place-Change e none s m t = place-Change s
    adopt_or_place-Change e (some boid) s m t =
        let (answer, w) = env.adapter.get_order boid s.broker in
        let after : State W = record s { broker = w } in
        elim (Option-cases answer) [
          | inl failed ↦ rw (failed, adopt_or_place) (place-Change after)
          | inr (prev, got) ↦
              rw (got, adopt_or_place)
                (elim (Bool-cases (is_live_status prev.status)) [
                  | inl working ↦ rw working (adopted e m t refl refl refl)
                  | inr done ↦ rw done (place-Change after)
                ])
        ]

    live_round-Change : (s : State W) → Change false s.db (live_round env sug s).1.db
    unfolding live_round
    live_round-Change s = elim (Option-cases (last_cancelled env sug s.db)) [
      | inl no_row ↦ rw (no_row, live_round) (place-Change s)
      | inr (e, found) ↦
          let m = Has-latest_by (λ r. r.created_at) e _ found in
          let (row, t) = Has-filter (is_readoptable env sug) e s.db.executions m in
          rw (found, live_round) (adopt_or_place-Change e e.broker_order_id s row t)
    ]

    -- Behind its guards a round makes at most one change, and none unless they pass.
    pub round-Change :
        (caps : Option Caps) (mode : Mode) (s : State W)
        → let before = (guards env caps mode sug s).1.db in
          let after = (round env sug caps mode s).1.db in
          Kept before after
          ⊎ ((guards env caps mode sug s).0 ≡ ok tt) × Change (is_dry_run mode) before after
    unfolding round
    round-Change caps mode s =
        let middle : State W = (guards env caps mode sug s).1 in
        elim (Result-cases (guards env caps mode sug s).0) [
          | inr (inr raise) ↦ rw (raise, round, conclude) (inl (refl, refl))
          | inr (inl (g, refused)) ↦ rw (refused, round, conclude) (inl (refl, refl))
          | inl (u, passed) ↦ elim (Bool-cases (is_dry_run mode)) [
            | inl dry ↦ rw (passed, dry, round, conclude) (inr (refl, dry_run_round-Change middle))
            | inr live ↦ rw (passed, live, round, conclude) (inr (refl, live_round-Change middle))
          ]
        ]

    pub Change-IsKeyed :
        {dry : Bool} {before after : Db} → Change dry before after → IsKeyed before → IsKeyed after
    Change-IsKeyed (kept (e, n)) k = record {
      distinct = rw e k.distinct;
      fresh = rw (e, n) k.fresh;
    }
    Change-IsKeyed {dry} {before} (added broker boid id status _ (e, n)) k =
        let k' =
          add_execution-IsKeyed (placement env sug broker dry boid id status) before (λ _. refl)
            k in
        record { distinct = rw e k'.distinct; fresh = rw (e, n) k'.fresh }
    Change-IsKeyed {before = before} (adopted r m t d e n) k =
        let k' = set_execution-IsKeyed r.id (readopt env sug) before (λ _. refl) k in
        record { distinct = rw e k'.distinct; fresh = rw (e, n) k'.fresh }
