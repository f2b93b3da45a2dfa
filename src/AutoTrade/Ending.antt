-- ===== src/AutoTrade/Ending.antt =====
-- How a pass of services/auto_trade.py ends: its outcomes, the modes and the kill switch.
use me_invest_paper.Base.{
  ℕ, ◌≡◌, refl, sym, ap, ◌∙◌, ◌≢◌, Option, none, some, List, [], ◌∷◌, ◌++◌, map, ◌⊎◌, inl, inr,
  Bool-cases, Option-cases,
}
use mathlib.Core.Path.{subst, ap₂}
use mathlib.Core.List.{append_assoc, append-nil}
use me_invest_paper.Store.{Text, Suggestion, Execution, Mode, off, Trigger, Caps}
use me_invest_paper.Broker.{OrderConfirmation, Submission-cases}
use me_invest_paper.Safety.{assert_paper_only}
use me_invest_paper.AutoTrade.State.{State, Env, Result, ok, raised, Result-cases}
use me_invest_paper.AutoTrade.Queries.{next_client_order_id, get_mode, get_active_caps}
use me_invest_paper.AutoTrade.Guards.{is_dry_run, is_live_status, guards}
use me_invest_paper.AutoTrade.Round.{
  Outcome, Round, next, break, echoes, kill, refused_as, guard, request, dry_run_round, settle,
  place, adopt_or_place, last_cancelled, live_round, conclude, round,
}
use me_invest_paper.AutoTrade.Pass.{rounds, run_auto_trade_pass}
use me_invest_paper.AutoTrade.Loop.{rounds_cases, pass_cases, fetched}
use me_invest_paper.AutoTrade.Halt.{
  Calm, Calm-refl, Calm-trans, guards-Calm, Killed, trigger_kill_switch-Killed, Calm-Killed, Leaves,
}

ok_inj : {A : Type 0} {a b : A} → Path (Result A) (ok a) (ok b) → a ≡ b
ok_inj e = cc

raised_ne : {A : Type 0} {a : A} → Path (Result A) raised (ok a) → ⊥
raised_ne e = cc

module _ {W : Type 0} (env : Env W) (sug : Suggestion) where
  Leaves-of_Calm :
      (r : Round) (s t u : State W) → Calm s t → Leaves env sug r t u → Leaves env sug r s u
  Leaves-of_Calm (next o) s t u calm (id, quiet, c) = (id, quiet, Calm-trans calm c)
  Leaves-of_Calm (break o) s t u calm (id, (trigger, why, no_order, k)) =
      (id, (trigger, why, no_order, Calm-Killed env sug calm k))

  broker_only : (s : State W) (w : W) → Calm s (record s { broker = w })
  broker_only s w = record { modes = refl; log = refl; mails = refl }

  -- The kill switch fires behind a call of the broker.
  kill-Leaves :
      (trigger : Trigger) (boid : Option ℕ) (s : State W) (w : W)
      → let (r, s') = kill env sug trigger boid (record s { broker = w }) in Leaves env sug r s s'
  kill-Leaves trigger boid s w = (
    refl,
    (
      trigger,
      refl,
      refl,
      Calm-Killed env sug (broker_only s w)
          (trigger_kill_switch-Killed env sug trigger (record s { broker = w })),
    ),
  )

  settle-Leaves :
      (id : Text) (conf : OrderConfirmation) (s : State W)
      → let (r, s') = settle env sug id conf s in Leaves env sug r s s'
  unfolding settle
  settle-Leaves id conf s =
      let (answer, w) = env.adapter.get_order conf.broker_order_id s.broker in
      let boid = some conf.broker_order_id in
      elim (Option-cases answer) [
        | inl e ↦ rw (e, settle) (kill-Leaves Trigger.readback_failed boid s w)
        | inr (back, e) ↦
            rw (e, settle)
              (elim (Bool-cases (echoes env sug back.client_order_id id)) [
                | inl same ↦
                    rw (same, settle)
                      (refl, (λ t. cc), record { modes = refl; log = refl; mails = refl })
                | inr other ↦ rw (other, settle) (kill-Leaves Trigger.readback_mismatch boid s w)
              ])
      ]

  place-Leaves : (s : State W) → let (r, s') = place env sug s in Leaves env sug r s s'
  unfolding place
  place-Leaves s =
      let id = next_client_order_id s.db sug in
      let (answer, w) = env.adapter.submit_order (request env sug id) s.broker in
      let s' : State W = record s { broker = w } in
      elim (Bool-cases (assert_paper_only env.adapter.paper)) [
        | inr blocked ↦ rw (blocked, place) (kill-Leaves Trigger.broker_error none s s.broker)
        | inl paper ↦
            rw (paper, place)
              (elim (Submission-cases answer) [
                | inl invalid ↦ rw (invalid, place) (refl, (λ t. cc), broker_only s w)
                | inr (inl failed) ↦ rw (failed, place) (kill-Leaves Trigger.broker_error none s w)
                | inr (inr (conf, e)) ↦
                    rw (e, place)
                      (Leaves-of_Calm (settle env sug id conf s').0 s s'
                        (settle env sug id conf s').1 (broker_only s w) (settle-Leaves id conf s'))
              ])
      ]

  adopt_or_place-Leaves :
      (e : Execution) (boid : Option ℕ) (s : State W)
      → let (r, s') = adopt_or_place env sug e boid s in Leaves env sug r s s'
  unfolding adopt_or_place
  adopt_or_place-Leaves e none s = place-Leaves s
  adopt_or_place-Leaves e (some boid) s =
      let (answer, w) = env.adapter.get_order boid s.broker in
      let s' : State W = record s { broker = w } in
      let placed =
        Leaves-of_Calm (place env sug s').0 s s' (place env sug s').1 (broker_only s w)
          (place-Leaves s') in
      elim (Option-cases answer) [
        | inl failed ↦ rw (failed, adopt_or_place) placed
        | inr (prev, got) ↦
            rw (got, adopt_or_place)
              (elim (Bool-cases (is_live_status prev.status)) [
                | inl working ↦
                    rw (working, adopt_or_place)
                      (refl, (λ t. cc), record { modes = refl; log = refl; mails = refl })
                | inr done ↦ rw (done, adopt_or_place) placed
              ])
      ]

  live_round-Leaves : (s : State W) → let (r, s') = live_round env sug s in Leaves env sug r s s'
  unfolding live_round
  live_round-Leaves s = elim (Option-cases (last_cancelled env sug s.db)) [
    | inl e ↦ rw (e, live_round) (place-Leaves s)
    | inr (r, e) ↦ rw (e, live_round) (adopt_or_place-Leaves r r.broker_order_id s)
  ]

  dry_run_round-Leaves :
      (s : State W) → let (r, s') = dry_run_round env sug s in Leaves env sug r s s'
  unfolding dry_run_round
  dry_run_round-Leaves s = (refl, (λ t. cc), record { modes = refl; log = refl; mails = refl })

  round-Leaves :
      (caps : Option Caps) (mode : Mode) (s : State W)
      → let (r, s') = round env sug caps mode s in
        ((o : Round) × (r ≡ ok o) × Leaves env sug o s s') ⊎ (r ≡ raised)
  unfolding round
  round-Leaves caps mode s =
      let middle : State W = (guards env caps mode sug s).1 in
      let calm = guards-Calm env sug caps mode s in
      elim (Result-cases (guards env caps mode sug s).0) [
        | inr (inr e) ↦ inr (rw (e, round, conclude))
        | inr (inl (g, e)) ↦ inl (
          next (refused_as env sug (is_dry_run mode) none (guard g)),
          rw (e, round, conclude),
          rw (e, round, conclude) (refl, (λ t. cc), calm),
        )
        | inl (u, e) ↦ elim (Bool-cases (is_dry_run mode)) [
          | inl dry ↦ inl (
            (dry_run_round env sug middle).0,
            rw (e, dry, round, conclude),
            rw (e, dry, round, conclude)
                (Leaves-of_Calm (dry_run_round env sug middle).0 s middle
                  (dry_run_round env sug middle).1 calm (dry_run_round-Leaves middle)),
          )
          | inr live ↦ inl (
            (live_round env sug middle).0,
            rw (e, live, round, conclude),
            rw (e, live, round, conclude)
                (Leaves-of_Calm (live_round env sug middle).0 s middle (live_round env sug middle).1
                  calm (live_round-Leaves middle)),
          )
        ]
      ]

  pub next-Leaves :
      (caps : Option Caps) (mode : Mode) (s : State W) (o : Round)
      → (round env sug caps mode s).0 ≡ ok o
      → Leaves env sug o s (round env sug caps mode s).1
  next-Leaves caps mode s o e = elim (round-Leaves caps mode s) [
    | inl (o', e', h) ↦ subst (λ x. Leaves env sug x s (round env sug caps mode s).1) (cc) h
    | inr e' ↦ cc
  ]

abbrev pub ids : List Outcome → List ℕ
ids = map (λ o. o.suggestion_id)

abbrev pub sug_ids : List Suggestion → List ℕ
sug_ids = map (λ sug. sug.id)

module _ {W : Type 0} (env : Env W) where
  -- How a run over suggestions ends: with an outcome for each in turn and nothing else changed, or
  -- at the first whose order fired the kill switch, with an outcome for each up to that one.
  pub data Ended (sugs : List Suggestion) (outcomes : List Outcome) (before after : State W)
      : Type 0 where
    finished : ids outcomes ≡ sug_ids sugs → Calm before after → Ended sugs outcomes before after
    halted :
        (done : List Suggestion) (sug : Suggestion) (rest : List Suggestion) (trigger : Trigger)
        → sugs ≡ done ++ sug ∷ rest
        → ids outcomes ≡ sug_ids done ++ sug.id ∷ []
        → Killed env sug trigger before after
        → Ended sugs outcomes before after

  Ended-cons :
      (sug : Suggestion) (o : Outcome) (sugs : List Suggestion) (outcomes : List Outcome)
      (r s t : State W)
      → o.suggestion_id ≡ sug.id
      → Calm r s
      → Ended sugs outcomes s t
      → Ended (sug ∷ sugs) (o ∷ outcomes) r t
  Ended-cons sug o sugs outcomes r s t e calm (finished same c) =
      finished (ap₂ (λ x xs. x ∷ xs) e same) (Calm-trans calm c)
  Ended-cons sug o sugs outcomes r s t e calm (halted done last rest trigger split same k) =
      halted (sug ∷ done) last rest trigger (ap (λ xs. sug ∷ xs) split)
        (ap₂ (λ x xs. x ∷ xs) e same) (Calm-Killed env last calm k)

  rounds-Ended :
      (caps : Option Caps) (mode : Mode) (sugs : List Suggestion) (acc outcomes : List Outcome)
      (s : State W)
      → (rounds env caps mode sugs acc s).0 ≡ ok outcomes
      → (new : List Outcome) × (outcomes ≡ acc ++ new)
        × Ended sugs new s (rounds env caps mode sugs acc s).1
  unfolding rounds
  rounds-Ended caps mode [] acc outcomes s e =
      ([], ok_inj (sym e) ∙ sym (append-nil acc), finished refl (Calm-refl s))
  rounds-Ended caps mode (sug ∷ sugs) acc outcomes s e =
      let s' : State W = (round env sug caps mode s).1 in
      elim (rounds_cases env caps mode sug s sugs acc) [
        | inl (o, this, after) ↦
            let (id, _, calm) = next-Leaves env sug caps mode s (next o) this in
            let (new, split, rest) =
              rounds-Ended caps mode sugs (acc ++ o ∷ []) outcomes s' (rw after at e) in
            (
              o ∷ new,
              split ∙ append_assoc acc (o ∷ []) new,
              rw after (Ended-cons sug o sugs new s s' _ id calm rest),
            )
        | inr (inl (o, this, after)) ↦
            let (id, (trigger, _, _, k)) = next-Leaves env sug caps mode s (break o) this in
            (
              o ∷ [],
              ok_inj (sym (rw after at e)),
              rw after (halted [] sug sugs trigger refl (ap (λ x. x ∷ []) id) k),
            )
        | inr (inr (this, after)) ↦ absurd (raised_ne (rw after at e))
      ]

-- A pass that returns has left everything as it was, with no outcome, in the mode `off`. In any
-- other mode it goes through the suggestions that it fetches, the accepted ones of the account and the
-- week without those that have a real execution which is not cancelled at the broker. It has an outcome for each
-- of these, in order, and neither a mode nor the log has changed; or it has broken off at the first of
-- them whose order fired the kill switch, has an outcome for each up to that one, and has turned the mode of its account off
-- and that of no other, with one new entry in the log and one alert mail for the same trigger.
pub run_auto_trade_pass-Ended :
    {W : Type 0} (env : Env W) (as_of : Option ℕ) (s : State W) (outcomes : List Outcome)
    → (run_auto_trade_pass env as_of s).0 ≡ ok outcomes
    → ((get_mode s.db env.account ≡ off)
        × (outcomes ≡ [])
        × ((run_auto_trade_pass env as_of s).1 ≡ s))
      ⊎ ((get_mode s.db env.account ≢ off)
          × Ended env (fetched env as_of s) outcomes s (run_auto_trade_pass env as_of s).1)
run_auto_trade_pass-Ended env as_of s outcomes e = elim (pass_cases env as_of s) [
  | inl (idle, r) ↦ inl (idle, ok_inj (sym (rw r at e)), rw r)
  | inr (on, r) ↦
      let (new, split, ended) =
        rounds-Ended env (get_active_caps s.db) (get_mode s.db env.account) (fetched env as_of s) []
          outcomes s (rw r at e) in
      inr (on, rw r (rw split ended))
]
