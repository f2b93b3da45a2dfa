-- ===== src/AutoTrade/Halt.antt =====
-- What a round of services/auto_trade.py leaves of the modes, the log and the mails: nothing new,
-- or the marks of the kill switch.
use me_invest_paper.Base.{
  ℕ, ◌≡◌, refl, ◌∙◌, ◌≢◌, false, Option, some, List, [], ◌∷◌, ◌++◌, arith, inl, inr, filter,
}
use me_invest_paper.Store.{Suggestion, Execution, Mode, off, Trigger, Caps, KillSwitchLog}
use me_invest_paper.Broker.{Adapter}
use me_invest_paper.AutoTrade.State.{State, Env, Result-cases, >>-of_ok, >>-of_ne_ok}
use me_invest_paper.AutoTrade.Queries.{get_mode, set_mode}
use me_invest_paper.AutoTrade.Guards.{
  is_stale, reconcile_stale, reconcile_stales, settle_stales, check_stale_live_order,
  check_cash_sufficiency, guards,
}
use me_invest_paper.AutoTrade.KillSwitch.{is_recent, cancel_all, trigger_kill_switch}
use me_invest_paper.AutoTrade.Round.{Round, next, break, kill_switch}
use me_invest_paper.AutoTrade.Modes.{trigger_kill_switch-get_mode}

module _ {W : Type 0} where
  -- The modes, the kill switch's log and the alert mails are as they were.
  pub record Calm (before after : State W) : Type 0 where
    pub modes : after.db.states ≡ before.db.states
    pub log : after.db.kill_log ≡ before.db.kill_log
    pub mails : after.alerts ≡ before.alerts

  pub Calm-refl : (s : State W) → Calm s s
  Calm-refl s = record { modes = refl; log = refl; mails = refl }

  pub Calm-trans : {r s t : State W} → Calm r s → Calm s t → Calm r t
  Calm-trans p q = record {
    modes = q.modes ∙ p.modes;
    log = q.log ∙ p.log;
    mails = q.mails ∙ p.mails;
  }

  module _ (adapter : Adapter W) where
    reconcile_stale-Calm : (e : Execution) (s : State W) → Calm s (reconcile_stale adapter e s).1
    unfolding reconcile_stale
    reconcile_stale-Calm e s = ground arith

    reconcile_stales-Calm :
        (es : List Execution) (s : State W) → Calm s (reconcile_stales adapter es s).1
    unfolding reconcile_stales
    reconcile_stales-Calm [] s = Calm-refl s
    reconcile_stales-Calm (e ∷ es) s =
        let first = reconcile_stale-Calm e s in
        let then_rest = reconcile_stales-Calm es (reconcile_stale adapter e s).1 in
        elim (Result-cases (reconcile_stale adapter e s).0) [
          | inl (u, going) ↦
              rw (>>-of_ok (reconcile_stale adapter e) (reconcile_stales adapter es) s going)
                (Calm-trans first then_rest)
          | inr (inl (g, e')) ↦
              rw (>>-of_ne_ok (reconcile_stale adapter e) (reconcile_stales adapter es) s (λ h. cc))
                first
          | inr (inr e') ↦
              rw (>>-of_ne_ok (reconcile_stale adapter e) (reconcile_stales adapter es) s (λ h. cc))
                first
        ]

    settle_stales-Calm :
        (mode : Mode) (es : List Execution) (s : State W)
        → Calm s (settle_stales adapter mode es s).1
    unfolding settle_stales
    settle_stales-Calm mode [] s = Calm-refl s
    settle_stales-Calm mode (e ∷ es) s = ground (arith, reconcile_stales-Calm (e ∷ es) s)

  module _ (env : Env W) (sug : Suggestion) where
    pub guards-Calm :
        (caps : Option Caps) (mode : Mode) (s : State W) → Calm s (guards env caps mode sug s).1
    unfolding guards check_stale_live_order check_cash_sufficiency
    guards-Calm caps mode s = ground (
      arith,
      settle_stales-Calm env.adapter mode (filter (is_stale env.account sug) s.db.executions) s,
    )

    -- The kill switch has fired with the trigger: the account's mode is off, no other mode has
    -- changed, and one entry of the log and one alert mail are new.
    pub record Killed (trigger : Trigger) (before after : State W) : Type 0 where
      pub off_now : get_mode after.db env.account ≡ off
      pub others :
          (account : ℕ)
          → account ≢ env.account
          → get_mode after.db account ≡ get_mode before.db account
      pub entry : KillSwitchLog
      pub logged : after.db.kill_log ≡ before.db.kill_log ++ entry ∷ []
      pub reason : entry.trigger ≡ trigger
      pub mailed : after.alerts ≡ before.alerts ++ trigger ∷ []

    pub trigger_kill_switch-Killed :
        (trigger : Trigger) (s : State W) → Killed trigger s (trigger_kill_switch env trigger s)
    unfolding trigger_kill_switch set_mode
    trigger_kill_switch-Killed trigger s = record {
      off_now = trigger_kill_switch-get_mode env trigger s env.account ∙ ground arith;
      others = λ account ne. trigger_kill_switch-get_mode env trigger s account ∙ ground arith;
      entry = record {
        ts = env.now;
        trigger = trigger;
        cancelled_order_ids =
            (cancel_all env.adapter (filter (is_recent env.account env.now) s.db.executions)
              s.broker).0;
      };
      logged = refl;
      reason = refl;
      mailed = refl;
    }

    pub Calm-Killed :
        {trigger : Trigger} {r s t : State W} → Calm r s → Killed trigger s t → Killed trigger r t
    unfolding get_mode
    Calm-Killed calm k = record {
      off_now = k.off_now;
      others = λ account ne. k.others account ne ∙ rw calm.modes;
      entry = k.entry;
      logged = k.logged ∙ rw calm.log;
      reason = k.reason;
      mailed = k.mailed ∙ rw calm.mails;
    }

    -- What a round leaves, by how it ends. A round that goes on has fired no kill switch, and one
    -- that breaks off has.
    abbrev pub Leaves : Round → State W → State W → Type 0
    Leaves (next o) before after =
        (o.suggestion_id ≡ sug.id)
        × ((trigger : Trigger) → o.rejected_reason ≢ some (kill_switch trigger))
        × Calm before after
    Leaves (break o) before after =
        (o.suggestion_id ≡ sug.id)
        × ((trigger : Trigger) × (o.rejected_reason ≡ some (kill_switch trigger))
            × (o.placed ≡ false)
            × Killed trigger before after)
