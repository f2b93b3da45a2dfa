-- ===== src/Web/Stops.antt =====
-- What the emergency stop of main.py does to the modes of the accounts.
use me_invest_paper.Base.{
  ℕ, ◌≡◌, refl, ap, ◌∙◌, inl, inr, Bool, true, Option, List, [], ◌∷◌, ◌==◌, filter, present, arith,
  Bool-cases, Option-cases, if◌then◌else◌,
}
use me_invest_paper.Store.{Text, Mode, off, Trigger}
use me_invest_paper.Broker.{Adapter}
use me_invest_paper.Accounts.{BrokerAccount}
use me_invest_paper.AutoTrade.State.{State}
use me_invest_paper.AutoTrade.Queries.{get_mode}
use me_invest_paper.AutoTrade.KillSwitch.{trigger_kill_switch}
use me_invest_paper.AutoTrade.Modes.{trigger_kill_switch-get_mode}
use me_invest_paper.Web.Reply.{ok, token_auth, all, resolve_scope, Reply-cases, OnOk, on_ok}
use me_invest_paper.Web.Stopping.{
  is_member, is_any, env_of, stop_each, admin_auto_trade_emergency_stop,
}

stop_step :
    (here rest : Bool) (before between : Mode)
    → between ≡ (if here then off else before)
    → (if rest then off else between) ≡ (if (if here then true else rest) then off else before)
stop_step here rest before between e = ground arith

module _ {W : Type 0} (adapters : ℕ → Option (Adapter W)) (broker_of : ℕ → Text) (now : ℕ) where
  abbrev pub has_adapter : ℕ → Bool
  has_adapter ref = present (adapters ref)

  stop_each_lem :
      (refs : List ℕ) (s : State W)
      → let (stopped, s') = stop_each adapters broker_of now refs s in
        (stopped ≡ filter has_adapter refs)
        × ((other : ℕ)
            → get_mode s'.db other
              ≡ (if is_member (filter has_adapter refs) other then off else get_mode s.db other))
  unfolding stop_each
  stop_each_lem [] s = (refl, λ other. refl)
  stop_each_lem (ref ∷ refs) s = elim (Option-cases (adapters ref)) [
    | inl missing ↦ rw (missing, stop_each) (stop_each_lem refs s)
    | inr (adapter, known) ↦
        let s₁ = trigger_kill_switch (env_of adapters broker_of now ref adapter) Trigger.manual s in
        let (ids, modes) = stop_each_lem refs s₁ in
        rw (known, stop_each)
          (
            ap (λ l. ref ∷ l) ids,
            λ other.
                modes other
                ∙ stop_step (ref == other) (is_member (filter has_adapter refs) other)
                    (get_mode s.db other) (get_mode s₁.db other)
                    (trigger_kill_switch-get_mode (env_of adapters broker_of now ref adapter)
                      Trigger.manual s other),
          )
  ]

  Stopped : List BrokerAccount → Text → Text → Option ℕ → State W → List ℕ × State W → Type 0
  Stopped rows admin_token header account s (stopped, s') =
      (token_auth admin_token header ≡ ok tt)
      × ((refs : List ℕ) × (resolve_scope rows account all ≡ ok refs)
          × (is_any refs ≡ true)
          × (stopped ≡ filter has_adapter refs)
          × ((other : ℕ)
              → get_mode s'.db other
                ≡ (if is_member stopped other then off else get_mode s.db other)))

  emergency_stop-Stopped :
      (rows : List BrokerAccount) (admin_token header : Text) (account : Option ℕ) (s : State W)
      → OnOk
          (Stopped rows admin_token header account s)
          (admin_auto_trade_emergency_stop adapters broker_of now rows admin_token header account s)
  unfolding admin_auto_trade_emergency_stop Stopped
  emergency_stop-Stopped rows admin_token header account s =
      elim (Reply-cases (token_auth admin_token header)) [
        | inr (status, refused) ↦ rw (refused, admin_auto_trade_emergency_stop) tt
        | inl (u, granted) ↦ elim (Reply-cases (resolve_scope rows account all)) [
          | inr (status, unknown) ↦ rw (granted, unknown, admin_auto_trade_emergency_stop) tt
          | inl (refs, scope) ↦ elim (Bool-cases (is_any refs)) [
            | inr empty ↦ rw (granted, scope, empty, admin_auto_trade_emergency_stop) tt
            | inl some_ref ↦
                let (ids, modes) = stop_each_lem refs s in
                rw (granted, scope, some_ref, admin_auto_trade_emergency_stop)
                  (granted, (refs, scope, some_ref, ids, λ other. rw ids (modes other)))
          ]
        ]
      ]

  -- When the emergency stop answers without an error, the administrator's token was given and the scope
  -- is not empty; auto-trading is off for exactly the accounts of the scope that have an adapter, whose
  -- references are returned, and the mode of every other account is as it was: an account of the scope
  -- that has no adapter keeps its mode, and its reference is not among those returned.
  pub emergency_stop-get_mode :
      (rows : List BrokerAccount) (admin_token header : Text) (account : Option ℕ) (s : State W)
      (stopped : List ℕ) (s' : State W)
      → admin_auto_trade_emergency_stop adapters broker_of now rows admin_token header account s
        ≡ ok (stopped, s')
      → (token_auth admin_token header ≡ ok tt)
        × ((refs : List ℕ) × (resolve_scope rows account all ≡ ok refs)
            × (is_any refs ≡ true)
            × (stopped ≡ filter has_adapter refs)
            × ((other : ℕ)
                → get_mode s'.db other
                  ≡ (if is_member stopped other then off else get_mode s.db other)))
  unfolding Stopped
  emergency_stop-get_mode rows admin_token header account s stopped s' e =
      on_ok (Stopped rows admin_token header account s) e
        (emergency_stop-Stopped rows admin_token header account s)
