-- ===== src/AutoTrade/Lost.antt =====
-- An order that the broker has confirmed and that cannot be read back, in services/auto_trade.py.
use me_invest_paper.Base.{
  ℕ, ◌≡◌, refl, ap, sym, ◌≢◌, some, List, [], ◌∷◌, ◌++◌, arith, All, All-append, All-filter, filter,
  inl, inr, Bool, false, Option, ◌==◌, ==_iff, ◌∙◌, Bool-cases, Option-cases, if◌then◌else◌,
}
use me_invest_paper.Store.{Text, Suggestion, Execution, Trigger, KillSwitchLog}
use me_invest_paper.Broker.{Adapter, OrderConfirmation}
use me_invest_paper.AutoTrade.State.{State, Env}
use me_invest_paper.AutoTrade.Queries.{set_mode}
use me_invest_paper.AutoTrade.Paper.{with_adapter}
use me_invest_paper.AutoTrade.KillSwitch.{is_recent, cancel_recent, cancel_all, trigger_kill_switch}
use me_invest_paper.AutoTrade.Round.{Outcome, next, break, echoes, kill, settle}

abbrev pub Unknown : ℕ → Execution → Type 0
Unknown boid e = e.broker_order_id ≢ some boid

module _ {W : Type 0} (adapter : Adapter W) (boid : ℕ) where
  cancel_recent-ne :
      (e : Execution) (w : W) → Unknown boid e → All (λ b. b ≢ boid) (cancel_recent adapter e w).0
  unfolding cancel_recent
  cancel_recent-ne e w ne = ground arith

  cancel_all-ne :
      (es : List Execution) (w : W)
      → All (Unknown boid) es
      → All (λ b. b ≢ boid) (cancel_all adapter es w).0
  unfolding cancel_all
  cancel_all-ne [] w h = tt
  cancel_all-ne (e ∷ es) w h =
      let (id, w') = cancel_recent adapter e w in
      All-append (λ b. b ≢ boid) id (cancel_all adapter es w').0 (cancel_recent-ne e w h.0)
        (cancel_all-ne es w' h.1)

module _ {W : Type 0} (adapter : Adapter W) (boid : ℕ) (other : W → Bool × W) where
  -- An adapter that agrees with the given one except when it is told to cancel this order.
  abbrev pub other_cancel : Adapter W
  other_cancel = record adapter {
    cancel_order = λ b w. if b == boid then other w else adapter.cancel_order b w;
  }

  cancel_recent-other_cancel :
      (e : Execution) (w : W)
      → Unknown boid e
      → cancel_recent other_cancel e w ≡ cancel_recent adapter e w
  unfolding cancel_recent
  cancel_recent-other_cancel e w ne = elim (Option-cases e.broker_order_id) [
    | inl none_there ↦ rw (none_there, cancel_recent) refl
    | inr (b, there) ↦
        let differs : (b == boid) ≡ false = elim (Bool-cases (b == boid)) [
          | inl same ↦ absurd (ne (there ∙ ap some ((==_iff b boid).0 same)))
          | inr differs ↦ differs
        ] in
        rw (there, cancel_recent, differs) refl
  ]

  cancel_all-other_cancel :
      (es : List Execution) (w : W)
      → All (Unknown boid) es
      → cancel_all other_cancel es w ≡ cancel_all adapter es w
  unfolding cancel_all
  cancel_all-other_cancel [] w h = refl
  cancel_all-other_cancel (e ∷ es) w h =
      rw (cancel_recent-other_cancel e w h.0)
        (rw (cancel_all-other_cancel es (cancel_recent adapter e w).1 h.1) refl)

next_ne : {a b : Outcome} → next a ≡ break b → ⊥
next_ne e = cc

break_inj : {a b : Outcome} → break a ≡ break b → a ≡ b
break_inj e = cc

-- A round that breaks off behind a confirmed order has fired the kill switch for that order.
settle-break :
    {W : Type 0} (env : Env W) (sug : Suggestion) (id : Text) (conf : OrderConfirmation)
    (s : State W) (o : Outcome)
    → (settle env sug id conf s).0 ≡ break o
    → let w = (env.adapter.get_order conf.broker_order_id s.broker).1 in
      (trigger : Trigger) × (settle env sug id conf s
        ≡ kill env sug trigger (some conf.broker_order_id) (record s { broker = w }))
unfolding settle
settle-break env sug id conf s o e =
    let answer = (env.adapter.get_order conf.broker_order_id s.broker).0 in
    elim (Option-cases answer) [
      | inl failed ↦ (Trigger.readback_failed, rw (failed, settle))
      | inr (back, got) ↦ elim (Bool-cases (echoes env sug back.client_order_id id)) [
        | inl same ↦ absurd (next_ne (rw (got, same, settle) at e))
        | inr other ↦ (Trigger.readback_mismatch, rw (got, other, settle))
      ]
    ]

trigger_kill_switch-other_cancel :
    {W : Type 0} (env : Env W) (boid : ℕ) (other : W → Bool × W) (trigger : Trigger) (s : State W)
    → All (Unknown boid) s.db.executions
    → trigger_kill_switch (with_adapter env (other_cancel env.adapter boid other)) trigger s
      ≡ trigger_kill_switch env trigger s
unfolding trigger_kill_switch set_mode
trigger_kill_switch-other_cancel env boid other trigger s unknown =
    rw
      (cancel_all-other_cancel env.adapter boid other
        (filter (is_recent env.account env.now) s.db.executions) s.broker
        (All-filter (Unknown boid) (is_recent env.account env.now) s.db.executions unknown))
      refl

kill-other_cancel :
    {W : Type 0} (env : Env W) (sug : Suggestion) (boid : ℕ) (other : W → Bool × W)
    (trigger : Trigger) (o : Option ℕ) (s : State W)
    → All (Unknown boid) s.db.executions
    → kill (with_adapter env (other_cancel env.adapter boid other)) sug trigger o s
      ≡ kill env sug trigger o s
kill-other_cancel env sug boid other trigger o s unknown =
    rw (trigger_kill_switch-other_cancel env boid other trigger s unknown) refl

settle-other_cancel :
    {W : Type 0} (env : Env W) (sug : Suggestion) (id : Text) (conf : OrderConfirmation)
    (s : State W) (other : W → Bool × W)
    → All (Unknown conf.broker_order_id) s.db.executions
    → settle (with_adapter env (other_cancel env.adapter conf.broker_order_id other)) sug id conf s
      ≡ settle env sug id conf s
unfolding settle
settle-other_cancel env sug id conf s other unknown =
    let answer = (env.adapter.get_order conf.broker_order_id s.broker).0 in
    let w = (env.adapter.get_order conf.broker_order_id s.broker).1 in
    let boid = conf.broker_order_id in
    elim (Option-cases answer) [
      | inl failed ↦
          rw (failed, settle)
            (kill-other_cancel env sug boid other Trigger.readback_failed (some boid)
              (record s { broker = w }) unknown)
      | inr (back, got) ↦ elim (Bool-cases (echoes env sug back.client_order_id id)) [
        | inl same ↦ rw (got, same, settle) refl
        | inr differs ↦
            rw (got, differs, settle)
              (kill-other_cancel env sug boid other Trigger.readback_mismatch (some boid)
                (record s { broker = w }) unknown)
      ]
    ]

-- Where no row has the order that the broker has confirmed, and its read-back fires the kill switch,
-- the outcome names the order, while there is still no row that has it. No cancel is sent for it: with
-- any other answer to its cancel the round ends the same, in the same state. The one new entry in the
-- log of the kill switch does not name it either.
pub settle_lost :
    {W : Type 0} (env : Env W) (sug : Suggestion) (id : Text) (conf : OrderConfirmation)
    (s : State W) (o : Outcome)
    → All (Unknown conf.broker_order_id) s.db.executions
    → (settle env sug id conf s).0 ≡ break o
    → let after = (settle env sug id conf s).1 in
      (o.broker_order_id ≡ some conf.broker_order_id)
      × All (Unknown conf.broker_order_id) after.db.executions
      × ((other : W → Bool × W)
          → settle
              (with_adapter env (other_cancel env.adapter conf.broker_order_id other))
              sug
              id
              conf
              s
            ≡ settle env sug id conf s)
      × ((entry : KillSwitchLog) × (after.db.kill_log ≡ s.db.kill_log ++ entry ∷ [])
          × All (λ b. b ≢ conf.broker_order_id) entry.cancelled_order_ids)
unfolding trigger_kill_switch set_mode
settle_lost {W} env sug id conf s o unknown e =
    let w = (env.adapter.get_order conf.broker_order_id s.broker).1 in
    let (trigger, fired) = settle-break env sug id conf s o e in
    let recent = filter (is_recent env.account env.now) s.db.executions in
    let out = break_inj (rw fired at e) in
    let spared = λ (other : W → Bool × W). settle-other_cancel env sug id conf s other unknown in
    rw fired (
      ap (λ (x : Outcome). x.broker_order_id) (sym out),
      unknown,
      λ other. spared other ∙ fired,
      (
        record {
          ts = env.now;
          trigger = trigger;
          cancelled_order_ids = (cancel_all env.adapter recent w).0;
        },
        refl,
        cancel_all-ne env.adapter conf.broker_order_id recent w (
            All-filter (Unknown conf.broker_order_id) (is_recent env.account env.now)
              s.db.executions unknown),
      ),
    )
