-- ===== src/Web/Stopping.antt =====
-- The endpoints of main.py that cancel orders: all of them, those of a week, and the emergency stop.
-- A query without ORDER BY gives the rows in the order of the table.
use me_invest_paper.Base.{
  ℕ, Bool, true, false, ◌&&◌, ◌||◌, not, Option, none, some, List, [], ◌∷◌, ◌++◌, ◌==◌, any, filter,
  find?, holds, present, if◌then◌else◌,
}
use me_invest_paper.Calendar.{next_monday}
use me_invest_paper.Store.{
  Text, Side, Suggestion, SuggestionStatus, Execution, ExecutionStatus, Trigger, Db, is_accepted,
  is_routing, is_broker_cancelled, same_side, set_suggestion, set_execution,
}
use me_invest_paper.Broker.{Adapter}
use me_invest_paper.Orders.{as_cancelled}
use me_invest_paper.Accounts.{BrokerAccount}
use me_invest_paper.AutoTrade.State.{State, Env}
use me_invest_paper.AutoTrade.KillSwitch.{trigger_kill_switch}
use me_invest_paper.Web.Reply.{Reply, ok, ◌>>=◌, ◌>>◌, require, token_auth, all, resolve_scope}

-- The order ids that were cancelled, and those that were not.
pub record Report : Type 0 where
  pub cancelled : List ℕ
  pub failed : List ℕ

abbrev pub nothing : Report
nothing = record { cancelled = []; failed = [] }

abbrev pub note_order : Bool → ℕ → Report → Report
note_order true oid r = record r { cancelled = oid ∷ r.cancelled }
note_order false oid r = record r { failed = oid ∷ r.failed }

abbrev pub join : Report → Report → Report
join r s = record { cancelled = r.cancelled ++ s.cancelled; failed = r.failed ++ s.failed }

abbrev pub is_member : List ℕ → ℕ → Bool
is_member refs ref = any (λ x. x == ref) refs

-- `broker_cancelled` rows may still be open at the broker.
abbrev pub is_maybe_open : Execution → Bool
is_maybe_open e =
    (is_routing e.status || is_broker_cancelled e.status)
    && not e.dry_run
    && present e.broker_order_id

abbrev pub is_open_in : List ℕ → Execution → Bool
is_open_in refs e = is_member refs e.broker_account_id && is_maybe_open e

abbrev pub is_open_for : ℕ → Execution → Bool
is_open_for sid e = holds e.suggestion_id sid && is_maybe_open e

abbrev pub is_status_filled : ExecutionStatus → Bool
is_status_filled ExecutionStatus.filled = true
is_status_filled _ = false

abbrev pub is_filled_for : ℕ → Execution → Bool
is_filled_for sid e = holds e.suggestion_id sid && not e.dry_run && is_status_filled e.status

-- The side of the request, where none is "all".
abbrev pub has_side : Option Side → Side → Bool
has_side none s = true
has_side (some side) s = same_side s side

abbrev pub is_resettable : List ℕ → ℕ → Option Side → Suggestion → Bool
is_resettable refs week_of side s =
    is_member refs s.broker_account_id
    && s.week_of == week_of
    && is_accepted s.status
    && has_side side s.side

abbrev pub as_pending : Suggestion → Suggestion
as_pending s = record s { status = SuggestionStatus.pending; acted_at = none }

abbrev pub is_any : List ℕ → Bool
is_any [] = false
is_any (ref ∷ refs) = true

module _ {W : Type 0} where
  -- One order: without an adapter, or when the call raises, it is not cancelled.
  unfoldable pub cancel_at : Option (Adapter W) → ℕ → ℕ → Db → W → Bool × Db × W
  cancel_at none oid id db w = (false, db, w)
  cancel_at (some adapter) oid id db w =
      let (done, w') = adapter.cancel_order oid w in
      (done, (if done then set_execution id as_cancelled db else db), w')

  -- The loops over the executions that were selected, each of which has an order.
  unfoldable pub cancel_each :
      (Execution → Option (Adapter W)) → List Execution → Db → W → Report × Db × W
  cancel_each adapter_of [] db w = (nothing, db, w)
  cancel_each adapter_of (e ∷ es) db w = elim e.broker_order_id [
    | none ↦ cancel_each adapter_of es db w
    | some oid ↦
        let (done, db₁, w₁) = cancel_at (adapter_of e) oid e.id db w in
        let (report, db₂, w₂) = cancel_each adapter_of es db₁ w₁ in
        (note_order done oid report, db₂, w₂)
  ]

  module _ (adapters : ℕ → Option (Adapter W)) (rows : List BrokerAccount) where
    unfoldable pub admin_cancel_all_orders :
        Text → Text → Option ℕ → Db → W → Reply (Report × Db × W)
    admin_cancel_all_orders admin_token header account db w = do
      token_auth admin_token header
      refs ← resolve_scope rows account all
      ok (
          cancel_each (λ e. adapters e.broker_account_id) (filter (is_open_in refs) db.executions)
            db w)

  module _ (adapters : ℕ → Option (Adapter W)) where
    -- The cancels of one suggestion, whose failures do not hold its reset up.
    unfoldable pub reset_one : Suggestion → Db → W → Report × Db × W
    reset_one sug db w =
        let (report, db₁, w₁) =
          cancel_each (λ e. adapters sug.broker_account_id)
            (filter (is_open_for sug.id) db.executions) db w in
        (report, set_suggestion sug.id as_pending db₁, w₁)

    -- The loop: the ids that were reset, and the orders.
    unfoldable pub reset_each : List Suggestion → Db → W → List ℕ × Report × Db × W
    reset_each [] db w = ([], nothing, db, w)
    reset_each (sug ∷ sugs) db w = elim (find? (is_filled_for sug.id) db.executions) [
      | some e ↦ reset_each sugs db w
      | none ↦
          let (report, db₁, w₁) = reset_one sug db w in
          let (ids, reports, db₂, w₂) = reset_each sugs db₁ w₁ in
          (sug.id ∷ ids, join report reports, db₂, w₂)
    ]

    module _ (rows : List BrokerAccount) (today : ℕ) where
      unfoldable pub admin_reset_week_buy_suggestions :
          Text → Text → Option Side → Option ℕ → Db → W → Reply (List ℕ × Report × Db × W)
      admin_reset_week_buy_suggestions admin_token header side account db w = do
        token_auth admin_token header
        refs ← resolve_scope rows account all
        ok (reset_each (filter (is_resettable refs (next_monday today) side) db.suggestions) db w)

  module _ (adapters : ℕ → Option (Adapter W)) (broker_of : ℕ → Text) (now : ℕ) where
    abbrev pub env_of : ℕ → Adapter W → Env W
    env_of ref adapter = record {
      adapter = adapter;
      broker = broker_of ref;
      account = ref;
      now = now;
    }

    -- The loop over the accounts: those without an adapter are passed over.
    unfoldable pub stop_each : List ℕ → State W → List ℕ × State W
    stop_each [] s = ([], s)
    stop_each (ref ∷ refs) s = elim (adapters ref) [
      | none ↦ stop_each refs s
      | some adapter ↦
          let (stopped, s') =
            stop_each refs (trigger_kill_switch (env_of ref adapter) Trigger.manual s) in
          (ref ∷ stopped, s')
    ]

    unfoldable pub admin_auto_trade_emergency_stop :
        List BrokerAccount → Text → Text → Option ℕ → State W → Reply (List ℕ × State W)
    admin_auto_trade_emergency_stop rows admin_token header account s = do
      token_auth admin_token header
      refs ← resolve_scope rows account all
      require (is_any refs) 404
      ok (stop_each refs s)
