-- ===== src/AutoTrade/KillSwitch.antt =====
-- `_trigger_kill_switch` of services/auto_trade.py.
use me_invest_paper.Base.{
  ℕ, ◌-◌, Bool, true, false, ◌&&◌, not, none, some, List, [], ◌∷◌, ◌++◌, ◌==◌, leb, if◌then◌else◌,
  filter,
}
use me_invest_paper.Base.Rows.{update}
use me_invest_paper.Calendar.{day}
use me_invest_paper.Store.{Execution, MatchMethod, off, Trigger, Db, is_routing, truthy}
use me_invest_paper.Broker.{Adapter}
use me_invest_paper.AutoTrade.State.{State, Env}
use me_invest_paper.AutoTrade.Queries.{set_mode}

abbrev pub is_placed : MatchMethod → Bool
is_placed MatchMethod.auto_trade_placed = true
is_placed _ = false

-- A placement of the last 24 hours that is still routed.
abbrev pub is_recent : ℕ → ℕ → Execution → Bool
is_recent account now e =
    e.broker_account_id == account
    && is_placed e.match_method
    && not e.dry_run
    && leb (now - day) e.created_at
    && is_routing e.status

-- One recent execution: its id, if its cancel went through. A cancel that raises is logged and
-- passed over.
unfoldable pub cancel_recent : {W : Type 0} → Adapter W → Execution → W → List ℕ × W
cancel_recent adapter e w = elim e.broker_order_id [
  | none ↦ ([], w)
  | some boid ↦
      if not (truthy (some boid))
      then ([], w)
      else let (done, w') = adapter.cancel_order boid w in ((if done then boid ∷ [] else []), w')
]

unfoldable pub cancel_all : {W : Type 0} → Adapter W → List Execution → W → List ℕ × W
cancel_all adapter [] w = ([], w)
cancel_all adapter (e ∷ es) w =
    let (id, w') = cancel_recent adapter e w in
    let (ids, w'') = cancel_all adapter es w' in (id ++ ids, w'')

abbrev pub stamp_state : ℕ → ℕ → Db → Db
stamp_state account now db = record db {
  states =
      update (λ s. s.broker_account_id) account
        (λ s. record s { last_kill_switch_event = some now }) db.states;
}

unfoldable pub trigger_kill_switch : {W : Type 0} → Env W → Trigger → State W → State W
trigger_kill_switch env trigger s =
    let db = stamp_state env.account env.now (set_mode s.db env.account off) in
    let (ids, w) =
      cancel_all env.adapter (filter (is_recent env.account env.now) db.executions) s.broker in
    record {
      db = record db {
        kill_log =
            db.kill_log
            ++ record { ts = env.now; trigger = trigger; cancelled_order_ids = ids } ∷ [];
      };
      broker = w;
      alerts = s.alerts ++ trigger ∷ [];
    }
