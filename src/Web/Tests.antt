-- ===== src/Web/Tests.antt =====
-- The endpoints of main.py on the small account.
use me_invest_paper.Base.{
  ℕ, ◌+◌, ◌*◌, ◌≡◌, refl, true, Option, none, some, List, [], ◌∷◌, map, filter, arith, leb,
  if◌then◌else◌,
}
use me_invest_paper.Base.Int.{pos}
use me_invest_paper.Base.Sweeps.{when}
use me_invest_paper.Calendar.{day, next_monday}
use me_invest_paper.Store.{
  Trigger, BrokerScope, PromotionLog, Text, Side, Mode, SuggestionStatus, Db,
}
use me_invest_paper.Broker.{Adapter}
use me_invest_paper.ClientId.{same_text}
use me_invest_paper.Accounts.{BrokerAccount, active_rows, first_of_each}
use me_invest_paper.AutoTrade.State.{State}
use me_invest_paper.AutoTrade.Queries.{get_mode, set_mode}
use me_invest_paper.AutoTrade.KillSwitch.{trigger_kill_switch, cancel_all, cancel_recent}
use me_invest_paper.AutoTrade.Samples.{Orders, adapter, now, start, db_in, first, second, third}
use me_invest_paper.Web.Reply.{ok, token_auth, all, resolve_scope}
use me_invest_paper.Web.MagicLink.{sign_action, verify_action, split_dot, read_int, read_digits}
use me_invest_paper.Web.Acting.{accept, act, is_action, suggestion_magic_link, patch_suggestion}
use me_invest_paper.Web.Stopping.{
  Report, as_pending, is_member, is_any, cancel_at, cancel_each, reset_one, reset_each, stop_each,
  admin_reset_week_buy_suggestions, admin_auto_trade_emergency_stop,
}
use me_invest_paper.Web.Promotion.{promote}
use me_invest_paper.Web.Links.{verify_action-sign_action}
use me_invest_paper.Web.Once.{ActedOn, IsRefused, suggestion_magic_link-once}
use me_invest_paper.Web.Resets.{is_reset, admin_reset_week-suggestions}
use me_invest_paper.Web.Stops.{has_adapter, emergency_stop-get_mode}
use me_invest_paper.Web.Modes.{Promoted, promote_lem}

abbrev db : Db
db = db_in Mode.live

abbrev orders : Orders
orders = (start Mode.live).broker

abbrev accounts : List BrokerAccount
accounts =
    record {
      account_ref = some 1;
      nickname = none;
      broker = [];
      is_active = true;
      effective_to = none;
      id = 1;
      account_id = none;
      mode = [];
      connection_config = none;
      cash_usd = pos 0;
      equity_usd = pos 0;
      effective_from = none;
      last_sync = 0;
    }
    ∷ []

abbrev adapters : ℕ → Option (Adapter Orders)
adapters ref = some adapter

abbrev key : Text
key = b'k' ∷ []

-- A hash that is short, and ASCII.
abbrev hmac_hex : Text → Text → Text
hmac_hex secret message = b'a' ∷ []

verify_action-sign_action_example :
    verify_action hmac_hex 1 accept (sign_action hmac_hex 1 accept key 600 now) key (now + 601)
    ≡ some (leb (now + 601) (now + 600))
verify_action-sign_action_example =
    verify_action-sign_action hmac_hex 1 accept key 600 now (now + 601) (λ message. refl)

abbrev waiting : Db
waiting = record db { suggestions = as_pending first ∷ second ∷ third ∷ [] }

abbrev token : Text
token = b'9' ∷ b'9' ∷ b'9' ∷ b'9' ∷ b'9' ∷ b'9' ∷ b'.' ∷ b'a' ∷ []

abbrev accepted_now : Db
accepted_now = record waiting {
  suggestions = record first { acted_at = some now } ∷ second ∷ third ∷ [];
}

click :
    suggestion_magic_link hmac_hex key 1 accept token now waiting
    ≡ ok (SuggestionStatus.accepted, accepted_now)
unfolding suggestion_magic_link act verify_action split_dot read_int read_digits same_text
click = refl

-- Another suggestion has changed meanwhile.
abbrev next_day : Db
next_day = record waiting {
  suggestions = record first { acted_at = some now } ∷ as_pending second ∷ third ∷ [];
}

suggestion_magic_link-once_example :
    (is_action accept ≡ true)
    × (verify_action hmac_hex 1 accept token key now ≡ some true)
    × ActedOn 1 accept none now waiting (SuggestionStatus.accepted, accepted_now)
    × ((action' token' : Text) (later : ℕ)
        → IsRefused (suggestion_magic_link hmac_hex key 1 action' token' later next_day))
    × ((admin_token header action' : Text) (note : Option Text) (later : ℕ)
        → IsRefused (patch_suggestion admin_token header 1 action' note later next_day))
suggestion_magic_link-once_example =
    suggestion_magic_link-once hmac_hex key 1 accept token now waiting SuggestionStatus.accepted
      accepted_now next_day click refl

-- The order of the first suggestion is cancelled once more.
abbrev report : Report
report = record { cancelled = 50 ∷ []; failed = [] }

abbrev reset_db : Db
reset_db = record db { suggestions = map as_pending db.suggestions }

scoped : resolve_scope accounts none all ≡ ok (1 ∷ [])
unfolding resolve_scope active_rows first_of_each
scoped = refl

reset_done :
    admin_reset_week_buy_suggestions adapters accounts 9 key key (some Side.buy) none db orders
    ≡ ok (1 ∷ 2 ∷ 3 ∷ [], report, reset_db, orders)
unfolding admin_reset_week_buy_suggestions reset_each reset_one cancel_each cancel_at token_auth
    resolve_scope active_rows first_of_each same_text next_monday
reset_done = refl

admin_reset_week-suggestions_example :
    (reset_db.suggestions
      ≡ map (when (is_reset 9 (1 ∷ []) (some Side.buy) db) as_pending) db.suggestions)
    × (1 ∷ 2 ∷ 3 ∷ []
        ≡ map (λ s. s.id) (filter (is_reset 9 (1 ∷ []) (some Side.buy) db) db.suggestions))
admin_reset_week-suggestions_example =
    admin_reset_week-suggestions adapters accounts 9 key key (some Side.buy) none (1 ∷ [])
      (1 ∷ 2 ∷ 3 ∷ []) report db reset_db orders orders (omega arith) (omega arith) scoped
      reset_done

abbrev stopped : State Orders
stopped = record (start Mode.live) {
  db = record db {
    states =
        record {
          broker_account_id = 1;
          mode = Mode.off;
          promoted_at = none;
          last_kill_switch_event = some now;
        }
        ∷ [];
    kill_log = record { ts = now; trigger = Trigger.manual; cancelled_order_ids = [] } ∷ [];
  };
  alerts = Trigger.manual ∷ [];
}

stop_done :
    admin_auto_trade_emergency_stop adapters (λ ref. []) now accounts key key none (start Mode.live)
    ≡ ok (1 ∷ [], stopped)
unfolding admin_auto_trade_emergency_stop stop_each token_auth resolve_scope active_rows
    first_of_each same_text trigger_kill_switch cancel_all cancel_recent set_mode
stop_done = refl

emergency_stop-get_mode_example :
    (token_auth key key ≡ ok tt)
    × ((refs : List ℕ) × (resolve_scope accounts none all ≡ ok refs)
        × (is_any refs ≡ true)
        × (1 ∷ [] ≡ filter (has_adapter adapters (λ ref. []) now) refs)
        × ((other : ℕ)
            → get_mode stopped.db other
              ≡ (if is_member (1 ∷ []) other then Mode.off else get_mode db other)))
emergency_stop-get_mode_example =
    emergency_stop-get_mode adapters (λ ref. []) now accounts key key none (start Mode.live)
      (1 ∷ []) stopped stop_done

-- A window of one day for going live, and an account that has been in dry runs for two.
abbrev windows : Mode → ℕ
windows Mode.live = 1
windows _ = 0

abbrev entry : PromotionLog
entry = record {
  ts = 9 * day;
  from_mode = Mode.off;
  to_mode = Mode.dry_run;
  broker_scope = BrokerScope.alpaca_paper;
  reason = none;
}

abbrev rehearsed : Db
rehearsed = record (db_in Mode.dry_run) { promotion_log = entry ∷ [] }

abbrev gone_live : Db
gone_live = record rehearsed {
  states =
      record {
        broker_account_id = 1;
        mode = Mode.live;
        promoted_at = some now;
        last_kill_switch_event = none;
      }
      ∷ [];
  promotion_log =
      entry
      ∷ record {
        ts = now;
        from_mode = Mode.dry_run;
        to_mode = Mode.live;
        broker_scope = BrokerScope.alpaca_paper;
        reason = none;
      }
      ∷ [];
}

promotion_done :
    promote accounts now windows key key Mode.live none none rehearsed ≡ ok (1, gone_live)
unfolding promote token_auth same_text active_rows first_of_each get_mode set_mode
promotion_done = refl

promote_lem_example : Promoted accounts now windows Mode.live none none rehearsed (1, gone_live)
promote_lem_example =
    promote_lem accounts now windows key key Mode.live none none rehearsed 1 gone_live
      promotion_done
