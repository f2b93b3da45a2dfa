-- ===== src/Web/Promotion.antt =====
-- The endpoints of main.py that set what auto-trading may do: the mode of an account, the caps, and a
-- new account, which starts with auto-trading off.
use me_invest_paper.Base.{
  ℕ, zero, suc, ◌-◌, ◌*◌, Bool, true, false, not, Option, none, some, List, [], ◌∷◌, ◌++◌, ◌==◌,
  ltb, filter, latest_by, present, if◌then◌else◌,
}
use me_invest_paper.Base.Rows.{update}
use me_invest_paper.Calendar.{day}
use me_invest_paper.Base.Int.{pos}
use me_invest_paper.Store.{Text, Mode, AutoTradeState, Caps, BrokerScope, PromotionLog, Db}
use me_invest_paper.Broker.{Adapter}
use me_invest_paper.Accounts.{BrokerAccount, resolve_primary_account_ref}
use me_invest_paper.AutoTrade.Queries.{has_state, get_mode, set_mode}
use me_invest_paper.Web.Reply.{Reply, ok, ◌>>=◌, ◌>>◌, require, found, token_auth}

abbrev pub same_mode : Mode → Mode → Bool
same_mode Mode.off Mode.off = true
same_mode Mode.dry_run Mode.dry_run = true
same_mode Mode.live Mode.live = true
same_mode _ _ = false

-- `SOAK_WINDOWS`, the days that a mode has to be kept before the next one. This build has none.
unfoldable pub soak_days : BrokerScope → Mode → ℕ
soak_days scope mode = 0

-- The last entry into a mode, of whatever account: the log has no column for it.
abbrev pub last_entry : Mode → Db → Option PromotionLog
last_entry mode db = latest_by (λ l. l.ts) (filter (λ l. same_mode l.to_mode mode) db.promotion_log)

-- `now - entry_ts < timedelta(days=days)`
abbrev pub is_soaking : ℕ → ℕ → Option PromotionLog → Bool
is_soaking now days none = true
is_soaking now days (some entry) = ltb (now - entry.ts) (days * day)

abbrev pub soak_check : ℕ → ℕ → Mode → Db → Reply (Unit {0})
soak_check now zero current db = ok tt
soak_check now (suc days) current db =
    require (not (is_soaking now (suc days) (last_entry current db))) 409

-- Turning off is always allowed.
abbrev pub mode_check : (Mode → ℕ) → ℕ → Mode → Mode → Db → Reply (Unit {0})
mode_check days now current Mode.off db = ok tt
mode_check days now current to_mode db = soak_check now (days to_mode) current db

-- `body.broker_account_id or resolve_primary_account_ref(session)`
abbrev pub account_or_primary : Option ℕ → List BrokerAccount → Option ℕ
account_or_primary none rows = resolve_primary_account_ref rows
account_or_primary (some zero) rows = resolve_primary_account_ref rows
account_or_primary (some (suc ref)) rows = some (suc ref)

abbrev pub promoted : ℕ → ℕ → Db → Db
promoted ref now db = record db {
  states =
      update (λ s. s.broker_account_id) ref (λ s. record s { promoted_at = some now }) db.states;
}

abbrev pub log_promotion : ℕ → Mode → Mode → Option Text → Db → Db
log_promotion now from_mode to_mode reason db = record db {
  promotion_log =
      db.promotion_log
      ++ record {
        ts = now;
        from_mode = from_mode;
        to_mode = to_mode;
        broker_scope = BrokerScope.alpaca_paper;
        reason = reason;
      }
        ∷ [];
}

module _ (rows : List BrokerAccount) (now : ℕ) where
  -- The endpoint under any windows.
  unfoldable pub promote :
      (Mode → ℕ) → Text → Text → Mode → Option Text → Option ℕ → Db → Reply (ℕ × Db)
  promote days token header to_mode reason account db = do
    token_auth token header
    ref ← found (account_or_primary account rows) 404
    mode_check days now (get_mode db ref) to_mode db
    ok (
      ref,
      log_promotion now (get_mode db ref) to_mode reason
          (promoted ref now (set_mode db ref to_mode)),
    )

  unfoldable pub admin_auto_trade_promote :
      Text → Text → Mode → Option Text → Option ℕ → Db → Reply (ℕ × Db)
  unfolding promote soak_days
  admin_auto_trade_promote = promote (soak_days BrokerScope.alpaca_paper)

-- The first open row is closed, if there is one.
abbrev pub close_first : ℕ → List Caps → List Caps
close_first now [] = []
close_first now (c ∷ cs) =
    if present c.effective_to
    then c ∷ close_first now cs
    else record c { effective_to = some now } ∷ cs

-- Amounts below zero, which the body would let pass, are left out.
abbrev pub new_caps : ℕ → ℕ → ℕ → ℕ → ℕ → Caps
new_caps order_max day_max week_max day_orders now = record {
  per_order_max_usd = order_max;
  per_day_max_usd = day_max;
  per_week_max_usd_per_ticker = week_max;
  per_day_max_orders = day_orders;
  effective_from = now;
  effective_to = none;
}

unfoldable pub admin_auto_trade_caps : Text → Text → ℕ → ℕ → ℕ → ℕ → ℕ → Db → Reply Db
admin_auto_trade_caps token header order_max day_max week_max day_orders now db = do
  token_auth token header
  ok (record db {
    caps = close_first now db.caps ++ new_caps order_max day_max week_max day_orders now ∷ [];
  })

abbrev pub seeded : ℕ → AutoTradeState
seeded ref = record {
  broker_account_id = ref;
  mode = Mode.off;
  promoted_at = none;
  last_kill_switch_event = none;
}

-- The text "paper".
abbrev pub paper : Text
paper = b'p' ∷ b'a' ∷ b'p' ∷ b'e' ∷ b'r' ∷ []

abbrev pub new_account : ℕ → Text → Text → Text → ℕ → BrokerAccount
new_account id nickname broker config now = record {
  id = id;
  account_ref = some id;
  account_id = none;
  broker = broker;
  mode = paper;
  nickname = some nickname;
  is_active = true;
  connection_config = some config;
  cash_usd = pos 0;
  equity_usd = pos 0;
  last_sync = now;
  effective_from = some now;
  effective_to = none;
}

abbrev pub register : {A : Type 0} → ℕ → A → (ℕ → Option A) → ℕ → Option A
register ref adapter adapters i = if i == ref then some adapter else adapters i

-- `made` is what building the adapter from the settings and the body gave, `id` the key of the new
-- row. A second row for the mode of the same account is an `IntegrityError`.
unfoldable pub admin_create_broker_account :
    {W : Type 0}
    → Text
    → Text
    → Option (Adapter W)
    → ℕ
    → Text
    → Text
    → Text
    → ℕ
    → (ℕ → Option (Adapter W))
    → List BrokerAccount
    → Db
    → Reply ((ℕ → Option (Adapter W)) × List BrokerAccount × Db)
admin_create_broker_account admin_token header made id nickname broker config now adapters rows db =
    do
      token_auth admin_token header
      adapter ← found made 400
      require (not (has_state db id)) 500
      ok (
        register id adapter adapters,
        rows ++ new_account id nickname broker config now ∷ [],
        record db { states = db.states ++ seeded id ∷ [] },
      )
