-- ===== src/AutoTrade/Modes.antt =====
-- The modes of the accounts in services/auto_trade.py: what `set_mode` sets.
use me_invest_paper.Base.{
  ℕ, ◌≡◌, refl, ◌∙◌, true, false, none, some, List, [], ◌∷◌, ◌++◌, ◌==◌, if◌then◌else◌, any, find?,
  arith, inl, inr, Bool-cases,
}
use me_invest_paper.Base.Rows.{update}
use me_invest_paper.Store.{Mode, off, AutoTradeState, Trigger, Db}
use me_invest_paper.AutoTrade.State.{State, Env}
use me_invest_paper.AutoTrade.Queries.{get_mode, set_mode, has_state}
use me_invest_paper.AutoTrade.KillSwitch.{trigger_kill_switch}

abbrev pub mode_in : List AutoTradeState → ℕ → Mode
mode_in states account = elim (find? (λ s. s.broker_account_id == account) states) [
  | none ↦ off
  | some s ↦ s.mode
]

abbrev key : AutoTradeState → ℕ
key s = s.broker_account_id

mode_in-update :
    (states : List AutoTradeState) (account other : ℕ) (mode : Mode)
    → any (λ s. s.broker_account_id == account) states ≡ true
    → mode_in (update key account (λ s. record s { mode = mode }) states) other
      ≡ (if account == other then mode else mode_in states other)
mode_in-update [] account other mode h = cc
mode_in-update (s ∷ states) account other mode h =
    ground (arith, mode_in-update states account other mode)

pub mode_in-append :
    (states : List AutoTradeState) (account other : ℕ) (mode : Mode)
    → any (λ s. s.broker_account_id == account) states ≡ false
    → mode_in
        (states
          ++ record {
            broker_account_id = account;
            mode = mode;
            promoted_at = none;
            last_kill_switch_event = none;
          }
            ∷ [])
        other
      ≡ (if account == other then mode else mode_in states other)
mode_in-append [] account other mode h = ground arith
mode_in-append (s ∷ states) account other mode h =
    ground (arith, mode_in-append states account other mode)

mode_in-stamp :
    (states : List AutoTradeState) (account now other : ℕ)
    → mode_in
        (update key account (λ s. record s { last_kill_switch_event = some now }) states)
        other
      ≡ mode_in states other
mode_in-stamp [] account now other = refl
mode_in-stamp (s ∷ states) account now other =
    ground (arith, mode_in-stamp states account now other)

-- Setting the mode of an account sets it, whether it had a row or not, and no other's.
pub get_mode-set_mode :
    (db : Db) (account other : ℕ) (mode : Mode)
    → get_mode (set_mode db account mode) other
      ≡ (if account == other then mode else get_mode db other)
unfolding get_mode set_mode
get_mode-set_mode db account other mode = elim (Bool-cases (has_state db account)) [
  | inl e ↦ rw e (mode_in-update db.states account other mode e)
  | inr e ↦ rw e (mode_in-append db.states account other mode e)
]

-- What the kill switch does to the modes: the account's is off, and the others' are as they were.
pub trigger_kill_switch-get_mode :
    {W : Type 0} (env : Env W) (trigger : Trigger) (s : State W) (other : ℕ)
    → get_mode (trigger_kill_switch env trigger s).db other
      ≡ (if env.account == other then off else get_mode s.db other)
unfolding trigger_kill_switch get_mode
trigger_kill_switch-get_mode env trigger s other =
    mode_in-stamp (set_mode s.db env.account off).states env.account env.now other
    ∙ get_mode-set_mode s.db env.account other off
