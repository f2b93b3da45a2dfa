-- ===== src/AutoTrade/State.antt =====
-- What a pass of services/auto_trade.py runs on: the session's rows, the broker and the alert
-- mails, and how a call ends. The clock is read once, as `now`; the source reads it at each use.
use me_invest_paper.Base.{ℕ, List, ◌≡◌, refl, ◌≢◌, ◌⊎◌, inl, inr, arith}
use me_invest_paper.Store.{Text, Db, Trigger}
use me_invest_paper.Broker.{Adapter}

pub record State (W : Type 0) : Type 0 where
  pub db : Db
  pub broker : W
  -- the alert mails that were handed to the sender, whose failure is swallowed
  pub alerts : List Trigger

-- The arguments of `run_auto_trade_pass`.
pub record Env (W : Type 0) : Type 0 where
  pub adapter : Adapter W
  pub broker : Text
  pub account : ℕ
  pub now : ℕ

pub data GuardReason : Type 0 where
  already_executed stale_not_live stale_unknown wash_sale no_caps : GuardReason
  per_order per_day per_week_per_ticker per_day_count insufficient_cash : GuardReason

-- `guard_failure` is `_GuardFailure`; `raised` is any other exception, which leaves the pass.
pub data Result (A : Type 0) : Type 0 where
  ok : A → Result A
  guard_failure : GuardReason → Result A
  raised : Result A

abbrev pub Action : Type 0 → Type 0 → Type 0
Action W A = State W → Result A × State W

module _ {W : Type 0} where
  abbrev pub pure : {A : Type 0} → A → Action W A
  pure a s = (ok a, s)

  -- A guard that only reads the rows.
  abbrev pub check : (Db → Result (Unit {0})) → Action W (Unit {0})
  check g s = (g s.db, s)

  infixl 5 ◌>>=◌ ◌>>◌
  abbrev pub ◌>>=◌ : {A B : Type 0} → Action W A → (A → Action W B) → Action W B
  ◌>>=◌ m f s =
      let (r, s') = m s in
      elim r [ ok a ↦ f a s' | guard_failure g ↦ (guard_failure g, s') | raised ↦ (raised, s') ]

  abbrev pub ◌>>◌ : {B : Type 0} → Action W (Unit {0}) → Action W B → Action W B
  m >> k = m >>= λ _. k

module _ {W : Type 0} {B : Type 0} (m : Action W (Unit {0})) (k : Action W B) (s : State W) where
  pub >>-of_ok : (m s).0 ≡ ok tt → (m >> k) s ≡ k (m s).1
  >>-of_ok e = ground arith

  -- A step that does not end well is the last one.
  pub >>-of_ne_ok : (m s).0 ≢ ok tt → ((m >> k) s).1 ≡ (m s).1
  >>-of_ne_ok ne = ground arith

pub Result-cases :
    {A : Type 0} (r : Result A)
    → ((a : A) × (r ≡ ok a)) ⊎ ((g : GuardReason) × (r ≡ guard_failure g)) ⊎ (r ≡ raised)
Result-cases (ok a) = inl (a, refl)
Result-cases (guard_failure g) = inr (inl (g, refl))
Result-cases raised = inr (inr refl)
