-- ===== src/AutoTrade/Once.antt =====
-- The idempotency guard of services/auto_trade.py over a whole pass.
use me_invest_paper.Base.{
  ℕ, ◌+◌, ◌≤◌, ◌≡◌, refl, Bool, true, false, Option, List, [], ◌∷◌, ◌==◌, arith, All, Has, find?,
  find-none, total, total-append, inl, inr, Bool-cases, Option-cases, if◌then◌else◌,
}
use me_invest_paper.Base.Rows.{share, total-update}
use me_invest_paper.Store.{Suggestion, Execution, Mode, Caps, Db}
use me_invest_paper.AutoTrade.State.{State, Env, ok}
use me_invest_paper.AutoTrade.Queries.{get_mode, get_active_caps}
use me_invest_paper.AutoTrade.Guards.{
  is_prior, is_stale, is_dry_run, cancel_row, mark_broker_cancelled, check_idempotency,
}
use me_invest_paper.AutoTrade.Round.{placement, readopt, round}
use me_invest_paper.AutoTrade.Pass.{run_auto_trade_pass}
use me_invest_paper.AutoTrade.Rows.{IsKeyed, guards-Good, guards_passed}
use me_invest_paper.AutoTrade.Changes.{Change, kept, added, adopted, Change-IsKeyed, round-Change}
use me_invest_paper.AutoTrade.Loop.{pass_inv}

total_none :
    {A : Type 0} (p : A → Bool) (weight : A → ℕ) (xs : List A)
    → All (λ x. p x ≡ false) xs
    → total p weight xs ≡ 0
total_none p weight [] h = refl
total_none p weight (x ∷ xs) h = ground (arith, total_none p weight xs h.1)

All-true : {A : Type 0} (xs : List A) → All (λ _. Unit {0}) xs
All-true [] = tt
All-true (x ∷ xs) = (tt, All-true xs)

module _ {W : Type 0} (env : Env W) (mode : Mode) (sid : ℕ) where
  -- How many executions of the suggestion count on the account, real or simulated as the mode is.
  abbrev pub standing : Db → ℕ
  standing db = total (is_prior env.account sid (is_dry_run mode)) (λ _. 1) db.executions

  abbrev AtMost : ℕ → Db → Type 0
  AtMost n db = standing db ≤ n

  cancel_row-AtMost :
      (sug : Suggestion) (n : ℕ) (db : Db) (e : Execution)
      → IsKeyed db
      → Has e db.executions
      → is_stale env.account sug e ≡ true
      → AtMost n db
      → AtMost n (cancel_row e.id db)
  cancel_row-AtMost sug n db e k m t h =
      let p = is_prior env.account sid (is_dry_run mode) in
      let gone : share p (λ _. 1) (mark_broker_cancelled e) ≡ 0 = ground arith in
      omega (
        arith,
        gone,
        total-update (λ r. r.id) p (λ _. 1) mark_broker_cancelled e db.executions k.distinct m,
      )

  -- A change of the rows adds one standing execution at most, and none to another suggestion.
  Change-AtMost :
      (sug : Suggestion) (n : ℕ) {before after : Db}
      → Change env sug (is_dry_run mode) before after
      → IsKeyed before
      → AtMost n before
      → AtMost (n + (if sug.id == sid then 1 else 0)) after
  Change-AtMost sug n (kept (e, _)) k h = rw e (omega arith)
  Change-AtMost sug n {before} (added broker boid id status live (e, _)) k h =
      let p = is_prior env.account sid (is_dry_run mode) in
      let row = placement env sug broker (is_dry_run mode) boid id status before.next_execution in
      let one : share p (λ _. 1) row ≤ (if sug.id == sid then 1 else 0) = ground arith in
      rw e (omega (arith, one, total-append p (λ _. 1) before.executions (row ∷ [])))
  Change-AtMost sug n {before} (adopted r m t d e _) k h =
      let p = is_prior env.account sid (is_dry_run mode) in
      let one : share p (λ _. 1) (readopt env sug r) ≤ (if sug.id == sid then 1 else 0) =
        ground arith in
      rw e (
        omega (
          arith,
          one,
          total-update (λ x. x.id) p (λ _. 1) (readopt env sug) r before.executions k.distinct m,
        ))

  passed-none :
      (sug : Suggestion) (db : Db)
      → sug.id ≡ sid
      → check_idempotency env.account sug mode db ≡ ok tt
      → standing db ≡ 0
  unfolding check_idempotency
  passed-none sug db same e =
      let p = is_prior env.account sid (is_dry_run mode) in
      elim (Option-cases (find? p db.executions)) [
        | inl absent ↦ total_none p (λ _. 1) db.executions (find-none p db.executions absent)
        | inr (r, found) ↦ ground arith
      ]

  round-AtMost :
      (caps : Option Caps) (sug : Suggestion) (s : State W)
      → IsKeyed s.db × AtMost 1 s.db
      → let db = (round env sug caps mode s).1.db in IsKeyed db × AtMost 1 db
  round-AtMost caps sug s (k, h) =
      let through =
        λ (n : ℕ). guards-Good env caps mode sug (AtMost n) (cancel_row-AtMost sug n) s k in
      elim (round-Change env sug caps mode s) [
        | inl same ↦
            let (k₁, h₁) = through 1 h in
            (Change-IsKeyed env sug {dry = false} (kept same) k₁, rw same.0 h₁)
        | inr (passed, c) ↦ elim (Bool-cases (sug.id == sid)) [
          | inl same ↦
              let (first, _) = guards_passed env caps mode sug s passed in
              let (k₁, h₁) = through 0 (omega (arith, passed-none sug s.db (ground arith) first)) in
              (Change-IsKeyed env sug c k₁, rw same at (Change-AtMost sug 0 c k₁ h₁))
          | inr other ↦
              let (k₁, h₁) = through 1 h in
              (Change-IsKeyed env sug c k₁, rw other at (Change-AtMost sug 1 c k₁ h₁))
        ]
      ]

-- Where the keys of the rows are not repeated, a pass leaves at most one standing execution to each suggestion: real ones when it trades, and
-- simulated ones when it simulates, if there was at most one before.
pub run_auto_trade_pass-standing :
    {W : Type 0} (env : Env W) (as_of : Option ℕ) (s : State W) (sid : ℕ)
    → let mode = get_mode s.db env.account in
      IsKeyed s.db
      → standing env mode sid s.db ≤ 1
      → standing env mode sid (run_auto_trade_pass env as_of s).1.db ≤ 1
run_auto_trade_pass-standing env as_of s sid k h =
    let mode = get_mode s.db env.account in
    (pass_inv env as_of s (λ s'. IsKeyed s'.db × (standing env mode sid s'.db ≤ 1)) (λ _. Unit {0})
      (λ sug s' _ h'. round-AtMost env mode sid (get_active_caps s.db) sug s' h')
      (All-true s.db.suggestions) (k, h)).1
