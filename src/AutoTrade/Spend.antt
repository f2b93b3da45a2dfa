-- ===== src/AutoTrade/Spend.antt =====
-- The spending caps of services/auto_trade.py over a whole pass. A measure is a sum over the rows,
-- as the three sums of `_check_caps` are; `Guarded` says what a cap on it has to do.
use me_invest_paper.Base.{
  ℕ, ◌+◌, ◌*◌, ◌≤◌, ◌≡◌, Bool, true, false, Option, some, none, [], ◌∷◌, arith, All, All-append,
  All-Has, Has, total, total-append, inl, inr,
}
use me_invest_paper.Base.Rows.{All-update, share, total-update}
use me_invest_paper.Store.{
  Text, Suggestion, Execution, ExecutionStatus, Mode, Caps, Db, spend, is_routing, is_rejected,
}
use me_invest_paper.AutoTrade.State.{State, Env, ok}
use me_invest_paper.AutoTrade.Guards.{
  is_stale, is_dry_run, cancel_row, mark_broker_cancelled, check_caps,
}
use me_invest_paper.AutoTrade.Round.{placement, is_readoptable, readopt, round}
use me_invest_paper.AutoTrade.Pass.{run_auto_trade_pass}
use me_invest_paper.AutoTrade.Queries.{get_mode, get_active_caps}
use me_invest_paper.AutoTrade.Loop.{pass_inv}
use me_invest_paper.AutoTrade.Rows.{IsKeyed, guards-Good, guards_passed}
use me_invest_paper.AutoTrade.Changes.{Change, kept, added, adopted, Change-IsKeyed, round-Change}

abbrev pub cost : Suggestion → ℕ
cost sug = sug.qty * sug.limit_price

-- Each execution that names a suggestion trades the ticker of that suggestion, for its amount at
-- most; `book` has the suggestion of each id.
abbrev pub OnBook : (ℕ → Suggestion) → Execution → Type 0
OnBook book e = elim e.suggestion_id [
  | none ↦ Unit
  | some i ↦ (spend e ≤ cost (book i)) × (e.ticker ≡ (book i).ticker)
]

abbrev pub Books : (ℕ → Suggestion) → Suggestion → Type 0
Books book sug = (cost sug ≡ cost (book sug.id)) × (sug.ticker ≡ (book sug.id).ticker)

module _ {W : Type 0} (env : Env W) (mode : Mode) (caps : Option Caps) (book : ℕ → Suggestion)
    (p : Execution → Bool) (weight : Execution → ℕ) (bound : ℕ) where
  abbrev measure : Db → ℕ
  measure db = total p weight db.executions

  -- `room` is what a round for the suggestion may add to the measure.
  pub record Guarded (room : Suggestion → ℕ) : Type 0 where
    pub marked :
        (e : Execution)
        → is_routing e.status ≡ true
        → share p weight (mark_broker_cancelled e) ≡ share p weight e
    pub placed :
        (sug : Suggestion) (broker : Text) (boid : Option ℕ) (id : Text) (status : ExecutionStatus)
        (i : ℕ)
        → is_rejected status ≡ false
        → share p weight (placement env sug broker (is_dry_run mode) boid id status i) ≤ room sug
    pub readopted :
        (sug : Suggestion) (e : Execution)
        → Books book sug
        → OnBook book e
        → is_readoptable env sug e ≡ true
        → share p weight (readopt env sug e) ≤ room sug
    pub passed :
        (sug : Suggestion) (db : Db)
        → check_caps env.account env.now sug caps mode db ≡ ok tt
        → measure db ≤ bound
        → measure db + room sug ≤ bound

  -- What the loop keeps: keys, the book, and the bound.
  abbrev pub Bounded : Db → Type 0
  Bounded db = IsKeyed db × All (OnBook book) db.executions × (measure db ≤ bound)

  module _ {room : Suggestion → ℕ} (law : Guarded room) (sug : Suggestion)
      (known : Books book sug) where
    cancel_row-Bounded :
        (db : Db) (e : Execution)
        → IsKeyed db
        → Has e db.executions
        → is_stale env.account sug e ≡ true
        → All (OnBook book) db.executions × (measure db ≤ bound)
        → All (OnBook book) (cancel_row e.id db).executions × (measure (cancel_row e.id db) ≤ bound)
    cancel_row-Bounded db e k m t h = (
      All-update (λ r. r.id) (OnBook book) e.id mark_broker_cancelled (λ r on. on) db.executions
          h.0,
      omega (
        arith,
        total-update (λ r. r.id) p weight mark_broker_cancelled e db.executions k.distinct m,
        law.marked e (ground arith),
      ),
    )

    Change-Bounded :
        {before after : Db}
        → Change env sug (is_dry_run mode) before after
        → check_caps env.account env.now sug caps mode before ≡ ok tt
        → IsKeyed before
        → All (OnBook book) before.executions × (measure before ≤ bound)
        → All (OnBook book) after.executions × (measure after ≤ bound)
    Change-Bounded (kept (e, n)) ok_caps k h = (rw e h.0, rw e h.1)
    Change-Bounded {before} (added broker boid id status live (e, n)) ok_caps k h =
        let row = placement env sug broker (is_dry_run mode) boid id status before.next_execution in
        (
          rw e (
              All-append (OnBook book) before.executions (row ∷ []) h.0
                ((omega arith, known.1), tt)),
          rw e (
              omega (
                arith,
                total-append p weight before.executions (row ∷ []),
                law.placed sug broker boid id status before.next_execution live,
                law.passed sug before ok_caps h.1,
              )),
        )
    Change-Bounded {before} (adopted r m t d e n) ok_caps k h =
        let on = All-Has (OnBook book) r before.executions h.0 m in
        (
          rw e (
              All-update (λ x. x.id) (OnBook book) r.id (readopt env sug) (λ x on. on)
                before.executions h.0),
          rw e (
              omega (
                arith,
                total-update (λ x. x.id) p weight (readopt env sug) r before.executions k.distinct
                    m,
                law.readopted sug r known on t,
                law.passed sug before ok_caps h.1,
              )),
        )

    pub round-Bounded : (s : State W) → Bounded s.db → Bounded (round env sug caps mode s).1.db
    round-Bounded s (k, on, le) =
        let (k₁, h₁) =
          guards-Good env caps mode sug
            (λ db. All (OnBook book) db.executions × (measure db ≤ bound)) cancel_row-Bounded s k
            (on, le) in
        elim (round-Change env sug caps mode s) [
          | inl same ↦
              (Change-IsKeyed env sug {dry = false} (kept same) k₁, rw same.0 h₁.0, rw same.0 h₁.1)
          | inr (ok_guards, c) ↦
              let (_, ok_caps) = guards_passed env caps mode sug s ok_guards in
              let (on', le') = Change-Bounded c ok_caps k₁ h₁ in
              (Change-IsKeyed env sug c k₁, on', le')
        ]

-- A pass keeps a measure within its bound, if the caps in force guard it.
pub pass-Bounded :
    {W : Type 0} (env : Env W) (as_of : Option ℕ) (s : State W) (book : ℕ → Suggestion)
    (p : Execution → Bool) (weight : Execution → ℕ) (bound : ℕ) (room : Suggestion → ℕ)
    → Guarded env (get_mode s.db env.account) (get_active_caps s.db) book p weight bound room
    → All (Books book) s.db.suggestions
    → Bounded env (get_mode s.db env.account) (get_active_caps s.db) book p weight bound s.db
    → total p weight (run_auto_trade_pass env as_of s).1.db.executions ≤ bound
pass-Bounded env as_of s book p weight bound room law known h =
    let mode = get_mode s.db env.account in
    let caps = get_active_caps s.db in
    (pass_inv env as_of s (λ s'. Bounded env mode caps book p weight bound s'.db) (Books book)
      (λ sug s' ok_sug h'. round-Bounded env mode caps book p weight bound law sug ok_sug s' h')
      known h).2
