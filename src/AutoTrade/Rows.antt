-- ===== src/AutoTrade/Rows.antt =====
-- How the steps of a pass in services/auto_trade.py change the table of executions: a rule that
-- carries a property of the rows through the guards.
use me_invest_paper.Base.{
  ℕ, ◌+◌, ◌<◌, ◌≡◌, refl, ◌≢◌, true, Option, List, [], ◌∷◌, arith, All, All-append, All-map,
  All-both, All-filter-Has, All-filter_test, Has, filter, ◌⊎◌, inl, inr,
}
use me_invest_paper.Base.Rows.{
  Distinct, All-update, update-Distinct, append-Distinct, filter-Distinct, Has-update,
}
use me_invest_paper.Store.{Suggestion, Execution, Mode, Caps, Db, add_execution, set_execution}
use me_invest_paper.Broker.{Adapter}
use me_invest_paper.AutoTrade.State.{State, Env, ok, >>-of_ok, >>-of_ne_ok}
use me_invest_paper.AutoTrade.Guards.{
  is_stale, cancel_row, mark_broker_cancelled, reconcile_stale, reconcile_stales, settle_stales,
  check_stale_live_order, check_cash_sufficiency, check_idempotency, check_caps, guards,
}

abbrev pub Keyed : List Execution → Type 0
Keyed rows = Distinct (λ e. e.id) rows

-- The primary key of the executions: no id stands twice, and the next one is above all others.
pub record IsKeyed (db : Db) : Type 0 where
  pub distinct : Keyed db.executions
  pub fresh : All (λ e. e.id < db.next_execution) db.executions

pub set_execution-IsKeyed :
    (i : ℕ) (f : Execution → Execution) (db : Db)
    → ((e : Execution) → (f e).id ≡ e.id)
    → IsKeyed db
    → IsKeyed (set_execution i f db)
set_execution-IsKeyed i f db keep h = record {
  distinct = update-Distinct (λ e. e.id) i f keep db.executions h.distinct;
  fresh =
      All-update (λ e. e.id) (λ e. e.id < db.next_execution) i f (λ e lt. omega (arith, keep e))
        db.executions h.fresh;
}

pub add_execution-IsKeyed :
    (row : ℕ → Execution) (db : Db)
    → ((i : ℕ) → (row i).id ≡ i)
    → IsKeyed db
    → IsKeyed (add_execution row db)
add_execution-IsKeyed row db keep h =
    let e = keep db.next_execution in
    record {
      distinct =
          append-Distinct (λ e. e.id) db.executions (row db.next_execution) h.distinct
            (All-map (λ e. e.id < db.next_execution) (λ x. x.id < (row db.next_execution).id)
              (λ x lt. omega arith) db.executions h.fresh);
      fresh =
          All-append (λ e. e.id < db.next_execution + 1) db.executions (row db.next_execution ∷ [])
            (All-map (λ e. e.id < db.next_execution) (λ x. x.id < db.next_execution + 1)
              (λ x lt. omega arith) db.executions h.fresh)
            (omega arith, tt);
    }

module _ {W : Type 0} (adapter : Adapter W) where
  -- One stale row: it is marked, or the loop ends with the rows as they were.
  reconcile_stale_cases :
      (e : Execution) (s : State W)
      → let (r, s') = reconcile_stale adapter e s in
        ((r ≡ ok tt) × (s'.db ≡ cancel_row e.id s.db)) ⊎ ((r ≢ ok tt) × (s'.db ≡ s.db))
  unfolding reconcile_stale
  reconcile_stale_cases e s = ground arith

  settle_stales_cases :
      (mode : Mode) (es : List Execution) (s : State W)
      → let after = settle_stales adapter mode es s in
        (after.1 ≡ s) ⊎ (after ≡ reconcile_stales adapter es s)
  unfolding settle_stales
  settle_stales_cases mode [] s = inl refl
  settle_stales_cases mode (e ∷ es) s = ground arith

  -- The guard goes through the loop, or leaves everything alone.
  check_stale_live_order_cases :
      (account : ℕ) (sug : Suggestion) (mode : Mode) (s : State W)
      → let after = check_stale_live_order adapter account sug mode s in
        (after.1 ≡ s)
        ⊎ (after ≡ reconcile_stales adapter (filter (is_stale account sug) s.db.executions) s)
  unfolding check_stale_live_order
  check_stale_live_order_cases account sug mode s =
      settle_stales_cases mode (filter (is_stale account sug) s.db.executions) s

  check_cash_sufficiency-db :
      (sug : Suggestion) (s : State W) → (check_cash_sufficiency adapter sug s).1.db ≡ s.db
  unfolding check_cash_sufficiency
  check_cash_sufficiency-db sug s = ground arith

module _ (account : ℕ) (sug : Suggestion) (Inv : Db → Type 0)
    (keep : (db : Db) (e : Execution)
      → IsKeyed db
      → Has e db.executions
      → is_stale account sug e ≡ true
      → Inv db
      → Inv (cancel_row e.id db)) where
  abbrev pub Good : Db → Type 0
  Good db = IsKeyed db × Inv db

  cancel_row-Good :
      (db : Db) (e : Execution)
      → Has e db.executions
      → is_stale account sug e ≡ true
      → Good db
      → Good (cancel_row e.id db)
  cancel_row-Good db e m t (k, h) =
      (set_execution-IsKeyed e.id mark_broker_cancelled db (λ _. refl) k, keep db e k m t h)

  module _ {W : Type 0} (adapter : Adapter W) where
    reconcile_stales-Good :
        (es : List Execution) (s : State W)
        → Keyed es
        → All (λ e. Has e s.db.executions) es
        → All (λ e. is_stale account sug e ≡ true) es
        → Good s.db
        → Good (reconcile_stales adapter es s).1.db
    unfolding reconcile_stales
    reconcile_stales-Good [] s d m t g = g
    reconcile_stales-Good (e ∷ es) s d m t g =
        let s' : State W = (reconcile_stale adapter e s).1 in
        elim (reconcile_stale_cases adapter e s) [
          | inr (stop, same) ↦
              rw
                (>>-of_ne_ok (reconcile_stale adapter e) (reconcile_stales adapter es) s stop, same)
                g
          | inl (going, marked) ↦
              rw (>>-of_ok (reconcile_stale adapter e) (reconcile_stales adapter es) s going) (
                reconcile_stales-Good es s' d.1
                  (rw marked (
                    All-both (λ x. x.id ≢ e.id) (λ x. Has x s.db.executions)
                      (λ x. Has x (cancel_row e.id s.db).executions)
                      (λ x ne h.
                        Has-update (λ x. x.id) e.id mark_broker_cancelled x s.db.executions ne h)
                      es d.0 m.1))
                  t.1 (rw marked (cancel_row-Good s.db e m.0 t.0 g)))
        ]

    pub check_stale_live_order-Good :
        (mode : Mode) (s : State W)
        → Good s.db
        → Good (check_stale_live_order adapter account sug mode s).1.db
    check_stale_live_order-Good mode s g =
        let rows = s.db.executions in
        let p = is_stale account sug in
        let all =
          reconcile_stales-Good (filter p rows) s (filter-Distinct (λ e. e.id) p rows g.0.distinct)
            (All-filter-Has p rows) (All-filter_test p rows) g in
        elim (check_stale_live_order_cases adapter account sug mode s) [
          | inl same ↦ rw same g
          | inr loop ↦ rw loop all
        ]

module _ {W : Type 0} (env : Env W) (caps : Option Caps) (mode : Mode) (sug : Suggestion) where
  -- The rows after the guards are those after the stale orders' guard, or those before.
  guards_cases :
      (s : State W)
      → let s' = (guards env caps mode sug s).1 in
        (s'.db ≡ s.db) ⊎ (s'.db ≡ (check_stale_live_order env.adapter env.account sug mode s).1.db)
  unfolding guards
  guards_cases s = ground (
    arith,
    check_cash_sufficiency-db env.adapter sug
        (check_stale_live_order env.adapter env.account sug mode s).1,
  )

  -- A suggestion that passes the guards has passed the caps on the rows that they leave.
  pub guards_passed :
      (s : State W)
      → (guards env caps mode sug s).0 ≡ ok tt
      → (check_idempotency env.account sug mode s.db ≡ ok tt)
        × (check_caps env.account env.now sug caps mode (guards env caps mode sug s).1.db ≡ ok tt)
  unfolding guards
  guards_passed s e = ground (
    arith,
    check_cash_sufficiency-db env.adapter sug
        (check_stale_live_order env.adapter env.account sug mode s).1,
  )

  -- A property of the rows that survives the marking of a stale row survives the guards.
  pub guards-Good :
      (Inv : Db → Type 0)
      → ((db : Db) (e : Execution)
          → IsKeyed db
          → Has e db.executions
          → is_stale env.account sug e ≡ true
          → Inv db
          → Inv (cancel_row e.id db))
      → (s : State W) → IsKeyed s.db
      → Inv s.db
      → let db = (guards env caps mode sug s).1.db in IsKeyed db × Inv db
  guards-Good Inv keep s k h = elim (guards_cases s) [
    | inl same ↦ rw same (k, h)
    | inr e ↦ rw e (check_stale_live_order-Good env.account sug Inv keep env.adapter mode s (k, h))
  ]
