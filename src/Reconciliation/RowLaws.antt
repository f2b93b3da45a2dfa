-- ===== src/Reconciliation/RowLaws.antt =====
-- How many rows `persist_reconciliation` of services/reconciliation.py keeps of an order.
use me_invest_paper.Base.{
  ℕ, ◌+◌, ◌≤◌, ◌≡◌, refl, ap, sym, subst, ◌∙◌, inl, inr, List, [], ◌∷◌, ◌++◌, ◌==◌, arith, find?,
  find-none, total, total-append, total-none, total-find, All, Bool-cases, Option-cases,
  if◌then◌else◌,
}
use me_invest_paper.Base.Rows.{total-update_same}
use me_invest_paper.Store.{Text, Db, is_buy}
use me_invest_paper.Broker.{Activity}
use me_invest_paper.Reconciliation.Matching.{MatchResult}
use me_invest_paper.Reconciliation.Persist.{
  is_row_of, with_fill, new_row, fill_row, fill_suggestion, upsert, flip, persist_reconciliation,
}

-- How many rows stand for an order of the account.
abbrev pub row_count : ℕ → ℕ → Db → ℕ
row_count account boid db = total (is_row_of account boid) (λ _. 1) db.executions

flip-executions : (r : MatchResult) (db : Db) → (flip r db).executions ≡ db.executions
unfolding flip fill_suggestion
flip-executions r db = ground arith

module _ (broker : Text) (account now : ℕ) where
  fill_row-row_count :
      (boid id : ℕ) (act : Activity) (db : Db)
      → row_count account boid (fill_row act id db) ≡ row_count account boid db
  unfolding fill_row
  fill_row-row_count boid id act db =
      let filled =
        total-update_same (λ e. e.id) (is_row_of account boid) (λ _. 1) id (with_fill act)
          (λ _. refl) db.executions in
      elim (Bool-cases (is_buy act.side)) [
        | inl e ↦ rw e filled
        | inr e ↦ rw e (
            total-update_same (λ x. x.id) (is_row_of account boid) (λ _. 1) id _ (λ _. refl) _
            ∙ filled)
      ]

  new_row_count :
      (boid : ℕ) (r : MatchResult) (db : Db)
      → total
          (is_row_of account boid)
          (λ _. 1)
          (db.executions ++ new_row broker account now r db db.next_execution ∷ [])
        ≡ row_count account boid db + (if r.activity.broker_order_id == boid then 1 else 0)
  new_row_count boid r db =
      let row = new_row broker account now r db db.next_execution in
      total-append (is_row_of account boid) (λ _. 1) db.executions (row ∷ []) ∙ ground arith

  -- An upsert leaves at least one row of its order, and adds one only where there was none.
  upsert-row_count :
      (r : MatchResult) (db : Db)
      → (1 ≤ row_count account r.activity.broker_order_id (upsert broker account now r db))
        × ((boid : ℕ)
            → (row_count account boid db ≤ row_count account boid (upsert broker account now r db))
              × (row_count account boid db ≤ 1
                  → row_count account boid (upsert broker account now r db) ≤ 1))
  unfolding upsert
  upsert-row_count r db =
      let order = r.activity.broker_order_id in
      elim (Option-cases (find? (is_row_of account order) db.executions)) [
        | inr (e, found) ↦
            let count = fill_row-row_count in
            rw (found, upsert)
              (
                subst (λ n. 1 ≤ n) (sym (count order e.id r.activity db))
                    (total-find (is_row_of account order) e db.executions found),
                λ boid. ground (arith, count boid e.id r.activity db),
              )
        | inl missing ↦
            let none_yet =
              total-none (is_row_of account order) db.executions
                (find-none (is_row_of account order) db.executions missing) in
            rw (missing, upsert)
              (
                ground (arith, new_row_count order r db),
                λ boid. ground (
                  arith,
                  new_row_count boid r db,
                  λ (e : order ≡ boid). ap (λ b. row_count account b db) e,
                ),
              )
      ]

  -- Where the table has at most one row of each order of the account, it still has at most one behind
  -- a reconciliation, and exactly one of each order that a result is about, and no fewer rows of any order than before.
  pub persist_reconciliation-row_count :
      (rs : List MatchResult) (db : Db)
      → ((boid : ℕ) → row_count account boid db ≤ 1)
      → let after = persist_reconciliation broker account now rs db in
        ((boid : ℕ)
          → (row_count account boid db ≤ row_count account boid after)
            × (row_count account boid after ≤ 1))
        × All (λ r. row_count account r.activity.broker_order_id after ≡ 1) rs
  unfolding persist_reconciliation
  persist_reconciliation-row_count [] db single = (λ boid. (omega arith, single boid), tt)
  persist_reconciliation-row_count (r ∷ rs) db single =
      let db₁ = upsert broker account now r db in
      let (stands, step) = upsert-row_count r db in
      let flipped =
        λ (boid : ℕ). ap (total (is_row_of account boid) (λ _. 1)) (flip-executions r db₁) in
      let (rest, each) =
        persist_reconciliation-row_count rs (flip r db₁)
          (λ boid. ground (arith, flipped boid, step boid, single boid)) in
      let order = r.activity.broker_order_id in
      (
        λ boid. ground (arith, flipped boid, step boid, single boid, rest boid),
        (ground (arith, flipped order, stands, rest order), each),
      )
