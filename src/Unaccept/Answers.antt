-- ===== src/Unaccept/Answers.antt =====
-- How `unaccept_suggestion` of services/unaccept.py goes by the answers of the broker.
use me_invest_paper.Base.{
  ℕ, ◌≡◌, refl, ◌≢◌, inl, inr, Bool, true, Option, none, some, ◌==◌, arith, Bool-cases, find?,
  Option-cases, ◌&&◌, not, ==_iff, ap, ◌∙◌, sym, ◌||◌, List, [], ◌∷◌, Has, All-Has, Has-filter,
  Has-latest_by, filter, latest_by, if◌then◌else◌,
}
use me_invest_paper.Base.Rows.{update, Distinct, find-update}
use me_invest_paper.Store.{Suggestion, Execution, Db, is_accepted, set_execution}
use me_invest_paper.Broker.{OrderConfirmation, Adapter}
use me_invest_paper.Orders.{
  CancelOutcome, is_filled, is_terminal, is_partial, as_cancelled, try_cancel,
  cancel_working_execution,
}
use me_invest_paper.Unaccept.{
  UnacceptResult, cancelled, partial, get_suggestion, is_placed_for, cancel_latest,
  conclude_unaccept, unaccept_suggestion,
}

module _ {W : Type 0} (adapter : Adapter W) (now : ℕ) where
  -- The result by what the broker says of the order.
  abbrev pub result_for : Option OrderConfirmation → UnacceptResult
  result_for none = cancelled
  result_for (some conf) =
      if is_filled conf.status
      then UnacceptResult.filled
      else if is_partial conf.status
      then partial
      else cancelled

  -- Whether the execution is marked as cancelled: the order is over and not filled, or its cancel went
  -- through and it is not known to be filled, in part or in whole.
  abbrev pub is_marked : Option OrderConfirmation → Bool → Bool
  is_marked none done = done
  is_marked (some conf) done =
      not (is_filled conf.status)
      && (is_terminal conf.status || not (is_partial conf.status) && done)

  working_answers :
      (boid : ℕ) (e : Execution) (sid : ℕ) (db : Db) (w : W)
      → let (answer, asked) = adapter.get_order boid w in
        let (outcome, e', _) = cancel_working_execution adapter boid e w in
        ((conclude_unaccept adapter now sid outcome db).0 ≡ result_for answer)
        × (e'
            ≡ (if is_marked answer (adapter.cancel_order boid asked).0 then as_cancelled e else e))
  unfolding cancel_working_execution try_cancel conclude_unaccept
  working_answers boid e sid db w = elim (Option-cases (adapter.get_order boid w).0) [
    | inl failed ↦ rw (failed, cancel_working_execution) (ground arith)
    | inr (conf, got) ↦ rw (got, cancel_working_execution) (ground arith)
  ]

  conclude-executions :
      (sid : ℕ) (outcome : CancelOutcome) (db : Db)
      → (conclude_unaccept adapter now sid outcome db).1.executions ≡ db.executions
  unfolding conclude_unaccept
  conclude-executions sid CancelOutcome.already_filled db = refl
  conclude-executions sid CancelOutcome.partial db = refl
  conclude-executions sid CancelOutcome.cancelled db = refl
  conclude-executions sid CancelOutcome.noop db = refl

  -- A row of the table is what its key finds.
  find-Distinct :
      (e : Execution) (es : List Execution)
      → Distinct (λ (x : Execution). x.id) es
      → Has e es
      → find? (λ x. x.id == e.id) es ≡ some e
  find-Distinct e [] h m = absurd m
  find-Distinct e (x ∷ es) h (inl same) =
      ground (arith, ap (λ (y : Execution). y.id) same, ap (λ (y : Execution). some y) same)
  find-Distinct e (x ∷ es) h (inr m) =
      let other : e.id ≢ x.id = All-Has (λ (y : Execution). y.id ≢ x.id) e es h.0 m in
      ground (arith, find-Distinct e es h.1 m)

  marked_only :
      (e e' : Execution) (b : Bool) (j : ℕ) (es : List Execution)
      → Distinct (λ (x : Execution). x.id) es
      → Has e es
      → e' ≡ (if b then as_cancelled e else e)
      → find? (λ x. x.id == j) (update (λ x. x.id) e.id (λ x. record x { status = e'.status }) es)
        ≡ (if (e.id == j) && b then some (as_cancelled e) else find? (λ x. x.id == j) es)
  marked_only e e' b j es distinct has e_is =
      let there = find-Distinct e es distinct has in
      find-update (λ (x : Execution). x.id) e.id j (λ x. record x { status = e'.status })
        (λ _. refl) es
      ∙ elim (Bool-cases (e.id == j)) [
        | inr differs ↦ rw differs refl
        | inl same ↦
            let e_at : find? (λ x. x.id == j) es ≡ some e =
              ap (λ k. find? (λ x. x.id == k) es) (sym ((==_iff e.id j).0 same)) ∙ there in
            rw (same, e_at, e_is) (ground arith)
      ]

  cancel_latest-order :
      (boid : ℕ) (e : Execution) (db : Db) (w : W)
      → e.broker_order_id ≡ some boid
      → let (outcome, e', w') = cancel_working_execution adapter boid e w in
        cancel_latest adapter now (some e) db w
        ≡ (outcome, set_execution e.id (λ x. record x { status = e'.status }) db, w')
  unfolding cancel_latest
  cancel_latest-order boid e db w order = simp (order, cancel_latest)

  -- For an accepted suggestion of the account whose latest real execution has an order, where no id of an
  -- execution stands twice: the result is `filled` when the broker reports the order as filled,
  -- `partial` when it reports it as filled in part, and `cancelled` in every other case, with no answer
  -- or a refused cancel among them. The only execution that may change is that latest one, which is
  -- marked as cancelled exactly when the order is reported as over and not filled, or when its cancel
  -- went through and the order is not reported as filled, in part or in whole.
  pub unaccept_suggestion-answers :
      (sid account boid : ℕ) (sug : Suggestion) (e : Execution) (db : Db) (w : W)
      → Distinct (λ (x : Execution). x.id) db.executions
      → get_suggestion sid db ≡ some sug
      → (sug.broker_account_id == account) ≡ true
      → is_accepted sug.status ≡ true
      → latest_by (λ x. x.created_at) (filter (is_placed_for sug.id account) db.executions) ≡ some e
      → e.broker_order_id ≡ some boid
      → let (result, db', _) = unaccept_suggestion adapter now sid account db w in
        let (answer, asked) = adapter.get_order boid w in
        (result ≡ result_for answer)
        × ((j : ℕ)
            → find? (λ x. x.id == j) db'.executions ≡ (
                if (e.id == j) && is_marked answer (adapter.cancel_order boid asked).0
                then some (as_cancelled e)
                else find? (λ x. x.id == j) db.executions))
  unfolding unaccept_suggestion
  unaccept_suggestion-answers sid account boid sug e db w distinct found own accepted latest order =
      let (outcome, e', w₁) = cancel_working_execution adapter boid e w in
      let db₁ = set_execution e.id (λ x. record x { status = e'.status }) db in
      let (result, marked) = working_answers boid e sug.id db₁ w in
      rw (found, own, accepted, latest, unaccept_suggestion, cancel_latest-order boid e db w order)
        (
          result,
          λ j.
              ap (λ es. find? (λ x. x.id == j) es) (conclude-executions sug.id outcome db₁)
              ∙ marked_only e e' _ j db.executions distinct has marked,
        )
    where
      has : Has e db.executions
      has =
          (Has-filter (is_placed_for sug.id account) e db.executions (
            Has-latest_by (λ x. x.created_at) e
              (filter (is_placed_for sug.id account) db.executions) latest)).0
