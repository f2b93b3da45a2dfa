-- ===== src/Web/Fills.antt =====
-- What the loops of main.py that cancel orders leave alone: the suggestions, and which of them have
-- an order that was filled.
use me_invest_paper.Base.{
  ℕ, ◌≡◌, refl, ap, sym, ◌∙◌, ◌≢◌, inl, inr, true, false, ◌||◌, Option, none, some, List, [], ◌∷◌,
  any, arith, filter, All, All-map, Has, All-Has, All-filter_test, All-filter-Has, All-both,
  Bool-cases, Option-cases,
}
use me_invest_paper.Base.Rows.{Distinct, update, All-update, update-Distinct}
use me_invest_paper.Store.{Execution, ExecutionStatus, Db, is_routing, is_broker_cancelled}
use me_invest_paper.Broker.{Adapter}
use me_invest_paper.Orders.{as_cancelled}
use me_invest_paper.Web.Stopping.{
  is_open_for, is_status_filled, is_filled_for, cancel_at, cancel_each,
}

-- The rows with the key are not filled.
abbrev pub IsUnfilled : List Execution → ℕ → Type 0
IsUnfilled rows i = All (λ r. r.id ≡ i → is_status_filled r.status ≡ false) rows

IsUnfilled-of :
    (e : Execution) (rows : List Execution)
    → Distinct (λ (r : Execution). r.id) rows
    → Has e rows
    → is_status_filled e.status ≡ false
    → IsUnfilled rows e.id
IsUnfilled-of e [] h m unfilled = tt
IsUnfilled-of e (r ∷ rows) h (inl same) unfilled = (
  λ _. ap (λ (x : Execution). is_status_filled x.status) (sym same) ∙ unfilled,
  All-map (λ y. y.id ≢ r.id) (λ y. y.id ≡ e.id → is_status_filled y.status ≡ false)
      (λ y ne key. absurd (ne (key ∙ ap (λ (x : Execution). x.id) same))) rows h.0,
)
IsUnfilled-of e (r ∷ rows) h (inr m) unfilled = (
  λ key. absurd (All-Has (λ y. y.id ≢ r.id) e rows h.0 m (sym key)),
  IsUnfilled-of e rows h.1 m unfilled,
)

open_unfilled :
    (s : ExecutionStatus)
    → (is_routing s || is_broker_cancelled s) ≡ true
    → is_status_filled s ≡ false
open_unfilled ExecutionStatus.filled h = cc
open_unfilled ExecutionStatus.partially_filled h = refl
open_unfilled ExecutionStatus.rejected h = refl
open_unfilled ExecutionStatus.expired h = refl
open_unfilled ExecutionStatus.canceled h = refl
open_unfilled ExecutionStatus.accepted_for_routing h = refl
open_unfilled ExecutionStatus.dry_run h = refl
open_unfilled ExecutionStatus.broker_cancelled h = refl

is_open_for-unfilled :
    (sid : ℕ) (e : Execution) → is_open_for sid e ≡ true → is_status_filled e.status ≡ false
is_open_for-unfilled sid e h = open_unfilled e.status (ground arith)

-- The orders that are selected for a suggestion are not filled.
pub selected-IsUnfilled :
    (sid : ℕ) (rows : List Execution)
    → Distinct (λ (r : Execution). r.id) rows
    → All (λ e. IsUnfilled rows e.id) (filter (is_open_for sid) rows)
selected-IsUnfilled sid rows distinct =
    All-both (λ e. Has e rows) (λ e. is_open_for sid e ≡ true) (λ e. IsUnfilled rows e.id)
      (λ e m t. IsUnfilled-of e rows distinct m (is_open_for-unfilled sid e t))
      (filter (is_open_for sid) rows) (All-filter-Has (is_open_for sid) rows)
      (All-filter_test (is_open_for sid) rows)

any-update :
    (sid i : ℕ) (rows : List Execution)
    → IsUnfilled rows i
    → any (is_filled_for sid) (update (λ e. e.id) i as_cancelled rows)
      ≡ any (is_filled_for sid) rows
any-update sid i [] h = refl
any-update sid i (r ∷ rows) h = ground (arith, h.0, any-update sid i rows h.1)

update-IsUnfilled :
    (i j : ℕ) (rows : List Execution)
    → IsUnfilled rows j
    → IsUnfilled (update (λ e. e.id) i as_cancelled rows) j
update-IsUnfilled i j rows h =
    All-update (λ e. e.id) (λ r. r.id ≡ j → is_status_filled r.status ≡ false) i as_cancelled
      (λ r unfilled key. refl) rows h

-- What a loop keeps: the suggestions, and for each of them whether an order was filled.
pub record Spares (before after : Db) : Type 0 where
  pub rows : after.suggestions ≡ before.suggestions
  pub next_key : after.next_suggestion ≡ before.next_suggestion
  pub fills :
      (sid : ℕ)
      → any (is_filled_for sid) after.executions ≡ any (is_filled_for sid) before.executions
  pub distinct :
      Distinct (λ (e : Execution). e.id) before.executions
      → Distinct (λ (e : Execution). e.id) after.executions

pub Spares-refl : (db : Db) → Spares db db
Spares-refl db = record { rows = refl; next_key = refl; fills = λ sid. refl; distinct = λ h. h }

Spares-trans : {a b c : Db} → Spares a b → Spares b c → Spares a c
Spares-trans s t = record {
  rows = t.rows ∙ s.rows;
  next_key = t.next_key ∙ s.next_key;
  fills = λ sid. t.fills sid ∙ s.fills sid;
  distinct = λ h. t.distinct (s.distinct h);
}

module _ {W : Type 0} where
  cancel_at-Spares :
      (adapter : Option (Adapter W)) (oid id : ℕ) (db : Db) (w : W)
      → IsUnfilled db.executions id
      → Spares db (cancel_at adapter oid id db w).1
        × ((j : ℕ)
            → IsUnfilled db.executions j
            → IsUnfilled (cancel_at adapter oid id db w).1.executions j)
  unfolding cancel_at
  cancel_at-Spares none oid id db w unfilled = (Spares-refl db, λ j h. h)
  cancel_at-Spares (some adapter) oid id db w unfilled =
      elim (Bool-cases (adapter.cancel_order oid w).0) [
        | inr refused ↦ rw (refused, cancel_at) (Spares-refl db, λ j h. h)
        | inl done ↦
            rw (done, cancel_at)
              (
                record {
                  rows = refl;
                  next_key = refl;
                  fills = λ sid. any-update sid id db.executions unfilled;
                  distinct =
                      λ h. update-Distinct (λ e. e.id) id as_cancelled (λ _. refl) db.executions h;
                },
                λ j h. update-IsUnfilled id j db.executions h,
              )
      ]

  pub cancel_each-Spares :
      (adapter_of : Execution → Option (Adapter W)) (es : List Execution) (db : Db) (w : W)
      → All (λ e. IsUnfilled db.executions e.id) es
      → Spares db (cancel_each adapter_of es db w).1
  unfolding cancel_each
  cancel_each-Spares adapter_of [] db w h = Spares-refl db
  cancel_each-Spares adapter_of (e ∷ es) db w h = elim (Option-cases e.broker_order_id) [
    | inl no_order ↦ rw (no_order, cancel_each) (cancel_each-Spares adapter_of es db w h.1)
    | inr (oid, order) ↦
        let (spared, kept) = cancel_at-Spares (adapter_of e) oid e.id db w h.0 in
        let (_, db₁, w₁) = cancel_at (adapter_of e) oid e.id db w in
        rw (order, cancel_each)
          (Spares-trans spared (
            cancel_each-Spares adapter_of es db₁ w₁ (
              All-map (λ x. IsUnfilled db.executions x.id) (λ x. IsUnfilled db₁.executions x.id)
                (λ x u. kept x.id u) es h.1)))
  ]
