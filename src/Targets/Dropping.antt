-- ===== src/Targets/Dropping.antt =====
-- The suggestions that services/targets.py ends when their ticker is no target any more.
use me_invest_paper.Base.{
  ℕ, ◌≡◌, refl, ap, ◌∙◌, sym, inl, inr, Bool, ◌&&◌, not, Option, none, some, List, [], ◌∷◌, map,
  filter, Bool-cases, Option-cases,
}
use me_invest_paper.Base.Rows.{Distinct}
use me_invest_paper.Base.Sweeps.{when, updates, updates-filter, filter-filter}
use me_invest_paper.Store.{Text, Suggestion, Execution, Db, set_suggestion}
use me_invest_paper.Broker.{Adapter}
use me_invest_paper.Expiry.{as_expired}
use me_invest_paper.Web.Stopping.{cancel_at, cancel_each}
use me_invest_paper.Targets.{
  Target, TargetTables, is_same_hash, stored_hash, is_of_week, is_target, is_cancellable,
  cancel_orders, drop_each, load_targets_into_db,
}

-- The suggestions' table is left alone.
abbrev pub SameRows : Db → Db → Type 0
SameRows before after =
    (after.suggestions ≡ before.suggestions) × (after.next_suggestion ≡ before.next_suggestion)

module _ {W : Type 0} where
  cancel_at-SameRows :
      (a : Option (Adapter W)) (oid id : ℕ) (db : Db) (w : W)
      → SameRows db (cancel_at a oid id db w).1
  unfolding cancel_at
  cancel_at-SameRows none oid id db w = (refl, refl)
  cancel_at-SameRows (some a) oid id db w = elim (Bool-cases (a.cancel_order oid w).0) [
    | inl done ↦ rw (done, cancel_at) (refl, refl)
    | inr refused ↦ rw (refused, cancel_at) (refl, refl)
  ]

  cancel_each-SameRows :
      (adapter_of : Execution → Option (Adapter W)) (es : List Execution) (db : Db) (w : W)
      → SameRows db (cancel_each adapter_of es db w).1
  unfolding cancel_each
  cancel_each-SameRows adapter_of [] db w = (refl, refl)
  cancel_each-SameRows adapter_of (e ∷ es) db w = elim (Option-cases e.broker_order_id) [
    | inl no_order ↦ rw (no_order, cancel_each) (cancel_each-SameRows adapter_of es db w)
    | inr (oid, order) ↦
        let (first_rows, first_key) = cancel_at-SameRows (adapter_of e) oid e.id db w in
        let (_, db₁, w₁) = cancel_at (adapter_of e) oid e.id db w in
        let (rest_rows, rest_key) = cancel_each-SameRows adapter_of es db₁ w₁ in
        rw (order, cancel_each) (rest_rows ∙ first_rows, rest_key ∙ first_key)
  ]

  module _ (adapter : Option (Adapter W)) (now account : ℕ) (targets : List Target) where
    -- The suggestion's ticker is no target.
    abbrev pub is_dropped : Suggestion → Bool
    is_dropped s = not (is_target targets s.ticker)

    cancel_orders-SameRows :
        (a : Option (Adapter W)) (sid : ℕ) (db : Db) (w : W)
        → SameRows db (cancel_orders adapter now account targets a sid db w).0
    cancel_orders-SameRows none sid db w = (refl, refl)
    cancel_orders-SameRows (some a) sid db w =
        cancel_each-SameRows (λ e. some a) (filter (is_cancellable sid account) db.executions) db w

    drop_each-suggestions :
        (sugs : List Suggestion) (db : Db) (w : W)
        → let (db', _) = drop_each adapter now account targets sugs db w in
          (db'.suggestions
            ≡ updates
                (λ (s : Suggestion). s.id)
                (as_expired now)
                (filter is_dropped sugs)
                db.suggestions)
          × (db'.next_suggestion ≡ db.next_suggestion)
    unfolding drop_each
    drop_each-suggestions [] db w = (refl, refl)
    drop_each-suggestions (s ∷ sugs) db w = elim (Bool-cases (is_target targets s.ticker)) [
      | inl target ↦ rw (target, drop_each) (drop_each-suggestions sugs db w)
      | inr gone ↦
          let db₁ = set_suggestion s.id (as_expired now) db in
          let (db₂, w₂) = cancel_orders adapter now account targets adapter s.id db₁ w in
          let (rows, key) = cancel_orders-SameRows adapter s.id db₁ w in
          let (rest_rows, rest_key) = drop_each-suggestions sugs db₂ w₂ in
          rw (gone, drop_each)
            (
              rest_rows ∙ ap (updates (λ s. s.id) (as_expired now) (filter is_dropped sugs)) rows,
              rest_key ∙ key,
            )
    ]

    -- Where the ids of the suggestions are not repeated: when the hash of the account is stored
    -- already, no suggestion changes; else exactly the accepted suggestions of the account and the
    -- current week whose ticker is not among the new targets are expired, whatever the broker does
    -- with their orders, and no other suggestion changes.
    pub load_targets_into_db-suggestions :
        (source content_hash : Text) (tables : TargetTables) (db : Db) (w : W)
        → Distinct (λ (s : Suggestion). s.id) db.suggestions
        → let stale = is_same_hash content_hash (stored_hash account tables.hashes) in
          let (_, _, db', _) =
            load_targets_into_db adapter now account targets source content_hash tables db w in
          (db'.suggestions
            ≡ map
                (when (λ s. not stale && is_of_week account now s && is_dropped s) (as_expired now))
                db.suggestions)
          × (db'.next_suggestion ≡ db.next_suggestion)
    unfolding load_targets_into_db
    load_targets_into_db-suggestions source content_hash tables db w distinct =
        let (rows, key) =
          drop_each-suggestions (filter (is_of_week account now) db.suggestions) db w in
        elim (Bool-cases (is_same_hash content_hash (stored_hash account tables.hashes))) [
          | inl same ↦ rw (same, load_targets_into_db) (sym (map-unchanged db.suggestions), refl)
          | inr other ↦
              rw (other, load_targets_into_db)
                (
                  rows
                      ∙ ap (λ l. updates (λ s. s.id) (as_expired now) l db.suggestions)
                          (filter-filter is_dropped (is_of_week account now) db.suggestions)
                      ∙ updates-filter (λ s. s.id) (as_expired now) (λ _. refl)
                          (λ s. is_of_week account now s && is_dropped s) db.suggestions distinct,
                  key,
                )
        ]
      where
        map-unchanged : (xs : List Suggestion) → map (λ s. s) xs ≡ xs
        map-unchanged [] = refl
        map-unchanged (x ∷ xs) = ap (λ l. x ∷ l) (map-unchanged xs)
