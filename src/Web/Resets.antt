-- ===== src/Web/Resets.antt =====
-- What `admin_reset_week_buy_suggestions` of main.py does to the suggestions.
use me_invest_paper.Base.{
  ℕ, ◌≡◌, refl, ap, sym, ◌∙◌, inl, inr, Bool, true, false, ◌&&◌, not, Option, List, [], ◌∷◌, map,
  any, arith, find?, filter, present, Option-cases,
}
use me_invest_paper.Base.Rows.{Distinct, update}
use me_invest_paper.Base.Sweeps.{when, updates, updates-filter, filter-filter}
use me_invest_paper.Calendar.{next_monday}
use me_invest_paper.Store.{Text, Side, Suggestion, Execution, Db}
use me_invest_paper.Broker.{Adapter}
use me_invest_paper.Accounts.{BrokerAccount}
use me_invest_paper.Web.Reply.{ok, token_auth, all, resolve_scope, OnOk, on_ok, Reply-cases}
use me_invest_paper.Web.Stopping.{
  Report, is_open_for, is_filled_for, is_resettable, as_pending, reset_one, reset_each,
  admin_reset_week_buy_suggestions,
}
use me_invest_paper.Web.Fills.{selected-IsUnfilled, cancel_each-Spares}

any-find : (p : Execution → Bool) (xs : List Execution) → any p xs ≡ present (find? p xs)
any-find p [] = refl
any-find p (x ∷ xs) = ground (arith, any-find p xs)

abbrev pub has_fill : Db → ℕ → Bool
has_fill db sid = any (is_filled_for sid) db.executions

-- The suggestion can be reset: no order of it was filled.
abbrev pub is_free : (ℕ → Bool) → Suggestion → Bool
is_free filled s = not (filled s.id)

abbrev pub is_reset : ℕ → List ℕ → Option Side → Db → Suggestion → Bool
is_reset today refs side db s =
    is_resettable refs (next_monday today) side s && is_free (has_fill db) s

module _ {W : Type 0} (adapters : ℕ → Option (Adapter W)) where
  reset_one_lem :
      (sug : Suggestion) (db : Db) (w : W)
      → Distinct (λ (e : Execution). e.id) db.executions
      → let (_, db', _) = reset_one adapters sug db w in
        (db'.suggestions ≡ update (λ (s : Suggestion). s.id) sug.id as_pending db.suggestions)
        × (db'.next_suggestion ≡ db.next_suggestion)
        × Distinct (λ (e : Execution). e.id) db'.executions
        × ((sid : ℕ) → has_fill db' sid ≡ has_fill db sid)
  unfolding reset_one
  reset_one_lem sug db w distinct =
      let spared =
        cancel_each-Spares (λ e. adapters sug.broker_account_id)
          (filter (is_open_for sug.id) db.executions) db w
          (selected-IsUnfilled sug.id db.executions distinct) in
      (
        ap (update (λ s. s.id) sug.id as_pending) spared.rows,
        spared.next_key,
        spared.distinct distinct,
        spared.fills,
      )

  reset_each_lem :
      (filled : ℕ → Bool) (sugs : List Suggestion) (db : Db) (w : W)
      → Distinct (λ (e : Execution). e.id) db.executions
      → ((sid : ℕ) → has_fill db sid ≡ filled sid)
      → let (ids, _, db', _) = reset_each adapters sugs db w in
        (ids ≡ map (λ s. s.id) (filter (is_free filled) sugs))
        × (db'.suggestions
            ≡ updates
                (λ (s : Suggestion). s.id)
                as_pending
                (filter (is_free filled) sugs)
                db.suggestions)
        × (db'.next_suggestion ≡ db.next_suggestion)
  unfolding reset_each
  reset_each_lem filled [] db w distinct same = (refl, refl, refl)
  reset_each_lem filled (sug ∷ sugs) db w distinct same =
      elim (Option-cases (find? (is_filled_for sug.id) db.executions)) [
        | inr (e, found) ↦
            let taken : filled sug.id ≡ true =
              sym (same sug.id)
              ∙ any-find (is_filled_for sug.id) db.executions
              ∙ ap present found in
            rw (found, reset_each, taken) (reset_each_lem filled sugs db w distinct same)
        | inl missing ↦
            let free : filled sug.id ≡ false =
              sym (same sug.id)
              ∙ any-find (is_filled_for sug.id) db.executions
              ∙ ap present missing in
            let (_, db₁, w₁) = reset_one adapters sug db w in
            let (row, key₁, distinct₁, fills) = reset_one_lem sug db w distinct in
            let (ids, rows, key) =
              reset_each_lem filled sugs db₁ w₁ distinct₁ (λ sid. fills sid ∙ same sid) in
            rw (missing, reset_each, free)
              (
                ap (λ l. sug.id ∷ l) ids,
                rows ∙ ap (updates (λ s. s.id) as_pending (filter (is_free filled) sugs)) row,
                key ∙ key₁,
              )
      ]

  module _ (rows : List BrokerAccount) (today : ℕ) where
    -- The parts of an accepted answer.
    abbrev pub IsWeekReset : List ℕ → Option Side → Db → List ℕ × Report × Db × W → Type 0
    IsWeekReset refs side db (ids, _, db', _) =
        (db'.suggestions ≡ map (when (is_reset today refs side db) as_pending) db.suggestions)
        × (ids ≡ map (λ s. s.id) (filter (is_reset today refs side db) db.suggestions))
        × (db'.next_suggestion ≡ db.next_suggestion)

    pub admin_reset_week-IsWeekReset :
        (admin_token header : Text) (side : Option Side) (account : Option ℕ) (refs : List ℕ)
        (db : Db) (w : W)
        → Distinct (λ (s : Suggestion). s.id) db.suggestions
        → Distinct (λ (e : Execution). e.id) db.executions
        → resolve_scope rows account all ≡ ok refs
        → OnOk (IsWeekReset refs side db) (
            admin_reset_week_buy_suggestions adapters rows today admin_token header side account db
              w)
    unfolding admin_reset_week_buy_suggestions
    admin_reset_week-IsWeekReset admin_token header side account refs db w distinct
          distinct_executions scope =
        elim (Reply-cases (token_auth admin_token header)) [
          | inr (status, refused) ↦ rw (refused, admin_reset_week_buy_suggestions) tt
          | inl (u, granted) ↦
              let chosen = is_resettable refs (next_monday today) side in
              let (ids, suggestions, key) =
                reset_each_lem (has_fill db) (filter chosen db.suggestions) db w distinct_executions
                  (λ sid. refl) in
              let both = filter-filter (is_free (has_fill db)) chosen db.suggestions in
              rw (granted, scope, admin_reset_week_buy_suggestions)
                (
                  suggestions
                      ∙ ap (λ l. updates (λ s. s.id) as_pending l db.suggestions) both
                      ∙ updates-filter (λ s. s.id) as_pending (λ _. refl)
                          (is_reset today refs side db) db.suggestions distinct,
                  ids ∙ ap (map (λ s. s.id)) both,
                  key,
                )
        ]

    -- Where no key stands twice, an accepted request gives the suggestions of before, in their order,
    -- except that each accepted one of the requested side, of the coming week and of an account in the
    -- scope, without a real execution that is filled, is pending again with no time of acting;
    -- whatever the broker answers to the cancels. Their ids are returned.
    pub admin_reset_week-suggestions :
        (admin_token header : Text) (side : Option Side) (account : Option ℕ) (refs ids : List ℕ)
        (report : Report) (db db' : Db) (w w' : W)
        → Distinct (λ (s : Suggestion). s.id) db.suggestions
        → Distinct (λ (e : Execution). e.id) db.executions
        → resolve_scope rows account all ≡ ok refs
        → admin_reset_week_buy_suggestions adapters rows today admin_token header side account db w
          ≡ ok (ids, report, db', w')
        → (db'.suggestions ≡ map (when (is_reset today refs side db) as_pending) db.suggestions)
          × (ids ≡ map (λ s. s.id) (filter (is_reset today refs side db) db.suggestions))
    admin_reset_week-suggestions admin_token header side account refs ids report db db' w w'
          distinct distinct_executions scope done =
        let (suggestions, reset_ids, _) : IsWeekReset refs side db (ids, report, db', w') =
          on_ok (IsWeekReset refs side db) done (
            admin_reset_week-IsWeekReset admin_token header side account refs db w distinct
              distinct_executions scope) in
        (suggestions, reset_ids)
