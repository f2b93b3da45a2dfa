-- ===== src/Unaccept/Laws.antt =====
-- What `unaccept_suggestion` of services/unaccept.py promises.
use me_invest_paper.Base.{
  ℕ, ◌≡◌, refl, ◌≢◌, ◌⊎◌, inl, inr, true, false, Option, none, some, ◌==◌, arith, Bool-cases, find?,
  Has-find, ◌&&◌, ==_iff, ap, ◌∙◌, filter, latest_by, if◌then◌else◌,
}
use mathlib.Core.Option
use me_invest_paper.Base.Rows.{find-update}
use me_invest_paper.Store.{Suggestion, SuggestionStatus, Execution, Db, is_accepted}
use me_invest_paper.Broker.{Adapter}
use me_invest_paper.Orders.{CancelOutcome}
use me_invest_paper.Unaccept.{
  UnacceptResult, cancelled, partial, not_found, not_actionable, get_suggestion, is_placed_for,
  cancel_suggestion, cancel_latest, conclude_unaccept, unaccept_suggestion,
}

abbrev pub taken_back : ℕ → Suggestion → Suggestion
taken_back now sug = record sug { status = SuggestionStatus.cancelled; acted_at = some now }

-- What is said of a suggestion that was found: it is taken back, or nothing of the table changes.
abbrev pub TakenBackOrKept : ℕ → ℕ → Suggestion → Db → UnacceptResult → Db → Type 0
TakenBackOrKept now sid sug db result db' =
    (((result ≡ cancelled) ⊎ (result ≡ partial))
      × (get_suggestion sid db' ≡ some (taken_back now sug))
      × ((j : ℕ) → j ≢ sid → get_suggestion j db' ≡ get_suggestion j db))
    ⊎ ((result ≢ cancelled) × (result ≢ partial) × (db'.suggestions ≡ db.suggestions))

module _ {W : Type 0} (adapter : Adapter W) (now : ℕ) where
  pub cancel_latest-suggestions :
      (latest : Option Execution) (db : Db) (w : W)
      → (cancel_latest adapter now latest db w).1.suggestions ≡ db.suggestions
  unfolding cancel_latest
  cancel_latest-suggestions none db w = refl
  cancel_latest-suggestions (some e) db w = ground arith

  get-cancel_suggestion :
      (sid j : ℕ) (db : Db)
      → get_suggestion j (cancel_suggestion now sid db) ≡ (
          if sid == j
          then Option.map (taken_back now) (get_suggestion j db)
          else get_suggestion j db)
  get-cancel_suggestion sid j db =
      find-update (λ s. s.id) sid j (taken_back now) (λ _. refl) db.suggestions

  -- The suggestion behind its cancellation, and every other one.
  after_cancel :
      (sid : ℕ) (sug : Suggestion) (db db₁ : Db)
      → sug.id ≡ sid
      → get_suggestion sid db ≡ some sug
      → db₁.suggestions ≡ db.suggestions
      → (get_suggestion sid (cancel_suggestion now sug.id db₁) ≡ some (taken_back now sug))
        × ((j : ℕ)
            → j ≢ sid
            → get_suggestion j (cancel_suggestion now sug.id db₁) ≡ get_suggestion j db)
  after_cancel sid sug db db₁ key found same = (
    get-cancel_suggestion sug.id sid db₁
        ∙ rw ((==_iff sug.id sid).1 key, ap (λ l. find? (λ s. s.id == sid) l) same, found) refl,
    λ j other.
        get-cancel_suggestion sug.id j db₁
        ∙ rw (not_same j other) (ap (λ l. find? (λ s. s.id == j) l) same),
  )
    where
      not_same : (j : ℕ) → j ≢ sid → (sug.id == j) ≡ false
      not_same j other = ground (arith, key)

  conclude_unaccept-TakenBackOrKept :
      (sid : ℕ) (sug : Suggestion) (db : Db) (outcome : CancelOutcome) (db₁ : Db)
      → sug.id ≡ sid
      → get_suggestion sid db ≡ some sug
      → db₁.suggestions ≡ db.suggestions
      → let (result, db') = conclude_unaccept adapter now sug.id outcome db₁ in
        TakenBackOrKept now sid sug db result db'
  unfolding conclude_unaccept
  conclude_unaccept-TakenBackOrKept sid sug db CancelOutcome.already_filled db₁ key found same =
      inr (ground arith, ground arith, same)
  conclude_unaccept-TakenBackOrKept sid sug db CancelOutcome.partial db₁ key found same =
      let after = after_cancel sid sug db db₁ key found same in inl (inr refl, after.0, after.1)
  conclude_unaccept-TakenBackOrKept sid sug db CancelOutcome.cancelled db₁ key found same =
      let after = after_cancel sid sug db db₁ key found same in inl (inl refl, after.0, after.1)
  conclude_unaccept-TakenBackOrKept sid sug db CancelOutcome.noop db₁ key found same =
      let after = after_cancel sid sug db db₁ key found same in inl (inl refl, after.0, after.1)

  conclude_unaccept-acted :
      (sid : ℕ) (outcome : CancelOutcome) (db : Db)
      → let (result, _) = conclude_unaccept adapter now sid outcome db in
        (result ≢ not_found) × (result ≢ not_actionable)
  unfolding conclude_unaccept
  conclude_unaccept-acted sid CancelOutcome.already_filled db = (ground arith, ground arith)
  conclude_unaccept-acted sid CancelOutcome.partial db = (ground arith, ground arith)
  conclude_unaccept-acted sid CancelOutcome.cancelled db = (ground arith, ground arith)
  conclude_unaccept-acted sid CancelOutcome.noop db = (ground arith, ground arith)

  -- A suggestion that is found is cancelled, with the time, exactly when the result says `cancelled` or
  -- `partial`, and then no other suggestion changes; with any other result no suggestion changes. The
  -- result is `not_found` or `not_actionable`, and nothing changes at all, exactly when the
  -- suggestion is of another account or is not accepted.
  pub unaccept_suggestion-TakenBackOrKept :
      (sid account : ℕ) (sug : Suggestion) (db : Db) (w : W)
      → get_suggestion sid db ≡ some sug
      → let (result, db', w') = unaccept_suggestion adapter now sid account db w in
        TakenBackOrKept now sid sug db result db'
        × (((sug.broker_account_id == account && is_accepted sug.status) ≡ true)
              × (result ≢ not_found)
              × (result ≢ not_actionable)
            ⊎ ((sug.broker_account_id == account && is_accepted sug.status) ≡ false)
              × ((result ≡ not_found) ⊎ (result ≡ not_actionable))
              × (db' ≡ db)
              × (w' ≡ w))
  unfolding unaccept_suggestion
  unaccept_suggestion-TakenBackOrKept sid account sug db w found =
      elim (Bool-cases (sug.broker_account_id == account)) [
        | inr foreign ↦
            rw (found, foreign, unaccept_suggestion)
              (inr (ground arith, ground arith, refl), inr (refl, inl refl, refl, refl))
        | inl own ↦ elim (Bool-cases (is_accepted sug.status)) [
          | inr idle ↦
              rw (found, own, idle, unaccept_suggestion)
                (inr (ground arith, ground arith, refl), inr (refl, inr refl, refl, refl))
          | inl accepted ↦
              let key =
                (==_iff sug.id sid).0 (Has-find (λ s. s.id == sid) sug db.suggestions found).1 in
              let latest =
                latest_by (λ e. e.created_at)
                  (filter (is_placed_for sug.id account) db.executions) in
              let (outcome, db₁, _) = cancel_latest adapter now latest db w in
              rw (found, own, accepted, unaccept_suggestion)
                (
                  conclude_unaccept-TakenBackOrKept sid sug db outcome db₁ key found
                      (cancel_latest-suggestions latest db w),
                  let acted = conclude_unaccept-acted sug.id outcome db₁ in
                      inl (refl, acted.0, acted.1),
                )
        ]
      ]
