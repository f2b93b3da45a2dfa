-- ===== src/Lifecycle/Operations.antt =====
-- Each operation on suggestions moves along the diagram.
use me_invest_paper.Base.{
  ℕ, ◌≡◌, refl, ap, sym, subst, ◌∙◌, inl, inr, true, Option, none, some, List, [], ◌∷◌, ◌++◌, ◌==◌,
  ==_iff, arith, find?, latest_by, filter, Has-find, Bool-cases, Option-cases,
}
use mathlib.Core.Option
use me_invest_paper.Store.{
  Text, Suggestion, SuggestionStatus, pending, accepted, Db, is_pending, is_accepted,
}
use me_invest_paper.Broker.{Adapter}
use me_invest_paper.Unaccept.{
  get_suggestion, is_placed_for, cancel_latest, conclude_unaccept, unaccept_suggestion,
}
use me_invest_paper.Orders.{CancelOutcome}
use me_invest_paper.Store.{Execution}
use me_invest_paper.Unaccept.Laws.{cancel_latest-suggestions}
use me_invest_paper.Suggest.Persist.{
  new_suggestion, SuggestionRow, is_slot, refreshed, persist_suggestion, persist_suggestions,
}
use me_invest_paper.Suggest.Keeping.{persist_suggestion-IsNumbered}
use me_invest_paper.Lifecycle.Diagram.{reject, ◌⟶◌, stay, cancel, Moves, here, next}
use me_invest_paper.Lifecycle.Changes.{Goes, Goes-trans, Goes-same, Goes-set}
use me_invest_paper.Web.Reply.{OnOk}
use me_invest_paper.ClientId.{same_text}
use me_invest_paper.Web.Acting.{accept, act, act_on, status_of}

pending_acted :
    (s : SuggestionStatus) → is_pending s ≡ true → (action : Text) → s ⟶ status_of action
pending_acted pending h action = elim (Bool-cases (same_text action accept)) [
  | inl e ↦ rw e ◌⟶◌.accept
  | inr e ↦ rw e reject
]
pending_acted accepted h action = cc
pending_acted SuggestionStatus.rejected h action = cc
pending_acted SuggestionStatus.cancelled h action = cc
pending_acted SuggestionStatus.expired h action = cc
pending_acted SuggestionStatus.filled h action = cc

pub accepted_cancelled :
    (s : SuggestionStatus) → is_accepted s ≡ true → s ⟶ SuggestionStatus.cancelled
accepted_cancelled accepted h = cancel
accepted_cancelled pending h = cc
accepted_cancelled SuggestionStatus.rejected h = cc
accepted_cancelled SuggestionStatus.cancelled h = cc
accepted_cancelled SuggestionStatus.expired h = cc
accepted_cancelled SuggestionStatus.filled h = cc

-- What is known of a row holds of the row that is found under its key.
pub found_same :
    (P : Suggestion → Type 0) {o : Option Suggestion} {sug s : Suggestion}
    → o ≡ some sug
    → P sug
    → o ≡ some s
    → P s
found_same P {sug = sug} found h again = subst P (ap or_else (sym found ∙ again)) h
  where
    or_else : Option Suggestion → Suggestion
    or_else none = sug
    or_else (some x) = x

-- The row that is found has the key that was looked up.
pub found_own :
    (sid : ℕ) (sug : Suggestion) (db : Db)
    → get_suggestion sid db ≡ some sug
    → get_suggestion sug.id db ≡ some sug
found_own sid sug db found =
    let key = (==_iff sug.id sid).0 (Has-find (λ s. s.id == sid) sug db.suggestions found).1 in
    subst (λ i. get_suggestion i db ≡ some sug) (sym key) found

pub act-Goes :
    (sid : ℕ) (action : Text) (note : Option Text) (now : ℕ) (db : Db)
    → OnOk (λ (r : SuggestionStatus × Db). Goes db r.1) (act sid action note now db)
unfolding act
act-Goes sid action note now db = elim (Option-cases (get_suggestion sid db)) [
  | inl missing ↦ rw (missing, act) tt
  | inr (sug, found) ↦ elim (Bool-cases (is_pending sug.status)) [
    | inr closed ↦ rw (found, closed, act) tt
    | inl open_one ↦
        rw (found, open_one, act)
          (Goes-set sid (act_on action note now) db (λ s. refl)
            (λ s again.
              pending_acted s.status
                (found_same (λ x. is_pending x.status ≡ true) found open_one again) action))
  ]
]

module _ {W : Type 0} (adapter : Adapter W) (now : ℕ) where
  cancel_latest-next :
      (latest : Option Execution) (db : Db) (w : W)
      → (cancel_latest adapter now latest db w).1.next_suggestion ≡ db.next_suggestion
  unfolding cancel_latest
  cancel_latest-next none db w = refl
  cancel_latest-next (some e) db w = ground arith

  cancel_latest-Goes :
      (latest : Option Execution) (db : Db) (w : W)
      → Goes db (cancel_latest adapter now latest db w).1
  cancel_latest-Goes latest db w =
      Goes-same db (cancel_latest adapter now latest db w).1
        (cancel_latest-suggestions adapter now latest db w) (cancel_latest-next latest db w)

  conclude_unaccept-Goes :
      (sid : ℕ) (outcome : CancelOutcome) (db : Db)
      → ((s : Suggestion) → get_suggestion sid db ≡ some s → is_accepted s.status ≡ true)
      → Goes db (conclude_unaccept adapter now sid outcome db).1
  unfolding conclude_unaccept
  conclude_unaccept-Goes sid CancelOutcome.already_filled db all = Goes-same db db refl refl
  conclude_unaccept-Goes sid CancelOutcome.cancelled db all =
      Goes-set sid _ db (λ s. refl) (λ s found. accepted_cancelled s.status (all s found))
  conclude_unaccept-Goes sid CancelOutcome.partial db all =
      Goes-set sid _ db (λ s. refl) (λ s found. accepted_cancelled s.status (all s found))
  conclude_unaccept-Goes sid CancelOutcome.noop db all =
      Goes-set sid _ db (λ s. refl) (λ s found. accepted_cancelled s.status (all s found))

  pub unaccept_suggestion-Goes :
      (sid account : ℕ) (db : Db) (w : W)
      → Goes db (unaccept_suggestion adapter now sid account db w).1
  unfolding unaccept_suggestion
  unaccept_suggestion-Goes sid account db w = elim (Option-cases (get_suggestion sid db)) [
    | inl missing ↦ rw (missing, unaccept_suggestion) (Goes-same db db refl refl)
    | inr (sug, found) ↦ elim (Bool-cases (sug.broker_account_id == account)) [
      | inr foreign ↦ rw (found, foreign, unaccept_suggestion) (Goes-same db db refl refl)
      | inl own ↦ elim (Bool-cases (is_accepted sug.status)) [
        | inr idle ↦ rw (found, own, idle, unaccept_suggestion) (Goes-same db db refl refl)
        | inl open_one ↦
            let latest =
              latest_by (λ e. e.created_at) (filter (is_placed_for sug.id account) db.executions) in
            let (outcome, db₁, _) = cancel_latest adapter now latest db w in
            rw (found, own, open_one, unaccept_suggestion)
              (Goes-trans {a = db} {b = db₁}
                {c = (conclude_unaccept adapter now sug.id outcome db₁).1}
                (cancel_latest-Goes latest db w)
                (conclude_unaccept-Goes sug.id outcome db₁ (λ s again.
                  found_same (λ x. is_accepted x.status ≡ true)
                    (ap (λ l. find? (λ x. x.id == sug.id) l)
                        (cancel_latest-suggestions adapter now latest db w)
                      ∙ found_own sid sug db found)
                    open_one again)))
      ]
    ]
  ]

Moves-append :
    (j : ℕ) (s : Suggestion) (xs : List Suggestion)
    → s.status ≡ pending
    → Moves
        (Option.map (λ (x : Suggestion). x.status) (find? (λ x. x.id == j) xs))
        (Option.map (λ (x : Suggestion). x.status) (find? (λ x. x.id == j) (xs ++ s ∷ [])))
Moves-append j s [] new = elim (Bool-cases (s.id == j)) [ inl e ↦ rw e new | inr e ↦ rw e tt ]
Moves-append j s (x ∷ xs) new = elim (Bool-cases (x.id == j)) [
  | inl e ↦ rw e stay
  | inr e ↦ rw e (Moves-append j s xs new)
]

module _ (targets_id : Option ℕ) (week_of account now : ℕ) where
  persist_suggestion-Goes :
      (r : SuggestionRow) (db : Db)
      → Goes db (persist_suggestion targets_id week_of account now r db).1
  unfolding persist_suggestion
  persist_suggestion-Goes r db numbered =
      let after = persist_suggestion-IsNumbered targets_id week_of account now r db numbered in
      elim (Option-cases (find? (is_slot week_of account r.ticker r.side) db.suggestions)) [
        | inl missing ↦ (
          rw (missing, persist_suggestion)
              (next here (λ j.
                Moves-append j (new_suggestion targets_id week_of account now r db.next_suggestion)
                  db.suggestions refl)),
          after,
        )
        | inr (s, found) ↦ elim (Bool-cases (is_pending s.status)) [
          | inl open_one ↦
              rw (found, open_one, persist_suggestion)
                (Goes-set s.id (refreshed r) db (λ _. refl) (λ _ _. stay) numbered)
          | inr acted ↦ rw (found, acted, persist_suggestion) (Goes-same db db refl refl numbered)
        ]
      ]

  pub persist_suggestions-Goes :
      (rs : List SuggestionRow) (db : Db)
      → Goes db (persist_suggestions targets_id week_of account now rs db).1
  unfolding persist_suggestions
  persist_suggestions-Goes [] db = Goes-same db db refl refl
  persist_suggestions-Goes (r ∷ rs) db =
      let db₁ = (persist_suggestion targets_id week_of account now r db).1 in
      Goes-trans {a = db} {b = db₁}
        {c = (persist_suggestions targets_id week_of account now rs db₁).1}
        (persist_suggestion-Goes r db) (persist_suggestions-Goes rs db₁)
