-- ===== src/Reconciliation/PersistLaws.antt =====
-- What `persist_reconciliation` of services/reconciliation.py does to the two tables.
use me_invest_paper.Base.{
  ℕ, ◌≡◌, refl, ap, sym, subst, ◌∙◌, ◌⊎◌, inl, inr, ◌≢◌, Bool, true, false, ◌&&◌, Option, none,
  some, List, [], ◌∷◌, ◌==◌, ==_iff, arith, find?, Has, Has-find, Bool-cases, Option-cases,
  if◌then◌else◌,
}
use mathlib.Core.Option
use me_invest_paper.Base.Rows.{find-update}
use me_invest_paper.Store.{
  Text, Suggestion, SuggestionStatus, Db, is_accepted, truthy, set_suggestion,
}
use me_invest_paper.Unaccept.{get_suggestion}
use me_invest_paper.Reconciliation.Matching.{MatchResult}
use me_invest_paper.Reconciliation.Persist.{
  is_auto_matched, is_filled_activity, fill_row, fill_suggestion, upsert, flip,
  persist_reconciliation,
}

-- The suggestion behind a complete fill.
abbrev pub as_filled : Option ℕ → Suggestion → Suggestion
as_filled at s = record s { status = SuggestionStatus.filled; acted_at = at }

-- The result is a complete fill that was matched to the suggestion for certain.
abbrev pub IsCertainFill : ℕ → MatchResult → Type 0
IsCertainFill j r =
    (r.suggestion_id ≡ some j)
    × (is_auto_matched r.method ≡ true)
    × (is_filled_activity r.activity.status ≡ true)

get-as_filled :
    (i j : ℕ) (at : Option ℕ) (db : Db)
    → get_suggestion j (set_suggestion i (as_filled at) db)
      ≡ (if i == j then Option.map (as_filled at) (get_suggestion j db) else get_suggestion j db)
get-as_filled i j at db = find-update (λ s. s.id) i j (as_filled at) (λ _. refl) db.suggestions

-- The suggestion is as it was, or it was accepted, has the key, and is filled now.
abbrev FilledIfIts : ℕ → ℕ → Option ℕ → Db → Db → Type 0
FilledIfIts sid j at before after =
    (get_suggestion j after ≡ get_suggestion j before)
    ⊎ ((sug : Suggestion) × (sid ≡ j)
        × (get_suggestion j before ≡ some sug)
        × (is_accepted sug.status ≡ true)
        × (get_suggestion j after ≡ some (as_filled at sug)))

set_filled-FilledIfIts :
    (sid j : ℕ) (at : Option ℕ) (sug : Suggestion) (db : Db)
    → get_suggestion sid db ≡ some sug
    → is_accepted sug.status ≡ true
    → FilledIfIts sid j at db (set_suggestion sug.id (as_filled at) db)
set_filled-FilledIfIts sid j at sug db found accepted =
    let key = (==_iff sug.id sid).0 (Has-find (λ s. s.id == sid) sug db.suggestions found).1 in
    let after = get-as_filled sug.id j at db in
    elim (Bool-cases (sug.id == j)) [
      | inr other ↦ inl (after ∙ rw other refl)
      | inl same ↦
          let its : sid ≡ j = sym key ∙ (==_iff sug.id j).0 same in
          let here : get_suggestion j db ≡ some sug =
            subst (λ i. get_suggestion i db ≡ some sug) its found in
          inr (sug, its, here, accepted, after ∙ rw (same, here) refl)
    ]

fill_suggestion-FilledIfIts :
    (sid j : ℕ) (at : Option ℕ) (db : Db) → FilledIfIts sid j at db (fill_suggestion sid at db)
unfolding fill_suggestion
fill_suggestion-FilledIfIts sid j at db = elim (Option-cases (get_suggestion sid db)) [
  | inl e ↦ rw (e, fill_suggestion) (inl refl)
  | inr (sug, e) ↦ elim (Bool-cases (is_accepted sug.status)) [
    | inl a ↦
        let done : fill_suggestion sid at db ≡ set_suggestion sug.id (as_filled at) db =
          rw (e, a, fill_suggestion) refl in
        subst (FilledIfIts sid j at db) (sym done) (set_filled-FilledIfIts sid j at sug db e a)
    | inr a ↦
        let kept : fill_suggestion sid at db ≡ db = rw (e, a, fill_suggestion) refl in
        inl (ap (get_suggestion j) kept)
  ]
]

-- The suggestion is as it was, or one of the results was a certain fill of it while it was accepted.
abbrev pub KeptOrFilled : ℕ → List MatchResult → Db → Db → Type 0
KeptOrFilled j rs before after =
    (get_suggestion j after ≡ get_suggestion j before)
    ⊎ ((sug : Suggestion) × (r : MatchResult) × (get_suggestion j before ≡ some sug)
        × (is_accepted sug.status ≡ true)
        × Has r rs
        × IsCertainFill j r
        × (get_suggestion j after ≡ some (as_filled r.activity.filled_at sug)))

flip-KeptOrFilled :
    (j : ℕ) (r : MatchResult) (rs : List MatchResult) (db : Db)
    → KeptOrFilled j (r ∷ rs) db (flip r db)
unfolding flip
flip-KeptOrFilled j r rs db = elim (Option-cases r.suggestion_id) [
  | inl e ↦ let kept : flip r db ≡ db = rw (e, flip) refl in inl (ap (get_suggestion j) kept)
  | inr (sid, e) ↦
      elim (Bool-cases
        (truthy (some sid) && is_auto_matched r.method && is_filled_activity r.activity.status)) [
          | inr unsure ↦
              let kept : flip r db ≡ db = rw (e, unsure, flip) refl in
              inl (ap (get_suggestion j) kept)
          | inl certain ↦
              let at = r.activity.filled_at in
              let done : flip r db ≡ fill_suggestion sid at db = rw (e, certain, flip) refl in
              elim (fill_suggestion-FilledIfIts sid j at db) [
                | inl same ↦ inl (ap (get_suggestion j) done ∙ same)
                | inr (sug, its, found, accepted, after) ↦ inr (
                  sug,
                  r,
                  found,
                  accepted,
                  inl refl,
                  (e ∙ ap some its, ground arith, ground arith),
                  ap (get_suggestion j) done ∙ after,
                )
              ]
        ]
]

abbrev is_accepted_one : Option Suggestion → Bool
is_accepted_one none = false
is_accepted_one (some s) = is_accepted s.status

filled_once :
    (at : Option ℕ) (sug sug' : Suggestion) (o : Option Suggestion)
    → o ≡ some (as_filled at sug)
    → o ≡ some sug'
    → ¬ (is_accepted sug'.status ≡ true)
filled_once at sug sug' o e e' h =
    true_ne_false (sym (ap is_accepted_one e' ∙ h) ∙ ap is_accepted_one e)
  where
    true_ne_false : true ≢ false
    true_ne_false = ground arith

module _ (broker : Text) (account now : ℕ) where
  pub upsert-suggestions :
      (r : MatchResult) (db : Db) → (upsert broker account now r db).suggestions ≡ db.suggestions
  unfolding upsert fill_row
  upsert-suggestions r db = ground arith

  -- A suggestion changes only when it was accepted and one of the results is a complete fill matched
  -- to it for certain; then it is filled, at the time of that fill. Every other suggestion, an
  -- expired or a cancelled one whose order was filled included, is as it was.
  pub persist_reconciliation-KeptOrFilled :
      (j : ℕ) (rs : List MatchResult) (db : Db)
      → KeptOrFilled j rs db (persist_reconciliation broker account now rs db)
  unfolding persist_reconciliation
  persist_reconciliation-KeptOrFilled j [] db = inl refl
  persist_reconciliation-KeptOrFilled j (r ∷ rs) db =
      let db₁ = upsert broker account now r db in
      let same₁ = ap (find? (λ s. s.id == j)) (upsert-suggestions r db) in
      elim (flip-KeptOrFilled j r rs db₁) [
        | inl same ↦ elim (persist_reconciliation-KeptOrFilled j rs (flip r db₁)) [
          | inl kept ↦ inl (kept ∙ same ∙ same₁)
          | inr (sug, r', found, accepted, has, certain, after) ↦
              inr (sug, r', sym same₁ ∙ sym same ∙ found, accepted, inr has, certain, after)
        ]
        | inr (sug, r', found, accepted, has, certain, after) ↦
            elim (persist_reconciliation-KeptOrFilled j rs (flip r db₁)) [
              | inl kept ↦ inr (sug, r', sym same₁ ∙ found, accepted, has, certain, kept ∙ after)
              | inr (sug', _, found', accepted', _, _, _) ↦
                  absurd (filled_once r'.activity.filled_at sug sug' _ after found' accepted')
            ]
      ]
