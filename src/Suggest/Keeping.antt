-- ===== src/Suggest/Keeping.antt =====
-- What `persist_suggestions` of services/suggest.py keeps.
use me_invest_paper.Base.{
  ℕ, ◌+◌, ◌<◌, ◌≡◌, refl, ap, sym, subst, ◌∙◌, ◌≢◌, inl, inr, Bool, true, false, Option, none, some,
  List, [], ◌∷◌, ◌++◌, ◌==◌, ==_iff, arith, find?, All, All-append, All-map, All-Has, Has, Has-find,
  Bool-cases, Option-cases,
}
use me_invest_paper.Base.Rows.{Distinct, All-update, update-Distinct, append-Distinct, find-update}
use me_invest_paper.Store.{Suggestion, Db, is_pending}
use me_invest_paper.Unaccept.{get_suggestion}
use me_invest_paper.Suggest.Persist.{
  SuggestionRow, is_slot, refreshed, new_suggestion, persist_suggestion, persist_suggestions,
}

-- The primary key of the suggestions: no id stands twice, and the next one is above all.
abbrev pub IsNumbered : Db → Type 0
IsNumbered db =
    Distinct (λ (s : Suggestion). s.id) db.suggestions
    × All (λ s. s.id < db.next_suggestion) db.suggestions

find-append :
    (p : Suggestion → Bool) (s : Suggestion) (xs ys : List Suggestion)
    → find? p xs ≡ some s
    → find? p (xs ++ ys) ≡ some s
find-append p s [] ys h = cc
find-append p s (x ∷ xs) ys h = ground (arith, find-append p s xs ys)

pub find_by_id :
    (s : Suggestion) (xs : List Suggestion)
    → Distinct (λ (x : Suggestion). x.id) xs
    → Has s xs
    → find? (λ x. x.id == s.id) xs ≡ some s
find_by_id s [] h m = absurd m
find_by_id s (x ∷ xs) h (inl e) =
    rw ((==_iff x.id s.id).1 (sym (ap (λ (y : Suggestion). y.id) e))) (ap some (sym e))
find_by_id s (x ∷ xs) h (inr m) =
    let other = All-Has (λ (y : Suggestion). y.id ≢ x.id) s xs h.0 m in
    ground (arith, find_by_id s xs h.1 m, other)

pub true_ne_false : true ≢ false
true_ne_false = ground arith

abbrev is_pending_one : Option Suggestion → Bool
is_pending_one none = false
is_pending_one (some s) = is_pending s.status

module _ (targets_id : Option ℕ) (week_of account now : ℕ) where
  pub persist_suggestion-IsNumbered :
      (r : SuggestionRow) (db : Db)
      → IsNumbered db
      → IsNumbered (persist_suggestion targets_id week_of account now r db).1
  unfolding persist_suggestion
  persist_suggestion-IsNumbered r db (distinct, below) =
      elim (Option-cases (find? (is_slot week_of account r.ticker r.side) db.suggestions)) [
        | inl missing ↦
            rw (missing, persist_suggestion)
              (
                append-Distinct (λ (x : Suggestion). x.id) db.suggestions
                    (new_suggestion targets_id week_of account now r db.next_suggestion) distinct
                    below,
                All-append (λ x. x.id < db.next_suggestion + 1) db.suggestions
                    (new_suggestion targets_id week_of account now r db.next_suggestion ∷ [])
                    (All-map (λ x. x.id < db.next_suggestion) (λ x. x.id < db.next_suggestion + 1)
                      (λ x h. omega arith) db.suggestions below)
                    (omega arith, tt),
              )
        | inr (s, found) ↦ elim (Bool-cases (is_pending s.status)) [
          | inl open_one ↦
              rw (found, open_one, persist_suggestion)
                (
                  update-Distinct (λ (x : Suggestion). x.id) s.id (refreshed r) (λ _. refl)
                      db.suggestions distinct,
                  All-update (λ (x : Suggestion). x.id) (λ x. x.id < db.next_suggestion) s.id
                      (refreshed r) (λ _ h. h) db.suggestions below,
                )
          | inr acted ↦ rw (found, acted, persist_suggestion) (distinct, below)
        ]
      ]

  persist_suggestion-keeps :
      (r : SuggestionRow) (j : ℕ) (sug : Suggestion) (db : Db)
      → IsNumbered db
      → get_suggestion j db ≡ some sug
      → is_pending sug.status ≡ false
      → get_suggestion j (persist_suggestion targets_id week_of account now r db).1 ≡ some sug
  unfolding persist_suggestion
  persist_suggestion-keeps r j sug db (distinct, below) found acted =
      elim (Option-cases (find? (is_slot week_of account r.ticker r.side) db.suggestions)) [
        | inl missing ↦
            rw (missing, persist_suggestion)
              (find-append (λ s. s.id == j) sug db.suggestions _ found)
        | inr (s, slot) ↦ elim (Bool-cases (is_pending s.status)) [
          | inr kept ↦ rw (slot, kept, persist_suggestion) found
          | inl pending ↦
              let stands =
                find_by_id s db.suggestions distinct
                  (Has-find (is_slot week_of account r.ticker r.side) s db.suggestions slot).0 in
              rw (slot, pending, persist_suggestion)
                (find-update (λ (x : Suggestion). x.id) s.id j (refreshed r) (λ _. refl)
                    db.suggestions
                  ∙ rw (other s stands pending) found)
        ]
      ]
    where
      other :
          (s : Suggestion)
          → find? (λ x. x.id == s.id) db.suggestions ≡ some s
          → is_pending s.status ≡ true
          → (s.id == j) ≡ false
      other s stands pending = elim (Bool-cases (s.id == j)) [
        | inr f ↦ f
        | inl t ↦
            let here =
              subst (λ i. find? (λ x. x.id == i) db.suggestions ≡ some s) ((==_iff s.id j).0 t)
                stands in
            absurd (true_ne_false (sym pending ∙ ap is_pending_one (sym here ∙ found) ∙ acted))
      ]

  -- Where the keys are not repeated and below the next one, a suggestion that was acted on, whether accepted, rejected, cancelled, expired or filled, is not
  -- changed, whatever rows are written for its week, its ticker and its side.
  pub persist_suggestions-keeps :
      (rs : List SuggestionRow) (j : ℕ) (sug : Suggestion) (db : Db)
      → IsNumbered db
      → get_suggestion j db ≡ some sug
      → is_pending sug.status ≡ false
      → get_suggestion j (persist_suggestions targets_id week_of account now rs db).1 ≡ some sug
  unfolding persist_suggestions
  persist_suggestions-keeps [] j sug db numbered found acted = found
  persist_suggestions-keeps (r ∷ rs) j sug db numbered found acted =
      persist_suggestions-keeps rs j sug (persist_suggestion targets_id week_of account now r db).1
        (persist_suggestion-IsNumbered r db numbered)
        (persist_suggestion-keeps r j sug db numbered found acted) acted
