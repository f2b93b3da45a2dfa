-- ===== src/Suggest/Slots.antt =====
-- The suggestions of a week for one ticker and side, when `persist_suggestions` of services/suggest.py
-- writes rows.
use me_invest_paper.Base.{
  ℕ, ◌+◌, ◌≤◌, ◌≡◌, refl, ap, sym, subst, ◌∙◌, ◌≢◌, inl, inr, ◌&&◌, true, false, Option, List, [],
  ◌∷◌, ◌==◌, arith, find?, find-none, total, total-append, total-none, total-find, All, Bool-cases,
  Option-cases, if◌then◌else◌,
}
use me_invest_paper.Base.Rows.{total-update_same}
use me_invest_paper.Store.{Side, Suggestion, Db, is_pending, same_side, set_suggestion}
use me_invest_paper.Suggest.Persist.{
  SuggestionRow, is_slot, refreshed, new_suggestion, add_suggestion, persist_suggestion,
  persist_suggestions,
}

-- How many suggestions the week has for a ticker and a side.
abbrev pub slot_count : ℕ → ℕ → ℕ → Side → Db → ℕ
slot_count week_of account ticker side db =
    total (is_slot week_of account ticker side) (λ _. 1) db.suggestions

true_ne_false : true ≢ false
true_ne_false = ground arith

side_lem : (a b : Side) → (same_side a a ≡ true) × (same_side a b ≡ true → a ≡ b)
side_lem Side.buy Side.buy = (refl, λ h. refl)
side_lem Side.buy Side.sell = (refl, λ h. absurd (true_ne_false (sym h)))
side_lem Side.sell Side.buy = (refl, λ h. absurd (true_ne_false (sym h)))
side_lem Side.sell Side.sell = (refl, λ h. refl)

module _ (targets_id : Option ℕ) (week_of account now : ℕ) where
  added_count :
      (ticker : ℕ) (side : Side) (r : SuggestionRow) (db : Db)
      → slot_count week_of account ticker side (add_suggestion targets_id week_of account now r db)
        ≡ slot_count week_of account ticker side db
          + (if r.ticker == ticker && same_side r.side side then 1 else 0)
  added_count ticker side r db =
      total-append (is_slot week_of account ticker side) (λ _. 1) db.suggestions
        (new_suggestion targets_id week_of account now r db.next_suggestion ∷ [])
      ∙ ground arith

  refreshed_count :
      (ticker : ℕ) (side : Side) (i : ℕ) (r : SuggestionRow) (db : Db)
      → slot_count week_of account ticker side (set_suggestion i (refreshed r) db)
        ≡ slot_count week_of account ticker side db
  refreshed_count ticker side i r db =
      total-update_same (λ (s : Suggestion). s.id) (is_slot week_of account ticker side) (λ _. 1) i
        (refreshed r) (λ _. refl) db.suggestions

  -- A row leaves at least one suggestion in its slot, and adds one only where there was none.
  persist_suggestion-slot_count :
      (r : SuggestionRow) (db : Db)
      → let after = (persist_suggestion targets_id week_of account now r db).1 in
        (1 ≤ slot_count week_of account r.ticker r.side after)
        × ((ticker : ℕ) (side : Side)
            → (slot_count week_of account ticker side db
                ≤ slot_count week_of account ticker side after)
              × (slot_count week_of account ticker side db ≤ 1
                  → slot_count week_of account ticker side after ≤ 1))
  unfolding persist_suggestion
  persist_suggestion-slot_count r db =
      let slot = is_slot week_of account r.ticker r.side in
      elim (Option-cases (find? slot db.suggestions)) [
        | inl missing ↦
            let none_yet = total-none slot db.suggestions (find-none slot db.suggestions missing) in
            rw (missing, persist_suggestion)
              (
                ground (arith, added_count r.ticker r.side r db, side_lem r.side r.side),
                λ ticker side. elim (Bool-cases (r.ticker == ticker && same_side r.side side)) [
                  | inr other ↦ ground (arith, added_count ticker side r db)
                  | inl same ↦
                      let t : r.ticker ≡ ticker = ground arith in
                      let d : r.side ≡ side = (side_lem r.side side).1 (ground arith) in
                      let empty =
                        sym (ap (λ t. slot_count week_of account t side db) t)
                        ∙ sym (ap (λ d. slot_count week_of account r.ticker d db) d)
                        ∙ none_yet in
                      ground (arith, added_count ticker side r db, empty)
                ],
              )
        | inr (s, found) ↦
            let some_one = total-find slot s db.suggestions found in
            elim (Bool-cases (is_pending s.status)) [
              | inr acted ↦
                  rw (found, acted, persist_suggestion)
                    (some_one, λ ticker side. (omega arith, λ h. h))
              | inl pending ↦
                  rw (found, pending, persist_suggestion)
                    (
                      subst (λ n. 1 ≤ n) (sym (refreshed_count r.ticker r.side s.id r db)) some_one,
                      λ ticker side. ground (arith, refreshed_count ticker side s.id r db),
                    )
            ]
      ]

  -- Where the week has at most one suggestion for each ticker and side, it still has at most one when
  -- the rows are written, and exactly one for the ticker and side of each row. None is lost.
  pub persist_suggestions-slot_count :
      (rs : List SuggestionRow) (db : Db)
      → ((ticker : ℕ) (side : Side) → slot_count week_of account ticker side db ≤ 1)
      → let after = (persist_suggestions targets_id week_of account now rs db).1 in
        ((ticker : ℕ) (side : Side)
          → (slot_count week_of account ticker side db
              ≤ slot_count week_of account ticker side after)
            × (slot_count week_of account ticker side after ≤ 1))
        × All (λ r. slot_count week_of account r.ticker r.side after ≡ 1) rs
  unfolding persist_suggestions
  persist_suggestions-slot_count [] db single =
      (λ ticker side. (omega arith, single ticker side), tt)
  persist_suggestions-slot_count (r ∷ rs) db single =
      let db₁ = (persist_suggestion targets_id week_of account now r db).1 in
      let (stands, step) = persist_suggestion-slot_count r db in
      let (rest, each) =
        persist_suggestions-slot_count rs db₁
          (λ ticker side. (step ticker side).1 (single ticker side)) in
      (
        λ ticker side. ground (arith, step ticker side, rest ticker side),
        (ground (arith, stands, rest r.ticker r.side), each),
      )
