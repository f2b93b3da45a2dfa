-- ===== src/Lifecycle/Changes.antt =====
-- How a change of the suggestions' table moves along the diagram: one row, a selection, or none.
use me_invest_paper.Base.{
  ℕ, ◌<◌, ◌≡◌, refl, ap, sym, subst, inl, inr, Bool, true, false, Option, none, some, List, [], ◌∷◌,
  map, ◌==◌, ==_iff, arith, find?, All, Bool-cases, if◌then◌else◌,
}
use mathlib.Core.Option
use me_invest_paper.Base.Rows.{Distinct, All-update, update-Distinct, find-update}
use me_invest_paper.Base.Sweeps.{when, map-when-Distinct}
use me_invest_paper.Store.{Suggestion, SuggestionStatus, Db, set_suggestion}
use me_invest_paper.Unaccept.{get_suggestion}
use me_invest_paper.Suggest.Keeping.{IsNumbered}
use me_invest_paper.Lifecycle.Diagram.{
  ◌⟶◌, stay, Moves, status_at, Evolution, here, next, Evolution-trans,
}

-- A change of the table that moves along the diagram and keeps its keys apart.
abbrev pub Goes : Db → Db → Type 0
Goes before after = IsNumbered before → Evolution before after × IsNumbered after

pub Goes-trans : {a b c : Db} → Goes a b → Goes b c → Goes a c
Goes-trans f g n = let (e, n') = f n in let (e', n'') = g n' in (Evolution-trans e e', n'')

pub Moves-refl : (o : Option SuggestionStatus) → Moves o o
Moves-refl none = tt
Moves-refl (some s) = stay

-- Where the suggestions are the same, nothing moves.
pub Goes-same :
    (before after : Db)
    → after.suggestions ≡ before.suggestions
    → after.next_suggestion ≡ before.next_suggestion
    → Goes before after
Goes-same before after same key n = (
  next here (λ j.
      rw (ap (λ l. Option.map (λ (s : Suggestion). s.status) (find? (λ s. s.id == j) l)) same)
        (Moves-refl (status_at j before))),
  rw (same, key) n,
)

Moves-map :
    (f : Suggestion → Suggestion) (b : Bool) (o : Option Suggestion)
    → ((s : Suggestion) → b ≡ true → o ≡ some s → s.status ⟶ (f s).status)
    → Moves
        (Option.map (λ (s : Suggestion). s.status) o)
        (Option.map (λ (s : Suggestion). s.status) (if b then Option.map f o else o))
Moves-map f false o h = Moves-refl (Option.map (λ (s : Suggestion). s.status) o)
Moves-map f true none h = tt
Moves-map f true (some s) h = h s refl refl

-- One row: the edge is asked of the row that is found.
pub Goes-set :
    (i : ℕ) (f : Suggestion → Suggestion) (db : Db)
    → ((s : Suggestion) → (f s).id ≡ s.id)
    → ((s : Suggestion) → get_suggestion i db ≡ some s → s.status ⟶ (f s).status)
    → Goes db (set_suggestion i f db)
Goes-set i f db keep edge (distinct, below) = (
  next here (λ j. rw (find-update (λ s. s.id) i j f keep db.suggestions) (
      Moves-map f (i == j) (get_suggestion j db) (λ s same found.
        edge s (subst (λ k. get_suggestion k db ≡ some s) (sym ((==_iff i j).0 same)) found)))),
  (
    update-Distinct (λ s. s.id) i f keep db.suggestions distinct,
    All-update (λ s. s.id) (λ s. s.id < db.next_suggestion) i f (λ s h. rw (keep s) h)
        db.suggestions below,
  ),
)

find-map-when :
    (p : Suggestion → Bool) (f : Suggestion → Suggestion) (j : ℕ)
    → ((s : Suggestion) → (f s).id ≡ s.id)
    → (xs : List Suggestion)
    → find? (λ s. s.id == j) (map (when p f) xs) ≡ Option.map (when p f) (find? (λ s. s.id == j) xs)
find-map-when p f j keep [] = refl
find-map-when p f j keep (x ∷ xs) = ground (arith, keep x, find-map-when p f j keep xs)

All-map-when :
    (p : Suggestion → Bool) (f : Suggestion → Suggestion) (n : ℕ)
    → ((s : Suggestion) → (f s).id ≡ s.id)
    → (xs : List Suggestion) → All (λ s. s.id < n) xs
    → All (λ s. s.id < n) (map (when p f) xs)
All-map-when p f n keep [] h = tt
All-map-when p f n keep (x ∷ xs) h = (ground (arith, keep x, h.0), All-map-when p f n keep xs h.1)

when-⟶ :
    (p : Suggestion → Bool) (f : Suggestion → Suggestion) (s : Suggestion)
    → (p s ≡ true → s.status ⟶ (f s).status)
    → s.status ⟶ (when p f s).status
when-⟶ p f s edge = elim (Bool-cases (p s)) [ inl t ↦ rw t (edge t) | inr e ↦ rw e stay ]

-- A selection: the edge is asked of each row that is selected.
pub Goes-map :
    (p : Suggestion → Bool) (f : Suggestion → Suggestion) (before after : Db)
    → ((s : Suggestion) → (f s).id ≡ s.id)
    → ((s : Suggestion) → p s ≡ true → s.status ⟶ (f s).status)
    → (Distinct (λ (s : Suggestion). s.id) before.suggestions
        → after.suggestions ≡ map (when p f) before.suggestions)
    → after.next_suggestion ≡ before.next_suggestion
    → Goes before after
Goes-map p f before after keep edge rows key (distinct, below) = (
  next here (λ j.
      rw (rows distinct, find-map-when p f j keep before.suggestions)
        (Moves-map (when p f) true (get_suggestion j before)
          (λ s same found. when-⟶ p f s (edge s)))),
  rw (rows distinct, key)
      (
        map-when-Distinct (λ s. s.id) f keep p before.suggestions distinct,
        All-map-when p f before.next_suggestion keep before.suggestions below,
      ),
)
