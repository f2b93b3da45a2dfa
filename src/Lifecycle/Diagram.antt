-- ===== src/Lifecycle/Diagram.antt =====
-- The diagram of the states of a suggestion, the status column of `OrderSuggestion` in models.py, and
-- what a table that moves along it keeps.
use me_invest_paper.Base.{ℕ, ◌≡◌, refl, ap, Bool, true, false, Option, none, some}
use mathlib.Core.Option
use me_invest_paper.Store.{
  Suggestion, SuggestionStatus, pending, accepted, rejected, cancelled, expired, filled, Db,
}
use me_invest_paper.Unaccept.{get_suggestion}

infix 40 ◌⟶◌
pub data ◌⟶◌ : SuggestionStatus → SuggestionStatus → Type 0 where
  stay : {s : SuggestionStatus} → s ⟶ s
  accept : pending ⟶ accepted
  reject : pending ⟶ rejected
  lapse : pending ⟶ expired
  lapse_accepted : accepted ⟶ expired
  cancel : accepted ⟶ cancelled
  fill : accepted ⟶ filled
  reset : accepted ⟶ pending

-- The states that are left by no edge.
abbrev pub is_final : SuggestionStatus → Bool
is_final pending = false
is_final accepted = false
is_final _ = true

pub final_stays : {s t : SuggestionStatus} → is_final s ≡ true → s ⟶ t → t ≡ s
final_stays h stay = refl
final_stays h accept = cc
final_stays h reject = cc
final_stays h lapse = cc
final_stays h lapse_accepted = cc
final_stays h cancel = cc
final_stays h fill = cc
final_stays h reset = cc

-- The status of the suggestion with an id.
abbrev pub status_at : ℕ → Db → Option SuggestionStatus
status_at j db = Option.map (λ (s : Suggestion). s.status) (get_suggestion j db)

-- A suggestion moves along an edge and is not deleted, and a new one is pending.
abbrev pub Moves : Option SuggestionStatus → Option SuggestionStatus → Type 0
Moves none none = Unit
Moves none (some t) = t ≡ pending
Moves (some s) none = ⊥
Moves (some s) (some t) = s ⟶ t

abbrev pub Evolves : Db → Db → Type 0
Evolves before after = (j : ℕ) → Moves (status_at j before) (status_at j after)

-- A table that moves any number of times.
pub data Evolution (start : Db) : Db → Type 0 where
  here : Evolution start start
  next : {mid end : Db} → Evolution start mid → Evolves mid end → Evolution start end

pub Evolution-trans : {a b c : Db} → Evolution a b → Evolution b c → Evolution a c
Evolution-trans e here = e
Evolution-trans e (next f m) = next (Evolution-trans e f) m

Moves-final :
    (s : SuggestionStatus) (o : Option SuggestionStatus)
    → is_final s ≡ true
    → Moves (some s) o
    → o ≡ some s
Moves-final s none h m = absurd m
Moves-final s (some t) h m = ap some (final_stays h m)

-- A final status is the last one, however long the table goes on.
pub Evolution-final :
    {before after : Db} (j : ℕ) (s : SuggestionStatus)
    → is_final s ≡ true
    → status_at j before ≡ some s
    → Evolution before after
    → status_at j after ≡ some s
Evolution-final j s h e here = e
Evolution-final j s h e (next {mid} {end} f m) =
    Moves-final s (status_at j end) h (rw (← Evolution-final j s h e f) (m j))
