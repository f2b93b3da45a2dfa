-- ===== src/Review/Steps.antt =====
-- The steps of a run of the graph of graphs/suggestion_review.py.
use me_invest_paper.Base.{
  ℕ, suc, ◌≡◌, refl, ap, ◌∙◌, inl, inr, Bool, true, false, Option, none, some, Bool-cases,
  if◌then◌else◌,
}
use me_invest_paper.Store.{Text, Db}
use me_invest_paper.Suggest.Persist.{SuggestionRow}
use me_invest_paper.Review.Sizing.{Settings, DraftSizeAdjustment}
use me_invest_paper.Review.Graph.{
  Sessions, ReviewState, Model, Node, gather_context, context_adjust, reason, critic, revise,
  skip_revise, finalize, finish, Run, finished, raised, finalize_node, arrive, enter, after,
  run_from,
}

abbrev pub is_finish : Node → Bool
is_finish finish = true
is_finish _ = false

arrive_next :
    (rest : Run) (node : Node) (s : ReviewState) (db : Db)
    → is_finish node ≡ false
    → arrive rest node s db ≡ rest
arrive_next rest finish s db h = cc
arrive_next rest gather_context s db h = refl
arrive_next rest context_adjust s db h = refl
arrive_next rest reason s db h = refl
arrive_next rest critic s db h = refl
arrive_next rest revise s db h = refl
arrive_next rest skip_revise s db h = refl
arrive_next rest finalize s db h = refl

module _ (sessions : Sessions) (model : Model) (settings : Settings)
    (note_text : SuggestionRow → Option DraftSizeAdjustment → Text) (now : ℕ) where
  abbrev pub go : ℕ → Node → ReviewState → Db → Run
  go fuel node s db = run_from sessions model settings note_text now fuel node s db

  -- A node that raises ends the run.
  pub go-raised :
      (fuel : ℕ) (node : Node) (s : ReviewState) (db : Db)
      → enter sessions model settings note_text now node s db ≡ none
      → go (suc fuel) node s db ≡ raised node db
  unfolding run_from
  go-raised fuel node s db e = rw (e, run_from) refl

  pub go_next :
      (fuel : ℕ) (node next : Node) (s s' : ReviewState) (db db' : Db)
      → enter sessions model settings note_text now node s db ≡ some (s', db')
      → after sessions model settings note_text now node s' ≡ next
      → is_finish next ≡ false
      → go (suc fuel) node s db ≡ go fuel next s' db'
  unfolding run_from
  go_next fuel node next s s' db db' e edge h =
      rw (e, run_from)
        (ap (λ n. arrive (go fuel n s' db') n s' db') edge
          ∙ arrive_next (go fuel next s' db') next s' db' h)

  pub go-finalize :
      (fuel : ℕ) (s : ReviewState) (db : Db)
      → go (suc fuel) finalize s db ≡ (
          if sessions.commits db
          then finished
              (finalize_node sessions model settings note_text now s db).0
              (finalize_node sessions model settings note_text now s db).1
          else raised finalize db)
  unfolding run_from
  go-finalize fuel s db = elim (Bool-cases (sessions.commits db)) [
    | inl commits ↦ rw (commits, run_from) refl
    | inr fails ↦ rw (fails, run_from) refl
  ]
