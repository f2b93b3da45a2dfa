-- ===== src/Lifecycle/Reviewed.antt =====
-- The last node of graphs/suggestion_review.py goes along the diagram.
use me_invest_paper.Base.{ℕ, ◌+◌, refl, inl, inr, ◌&&◌, Option, List, [], ◌∷◌, Bool-cases}
use me_invest_paper.Store.{Text, Db}
use me_invest_paper.Unaccept.{get_suggestion}
use me_invest_paper.Suggest.Persist.{SuggestionRow, persist_suggestions}
use me_invest_paper.Review.Sizing.{Settings, DraftSizeAdjustment}
use me_invest_paper.Review.Graph.{
  Sessions, ReviewState, Model, is_text, text_or_empty, is_pending_one, write_rationale,
  write_rationales, finalize_node,
}
use me_invest_paper.Lifecycle.Diagram.{stay}
use me_invest_paper.Lifecycle.Changes.{Goes, Goes-same, Goes-set, Goes-trans}
use me_invest_paper.Lifecycle.Operations.{persist_suggestions-Goes}

write_rationale-Goes :
    (text : Option Text) (sid : ℕ) (db : Db) → Goes db (write_rationale text sid db)
write_rationale-Goes text sid db =
    elim (Bool-cases (is_text text && is_pending_one (get_suggestion sid db))) [
      | inl written ↦ rw written (
          Goes-set sid (λ s. record s { llm_rationale = text_or_empty text }) db (λ s. refl)
            (λ s found. stay))
      | inr left ↦ rw left (Goes-same db db refl refl)
    ]

write_rationales-Goes :
    (texts : ℕ → Option Text) (i : ℕ) (sids : List ℕ) (db : Db)
    → Goes db (write_rationales texts i sids db)
unfolding write_rationales
write_rationales-Goes texts i [] db = Goes-same db db refl refl
write_rationales-Goes texts i (sid ∷ sids) db =
    let db₁ = write_rationale (texts i) sid db in
    Goes-trans {a = db} {b = db₁} {c = write_rationales texts (i + 1) sids db₁}
      (write_rationale-Goes (texts i) sid db) (write_rationales-Goes texts (i + 1) sids db₁)

module _ (sessions : Sessions) (model : Model) (settings : Settings)
    (note_text : SuggestionRow → Option DraftSizeAdjustment → Text) (now : ℕ) where
  pub finalize_node-Goes :
      (s : ReviewState) (db : Db)
      → Goes db (finalize_node sessions model settings note_text now s db).1
  unfolding finalize_node
  finalize_node-Goes s db =
      let (ids, db₁) =
        persist_suggestions s.targets_id s.week_of s.broker_account_id now s.finals db in
      Goes-trans {a = db} {b = db₁} {c = write_rationales s.rationales 0 ids db₁}
        (persist_suggestions-Goes s.targets_id s.week_of s.broker_account_id now s.finals db)
        (write_rationales-Goes s.rationales 0 ids db₁)
