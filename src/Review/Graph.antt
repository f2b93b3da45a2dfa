-- ===== src/Review/Graph.antt =====
-- The nodes of graphs/suggestion_review.py and the graph that they stand in. What the language model
-- answers to a prompt, parsed, is a parameter: none is an exception of the call, and no items are what
-- the node falls back to. What the two nodes that open a session for the tables get of it is a
-- parameter too: the context that is read, and whether the changes are committed.
use me_invest_paper.Base.{
  ℕ, zero, suc, ◌+◌, Bool, true, false, ◌&&◌, Option, none, some, List, [], ◌∷◌, map, take, present,
  if◌then◌else◌,
}
use me_invest_paper.Store.{Text, Suggestion, Db, is_pending, set_suggestion}
use me_invest_paper.Unaccept.{get_suggestion}
use me_invest_paper.Suggest.Persist.{SuggestionRow, persist_suggestions}
use me_invest_paper.Review.Sizing.{
  MarketContext, ReviewContext, Settings, DraftSizeAdjustment, item_at, adjust_from, rekey,
}
use me_invest_paper.Review.Critic.{
  CriticDecision, Rejection, Revised, route_after_critic, revise_from,
}

-- `DraftRationale`
pub record DraftRationale : Type 0 where
  pub draft_index : ℕ
  pub rationale : Text

-- `SuggestionReviewState`, without the telemetry.
pub record ReviewState : Type 0 where
  pub week_of : ℕ
  pub broker_account_id : ℕ
  pub context : ReviewContext
  pub drafts : List SuggestionRow
  pub rationales : ℕ → Option Text
  pub critic_decisions : List CriticDecision
  pub finals : List SuggestionRow
  pub suggestion_ids : List ℕ
  pub rejections : List Rejection
  pub targets_id : Option ℕ

pub record Model : Type 0 where
  pub sizes : ReviewContext → List SuggestionRow → Option (List DraftSizeAdjustment)
  pub reasons : ReviewContext → List SuggestionRow → List ℕ → Option (List DraftRationale)
  pub verdicts :
      ReviewContext → List SuggestionRow → (ℕ → Option Text) → Option (List CriticDecision)

-- The context and the targets that `gather_context_node` reads, where none is an exception, and whether
-- the session of `finalize_node` commits: one that raises leaves the tables as they were.
pub record Sessions : Type 0 where
  pub gathered : Option (ReviewContext × Option ℕ)
  pub commits : Db → Bool

-- The indices, from one on, that have no rationale.
abbrev pub missing_from : (ℕ → Option Text) → ℕ → List SuggestionRow → List ℕ
missing_from texts i [] = []
missing_from texts i (d ∷ ds) =
    if present (texts i) then missing_from texts (i + 1) ds else i ∷ missing_from texts (i + 1) ds

abbrev pub or_else : Option Text → Option DraftRationale → Option Text
or_else old none = old
or_else old (some item) = some (take 600 item.rationale)

-- `{**existing_rationales, **new_rationales}`
abbrev pub merged : (ℕ → Option Text) → List DraftRationale → ℕ → Option Text
merged texts items i = or_else (texts i) (item_at (λ r. r.draft_index) i items)

abbrev pub with_reasons : ReviewState → Option (List DraftRationale) → Option ReviewState
with_reasons s none = none
with_reasons s (some items) = some (record s { rationales = merged s.rationales items })

-- The truth value of a rationale.
abbrev pub is_text : Option Text → Bool
is_text none = false
is_text (some []) = false
is_text (some (c ∷ cs)) = true

abbrev pub text_or_empty : Option Text → Text
text_or_empty none = []
text_or_empty (some t) = t

abbrev pub is_pending_one : Option Suggestion → Bool
is_pending_one none = false
is_pending_one (some s) = is_pending s.status

-- One row of the loop of `finalize_node`.
abbrev pub write_rationale : Option Text → ℕ → Db → Db
write_rationale text sid db =
    if is_text text && is_pending_one (get_suggestion sid db)
    then set_suggestion sid (λ s. record s { llm_rationale = text_or_empty text }) db
    else db

unfoldable pub write_rationales : (ℕ → Option Text) → ℕ → List ℕ → Db → Db
write_rationales texts i [] db = db
write_rationales texts i (sid ∷ sids) db =
    write_rationales texts (i + 1) sids (write_rationale (texts i) sid db)

-- The nodes, and the end.
pub data Node : Type 0 where
  gather_context context_adjust reason critic : Node
  revise skip_revise finalize finish : Node

-- How a run ends. With an exception the tables are as the node found them; the rows
-- of the log of the model's calls, which are written on the way, are not among them here.
pub data Run : Type 0 where
  finished : ReviewState → Db → Run
  raised : Node → Db → Run
  out_of_fuel : Run

-- The rest of a run, or its end.
abbrev pub arrive : Run → Node → ReviewState → Db → Run
arrive rest finish s db = finished s db
arrive rest _ s db = rest

module _ (sessions : Sessions) (model : Model) (settings : Settings)
    (note_text : SuggestionRow → Option DraftSizeAdjustment → Text) (now : ℕ) where
  abbrev pub with_gathered : ReviewState → Option (ReviewContext × Option ℕ) → Option ReviewState
  with_gathered s none = none
  with_gathered s (some (ctx, targets_id)) =
      some (record s { context = ctx; targets_id = targets_id })

  abbrev pub gather_context_node : ReviewState → Option ReviewState
  gather_context_node s = with_gathered s sessions.gathered

  abbrev pub adjusted : ReviewState → List DraftSizeAdjustment → ReviewState
  adjusted s items =
      let kept = adjust_from s.context settings note_text items 0 s.drafts in
      record s { drafts = map (λ k. k.1) kept; rationales = rekey kept s.rationales }

  abbrev pub with_sizes : ReviewState → Option (List DraftSizeAdjustment) → Option ReviewState
  with_sizes s none = none
  with_sizes s (some items) = some (adjusted s items)

  -- Without a context of the market the model is not asked.
  abbrev pub context_adjust_if : ReviewState → Option MarketContext → Option ReviewState
  context_adjust_if s none = some (adjusted s [])
  context_adjust_if s (some market) = with_sizes s (model.sizes s.context s.drafts)

  unfoldable pub context_adjust_node : ReviewState → Option ReviewState
  context_adjust_node s = context_adjust_if s s.context.market_context

  abbrev pub reason_if : ReviewState → List ℕ → Option ReviewState
  reason_if s [] = some s
  reason_if s (i ∷ missing) = with_reasons s (model.reasons s.context s.drafts (i ∷ missing))

  unfoldable pub reason_node : ReviewState → Option ReviewState
  reason_node s = reason_if s (missing_from s.rationales 0 s.drafts)

  abbrev pub with_verdicts : ReviewState → Option (List CriticDecision) → Option ReviewState
  with_verdicts s none = none
  with_verdicts s (some items) = some (record s { critic_decisions = items })

  unfoldable pub critic_node : ReviewState → Option ReviewState
  critic_node s = with_verdicts s (model.verdicts s.context s.drafts s.rationales)

  abbrev pub skip_revise_node : ReviewState → ReviewState
  skip_revise_node s = record s { finals = s.drafts; rejections = [] }

  abbrev pub with_revised : ReviewState → Option Revised → Option ReviewState
  with_revised s none = none
  with_revised s (some (kept, rejections)) = some (record s {
    finals = map (λ k. k.1) kept;
    rationales = rekey kept s.rationales;
    rejections = rejections;
  })

  unfoldable pub revise_node : ReviewState → Option ReviewState
  revise_node s = with_revised s (revise_from s.context s.critic_decisions 0 s.drafts)

  unfoldable pub finalize_node : ReviewState → Db → ReviewState × Db
  finalize_node s db =
      let (ids, db₁) =
        persist_suggestions s.targets_id s.week_of s.broker_account_id now s.finals db in
      (record s { suggestion_ids = ids }, write_rationales s.rationales 0 ids db₁)

  abbrev pub beside : Db → Option ReviewState → Option (ReviewState × Db)
  beside db none = none
  beside db (some s) = some (s, db)

  -- What a node does to the state and the tables. `none` is an exception.
  abbrev pub enter : Node → ReviewState → Db → Option (ReviewState × Db)
  enter gather_context s db = beside db (gather_context_node s)
  enter context_adjust s db = beside db (context_adjust_node s)
  enter reason s db = beside db (reason_node s)
  enter critic s db = beside db (critic_node s)
  enter revise s db = beside db (revise_node s)
  enter skip_revise s db = some (skip_revise_node s, db)
  enter finalize s db = if sessions.commits db then some (finalize_node s db) else none
  enter finish s db = some (s, db)

  -- The edges of the graph.
  abbrev pub after : Node → ReviewState → Node
  after gather_context s = context_adjust
  after context_adjust s = reason
  after reason s = critic
  after critic s = if route_after_critic s.critic_decisions then revise else skip_revise
  after revise s = finalize
  after skip_revise s = finalize
  after finalize s = finish
  after finish s = finish

  -- The run of the graph from a node, on fuel.
  unfoldable pub run_from : ℕ → Node → ReviewState → Db → Run
  run_from zero node s db = out_of_fuel
  run_from (suc fuel) node s db = elim (enter node s db) [
    | none ↦ raised node db
    | some (s', db') ↦ arrive (run_from fuel (after node s') s' db') (after node s') s' db'
  ]

  -- `graph.invoke` on the graph that `build_suggestion_review_graph` builds. A run passes six nodes.
  unfoldable pub run_suggestion_review : ReviewState → Db → Run
  run_suggestion_review s db = run_from 6 gather_context s db
