-- ===== src/Review/Tests.antt =====
-- graphs/suggestion_review.py on two drafts: the context halves the first, and the critic rejects it.
use me_invest_paper.Base.{
  ℕ, ◌+◌, ◌*◌, ◌≡◌, refl, ◌⊎◌, ◌==◌, true, false, Option, none, some, List, [], ◌∷◌, All,
  if◌then◌else◌,
}
use me_invest_paper.Base.Int.{pos}
use me_invest_paper.Calendar.{day}
use me_invest_paper.Store.{Text, Side, Kind, Mode}
use me_invest_paper.Suggest.Anchor.{ScoredLevel, LevelType}
use me_invest_paper.Suggest.Persist.{SuggestionRow}
use me_invest_paper.AutoTrade.Samples.{now, db_in}
use me_invest_paper.Review.Sizing.{
  ReviewContext, Settings, DraftSizeAdjustment, adjust, adjust_from, rekey,
}
use me_invest_paper.Review.Levels.{deeper_anchor, find_level}
use me_invest_paper.Review.Critic.{Verdict, CriticDecision, apply_changes, fate, revise_from}
use me_invest_paper.Review.Graph.{Sessions, ReviewState, Model, revise_node, run_suggestion_review}
use me_invest_paper.Review.Running.{Fails, Finishes, run_suggestion_review-ends}
use me_invest_paper.Review.Places.{Ascends, Comes}
use me_invest_paper.Review.Sizes.{Related, adjust_from-Related}
use me_invest_paper.Review.Rationales.{Revises, revise_node-Revises}

abbrev draft : ℕ → SuggestionRow
draft ticker = record {
  ticker = ticker;
  side = Side.buy;
  qty = 10;
  limit_price = 990000;
  reason = [];
  expires_at = now + 5 * day;
  confidence_at_creation = some 70;
  anchor_method = some 1;
  base_qty = none;
  size_factor = 10000;
  context_note = [];
  kind = Kind.regular;
  is_highlighted = false;
}

abbrev drafts : List SuggestionRow
drafts = draft 7 ∷ draft 8 ∷ []

abbrev level : ScoredLevel
level = record {
  price = 950050;
  type = LevelType.support;
  method = 2;
  confidence = 70;
  rationale = [];
}

-- Ticker 7 has earnings in the week.
abbrev context : ReviewContext
context = record {
  scored_levels = λ ticker. level ∷ [];
  closes = λ ticker. some 1000000;
  market_context = some (record { macro_summary = []; sector_summary = [] });
  earnings_by_ticker = λ ticker. if ticker == 7 then some 3 else none;
}

abbrev settings : Settings
settings = record {
  earnings_size_factor = 50;
  earnings_reanchor = true;
  context_size_min = 50;
  context_size_max = 125;
}

abbrev resize : DraftSizeAdjustment
resize = record { draft_index = 1; size_multiplier = pos 300; prefer_anchor = some 2; note = [] }

abbrev no_text : SuggestionRow → Option DraftSizeAdjustment → Text
no_text d n = []

abbrev resized_first : SuggestionRow
resized_first = record (draft 7) {
  qty = 5;
  limit_price = 950000;
  anchor_method = some 2;
  base_qty = some 10;
  size_factor = 5000;
}

abbrev resized_second : SuggestionRow
resized_second = record (draft 8) {
  qty = 12;
  limit_price = 950000;
  anchor_method = some 2;
  base_qty = some 10;
  size_factor = 12500;
}

resized_both :
    adjust_from context settings no_text (resize ∷ []) 0 drafts
    ≡ (0, resized_first) ∷ (1, resized_second) ∷ []
unfolding adjust_from adjust deeper_anchor find_level
resized_both = refl

adjust_from-Related_example :
    let kept = adjust_from context settings no_text (resize ∷ []) 0 drafts in
    Ascends kept × All (Comes (Related context settings no_text) 0 drafts) kept
adjust_from-Related_example = adjust_from-Related context settings no_text (resize ∷ []) 0 drafts

abbrev reject : CriticDecision
reject = record {
  draft_index = 0;
  verdict = Verdict.reject;
  reason = [];
  suggested_changes = record { anchor_method = none; limit_price = none; qty = none };
}

abbrev model : Model
model = record {
  sizes = λ ctx ds. some (resize ∷ []);
  reasons = λ ctx ds missing. some [];
  verdicts = λ ctx ds texts. some (reject ∷ []);
}

abbrev before : ReviewState
before = record {
  week_of = 11;
  broker_account_id = 1;
  context = context;
  drafts = drafts;
  rationales = λ i. some (i ∷ []);
  critic_decisions = reject ∷ [];
  finals = [];
  suggestion_ids = [];
  rejections = [];
  targets_id = none;
}

-- The second draft has the first place, and its rationale goes with it.
abbrev after : ReviewState
after = record before {
  finals = draft 8 ∷ [];
  rationales = rekey ((1, draft 8) ∷ []) before.rationales;
  rejections = record { ticker = 7; side = Side.buy; reason = [] } ∷ [];
}

abbrev sessions : Sessions
sessions = record { gathered = some (context, none); commits = λ db. true }

run_suggestion_review-ends_example :
    let run = run_suggestion_review sessions model settings no_text now before (db_in Mode.live) in
    Fails sessions model settings no_text now (db_in Mode.live) run
    ⊎ Finishes sessions model settings no_text now before (db_in Mode.live) run
run_suggestion_review-ends_example =
    run_suggestion_review-ends sessions model settings no_text now before (db_in Mode.live)

revised_both : revise_node sessions model settings no_text now before ≡ some after
unfolding revise_node revise_from fate apply_changes
revised_both = refl

revise_node-Revises_example : Revises sessions model settings no_text now before after
revise_node-Revises_example =
    revise_node-Revises sessions model settings no_text now before after revised_both
