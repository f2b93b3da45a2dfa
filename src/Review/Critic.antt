-- ===== src/Review/Critic.antt =====
-- The critic's verdicts in graphs/suggestion_review.py: `route_after_critic`, `_apply_changes` and
-- `revise_node`. A number that the critic asks for is one that `float` reads, or else it raises; a
-- quantity is of whole shares here, and a price is not below zero.
use me_invest_paper.Base.{
  ℕ, ◌+◌, Bool, true, false, Option, none, some, List, [], ◌∷◌, ◌==◌, ltb, leb, any, find?,
  if◌then◌else◌,
}
use me_invest_paper.Base.Int.{ℤ, pos, negsuc}
use me_invest_paper.Store.{Text, Side}
use me_invest_paper.Reconciliation.Matching.{distance}
use me_invest_paper.Suggest.Anchor.{ScoredLevel}
use me_invest_paper.Suggest.Persist.{SuggestionRow}
use me_invest_paper.Review.Sizing.{ReviewContext, item_at}

pub data Verdict : Type 0 where
  approve revise reject : Verdict

-- `suggested_changes`: a key that is not there is none, and a value that is no number is `raises`.
pub data Number (A : Type 0) : Type 0 where
  number : A → Number A
  raises : Number A

pub record Changes : Type 0 where
  pub anchor_method : Option ℕ
  pub limit_price : Option (Number ℕ)
  pub qty : Option (Number ℤ)

pub record CriticDecision : Type 0 where
  pub draft_index : ℕ
  pub verdict : Verdict
  pub reason : Text
  pub suggested_changes : Changes

abbrev pub asks_change : Verdict → Bool
asks_change approve = false
asks_change revise = true
asks_change reject = true

-- `critic_decisions`, by the index of the draft.
abbrev pub decision_at : ℕ → List CriticDecision → Option CriticDecision
decision_at i items = item_at (λ d. d.draft_index) i items

abbrev pub change_of : Option CriticDecision → Bool
change_of none = false
change_of (some d) = asks_change d.verdict

-- `route_after_critic`: whether any value of the dict asks for a change.
unfoldable pub route_after_critic : List CriticDecision → Bool
route_after_critic items = any (λ d. change_of (decision_at d.draft_index items)) items

-- How the changes of one draft end: an exception, a refusal, or the changed draft.
pub data Revision : Type 0 where
  raised : Revision
  refused : Revision
  revised : SuggestionRow → Revision

abbrev pub with_qty : SuggestionRow → Option (Number ℤ) → Revision
with_qty d none = revised d
with_qty d (some raises) = raised
with_qty d (some (number (negsuc n))) = refused
with_qty d (some (number (pos n))) = if ltb n 1 then refused else revised (record d { qty = n })

-- A level within a cent of the price.
abbrev pub is_priced : ℕ → ScoredLevel → Bool
is_priced price lv = leb (distance lv.price price) 100

-- The limit that is asked for, where no method is.
abbrev pub with_limit :
    List ScoredLevel → SuggestionRow → Option (Number ℕ) → Option (Number ℤ) → Revision
with_limit levels d none qty = with_qty d qty
with_limit levels d (some raises) qty = raised
with_limit levels d (some (number price)) qty = elim (find? (is_priced price) levels) [
  | none ↦ refused
  | some lv ↦ with_qty (record d { limit_price = price }) qty
]

abbrev pub with_anchor : List ScoredLevel → SuggestionRow → Changes → Option ℕ → Revision
with_anchor levels d changes none = with_limit levels d changes.limit_price changes.qty
with_anchor levels d changes (some method) = elim (find? (λ lv. lv.method == method) levels) [
  | none ↦ refused
  | some lv ↦
      with_qty (record d { limit_price = lv.price; anchor_method = some lv.method }) changes.qty
]

-- `_apply_changes`
unfoldable pub apply_changes : SuggestionRow → Changes → ReviewContext → Revision
apply_changes d changes ctx =
    with_anchor (ctx.scored_levels d.ticker) d changes changes.anchor_method

pub record Rejection : Type 0 where
  pub ticker : ℕ
  pub side : Side
  pub reason : Text

-- What becomes of one draft.
pub data Fate : Type 0 where
  crash : Fate
  keep : SuggestionRow → Fate
  drop : Rejection → Fate

abbrev pub fate_of_revision : SuggestionRow → Revision → Fate
fate_of_revision d raised = crash
fate_of_revision d refused = keep d
fate_of_revision d (revised r) = keep r

abbrev pub fate_by : ReviewContext → SuggestionRow → CriticDecision → Verdict → Fate
fate_by ctx d dec approve = keep d
fate_by ctx d dec reject = drop (record { ticker = d.ticker; side = d.side; reason = dec.reason })
fate_by ctx d dec revise = fate_of_revision d (apply_changes d dec.suggested_changes ctx)

abbrev pub fate_if : ReviewContext → SuggestionRow → Option CriticDecision → Fate
fate_if ctx d none = keep d
fate_if ctx d (some dec) = fate_by ctx d dec dec.verdict

unfoldable pub fate : ReviewContext → List CriticDecision → ℕ → SuggestionRow → Fate
unfolding apply_changes
fate ctx items i d = fate_if ctx d (decision_at i items)

-- `finals` with the indices of before, and the rejections.
abbrev pub Revised : Type 0
Revised = List (ℕ × SuggestionRow) × List Rejection

abbrev pub note_fate : ℕ → Fate → Option Revised → Option Revised
note_fate i crash rest = none
note_fate i (keep r) none = none
note_fate i (keep r) (some (finals, rejections)) = some ((i, r) ∷ finals, rejections)
note_fate i (drop x) none = none
note_fate i (drop x) (some (finals, rejections)) = some (finals, x ∷ rejections)

-- The loop of `revise_node`. `none` is an exception.
unfoldable pub revise_from :
    ReviewContext → List CriticDecision → ℕ → List SuggestionRow → Option Revised
revise_from ctx items i [] = some ([], [])
revise_from ctx items i (d ∷ ds) =
    note_fate i (fate ctx items i d) (revise_from ctx items (i + 1) ds)
