-- ===== src/Review/Sizing.antt =====
-- `context_adjust_node` of graphs/suggestion_review.py. A factor is a number of hundredths, and the
-- product of two one of ten-thousandths. What the language model answers, parsed, is a parameter, and
-- so are the words of the notes; an index below zero, which fits no draft, is left out of the answer.
use me_invest_paper.Base.{
  ℕ, ◌+◌, ◌*◌, ◌/◌, min, max, Bool, true, false, Option, none, some, List, [], ◌∷◌, ◌==◌, ltb,
  get_elem?, present, if◌then◌else◌,
}
use me_invest_paper.Base.Int.{ℤ, pos, negsuc}
use me_invest_paper.Store.{Text, Kind}
use me_invest_paper.Suggest.Anchor.{ScoredLevel}
use me_invest_paper.Suggest.Persist.{SuggestionRow}
use me_invest_paper.Review.Levels.{limit_at, deeper_anchor, find_level}

pub record MarketContext : Type 0 where
  pub macro_summary : Text
  pub sector_summary : Text

-- The parts of `ReviewContext` that a node reads outside its prompt, the dicts as functions of the
-- ticker; of the indicators it is the close.
pub record ReviewContext : Type 0 where
  pub scored_levels : ℕ → List ScoredLevel
  pub closes : ℕ → Option ℕ
  pub market_context : Option MarketContext
  pub earnings_by_ticker : ℕ → Option ℕ

pub record Settings : Type 0 where
  pub earnings_size_factor : ℕ
  pub earnings_reanchor : Bool
  pub context_size_min : ℕ
  pub context_size_max : ℕ

pub record DraftSizeAdjustment : Type 0 where
  pub draft_index : ℕ
  pub size_multiplier : ℤ
  pub prefer_anchor : Option ℕ
  pub note : Text

-- `{item.draft_index: item for item in items}` at an index: the last item wins.
abbrev pub item_at : {A : Type 0} → (A → ℕ) → ℕ → List A → Option A
item_at index i [] = none
item_at index i (x ∷ xs) = elim (item_at index i xs) [
  | some y ↦ some y
  | none ↦ if index x == i then some x else none
]

-- `max(low, min(high, multiplier))`
abbrev pub clamp : ℕ → ℕ → ℤ → ℕ
clamp low high (pos n) = max low (min high n)
clamp low high (negsuc n) = low

abbrev pub is_topup : Kind → Bool
is_topup Kind.topup = true
is_topup Kind.regular = false

-- A limit and the method of its anchor.
pub record Aim : Type 0 where
  pub limit : ℕ
  pub anchor : Option ℕ

abbrev pub aim_at : SuggestionRow → ScoredLevel → Aim
aim_at d lv = record { limit = limit_at d.side lv.price; anchor = some lv.method }

abbrev pub aim_of : SuggestionRow → Aim
aim_of d = record { limit = d.limit_price; anchor = d.anchor_method }

abbrev pub aim_or_keep : SuggestionRow → Option ScoredLevel → Aim
aim_or_keep d none = aim_of d
aim_or_keep d (some lv) = aim_at d lv

abbrev pub close_or_zero : Option ℕ → ℕ
close_or_zero none = 0
close_or_zero (some close) = close

module _ (ctx : ReviewContext) (settings : Settings) where
  -- `earnings_factors.get(i, 1.0)`
  abbrev pub earnings_factor : SuggestionRow → ℕ
  earnings_factor d =
      if present (ctx.earnings_by_ticker d.ticker) then settings.earnings_size_factor else 100

  -- `earnings_anchors`
  abbrev pub earnings_anchor : SuggestionRow → Option ScoredLevel
  earnings_anchor d =
      if present (ctx.earnings_by_ticker d.ticker)
      then if settings.earnings_reanchor
        then deeper_anchor d.side d.limit_price (ctx.scored_levels d.ticker)
        else none
      else none

  abbrev pub narrative_factor : Option DraftSizeAdjustment → ℕ
  narrative_factor none = 100
  narrative_factor (some n) =
      clamp settings.context_size_min settings.context_size_max n.size_multiplier

  abbrev pub preferred_level : SuggestionRow → Option ℕ → Option ScoredLevel
  preferred_level d none = none
  preferred_level d (some method) =
      find_level (ctx.scored_levels d.ticker) method d.side (close_or_zero (ctx.closes d.ticker))

  abbrev pub narrative_anchor : Option DraftSizeAdjustment → Option ℕ
  narrative_anchor none = none
  narrative_anchor (some n) = n.prefer_anchor

  -- The anchor for the earnings goes before the one that the narrative prefers.
  abbrev pub aim : SuggestionRow → Option DraftSizeAdjustment → Option ScoredLevel → Aim
  aim d narrative (some lv) = aim_at d lv
  aim d narrative none = aim_or_keep d (preferred_level d (narrative_anchor narrative))

  module _ (note_text : SuggestionRow → Option DraftSizeAdjustment → Text) where
    abbrev pub resized : SuggestionRow → Option DraftSizeAdjustment → Aim → ℕ → ℕ → SuggestionRow
    resized d narrative a qty factor = record d {
      qty = qty;
      limit_price = a.limit;
      anchor_method = a.anchor;
      base_qty = some d.qty;
      size_factor = factor;
      context_note = note_text d narrative;
    }

    -- One draft, or nothing where less than a share is left of it.
    unfoldable pub adjust : SuggestionRow → Option DraftSizeAdjustment → Option SuggestionRow
    adjust d narrative =
        if is_topup d.kind
        then some d
        else let factor = earnings_factor d * narrative_factor narrative in
          let qty = d.qty * factor / 10000 in
          if ltb qty 1
          then none
          else some (resized d narrative (aim d narrative (earnings_anchor d)) qty factor)

    -- The loop over the drafts, with their indices: what is left, with the index of before.
    unfoldable pub adjust_from :
        List DraftSizeAdjustment → ℕ → List SuggestionRow → List (ℕ × SuggestionRow)
    adjust_from items i [] = []
    adjust_from items i (d ∷ ds) = elim (adjust d (item_at (λ n. n.draft_index) i items)) [
      | none ↦ adjust_from items (i + 1) ds
      | some r ↦ (i, r) ∷ adjust_from items (i + 1) ds
    ]

-- The rationales at the new positions, each that of the old index.
abbrev pub text_of : (ℕ → Option Text) → Option (ℕ × SuggestionRow) → Option Text
text_of texts none = none
text_of texts (some (i, r)) = texts i

abbrev pub rekey : List (ℕ × SuggestionRow) → (ℕ → Option Text) → ℕ → Option Text
rekey kept texts j = text_of texts (get_elem? kept j)
