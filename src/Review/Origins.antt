-- ===== src/Review/Origins.antt =====
-- Where the rows come from that the nodes of graphs/suggestion_review.py leave.
use me_invest_paper.Base.{
  ℕ, zero, suc, ◌+◌, ◌-◌, ◌≤◌, ◌≡◌, refl, sym, ap, ◌∙◌, inl, inr, Option, none, some, List, [], ◌∷◌,
  map, arith, get_elem?, length, All, All-map, Has, Option-cases,
}
use mathlib.Core.Path.{subst}
use me_invest_paper.Store.{Text, Kind}
use me_invest_paper.Suggest.Persist.{SuggestionRow}
use me_invest_paper.Suggest.Budget.{OnSome, on_some}
use me_invest_paper.Review.Sizing.{
  MarketContext, ReviewContext, Settings, DraftSizeAdjustment, item_at, adjust, adjust_from,
}
use me_invest_paper.Review.Critic.{CriticDecision}
use me_invest_paper.Review.Graph.{
  Sessions, ReviewState, Model, DraftRationale, with_gathered, gather_context_node, with_sizes,
  context_adjust_if, context_adjust_node, missing_from, reason_if, with_reasons, reason_node,
  with_verdicts, critic_node, revise_node,
}
use me_invest_paper.Review.Places.{Comes}
use me_invest_paper.Review.Sizes.{IsKept, Related, adjust_from-Related}
use me_invest_paper.Review.Rationales.{Survives, revise_node-Revises}

-- The row is for the same ticker, side and kind as one of the drafts.
abbrev pub IsFrom : List SuggestionRow → SuggestionRow → Type 0
IsFrom ds r =
    (d : SuggestionRow) × Has d ds × (r.ticker ≡ d.ticker) × (r.side ≡ d.side) × (r.kind ≡ d.kind)

Has-get_elem? :
    (ds : List SuggestionRow) (n : ℕ) (d : SuggestionRow) → get_elem? ds n ≡ some d → Has d ds
Has-get_elem? [] n d e = cc
Has-get_elem? (x ∷ ds) zero d e = inl (cc)
Has-get_elem? (x ∷ ds) (suc n) d e = inr (Has-get_elem? ds n d e)

All-of_rows :
    (P : SuggestionRow → Type 0) (kept : List (ℕ × SuggestionRow))
    → All (λ k. P k.1) kept
    → All P (map (λ k. k.1) kept)
All-of_rows P [] h = tt
All-of_rows P (k ∷ kept) h = (h.0, All-of_rows P kept h.1)

length-rows : (kept : List (ℕ × SuggestionRow)) → length (map (λ k. k.1) kept) ≡ length kept
length-rows [] = refl
length-rows (k ∷ kept) = ap suc (length-rows kept)

pub All-IsFrom_self : (ds es : List SuggestionRow) → All (λ d. Has d es) ds → All (IsFrom es) ds
All-IsFrom_self ds es h = All-map (λ d. Has d es) (IsFrom es) (λ d m. (d, m, refl, refl, refl)) ds h

-- Rows that come from rows that come from the drafts come from the drafts.
Has-IsFrom :
    (ds es : List SuggestionRow) (e : SuggestionRow) → All (IsFrom ds) es → Has e es → IsFrom ds e
Has-IsFrom ds [] e h m = absurd m
Has-IsFrom ds (x ∷ es) e h (inl same) = subst (IsFrom ds) (sym same) h.0
Has-IsFrom ds (x ∷ es) e h (inr m) = Has-IsFrom ds es e h.1 m

pub IsFrom-trans :
    (ds es rs : List SuggestionRow) → All (IsFrom ds) es → All (IsFrom es) rs → All (IsFrom ds) rs
IsFrom-trans ds es rs first =
    All-map (IsFrom es) (IsFrom ds)
      (λ r (e, m, ticker, side, kind).
        let (d, n, ticker', side', kind') = Has-IsFrom ds es e first m in
        (d, n, ticker ∙ ticker', side ∙ side', kind ∙ kind'))
      rs

-- The drafts come from those, and are no more.
abbrev pub Drafted : List SuggestionRow → List SuggestionRow → Type 0
Drafted ds es = All (IsFrom ds) es × (length es ≤ length ds)

module _ (ctx : ReviewContext) (settings : Settings)
    (note_text : SuggestionRow → Option DraftSizeAdjustment → Text) where
  IsKept-IsFrom :
      (ds : List SuggestionRow) (d r : SuggestionRow) (kind : Kind)
      → Has d ds
      → IsKept ctx settings note_text kind d r
      → IsFrom ds r
  IsKept-IsFrom ds d r Kind.topup m same = subst (IsFrom ds) (sym same) (d, m, refl, refl, refl)
  IsKept-IsFrom ds d r Kind.regular m resized = (d, m, resized.0, resized.1, resized.2)

  length-adjust_from :
      (items : List DraftSizeAdjustment) (i : ℕ) (ds : List SuggestionRow)
      → length (adjust_from ctx settings note_text items i ds) ≤ length ds
  unfolding adjust_from
  length-adjust_from items i [] = omega arith
  length-adjust_from items i (d ∷ ds) =
      let rest = length-adjust_from items (i + 1) ds in
      elim (Option-cases (adjust ctx settings note_text d (item_at (λ n. n.draft_index) i items))) [
        | inl gone ↦ rw (gone, adjust_from) (omega arith)
        | inr (r, left) ↦ rw (left, adjust_from) (omega arith)
      ]

  adjust_from-Drafted :
      (items : List DraftSizeAdjustment) (ds : List SuggestionRow)
      → Drafted ds (map (λ k. k.1) (adjust_from ctx settings note_text items 0 ds))
  adjust_from-Drafted items ds =
      let kept = adjust_from ctx settings note_text items 0 ds in
      (
        All-of_rows (IsFrom ds) kept (
            All-map (Comes (Related ctx settings note_text) 0 ds) (λ k. IsFrom ds k.1)
              (λ kr (d, at, related).
                IsKept-IsFrom ds d kr.1 d.kind (Has-get_elem? ds (kr.0 - 0) d at.1) related)
              kept (adjust_from-Related ctx settings note_text items 0 ds).1),
        omega (arith, length-rows kept, length-adjust_from items 0 ds),
      )

module _ (sessions : Sessions) (model : Model) (settings : Settings)
    (note_text : SuggestionRow → Option DraftSizeAdjustment → Text) (now : ℕ) where
  pub gather_context-drafts :
      (s s' : ReviewState)
      → gather_context_node sessions model settings note_text now s ≡ some s'
      → s'.drafts ≡ s.drafts
  gather_context-drafts s s' e =
      on_some (λ (x : ReviewState). x.drafts ≡ s.drafts) e (kept sessions.gathered)
    where
      kept :
          (o : Option (ReviewContext × Option ℕ))
          → OnSome
              (λ (x : ReviewState). x.drafts ≡ s.drafts)
              (with_gathered sessions model settings note_text now s o)
      kept none = tt
      kept (some (ctx, targets_id)) = refl

  pub context_adjust-Drafted :
      (s s' : ReviewState)
      → context_adjust_node sessions model settings note_text now s ≡ some s'
      → Drafted s.drafts s'.drafts
  unfolding context_adjust_node
  context_adjust-Drafted s s' e =
      on_some (λ (x : ReviewState). Drafted s.drafts x.drafts) e
        (by_market s.context.market_context)
    where
      sized :
          (o : Option (List DraftSizeAdjustment))
          → OnSome
              (λ (x : ReviewState). Drafted s.drafts x.drafts)
              (with_sizes sessions model settings note_text now s o)
      sized none = tt
      sized (some items) = adjust_from-Drafted s.context settings note_text items s.drafts

      by_market :
          (o : Option MarketContext)
          → OnSome
              (λ (x : ReviewState). Drafted s.drafts x.drafts)
              (context_adjust_if sessions model settings note_text now s o)
      by_market none = adjust_from-Drafted s.context settings note_text [] s.drafts
      by_market (some market) = sized (model.sizes s.context s.drafts)

  pub reason-drafts :
      (s s' : ReviewState)
      → reason_node sessions model settings note_text now s ≡ some s'
      → s'.drafts ≡ s.drafts
  unfolding reason_node
  reason-drafts s s' e =
      on_some (λ (x : ReviewState). x.drafts ≡ s.drafts) e
        (by_missing (missing_from s.rationales 0 s.drafts))
    where
      told :
          (o : Option (List DraftRationale))
          → OnSome (λ (x : ReviewState). x.drafts ≡ s.drafts) (with_reasons s o)
      told none = tt
      told (some items) = refl

      by_missing :
          (missing : List ℕ)
          → OnSome
              (λ (x : ReviewState). x.drafts ≡ s.drafts)
              (reason_if sessions model settings note_text now s missing)
      by_missing [] = refl
      by_missing (i ∷ missing) = told (model.reasons s.context s.drafts (i ∷ missing))

  pub critic-drafts :
      (s s' : ReviewState)
      → critic_node sessions model settings note_text now s ≡ some s'
      → s'.drafts ≡ s.drafts
  unfolding critic_node
  critic-drafts s s' e =
      on_some (λ (x : ReviewState). x.drafts ≡ s.drafts) e
        (judged (model.verdicts s.context s.drafts s.rationales))
    where
      judged :
          (o : Option (List CriticDecision))
          → OnSome
              (λ (x : ReviewState). x.drafts ≡ s.drafts)
              (with_verdicts sessions model settings note_text now s o)
      judged none = tt
      judged (some items) = refl

  -- The final rows come from the drafts, and with the rejections they are no more.
  abbrev pub Finals : List SuggestionRow → ReviewState → Type 0
  Finals ds s = All (IsFrom ds) s.finals × (length s.finals + length s.rejections ≤ length ds)

  pub revise-Finals :
      (s s' : ReviewState)
      → revise_node sessions model settings note_text now s ≡ some s'
      → Finals s.drafts s'
  revise-Finals s s' e =
      let (kept, finals, _, _, comes, _, _, count) =
        revise_node-Revises sessions model settings note_text now s s' e in
      (
        rw finals (
            All-of_rows (IsFrom s.drafts) kept (
              All-map (Comes (Survives s.context s.critic_decisions) 0 s.drafts)
                (λ k. IsFrom s.drafts k.1)
                (λ kr (d, at, same).
                  (d, Has-get_elem? s.drafts (kr.0 - 0) d at.1, same.0.0, same.0.1, same.0.2))
                kept comes)),
        omega (arith, ap length finals, length-rows kept, count),
      )
