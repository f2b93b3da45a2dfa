-- ===== src/Review/Rationales.antt =====
-- The rows, their rationales and the rejections of `revise_node` of graphs/suggestion_review.py.
use me_invest_paper.Base.{
  ℕ, ◌+◌, ◌≡◌, refl, ap, ◌≢◌, ◌⊎◌, inl, inr, ◌∙◌, sym, Bool, true, false, if◌then◌else◌, Option,
  none, some, List, [], ◌∷◌, map, arith, get_elem?, length, All, Option-cases,
}
use me_invest_paper.Store.{Text}
use me_invest_paper.Suggest.Persist.{SuggestionRow}
use me_invest_paper.Suggest.Budget.{OnSome, on_some}
use me_invest_paper.Review.Sizing.{ReviewContext, Settings, DraftSizeAdjustment, text_of}
use me_invest_paper.Review.Critic.{
  CriticDecision, Verdict, decision_at, Revision, raised, refused, revised, apply_changes,
  Rejection, Fate, crash, keep, drop, fate_of_revision, fate_by, fate, Revised, note_fate,
  revise_from,
}
use me_invest_paper.Review.Graph.{Sessions, ReviewState, Model, with_revised, revise_node}
use me_invest_paper.Review.Places.{Ascends, Comes-above, IsAt-head, Comes, Comes-tail}
use me_invest_paper.Review.Revisions.{
  IsSameOrder, IsSameOrder-refl, SameIfRevised, with_anchor-Same,
}

abbrev pub is_reject : Verdict → Bool
is_reject Verdict.reject = true
is_reject _ = false

abbrev pub is_rejected : Option CriticDecision → Bool
is_rejected none = false
is_rejected (some dec) = is_reject dec.verdict

abbrev pub rejection_of : SuggestionRow → Option CriticDecision → List Rejection → List Rejection
rejection_of d none rest = rest
rejection_of d (some dec) rest =
    if is_reject dec.verdict
    then record { ticker = d.ticker; side = d.side; reason = dec.reason } ∷ rest
    else rest

module _ (ctx : ReviewContext) (items : List CriticDecision) where
  -- The draft was not rejected.
  abbrev pub NotRejected : Option CriticDecision → Type 0
  NotRejected none = Unit
  NotRejected (some dec) = dec.verdict ≢ Verdict.reject

  -- The row is the draft, or the draft with the changes that the critic asks for.
  abbrev pub IsAsked : ℕ → SuggestionRow → SuggestionRow → Type 0
  IsAsked k d r =
      (r ≡ d)
      ⊎ ((dec : CriticDecision) × (decision_at k items ≡ some dec)
          × (dec.verdict ≡ Verdict.revise)
          × (apply_changes d dec.suggested_changes ctx ≡ revised r))

  abbrev pub Survives : ℕ → SuggestionRow → SuggestionRow → Type 0
  Survives k d r =
      IsSameOrder (ctx.scored_levels d.ticker) d r
      × NotRejected (decision_at k items)
      × IsAsked k d r

  abbrev SurvivesIf : ℕ → SuggestionRow → Fate → Type 0
  SurvivesIf k d crash = Unit
  SurvivesIf k d (drop x) =
      (is_rejected (decision_at k items) ≡ true)
      × ((rest : List Rejection) → rejection_of d (decision_at k items) rest ≡ x ∷ rest)
  SurvivesIf k d (keep r) =
      Survives k d r
      × (is_rejected (decision_at k items) ≡ false)
      × ((rest : List Rejection) → rejection_of d (decision_at k items) rest ≡ rest)

  -- A decision that does not reject.
  Stands : ℕ → SuggestionRow → Type 0
  Stands k d =
      NotRejected (decision_at k items)
      × (is_rejected (decision_at k items) ≡ false)
      × ((rest : List Rejection) → rejection_of d (decision_at k items) rest ≡ rest)

  revision-Survives :
      (k : ℕ) (d : SuggestionRow) (v : Revision)
      → Stands k d
      → ((r : SuggestionRow) → v ≡ revised r → IsAsked k d r)
      → SameIfRevised (ctx.scored_levels d.ticker) d v
      → SurvivesIf k d (fate_of_revision d v)
  unfolding Stands
  revision-Survives k d raised n asked h = tt
  revision-Survives k d refused (n, stands, none_new) asked h =
      ((IsSameOrder-refl (ctx.scored_levels d.ticker) d, n, inl refl), stands, none_new)
  revision-Survives k d (revised r) (n, stands, none_new) asked h =
      ((h, n, asked r refl), stands, none_new)

  fate_by-Survives :
      (k : ℕ) (d : SuggestionRow) (dec : CriticDecision) (v : Verdict)
      → dec.verdict ≡ v
      → decision_at k items ≡ some dec
      → SurvivesIf k d (fate_by ctx d dec v)
  unfolding apply_changes Stands
  fate_by-Survives k d dec Verdict.approve e at = (
    (IsSameOrder-refl (ctx.scored_levels d.ticker) d, rw at (λ r. cc), inl refl),
    rw (at, e) refl,
    λ rest. rw (at, e) refl,
  )
  fate_by-Survives k d dec Verdict.reject e at = (rw (at, e) refl, λ rest. rw (at, e) refl)
  fate_by-Survives k d dec Verdict.revise e at =
      revision-Survives k d (apply_changes d dec.suggested_changes ctx)
        (rw at (λ r. cc), rw (at, e) refl, λ rest. rw (at, e) refl)
        (λ r made. inr (dec, at, e, made))
        (with_anchor-Same (ctx.scored_levels d.ticker) d dec.suggested_changes
          dec.suggested_changes.anchor_method)

  fate-Survives : (k : ℕ) (d : SuggestionRow) → SurvivesIf k d (fate ctx items k d)
  unfolding fate
  fate-Survives k d = elim (Option-cases (decision_at k items)) [
    | inl silent ↦
        rw (silent, SurvivesIf)
          (
            (IsSameOrder-refl (ctx.scored_levels d.ticker) d, rw silent tt, inl refl),
            rw silent refl,
            λ rest. rw silent refl,
          )
    | inr (dec, at) ↦ rw (at, SurvivesIf) (fate_by-Survives k d dec dec.verdict refl at)
  ]

  -- The indices of the drafts that the critic does not reject.
  abbrev pub standing_from : ℕ → List SuggestionRow → List ℕ
  standing_from i [] = []
  standing_from i (d ∷ ds) =
      if is_rejected (decision_at i items)
      then standing_from (i + 1) ds
      else i ∷ standing_from (i + 1) ds

  -- The drafts that the critic rejects, with the reason it gives.
  abbrev pub rejected_from : ℕ → List SuggestionRow → List Rejection
  rejected_from i [] = []
  rejected_from i (d ∷ ds) = rejection_of d (decision_at i items) (rejected_from (i + 1) ds)

  -- What the loop leaves of the drafts from an index on.
  abbrev pub Leaves : ℕ → List SuggestionRow → Revised → Type 0
  Leaves i ds (kept, rejections) =
      Ascends kept
      × All (Comes Survives i ds) kept
      × (map (λ k. k.0) kept ≡ standing_from i ds)
      × (rejections ≡ rejected_from i ds)
      × (length kept + length rejections ≡ length ds)

  note_fate-Leaves :
      (i : ℕ) (d : SuggestionRow) (ds : List SuggestionRow) (x : Fate) (rest : Option Revised)
      → SurvivesIf i d x
      → OnSome (Leaves (i + 1) ds) rest
      → OnSome (Leaves i (d ∷ ds)) (note_fate i x rest)
  note_fate-Leaves i d ds crash rest h l = tt
  note_fate-Leaves i d ds (keep r) none h l = tt
  note_fate-Leaves i d ds (keep r) (some (kept, rejections)) (h, stands, none_new)
        (ascends, comes, indices, rejected, count) =
      (
        (Comes-above Survives i ds kept comes, ascends),
        ((d, IsAt-head i d ds, h), Comes-tail Survives i d ds kept comes),
        rw stands (ap (λ l. i ∷ l) indices),
        rejected ∙ sym (none_new (rejected_from (i + 1) ds)),
        omega arith,
      )
  note_fate-Leaves i d ds (drop x) none h l = tt
  note_fate-Leaves i d ds (drop x) (some (kept, rejections)) (gone, one_new)
        (ascends, comes, indices, rejected, count) =
      (
        ascends,
        Comes-tail Survives i d ds kept comes,
        rw gone indices,
        ap (λ l. x ∷ l) rejected ∙ sym (one_new (rejected_from (i + 1) ds)),
        omega arith,
      )

  revise_from-Leaves :
      (i : ℕ) (ds : List SuggestionRow) → OnSome (Leaves i ds) (revise_from ctx items i ds)
  unfolding revise_from
  revise_from-Leaves i [] = (tt, tt, refl, refl, refl)
  revise_from-Leaves i (d ∷ ds) =
      note_fate-Leaves i d ds (fate ctx items i d) (revise_from ctx items (i + 1) ds)
        (fate-Survives i d) (revise_from-Leaves (i + 1) ds)

module _ (sessions : Sessions) (model : Model) (settings : Settings)
    (note_text : SuggestionRow → Option DraftSizeAdjustment → Text) (now : ℕ) where
  -- What the revision does to the state.
  abbrev pub Revises : ReviewState → ReviewState → Type 0
  Revises s s' =
      (kept : List (ℕ × SuggestionRow)) × (s'.finals ≡ map (λ k. k.1) kept)
      × (map (λ k. k.0) kept ≡ standing_from s.context s.critic_decisions 0 s.drafts)
      × Ascends kept
      × All (Comes (Survives s.context s.critic_decisions) 0 s.drafts) kept
      × ((j k : ℕ) (r : SuggestionRow)
          → get_elem? kept j ≡ some (k, r)
          → s'.rationales j ≡ s.rationales k)
      × (s'.rejections ≡ rejected_from s.context s.critic_decisions 0 s.drafts)
      × (length kept + length s'.rejections ≡ length s.drafts)

  with_revised-Revises :
      (s : ReviewState) (o : Option Revised)
      → OnSome (Leaves s.context s.critic_decisions 0 s.drafts) o
      → OnSome (Revises s) (with_revised sessions model settings note_text now s o)
  with_revised-Revises s none h = tt
  with_revised-Revises s (some (kept, rejections)) (ascends, comes, indices, rejected, count) = (
    kept,
    refl,
    indices,
    ascends,
    comes,
    λ j k r at. ap (text_of s.rationales) at,
    rejected,
    count,
  )

  -- When the revision does not raise, it leaves one final row for each draft that the critic did not
  -- reject and none else, in their order, each with the rationale of its draft, and one rejection for
  -- each draft that the critic rejected and none else, in their order, with the draft's ticker and side
  -- and the critic's reason. A final row is its draft, or, where the critic asks to revise the draft,
  -- what the changes that it asks for make of it. It is of the ticker, the side and the kind of its
  -- draft, has the quantity of the draft or at least one share, and has the limit of the draft or one
  -- within a cent of a scored level of the ticker. The final rows and the rejections are as many as the
  -- drafts.
  pub revise_node-Revises :
      (s s' : ReviewState)
      → revise_node sessions model settings note_text now s ≡ some s'
      → Revises s s'
  unfolding revise_node
  revise_node-Revises s s' e = on_some (Revises s) e (
      with_revised-Revises s (revise_from s.context s.critic_decisions 0 s.drafts)
        (revise_from-Leaves s.context s.critic_decisions 0 s.drafts))
