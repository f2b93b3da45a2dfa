-- ===== src/Review/Running.antt =====
-- How a run of the graph of graphs/suggestion_review.py ends.
use me_invest_paper.Base.{
  ℕ, ◌≡◌, refl, ap, ◌∙◌, ◌⊎◌, inl, inr, sym, List, [], ◌∷◌, All, All-map, Has, arith, Bool, true,
  false, Option, some, Bool-cases, Option-cases, if◌then◌else◌,
}
use me_invest_paper.Store.{Text, Db}
use me_invest_paper.Suggest.Persist.{SuggestionRow}
use mathlib.Core.Path.{subst}
use me_invest_paper.Review.Origins.{
  Drafted, Finals, All-IsFrom_self, IsFrom-trans, gather_context-drafts, context_adjust-Drafted,
  reason-drafts, critic-drafts, revise-Finals,
}
use me_invest_paper.Review.Sizing.{Settings, DraftSizeAdjustment}
use me_invest_paper.Review.Critic.{route_after_critic}
use me_invest_paper.Review.Graph.{
  Sessions, ReviewState, Model, Node, gather_context, context_adjust, reason, critic, revise,
  skip_revise, finalize, finish, Run, finished, raised, gather_context_node, context_adjust_node,
  reason_node, critic_node, revise_node, skip_revise_node, finalize_node, beside, enter,
  run_suggestion_review,
}
use me_invest_paper.Review.Steps.{go, go-raised, go_next, go-finalize}

-- Whether a node can raise.
abbrev pub can_raise : Node → Bool
can_raise skip_revise = false
can_raise finish = false
can_raise _ = true

All-Has_self : (ds : List SuggestionRow) → All (λ d. Has d ds) ds
All-Has_self [] = tt
All-Has_self (d ∷ ds) =
    (inl refl, All-map (λ e. Has e ds) (λ e. Has e (d ∷ ds)) (λ e m. inr m) ds (All-Has_self ds))

module _ (sessions : Sessions) (model : Model) (settings : Settings)
    (note_text : SuggestionRow → Option DraftSizeAdjustment → Text) (now : ℕ) where
  -- The revision, or the node that passes it over, as the verdicts ask.
  abbrev pub IsRouted : ReviewState → ReviewState → Type 0
  IsRouted s₃ s₄ =
      ((route_after_critic s₃.critic_decisions ≡ true)
        × (revise_node sessions model settings note_text now s₃ ≡ some s₄))
      ⊎ ((route_after_critic s₃.critic_decisions ≡ false)
          × (s₄ ≡ skip_revise_node sessions model settings note_text now s₃))

  -- What the run of the nodes in a row gives, each on the state that the one before left.
  abbrev pub Finishes : ReviewState → Db → Run → Type 0
  Finishes s db run =
      (s₀ : ReviewState) × (s₁ : ReviewState) × (s₂ : ReviewState) × (s₃ : ReviewState)
      × (s₄ : ReviewState) × (gather_context_node sessions model settings note_text now s ≡ some s₀)
      × (context_adjust_node sessions model settings note_text now s₀ ≡ some s₁)
      × (reason_node sessions model settings note_text now s₁ ≡ some s₂)
      × (critic_node sessions model settings note_text now s₂ ≡ some s₃)
      × IsRouted s₃ s₄
      × Finals sessions model settings note_text now s.drafts s₄
      × (run
          ≡ finished (finalize_node sessions model settings note_text now s₄ db).0
              (finalize_node sessions model settings note_text now s₄ db).1)

  abbrev pub Fails : Db → Run → Type 0
  Fails db run = (node : Node) × (can_raise node ≡ true) × (run ≡ raised node db)

  routed-Finals :
      (s₃ s₄ : ReviewState)
      → IsRouted s₃ s₄
      → Finals sessions model settings note_text now s₃.drafts s₄
  routed-Finals s₃ s₄ (inl (asked, e)) = revise-Finals sessions model settings note_text now s₃ s₄ e
  routed-Finals s₃ s₄ (inr (calm, e)) =
      subst (Finals sessions model settings note_text now s₃.drafts) (sym e)
        (All-IsFrom_self s₃.drafts s₃.drafts (All-Has_self s₃.drafts), omega arith)

  -- The final rows come from the drafts that the run began with.
  final_rows :
      (s s₀ s₁ s₂ s₃ s₄ : ReviewState)
      → gather_context_node sessions model settings note_text now s ≡ some s₀
      → context_adjust_node sessions model settings note_text now s₀ ≡ some s₁
      → reason_node sessions model settings note_text now s₁ ≡ some s₂
      → critic_node sessions model settings note_text now s₂ ≡ some s₃
      → IsRouted s₃ s₄
      → Finals sessions model settings note_text now s.drafts s₄
  final_rows s s₀ s₁ s₂ s₃ s₄ e₀ e₁ e₂ e₃ way =
      let unchanged =
        critic-drafts sessions model settings note_text now s₂ s₃ e₃
        ∙ reason-drafts sessions model settings note_text now s₁ s₂ e₂ in
      let (from, fewer) =
        subst (λ ds. Drafted ds s₁.drafts)
          (gather_context-drafts sessions model settings note_text now s s₀ e₀)
          (context_adjust-Drafted sessions model settings note_text now s₀ s₁ e₁) in
      let (finals, count) =
        subst (λ ds. Finals sessions model settings note_text now ds s₄) unchanged
          (routed-Finals s₃ s₄ way) in
      (IsFrom-trans s.drafts s₁.drafts s₄.finals from finals, omega arith)

  go-critic :
      (s s' : ReviewState) (db : Db)
      → enter sessions model settings note_text now critic s db ≡ some (s', db)
      → go sessions model settings note_text now 3 critic s db
        ≡ go sessions model settings note_text now 2
            (if route_after_critic s'.critic_decisions then revise else skip_revise)
            s'
            db
  go-critic s s' db e = elim (Bool-cases (route_after_critic s'.critic_decisions)) [
    | inl asked ↦ rw asked (
        go_next sessions model settings note_text now 2 critic revise s s' db db e (rw asked refl)
          refl)
    | inr calm ↦ rw calm (
        go_next sessions model settings note_text now 2 critic skip_revise s s' db db e
          (rw calm refl) refl)
  ]

  -- The run from the critic's answer.
  go_on :
      (s₃ : ReviewState) (db : Db)
      → let next = if route_after_critic s₃.critic_decisions then revise else skip_revise in
        (go sessions model settings note_text now 2 next s₃ db ≡ raised revise db)
        ⊎ ((s₄ : ReviewState) × IsRouted s₃ s₄
            × (go sessions model settings note_text now 2 next s₃ db
                ≡ go sessions model settings note_text now 1 finalize s₄ db))
  go_on s₃ db = elim (Bool-cases (route_after_critic s₃.critic_decisions)) [
    | inr calm ↦
        let s₄ = skip_revise_node sessions model settings note_text now s₃ in
        rw calm (
          inr (
            s₄,
            inr (refl, refl),
            go_next sessions model settings note_text now 1 skip_revise finalize s₃ s₄ db db refl
                refl refl,
          ))
    | inl asked ↦ elim (Option-cases (revise_node sessions model settings note_text now s₃)) [
      | inl e ↦ rw asked (
          inl (
            go-raised sessions model settings note_text now 1 revise s₃ db
              (ap (beside sessions model settings note_text now db) e)))
      | inr (s₄, e) ↦ rw asked (
          inr (
            s₄,
            inl (refl, e),
            go_next sessions model settings note_text now 1 revise finalize s₃ s₄ db db
                (ap (beside sessions model settings note_text now db) e) refl refl,
          ))
    ]
  ]

  -- The run from the critic on, with what stands behind it.
  from_critic :
      (s s₀ s₁ s₂ : ReviewState) (db : Db)
      → gather_context_node sessions model settings note_text now s ≡ some s₀
      → context_adjust_node sessions model settings note_text now s₀ ≡ some s₁
      → reason_node sessions model settings note_text now s₁ ≡ some s₂
      → Fails db (go sessions model settings note_text now 3 critic s₂ db)
        ⊎ Finishes s db (go sessions model settings note_text now 3 critic s₂ db)
  from_critic s s₀ s₁ s₂ db e₀ e₁ e₂ =
      elim (Option-cases (critic_node sessions model settings note_text now s₂)) [
        | inl e₃ ↦ inl (
          critic,
          refl,
          go-raised sessions model settings note_text now 2 critic s₂ db
              (ap (beside sessions model settings note_text now db) e₃),
        )
        | inr (s₃, e₃) ↦
            let r₃ = go-critic s₂ s₃ db (ap (beside sessions model settings note_text now db) e₃) in
            elim (go_on s₃ db) [
              | inl e₄ ↦ inl (revise, refl, r₃ ∙ e₄)
              | inr (s₄, way, r₄) ↦
                  let rows = final_rows s s₀ s₁ s₂ s₃ s₄ e₀ e₁ e₂ e₃ way in
                  elim (Bool-cases (sessions.commits db)) [
                    | inr fails ↦ inl (
                      finalize,
                      refl,
                      r₃
                          ∙ r₄
                          ∙ go-finalize sessions model settings note_text now 0 s₄ db
                          ∙ rw fails refl,
                    )
                    | inl commits ↦ inr (
                      s₀,
                      s₁,
                      s₂,
                      s₃,
                      s₄,
                      e₀,
                      e₁,
                      e₂,
                      e₃,
                      way,
                      rows,
                      r₃
                          ∙ r₄
                          ∙ go-finalize sessions model settings note_text now 0 s₄ db
                          ∙ rw commits refl,
                    )
                  ]
            ]
      ]

  -- The review always ends: it runs out of no fuel. It ends with an exception in any node but the one
  -- that passes the revision over, and then the tables are as they were, the log of the model's calls
  -- apart; or it went through the nodes in their order, by the revision exactly when the verdicts ask
  -- for a change, and ended by writing the final rows. Each final row is then for the ticker, the side
  -- and the kind of a draft that the run began with, and the final rows and the rejections together are
  -- no more than those drafts.
  pub run_suggestion_review-ends :
      (s : ReviewState) (db : Db)
      → let run = run_suggestion_review sessions model settings note_text now s db in
        Fails db run ⊎ Finishes s db run
  unfolding run_suggestion_review
  run_suggestion_review-ends s db =
      elim (Option-cases (gather_context_node sessions model settings note_text now s)) [
        | inl e₀ ↦ inl (
          gather_context,
          refl,
          go-raised sessions model settings note_text now 5 gather_context s db
              (ap (beside sessions model settings note_text now db) e₀),
        )
        | inr (s₀, e₀) ↦
            let r₀ =
              go_next sessions model settings note_text now 5 gather_context context_adjust s s₀ db
                db (ap (beside sessions model settings note_text now db) e₀) refl refl in
            elim (Option-cases (context_adjust_node sessions model settings note_text now s₀)) [
              | inl e₁ ↦ inl (
                context_adjust,
                refl,
                r₀
                    ∙ go-raised sessions model settings note_text now 4 context_adjust s₀ db
                        (ap (beside sessions model settings note_text now db) e₁),
              )
              | inr (s₁, e₁) ↦
                  let r₁ =
                    r₀
                    ∙ go_next sessions model settings note_text now 4 context_adjust reason s₀ s₁ db
                        db (ap (beside sessions model settings note_text now db) e₁) refl refl in
                  elim (Option-cases (reason_node sessions model settings note_text now s₁)) [
                    | inl e₂ ↦ inl (
                      reason,
                      refl,
                      r₁
                          ∙ go-raised sessions model settings note_text now 3 reason s₁ db
                              (ap (beside sessions model settings note_text now db) e₂),
                    )
                    | inr (s₂, e₂) ↦
                        let r₂ =
                          r₁
                          ∙ go_next sessions model settings note_text now 3 reason critic s₁ s₂ db
                              db (ap (beside sessions model settings note_text now db) e₂) refl
                              refl in
                        subst (λ run. Fails db run ⊎ Finishes s db run) (sym r₂)
                          (from_critic s s₀ s₁ s₂ db e₀ e₁ e₂)
                  ]
            ]
      ]
