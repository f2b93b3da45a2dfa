-- ===== src/Reconciliation/Choosing.antt =====
-- How rules 2 and 3 of `reconcile_activities` in services/reconciliation.py choose a suggestion.
use me_invest_paper.Base.{
  ℕ, ◌≤◌, ◌≡◌, refl, ◌∙◌, ◌⊎◌, inl, inr, none, some, List, [], ◌∷◌, ltb, arith, length, All, Has,
  Bool-cases,
}
use me_invest_paper.Store.{Suggestion, MatchMethod}
use me_invest_paper.Broker.{Activity}
use me_invest_paper.Reconciliation.Matching.{MatchResult, mismatch, nearer, closest, choose}

nearer_lem :
    (act : Activity) (s t : Suggestion)
    → ((nearer act s t ≡ t) ⊎ (nearer act s t ≡ s))
      × (mismatch act (nearer act s t) ≤ mismatch act s)
      × (mismatch act (nearer act s t) ≤ mismatch act t)
nearer_lem act s t = elim (Bool-cases (ltb (mismatch act t) (mismatch act s))) [
  | inl e ↦ rw e (inl refl, ground arith, omega arith)
  | inr e ↦ rw e (inr refl, omega arith, ground arith)
]

-- The best of the candidates is one of them, and none is nearer.
closest-Has :
    (act : Activity) (s : Suggestion) (ss : List Suggestion) → Has (closest act s ss) (s ∷ ss)
closest-Has act s [] = inl refl
closest-Has act s (t ∷ ss) = elim (closest-Has act (nearer act s t) ss) [
  | inr h ↦ inr (inr h)
  | inl h ↦ elim (nearer_lem act s t).0 [ inl e ↦ inr (inl (h ∙ e)) | inr e ↦ inl (h ∙ e) ]
]

abbrev pub IsNearest : Activity → Suggestion → List Suggestion → Type 0
IsNearest act s ss = All (λ x. mismatch act s ≤ mismatch act x) ss

closest-IsNearest :
    (act : Activity) (s : Suggestion) (ss : List Suggestion)
    → (mismatch act (closest act s ss) ≤ mismatch act s) × IsNearest act (closest act s ss) ss
closest-IsNearest act s [] = (omega arith, tt)
closest-IsNearest act s (t ∷ ss) =
    let (_, below_s, below_t) = nearer_lem act s t in
    let (le, all) = closest-IsNearest act (nearer act s t) ss in
    (trans le below_s, (trans le below_t, all))
  where
    trans : {a b c : ℕ} → a ≤ b → b ≤ c → a ≤ c
    trans h k = omega arith

-- What rules 2 and 3 say of a fill, by the suggestions that it may belong to.
abbrev pub IsByRules : List Suggestion → MatchResult → Type 0
IsByRules plausible r =
    ((length plausible ≡ 0)
      × (r.suggestion_id ≡ none)
      × (r.method ≡ MatchMethod.untracked)
      × (r.confidence ≡ 0))
    ⊎ ((s : Suggestion) × Has s plausible
        × IsNearest r.activity s plausible
        × (r.suggestion_id ≡ some s.id)
        × (((length plausible ≡ 1) × (r.method ≡ MatchMethod.auto_matched) × (r.confidence ≡ 90))
            ⊎ ((2 ≤ length plausible)
                × (r.method ≡ MatchMethod.manual_review)
                × (r.confidence ≡ 50))))

pub choose-IsByRules :
    (act : Activity) (l : List Suggestion)
    → ((choose act l).activity ≡ act) × IsByRules l (choose act l)
unfolding choose
choose-IsByRules act [] = (refl, inl (refl, refl, refl, refl))
choose-IsByRules act (s ∷ []) =
    (refl, inr (s, inl refl, (omega arith, tt), refl, inl (refl, refl, refl)))
choose-IsByRules act (s ∷ t ∷ ss) = (
  refl,
  inr (
    closest act s (t ∷ ss),
    closest-Has act s (t ∷ ss),
    closest-IsNearest act s (t ∷ ss),
    refl,
    inr (omega arith, refl, refl),
  ),
)
