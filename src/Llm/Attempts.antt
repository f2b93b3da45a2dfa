-- ===== src/Llm/Attempts.antt =====
-- How often `_run_with_retry` of services/llm.py calls the provider.
use me_invest_paper.Base.{
  ℕ, zero, suc, ◌≤◌, ◌≡◌, refl, ap, ◌⊎◌, inl, inr, true, false, arith, Bool-cases,
}
use me_invest_paper.Llm.Retry.{
  Failure, is_transient, Attempt, done, failed, settle_attempt, attempts, run_with_retry,
}

module _ {W R : Type 0} (fn : W → Attempt R × W) where
  -- So many attempts fail for a transient reason, and the next one gives the outcome.
  abbrev pub EndsAfter : ℕ → W → Attempt R × W → Type 0
  EndsAfter zero w out = fn w ≡ out
  EndsAfter (suc k) w out =
      (e : Failure) × (w' : W) × (fn w ≡ (failed e, w'))
      × (is_transient e ≡ true)
      × EndsAfter k w' out

  -- An answer, a failure that is not transient, or the last attempt.
  abbrev pub IsFinal : ℕ → ℕ → Attempt R → Type 0
  IsFinal k left (done r) = Unit
  IsFinal k left (failed e) = (is_transient e ≡ false) ⊎ (k ≡ left)

  abbrev pub Ended : ℕ → W → Attempt R × W → Type 0
  Ended left w out = (k : ℕ) × (k ≤ left) × EndsAfter k w out × IsFinal k left out.0

  IsFinal-last : (a : Attempt R) → IsFinal 0 0 a
  IsFinal-last (done r) = tt
  IsFinal-last (failed e) = inr refl

  IsFinal-more : (k left : ℕ) (a : Attempt R) → IsFinal k left a → IsFinal (suc k) (suc left) a
  IsFinal-more k left (done r) h = tt
  IsFinal-more k left (failed e) (inl h) = inl h
  IsFinal-more k left (failed e) (inr h) = inr (ap suc h)

  settle-Ended :
      (left : ℕ) (w : W) (first further : Attempt R × W)
      → fn w ≡ first
      → Ended left first.1 further
      → Ended (suc left) w (settle_attempt first further)
  settle-Ended left w (done r, w') further e h = (0, omega arith, e, tt)
  settle-Ended left w (failed x, w') further e (k, fits, ends, final) =
      elim (Bool-cases (is_transient x)) [
        | inl again ↦
            rw again
              (suc k, omega arith, (x, w', e, again, ends), IsFinal-more k left further.0 final)
        | inr stop ↦ rw stop (0, omega arith, e, inl stop)
      ]

  attempts-Ended : (left : ℕ) (w : W) → Ended left w (attempts fn left w)
  unfolding attempts
  attempts-Ended zero w = (0, omega arith, refl, IsFinal-last (fn w).0)
  attempts-Ended (suc left) w =
      settle-Ended left w (fn w) (attempts fn left (fn w).1) refl (attempts-Ended left (fn w).1)

  -- The provider is called at most three times. All calls but the last fail for a transient reason,
  -- the outcome is that of the last one, and this one is an answer, fails for a reason that is not
  -- transient, or is the third.
  pub run_with_retry-Ended : (w : W) → Ended 2 w (run_with_retry fn w)
  unfolding run_with_retry
  run_with_retry-Ended w = attempts-Ended 2 w
