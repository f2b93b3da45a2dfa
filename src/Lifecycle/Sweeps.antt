-- ===== src/Lifecycle/Sweeps.antt =====
-- The reconciliation and the sweeps move along the diagram.
use me_invest_paper.Base.{
  ℕ, ◌≡◌, refl, ◌∙◌, inl, inr, Bool, true, ◌&&◌, ◌||◌, Option, none, some, List, [], ◌∷◌, ◌==◌,
  arith, Bool-cases, Option-cases,
}
use me_invest_paper.Store.{
  Text, Suggestion, SuggestionStatus, pending, accepted, Db, is_pending, is_accepted,
  set_suggestion, truthy,
}
use me_invest_paper.Broker.{Adapter}
use me_invest_paper.Accounts.{
  BrokerAccount, AccountInfo, list_active_accounts, resolve_active_account_refs,
}
use me_invest_paper.Unaccept.{get_suggestion}
use me_invest_paper.Expiry.{
  as_expired, is_expired_at, cancel_first, cancel_if_any, sweep_accepted, sweep_pending,
  sweep_expired_suggestions, sweep_accounts, sweep_expired_suggestions_all_brokers,
}
use me_invest_paper.Expiry.Laws.{
  in_accounts, is_due_in, sweep_expired_suggestions_all_brokers-suggestions,
}
use me_invest_paper.Reconciliation.Matching.{MatchResult}
use me_invest_paper.Reconciliation.Persist.{
  fill_suggestion, flip, fill_row, upsert, persist_reconciliation, is_auto_matched,
  is_filled_activity,
}
use me_invest_paper.Reconciliation.PersistLaws.{upsert-suggestions}
use me_invest_paper.Reconciliation.Sync.{is_inferred, as_inferred, infer_each, infer_manual_cancels}
use me_invest_paper.Reconciliation.SyncLaws.{is_inferred_of, infer_manual_cancels_lem}
use me_invest_paper.Lifecycle.Diagram.{◌⟶◌, lapse, lapse_accepted, fill}
use me_invest_paper.Lifecycle.Changes.{Goes, Goes-trans, Goes-same, Goes-set, Goes-map}
use me_invest_paper.Lifecycle.Operations.{found_own, found_same, accepted_cancelled}

accepted_filled : (s : SuggestionStatus) → is_accepted s ≡ true → s ⟶ SuggestionStatus.filled
accepted_filled accepted h = fill
accepted_filled pending h = cc
accepted_filled SuggestionStatus.rejected h = cc
accepted_filled SuggestionStatus.cancelled h = cc
accepted_filled SuggestionStatus.expired h = cc
accepted_filled SuggestionStatus.filled h = cc

open_expired :
    (s : SuggestionStatus) (b c : Bool)
    → ((is_accepted s || is_pending s) && b && c) ≡ true
    → s ⟶ SuggestionStatus.expired
open_expired accepted b c h = lapse_accepted
open_expired pending b c h = lapse
open_expired SuggestionStatus.rejected b c h = cc
open_expired SuggestionStatus.cancelled b c h = cc
open_expired SuggestionStatus.expired b c h = cc
open_expired SuggestionStatus.filled b c h = cc

fill_suggestion-Goes : (sid : ℕ) (at : Option ℕ) (db : Db) → Goes db (fill_suggestion sid at db)
unfolding fill_suggestion
fill_suggestion-Goes sid at db = elim (Option-cases (get_suggestion sid db)) [
  | inl missing ↦ rw (missing, fill_suggestion) (Goes-same db db refl refl)
  | inr (sug, found) ↦ elim (Bool-cases (is_accepted sug.status)) [
    | inr other ↦ rw (found, other, fill_suggestion) (Goes-same db db refl refl)
    | inl open_one ↦
        rw (found, open_one, fill_suggestion)
          (Goes-set sug.id _ db (λ s. refl)
            (λ s again. accepted_filled s.status (
              found_same (λ x. is_accepted x.status ≡ true) (found_own sid sug db found) open_one
                again)))
  ]
]

flip-Goes : (r : MatchResult) (db : Db) → Goes db (flip r db)
unfolding flip
flip-Goes r db = elim (Option-cases r.suggestion_id) [
  | inl unmatched ↦ rw (unmatched, flip) (Goes-same db db refl refl)
  | inr (sid, matched) ↦
      elim (Bool-cases
        (truthy (some sid) && is_auto_matched r.method && is_filled_activity r.activity.status)) [
          | inl certain ↦
              rw (matched, certain, flip) (fill_suggestion-Goes sid r.activity.filled_at db)
          | inr doubtful ↦ rw (matched, doubtful, flip) (Goes-same db db refl refl)
        ]
]

module _ (broker : Text) (account now : ℕ) where
  upsert-next :
      (r : MatchResult) (db : Db)
      → (upsert broker account now r db).next_suggestion ≡ db.next_suggestion
  unfolding upsert fill_row
  upsert-next r db = ground arith

  pub persist_reconciliation-Goes :
      (rs : List MatchResult) (db : Db) → Goes db (persist_reconciliation broker account now rs db)
  unfolding persist_reconciliation
  persist_reconciliation-Goes [] db = Goes-same db db refl refl
  persist_reconciliation-Goes (r ∷ rs) db =
      let db₁ = upsert broker account now r db in
      let db₂ = flip r db₁ in
      let same : Goes db db₁ =
        Goes-same db db₁ (upsert-suggestions broker account now r db) (upsert-next r db) in
      let flipped : Goes db db₂ = Goes-trans {a = db} {b = db₁} {c = db₂} same (flip-Goes r db₁) in
      Goes-trans {a = db} {b = db₂} {c = persist_reconciliation broker account now rs db₂} flipped
        (persist_reconciliation-Goes rs db₂)

infer_each-next :
    (now hours : ℕ) (ss : List Suggestion) (db : Db)
    → (infer_each now hours ss db).1.next_suggestion ≡ db.next_suggestion
unfolding infer_each
infer_each-next now hours [] db = refl
infer_each-next now hours (s ∷ ss) db = ground (
  arith,
  infer_each-next now hours ss db,
  infer_each-next now hours ss (set_suggestion s.id (as_inferred now) db),
)

and_middle : (a b c : Bool) → ((a && b) && c) ≡ true → b ≡ true
and_middle a b c h = ground arith

pub infer_manual_cancels-Goes :
    (now hours account : ℕ) (db : Db) → Goes db (infer_manual_cancels now hours account db).1
unfolding infer_manual_cancels
infer_manual_cancels-Goes now hours account db =
    Goes-map (is_inferred_of now hours account db) (as_inferred now) db
      (infer_manual_cancels now hours account db).1 (λ s. refl)
      (λ s selected. accepted_cancelled s.status (
        and_middle (s.broker_account_id == account) (is_accepted s.status)
          (is_inferred now hours db s) selected))
      (λ distinct. (infer_manual_cancels_lem now hours account db distinct).1)
      (infer_each-next now hours _ db)

module _ {W : Type 0} (adapters : ℕ → Option (Adapter W)) (now : ℕ) where
  sweep_pending-next :
      (ss : List Suggestion) (db : Db)
      → (sweep_pending now ss db).next_suggestion ≡ db.next_suggestion
  unfolding sweep_pending
  sweep_pending-next [] db = refl
  sweep_pending-next (s ∷ ss) db = sweep_pending-next ss _

  cancel_if_any-next :
      (adapter : Option (Adapter W)) (sid : ℕ) (db : Db) (w : W)
      → (cancel_if_any adapter sid db w).0.next_suggestion ≡ db.next_suggestion
  unfolding cancel_if_any cancel_first
  cancel_if_any-next none sid db w = refl
  cancel_if_any-next (some adapter) sid db w = ground arith

  sweep_accepted-next :
      (adapter : Option (Adapter W)) (ss : List Suggestion) (db : Db) (w : W)
      → (sweep_accepted adapter now ss db w).0.next_suggestion ≡ db.next_suggestion
  unfolding sweep_accepted
  sweep_accepted-next adapter [] db w = refl
  sweep_accepted-next adapter (s ∷ ss) db w =
      let (db₁, w₁) = cancel_if_any adapter s.id db w in
      sweep_accepted-next adapter ss (set_suggestion s.id (as_expired now) db₁) w₁
      ∙ cancel_if_any-next adapter s.id db w

  sweep_accounts-next :
      (accounts : List AccountInfo) (db : Db) (w : W)
      → (sweep_accounts adapters now accounts db w).0.next_suggestion ≡ db.next_suggestion
  unfolding sweep_accounts sweep_expired_suggestions
  sweep_accounts-next [] db w = refl
  sweep_accounts-next (a ∷ accounts) db w =
      sweep_accounts-next accounts _ _
      ∙ sweep_pending-next _ _
      ∙ sweep_accepted-next (adapters a.account_ref) _ db w

  pub sweep_all-Goes :
      (rows : List BrokerAccount) (db : Db) (w : W)
      → Goes db (sweep_expired_suggestions_all_brokers adapters now rows db w).0
  unfolding sweep_expired_suggestions_all_brokers
  sweep_all-Goes rows db w =
      Goes-map (is_due_in now (resolve_active_account_refs rows)) (as_expired now) db
        (sweep_expired_suggestions_all_brokers adapters now rows db w).0 (λ s. refl)
        (λ s due.
          open_expired s.status (is_expired_at now s.expires_at)
            (in_accounts (resolve_active_account_refs rows) s) due)
        (λ distinct.
          sweep_expired_suggestions_all_brokers-suggestions adapters now rows db w distinct)
        (sweep_accounts-next (list_active_accounts rows) db w)
