-- ===== src/Reconciliation/MatchingLaws.antt =====
-- What `reconcile_activities` of services/reconciliation.py promises.
use me_invest_paper.Base.{
  ℕ, ◌*◌, ◌≡◌, refl, ap, sym, subst, ◌∙◌, ◌⊎◌, inl, inr, ◌≢◌, Bool, true, ◌&&◌, none, some, List,
  [], ◌∷◌, map, ◌==◌, leb, arith, filter, present, All, Option-cases,
}
use me_invest_paper.Store.{Suggestion, Db, MatchMethod, is_accepted, same_side}
use me_invest_paper.Broker.{Activity}
use me_invest_paper.ClientId.{format, sug_dash, strip_prefix}
use me_invest_paper.ClientId.RoundTrip.{parse_suggestion_id-format}
use me_invest_paper.Reconciliation.Matching.{
  MatchResult, distance, is_within, is_candidate, candidates, choose, named_suggestion,
  match_activity, match_all, reconcile_activities,
}
use me_invest_paper.Reconciliation.Choosing.{IsByRules, choose-IsByRules}

strips : (sid retry : ℕ) → present (strip_prefix sug_dash (format sid retry)) ≡ true
unfolding format
strips sid retry = refl

module _ (hours tolerance : ℕ) where
  -- The suggestion agrees with the fill: its ticker, its side, its age and its price.
  abbrev pub is_plausible : Activity → ℕ → Suggestion → Bool
  is_plausible act at s =
      (s.ticker == act.ticker && same_side s.side act.side && is_within hours s.created_at at)
      && leb (distance act.filled_price s.limit_price * 10000) (tolerance * s.limit_price)

  is_candidate_lem :
      (act : Activity) (at : ℕ) (s : Suggestion)
      → s.limit_price ≢ 0
      → is_candidate hours tolerance act at s ≡ some (is_plausible act at s)
  unfolding is_candidate
  is_candidate_lem act at s h = ground arith

  candidates_lem :
      (act : Activity) (at : ℕ) (ss : List Suggestion)
      → All (λ s. s.limit_price ≢ 0) ss
      → candidates hours tolerance act at ss ≡ some (filter (is_plausible act at) ss)
  unfolding candidates
  candidates_lem act at [] h = refl
  candidates_lem act at (s ∷ ss) h =
      rw (is_candidate_lem act at s h.0, candidates_lem act at ss h.1, candidates) refl

  -- The result is one that the rules give for its activity.
  abbrev pub IsJustified : List Suggestion → MatchResult → Type 0
  IsJustified pending r =
      (at : ℕ) × (r.activity.filled_at ≡ some at)
      × (((sid : ℕ) × (named_suggestion r.activity.client_order_id ≡ some sid)
            × (r.suggestion_id ≡ some sid)
            × (r.method ≡ MatchMethod.auto_matched)
            × (r.confidence ≡ 100))
          ⊎ ((named_suggestion r.activity.client_order_id ≡ none)
              × IsByRules (filter (is_plausible r.activity at) pending) r))

  by_rules :
      (pending : List Suggestion) (act : Activity) (at : ℕ) (r : MatchResult)
      → r.activity ≡ act
      → act.filled_at ≡ some at
      → named_suggestion act.client_order_id ≡ none
      → IsByRules (filter (is_plausible act at) pending) r
      → IsJustified pending r
  by_rules pending act at r same filled unnamed rules = (
    at,
    ap (λ a. a.filled_at) same ∙ filled,
    inr (
      ap (λ a. named_suggestion a.client_order_id) same ∙ unnamed,
      subst (λ a. IsByRules (filter (is_plausible a at) pending) r) (sym same) rules,
    ),
  )

  module _ (pending : List Suggestion) (positive : All (λ s. s.limit_price ≢ 0) pending) where
    match_activity-IsJustified :
        (act : Activity) (at : ℕ)
        → act.filled_at ≡ some at
        → (r : MatchResult) × (match_activity hours tolerance pending act at ≡ some r)
          × (r.activity ≡ act)
          × IsJustified pending r
    unfolding match_activity
    match_activity-IsJustified act at filled =
        elim (Option-cases (named_suggestion act.client_order_id)) [
          | inr (sid, e) ↦
              rw (e, match_activity)
                (
                  record {
                    suggestion_id = some sid;
                    activity = act;
                    method = MatchMethod.auto_matched;
                    confidence = 100;
                  },
                  refl,
                  refl,
                  (at, filled, inl (sid, e, refl, refl, refl)),
                )
          | inl e ↦
              let plausible = filter (is_plausible act at) pending in
              let (same, rules) = choose-IsByRules act plausible in
              rw (e, candidates_lem act at pending positive, match_activity)
                (
                  choose act plausible,
                  refl,
                  same,
                  by_rules pending act at (choose act plausible) same filled e rules,
                )
        ]

    two_steps :
        (act : Activity) (acts : List Activity) (at : ℕ) (r : MatchResult) (rs : List MatchResult)
        → act.filled_at ≡ some at
        → match_activity hours tolerance pending act at ≡ some r
        → match_all hours tolerance pending acts ≡ some rs
        → match_all hours tolerance pending (act ∷ acts) ≡ some (r ∷ rs)
    unfolding match_all
    two_steps act acts at r rs filled found e = rw (filled, found, e, match_all) refl

    kept :
        (act : Activity) (acts : List Activity)
        → present act.filled_at ≡ true
        → filter (λ a. present a.filled_at) (act ∷ acts)
          ≡ act ∷ filter (λ a. present a.filled_at) acts
    kept act acts h = rw h refl

    match_all-IsJustified :
        (acts : List Activity)
        → (rs : List MatchResult) × (match_all hours tolerance pending acts ≡ some rs)
          × (map (λ r. r.activity) rs ≡ filter (λ act. present act.filled_at) acts)
          × All (IsJustified pending) rs
    unfolding match_all
    match_all-IsJustified [] = ([], refl, refl, tt)
    match_all-IsJustified (act ∷ acts) =
        let (rs, e, same, justified) = match_all-IsJustified acts in
        elim (Option-cases act.filled_at) [
          | inl skipped ↦ rw (skipped, e, match_all) (rs, refl, same, justified)
          | inr (at, filled) ↦
              let (r, found, its, rule) = match_activity-IsJustified act at filled in
              (
                r ∷ rs,
                two_steps act acts at r rs filled found e,
                ap (λ a. a ∷ map (λ x. x.activity) rs) its
                    ∙ ap (λ l. act ∷ l) same
                    ∙ sym (kept act acts (ap present filled)),
                (rule, justified),
              )
        ]

  -- Where no accepted suggestion of the account has a limit price of zero, the matching gives one
  -- result for each activity with a time of its fill, in their order, and each is the one of the
  -- rules: the suggestion that the client order id names, else the only plausible one, else a
  -- plausible one that no other is nearer than, to be reviewed, else none.
  pub reconcile_activities-IsJustified :
      (account : ℕ) (acts : List Activity) (db : Db)
      → let pending =
          filter (λ s. is_accepted s.status && s.broker_account_id == account) db.suggestions in
        All (λ s. s.limit_price ≢ 0) pending
        → (rs : List MatchResult) × (reconcile_activities hours tolerance account (some acts) db
            ≡ some rs)
          × (map (λ r. r.activity) rs ≡ filter (λ act. present act.filled_at) acts)
          × All (IsJustified pending) rs
  unfolding reconcile_activities
  reconcile_activities-IsJustified account acts db positive =
      match_all-IsJustified
        (filter (λ s. is_accepted s.status && s.broker_account_id == account) db.suggestions)
        positive acts

  named_suggestion-format : (sid retry : ℕ) → named_suggestion (some (format sid retry)) ≡ some sid
  unfolding named_suggestion
  named_suggestion-format sid retry =
      rw (strips sid retry, parse_suggestion_id-format sid retry, named_suggestion) refl

  match_by_name :
      (sid : ℕ) (pending : List Suggestion) (act : Activity) (at : ℕ)
      → named_suggestion act.client_order_id ≡ some sid
      → match_activity hours tolerance pending act at
        ≡ some (record {
          suggestion_id = some sid;
          activity = act;
          method = MatchMethod.auto_matched;
          confidence = 100;
        })
  unfolding match_activity
  match_by_name sid pending act at e = rw (e, match_activity) refl

  -- A fill that carries a client order id of the engine is matched to the suggestion that the id was
  -- made from, with full confidence, whatever else is in the table.
  pub match_activity-format :
      (sid retry : ℕ) (pending : List Suggestion) (act : Activity) (at : ℕ)
      → act.client_order_id ≡ some (format sid retry)
      → match_activity hours tolerance pending act at
        ≡ some (record {
          suggestion_id = some sid;
          activity = act;
          method = MatchMethod.auto_matched;
          confidence = 100;
        })
  unfolding match_activity
  match_activity-format sid retry pending act at e =
      match_by_name sid pending act at (ap named_suggestion e ∙ named_suggestion-format sid retry)
