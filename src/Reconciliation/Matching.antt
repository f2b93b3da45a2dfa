-- ===== src/Reconciliation/Matching.antt =====
-- `reconcile_activities` of services/reconciliation.py. A tolerance is a number of hundredths of a
-- percent, a confidence a number of hundredths.
use me_invest_paper.Base.{
  ℕ, zero, suc, ◌+◌, ◌-◌, ◌*◌, Bool, false, ◌&&◌, Option, none, some, List, [], ◌∷◌, ◌==◌, ltb, leb,
  filter, present, if◌then◌else◌,
}
use me_invest_paper.Store.{Text, Suggestion, Db, MatchMethod, is_accepted, same_side}
use me_invest_paper.Broker.{Activity}
use me_invest_paper.ClientId.{sug_dash, strip_prefix, parse_suggestion_id}

pub record MatchResult : Type 0 where
  pub suggestion_id : Option ℕ
  pub activity : Activity
  pub method : MatchMethod
  pub confidence : ℕ

-- `abs(a - b)`
abbrev pub distance : ℕ → ℕ → ℕ
distance a b = (a - b) + (b - a)

-- `0 <= (at - created).total_seconds() < hours * 3600`
abbrev pub is_within : ℕ → ℕ → ℕ → Bool
is_within hours created at = leb created at && ltb at (created + hours * 3600)

-- The division by a limit price of zero raises.
abbrev pub is_near : ℕ → ℕ → ℕ → Option Bool
is_near tolerance zero price = none
is_near tolerance (suc n) price = some (leb (distance price (suc n) * 10000) (tolerance * suc n))

-- The key of `min`: shares and dollars added up, here in ten-thousandths.
abbrev pub mismatch : Activity → Suggestion → ℕ
mismatch act s = distance s.qty act.filled_qty * 10000 + distance s.limit_price act.filled_price

-- The earlier one stays where the keys are equal.
abbrev pub nearer : Activity → Suggestion → Suggestion → Suggestion
nearer act best s = if ltb (mismatch act s) (mismatch act best) then s else best

-- The first of the suggestions with the least key, onto the best one so far.
abbrev pub closest : Activity → Suggestion → List Suggestion → Suggestion
closest act best [] = best
closest act best (s ∷ ss) = closest act (nearer act best s) ss

-- Rules 2 and 3, by the candidates.
unfoldable pub choose : Activity → List Suggestion → MatchResult
choose act [] = record {
  suggestion_id = none;
  activity = act;
  method = MatchMethod.untracked;
  confidence = 0;
}
choose act (s ∷ []) = record {
  suggestion_id = some s.id;
  activity = act;
  method = MatchMethod.auto_matched;
  confidence = 90;
}
choose act (s ∷ t ∷ ss) = record {
  suggestion_id = some (closest act s (t ∷ ss)).id;
  activity = act;
  method = MatchMethod.manual_review;
  confidence = 50;
}

-- Rule 1: the suggestion that a client order id names.
unfoldable pub named_suggestion : Option Text → Option ℕ
named_suggestion none = none
named_suggestion (some text) =
    if present (strip_prefix sug_dash text) then parse_suggestion_id text else none

module _ (hours tolerance : ℕ) where
  -- The condition of the comprehension, its last conjunct being reached only behind the others.
  unfoldable pub is_candidate : Activity → ℕ → Suggestion → Option Bool
  is_candidate act at s =
      if s.ticker == act.ticker && same_side s.side act.side && is_within hours s.created_at at
      then is_near tolerance s.limit_price act.filled_price
      else some false

  unfoldable pub candidates : Activity → ℕ → List Suggestion → Option (List Suggestion)
  candidates act at [] = some []
  candidates act at (s ∷ ss) = elim (is_candidate act at s) [
    | none ↦ none
    | some keep ↦ elim (candidates act at ss) [
      | none ↦ none
      | some rest ↦ some (if keep then s ∷ rest else rest)
    ]
  ]

  -- Rule 1, and the others where it finds nothing.
  unfoldable pub match_activity : List Suggestion → Activity → ℕ → Option MatchResult
  match_activity pending act at = elim (named_suggestion act.client_order_id) [
    | some sid ↦ some (record {
      suggestion_id = some sid;
      activity = act;
      method = MatchMethod.auto_matched;
      confidence = 100;
    })
    | none ↦ elim (candidates act at pending) [ none ↦ none | some found ↦ some (choose act found) ]
  ]

  -- The loop over the activities. Those without a time of the fill are skipped.
  unfoldable pub match_all : List Suggestion → List Activity → Option (List MatchResult)
  match_all pending [] = some []
  match_all pending (act ∷ acts) = elim act.filled_at [
    | none ↦ match_all pending acts
    | some at ↦ elim (match_activity pending act at) [
      | none ↦ none
      | some r ↦ elim (match_all pending acts) [ none ↦ none | some rs ↦ some (r ∷ rs) ]
    ]
  ]

  -- The activities are the broker's answer, `none` where the call raises.
  unfoldable pub reconcile_activities : ℕ → Option (List Activity) → Db → Option (List MatchResult)
  reconcile_activities account none db = none
  reconcile_activities account (some acts) db =
      match_all
        (filter (λ s. is_accepted s.status && s.broker_account_id == account) db.suggestions) acts
