-- ===== src/AutoTrade/Loop.antt =====
-- How the loop of `run_auto_trade_pass` in services/auto_trade.py goes on behind a round.
use me_invest_paper.Base.{
  ◌≡◌, refl, ap, ◌∙◌, ◌≢◌, ℕ, Option, none, some, if◌then◌else◌, List, [], ◌∷◌, ◌++◌, ◌⊎◌, inl, inr,
  arith, All, All-filter,
}
use me_invest_paper.Store.{Suggestion, Mode, Caps}
use me_invest_paper.AutoTrade.State.{State, Env, ok, raised, Result-cases}
use me_invest_paper.AutoTrade.Guards.{is_dry_run, guards}
use me_invest_paper.AutoTrade.Round.{
  Outcome, Round, next, break, refused_as, guard, dry_run_round, live_round, conclude, round,
}
use me_invest_paper.AutoTrade.Pass.{rounds, run_auto_trade_pass}
use me_invest_paper.AutoTrade.Queries.{get_mode, get_active_caps, fetch_accepted_unexecuted}
use me_invest_paper.Calendar.{date_of}

Mode-cases : (m : Mode) → (m ≡ Mode.off) ⊎ (m ≡ Mode.dry_run) ⊎ (m ≡ Mode.live)
Mode-cases Mode.off = inl refl
Mode-cases Mode.dry_run = inr (inl refl)
Mode-cases Mode.live = inr (inr refl)

Round-cases : (r : Round) → ((o : Outcome) × (r ≡ next o)) ⊎ ((o : Outcome) × (r ≡ break o))
Round-cases (next o) = inl (o, refl)
Round-cases (break o) = inr (o, refl)

module _ {W : Type 0} (env : Env W) (caps : Option Caps) (mode : Mode) (sug : Suggestion)
    (s : State W) where
  -- A failed guard never leaves a round.
  round_result :
      ((o : Round) × ((round env sug caps mode s).0 ≡ ok o))
      ⊎ ((round env sug caps mode s).0 ≡ raised)
  unfolding round
  round_result =
      let s' : State W = (guards env caps mode sug s).1 in
      elim (Result-cases (guards env caps mode sug s).0) [
        | inl (u, e) ↦ inl (
          (if is_dry_run mode then dry_run_round env sug s' else live_round env sug s').0,
          rw (e, round, conclude),
        )
        | inr (inl (g, e)) ↦
            inl
              (next (refused_as env sug (is_dry_run mode) none (guard g)), rw (e, round, conclude))
        | inr (inr e) ↦ inr (rw (e, round, conclude))
      ]

  pub rounds_cases :
      (rest : List Suggestion) (outcomes : List Outcome)
      → let (r, s') = round env sug caps mode s in
        let after = rounds env caps mode (sug ∷ rest) outcomes s in
        ((o : Outcome) × (r ≡ ok (next o))
          × (after ≡ rounds env caps mode rest (outcomes ++ o ∷ []) s'))
        ⊎ ((o : Outcome) × (r ≡ ok (break o)) × (after ≡ (ok (outcomes ++ o ∷ []), s')))
        ⊎ ((r ≡ raised) × (after ≡ (raised, s')))
  unfolding rounds
  rounds_cases rest outcomes = elim round_result [
    | inr e ↦ inr (inr (e, rw (e, rounds)))
    | inl (o, e) ↦ elim (Round-cases o) [
      | inl (out, e') ↦ inl (out, e ∙ ap ok e', rw (e ∙ ap ok e', rounds))
      | inr (out, e') ↦ inr (inl (out, e ∙ ap ok e', rw (e ∙ ap ok e', rounds)))
    ]
  ]

-- The suggestions that a pass goes through.
abbrev pub fetched : {W : Type 0} → Env W → Option ℕ → State W → List Suggestion
fetched env as_of s =
    fetch_accepted_unexecuted s.db env.account (elim as_of [ none ↦ date_of env.now | some d ↦ d ])

-- A pass does nothing, or it is the loop over them.
pub pass_cases :
    {W : Type 0} (env : Env W) (as_of : Option ℕ) (s : State W)
    → let mode = get_mode s.db env.account in
      ((mode ≡ Mode.off) × (run_auto_trade_pass env as_of s ≡ (ok [], s)))
      ⊎ ((mode ≢ Mode.off)
          × (run_auto_trade_pass env as_of s
              ≡ rounds env (get_active_caps s.db) mode (fetched env as_of s) [] s))
unfolding run_auto_trade_pass
pass_cases env as_of s = elim (Mode-cases (get_mode s.db env.account)) [
  | inl e ↦ inl (e, rw (e, run_auto_trade_pass))
  | inr (inl e) ↦ inr (ground arith, rw (e, run_auto_trade_pass))
  | inr (inr e) ↦ inr (ground arith, rw (e, run_auto_trade_pass))
]

-- An invariant of the state that each round keeps is kept by the pass.
module _ {W : Type 0} (env : Env W) (caps : Option Caps) (mode : Mode) (Inv : State W → Type 0)
    (P : Suggestion → Type 0)
    (step : (sug : Suggestion) (s : State W)
      → P sug
      → Inv s
      → Inv (round env sug caps mode s).1) where
  pub rounds_inv :
      (sugs : List Suggestion) (outcomes : List Outcome) (s : State W)
      → All P sugs
      → Inv s
      → Inv (rounds env caps mode sugs outcomes s).1
  unfolding rounds
  rounds_inv [] outcomes s ps h = h
  rounds_inv (sug ∷ sugs) outcomes s ps h =
      let s' : State W = (round env sug caps mode s).1 in
      let h' = step sug s ps.0 h in
      elim (rounds_cases env caps mode sug s sugs outcomes) [
        | inl (o, _, e) ↦ rw e (rounds_inv sugs (outcomes ++ o ∷ []) s' ps.1 h')
        | inr (inl (o, _, e)) ↦ rw e h'
        | inr (inr (_, e)) ↦ rw e h'
      ]

pub All-fetched :
    {W : Type 0} (P : Suggestion → Type 0) (env : Env W) (as_of : Option ℕ) (s : State W)
    → All P s.db.suggestions
    → All P (fetched env as_of s)
unfolding fetch_accepted_unexecuted
All-fetched P env as_of s ps = All-filter P _ _ (All-filter P _ s.db.suggestions ps)

pub pass_inv :
    {W : Type 0} (env : Env W) (as_of : Option ℕ) (s : State W) (Inv : State W → Type 0)
    (P : Suggestion → Type 0)
    → ((sug : Suggestion) (s' : State W)
        → P sug
        → Inv s'
        → Inv (round env sug (get_active_caps s.db) (get_mode s.db env.account) s').1)
    → All P s.db.suggestions
    → Inv s
    → Inv (run_auto_trade_pass env as_of s).1
pass_inv env as_of s Inv P step ps h = elim (pass_cases env as_of s) [
  | inl (_, e) ↦ rw e h
  | inr (_, e) ↦ rw e (
      rounds_inv env (get_active_caps s.db) (get_mode s.db env.account) Inv P step
        (fetched env as_of s) [] s (All-fetched P env as_of s ps) h)
]
