-- ===== src/Lifecycle/Requests.antt =====
-- The requests of main.py that change a suggestion move along the diagram.
use me_invest_paper.Base.{
  ℕ, ◌==◌, arith, ◌&&◌, ◌≡◌, refl, inl, inr, Bool, true, Option, none, List, Option-cases,
}
use me_invest_paper.Calendar.{next_monday}
use me_invest_paper.Base.Rows.{Distinct}
use me_invest_paper.Store.{
  is_accepted, Text, Side, SuggestionStatus, Execution, Db, accepted, pending,
}
use me_invest_paper.Broker.{Adapter}
use me_invest_paper.Accounts.{BrokerAccount}
use me_invest_paper.Unaccept.{UnacceptResult, get_suggestion}
use me_invest_paper.Web.Reply.{
  ok, require, token_auth, OnOk, on_ok, OnOk-guard, Reply-cases, all, resolve_scope,
}
use me_invest_paper.Web.Acting.{
  unaccept, is_action, require_token, patch_suggestion, suggestion_magic_link, unaccept_by_account,
  unaccept_act, admin_unaccept,
}
use me_invest_paper.Web.MagicLink.{verify_action}
use me_invest_paper.Web.Stopping.{
  is_member, has_side, Report, as_pending, admin_reset_week_buy_suggestions,
}
use me_invest_paper.Web.Resets.{
  has_fill, is_free, is_reset, IsWeekReset, admin_reset_week-IsWeekReset,
}
use me_invest_paper.Lifecycle.Diagram.{◌⟶◌, stay, reset}
use me_invest_paper.Lifecycle.Changes.{Goes, Goes-map}
use me_invest_paper.Lifecycle.Operations.{act-Goes, unaccept_suggestion-Goes}

pub patch-Goes :
    (token header : Text) (sid : ℕ) (action : Text) (note : Option Text) (now : ℕ) (db : Db)
    → OnOk
        (λ (r : SuggestionStatus × Db). Goes db r.1)
        (patch_suggestion token header sid action note now db)
unfolding patch_suggestion
patch-Goes token header sid action note now db =
    OnOk-guard (λ (r : SuggestionStatus × Db). Goes db r.1) (token_auth token header) _
      (OnOk-guard (λ (r : SuggestionStatus × Db). Goes db r.1) (require (is_action action) 400) _
        (act-Goes sid action note now db))

pub click-Goes :
    (hmac_hex : Text → Text → Text) (secret : Text) (sid : ℕ) (action token : Text) (now : ℕ)
    (db : Db)
    → OnOk
        (λ (r : SuggestionStatus × Db). Goes db r.1)
        (suggestion_magic_link hmac_hex secret sid action token now db)
unfolding suggestion_magic_link
click-Goes hmac_hex secret sid action token now db =
    OnOk-guard (λ (r : SuggestionStatus × Db). Goes db r.1) (require (is_action action) 400) _
      (OnOk-guard (λ (r : SuggestionStatus × Db). Goes db r.1)
        (require_token (verify_action hmac_hex sid action token secret now)) _
        (act-Goes sid action none now db))

module _ {W : Type 0} (adapters : ℕ → Option (Adapter W)) (now : ℕ) where
  abbrev pub After : Db → UnacceptResult × Db × W → Type 0
  After db (_, db', _) = Goes db db'

  by_account-Goes :
      (sid : ℕ) (db : Db) (w : W) → OnOk (After db) (unaccept_by_account adapters now sid db w)
  unfolding unaccept_by_account
  by_account-Goes sid db w = elim (Option-cases (get_suggestion sid db)) [
    | inl missing ↦ rw (missing, unaccept_by_account) tt
    | inr (sug, there) ↦ elim (Option-cases (adapters sug.broker_account_id)) [
      | inl unknown ↦ rw (there, unknown, unaccept_by_account) tt
      | inr (adapter, known) ↦
          rw (there, known, unaccept_by_account)
            (unaccept_suggestion-Goes adapter now sid sug.broker_account_id db w)
    ]
  ]

  pub mail-Goes :
      (hmac_hex : Text → Text → Text) (secret : Text) (sid : ℕ) (token : Text) (db : Db) (w : W)
      → OnOk (After db) (unaccept_act adapters now hmac_hex secret sid token db w)
  unfolding unaccept_act
  mail-Goes hmac_hex secret sid token db w =
      OnOk-guard (After db) (require_token (verify_action hmac_hex sid unaccept token secret now)) _
        (by_account-Goes sid db w)

  pub admin-Goes :
      (token header : Text) (sid : ℕ) (db : Db) (w : W)
      → OnOk (After db) (admin_unaccept adapters now token header sid db w)
  unfolding admin_unaccept
  admin-Goes token header sid db w =
      OnOk-guard (After db) (token_auth token header) _ (by_account-Goes sid db w)

accepted_pending : (s : SuggestionStatus) → is_accepted s ≡ true → s ⟶ pending
accepted_pending accepted h = reset
accepted_pending pending h = stay
accepted_pending SuggestionStatus.rejected h = cc
accepted_pending SuggestionStatus.cancelled h = cc
accepted_pending SuggestionStatus.expired h = cc
accepted_pending SuggestionStatus.filled h = cc

and_third : (a b c d e : Bool) → ((a && b && c && d) && e) ≡ true → c ≡ true
and_third a b c d e h = ground arith

module _ {W : Type 0} (adapters : ℕ → Option (Adapter W)) (rows : List BrokerAccount)
    (today : ℕ) where
  accepted_reset :
      (token header : Text) (side : Option Side) (account : Option ℕ) (refs : List ℕ) (db : Db)
      (w : W)
      → Distinct (λ (e : Execution). e.id) db.executions
      → resolve_scope rows account all ≡ ok refs
      → OnOk
          (λ (r : List ℕ × Report × Db × W). Goes db r.2)
          (admin_reset_week_buy_suggestions adapters rows today token header side account db w)
  accepted_reset token header side account refs db w distinct scope =
      let answer =
        admin_reset_week_buy_suggestions adapters rows today token header side account db w in
      elim (Reply-cases answer) [
        | inr (status, e) ↦ rw e tt
        | inl (r, e) ↦ rw e (λ numbered.
            let (suggestions, _, key) : IsWeekReset adapters rows today refs side db r =
              on_ok (IsWeekReset adapters rows today refs side db) e (
                admin_reset_week-IsWeekReset adapters rows today token header side account refs db w
                  numbered.0 distinct scope) in
            Goes-map (is_reset today refs side db) as_pending db r.2 (λ s. refl)
              (λ s chosen. accepted_pending s.status (
                and_third (is_member refs s.broker_account_id) (s.week_of == next_monday today)
                  (is_accepted s.status) (has_side side s.side) (is_free (has_fill db) s) chosen))
              (λ _. suggestions) key numbered)
      ]

  pub reset_week-Goes :
      (token header : Text) (side : Option Side) (account : Option ℕ) (db : Db) (w : W)
      → Distinct (λ (e : Execution). e.id) db.executions
      → OnOk
          (λ (r : List ℕ × Report × Db × W). Goes db r.2)
          (admin_reset_week_buy_suggestions adapters rows today token header side account db w)
  unfolding admin_reset_week_buy_suggestions
  reset_week-Goes token header side account db w distinct =
      elim (Reply-cases (resolve_scope rows account all)) [
        | inr (status, unknown) ↦ elim (Reply-cases (token_auth token header)) [
          | inr (code, refused) ↦ rw (refused, admin_reset_week_buy_suggestions) tt
          | inl (u, granted) ↦ rw (granted, unknown, admin_reset_week_buy_suggestions) tt
        ]
        | inl (refs, scope) ↦ accepted_reset token header side account refs db w distinct scope
      ]
