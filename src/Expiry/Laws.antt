-- ===== src/Expiry/Laws.antt =====
-- Which suggestions the sweep of jobs/suggestion_expiry.py expires.
use me_invest_paper.Base.{
  ℕ, ◌≡◌, refl, ap, ◌∙◌, sym, subst, Bool, ◌&&◌, ◌||◌, Option, none, some, List, [], ◌∷◌, map, ◌==◌,
  any, arith, filter,
}
use me_invest_paper.Base.Rows.{Distinct, update}
use me_invest_paper.Base.Sweeps.{
  when, updates, updates-filter, map-when-Distinct, map-map, when-when, map-when-never,
}
use me_invest_paper.Store.{Suggestion, Db, set_suggestion, is_accepted, is_pending}
use me_invest_paper.Broker.{Adapter}
use me_invest_paper.Accounts.{
  BrokerAccount, AccountInfo, list_active_accounts, resolve_active_account_refs,
}
use me_invest_paper.Expiry.{
  is_expired_at, in_scope, is_stale, as_expired, cancel_first, cancel_if_any, sweep_accepted,
  sweep_pending, sweep_expired_suggestions, sweep_accounts, sweep_expired_suggestions_all_brokers,
}

-- What a sweep does to one suggestion.
abbrev pub is_due : Option ℕ → ℕ → Suggestion → Bool
is_due account now s =
    (is_accepted s.status || is_pending s.status)
    && is_expired_at now s.expires_at
    && in_scope account s

either_status : (a b c d : Bool) → ((a || b) && c && d) ≡ ((a && c && d) || (b && c && d))
either_status a b c d = ground arith

abbrev pub key : Suggestion → ℕ
key s = s.id

sweep_pending-suggestions :
    (now : ℕ) (sugs : List Suggestion) (db : Db)
    → (sweep_pending now sugs db).suggestions ≡ updates key (as_expired now) sugs db.suggestions
unfolding sweep_pending
sweep_pending-suggestions now [] db = refl
sweep_pending-suggestions now (sug ∷ sugs) db = sweep_pending-suggestions now sugs _

-- The scopes of a list of accounts together.
abbrev pub in_accounts : List ℕ → Suggestion → Bool
in_accounts refs s = any (λ ref. s.broker_account_id == ref) refs

-- What the sweep of the listed accounts does to one suggestion.
abbrev pub is_due_in : ℕ → List ℕ → Suggestion → Bool
is_due_in now refs s =
    (is_accepted s.status || is_pending s.status)
    && is_expired_at now s.expires_at
    && in_accounts refs s

due_cons :
    (now ref : ℕ) (refs : List ℕ) (s : Suggestion)
    → is_due_in now (ref ∷ refs) s ≡ (is_due (some ref) now s || is_due_in now refs s)
due_cons now ref refs s = ground arith

module _ {W : Type 0} where
  cancel_if_any-suggestions :
      (adapter : Option (Adapter W)) (sid : ℕ) (db : Db) (w : W)
      → (cancel_if_any adapter sid db w).0.suggestions ≡ db.suggestions
  unfolding cancel_if_any cancel_first
  cancel_if_any-suggestions none sid db w = refl
  cancel_if_any-suggestions (some adapter) sid db w = ground arith

  module _ (adapter : Option (Adapter W)) (now : ℕ) where
    sweep_accepted-suggestions :
        (sugs : List Suggestion) (db : Db) (w : W)
        → (sweep_accepted adapter now sugs db w).0.suggestions
          ≡ updates key (as_expired now) sugs db.suggestions
    unfolding sweep_accepted
    sweep_accepted-suggestions [] db w = refl
    sweep_accepted-suggestions (sug ∷ sugs) db w =
        let (db₁, w₁) = cancel_if_any adapter sug.id db w in
        sweep_accepted-suggestions sugs (set_suggestion sug.id (as_expired now) db₁) w₁
        ∙ ap (λ l. updates key (as_expired now) sugs (update key sug.id (as_expired now) l))
            (cancel_if_any-suggestions adapter sug.id db w)

    -- Where no key stands twice, the suggestions after a sweep are those before it, in their order, except that each accepted or
    -- pending one in the scope whose expiry has passed is now expired, with the time of the
    -- sweep, whatever the broker answers, be it that the order was filled.
    pub sweep_expired_suggestions-suggestions :
        (account : Option ℕ) (db : Db) (w : W)
        → Distinct key db.suggestions
        → (sweep_expired_suggestions adapter now account db w).0.suggestions
          ≡ map (when (is_due account now) (as_expired now)) db.suggestions
    unfolding sweep_expired_suggestions
    sweep_expired_suggestions-suggestions account db w distinct =
        let accepted_stale = is_stale is_accepted account now in
        let pending_stale = is_stale is_pending account now in
        let expire = as_expired now in
        let (db₁, w₁) = sweep_accepted adapter now (filter accepted_stale db.suggestions) db w in
        let after : db₁.suggestions ≡ map (when accepted_stale expire) db.suggestions =
          sweep_accepted-suggestions (filter accepted_stale db.suggestions) db w
          ∙ updates-filter key expire (λ _. refl) accepted_stale db.suggestions distinct in
        sweep_pending-suggestions now (filter pending_stale db₁.suggestions) db₁
        ∙ ap (λ l. updates key expire (filter pending_stale l) l) after
        ∙ updates-filter key expire (λ _. refl) pending_stale
            (map (when accepted_stale expire) db.suggestions)
            (map-when-Distinct key expire (λ _. refl) accepted_stale db.suggestions distinct)
        ∙ map-map (when accepted_stale expire) (when pending_stale expire)
            (when (is_due account now) expire) (expire_twice account) db.suggestions
      where
        expire_twice :
            (account : Option ℕ) (s : Suggestion)
            → when
                (is_stale is_pending account now)
                (as_expired now)
                (when (is_stale is_accepted account now) (as_expired now) s)
              ≡ when (is_due account now) (as_expired now) s
        expire_twice account s =
            when-when (is_stale is_accepted account now) (is_stale is_pending account now)
              (is_due account now) (as_expired now) s refl
              (either_status (is_accepted s.status) (is_pending s.status)
                (is_expired_at now s.expires_at) (in_scope account s))

  module _ (adapters : ℕ → Option (Adapter W)) (now : ℕ) where
    sweep_accounts-suggestions :
        (accounts : List AccountInfo) (db : Db) (w : W)
        → Distinct key db.suggestions
        → (sweep_accounts adapters now accounts db w).0.suggestions
          ≡ map
              (when (is_due_in now (map (λ a. a.account_ref) accounts)) (as_expired now))
              db.suggestions
    unfolding sweep_accounts
    sweep_accounts-suggestions [] db w distinct =
        map-when-never (is_due_in now []) (as_expired now) (λ s. ground arith) db.suggestions
    sweep_accounts-suggestions (acct ∷ accounts) db w distinct =
        let ref = acct.account_ref in
        let refs = map (λ a. a.account_ref) accounts in
        let expire = as_expired now in
        let (db₁, w₁) = sweep_expired_suggestions (adapters ref) now (some ref) db w in
        let after =
          sweep_expired_suggestions-suggestions (adapters ref) now (some ref) db w distinct in
        let distinct₁ =
          map-when-Distinct key expire (λ _. refl) (is_due (some ref) now) db.suggestions
            distinct in
        sweep_accounts-suggestions accounts db₁ w₁ (subst (Distinct key) (sym after) distinct₁)
        ∙ ap (map (when (is_due_in now refs) expire)) after
        ∙ map-map (when (is_due (some ref) now) expire) (when (is_due_in now refs) expire)
            (when (is_due_in now (ref ∷ refs)) expire)
            (λ s.
              when-when (is_due (some ref) now) (is_due_in now refs) (is_due_in now (ref ∷ refs))
                expire s refl (due_cons now ref refs s))
            db.suggestions

    -- Where no key stands twice, the sweep of all brokers expires the accepted and pending suggestions past their expiry of the
    -- active accounts, with an adapter for the account or without one, and leaves every
    -- suggestion else, those of the other accounts included, as it was.
    pub sweep_expired_suggestions_all_brokers-suggestions :
        (rows : List BrokerAccount) (db : Db) (w : W)
        → Distinct key db.suggestions
        → (sweep_expired_suggestions_all_brokers adapters now rows db w).0.suggestions
          ≡ map
              (when (is_due_in now (resolve_active_account_refs rows)) (as_expired now))
              db.suggestions
    unfolding sweep_expired_suggestions_all_brokers
    sweep_expired_suggestions_all_brokers-suggestions rows db w distinct =
        sweep_accounts-suggestions (list_active_accounts rows) db w distinct
