-- ===== src/Web/Once.antt =====
-- A suggestion is acted on once: what the endpoints of main.py say to the second request.
use me_invest_paper.Base.{
  ℕ, ◌≡◌, refl, ap, ◌∙◌, ◌≢◌, inl, inr, true, false, Option, none, some, ◌==◌, ==_iff, arith,
  Bool-cases, Option-cases,
}
use me_invest_paper.Base.Rows.{find-update}
use me_invest_paper.Store.{Text, Suggestion, SuggestionStatus, Db, is_pending}
use me_invest_paper.Unaccept.{get_suggestion}
use me_invest_paper.Web.Reply.{
  Reply, ok, http_error, ◌>>◌, require, token_auth, OnOk, on_ok, OnOk-map,
}
use me_invest_paper.Web.Acting.{
  is_action, status_of, act_on, act, patch_suggestion, require_token, suggestion_magic_link,
}
use me_invest_paper.Web.MagicLink.{verify_action}

-- The suggestion was acted on: it has the new status and the time, and no other row changed.
abbrev pub ActedOn : ℕ → Text → Option Text → ℕ → Db → SuggestionStatus × Db → Type 0
ActedOn sid action note now db (status, db') =
    (status ≡ status_of action)
    × ((sug : Suggestion) × (get_suggestion sid db ≡ some sug)
        × (is_pending sug.status ≡ true)
        × (get_suggestion sid db' ≡ some (act_on action note now sug)))
    × ((j : ℕ) → j ≢ sid → get_suggestion j db' ≡ get_suggestion j db)
    × (db'.executions ≡ db.executions)

act-ActedOn :
    (sid : ℕ) (action : Text) (note : Option Text) (now : ℕ) (db : Db)
    → OnOk (ActedOn sid action note now db) (act sid action note now db)
unfolding act
act-ActedOn sid action note now db = elim (Option-cases (get_suggestion sid db)) [
  | inl missing ↦ rw (missing, act) tt
  | inr (sug, there) ↦ elim (Bool-cases (is_pending sug.status)) [
    | inr closed ↦ rw (there, closed, act) tt
    | inl open_one ↦
        let behind = λ (j : ℕ).
          find-update (λ s. s.id) sid j (act_on action note now) (λ _. refl) db.suggestions in
        rw (there, open_one, act)
          (
            refl,
            (sug, there, open_one, behind sid ∙ rw ((==_iff sid sid).1 refl, there) refl),
            λ j other. behind j ∙ rw (not_same j other) refl,
            refl,
          )
  ]
]
  where
    not_same : (j : ℕ) → j ≢ sid → (sid == j) ≡ false
    not_same j other = ground arith

-- A suggestion that is not pending is refused.
act-closed :
    (sid : ℕ) (sug : Suggestion) (action : Text) (said : Option Text) (now : ℕ) (db : Db)
    → get_suggestion sid db ≡ some sug
    → is_pending sug.status ≡ false
    → act sid action said now db ≡ http_error 409
unfolding act
act-closed sid sug action said now db there closed = rw (there, closed, act) refl

status_of-closed : (action : Text) → is_pending (status_of action) ≡ false
status_of-closed action = ground arith

abbrev pub IsRefused : {A : Type 0} → Reply A → Type 0
IsRefused r = (status : ℕ) × (r ≡ http_error status)

IsRefused-guard :
    {A : Type 0} (m : Reply (Unit {0})) (k : Reply A) → IsRefused k → IsRefused (m >> k)
IsRefused-guard (ok u) k h = h
IsRefused-guard (http_error status) k h = (status, refl)

patch-closed :
    (token header : Text) (sid : ℕ) (sug : Suggestion) (action : Text) (note : Option Text)
    (now : ℕ) (db : Db)
    → get_suggestion sid db ≡ some sug
    → is_pending sug.status ≡ false
    → IsRefused (patch_suggestion token header sid action note now db)
unfolding patch_suggestion
patch-closed token header sid sug action note now db there closed =
    IsRefused-guard (token_auth token header) _ (
      IsRefused-guard (require (is_action action) 400) _
        (409, act-closed sid sug action note now db there closed))

module _ (hmac_hex : Text → Text → Text) (secret : Text) (sid : ℕ) where
  click-closed :
      (sug : Suggestion) (action token : Text) (now : ℕ) (db : Db)
      → get_suggestion sid db ≡ some sug
      → is_pending sug.status ≡ false
      → IsRefused (suggestion_magic_link hmac_hex secret sid action token now db)
  unfolding suggestion_magic_link
  click-closed sug action token now db there closed =
      IsRefused-guard (require (is_action action) 400) _ (
        IsRefused-guard (require_token (verify_action hmac_hex sid action token secret now)) _
          (409, act-closed sid sug action none now db there closed))

  -- What an accepted link was.
  WasValid : Text → Text → ℕ → Db → SuggestionStatus × Db → Type 0
  WasValid action token now db r =
      (is_action action ≡ true)
      × (verify_action hmac_hex sid action token secret now ≡ some true)
      × ActedOn sid action none now db r

  click-WasValid :
      (action token : Text) (now : ℕ) (db : Db)
      → OnOk
          (WasValid action token now db)
          (suggestion_magic_link hmac_hex secret sid action token now db)
  unfolding suggestion_magic_link WasValid
  click-WasValid action token now db = elim (Bool-cases (is_action action)) [
    | inr unknown ↦ rw (unknown, suggestion_magic_link) tt
    | inl known ↦ elim (Option-cases (verify_action hmac_hex sid action token secret now)) [
      | inl raised ↦ rw (known, raised, suggestion_magic_link) tt
      | inr (valid, answer) ↦ elim (Bool-cases valid) [
        | inr bad ↦ rw (known, answer, bad, suggestion_magic_link) tt
        | inl good ↦
            let verified : verify_action hmac_hex sid action token secret now ≡ some true =
              answer ∙ ap some good in
            rw (known, verified, suggestion_magic_link)
              (OnOk-map (ActedOn sid action none now db) _ (act sid action none now db)
                (λ r acted. (known, verified, acted)) (act-ActedOn sid action none now db))
      ]
    ]
  ]

  -- A link that is answered without an error names an action, its token was verified, and it turned a
  -- pending suggestion to the status of that action, at that time, with its note as it was, while no
  -- other suggestion and no execution changed. On any tables in which the suggestion's row is the one
  -- that the link left, at any time, every link and every request to the administrator's endpoint for
  -- that suggestion is refused, whatever its action and its token.
  pub suggestion_magic_link-once :
      (action token : Text) (now : ℕ) (db : Db) (status : SuggestionStatus) (db' db'' : Db)
      → suggestion_magic_link hmac_hex secret sid action token now db ≡ ok (status, db')
      → get_suggestion sid db'' ≡ get_suggestion sid db'
      → (is_action action ≡ true)
        × (verify_action hmac_hex sid action token secret now ≡ some true)
        × ActedOn sid action none now db (status, db')
        × ((action' token' : Text) (later : ℕ)
            → IsRefused (suggestion_magic_link hmac_hex secret sid action' token' later db''))
        × ((admin_token header action' : Text) (note : Option Text) (later : ℕ)
            → IsRefused (patch_suggestion admin_token header sid action' note later db''))
  unfolding WasValid
  suggestion_magic_link-once action token now db status db' db'' e kept =
      let (known, verified, acted) =
        on_ok (WasValid action token now db) e (click-WasValid action token now db) in
      let (turned, (sug, there, open_one, after), others, executions) = acted in
      let closed : is_pending (status_of action) ≡ false = status_of-closed action in
      (
        known,
        verified,
        acted,
        λ action' token' later.
            click-closed (act_on action none now sug) action' token' later db'' (kept ∙ after)
              closed,
        λ admin_token header action' note later.
            patch-closed admin_token header sid (act_on action none now sug) action' note later db''
              (kept ∙ after) closed,
      )
