-- ===== src/Web/Modes.antt =====
-- What the endpoints of main.py that set the mode, the caps and a new account promise.
use me_invest_paper.Base.{
  ℕ, zero, suc, ◌-◌, ◌*◌, ◌≤◌, ◌≡◌, refl, ◌∙◌, ◌⊎◌, inl, inr, Option, some, List, [], ◌∷◌, ◌++◌,
  ◌==◌, arith, Bool-cases, Option-cases, if◌then◌else◌,
}
use me_invest_paper.Base.Rows.{update}
use me_invest_paper.Calendar.{day}
use me_invest_paper.Store.{BrokerScope, Text, Mode, AutoTradeState, PromotionLog, Db}
use me_invest_paper.Accounts.{BrokerAccount}
use me_invest_paper.AutoTrade.Queries.{get_mode, set_mode}
use me_invest_paper.AutoTrade.Modes.{mode_in, get_mode-set_mode}
use me_invest_paper.Web.Reply.{ok, token_auth, Reply-cases, OnOk, on_ok, OnOk-map}
use me_invest_paper.Web.Promotion.{
  last_entry, is_soaking, soak_check, mode_check, account_or_primary, promoted, log_promotion,
  promote,
}

mode_in-promoted :
    (states : List AutoTradeState) (ref now other : ℕ)
    → mode_in
        (update (λ s. s.broker_account_id) ref (λ s. record s { promoted_at = some now }) states)
        other
      ≡ mode_in states other
mode_in-promoted [] ref now other = refl
mode_in-promoted (s ∷ states) ref now other = ground (arith, mode_in-promoted states ref now other)

-- The mode that was kept long enough: off needs no time, and another mode the days of its window
-- since the last entry into the current one.
abbrev pub IsSoaked : (Mode → ℕ) → ℕ → Mode → Mode → Db → Type 0
IsSoaked days now current to_mode db =
    (to_mode ≡ Mode.off)
    ⊎ (days to_mode ≡ 0)
    ⊎ ((entry : PromotionLog) × (last_entry current db ≡ some entry)
        × (days to_mode * day ≤ now - entry.ts))

soak_check-IsSoaked :
    (now n : ℕ) (current : Mode) (db : Db)
    → OnOk
        (λ _.
          (n ≡ 0)
          ⊎ ((entry : PromotionLog) × (last_entry current db ≡ some entry)
              × (n * day ≤ now - entry.ts)))
        (soak_check now n current db)
soak_check-IsSoaked now zero current db = inl refl
soak_check-IsSoaked now (suc n) current db = elim (Option-cases (last_entry current db)) [
  | inl no_entry ↦ rw no_entry tt
  | inr (entry, last) ↦ elim (Bool-cases (is_soaking now (suc n) (some entry))) [
    | inl soaking ↦ rw (last, soaking) tt
    | inr done ↦ rw (last, done) (inr (entry, refl, ground arith))
  ]
]

-- The state of the table of modes behind a promotion.
abbrev pub Promoted :
    List BrokerAccount → ℕ → (Mode → ℕ) → Mode → Option Text → Option ℕ → Db → ℕ × Db → Type 0
Promoted rows now days to_mode reason account db (ref, db') =
    (account_or_primary account rows ≡ some ref)
    × IsSoaked days now (get_mode db ref) to_mode db
    × ((other : ℕ) → get_mode db' other ≡ (if ref == other then to_mode else get_mode db other))
    × ((entry : PromotionLog) × (db'.promotion_log ≡ db.promotion_log ++ entry ∷ [])
        × (entry.ts ≡ now)
        × (entry.from_mode ≡ get_mode db ref)
        × (entry.to_mode ≡ to_mode)
        × (entry.reason ≡ reason))
    × (db'.suggestions ≡ db.suggestions)
    × (db'.executions ≡ db.executions)

mode_check-IsSoaked :
    (days : Mode → ℕ) (now : ℕ) (current to_mode : Mode) (db : Db)
    → OnOk (λ _. IsSoaked days now current to_mode db) (mode_check days now current to_mode db)
mode_check-IsSoaked days now current Mode.off db = inl refl
mode_check-IsSoaked days now current Mode.dry_run db =
    OnOk-map _ _ (soak_check now (days Mode.dry_run) current db) (λ u h. inr h)
      (soak_check-IsSoaked now (days Mode.dry_run) current db)
mode_check-IsSoaked days now current Mode.live db =
    OnOk-map _ _ (soak_check now (days Mode.live) current db) (λ u h. inr h)
      (soak_check-IsSoaked now (days Mode.live) current db)

-- The rows behind the three changes of a promotion.
promotion_lem :
    (now ref : ℕ) (to_mode : Mode) (reason : Option Text) (db : Db)
    → let db' =
        log_promotion now
          (get_mode db ref)
          to_mode
          reason
          (promoted ref now (set_mode db ref to_mode)) in
      ((other : ℕ) → get_mode db' other ≡ (if ref == other then to_mode else get_mode db other))
      × ((entry : PromotionLog) × (db'.promotion_log ≡ db.promotion_log ++ entry ∷ [])
          × (entry.ts ≡ now)
          × (entry.from_mode ≡ get_mode db ref)
          × (entry.to_mode ≡ to_mode)
          × (entry.reason ≡ reason))
      × (db'.suggestions ≡ db.suggestions)
      × (db'.executions ≡ db.executions)
unfolding set_mode get_mode
promotion_lem now ref to_mode reason db = (
  promoted_modes,
  (
    record {
      ts = now;
      from_mode = get_mode db ref;
      to_mode = to_mode;
      broker_scope = BrokerScope.alpaca_paper;
      reason = reason;
    },
    refl,
    refl,
    refl,
    refl,
    refl,
  ),
  refl,
  refl,
)
  where
    promoted_modes :
        (other : ℕ)
        → get_mode
            (log_promotion now
              (get_mode db ref)
              to_mode
              reason
              (promoted ref now (set_mode db ref to_mode)))
            other
          ≡ (if ref == other then to_mode else get_mode db other)
    promoted_modes other =
        mode_in-promoted (set_mode db ref to_mode).states ref now other
        ∙ get_mode-set_mode db ref other to_mode

module _ (rows : List BrokerAccount) (now : ℕ) where
  promote-Promoted :
      (days : Mode → ℕ) (token header : Text) (to_mode : Mode) (reason : Option Text)
      (account : Option ℕ) (db : Db)
      → OnOk
          (Promoted rows now days to_mode reason account db)
          (promote rows now days token header to_mode reason account db)
  unfolding promote
  promote-Promoted days token header to_mode reason account db =
      elim (Reply-cases (token_auth token header)) [
        | inr (status, refused) ↦ rw (refused, promote) tt
        | inl (u, granted) ↦ elim (Option-cases (account_or_primary account rows)) [
          | inl no_account ↦ rw (granted, no_account, promote) tt
          | inr (ref, chosen) ↦
              elim (Reply-cases (mode_check days now (get_mode db ref) to_mode db)) [
                | inr (status, soaking) ↦ rw (granted, chosen, soaking, promote) tt
                | inl (v, passed) ↦
                    let rows_of = promotion_lem now ref to_mode reason db in
                    rw (granted, chosen, passed, promote)
                      (
                        chosen,
                        on_ok (λ _. IsSoaked days now (get_mode db ref) to_mode db) passed
                            (mode_check-IsSoaked days now (get_mode db ref) to_mode db),
                        rows_of.0,
                        rows_of.1,
                        rows_of.2,
                        rows_of.3,
                      )
              ]
        ]
      ]

  -- When a promotion is accepted, under any windows, it is to off, or its window has no days, or the
  -- last entry into the current mode of the account is as many days old. Then the account that was
  -- asked for, or else the primary one, has the new mode and every other account the mode of before,
  -- one entry with the time, both modes and the reason is added to the log, and no suggestion and no
  -- execution changes.
  pub promote_lem :
      (days : Mode → ℕ) (token header : Text) (to_mode : Mode) (reason : Option Text)
      (account : Option ℕ) (db : Db) (ref : ℕ) (db' : Db)
      → promote rows now days token header to_mode reason account db ≡ ok (ref, db')
      → Promoted rows now days to_mode reason account db (ref, db')
  promote_lem days token header to_mode reason account db ref db' e =
      on_ok (Promoted rows now days to_mode reason account db) e
        (promote-Promoted days token header to_mode reason account db)
