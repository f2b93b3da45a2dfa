-- ===== src/Web/Caps.antt =====
-- What the endpoints of main.py that set the caps and add an account promise.
use me_invest_paper.Base.{
  ℕ, length, ◌≤◌, ◌≡◌, refl, ap, ◌∙◌, ◌⊎◌, inl, inr, true, not, Option, none, some, List, [], ◌∷◌,
  ◌++◌, ◌==◌, filter, latest_by, total, present, arith, Bool-cases, Option-cases, if◌then◌else◌,
}
use me_invest_paper.Store.{Text, Mode, Caps, Db}
use me_invest_paper.Broker.{Adapter}
use me_invest_paper.Accounts.{BrokerAccount}
use me_invest_paper.AutoTrade.Queries.{has_state, get_mode, get_active_caps}
use me_invest_paper.AutoTrade.Modes.{mode_in-append}
use me_invest_paper.Web.Reply.{is_refused, ok, http_error, token_auth, OnOk}
use me_invest_paper.Web.Promotion.{
  close_first, new_caps, admin_auto_trade_caps, register, admin_create_broker_account,
}

-- The caps that are open.
abbrev pub open_count : List Caps → ℕ
open_count cs = total (λ c. not (present c.effective_to)) (λ _. 1) cs

abbrev open_caps : List Caps → List Caps
open_caps cs = filter (λ c. not (present c.effective_to)) cs

open_caps-append :
    (c : Caps) (cs : List Caps)
    → c.effective_to ≡ none
    → open_count cs ≡ 0
    → open_caps (cs ++ c ∷ []) ≡ c ∷ []
open_caps-append c [] e h = rw e refl
open_caps-append c (x ∷ cs) e h = ground (arith, open_caps-append c cs e)

close_first-append :
    (now : ℕ) (c : Caps) (cs : List Caps)
    → c.effective_to ≡ none
    → open_count cs ≤ 1
    → open_caps (close_first now cs ++ c ∷ []) ≡ c ∷ []
close_first-append now c [] e h = rw e refl
close_first-append now c (x ∷ cs) e h = elim (Bool-cases (present x.effective_to)) [
  | inl closed ↦ rw (closed, closed) (close_first-append now c cs e (fewer closed))
  | inr open_one ↦ rw open_one (open_caps-append c cs e (ground arith))
]
  where
    fewer : present x.effective_to ≡ true → open_count cs ≤ 1
    fewer closed = ground arith

token_cases :
    (token header : Text)
    → (token_auth token header ≡ ok tt) ⊎ (token_auth token header ≡ http_error 401)
unfolding token_auth
token_cases token header = elim (Bool-cases (is_refused token header)) [
  | inl refused ↦ inr (rw refused refl)
  | inr fine ↦ inl (rw fine refl)
]

open_count-length : (cs : List Caps) → open_count cs ≡ length (open_caps cs)
open_count-length [] = refl
open_count-length (c ∷ cs) = ground (arith, open_count-length cs)

-- Where at most one row of caps is open, a request with the promotion token leaves exactly the new
-- caps open: they are in force from then on, and the mode of no account, no suggestion and no
-- execution changes. Without the token nothing is changed.
pub admin_auto_trade_caps-get_active_caps :
    (token header : Text) (order_max day_max week_max day_orders now : ℕ) (db : Db)
    → open_count db.caps ≤ 1
    → let reply = admin_auto_trade_caps token header order_max day_max week_max day_orders now db in
      let caps = new_caps order_max day_max week_max day_orders now in
      ((token_auth token header ≡ http_error 401) × (reply ≡ http_error 401))
      ⊎ ((token_auth token header ≡ ok tt)
          × ((db' : Db) × (reply ≡ ok db')
              × (get_active_caps db' ≡ some caps)
              × (open_count db'.caps ≡ 1)
              × (db'.states ≡ db.states)
              × (db'.suggestions ≡ db.suggestions)
              × (db'.executions ≡ db.executions)))
unfolding admin_auto_trade_caps get_active_caps
admin_auto_trade_caps-get_active_caps token header order_max day_max week_max day_orders now db h =
    let caps = new_caps order_max day_max week_max day_orders now in
    let only = close_first-append now caps db.caps refl h in
    elim (token_cases token header) [
      | inr refused ↦ inl (refused, rw (refused, admin_auto_trade_caps) refl)
      | inl granted ↦ inr (
        granted,
        (
          record db { caps = close_first now db.caps ++ caps ∷ [] },
          rw (granted, admin_auto_trade_caps) refl,
          ap (latest_by (λ x. x.effective_from)) only,
          open_count-length (close_first now db.caps ++ caps ∷ []) ∙ ap length only,
          refl,
          refl,
          refl,
        ),
      )
    ]

-- When an account is added, its adapter was built and it had no mode yet: its mode is off, every other
-- account keeps its mode and its adapter, and the new account has the adapter that was built.
pub admin_create_broker_account-get_mode :
    {W : Type 0} (admin_token header : Text) (made : Option (Adapter W)) (id : ℕ)
    (nickname broker config : Text) (now : ℕ) (adapters : ℕ → Option (Adapter W))
    (rows : List BrokerAccount) (db : Db)
    → OnOk
        (λ r.
          ((other : ℕ) → get_mode r.2 other ≡ (if id == other then Mode.off else get_mode db other))
          × ((other : ℕ) → r.0 other ≡ (if id == other then made else adapters other))
          × (present made ≡ true))
        (admin_create_broker_account admin_token header made id nickname broker config now adapters
          rows db)
unfolding admin_create_broker_account get_mode
admin_create_broker_account-get_mode {W} admin_token header made id nickname broker config now
      adapters rows db =
    elim (token_cases admin_token header) [
      | inr refused ↦ rw (refused, admin_create_broker_account) tt
      | inl granted ↦ elim (Option-cases made) [
        | inl unbuilt ↦ rw (granted, unbuilt, admin_create_broker_account) tt
        | inr (adapter, built) ↦ elim (Bool-cases (has_state db id)) [
          | inl taken ↦ rw (granted, built, taken, admin_create_broker_account) tt
          | inr fresh ↦
              rw (granted, built, fresh, admin_create_broker_account)
                (
                  λ other. mode_in-append db.states id other Mode.off fresh,
                  λ other. registered adapter other,
                  refl,
                )
        ]
      ]
    ]
  where
    registered :
        (adapter : Adapter W) (other : ℕ)
        → register id adapter adapters other
          ≡ (if id == other then some adapter else adapters other)
    registered adapter other = ground arith
