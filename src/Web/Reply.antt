-- ===== src/Web/Reply.antt =====
-- How an endpoint of main.py answers, the tokens of its headers and the accounts that it acts on.
-- An `HTTPException` leaves the block of the session before it is committed, so an error answer
-- carries no state: the rows and the broker are those of before.
use me_invest_paper.Base.{
  ℕ, Bool, true, false, not, Option, none, some, List, [], ◌∷◌, ◌==◌, any, find?, if◌then◌else◌,
  ◌≡◌, refl, subst, ◌⊎◌, inl, inr,
}
use me_invest_paper.Store.{Text}
use me_invest_paper.ClientId.{same_text}
use me_invest_paper.Accounts.{
  BrokerAccount, AccountInfo, least, list_active_accounts, resolve_active_account_refs,
}

pub data Reply (A : Type 0) : Type 0 where
  ok : A → Reply A
  http_error : ℕ → Reply A

infixl 5 ◌>>=◌ ◌>>◌
abbrev pub ◌>>=◌ : {A B : Type 0} → Reply A → (A → Reply B) → Reply B
ok a >>= f = f a
http_error status >>= f = http_error status

abbrev pub ◌>>◌ : {B : Type 0} → Reply (Unit {0}) → Reply B → Reply B
m >> k = m >>= λ _. k

abbrev pub require : Bool → ℕ → Reply (Unit {0})
require true status = ok tt
require false status = http_error status

-- The value, or the error where there is none.
abbrev pub found : {A : Type 0} → Option A → ℕ → Reply A
found none status = http_error status
found (some a) status = ok a

-- `not token or header != token`
abbrev pub is_refused : Text → Text → Bool
is_refused [] header = true
is_refused (c ∷ cs) header = not (same_text header (c ∷ cs))

-- `admin_auth` and `promotion_auth`, each with its own token of the settings.
unfoldable pub token_auth : Text → Text → Reply (Unit {0})
token_auth token header = require (not (is_refused token header)) 401

pub data DefaultScope : Type 0 where
  primary all : DefaultScope

abbrev pub one_or_none : Option ℕ → List ℕ
one_or_none none = []
one_or_none (some ref) = ref ∷ []

abbrev pub default_scope : DefaultScope → List ℕ → List ℕ
default_scope primary active = one_or_none (least active)
default_scope all active = active

-- `_resolve_scope`
unfoldable pub resolve_scope : List BrokerAccount → Option ℕ → DefaultScope → Reply (List ℕ)
resolve_scope rows (some ref) default =
    if any (λ x. x == ref) (resolve_active_account_refs rows) then ok (ref ∷ []) else http_error 404
resolve_scope rows none default = ok (default_scope default (resolve_active_account_refs rows))

-- `_require_account`
unfoldable pub require_account : List BrokerAccount → ℕ → Reply AccountInfo
require_account rows ref = found (find? (λ a. a.account_ref == ref) (list_active_accounts rows)) 404

pub Reply-cases :
    {A : Type 0} (r : Reply A) → ((a : A) × (r ≡ ok a)) ⊎ ((status : ℕ) × (r ≡ http_error status))
Reply-cases (ok a) = inl (a, refl)
Reply-cases (http_error status) = inr (status, refl)

-- What holds of the answer, if it is no error.
abbrev pub OnOk : {A : Type 0} → (A → Type 0) → Reply A → Type 0
OnOk P (ok a) = P a
OnOk P (http_error status) = Unit

pub on_ok : {A : Type 0} (P : A → Type 0) {r : Reply A} {a : A} → r ≡ ok a → OnOk P r → P a
on_ok P e h = subst (OnOk P) e h

-- A guarded answer holds what the rest does.
pub OnOk-guard :
    {A : Type 0} (P : A → Type 0) (m : Reply (Unit {0})) (k : Reply A) → OnOk P k → OnOk P (m >> k)
OnOk-guard P (ok u) k h = h
OnOk-guard P (http_error status) k h = tt

pub OnOk-map :
    {A : Type 0} (P Q : A → Type 0) (r : Reply A) → ((a : A) → P a → Q a) → OnOk P r → OnOk Q r
OnOk-map P Q (ok a) f h = f a h
OnOk-map P Q (http_error status) f h = tt
