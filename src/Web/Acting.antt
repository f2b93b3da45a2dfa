-- ===== src/Web/Acting.antt =====
-- The endpoints of main.py that act on one suggestion or one execution.
use me_invest_paper.Base.{ℕ, Bool, ◌||◌, Option, none, some, [], ◌∷◌, ◌==◌, find?, if◌then◌else◌}
use me_invest_paper.Store.{
  Text, Suggestion, SuggestionStatus, Execution, MatchMethod, Db, is_pending, set_suggestion,
  set_execution,
}
use me_invest_paper.Broker.{Adapter}
use me_invest_paper.ClientId.{same_text}
use me_invest_paper.Unaccept.{UnacceptResult, get_suggestion, unaccept_suggestion}
use me_invest_paper.Web.Reply.{Reply, ok, ◌>>=◌, ◌>>◌, require, found, token_auth}
use me_invest_paper.Web.MagicLink.{verify_action}

abbrev pub accept : Text
accept = b'a' ∷ b'c' ∷ b'c' ∷ b'e' ∷ b'p' ∷ b't' ∷ []

abbrev pub reject : Text
reject = b'r' ∷ b'e' ∷ b'j' ∷ b'e' ∷ b'c' ∷ b't' ∷ []

abbrev pub unaccept : Text
unaccept = b'u' ∷ b'n' ∷ accept

-- `action in ("accept", "reject")`
abbrev pub is_action : Text → Bool
is_action action = same_text action accept || same_text action reject

-- `action + "ed"` of one of the two actions.
abbrev pub status_of : Text → SuggestionStatus
status_of action =
    if same_text action accept then SuggestionStatus.accepted else SuggestionStatus.rejected

-- `if body.note: row.note = body.note`
abbrev pub with_note : Option Text → Text → Text
with_note none old = old
with_note (some []) old = old
with_note (some (c ∷ cs)) old = c ∷ cs

abbrev pub act_on : Text → Option Text → ℕ → Suggestion → Suggestion
act_on action note now s = record s {
  status = status_of action;
  acted_at = some now;
  note = with_note note s.note;
}

-- The body that the two endpoints share.
unfoldable pub act : ℕ → Text → Option Text → ℕ → Db → Reply (SuggestionStatus × Db)
act sid action note now db = do
  sug ← found (get_suggestion sid db) 404
  require (is_pending sug.status) 409
  ok (status_of action, set_suggestion sid (act_on action note now) db)

unfoldable pub patch_suggestion :
    Text → Text → ℕ → Text → Option Text → ℕ → Db → Reply (SuggestionStatus × Db)
patch_suggestion admin_token header sid action note now db = do
  token_auth admin_token header
  require (is_action action) 400
  act sid action note now db

-- `none` of the verification is an exception, which the server answers with 500.
abbrev pub require_token : Option Bool → Reply (Unit {0})
require_token none = Reply.http_error 500
require_token (some valid) = require valid 400

module _ (hmac_hex : Text → Text → Text) (secret : Text) where
  unfoldable pub suggestion_magic_link : ℕ → Text → Text → ℕ → Db → Reply (SuggestionStatus × Db)
  suggestion_magic_link sid action token now db = do
    require (is_action action) 400
    require_token (verify_action hmac_hex sid action token secret now)
    act sid action none now db

module _ {W : Type 0} (adapters : ℕ → Option (Adapter W)) (now : ℕ) where
  -- The body that the two ways to un-accept share.
  unfoldable pub unaccept_by_account : ℕ → Db → W → Reply (UnacceptResult × Db × W)
  unaccept_by_account sid db w = do
    sug ← found (get_suggestion sid db) 404
    adapter ← found (adapters sug.broker_account_id) 404
    ok (unaccept_suggestion adapter now sid sug.broker_account_id db w)

  unfoldable pub unaccept_act :
      (Text → Text → Text) → Text → ℕ → Text → Db → W → Reply (UnacceptResult × Db × W)
  unaccept_act hmac_hex secret sid token db w = do
    require_token (verify_action hmac_hex sid unaccept token secret now)
    unaccept_by_account sid db w

  unfoldable pub admin_unaccept : Text → Text → ℕ → Db → W → Reply (UnacceptResult × Db × W)
  admin_unaccept admin_token header sid db w = do
    token_auth admin_token header
    unaccept_by_account sid db w

-- `session.get(OrderExecution, id)`
abbrev pub get_execution : ℕ → Db → Option Execution
get_execution i db = find? (λ e. e.id == i) db.executions

abbrev pub link_to : ℕ → Execution → Execution
link_to sid e = record e { suggestion_id = some sid; match_method = MatchMethod.manual_matched }

unfoldable pub admin_reconcile_manual : Text → Text → ℕ → ℕ → Db → Reply Db
admin_reconcile_manual admin_token header execution_id suggestion_id db = do
  token_auth admin_token header
  _ ← found (get_execution execution_id db) 404
  _ ← found (get_suggestion suggestion_id db) 422
  ok (set_execution execution_id (link_to suggestion_id) db)
