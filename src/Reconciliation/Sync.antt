-- ===== src/Reconciliation/Sync.antt =====
-- `sync_open_order_statuses` and `infer_manual_cancels` of services/reconciliation.py.
use me_invest_paper.Base.{
  ℕ, suc, ◌+◌, ◌*◌, Bool, false, ◌&&◌, not, Option, none, some, List, [], ◌∷◌, ◌++◌, ◌==◌, ltb,
  holds, present, any, filter, latest_by, if◌then◌else◌,
}
use me_invest_paper.Store.{
  Text, Suggestion, SuggestionStatus, Execution, ExecutionStatus, Db, is_accepted, is_routing,
  is_broker_cancelled, set_execution, set_suggestion,
}
use me_invest_paper.Broker.{OrderConfirmation, Adapter}
use me_invest_paper.Orders.{is_terminal}

abbrev pub is_open_execution : ℕ → Execution → Bool
is_open_execution account e =
    e.broker_account_id == account
    && is_routing e.status
    && not e.dry_run
    && present e.broker_order_id

-- `closed_by_id.get(boid)`: of several confirmations of one order the last one stays in the dict.
abbrev pub closed_by_id : List OrderConfirmation → ℕ → Option OrderConfirmation
closed_by_id [] boid = none
closed_by_id (c ∷ cs) boid = elim (closed_by_id cs boid) [
  | some later ↦ some later
  | none ↦ if c.broker_order_id == boid then some c else none
]

-- `conf is not None and conf.status in _TERMINAL_STATUSES`
abbrev pub is_over : Option OrderConfirmation → Bool
is_over none = false
is_over (some conf) = is_terminal conf.status

abbrev pub has_ended : List OrderConfirmation → Execution → Bool
has_ended closed e = elim e.broker_order_id [
  | none ↦ false
  | some boid ↦ is_over (closed_by_id closed boid)
]

abbrev pub as_ended : ℕ → Execution → Execution
as_ended now e = record e { status = ExecutionStatus.broker_cancelled; cancelled_at = some now }

-- The loop over `open_execs`: the number of updates, and the rows.
unfoldable pub mark_ended : ℕ → List OrderConfirmation → List Execution → Db → ℕ × Db
mark_ended now closed [] db = (0, db)
mark_ended now closed (e ∷ es) db =
    let (more, marked) = mark_ended now closed es (set_execution e.id (as_ended now) db) in
    let rest = mark_ended now closed es db in
    if has_ended closed e then (suc more, marked) else rest

module _ {W : Type 0} (adapter : Adapter W) (now : ℕ) where
  -- The broker is only asked where there is an open execution.
  unfoldable pub poll : List Execution → Db → W → ℕ × Db × W
  poll [] db w = (0, db, w)
  poll (e ∷ es) db w =
      let (answer, w₁) = adapter.list_closed_orders w in
      elim answer [
        | none ↦ (0, db, w₁)
        | some closed ↦ let (updated, db₁) = mark_ended now closed (e ∷ es) db in (updated, db₁, w₁)
      ]

  unfoldable pub sync_open_order_statuses : ℕ → Db → W → ℕ × Db × W
  sync_open_order_statuses account db w =
      poll (filter (is_open_execution account) db.executions) db w

-- `sug.note` with the remark behind it.
abbrev pub remark : Text
remark =
    b'c' ∷ b'a' ∷ b'n' ∷ b'c' ∷ b'e' ∷ b'l' ∷ b' ' ∷ b'i' ∷ b'n' ∷ b'f' ∷ b'e' ∷ b'r' ∷ b'r' ∷ b'e'
    ∷ b'd' ∷ b' ' ∷ b'f' ∷ b'r' ∷ b'o' ∷ b'm' ∷ b' ' ∷ b'b' ∷ b'r' ∷ b'o' ∷ b'k' ∷ b'e' ∷ b'r'
    ∷ b' ' ∷ b'U' ∷ b'I' ∷ []

abbrev pub with_remark : Text → Text
with_remark [] = remark
with_remark (c ∷ note) = (c ∷ note) ++ b' ' ∷ b'|' ∷ b' ' ∷ remark

abbrev pub as_inferred : ℕ → Suggestion → Suggestion
as_inferred now s = record s {
  status = SuggestionStatus.cancelled;
  acted_at = some now;
  note = with_remark s.note;
}

-- `cancelled_at is not None and cancelled_at < cutoff`, the cutoff being `hours` before now.
abbrev pub is_before_cutoff : ℕ → ℕ → Option ℕ → Bool
is_before_cutoff now hours none = false
is_before_cutoff now hours (some at) = ltb (at + hours * 3600) now

-- The latest execution decides, where there is one and none is open.
abbrev pub is_lapsed : ℕ → ℕ → Option Execution → Bool
is_lapsed now hours none = false
is_lapsed now hours (some latest) =
    is_broker_cancelled latest.status && is_before_cutoff now hours latest.cancelled_at

abbrev pub real_executions : Db → ℕ → List Execution
real_executions db sid = filter (λ e. holds e.suggestion_id sid && not e.dry_run) db.executions

abbrev pub is_inferred : ℕ → ℕ → Db → Suggestion → Bool
is_inferred now hours db s =
    let execs = real_executions db s.id in
    not (any (λ e. is_routing e.status) execs)
    && is_lapsed now hours (latest_by (λ e. e.created_at) execs)

-- The loop over `accepted`.
unfoldable pub infer_each : ℕ → ℕ → List Suggestion → Db → ℕ × Db
infer_each now hours [] db = (0, db)
infer_each now hours (s ∷ ss) db =
    let (more, cancelled) = infer_each now hours ss (set_suggestion s.id (as_inferred now) db) in
    let rest = infer_each now hours ss db in
    if is_inferred now hours db s then (suc more, cancelled) else rest

unfoldable pub infer_manual_cancels : ℕ → ℕ → ℕ → Db → ℕ × Db
infer_manual_cancels now hours account db =
    infer_each now hours
      (filter (λ s. s.broker_account_id == account && is_accepted s.status) db.suggestions) db
