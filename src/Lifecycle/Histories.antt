-- ===== src/Lifecycle/Histories.antt =====
-- The operations that change a suggestion as the steps of one relation, and what any sequence of them
-- does: jobs and requests may come in any order.
use me_invest_paper.Base.{ℕ, ◌≡◌, refl, true, Option, some, List}
use me_invest_paper.Base.Rows.{Distinct}
use me_invest_paper.Store.{Text, Side, SuggestionStatus, Execution, Db}
use me_invest_paper.Broker.{Activity, Adapter}
use me_invest_paper.Accounts.{BrokerAccount}
use me_invest_paper.Unaccept.{UnacceptResult}
use me_invest_paper.Expiry.{sweep_expired_suggestions_all_brokers}
use me_invest_paper.Reconciliation.Matching.{MatchResult}
use me_invest_paper.Reconciliation.Persist.{persist_reconciliation}
use me_invest_paper.Reconciliation.Sync.{infer_manual_cancels}
use me_invest_paper.Suggest.Persist.{SuggestionRow, persist_suggestions}
use me_invest_paper.Suggest.Keeping.{IsNumbered}
use me_invest_paper.Web.Reply.{ok, on_ok}
use me_invest_paper.Web.Acting.{
  patch_suggestion, suggestion_magic_link, unaccept_act, admin_unaccept,
}
use me_invest_paper.Web.Stopping.{Report, admin_reset_week_buy_suggestions}
use me_invest_paper.Lifecycle.Diagram.{is_final, status_at, Evolution-final}
use me_invest_paper.Lifecycle.Changes.{Goes, Goes-trans, Goes-same}
use me_invest_paper.Lifecycle.Requests.{
  patch-Goes, click-Goes, After, mail-Goes, admin-Goes, reset_week-Goes,
}
use me_invest_paper.Targets.{Target, TargetTables, load_targets_into_db}
use me_invest_paper.Jobs.{run_daily_reconciliation_all_brokers}
use me_invest_paper.Review.Sizing.{Settings, DraftSizeAdjustment}
use me_invest_paper.Review.Graph.{Sessions, ReviewState, Model, finalize_node}
use me_invest_paper.Lifecycle.Reviewed.{finalize_node-Goes}
use me_invest_paper.Lifecycle.Daily.{daily_reconciliation-Goes}
use me_invest_paper.Lifecycle.Targets.{load_targets-Goes}
use me_invest_paper.Lifecycle.Operations.{persist_suggestions-Goes}
use me_invest_paper.Lifecycle.Sweeps.{
  persist_reconciliation-Goes, infer_manual_cancels-Goes, sweep_all-Goes,
}

-- One run of a job, or one request that is not refused.
pub data Step (W : Type 0) (before after : Db) : Type 0 where
  patched :
      (token header : Text) (sid : ℕ) (action : Text) (note : Option Text) (now : ℕ)
      (status : SuggestionStatus)
      → patch_suggestion token header sid action note now before ≡ ok (status, after)
      → Step W before after
  clicked :
      (hmac_hex : Text → Text → Text) (secret : Text) (sid : ℕ) (action token : Text) (now : ℕ)
      (status : SuggestionStatus)
      → suggestion_magic_link hmac_hex secret sid action token now before ≡ ok (status, after)
      → Step W before after
  unaccepted_by_mail :
      (adapters : ℕ → Option (Adapter W)) (now : ℕ) (hmac_hex : Text → Text → Text) (secret : Text)
      (sid : ℕ) (token : Text) (w w' : W) (result : UnacceptResult)
      → unaccept_act adapters now hmac_hex secret sid token before w ≡ ok (result, after, w')
      → Step W before after
  unaccepted :
      (adapters : ℕ → Option (Adapter W)) (now : ℕ) (token header : Text) (sid : ℕ) (w w' : W)
      (result : UnacceptResult)
      → admin_unaccept adapters now token header sid before w ≡ ok (result, after, w')
      → Step W before after
  persisted :
      (targets_id : Option ℕ) (week_of account now : ℕ) (rows : List SuggestionRow)
      → after ≡ (persist_suggestions targets_id week_of account now rows before).1
      → Step W before after
  reconciled :
      (broker : Text) (account now : ℕ) (results : List MatchResult)
      → after ≡ persist_reconciliation broker account now results before
      → Step W before after
  inferred :
      (now hours account : ℕ)
      → after ≡ (infer_manual_cancels now hours account before).1
      → Step W before after
  swept :
      (adapters : ℕ → Option (Adapter W)) (now : ℕ) (rows : List BrokerAccount) (w : W)
      → after ≡ (sweep_expired_suggestions_all_brokers adapters now rows before w).0
      → Step W before after
  reviewed :
      (sessions : Sessions) (model : Model) (settings : Settings)
      (note_text : SuggestionRow → Option DraftSizeAdjustment → Text) (now : ℕ) (s : ReviewState)
      → after ≡ (finalize_node sessions model settings note_text now s before).1
      → Step W before after
  reconciled_daily :
      (get_activities : ℕ → ℕ → W → Option (List Activity) × W) (adapters : ℕ → Option (Adapter W))
      (inference_hours max_days now : ℕ) (rows : List BrokerAccount) (last_runs : ℕ → Option ℕ)
      (w : W)
      → after
        ≡ (run_daily_reconciliation_all_brokers get_activities adapters inference_hours max_days now
            rows
            (record { db = before; last_runs = last_runs; brokers = w })).db
      → Step W before after
  targets_loaded :
      (adapter : Option (Adapter W)) (now account : ℕ) (targets : List Target)
      (source content_hash : Text) (tables : TargetTables) (w : W)
      → after
        ≡ (load_targets_into_db adapter now account targets source content_hash tables before w).2
      → Step W before after
  reset_week :
      (adapters : ℕ → Option (Adapter W)) (rows : List BrokerAccount) (today : ℕ)
      (token header : Text) (side : Option Side) (account : Option ℕ) (w w' : W) (ids : List ℕ)
      (report : Report)
      → Distinct (λ (e : Execution). e.id) before.executions
      → admin_reset_week_buy_suggestions adapters rows today token header side account before w
        ≡ ok (ids, report, after, w')
      → Step W before after

pub data History (W : Type 0) (start : Db) : Db → Type 0 where
  here : History W start start
  next : {mid end : Db} → History W start mid → Step W mid end → History W start end

module _ {W : Type 0} where
  -- Every step moves each suggestion along an edge of the diagram.
  Step-Goes : {before after : Db} → Step W before after → Goes before after
  Step-Goes {before} (patched token header sid action note now status e) =
      on_ok (λ (r : SuggestionStatus × Db). Goes before r.1) e
        (patch-Goes token header sid action note now before)
  Step-Goes {before} (clicked hmac_hex secret sid action token now status e) =
      on_ok (λ (r : SuggestionStatus × Db). Goes before r.1) e
        (click-Goes hmac_hex secret sid action token now before)
  Step-Goes {before} (unaccepted_by_mail adapters now hmac_hex secret sid token w w' result e) =
      on_ok (After adapters now before) e
        (mail-Goes adapters now hmac_hex secret sid token before w)
  Step-Goes {before} (unaccepted adapters now token header sid w w' result e) =
      on_ok (After adapters now before) e (admin-Goes adapters now token header sid before w)
  Step-Goes {before} (persisted targets_id week_of account now rows e) =
      rw e (persist_suggestions-Goes targets_id week_of account now rows before)
  Step-Goes {before} (reconciled broker account now results e) =
      rw e (persist_reconciliation-Goes broker account now results before)
  Step-Goes {before} (inferred now hours account e) =
      rw e (infer_manual_cancels-Goes now hours account before)
  Step-Goes {before}
        (reconciled_daily get_activities adapters inference_hours max_days now rows last_runs w e) =
      rw e (
        daily_reconciliation-Goes get_activities adapters inference_hours max_days now rows
          (record { db = before; last_runs = last_runs; brokers = w }))
  Step-Goes {before} (reviewed sessions model settings note_text now s e) =
      rw e (finalize_node-Goes sessions model settings note_text now s before)
  Step-Goes {before} (targets_loaded adapter now account targets source content_hash tables w e) =
      rw e (load_targets-Goes adapter now account targets source content_hash tables before w)
  Step-Goes {before} (swept adapters now rows w e) =
      rw e (sweep_all-Goes adapters now rows before w)
  Step-Goes {before}
        (reset_week adapters rows today token header side account w w' ids report distinct e) =
      on_ok (λ (r : List ℕ × Report × Db × W). Goes before r.2) e
        (reset_week-Goes adapters rows today token header side account before w distinct)

  -- Where the ids of the suggestions are not repeated and below the next one, any sequence of the
  -- jobs and requests that change suggestions, in any order and whatever the brokers answer, each reset
  -- of the week on tables in which no id of an execution stands twice, is a
  -- sequence of moves along the diagram: a suggestion goes from pending to accepted, rejected or
  -- expired, from accepted to filled, cancelled, expired or back to pending, a new one is pending and
  -- none is deleted. The ids stay so.
  pub History-Goes : {before after : Db} → History W before after → Goes before after
  History-Goes {before} here = Goes-same before before refl refl
  History-Goes {before} {after} (next {mid} h st) =
      Goes-trans {a = before} {b = mid} {c = after} (History-Goes h) (Step-Goes st)

  -- Where the ids of the suggestions are not repeated and below the next one, a suggestion that is
  -- rejected, cancelled, expired or filled has that status behind any sequence of those jobs and
  -- requests, each reset of the week on tables in which no id of an execution stands twice.
  pub History-final :
      {before after : Db} (j : ℕ) (status : SuggestionStatus)
      → IsNumbered before
      → is_final status ≡ true
      → status_at j before ≡ some status
      → History W before after
      → status_at j after ≡ some status
  History-final j status numbered final e h =
      Evolution-final j status final e (History-Goes h numbered).0
