-- ===== src/Lib.antt =====
-- A model of the trading core of the investment assistant: the engine that makes suggestions, their
-- review with a language model, the endpoints by which the owner acts on them, the engine that
-- places orders for them at a broker's paper account, and the jobs that keep the tables in step
-- with the broker.
--
-- The parts, and how they interact. A weekly job makes suggestions from the gaps to the targets and
-- hands them to the review (src/investor/graphs/suggestion_review.py), which sizes, explains and
-- criticises them and writes what is left with src/investor/services/suggest.py; the owner accepts
-- some of them by signed links or as the administrator (src/investor/main.py and
-- src/investor/services/magic_link.py). Each morning the expiry sweep
-- (src/investor/jobs/suggestion_expiry.py) ends those past their time, then a pass of the
-- auto-trade engine (src/investor/services/auto_trade.py) places orders for the accepted ones of
-- the week, behind its guards. After the close, reconciliation
-- (src/investor/services/reconciliation.py) matches the broker's fills to suggestions, books them
-- in the table of executions, works out the profit of a sale, marks the orders that ended and
-- infers the cancels made at the broker. The owner can take an acceptance back
-- (src/investor/services/unaccept.py); this and the sweep cancel orders by
-- src/investor/services/orders.py. Everything is kept per broker account
-- (src/investor/services/accounts.py).
--
-- The files, and what they model.
--   Base and its children: shared names, lists, rows of a table, signed amounts.
--   Store: the tables of src/investor/models.py. A database is a record of lists of rows.
--   Broker: the protocol of src/investor/brokers/base.py.
--   Safety: assert_paper_only of src/investor/safety.py.
--   Calendar: _next_monday and _next_friday_eod of src/investor/services/suggest.py, and the day
--     and the week of the engine's sums. Calendar.Laws holds the proofs.
--   ClientId: the client order ids, as _next_client_order_id writes them and _parse_suggestion_id
--     reads them. ClientId.RoundTrip holds the proofs.
--   AutoTrade: the engine. State has the state of a pass and how a call ends; Queries the queries
--     (_get_mode, set_mode, _get_active_caps, _fetch_accepted_unexecuted, _next_client_order_id);
--     Guards the functions _check_*; KillSwitch _trigger_kill_switch; Round the body of the loop
--     and Pass the loop of run_auto_trade_pass. The other children are proofs about a pass, named
--     for what they are about.
--   Orders: _try_cancel and cancel_working_execution.
--   Unaccept: unaccept_suggestion; Laws and Answers are the proofs.
--   Accounts: list_active_accounts and the functions that resolve references.
--   Expiry: sweep_expired_suggestions and sweep_expired_suggestions_all_brokers.
--   Reconciliation: Matching has reconcile_activities, Pnl compute_realized_pnl, Persist
--     persist_reconciliation, Sync sync_open_order_statuses and infer_manual_cancels; the other
--     children are the proofs.
--   Web: the endpoints of src/investor/main.py. Reply has the answers, the tokens and
--     _resolve_scope; MagicLink services/magic_link.py; Acting the endpoints that act on one
--     suggestion or link an execution; Stopping admin_cancel_all_orders,
--     admin_reset_week_buy_suggestions and admin_auto_trade_emergency_stop; Promotion
--     admin_auto_trade_promote, admin_auto_trade_caps and admin_create_broker_account. The other
--     children are the proofs.
--   Review: src/investor/graphs/suggestion_review.py. Levels has _deeper_anchor and _find_level,
--     Sizing context_adjust_node, Critic route_after_critic, _apply_changes and revise_node, Graph
--     the other nodes and the graph; Places, Reach, Sizes, Revisions, Rationales, Origins, Steps
--     and Running are the proofs.
--   Llm: Retry has _run_with_retry of src/investor/services/llm.py, Fences _strip_fences, Client
--     the two clients with the daily cap, Node llm_node_call of src/investor/graphs/_nodes.py with
--     its log row; Attempts and Spending are the proofs.
--   Targets: load_targets_into_db of src/investor/services/targets.py; Closing and Dropping are the
--     proofs.
--   Snapshot: take_snapshot and _write_broker_account of src/investor/services/snapshot.py; Updates,
--     States and Batches are the proofs.
--   Jobs: run_daily_reconciliation_for_account and run_daily_reconciliation_all_brokers of
--     src/investor/jobs/reconciliation.py; Windows holds the proofs.
--   Funds: detect_funds_flow of src/investor/services/funds.py and
--     run_funds_detection_all_brokers of src/investor/jobs/funds_detection.py; Flows holds the proofs.
--   Lifecycle: the abstract view of a suggestion. Diagram has the moves of a status, Histories the
--     operations of the other modules as steps of a relation; the other children show of each
--     operation that it goes along the diagram.
--   Suggest: Anchor has select_anchor and _select_buy_anchor, Generate generate_suggestions,
--     Persist persist_suggestions, Topup generate_topup_suggestions; Budget, Coverage, Keeping,
--     Slots, Anchors, Returning, TopupFit and Headroom are the proofs.
--   The children called Tests apply the results at concrete inputs.
--
-- How the code is read. A function that changes the session or the broker takes the database and
-- the state of the broker and returns them. The broker is outside the program: its state is a type
-- parameter, and an adapter is a record of the calls on it, each of which may fail; no law of a
-- broker is assumed. An exception is a value: `none`, `false`, or a case of a result type. The
-- clock is read once for each call, where the source reads it again at each use. A query without an
-- order gives the rows in the order of the table.
--
-- Numbers. Identifiers, tickers and broker order ids are numbers, the empty order id being 0. Money
-- and prices are whole ten-thousandths of a dollar, quantities whole shares, confidences and the
-- factors of the settings hundredths, the costs of the language model hundred-millionths of a
-- dollar, a size factor ten-thousandths, instants seconds, where the source has floats and
-- datetimes; rounding of floats is not modelled. Differences of amounts are integers. Texts are
-- lists of code points. All loops are structural recursions but two, which go by fuel: the decimal
-- digits of a number, on one more than the number, while each digit divides it by ten, and the run
-- of the review's graph, on six, which is as many nodes as a way through the graph has.
--
-- Outside the program, and so parameters: the broker, the keyed hash of the links, the provider of
-- the language model and the check of its answers, in the review the answers with their fall-back,
-- what the sessions of the review's first and last node give (the context that is gathered, or an
-- exception, and whether the rows are committed), and the words of reasons and notes. Of the clock
-- of the language model's clients both readings are given: the local date and the day in UTC.
--
-- Not modelled: log lines and the texts of mails, pages and prompts, the telemetry and the
-- checkpoints of the review, the unique constraint on broker order ids, other transactions and their
-- rollback, the default of a pass to the primary account (the account is given), and the parts of
-- the repository that are not named above: the pages that only read and those that start a job, the
-- gaps to the targets, levels and indicators, the waits between retries, the reports and the remote
-- services.
pub mod Base
pub mod Calendar
pub mod ClientId
pub mod Store
pub mod Snapshot
pub mod Broker
pub mod Safety
pub mod AutoTrade
pub mod Orders
pub mod Unaccept
pub mod Accounts
pub mod Expiry
pub mod Reconciliation
pub mod Suggest
pub mod Targets
pub mod Web
pub mod Funds
pub mod Jobs
pub mod Lifecycle
pub mod Llm
pub mod Review
