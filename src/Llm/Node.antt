-- ===== src/Llm/Node.antt =====
-- `llm_node_call` of graphs/_nodes.py with `persist_llm_call_log` of services/llm.py, on either client.
-- The text of an error is left out of the log, and the stamp of a row is kept as
-- its day in UTC, which need not be the date that the client reads from its local clock.
use me_invest_paper.Base.{ℕ, Option, none, some, List, [], ◌∷◌, ◌++◌}
use me_invest_paper.Store.{Text}
use me_invest_paper.Llm.Retry.{Attempt}
use me_invest_paper.Llm.Client.{
  LlmModel, Request, Message, ResultMessage, LlmResponse, LlmClient, Called, answered, raised,
  api_call, agent_call,
}

pub data CallStatus : Type 0 where
  parsed_ok schema_error : CallStatus

pub record LlmCallLog : Type 0 where
  pub utc_day : ℕ
  pub purpose : Text
  pub model : LlmModel
  pub prompt_hash : ℕ
  pub input_tokens : ℕ
  pub output_tokens : ℕ
  pub cost_usd : ℕ
  pub status : CallStatus
  pub temperature : Option ℕ
  pub cache_write_tokens : ℕ
  pub cache_read_tokens : ℕ

-- `settings.llm_backend`, by which `make_llm_client` makes a client.
pub data Backend : Type 0 where
  anthropic_api agent_sdk : Backend

-- One call of a node, with the local date, by which a client counts, and the day in UTC.
pub record Ask : Type 0 where
  pub today : ℕ
  pub utc_day : ℕ
  pub purpose : Text
  pub request : Request

abbrev pub status_of_parsed : {T : Type 0} → Option T → CallStatus
status_of_parsed none = schema_error
status_of_parsed (some t) = parsed_ok

abbrev pub or_fallback : {T : Type 0} → T → Option T → T
or_fallback fallback none = fallback
or_fallback fallback (some t) = t

abbrev pub log_row : ℕ → Text → CallStatus → LlmResponse → LlmCallLog
log_row utc_day purpose status resp = record {
  utc_day = utc_day;
  purpose = purpose;
  model = resp.model;
  prompt_hash = resp.prompt_hash;
  input_tokens = resp.input_tokens;
  output_tokens = resp.output_tokens;
  cost_usd = resp.cost_usd;
  status = status;
  temperature = resp.temperature;
  cache_write_tokens = resp.cache_write_tokens;
  cache_read_tokens = resp.cache_read_tokens;
}

module _ {W T : Type 0} (prompt_hash : Text → ℕ) (validate : Text → Option T)
    (create : Request → W → Attempt Message × W)
    (query : Request → W → Attempt ResultMessage × W) where
  abbrev pub call_by : Backend → ℕ → Request → LlmClient → W → Called T × LlmClient × W
  call_by anthropic_api = api_call prompt_hash validate create query
  call_by agent_sdk = agent_call prompt_hash validate create query

  module _ (backend : Backend) (fallback : T) where
    -- What is given back, with the row that is written. `none` is an exception, which writes none.
    abbrev pub logged :
        Ask
        → Called T × LlmClient × W
        → List LlmCallLog
        → Option T × LlmClient × List LlmCallLog × W
    logged ask (raised e, c, w) log = (none, c, log, w)
    logged ask (answered resp parsed, c, w) log = (
      some (or_fallback fallback parsed),
      c,
      log ++ log_row ask.utc_day ask.purpose (status_of_parsed parsed) resp ∷ [],
      w,
    )

    unfoldable pub llm_node_call :
        Ask → LlmClient → List LlmCallLog → W → Option T × LlmClient × List LlmCallLog × W
    llm_node_call ask c log w = logged ask (call_by backend ask.today ask.request c w) log

    -- Calls in a row, whatever each of them gives.
    unfoldable pub llm_node_calls :
        List Ask → LlmClient → List LlmCallLog → W → LlmClient × List LlmCallLog × W
    llm_node_calls [] c log w = (c, log, w)
    llm_node_calls (ask ∷ asks) c log w =
        let (_, c', log', w') = llm_node_call ask c log w in llm_node_calls asks c' log' w'
