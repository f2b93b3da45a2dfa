-- ===== src/Llm/Client.antt =====
-- The two clients of services/llm.py, and `llm_node_call` of graphs/_nodes.py. Costs are whole
-- hundred-millionths of a dollar, of which the rates for a token are multiples. The clock gives a day
-- for each call, the latency is left out. The provider is a parameter, and so are the hash of a prompt
-- and the validation of an answer against a schema.
use me_invest_paper.Base.{
  ℕ, ◌+◌, ◌*◌, ◌/◌, ◌&&◌, Option, none, some, List, [], ◌∷◌, ◌++◌, ◌==◌, leb, if◌then◌else◌,
}
use me_invest_paper.Store.{Text}
use me_invest_paper.Llm.Retry.{Failure, Attempt, done, failed, run_with_retry}
use me_invest_paper.Llm.Fences.{strip_fences}

pub data LlmModel : Type 0 where
  haiku sonnet : LlmModel
  unknown_model : ℕ → LlmModel

-- The rates for a token that is read and one that is written.
abbrev pub rates : LlmModel → Option (ℕ × ℕ)
rates haiku = some (100, 500)
rates sonnet = some (300, 1500)
rates (unknown_model name) = none

abbrev pub cost_at : Option (ℕ × ℕ) → ℕ → ℕ → ℕ → ℕ → Option ℕ
cost_at none in_toks out_toks cache_write cache_read = none
cost_at (some (r_in, r_out)) in_toks out_toks cache_write cache_read = some (
    in_toks * r_in
    + out_toks * r_out
    + cache_write * (r_in * 125 / 100)
    + cache_read * (r_in * 10 / 100))

-- `_calc_cost`, where `none` is a `KeyError`.
unfoldable pub calc_cost : LlmModel → ℕ → ℕ → ℕ → ℕ → Option ℕ
calc_cost model in_toks out_toks cache_write cache_read =
    cost_at (rates model) in_toks out_toks cache_write cache_read

pub record Request : Type 0 where
  pub model : LlmModel
  pub system : Text
  pub user : Text
  pub temperature : ℕ

-- A message of the provider: its blocks, and the tokens, those of the cache where they are told.
pub data Block : Type 0 where
  text_block : Text → Block
  other_block : Block

pub record Message : Type 0 where
  pub content : List Block
  pub input_tokens : ℕ
  pub output_tokens : ℕ
  pub cache_creation : Option ℕ
  pub cache_read : Option ℕ

-- The result of the agent's kit, where no tokens are zero.
pub record ResultMessage : Type 0 where
  pub result : Option Text
  pub input_tokens : ℕ
  pub output_tokens : ℕ
  pub total_cost_usd : Option ℕ

pub record LlmResponse : Type 0 where
  pub content : Text
  pub model : LlmModel
  pub prompt_hash : ℕ
  pub input_tokens : ℕ
  pub output_tokens : ℕ
  pub cost_usd : ℕ
  pub temperature : Option ℕ
  pub cache_write_tokens : ℕ
  pub cache_read_tokens : ℕ

-- The state of a client.
pub record LlmClient : Type 0 where
  pub daily_cap : ℕ
  pub spent_today : ℕ
  pub today : ℕ

-- `_usage_int`
abbrev pub usage_int : Option ℕ → ℕ
usage_int none = 0
usage_int (some n) = n

pub data Error : Type 0 where
  cap_reached : Error
  provider_error : Failure → Error
  no_block unexpected_block unpriced_model : Error

pub data Called (T : Type 0) : Type 0 where
  answered : LlmResponse → Option T → Called T
  raised : Error → Called T

-- `_reset_if_new_day`, and `_roll_day_if_needed` of the other client.
abbrev pub reset_if_new_day : ℕ → LlmClient → LlmClient
reset_if_new_day today c =
    if today == c.today then c else record c { spent_today = 0; today = today }

abbrev pub charge : ℕ → LlmClient → LlmClient
charge cost c = record c { spent_today = c.spent_today + cost }

module _ {W T : Type 0} (prompt_hash : Text → ℕ) (validate : Text → Option T)
    (create : Request → W → Attempt Message × W)
    (query : Request → W → Attempt ResultMessage × W) where
  -- The answer, charged at its cost.
  abbrev pub charged : LlmResponse → LlmClient → W → Called T × LlmClient × W
  charged resp c w =
      (answered resp (validate (strip_fences resp.content)), charge resp.cost_usd c, w)

  abbrev pub response : Request → Message → Text → ℕ → LlmResponse
  response req msg content cost = record {
    content = content;
    model = req.model;
    prompt_hash = prompt_hash (req.system ++ req.user);
    input_tokens = msg.input_tokens;
    output_tokens = msg.output_tokens;
    cost_usd = cost;
    temperature = some req.temperature;
    cache_write_tokens = usage_int msg.cache_creation;
    cache_read_tokens = usage_int msg.cache_read;
  }

  abbrev pub price : Request → Message → Text → LlmClient → W → Option ℕ → Called T × LlmClient × W
  price req msg content c w none = (raised unpriced_model, c, w)
  price req msg content c w (some cost) = charged (response req msg content cost) c w

  abbrev pub read_block : Request → Message → List Block → LlmClient → W → Called T × LlmClient × W
  read_block req msg [] c w = (raised no_block, c, w)
  read_block req msg (other_block ∷ blocks) c w = (raised unexpected_block, c, w)
  read_block req msg (text_block content ∷ blocks) c w = price req msg content c w (
      calc_cost req.model msg.input_tokens msg.output_tokens (usage_int msg.cache_creation)
        (usage_int msg.cache_read))

  abbrev pub read_message : Request → LlmClient → Attempt Message × W → Called T × LlmClient × W
  read_message req c (failed e, w) = (raised (provider_error e), c, w)
  read_message req c (done msg, w) = read_block req msg msg.content c w

  -- `AnthropicAPIClient.call`
  unfoldable pub api_call : ℕ → Request → LlmClient → W → Called T × LlmClient × W
  api_call today req client w =
      let c = reset_if_new_day today client in
      if leb c.daily_cap c.spent_today
      then (raised cap_reached, c, w)
      else read_message req c (run_with_retry (create req) w)

  -- The cost by the tokens, or the one that is reported where there are none.
  abbrev pub agent_cost : LlmModel → ResultMessage → Option ℕ
  agent_cost model msg =
      if (msg.input_tokens == 0) && (msg.output_tokens == 0)
      then some (usage_int msg.total_cost_usd)
      else calc_cost model msg.input_tokens msg.output_tokens 0 0

  abbrev pub text_of_result : Option Text → Text
  text_of_result none = []
  text_of_result (some s) = s

  abbrev pub agent_response : Request → ResultMessage → ℕ → LlmResponse
  agent_response req msg cost = record {
    content = text_of_result msg.result;
    model = req.model;
    prompt_hash = prompt_hash (req.system ++ req.user);
    input_tokens = msg.input_tokens;
    output_tokens = msg.output_tokens;
    cost_usd = cost;
    temperature = none;
    cache_write_tokens = 0;
    cache_read_tokens = 0;
  }

  abbrev pub price_result :
      Request → ResultMessage → LlmClient → W → Option ℕ → Called T × LlmClient × W
  price_result req msg c w none = (raised unpriced_model, c, w)
  price_result req msg c w (some cost) = charged (agent_response req msg cost) c w

  abbrev pub read_result :
      Request → LlmClient → Attempt ResultMessage × W → Called T × LlmClient × W
  read_result req c (failed e, w) = (raised (provider_error e), c, w)
  read_result req c (done msg, w) = price_result req msg c w (agent_cost req.model msg)

  -- `AgentSDKClient.call`
  unfoldable pub agent_call : ℕ → Request → LlmClient → W → Called T × LlmClient × W
  agent_call today req client w =
      let c = reset_if_new_day today client in
      if leb c.daily_cap c.spent_today
      then (raised cap_reached, c, w)
      else read_result req c (run_with_retry (query req) w)
