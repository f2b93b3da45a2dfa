-- ===== src/Llm/Tests.antt =====
-- services/llm.py with a provider that is overloaded once, and at the cap.
use me_invest_paper.Base.{ℕ, zero, suc, ◌≡◌, refl, inl, Option, none, some, List, [], ◌∷◌, arith}
use me_invest_paper.Store.{Text}
use me_invest_paper.Llm.Retry.{
  Attempt, done, failed, internal_server, other, attempts, run_with_retry,
}
use me_invest_paper.Llm.Fences.{strip_fences}
use me_invest_paper.Llm.Client.{
  haiku, Request, Message, text_block, ResultMessage, LlmClient, calc_cost, api_call,
}
use me_invest_paper.Llm.Node.{LlmCallLog, anthropic_api, Ask, llm_node_call, llm_node_calls}
use me_invest_paper.Llm.Attempts.{Ended, run_with_retry-Ended}
use me_invest_paper.Llm.Spending.{IsKept, llm_node_calls-IsKept}

abbrev braces : Text
braces = b'{' ∷ b'}' ∷ []

abbrev fenced : Text
fenced = b'`' ∷ b'`' ∷ b'`' ∷ b'j' ∷ 10 ∷ b'{' ∷ b'}' ∷ 10 ∷ b'`' ∷ b'`' ∷ b'`' ∷ 10 ∷ []

unfenced : strip_fences fenced ≡ braces
unfolding strip_fences
unfenced = refl

abbrev answer : Message
answer = record {
  content = text_block fenced ∷ [];
  input_tokens = 1000;
  output_tokens = 200;
  cache_creation = none;
  cache_read = some 500;
}

-- The state of the provider counts the calls that it was sent, of which the second is answered.
abbrev serve : ℕ → Attempt Message × ℕ
serve zero = (failed internal_server, 1)
serve (suc n) = (done answer, suc (suc n))

served_second : run_with_retry serve 0 ≡ (done answer, 2)
unfolding run_with_retry attempts
served_second = refl

run_with_retry-Ended_example : Ended serve 2 0 (run_with_retry serve 0)
run_with_retry-Ended_example = run_with_retry-Ended serve 0

abbrev no_agent : Request → ℕ → Attempt ResultMessage × ℕ
no_agent req n = (failed other, n)

abbrev validate : Text → Option ℕ
validate [] = none
validate (c ∷ s) = some c

abbrev ask : ℕ → Ask
ask day = record {
  today = day;
  utc_day = day;
  purpose = [];
  request = record { model = haiku; system = []; user = []; temperature = 0 };
}

-- The cap is two thousandths of a dollar, and an answer costs more.
abbrev client : LlmClient
client = record { daily_cap = 200000; spent_today = 0; today = 5 }

abbrev asks : List Ask
asks = ask 6 ∷ ask 6 ∷ ask 7 ∷ []

abbrev after_asks : LlmClient × List LlmCallLog × ℕ
after_asks =
    llm_node_calls (λ t. 0) validate (λ req. serve) no_agent anthropic_api 0 asks client [] 0

-- The second call of the day is refused, and the third is of the next day.
two_answers : (after_asks.0.spent_today ≡ 205000) × (after_asks.2 ≡ 3)
unfolding llm_node_calls llm_node_call api_call run_with_retry attempts calc_cost strip_fences
two_answers = (refl, refl)

llm_node_calls-IsKept_example :
    IsKept after_asks.0 after_asks.1 × (after_asks.0.daily_cap ≡ client.daily_cap)
llm_node_calls-IsKept_example =
    llm_node_calls-IsKept (λ t. 0) validate (λ req. serve) no_agent anthropic_api 0 asks client [] 0
      (omega arith, (omega arith, (omega arith, tt))) (refl, (refl, (refl, tt)))
      (refl, tt, inl refl)
