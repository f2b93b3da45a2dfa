-- ===== src/Llm/Spending.antt =====
-- The daily cap of services/llm.py, and the log of the calls.
use me_invest_paper.Base.{
  ℕ, ◌+◌, ◌≤◌, ◌<◌, ◌≡◌, refl, ap, ◌∙◌, sym, subst, ◌⊎◌, inl, inr, true, false, Option, none, some,
  List, [], ◌∷◌, ◌++◌, ◌==◌, leb, arith, total, total-append, All, All-map, All-append, Has,
  Bool-cases,
}
use me_invest_paper.Store.{Text}
use me_invest_paper.Llm.Retry.{Attempt, done, failed, run_with_retry}
use me_invest_paper.Llm.Client.{
  Request, Message, ResultMessage, Block, text_block, other_block, LlmClient, Called, answered,
  raised, reset_if_new_day, charge, price, read_block, read_message, api_call, agent_cost,
  price_result, read_result, agent_call,
}
use me_invest_paper.Llm.Node.{
  LlmCallLog, Backend, anthropic_api, agent_sdk, Ask, status_of_parsed, log_row, call_by, logged,
  llm_node_call, llm_node_calls,
}

-- What the rows of a day in UTC cost.
abbrev pub cost_on : ℕ → List LlmCallLog → ℕ
cost_on day log = total (λ r. r.utc_day == day) (λ r. r.cost_usd) log

-- The client's local date is that in UTC at each call.
abbrev pub InUtc : List Ask → Type 0
InUtc asks = All (λ ask. ask.utc_day ≡ ask.today) asks

-- The client's sum is that of the rows of its day, no row is of a later day, and the sum without one
-- of the rows is below the cap, if there is any.
abbrev pub IsKept : LlmClient → List LlmCallLog → Type 0
IsKept c log =
    (c.spent_today ≡ cost_on c.today log)
    × All (λ r. r.utc_day ≤ c.today) log
    × ((c.spent_today ≡ 0)
        ⊎ ((r : LlmCallLog) × Has r log
            × (r.utc_day ≡ c.today)
            × (c.spent_today < c.daily_cap + r.cost_usd)))

cost_on-later :
    (day today : ℕ) (log : List LlmCallLog)
    → day < today
    → All (λ r. r.utc_day ≤ day) log
    → cost_on today log ≡ 0
cost_on-later day today [] later h = refl
cost_on-later day today (r ∷ log) later (below, h) =
    let rest = cost_on-later day today log later h in ground arith

reset-IsKept :
    (today : ℕ) (c : LlmClient) (log : List LlmCallLog)
    → c.today ≤ today
    → IsKept c log
    → IsKept (reset_if_new_day today c) log
reset-IsKept today c log later (sum, past, cap) = elim (Bool-cases (today == c.today)) [
  | inl same ↦ rw same (sum, past, cap)
  | inr other ↦
      let none_yet : cost_on today log ≡ 0 = cost_on-later c.today today log (ground arith) past in
      rw other (
        sym none_yet,
        All-map _ (λ r. r.utc_day ≤ today) (λ r below. omega arith) log past,
        inl refl,
      )
]

Has-last : (log : List LlmCallLog) (r : LlmCallLog) → Has r (log ++ r ∷ [])
Has-last [] r = inl refl
Has-last (x ∷ log) r = inr (Has-last log r)

-- A row of the day, charged below the cap.
IsKept-charge :
    (c : LlmClient) (log : List LlmCallLog) (r : LlmCallLog)
    → r.utc_day ≡ c.today
    → c.spent_today < c.daily_cap
    → IsKept c log
    → IsKept (charge r.cost_usd c) (log ++ r ∷ [])
IsKept-charge c log r today below (sum, past, cap) =
    let more : cost_on c.today (log ++ r ∷ []) ≡ cost_on c.today log + cost_on c.today (r ∷ []) =
      total-append (λ r. r.utc_day == c.today) (λ r. r.cost_usd) log (r ∷ []) in
    (
      ground (arith, more),
      All-append (λ r. r.utc_day ≤ c.today) log (r ∷ []) past (omega arith, tt),
      inr (r, Has-last log r, today, omega arith),
    )

-- A call that is answered is charged, and began below the cap; one that raises costs nothing.
abbrev pub Charged : {W T : Type 0} → LlmClient → Called T × LlmClient × W → Type 0
Charged c (answered resp parsed, c', w) =
    (c' ≡ charge resp.cost_usd c) × (c.spent_today < c.daily_cap)
Charged c (raised e, c', w) = c' ≡ c

-- The days of the calls do not go back.
abbrev pub Rises : ℕ → List Ask → Type 0
Rises day [] = Unit
Rises day (ask ∷ asks) = (day ≤ ask.today) × Rises ask.today asks

reset-today : (today : ℕ) (c : LlmClient) → (reset_if_new_day today c).today ≡ today
reset-today today c = ground arith

reset-daily_cap : (today : ℕ) (c : LlmClient) → (reset_if_new_day today c).daily_cap ≡ c.daily_cap
reset-daily_cap today c = ground arith

module _ {W T : Type 0} (prompt_hash : Text → ℕ) (validate : Text → Option T)
    (create : Request → W → Attempt Message × W)
    (query : Request → W → Attempt ResultMessage × W) where
  price-Charged :
      (req : Request) (msg : Message) (content : Text) (c : LlmClient) (w : W) (cost : Option ℕ)
      → c.spent_today < c.daily_cap
      → Charged c (price prompt_hash validate create query req msg content c w cost)
  price-Charged req msg content c w none below = refl
  price-Charged req msg content c w (some cost) below = (refl, below)

  read_block-Charged :
      (req : Request) (msg : Message) (blocks : List Block) (c : LlmClient) (w : W)
      → c.spent_today < c.daily_cap
      → Charged c (read_block prompt_hash validate create query req msg blocks c w)
  read_block-Charged req msg [] c w below = refl
  read_block-Charged req msg (other_block ∷ blocks) c w below = refl
  read_block-Charged req msg (text_block content ∷ blocks) c w below =
      price-Charged req msg content c w _ below

  read_message-Charged :
      (req : Request) (c : LlmClient) (out : Attempt Message × W)
      → c.spent_today < c.daily_cap
      → Charged c (read_message prompt_hash validate create query req c out)
  read_message-Charged req c (failed e, w) below = refl
  read_message-Charged req c (done msg, w) below = read_block-Charged req msg msg.content c w below

  price_result-Charged :
      (req : Request) (msg : ResultMessage) (c : LlmClient) (w : W) (cost : Option ℕ)
      → c.spent_today < c.daily_cap
      → Charged c (price_result prompt_hash validate create query req msg c w cost)
  price_result-Charged req msg c w none below = refl
  price_result-Charged req msg c w (some cost) below = (refl, below)

  read_result-Charged :
      (req : Request) (c : LlmClient) (out : Attempt ResultMessage × W)
      → c.spent_today < c.daily_cap
      → Charged c (read_result prompt_hash validate create query req c out)
  read_result-Charged req c (failed e, w) below = refl
  read_result-Charged req c (done msg, w) below =
      price_result-Charged req msg c w (agent_cost prompt_hash validate create query req.model msg)
        below

  call_by-Charged :
      (b : Backend) (today : ℕ) (req : Request) (c : LlmClient) (w : W)
      → Charged
          (reset_if_new_day today c)
          (call_by prompt_hash validate create query b today req c w)
  unfolding api_call agent_call
  call_by-Charged b today req client w =
      let c = reset_if_new_day today client in
      elim (Bool-cases (leb c.daily_cap c.spent_today)) [
        | inl reached ↦ refuse b reached
        | inr below ↦ go_on b below
      ]
    where
      refuse :
          (b : Backend)
          → leb
              (reset_if_new_day today client).daily_cap
              (reset_if_new_day today client).spent_today
            ≡ true
          → Charged
              (reset_if_new_day today client)
              (call_by prompt_hash validate create query b today req client w)
      refuse anthropic_api reached = rw reached refl
      refuse agent_sdk reached = rw reached refl

      go_on :
          (b : Backend)
          → leb
              (reset_if_new_day today client).daily_cap
              (reset_if_new_day today client).spent_today
            ≡ false
          → Charged
              (reset_if_new_day today client)
              (call_by prompt_hash validate create query b today req client w)
      go_on anthropic_api below =
          rw below (read_message-Charged req _ (run_with_retry (create req) w) (ground arith))
      go_on agent_sdk below =
          rw below (read_result-Charged req _ (run_with_retry (query req) w) (ground arith))

  module _ (backend : Backend) (fallback : T) where
    -- What a call of a node leaves.
    abbrev pub Leaves : LlmClient → Option T × LlmClient × List LlmCallLog × W → Type 0
    Leaves c (value, c', log', w') =
        IsKept c' log' × (c'.daily_cap ≡ c.daily_cap) × (c'.today ≡ c.today)

    logged-Leaves :
        (ask : Ask) (c : LlmClient) (out : Called T × LlmClient × W) (log : List LlmCallLog)
        → c.today ≡ ask.today
        → ask.utc_day ≡ ask.today
        → IsKept c log
        → Charged c out
        → Leaves c (logged prompt_hash validate create query backend fallback ask out log)
    logged-Leaves ask c (raised e, c', w') log same utc kept charged = (
      subst (λ x. IsKept x log) (sym charged) kept,
      ap (λ x. x.daily_cap) charged,
      ap (λ x. x.today) charged,
    )
    logged-Leaves ask c (answered resp parsed, c', w') log same utc (sum, past, cap)
          (charged, below) =
        (
          subst
              (λ x.
                IsKept x
                  (log ++ log_row ask.utc_day ask.purpose (status_of_parsed parsed) resp ∷ []))
              (sym charged)
              (IsKept-charge c log (log_row ask.utc_day ask.purpose (status_of_parsed parsed) resp)
                (utc ∙ sym same) below (sum, past, cap)),
          ap (λ x. x.daily_cap) charged,
          ap (λ x. x.today) charged,
        )

    -- Any calls of the nodes in a row, on either client and whatever the provider answers or raises,
    -- on days that do not go back, keep this, where at each call the local date is the date in UTC:
    -- what the client takes as spent on its day is the cost of the rows in the log that are stamped
    -- with that day, and it is below the cap and the cost of one of these rows, if there is any. The
    -- cap stays.
    pub llm_node_calls-IsKept :
        (asks : List Ask) (c : LlmClient) (log : List LlmCallLog) (w : W)
        → Rises c.today asks
        → InUtc asks
        → IsKept c log
        → let (c', log', _) =
            llm_node_calls prompt_hash validate create query backend fallback asks c log w in
          IsKept c' log' × (c'.daily_cap ≡ c.daily_cap)
    unfolding llm_node_calls llm_node_call
    llm_node_calls-IsKept [] c log w rises utc kept = (kept, refl)
    llm_node_calls-IsKept (ask ∷ asks) c log w (later, rises) (here, utc) kept =
        let out = call_by prompt_hash validate create query backend ask.today ask.request c w in
        let (kept₁, cap₁, today₁) =
          logged-Leaves ask (reset_if_new_day ask.today c) out log (reset-today ask.today c) here
            (reset-IsKept ask.today c log later kept)
            (call_by-Charged backend ask.today ask.request c w) in
        let (_, c₁, log₁, w₁) =
          logged prompt_hash validate create query backend fallback ask out log in
        let (kept₂, cap₂) =
          llm_node_calls-IsKept asks c₁ log₁ w₁
            (subst (λ d. Rises d asks) (sym (today₁ ∙ reset-today ask.today c)) rises) utc kept₁ in
        (kept₂, cap₂ ∙ cap₁ ∙ reset-daily_cap ask.today c)
