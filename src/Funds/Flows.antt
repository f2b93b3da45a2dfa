-- ===== src/Funds/Flows.antt =====
-- What an event of services/funds.py says of the cash.
use me_invest_paper.Base.{
  ℕ, zero, suc, ◌+◌, ◌<◌, ◌≡◌, refl, inl, inr, true, not, Option, none, some, List, [], ◌∷◌, filter,
  total, arith, All, All-append, Has, Has-filter, Has-latest_by, ltb, leb, holds, ◌&&◌, Bool-cases,
}
use me_invest_paper.Base.Int.{ℤ, pos, negsuc, pos_part, neg_part, sub_ℕ, ◌-ℤ◌, -ℤ_parts}
use me_invest_paper.Store.{Execution, is_buy}
use me_invest_paper.Accounts.{BrokerAccount, AccountInfo, list_active_accounts}
use me_invest_paper.Snapshot.{is_open_state, latest_state}
use me_invest_paper.Funds.{
  FlowKind, kind_of, FundsFlow, FundsEvent, state_before, is_fill_between, fill_value,
  trade_cash_flow_of, flow_if, flow_since, flow_from, detect_funds_flow, noted, detect_each,
  run_funds_detection_all_brokers,
}

sub_parts : (a b : ℕ) → pos_part (sub_ℕ a b) + b ≡ neg_part (sub_ℕ a b) + a
sub_parts a b = ground arith

-- The kind goes by the sign.
abbrev pub HasKind : FlowKind → ℤ → Type 0
HasKind FlowKind.deposit d = 0 < pos_part d
HasKind FlowKind.withdrawal d = 0 < neg_part d

module _ (threshold today_start now : ℕ) (rows : List BrokerAccount)
    (executions : List Execution) where
  -- The cash of the earlier row, with what the sales between the two rows brought and without what
  -- the purchases cost, and with the flow, is the cash of the later row.
  abbrev pub IsExplained : FundsFlow → Type 0
  IsExplained flow =
      (cur : BrokerAccount) × (prev : BrokerAccount) × Has cur rows
      × (is_open_state flow.broker_account_id cur ≡ true)
      × Has prev rows
      × (prev.last_sync < today_start)
      × (let fills =
            filter (is_fill_between flow.broker_account_id prev.last_sync cur.last_sync)
              executions in
          pos_part prev.cash_usd
            + total (λ e. not (is_buy e.side)) fill_value fills
            + pos_part flow.delta_usd
            + neg_part cur.cash_usd
          ≡ pos_part cur.cash_usd
            + total (λ e. is_buy e.side) fill_value fills
            + neg_part flow.delta_usd
            + neg_part prev.cash_usd)
      × (threshold < pos_part flow.delta_usd + neg_part flow.delta_usd)
      × HasKind flow.kind flow.delta_usd

  abbrev pub ExplainedIfAny : Option FundsFlow → Type 0
  ExplainedIfAny none = Unit
  ExplainedIfAny (some flow) = IsExplained flow

  sound_flow :
      (ref : ℕ) (cur prev : BrokerAccount) (trades external : ℤ)
      → external ≡ (cur.cash_usd -ℤ prev.cash_usd) -ℤ trades
      → trades
        ≡ trade_cash_flow_of (filter (is_fill_between ref prev.last_sync cur.last_sync) executions)
      → Has cur rows
      → is_open_state ref cur ≡ true
      → Has prev rows
      → prev.last_sync < today_start
      → ExplainedIfAny (flow_if threshold ref cur prev trades external)
  sound_flow ref cur prev trades external e t has opened before early =
      elim (Bool-cases (leb (pos_part external + neg_part external) threshold)) [
        | inl small ↦ rw small tt
        | inr large ↦
            let fills = filter (is_fill_between ref prev.last_sync cur.last_sync) executions in
            let sells = total (λ (x : Execution). not (is_buy x.side)) fill_value fills in
            let buys = total (λ (x : Execution). is_buy x.side) fill_value fills in
            let traded : pos_part trades + buys ≡ neg_part trades + sells = parts_of sells buys t in
            let cash = -ℤ_parts cur.cash_usd prev.cash_usd in
            let whole : pos_part external
                  + neg_part (cur.cash_usd -ℤ prev.cash_usd)
                  + pos_part trades
                ≡ neg_part external + pos_part (cur.cash_usd -ℤ prev.cash_usd) + neg_part trades =
              whole_of e in
            rw large (
              cur,
              prev,
              has,
              opened,
              before,
              early,
              omega arith,
              ground arith,
              signed external (ground arith),
            )
      ]
    where
      parts_of :
          (sells buys : ℕ)
          → trades ≡ sub_ℕ sells buys
          → pos_part trades + buys ≡ neg_part trades + sells
      parts_of sells buys h = rw h (sub_parts sells buys)

      whole_of :
          external ≡ (cur.cash_usd -ℤ prev.cash_usd) -ℤ trades
          → pos_part external + neg_part (cur.cash_usd -ℤ prev.cash_usd) + pos_part trades
            ≡ neg_part external + pos_part (cur.cash_usd -ℤ prev.cash_usd) + neg_part trades
      whole_of h = rw h (-ℤ_parts (cur.cash_usd -ℤ prev.cash_usd) trades)

      signed : (d : ℤ) → 0 < pos_part d + neg_part d → HasKind (kind_of d) d
      signed (pos zero) h = ground arith
      signed (pos (suc n)) h = omega arith
      signed (negsuc n) h = omega arith

  -- From the rows that the two queries give.
  since-Explained :
      (ref : ℕ) (cur : BrokerAccount) (o : Option BrokerAccount)
      → Has cur rows
      → is_open_state ref cur ≡ true
      → state_before ref today_start rows ≡ o
      → ExplainedIfAny (flow_since threshold ref executions cur o)
  since-Explained ref cur none has opened e = tt
  since-Explained ref cur (some prev) has opened e =
      let earlier = λ (r : BrokerAccount). holds r.account_ref ref && ltb r.last_sync today_start in
      let (m, passed) =
        Has-filter earlier prev rows
          (Has-latest_by (λ r. r.last_sync) prev (filter earlier rows) e) in
      sound_flow ref cur prev _ _ refl refl has opened m (ground arith)

  from-Explained :
      (ref : ℕ) (o : Option BrokerAccount)
      → latest_state ref rows ≡ o
      → ExplainedIfAny (flow_from threshold ref executions o (state_before ref today_start rows))
  from-Explained ref none e = tt
  from-Explained ref (some cur) e =
      let (m, opened) =
        Has-filter (is_open_state ref) cur rows
          (Has-latest_by (λ r. r.last_sync) cur (filter (is_open_state ref) rows) e) in
      since-Explained ref cur (state_before ref today_start rows) m opened refl

  detect-Explained :
      (ref : ℕ) → ExplainedIfAny (detect_funds_flow threshold today_start now rows executions ref)
  unfolding detect_funds_flow
  detect-Explained ref = from-Explained ref (latest_state ref rows) refl

  noted-Explained :
      (o : Option FundsFlow) (events : List FundsEvent)
      → ExplainedIfAny o
      → All (λ e. IsExplained e.flow) events
      → All (λ e. IsExplained e.flow) (noted threshold today_start now rows executions o events)
  noted-Explained none events h all = all
  noted-Explained (some flow) events h all =
      All-append (λ e. IsExplained e.flow) events _ all (h, tt)

  each-Explained :
      (accounts : List AccountInfo) (events : List FundsEvent)
      → All (λ e. IsExplained e.flow) events
      → All
          (λ e. IsExplained e.flow)
          (detect_each threshold today_start now rows executions accounts events)
  unfolding detect_each
  each-Explained [] events all = all
  each-Explained (account ∷ accounts) events all = each-Explained accounts _ (
      noted-Explained
        (detect_funds_flow threshold today_start now rows executions account.account_ref) events
        (detect-Explained account.account_ref) all)

  -- Each event of a run that starts with none is explained by two state rows of the tables, of which
  -- the later is an open one of the account and the earlier was read before the day: the earlier
  -- cash, with the proceeds of the account's real sales between the two, without the cost of its
  -- purchases, and with the flow, is the later cash, to the last unit. The flow is larger than the
  -- threshold, and it is a deposit when it is above zero and a withdrawal when it is below.
  pub run_funds_detection-Explained :
      All
        (λ e. IsExplained e.flow)
        (run_funds_detection_all_brokers threshold today_start now rows executions [])
  unfolding run_funds_detection_all_brokers
  run_funds_detection-Explained = each-Explained (list_active_accounts rows) [] tt
