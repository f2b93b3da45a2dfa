-- ===== src/Snapshot/Tests.antt =====
-- services/snapshot.py on two accounts: the cash of the first has changed, and a position was closed.
use me_invest_paper.Base.{
  ℕ, ◌+◌, ◌*◌, ◌≡◌, refl, true, none, some, List, [], ◌∷◌, any, arith, All, Has,
}
use me_invest_paper.Base.Int.{pos}
use me_invest_paper.Calendar.{day}
use me_invest_paper.Accounts.{BrokerAccount}
use me_invest_paper.Snapshot.{
  Account, Position, PositionsSnapshot, is_recent_row, write_broker_account, position_row,
  tombstone, batch,
}
use me_invest_paper.ClientId.{same_text}
use me_invest_paper.Snapshot.States.{IsWritten, write_broker_account-IsWritten}
use me_invest_paper.Snapshot.Batches.{IsOfBatch, has_ticker, batch-IsComplete}

abbrev now : ℕ
now = 100 * day

abbrev state : ℕ → ℕ → ℕ → BrokerAccount
state id ref cash = record {
  id = id;
  account_ref = some ref;
  account_id = some (b'x' ∷ []);
  broker = b'a' ∷ [];
  mode = [];
  nickname = some (b'n' ∷ []);
  is_active = true;
  connection_config = none;
  cash_usd = pos cash;
  equity_usd = pos 2000000;
  last_sync = now;
  effective_from = none;
  effective_to = none;
}

abbrev states : List BrokerAccount
states = state 1 1 500 ∷ state 2 2 700 ∷ []

abbrev read : Account
read = record {
  account_id = b'x' ∷ [];
  cash_usd = pos 1000000;
  equity_usd = pos 2000000;
  as_of = now + 60;
  currency = [];
}

abbrev held : Position
held = record { ticker = 7; qty = 2; avg_cost = 400000; market_value = 1000000; currency = [] }

abbrev table : List PositionsSnapshot
table =
    position_row 1 (record read { as_of = now }) held
    ∷ position_row 1 (record read { as_of = now }) (record held { ticker = 8 })
    ∷ position_row 2 (record read { as_of = now }) (record held { ticker = 9 })
    ∷ []

written_two :
    batch (now + 60) 1 read (held ∷ []) table ≡ position_row 1 read held ∷ tombstone 1 read 8 ∷ []
unfolding batch
written_two = refl

changed_state :
    write_broker_account read [] [] 1 3 states
    ≡ record (state 1 1 500) { effective_to = some (now + 60) }
      ∷ state 2 2 700
      ∷ record (state 3 1 1000000) { last_sync = now + 60; effective_from = some (now + 60) }
      ∷ []
unfolding write_broker_account same_text
changed_state = refl

write_broker_account-IsWritten_example :
    IsWritten read [] [] 1 3 states (write_broker_account read [] [] 1 3 states)
write_broker_account-IsWritten_example =
    write_broker_account-IsWritten read [] [] 1 3 states (omega arith) (ground arith)

batch-IsComplete_example :
    All (IsOfBatch (now + 60) 1 read (held ∷ [])) (batch (now + 60) 1 read (held ∷ []) table)
    × ((r : PositionsSnapshot)
        → Has r table
        → is_recent_row (now + 60) 1 r ≡ true
        → any (has_ticker r.ticker) (batch (now + 60) 1 read (held ∷ []) table) ≡ true)
batch-IsComplete_example = batch-IsComplete (now + 60) 1 read (held ∷ []) table
