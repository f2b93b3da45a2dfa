-- ===== src/Suggest/Persist.antt =====
-- `persist_suggestions` of services/suggest.py.
use me_invest_paper.Base.{
  ℕ, ◌+◌, Bool, ◌&&◌, Option, none, some, List, [], ◌∷◌, ◌++◌, ◌==◌, find?, if◌then◌else◌,
}
use me_invest_paper.Store.{
  Text, Side, Kind, Suggestion, SuggestionStatus, Db, is_pending, same_side, set_suggestion,
}

-- `OrderSuggestionRow`
pub record SuggestionRow : Type 0 where
  pub ticker : ℕ
  pub side : Side
  pub qty : ℕ
  pub limit_price : ℕ
  pub reason : Text
  pub expires_at : ℕ
  pub confidence_at_creation : Option ℕ
  pub anchor_method : Option ℕ
  pub base_qty : Option ℕ
  pub size_factor : ℕ
  pub context_note : Text
  pub kind : Kind
  pub is_highlighted : Bool

-- The suggestion of the week for a ticker and a side.
abbrev pub is_slot : ℕ → ℕ → ℕ → Side → Suggestion → Bool
is_slot week_of account ticker side s =
    s.broker_account_id == account
    && s.week_of == week_of
    && s.ticker == ticker
    && same_side s.side side

abbrev pub refreshed : SuggestionRow → Suggestion → Suggestion
refreshed r s = record s {
  qty = r.qty;
  limit_price = r.limit_price;
  reason = r.reason;
  anchor_method = r.anchor_method;
  confidence_at_creation = r.confidence_at_creation;
  base_qty = r.base_qty;
  size_factor = r.size_factor;
  context_note = r.context_note;
  kind = r.kind;
  is_highlighted = r.is_highlighted;
}

module _ (targets_id : Option ℕ) (week_of account now : ℕ) where
  abbrev pub new_suggestion : SuggestionRow → ℕ → Suggestion
  new_suggestion r id = record {
    id = id;
    broker_account_id = account;
    week_of = week_of;
    ticker = r.ticker;
    side = r.side;
    qty = r.qty;
    limit_price = r.limit_price;
    reason = r.reason;
    status = SuggestionStatus.pending;
    target_allocation_id = targets_id;
    created_at = now;
    expires_at = some r.expires_at;
    confidence_at_creation = r.confidence_at_creation;
    anchor_method = r.anchor_method;
    acted_at = none;
    note = [];
    base_qty = r.base_qty;
    size_factor = r.size_factor;
    context_note = r.context_note;
    llm_rationale = [];
    kind = r.kind;
    is_highlighted = r.is_highlighted;
  }

  abbrev pub add_suggestion : SuggestionRow → Db → Db
  add_suggestion r db = record db {
    suggestions = db.suggestions ++ new_suggestion r db.next_suggestion ∷ [];
    next_suggestion = db.next_suggestion + 1;
  }

  -- One row: the id of its suggestion, and the table.
  unfoldable pub persist_suggestion : SuggestionRow → Db → ℕ × Db
  persist_suggestion r db = elim (find? (is_slot week_of account r.ticker r.side) db.suggestions) [
    | none ↦ (db.next_suggestion, add_suggestion r db)
    | some existing ↦
        if is_pending existing.status
        then (existing.id, set_suggestion existing.id (refreshed r) db)
        else (existing.id, db)
  ]

  unfoldable pub persist_suggestions : List SuggestionRow → Db → List ℕ × Db
  persist_suggestions [] db = ([], db)
  persist_suggestions (r ∷ rs) db =
      let (id, db₁) = persist_suggestion r db in
      let (ids, db₂) = persist_suggestions rs db₁ in (id ∷ ids, db₂)
