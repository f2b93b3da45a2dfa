-- ===== src/Snapshot/States.antt =====
-- The state rows that `_write_broker_account` of services/snapshot.py leaves.
use me_invest_paper.Base.{
  ℕ, ◌+◌, ◌≤◌, ◌≡◌, refl, ap, ◌∙◌, sym, subst, ◌≢◌, inl, inr, Bool, true, false, Option, none, some,
  List, [], ◌∷◌, ◌++◌, filter, total, total-append, total-none, latest_by, Has-latest_by, holds,
  arith, All, All-map, All-append, Has-filter, Bool-cases, if◌then◌else◌,
}
use me_invest_paper.Base.Int.{ℤ}
use me_invest_paper.Base.Rows.{update, Distinct, total-update_same}
use me_invest_paper.Store.{Text}
use me_invest_paper.Accounts.{BrokerAccount}
use me_invest_paper.Web.Links.{same_text_refl}
use me_invest_paper.Snapshot.{
  Account, is_same_amount, is_open_state, is_id, same_values, new_state, latest_state, write_state,
  write_broker_account,
}
use me_invest_paper.Snapshot.Updates.{total-Has, only-Has, All-updated, filter-updated}

-- How many open state rows an account has.
abbrev pub open_count : ℕ → List BrokerAccount → ℕ
open_count ref rows = total (is_open_state ref) (λ _. 1) rows

abbrev pub is_row_of_ref : ℕ → BrokerAccount → Bool
is_row_of_ref b r = holds r.account_ref b

amount_refl : (a : ℤ) → is_same_amount a a ≡ true
amount_refl a = ground arith

module _ (account : Account) (broker_name mode : Text) (ref id : ℕ) where
  -- The row is of the account as it was read, and identifies it as the given row does.
  abbrev pub IsState : Option BrokerAccount → BrokerAccount → Type 0
  IsState latest r =
      (r.last_sync ≡ account.as_of)
      × (is_id account.account_id r.account_id ≡ true)
      × (is_same_amount r.cash_usd account.cash_usd ≡ true)
      × (is_same_amount r.equity_usd account.equity_usd ≡ true)
      × ((l : BrokerAccount)
          → latest ≡ some l
          → (r.nickname ≡ l.nickname)
            × (r.is_active ≡ l.is_active)
            × (r.connection_config ≡ l.connection_config)
            × (r.broker ≡ l.broker)
            × (r.mode ≡ l.mode))

  -- What is kept of the table, and what is written to it.
  abbrev pub IsWritten : List BrokerAccount → List BrokerAccount → Type 0
  IsWritten before after =
      (open_count ref after ≡ 1)
      × All (λ r. is_open_state ref r ≡ true → IsState (latest_state ref before) r) after
      × ((b : ℕ) → b ≢ ref → filter (is_row_of_ref b) after ≡ filter (is_row_of_ref b) before)

  new-IsState :
      (latest : Option BrokerAccount)
      → IsState latest (new_state account broker_name mode ref id latest)
  new-IsState none = (
    refl,
    same_text_refl account.account_id,
    amount_refl account.cash_usd,
    amount_refl account.equity_usd,
    λ l e. cc,
  )
  new-IsState (some latest) = (
    refl,
    same_text_refl account.account_id,
    amount_refl account.cash_usd,
    amount_refl account.equity_usd,
    λ l e.
        let same : latest ≡ l = cc in
        (
          ap (λ (r : BrokerAccount). r.nickname) same,
          ap (λ (r : BrokerAccount). r.is_active) same,
          ap (λ (r : BrokerAccount). r.connection_config) same,
          ap (λ (r : BrokerAccount). r.broker) same,
          ap (λ (r : BrokerAccount). r.mode) same,
        ),
  )

  -- The row is not looked at from another account.
  other_ref :
      (b : ℕ) (r : BrokerAccount) → b ≢ ref → is_open_state ref r ≡ true → is_row_of_ref b r ≡ false
  other_ref b r other opened = by_ref r.account_ref (ground arith)
    where
      by_ref : (o : Option ℕ) → holds o ref ≡ true → holds o b ≡ false
      by_ref none h = refl
      by_ref (some x) h = ground arith

  filter_end :
      (q : BrokerAccount → Bool) (xs : List BrokerAccount) (x : BrokerAccount)
      → q x ≡ false
      → filter q (xs ++ x ∷ []) ≡ filter q xs
  filter_end q [] x h = rw h refl
  filter_end q (y ∷ xs) x h = elim (Bool-cases (q y)) [
    | inl seen ↦ rw seen (ap (λ l. y ∷ l) (filter_end q xs x h))
    | inr unseen ↦ rw unseen (filter_end q xs x h)
  ]

  new_open :
      (latest : Option BrokerAccount)
      → is_open_state ref (new_state account broker_name mode ref id latest) ≡ true
  new_open none = ground arith
  new_open (some latest) = ground arith

  -- With the new row at the end of a table without open rows of the account.
  append-IsWritten :
      (before rows : List BrokerAccount) (latest : Option BrokerAccount)
      → latest_state ref before ≡ latest
      → All (λ r. is_open_state ref r ≡ false) rows
      → ((b : ℕ) → b ≢ ref → filter (is_row_of_ref b) rows ≡ filter (is_row_of_ref b) before)
      → IsWritten before (rows ++ new_state account broker_name mode ref id latest ∷ [])
  append-IsWritten before rows latest known closed others =
      let row = new_state account broker_name mode ref id latest in
      let opened = new_open latest in
      let count : open_count ref (rows ++ row ∷ [])
          ≡ open_count ref rows + open_count ref (row ∷ []) =
        total-append (is_open_state ref) (λ _. 1) rows (row ∷ []) in
      let empty : open_count ref rows ≡ 0 = total-none (is_open_state ref) rows closed in
      let single : open_count ref (row ∷ []) ≡ 1 = rw opened refl in
      (
        omega arith,
        All-append (λ r. is_open_state ref r ≡ true → IsState (latest_state ref before) r) rows
            (row ∷ [])
            (All-map (λ r. is_open_state ref r ≡ false)
              (λ r. is_open_state ref r ≡ true → IsState (latest_state ref before) r)
              (λ r no seen. absurd (true_false seen no)) rows closed)
            (λ _. subst (λ o. IsState o row) (sym known) (new-IsState latest), tt),
        λ b other.
            filter_end (is_row_of_ref b) rows row (other_ref b row other opened) ∙ others b other,
      )
    where
      true_false : {b : Bool} → b ≡ true → b ≡ false → ⊥
      true_false t e = cc

  latest-none :
      (p : BrokerAccount → Bool) (xs : List BrokerAccount)
      → latest_by (λ r. r.last_sync) (filter p xs) ≡ none
      → All (λ r. p r ≡ false) xs
  latest-none p [] h = tt
  latest-none p (x ∷ xs) h = elim (Bool-cases (p x)) [
    | inr unseen ↦
        let rest : latest_by (λ r. r.last_sync) (filter p xs) ≡ none =
          subst
            (λ b. latest_by (λ r. r.last_sync) (if b then x ∷ filter p xs else filter p xs) ≡ none)
            unseen h in
        (unseen, latest-none p xs rest)
    | inl seen ↦ absurd (
        some_latest x (filter p xs) (
          subst
            (λ b. latest_by (λ r. r.last_sync) (if b then x ∷ filter p xs else filter p xs) ≡ none)
            seen h))
  ]
    where
      some_latest :
          (y : BrokerAccount) (ys : List BrokerAccount)
          → latest_by (λ r. r.last_sync) (y ∷ ys) ≡ none
          → ⊥
      some_latest y ys e = ground arith

  is_known :
      (l : BrokerAccount)
      → same_values account l ≡ true
      → IsState (some l) (record l { last_sync = account.as_of })
  is_known l same = (
    refl,
    ground arith,
    ground arith,
    ground arith,
    λ k e.
        let one : l ≡ k = cc in
        (
          ap (λ (r : BrokerAccount). r.nickname) one,
          ap (λ (r : BrokerAccount). r.is_active) one,
          ap (λ (r : BrokerAccount). r.connection_config) one,
          ap (λ (r : BrokerAccount). r.broker) one,
          ap (λ (r : BrokerAccount). r.mode) one,
        ),
  )

  -- The row that was the latest is touched, or closed with a new one behind it.
  update-IsWritten :
      (rows : List BrokerAccount) (l : BrokerAccount) (same : Bool)
      → latest_state ref rows ≡ some l
      → same_values account l ≡ same
      → Distinct (λ (r : BrokerAccount). r.id) rows
      → open_count ref rows ≤ 1
      → IsWritten rows (
          if same
          then update (λ r. r.id) l.id (λ r. record r { last_sync = account.as_of }) rows
          else update (λ r. r.id) l.id (λ r. record r { effective_to = some account.as_of }) rows
            ++ new_state account broker_name mode ref id (some l) ∷ [])
  update-IsWritten rows l true known same distinct one =
      let (m, opened) =
        Has-filter (is_open_state ref) l rows (Has-latest_by (λ r. r.last_sync) l _ known) in
      let only = only-Has (is_open_state ref) l rows opened m one in
      let touch = λ (r : BrokerAccount). record r { last_sync = account.as_of } in
      let some_open = total-Has (is_open_state ref) l rows opened m in
      let count : open_count ref (update (λ r. r.id) l.id touch rows) ≡ open_count ref rows =
        total-update_same (λ r. r.id) (is_open_state ref) (λ _. 1) l.id touch (λ r. refl) rows in
      (
        omega arith,
        All-updated l.id touch (λ r. is_open_state ref r ≡ true → r ≡ l)
            (λ r. is_open_state ref r ≡ true → IsState (latest_state ref rows) r)
            (λ r is_l seen.
              subst (λ o. IsState o (touch r)) (sym known)
                (subst (λ x. IsState (some l) (touch x)) (sym (is_l seen)) (is_known l same)))
            (λ r is_l ne seen. absurd (ne (ap (λ (x : BrokerAccount). x.id) (is_l seen)))) rows
            distinct only,
        λ b other.
            filter-updated (is_row_of_ref b) touch l rows distinct m (other_ref b l other opened)
              (other_ref b l other opened),
      )
  update-IsWritten rows l false known differ distinct one =
      let (m, opened) =
        Has-filter (is_open_state ref) l rows (Has-latest_by (λ r. r.last_sync) l _ known) in
      let only = only-Has (is_open_state ref) l rows opened m one in
      let close = λ (r : BrokerAccount). record r { effective_to = some account.as_of } in
      append-IsWritten rows (update (λ r. r.id) l.id close rows) (some l) known
        (All-updated l.id close (λ r. is_open_state ref r ≡ true → r ≡ l)
          (λ r. is_open_state ref r ≡ false) (λ r is_l. ground arith)
          (λ r is_l ne. elim (Bool-cases (is_open_state ref r)) [
            | inl seen ↦ absurd (ne (ap (λ (x : BrokerAccount). x.id) (is_l seen)))
            | inr unseen ↦ unseen
          ])
          rows distinct only)
        (λ b other.
          filter-updated (is_row_of_ref b) close l rows distinct m (other_ref b l other opened)
            (other_ref b l other opened))

  write_state-IsWritten :
      (rows : List BrokerAccount) (latest : Option BrokerAccount)
      → latest_state ref rows ≡ latest
      → Distinct (λ (r : BrokerAccount). r.id) rows
      → open_count ref rows ≤ 1
      → IsWritten rows (write_state account broker_name mode ref id rows latest)
  write_state-IsWritten rows none fresh distinct one =
      append-IsWritten rows rows none fresh (latest-none (is_open_state ref) rows fresh)
        (λ b other. refl)
  write_state-IsWritten rows (some l) known distinct one =
      update-IsWritten rows l (same_values account l) known refl distinct one

  -- Where the ids of the state rows are not repeated and the account has at most one open row: it
  -- then has exactly one, which has the time of the read, the broker's id of the account and the cash
  -- and the equity that were read, each to a cent, and which carries the name, the activity, the
  -- configuration, the broker and the mode of the open row of before, if there was one. The rows of
  -- the other accounts are as they were.
  pub write_broker_account-IsWritten :
      (rows : List BrokerAccount)
      → Distinct (λ (r : BrokerAccount). r.id) rows
      → open_count ref rows ≤ 1
      → IsWritten rows (write_broker_account account broker_name mode ref id rows)
  unfolding write_broker_account
  write_broker_account-IsWritten rows distinct one =
      write_state-IsWritten rows (latest_state ref rows) refl distinct one
