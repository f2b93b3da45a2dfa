-- ===== src/Reconciliation/PnlLaws.antt =====
-- What the profit of a sale in services/reconciliation.py is made of.
use me_invest_paper.Base.{
  ℕ, zero, suc, ◌+◌, ◌-◌, ◌*◌, ◌≤◌, ◌≡◌, refl, ap, ◌⊎◌, inl, inr, ◌≢◌, Bool, false, none, some,
  List, [], ◌∷◌, ◌++◌, ltb, arith, filter, All, All-map, Bool-cases,
}
use mathlib.Core.List.{Perm}
use mathlib.Core.List.Perm
use me_invest_paper.Base.Int.{sub_ℕ}
use me_invest_paper.Store.{Side, Execution, Db, is_buy}
use me_invest_paper.Broker.{Activity}
use me_invest_paper.Reconciliation.Pnl.{
  is_prior_buy, filled_key, insert_by_fill, sort_by_fill, price_or_zero, lots_cost, profit_of,
  compute_realized_pnl,
}

-- The share is a number of equal prices.
abbrev pub repeat : ℕ → ℕ → List ℕ
repeat zero p = []
repeat (suc n) p = p ∷ repeat n p

-- The shares of the lots one by one, each with the price it was bought at.
abbrev pub share_prices : List Execution → List ℕ
share_prices [] = []
share_prices (buy ∷ buys) =
    repeat buy.filled_qty (price_or_zero buy.filled_price) ++ share_prices buys

-- The sum of the first entries.
abbrev pub sum_first : ℕ → List ℕ → ℕ
sum_first zero ps = 0
sum_first (suc q) [] = 0
sum_first (suc q) (p ∷ ps) = p + sum_first q ps

sum_first-repeat_all :
    (q n p : ℕ) (ps : List ℕ) → sum_first (n + q) (repeat n p ++ ps) ≡ n * p + sum_first q ps
sum_first-repeat_all q zero p ps = let e : 0 + q ≡ q = omega arith in rw e (omega arith)
sum_first-repeat_all q (suc n) p ps = grind (arith, sum_first-repeat_all q n p ps)

sum_first-repeat_part : (q n p : ℕ) (ps : List ℕ) → q ≤ n → sum_first q (repeat n p ++ ps) ≡ q * p
sum_first-repeat_part zero n p ps h = omega arith
sum_first-repeat_part (suc q) zero p ps h = omega arith
sum_first-repeat_part (suc q) (suc n) p ps h = grind (arith, sum_first-repeat_part q n p ps)

lots_cost-spent : (buys : List Execution) → lots_cost 0 buys ≡ 0
unfolding lots_cost
lots_cost-spent [] = refl
lots_cost-spent (buy ∷ buys) = refl

lots_cost_lem :
    (qty : ℕ) (buys : List Execution) → lots_cost qty buys ≡ sum_first qty (share_prices buys)
unfolding lots_cost
lots_cost_lem zero [] = refl
lots_cost_lem (suc qty) [] = refl
lots_cost_lem qty (buy ∷ buys) =
    let n = buy.filled_qty in
    let price = price_or_zero buy.filled_price in
    let rest = share_prices buys in
    elim (Bool-cases (ltb n qty)) [
      | inl more ↦ ground (
        arith,
        lots_cost_lem (qty - n) buys,
        sum_first-repeat_all (qty - n) n price rest,
        λ (e : n + (qty - n) ≡ qty). ap (λ q. sum_first q (repeat n price ++ rest)) e,
      )
      | inr less ↦ ground (
        arith,
        lots_cost-spent buys,
        sum_first-repeat_part qty n price rest,
        λ (e : qty - qty ≡ 0). ap (λ q. lots_cost q buys) e,
      )
    ]

insert_by_fill-Perm : (e : Execution) (xs : List Execution) → Perm (insert_by_fill e xs) (e ∷ xs)
insert_by_fill-Perm e [] = Perm.refl (e ∷ [])
insert_by_fill-Perm e (x ∷ xs) = elim (Bool-cases (ltb (filled_key x) (filled_key e))) [
  | inl t ↦ rw t (Perm.trans (Perm.cons x (insert_by_fill-Perm e xs)) (Perm.swap e x xs))
  | inr f ↦ rw f (Perm.refl (e ∷ x ∷ xs))
]

sort_by_fill-Perm : (xs : List Execution) → Perm (sort_by_fill xs) xs
sort_by_fill-Perm [] = Perm.refl []
sort_by_fill-Perm (x ∷ xs) =
    Perm.trans (insert_by_fill-Perm x (sort_by_fill xs)) (Perm.cons x (sort_by_fill-Perm xs))

-- No lot stands behind a later one.
abbrev pub IsAscending : List Execution → Type 0
IsAscending [] = Unit
IsAscending (x ∷ xs) = All (λ y. filled_key x ≤ filled_key y) xs × IsAscending xs

All-insert :
    (P : Execution → Type 0) (e : Execution) (xs : List Execution)
    → P e
    → All P xs
    → All P (insert_by_fill e xs)
All-insert P e [] h k = (h, tt)
All-insert P e (x ∷ xs) h k = elim (Bool-cases (ltb (filled_key x) (filled_key e))) [
  | inl t ↦ rw t (k.0, All-insert P e xs h k.1)
  | inr f ↦ rw f (h, k)
]

insert_by_fill-IsAscending :
    (e : Execution) (xs : List Execution) → IsAscending xs → IsAscending (insert_by_fill e xs)
insert_by_fill-IsAscending e [] h = (tt, tt)
insert_by_fill-IsAscending e (x ∷ xs) h = elim (Bool-cases (ltb (filled_key x) (filled_key e))) [
  | inl t ↦ rw t (
    All-insert (λ y. filled_key x ≤ filled_key y) e xs (ground arith) h.0,
    insert_by_fill-IsAscending e xs h.1,
  )
  | inr f ↦
      let below : filled_key e ≤ filled_key x = ground arith in
      rw f (
        (
          below,
          All-map (λ y. filled_key x ≤ filled_key y) (λ y. filled_key e ≤ filled_key y)
              (λ y k. le_trans below k) xs h.0,
        ),
        h,
      )
]
  where
    le_trans : {a b c : ℕ} → a ≤ b → b ≤ c → a ≤ c
    le_trans h k = omega arith

sort_by_fill-IsAscending : (xs : List Execution) → IsAscending (sort_by_fill xs)
sort_by_fill-IsAscending [] = tt
sort_by_fill-IsAscending (x ∷ xs) =
    insert_by_fill-IsAscending x (sort_by_fill xs) (sort_by_fill-IsAscending xs)

profit_of_lem :
    (sell : Activity) (lots : List Execution)
    → ((lots ≡ []) × (profit_of sell lots ≡ none))
      ⊎ ((lots ≢ [])
          × (profit_of sell lots
              ≡ some (
                  sub_ℕ
                    (sell.filled_qty * sell.filled_price)
                    (sum_first sell.filled_qty (share_prices lots)))))
unfolding profit_of
profit_of_lem sell [] = inl (refl, refl)
profit_of_lem sell (buy ∷ buys) = inr (
  ground arith,
  ap (λ cost. some (sub_ℕ (sell.filled_qty * sell.filled_price) cost))
      (lots_cost_lem sell.filled_qty (buy ∷ buys)),
)

-- The profit of a sale is its proceeds less the prices of as many shares as are sold, taken one by one
-- from the earliest of the real purchases of the ticker that were filled up to the time of the
-- sale, as far as they go, and there is none exactly where no such purchase is kept.
pub compute_realized_pnl_lem :
    (db : Db) (sell : Activity)
    → (lots : List Execution) × Perm lots (filter (is_prior_buy sell) db.executions)
      × IsAscending lots
      × (((lots ≡ []) × (compute_realized_pnl db sell ≡ none))
          ⊎ ((lots ≢ [])
              × (compute_realized_pnl db sell
                  ≡ some (
                      sub_ℕ
                        (sell.filled_qty * sell.filled_price)
                        (sum_first sell.filled_qty (share_prices lots))))))
unfolding compute_realized_pnl
compute_realized_pnl_lem db sell =
    let prior = filter (is_prior_buy sell) db.executions in
    (
      sort_by_fill prior,
      sort_by_fill-Perm prior,
      sort_by_fill-IsAscending prior,
      profit_of_lem sell (sort_by_fill prior),
    )

filter-snoc :
    {A : Type 0} (p : A → Bool) (x : A) (xs : List A)
    → p x ≡ false
    → filter p (xs ++ x ∷ []) ≡ filter p xs
filter-snoc p x [] h = rw h refl
filter-snoc p x (y ∷ ys) h = elim (Bool-cases (p y)) [
  | inl e ↦ rw e (ap (λ l. y ∷ l) (filter-snoc p x ys h))
  | inr e ↦ rw e (filter-snoc p x ys h)
]

-- A sale that was booked before does not use up any lot: the profit of a sale is the same with the row
-- of another sale in the table as without it.
pub compute_realized_pnl-ignores_sales :
    (db : Db) (earlier : Execution) (sell : Activity)
    → earlier.side ≡ Side.sell
    → compute_realized_pnl (record db { executions = db.executions ++ earlier ∷ [] }) sell
      ≡ compute_realized_pnl db sell
unfolding compute_realized_pnl
compute_realized_pnl-ignores_sales db earlier sell h =
    ap (λ l. profit_of sell (sort_by_fill l))
      (filter-snoc (is_prior_buy sell) earlier db.executions no_buy)
  where
    no_buy : is_prior_buy sell earlier ≡ false
    no_buy = rw (ap is_buy h) (ground arith)
