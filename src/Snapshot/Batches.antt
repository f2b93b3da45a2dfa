-- ===== src/Snapshot/Batches.antt =====
-- The positions that services/snapshot.py writes in one batch.
use me_invest_paper.Base.{
  ℕ, ◌≡◌, refl, ap, ◌∙◌, sym, subst, inl, inr, Bool, true, false, not, List, [], ◌∷◌, ◌++◌, map,
  ◌==◌, ==_iff, any, filter, arith, All, All-append, Has, Bool-cases, if◌then◌else◌,
}
use me_invest_paper.Snapshot.{
  Account, Position, PositionsSnapshot, is_in, distinct, is_recent_row, position_row, tombstone,
  batch,
}

module _ {A B : Type 0} (f : A → B) where
  All-mapped : (P : B → Type 0) → ((x : A) → P (f x)) → (xs : List A) → All P (map f xs)
  All-mapped P h [] = tt
  All-mapped P h (x ∷ xs) = (h x, All-mapped P h xs)

-- The tests of whether something in a list has a ticker.
any-append :
    (p : PositionsSnapshot → Bool) (xs ys : List PositionsSnapshot)
    → any p (xs ++ ys) ≡ (if any p xs then true else any p ys)
any-append p [] ys = refl
any-append p (x ∷ xs) ys = ground (arith, any-append p xs ys)

abbrev pub has_ticker : ℕ → PositionsSnapshot → Bool
has_ticker t r = r.ticker == t

is_in-filter :
    (x t : ℕ) (us : List ℕ)
    → (x == t) ≡ false
    → is_in us t ≡ true
    → is_in (filter (λ y. not (y == x)) us) t ≡ true
is_in-filter x t [] other h = h
is_in-filter x t (u ∷ us) other h = elim (Bool-cases (u == t)) [
  | inl here ↦ let kept : (u == x) ≡ false = ground arith in rw kept (rw here refl)
  | inr there ↦
      let later : is_in us t ≡ true =
        subst (λ b. (if b then true else is_in us t) ≡ true) there h in
      let rest = is_in-filter x t us other later in
      elim (Bool-cases (u == x)) [ inl cut ↦ rw cut rest | inr kept ↦ rw kept (rw there rest) ]
]

is_in-distinct : (t : ℕ) (ts : List ℕ) → is_in ts t ≡ true → is_in (distinct ts) t ≡ true
is_in-distinct t [] h = h
is_in-distinct t (x ∷ ts) h = elim (Bool-cases (x == t)) [
  | inl here ↦ rw here refl
  | inr there ↦
      let later : is_in ts t ≡ true =
        subst (λ b. (if b then true else is_in ts t) ≡ true) there h in
      rw there (is_in-filter x t (distinct ts) there (is_in-distinct t ts later))
]

is_in-tickers :
    (p : PositionsSnapshot → Bool) (r : PositionsSnapshot) (rows : List PositionsSnapshot)
    → p r ≡ true
    → Has r rows
    → is_in (map (λ x. x.ticker) (filter p rows)) r.ticker ≡ true
is_in-tickers p r [] h m = absurd m
is_in-tickers p r (x ∷ rows) h (inl e) =
    let passes : p x ≡ true = ap p (sym e) ∙ h in
    let here : (x.ticker == r.ticker) ≡ true =
      (==_iff x.ticker r.ticker).1 (ap (λ (y : PositionsSnapshot). y.ticker) (sym e)) in
    rw passes (rw here refl)
is_in-tickers p r (x ∷ rows) h (inr m) =
    let rest = is_in-tickers p r rows h m in
    elim (Bool-cases (p x)) [
      | inr cut ↦ rw cut rest
      | inl kept ↦ elim (Bool-cases (x.ticker == r.ticker)) [
        | inl here ↦ rw kept (rw here refl)
        | inr there ↦ rw kept (rw there rest)
      ]
    ]

-- A ticker that is in one of the two lists of tickers has a row.
any-held :
    (ref : ℕ) (account : Account) (t : ℕ) (positions : List Position)
    → any (has_ticker t) (map (position_row ref account) positions)
      ≡ is_in (map (λ p. p.ticker) positions) t
any-held ref account t [] = refl
any-held ref account t (p ∷ positions) = ground (arith, any-held ref account t positions)

any-closed :
    (ref : ℕ) (account : Account) (t : ℕ) (held ts : List ℕ)
    → is_in held t ≡ false
    → is_in ts t ≡ true
    → any (has_ticker t) (map (tombstone ref account) (filter (λ x. not (is_in held x)) ts)) ≡ true
any-closed ref account t held [] gone h = h
any-closed ref account t held (x ∷ ts) gone h = elim (Bool-cases (x == t)) [
  | inl here ↦
      let closed : is_in held x ≡ false = ap (is_in held) ((==_iff x t).0 here) ∙ gone in
      rw closed (rw here refl)
  | inr there ↦
      let later : is_in ts t ≡ true =
        subst (λ b. (if b then true else is_in ts t) ≡ true) there h in
      let rest = any-closed ref account t held ts gone later in
      elim (Bool-cases (is_in held x)) [
        | inl still ↦ rw still rest
        | inr closed ↦ rw closed (rw there rest)
      ]
]

module _ (now ref : ℕ) (account : Account) (positions : List Position) where
  -- A row of the batch: of the account and the time that were read, and empty where the broker has no
  -- position.
  abbrev pub IsOfBatch : PositionsSnapshot → Type 0
  IsOfBatch r =
      (r.ts ≡ account.as_of)
      × (r.broker_account_id ≡ ref)
      × (is_in (map (λ p. p.ticker) positions) r.ticker ≡ false → r.qty ≡ 0)

  held-IsOfBatch :
      (ps : List Position)
      → ((t : ℕ)
          → is_in (map (λ p. p.ticker) ps) t ≡ true
          → is_in (map (λ p. p.ticker) positions) t ≡ true)
      → All IsOfBatch (map (position_row ref account) ps)
  held-IsOfBatch [] inside = tt
  held-IsOfBatch (p ∷ ps) inside = (
    (refl, refl, λ gone. absurd (true_false (inside p.ticker (ground arith)) gone)),
    held-IsOfBatch ps (λ t m. inside t (later t m)),
  )
    where
      true_false : {b : Bool} → b ≡ true → b ≡ false → ⊥
      true_false t e = cc

      later :
          (t : ℕ)
          → is_in (map (λ p. p.ticker) ps) t ≡ true
          → is_in (map (λ p. p.ticker) (p ∷ ps)) t ≡ true
      later t m = ground arith

  -- The rows of the batch all have the time and the account that were read, so that they are one
  -- batch; a row of a ticker that the broker does not hold has the quantity 0; and each ticker that
  -- has a row of this account on a day after that of the cutoff has a row in the batch, held or not.
  pub batch-IsComplete :
      (table : List PositionsSnapshot)
      → All IsOfBatch (batch now ref account positions table)
        × ((r : PositionsSnapshot)
            → Has r table
            → is_recent_row now ref r ≡ true
            → any (has_ticker r.ticker) (batch now ref account positions table) ≡ true)
  unfolding batch
  batch-IsComplete table =
      let held = map (λ (p : Position). p.ticker) positions in
      let recent = distinct (map (λ r. r.ticker) (filter (is_recent_row now ref) table)) in
      (
        All-append IsOfBatch (map (position_row ref account) positions) _
            (held-IsOfBatch positions (λ t m. m))
            (All-mapped (tombstone ref account) IsOfBatch (λ t. (refl, refl, λ gone. refl))
              (filter (λ t. not (is_in held t)) recent)),
        λ r m fresh. elim (Bool-cases (is_in held r.ticker)) [
          | inl still ↦
              any-append (has_ticker r.ticker) (map (position_row ref account) positions) _
              ∙ rw (any-held ref account r.ticker positions, still) refl
          | inr gone ↦
              let closed = any-closed ref account r.ticker held recent gone (
                is_in-distinct r.ticker _
                  (is_in-tickers (is_recent_row now ref) r table fresh m)) in
              any-append (has_ticker r.ticker) (map (position_row ref account) positions) _
              ∙ rw (any-held ref account r.ticker positions, gone) closed
        ],
      )
