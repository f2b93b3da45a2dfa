-- ===== src/Suggest/TopupFit.antt =====
-- What one turn of the loop of `generate_topup_suggestions` in services/suggest.py decides: what a
-- top-up costs, and the room that it leaves in the band.
use native.Mathlib.Nat.{le-div_iff_mul-le}
use me_invest_paper.Base.{
  ℕ, zero, suc, ◌+◌, ◌-◌, ◌*◌, ◌/◌, ◌≤◌, ◌<◌, ◌≡◌, refl, ap, inl, inr, min, true, false, Option,
  none, some, ltb, leb, arith, Bool-cases, Option-cases,
}
use me_invest_paper.Base.Int.{pos_part, neg_part}
use me_invest_paper.Store.{Kind, Side}
use me_invest_paper.Suggest.Anchor.{
  NearbyLevels, Anchor, Choice, anchored, skipped, select_buy_anchor,
}
use me_invest_paper.Suggest.Generate.{GapRow, round_cents, is_positive}
use me_invest_paper.Suggest.Budget.{round_cents_le, mul_le, OnSome}
use me_invest_paper.Suggest.Topup.{
  TopupInputs, Topup, pass, top_up, band_cap_shares, affordable, topup_qty, size_topup, topup_at,
  topup_near, topup_of,
}

-- Shares within a quotient cost at most what is divided.
fits_quotient : (q n d : ℕ) → 0 < d → q ≤ n / d → q * d ≤ n
fits_quotient q n d h k = (le-div_iff_mul-le h).0 k

-- Shares within the headroom leave the holding within the band.
within_headroom :
    (q p band below held equity : ℕ)
    → 1 ≤ q
    → q ≤ (band + below - held) * equity / (10000 * suc p)
    → held * equity + q * (10000 * suc p) ≤ (band + below) * equity
within_headroom q p band below held equity h k =
    let fits : q * (10000 * suc p) ≤ (band + below - held) * equity =
      fits_quotient q ((band + below - held) * equity) (10000 * suc p) (omega arith) k in
    let room : held + (band + below - held) ≡ band + below = room_of fits in
    omega (arith, fits, ap (λ (t : ℕ). t * equity) room, distrib held (band + below - held) equity)
  where
    distrib : (a b c : ℕ) → (a + b) * c ≡ a * c + b * c
    distrib a b c = grind arith

    no_room : (n : ℕ) → n ≡ 0 → ¬ (q * (10000 * suc p) ≤ n * equity)
    no_room n e f = grind arith

    room_of :
        q * (10000 * suc p) ≤ (band + below - held) * equity
        → held + (band + below - held) ≡ band + below
    room_of f = elim (Bool-cases (leb held (band + below))) [
      | inl room ↦ ground arith
      | inr over ↦ absurd (no_room (band + below - held) (ground arith) f)
    ]

min_bounds : (a b c : ℕ) → (min (min a b) c ≤ b) × (min (min a b) c ≤ c)
min_bounds a b c = ground arith

-- Shares within what the cash affords cost at most the cash.
within_cash : (q p have owed : ℕ) → 1 ≤ q → q ≤ (have - owed) / suc p → owed + q * suc p ≤ have
within_cash q p have owed h k =
    let fits : q * suc p ≤ have - owed = fits_quotient q (have - owed) (suc p) (omega arith) k in
    let some_cost : 1 ≤ q * suc p = grind arith in omega arith

limit_cost : (q a p : ℕ) → a ≡ p → q * round_cents a ≤ q * p + 50 * q
limit_cost q a p e =
    let dearer : q * round_cents a ≤ q * (a + 50) =
      mul_le q (round_cents a) (a + 50) (round_cents_le a) in
    let same : q * a ≡ q * p = ap (λ (t : ℕ). q * t) e in grind arith

module _ (inputs : TopupInputs) where
  -- The holding with the purchase at its price, in its band.
  abbrev pub Stays : GapRow → ℕ → ℕ → Type 0
  Stays g band_high cost =
      pos_part g.current_pct * pos_part inputs.equity_usd + 10000 * cost
      ≤ (band_high + neg_part g.current_pct) * pos_part inputs.equity_usd

  -- What a top-up is for one gap.
  abbrev pub IsFit : ℕ → GapRow → ℕ → Topup → Type 0
  IsFit spent g band_high pass = Unit
  IsFit spent g band_high (top_up r cost) =
      (1 ≤ r.qty)
      × (r.ticker ≡ g.ticker)
      × (r.kind ≡ Kind.topup)
      × (r.side ≡ Side.buy)
      × (r.qty * r.limit_price ≤ cost + 50 * r.qty)
      × (neg_part inputs.cash_available + spent + inputs.cash_floor + cost
          ≤ pos_part inputs.cash_available)
      × Stays g band_high cost

  size_topup-IsFit :
      (spent : ℕ) (g : GapRow) (band_high : ℕ) (a : Anchor) (price : ℕ)
      → a.price ≡ price
      → OnSome (IsFit spent g band_high) (size_topup inputs spent g band_high a price)
  unfolding size_topup
  size_topup-IsFit spent g band_high a zero e = tt
  size_topup-IsFit spent g band_high a (suc p) e =
      let qty = topup_qty inputs spent g band_high a (suc p) in
      elim (Bool-cases (ltb (band_cap_shares inputs g band_high (suc p)) 1)) [
        | inl full ↦ rw (full, size_topup) tt
        | inr room ↦ elim (Bool-cases (ltb qty 1)) [
          | inl few ↦ rw (room, few, size_topup) tt
          | inr enough ↦
              let (in_band, in_cash) : (qty ≤ band_cap_shares inputs g band_high (suc p))
                  × (qty ≤ affordable inputs spent (suc p)) =
                min_bounds _ _ _ in
              let whole : 1 ≤ qty = ground arith in
              rw (room, enough, size_topup)
                (
                  whole,
                  refl,
                  refl,
                  refl,
                  limit_cost qty a.price (suc p) e,
                  within_cash qty p _ _ whole in_cash,
                  stays_lem whole in_band,
                )
        ]
      ]
    where
      swap : (q : ℕ) → q * (10000 * suc p) ≡ 10000 * (q * suc p)
      swap q = grind arith

      stays_lem :
          {q : ℕ}
          → 1 ≤ q
          → q ≤ band_cap_shares inputs g band_high (suc p)
          → Stays g band_high (q * suc p)
      stays_lem {q} whole in_band = omega (
        arith,
        within_headroom q p band_high (neg_part g.current_pct) (pos_part g.current_pct)
            (pos_part inputs.equity_usd) whole in_band,
        swap q,
      )

  topup_at-IsFit :
      (spent : ℕ) (g : GapRow) (band_high : ℕ) (choice : Option Choice)
      → OnSome (IsFit spent g band_high) (topup_at inputs spent g band_high choice)
  topup_at-IsFit spent g band_high none = tt
  topup_at-IsFit spent g band_high (some (skipped reason)) = tt
  topup_at-IsFit spent g band_high (some (anchored a)) =
      size_topup-IsFit spent g band_high a a.price refl

  topup_near-IsFit :
      (spent : ℕ) (g : GapRow) (band_high : ℕ) (o : Option NearbyLevels)
      → OnSome (IsFit spent g band_high) (topup_near inputs spent g band_high o)
  topup_near-IsFit spent g band_high none = tt
  topup_near-IsFit spent g band_high (some nearby) =
      topup_at-IsFit spent g band_high
        (select_buy_anchor nearby (inputs.scored_levels g.ticker) inputs.max_distance)

  -- A top-up is for a gap below its target, with a band and without a regular purchase.
  abbrev pub IsMeant : ℕ → GapRow → Topup → Type 0
  IsMeant spent g pass = Unit
  IsMeant spent g (top_up r cost) =
      (is_positive g.gap_pct ≡ true)
      × (inputs.regular_buy_tickers g.ticker ≡ false)
      × ((band_high : ℕ) × (inputs.band_high_by_ticker g.ticker ≡ some band_high)
          × IsFit spent g band_high (top_up r cost))

  IsMeant-of :
      (spent : ℕ) (g : GapRow) (band_high : ℕ) (t : Topup)
      → is_positive g.gap_pct ≡ true
      → inputs.regular_buy_tickers g.ticker ≡ false
      → inputs.band_high_by_ticker g.ticker ≡ some band_high
      → IsFit spent g band_high t
      → IsMeant spent g t
  IsMeant-of spent g band_high pass up other band fit = tt
  IsMeant-of spent g band_high (top_up r cost) up other band fit =
      (up, other, (band_high, band, fit))

  OnSome-map :
      (P Q : Topup → Type 0) (o : Option Topup)
      → ((t : Topup) → P t → Q t)
      → OnSome P o
      → OnSome Q o
  OnSome-map P Q none f h = tt
  OnSome-map P Q (some t) f h = f t h

  pub topup_of-IsMeant :
      (spent : ℕ) (g : GapRow) → OnSome (IsMeant spent g) (topup_of inputs spent g)
  unfolding topup_of
  topup_of-IsMeant spent g = elim (Bool-cases (is_positive g.gap_pct)) [
    | inr down ↦ rw (down, topup_of) tt
    | inl up ↦ elim (Bool-cases (inputs.regular_buy_tickers g.ticker)) [
      | inl taken ↦ rw (up, taken, topup_of) tt
      | inr other ↦ elim (Option-cases (inputs.band_high_by_ticker g.ticker)) [
        | inl unbounded ↦ rw (up, other, unbounded, topup_of) tt
        | inr (band_high, band) ↦
            rw (up, other, band, topup_of)
              (OnSome-map (IsFit spent g band_high) (IsMeant spent g) _
                (λ t fit. IsMeant-of spent g band_high t up other band fit)
                (topup_near-IsFit spent g band_high (inputs.nearby_levels g.ticker)))
      ]
    ]
  ]
