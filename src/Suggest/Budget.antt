-- ===== src/Suggest/Budget.antt =====
-- What `generate_suggestions` of services/suggest.py promises: the budget of the purchases, and what
-- becomes of each gap.
use me_invest_paper.Base.{
  ℕ, zero, suc, ◌+◌, ◌*◌, ◌≤◌, ◌≡◌, refl, ap, subst, ◌∙◌, ◌⊎◌, inl, inr, Bool, true, false, Option,
  none, some, List, [], ◌∷◌, ltb, arith, total, All, Bool-cases, Option-cases, if◌then◌else◌,
}
use me_invest_paper.Base.Int.{pos_part, neg_part}
use me_invest_paper.Store.{is_buy}
use me_invest_paper.Suggest.Anchor.{
  NearbyLevels, Anchor, Choice, anchored, skipped, select_buy_anchor, select_sell_anchor,
}
use me_invest_paper.Suggest.Persist.{SuggestionRow}
use me_invest_paper.Suggest.Generate.{
  BandStatus, GapRow, SkippedRow, Inputs, round_cents, Verdict, silent, skip, suggest, is_positive,
  breaches, with_shares, buy_shares, sell_shares, size_buy, size_sell, with_choice, trim,
  with_nearby, judge, report, cost_of, generate_from, generate_suggestions,
}

-- A price is rounded up by half a cent at most.
pub round_cents_le : (p : ℕ) → round_cents p ≤ p + 50
unfolding round_cents
round_cents_le p = ground arith

pub mul_le : (q a b : ℕ) → a ≤ b → q * a ≤ q * b
mul_le zero a b h = ground arith
mul_le (suc q) a b h = grind (arith, mul_le q a b h)

trans_add : {a b c : ℕ} → a ≤ b → b ≡ c → a ≤ c
trans_add h e = omega arith

-- The shares of the purchases, and what they cost at their limit prices.
abbrev pub purchase_shares : List SuggestionRow → ℕ
purchase_shares rows = total (λ r. is_buy r.side) (λ r. r.qty) rows

abbrev pub purchase_cost : List SuggestionRow → ℕ
purchase_cost rows = total (λ r. is_buy r.side) (λ r. r.qty * r.limit_price) rows

pub some_inj : {x y : Verdict} → some x ≡ some y → x ≡ y
some_inj {x} {y} e = ap (from_some x) e
  where
    from_some : Verdict → Option Verdict → Verdict
    from_some d none = d
    from_some d (some v) = v

-- What holds of the value, if there is one.
abbrev pub OnSome {κ} : {A : Type 0} → (A → Type κ) → Option A → Type κ
OnSome P none = Unit
OnSome P (some a) = P a

pub on_some : {A : Type 0} (P : A → Type 0) {o : Option A} {a : A} → o ≡ some a → OnSome P o → P a
on_some P e h = subst (OnSome P) e h

module _ (inputs : Inputs) (P : Verdict → Type 0) where
  pub with_shares-OnSome :
      (f : ℕ → Verdict) (o : Option ℕ) → ((qty : ℕ) → P (f qty)) → OnSome P (with_shares inputs f o)
  with_shares-OnSome f none h = tt
  with_shares-OnSome f (some qty) h = h qty

  pub with_choice-OnSome :
      (f : Choice → Option Verdict) (o : Option Choice)
      → ((choice : Choice) → OnSome P (f choice))
      → OnSome P (with_choice inputs f o)
  with_choice-OnSome f none h = tt
  with_choice-OnSome f (some choice) h = h choice

module _ (inputs : Inputs) where
  -- A purchase fits the cash above the floor, at the price of its anchor, and a trim costs nothing.
  IsSound : ℕ → Verdict → Type 0
  IsSound spent silent = Unit
  IsSound spent (skip s) = Unit
  IsSound spent (suggest r cost) =
      (1 ≤ r.qty)
      × (((is_buy r.side ≡ true)
            × (r.qty * r.limit_price ≤ cost + 50 * r.qty)
            × (neg_part inputs.cash_usd + spent + inputs.cash_floor + cost
                ≤ pos_part inputs.cash_usd))
          ⊎ ((is_buy r.side ≡ false) × (cost ≡ 0)))

  buy_shares-IsSound :
      (spent : ℕ) (g : GapRow) (a : Anchor) (qty : ℕ)
      → IsSound spent (buy_shares inputs spent g a qty)
  unfolding buy_shares IsSound
  buy_shares-IsSound spent g a qty = elim (Bool-cases (ltb qty 1)) [
    | inl few ↦ rw few tt
    | inr enough ↦ elim (Bool-cases (breaches inputs spent (qty * a.price))) [
      | inl over ↦ rw (enough, over) tt
      | inr fits ↦
          rw (enough, fits)
            (
              ground arith,
              inl (
                refl,
                trans_add (mul_le qty (round_cents a.price) (a.price + 50) (round_cents_le a.price))
                    (grind arith),
                ground arith,
              ),
            )
    ]
  ]

  sell_shares-IsSound :
      (spent : ℕ) (g : GapRow) (a : Anchor) (qty : ℕ) → IsSound spent (sell_shares inputs g a qty)
  unfolding sell_shares IsSound
  sell_shares-IsSound spent g a qty = elim (Bool-cases (ltb qty 1)) [
    | inl few ↦ rw few tt
    | inr enough ↦ rw enough (ground arith, inr (refl, refl))
  ]

  size_buy-IsSound :
      (spent : ℕ) (g : GapRow) (choice : Choice)
      → OnSome (IsSound spent) (size_buy inputs spent g choice)
  unfolding IsSound
  size_buy-IsSound spent g (skipped reason) = tt
  size_buy-IsSound spent g (anchored a) =
      with_shares-OnSome inputs (IsSound spent) (buy_shares inputs spent g a) _
        (buy_shares-IsSound spent g a)

  size_sell-IsSound :
      (spent : ℕ) (g : GapRow) (choice : Choice)
      → OnSome (IsSound spent) (size_sell inputs g choice)
  unfolding IsSound
  size_sell-IsSound spent g (skipped reason) = tt
  size_sell-IsSound spent g (anchored a) =
      with_shares-OnSome inputs (IsSound spent) (sell_shares inputs g a) _
        (sell_shares-IsSound spent g a)

  quiet : (spent : ℕ) → IsSound spent silent
  unfolding IsSound
  quiet spent = tt

  with_choice-IsSound :
      (spent : ℕ) (f : Choice → Option Verdict) (o : Option Choice) (v : Verdict)
      → ((choice : Choice) → OnSome (IsSound spent) (f choice))
      → with_choice inputs f o ≡ some v
      → IsSound spent v
  with_choice-IsSound spent f o v sound e =
      on_some (IsSound spent) e (with_choice-OnSome inputs (IsSound spent) f o sound)

  trim-IsSound :
      (spent : ℕ) (g : GapRow) (nearby : NearbyLevels) (st : BandStatus) (v : Verdict)
      → trim inputs g nearby st ≡ some v
      → IsSound spent v
  trim-IsSound spent g nearby BandStatus.over v e =
      with_choice-IsSound spent (size_sell inputs g)
        (select_sell_anchor nearby (inputs.scored_levels g.ticker) inputs.max_distance) v
        (size_sell-IsSound spent g) e
  trim-IsSound spent g nearby BandStatus.under v e =
      subst (IsSound spent) (some_inj e) (quiet spent)
  trim-IsSound spent g nearby BandStatus.in_band v e =
      subst (IsSound spent) (some_inj e) (quiet spent)

  with_nearby-IsSound :
      (spent : ℕ) (g : GapRow) (o : Option NearbyLevels) (v : Verdict)
      → with_nearby inputs spent g o ≡ some v
      → IsSound spent v
  unfolding IsSound
  with_nearby-IsSound spent g none v e = subst (IsSound spent) (some_inj e) tt
  with_nearby-IsSound spent g (some nearby) v e = elim (Bool-cases (is_positive g.gap_pct)) [
    | inl up ↦
        with_choice-IsSound spent (size_buy inputs spent g)
          (select_buy_anchor nearby (inputs.scored_levels g.ticker) inputs.max_distance) v
          (size_buy-IsSound spent g) (branch up _ _ ∙ e)
    | inr down ↦ trim-IsSound spent g nearby g.band_status v (branch down _ _ ∙ e)
  ]
    where
      branch :
          {b c : Bool}
          → b ≡ c
          → (x y : Option Verdict) → (if c then x else y) ≡ (if b then x else y)
      branch h x y = rw h refl

  judge-IsSound :
      (spent : ℕ) (g : GapRow) (st : BandStatus) (v : Verdict)
      → judge inputs spent g st ≡ some v
      → IsSound spent v
  judge-IsSound spent g BandStatus.in_band v e = subst (IsSound spent) (some_inj e) (quiet spent)
  judge-IsSound spent g BandStatus.under v e =
      with_nearby-IsSound spent g (inputs.nearby_levels g.ticker) v e
  judge-IsSound spent g BandStatus.over v e =
      with_nearby-IsSound spent g (inputs.nearby_levels g.ticker) v e

  -- Nothing is purchased, or the purchases fit.
  abbrev pub Fits : ℕ → List SuggestionRow → Type 0
  Fits spent rows =
      ((purchase_shares rows ≡ 0) × (purchase_cost rows ≡ 0))
      ⊎ (neg_part inputs.cash_usd + spent + inputs.cash_floor + purchase_cost rows
          ≤ pos_part inputs.cash_usd + 50 * purchase_shares rows)

  report-Fits :
      (spent : ℕ) (v : Verdict) (rest : List SuggestionRow × List SkippedRow)
      → IsSound spent v
      → Fits (spent + cost_of inputs v) rest.0
      → Fits spent (report inputs v rest).0
        × (All (λ r. 1 ≤ r.qty) rest.0 → All (λ r. 1 ≤ r.qty) (report inputs v rest).0)
  unfolding IsSound
  report-Fits spent silent rest sound fits = (ground arith, λ h. h)
  report-Fits spent (skip s) rest sound fits = (ground arith, λ h. h)
  report-Fits spent (suggest r cost) rest sound fits = (ground arith, λ h. (sound.0, h))

  generate_from-Fits :
      (spent : ℕ) (gs : List GapRow)
      → OnSome (λ r. Fits spent r.0 × All (λ x. 1 ≤ x.qty) r.0) (generate_from inputs spent gs)
  unfolding generate_from
  generate_from-Fits spent [] = (inl (refl, refl), tt)
  generate_from-Fits spent (g ∷ gs) = elim (Option-cases (judge inputs spent g g.band_status)) [
    | inl raised ↦ rw (raised, generate_from) tt
    | inr (v, judged) ↦ elim (Option-cases (generate_from inputs (spent + cost_of inputs v) gs)) [
      | inl raised ↦ rw (judged, raised, generate_from) tt
      | inr (rest, generated) ↦
          let (fits, whole) =
            on_some
              (λ (r : List SuggestionRow × List SkippedRow).
                Fits (spent + cost_of inputs v) r.0 × All (λ x. 1 ≤ x.qty) r.0)
              generated (generate_from-Fits (spent + cost_of inputs v) gs) in
          let (fits', whole') =
            report-Fits spent v rest (judge-IsSound spent g g.band_status v judged) fits in
          rw (judged, generated, generate_from) (fits', whole' whole)
    ]
  ]

  -- When the function returns, each suggestion is of at least one share. Either nothing is purchased, or the purchases, at their
  -- limit prices and with the cash floor on top, cost at most the cash and half a cent for each
  -- share. That half cent is there because the budget is kept at the anchor's price, which is then
  -- rounded to the nearest cent.
  pub generate_suggestions-Fits :
      (gap_rows : List GapRow) (out : List SuggestionRow) (skips : List SkippedRow)
      → generate_suggestions inputs gap_rows ≡ some (out, skips)
      → All (λ r. 1 ≤ r.qty) out
        × (((purchase_shares out ≡ 0) × (purchase_cost out ≡ 0))
            ⊎ (neg_part inputs.cash_usd + inputs.cash_floor + purchase_cost out
                ≤ pos_part inputs.cash_usd + 50 * purchase_shares out))
  unfolding generate_suggestions
  generate_suggestions-Fits gap_rows out skips e =
      let (fits, whole) =
        on_some
          (λ (r : List SuggestionRow × List SkippedRow). Fits 0 r.0 × All (λ x. 1 ≤ x.qty) r.0) e
          (generate_from-Fits 0 gap_rows) in
      (whole, ground arith)
