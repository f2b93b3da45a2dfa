-- ===== src/Suggest/Coverage.antt =====
-- Which gaps `generate_suggestions` of services/suggest.py reports.
use me_invest_paper.Base.{
  ℕ, ◌+◌, ◌*◌, ◌≡◌, refl, ap, sym, inl, inr, Bool, true, false, ◌&&◌, ◌||◌, not, Option, none, some,
  present, List, [], ◌∷◌, ltb, filter, Bool-cases, Option-cases, if◌then◌else◌,
}
use me_invest_paper.Suggest.Anchor.{
  NearbyLevels, Anchor, Choice, anchored, skipped, select_buy_anchor, select_sell_anchor,
}
use me_invest_paper.Suggest.Persist.{SuggestionRow}
use me_invest_paper.Suggest.Generate.{
  BandStatus, GapRow, SkippedRow, Inputs, Verdict, silent, skip, suggest, is_positive, side_of,
  buy_shares, sell_shares, breaches, size_buy, size_sell, trim, with_nearby, judge, report, cost_of,
  generate_from, generate_suggestions,
}
use mathlib.Core.Path.{subst}
use me_invest_paper.Store.{Side}
use me_invest_paper.Suggest.Budget.{OnSome, on_some, with_shares-OnSome, with_choice-OnSome}

abbrev pub is_out_of_band : BandStatus → Bool
is_out_of_band BandStatus.in_band = false
is_out_of_band _ = true

abbrev pub is_over : BandStatus → Bool
is_over BandStatus.over = true
is_over _ = false

-- The two lists are about these gaps: each gap in turn is that of the next suggestion or of the next
-- skipped row, which names its ticker and the side that the gap asks for.
pub data Covers : List GapRow → List SuggestionRow → List SkippedRow → Type 0 where
  none_left : Covers [] [] []
  by_suggestion :
      {g : GapRow} {gs : List GapRow} {r : SuggestionRow} {out : List SuggestionRow}
      {skips : List SkippedRow}
      → r.ticker ≡ g.ticker
      → r.side ≡ side_of g.gap_pct
      → Covers gs out skips
      → Covers (g ∷ gs) (r ∷ out) skips
  by_skip :
      {g : GapRow} {gs : List GapRow} {s : SkippedRow} {out : List SuggestionRow}
      {skips : List SkippedRow}
      → s.ticker ≡ g.ticker
      → s.side ≡ side_of g.gap_pct
      → s.gap_pct ≡ g.gap_pct
      → Covers gs out skips
      → Covers (g ∷ gs) out (s ∷ skips)

-- The verdict is about the gap, and names the side.
abbrev IsAbout : GapRow → Side → Verdict → Type 0
IsAbout g side silent = ⊥
IsAbout g side (skip s) = (s.ticker ≡ g.ticker) × (s.side ≡ side) × (s.gap_pct ≡ g.gap_pct)
IsAbout g side (suggest r cost) = (r.ticker ≡ g.ticker) × (r.side ≡ side)

-- The verdict reports the gap exactly when the test says so.
abbrev Reports : Bool → GapRow → Verdict → Type 0
Reports true g v = IsAbout g (side_of g.gap_pct) v
Reports false g v = v ≡ silent

module _ (inputs : Inputs) where
  -- The gaps outside their band that are reported: with a gap up, or over the band, or unknown levels.
  abbrev pub is_reported : GapRow → Bool
  is_reported g =
      is_out_of_band g.band_status
      && (not (present (inputs.nearby_levels g.ticker))
          || is_positive g.gap_pct
          || is_over g.band_status)

  buy_shares-IsAbout :
      (spent : ℕ) (g : GapRow) (a : Anchor) (qty : ℕ)
      → IsAbout g Side.buy (buy_shares inputs spent g a qty)
  unfolding buy_shares
  buy_shares-IsAbout spent g a qty = elim (Bool-cases (ltb qty 1)) [
    | inl few ↦ rw few (refl, refl, refl)
    | inr enough ↦ elim (Bool-cases (breaches inputs spent (qty * a.price))) [
      | inl over ↦ rw (enough, over) (refl, refl, refl)
      | inr fits ↦ rw (enough, fits) (refl, refl)
    ]
  ]

  sell_shares-IsAbout :
      (g : GapRow) (a : Anchor) (qty : ℕ) → IsAbout g Side.sell (sell_shares inputs g a qty)
  unfolding sell_shares
  sell_shares-IsAbout g a qty = elim (Bool-cases (ltb qty 1)) [
    | inl few ↦ rw few (refl, refl, refl)
    | inr enough ↦ rw enough (refl, refl)
  ]

  size_buy-IsAbout :
      (spent : ℕ) (g : GapRow) (choice : Choice)
      → OnSome (IsAbout g Side.buy) (size_buy inputs spent g choice)
  size_buy-IsAbout spent g (skipped reason) = (refl, refl, refl)
  size_buy-IsAbout spent g (anchored a) =
      with_shares-OnSome inputs (IsAbout g Side.buy) (buy_shares inputs spent g a) _
        (buy_shares-IsAbout spent g a)

  size_sell-IsAbout :
      (g : GapRow) (choice : Choice) → OnSome (IsAbout g Side.sell) (size_sell inputs g choice)
  size_sell-IsAbout g (skipped reason) = (refl, refl, refl)
  size_sell-IsAbout g (anchored a) =
      with_shares-OnSome inputs (IsAbout g Side.sell) (sell_shares inputs g a) _
        (sell_shares-IsAbout g a)

  -- The verdict on a gap, if there is one, reports it as the test says.
  abbrev ReportsIf : Bool → GapRow → Option Verdict → Type 0
  ReportsIf b g o = OnSome (Reports b g) o

  trim-Reports :
      (g : GapRow) (nearby : NearbyLevels) (st : BandStatus)
      → side_of g.gap_pct ≡ Side.sell
      → ReportsIf (is_over st) g (trim inputs g nearby st)
  trim-Reports g nearby BandStatus.over sells =
      with_choice-OnSome inputs (Reports true g) (size_sell inputs g)
        (select_sell_anchor nearby (inputs.scored_levels g.ticker) inputs.max_distance)
        (λ choice.
          subst (λ side. OnSome (IsAbout g side) (size_sell inputs g choice)) (sym sells)
            (size_sell-IsAbout g choice))
  trim-Reports g nearby BandStatus.under sells = refl
  trim-Reports g nearby BandStatus.in_band sells = refl

  with_nearby-Reports :
      (spent : ℕ) (g : GapRow) (o : Option NearbyLevels)
      → ReportsIf
          (not (present o) || is_positive g.gap_pct || is_over g.band_status)
          g
          (with_nearby inputs spent g o)
  with_nearby-Reports spent g none = (refl, refl, refl)
  with_nearby-Reports spent g (some nearby) = elim (Bool-cases (is_positive g.gap_pct)) [
    | inl up ↦ rw up (
        with_choice-OnSome inputs (Reports true g) (size_buy inputs spent g)
          (select_buy_anchor nearby (inputs.scored_levels g.ticker) inputs.max_distance)
          (λ choice.
            subst (λ side. OnSome (IsAbout g side) (size_buy inputs spent g choice))
              (ap (λ (b : Bool). if b then Side.buy else Side.sell) (sym up))
              (size_buy-IsAbout spent g choice)))
    | inr down ↦ rw down (
        trim-Reports g nearby g.band_status
          (ap (λ (b : Bool). if b then Side.buy else Side.sell) down))
  ]

  judge-Reports :
      (spent : ℕ) (g : GapRow) (st : BandStatus)
      → ReportsIf
          (is_out_of_band st
            && (not (present (inputs.nearby_levels g.ticker))
                || is_positive g.gap_pct
                || is_over g.band_status))
          g
          (judge inputs spent g st)
  judge-Reports spent g BandStatus.in_band = refl
  judge-Reports spent g BandStatus.under =
      with_nearby-Reports spent g (inputs.nearby_levels g.ticker)
  judge-Reports spent g BandStatus.over =
      with_nearby-Reports spent g (inputs.nearby_levels g.ticker)

  report-Covers :
      (g : GapRow) (gs : List GapRow) (v : Verdict) (out : List SuggestionRow)
      (skips : List SkippedRow)
      → IsAbout g (side_of g.gap_pct) v
      → Covers gs out skips
      → Covers (g ∷ gs) (report inputs v (out, skips)).0 (report inputs v (out, skips)).1
  report-Covers g gs silent out skips about c = absurd about
  report-Covers g gs (skip s) out skips (ticker, side, gap) c = by_skip ticker side gap c
  report-Covers g gs (suggest r cost) out skips (ticker, side) c = by_suggestion ticker side c

  -- What the loop returns is about the gaps that are reported.
  abbrev CoversAll : List GapRow → List SuggestionRow × List SkippedRow → Type 0
  CoversAll gs (out, skips) = Covers (filter is_reported gs) out skips

  report-CoversAll :
      (g : GapRow) (gs : List GapRow) (v : Verdict) (rest : List SuggestionRow × List SkippedRow)
      → Reports (is_reported g) g v
      → CoversAll gs rest
      → CoversAll (g ∷ gs) (report inputs v rest)
  report-CoversAll g gs v (out, skips) reports c = elim (Bool-cases (is_reported g)) [
    | inl t ↦
        let about = subst (λ b. Reports b g v) t reports in
        rw t (report-Covers g (filter is_reported gs) v out skips about c)
    | inr f ↦ let quiet : v ≡ silent = subst (λ b. Reports b g v) f reports in rw (f, quiet) c
  ]

  generate_from-Covers :
      (spent : ℕ) (gs : List GapRow) → OnSome (CoversAll gs) (generate_from inputs spent gs)
  unfolding generate_from
  generate_from-Covers spent [] = none_left
  generate_from-Covers spent (g ∷ gs) = elim (Option-cases (judge inputs spent g g.band_status)) [
    | inl raised ↦ rw (raised, generate_from) tt
    | inr (v, judged) ↦ elim (Option-cases (generate_from inputs (spent + cost_of inputs v) gs)) [
      | inl raised ↦ rw (judged, raised, generate_from) tt
      | inr (rest, generated) ↦
          rw (judged, generated, generate_from)
            (report-CoversAll g gs v rest
              (on_some (Reports (is_reported g) g) judged (judge-Reports spent g g.band_status))
              (on_some (CoversAll gs) generated
                (generate_from-Covers (spent + cost_of inputs v) gs)))
    ]
  ]

  -- When the function returns, the gaps that are to be reported, those outside their band which are up,
  -- or over the band, or without levels, are covered in their order: each has one suggestion or one
  -- skipped row, of its ticker, a purchase where the gap is up and a sale where it is not, a skipped row
  -- with its gap too, and there are no other suggestions or skipped rows.
  pub generate_suggestions-Covers :
      (gap_rows : List GapRow) (out : List SuggestionRow) (skips : List SkippedRow)
      → generate_suggestions inputs gap_rows ≡ some (out, skips)
      → Covers (filter is_reported gap_rows) out skips
  unfolding generate_suggestions
  generate_suggestions-Covers gap_rows out skips e =
      on_some (CoversAll gap_rows) e (generate_from-Covers 0 gap_rows)
