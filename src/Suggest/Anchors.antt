-- ===== src/Suggest/Anchors.antt =====
-- Which anchors `_select_buy_anchor` of services/suggest.py gives.
use me_invest_paper.Base.{
  ℕ, zero, suc, ◌≤◌, ◌≡◌, refl, ap, sym, subst, ◌∙◌, ◌⊎◌, inl, inr, ◌≢◌, Bool, true, false, ◌&&◌,
  not, Option, none, some, List, [], ◌∷◌, ◌==◌, ltb, leb, arith, filter, Has, Has-filter,
  Bool-cases, if◌then◌else◌,
}
use me_invest_paper.Reconciliation.Matching.{distance}
use me_invest_paper.Suggest.Anchor.{
  SrLevel, ScoredLevel, NearbyLevels, is_in_band, most_confident, nearest, min_confidence,
  choose_anchor, select_anchor, is_broken_level, Anchor, scored_anchor, plain_anchor, is_support,
  Choice, anchored, skipped, too_far, within_distance, fallback_support, buy_levels,
  scored_or_fallback, select_buy_anchor,
}

-- One of two keeps being one of the list.
Has-chosen :
    {A : Type 0} (b : Bool) (x best lv : A) (lvs : List A)
    → Has x ((if b then lv else best) ∷ lvs)
    → Has x (best ∷ lv ∷ lvs)
Has-chosen true x best lv lvs m = inr m
Has-chosen false x best lv lvs (inl e) = inl e
Has-chosen false x best lv lvs (inr m) = inr (inr m)

most_confident-Has :
    (best : ScoredLevel) (lvs : List ScoredLevel) → Has (most_confident best lvs) (best ∷ lvs)
most_confident-Has best [] = inl refl
most_confident-Has best (lv ∷ lvs) =
    Has-chosen (ltb best.confidence lv.confidence) (most_confident best (lv ∷ lvs)) best lv lvs
      (most_confident-Has (if ltb best.confidence lv.confidence then lv else best) lvs)

nearest-Has :
    (current : ℕ) (best : ScoredLevel) (lvs : List ScoredLevel)
    → Has (nearest current best lvs) (best ∷ lvs)
nearest-Has current best [] = inl refl
nearest-Has current best (lv ∷ lvs) =
    Has-chosen (ltb (distance lv.price current) (distance best.price current))
      (nearest current best (lv ∷ lvs)) best lv lvs
      (nearest-Has current
        (if ltb (distance lv.price current) (distance best.price current) then lv else best) lvs)

level_inj : (x y : ScoredLevel) → some x ≡ some y → x ≡ y
level_inj x y e = ap (from_some x) e
  where
    from_some : ScoredLevel → Option ScoredLevel → ScoredLevel
    from_some d none = d
    from_some d (some v) = v

choose_anchor-Has :
    (current : ℕ) (in_band scored : List ScoredLevel) (lv : ScoredLevel)
    → ((x : ScoredLevel) → Has x scored → Has x in_band)
    → choose_anchor current in_band scored ≡ some lv
    → Has lv in_band
unfolding choose_anchor
choose_anchor-Has current in_band (x ∷ xs) lv sub e =
    subst (λ l. Has l in_band) (level_inj (most_confident x xs) lv e)
      (sub (most_confident x xs) (most_confident-Has x xs))
choose_anchor-Has current (x ∷ xs) [] lv sub e =
    subst (λ l. Has l (x ∷ xs)) (level_inj (nearest current x xs) lv e) (nearest-Has current x xs)
choose_anchor-Has current [] [] lv sub e = cc

no_level : (lv : ScoredLevel) → ¬ (none ≡ some lv)
no_level lv = ground arith

abbrev flat : Option (Option ScoredLevel) → Option ScoredLevel
flat none = none
flat (some o) = o

select_anchor-Has :
    (max_distance : ℕ) (lvs : List ScoredLevel) (current : ℕ) (lv : ScoredLevel)
    → select_anchor max_distance lvs current ≡ some (some lv)
    → Has lv lvs
unfolding select_anchor
select_anchor-Has max_distance [] current lv e = absurd (no_level lv (ap flat e))
select_anchor-Has max_distance (x ∷ xs) zero lv e = absurd (no_level lv (ap flat e))
select_anchor-Has max_distance (x ∷ xs) (suc c) lv e =
    let in_band = filter (λ l. is_in_band max_distance (suc c) l.price) (x ∷ xs) in
    let scored = filter (λ l. leb min_confidence l.confidence) in_band in
    (Has-filter (λ l. is_in_band max_distance (suc c) l.price) lv (x ∷ xs)
      (choose_anchor-Has (suc c) in_band scored lv
        (λ y m. (Has-filter (λ l. leb min_confidence l.confidence) y in_band m).0) (ap flat e))).0

abbrev anchor_or : Anchor → Choice → Anchor
anchor_or d (anchored a) = a
anchor_or d (skipped r) = d

abbrev is_anchored : Choice → Bool
is_anchored (anchored a) = true
is_anchored (skipped r) = false

true_ne_false : ¬ (true ≡ false)
true_ne_false = ground arith

-- The guard gives the anchor that it is asked about, within the distance.
within_distance_lem :
    (max_distance current : ℕ) (a a' : Anchor)
    → current ≢ 0
    → within_distance max_distance current a ≡ anchored a'
    → (a ≡ a') × (is_in_band max_distance current a'.price ≡ true)
within_distance_lem max_distance current a a' ne e =
    let off : (current == 0) ≡ false = ground arith in
    elim (Bool-cases (is_in_band max_distance current a.price)) [
      | inl near ↦
          let same : a ≡ a' = ap (anchor_or a) (sym (given off near) ∙ e) in
          (same, ap (λ x. is_in_band max_distance current x.price) (sym same) ∙ near)
      | inr far ↦ absurd (true_ne_false (sym (ap is_anchored (sym (refused off far) ∙ e))))
    ]
  where
    given :
        (current == 0) ≡ false
        → is_in_band max_distance current a.price ≡ true
        → within_distance max_distance current a ≡ anchored a
    given off near = rw (off, near) refl

    refused :
        (current == 0) ≡ false
        → is_in_band max_distance current a.price ≡ false
        → within_distance max_distance current a ≡ skipped too_far
    refused off far = rw (off, far) refl

-- Where an anchor comes from: a scored support at or below the price, or a nearby support.
abbrev pub IsFrom : NearbyLevels → List ScoredLevel → Anchor → Type 0
IsFrom nearby scored a =
    ((lv : ScoredLevel) × Has lv scored
      × (is_support lv.type ≡ true)
      × (lv.price ≤ nearby.current_price)
      × (a ≡ scored_anchor lv))
    ⊎ ((lv : SrLevel) × Has lv nearby.supports × (a ≡ plain_anchor lv))

abbrev pub IsGoodAnchor : NearbyLevels → List ScoredLevel → ℕ → Anchor → Type 0
IsGoodAnchor nearby scored max_distance a =
    IsFrom nearby scored a
    × (is_in_band max_distance nearby.current_price a.price ≡ true)
    × (is_broken_level nearby a.method a.price ≡ false)

choice_inj : (d x y : Choice) → some x ≡ some y → x ≡ y
choice_inj d x y e = ap (from_some d) e
  where
    from_some : Choice → Option Choice → Choice
    from_some d none = d
    from_some d (some v) = v

good_fallback :
    (nearby : NearbyLevels) (scored : List ScoredLevel) (max_distance : ℕ) (a : Anchor)
    (lvs valid : List SrLevel)
    → nearby.current_price ≢ 0
    → ((v : SrLevel)
        → Has v valid
        → Has v nearby.supports × (is_broken_level nearby v.method v.price ≡ false))
    → fallback_support nearby lvs valid max_distance ≡ anchored a
    → IsGoodAnchor nearby scored max_distance a
good_fallback nearby scored max_distance a [] valid ne sub e =
    absurd (true_ne_false (sym (ap is_anchored e)))
good_fallback nearby scored max_distance a (lv ∷ lvs) [] ne sub e =
    absurd (true_ne_false (sym (ap is_anchored e)))
good_fallback nearby scored max_distance a (lv ∷ lvs) (v ∷ vs) ne sub e =
    let (same, near) =
      within_distance_lem max_distance nearby.current_price (plain_anchor v) a ne e in
    let (stands, whole) = sub v (inl refl) in
    (
      inr (v, stands, sym same),
      near,
      subst (λ (x : Anchor). is_broken_level nearby x.method x.price ≡ false) same whole,
    )

good_scored :
    (nearby : NearbyLevels) (scored : List ScoredLevel) (max_distance : ℕ) (a : Anchor)
    (lv : ScoredLevel)
    → nearby.current_price ≢ 0
    → Has lv (buy_levels nearby scored)
    → within_distance max_distance nearby.current_price (scored_anchor lv) ≡ anchored a
    → IsGoodAnchor nearby scored max_distance a
good_scored nearby scored max_distance a lv ne m e =
    let (same, near) =
      within_distance_lem max_distance nearby.current_price (scored_anchor lv) a ne e in
    let (stands, passed) =
      Has-filter
        (λ (l : ScoredLevel).
          is_support l.type
          && leb l.price nearby.current_price
          && not (is_broken_level nearby l.method l.price))
        lv scored m in
    (
      inl (lv, stands, ground arith, ground arith, sym same),
      near,
      subst (λ (x : Anchor). is_broken_level nearby x.method x.price ≡ false) same (ground arith),
    )

good_of :
    (nearby : NearbyLevels) (scored : List ScoredLevel) (max_distance : ℕ) (a : Anchor)
    → nearby.current_price ≢ 0
    → (o : Option (Option ScoredLevel))
    → select_anchor max_distance (buy_levels nearby scored) nearby.current_price ≡ o
    → scored_or_fallback nearby max_distance o ≡ some (anchored a)
    → IsGoodAnchor nearby scored max_distance a
good_of nearby scored max_distance a ne none found e = absurd (no_choice (anchored a) e)
  where
    no_choice : (c : Choice) → ¬ (none ≡ some c)
    no_choice c = ground arith
good_of nearby scored max_distance a ne (some (some lv)) found e =
    good_scored nearby scored max_distance a lv ne
      (select_anchor-Has max_distance (buy_levels nearby scored) nearby.current_price lv found)
      (choice_inj (anchored a) _ (anchored a) e)
good_of nearby scored max_distance a ne (some none) found e =
    good_fallback nearby scored max_distance a nearby.supports
      (filter (λ lv. not (is_broken_level nearby lv.method lv.price)) nearby.supports) ne
      (λ v m.
        let (stands, passed) =
          Has-filter (λ (l : SrLevel). not (is_broken_level nearby l.method l.price)) v
            nearby.supports m in
        (stands, ground arith))
      (choice_inj (anchored a) _ (anchored a) e)

-- An anchor for a purchase, at a ticker with a price, lies within the distance, is not a level that was
-- broken, and is a scored support at or below the price or one of the nearby supports.
pub select_buy_anchor-IsGoodAnchor :
    (nearby : NearbyLevels) (scored : List ScoredLevel) (max_distance : ℕ) (a : Anchor)
    → nearby.current_price ≢ 0
    → select_buy_anchor nearby scored max_distance ≡ some (anchored a)
    → IsGoodAnchor nearby scored max_distance a
unfolding select_buy_anchor
select_buy_anchor-IsGoodAnchor nearby scored max_distance a ne e =
    good_of nearby scored max_distance a ne
      (select_anchor max_distance (buy_levels nearby scored) nearby.current_price) refl e
