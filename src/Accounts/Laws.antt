-- ===== src/Accounts/Laws.antt =====
-- What the functions of services/accounts.py promise.
use me_invest_paper.Base.{
  Option, ==_iff, ℕ, ◌≤◌, ◌≡◌, refl, ap, sym, ◌∙◌, ◌⊎◌, inl, inr, ◌≢◌, ◌↔◌, Bool, true, false, none,
  some, List, [], ◌∷◌, map, ◌==◌, ltb, any, arith, filter, All, All-map, All-Has, subst,
  All-Has_self, Has, Has-filter, Bool-cases, Option-cases,
}
use me_invest_paper.Base.Rows.{Distinct}
use me_invest_paper.Accounts.{
  BrokerAccount, is_open_row, insert_by_sync, sort_by_sync, active_rows, first_of_each,
  resolve_active_account_refs, least, resolve_primary_account_ref,
}

Has-insert :
    (a r : BrokerAccount) (xs : List BrokerAccount) → Has a (insert_by_sync r xs) ↔ Has a (r ∷ xs)
Has-insert a r [] = (λ m. m, λ m. m)
Has-insert a r (x ∷ xs) = ground (arith, Has-insert a r xs)

Has-sort : (a : BrokerAccount) (xs : List BrokerAccount) → Has a (sort_by_sync xs) ↔ Has a xs
Has-sort a [] = (λ m. m, λ m. m)
Has-sort a (x ∷ xs) = ground (arith, Has-insert a x (sort_by_sync xs), Has-sort a xs)

Has-filter_intro :
    (p : BrokerAccount → Bool) (a : BrokerAccount) (xs : List BrokerAccount)
    → Has a xs
    → p a ≡ true
    → Has a (filter p xs)
Has-filter_intro p a [] m h = absurd m
Has-filter_intro p a (x ∷ xs) m h = ground (arith, λ (e : a ≡ x). ap p e, Has-filter_intro p a xs)

-- The row is one of the table, current and active, and carries the reference.
abbrev pub IsActiveRef : List BrokerAccount → ℕ → Type 0
IsActiveRef rows ref =
    (r : BrokerAccount) × Has r rows × (is_open_row r ≡ true) × (r.account_ref ≡ some ref)

Has-active_rows :
    (rows : List BrokerAccount) (r : BrokerAccount)
    → Has r (active_rows rows) ↔ Has r rows × (is_open_row r ≡ true)
unfolding active_rows
Has-active_rows rows r = (
  λ m. Has-filter is_open_row r rows ((Has-sort r (filter is_open_row rows)).0 m),
  λ h. (Has-sort r (filter is_open_row rows)).1 (Has-filter_intro is_open_row r rows h.0 h.1),
)

abbrev refs_of : List ℕ → List BrokerAccount → List ℕ
refs_of seen rs = map (λ a. a.account_ref) (first_of_each seen rs)

abbrev is_in : ℕ → List ℕ → Bool
is_in ref seen = any (λ x. x == ref) seen

refs_of-unseen :
    (ref : ℕ) (seen : List ℕ) (rs : List BrokerAccount)
    → Has ref (refs_of seen rs)
    → is_in ref seen ≡ false
unfolding first_of_each
refs_of-unseen ref seen [] m = absurd m
refs_of-unseen ref seen (r ∷ rs) m = elim (Option-cases r.account_ref) [
  | inl e ↦ ground (arith, refs_of-unseen ref seen rs)
  | inr (x, e) ↦ ground (arith, refs_of-unseen ref seen rs, refs_of-unseen ref (x ∷ seen) rs)
]

-- A row of the list carries the reference.
abbrev Carries : List BrokerAccount → ℕ → Type 0
Carries rs ref = (r : BrokerAccount) × Has r rs × (r.account_ref ≡ some ref)

cons_lem :
    (r : BrokerAccount) (rs : List BrokerAccount) (ref : ℕ)
    → Carries (r ∷ rs) ref ↔ (r.account_ref ≡ some ref) ⊎ Carries rs ref
cons_lem r rs ref = (
  λ (x, m, e). elim m [
    | inl same ↦ inl (ap (λ y. y.account_ref) (sym same) ∙ e)
    | inr k ↦ inr (x, k, e)
  ],
  λ h. elim h [ inl e ↦ (r, inl refl, e) | inr (x, k, e) ↦ (x, inr k, e) ],
)

-- A row without a reference, and one whose reference was seen, add nothing.
skip_step :
    (ref : ℕ) (seen l : List ℕ) {C C' : Type 0} (o : Option ℕ)
    → (Has ref l ↔ (is_in ref seen ≡ false) × C)
    → (C' ↔ (o ≡ some ref) ⊎ C)
    → (o ≡ some ref → is_in ref seen ≡ true)
    → Has ref l ↔ (is_in ref seen ≡ false) × C'
skip_step ref seen l o rest cons known = (
  λ m. let (unseen, c) = rest.0 m in (unseen, cons.1 (inr c)),
  λ (unseen, c'). elim (cons.0 c') [
    | inl e ↦ absurd (true_false (known e) unseen)
    | inr c ↦ rest.1 (unseen, c)
  ],
)
  where
    true_false : {b : Bool} → b ≡ true → b ≡ false → ⊥
    true_false t e = cc

-- One whose reference is new adds it.
new_step :
    (ref x : ℕ) (seen l : List ℕ) {C C' : Type 0} (o : Option ℕ)
    → (Has ref l ↔ (is_in ref (x ∷ seen) ≡ false) × C)
    → (C' ↔ (o ≡ some ref) ⊎ C)
    → o ≡ some x
    → is_in x seen ≡ false
    → Has ref (x ∷ l) ↔ (is_in ref seen ≡ false) × C'
new_step ref x seen l o rest cons e fresh = (
  λ m. elim m [
    | inl same ↦ (ap (λ t. is_in t seen) same ∙ fresh, cons.1 (inl (e ∙ ap some (sym same))))
    | inr k ↦ let (unseen, c) = rest.0 k in (less unseen, cons.1 (inr c))
  ],
  λ (unseen, c'). elim (cons.0 c') [
    | inl e' ↦ inl (same_ref (sym e ∙ e'))
    | inr c ↦ elim (Bool-cases (x == ref)) [
      | inl here ↦ inl (sym ((==_iff x ref).0 here))
      | inr there ↦ inr (rest.1 (more unseen there, c))
    ]
  ],
)
  where
    less : is_in ref (x ∷ seen) ≡ false → is_in ref seen ≡ false
    less h = ground arith

    more : is_in ref seen ≡ false → (x == ref) ≡ false → is_in ref (x ∷ seen) ≡ false
    more h k = ground arith

    same_ref : some x ≡ some ref → ref ≡ x
    same_ref h = cc

Has-refs_of :
    (ref : ℕ) (seen : List ℕ) (rs : List BrokerAccount)
    → Has ref (refs_of seen rs) ↔ (is_in ref seen ≡ false) × Carries rs ref
unfolding first_of_each
Has-refs_of ref seen [] = (λ m. absurd m, λ h. absurd h.1.1)
Has-refs_of ref seen (r ∷ rs) = elim (Option-cases r.account_ref) [
  | inl e ↦
      let same : refs_of seen (r ∷ rs) ≡ refs_of seen rs = rw e refl in
      subst (λ l. Has ref l ↔ (is_in ref seen ≡ false) × Carries (r ∷ rs) ref) (sym same)
        (skip_step ref seen (refs_of seen rs) r.account_ref (Has-refs_of ref seen rs)
          (cons_lem r rs ref) (λ e'. absurd (none_some (sym e ∙ e'))))
  | inr (x, e) ↦ elim (Bool-cases (is_in x seen)) [
    | inl old ↦
        let same : refs_of seen (r ∷ rs) ≡ refs_of seen rs = rw (e, old) refl in
        subst (λ l. Has ref l ↔ (is_in ref seen ≡ false) × Carries (r ∷ rs) ref) (sym same)
          (skip_step ref seen (refs_of seen rs) r.account_ref (Has-refs_of ref seen rs)
            (cons_lem r rs ref) (λ e'. ap (λ t. is_in t seen) (same_ref (sym e' ∙ e)) ∙ old))
    | inr fresh ↦
        let same : refs_of seen (r ∷ rs) ≡ x ∷ refs_of (x ∷ seen) rs = rw (e, fresh) refl in
        subst (λ l. Has ref l ↔ (is_in ref seen ≡ false) × Carries (r ∷ rs) ref) (sym same)
          (new_step ref x seen (refs_of (x ∷ seen) rs) r.account_ref (Has-refs_of ref (x ∷ seen) rs)
            (cons_lem r rs ref) e fresh)
  ]
]
  where
    none_some : {y : ℕ} → none ≡ some y → ⊥
    none_some h = ground arith

    same_ref : {x y : ℕ} → some y ≡ some x → y ≡ x
    same_ref h = cc

refs_of-ne :
    (x : ℕ) (seen : List ℕ) (rs : List BrokerAccount) → All (λ y. y ≢ x) (refs_of (x ∷ seen) rs)
refs_of-ne x seen rs =
    let refs = refs_of (x ∷ seen) rs in
    All-map (λ y. Has y refs) (λ y. y ≢ x) (λ y m. ground (arith, refs_of-unseen y (x ∷ seen) rs m))
      refs (All-Has_self refs)

refs_of-Distinct : (seen : List ℕ) (rs : List BrokerAccount) → Distinct (λ x. x) (refs_of seen rs)
unfolding first_of_each
refs_of-Distinct seen [] = tt
refs_of-Distinct seen (r ∷ rs) = elim (Option-cases r.account_ref) [
  | inl e ↦ rw (e) (refs_of-Distinct seen rs)
  | inr (x, e) ↦ elim (Bool-cases (is_in x seen)) [
    | inl old ↦ rw (e, old) (refs_of-Distinct seen rs)
    | inr fresh ↦ rw (e, fresh) (refs_of-ne x seen rs, refs_of-Distinct (x ∷ seen) rs)
  ]
]

least_lem :
    (xs : List ℕ)
    → ((least xs ≡ none) × (xs ≡ []))
      ⊎ ((m : ℕ) × (least xs ≡ some m) × Has m xs × All (λ x. m ≤ x) xs)
least_lem [] = inl (refl, refl)
least_lem (x ∷ xs) = elim (least_lem xs) [
  | inl (e, nil) ↦ inr (x, rw e refl, inl refl, (omega arith, rw nil tt))
  | inr (m, e, has, le) ↦ elim (Bool-cases (ltb m x)) [
    | inl less ↦ inr (m, rw (e, less) refl, inr has, (ground arith, le))
    | inr more ↦ inr (
      x,
      rw (e, more) refl,
      inl refl,
      (omega arith, All-map (λ y. m ≤ y) (λ y. x ≤ y) (λ y h. ground arith) xs le),
    )
  ]
]

-- The active accounts are listed once each, and exactly those references that a current, active
-- row carries.
pub resolve_active_account_refs_lem :
    (rows : List BrokerAccount)
    → Distinct (λ ref. ref) (resolve_active_account_refs rows)
      × ((ref : ℕ) → Has ref (resolve_active_account_refs rows) ↔ IsActiveRef rows ref)
resolve_active_account_refs_lem rows = (
  refs_of-Distinct [] (active_rows rows),
  λ ref. (
    λ m.
        let (r, has, e) = ((Has-refs_of ref [] (active_rows rows)).0 m).1 in
        let (stands, is_open) = (Has-active_rows rows r).0 has in (r, stands, is_open, e),
    λ (r, has, is_open, e).
        (Has-refs_of ref [] (active_rows rows)).1
          (refl, (r, (Has-active_rows rows r).1 (has, is_open), e)),
  ),
)

-- The primary account is the lowest active reference, whatever the times of the last syncs are, and
-- there is none exactly when no account is active.
pub resolve_primary_account_ref_lem :
    (rows : List BrokerAccount)
    → ((resolve_primary_account_ref rows ≡ none) × ((ref : ℕ) → ¬ IsActiveRef rows ref))
      ⊎ ((m : ℕ) × (resolve_primary_account_ref rows ≡ some m)
          × IsActiveRef rows m
          × ((ref : ℕ) → IsActiveRef rows ref → m ≤ ref))
resolve_primary_account_ref_lem rows =
    let active = (resolve_active_account_refs_lem rows).1 in
    elim (least_lem (resolve_active_account_refs rows)) [
      | inl (e, nil) ↦ inl (e, λ ref h. subst (λ l. Has ref l) nil ((active ref).1 h))
      | inr (m, e, has, le) ↦ inr (
        m,
        e,
        (active m).0 has,
        λ ref h. All-Has (λ x. m ≤ x) ref (resolve_active_account_refs rows) le ((active ref).1 h),
      )
    ]
