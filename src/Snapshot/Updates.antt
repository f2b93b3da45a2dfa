-- ===== src/Snapshot/Updates.antt =====
-- State rows of services/snapshot.py under one test, and the update of one of them.
use me_invest_paper.Base.{
  ℕ, ◌≤◌, ◌≡◌, refl, ap, ◌∙◌, sym, ◌≢◌, inl, inr, Bool, true, false, List, [], ◌∷◌, ◌==◌, ==_iff,
  filter, total, arith, All, All-map, All-both, Has, All-Has, Bool-cases,
}
use me_invest_paper.Base.Rows.{update, Distinct}
use me_invest_paper.Accounts.{BrokerAccount}

module _ (p : BrokerAccount → Bool) where
  zero-All : (xs : List BrokerAccount) → total p (λ _. 1) xs ≡ 0 → All (λ r. p r ≡ false) xs
  zero-All [] h = tt
  zero-All (x ∷ xs) h = (ground arith, zero-All xs (ground arith))

  pub total-Has :
      (y : BrokerAccount) (xs : List BrokerAccount)
      → p y ≡ true
      → Has y xs
      → 1 ≤ total p (λ _. 1) xs
  total-Has y [] h m = absurd m
  total-Has y (x ∷ xs) h (inl e) = let here : p x ≡ true = ap p (sym e) ∙ h in ground arith
  total-Has y (x ∷ xs) h (inr m) = let rest = total-Has y xs h m in ground arith

  -- Where at most one row passes, it is the one that is known to.
  pub only-Has :
      (y : BrokerAccount) (xs : List BrokerAccount)
      → p y ≡ true
      → Has y xs
      → total p (λ _. 1) xs ≤ 1
      → All (λ r. p r ≡ true → r ≡ y) xs
  only-Has y [] h m one = absurd m
  only-Has y (x ∷ xs) h (inl e) one =
      let here : p x ≡ true = ap p (sym e) ∙ h in
      let rest : total p (λ _. 1) xs ≡ 0 = ground arith in
      (
        λ _. sym e,
        All-map (λ r. p r ≡ false) (λ r. p r ≡ true → r ≡ y) (λ r no yes. cc) xs (zero-All xs rest),
      )
  only-Has y (x ∷ xs) h (inr m) one =
      let rest = total-Has y xs h m in
      let other : p x ≡ false = ground arith in (λ yes. cc, only-Has y xs h m (ground arith))

module _ (i : ℕ) (f : BrokerAccount → BrokerAccount) where
  pub All-updated :
      (P Q : BrokerAccount → Type 0)
      → ((r : BrokerAccount) → P r → Q (f r))
      → ((r : BrokerAccount) → P r → r.id ≢ i → Q r)
      → (xs : List BrokerAccount) → Distinct (λ (r : BrokerAccount). r.id) xs
      → All P xs
      → All Q (update (λ r. r.id) i f xs)
  All-updated P Q here there [] d h = tt
  All-updated P Q here there (x ∷ xs) d h = elim (Bool-cases (x.id == i)) [
    | inl same ↦ rw same (
      here x h.0,
      All-both P (λ r. r.id ≢ x.id) Q
          (λ r p ne. there r p (λ e. ne (e ∙ sym ((==_iff x.id i).0 same)))) xs h.1 d.0,
    )
    | inr other ↦ rw other (
      there x h.0 (λ e. true_false ((==_iff x.id i).1 e) other),
      All-updated P Q here there xs d.1 h.1,
    )
  ]
    where
      true_false : {b : Bool} → b ≡ true → b ≡ false → ⊥
      true_false t e = cc

-- A change of one row does not show where that row is not looked at.
pub filter-updated :
    (q : BrokerAccount → Bool) (f : BrokerAccount → BrokerAccount) (y : BrokerAccount)
    (xs : List BrokerAccount)
    → Distinct (λ (r : BrokerAccount). r.id) xs
    → Has y xs
    → q y ≡ false
    → q (f y) ≡ false
    → filter q (update (λ r. r.id) y.id f xs) ≡ filter q xs
filter-updated q f y [] h m before after = refl
filter-updated q f y (x ∷ xs) h (inl e) before after =
    let no : q x ≡ false = ap q (sym e) ∙ before in
    let no' : q (f x) ≡ false = ap (λ r. q (f r)) (sym e) ∙ after in
    let here : (x.id == y.id) ≡ true =
      (==_iff x.id y.id).1 (ap (λ (r : BrokerAccount). r.id) (sym e)) in
    rw (here, no', no) refl
filter-updated q f y (x ∷ xs) h (inr m) before after =
    let ne : y.id ≢ x.id = All-Has (λ r. r.id ≢ x.id) y xs h.0 m in
    let other : (x.id == y.id) ≡ false = ground (arith, ne) in
    let rest = filter-updated q f y xs h.1 m before after in
    elim (Bool-cases (q x)) [
      | inl seen ↦ rw other (rw seen (ap (λ l. x ∷ l) rest))
      | inr unseen ↦ rw other (rw unseen rest)
    ]
