-- ===== src/Base/Lists.antt =====
-- Lists under Boolean tests, measured by native numbers.
use Prim.Native.Nat.{ℕ, zero, suc, ◌+◌, ◌≤◌}
use mathlib.Core.Path.{◌≡◌, refl, subst, sym}
use mathlib.Core.Bool.{Bool, true, false}
use mathlib.Core.List.{List, [], ◌∷◌, ◌++◌}
use mathlib.Core.Option.{Option, none, some}
use native.Mathlib.Omega.{arith}
use mathlib.Core.Logic.{◌⊎◌, inl, inr}
use me_invest_paper.Base.Tests.{if◌then◌else◌, Bool-cases, ltb}

module _ {ℓ} {A : Type ℓ} where
  abbrev pub length : List A → ℕ
  length [] = 0
  length (x ∷ xs) = suc (length xs)

  abbrev pub get_elem? : List A → ℕ → Option A
  get_elem? [] i = none
  get_elem? (x ∷ xs) zero = some x
  get_elem? (x ∷ xs) (suc i) = get_elem? xs i

  abbrev pub take : ℕ → List A → List A
  take zero xs = []
  take (suc n) [] = []
  take (suc n) (x ∷ xs) = x ∷ take n xs

  abbrev pub filter : (A → Bool) → List A → List A
  filter p [] = []
  filter p (x ∷ xs) = if p x then x ∷ filter p xs else filter p xs

  abbrev pub find? : (A → Bool) → List A → Option A
  find? p [] = none
  find? p (x ∷ xs) = if p x then some x else find? p xs

  abbrev pub any : (A → Bool) → List A → Bool
  any p [] = false
  any p (x ∷ xs) = if p x then true else any p xs

  -- The sum of a weight over the entries that pass a test.
  abbrev pub total : (A → Bool) → (A → ℕ) → List A → ℕ
  total p weight [] = 0
  total p weight (x ∷ xs) = (if p x then weight x else 0) + total p weight xs

  abbrev pub All {κ} : (A → Type κ) → List A → Type κ
  All P [] = Unit
  All P (x ∷ xs) = P x × All P xs

  -- The first entry with the greatest key: the head of `ORDER BY key DESC`.
  abbrev pub latest_by : (A → ℕ) → List A → Option A
  latest_by key [] = none
  latest_by key (x ∷ xs) = elim (latest_by key xs) [
    | none ↦ some x
    | some y ↦ if ltb (key x) (key y) then some y else some x
  ]

  pub All-append {κ} : (P : A → Type κ) (xs ys : List A) → All P xs → All P ys → All P (xs ++ ys)
  All-append P [] ys h k = k
  All-append P (x ∷ xs) ys h k = (h.0, All-append P xs ys h.1 k)

  pub All-map {κ μ} :
      (P : A → Type κ) (Q : A → Type μ)
      → ((x : A) → P x → Q x)
      → (xs : List A) → All P xs
      → All Q xs
  All-map P Q f [] h = tt
  All-map P Q f (x ∷ xs) h = (f x h.0, All-map P Q f xs h.1)

  pub All-both {κ μ ν} :
      (P : A → Type κ) (Q : A → Type μ) (R : A → Type ν)
      → ((x : A) → P x → Q x → R x)
      → (xs : List A) → All P xs
      → All Q xs
      → All R xs
  All-both P Q R f [] h k = tt
  All-both P Q R f (x ∷ xs) h k = (f x h.0 k.0, All-both P Q R f xs h.1 k.1)

  pub All-filter {κ} :
      (P : A → Type κ) (p : A → Bool) (xs : List A) → All P xs → All P (filter p xs)
  All-filter P p [] h = tt
  All-filter P p (x ∷ xs) h = elim (Bool-cases (p x)) [
    | inl e ↦ rw e (h.0, All-filter P p xs h.1)
    | inr e ↦ rw e (All-filter P p xs h.1)
  ]

  pub total-append :
      (p : A → Bool) (weight : A → ℕ) (xs ys : List A)
      → total p weight (xs ++ ys) ≡ total p weight xs + total p weight ys
  total-append p weight [] ys = omega arith
  total-append p weight (x ∷ xs) ys = omega (arith, total-append p weight xs ys)

  pub length-append : (xs ys : List A) → length (xs ++ ys) ≡ length xs + length ys
  length-append [] ys = omega arith
  length-append (x ∷ xs) ys = omega (arith, length-append xs ys)

module _ {A : Type 0} (p : A → Bool) where
  -- Counting what passes a test, where nothing does, and where something is found.
  pub total-none : (xs : List A) → All (λ x. p x ≡ false) xs → total p (λ _. 1) xs ≡ 0
  total-none [] h = refl
  total-none (x ∷ xs) h = ground (arith, h.0, total-none xs h.1)

  pub total-find : (x : A) (xs : List A) → find? p xs ≡ some x → 1 ≤ total p (λ _. 1) xs
  total-find x [] h = absurd (none_ne_some h)
    where
      none_ne_some : ¬ (none ≡ some x)
      none_ne_some = ground arith
  total-find x (y ∷ ys) h = ground (arith, total-find x ys)

module _ {A : Type 0} where
  -- The value is one of the list.
  abbrev pub Has : A → List A → Type 0
  Has a [] = ⊥
  Has a (x ∷ xs) = (a ≡ x) ⊎ Has a xs

  pub Has-filter :
      (p : A → Bool) (a : A) (xs : List A) → Has a (filter p xs) → Has a xs × (p a ≡ true)
  Has-filter p a [] h = absurd h
  Has-filter p a (x ∷ xs) h = ground (arith, Has-filter p a xs)

  pub All-Has_self : (xs : List A) → All (λ x. Has x xs) xs
  All-Has_self [] = tt
  All-Has_self (x ∷ xs) =
      (inl refl, All-map (λ y. Has y xs) (λ y. Has y (x ∷ xs)) (λ y m. inr m) xs (All-Has_self xs))

  -- What passes the filter passes its test and stands in the list.
  pub All-filter_test : (p : A → Bool) (xs : List A) → All (λ x. p x ≡ true) (filter p xs)
  All-filter_test p xs =
      All-map (λ x. Has x (filter p xs)) (λ x. p x ≡ true) (λ x m. (Has-filter p x xs m).1)
        (filter p xs) (All-Has_self (filter p xs))

  pub All-filter-Has : (p : A → Bool) (xs : List A) → All (λ x. Has x xs) (filter p xs)
  All-filter-Has p xs =
      All-map (λ x. Has x (filter p xs)) (λ x. Has x xs) (λ x m. (Has-filter p x xs m).0)
        (filter p xs) (All-Has_self (filter p xs))

  pub All-Has : (P : A → Type 0) (a : A) (xs : List A) → All P xs → Has a xs → P a
  All-Has P a [] h m = absurd m
  All-Has P a (x ∷ xs) h (inl e) = subst P (sym e) h.0
  All-Has P a (x ∷ xs) h (inr m) = All-Has P a xs h.1 m

  pub Has-find :
      (p : A → Bool) (a : A) (xs : List A) → find? p xs ≡ some a → Has a xs × (p a ≡ true)
  Has-find p a [] h = cc
  Has-find p a (x ∷ xs) h = ground (arith, Has-find p a xs)

  -- Nothing of the list passes the test when the search finds nothing.
  pub find-none : (p : A → Bool) (xs : List A) → find? p xs ≡ none → All (λ x. p x ≡ false) xs
  find-none p [] h = tt
  find-none p (x ∷ xs) h = ground (arith, find-none p xs)

  pub Has-latest_by : (key : A → ℕ) (a : A) (xs : List A) → latest_by key xs ≡ some a → Has a xs
  Has-latest_by key a [] h = cc
  Has-latest_by key a (x ∷ xs) h = ground (arith, Has-latest_by key a xs)
