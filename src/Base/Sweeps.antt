-- ===== src/Base/Sweeps.antt =====
-- One change made to each row of a selection, one row after the other.
use Prim.Native.Nat.{ℕ}
use mathlib.Core.Path.{◌≡◌, refl, ap, ◌∙◌}
use mathlib.Core.Logic.{◌≢◌, inl, inr}
use mathlib.Core.Bool.{Bool, false, ◌||◌, ◌&&◌}
use mathlib.Core.List.{List, [], ◌∷◌, map}
use native.Mathlib.Omega.{arith}
use me_invest_paper.Base.Tests.{if◌then◌else◌, ◌==◌, Bool-cases}
use me_invest_paper.Base.Lists.{filter, All, All-filter}
use me_invest_paper.Base.Rows.{update, Distinct}

-- The change `f` of the rows that pass a test.
abbrev pub when : {A : Type 0} → (A → Bool) → (A → A) → A → A
when p f x = if p x then f x else x

module _ {A : Type 0} (key : A → ℕ) (f : A → A) where
  -- The updates of the rows of the first list, in its order.
  abbrev pub updates : List A → List A → List A
  updates [] xs = xs
  updates (y ∷ ys) xs = updates ys (update key (key y) f xs)

module _ {A : Type 0} (key : A → ℕ) (f : A → A) (keep : (x : A) → key (f x) ≡ key x) where
  updates_skip :
      (x : A) (ys xs : List A)
      → All (λ y. key y ≢ key x) ys
      → updates key f ys (x ∷ xs) ≡ x ∷ updates key f ys xs
  updates_skip x [] xs h = refl
  updates_skip x (y ∷ ys) xs h =
      let other : (key x == key y) ≡ false = ground (arith, h.0) in
      rw other (updates_skip x ys (update key (key y) f xs) h.1)

  update_here : (x : A) (xs : List A) → update key (key x) f (x ∷ xs) ≡ f x ∷ xs
  update_here x xs = ground arith

  -- Rows with distinct keys that a test selects are changed, and no others.
  pub updates-filter :
      (p : A → Bool) (xs : List A)
      → Distinct key xs
      → updates key f (filter p xs) xs ≡ map (when p f) xs
  updates-filter p [] h = refl
  updates-filter p (x ∷ xs) h = elim (Bool-cases (p x)) [
    | inr e ↦ rw e (
        updates_skip x (filter p xs) xs (All-filter (λ y. key y ≢ key x) p xs h.0)
        ∙ ap (λ l. x ∷ l) (updates-filter p xs h.1))
    | inl e ↦ rw e (
        ap (updates key f (filter p xs)) (update_here x xs)
        ∙ updates_skip (f x) (filter p xs) xs
            (rw (keep x) (All-filter (λ y. key y ≢ key x) p xs h.0))
        ∙ ap (λ l. f x ∷ l) (updates-filter p xs h.1))
  ]

  All-map-when :
      (p : A → Bool) (i : ℕ) (xs : List A)
      → All (λ y. key y ≢ i) xs
      → All (λ y. key y ≢ i) (map (when p f) xs)
  All-map-when p i [] h = tt
  All-map-when p i (x ∷ xs) h = (ground (arith, keep x, h.0), All-map-when p i xs h.1)

  pub map-when-Distinct :
      (p : A → Bool) (xs : List A) → Distinct key xs → Distinct key (map (when p f) xs)
  map-when-Distinct p [] h = tt
  map-when-Distinct p (x ∷ xs) h = elim (Bool-cases (p x)) [
    | inl e ↦ rw (e, keep x) (All-map-when p (key x) xs h.0, map-when-Distinct p xs h.1)
    | inr e ↦ rw e (All-map-when p (key x) xs h.0, map-when-Distinct p xs h.1)
  ]

pub filter-filter :
    {A : Type 0} (p q : A → Bool) (xs : List A)
    → filter p (filter q xs) ≡ filter (λ x. q x && p x) xs
filter-filter p q [] = refl
filter-filter p q (x ∷ xs) = elim (Bool-cases (q x)) [
  | inl e ↦ rw e (rw (filter-filter p q xs) refl)
  | inr e ↦ rw e (filter-filter p q xs)
]

pub map-map :
    {A : Type 0} (f g h : A → A)
    → ((x : A) → g (f x) ≡ h x)
    → (xs : List A) → map g (map f xs) ≡ map h xs
map-map f g h same [] = refl
map-map f g h same (x ∷ xs) = rw (same x, map-map f g h same xs) refl

-- A change that is not selected again behind itself is made once.
pub when-when :
    {A : Type 0} (p q r : A → Bool) (f : A → A) (x : A)
    → q (f x) ≡ false
    → r x ≡ (p x || q x)
    → when q f (when p f x) ≡ when r f x
when-when p q r f x once either = elim (Bool-cases (p x)) [
  | inl e ↦ rw (either, e, once) refl
  | inr e ↦ rw (either, e) refl
]

pub map-when-never :
    {A : Type 0} (p : A → Bool) (f : A → A)
    → ((x : A) → p x ≡ false)
    → (xs : List A) → xs ≡ map (when p f) xs
map-when-never p f never [] = refl
map-when-never p f never (x ∷ xs) = rw (never x) (ap (λ l. x ∷ l) (map-when-never p f never xs))
