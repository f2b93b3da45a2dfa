-- ===== src/Base/Rows.antt =====
-- Rows of a table with a numeric primary key: an update by key, and its effect on sums.
use Prim.Native.Nat.{ℕ, ◌+◌, ◌<◌}
use mathlib.Core.Path.{◌≡◌, refl, ap, ◌∙◌}
use mathlib.Core.Logic.{◌≢◌, inl, inr}
use mathlib.Core.Bool.{Bool}
use mathlib.Core.Option
use mathlib.Core.List.{List, [], ◌∷◌, ◌++◌}
use native.Mathlib.Omega.{arith}
use me_invest_paper.Base.Tests.{if◌then◌else◌, ◌==◌, ==_iff, Bool-cases}
use me_invest_paper.Base.Lists.{total, filter, find?, All, Has, All-Has, All-append, All-filter}

-- What a row adds to a sum.
abbrev pub share : {A : Type 0} → (A → Bool) → (A → ℕ) → A → ℕ
share p weight x = if p x then weight x else 0

module _ {A : Type 0} (key : A → ℕ) where
  -- The statement `UPDATE … WHERE id = i`: the row with the key, if there is one, is changed.
  abbrev pub update : ℕ → (A → A) → List A → List A
  update i f [] = []
  update i f (x ∷ xs) = if key x == i then f x ∷ xs else x ∷ update i f xs

  -- No key stands twice.
  abbrev pub Distinct : List A → Type 0
  Distinct [] = Unit
  Distinct (x ∷ xs) = All (λ y. key y ≢ key x) xs × Distinct xs

  pub All-update :
      (P : A → Type 0) (i : ℕ) (f : A → A)
      → ((x : A) → P x → P (f x))
      → (xs : List A) → All P xs
      → All P (update i f xs)
  All-update P i f keep [] h = tt
  All-update P i f keep (x ∷ xs) h = elim (Bool-cases (key x == i)) [
    | inl e ↦ rw e (keep x h.0, h.1)
    | inr e ↦ rw e (h.0, All-update P i f keep xs h.1)
  ]

  pub update-Distinct :
      (i : ℕ) (f : A → A)
      → ((x : A) → key (f x) ≡ key x)
      → (xs : List A) → Distinct xs
      → Distinct (update i f xs)
  update-Distinct i f keep [] h = tt
  update-Distinct i f keep (x ∷ xs) h = elim (Bool-cases (key x == i)) [
    | inl e ↦ rw e (rw (keep x) h.0, h.1)
    | inr e ↦ rw e (
      All-update (λ y. key y ≢ key x) i f (λ y ne. rw (keep y) ne) xs h.0,
      update-Distinct i f keep xs h.1,
    )
  ]

  -- A new row whose key is above all others keeps the keys distinct.
  pub append-Distinct :
      (xs : List A) (y : A) → Distinct xs → All (λ x. key x < key y) xs → Distinct (xs ++ y ∷ [])
  append-Distinct [] y h k = (tt, tt)
  append-Distinct (x ∷ xs) y h k = (
    All-append (λ y'. key y' ≢ key x) xs (y ∷ []) h.0 (omega arith, tt),
    append-Distinct xs y h.1 k.1,
  )

  pub filter-Distinct : (p : A → Bool) (xs : List A) → Distinct xs → Distinct (filter p xs)
  filter-Distinct p [] h = tt
  filter-Distinct p (x ∷ xs) h = elim (Bool-cases (p x)) [
    | inl e ↦ rw e (All-filter (λ y. key y ≢ key x) p xs h.0, filter-Distinct p xs h.1)
    | inr e ↦ rw e (filter-Distinct p xs h.1)
  ]

  -- A row with another key stays where it is.
  pub Has-update :
      (i : ℕ) (f : A → A) (y : A) (xs : List A) → key y ≢ i → Has y xs → Has y (update i f xs)
  Has-update i f y [] ne m = m
  Has-update i f y (x ∷ xs) ne (inl e) = elim (Bool-cases (key x == i)) [
    | inl t ↦ absurd (ne (ap key e ∙ (==_iff (key x) i).0 t))
    | inr t ↦ rw t (inl e)
  ]
  Has-update i f y (x ∷ xs) ne (inr m) = elim (Bool-cases (key x == i)) [
    | inl t ↦ rw t (inr m)
    | inr t ↦ rw t (inr (Has-update i f y xs ne m))
  ]

  -- Looking a key up behind an update.
  pub find-update :
      (i j : ℕ) (f : A → A)
      → ((x : A) → key (f x) ≡ key x)
      → (xs : List A)
      → find? (λ x. key x == j) (update i f xs)
        ≡ (if i == j then Option.map f (find? (λ x. key x == j) xs) else find? (λ x. key x == j) xs)
  find-update i j f keep [] = ground arith
  find-update i j f keep (x ∷ xs) = ground (arith, keep x, find-update i j f keep xs)

  module _ (p : A → Bool) (weight : A → ℕ) where
    -- An update that leaves the share of each row alone leaves the sum alone.
    pub total-update_same :
        (i : ℕ) (f : A → A)
        → ((x : A) → share p weight (f x) ≡ share p weight x)
        → (xs : List A) → total p weight (update i f xs) ≡ total p weight xs
    total-update_same i f same [] = refl
    total-update_same i f same (x ∷ xs) = ground (arith, same x, total-update_same i f same xs)

    -- An update of a row that is in the table exchanges its share.
    pub total-update :
        (f : A → A) (y : A) (xs : List A)
        → Distinct xs
        → Has y xs
        → total p weight (update (key y) f xs) + share p weight y
          ≡ total p weight xs + share p weight (f y)
    total-update f y [] h m = absurd m
    total-update f y (x ∷ xs) h (inl e) =
        ground (arith, ap key e, ap (share p weight) e, ap (λ r. share p weight (f r)) e)
    total-update f y (x ∷ xs) h (inr m) =
        let other : key y ≢ key x = All-Has (λ r. key r ≢ key x) y xs h.0 m in
        ground (arith, total-update f y xs h.1 m)
