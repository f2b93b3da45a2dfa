-- ===== src/Targets/Closing.antt =====
-- The rows of the targets that services/targets.py leaves.
use me_invest_paper.Base.{
  ℕ, ◌≡◌, refl, ap, ◌∙◌, ◌≢◌, ◌⊎◌, inl, inr, Bool, true, Option, List, [], ◌∷◌, ◌++◌, map, ◌==◌,
  filter, arith, Bool-cases,
}
use me_invest_paper.Store.{Text, Db}
use me_invest_paper.Broker.{Adapter}
use me_invest_paper.Web.Links.{same_text_refl}
use me_invest_paper.Targets.{
  TargetAllocation, Target, Meta, TargetTables, unchanged, updated, is_open_target, close_open,
  allocation, stored_hash, set_hash, is_same_hash, loaded, load_targets_into_db,
}

-- A row of an account.
abbrev pub is_of : ℕ → TargetAllocation → Bool
is_of account r = r.broker_account_id == account

none_open :
    (account now : ℕ) (rows : List TargetAllocation)
    → filter (is_open_target account) (close_open account now rows) ≡ []
none_open account now [] = refl
none_open account now (r ∷ rows) = elim (Bool-cases (is_open_target account r)) [
  | inl opened ↦ rw opened (none_open account now rows)
  | inr closed ↦ rw closed (rw closed (none_open account now rows))
]

all_open :
    (account now : ℕ) (targets : List Target)
    → filter (is_open_target account) (map (allocation account now) targets)
      ≡ map (allocation account now) targets
all_open account now [] = refl
all_open account now (t ∷ targets) = ground (arith, all_open account now targets)

filter-append :
    (p : TargetAllocation → Bool) (xs ys : List TargetAllocation)
    → filter p (xs ++ ys) ≡ filter p xs ++ filter p ys
filter-append p [] ys = refl
filter-append p (x ∷ xs) ys = elim (Bool-cases (p x)) [
  | inl e ↦ rw e (ap (λ l. x ∷ l) (filter-append p xs ys))
  | inr e ↦ rw e (filter-append p xs ys)
]

others_stay :
    (account b now : ℕ) (rows : List TargetAllocation)
    → b ≢ account
    → filter (is_of b) (close_open account now rows) ≡ filter (is_of b) rows
others_stay account b now [] other = refl
others_stay account b now (r ∷ rows) other = ground (arith, others_stay account b now rows other)

none_of_other :
    (account b now : ℕ) (targets : List Target)
    → b ≢ account
    → filter (is_of b) (map (allocation account now) targets) ≡ []
none_of_other account b now [] other = refl
none_of_other account b now (t ∷ targets) other =
    ground (arith, none_of_other account b now targets other)

append_nil : (xs : List TargetAllocation) → xs ++ [] ≡ xs
append_nil [] = refl
append_nil (x ∷ xs) = ap (λ l. x ∷ l) (append_nil xs)

set_hash-stored :
    (account : ℕ) (value : Text) (rows : List Meta)
    → is_same_hash value (stored_hash account (set_hash account value rows)) ≡ true
set_hash-stored account value [] = let same = same_text_refl value in ground arith
set_hash-stored account value (m ∷ ms) =
    let same = same_text_refl value in ground (arith, set_hash-stored account value ms)

set_hash-others :
    (account b : ℕ) (value : Text) (rows : List Meta)
    → b ≢ account
    → stored_hash b (set_hash account value rows) ≡ stored_hash b rows
set_hash-others account b value [] other = ground arith
set_hash-others account b value (m ∷ ms) other =
    ground (arith, set_hash-others account b value ms other)

module _ {W : Type 0} (adapter : Option (Adapter W)) (now account : ℕ) (targets : List Target)
    (source content_hash : Text) where
  -- The tables with the new targets of the account.
  abbrev pub IsReplaced : TargetTables → TargetTables → Type 0
  IsReplaced before after =
      (filter (is_open_target account) after.allocations ≡ map (allocation account now) targets)
      × ((b : ℕ)
          → b ≢ account
          → (filter (is_of b) after.allocations ≡ filter (is_of b) before.allocations)
            × (stored_hash b after.hashes ≡ stored_hash b before.hashes))
      × (is_same_hash content_hash (stored_hash account after.hashes) ≡ true)

  loaded-IsReplaced :
      (tables : TargetTables)
      → IsReplaced tables (loaded adapter now account targets source content_hash tables)
  loaded-IsReplaced tables = (
    filter-append (is_open_target account) (close_open account now tables.allocations)
          (map (allocation account now) targets)
        ∙ ap (λ l. l ++ filter (is_open_target account) (map (allocation account now) targets))
            (none_open account now tables.allocations)
        ∙ all_open account now targets,
    λ b other. (
      filter-append (is_of b) (close_open account now tables.allocations)
            (map (allocation account now) targets)
          ∙ ap (λ l. filter (is_of b) (close_open account now tables.allocations) ++ l)
              (none_of_other account b now targets other)
          ∙ append_nil (filter (is_of b) (close_open account now tables.allocations))
          ∙ others_stay account b now tables.allocations other,
      set_hash-others account b content_hash tables.hashes other,
    ),
    set_hash-stored account content_hash tables.hashes,
  )

  -- Either the hash of the account was the same before, and nothing changed; or the rows of the
  -- account that are open are those of the new targets and no others, with no row of another account
  -- changed, and the hash is stored. In both cases the same content, loaded again at any later time,
  -- from any source and in any state of the other tables and of the broker, changes nothing.
  pub load_targets_into_db-IsReplaced :
      (tables : TargetTables) (db : Db) (w : W)
      → let (result, tables', db', w') =
          load_targets_into_db adapter now account targets source content_hash tables db w in
        (((result ≡ unchanged) × (tables' ≡ tables) × (db' ≡ db) × (w' ≡ w))
          ⊎ ((result ≡ updated) × IsReplaced tables tables'))
        × ((later : ℕ) (again : Text) (db₁ : Db) (w₁ : W)
            → load_targets_into_db adapter later account targets again content_hash tables' db₁ w₁
              ≡ (unchanged, tables', db₁, w₁))
  unfolding load_targets_into_db
  load_targets_into_db-IsReplaced tables db w =
      elim (Bool-cases (is_same_hash content_hash (stored_hash account tables.hashes))) [
        | inl same ↦ rw same (inl (refl, refl, refl, refl), λ later again db₁ w₁. rw same refl)
        | inr other ↦ rw other (
          inr (refl, loaded-IsReplaced tables),
          λ later again db₁ w₁.
              let stored = set_hash-stored account content_hash tables.hashes in rw stored refl,
        )
      ]
