-- ===== src/ClientId/RoundTrip.antt =====
-- The ids that the auto-trade engine writes are read back, and no two of them are the same.
use me_invest_paper.Base.{
  ℕ, zero, suc, ◌+◌, ◌*◌, ◌/◌, ◌%◌, ◌<◌, List, [], ◌∷◌, ◌++◌, true, ◌≡◌, refl, sym, ap, ◌∙◌, ◌==◌,
  ltb, if◌then◌else◌, none, some, arith, inl, inr, Bool-cases,
}
use mathlib.Core.List.{append_assoc, append-nil}
use mathlib.Core.Option.{some-injective}
use me_invest_paper.ClientId.{
  digits, decimal, sug_dash, dash_r, format, scan, number, is_suffix, parse_suggestion_id,
  strip_prefix,
}

scan_step : (n d : ℕ) (rest : List ℕ) → d < 10 → scan n ((b'0' + d) ∷ rest) ≡ scan (n * 10 + d) rest
unfolding scan
scan_step n d rest h = ground arith

scan-digits : (f n : ℕ) (rest : List ℕ) → n < f → scan 0 (digits f n ++ rest) ≡ scan n rest
unfolding digits
scan-digits zero n rest h = absurd (omega arith)
scan-digits (suc f) n rest h = elim (Bool-cases (ltb n 10)) [
  | inl small ↦ rw small (scan_step 0 n rest (ground arith) ∙ ap (λ k. scan k rest) (omega arith))
  | inr large ↦
      rw (large, append_assoc)
        (scan-digits f (n / 10) ((b'0' + n % 10) ∷ rest) (ground arith)
          ∙ scan_step (n / 10) (n % 10) rest (omega arith)
          ∙ ap (λ k. scan k rest) (omega arith))
]

-- The decimal text begins with a digit.
number-digits :
    (f n : ℕ) (rest : List ℕ)
    → n < f
    → number (digits f n ++ rest) ≡ some (scan 0 (digits f n ++ rest))
unfolding digits number
number-digits zero n rest h = absurd (omega arith)
number-digits (suc f) n rest h = elim (Bool-cases (ltb n 10)) [
  | inl small ↦ rw small (ground arith)
  | inr large ↦
      rw (large, append_assoc) (number-digits f (n / 10) ((b'0' + n % 10) ∷ rest) (ground arith))
]

-- The characters behind a number in an id are none, or begin with a dash.
number-decimal :
    (n : ℕ) (rest : List ℕ) → scan n rest ≡ (n, rest) → number (decimal n ++ rest) ≡ some (n, rest)
unfolding decimal
number-decimal n rest stop =
    number-digits (n + 1) n rest (omega arith)
    ∙ ap some (scan-digits (n + 1) n rest (omega arith) ∙ stop)

abbrev suffix : ℕ → List ℕ
suffix n = if n == 0 then [] else dash_r ++ decimal n

scan-suffix : (id n : ℕ) → scan id (suffix n) ≡ (id, suffix n)
unfolding scan
scan-suffix id n = elim (Bool-cases (n == 0)) [ inl e ↦ rw e refl | inr e ↦ rw e refl ]

number-decimal_end : (n : ℕ) → number (decimal n) ≡ some (n, [])
unfolding scan
number-decimal_end n = rw append-nil at (number-decimal n [] refl)

suffix-is_suffix : (n : ℕ) → is_suffix (suffix n) ≡ true
unfolding is_suffix
suffix-is_suffix n = elim (Bool-cases (n == 0)) [
  | inl e ↦ rw e refl
  | inr e ↦ rw e (rw (number-decimal_end n))
]

-- The suggestion that an id was written for is the one that reconciliation reads from it, whatever
-- the number of retries.
pub parse_suggestion_id-format : (id n : ℕ) → parse_suggestion_id (format id n) ≡ some id
unfolding parse_suggestion_id format
parse_suggestion_id-format id n =
    rw (number-decimal id (suffix n) (scan-suffix id n), parse_suggestion_id)
      (rw (suffix-is_suffix n))

-- The number of retries behind `-r`, 0 where there is none.
retry_of : List ℕ → ℕ
retry_of s = elim (strip_prefix sug_dash s) [
  | none ↦ 0
  | some rest ↦ elim (number rest) [
    | none ↦ 0
    | some (_, more) ↦ elim (strip_prefix dash_r more) [
      | none ↦ 0
      | some tail ↦ elim (number tail) [ none ↦ 0 | some (k, _) ↦ k ]
    ]
  ]
]

retry_of-format : (id n : ℕ) → retry_of (format id n) ≡ n
unfolding retry_of format
retry_of-format id n =
    rw (number-decimal id (suffix n) (scan-suffix id n), retry_of)
      (elim (Bool-cases (n == 0)) [
        | inl e ↦ rw e (ground arith)
        | inr e ↦ rw e (rw (number-decimal_end n))
      ])

-- Two ids are the same only for the same suggestion and the same number of cancelled orders.
pub format-injective : (id n id' n' : ℕ) → format id n ≡ format id' n' → (id ≡ id') × (n ≡ n')
format-injective id n id' n' e = (
  some-injective id id' (
      sym (parse_suggestion_id-format id n)
      ∙ ap parse_suggestion_id e
      ∙ parse_suggestion_id-format id' n'),
  sym (retry_of-format id n) ∙ ap retry_of e ∙ retry_of-format id' n',
)
