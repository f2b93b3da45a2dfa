-- ===== src/ClientId.antt =====
-- The client order ids of the auto-trade engine: how `_next_client_order_id` of
-- services/auto_trade.py writes them and `_parse_suggestion_id` of services/reconciliation.py
-- reads them back. A text is a list of code points; the digits are the ASCII ones.
pub mod RoundTrip
mod Tests
use me_invest_paper.Base.{
  ℕ, zero, suc, ◌+◌, ◌-◌, ◌*◌, ◌/◌, ◌%◌, List, [], ◌∷◌, ◌++◌, Bool, true, false, ◌&&◌, ◌||◌, ◌==◌,
  ltb, leb, if◌then◌else◌, Option, none, some,
}

-- `client_order_id` compared with `==`.
unfoldable pub same_text : List ℕ → List ℕ → Bool
same_text [] [] = true
same_text (a ∷ s) (b ∷ t) = a == b && same_text s t
same_text _ _ = false

-- The decimal text of a number, on fuel above the number.
unfoldable pub digits : ℕ → ℕ → List ℕ
digits zero n = []
digits (suc f) n =
    let front = digits f (n / 10) in
    if ltb n 10 then (b'0' + n) ∷ [] else front ++ (b'0' + n % 10) ∷ []

unfoldable pub decimal : ℕ → List ℕ
decimal n = digits (n + 1) n

abbrev pub sug_dash : List ℕ
sug_dash = b's' ∷ b'u' ∷ b'g' ∷ b'-' ∷ []

abbrev pub dash_r : List ℕ
dash_r = b'-' ∷ b'r' ∷ []

-- `sug-{id}`, or `sug-{id}-r{n}` after n cancelled orders.
unfoldable pub format : ℕ → ℕ → List ℕ
format id n = sug_dash ++ (decimal id ++ (if n == 0 then [] else dash_r ++ decimal n))

abbrev pub is_digit : ℕ → Bool
is_digit c = leb b'0' c && leb c b'9'

-- The longest run of digits, onto a value, and what follows it.
unfoldable pub scan : ℕ → List ℕ → ℕ × List ℕ
scan n [] = (n, [])
scan n (c ∷ s) = if is_digit c then scan (n * 10 + (c - b'0')) s else (n, c ∷ s)

-- `\d+`
unfoldable pub number : List ℕ → Option (ℕ × List ℕ)
number [] = none
number (c ∷ s) = if is_digit c then some (scan 0 (c ∷ s)) else none

abbrev pub strip_prefix : List ℕ → List ℕ → Option (List ℕ)
strip_prefix [] s = some s
strip_prefix (p ∷ ps) [] = none
strip_prefix (p ∷ ps) (c ∷ s) = if p == c then strip_prefix ps s else none

-- `$`, which also matches before a newline at the end.
abbrev pub at_end : List ℕ → Bool
at_end [] = true
at_end (c ∷ []) = c == 10
at_end (c ∷ d ∷ s) = false

-- `(?:-r\d+)?$`
unfoldable pub is_suffix : List ℕ → Bool
is_suffix s = at_end s || elim (strip_prefix dash_r s) [
  | none ↦ false
  | some more ↦ elim (number more) [ none ↦ false | some (_, rest) ↦ at_end rest ]
]

-- `_parse_suggestion_id`
unfoldable pub parse_suggestion_id : List ℕ → Option ℕ
parse_suggestion_id s = elim (strip_prefix sug_dash s) [
  | none ↦ none
  | some rest ↦ elim (number rest) [
    | none ↦ none
    | some (id, suffix) ↦ if is_suffix suffix then some id else none
  ]
]
