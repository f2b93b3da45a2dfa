-- ===== src/Web/MagicLink.antt =====
-- services/magic_link.py: the signed links of the mails. The keyed hash of the standard library is a
-- parameter, from a secret and a message to the hexadecimal text of the digest; the texts are of code
-- points, and a whole number is read from ASCII digits.
use me_invest_paper.Base.{
  ℕ, zero, suc, ◌+◌, ◌-◌, ◌*◌, Bool, true, false, ◌&&◌, ◌||◌, Option, none, some, [], ◌∷◌, ◌++◌,
  ◌==◌, ltb, leb, take, if◌then◌else◌,
}
use me_invest_paper.Base.Int.{ℤ, pos, negsuc}
use me_invest_paper.Store.{Text}
use me_invest_paper.ClientId.{decimal, is_digit, same_text}

-- `token.split(".", 1)`, where one part is not enough.
unfoldable pub split_dot : Text → Option (Text × Text)
split_dot [] = none
split_dot (c ∷ s) = elim (c == b'.') [
  | true ↦ some ([], s)
  | false ↦ elim (split_dot s) [ none ↦ none | some (front, back) ↦ some (c ∷ front, back) ]
]

abbrev pub is_space : ℕ → Bool
is_space c = (leb 9 c && leb c 13) || c == 32

abbrev pub all_spaces : Text → Bool
all_spaces [] = true
all_spaces (c ∷ s) = is_space c && all_spaces s

abbrev pub strip_left : Text → Text
strip_left [] = []
strip_left (c ∷ s) = if is_space c then strip_left s else c ∷ s

-- The digits of `int(text)`, onto a value: single underscores may stand between digits, and spaces
-- at the end. The test says whether a digit came last.
unfoldable pub read_digits : Bool → ℕ → Text → Option ℕ
read_digits seen n [] = if seen then some n else none
read_digits seen n (c ∷ s) =
    let rest = read_digits (is_digit c) (if is_digit c then n * 10 + (c - b'0') else n) s in
    if is_digit c || (c == b'_' && seen)
    then rest
    else if is_space c && seen && all_spaces s
    then some n
    else none

abbrev pub negate : ℕ → ℤ
negate zero = pos 0
negate (suc n) = negsuc n

abbrev pub as_pos : Option ℕ → Option ℤ
as_pos none = none
as_pos (some n) = some (pos n)

abbrev pub as_neg : Option ℕ → Option ℤ
as_neg none = none
as_neg (some n) = some (negate n)

abbrev pub read_signed : Text → Option ℤ
read_signed [] = none
read_signed (c ∷ s) =
    if c == b'-'
    then as_neg (read_digits false 0 s)
    else if c == b'+'
    then as_pos (read_digits false 0 s)
    else as_pos (read_digits false 0 (c ∷ s))

-- `int(text)`, where `none` is a `ValueError`.
unfoldable pub read_int : Text → Option ℤ
read_int s = read_signed (strip_left s)

abbrev pub write_int : ℤ → Text
write_int (pos n) = decimal n
write_int (negsuc n) = b'-' ∷ decimal (suc n)

abbrev pub is_ascii : Text → Bool
is_ascii [] = true
is_ascii (c ∷ s) = ltb c 128 && is_ascii s

module _ (hmac_hex : Text → Text → Text) where
  -- `f"{sid}:{action}:{expires}"`
  abbrev pub message : ℕ → Text → ℤ → Text
  message sid action expires = decimal sid ++ b':' ∷ (action ++ b':' ∷ write_int expires)

  abbrev pub signature : Text → ℕ → Text → ℤ → Text
  signature secret sid action expires = take 32 (hmac_hex secret (message sid action expires))

  -- At the time `now`, in seconds.
  unfoldable pub sign_action : ℕ → Text → Text → ℕ → ℕ → Text
  sign_action sid action secret ttl now =
      decimal (now + ttl) ++ b'.' ∷ signature secret sid action (pos (now + ttl))

  abbrev pub has_passed : ℕ → ℤ → Bool
  has_passed now (pos expires) = ltb expires now
  has_passed now (negsuc n) = true

  -- `none` is the `TypeError` of `hmac.compare_digest` on a text that is not ASCII.
  abbrev pub compare_digest : Text → Text → Option Bool
  compare_digest s t = if is_ascii s && is_ascii t then some (same_text s t) else none

  abbrev pub verify_expiry : ℕ → Text → Text → ℕ → Text → Option ℤ → Option Bool
  verify_expiry sid action secret now sig none = some false
  verify_expiry sid action secret now sig (some expires) =
      if has_passed now expires
      then some false
      else compare_digest sig (signature secret sid action expires)

  abbrev pub verify_parts : ℕ → Text → Text → ℕ → Option (Text × Text) → Option Bool
  verify_parts sid action secret now none = some false
  verify_parts sid action secret now (some (expires_s, sig)) =
      verify_expiry sid action secret now sig (read_int expires_s)

  unfoldable pub verify_action : ℕ → Text → Text → Text → ℕ → Option Bool
  verify_action sid action token secret now = verify_parts sid action secret now (split_dot token)
