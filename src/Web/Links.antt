-- ===== src/Web/Links.antt =====
-- What the links of services/magic_link.py promise: a link that was signed is accepted until it expires.
use me_invest_paper.Base.{
  ℕ, zero, suc, ◌+◌, ◌*◌, ◌/◌, ◌%◌, ◌<◌, [], ◌∷◌, ◌++◌, Bool, true, false, ◌≡◌, refl, sym, ap, ◌∙◌,
  ◌==◌, ltb, leb, take, some, arith, inl, inr, Bool-cases,
}
use mathlib.Core.List.{append_assoc}
use me_invest_paper.Base.Int.{pos}
use me_invest_paper.Store.{Text}
use me_invest_paper.ClientId.{digits, decimal, same_text}
use me_invest_paper.Web.MagicLink.{
  as_pos, split_dot, read_digits, read_int, is_ascii, signature, message, sign_action,
  verify_action, verify_parts, verify_expiry,
}

read_step :
    (seen : Bool) (n d : ℕ) (rest : Text)
    → d < 10
    → read_digits seen n ((b'0' + d) ∷ rest) ≡ read_digits true (n * 10 + d) rest
unfolding read_digits
read_step seen n d rest h = ground arith

read-digits :
    (seen : Bool) (f n : ℕ) (rest : Text)
    → n < f
    → read_digits seen 0 (digits f n ++ rest) ≡ read_digits true n rest
unfolding digits
read-digits seen zero n rest h = absurd (omega arith)
read-digits seen (suc f) n rest h = elim (Bool-cases (ltb n 10)) [
  | inl small ↦
      rw small
        (read_step seen 0 n rest (ground arith) ∙ ap (λ k. read_digits true k rest) (omega arith))
  | inr large ↦
      rw (large, append_assoc)
        (read-digits seen f (n / 10) ((b'0' + n % 10) ∷ rest) (ground arith)
          ∙ read_step true (n / 10) (n % 10) rest (omega arith)
          ∙ ap (λ k. read_digits true k rest) (omega arith))
]

-- A text that begins with a digit is read without its spaces and signs.
signed_digit :
    (d : ℕ) (rest : Text)
    → d < 10
    → read_int ((b'0' + d) ∷ rest) ≡ as_pos (read_digits false 0 ((b'0' + d) ∷ rest))
unfolding read_int
signed_digit d rest h = ground arith

signed-digits :
    (f n : ℕ) (rest : Text)
    → n < f
    → read_int (digits f n ++ rest) ≡ as_pos (read_digits false 0 (digits f n ++ rest))
unfolding digits
signed-digits zero n rest h = absurd (omega arith)
signed-digits (suc f) n rest h = elim (Bool-cases (ltb n 10)) [
  | inl small ↦ rw small (signed_digit n rest (ground arith))
  | inr large ↦
      rw (large, append_assoc) (signed-digits f (n / 10) ((b'0' + n % 10) ∷ rest) (ground arith))
]

append_nil : (s : Text) → s ++ [] ≡ s
append_nil [] = refl
append_nil (c ∷ s) = ap (λ t. c ∷ t) (append_nil s)

pub read_int-decimal : (n : ℕ) → read_int (decimal n) ≡ some (pos n)
unfolding decimal read_digits
read_int-decimal n =
    ap read_int (sym (append_nil (digits (n + 1) n)))
    ∙ signed-digits (n + 1) n [] (omega arith)
    ∙ ap as_pos (read-digits false (n + 1) n [] (omega arith))

split_step :
    (d : ℕ) (rest front back : Text)
    → d < 10
    → split_dot rest ≡ some (front, back)
    → split_dot ((b'0' + d) ∷ rest) ≡ some ((b'0' + d) ∷ front, back)
unfolding split_dot
split_step d rest front back h e =
    let no_dot : (b'0' + d == b'.') ≡ false = ground arith in rw (no_dot, e, split_dot) refl

split-digits :
    (f n : ℕ) (rest front back : Text)
    → n < f
    → split_dot rest ≡ some (front, back)
    → split_dot (digits f n ++ rest) ≡ some (digits f n ++ front, back)
unfolding digits
split-digits zero n rest front back h e = absurd (omega arith)
split-digits (suc f) n rest front back h e = elim (Bool-cases (ltb n 10)) [
  | inl small ↦ rw small (split_step n rest front back (ground arith) e)
  | inr large ↦
      let last = b'0' + n % 10 in
      rw (large, append_assoc)
        (split-digits f (n / 10) (last ∷ rest) (last ∷ front) back (ground arith)
            (split_step (n % 10) rest front back (omega arith) e)
          ∙ ap (λ t. some (t, back)) (sym (append_assoc (digits f (n / 10)) (last ∷ []) front)))
]

split-decimal : (n : ℕ) (sig : Text) → split_dot (decimal n ++ b'.' ∷ sig) ≡ some (decimal n, sig)
unfolding decimal split_dot
split-decimal n sig =
    split-digits (n + 1) n (b'.' ∷ sig) [] sig (omega arith) refl
    ∙ ap (λ t. some (t, sig)) (append_nil (digits (n + 1) n))

pub same_text_refl : (s : Text) → same_text s s ≡ true
unfolding same_text
same_text_refl [] = refl
same_text_refl (c ∷ s) = ground (arith, same_text_refl s)

take-is_ascii : (n : ℕ) (s : Text) → is_ascii s ≡ true → is_ascii (take n s) ≡ true
take-is_ascii zero s h = refl
take-is_ascii (suc n) [] h = refl
take-is_ascii (suc n) (c ∷ s) h = ground (arith, take-is_ascii n s)

module _ (hmac_hex : Text → Text → Text) where
  -- Where the digests are ASCII, as hexadecimal texts are, a link that was signed for a suggestion and
  -- an action is accepted for them, up to and at its time of expiry, and never after it.
  pub verify_action-sign_action :
      (sid : ℕ) (action secret : Text) (ttl signed_at now : ℕ)
      → ((message : Text) → is_ascii (hmac_hex secret message) ≡ true)
      → verify_action hmac_hex sid action
          (sign_action hmac_hex sid action secret ttl signed_at)
          secret
          now
        ≡ some (leb now (signed_at + ttl))
  unfolding verify_action sign_action
  verify_action-sign_action sid action secret ttl signed_at now hex =
      let expires = signed_at + ttl in
      let sig = signature hmac_hex secret sid action (pos expires) in
      ap (verify_parts hmac_hex sid action secret now) (split-decimal expires sig)
      ∙ ap (verify_expiry hmac_hex sid action secret now sig) (read_int-decimal expires)
      ∙ checked expires
    where
      checked :
          (expires : ℕ)
          → verify_expiry hmac_hex sid action secret now
              (signature hmac_hex secret sid action (pos expires))
              (some (pos expires))
            ≡ some (leb now expires)
      checked expires =
          let sig = signature hmac_hex secret sid action (pos expires) in
          let plain : is_ascii sig ≡ true =
            take-is_ascii 32 (hmac_hex secret (message hmac_hex sid action (pos expires)))
              (hex (message hmac_hex sid action (pos expires))) in
          let same = same_text_refl sig in ground arith
