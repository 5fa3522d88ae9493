-- ===== src/Integer/Bounds.antt =====
-- Which numerals the integer checks take, and for which number.
use qing_yin.Prelude.{
  [], all, ap, arith, fail, false, inl, inr, leb, length, le→leb, ok, refl, require, require-eq-ok,
  same, some, subst, suc, sym, true, zero, ℕ, ◌<◌, ◌==◌, ◌>>◌, ◌↔◌, ◌∙◌, ◌∷◌, ◌≡◌, ◌≤◌, ◌⊎◌,
}
use qing_yin.Prelude.Int.{negsuc, pos, ℤ}
use qing_yin.Text.{Text, lit}
use qing_yin.Numeral.{
  decimal, decimal_int, is_digit, is_positive_decimal, negate, python_int, value,
}
use qing_yin.Numeral.RoundTrip.{
  decimal-value, is_positive_decimal-decimal, length-decimal, value-decimal, value-pos,
}
use qing_yin.Json.{Value, int, str}
use qing_yin.Json.Scalar.{is_safe_integer, safe_integer_limit}
use qing_yin.Integer.{
  parse_json_integer, parse_positive_decimal, parse_positive_text, require_positive_int, safe,
}

-- An accepted value is the integer itself, positive and within the limit.
pub require_positive_int_iff :
    (v : Value) (n : ℕ)
    → (require_positive_int v ≡ ok n) ↔ ((v ≡ int (pos n)) × (0 < n) × (n ≤ safe_integer_limit))
unfolding require_positive_int
require_positive_int_iff v n = ground arith

parse_positive_decimal_sound :
    (t : Text) (n : ℕ)
    → parse_positive_decimal (str t) ≡ ok n
    → (t ≡ decimal n) × (0 < n) × (n ≤ safe_integer_limit)
unfolding parse_positive_decimal parse_positive_text
parse_positive_decimal_sound t n h =
    let shape = require-eq-ok (is_positive_decimal t) _ _ h in
    let short = require-eq-ok (leb (length t) 16) _ _ shape.1 in
    let range = (require_positive_int_iff (int (pos (value t))) n).0 short.1 in
    let same_value : value t ≡ n = ground arith in
    (sym (decimal-value t shape.0) ∙ ap decimal same_value, range.1, range.2)

parse_positive_decimal_complete :
    (n : ℕ) → 0 < n → n ≤ safe_integer_limit → parse_positive_decimal (str (decimal n)) ≡ ok n
unfolding parse_positive_decimal parse_positive_text
parse_positive_decimal_complete n h b =
    rw
      (
        is_positive_decimal-decimal n h,
        le→leb _ _ (length-decimal 15 n (omega arith)),
        value-decimal n,
      )
      ((require_positive_int_iff (int (pos n)) n).1 (refl, h, b))

-- The texts that are accepted are the numerals that `str` prints for the numbers of the range.
pub parse_positive_decimal_iff :
    (t : Text) (n : ℕ)
    → (parse_positive_decimal (str t) ≡ ok n)
      ↔ ((t ≡ decimal n) × (0 < n) × (n ≤ safe_integer_limit))
parse_positive_decimal_iff t n = (
  parse_positive_decimal_sound t n,
  λ (e, h, b).
      subst (λ s. parse_positive_decimal (str s) ≡ ok n) (sym e)
        (parse_positive_decimal_complete n h b),
)

-- The integer tokens of JSON: an optional minus sign, and no leading zero.
abbrev pub IsToken : Text → Type 0
IsToken [] = ⊥
IsToken (c ∷ cs) =
    (c ∷ cs ≡ lit "0")
    ⊎ (is_positive_decimal (c ∷ cs) ≡ true)
    ⊎ ((c ≡ b'-') × (cs ≡ lit "0"))
    ⊎ ((c ≡ b'-') × (is_positive_decimal cs ≡ true))

all_digits : (s : Text) → is_positive_decimal s ≡ true → (all is_digit s ≡ true) × (0 < length s)
unfolding is_positive_decimal
all_digits [] h = cc
all_digits (c ∷ cs) h = ground arith

-- a numeral is no sign
unsigned_numeral : (s : Text) → is_positive_decimal s ≡ true → python_int s ≡ some (pos (value s))
unfolding is_positive_decimal python_int
unsigned_numeral [] h = cc
unsigned_numeral (c ∷ cs) h = ground (arith, all_digits (c ∷ cs) h)

-- what the checks do with a numeral, and with a numeral behind a minus sign
read_unsigned :
    (s : Text)
    → is_positive_decimal s ≡ true
    → parse_json_integer s ≡ (do
      require (leb (length s) 16) "integer outside IEEE-754 safe range"
      safe (some (pos (value s))))
unfolding parse_json_integer is_positive_decimal lit same
read_unsigned [] h = cc
read_unsigned (c ∷ cs) h =
    let sign : (c == b'-') ≡ false = ground arith in
    rw sign (ground (arith, unsigned_numeral (c ∷ cs) h))

read_negative :
    (s : Text)
    → is_positive_decimal s ≡ true
    → parse_json_integer (b'-' ∷ s) ≡ (do
      require (leb (length s) 16) "integer outside IEEE-754 safe range"
      safe (some (negate (value s))))
unfolding parse_json_integer python_int lit same is_positive_decimal
read_negative [] h = cc
read_negative (c ∷ cs) h = ground (arith, all_digits (c ∷ cs) h)

-- Every safe integer is read back from what `str` prints for it.
pub parse_json_integer-decimal_int :
    (n : ℤ) → is_safe_integer n ≡ true → parse_json_integer (decimal_int n) ≡ ok n
unfolding decimal_int
parse_json_integer-decimal_int (pos zero) h = unfold parse_json_integer decimal lit same in refl
parse_json_integer-decimal_int (pos (suc n)) h = rw (
  read_unsigned _ (is_positive_decimal-decimal (suc n) (omega arith)),
  le→leb _ _ (length-decimal 15 (suc n) (ground arith)),
  value-decimal (suc n),
  h,
)
parse_json_integer-decimal_int (negsuc n) h = rw (
  read_negative _ (is_positive_decimal-decimal (suc n) (omega arith)),
  le→leb _ _ (length-decimal 15 (suc n) (ground arith)),
  value-decimal (suc n),
  h,
)

safe-eq-ok : (m n : ℤ) → safe (some m) ≡ ok n → (m ≡ n) × (is_safe_integer n ≡ true)
safe-eq-ok m n h =
    let parts = require-eq-ok (is_safe_integer m) _ (ok m) h in
    let equal : m ≡ n = cc (parts.1) in (equal, subst (λ k. is_safe_integer k ≡ true) equal parts.0)

zero_token : (parse_json_integer (lit "0") ≡ ok (pos 0)) × (lit "0" ≡ decimal_int (pos 0))
unfolding parse_json_integer lit same decimal_int
zero_token = (refl, refl)

minus_zero_token : parse_json_integer (b'-' ∷ lit "0") ≡ fail "negative zero is forbidden"
unfolding parse_json_integer lit same
minus_zero_token = refl

decimal_int-negate : (k : ℕ) → 0 < k → decimal_int (negate k) ≡ b'-' ∷ decimal k
unfolding decimal_int
decimal_int-negate zero h = absurd (omega arith)
decimal_int-negate (suc k) h = refl

sound_negative :
    (s : Text)
    → is_positive_decimal s ≡ true
    → (n : ℤ) → parse_json_integer (b'-' ∷ s) ≡ ok n
    → (b'-' ∷ s ≡ decimal_int n) × (is_safe_integer n ≡ true)
sound_negative s e n h =
    let short = require-eq-ok (leb (length s) 16) _ _ (sym (read_negative s e) ∙ h) in
    let read = safe-eq-ok (negate (value s)) n short.1 in
    (
      ap (◌∷◌ b'-') (sym (decimal-value s e))
          ∙ sym (decimal_int-negate (value s) (value-pos s e))
          ∙ ap decimal_int read.0,
      read.1,
    )

parse_json_integer_sound :
    (t : Text)
    → IsToken t
    → (n : ℤ) → parse_json_integer t ≡ ok n
    → (t ≡ decimal_int n) × (is_safe_integer n ≡ true)
parse_json_integer_sound [] k n h = absurd k
parse_json_integer_sound (c ∷ cs) (inl e) n h =
    let read : pos 0 ≡ n = cc (zero_token.0, ap parse_json_integer e) in
    subst (λ k. (c ∷ cs ≡ decimal_int k) × (is_safe_integer k ≡ true)) read (e ∙ zero_token.1, refl)
parse_json_integer_sound (c ∷ cs) (inr (inl e)) n h =
    let short = require-eq-ok (leb (length (c ∷ cs)) 16) _ _ (sym (read_unsigned (c ∷ cs) e) ∙ h) in
    let read = safe-eq-ok (pos (value (c ∷ cs))) n short.1 in
    (sym (decimal-value (c ∷ cs) e) ∙ unfold decimal_int in ap decimal_int read.0, read.1)
parse_json_integer_sound (c ∷ cs) (inr (inr (inl (sign, e)))) n h = absurd (
    cc (
      minus_zero_token,
      ap (λ s. parse_json_integer (b'-' ∷ s)) e,
      ap (λ k. parse_json_integer (k ∷ cs)) sign,
    ))
parse_json_integer_sound (c ∷ cs) (inr (inr (inr (sign, e)))) n h =
    subst (λ k. (k ∷ cs ≡ decimal_int n) × (is_safe_integer n ≡ true)) (sym sign)
      (sound_negative cs e n (subst (λ k. parse_json_integer (k ∷ cs) ≡ ok n) sign h))

-- An integer token of JSON is accepted exactly when it is the numeral that `str` prints for a safe
-- integer, and it is read as that integer. So "-0" is refused, and every integer has one token.
pub parse_json_integer_iff :
    (t : Text)
    → IsToken t
    → (n : ℤ) → (parse_json_integer t ≡ ok n) ↔ ((t ≡ decimal_int n) × (is_safe_integer n ≡ true))
parse_json_integer_iff t k n = (
  parse_json_integer_sound t k n,
  λ (e, h). subst (λ s. parse_json_integer s ≡ ok n) (sym e) (parse_json_integer-decimal_int n h),
)
