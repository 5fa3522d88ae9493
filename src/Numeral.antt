-- ===== src/Numeral.antt =====
-- Decimal numerals as Python writes and reads them: `str(n)` and `int(text)`.
pub mod RoundTrip
pub mod Float
use qing_yin.Prelude.{
  ℕ, zero, suc, ◌+◌, ◌-◌, ◌*◌, ◌/◌, ◌%◌, Bool, true, false, ◌&&◌, List, [], ◌∷◌, ltb, ◌==◌, between,
  all, length, if◌then◌else◌, Option, none, some,
}
use qing_yin.Prelude.Int.{ℤ, pos, negsuc}
use qing_yin.Text.{Text}

-- the decimal digits of a number, before `rest`; `fuel` above the number is enough
digits_onto : ℕ → ℕ → Text → Text
digits_onto zero n rest = rest
digits_onto (suc fuel) n rest =
    let digits = (b'0' + n % 10) ∷ rest in
    let more = digits_onto fuel (n / 10) digits in if ltb n 10 then digits else more

-- `str(n)`
unfoldable pub decimal : ℕ → Text
unfolding digits_onto
decimal n = digits_onto (suc n) n []

unfoldable pub decimal_int : ℤ → Text
unfolding decimal
decimal_int (pos n) = decimal n
decimal_int (negsuc n) = b'-' ∷ decimal (suc n)

abbrev pub is_digit : ℕ → Bool
is_digit = between b'0' b'9'

-- `re.fullmatch(r"[1-9][0-9]*", text) is not None`
unfoldable pub is_positive_decimal : Text → Bool
is_positive_decimal [] = false
is_positive_decimal (c ∷ cs) = between b'1' b'9' c && all is_digit cs

unfoldable pub value_onto : ℕ → Text → ℕ
value_onto acc [] = acc
value_onto acc (c ∷ cs) = value_onto (acc * 10 + (c - b'0')) cs

-- `int(text)` of decimal digits
unfoldable pub value : Text → ℕ
unfolding value_onto
value = value_onto 0

abbrev pub negate : ℕ → ℤ
negate zero = pos 0
negate (suc n) = negsuc n

-- `int(text)`, with `none` for the ValueError: an optional minus sign, and at least one digit. The
-- number scanner of `json` hands over nothing that `int` reads otherwise.
unfoldable pub python_int : Text → Option ℤ
unfolding value
python_int [] = none
python_int (c ∷ cs) =
    if c == b'-'
    then (if all is_digit cs && ltb 0 (length cs) then some (negate (value cs)) else none)
    else if all is_digit (c ∷ cs)
    then some (pos (value (c ∷ cs)))
    else none
