-- ===== src/Numeral/Float.antt =====
-- Whether the number of a TOML float's token is zero for Python, which the test `... or {}` of
-- scripts/validate_workspace_boundaries.py asks.
use qing_yin.Prelude.{
  Bool, [], any, false, if◌then◌else◌, leb, length, ℕ, ◌&&◌, ◌*◌, ◌+◌, ◌-◌, ◌==◌, ◌^◌, ◌||◌, ◌∷◌,
}
use qing_yin.Text.{Text}
use qing_yin.Numeral.{is_digit, value}

-- the digits of a token, without the signs, the point and the underscores
abbrev digits_of : Text → Text
digits_of [] = []
digits_of (c ∷ cs) = let rest = digits_of cs in if is_digit c then c ∷ rest else rest

-- the token up to a character, and what follows that character
abbrev ahead : (ℕ → Bool) → Text → Text
ahead is_mark [] = []
ahead is_mark (c ∷ cs) = let rest = ahead is_mark cs in if is_mark c then [] else c ∷ rest

abbrev behind : (ℕ → Bool) → Text → Text
behind is_mark [] = []
behind is_mark (c ∷ cs) = let rest = behind is_mark cs in if is_mark c then cs else rest

abbrev is_point : ℕ → Bool
is_point c = c == b'.'

abbrev is_exponent_mark : ℕ → Bool
is_exponent_mark c = (c == b'e') || (c == b'E')

abbrev is_negative : Text → Bool
is_negative [] = false
is_negative (c ∷ cs) = c == b'-'

-- `mantissa / 10 ** places` rounds to zero: it is at most half of the least double, 2 ** -1074
abbrev rounds_to_zero : ℕ → ℕ → Bool
rounds_to_zero mantissa places = leb (mantissa * 2 ^ 1075) (10 ^ places)

-- The exponent lowers or raises the number of decimal places; `inf` and `nan` have no digits. A
-- number with no decimal places left is zero only where its digits are.
unfoldable pub is_zero_float : Text → Bool
unfolding value
is_zero_float token =
    let mantissa_part = ahead is_exponent_mark token in
    let exponent_part = behind is_exponent_mark token in
    let mantissa = value (digits_of mantissa_part) in
    let places = length (digits_of (behind is_point mantissa_part)) in
    let exponent = value (digits_of exponent_part) in
    any is_digit token
    && rounds_to_zero mantissa
        (if is_negative exponent_part then places + exponent else places - exponent)
