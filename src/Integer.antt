-- ===== src/Integer.antt =====
-- The checks of scripts/validate_governance_state.py on integers.
pub mod Bounds
use qing_yin.Prelude.{
  ℕ, Bool, true, false, not, ◌&&◌, leb, ◌==◌, length, if◌then◌else◌, [], ◌∷◌, Option, none, some,
  same, String, Result, ok, err, fail, require, ◌>>=◌, ◌>>◌,
}
use qing_yin.Prelude.Int.{ℤ, pos, negsuc}
use qing_yin.Text.{Text, lit}
use qing_yin.Numeral.{is_positive_decimal, value, python_int}
use qing_yin.Json.{Value, null, boolean, int, float, str, arr, obj}
use qing_yin.Json.Scalar.{safe_integer_limit, is_safe_integer}

abbrev in_range : ℕ → String → ℤ → Result ℕ
in_range low message (pos n) = do require (leb low n && leb n safe_integer_limit) message; ok n
in_range low message (negsuc n) = fail message

-- Every value but an integer, a Boolean among them, fails the first test.
abbrev checked : ℕ → String → Value → Result ℕ
checked low message (int n) = in_range low message n
checked low message _ = fail "must be an integer"

unfoldable pub require_positive_int : Value → Result ℕ
require_positive_int = checked 1 "must be a positive safe integer"

unfoldable pub require_nonnegative_int : Value → Result ℕ
require_nonnegative_int = checked 0 "must be a non-negative safe integer"

-- The case of a string; `len(str(SAFE_INTEGER_LIMIT))` is 16.
unfoldable pub parse_positive_text : Text → Result ℕ
unfolding is_positive_decimal value require_positive_int
parse_positive_text text = do
  require (is_positive_decimal text) "must be a positive decimal integer"
  require (leb (length text) 16) "must be a positive safe integer"
  require_positive_int (int (pos (value text)))

unfoldable pub parse_positive_decimal : Value → Result ℕ
unfolding parse_positive_text
parse_positive_decimal (str text) = parse_positive_text text
parse_positive_decimal _ = fail "must be a positive decimal integer"

-- `value[1:] if value.startswith("-") else value`
abbrev pub unsigned : Text → Text
unsigned [] = []
unsigned (c ∷ cs) = if c == b'-' then cs else c ∷ cs

abbrev pub safe : Option ℤ → Result ℤ
safe none = fail "invalid JSON integer"
safe (some n) = do require (is_safe_integer n) "integer outside IEEE-754 safe range"; ok n

unfoldable pub parse_json_integer : Text → Result ℤ
unfolding python_int
parse_json_integer text = do
  require (not (same text (lit "-0"))) "negative zero is forbidden"
  require (leb (length (unsigned text)) 16) "integer outside IEEE-754 safe range"
  safe (python_int text)
