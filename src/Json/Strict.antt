-- ===== src/Json/Strict.antt =====
-- `strict_object` and `parse_json_strict` of scripts/validate_governance_state.py, and
-- `validate_utf8_bytes`, which reads what is parsed.
pub mod Distinct
pub mod Encoded
use qing_yin.Prelude.{
  Bool, List, Option, Result, [], any, contains, fail, false, none, not, ok, require, same, some,
  true, ℕ, ◌&&◌, ◌==◌, ◌>>=◌, ◌>>◌, ◌||◌, ◌∷◌,
}
use qing_yin.Prelude.Int.{ℤ}
use qing_yin.Text.{Bytes, Text, is_surrogate}
use qing_yin.Text.Utf8.{utf8_decode}
use qing_yin.Platform.{Platform}
use qing_yin.Json.{Fields, Value, end, field}
use qing_yin.Integer.{parse_json_integer}

-- the loop, with `result` as the keys so far and `normalized_keys`
strict_from : Platform → List Text → List Text → List (Text × Value) → Result Fields
strict_from p seen normalized [] = ok end
strict_from p seen normalized ((key, value) ∷ pairs) = do
  require (not (contains key seen)) "duplicate JSON key"
  require (not (contains (p.nfc key) normalized)) "NFC-colliding JSON key"
  rest ← strict_from p (key ∷ seen) (p.nfc key ∷ normalized) pairs
  ok (field key value rest)

unfoldable pub strict_object : Platform → List (Text × Value) → Result Fields
unfolding strict_from
strict_object p = strict_from p [] []

-- `json.loads` with its hooks: for the pairs of an object, for integer tokens, for float tokens and
-- for the constants NaN, Infinity and -Infinity
abbrev pub Loads : Type 0
Loads =
    (List (Text × Value) → Result Fields)
    → (Text → Result ℤ)
    → (Text → Result Value)
    → (Text → Result Value)
    → Text
    → Result Value

unfoldable pub parse_json_strict : Platform → Loads → Text → Result Value
parse_json_strict p loads =
    loads (strict_object p) parse_json_integer (λ token. fail "floating-point JSON value forbidden")
      (λ token. fail "non-finite JSON value forbidden")

-- `data.startswith(prefix)`
abbrev pub begins_with : Bytes → Bytes → Bool
begins_with [] raw = true
begins_with (b ∷ prefix) [] = false
begins_with (b ∷ prefix) (c ∷ raw) = (b == c) && begins_with prefix raw

abbrev pub decoded : Option Text → Result Text
decoded none = fail "invalid UTF-8"
decoded (some text) = ok text

-- one of the three byte order marks is at the start
abbrev pub has_bom : Bytes → Bool
has_bom raw =
    begins_with (0xef ∷ 0xbb ∷ 0xbf ∷ []) raw
    || begins_with (0xff ∷ 0xfe ∷ []) raw
    || begins_with (0xfe ∷ 0xff ∷ []) raw

abbrev pub is_carriage_return : ℕ → Bool
is_carriage_return b = b == 13

unfoldable pub validate_utf8_bytes : Platform → Bytes → Result Text
unfolding utf8_decode
validate_utf8_bytes p raw = do
  require (not (has_bom raw)) "BOM forbidden"
  require (not (any is_carriage_return raw)) "CR/CRLF forbidden"
  text ← decoded (utf8_decode raw)
  require (same (p.nfc text) text) "non-NFC text"
  require (not (any is_surrogate text)) "surrogate forbidden"
  ok text
