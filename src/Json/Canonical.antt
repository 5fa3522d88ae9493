-- ===== src/Json/Canonical.antt =====
-- `canonical_json_v1` of scripts/validate_governance_state.py, with `json.dumps` as it is called
-- there: `ensure_ascii=False`, `separators=(",", ":")`.
pub mod Order
use qing_yin.Prelude.{
  ℕ, zero, suc, ◌+◌, ◌-◌, ◌/◌, ◌%◌, Bool, true, false, not, ◌&&◌, List, [], ◌∷◌, ◌++◌, map, ltb,
  ◌==◌, if◌then◌else◌, contains, Result, ok, err, require, ◌>>=◌, ◌>>◌, each, traverse,
}
use qing_yin.Prelude.Int.{ℤ, pos, negsuc}
use qing_yin.Prelude.Order.{lex_order, nat_order}
use qing_yin.Prelude.Sort.{sorted_by}
use qing_yin.Prelude.Membership.{distinct}
use qing_yin.Numeral.{decimal_int}
use qing_yin.Text.{Text, Bytes, lit, utf16_be, utf8_encode}
use qing_yin.Platform.{Platform}
use qing_yin.Json.{
  Value, null, boolean, int, float, str, arr, obj, Items, nil, cons, Fields, end, field,
}
use qing_yin.Json.Scalar.{validate_scalar}

hex_digit : ℕ → ℕ
hex_digit n = if ltb n 10 then b'0' + n else b'a' + (n - 10)

-- one character of `json.dumps(text, ensure_ascii=False)`
escape : ℕ → Text
unfolding hex_digit
escape c =
    if c == b'"'
    then b'\\' ∷ b'"' ∷ []
    else if c == b'\\'
    then b'\\' ∷ b'\\' ∷ []
    else if c == 10
    then b'\\' ∷ b'n' ∷ []
    else if c == 13
    then b'\\' ∷ b'r' ∷ []
    else if c == 9
    then b'\\' ∷ b't' ∷ []
    else if c == 12
    then b'\\' ∷ b'f' ∷ []
    else if c == 8
    then b'\\' ∷ b'b' ∷ []
    else if ltb c 32
    then b'\\' ∷ b'u' ∷ b'0' ∷ b'0' ∷ hex_digit (c / 16) ∷ hex_digit (c % 16) ∷ []
    else c ∷ []

escape_all : Text → Text
unfolding escape
escape_all [] = []
escape_all (c ∷ cs) = escape c ++ escape_all cs

unfoldable pub json_string : Text → Text
unfolding escape_all
json_string s = b'"' ∷ (escape_all s ++ b'"' ∷ [])

-- `json.dumps` of a value that has passed `validate_scalar`
unfoldable pub json_scalar : Value → Text
unfolding decimal_int json_string
json_scalar null = lit "null"
json_scalar (boolean true) = lit "true"
json_scalar (boolean false) = lit "false"
json_scalar (int n) = decimal_int n
json_scalar (str s) = json_string s
json_scalar (float token) = token
json_scalar (arr _) = []
json_scalar (obj _) = []

-- `b",".join(parts)`
unfoldable pub join : List Bytes → Bytes
join [] = []
join (x ∷ []) = x
join (x ∷ y ∷ rest) = x ++ b',' ∷ join (y ∷ rest)

-- A key with the result of the recursive call on its value, which is looked at only in its turn.
abbrev pub Rendered : Type 0
Rendered = Text × Result Bytes

abbrev pub sort_key : Rendered → Bytes
sort_key e = utf16_be e.0

unfoldable pub part : Rendered → Result Bytes
part (k, body) = do
  key_bytes ← utf8_encode (json_string k)
  bytes ← body
  ok (key_bytes ++ b':' ∷ bytes)

-- The branch for a dict. Every key has passed `validate_scalar` before the sort, so its encoding
-- raises nothing.
unfoldable pub canonical_object : Platform → List Rendered → Result Bytes
canonical_object p fields = do
  require (distinct (map (λ e. p.nfc e.0) fields)) "duplicate/NFC-colliding keys"
  each (λ e. validate_scalar p (str e.0)) fields
  parts ← traverse part (sorted_by sort_key fields)
  ok (b'{' ∷ (join parts ++ b'}' ∷ []))

unfoldable pub canonical_scalar : Platform → Value → Result Bytes
canonical_scalar p v = do validate_scalar p v; utf8_encode (json_scalar v)

unfoldable mutual
  pub canonical_json_v1 : Platform → Value → Result Bytes
  canonical_json_v1 p (arr vs) = do
    parts ← canonical_items p vs
    ok (b'[' ∷ (join parts ++ b']' ∷ []))
  canonical_json_v1 p (obj fs) = canonical_object p (canonical_fields p fs)
  canonical_json_v1 p null = canonical_scalar p null
  canonical_json_v1 p (boolean b) = canonical_scalar p (boolean b)
  canonical_json_v1 p (int n) = canonical_scalar p (int n)
  canonical_json_v1 p (float t) = canonical_scalar p (float t)
  canonical_json_v1 p (str s) = canonical_scalar p (str s)

  pub canonical_items : Platform → Items → Result (List Bytes)
  canonical_items p nil = ok []
  canonical_items p (cons v vs) = do
    x ← canonical_json_v1 p v
    xs ← canonical_items p vs
    ok (x ∷ xs)

  pub canonical_fields : Platform → Fields → List Rendered
  canonical_fields p end = []
  canonical_fields p (field k v fs) = (k, canonical_json_v1 p v) ∷ canonical_fields p fs
