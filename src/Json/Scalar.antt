-- ===== src/Json/Scalar.antt =====
-- `validate_scalar` of scripts/validate_governance_state.py.
use qing_yin.Prelude.{
  ℕ, ◌-◌, ◌^◌, ◌≤◌, ◌≡◌, Bool, false, not, any, same, same_iff, leb, ◌&&◌, Result, ok, fail,
  require, ◌>>◌, ◌↔◌, arith, refl,
}
use qing_yin.Prelude.Int.{ℤ, pos_part, neg_part}
use qing_yin.Text.{Text, is_surrogate, utf16_be, utf16_sort_key}
use qing_yin.Platform.{Platform}
use qing_yin.Json.{Value, null, boolean, int, float, str, arr, obj}

abbrev pub safe_integer_limit : ℕ
safe_integer_limit = 2 ^ 53 - 1

-- `-SAFE_INTEGER_LIMIT <= n <= SAFE_INTEGER_LIMIT`
abbrev pub is_safe_integer : ℤ → Bool
is_safe_integer n = leb (neg_part n) safe_integer_limit && leb (pos_part n) safe_integer_limit

abbrev pub validate_text : Platform → Text → Result (Unit {0})
validate_text p s = do
  require (same (p.nfc s) s) "non-NFC string"
  require (not (any is_surrogate s)) "surrogate forbidden"

unfoldable pub validate_scalar : Platform → Value → Result (Unit {0})
validate_scalar p null = ok tt
validate_scalar p (boolean _) = ok tt
validate_scalar p (int n) = require (is_safe_integer n) "integer outside IEEE-754 safe range"
validate_scalar p (float _) = fail "floating-point values are forbidden in gvn-manifest-v1"
validate_scalar p (str s) = validate_text p s
validate_scalar p (arr _) = fail "unsupported canonical scalar"
validate_scalar p (obj _) = fail "unsupported canonical scalar"

-- What a passed scalar is.
abbrev pub IsScalar : Platform → Value → Type 0
IsScalar p null = Unit
IsScalar p (boolean _) = Unit
IsScalar p (int n) = (neg_part n ≤ safe_integer_limit) × (pos_part n ≤ safe_integer_limit)
IsScalar p (float _) = ⊥
IsScalar p (str s) = (p.nfc s ≡ s) × (any is_surrogate s ≡ false)
IsScalar p (arr _) = ⊥
IsScalar p (obj _) = ⊥

-- The scalar check passes exactly null, Booleans, safe integers, and NFC strings without surrogates.
pub validate_scalar_iff : (p : Platform) (v : Value) → (validate_scalar p v ≡ ok tt) ↔ IsScalar p v
unfolding validate_scalar
validate_scalar_iff p null = (λ _. tt, λ _. refl)
validate_scalar_iff p (boolean b) = (λ _. tt, λ _. refl)
validate_scalar_iff p (int n) = ground arith
validate_scalar_iff p (float t) = (λ e. cc, λ h. absurd h)
validate_scalar_iff p (str s) = ground (arith, same_iff (p.nfc s) s)
validate_scalar_iff p (arr xs) = (λ e. cc, λ h. absurd h)
validate_scalar_iff p (obj fs) = (λ e. cc, λ h. absurd h)

-- A string that has passed has a UTF-16 key: sorting it raises nothing.
pub utf16_sort_key-validated :
    (p : Platform) (s : Text)
    → validate_scalar p (str s) ≡ ok tt
    → utf16_sort_key s ≡ ok (utf16_be s)
unfolding validate_scalar utf16_sort_key
utf16_sort_key-validated p s h = ground arith
