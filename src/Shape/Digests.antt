-- ===== src/Shape/Digests.antt =====
-- Which values the checks of a field accept: digests, timestamps, positive integers, string arrays.
use qing_yin.Prelude.{
  List, Option, String, all, ap, arith, length, none, ok, refl, same_iff, some, true, ℕ, ◌↔◌, ◌≡◌,
}
use qing_yin.Text.{Text}
use qing_yin.Json.{
  Fields, Value, found, get, get_or_null, is_null, is_text, item, keys, null, obj, or_null, str,
}
use qing_yin.Shape.{
  dict, hex_value, is_hex, is_hex_text, require_exact_object, require_sha1, require_sha256,
  same_set, some_or_fail, text,
}
use qing_yin.Prelude.Checks.{iff_trans, require_iff}

-- n lowercase hexadecimal digits
abbrev pub IsHex : ℕ → Value → Type 0
IsHex n v = (s : Text) × (v ≡ str s) × (length s ≡ n) × (all is_hex s ≡ true)

pub text_iff : (v : Value) (s : Text) → (text v ≡ some s) ↔ (v ≡ str s)
unfolding text
text_iff (str t) s = (λ h. cc, λ h. cc)
text_iff _ s = (λ h. cc, λ h. cc)

hex_value_iff : (n : ℕ) (v : Value) → (hex_value n (text v) ≡ true) ↔ IsHex n v
unfolding is_hex_text text
hex_value_iff n (str s) = (
  λ h. (s, refl, ground arith, ground arith),
  λ (t, e, l, h). let equal : s ≡ t = cc in rw equal (ground arith),
)
hex_value_iff n _ = (λ h. cc, λ (t, e, l, h). cc)

pub require_sha256_iff : (v : Value) → (require_sha256 v ≡ ok tt) ↔ IsHex 64 v
unfolding require_sha256
require_sha256_iff v =
    iff_trans (require_iff (hex_value 64 (text v)) "must be lowercase SHA-256") (hex_value_iff 64 v)

pub require_sha1_iff : (v : Value) → (require_sha1 v ≡ ok tt) ↔ IsHex 40 v
unfolding require_sha1
require_sha1_iff v =
    iff_trans (require_iff (hex_value 40 (text v)) "must be lowercase 40-hex Git SHA")
      (hex_value_iff 40 v)

-- `d[k]` is the string t
abbrev pub HasText : Fields → Text → Text → Type 0
HasText d k t = get k d ≡ some (str t)

-- `d[k]` exists and is as described
abbrev pub Has : Fields → Text → (Value → Type 0) → Type 0
Has d k P = (v : Value) × (get k d ≡ some v) × P v

found_iff : (o : Option Value) (v : Value) → (found o ≡ ok v) ↔ (o ≡ some v)
found_iff none v = (λ h. cc, λ h. cc)
found_iff (some w) v = (λ h. cc, λ h. cc)

pub item_iff : (k : Text) (d : Fields) (v : Value) → (item k d ≡ ok v) ↔ (get k d ≡ some v)
unfolding item
item_iff k d v = found_iff (get k d) v

pub is_text_iff : (t : Text) (v : Value) → (is_text t v ≡ true) ↔ (v ≡ str t)
unfolding is_text
is_text_iff t (str s) = (λ h. ap str ((same_iff s t).0 h), λ h. (same_iff s t).1 cc)
is_text_iff t _ = (λ h. cc, λ h. cc)

pub require_exact_object_iff :
    (v : Value) (names : List Text) (fs : Fields)
    → (require_exact_object v names ≡ ok fs) ↔ ((v ≡ obj fs) × (same_set (keys fs) names ≡ true))
unfolding require_exact_object
require_exact_object_iff (obj gs) names fs =
    (λ h. ground arith, λ (e, h). let equal : gs ≡ fs = cc in rw (equal, h) refl)
require_exact_object_iff _ names fs = (λ h. cc, λ (e, h). cc)

-- the fields of an object with exactly these keys
abbrev pub Document : List Text → (Fields → Type 0) → Value → Type 0
Document names P v = (d : Fields) × ((v ≡ obj d) × (same_set (keys d) names ≡ true)) × P d

-- a missing key reads as None, which is no string
pub HasText-of_get_or_null :
    (k t : Text) (d : Fields) → (is_text t (get_or_null k d) ≡ true) ↔ HasText d k t
unfolding get_or_null
HasText-of_get_or_null k t d = by_value (get k d)
  where
    by_value : (o : Option Value) → (is_text t (or_null o) ≡ true) ↔ (o ≡ some (str t))
    by_value none = ((λ h. absurd (not_null h)), λ e. cc)
      where
        not_null : is_text t null ≡ true → ⊥
        not_null h = cc ((is_text_iff t null).0 h)
    by_value (some v) = (λ h. ap some ((is_text_iff t v).0 h), λ e. (is_text_iff t v).1 cc)

pub dict_iff : (v : Value) (d : Fields) → (dict v ≡ some d) ↔ (v ≡ obj d)
unfolding dict
dict_iff (obj fs) d = (λ h. cc, λ h. cc)
dict_iff _ d = (λ h. cc, λ h. cc)

pub some_dict_iff :
    (v : Value) (message : String) (d : Fields)
    → (some_or_fail (dict v) message ≡ ok d) ↔ (v ≡ obj d)
unfolding dict
some_dict_iff (obj fs) message d = (λ h. cc, λ h. cc)
some_dict_iff _ message d = (λ h. cc, λ h. cc)

pub is_null_iff : (v : Value) → (is_null v ≡ true) ↔ (v ≡ null)
unfolding is_null
is_null_iff null = (λ h. refl, λ h. refl)
is_null_iff _ = (λ h. cc, λ h. cc)
