-- ===== src/Shape.antt =====
-- The shape checks of scripts/validate_governance_state.py: exact objects, digests, string arrays.
pub mod Digests
pub mod Exact
pub mod Named
pub mod Strings
pub mod Encoding
use qing_yin.Prelude.{
  Bool, List, Option, Result, String, [], all, between, contains, err, fail, false, length, none,
  ok, raised, require, same, some, traverse, true, ℕ, ◌&&◌, ◌==◌, ◌>>=◌, ◌>>◌, ◌||◌, ◌∷◌, ◌≡◌,
}
use qing_yin.Prelude.Order.{lex_order, nat_order}
use qing_yin.Prelude.Sort.{sorted_by}
use qing_yin.Prelude.Membership.{distinct}
use qing_yin.Text.{Text, lit, utf16_be, utf16_sort_key}
use qing_yin.Json.{Fields, Value, arr, elements, item, keys, obj, str}

-- `set(xs) == set(ys)`
unfoldable pub same_set : List Text → List Text → Bool
same_set xs ys = all (λ x. contains x ys) xs && all (λ y. contains y xs) ys

-- `isinstance(value, dict)`, and the dict
unfoldable pub dict : Value → Option Fields
dict (obj fs) = some fs
dict _ = none

-- `isinstance(value, list)`, and the list
unfoldable pub list : Value → Option (List Value)
list (arr vs) = some (elements vs)
list _ = none

-- `isinstance(value, str)`, and the string
unfoldable pub text : Value → Option Text
text (str s) = some s
text _ = none

abbrev pub some_or_fail {ℓ} : {A : Type ℓ} → Option A → String → Result A
some_or_fail none message = fail message
some_or_fail (some a) message = ok a

-- the same with another exception
abbrev pub some_or_raise {ℓ} : {A : Type ℓ} → Option A → String → Result A
some_or_raise none error = err (raised error)
some_or_raise (some a) error = ok a

pub some_or_fail-eq-ok {ℓ} :
    {A : Type ℓ} (o : Option A) (message : String) {a : A}
    → some_or_fail o message ≡ ok a
    → o ≡ some a
some_or_fail-eq-ok none message h = cc
some_or_fail-eq-ok (some b) message h = cc

unfoldable pub require_exact_object : Value → List Text → Result Fields
unfolding dict same_set
require_exact_object v names = do
  fs ← some_or_fail (dict v) "must be an object"
  require (same_set (keys fs) names) "key mismatch"
  ok fs

abbrev pub is_hex : ℕ → Bool
is_hex c = between b'0' b'9' c || between b'a' b'f' c

-- `re.fullmatch(r"[0-9a-f]{n}", text) is not None`
unfoldable pub is_hex_text : ℕ → Text → Bool
is_hex_text n s = (length s == n) && all is_hex s

abbrev hex_value : ℕ → Option Text → Bool
hex_value n none = false
hex_value n (some s) = is_hex_text n s

unfoldable pub require_sha256 : Value → Result (Unit {0})
unfolding is_hex_text text
require_sha256 v = require (hex_value 64 (text v)) "must be lowercase SHA-256"

unfoldable pub require_sha1 : Value → Result (Unit {0})
unfolding is_hex_text text
require_sha1 v = require (hex_value 40 (text v)) "must be lowercase 40-hex Git SHA"

-- `isinstance(value, list) and all(isinstance(item, str) for item in value)`, and the strings
unfoldable pub texts : List Value → Option (List Text)
texts [] = some []
texts (str s ∷ vs) = elim (texts vs) [ none ↦ none | some ss ↦ some (s ∷ ss) ]
texts (_ ∷ vs) = none

abbrev pub string_list : Option (List Value) → Option (List Text)
string_list none = none
string_list (some vs) = texts vs

-- `sorted(values, key=utf16_sort_key)`; each key is computed before any two are compared
unfoldable pub utf16_sorted : List Text → Result (List Text)
utf16_sorted xs = do _ ← traverse utf16_sort_key xs; ok (sorted_by utf16_be xs)

unfoldable pub same_texts : List Text → List Text → Bool
same_texts [] [] = true
same_texts (x ∷ xs) (y ∷ ys) = same x y && same_texts xs ys
same_texts _ _ = false

unfoldable pub require_sorted_unique_strings : Value → Result (List Text)
require_sorted_unique_strings v = do
  xs ← some_or_fail (string_list (list v)) "must be a string array"
  require (distinct xs) "contains duplicates"
  ascending ← utf16_sorted xs
  require (same_texts xs ascending) "must use UTF-16 code-unit order"
  ok xs

abbrev pub digest_keys : List Text
digest_keys = lit "name" ∷ lit "endpoint_bundle_sha256" ∷ []

-- one round of the loop; it returns the name
unfoldable pub named_digest : Value → Result Text
named_digest v = do
  entry ← require_exact_object v digest_keys
  name ← item (lit "name") entry
  actual ← some_or_fail (text name) "name must be a string"
  digest ← item (lit "endpoint_bundle_sha256") entry
  require_sha256 digest
  ok actual

unfoldable pub validate_named_digests : Value → List Text → Result (Unit {0})
unfolding list named_digest same_texts
validate_named_digests v expected = do
  items ← some_or_fail (list v) "cardinality mismatch"
  require (length items == length expected) "cardinality mismatch"
  names ← traverse named_digest items
  require (same_texts names expected) "component order mismatch"
