-- ===== src/Tests.antt =====
-- Concrete inputs of the validator of scripts/validate_governance_state.py, with the theorems
-- applied to them.
mod Documents
mod Scripts
mod Bodies
mod Links
mod Responses
mod Publication
mod Bindings
mod Secrets
mod Sequence
mod Target
mod Archive
mod Ledger
use mathlib.Core.List.{Mem, Nodup, Perm, mem-cons_self}
use mathlib.Core.List.Perm
use qing_yin.Prelude.{
  Bool-cases, List, [], arith, contains, each, err, inl, inr, map, none, ok, raised, refl,
  replicate, same, same_iff, some, subst, sym, traverse, true, ◌<◌, ◌>>=◌, ◌>>◌, ◌↔◌, ◌∷◌, ◌≡◌, ◌≤◌,
}
use qing_yin.Prelude.Int.{negsuc, pos}
use qing_yin.Prelude.Order.{lex_le, lex_order, nat_order}
use qing_yin.Prelude.Sort.{sorted_by}
use qing_yin.Text.{Bytes, IsText, Text, lit, utf16_be, utf16_sort_key, utf8_encode}
use qing_yin.Text.Utf16.{utf16_be-injective}
use qing_yin.Platform.{Platform}
use qing_yin.Numeral.{decimal, decimal_int, is_positive_decimal, value}
use qing_yin.Numeral.RoundTrip.{decimal-value, value-decimal}
use qing_yin.Json.{Fields, Items, Value, arr, cons, end, field, found, int, nil, obj, str}
use qing_yin.Json.Scalar.{
  IsScalar, is_safe_integer, safe_integer_limit, validate_scalar, validate_scalar_iff,
}
use qing_yin.Json.Canonical.{
  canonical_json_v1, canonical_object, canonical_scalar, join, json_scalar, json_string, part,
}
use qing_yin.Json.Canonical.Order.{canonical_json_v1-perm}
use qing_yin.Integer.{parse_json_integer, parse_positive_decimal, require_positive_int}
use qing_yin.Integer.Bounds.{
  IsToken, parse_json_integer_iff, parse_positive_decimal_iff, require_positive_int_iff,
}
use qing_yin.Timestamp.{Stamp, utc_timestamp}
use qing_yin.Timestamp.Printing.{IsStamp, print_stamp}
use qing_yin.Timestamp.RoundTrip.{utc_timestamp_iff}
use qing_yin.Timestamp.Order.{utc_timestamp-lex_le, no_later}
use qing_yin.Shape.{
  list, require_exact_object, require_sorted_unique_strings, same_texts, string_list, texts,
  utf16_sorted,
}
use qing_yin.Shape.Encoding.{HasSurrogate, require_sorted_unique_strings-raised_iff}
use qing_yin.Shape.Strings.{
  IsCanonical, require_sorted_unique_strings_iff, require_sorted_unique_strings_unique,
}
use qing_yin.Stable.Component.{component_le, stable_integer_component}
use qing_yin.Stable.View.{decorate, derive_stable_array_view, keyed, seen_before}
use qing_yin.Stable.Rounds.{Callback, id_of}
use qing_yin.Stable.Reorder.{
  Tells-by_key, derive_stable_array_view-perm, derive_stable_array_view-reorder, view,
}
use qing_yin.Prelude.Membership.{distinct, mem→contains}

-- a platform on which every text is normal
abbrev pub plain : Platform
plain = record { nfc = λ t. t; sha256 = λ b. replicate 64 b'0'; sha1 = λ b. replicate 40 b'0' }

abbrev by_number : Callback
by_number v = do c ← stable_integer_component plain v; ok (c ∷ [])

abbrev two : Value
two = int (pos 2)

abbrev one : Value
one = int (pos 1)

abbrev descending : Items
descending = cons two (cons one nil)

abbrev ascending : Items
ascending = cons one (cons two nil)

sorts_descending : view plain by_number none (arr descending) ≡ ok (one ∷ two ∷ [])
unfolding derive_stable_array_view stable_integer_component validate_scalar canonical_json_v1
    decorate keyed seen_before sorted_by lex_le component_le canonical_scalar utf8_encode
    json_scalar
sorts_descending = refl

derive_stable_array_view-reorder_example :
    view plain by_number none (arr ascending) ≡ ok (one ∷ two ∷ [])
derive_stable_array_view-reorder_example =
    derive_stable_array_view-reorder plain by_number none descending ascending (one ∷ two ∷ [])
      (Perm.swap one two []) (Tells-by_key plain by_number (two ∷ one ∷ [])) sorts_descending

derive_stable_array_view-perm_example :
    Perm (one ∷ two ∷ []) (two ∷ one ∷ [])
    × Nodup (map (id_of plain by_number none) (two ∷ one ∷ []))
derive_stable_array_view-perm_example =
    derive_stable_array_view-perm plain by_number none descending (one ∷ two ∷ []) sorts_descending

abbrev a_text : Text
a_text = b'a' ∷ []

abbrev b_text : Text
b_text = b'b' ∷ []

abbrev ab_fields : Fields
ab_fields = field a_text one (field b_text two end)

abbrev ba_fields : Fields
ba_fields = field b_text two (field a_text one end)

-- {"a":1,"b":2}
abbrev ab_bytes : Bytes
ab_bytes =
    b'{' ∷ b'"' ∷ b'a' ∷ b'"' ∷ b':' ∷ b'1' ∷ b',' ∷ b'"' ∷ b'b' ∷ b'"' ∷ b':' ∷ b'2' ∷ b'}' ∷ []

canonical_ba : canonical_json_v1 plain (obj ba_fields) ≡ ok ab_bytes
unfolding canonical_json_v1 canonical_object distinct same each validate_scalar traverse sorted_by
    lex_le utf16_be part utf8_encode json_string canonical_scalar json_scalar join
canonical_ba = refl

two_IsText : (a b : Text) → IsText a → IsText b → (k : Text) → Mem k (a ∷ b ∷ []) → IsText k
unfolding contains
two_IsText a b ta tb k m = elim (Bool-cases (same k a)) [
  | inl e ↦ subst IsText (sym ((same_iff k a).0 e)) ta
  | inr e ↦
      let found = mem→contains k (a ∷ b ∷ []) m in
      subst IsText (sym ((same_iff k b).0 (ground arith))) tb
]

ba_keys_IsText : (k : Text) → Mem k (b_text ∷ a_text ∷ []) → IsText k
ba_keys_IsText = two_IsText b_text a_text (omega arith, tt) (omega arith, tt)

canonical_json_v1-perm_example : canonical_json_v1 plain (obj ab_fields) ≡ ok ab_bytes
canonical_json_v1-perm_example =
    canonical_json_v1-perm plain ba_fields ab_fields (Perm.swap (a_text, one) (b_text, two) [])
      ba_keys_IsText canonical_ba

validate_scalar_iff_example : (validate_scalar plain two ≡ ok tt) ↔ IsScalar plain two
validate_scalar_iff_example = validate_scalar_iff plain two

utf16_be-injective_example : a_text ≡ a_text
utf16_be-injective_example =
    utf16_be-injective a_text a_text refl refl (omega arith, tt) (omega arith, tt) refl

decimal-value_example : decimal (value (lit "42")) ≡ lit "42"
decimal-value_example = decimal-value (lit "42") (unfold is_positive_decimal lit in refl)

value-decimal_example : value (decimal 42) ≡ 42
value-decimal_example = value-decimal 42

require_positive_int_iff_example :
    (require_positive_int two ≡ ok 2) ↔ ((two ≡ int (pos 2)) × (0 < 2) × (2 ≤ safe_integer_limit))
require_positive_int_iff_example = require_positive_int_iff two 2

parse_positive_decimal_iff_example :
    (parse_positive_decimal (str (lit "42")) ≡ ok 42)
    ↔ ((lit "42" ≡ decimal 42) × (0 < 42) × (42 ≤ safe_integer_limit))
parse_positive_decimal_iff_example = parse_positive_decimal_iff (lit "42") 42

minus_42 : IsToken (lit "-42")
unfolding lit is_positive_decimal
minus_42 = inr (inr (inr (refl, refl)))

parse_json_integer_iff_example :
    (parse_json_integer (lit "-42") ≡ ok (negsuc 41))
    ↔ ((lit "-42" ≡ decimal_int (negsuc 41)) × (is_safe_integer (negsuc 41) ≡ true))
parse_json_integer_iff_example = parse_json_integer_iff (lit "-42") minus_42 (negsuc 41)

-- 2024-02-29T23:59:59Z
abbrev leap_day : Stamp
leap_day = record { year = 2024; month = 2; day = 29; hour = 23; minute = 59; second = 59 }

abbrev new_year : Stamp
new_year = record { year = 2025; month = 1; day = 1; hour = 0; minute = 0; second = 0 }

leap_day-IsStamp : IsStamp leap_day
leap_day-IsStamp = record {
  year = (omega arith, omega arith);
  month = (omega arith, omega arith);
  day = (omega arith, inr (inl (refl, refl)));
  hour = omega arith;
  minute = omega arith;
  second = omega arith;
}

new_year-IsStamp : IsStamp new_year
new_year-IsStamp = record {
  year = (omega arith, omega arith);
  month = (omega arith, omega arith);
  day = (omega arith, inl (omega arith));
  hour = omega arith;
  minute = omega arith;
  second = omega arith;
}

utc_timestamp_iff_example :
    (utc_timestamp (str (print_stamp leap_day)) ≡ ok leap_day)
    ↔ ((print_stamp leap_day ≡ print_stamp leap_day) × IsStamp leap_day)
utc_timestamp_iff_example = utc_timestamp_iff (print_stamp leap_day) leap_day

leap_day_read : utc_timestamp (str (print_stamp leap_day)) ≡ ok leap_day
leap_day_read = (utc_timestamp_iff (print_stamp leap_day) leap_day).1 (refl, leap_day-IsStamp)

new_year_read : utc_timestamp (str (print_stamp new_year)) ≡ ok new_year
new_year_read = (utc_timestamp_iff (print_stamp new_year) new_year).1 (refl, new_year-IsStamp)

utc_timestamp-lex_le_example :
    lex_le (print_stamp leap_day) (print_stamp new_year) ≡ no_later leap_day new_year
utc_timestamp-lex_le_example =
    utc_timestamp-lex_le (print_stamp leap_day) (print_stamp new_year) leap_day new_year
      leap_day_read new_year_read

require_sorted_unique_strings_iff_example :
    (require_sorted_unique_strings (arr (cons (str a_text) nil)) ≡ ok (a_text ∷ [])) ↔ (
      (string_list (list (arr (cons (str a_text) nil))) ≡ some (a_text ∷ []))
      × IsCanonical (a_text ∷ []))
require_sorted_unique_strings_iff_example =
    require_sorted_unique_strings_iff (arr (cons (str a_text) nil)) (a_text ∷ [])

abbrev ab_strings : Value
ab_strings = arr (cons (str a_text) (cons (str b_text) nil))

ab_strings_pass : require_sorted_unique_strings ab_strings ≡ ok (a_text ∷ b_text ∷ [])
unfolding require_sorted_unique_strings list utf16_sorted texts distinct same traverse
    utf16_sort_key same_texts sorted_by lex_le utf16_be
ab_strings_pass = refl

ab_IsText : (k : Text) → Mem k (a_text ∷ b_text ∷ []) → IsText k
ab_IsText = two_IsText a_text b_text (omega arith, tt) (omega arith, tt)

require_sorted_unique_strings_unique_example :
    Path (List Text) (a_text ∷ b_text ∷ []) (a_text ∷ b_text ∷ [])
require_sorted_unique_strings_unique_example =
    require_sorted_unique_strings_unique ab_strings ab_strings (a_text ∷ b_text ∷ [])
      (a_text ∷ b_text ∷ []) ab_strings_pass ab_strings_pass ab_IsText (Perm.refl _)

ab_exact : require_exact_object (obj ab_fields) (a_text ∷ b_text ∷ []) ≡ ok ab_fields
unfolding require_exact_object contains same
ab_exact = refl

-- the strings `a` and a lone surrogate
abbrev surrogate_strings : Value
surrogate_strings = arr (cons (str a_text) (cons (str (0xd800 ∷ [])) nil))

surrogate_fails :
    require_sorted_unique_strings surrogate_strings ≡ err (raised "UnicodeEncodeError")
unfolding require_sorted_unique_strings list utf16_sorted texts distinct same traverse
    utf16_sort_key
surrogate_fails = refl

require_sorted_unique_strings-raised_iff_example :
    (require_sorted_unique_strings surrogate_strings ≡ err (raised "UnicodeEncodeError")) ↔ (
      (xs : List Text) × (string_list (list surrogate_strings) ≡ some xs)
      × (Nodup xs × HasSurrogate xs))
require_sorted_unique_strings-raised_iff_example =
    require_sorted_unique_strings-raised_iff surrogate_strings
