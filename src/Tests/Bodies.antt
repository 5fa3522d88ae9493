-- ===== src/Tests/Bodies.antt =====
-- The hashes of human-written bodies at concrete inputs.
use mathlib.Core.List.{Nodup, Perm}
use qing_yin.Prelude.{
  List, String, [], contains, map, ok, refl, replicate, same, some, traverse, ℕ, ◌↔◌, ◌∷◌, ◌≡◌,
}
use qing_yin.Prelude.Int.{pos}
use qing_yin.Prelude.Sort.{IsSorted, sorted_by}
use qing_yin.Prelude.Checks.{Pointwise}
use qing_yin.Text.{lit, utf16_be, utf16_sort_key, utf8_encode}
use qing_yin.Json.{
  Value, arr, get, get_or_null, int, is_null, is_text, item, null, obj, of_elements, of_entries,
  str,
}
use qing_yin.Json.Scalar.{validate_scalar}
use qing_yin.Numeral.{is_positive_decimal}
use qing_yin.Shape.{dict, is_hex_text, list, require_exact_object, require_sha256, same_set, text}
use qing_yin.Evidence.Request.{
  Pair, distinct_pairs, is_one_of, pair_key, same_pairs, sorted_pairs, total_key,
}
use qing_yin.Evidence.Request.Query.{IsCanonicalQuery}
use qing_yin.Evidence.Bodies.{
  Body, Entry, canonical_human_body_id, derive_human_body_hashes, hashed, identity, is_stripped,
  null_body, raw_entries, to_value,
}
use qing_yin.Evidence.Hashes.{check_hash, validate_entry, validate_human_body_hashes}
use qing_yin.Evidence.Hashes.Accepted.{
  IsEntry, derive_human_body_hashes-perm, validate_human_body_hashes_iff,
}
use qing_yin.Tests.{plain}
use qing_yin.Integer.{require_positive_int}
use qing_yin.Prelude.Order.{lex_le, lex_order, nat_order}

abbrev review : ℕ → Value → Value
review id text = obj (of_entries ((lit "id", int (pos id)) ∷ (lit "body", text) ∷ []))

-- two reviews, not in the order of their ids
abbrev reviews : Value
reviews = arr (of_elements (review 2 (str (lit "fine")) ∷ review 1 null ∷ []))

abbrev entry : String → Body → Entry
entry id body = record { kind = lit "github-review-rest"; immutable_id = lit id; body = body }

abbrev derived : List Entry
derived = entry "1" null_body ∷ entry "2" (hashed (replicate 64 b'0')) ∷ []

sorted_reviews : derive_human_body_hashes plain (lit "github-reviews") reviews ≡ ok derived
unfolding derive_human_body_hashes same lit traverse get utf8_encode get_or_null
    require_positive_int sorted_by lex_le utf16_be
sorted_reviews = refl

derive_human_body_hashes-perm_example :
    (entries : List Entry) × (raw_entries plain (lit "github-reviews") reviews ≡ ok entries)
    × (Perm derived entries
        × IsSorted (λ e. total_key (identity e)) derived
        × Nodup (map identity derived))
derive_human_body_hashes-perm_example =
    derive_human_body_hashes-perm plain (lit "github-reviews") reviews derived sorted_reviews

-- what was derived is accepted
derived_accepted :
    validate_human_body_hashes plain (arr (of_elements (map to_value derived)))
    ≡ ok (map to_value derived)
unfolding validate_human_body_hashes list traverse require_exact_object to_value contains same lit
    item get is_text text canonical_human_body_id validate_scalar is_positive_decimal is_null
    require_sha256 utf16_sort_key is_stripped check_hash validate_entry distinct_pairs is_one_of
    pair_key same_pairs sorted_pairs sorted_by lex_le utf16_be is_hex_text same_set dict
derived_accepted = refl

validate_human_body_hashes_iff_example :
    (validate_human_body_hashes plain (arr (of_elements (map to_value derived)))
      ≡ ok (map to_value derived))
    ↔ ((list (arr (of_elements (map to_value derived))) ≡ some (map to_value derived))
        × ((keys : List Pair) × Pointwise (IsEntry plain) (map to_value derived) keys
            × IsCanonicalQuery keys))
validate_human_body_hashes_iff_example =
    validate_human_body_hashes_iff plain (arr (of_elements (map to_value derived)))
      (map to_value derived)
