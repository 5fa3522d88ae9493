-- ===== src/Tests/Sequence.antt =====
-- A sequence of three small packages, with the theorems on it.
use qing_yin.Prelude.{
  List, String, [], each, false, none, ok, refl, replicate, same, some, traverse, ◌++◌, ◌↔◌, ◌∷◌,
  ◌≡◌,
}
use qing_yin.Text.{lit, utf16_be, utf8_encode}
use qing_yin.Json.{
  Fields, Value, arr, get, get_or_null, is_null, is_text, item, null, obj, of_elements, str,
}
use qing_yin.Timestamp.{match_stamp, pair, literal, ended, utc_timestamp}
use qing_yin.Evidence.Bundle.{Reader}
use qing_yin.Evidence.Responses.{response_item, response_value}
use qing_yin.Evidence.Sequence.{Demand, check_sequence}
use qing_yin.Evidence.Sequence.Instants.{days_before_month, days_before_year, total_seconds}
use qing_yin.Evidence.Sequence.Accepted.{IsSequence, check_sequence_iff}
use qing_yin.Evidence.Sequence.Order.{RunsInOrder, check_sequence-RunsInOrder}
use qing_yin.Prelude.Order.{lex_le, lex_order, nat_order}
use qing_yin.Prelude.Sort.{sorted_by}
use qing_yin.Prelude.Membership.{distinct}
use qing_yin.Json.Canonical.{
  canonical_json_v1, canonical_object, canonical_scalar, join, json_scalar, json_string, part,
}
use qing_yin.Json.Scalar.{validate_scalar}
use qing_yin.Json.Equality.{eq_value}
use qing_yin.Text.Utf8.{utf8_decode}
use qing_yin.Numeral.{decimal}
use qing_yin.Evidence.Access.{strptime}
use qing_yin.Tests.{plain}
use qing_yin.Tests.Publication.{bundle_with, fields_of}
use qing_yin.Evidence.Inventory.{stable_components, pre_attestation_components}

abbrev values_of : List Value → Value
values_of vs = arr (of_elements vs)

abbrev manifest_with : String → List Value → Value
manifest_with cutoff digests = obj (
    fields_of
      (("snapshot_cutoff_utc", str (lit cutoff)) ∷ ("component_digests", values_of digests) ∷ []))

abbrev member_with : String → String → List Value → List Value → Fields
member_with phase cutoff bundles digests = fields_of (
    ("phase", str (lit phase))
    ∷ ("pre_endpoint_bundles", values_of [])
    ∷ ("pre_attestation", null)
    ∷ ("attestation", null)
    ∷ ("publication_delta", null)
    ∷ ("activation_binding", null)
    ∷ ("snapshot_endpoint_bundles", values_of bundles)
    ∷ ("manifest", manifest_with cutoff digests)
    ∷ [])

abbrev stable_values : List Value
stable_values = replicate 12 null

abbrev merge_value : Value
merge_value = obj (bundle_with "merge" (("merged-pull", "pull") ∷ []))

abbrev merge_reader : Reader
merge_reader = record {
  b64decode = λ t. some t;
  loads = λ pairs integer decimal_ constant t.
      ok (obj (fields_of (("merged_at", str (lit "2026-09-01T10:11:00Z")) ∷ [])));
}

abbrev first_member : Fields
first_member = member_with "stable-window-start" "2026-09-01T10:00:00Z" stable_values stable_values

abbrev second_member : Fields
second_member = member_with "stable-window-end" "2026-09-01T10:10:00Z" stable_values stable_values

abbrev third_member : Fields
third_member =
    member_with "post-merge" "2026-09-01T10:12:00Z" (stable_values ++ merge_value ∷ [])
      (stable_values ++ null ∷ [])

abbrev no_demand : Demand
no_demand = record {
  require_merge_ready = false;
  has_context = false;
  authorized_target_type = none;
}

abbrev three_members : List Fields
three_members = first_member ∷ second_member ∷ third_member ∷ []

accepted_sequence : check_sequence plain merge_reader no_demand three_members ≡ ok tt
unfolding check_sequence response_value response_item same lit each item get canonical_scalar
    validate_scalar utf8_encode json_scalar traverse is_text join eq_value match_stamp pair literal
    ended stable_components pre_attestation_components lex_le total_seconds days_before_year
    days_before_month canonical_json_v1 canonical_object part json_string sorted_by distinct
    utf16_be decimal strptime utc_timestamp utf8_decode get_or_null is_null
accepted_sequence = refl

check_sequence_iff_example :
    (check_sequence plain merge_reader no_demand three_members ≡ ok tt)
    ↔ IsSequence plain merge_reader no_demand three_members
check_sequence_iff_example = check_sequence_iff plain merge_reader no_demand three_members

check_sequence-RunsInOrder_example :
    RunsInOrder plain merge_reader first_member second_member third_member
check_sequence-RunsInOrder_example =
    check_sequence-RunsInOrder plain merge_reader no_demand first_member second_member third_member
      accepted_sequence
