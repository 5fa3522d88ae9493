-- ===== src/Tests/Publication.antt =====
-- The publication of an attestation between two small snapshots, with the theorems on it.
use qing_yin.Prelude.{
  List, Result, String, [], contains, each, if◌then◌else◌, map, ok, refl, same, some, traverse, ℕ,
  ◌↔◌, ◌∷◌, ◌≡◌,
}
use qing_yin.Prelude.Int.{pos}
use qing_yin.Text.{Bytes, Text, lit, utf16_be, utf8_encode}
use qing_yin.Json.{
  Fields, Value, arr, cons, field, get, get_or_null, int, is_null, is_text, item, nil, null, obj,
  of_elements, of_entries, str,
}
use qing_yin.Shape.Digests.{Document}
use qing_yin.Evidence.Access.{Bundles, strptime}
use qing_yin.Evidence.Bundle.{Reader}
use qing_yin.Evidence.Publication.{avatar_pattern, validate_issue_comment_endpoint_equivalence}
use qing_yin.Evidence.Publication.Comments.{
  IsComment, validate_issue_comment_endpoint_equivalence_iff,
}
use qing_yin.Evidence.Publication.Delta.{delta_keys}
use qing_yin.Evidence.Publication.Thread.{validate_publication_delta_v1}
use qing_yin.Evidence.Publication.Accepted.{IsPublication, validate_publication_delta_v1_iff}
use qing_yin.Prelude.Order.{lex_le, lex_order, nat_order}
use qing_yin.Prelude.Membership.{distinct}
use qing_yin.Json.Scalar.{validate_scalar}
use qing_yin.Numeral.{decimal}
use qing_yin.Regex.{fullmatch}
use qing_yin.Integer.{require_nonnegative_int, require_positive_int}
use qing_yin.Timestamp.{ended, literal, match_stamp, pair, require_utc_timestamp, utc_timestamp}
use qing_yin.Evidence.Request.{is_container}
use qing_yin.Evidence.Responses.{response_item, response_value}
use qing_yin.Evidence.Inventory.{pre_attestation_components}
use qing_yin.Text.Utf8.{utf8_decode}
use qing_yin.Tests.{plain}
use qing_yin.Json.Equality.{eq_value}
use qing_yin.Json.Canonical.{
  canonical_json_v1, canonical_object, canonical_scalar, join, json_scalar, json_string, part,
}
use qing_yin.Shape.{is_hex_text, require_exact_object, same_set}
use qing_yin.Prelude.Sort.{sorted_by}

abbrev pub fields_of : List (String × Value) → Fields
fields_of l = of_entries (map (λ ((k, v) : String × Value). (lit k, v)) l)

abbrev pub number_of : ℕ → Value
number_of n = int (pos n)

abbrev attestor_with : String → Value
attestor_with url = obj (
    fields_of
      (("login", str (lit "ZhangIvan")) ∷ ("id", number_of 7) ∷ ("avatar_url", str (lit url)) ∷ []))

abbrev comment_with : ℕ → Value → String → Fields
comment_with n user body = fields_of (
    ("id", number_of n)
    ∷ ("user", user)
    ∷ ("created_at", str (lit "2026-09-01T10:00:00Z"))
    ∷ ("updated_at", str (lit "2026-09-01T10:00:05Z"))
    ∷ ("body", str (lit body))
    ∷ [])

abbrev attested : String
attested = "{\"attestor_id\":7,\"attestor_login\":\"ZhangIvan\"}"

-- the comment in the list, and at its own endpoint: the avatar URLs and the pins differ
abbrev listed_comment : Fields
listed_comment =
    comment_with 12 (attestor_with "https://avatars.githubusercontent.com/u/7?v=4") attested

abbrev single_comment : Fields
single_comment = field (lit "pin") null (
    comment_with 12
      (attestor_with
        "https://avatars.githubusercontent.com:443/u/7?u=0123456789012345678901234567890123456789&v=4")
      attested)

abbrev other_comment : Fields
other_comment =
    comment_with 11 (attestor_with "https://avatars.githubusercontent.com/u/7?v=4") "first"

same_comment :
    validate_issue_comment_endpoint_equivalence plain (obj listed_comment) (obj single_comment)
    ≡ ok tt
unfolding validate_issue_comment_endpoint_equivalence contains same lit is_null get_or_null get each
    is_container require_positive_int fullmatch avatar_pattern decimal canonical_json_v1
    canonical_object distinct validate_scalar traverse sorted_by lex_le utf16_be part utf8_encode
    json_string canonical_scalar json_scalar join
same_comment = refl

validate_issue_comment_endpoint_equivalence_iff_example :
    (validate_issue_comment_endpoint_equivalence plain (obj listed_comment) (obj single_comment)
      ≡ ok tt)
    ↔ ((bytes : Bytes) × IsComment plain (obj listed_comment) bytes
        × IsComment plain (obj single_comment) bytes)
validate_issue_comment_endpoint_equivalence_iff_example =
    validate_issue_comment_endpoint_equivalence_iff plain (obj listed_comment) (obj single_comment)

abbrev pull_at : ℕ → String → Value
pull_at comments updated = obj (
    fields_of (
      ("number", number_of 19)
      ∷ ("comments", number_of comments)
      ∷ ("updated_at", str (lit updated))
      ∷ []))

abbrev pub nested : List String → Value → Value
nested [] v = v
nested (k ∷ ks) v = obj (fields_of ((k, nested ks v) ∷ []))

abbrev metadata_at : String → Value
metadata_at updated =
    nested ("data" ∷ "repository" ∷ "pullRequest" ∷ [])
      (obj (fields_of (("title", str (lit "t")) ∷ ("updatedAt", str (lit updated)) ∷ [])))

abbrev instant_before : String
instant_before = "2026-09-01T09:00:00Z"

abbrev instant_after : String
instant_after = "2026-09-01T10:00:05Z"

-- what each body of a response parses to
abbrev parsed : List (String × Value)
parsed =
    ("pull-before", pull_at 1 instant_before)
    ∷ ("pull-after", pull_at 2 instant_after)
    ∷ ("metadata-before", metadata_at instant_before)
    ∷ ("metadata-after", metadata_at instant_after)
    ∷ ("threads", arr nil)
    ∷ ("comments-before", arr (cons (obj other_comment) nil))
    ∷ ("comments-after", arr (cons (obj other_comment) (cons (obj listed_comment) nil)))
    ∷ ("comment", obj single_comment)
    ∷ []

abbrev pub parse_of : List (String × Value) → Text → Result Value
parse_of [] t = ok null
parse_of ((k, v) ∷ table) t = let rest = parse_of table t in if same (lit k) t then ok v else rest

abbrev small_reader : Reader
small_reader = record {
  b64decode = λ t. some t;
  loads = λ pairs integer decimal_ constant t. parse_of parsed t;
}

abbrev pub response_of : String × String → Value
response_of (label, body) = obj (
    fields_of (
      ("label", str (lit label))
      ∷ ("request", null)
      ∷ ("response_media_type", str (lit "application/json"))
      ∷ ("response_body_base64", str (lit body))
      ∷ []))

abbrev pub bundle_with : String → List (String × String) → Fields
bundle_with component responses = fields_of (
    ("component", str (lit component))
    ∷ ("responses", arr (of_elements (map response_of responses)))
    ∷ [])

abbrev snapshot_with : String → String → String → List (String × List (String × String))
snapshot_with pull metadata comments =
    ("pr", ("pull", pull) ∷ [])
    ∷ ("metadata", ("pull-metadata", metadata) ∷ [])
    ∷ ("discussion", ("review-threads", "threads") ∷ ("issue-comments", comments) ∷ [])
    ∷ ("attestation", ("attestation-comment", "comment") ∷ [])
    ∷ ("paths", [])
    ∷ ("review", [])
    ∷ ("checks", [])
    ∷ ("control", [])
    ∷ ("identity", [])
    ∷ ("security", [])
    ∷ ("runner", [])
    ∷ ("finding", [])
    ∷ []

abbrev bundles_of : List (String × List (String × String)) → Bundles
bundles_of = map λ ((c, rs) : String × List (String × String)). (lit c, bundle_with c rs)

abbrev snapshot_before : Bundles
snapshot_before = bundles_of (snapshot_with "pull-before" "metadata-before" "comments-before")

abbrev snapshot_after : Bundles
snapshot_after = bundles_of (snapshot_with "pull-after" "metadata-after" "comments-after")

abbrev attestation_fields : Fields
attestation_fields =
    fields_of (("attestor_login", str (lit "ZhangIvan")) ∷ ("attestor_id", number_of 7) ∷ [])

abbrev delta_value : Value
delta_value = obj (
    fields_of (
      ("schema", str (lit "gvn-publication-delta-v1"))
      ∷ ("attestation_comment_id", number_of 12)
      ∷ ("attestation_comment_created_at", str (lit "2026-09-01T10:00:00Z"))
      ∷ ("attestation_comment_updated_at", str (lit instant_after))
      ∷ ("pull_updated_at_before", str (lit instant_before))
      ∷ ("pull_updated_at_after", str (lit instant_after))
      ∷ ("pull_comments_before", number_of 1)
      ∷ ("pull_comments_after", number_of 2)
      ∷ []))

abbrev first_cutoff : Value
first_cutoff = str (lit "2026-09-01T09:30:00Z")

abbrev second_cutoff : Value
second_cutoff = str (lit "2026-09-01T11:00:00Z")

published :
    validate_publication_delta_v1 plain small_reader delta_value snapshot_before snapshot_after
      attestation_fields first_cutoff second_cutoff
    ≡ ok tt
unfolding validate_publication_delta_v1 response_value response_item strptime utc_timestamp
    match_stamp utf8_decode item is_text traverse is_hex_text eq_value pre_attestation_components
    require_utc_timestamp require_nonnegative_int lex_le same_set
    validate_issue_comment_endpoint_equivalence contains same lit is_null get_or_null get each
    is_container require_positive_int fullmatch avatar_pattern decimal canonical_json_v1
    canonical_object distinct validate_scalar require_exact_object pair literal ended sorted_by part
    utf8_encode json_string join utf16_be canonical_scalar json_scalar
published = refl

validate_publication_delta_v1_iff_example :
    (validate_publication_delta_v1 plain small_reader delta_value snapshot_before snapshot_after
        attestation_fields first_cutoff second_cutoff
      ≡ ok tt)
    ↔ Document delta_keys
        (IsPublication plain small_reader snapshot_before snapshot_after attestation_fields
          first_cutoff second_cutoff)
        delta_value
validate_publication_delta_v1_iff_example =
    validate_publication_delta_v1_iff plain small_reader delta_value snapshot_before snapshot_after
      attestation_fields first_cutoff second_cutoff
