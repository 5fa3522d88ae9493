-- ===== src/Tests/Ledger.antt =====
-- A small finding ledger, with the theorems on it.
use qing_yin.Prelude.{
  All, List, Option, String, [], contains, each, map, none, ok, refl, replicate, same, some,
  traverse, true, ◌↔◌, ◌∷◌, ◌≡◌,
}
use qing_yin.Text.{Text, lit, utf16_be, utf16_sort_key, utf8_encode}
use qing_yin.Json.{
  Fields, Value, arr, boolean, get, get_or_null, is_null, is_text, is_true, item, null, obj,
  of_elements, str,
}
use qing_yin.Evidence.Bundle.{Reader}
use qing_yin.Evidence.Inventory.{lookup, after_prefix}
use qing_yin.Evidence.Responses.{response_item, response_value}
use qing_yin.Evidence.Ledger.{
  owner_github_id, residual_scopes, residual_section_sha256, residual_valid_until,
}
use qing_yin.Evidence.Ledger.Rounds.{Request, validate_finding_ledger}
use qing_yin.Evidence.Ledger.Accepted.{IsLedger, validate_finding_ledger_iff}
use qing_yin.Evidence.Ledger.Reviews.{HoldsFindings}
use qing_yin.Evidence.Ledger.Closed.{IsClosed, validate_finding_ledger-IsClosed}
use qing_yin.Timestamp.{literal, ended, match_stamp, pair, require_utc_timestamp, utc_timestamp}
use qing_yin.Regex.{fullmatch}
use qing_yin.Shape.{
  is_hex_text, require_exact_object, require_sha256, require_sorted_unique_strings, same_set,
  same_texts, texts, utf16_sorted,
}
use qing_yin.Evidence.Request.{is_one_of}
use qing_yin.Evidence.Bodies.{is_stripped}
use qing_yin.Evidence.Ledger.Shape.{finding_id_pattern, split_on}
use qing_yin.Prelude.Membership.{distinct}
use qing_yin.Prelude.Order.{lex_le, lex_order, nat_order}
use qing_yin.Prelude.Sort.{sorted_by}
use qing_yin.Integer.{require_positive_int}
use qing_yin.Json.Equality.{eq_value}
use qing_yin.Json.Canonical.{
  canonical_json_v1, canonical_object, canonical_scalar, join, json_scalar, json_string, part,
}
use qing_yin.Json.Scalar.{validate_scalar}
use qing_yin.Text.Utf8.{utf8_decode}
use qing_yin.Numeral.{decimal}
use qing_yin.Evidence.Access.{strptime}
use qing_yin.Tests.{plain}
use qing_yin.Tests.Publication.{bundle_with, fields_of, number_of, parse_of}

abbrev a_text_value : String → Value
a_text_value s = str (lit s)

abbrev head_sha : String
head_sha = "1111111111111111111111111111111111111111"

abbrev tree_sha : String
tree_sha = "2222222222222222222222222222222222222222"

abbrev zeros : Value
zeros = str (replicate 64 b'0')

abbrev ledger_root : Fields
ledger_root = fields_of (
    ("pr_number", number_of 7)
    ∷ ("base_sha", a_text_value "3333333333333333333333333333333333333333")
    ∷ ("candidate_head", a_text_value head_sha)
    ∷ ("candidate_tree", a_text_value tree_sha)
    ∷ [])

abbrev one_report : Value
one_report = obj (fields_of (("reviewer_id", number_of 1) ∷ ("report_sha256", zeros) ∷ []))

abbrev two_report_values : Value
two_report_values = arr (of_elements (one_report ∷ one_report ∷ []))

abbrev strings_of : List String → Value
strings_of l = arr (of_elements (map a_text_value l))

abbrev finding_with : String → String → String → Text → Value → Value → Value
finding_with id severity status scope evidence valid_until = obj (
    fields_of (
      ("id", a_text_value id)
      ∷ ("severity", a_text_value severity)
      ∷ ("status", a_text_value status)
      ∷ ("owner", a_text_value "ZhangIvan")
      ∷ ("scope", str scope)
      ∷ ("reason", a_text_value "why")
      ∷ ("mitigation", a_text_value "how")
      ∷ ("rollback", a_text_value "back")
      ∷ ("evidence", evidence)
      ∷ ("valid_until", valid_until)
      ∷ ("invalidators", strings_of ("drift" ∷ []))
      ∷ ("disposition", a_text_value "kept")
      ∷ []))

abbrev transition_fields : String → String → List (String × Value)
transition_fields transition time_key =
    ("from_status", a_text_value "Open")
    ∷ ("transition", a_text_value transition)
    ∷ ("candidate_head", a_text_value head_sha)
    ∷ (time_key, a_text_value "2026-09-01T10:00:00Z")
    ∷ ("verification_reports", two_report_values)
    ∷ []

abbrev acceptance_with : Text → Value
acceptance_with section = obj (
    fields_of (
      ("schema", a_text_value "gvn-finding-acceptance-v1")
      ∷ ("accepted_by", a_text_value "ZhangIvan")
      ∷ ("accepted_by_id", number_of owner_github_id)
      ∷ ("decision", a_text_value "DEC-20260829-001")
      ∷ ("section_sha256", str section)
      ∷ ("owner_attestation_required", boolean true)
      ∷ transition_fields "Open->Accepted-Residual" "accepted_at"))

abbrev or_empty : Option Text → Text
or_empty none = []
or_empty (some t) = t

abbrev residual_with : String → Value
residual_with id =
    finding_with id "P1" "Accepted-Residual" (or_empty (lookup (lit id) residual_scopes))
      (acceptance_with (or_empty (lookup (lit id) residual_section_sha256)))
      (str residual_valid_until)

abbrev resolved_finding : Value
resolved_finding =
    finding_with "REV-P0-001" "P0" "Resolved" (lit "repository-only: scripts")
      (obj (
        fields_of (
          ("schema", a_text_value "gvn-finding-resolution-v2")
          ∷ ("patch_sha256", zeros)
          ∷ ("repair_paths", strings_of ("a.py" ∷ []))
          ∷ transition_fields "Open->Resolved" "resolved_at")))
      null

abbrev deferred_finding : Value
deferred_finding =
    finding_with "REV-P2-002" "P2" "Deferred-P2" (lit "repository-only: docs")
      (obj (
        fields_of (
          ("schema", a_text_value "gvn-finding-deferral-v1")
          ∷ ("deferred_by", a_text_value "ZhangIvan")
          ∷ ("deferred_by_id", number_of owner_github_id)
          ∷ ("disposition", a_text_value "kept")
          ∷ transition_fields "Open->Deferred-P2" "deferred_at")))
      null

abbrev findings_object : Value
findings_object = obj (
    fields_of (
      (
        "findings",
        arr (
            of_elements (
              residual_with "GVN-P1-001"
              ∷ residual_with "GVN-P1-002"
              ∷ residual_with "GVN-P1-003"
              ∷ resolved_finding
              ∷ deferred_finding
              ∷ [])),
      )
      ∷ []))

abbrev one_review : Value
one_review = obj (
    fields_of (
      ("reviewer_id", number_of 1)
      ∷ ("report_sha256", zeros)
      ∷ ("completed_at", a_text_value "2026-09-01T09:00:00Z")
      ∷ []))

abbrev ledger_bodies : List (String × Value)
ledger_bodies =
    ("findings", findings_object)
    ∷ (
      "reviews",
      obj (fields_of (("reviews", arr (of_elements (one_review ∷ one_review ∷ []))) ∷ [])),
    )
    ∷ (
      "commit",
      obj (fields_of (("commit", a_text_value head_sha) ∷ ("tree", a_text_value tree_sha) ∷ [])),
    )
    ∷ (
      "files",
      arr (
          of_elements (
            obj (
              fields_of (
                ("filename", a_text_value "a.py")
                ∷ ("patch", a_text_value "+ x")
                ∷ ("changes", number_of 1)
                ∷ []))
            ∷ [])),
    )
    ∷ []

abbrev ledger_reader : Reader
ledger_reader = record {
  b64decode = λ t. some t;
  loads = λ pairs integer decimal_ constant t. parse_of ledger_bodies t;
}

abbrev ledger_request : Request
ledger_request = record {
  casefold = λ t. t;
  bundle = bundle_with "finding" (("finding-ledger", "findings") ∷ []);
  review_bundle = bundle_with "review" (("agent-reviews", "reviews") ∷ []);
  cutoff_utc = a_text_value "2026-09-01T11:00:00Z";
  root = ledger_root;
  attestation = some (
      fields_of (
        (
          "finding_ids",
          strings_of
              ("GVN-P1-001" ∷ "GVN-P1-002" ∷ "GVN-P1-003" ∷ "REV-P0-001" ∷ "REV-P2-002" ∷ []),
        )
        ∷ ("accepted_residual_ids", strings_of ("GVN-P1-001" ∷ "GVN-P1-002" ∷ "GVN-P1-003" ∷ []))
        ∷ []));
  target_type = lit "ordinary";
  paths_bundle =
      some (bundle_with "paths" (("candidate-commit", "commit") ∷ ("pull-files", "files") ∷ []));
}

accepted_ledger : validate_finding_ledger plain ledger_reader ledger_request ≡ ok tt
unfolding validate_finding_ledger response_value response_item same lit contains item get traverse
    require_exact_object match_stamp pair literal ended get_or_null fullmatch is_one_of split_on
    each is_stripped texts distinct require_utc_timestamp utc_timestamp lookup is_text eq_value
    lex_le utf16_sort_key utf16_be sorted_by same_texts same_set require_positive_int
    require_sorted_unique_strings finding_id_pattern after_prefix is_null is_true is_hex_text
    require_sha256 strptime utf8_decode utf8_encode canonical_json_v1 canonical_object
    validate_scalar part json_string join canonical_scalar json_scalar decimal utf16_sorted
accepted_ledger = refl

validate_finding_ledger_iff_example :
    (validate_finding_ledger plain ledger_reader ledger_request ≡ ok tt)
    ↔ IsLedger plain ledger_reader ledger_request
validate_finding_ledger_iff_example = validate_finding_ledger_iff plain ledger_reader ledger_request

validate_finding_ledger-IsClosed_example :
    (findings : List Value) × HoldsFindings plain ledger_reader (ledger_request.bundle) findings
    × All (IsClosed (lit "ordinary")) findings
validate_finding_ledger-IsClosed_example =
    validate_finding_ledger-IsClosed plain ledger_reader ledger_request accepted_ledger
