-- ===== src/Evidence/Bundle.antt =====
-- `validate_endpoint_bundle_v3` of scripts/validate_governance_state.py. The base64 decoder and the
-- JSON scanner are the argument `Reader`.
pub mod Contents
pub mod Binding
use qing_yin.Prelude.{
  Bool, List, Option, Result, [], any, contains, err, fail, false, if◌then◌else◌, map, none, not,
  ok, raised, require, same, some, traverse, true, ◌&&◌, ◌==◌, ◌>>=◌, ◌>>◌, ◌||◌, ◌∷◌,
}
use qing_yin.Prelude.Order.{lex_order, nat_order}
use qing_yin.Prelude.Sort.{sorted_by}
use qing_yin.Text.{Bytes, Text, lit, utf16_be}
use qing_yin.Platform.{Platform}
use qing_yin.Json.{Fields, Value, arr, is_text, item, null, obj, of_elements, str}
use qing_yin.Json.Equality.{eq_value}
use qing_yin.Json.Canonical.{canonical_json_v1}
use qing_yin.Json.Strict.{Loads, parse_json_strict, validate_utf8_bytes}
use qing_yin.Integer.{require_positive_int}
use qing_yin.Shape.{
  dict, list, require_exact_object, require_sha256, same_texts, some_or_fail, text,
}
use qing_yin.Evidence.Inventory.{
  Piece, component_inventory, fullmatch, label_request_rules, lookup, post_merge_components,
}
use qing_yin.Evidence.Request.{is_one_of, validate_request_v1}
use qing_yin.Evidence.Bodies.{derive_human_body_hashes, to_value}
use qing_yin.Evidence.Hashes.{validate_human_body_hashes}
use qing_yin.Evidence.Attestation.{require_text}

pub record Reader : Type 0 where
  -- `base64.b64decode(text, validate=True)`, with `none` for its errors
  pub b64decode : Text → Option Bytes
  -- `json.loads` with its hooks
  pub loads : Loads

abbrev pub bundle_keys : List Text
bundle_keys = map lit ("schema" ∷ "component" ∷ "responses" ∷ [])

abbrev pub response_keys : List Text
response_keys = map lit (
    "label" ∷ "request" ∷ "request_canonical_sha256" ∷ "response_status" ∷ "response_media_type"
    ∷ "response_body_base64" ∷ "response_body_sha256" ∷ "response_canonical_sha256"
    ∷ "human_body_hashes" ∷ [])

abbrev pub media_types : List Text
media_types = map lit (
    "application/json" ∷ "application/zip" ∷ "application/octet-stream"
    ∷ "text/plain; charset=utf-8" ∷ [])

abbrev pub human_labels : List Text
human_labels = map lit (
    "pull" ∷ "pull-metadata" ∷ "post-merge-metadata" ∷ "github-reviews" ∷ "review-threads"
    ∷ "issue-comments" ∷ "attestation-comment" ∷ [])

-- label, request hash, body hash, canonical body hash
abbrev pub Tuple : Type 0
Tuple = List Text

unfoldable pub nonempty_label : Value → Result Text
unfolding text
nonempty_label v = elim (text v) [
  | none ↦ fail "label must be non-empty"
  | some [] ↦ fail "label must be non-empty"
  | some (c ∷ cs) ↦ ok (c ∷ cs)
]

abbrev matches : List Piece → Option Text → Bool
matches pieces none = false
matches pieces (some path) = fullmatch pieces path

-- A request that has passed `validate_request_v1` is an object with these keys.
unfoldable pub check_rule : Text → Value → Result (Unit {0})
unfolding label_request_rules lookup fullmatch text dict
check_rule label request = do
  rule ← some_or_fail (lookup label label_request_rules) "unknown inventory label"
  fields ← some_or_fail (dict request) "evidence request must be an object"
  source ← item (lit "source") fields
  method ← item (lit "method") fields
  path ← item (lit "path") fields
  require
      (is_text rule.source source && is_text rule.method method && matches rule.path (text path))
      "request does not match inventory rule"

-- from the label to the hash of the request; the label and that hash come back
unfoldable pub response_request : Platform → Fields → Result (Text × Text)
unfolding nonempty_label check_rule
response_request p response = do
  label_value ← item (lit "label") response
  label ← nonempty_label label_value
  request ← item (lit "request") response
  validate_request_v1 request
  check_rule label request
  recorded ← item (lit "request_canonical_sha256") response
  require_sha256 recorded
  bytes ← canonical_json_v1 p request
  require (is_text (p.sha256 bytes) recorded) "request hash mismatch"
  ok (label, p.sha256 bytes)

-- the status and the media type
unfoldable pub response_head : Fields → Result Text
response_head response = do
  status ← item (lit "response_status") response
  code ← require_positive_int status
  require (code == 200) "must record an exact successful status 200"
  media ← item (lit "response_media_type") response
  require (is_one_of media media_types) "response_media_type unsupported"
  some_or_fail (text media) "response_media_type unsupported"

-- the decoded body
unfoldable pub response_bytes : Reader → Fields → Result Bytes
response_bytes r response = do
  v ← item (lit "response_body_base64") response
  encoded ← some_or_fail (text v) "response_body_base64 must be a string"
  some_or_fail (r.b64decode encoded) "invalid base64 body"

-- the value of a JSON body, `null` for another one, and the hash of the canonical form
unfoldable pub response_content : Platform → Reader → Text → Bytes → Result (Value × Text)
unfolding validate_utf8_bytes parse_json_strict
response_content p r media bytes =
    if same media (lit "application/json")
    then (do
      source ← validate_utf8_bytes p bytes
      v ← parse_json_strict p r.loads source
      canonical ← canonical_json_v1 p v
      ok (v, p.sha256 canonical))
    else if same media (lit "text/plain; charset=utf-8")
    then (do _ ← validate_utf8_bytes p bytes; ok (null, p.sha256 bytes))
    else ok (null, p.sha256 bytes)

-- the human body hashes that go with a body
unfoldable pub expected_hashes : Platform → Text → Text → Value → Result (List Value)
unfolding derive_human_body_hashes to_value
expected_hashes p media label v =
    if same media (lit "application/json")
    then (do es ← derive_human_body_hashes p label v; ok (map to_value es))
    else ok []

-- from the base64 body on; the two hashes come back
unfoldable pub response_body : Platform → Reader → Fields → Text → Text → Result (Text × Text)
unfolding response_bytes response_content expected_hashes
response_body p r response label media = do
  bytes ← response_bytes r response
  body_hash ← item (lit "response_body_sha256") response
  require_sha256 body_hash
  canonical_hash ← item (lit "response_canonical_sha256") response
  require_sha256 canonical_hash
  require (is_text (p.sha256 bytes) body_hash) "raw body hash mismatch"
  require (not (contains label human_labels) || same media (lit "application/json"))
      "human body source must use application/json"
  (v, actual) ← response_content p r media bytes
  require (is_text actual canonical_hash) "canonical body hash mismatch"
  given ← item (lit "human_body_hashes") response
  hashes ← validate_human_body_hashes p given
  expected ← expected_hashes p media label v
  require (eq_value (arr (of_elements hashes)) (arr (of_elements expected)))
      "human body hashes differ from decoded raw response"
  ok (p.sha256 bytes, actual)

-- one round of the loop
unfoldable pub check_response : Platform → Reader → Value → Result Tuple
unfolding response_request response_head response_body
check_response p r v = do
  response ← require_exact_object v response_keys
  (label, request_hash) ← response_request p response
  media ← response_head response
  (body_hash, canonical_hash) ← response_body p r response label media
  ok (label ∷ request_hash ∷ body_hash ∷ canonical_hash ∷ [])

-- A value that is in no set because it has no hash raises a TypeError.
unfoldable pub component_name : Value → Result Text
component_name (str s) = do
  require (contains s post_merge_components) "unknown endpoint bundle component"
  ok s
component_name (arr _) = err (raised "TypeError")
component_name (obj _) = err (raised "TypeError")
component_name _ = fail "unknown endpoint bundle component"

-- `isinstance(responses, list) and responses`
unfoldable pub some_responses : Value → Result (List Value)
unfolding list
some_responses v = elim (list v) [
  | none ↦ fail "endpoint bundle responses must be non-empty"
  | some [] ↦ fail "endpoint bundle responses must be non-empty"
  | some (x ∷ xs) ↦ ok (x ∷ xs)
]

unfoldable pub distinct_tuples : List Tuple → Bool
distinct_tuples [] = true
distinct_tuples (t ∷ ts) = not (any (same_texts t) ts) && distinct_tuples ts

-- Labels of the table and hexadecimal hashes have no surrogates, so no part of a key raises.
abbrev pub tuple_key : Tuple → List Bytes
tuple_key = map utf16_be

unfoldable pub same_tuples : List Tuple → List Tuple → Bool
same_tuples [] [] = true
same_tuples (x ∷ xs) (y ∷ ys) = same_texts x y && same_tuples xs ys
same_tuples _ _ = false

abbrev pub label_of : Tuple → Text
label_of [] = []
label_of (label ∷ _) = label

unfoldable pub validate_endpoint_bundle_v3 : Platform → Reader → Value → Result (Unit {0})
unfolding check_response component_name some_responses distinct_tuples same_tuples
    component_inventory lookup
validate_endpoint_bundle_v3 p r value = do
  bundle ← require_exact_object value bundle_keys
  require_text bundle (lit "schema") (lit "gvn-endpoint-bundle-v3")
      "endpoint bundle schema mismatch"
  component ← item (lit "component") bundle
  name ← component_name component
  given ← item (lit "responses") bundle
  responses ← some_responses given
  tuples ← traverse (check_response p r) responses
  require (distinct_tuples tuples) "endpoint bundle contains duplicate response tuples"
  require (same_tuples tuples (sorted_by tuple_key tuples))
      "endpoint bundle responses are not canonically sorted"
  labels ← some_or_fail (lookup name component_inventory) "unknown endpoint bundle component"
  require (same_texts (map label_of tuples) labels) "endpoint inventory mismatch"
