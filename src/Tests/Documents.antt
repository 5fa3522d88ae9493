-- ===== src/Tests/Documents.antt =====
-- Documents of an evidence package, with the theorems on them.
use qing_yin.Prelude.{
  List, String, [], contains, map, ok, refl, replicate, same, some, traverse, true, ◌↔◌, ◌∷◌, ◌≡◌,
  ◌⊎◌,
}
use qing_yin.Prelude.Int.{pos}
use qing_yin.Text.{Bytes, IsText, Text, lit, utf8_encode}
use qing_yin.Json.Strict.Encoded.{IsClean, validate_utf8_bytes_iff}
use qing_yin.Json.{
  Value, arr, boolean, cons, get, int, is_null, is_text, item, nil, null, obj, of_elements,
  of_entries, str,
}
use qing_yin.Json.Strict.{strict_object, validate_utf8_bytes}
use qing_yin.Json.Strict.Distinct.{normals, strict_object_iff}
use qing_yin.Prelude.Membership.{distinct}
use qing_yin.Shape.{require_exact_object, require_sha256, text, validate_named_digests}
use qing_yin.Shape.Digests.{Document}
use qing_yin.Shape.Named.{NamedDigests, validate_named_digests_iff}
use qing_yin.Evidence.Request.{
  check_query, check_source, is_one_of, request_keys, validate_request_v1,
}
use qing_yin.Evidence.Request.Accepted.{IsRequest, validate_request_v1_iff}
use qing_yin.Evidence.Attestation.{
  attestation_keys, validate_attestation_v1, validate_pre_attestation_v1,
}
use qing_yin.Evidence.Attestation.Documents.{
  IsClaims, IsIdentity, IsPreAttestation, validate_attestation_v1_iff,
  validate_pre_attestation_v1_iff,
}
use qing_yin.Evidence.Manifest.{manifest_keys, validate_manifest_v1}
use qing_yin.Evidence.Manifest.Phases.{
  IsManifest, IsPostMerge, IsPreMerge, validate_manifest_v1_iff,
}
use qing_yin.Evidence.Bundle.{
  Reader, Tuple, bundle_keys, check_response, response_keys, validate_endpoint_bundle_v3,
}
use qing_yin.Evidence.Bundle.Contents.{IsBundle, validate_endpoint_bundle_v3_iff}
use qing_yin.Evidence.Bundle.Binding.{BodyParts, HeadParts, RequestParts, check_response_iff}
use qing_yin.Tests.{plain}
use qing_yin.Prelude.Sort.{sorted_by}

abbrev object : List (String × Value) → Value
object fields = obj (of_entries (map (λ ((k, v) : String × Value). (lit k, v)) fields))

abbrev string : String → Value
string s = str (lit s)

abbrev sha1_value : Value
sha1_value = str (replicate 40 b'a')

abbrev sha256_value : Value
sha256_value = str (replicate 64 b'0')

abbrev git_request : Value
git_request = object (
    ("schema", string "gvn-request-v1")
    ∷ ("source", string "git")
    ∷ ("method", string "READ")
    ∷ ("authority", string "ZhangIvan/QingYin")
    ∷ ("path", string "/git/merge-commit")
    ∷ ("query", arr nil)
    ∷ ("body", null)
    ∷ [])

git_request_passes : validate_request_v1 git_request ≡ ok tt
unfolding validate_request_v1 require_exact_object contains same lit item get is_text is_one_of text
    check_query traverse sorted_by check_source is_null
git_request_passes = refl

validate_request_v1_iff_example :
    (validate_request_v1 git_request ≡ ok tt) ↔ Document request_keys IsRequest git_request
validate_request_v1_iff_example = validate_request_v1_iff git_request

abbrev attestation : Value
attestation = object (
    ("schema", string "gvn-attestation-v1")
    ∷ ("repository", string "ZhangIvan/QingYin")
    ∷ ("pr_number", int (pos 19))
    ∷ ("base_sha", sha1_value)
    ∷ ("candidate_head", sha1_value)
    ∷ ("candidate_tree", sha1_value)
    ∷ ("attestor_login", string "ZhangIvan")
    ∷ ("attestor_id", int (pos 1))
    ∷ ("changed_paths_sha256", sha256_value)
    ∷ ("pull_body_sha256", sha256_value)
    ∷ ("risk_class", string "CR3")
    ∷ ("pre_attestation_sha256", sha256_value)
    ∷ ("finding_ids", arr nil)
    ∷ ("accepted_residual_ids", arr nil)
    ∷ ("checks_status", string "VERIFIED")
    ∷ ("reviews_status", string "VERIFIED")
    ∷ ("trusted_control_status", string "VERIFIED")
    ∷ ("unknowns", arr nil)
    ∷ ("rollback", string "revert")
    ∷ ("no_production_authorization", boolean true)
    ∷ [])

validate_attestation_v1_iff_example :
    (validate_attestation_v1 attestation ≡ ok tt)
    ↔ Document attestation_keys (λ d. IsIdentity d × IsClaims d) attestation
validate_attestation_v1_iff_example = validate_attestation_v1_iff attestation

abbrev digest : String → Value
digest name = object (("name", string name) ∷ ("endpoint_bundle_sha256", sha256_value) ∷ [])

abbrev stable_digests : List String
stable_digests =
    "pr" ∷ "paths" ∷ "metadata" ∷ "review" ∷ "discussion" ∷ "checks" ∷ "control" ∷ "identity"
    ∷ "security" ∷ "runner" ∷ "finding" ∷ []

abbrev pre_attestation : Value
pre_attestation = object (
    ("schema", string "gvn-pre-attestation-v1")
    ∷ ("repository", string "ZhangIvan/QingYin")
    ∷ ("pr_number", int (pos 19))
    ∷ ("base_sha", sha1_value)
    ∷ ("candidate_head", sha1_value)
    ∷ ("candidate_tree", sha1_value)
    ∷ ("snapshot_cutoff_utc", string "2026-02-28T12:00:00Z")
    ∷ ("component_digests", arr (of_elements (map digest stable_digests)))
    ∷ [])

validate_pre_attestation_v1_iff_example :
    (validate_pre_attestation_v1 pre_attestation ≡ ok tt) ↔ IsPreAttestation pre_attestation
validate_pre_attestation_v1_iff_example = validate_pre_attestation_v1_iff pre_attestation

abbrev manifest : Value
manifest = object (
    ("schema", string "gvn-manifest-v1")
    ∷ ("phase", string "stable-window-start")
    ∷ ("repository", string "ZhangIvan/QingYin")
    ∷ ("pr_number", int (pos 19))
    ∷ ("base_sha", sha1_value)
    ∷ ("candidate_head", sha1_value)
    ∷ ("candidate_tree", sha1_value)
    ∷ ("snapshot_cutoff_utc", string "2026-02-28T12:00:00Z")
    ∷ ("component_digests", arr (of_elements (map digest stable_digests)))
    ∷ ("effective_merge_sha", null)
    ∷ [])

validate_manifest_v1_iff_example :
    (validate_manifest_v1 manifest ≡ ok tt)
    ↔ Document manifest_keys (λ d. IsManifest d × (IsPreMerge d ⊎ IsPostMerge d)) manifest
validate_manifest_v1_iff_example = validate_manifest_v1_iff manifest

abbrev two_names : List Text
two_names = lit "pr" ∷ lit "paths" ∷ []

abbrev two_digests : Value
two_digests = arr (of_elements (digest "pr" ∷ digest "paths" ∷ []))

two_digests_pass : validate_named_digests two_digests two_names ≡ ok tt
unfolding validate_named_digests traverse require_exact_object contains same lit item get text
    require_sha256
two_digests_pass = refl

validate_named_digests_iff_example :
    (validate_named_digests two_digests two_names ≡ ok tt) ↔ NamedDigests two_names two_digests
validate_named_digests_iff_example = validate_named_digests_iff two_digests two_names

abbrev pairs : List (Text × Value)
pairs = (lit "b", null) ∷ (lit "a", int (pos 1)) ∷ []

strict_object_iff_example :
    (strict_object plain pairs ≡ ok (of_entries pairs))
    ↔ ((distinct (normals plain pairs) ≡ true) × (of_entries pairs ≡ of_entries pairs))
strict_object_iff_example = strict_object_iff plain pairs (of_entries pairs)

-- "é€" and a character outside the basic plane
abbrev wide : Text
wide = 0xe9 ∷ 0x20ac ∷ 0x1f600 ∷ []

abbrev wide_bytes : Bytes
wide_bytes = 0xc3 ∷ 0xa9 ∷ 0xe2 ∷ 0x82 ∷ 0xac ∷ 0xf0 ∷ 0x9f ∷ 0x98 ∷ 0x80 ∷ []

wide_encoded : utf8_encode wide ≡ ok wide_bytes
unfolding utf8_encode
wide_encoded = refl

wide_accepted : validate_utf8_bytes plain wide_bytes ≡ ok wide
unfolding validate_utf8_bytes same
wide_accepted = refl

validate_utf8_bytes_iff_example :
    (validate_utf8_bytes plain wide_bytes ≡ ok wide)
    ↔ ((IsText wide × (utf8_encode wide ≡ ok wide_bytes)) × IsClean plain wide)
validate_utf8_bytes_iff_example = validate_utf8_bytes_iff plain wide_bytes wide

-- a reader of bodies that are written as they are
abbrev reader : Reader
reader = record { b64decode = λ t. some t; loads = λ pairs int float constant t. ok null }

abbrev merge_response : Value
merge_response = object (
    ("label", string "merge-commit")
    ∷ ("request", git_request)
    ∷ ("request_canonical_sha256", sha256_value)
    ∷ ("response_status", int (pos 200))
    ∷ ("response_media_type", string "application/octet-stream")
    ∷ ("response_body_base64", string "AAAA")
    ∷ ("response_body_sha256", sha256_value)
    ∷ ("response_canonical_sha256", sha256_value)
    ∷ ("human_body_hashes", arr nil)
    ∷ [])

abbrev merge_tuple : Tuple
merge_tuple = lit "merge-commit" ∷ replicate 64 b'0' ∷ replicate 64 b'0' ∷ replicate 64 b'0' ∷ []

check_response_iff_example :
    (check_response plain reader merge_response ≡ ok merge_tuple)
    ↔ Document response_keys
        (λ d.
          (request : Text × Text) × RequestParts plain reader d request
          × ((media : Text) × HeadParts plain reader d media
              × ((body : Text × Text) × BodyParts plain reader d request.0 media body
                  × (request.0 ∷ request.1 ∷ body.0 ∷ body.1 ∷ [] ≡ merge_tuple))))
        merge_response
check_response_iff_example = check_response_iff plain reader merge_response merge_tuple

abbrev bundle : Value
bundle = object (
    ("schema", string "gvn-endpoint-bundle-v3")
    ∷ ("component", string "merge")
    ∷ ("responses", arr (cons merge_response nil))
    ∷ [])

validate_endpoint_bundle_v3_iff_example :
    (validate_endpoint_bundle_v3 plain reader bundle ≡ ok tt)
    ↔ Document bundle_keys (IsBundle plain reader) bundle
validate_endpoint_bundle_v3_iff_example = validate_endpoint_bundle_v3_iff plain reader bundle
