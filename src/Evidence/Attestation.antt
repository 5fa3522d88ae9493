-- ===== src/Evidence/Attestation.antt =====
-- `validate_pre_attestation_v1` and `validate_attestation_v1` of
-- scripts/validate_governance_state.py.
pub mod Accepted
pub mod Documents
use qing_yin.Prelude.{
  Bool, List, Option, Result, String, [], discard, each, false, map, none, require, some, true,
  ◌>>=◌, ◌>>◌, ◌∷◌,
}
use qing_yin.Text.{Text, lit}
use qing_yin.Json.{Fields, Value, is_text, is_true, item}
use qing_yin.Integer.{require_positive_int}
use qing_yin.Timestamp.{require_utc_timestamp}
use qing_yin.Shape.{
  require_exact_object, require_sha1, require_sha256, require_sorted_unique_strings, text,
  validate_named_digests,
}
use qing_yin.Evidence.Inventory.{pre_attestation_components}

-- `require(d[key] == expected, message)`
unfoldable pub require_text : Fields → Text → Text → String → Result (Unit {0})
require_text d key expected message = do v ← item key d; require (is_text expected v) message

-- `check(d[key])`
unfoldable pub require_item : Fields → (Value → Result (Unit {0})) → Text → Result (Unit {0})
require_item d check key = do v ← item key d; check v

-- the `for field in ("base_sha", "candidate_head", "candidate_tree")`
unfoldable pub require_candidate : Fields → Result (Unit {0})
unfolding require_item
require_candidate d =
    each (require_item d require_sha1)
      (map lit ("base_sha" ∷ "candidate_head" ∷ "candidate_tree" ∷ []))

abbrev pub positive : Value → Result (Unit {0})
positive v = discard (require_positive_int v)

abbrev pub sorted_strings : Value → Result (Unit {0})
sorted_strings v = discard (require_sorted_unique_strings v)

abbrev pub pre_attestation_keys : List Text
pre_attestation_keys = map lit (
    "schema" ∷ "repository" ∷ "pr_number" ∷ "base_sha" ∷ "candidate_head" ∷ "candidate_tree"
    ∷ "snapshot_cutoff_utc" ∷ "component_digests" ∷ [])

unfoldable pub validate_pre_attestation_v1 : Value → Result (Unit {0})
unfolding require_text require_item require_candidate
validate_pre_attestation_v1 value = do
  root ← require_exact_object value pre_attestation_keys
  require_text root (lit "schema") (lit "gvn-pre-attestation-v1") "pre-attestation schema mismatch"
  require_text root (lit "repository") (lit "ZhangIvan/QingYin")
      "pre-attestation repository mismatch"
  require_item root positive (lit "pr_number")
  require_candidate root
  require_item root require_utc_timestamp (lit "snapshot_cutoff_utc")
  require_item root (λ v. validate_named_digests v pre_attestation_components)
      (lit "component_digests")

abbrev pub attestation_keys : List Text
attestation_keys = map lit (
    "schema" ∷ "repository" ∷ "pr_number" ∷ "base_sha" ∷ "candidate_head" ∷ "candidate_tree"
    ∷ "attestor_login" ∷ "attestor_id" ∷ "changed_paths_sha256" ∷ "pull_body_sha256" ∷ "risk_class"
    ∷ "pre_attestation_sha256" ∷ "finding_ids" ∷ "accepted_residual_ids" ∷ "checks_status"
    ∷ "reviews_status" ∷ "trusted_control_status" ∷ "unknowns" ∷ "rollback"
    ∷ "no_production_authorization" ∷ [])

abbrev is_nonempty_text : Option Text → Bool
is_nonempty_text none = false
is_nonempty_text (some []) = false
is_nonempty_text (some (_ ∷ _)) = true

abbrev is_empty {ℓ} : {A : Type ℓ} → List A → Bool
is_empty [] = true
is_empty (_ ∷ _) = false

abbrev pub no_unknowns : Value → Result (Unit {0})
no_unknowns v = do
  unknowns ← require_sorted_unique_strings v
  require (is_empty unknowns) "bootstrap attestation unknowns must be empty"

abbrev rollback_given : Value → Result (Unit {0})
rollback_given v = require (is_nonempty_text (text v)) "attestation rollback must be non-empty"

abbrev denies_production : Value → Result (Unit {0})
denies_production v =
    require (is_true v) "attestation must explicitly deny production authorization"

-- the identity of the attestor and of what is attested
unfoldable pub attestation_identity : Fields → Result (Unit {0})
unfolding require_text require_item require_candidate
attestation_identity payload = do
  require_text payload (lit "schema") (lit "gvn-attestation-v1") "attestation schema mismatch"
  require_text payload (lit "repository") (lit "ZhangIvan/QingYin")
      "attestation repository mismatch"
  require_item payload positive (lit "pr_number")
  require_candidate payload
  require_text payload (lit "attestor_login") (lit "ZhangIvan")
      "attestation login must be ZhangIvan"
  require_item payload positive (lit "attestor_id")
  each (require_item payload require_sha256)
      (map lit ("changed_paths_sha256" ∷ "pull_body_sha256" ∷ "pre_attestation_sha256" ∷ []))
  require_text payload (lit "risk_class") (lit "CR3") "bootstrap attestation risk_class must be CR3"

-- what is attested
unfoldable pub attestation_claims : Fields → Result (Unit {0})
unfolding require_text require_item
attestation_claims payload = do
  each (require_item payload sorted_strings)
      (map lit ("finding_ids" ∷ "accepted_residual_ids" ∷ []))
  each (λ key. require_text payload key (lit "VERIFIED") "attestation status must be VERIFIED")
      (map lit ("checks_status" ∷ "reviews_status" ∷ "trusted_control_status" ∷ []))
  require_item payload no_unknowns (lit "unknowns")
  require_item payload rollback_given (lit "rollback")
  require_item payload denies_production (lit "no_production_authorization")

unfoldable pub validate_attestation_v1 : Value → Result (Unit {0})
unfolding attestation_identity attestation_claims
validate_attestation_v1 value = do
  payload ← require_exact_object value attestation_keys
  attestation_identity payload
  attestation_claims payload
