-- ===== src/Evidence/Manifest.antt =====
-- `validate_manifest_v1` of scripts/validate_governance_state.py.
pub mod Phases
use qing_yin.Prelude.{List, Result, [], if◌then◌else◌, map, ok, require, ◌>>=◌, ◌>>◌, ◌∷◌}
use qing_yin.Text.{Text, lit}
use qing_yin.Json.{Value, is_null, is_text, item}
use qing_yin.Timestamp.{require_utc_timestamp}
use qing_yin.Shape.{require_exact_object, require_sha1, validate_named_digests}
use qing_yin.Evidence.Inventory.{post_merge_components, stable_components}
use qing_yin.Evidence.Request.{is_one_of}
use qing_yin.Evidence.Attestation.{positive, require_candidate, require_item, require_text}

abbrev pub manifest_keys : List Text
manifest_keys = map lit (
    "schema" ∷ "phase" ∷ "repository" ∷ "pr_number" ∷ "base_sha" ∷ "candidate_head"
    ∷ "candidate_tree" ∷ "snapshot_cutoff_utc" ∷ "component_digests" ∷ "effective_merge_sha" ∷ [])

abbrev pub phases : List Text
phases = map lit ("stable-window-start" ∷ "stable-window-end" ∷ "post-merge" ∷ [])

-- The merge commit and the components that a phase has: `expected_components`.
unfoldable pub phase_components : Value → Value → Result (List Text)
phase_components phase merge =
    if is_text (lit "post-merge") phase
    then (do require_sha1 merge; ok post_merge_components)
    else (do
      require (is_null merge) "pre-merge manifest effective_merge_sha must be null"
      ok stable_components)

unfoldable pub validate_manifest_v1 : Value → Result (Unit {0})
unfolding require_text require_item require_candidate phase_components
validate_manifest_v1 value = do
  manifest ← require_exact_object value manifest_keys
  require_text manifest (lit "schema") (lit "gvn-manifest-v1") "manifest schema mismatch"
  phase ← item (lit "phase") manifest
  require (is_one_of phase phases) "manifest phase invalid"
  require_text manifest (lit "repository") (lit "ZhangIvan/QingYin") "manifest repository mismatch"
  require_item manifest positive (lit "pr_number")
  require_candidate manifest
  require_item manifest require_utc_timestamp (lit "snapshot_cutoff_utc")
  merge ← item (lit "effective_merge_sha") manifest
  components ← phase_components phase merge
  require_item manifest (λ v. validate_named_digests v components) (lit "component_digests")
