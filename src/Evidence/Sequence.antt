-- ===== src/Evidence/Sequence.antt =====
-- `validate_evidence_sequence` of scripts/validate_governance_state.py, behind its loop that
-- validates each package: what the packages of a sequence have in common, and in which order their
-- snapshots were taken.
pub mod Instants
pub mod Window
pub mod Merged
pub mod Accepted
pub mod Order
use qing_yin.Prelude.{
  Bool, List, Option, Result, String, [], each, err, fail, false, if◌then◌else◌, leb, length, map,
  none, not, ok, raised, require, same, some, take, traverse, true, ℕ, ◌&&◌, ◌+◌, ◌>>=◌, ◌>>◌, ◌||◌,
  ◌∷◌,
}
use qing_yin.Text.{Text, lit}
use qing_yin.Platform.{Platform}
use qing_yin.Json.{Fields, Value, arr, get_or_null, is_null, is_text, item, of_elements}
use qing_yin.Json.Canonical.{canonical_json_v1}
use qing_yin.Json.Equality.{eq_value}
use qing_yin.Timestamp.{Stamp}
use qing_yin.Timestamp.Order.{no_later}
use qing_yin.Shape.{dict, list, some_or_fail, some_or_raise}
use qing_yin.Evidence.Access.{earlier, require_same_form, strptime, subscript}
use qing_yin.Evidence.Attestation.{require_item}
use qing_yin.Evidence.Bundle.{Reader}
use qing_yin.Evidence.Responses.{response_value}
use qing_yin.Evidence.Ledger.{derive_evidence_target_type, require_merge_ready_freshness}
use qing_yin.Evidence.Sequence.Instants.{total_seconds}
use qing_yin.Evidence.Inventory.{stable_components}

-- `canonical_json_v1(d[key]) == canonical_json_v1(e[key])`
unfoldable pub require_same_item : Platform → Fields → Fields → String → Text → Result (Unit {0})
unfolding canonical_json_v1
require_same_item p d e message key = do
  v ← item key d
  x ← canonical_json_v1 p v
  w ← item key e
  y ← canonical_json_v1 p w
  require (same x y) message

-- `package["manifest"][key]`
unfoldable pub manifest_item : Text → Fields → Result Value
unfolding subscript
manifest_item key evidence = do manifest ← item (lit "manifest") evidence; subscript key manifest

unfoldable pub snapshot_cutoff : Fields → Result Stamp
unfolding manifest_item strptime
snapshot_cutoff evidence = do v ← manifest_item (lit "snapshot_cutoff_utc") evidence; strptime v

abbrev pub are_phases : List String → List Value → Bool
are_phases [] [] = true
are_phases (name ∷ names) (v ∷ vs) = is_text (lit name) v && are_phases names vs
are_phases _ _ = false

abbrev pub window_phases : List String
window_phases = "stable-window-start" ∷ "stable-window-end" ∷ []

abbrev pub merged_phases : List String
merged_phases = "stable-window-start" ∷ "stable-window-end" ∷ "post-merge" ∷ []

abbrev pub not_null : Value → Result (Unit {0})
not_null v =
    require (not (is_null v))
      "merge-ready evidence requires complete attestation/publication/manifest state"

unfoldable pub require_complete : Fields → Result (Unit {0})
unfolding require_item
require_complete evidence =
    each (require_item evidence not_null)
      (map lit ("attestation" ∷ "publication_delta" ∷ "manifest" ∷ []))

-- the checks of `--require-merge-ready`
unfoldable pub require_ready :
    Bool → Option Text → Fields → List Fields → List Value → Result (Unit {0})
unfolding derive_evidence_target_type require_merge_ready_freshness require_complete dict
require_ready has_context authorized_target_type first packages phases = do
  require has_context "--require-merge-ready requires complete current PR context"
  require (are_phases window_phases phases)
      "merge-ready evidence requires exactly stable-window-start/stable-window-end"
  pre ← item (lit "pre_attestation") first
  root ← some_or_raise (dict pre) "TypeError"
  target_type ← derive_evidence_target_type first root authorized_target_type
  require_merge_ready_freshness target_type
  each require_complete packages

abbrev pub constant_fields : List Text
constant_fields =
    map lit ("pre_endpoint_bundles" ∷ "pre_attestation" ∷ "attestation" ∷ "publication_delta" ∷ [])

-- the stable window: the same evidence twice, and its ends ten minutes apart
unfoldable pub check_window : Platform → Fields → Fields → Result (Unit {0})
unfolding require_same_item manifest_item snapshot_cutoff total_seconds
check_window p start end_ = do
  each (require_same_item p start end_ "stable window field changed") constant_fields
  require_same_item p start end_ "stable window component bundles changed"
      (lit "snapshot_endpoint_bundles")
  before ← manifest_item (lit "component_digests") start
  after ← manifest_item (lit "component_digests") end_
  require (eq_value before after) "stable window manifest components changed"
  start_time ← snapshot_cutoff start
  end_time ← snapshot_cutoff end_
  require (leb (total_seconds start_time + 600) (total_seconds end_time))
      "stable window must be at least 600 seconds"

abbrev pub stable_count : ℕ
stable_count = length stable_components

-- `values[:stable_count]` of an array
unfoldable pub common_part : Value → Result Value
unfolding list
common_part v = do
  values ← some_or_raise (list v) "TypeError"
  ok (arr (of_elements (take stable_count values)))

abbrev pub last_of_values : List Value → Option Value
last_of_values [] = none
last_of_values (v ∷ []) = some v
last_of_values (_ ∷ v ∷ vs) = last_of_values (v ∷ vs)

-- `post["snapshot_endpoint_bundles"][-1]`, where it is the merge bundle
unfoldable pub merge_bundle_of : Fields → Result Fields
unfolding list dict
merge_bundle_of post = do
  v ← item (lit "snapshot_endpoint_bundles") post
  bundles ← some_or_raise (list v) "TypeError"
  last_value ← some_or_raise (last_of_values bundles) "IndexError"
  bundle ← some_or_fail (dict last_value) "post-merge sequence is missing its merge bundle"
  require (is_text (lit "merge") (get_or_null (lit "component") bundle))
      "post-merge sequence is missing its merge bundle"
  ok bundle

-- the evidence that the merge leaves as it is
unfoldable pub check_common : Platform → Fields → Fields → Result (Unit {0})
unfolding require_same_item require_same_form manifest_item common_part
check_common p end_ post = do
  each (require_same_item p end_ post "post-merge field differs from stable-window-end")
      constant_fields
  bundles ← item (lit "snapshot_endpoint_bundles") post
  common ← common_part bundles
  stable ← item (lit "snapshot_endpoint_bundles") end_
  require_same_form p common stable "post-merge common bundles differ from stable-window-end"
  digests ← manifest_item (lit "component_digests") post
  common_digests ← common_part digests
  stable_digests ← manifest_item (lit "component_digests") end_
  require (eq_value common_digests stable_digests)
      "post-merge common manifest digests differ from stable-window-end"

-- the merge lies behind the window and not behind the snapshot after it
unfoldable pub check_merged : Platform → Reader → Fields → Fields → Result (Unit {0})
unfolding snapshot_cutoff merge_bundle_of response_value subscript strptime
check_merged p r end_ post = do
  end_time ← snapshot_cutoff end_
  post_time ← snapshot_cutoff post
  require (earlier end_time post_time) "post-merge cutoff must be later than stable-window-end"
  bundle ← merge_bundle_of post
  merged_pull ← response_value p r bundle (lit "merged-pull")
  merged_value ← subscript (lit "merged_at") merged_pull
  merged_at ← strptime merged_value
  require (earlier end_time merged_at && no_later merged_at post_time)
      "merge timestamp must be after the stable window and no later than the post snapshot"

-- The list is as long as its phases, so these are the only cases.
abbrev pub check_snapshots : Platform → Reader → List Fields → Result (Unit {0})
check_snapshots p r (start ∷ end_ ∷ []) = check_window p start end_
check_snapshots p r (start ∷ end_ ∷ post ∷ []) = do
  check_window p start end_
  check_common p end_ post
  check_merged p r end_ post
check_snapshots p r _ = err (raised "ValueError")

unfoldable pub check_phases : Platform → Reader → List Fields → List Value → Result (Unit {0})
unfolding check_window check_common check_merged
check_phases p r packages phases = if are_phases ("pre-attestation" ∷ []) phases then ok tt else (do
  require (are_phases window_phases phases || are_phases merged_phases phases)
      "invalid evidence phase sequence"
  check_snapshots p r packages)

-- whether the sequence has to be merge-ready, and what it is checked against then
pub record Demand : Type 0 where
  pub require_merge_ready : Bool
  pub has_context : Bool
  pub authorized_target_type : Option Text

abbrev pub ready_if : Demand → Fields → List Fields → List Value → Result (Unit {0})
ready_if demand first packages phases =
    if demand.require_merge_ready
    then require_ready demand.has_context demand.authorized_target_type first packages phases
    else ok tt

-- the rest of `validate_evidence_sequence` once each package has been validated
unfoldable pub check_sequence : Platform → Reader → Demand → List Fields → Result (Unit {0})
unfolding require_same_item require_ready check_phases
check_sequence p r demand [] = fail "evidence sequence cannot be empty"
check_sequence p r demand (first ∷ rest) = do
  each
      (λ evidence.
        require_same_item p evidence first "activation binding changed across the evidence sequence"
          (lit "activation_binding"))
      (first ∷ rest)
  phases ← traverse (item (lit "phase")) (first ∷ rest)
  ready_if demand first (first ∷ rest) phases
  check_phases p r (first ∷ rest) phases
