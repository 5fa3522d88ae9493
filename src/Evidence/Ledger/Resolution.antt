-- ===== src/Evidence/Ledger/Resolution.antt =====
-- `resolution_patch_digest` of scripts/validate_governance_state.py, and the resolution and the
-- deferral of a finding in `validate_finding_ledger`.
use qing_yin.Prelude.{
  Bool, List, Option, Result, [], any, err, fail, false, map, none, not, ok, raised, require, some,
  suc, traverse, true, ◌>>=◌, ◌>>◌, ◌∷◌,
}
use qing_yin.Prelude.Int.{pos}
use qing_yin.Text.{Text, lit}
use qing_yin.Platform.{Platform}
use qing_yin.Json.{
  Fields, Value, arr, boolean, get, get_or_null, int, is_null, is_text, item, obj, of_elements,
  of_entries, str,
}
use qing_yin.Json.Canonical.{canonical_json_v1}
use qing_yin.Shape.{
  dict, list, require_exact_object, require_sha256, require_sorted_unique_strings, some_or_fail,
  some_or_raise, text,
}
use qing_yin.Evidence.Access.{require_equal, require_unchanged}
use qing_yin.Evidence.Attestation.{positive, require_item, require_text}
use qing_yin.Evidence.Bodies.{is_space}
use qing_yin.Evidence.Bundle.{Reader}
use qing_yin.Evidence.Responses.{response_value}
use qing_yin.Evidence.Ledger.{require_as_root}
use qing_yin.Evidence.Ledger.Shape.{Context}
use qing_yin.Evidence.Ledger.Residual.{check_transition, owner_id, require_value, some_invalidators}

-- an element of the files with whether it has the file name
abbrev pub with_name : Text → Value → Result (Bool × Fields)
with_name path v = do
  entry ← some_or_raise (dict v) "AttributeError"
  ok (is_text path (get_or_null (lit "filename") entry), entry)

abbrev pub chosen : List (Bool × Fields) → List Fields
chosen [] = []
chosen ((true, entry) ∷ rest) = entry ∷ chosen rest
chosen ((false, entry) ∷ rest) = chosen rest

abbrev pub only_entry : List Fields → Result Fields
only_entry (entry ∷ []) = ok entry
only_entry _ = fail "Resolved repair path missing or duplicated in candidate diff"

-- `isinstance(patch, str) and patch.strip()`
abbrev pub has_content : Option Text → Bool
has_content none = false
has_content (some t) = any (λ c. not (is_space c)) t

-- `entry.get("changes", 0)`
abbrev pub changes_of : Option Value → Value
changes_of none = int (pos 0)
changes_of (some v) = v

-- `value > 0`, where True is 1
abbrev pub is_above_zero : Value → Result Bool
is_above_zero (int (pos (suc n))) = ok true
is_above_zero (int _) = ok false
is_above_zero (boolean b) = ok b
is_above_zero _ = err (raised "TypeError")

-- the one file of a repair path
unfoldable pub select_file : List Value → Text → Result Value
unfolding text
select_file files path = do
  named ← traverse (with_name path) files
  entry ← only_entry (chosen named)
  require (has_content (text (get_or_null (lit "patch") entry)))
      "Resolved repair path lacks an upstream patch preimage"
  positive_changes ← is_above_zero (changes_of (get (lit "changes") entry))
  require positive_changes "Resolved repair path has no candidate changes"
  ok (obj entry)

-- `candidate.get(key) == root[root_key]`
unfoldable pub require_candidate_paths : Fields → Fields → Result (Unit {0})
unfolding require_equal
require_candidate_paths candidate root = do
  require_as_root candidate (lit "commit") root (lit "candidate_head")
      "Resolved patch candidate paths mismatch"
  require_as_root candidate (lit "tree") root (lit "candidate_tree")
      "Resolved patch candidate paths mismatch"

-- the object that is hashed
unfoldable pub resolution_patch : Text → Fields → List Value → Result Value
resolution_patch finding_id root selected = do
  base_sha ← item (lit "base_sha") root
  candidate_head ← item (lit "candidate_head") root
  candidate_tree ← item (lit "candidate_tree") root
  ok (
      obj (
        of_entries (
          (lit "schema", str (lit "gvn-resolution-patch-v1"))
          ∷ (lit "finding_id", str finding_id)
          ∷ (lit "base_sha", base_sha)
          ∷ (lit "candidate_head", candidate_head)
          ∷ (lit "candidate_tree", candidate_tree)
          ∷ (lit "repair_files", arr (of_elements selected))
          ∷ [])))

abbrev pub some_paths : List Text → Bool
some_paths [] = false
some_paths (_ ∷ _) = true

-- The files of a validated response are an array, and its candidate an object.
unfoldable pub resolution_patch_digest :
    Platform → Reader → Text → Fields → Option Fields → Value → Result Text
unfolding require_sorted_unique_strings response_value dict list require_candidate_paths select_file
    resolution_patch canonical_json_v1
resolution_patch_digest p r finding_id root paths_bundle repair_paths = do
  bundle ← some_or_fail paths_bundle "Resolved finding requires candidate paths evidence"
  paths ← require_sorted_unique_strings repair_paths
  require (some_paths paths) "Resolved finding repair_paths cannot be empty"
  candidate_value ← response_value p r bundle (lit "candidate-commit")
  candidate ← some_or_raise (dict candidate_value) "AttributeError"
  require_candidate_paths candidate root
  files_value ← response_value p r bundle (lit "pull-files")
  files ← some_or_raise (list files_value) "TypeError"
  selected ← traverse (select_file files) paths
  patch ← resolution_patch finding_id root selected
  bytes ← canonical_json_v1 p patch
  ok (p.sha256 bytes)

abbrev pub resolution_keys : List Text
resolution_keys = map lit (
    "schema" ∷ "from_status" ∷ "transition" ∷ "candidate_head" ∷ "resolved_at" ∷ "patch_sha256"
    ∷ "repair_paths" ∷ "verification_reports" ∷ [])

abbrev pub is_pair : Option (List Value) → Bool
is_pair (some (_ ∷ _ ∷ [])) = true
is_pair _ = false

-- `isinstance(value, list) and len(value) == 2`
abbrev pub two_reports : Value → Result (Unit {0})
two_reports v = require (is_pair (list v)) "Resolved finding requires two fresh verifier reports"

-- `require(finding["valid_until"] is None, message)`
abbrev pub no_expiry : Value → Result (Unit {0})
no_expiry v = require (is_null v) "valid_until must be null"

unfoldable pub check_patch : Platform → Reader → Context → Fields → Text → Result (Unit {0})
unfolding require_item require_text resolution_patch_digest require_sha256
check_patch p r x resolution finding_id = do
  require_item resolution require_sha256 (lit "patch_sha256")
  repair_paths ← item (lit "repair_paths") resolution
  digest ← resolution_patch_digest p r finding_id x.root x.paths_bundle repair_paths
  require_text resolution (lit "patch_sha256") digest
      "Resolved finding patch hash differs from candidate changes"

unfoldable pub check_resolved : Platform → Reader → Context → Fields → Text → Result (Unit {0})
unfolding check_patch check_transition require_text require_item require_equal
check_resolved p r x finding finding_id = do
  evidence ← item (lit "evidence") finding
  resolution ← require_exact_object evidence resolution_keys
  require_text resolution (lit "schema") (lit "gvn-finding-resolution-v2")
      "Resolved finding schema mismatch"
  check_transition x resolution (lit "Open->Resolved") (lit "resolved_at")
  check_patch p r x resolution finding_id
  require_item resolution two_reports (lit "verification_reports")
  require_value resolution (lit "verification_reports") x.reports
  require_item finding some_invalidators (lit "invalidators")
  require_item finding no_expiry (lit "valid_until")

abbrev pub deferral_keys : List Text
deferral_keys = map lit (
    "schema" ∷ "from_status" ∷ "transition" ∷ "candidate_head" ∷ "deferred_at" ∷ "deferred_by"
    ∷ "deferred_by_id" ∷ "disposition" ∷ "verification_reports" ∷ [])

abbrev pub is_given : Option Text → Bool
is_given none = false
is_given (some []) = false
is_given (some (_ ∷ _)) = true

-- `finding["disposition"]` of a text is true where it is not empty
abbrev pub given : Value → Result (Unit {0})
given v = require (is_given (text v)) "Deferred-P2 disposition invalid"

unfoldable pub check_deferred : Context → Fields → Result (Unit {0})
unfolding check_transition require_text require_item require_equal require_unchanged
check_deferred x finding = do
  require_text finding (lit "severity") (lit "P2") "Deferred-P2 disposition invalid"
  require_item finding given (lit "disposition")
  require_item finding no_expiry (lit "valid_until")
  evidence ← item (lit "evidence") finding
  deferral ← require_exact_object evidence deferral_keys
  require_text deferral (lit "schema") (lit "gvn-finding-deferral-v1") "Deferred-P2 schema mismatch"
  check_transition x deferral (lit "Open->Deferred-P2") (lit "deferred_at")
  require_text deferral (lit "deferred_by") (lit "ZhangIvan") "Deferred-P2 owner identity mismatch"
  require_item deferral positive (lit "deferred_by_id")
  require_value deferral (lit "deferred_by_id") owner_id
  require_unchanged deferral finding "Deferred-P2 disposition evidence mismatch" (lit "disposition")
  require_value deferral (lit "verification_reports") x.reports
