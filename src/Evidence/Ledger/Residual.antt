-- ===== src/Evidence/Ledger/Residual.antt =====
-- The acceptance of a residual in `validate_finding_ledger` of scripts/validate_governance_state.py.
use qing_yin.Prelude.{
  Bool, List, Option, Result, [], contains, each, false, if◌then◌else◌, map, none, ok, require,
  same, some, true, ◌&&◌, ◌>>=◌, ◌>>◌, ◌∷◌,
}
use qing_yin.Prelude.Int.{pos}
use qing_yin.Text.{Text, lit}
use qing_yin.Json.{Fields, Value, int, is_true, item}
use qing_yin.Timestamp.{require_utc_timestamp}
use qing_yin.Timestamp.Order.{no_later}
use qing_yin.Shape.{list, require_exact_object, some_or_raise}
use qing_yin.Evidence.Access.{earlier, require_equal, require_unchanged, strptime}
use qing_yin.Evidence.Attestation.{positive, require_item, require_text}
use qing_yin.Evidence.Inventory.{lookup}
use qing_yin.Evidence.Ledger.{
  owner_github_id, residual_scopes, residual_section_sha256, residual_valid_until,
}
use qing_yin.Evidence.Ledger.Shape.{Context, expected_residual_ids}

abbrev pub not_empty : Option (List Value) → Bool
not_empty none = false
not_empty (some []) = false
not_empty (some (_ ∷ _)) = true

-- `require(finding["invalidators"], message)` of an array
abbrev pub some_invalidators : Value → Result (Unit {0})
some_invalidators v = require (not_empty (list v)) "invalidators missing"

-- the finding itself, before its evidence
unfoldable pub check_residual : Context → Fields → Text → Result (Unit {0})
unfolding require_text require_item lookup list strptime
check_residual x finding finding_id = do
  require_text finding (lit "severity") (lit "P1") "only P1 may be Accepted-Residual"
  require (contains finding_id (expected_residual_ids x.target_type))
      "evidence target cannot accept residual"
  require_text finding (lit "owner") (lit "ZhangIvan") "Accepted-Residual owner must be ZhangIvan"
  expected ← some_or_raise (lookup finding_id residual_scopes) "KeyError"
  require_text finding (lit "scope") expected "Accepted-Residual scope mismatch"
  require_item finding some_invalidators (lit "invalidators")
  require_item finding require_utc_timestamp (lit "valid_until")
  require_text finding (lit "valid_until") residual_valid_until "Accepted-Residual expiry drifted"
  valid_until ← item (lit "valid_until") finding
  expiry ← strptime valid_until
  require (earlier x.cutoff expiry) "Accepted-Residual expired at snapshot cutoff"

abbrev pub acceptance_v2_keys : List Text
acceptance_v2_keys = map lit (
    "schema" ∷ "from_status" ∷ "transition" ∷ "finding_id" ∷ "pr_number" ∷ "base_sha"
    ∷ "candidate_head" ∷ "candidate_tree" ∷ "target_type" ∷ "accepted_at" ∷ "accepted_by"
    ∷ "accepted_by_id" ∷ "decision" ∷ "section_sha256" ∷ "verification_reports"
    ∷ "resolution_trigger" ∷ "derived_status" ∷ "owner_attestation_required" ∷ [])

abbrev pub acceptance_v1_keys : List Text
acceptance_v1_keys = map lit (
    "schema" ∷ "from_status" ∷ "transition" ∷ "candidate_head" ∷ "accepted_at" ∷ "accepted_by"
    ∷ "accepted_by_id" ∷ "decision" ∷ "section_sha256" ∷ "verification_reports"
    ∷ "owner_attestation_required" ∷ [])

abbrev pub derived_status_entries : List (Text × Text)
derived_status_entries =
    (lit "stable_window_integrity", lit "VERIFIED")
    ∷ (lit "stable_window_freshness", lit "UNVERIFIED")
    ∷ (lit "activation_authorization", lit "CONDITIONAL_ACCEPTED_RESIDUAL")
    ∷ []

-- The object must have exactly the keys, so its equality with the literal is that of the entries.
abbrev pub require_entry : Fields → Text × Text → Result (Unit {0})
require_entry d (k, v) = require_text d k v "GVN-P1-005 derived status mismatch"

abbrev pub bound_fields : List Text
bound_fields = map lit ("pr_number" ∷ "base_sha" ∷ "candidate_head" ∷ "candidate_tree" ∷ [])

abbrev pub present : Value → Result (Unit {0})
present v = ok tt

-- the acceptance of the one-time residual; the two tuples are built before they are compared
unfoldable pub acceptance_v2 : Context → Fields → Text → Result (Unit {0})
unfolding require_text require_item require_unchanged
acceptance_v2 x acceptance finding_id = do
  require_text acceptance (lit "schema") (lit "gvn-finding-acceptance-v2")
      "GVN-P1-005 acceptance schema mismatch"
  require_text acceptance (lit "finding_id") finding_id "GVN-P1-005 acceptance finding id mismatch"
  each (require_item x.root present) bound_fields
  each (require_unchanged acceptance x.root "GVN-P1-005 acceptance target binding mismatch")
      bound_fields
  require_text acceptance (lit "target_type") x.target_type
      "GVN-P1-005 acceptance target binding mismatch"
  require_text acceptance (lit "resolution_trigger")
      (lit "trusted-signed-time-or-validator-direct-fetch-or-trusted-collector")
      "GVN-P1-005 resolution trigger mismatch"
  status_value ← item (lit "derived_status") acceptance
  derived_status ←
      require_exact_object status_value (map (λ (e : Text × Text). e.0) derived_status_entries)
  each (require_entry derived_status) derived_status_entries

unfoldable pub acceptance_v1 : Fields → Result (Unit {0})
unfolding require_text
acceptance_v1 acceptance =
    require_text acceptance (lit "schema") (lit "gvn-finding-acceptance-v1")
      "Accepted-Residual schema mismatch"

abbrev pub is_one_time : Text → Bool
is_one_time finding_id = same finding_id (lit "GVN-P1-005")

abbrev pub acceptance_keys : Text → List Text
acceptance_keys finding_id =
    if is_one_time finding_id then acceptance_v2_keys else acceptance_v1_keys

unfoldable pub check_acceptance : Context → Fields → Text → Result (Unit {0})
unfolding acceptance_v1 acceptance_v2
check_acceptance x acceptance finding_id =
    if is_one_time finding_id
    then acceptance_v2 x acceptance finding_id
    else acceptance_v1 acceptance

-- `require(d[key] == reports, message)`, and the like
abbrev pub require_value : Fields → Text → Value → Result (Unit {0})
require_value d key v = require_equal d key v "finding evidence mismatch"

-- A transition from Open, of the current candidate, between the last review and the cutoff.
unfoldable pub check_transition : Context → Fields → Text → Text → Result (Unit {0})
unfolding require_text require_item require_unchanged strptime
check_transition x evidence transition time_key = do
  require_text evidence (lit "from_status") (lit "Open") "transition invalid"
  require_text evidence (lit "transition") transition "transition invalid"
  require_unchanged evidence x.root "candidate mismatch" (lit "candidate_head")
  require_item evidence require_utc_timestamp time_key
  time_value ← item time_key evidence
  time ← strptime time_value
  require (no_later x.latest_review time && no_later time x.cutoff)
      "transition is outside the fresh-review/cutoff interval"

abbrev pub owner_id : Value
owner_id = int (pos owner_github_id)

abbrev pub affirmed : Value → Result (Unit {0})
affirmed v = require (is_true v) "Accepted-Residual must remain pending exact owner attestation"

unfoldable pub check_accepted : Context → Fields → Text → Result (Unit {0})
unfolding check_residual check_acceptance check_transition require_text require_item require_equal
    lookup
check_accepted x finding finding_id = do
  check_residual x finding finding_id
  evidence ← item (lit "evidence") finding
  acceptance ← require_exact_object evidence (acceptance_keys finding_id)
  check_acceptance x acceptance finding_id
  check_transition x acceptance (lit "Open->Accepted-Residual") (lit "accepted_at")
  require_text acceptance (lit "accepted_by") (lit "ZhangIvan")
      "Accepted-Residual owner identity mismatch"
  require_item acceptance positive (lit "accepted_by_id")
  require_value acceptance (lit "accepted_by_id") owner_id
  require_text acceptance (lit "decision") (lit "DEC-20260829-001")
      "Accepted-Residual decision mismatch"
  section ← some_or_raise (lookup finding_id residual_section_sha256) "KeyError"
  require_text acceptance (lit "section_sha256") section "Accepted-Residual section digest mismatch"
  require_value acceptance (lit "verification_reports") x.reports
  require_item acceptance affirmed (lit "owner_attestation_required")
