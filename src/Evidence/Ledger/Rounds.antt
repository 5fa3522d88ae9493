-- ===== src/Evidence/Ledger/Rounds.antt =====
-- `validate_finding_ledger` of scripts/validate_governance_state.py: one round of its loop, and what
-- it asks of all rounds together.
use qing_yin.Prelude.{
  Bool, List, Option, Result, [], all, contains, fail, if◌then◌else◌, map, none, ok, require, some,
  traverse, ◌++◌, ◌>>=◌, ◌>>◌, ◌∷◌,
}
use qing_yin.Text.{Text, lit}
use qing_yin.Platform.{Platform}
use qing_yin.Json.{Fields, Value, arr, is_text, item, of_elements, str}
use qing_yin.Timestamp.{Stamp}
use qing_yin.Shape.{list, require_exact_object, same_texts, some_or_fail, utf16_sorted}
use qing_yin.Evidence.Access.{require_equal, strptime}
use qing_yin.Evidence.Attestation.{require_item, require_text, sorted_strings}
use qing_yin.Evidence.Bundle.{Reader}
use qing_yin.Evidence.Request.{is_one_of}
use qing_yin.Evidence.Responses.{response_value}
use qing_yin.Evidence.Ledger.{
  agent_review_references, agent_reviews, completed_at, latest_of, one_time_target_types,
}
use qing_yin.Evidence.Ledger.Shape.{
  Context, check_fields, expected_residual_ids, finding_keys, read_id,
}
use qing_yin.Evidence.Ledger.Residual.{check_accepted, present}
use qing_yin.Evidence.Ledger.Resolution.{check_deferred, check_resolved}

-- what a round adds: the finding's id, its status, and whether the id is an accepted residual's
pub record FindingRound : Type 0 where
  pub finding_id : Text
  pub status : Value
  pub accepted : Bool

-- an open finding fails in both cases
unfoldable pub refuse_open : Fields → Result (Unit {0})
unfolding require_text
refuse_open finding = do
  require_text finding (lit "severity") (lit "P2") "open finding blocks governance"
  fail "open finding has no disposition"

-- the branches on the status; the last is Deferred-P2
unfoldable pub check_status :
    Platform → Reader → Context → Fields → Text → Value → Result (Unit {0})
unfolding refuse_open check_accepted check_resolved check_deferred is_text
check_status p r x finding finding_id status =
    if is_text (lit "Open") status
    then refuse_open finding
    else if is_text (lit "Accepted-Residual") status
    then check_accepted x finding finding_id
    else if is_text (lit "Resolved") status
    then check_resolved p r x finding finding_id
    else check_deferred x finding

abbrev pub round_of : Text → Value → FindingRound
round_of id status = record {
  finding_id = id;
  status = status;
  accepted = is_text (lit "Accepted-Residual") status;
}

unfoldable pub check_finding : Platform → Reader → Context → Value → Result FindingRound
unfolding read_id check_fields check_status
check_finding p r x v = do
  finding ← require_exact_object v finding_keys
  finding_id ← read_id finding
  check_fields x finding finding_id
  status ← item (lit "status") finding
  check_status p r x finding finding_id status
  ok (round_of finding_id status)

abbrev pub ids_of : List FindingRound → List Text
ids_of [] = []
ids_of (t ∷ ts) = t.finding_id ∷ ids_of ts

-- the rounds whose finding is accepted, and those whose id is among the expected
abbrev pub accepted_rounds : List FindingRound → List FindingRound
accepted_rounds [] = []
accepted_rounds (t ∷ ts) = let rest = accepted_rounds ts in if t.accepted then t ∷ rest else rest

abbrev pub fixed_rounds : List Text → List FindingRound → List FindingRound
fixed_rounds expected [] = []
fixed_rounds expected (t ∷ ts) =
    let rest = fixed_rounds expected ts in if contains t.finding_id expected then t ∷ rest else rest

abbrev pub strings_value : List Text → Value
strings_value ids = arr (of_elements (map str ids))

-- `ids == sorted(set(ids), key=utf16_sort_key)`: they are distinct and in this order, which is what
-- `require_sorted_unique_strings` asks of an array
abbrev pub check_ids : List Text → Result (Unit {0})
check_ids ids = sorted_strings (strings_value ids)

abbrev pub is_settled : FindingRound → Bool
is_settled t = is_one_of t.status (map lit ("Accepted-Residual" ∷ "Resolved" ∷ []))

-- The ids are distinct here, so the dict of the fixed findings has one entry for each.
unfoldable pub check_fixed : List Text → List FindingRound → Result (Unit {0})
unfolding utf16_sorted same_texts
check_fixed expected rounds = do
  ids ← utf16_sorted (ids_of (fixed_rounds expected rounds))
  require (same_texts ids expected)
      "fixed residual disposition set does not match the evidence target"
  require (all is_settled (fixed_rounds expected rounds))
      "fixed residual has no valid acceptance or resolution"

unfoldable pub check_attested : Option Fields → List FindingRound → Result (Unit {0})
unfolding require_equal
check_attested none rounds = ok tt
check_attested (some attestation) rounds = do
  require_equal attestation (lit "finding_ids") (strings_value (ids_of rounds))
      "attestation finding_ids differ from finding ledger"
  require_equal attestation (lit "accepted_residual_ids")
      (strings_value (ids_of (accepted_rounds rounds)))
      "attestation accepted_residual_ids differ from finding ledger"

unfoldable pub check_findings :
    Platform → Reader → Context → Option Fields → List Value → Result (Unit {0})
unfolding check_finding check_fixed check_attested
check_findings p r x attestation findings = do
  rounds ← traverse (check_finding p r x) findings
  check_ids (ids_of rounds)
  check_fixed (expected_residual_ids x.target_type) rounds
  check_attested attestation rounds

unfoldable pub read_findings : Platform → Reader → Fields → Result (List Value)
unfolding response_value list
read_findings p r bundle = do
  value ← response_value p r bundle (lit "finding-ledger")
  ledger ← require_exact_object value (lit "findings" ∷ [])
  findings ← item (lit "findings") ledger
  some_or_fail (list findings) "finding ledger findings must be an array"

-- the arguments of `validate_finding_ledger` that stay the same in every round
pub record Request : Type 0 where
  pub casefold : Text → Text
  pub bundle : Fields
  pub review_bundle : Fields
  pub cutoff_utc : Value
  pub root : Fields
  pub attestation : Option Fields
  pub target_type : Text
  pub paths_bundle : Option Fields

abbrev pub context_of : Request → Stamp → Value → Stamp → Context
context_of q cutoff reports latest = record {
  casefold = q.casefold;
  target_type = q.target_type;
  root = q.root;
  cutoff = cutoff;
  latest_review = latest;
  reports = reports;
  paths_bundle = q.paths_bundle;
}

unfoldable pub validate_finding_ledger : Platform → Reader → Request → Result (Unit {0})
unfolding read_findings strptime agent_review_references agent_reviews completed_at check_findings
    require_item
validate_finding_ledger p r q = do
  require (contains q.target_type (one_time_target_types ++ lit "ordinary" ∷ []))
      "evidence target type invalid"
  require_item q.root present (lit "candidate_head")
  findings ← read_findings p r q.bundle
  cutoff ← strptime q.cutoff_utc
  reports ← agent_review_references p r q.review_bundle
  reviews ← agent_reviews p r q.review_bundle
  times ← traverse completed_at reviews
  latest ← latest_of times
  check_findings p r (context_of q cutoff reports latest) q.attestation findings
