-- ===== src/Evidence/Ledger/Accepted.antt =====
-- Which ledgers `validate_finding_ledger` of scripts/validate_governance_state.py accepts.
use qing_yin.Prelude.{List, [], contains, ok, refl, traverse, true, ◌++◌, ◌↔◌, ◌∷◌, ◌≡◌}
use qing_yin.Prelude.Checks.{Pointwise, bind_iff, require_iff, self_iff, then_iff, traverse_iff}
use qing_yin.Text.{lit}
use qing_yin.Json.{Value, str}
use qing_yin.Platform.{Platform}
use qing_yin.Timestamp.{Stamp}
use qing_yin.Timestamp.Printing.{IsStamp, print_stamp}
use qing_yin.Shape.Digests.{Has}
use qing_yin.Evidence.Attestation.Accepted.{require_item_iff}
use qing_yin.Evidence.Access.{strptime}
use qing_yin.Evidence.Access.Read.{strptime_iff}
use qing_yin.Evidence.Bundle.{Reader}
use qing_yin.Evidence.Ledger.{
  agent_review_references, agent_reviews, completed_at, latest_of, one_time_target_types,
}
use qing_yin.Evidence.Ledger.Residual.{present}
use qing_yin.Evidence.Ledger.Rounds.{Request, context_of, read_findings, validate_finding_ledger}
use qing_yin.Evidence.Ledger.Settled.{AreFindings, check_findings_iff}
use qing_yin.Evidence.Ledger.Reviews.{
  AreReports, HoldsFindings, HoldsReviews, IsCompletedAt, agent_review_references_iff,
  agent_reviews_iff, completed_at_iff, read_findings_iff,
}

-- a ledger of this target, with the reviews that its findings refer to
abbrev pub IsLedger : Platform → Reader → Request → Type 0
IsLedger p r q =
    (contains q.target_type (one_time_target_types ++ lit "ordinary" ∷ []) ≡ true)
    × (Has q.root (lit "candidate_head") (λ v. Unit)
        × ((findings : List Value) × HoldsFindings p r q.bundle findings
            × ((cutoff : Stamp) × ((q.cutoff_utc ≡ str (print_stamp cutoff)) × IsStamp cutoff)
                × ((reports : Value) × AreReports p r q.review_bundle reports
                    × ((reviews : List Value) × HoldsReviews p r q.review_bundle reviews
                        × ((times : List Stamp) × Pointwise IsCompletedAt reviews times
                            × ((latest : Stamp) × (latest_of times ≡ ok latest)
                                × AreFindings p r (context_of q cutoff reports latest) q.attestation
                                    findings)))))))

-- A ledger is accepted exactly when the target type is known, the root names its candidate, the
-- response is an object with an array of findings, and each finding has the keys, an id of the
-- pattern with its severity, a known status and a scope that fits, and is an accepted residual,
-- resolved or deferred with evidence of a transition from Open between the last review and the
-- cutoff; the ids are canonical, the fixed residuals of the target are all there and accepted or
-- resolved, and an attestation names the same ids.
pub validate_finding_ledger_iff :
    (p : Platform) (r : Reader) (q : Request)
    → (validate_finding_ledger p r q ≡ ok tt) ↔ IsLedger p r q
unfolding validate_finding_ledger
validate_finding_ledger_iff p r q = then_iff _ _ (require_iff _ _) (
    then_iff _ _ (require_item_iff q.root present _ λ v. (λ h. tt, λ h. refl)) (
      bind_iff (read_findings p r q.bundle) _ (read_findings_iff p r q.bundle) λ findings.
        bind_iff (strptime q.cutoff_utc) _ (strptime_iff q.cutoff_utc) λ cutoff.
          bind_iff (agent_review_references p r q.review_bundle) _
            (agent_review_references_iff p r q.review_bundle)
            λ reports.
              bind_iff (agent_reviews p r q.review_bundle) _ (agent_reviews_iff p r q.review_bundle)
                λ reviews.
                  bind_iff (traverse completed_at reviews) _
                    (traverse_iff IsCompletedAt completed_at completed_at_iff reviews)
                    λ times. bind_iff (latest_of times) _ (self_iff (latest_of times)) λ latest.
                      check_findings_iff p r (context_of q cutoff reports latest) q.attestation
                        findings))
