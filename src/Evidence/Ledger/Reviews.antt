-- ===== src/Evidence/Ledger/Reviews.antt =====
-- What `validate_finding_ledger` of scripts/validate_governance_state.py reads of its bundles:
-- the findings, the reviews, and the references to them.
use qing_yin.Prelude.{List, [], ok, some, traverse, true, ◌↔◌, ◌∷◌, ◌≡◌}
use qing_yin.Prelude.Checks.{Pointwise, bind_iff, ok_iff, self_iff, traverse_iff}
use qing_yin.Text.{lit}
use qing_yin.Json.{
  Fields, Value, arr, end, field, get, get_or_null, item, keys, obj, of_elements, str,
}
use qing_yin.Platform.{Platform}
use qing_yin.Timestamp.{Stamp}
use qing_yin.Timestamp.Printing.{IsStamp, print_stamp}
use qing_yin.Shape.{dict, list, require_exact_object, same_set, some_or_fail}
use qing_yin.Shape.Digests.{item_iff, require_exact_object_iff, some_dict_iff}
use qing_yin.Shape.Named.{some_iff}
use qing_yin.Evidence.Access.{subscript}
use qing_yin.Evidence.Access.Read.{At, strptime_iff, subscript_iff}
use qing_yin.Evidence.Bundle.{Reader}
use qing_yin.Evidence.Responses.{response_value}
use qing_yin.Evidence.Ledger.{
  agent_review_references, agent_reviews, completed_at, review_reference,
}
use qing_yin.Evidence.Ledger.Rounds.{read_findings}

-- the findings of the ledger's response
abbrev pub HoldsFindings : Platform → Reader → Fields → List Value → Type 0
HoldsFindings p r bundle findings =
    (v : Value) × (response_value p r bundle (lit "finding-ledger") ≡ ok v)
    × ((ledger : Fields) × ((v ≡ obj ledger)
          × (same_set (keys ledger) (lit "findings" ∷ []) ≡ true))
        × ((f : Value) × (get (lit "findings") ledger ≡ some f) × (list f ≡ some findings)))

pub read_findings_iff :
    (p : Platform) (r : Reader) (bundle : Fields) (findings : List Value)
    → (read_findings p r bundle ≡ ok findings) ↔ HoldsFindings p r bundle findings
unfolding read_findings
read_findings_iff p r bundle findings =
    bind_iff (response_value p r bundle (lit "finding-ledger")) _
      (self_iff (response_value p r bundle (lit "finding-ledger")))
      λ v.
        bind_iff (require_exact_object v (lit "findings" ∷ [])) _
          (require_exact_object_iff v (lit "findings" ∷ []))
          λ ledger.
            bind_iff (item (lit "findings") ledger) _ (item_iff (lit "findings") ledger)
              λ f. some_iff (list f) _ findings

-- the agent reviews of the review bundle
abbrev pub HoldsReviews : Platform → Reader → Fields → List Value → Type 0
HoldsReviews p r bundle reviews =
    (v : Value) × (response_value p r bundle (lit "agent-reviews") ≡ ok v)
    × ((artifact : Fields) × (v ≡ obj artifact)
        × (list (get_or_null (lit "reviews") artifact) ≡ some reviews))

pub agent_reviews_iff :
    (p : Platform) (r : Reader) (bundle : Fields) (reviews : List Value)
    → (agent_reviews p r bundle ≡ ok reviews) ↔ HoldsReviews p r bundle reviews
unfolding agent_reviews
agent_reviews_iff p r bundle reviews =
    bind_iff (response_value p r bundle (lit "agent-reviews")) _
      (self_iff (response_value p r bundle (lit "agent-reviews")))
      λ v.
        bind_iff (some_or_fail (dict v) _) _ (some_dict_iff v _)
          λ artifact. some_iff (list (get_or_null (lit "reviews") artifact)) _ reviews

-- the reference of a review: its reviewer and its report
abbrev pub IsReference : Value → Value → Type 0
IsReference v w =
    (reviewer : Value) × At (lit "reviewer_id") v reviewer
    × ((report : Value) × At (lit "report_sha256") v report
        × (obj (field (lit "reviewer_id") reviewer (field (lit "report_sha256") report end)) ≡ w))

review_reference_iff : (v w : Value) → (review_reference v ≡ ok w) ↔ IsReference v w
unfolding review_reference
review_reference_iff v w =
    bind_iff (subscript (lit "reviewer_id") v) _ (subscript_iff (lit "reviewer_id") v) λ reviewer.
      bind_iff (subscript (lit "report_sha256") v) _ (subscript_iff (lit "report_sha256") v)
        λ report. ok_iff _ w

abbrev pub AreReports : Platform → Reader → Fields → Value → Type 0
AreReports p r bundle reports =
    (reviews : List Value) × HoldsReviews p r bundle reviews
    × ((references : List Value) × Pointwise IsReference reviews references
        × (arr (of_elements references) ≡ reports))

pub agent_review_references_iff :
    (p : Platform) (r : Reader) (bundle : Fields) (reports : Value)
    → (agent_review_references p r bundle ≡ ok reports) ↔ AreReports p r bundle reports
unfolding agent_review_references
agent_review_references_iff p r bundle reports =
    bind_iff (agent_reviews p r bundle) _ (agent_reviews_iff p r bundle) λ reviews.
      bind_iff (traverse review_reference reviews) _
        (traverse_iff IsReference review_reference review_reference_iff reviews)
        λ references. ok_iff (arr (of_elements references)) reports

abbrev pub IsCompletedAt : Value → Stamp → Type 0
IsCompletedAt v s =
    (w : Value) × At (lit "completed_at") v w × ((w ≡ str (print_stamp s)) × IsStamp s)

pub completed_at_iff : (v : Value) (s : Stamp) → (completed_at v ≡ ok s) ↔ IsCompletedAt v s
unfolding completed_at
completed_at_iff v s =
    bind_iff (subscript (lit "completed_at") v) _ (subscript_iff (lit "completed_at") v)
      λ w. strptime_iff w s
