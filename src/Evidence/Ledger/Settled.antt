-- ===== src/Evidence/Ledger/Settled.antt =====
-- What `validate_finding_ledger` of scripts/validate_governance_state.py asks of the findings
-- of a ledger, and of all of them together.
use qing_yin.Prelude.{
  All, List, Option, [], ap, bind-eq-ok, inl, inr, map, none, ok, refl, some, subst, traverse, true,
  ◌↔◌, ◌∙◌, ◌∷◌, ◌≡◌, ◌⊎◌,
}
use qing_yin.Prelude.Checks.{
  Pointwise, all_iff, bind_iff, branch_iff, iff_trans, ok_iff, require_iff, self_iff, then_iff,
  traverse_iff,
}
use qing_yin.Text.{Text, lit}
use qing_yin.Json.{Fields, Value, elements, get, is_text, item, keys, obj, of_elements, str}
use qing_yin.Platform.{Platform}
use qing_yin.Shape.{list, require_exact_object, same_set, string_list, texts, utf16_sorted}
use qing_yin.Shape.Digests.{Has, is_text_iff, item_iff, require_exact_object_iff}
use qing_yin.Shape.Strings.{IsCanonical, same_texts_iff}
use qing_yin.Evidence.Attestation.{require_text}
use qing_yin.Evidence.Attestation.Accepted.{sorted_strings_iff}
use qing_yin.Evidence.Access.Read.{Same, require_equal_iff}
use qing_yin.Evidence.Bundle.{Reader}
use qing_yin.Evidence.Request.Sources.{OneOf, is_one_of_iff}
use qing_yin.Evidence.Ledger.Shape.{Context, expected_residual_ids, finding_keys, read_id}
use qing_yin.Evidence.Ledger.Residual.{check_accepted}
use qing_yin.Evidence.Ledger.Resolution.{check_resolved}
use qing_yin.Evidence.Ledger.Rounds.{
  FindingRound, accepted_rounds, check_attested, check_finding, check_findings, check_fixed,
  check_ids, check_status, fixed_rounds, ids_of, is_settled, refuse_open, round_of, strings_value,
}
use qing_yin.Evidence.Ledger.Findings.{HasId, IsFinding, check_fields_iff, read_id_iff}
use qing_yin.Evidence.Ledger.Branches.{IsAcceptedResidual, check_accepted_iff}
use qing_yin.Evidence.Ledger.Repairs.{
  IsDeferred, IsResolved, check_deferred_iff, check_resolved_iff,
}

open_iff : (d : Fields) → (refuse_open d ≡ ok tt) ↔ ⊥
unfolding refuse_open
open_iff d = (
  λ h. let passed = bind-eq-ok (require_text d (lit "severity") (lit "P2") _) _ h in cc (passed.2),
  λ b. absurd b,
)

-- not open; an accepted residual, resolved or deferred, each with its evidence
abbrev pub IsSettled : Platform → Reader → Context → Fields → Text → Value → Type 0
IsSettled p r x d id status =
    ((status ≡ str (lit "Open")) → ⊥)
    × (((status ≡ str (lit "Accepted-Residual")) × IsAcceptedResidual x d id)
        ⊎ (((status ≡ str (lit "Accepted-Residual")) → ⊥)
            × (((status ≡ str (lit "Resolved")) × IsResolved p r x d id)
                ⊎ (((status ≡ str (lit "Resolved")) → ⊥) × IsDeferred x d))))

check_status_iff :
    (p : Platform) (r : Reader) (x : Context) (d : Fields) (id : Text) (status : Value)
    → (check_status p r x d id status ≡ ok tt) ↔ IsSettled p r x d id status
unfolding check_status
check_status_iff p r x d id status =
    iff_trans
      (branch_iff (is_text (lit "Open") status) (refuse_open d) _ (is_text_iff (lit "Open") status)
        (open_iff d)
        (branch_iff (is_text (lit "Accepted-Residual") status) (check_accepted x d id) _
          (is_text_iff (lit "Accepted-Residual") status) (check_accepted_iff x d id)
          (branch_iff (is_text (lit "Resolved") status) (check_resolved p r x d id) _
            (is_text_iff (lit "Resolved") status) (check_resolved_iff p r x d id)
            (check_deferred_iff x d))))
      (λ s. elim s [ inl (o, b) ↦ absurd b | inr t ↦ t ], λ t. inr t)

-- a finding with its id and status, and what its round adds
abbrev pub IsRound : Platform → Reader → Context → Value → FindingRound → Type 0
IsRound p r x v t =
    (d : Fields) × ((v ≡ obj d) × (same_set (keys d) finding_keys ≡ true))
    × ((id : Text) × HasId d id
        × (IsFinding x d id
            × ((status : Value) × (get (lit "status") d ≡ some status)
                × (IsSettled p r x d id status × (round_of id status ≡ t)))))

check_finding_iff :
    (p : Platform) (r : Reader) (x : Context) (v : Value) (t : FindingRound)
    → (check_finding p r x v ≡ ok t) ↔ IsRound p r x v t
unfolding check_finding
check_finding_iff p r x v t =
    bind_iff (require_exact_object v finding_keys) _ (require_exact_object_iff v finding_keys) λ d.
      bind_iff (read_id d) _ (read_id_iff d) λ id. then_iff _ _ (check_fields_iff x d id) (
        bind_iff (item (lit "status") d) _ (item_iff (lit "status") d) λ status.
          then_iff _ _ (check_status_iff p r x d id status) (ok_iff (round_of id status) t))

texts_of : (ids : List Text) → texts (elements (of_elements (map str ids))) ≡ some ids
unfolding texts
texts_of [] = refl
texts_of (t ∷ ts) = rw (texts_of ts) refl

strings_of : (ids : List Text) → string_list (list (strings_value ids)) ≡ some ids
unfolding list
strings_of ids = texts_of ids

check_ids_iff : (ids : List Text) → (check_ids ids ≡ ok tt) ↔ IsCanonical ids
check_ids_iff ids = iff_trans (sorted_strings_iff (strings_value ids)) (
  (λ (xs, (e, c)). let equal : xs ≡ ids = cc (strings_of ids) in subst IsCanonical equal c),
  λ c. (ids, (strings_of ids, c)),
)

-- The fixed findings are the expected ones, and each is accepted or resolved.
abbrev pub IsFixed : List Text → List FindingRound → Type 0
IsFixed expected rounds =
    (utf16_sorted (ids_of (fixed_rounds expected rounds)) ≡ ok expected)
    × All (λ (t : FindingRound). OneOf t.status (map lit ("Accepted-Residual" ∷ "Resolved" ∷ [])))
        (fixed_rounds expected rounds)

check_fixed_iff :
    (expected : List Text) (rounds : List FindingRound)
    → (check_fixed expected rounds ≡ ok tt) ↔ IsFixed expected rounds
unfolding check_fixed
check_fixed_iff expected rounds =
    iff_trans
      (bind_iff (utf16_sorted (ids_of (fixed_rounds expected rounds))) _
        (self_iff (utf16_sorted (ids_of (fixed_rounds expected rounds))))
        λ ids. then_iff _ _ (iff_trans (require_iff _ _) (same_texts_iff ids expected)) (
          iff_trans (require_iff _ _)
            (all_iff is_settled (λ t. is_one_of_iff t.status _) (fixed_rounds expected rounds))))
      (λ (ids, e, (s, h)). (e ∙ ap ok s, h), λ (e, h). (expected, e, (refl, h)))

-- An attestation names the findings and the accepted residuals of the ledger.
abbrev pub IsAttested : Option Fields → List FindingRound → Type 0
IsAttested none rounds = Unit
IsAttested (some a) rounds =
    Has a (lit "finding_ids") (Same (strings_value (ids_of rounds)))
    × Has a (lit "accepted_residual_ids") (Same (strings_value (ids_of (accepted_rounds rounds))))

check_attested_iff :
    (attestation : Option Fields) (rounds : List FindingRound)
    → (check_attested attestation rounds ≡ ok tt) ↔ IsAttested attestation rounds
unfolding check_attested
check_attested_iff none rounds = (λ h. tt, λ h. refl)
check_attested_iff (some a) rounds =
    then_iff _ _ (require_equal_iff a _ _ _) (require_equal_iff a _ _ _)

abbrev pub AreFindings : Platform → Reader → Context → Option Fields → List Value → Type 0
AreFindings p r x attestation findings =
    (rounds : List FindingRound) × Pointwise (IsRound p r x) findings rounds
    × (IsCanonical (ids_of rounds)
        × (IsFixed (expected_residual_ids x.target_type) rounds × IsAttested attestation rounds))

pub check_findings_iff :
    (p : Platform) (r : Reader) (x : Context) (attestation : Option Fields) (findings : List Value)
    → (check_findings p r x attestation findings ≡ ok tt) ↔ AreFindings p r x attestation findings
unfolding check_findings
check_findings_iff p r x attestation findings =
    bind_iff (traverse (check_finding p r x) findings) _
      (traverse_iff (IsRound p r x) (check_finding p r x) (check_finding_iff p r x) findings)
      λ rounds. then_iff _ _ (check_ids_iff (ids_of rounds)) (
        then_iff _ _ (check_fixed_iff (expected_residual_ids x.target_type) rounds)
          (check_attested_iff attestation rounds))
