-- ===== src/Evidence/Ledger/Target.antt =====
-- What `derive_evidence_target_type` of scripts/validate_governance_state.py asks of an activation
-- binding and of the evidence root.
use qing_yin.Prelude.{
  Bool, Option, ap, false, if◌then◌else◌, inl, inr, none, ok, refl, require, same_iff, some, true,
  ◌>>=◌, ◌>>◌, ◌↔◌, ◌∙◌, ◌≡◌, ◌⊎◌,
}
use qing_yin.Prelude.Int.{pos}
use qing_yin.Prelude.Checks.{bind_iff, iff_trans, ok_iff, require_iff, then_iff}
use qing_yin.Text.{Text, lit}
use qing_yin.Json.{Fields, Value, get_or_null, int, is_text, item, null, obj, str}
use qing_yin.Json.Equality.{eq_value}
use qing_yin.Shape.{dict, some_or_fail}
use qing_yin.Shape.Digests.{Has, HasText, is_null_iff, is_text_iff, item_iff, some_dict_iff}
use qing_yin.Evidence.Access.Read.{Same, require_equal_iff}
use qing_yin.Evidence.Attestation.Accepted.{IsPositive, positive_iff}
use qing_yin.Evidence.Ledger.{
  authorized_target, derive_evidence_target_type, expected_governance_pr,
  require_governance_bootstrap_base, source_commit, unauthorized_target,
}

-- the pull request of the governance bootstrap
abbrev pub bootstrap_number : Value
bootstrap_number = int (pos expected_governance_pr)

-- Without an authorized type, the pull request of the bootstrap stands on the frozen source commit,
-- and every other one is ordinary.
abbrev pub IsUnauthorized : Fields → Text → Type 0
IsUnauthorized root target = Has root (lit "pr_number") (λ given.
    ((eq_value given bootstrap_number ≡ true)
      × (HasText root (lit "base_sha") source_commit × (lit "governance-bootstrap" ≡ target)))
    ⊎ ((eq_value given bootstrap_number ≡ false) × (lit "ordinary" ≡ target)))

-- The binding names the pull request, the head and the tree of the root.
abbrev pub IsAuthorized : Fields → Value → Type 0
IsAuthorized root v =
    (binding : Fields) × (v ≡ obj binding)
    × (IsPositive (get_or_null (lit "activation_evidence_pr") binding)
        × (Has root (lit "pr_number") (Same (get_or_null (lit "activation_evidence_pr") binding))
            × (Has root (lit "candidate_head")
                  (Same (get_or_null (lit "activation_candidate_head") binding))
                × Has root (lit "candidate_tree")
                    (Same (get_or_null (lit "activation_candidate_tree") binding)))))

authorized_target_iff :
    (root : Fields) (v : Value) → (authorized_target root v ≡ ok tt) ↔ IsAuthorized root v
unfolding authorized_target
authorized_target_iff root v = bind_iff (some_or_fail (dict v) _) _ (some_dict_iff v _) λ b.
    then_iff _ _ (positive_iff (get_or_null (lit "activation_evidence_pr") b)) (
      then_iff _ _ (require_equal_iff root _ _ _)
        (then_iff _ _ (require_equal_iff root _ _ _) (require_equal_iff root _ _ _)))

-- the two targets of an unauthorized root
unauthorized_target_iff :
    (root : Fields) (target : Text)
    → (unauthorized_target root ≡ ok target) ↔ IsUnauthorized root target
unfolding unauthorized_target require_governance_bootstrap_base
unauthorized_target_iff root target =
    bind_iff (item (lit "pr_number") root) _ (item_iff (lit "pr_number") root)
      λ given. go given (eq_value given bootstrap_number)
  where
    bootstrap_iff :
        ((do
          base_sha ← item (lit "base_sha") root
          require
              (is_text source_commit base_sha)
              "governance bootstrap base must equal frozen source commit"
          ok (lit "governance-bootstrap"))
          ≡ ok target)
        ↔ (HasText root (lit "base_sha") source_commit × (lit "governance-bootstrap" ≡ target))
    bootstrap_iff =
        iff_trans
          (bind_iff (item (lit "base_sha") root) _ (item_iff (lit "base_sha") root) λ base.
            then_iff _ _ (iff_trans (require_iff _ _) (is_text_iff source_commit base))
              (ok_iff (lit "governance-bootstrap") target))
          (λ (base, e, (f, k)). (e ∙ ap some f, k), λ (e, k). (str source_commit, e, (refl, k)))

    go :
        (given : Value) (b : Bool)
        → ((if b
              then (do
                base_sha ← item (lit "base_sha") root
                require
                    (is_text source_commit base_sha)
                    "governance bootstrap base must equal frozen source commit"
                ok (lit "governance-bootstrap"))
              else ok (lit "ordinary"))
            ≡ ok target)
          ↔ (((b ≡ true)
                × (HasText root (lit "base_sha") source_commit
                    × (lit "governance-bootstrap" ≡ target)))
              ⊎ ((b ≡ false) × (lit "ordinary" ≡ target)))
    go given true = (
      λ h. inl (refl, bootstrap_iff.0 h),
      λ s. elim s [ inl p ↦ bootstrap_iff.1 p.1 | inr p ↦ absurd (cc (p.0)) ],
    )
    go given false = (
      λ h. inr (refl, (ok_iff (lit "ordinary") target).0 h),
      λ s. elim s [ inl p ↦ absurd (cc (p.0)) | inr p ↦ (ok_iff (lit "ordinary") target).1 p.1 ],
    )

-- The root's target: without an authorized type the package has no binding, and with one it is the
-- activation evidence, and the binding fits the root.
abbrev pub HasTarget : Fields → Value → Option Text → Text → Type 0
HasTarget root binding none target = (binding ≡ null) × IsUnauthorized root target
HasTarget root binding (some authorized) target =
    (authorized ≡ lit "activation-evidence") × (IsAuthorized root binding × (authorized ≡ target))

-- A target type is derived exactly when the package has a field for the activation binding, and
-- either no type is authorized, that field is null, and the target is the governance bootstrap for
-- the bootstrap's pull request on the frozen source commit and ordinary for another one, or the
-- activation evidence is authorized and is the target, and the binding is an object with a positive
-- safe number of the pull request, whose number, head and tree are those of the root.
pub derive_evidence_target_type_iff :
    (evidence root : Fields) (authorized : Option Text) (target : Text)
    → (derive_evidence_target_type evidence root authorized ≡ ok target)
      ↔ Has evidence (lit "activation_binding") (λ v. HasTarget root v authorized target)
unfolding derive_evidence_target_type
derive_evidence_target_type_iff evidence root none target =
    bind_iff (item (lit "activation_binding") evidence) _
      (item_iff (lit "activation_binding") evidence)
      λ v.
        then_iff _ _ (iff_trans (require_iff _ _) (is_null_iff v))
          (unauthorized_target_iff root target)
derive_evidence_target_type_iff evidence root (some authorized) target =
    iff_trans
      (then_iff _ _ (iff_trans (require_iff _ _) (same_iff authorized (lit "activation-evidence")))
        (bind_iff (item (lit "activation_binding") evidence) _
          (item_iff (lit "activation_binding") evidence)
          λ v. then_iff _ _ (authorized_target_iff root v) (ok_iff authorized target)))
      (λ (k, (v, e, p)). (v, e, (k, p)), λ (v, e, (k, p)). (k, (v, e, p)))
