-- ===== src/Evidence/Attestation/Documents.antt =====
-- The documents that `validate_pre_attestation_v1` and `validate_attestation_v1` accept.
use qing_yin.Prelude.{
  All, List, Option, [], ap, false, map, none, ok, refl, some, true, ℕ, ◌↔◌, ◌∙◌, ◌∷◌, ◌≡◌,
}
use qing_yin.Prelude.Checks.{bind_iff, each_iff, iff_trans, require_iff, then_iff}
use qing_yin.Text.{Text, lit}
use qing_yin.Json.{Fields, Items, Value, arr, boolean, cons, elements, is_true, nil, str}
use qing_yin.Shape.{
  list, require_exact_object, require_sha256, require_sorted_unique_strings, string_list, text,
  texts,
}
use qing_yin.Shape.Digests.{
  Document, Has, HasText, IsHex, require_exact_object_iff, require_sha256_iff,
}
use qing_yin.Shape.Named.{NamedDigests, validate_named_digests_iff}
use qing_yin.Evidence.Inventory.{pre_attestation_components}
use qing_yin.Evidence.Attestation.{
  attestation_claims, attestation_identity, attestation_keys, denies_production, is_empty,
  no_unknowns, positive, pre_attestation_keys, require_item, rollback_given, sorted_strings,
  validate_attestation_v1, validate_pre_attestation_v1,
}
use qing_yin.Evidence.Attestation.Accepted.{
  HasCandidate, IsPositive, IsSortedStrings, IsTimestamp, positive_iff, require_candidate_iff,
  require_item_iff, require_text_iff, require_utc_timestamp_iff, sorted_strings_iff,
}
use qing_yin.Timestamp.{require_utc_timestamp}
use qing_yin.Shape.Strings.{IsCanonical-nil, require_sorted_unique_strings_iff}

abbrev pub IsPreAttestation : Value → Type 0
IsPreAttestation = Document pre_attestation_keys λ d.
    HasText d (lit "schema") (lit "gvn-pre-attestation-v1")
    × (HasText d (lit "repository") (lit "ZhangIvan/QingYin")
        × (Has d (lit "pr_number") IsPositive
            × (HasCandidate d
                × (Has d (lit "snapshot_cutoff_utc") IsTimestamp
                    × Has d (lit "component_digests") (NamedDigests pre_attestation_components)))))

-- A pre-attestation is accepted exactly when it is an object of the expected keys, for this
-- repository, with a positive safe PR number, three Git SHAs, a timestamp, and one digest for each
-- component of PRE_ATTESTATION_COMPONENTS in its order.
pub validate_pre_attestation_v1_iff :
    (v : Value) → (validate_pre_attestation_v1 v ≡ ok tt) ↔ IsPreAttestation v
unfolding validate_pre_attestation_v1
validate_pre_attestation_v1_iff v =
    bind_iff (require_exact_object v pre_attestation_keys) _
      (require_exact_object_iff v pre_attestation_keys)
      λ d. then_iff _ _ (require_text_iff d _ _ _) (
        then_iff _ _ (require_text_iff d _ _ _) (
          then_iff _ _ (require_item_iff d positive _ positive_iff) (
            then_iff _ _ (require_candidate_iff d) (
              then_iff _ _ (require_item_iff d require_utc_timestamp _ require_utc_timestamp_iff) (
                require_item_iff d _ _
                  λ w. validate_named_digests_iff w pre_attestation_components)))))

texts_nil : (vs : List Value) → texts vs ≡ some [] → vs ≡ []
unfolding texts
texts_nil [] h = refl
texts_nil (str s ∷ vs) h = absurd (cons_not_nil (texts vs) h)
  where
    cons_not_nil :
        (o : Option (List Text))
        → Path (Option (List Text)) (elim o [ none ↦ none | some ss ↦ some (s ∷ ss) ]) (some [])
        → ⊥
    cons_not_nil none e = cc
    cons_not_nil (some ss) e = cc
texts_nil (_ ∷ vs) h = cc

elements_nil : (vs : Items) → elements vs ≡ [] → vs ≡ nil
elements_nil nil h = refl
elements_nil (cons v vs) h = cc

no_strings : (v : Value) → string_list (list v) ≡ some [] → v ≡ arr nil
unfolding list
no_strings (arr vs) h = ap arr (elements_nil vs (texts_nil (elements vs) h))
no_strings _ h = cc

no_unknowns_iff : (v : Value) → (no_unknowns v ≡ ok tt) ↔ (v ≡ arr nil)
unfolding texts
no_unknowns_iff v =
    iff_trans
      (bind_iff (require_sorted_unique_strings v) _ (require_sorted_unique_strings_iff v)
        λ xs. require_iff (is_empty xs) _)
      (
        (λ (xs, (e, c), h). no_strings v (e ∙ ap some (empty xs h))),
        λ e.
            ([], (ap (λ w. string_list (list w)) e ∙ (unfold list in refl), IsCanonical-nil), refl),
      )
  where
    empty : (xs : List Text) → is_empty xs ≡ true → xs ≡ []
    empty [] h = refl
    empty (x ∷ xs) h = cc

-- a string with at least one character
abbrev pub IsNonempty : Value → Type 0
IsNonempty v = (c : ℕ) × (cs : Text) × (v ≡ str (c ∷ cs))

rollback_given_iff : (v : Value) → (rollback_given v ≡ ok tt) ↔ IsNonempty v
unfolding text
rollback_given_iff (str []) = (λ h. cc, λ (c, cs, e). cc)
rollback_given_iff (str (x ∷ xs)) = (λ h. (x, xs, refl), λ e. refl)
rollback_given_iff _ = (λ h. cc, λ (c, cs, e). cc)

denies_production_iff : (v : Value) → (denies_production v ≡ ok tt) ↔ (v ≡ boolean true)
unfolding is_true
denies_production_iff (boolean true) = (λ h. refl, λ h. refl)
denies_production_iff (boolean false) = (λ h. cc, λ h. cc)
denies_production_iff _ = (λ h. cc, λ h. cc)

abbrev pub IsIdentity : Fields → Type 0
IsIdentity d =
    HasText d (lit "schema") (lit "gvn-attestation-v1")
    × (HasText d (lit "repository") (lit "ZhangIvan/QingYin")
        × (Has d (lit "pr_number") IsPositive
            × (HasCandidate d
                × (HasText d (lit "attestor_login") (lit "ZhangIvan")
                    × (Has d (lit "attestor_id") IsPositive
                        × (All (λ k. Has d k (IsHex 64))
                              (map lit (
                                "changed_paths_sha256" ∷ "pull_body_sha256"
                                ∷ "pre_attestation_sha256" ∷ []))
                            × HasText d (lit "risk_class") (lit "CR3")))))))

abbrev pub IsClaims : Fields → Type 0
IsClaims d =
    All (λ k. Has d k IsSortedStrings) (map lit ("finding_ids" ∷ "accepted_residual_ids" ∷ []))
    × (All (λ k. HasText d k (lit "VERIFIED"))
          (map lit ("checks_status" ∷ "reviews_status" ∷ "trusted_control_status" ∷ []))
        × (Has d (lit "unknowns") (λ v. v ≡ arr nil)
            × (Has d (lit "rollback") IsNonempty
                × Has d (lit "no_production_authorization") (λ v. v ≡ boolean true))))

attestation_identity_iff : (d : Fields) → (attestation_identity d ≡ ok tt) ↔ IsIdentity d
unfolding attestation_identity
attestation_identity_iff d = then_iff _ _ (require_text_iff d _ _ _) (
    then_iff _ _ (require_text_iff d _ _ _) (
      then_iff _ _ (require_item_iff d positive _ positive_iff) (
        then_iff _ _ (require_candidate_iff d) (
          then_iff _ _ (require_text_iff d _ _ _) (
            then_iff _ _ (require_item_iff d positive _ positive_iff) (
              then_iff _ _
                (each_iff (require_item d require_sha256)
                  (λ k. require_item_iff d require_sha256 k require_sha256_iff) _)
                (require_text_iff d _ _ _)))))))

attestation_claims_iff : (d : Fields) → (attestation_claims d ≡ ok tt) ↔ IsClaims d
unfolding attestation_claims
attestation_claims_iff d =
    then_iff _ _
      (each_iff (require_item d sorted_strings)
        (λ k. require_item_iff d sorted_strings k sorted_strings_iff) _)
      (then_iff _ _ (each_iff _ (λ k. require_text_iff d k (lit "VERIFIED") _) _) (
        then_iff _ _ (require_item_iff d no_unknowns _ no_unknowns_iff) (
          then_iff _ _ (require_item_iff d rollback_given _ rollback_given_iff)
            (require_item_iff d denies_production _ denies_production_iff))))

-- An attestation is accepted exactly when it is an object of the expected keys whose identity fields
-- are as required, whose three statuses are VERIFIED, which has no unknowns, names a rollback and
-- denies production authorization.
pub validate_attestation_v1_iff :
    (v : Value)
    → (validate_attestation_v1 v ≡ ok tt)
      ↔ Document attestation_keys (λ d. IsIdentity d × IsClaims d) v
unfolding validate_attestation_v1
validate_attestation_v1_iff v =
    bind_iff (require_exact_object v attestation_keys) _
      (require_exact_object_iff v attestation_keys)
      λ d. then_iff _ _ (attestation_identity_iff d) (attestation_claims_iff d)
