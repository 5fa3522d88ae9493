-- ===== src/Evidence/Manifest/Phases.antt =====
-- The manifests that `validate_manifest_v1` accepts.
use qing_yin.Prelude.{
  List, ap, inl, inr, ok, refl, same, some, subst, sym, true, ◌↔◌, ◌∙◌, ◌≡◌, ◌≢◌, ◌⊎◌,
}
use qing_yin.Prelude.Checks.{bind_iff, branch_iff, iff_trans, ok_iff, require_iff, then_iff}
use qing_yin.Text.{Text, lit}
use qing_yin.Json.{Fields, Value, get, is_null, is_text, item, null, str}
use qing_yin.Shape.{require_exact_object}
use qing_yin.Shape.Digests.{
  Document, Has, HasText, IsHex, is_null_iff, is_text_iff, item_iff, require_exact_object_iff,
  require_sha1_iff,
}
use qing_yin.Evidence.Inventory.{post_merge_components, stable_components}
use qing_yin.Evidence.Manifest.{manifest_keys, phase_components, phases, validate_manifest_v1}
use qing_yin.Timestamp.{require_utc_timestamp}
use qing_yin.Shape.Named.{NamedDigests, validate_named_digests_iff}
use qing_yin.Evidence.Request.{is_one_of}
use qing_yin.Evidence.Attestation.{positive}
use qing_yin.Evidence.Attestation.Accepted.{
  HasCandidate, IsPositive, IsTimestamp, positive_iff, require_candidate_iff, require_item_iff,
  require_text_iff, require_utc_timestamp_iff,
}

abbrev pub post_merge : Value
post_merge = str (lit "post-merge")

-- the components that a phase has, and what its merge commit is
abbrev PhaseOf : Value → Value → List Text → Type 0
PhaseOf phase merge components =
    ((phase ≡ post_merge) × (IsHex 40 merge × (post_merge_components ≡ components)))
    ⊎ ((phase ≢ post_merge) × ((merge ≡ null) × (stable_components ≡ components)))

phase_components_iff :
    (phase merge : Value) (components : List Text)
    → (phase_components phase merge ≡ ok components) ↔ PhaseOf phase merge components
unfolding phase_components
phase_components_iff phase merge components =
    branch_iff (is_text (lit "post-merge") phase) _ _ (is_text_iff (lit "post-merge") phase)
      (then_iff _ _ (require_sha1_iff merge) (ok_iff post_merge_components components))
      (then_iff _ _ (iff_trans (require_iff (is_null merge) _) (is_null_iff merge))
        (ok_iff stable_components components))

-- the fields that every phase has
abbrev pub IsManifest : Fields → Type 0
IsManifest d =
    HasText d (lit "schema") (lit "gvn-manifest-v1")
    × HasText d (lit "repository") (lit "ZhangIvan/QingYin")
    × Has d (lit "pr_number") IsPositive
    × HasCandidate d
    × Has d (lit "snapshot_cutoff_utc") IsTimestamp

-- before the merge: no merge commit, and the digests of the stable components
abbrev pub IsPreMerge : Fields → Type 0
IsPreMerge d =
    Has d (lit "phase") (λ v. (is_one_of v phases ≡ true) × (v ≢ post_merge))
    × (get (lit "effective_merge_sha") d ≡ some null)
    × Has d (lit "component_digests") (NamedDigests stable_components)

-- after it: a merge commit, and the digests of the merge as well
abbrev pub IsPostMerge : Fields → Type 0
IsPostMerge d =
    HasText d (lit "phase") (lit "post-merge")
    × Has d (lit "effective_merge_sha") (IsHex 40)
    × Has d (lit "component_digests") (NamedDigests post_merge_components)

post_merge_phase : is_one_of post_merge phases ≡ true
unfolding is_one_of is_text lit same
post_merge_phase = refl

-- A manifest is accepted exactly when it is an object of the expected keys with the common fields
-- and is a manifest of one of the phases before the merge or of the phase after it.
pub validate_manifest_v1_iff :
    (v : Value)
    → (validate_manifest_v1 v ≡ ok tt)
      ↔ Document manifest_keys (λ d. IsManifest d × (IsPreMerge d ⊎ IsPostMerge d)) v
unfolding validate_manifest_v1
validate_manifest_v1_iff v =
    bind_iff (require_exact_object v manifest_keys) _ (require_exact_object_iff v manifest_keys)
      λ d.
        iff_trans
          (then_iff _ _ (require_text_iff d _ _ _) (
            bind_iff (item (lit "phase") d) _ (item_iff (lit "phase") d) λ phase.
              then_iff _ _ (require_iff (is_one_of phase phases) _) (
                then_iff _ _ (require_text_iff d _ _ _) (
                  then_iff _ _ (require_item_iff d positive _ positive_iff) (
                    then_iff _ _ (require_candidate_iff d) (
                      then_iff _ _
                        (require_item_iff d require_utc_timestamp _ require_utc_timestamp_iff)
                        (bind_iff (item (lit "effective_merge_sha") d) _
                          (item_iff (lit "effective_merge_sha") d)
                          λ merge.
                            bind_iff (phase_components phase merge) _
                              (phase_components_iff phase merge)
                              λ names.
                                require_item_iff d _ _
                                  λ w. validate_named_digests_iff w names)))))))
          (regroup d)
  where
    regroup :
        (d : Fields)
        → (HasText d (lit "schema") (lit "gvn-manifest-v1")
            × Has d (lit "phase") λ phase.
              (is_one_of phase phases ≡ true)
              × (HasText d (lit "repository") (lit "ZhangIvan/QingYin")
                  × (Has d (lit "pr_number") IsPositive
                      × (HasCandidate d
                          × (Has d (lit "snapshot_cutoff_utc") IsTimestamp
                              × Has d (lit "effective_merge_sha") λ merge.
                                (names : List Text) × PhaseOf phase merge names
                                × Has d (lit "component_digests") (NamedDigests names))))))
          ↔ (IsManifest d × (IsPreMerge d ⊎ IsPostMerge d))
    regroup d = (
      λ (
        schema,
        (
          phase,
          ep,
          (one, (repository, (pr, (candidate, (cutoff, (merge, em, (names, branch, digests))))))),
        ),
      ).
          (
            (schema, repository, pr, candidate, cutoff),
            elim branch [
              | inl x ↦ inr (
                ep ∙ ap some x.0,
                (merge, em, x.1.0),
                subst (λ n. Has d (lit "component_digests") (NamedDigests n)) (sym x.1.1) digests,
              )
              | inr x ↦ inl (
                (phase, ep, (one, x.0)),
                em ∙ ap some x.1.0,
                subst (λ n. Has d (lit "component_digests") (NamedDigests n)) (sym x.1.1) digests,
              )
            ],
          ),
      λ ((schema, repository, pr, candidate, cutoff), s). elim s [
        | inl x ↦ (
          schema,
          (
            x.0.0,
            x.0.1,
            (
              x.0.2.0,
              (
                repository,
                (
                  pr,
                  (
                    candidate,
                    (cutoff, (null, x.1, (stable_components, inr (x.0.2.1, (refl, refl)), x.2))),
                  ),
                ),
              ),
            ),
          ),
        )
        | inr x ↦ (
          schema,
          (
            post_merge,
            x.0,
            (
              post_merge_phase,
              (
                repository,
                (
                  pr,
                  (
                    candidate,
                    (
                      cutoff,
                      (x.1.0, x.1.1, (post_merge_components, inl (refl, (x.1.2, refl)), x.2)),
                    ),
                  ),
                ),
              ),
            ),
          ),
        )
      ],
    )
