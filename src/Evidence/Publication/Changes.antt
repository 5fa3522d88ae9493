-- ===== src/Evidence/Publication/Changes.antt =====
-- What the publication of the attestation may change: the form of the delta, the components, and the
-- pull request as both endpoints give it.
use qing_yin.Prelude.{
  All, List, Result, String, [], contains, each, if◌then◌else◌, map, ok, refl, some, subst, true,
  ◌↔◌, ◌∷◌, ◌≡◌, ◌⊎◌,
}
use qing_yin.Prelude.Checks.{bind_iff, branch_iff, each_iff, iff_trans, ok_iff, then_iff}
use qing_yin.Text.{Text, lit}
use qing_yin.Platform.{Platform}
use qing_yin.Json.{Fields, Value, get, get_or_null, keys, obj}
use qing_yin.Timestamp.{require_utc_timestamp}
use qing_yin.Shape.{require_exact_object, same_set}
use qing_yin.Shape.Digests.{Has, HasText, require_exact_object_iff}
use qing_yin.Evidence.Access.{Bundles, add_one, bundle_of, nonnegative}
use qing_yin.Evidence.Access.Read.{
  IsNonnegative, Same, SameAt, SameForm, nonnegative_iff, require_same_form_iff,
  require_unchanged_iff,
}
use qing_yin.Evidence.Attestation.{positive, require_item}
use qing_yin.Evidence.Attestation.Accepted.{
  IsPositive, IsTimestamp, positive_iff, require_item_iff, require_text_iff,
  require_utc_timestamp_iff,
}
use qing_yin.Evidence.Inventory.{pre_attestation_components}
use qing_yin.Evidence.Bundle.{Reader}
use qing_yin.Evidence.Responses.{response_value}
use qing_yin.Evidence.Publication.Delta.{
  changeable_components, check_component, check_delta, check_key, delta_keys,
}

abbrev pub IsDelta : Fields → Type 0
IsDelta d =
    HasText d (lit "schema") (lit "gvn-publication-delta-v1")
    × (Has d (lit "attestation_comment_id") IsPositive
        × (All (λ k. Has d k IsTimestamp)
              (map lit (
                "attestation_comment_created_at" ∷ "attestation_comment_updated_at"
                ∷ "pull_updated_at_before" ∷ "pull_updated_at_after" ∷ []))
            × All (λ k. Has d k IsNonnegative)
                (map lit ("pull_comments_before" ∷ "pull_comments_after" ∷ []))))

pub check_delta_iff :
    (v : Value) (d : Fields)
    → (check_delta v ≡ ok d) ↔ (((v ≡ obj d) × (same_set (keys d) delta_keys ≡ true)) × IsDelta d)
unfolding check_delta
check_delta_iff v d =
    iff_trans
      (bind_iff (require_exact_object v delta_keys) _ (require_exact_object_iff v delta_keys) λ e.
        then_iff _ _ (require_text_iff e _ _ _) (
          then_iff _ _ (require_item_iff e positive _ positive_iff) (
            then_iff _ _
              (each_iff (require_item e require_utc_timestamp)
                (λ k. require_item_iff e require_utc_timestamp k require_utc_timestamp_iff) _)
              (then_iff _ _
                (each_iff (require_item e nonnegative)
                  (λ k. require_item_iff e nonnegative k nonnegative_iff) _)
                (ok_iff e d)))))
      (
        λ (e, shape, (s, (i, (t, (n, same_delta))))).
            subst (λ x. ((v ≡ obj x) × (same_set (keys x) delta_keys ≡ true)) × IsDelta x)
              same_delta (shape, (s, (i, (t, n)))),
        λ (shape, (s, (i, (t, n)))). (d, shape, (s, (i, (t, (n, refl))))),
      )

-- a test that lets a key or a component pass, or what has to hold of the others
abbrev pub Unless : List Text → Text → Type 0 → Type 0
Unless exempt k P = ((contains k exempt ≡ true) × Unit {0}) ⊎ (((contains k exempt ≡ true) → ⊥) × P)

pub unless_iff :
    (exempt : List Text) (k : Text) (check : Result (Unit {0})) {P : Type 0}
    → (check ≡ ok tt) ↔ P
    → ((if contains k exempt then ok tt else check) ≡ ok tt) ↔ Unless exempt k P
unless_iff exempt k check f =
    branch_iff (contains k exempt) (ok tt) check (λ h. h, λ h. h) (λ h. tt, λ u. refl) f

-- the component's bundle is the same in both snapshots, up to its canonical form
abbrev pub IsUntouched : Platform → Bundles → Bundles → Text → Type 0
IsUntouched p pre snapshot c =
    (before : Fields) × (bundle_of c pre ≡ ok before)
    × ((after : Fields) × (bundle_of c snapshot ≡ ok after) × SameForm p (obj before) (obj after))

check_component_iff :
    (p : Platform) (pre snapshot : Bundles) (c : Text)
    → (check_component p pre snapshot c ≡ ok tt)
      ↔ Unless changeable_components c (IsUntouched p pre snapshot c)
unfolding check_component
check_component_iff p pre snapshot c = unless_iff changeable_components c _ (
    bind_iff (bundle_of c pre) _ (λ b. (λ h. h, λ h. h))
      λ before.
        bind_iff (bundle_of c snapshot) _ (λ b. (λ h. h, λ h. h))
          λ after. require_same_form_iff p (obj before) (obj after) _)

abbrev pub OnlyComponentsChange : Platform → Bundles → Bundles → Type 0
OnlyComponentsChange p pre snapshot =
    All (λ c. Unless changeable_components c (IsUntouched p pre snapshot c))
      pre_attestation_components

pub components_iff :
    (p : Platform) (pre snapshot : Bundles)
    → (each (check_component p pre snapshot) pre_attestation_components ≡ ok tt)
      ↔ OnlyComponentsChange p pre snapshot
components_iff p pre snapshot =
    each_iff (check_component p pre snapshot) (check_component_iff p pre snapshot)
      pre_attestation_components

-- the objects have the same keys, and differ at the given ones at most
abbrev pub OnlyKeysChange : List Text → Fields → Fields → Type 0
OnlyKeysChange exempt before after =
    All (λ k. Unless exempt k (SameAt before after k)) (keys before)

pub keys_iff :
    (exempt : List Text) (before after : Fields)
    → (each (check_key exempt before after) (keys before) ≡ ok tt)
      ↔ OnlyKeysChange exempt before after
unfolding check_key
keys_iff exempt before after =
    each_iff (check_key exempt before after)
      (λ k. unless_iff exempt k _ (require_unchanged_iff before after _ k)) (keys before)

-- the value of a response of a bundle
abbrev pub Responds : Platform → Reader → Bundles → String → String → Value → Type 0
Responds p r bundles c label v =
    (bundle : Fields) × (bundle_of (lit c) bundles ≡ ok bundle)
    × (response_value p r bundle (lit label) ≡ ok v)

abbrev pub Counts : Fields → Type 0
Counts d =
    (after : Value) × (get (lit "pull_comments_after") d ≡ some after)
    × ((before : Value) × (get (lit "pull_comments_before") d ≡ some before)
        × ((next : Value) × (add_one before ≡ ok next) × Same after next))

-- both snapshots have the pull request, which differs in its update time and its count of comments,
-- and the delta has these
abbrev pub PullChanges : Fields → Fields → Fields → Type 0
PullChanges d before after =
    (same_set (keys before) (keys after) ≡ true)
    × (IsPositive (get_or_null (lit "number") before)
        × (IsPositive (get_or_null (lit "number") after)
            × (IsNonnegative (get_or_null (lit "comments") before)
                × (IsNonnegative (get_or_null (lit "comments") after)
                    × (OnlyKeysChange (lit "updated_at" ∷ lit "comments" ∷ []) before after
                        × (Has d (lit "pull_updated_at_before")
                              (Same (get_or_null (lit "updated_at") before))
                            × (Has d (lit "pull_updated_at_after")
                                  (Same (get_or_null (lit "updated_at") after))
                                × (Has d (lit "pull_comments_before")
                                      (Same (get_or_null (lit "comments") before))
                                    × (Has d (lit "pull_comments_after")
                                          (Same (get_or_null (lit "comments") after))
                                        × Counts d)))))))))
