-- ===== src/Evidence/Sequence/Merged.antt =====
-- What `validate_evidence_sequence` of scripts/validate_governance_state.py asks of the
-- snapshot behind the merge.
use qing_yin.Prelude.{All, List, ap, ok, refl, some, subst, take, true, ◌↔◌, ◌∙◌, ◌≡◌}
use qing_yin.Prelude.Checks.{
  and_iff, bind_iff, each_iff, iff_trans, ok_iff, require_iff, self_iff, then_iff,
}
use qing_yin.Text.{lit}
use qing_yin.Platform.{Platform}
use qing_yin.Json.{Fields, Value, arr, item, obj, of_elements, str}
use qing_yin.Json.Equality.{eq_value}
use qing_yin.Timestamp.{Stamp}
use qing_yin.Timestamp.Order.{no_later}
use qing_yin.Timestamp.Printing.{IsStamp, print_stamp}
use qing_yin.Shape.{dict, list, some_or_fail, some_or_raise}
use qing_yin.Shape.Digests.{Has, HasText, HasText-of_get_or_null, item_iff, some_dict_iff}
use qing_yin.Evidence.Access.{earlier, strptime, subscript}
use qing_yin.Evidence.Access.Read.{
  At, Same, SameForm, require_same_form_iff, some_or_raise_iff, strptime_iff, subscript_iff,
}
use qing_yin.Evidence.Bundle.{Reader}
use qing_yin.Evidence.Responses.{response_value}
use qing_yin.Evidence.Sequence.{
  check_common, check_merged, common_part, constant_fields, last_of_values, manifest_item,
  merge_bundle_of, require_same_item, snapshot_cutoff, stable_count,
}
use qing_yin.Evidence.Sequence.Window.{
  ManifestAt, SameItem, TakenAt, manifest_item_iff, require_same_item_iff, snapshot_cutoff_iff,
}

-- the part of an array that both phases have
abbrev pub IsCommonPart : Value → Value → Type 0
IsCommonPart v w =
    (values : List Value) × (list v ≡ some values)
    × (arr (of_elements (take stable_count values)) ≡ w)

common_part_iff : (v w : Value) → (common_part v ≡ ok w) ↔ IsCommonPart v w
unfolding common_part
common_part_iff v w =
    bind_iff (some_or_raise (list v) "TypeError") _ (some_or_raise_iff (list v) "TypeError")
      λ values. ok_iff (arr (of_elements (take stable_count values))) w

-- The evidence behind the merge is that of the window's end but for the merge bundle.
abbrev pub KeepsCommon : Platform → Fields → Fields → Type 0
KeepsCommon p end_ post =
    All (SameItem p end_ post) constant_fields
    × Has post (lit "snapshot_endpoint_bundles") (λ bundles.
      (common : Value) × IsCommonPart bundles common
      × Has end_ (lit "snapshot_endpoint_bundles") (λ stable.
        SameForm p common stable
        × ((digests : Value) × ManifestAt (lit "component_digests") post digests
            × ((common_digests : Value) × IsCommonPart digests common_digests
                × ((stable_digests : Value) × ManifestAt (lit "component_digests") end_
                      stable_digests
                    × Same common_digests stable_digests)))))

pub check_common_iff :
    (p : Platform) (end_ post : Fields)
    → (check_common p end_ post ≡ ok tt) ↔ KeepsCommon p end_ post
unfolding check_common
check_common_iff p end_ post =
    then_iff _ _
      (each_iff (require_same_item p end_ post _) (λ k. require_same_item_iff p end_ post _ k)
        constant_fields)
      (bind_iff (item (lit "snapshot_endpoint_bundles") post) _
        (item_iff (lit "snapshot_endpoint_bundles") post)
        λ bundles. bind_iff (common_part bundles) _ (common_part_iff bundles) λ common.
          bind_iff (item (lit "snapshot_endpoint_bundles") end_) _
            (item_iff (lit "snapshot_endpoint_bundles") end_)
            λ stable. then_iff _ _ (require_same_form_iff p common stable _) (
              bind_iff (manifest_item (lit "component_digests") post) _
                (manifest_item_iff (lit "component_digests") post)
                λ digests. bind_iff (common_part digests) _ (common_part_iff digests) λ c.
                  bind_iff (manifest_item (lit "component_digests") end_) _
                    (manifest_item_iff (lit "component_digests") end_)
                    λ d. require_iff (eq_value c d) _))

-- the last bundle, of the component merge
abbrev pub HasMerge : Fields → Fields → Type 0
HasMerge post bundle = Has post (lit "snapshot_endpoint_bundles") (λ v.
    (bundles : List Value) × (list v ≡ some bundles)
    × ((last_of_values bundles ≡ some (obj bundle))
        × HasText bundle (lit "component") (lit "merge")))

merge_bundle_of_iff :
    (post bundle : Fields) → (merge_bundle_of post ≡ ok bundle) ↔ HasMerge post bundle
unfolding merge_bundle_of
merge_bundle_of_iff post bundle =
    bind_iff (item (lit "snapshot_endpoint_bundles") post) _
      (item_iff (lit "snapshot_endpoint_bundles") post)
      λ v.
        bind_iff (some_or_raise (list v) "TypeError") _ (some_or_raise_iff (list v) "TypeError")
          λ bundles.
            iff_trans
              (bind_iff (some_or_raise (last_of_values bundles) "IndexError") _
                (some_or_raise_iff (last_of_values bundles) "IndexError")
                λ l. bind_iff (some_or_fail (dict l) _) _ (some_dict_iff l _) λ b.
                  then_iff _ _
                    (iff_trans (require_iff _ _)
                      (HasText-of_get_or_null (lit "component") (lit "merge") b))
                    (ok_iff b bundle))
              (
                λ (l, el, (b, eb, (h, e))). (
                  el ∙ ap some (eb ∙ ap obj e),
                  subst (λ d. HasText d (lit "component") (lit "merge")) e h,
                ),
                λ (el, h). (obj bundle, el, (bundle, refl, (h, refl))),
              )

-- the instant of the merge: the `merged_at` of the pull that the merge bundle records
abbrev pub MergedAt : Platform → Reader → Fields → Stamp → Type 0
MergedAt p r post m =
    (bundle : Fields) × HasMerge post bundle
    × ((pull : Value) × (response_value p r bundle (lit "merged-pull") ≡ ok pull)
        × ((v : Value) × At (lit "merged_at") pull v × ((v ≡ str (print_stamp m)) × IsStamp m)))

-- the merge happened behind the window's end and no later than the snapshot behind it
abbrev pub IsMerged : Platform → Reader → Fields → Fields → Type 0
IsMerged p r end_ post =
    (s : Stamp) × TakenAt end_ s
    × ((t : Stamp) × TakenAt post t
        × ((earlier s t ≡ true)
            × ((bundle : Fields) × HasMerge post bundle
                × ((pull : Value) × (response_value p r bundle (lit "merged-pull") ≡ ok pull)
                    × ((v : Value) × At (lit "merged_at") pull v
                        × ((m : Stamp) × ((v ≡ str (print_stamp m)) × IsStamp m)
                            × ((earlier s m ≡ true) × (no_later m t ≡ true))))))))

pub check_merged_iff :
    (p : Platform) (r : Reader) (end_ post : Fields)
    → (check_merged p r end_ post ≡ ok tt) ↔ IsMerged p r end_ post
unfolding check_merged
check_merged_iff p r end_ post = bind_iff (snapshot_cutoff end_) _ (snapshot_cutoff_iff end_) λ s.
    bind_iff (snapshot_cutoff post) _ (snapshot_cutoff_iff post) λ t.
      then_iff _ _ (require_iff (earlier s t) _) (
        bind_iff (merge_bundle_of post) _ (merge_bundle_of_iff post) λ bundle.
          bind_iff (response_value p r bundle (lit "merged-pull")) _
            (self_iff (response_value p r bundle (lit "merged-pull")))
            λ pull.
              bind_iff (subscript (lit "merged_at") pull) _ (subscript_iff (lit "merged_at") pull)
                λ v. bind_iff (strptime v) _ (strptime_iff v) λ m.
                  iff_trans (require_iff _ _)
                    (and_iff (earlier s m) (no_later m t) (λ h. h, λ h. h) (λ h. h, λ h. h)))
