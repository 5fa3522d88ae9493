-- ===== src/Evidence/Publication/Pulls.antt =====
-- The two checks of the pull request across the publication of the attestation.
use qing_yin.Prelude.{String, [], ap, ok, refl, require, some, true, ◌>>=◌, ◌↔◌, ◌∙◌, ◌∷◌, ◌≡◌}
use qing_yin.Prelude.Checks.{bind_iff, iff_trans, require_iff, then_iff}
use qing_yin.Text.{lit}
use qing_yin.Platform.{Platform}
use qing_yin.Json.{Fields, Value, get, get_or_null, item, keys, obj}
use qing_yin.Json.Equality.{eq_value}
use qing_yin.Shape.{dict, same_set, some_or_fail}
use qing_yin.Shape.Digests.{Has, item_iff, some_dict_iff}
use qing_yin.Evidence.Access.{Bundles, add_one, bundle_of, subscript}
use qing_yin.Evidence.Access.Read.{
  Same, SameAt, nonnegative_iff, raise_dict_iff, require_equal_iff, require_unchanged_iff,
  subscript_iff,
}
use qing_yin.Evidence.Attestation.Accepted.{positive_iff}
use qing_yin.Evidence.Bundle.{Reader}
use qing_yin.Evidence.Responses.{response_item, response_value}
use qing_yin.Evidence.Publication.Delta.{check_metadata, check_pull, metadata_pull_request}
use qing_yin.Evidence.Publication.Changes.{Counts, OnlyKeysChange, PullChanges, Responds, keys_iff}

pull_count_lem :
    (d : Fields)
    → ((item (lit "pull_comments_after") d >>= λ a. item (lit "pull_comments_before") d >>= λ b.
          add_one b >>= λ n.
          require (eq_value a n) "publication must increase pull comment count by exactly one")
        ≡ ok tt)
      ↔ Counts d
pull_count_lem d =
    bind_iff (item (lit "pull_comments_after") d) _ (item_iff (lit "pull_comments_after") d) λ a.
      bind_iff (item (lit "pull_comments_before") d) _ (item_iff (lit "pull_comments_before") d)
        λ b. bind_iff (add_one b) _ (λ n. (λ h. h, λ h. h)) λ n. require_iff (eq_value a n) _

-- an object that a response gives
abbrev pub RespondsObject : Platform → Reader → Bundles → String → String → Fields → Type 0
RespondsObject p r bundles c label d = Responds p r bundles c label (obj d)

abbrev pub PullsAgree : Platform → Reader → Fields → Bundles → Bundles → Type 0
PullsAgree p r delta pre snapshot =
    (before : Fields) × (after : Fields) × RespondsObject p r pre "pr" "pull" before
    × (RespondsObject p r snapshot "pr" "pull" after × PullChanges delta before after)

pub check_pull_iff :
    (p : Platform) (r : Reader) (delta : Fields) (pre snapshot : Bundles)
    → (check_pull p r delta pre snapshot ≡ ok tt) ↔ PullsAgree p r delta pre snapshot
unfolding check_pull
check_pull_iff p r delta pre snapshot =
    iff_trans
      (bind_iff (bundle_of (lit "pr") pre) _ (λ x. (λ h. h, λ h. h))
        λ pre_bundle.
          bind_iff (response_value p r pre_bundle (lit "pull")) _ (λ x. (λ h. h, λ h. h))
            λ v.
              bind_iff (bundle_of (lit "pr") snapshot) _ (λ x. (λ h. h, λ h. h))
                λ snapshot_bundle.
                  bind_iff (response_value p r snapshot_bundle (lit "pull")) _
                    (λ x. (λ h. h, λ h. h))
                    λ w. bind_iff (some_or_fail (dict v) _) _ (some_dict_iff v _) λ before.
                      bind_iff (some_or_fail (dict w) _) _ (some_dict_iff w _) λ after.
                        then_iff _ _ (require_iff _ _) (
                          then_iff _ _ (positive_iff (get_or_null (lit "number") before)) (
                            then_iff _ _ (positive_iff (get_or_null (lit "number") after)) (
                              then_iff _ _ (nonnegative_iff (get_or_null (lit "comments") before)) (
                                then_iff _ _ (nonnegative_iff (get_or_null (lit "comments") after))
                                  (then_iff _ _ (keys_iff _ before after) (
                                    then_iff _ _ (require_equal_iff delta _ _ _) (
                                      then_iff _ _ (require_equal_iff delta _ _ _) (
                                        then_iff _ _ (require_equal_iff delta _ _ _) (
                                          then_iff _ _ (require_equal_iff delta _ _ _)
                                            (pull_count_lem delta)))))))))))
      (
        λ (b, eb, (v, ev, (c, ec, (w, ew, (before, pv, (after, pw, rest)))))).
            (before, after, (b, eb, ev ∙ ap ok pv), ((c, ec, ew ∙ ap ok pw), rest)),
        λ (before, after, (b, eb, ev), ((c, ec, ew), rest)). (
          b,
          eb,
          (obj before, ev, (c, ec, (obj after, ew, (before, refl, (after, refl, rest))))),
        ),
      )

-- the object at `data.repository.pullRequest`
abbrev pub IsPullRequest : Value → Fields → Type 0
IsPullRequest response d =
    (top : Value) × ((f : Fields) × (response ≡ obj f) × (get (lit "data") f ≡ some top))
    × ((repository : Value) × ((f : Fields) × (top ≡ obj f)
          × (get (lit "repository") f ≡ some repository))
        × ((pull_request : Value) × ((f : Fields) × (repository ≡ obj f)
              × (get (lit "pullRequest") f ≡ some pull_request))
            × (pull_request ≡ obj d)))

pub metadata_pull_request_iff :
    (v : Value) (d : Fields) → (metadata_pull_request v ≡ ok d) ↔ IsPullRequest v d
unfolding metadata_pull_request
metadata_pull_request_iff v d =
    bind_iff (subscript (lit "data") v) _ (subscript_iff (lit "data") v) λ top.
      bind_iff (subscript (lit "repository") top) _ (subscript_iff (lit "repository") top)
        λ repository.
          bind_iff (subscript (lit "pullRequest") repository) _
            (subscript_iff (lit "pullRequest") repository)
            λ pull_request. raise_dict_iff pull_request "TypeError" d

-- the response of the component with the label
abbrev pub Records : Bundles → String → String → Fields → Fields → Type 0
Records bundles c label bundle response =
    (bundle_of (lit c) bundles ≡ ok bundle) × (response_item bundle (lit label) ≡ ok response)

abbrev pub PullRequestAt : Platform → Reader → Fields → String → Fields → Type 0
PullRequestAt p r bundle label d =
    (v : Value) × (response_value p r bundle (lit label) ≡ ok v) × IsPullRequest v d

-- the request is the same, and the pull requests differ in their update time only, which the delta has
abbrev pub MetadataAgrees : Platform → Reader → Fields → Bundles → Bundles → Type 0
MetadataAgrees p r delta pre snapshot =
    (b : Fields) × (x : Fields) × (c : Fields) × (y : Fields) × Records pre "metadata"
      "pull-metadata" b x
    × (Records snapshot "metadata" "pull-metadata" c y
        × (SameAt x y (lit "request")
            × ((before : Fields) × (after : Fields) × PullRequestAt p r b "pull-metadata" before
                × (PullRequestAt p r c "pull-metadata" after
                    × ((same_set (keys before) (keys after) ≡ true)
                        × (OnlyKeysChange (lit "updatedAt" ∷ []) before after
                            × (Has delta (lit "pull_updated_at_before")
                                  (Same (get_or_null (lit "updatedAt") before))
                                × Has delta (lit "pull_updated_at_after")
                                    (Same (get_or_null (lit "updatedAt") after)))))))))

pub check_metadata_iff :
    (p : Platform) (r : Reader) (delta : Fields) (pre snapshot : Bundles)
    → (check_metadata p r delta pre snapshot ≡ ok tt) ↔ MetadataAgrees p r delta pre snapshot
unfolding check_metadata
check_metadata_iff p r delta pre snapshot =
    iff_trans
      (bind_iff (bundle_of (lit "metadata") pre) _ (λ x. (λ h. h, λ h. h))
        λ b.
          bind_iff (response_item b (lit "pull-metadata")) _ (λ x. (λ h. h, λ h. h))
            λ x.
              bind_iff (bundle_of (lit "metadata") snapshot) _ (λ x. (λ h. h, λ h. h))
                λ c.
                  bind_iff (response_item c (lit "pull-metadata")) _ (λ x. (λ h. h, λ h. h))
                    λ y. then_iff _ _ (require_unchanged_iff x y _ _) (
                      bind_iff (response_value p r b (lit "pull-metadata")) _
                        (λ x. (λ h. h, λ h. h))
                        λ v.
                          bind_iff (metadata_pull_request v) _ (metadata_pull_request_iff v)
                            λ before.
                              bind_iff (response_value p r c (lit "pull-metadata")) _
                                (λ x. (λ h. h, λ h. h))
                                λ w.
                                  bind_iff (metadata_pull_request w) _ (metadata_pull_request_iff w)
                                    λ after. then_iff _ _ (require_iff _ _) (
                                      then_iff _ _ (keys_iff _ before after) (
                                        then_iff _ _ (require_equal_iff delta _ _ _)
                                          (require_equal_iff delta _ _ _)))))
      (
        λ (
          b,
          eb,
          (
            x,
            ex,
            (c, ec, (y, ey, (same_request, (v, ev, (before, pb, (w, ew, (after, pa, rest))))))),
          ),
        ).
            (
              b,
              x,
              c,
              y,
              (eb, ex),
              ((ec, ey), (same_request, (before, after, (v, ev, pb), ((w, ew, pa), rest)))),
            ),
        λ (
          b,
          x,
          c,
          y,
          (eb, ex),
          ((ec, ey), (same_request, (before, after, (v, ev, pb), ((w, ew, pa), rest)))),
        ).
            (
              b,
              eb,
              (
                x,
                ex,
                (c, ec, (y, ey, (same_request, (v, ev, (before, pb, (w, ew, (after, pa, rest))))))),
              ),
            ),
      )
