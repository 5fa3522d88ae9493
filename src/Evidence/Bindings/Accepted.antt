-- ===== src/Evidence/Bindings/Accepted.antt =====
-- Which packages `validate_package_request_bindings` accepts.
use qing_yin.Prelude.{
  ==_iff, All, List, Option, Result, [], length, none, ok, refl, some, traverse, true, ℕ, ◌++◌, ◌<◌,
  ◌↔◌, ◌∷◌, ◌≡◌, ◌≤◌, ◌⊎◌,
}
use qing_yin.Prelude.Checks.{
  Pointwise, bind_iff, branch_iff, each_iff, iff_trans, ok_iff, require_iff, self_iff, then_iff,
  traverse_iff,
}
use qing_yin.Prelude.Int.{pos}
use qing_yin.Text.{Text, lit}
use qing_yin.Numeral.{decimal}
use qing_yin.Platform.{Platform}
use qing_yin.Json.{Fields, Value, end, field, get_or_null, int, obj, str}
use qing_yin.Json.Scalar.{safe_integer_limit}
use qing_yin.Integer.{require_nonnegative_int, require_positive_int}
use qing_yin.Integer.Bounds.{require_positive_int_iff}
use qing_yin.Shape.{dict, list, some_or_fail}
use qing_yin.Shape.Digests.{some_dict_iff}
use qing_yin.Shape.Named.{some_iff}
use qing_yin.Evidence.Access.{Bundles, bundle_of, has_bundle}
use qing_yin.Evidence.Access.Read.{require_nonnegative_int_lem}
use qing_yin.Evidence.Bundle.{Reader}
use qing_yin.Evidence.Responses.{labelled, response_item, response_value, responses_of}
use qing_yin.Evidence.Responses.Single.{IsLabelled, labelled_iff}
use qing_yin.Evidence.Bindings.{
  Identity, check_graphql, graphql_labels, paginated_labels, paginated_object_labels, pull_path,
  repository_path, table_get,
}
use qing_yin.Evidence.Bindings.Pages.{
  all_responses, check_array, check_comment_path, check_counted, check_merge_requests, check_page,
  check_paginated, check_whole_page, if_present, if_some, last_with, owner_of, page_query,
  validate_package_request_bindings,
}
use qing_yin.Evidence.Bindings.Bound.{
  AreBound, IsQueried, Requests, check_bindings_iff, check_graphql_iff, require_request_iff,
}
use qing_yin.Evidence.Bindings.Complete.{HasConnections, check_connections_iff, few_iff}

-- the path of the comment's request ends in the comment's own id
abbrev pub IsOwnComment : Platform → Reader → Fields → Type 0
IsOwnComment p r bundle =
    (v : Value) × (response_value p r bundle (lit "attestation-comment") ≡ ok v)
    × ((comment : Fields) × (v ≡ obj comment)
        × ((own_id : ℕ) × ((get_or_null (lit "id") comment ≡ int (pos own_id))
              × (0 < own_id)
              × (own_id ≤ safe_integer_limit))
            × ((response : Fields) × (response_item bundle (lit "attestation-comment")
                  ≡ ok response)
                × Requests response (lit "path")
                    (str (repository_path ++ (lit "/issues/comments/" ++ decimal own_id))))))

check_comment_path_iff :
    (p : Platform) (r : Reader) (bundle : Fields)
    → (check_comment_path p r bundle ≡ ok tt) ↔ IsOwnComment p r bundle
unfolding check_comment_path
check_comment_path_iff p r bundle =
    bind_iff (response_value p r bundle (lit "attestation-comment")) _ (self_iff _) λ v.
      bind_iff (some_or_fail (dict v) _) _ (some_dict_iff v _) λ comment.
        bind_iff (require_positive_int (get_or_null (lit "id") comment)) _
          (require_positive_int_iff (get_or_null (lit "id") comment))
          λ own_id.
            bind_iff (response_item bundle (lit "attestation-comment")) _ (self_iff _)
              λ response. require_request_iff response (lit "path") _ _

-- the requests of the merge name the pull request, the candidate and the merge commit
abbrev pub IsBoundMerge : Identity → Fields → Type 0
IsBoundMerge i bundle =
    (merge_sha : Text) × (i.effective_merge_sha ≡ some merge_sha)
    × ((response : Fields) × (response_item bundle (lit "merge-response") ≡ ok response)
        × (Requests response (lit "path") (str (pull_path i "/merge"))
            × (Requests response (lit "body") (
                  obj (
                    field (lit "merge_method") (str (lit "squash"))
                      (field (lit "sha") (str i.candidate_head) end)))
                × ((merged_pull : Fields) × (response_item bundle (lit "merged-pull")
                      ≡ ok merged_pull)
                    × (Requests merged_pull (lit "path") (str (pull_path i ""))
                        × ((post_checks : Fields) × (response_item bundle (lit "post-merge-checks")
                              ≡ ok post_checks)
                            × Requests post_checks (lit "path") (
                                str (
                                  repository_path
                                  ++ (lit "/commits/" ++ (merge_sha ++ lit "/check-runs"))))))))))

check_merge_requests_iff :
    (i : Identity) (bundle : Fields)
    → (check_merge_requests i bundle ≡ ok tt) ↔ IsBoundMerge i bundle
unfolding check_merge_requests
check_merge_requests_iff i bundle =
    bind_iff (some_or_fail i.effective_merge_sha _) _ (some_iff i.effective_merge_sha _)
      λ merge_sha. bind_iff (response_item bundle (lit "merge-response")) _ (self_iff _) λ response.
        then_iff _ _ (require_request_iff response (lit "path") _ _) (
          then_iff _ _ (require_request_iff response (lit "body") _ _) (
            bind_iff (response_item bundle (lit "merged-pull")) _ (self_iff _) λ merged_pull.
              then_iff _ _ (require_request_iff merged_pull (lit "path") _ _) (
                bind_iff (response_item bundle (lit "post-merge-checks")) _ (self_iff _)
                  λ post_checks. require_request_iff post_checks (lit "path") _ _)))

-- what holds of a component's bundle, if there is one
abbrev pub IfPresent : Text → Bundles → (Fields → Type 0) → Type 0
IfPresent c bundles P =
    ((has_bundle c bundles ≡ true)
      × ((bundle : Fields) × (bundle_of c bundles ≡ ok bundle) × P bundle))
    ⊎ (((has_bundle c bundles ≡ true) → ⊥) × Unit {0})

if_present_iff :
    {P : Fields → Type 0} (c : Text) (bundles : Bundles) (check : Fields → Result (Unit {0}))
    → ((bundle : Fields) → (check bundle ≡ ok tt) ↔ P bundle)
    → (if_present c bundles check ≡ ok tt) ↔ IfPresent c bundles P
unfolding if_present
if_present_iff c bundles check f =
    branch_iff (has_bundle c bundles) _ (ok tt) (λ h. h, λ h. h)
      (bind_iff (bundle_of c bundles) check (self_iff (bundle_of c bundles)) f) (λ h. tt, λ u. refl)

-- an array of fewer than a hundred items
abbrev pub IsShortArray : Value → Type 0
IsShortArray v = (items : List Value) × (list v ≡ some items) × (length items < 100)

-- an object with as many items as it says, fewer than a hundred
abbrev pub IsCounted : Text → Value → Type 0
IsCounted array_field v =
    (response : Fields) × (v ≡ obj response)
    × ((total : ℕ) × ((get_or_null (lit "total_count") response ≡ int (pos total))
          × (total ≤ safe_integer_limit))
        × ((items : List Value) × (list (get_or_null array_field response) ≡ some items)
            × ((total ≡ length items) × (length items < 100))))

abbrev pub IsWholePage : Option Text → Value → Type 0
IsWholePage none v = IsShortArray v
IsWholePage (some array_field) v = IsCounted array_field v

check_page_iff : (o : Option Text) (v : Value) → (check_page o v ≡ ok tt) ↔ IsWholePage o v
unfolding check_array check_counted
check_page_iff none v =
    bind_iff (some_or_fail (list v) _) _ (some_iff (list v) _)
      λ items. iff_trans (require_iff _ _) (few_iff (length items))
check_page_iff (some array_field) v =
    bind_iff (some_or_fail (dict v) _) _ (some_dict_iff v _) λ response.
      bind_iff (require_nonnegative_int (get_or_null (lit "total_count") response)) _
        (require_nonnegative_int_lem (get_or_null (lit "total_count") response))
        λ total.
          bind_iff (some_or_fail (list (get_or_null array_field response)) _) _
            (some_iff (list (get_or_null array_field response)) _)
            λ items.
              then_iff _ _ (iff_trans (require_iff _ _) (==_iff total (length items)))
                (iff_trans (require_iff _ _) (few_iff (length items)))

-- The response asks for the whole first page, and the response of the bundle that the inventory
-- gives the label is a whole page.
abbrev pub IsWholeResponse : Platform → Reader → Identity → Bundles → Text → Fields → Type 0
IsWholeResponse p r i bundles label response =
    Requests response (lit "query") (page_query i label)
    × ((owner : Fields) × (owner_of label bundles ≡ ok owner)
        × ((v : Value) × (response_value p r owner label ≡ ok v)
            × IsWholePage (table_get label paginated_object_labels) v))

check_whole_page_iff :
    (p : Platform) (r : Reader) (i : Identity) (bundles : Bundles) (label : Text)
    (response : Fields)
    → (check_whole_page p r i bundles label response ≡ ok tt)
      ↔ IsWholeResponse p r i bundles label response
unfolding check_whole_page
check_whole_page_iff p r i bundles label response =
    then_iff _ _ (require_request_iff response (lit "query") _ _) (
      bind_iff (owner_of label bundles) _ (self_iff _) λ owner.
        bind_iff (response_value p r owner label) _ (self_iff _)
          λ v. check_page_iff (table_get label paginated_object_labels) v)

abbrev pub IfSome : (Fields → Type 0) → Option Fields → Type 0
IfSome P none = Unit
IfSome P (some response) = P response

if_some_lem :
    {P : Fields → Type 0} (check : Fields → Result (Unit {0}))
    → ((x : Fields) → (check x ≡ ok tt) ↔ P x)
    → (o : Option Fields) → (if_some check o ≡ ok tt) ↔ IfSome P o
if_some_lem check f none = (λ h. tt, λ h. refl)
if_some_lem check f (some x) = f x

-- the last response with the label, if there is one
abbrev pub IsPaginated :
    Platform → Reader → Identity → Bundles → List (Value × Fields) → Text → Type 0
IsPaginated p r i bundles responses label =
    IfSome (IsWholeResponse p r i bundles label) (last_with label responses)

check_paginated_iff :
    (p : Platform) (r : Reader) (i : Identity) (bundles : Bundles)
    (responses : List (Value × Fields)) (label : Text)
    → (check_paginated p r i bundles responses label ≡ ok tt)
      ↔ IsPaginated p r i bundles responses label
unfolding check_paginated
check_paginated_iff p r i bundles responses label =
    if_some_lem (check_whole_page p r i bundles label) (check_whole_page_iff p r i bundles label)
      (last_with label responses)

-- the responses of all bundles, with their labels
abbrev pub AreLabelled : Bundles → List (Value × Fields) → Type 0
AreLabelled [] rs = [] ≡ rs
AreLabelled ((c, bundle) ∷ bundles) rs =
    (vs : List Value) × (responses_of bundle ≡ ok vs)
    × ((here : List (Value × Fields)) × Pointwise IsLabelled vs here
        × ((rest : List (Value × Fields)) × AreLabelled bundles rest × (here ++ rest ≡ rs)))

all_responses_iff :
    (bundles : Bundles) (rs : List (Value × Fields))
    → (all_responses bundles ≡ ok rs) ↔ AreLabelled bundles rs
unfolding all_responses
all_responses_iff [] rs = ok_iff [] rs
all_responses_iff ((c, bundle) ∷ bundles) rs = bind_iff (responses_of bundle) _ (self_iff _) λ vs.
    bind_iff (traverse labelled vs) _ (traverse_iff IsLabelled labelled labelled_iff vs) λ here.
      bind_iff (all_responses bundles) _ (all_responses_iff bundles)
        λ rest. ok_iff (here ++ rest) rs

abbrev pub IsBoundPackage : Platform → Reader → Identity → Bundles → Type 0
IsBoundPackage p r i bundles =
    AreBound i bundles
    × (All (IsQueried i bundles) (graphql_labels bundles)
        × (HasConnections p r bundles
            × (IfPresent (lit "attestation") bundles (IsOwnComment p r)
                × (IfPresent (lit "merge") bundles (IsBoundMerge i)
                    × ((responses : List (Value × Fields)) × AreLabelled bundles responses
                        × All (IsPaginated p r i bundles responses) paginated_labels)))))

-- A package of bundles is accepted exactly when every request has the path, query and operation that
-- its label asks for in this pull request and candidate, the GraphQL requests have the script's texts
-- and variables, the requests of the attestation comment and of the merge are bound as well, and no
-- connection or paginated response leaves out a page.
pub validate_package_request_bindings_iff :
    (p : Platform) (r : Reader) (i : Identity) (bundles : Bundles)
    → (validate_package_request_bindings p r i bundles ≡ ok tt) ↔ IsBoundPackage p r i bundles
unfolding validate_package_request_bindings
validate_package_request_bindings_iff p r i bundles = then_iff _ _ (check_bindings_iff i bundles) (
    then_iff _ _
      (each_iff (check_graphql i bundles) (check_graphql_iff i bundles) (graphql_labels bundles))
      (then_iff _ _ (check_connections_iff p r bundles) (
        then_iff _ _
          (if_present_iff (lit "attestation") bundles (check_comment_path p r)
            (check_comment_path_iff p r))
          (then_iff _ _
            (if_present_iff (lit "merge") bundles (check_merge_requests i)
              (check_merge_requests_iff i))
            (bind_iff (all_responses bundles) _ (all_responses_iff bundles) λ responses.
              each_iff (check_paginated p r i bundles responses)
                (check_paginated_iff p r i bundles responses) paginated_labels)))))
