-- ===== src/Evidence/Bindings/Pages.antt =====
-- The rest of `validate_package_request_bindings` of scripts/validate_governance_state.py: that no
-- response leaves out a page.
use qing_yin.Prelude.{
  List, Option, Result, String, [], contains, discard, each, err, if◌then◌else◌, length, ltb, map,
  none, ok, raised, require, same, some, traverse, ◌&&◌, ◌++◌, ◌==◌, ◌>>=◌, ◌>>◌, ◌∷◌,
}
use qing_yin.Text.{Text, lit}
use qing_yin.Numeral.{decimal}
use qing_yin.Platform.{Platform}
use qing_yin.Json.{Fields, Value, end, field, get_or_null, is_false, is_text, item, obj, str}
use qing_yin.Integer.{require_nonnegative_int, require_positive_int}
use qing_yin.Shape.{dict, list, require_exact_object, some_or_fail, some_or_raise, text}
use qing_yin.Evidence.Access.{Bundles, bundle_of, has_bundle}
use qing_yin.Evidence.Inventory.{component_inventory, lookup}
use qing_yin.Evidence.Bundle.{Reader}
use qing_yin.Evidence.Responses.{labelled, response_item, response_value, responses_of}
use qing_yin.Evidence.Bindings.{
  Identity, candidate_runs, check_bindings, check_graphql, first_page, graphql_labels,
  paginated_labels, paginated_object_labels, pull_path, query_of, repository_path, require_request,
  table_get,
}

-- the object at `data.repository.pullRequest`, for a response of a GraphQL query
unfoldable pub graphql_pull_request : Value → Result Fields
unfolding dict
graphql_pull_request response = do
  fields ← require_exact_object response (lit "data" ∷ [])
  content ← some_or_fail (dict (get_or_null (lit "data") fields)) "GraphQL response missing data"
  repository ←
      some_or_fail (dict (get_or_null (lit "repository") content)) "GraphQL pullRequest missing"
  some_or_fail (dict (get_or_null (lit "pullRequest") repository)) "GraphQL pullRequest missing"

-- the nodes of a connection that has no further page
unfoldable pub complete_page : String → String → Fields → Result (List Value)
unfolding dict list is_false
complete_page invalid_ truncated connection = do
  nodes ← some_or_fail (list (get_or_null (lit "nodes") connection)) invalid_
  info ← some_or_fail (dict (get_or_null (lit "pageInfo") connection)) invalid_
  require (is_false (get_or_null (lit "hasNextPage") info) && ltb (length nodes) 100) truncated
  ok nodes

unfoldable pub check_connection : Fields → Text → Result (List Value)
unfolding complete_page dict
check_connection pull_request name = do
  connection ← some_or_fail (dict (get_or_null name pull_request)) "connection invalid"
  complete_page "connection invalid" "may be truncated" connection

-- one round of the loop over the review threads
unfoldable pub check_thread : Value → Result (Unit {0})
unfolding complete_page dict
check_thread v = do
  thread ← some_or_fail (dict v) "reviewThreads node invalid"
  comments ← some_or_fail (dict (get_or_null (lit "comments") thread)) "reviewThreads node invalid"
  discard (
      complete_page "reviewThreads comments invalid" "reviewThreads comments may be truncated"
        comments)

unfoldable pub check_connections : Platform → Reader → Bundles → Result (Unit {0})
unfolding graphql_pull_request check_connection check_thread
check_connections p r bundles = do
  metadata_bundle ← bundle_of (lit "metadata") bundles
  metadata_response ← response_value p r metadata_bundle (lit "pull-metadata")
  discussion_bundle ← bundle_of (lit "discussion") bundles
  threads_response ← response_value p r discussion_bundle (lit "review-threads")
  metadata_pr ← graphql_pull_request metadata_response
  threads_pr ← graphql_pull_request threads_response
  each (λ name. discard (check_connection metadata_pr name))
      (map lit ("labels" ∷ "reviewRequests" ∷ "assignees" ∷ []))
  threads ← check_connection threads_pr (lit "reviewThreads")
  each check_thread threads

-- the request of the attestation comment has the comment's own id
unfoldable pub check_comment_path : Platform → Reader → Fields → Result (Unit {0})
unfolding dict require_request
check_comment_path p r bundle = do
  comment_value ← response_value p r bundle (lit "attestation-comment")
  comment ← some_or_fail (dict comment_value) "attestation comment response invalid"
  own_id ← require_positive_int (get_or_null (lit "id") comment)
  response ← response_item bundle (lit "attestation-comment")
  require_request response (lit "path")
      (str (repository_path ++ (lit "/issues/comments/" ++ decimal own_id)))
      "attestation comment request path/id mismatch"

-- the requests of the merge
unfoldable pub check_merge_requests : Identity → Fields → Result (Unit {0})
unfolding require_request
check_merge_requests i bundle = do
  merge_sha ←
      some_or_fail i.effective_merge_sha "post-merge request binding requires effective merge SHA"
  response ← response_item bundle (lit "merge-response")
  require_request response (lit "path") (str (pull_path i "/merge"))
      "merge-response PR path mismatch"
  require_request response (lit "body")
      (obj (
        field (lit "merge_method") (str (lit "squash"))
          (field (lit "sha") (str i.candidate_head) end)))
      "merge-response body is not bound to exact candidate"
  merged_pull ← response_item bundle (lit "merged-pull")
  require_request merged_pull (lit "path") (str (pull_path i "")) "merged-pull PR path mismatch"
  post_checks ← response_item bundle (lit "post-merge-checks")
  require_request post_checks (lit "path")
      (str (repository_path ++ (lit "/commits/" ++ (merge_sha ++ lit "/check-runs"))))
      "post-merge checks path mismatch"

-- `if component in bundles: check(bundles[component])`
unfoldable pub if_present : Text → Bundles → (Fields → Result (Unit {0})) → Result (Unit {0})
unfolding bundle_of
if_present c bundles check =
    if has_bundle c bundles then (do bundle ← bundle_of c bundles; check bundle) else ok tt

-- the responses of all bundles with their labels, in order
unfoldable pub all_responses : Bundles → Result (List (Value × Fields))
unfolding responses_of labelled
all_responses [] = ok []
all_responses ((c, bundle) ∷ bundles) = do
  responses ← responses_of bundle
  here ← traverse labelled responses
  rest ← all_responses bundles
  ok (here ++ rest)

-- `response_by_label.get(label)`: the last of them has the entry of a dict
abbrev pub last_with : Text → List (Value × Fields) → Option Fields
last_with label [] = none
last_with label (r ∷ rs) = elim (last_with label rs) [
  | some later ↦ some later
  | none ↦ if is_text label r.0 then some r.1 else none
]

-- `next(bundle for bundle in bundles.values() if label in COMPONENT_INVENTORY[…])`
unfoldable pub owner_of : Text → Bundles → Result Fields
unfolding lookup text
owner_of label [] = err (raised "StopIteration")
owner_of label ((c, bundle) ∷ bundles) = do
  component_value ← item (lit "component") bundle
  component ← some_or_raise (text component_value) "KeyError"
  labels ← some_or_raise (lookup component component_inventory) "KeyError"
  if contains label labels then ok bundle else owner_of label bundles

unfoldable pub check_array : Value → Result (Unit {0})
unfolding list
check_array v = do
  items ← some_or_fail (list v) "paginated response must be an array"
  require (ltb (length items) 100) "may have an unrecorded next page"

unfoldable pub check_counted : Text → Value → Result (Unit {0})
unfolding dict list
check_counted array_field v = do
  response ← some_or_fail (dict v) "paginated response must be an object"
  total ← require_nonnegative_int (get_or_null (lit "total_count") response)
  items ← some_or_fail (list (get_or_null array_field response)) "array field invalid"
  require (total == length items) "response is incomplete"
  require (ltb (length items) 100) "may have an unrecorded next page"

abbrev pub check_page : Option Text → Value → Result (Unit {0})
check_page none = check_array
check_page (some array_field) = check_counted array_field

abbrev pub page_query : Identity → Text → Value
page_query i label =
    if same label (lit "workflow-runs") then query_of (candidate_runs i) else query_of first_page

unfoldable pub check_whole_page :
    Platform → Reader → Identity → Bundles → Text → Fields → Result (Unit {0})
unfolding require_request owner_of check_array check_counted
check_whole_page p r i bundles label response = do
  require_request response (lit "query") (page_query i label)
      "must request the complete filtered first page explicitly"
  owner ← owner_of label bundles
  v ← response_value p r owner label
  check_page (table_get label paginated_object_labels) v

abbrev pub if_some : (Fields → Result (Unit {0})) → Option Fields → Result (Unit {0})
if_some check none = ok tt
if_some check (some response) = check response

-- one round of the loop over the paginated labels
unfoldable pub check_paginated :
    Platform → Reader → Identity → Bundles → List (Value × Fields) → Text → Result (Unit {0})
unfolding check_whole_page
check_paginated p r i bundles responses label =
    if_some (check_whole_page p r i bundles label) (last_with label responses)

unfoldable pub validate_package_request_bindings :
    Platform → Reader → Identity → Bundles → Result (Unit {0})
unfolding check_bindings check_graphql check_connections check_comment_path check_merge_requests
    if_present all_responses check_paginated
validate_package_request_bindings p r i bundles = do
  check_bindings i bundles
  each (check_graphql i bundles) (graphql_labels bundles)
  check_connections p r bundles
  if_present (lit "attestation") bundles (check_comment_path p r)
  if_present (lit "merge") bundles (check_merge_requests i)
  responses ← all_responses bundles
  each (check_paginated p r i bundles responses) paginated_labels
