-- ===== src/Evidence/Bindings.antt =====
-- `validate_package_request_bindings` of scripts/validate_governance_state.py: the requests of a
-- package of validated bundles are bound to its pull request and its candidate.
pub mod Pages
pub mod Bound
pub mod Complete
pub mod Accepted
use qing_yin.Prelude.{
  List, Option, Result, String, [], contains, each, if◌then◌else◌, map, none, ok, require, same,
  some, ℕ, ◌&&◌, ◌++◌, ◌>>=◌, ◌>>◌, ◌∷◌,
}
use qing_yin.Prelude.Int.{pos}
use qing_yin.Text.{Text, lit}
use qing_yin.Numeral.{decimal}
use qing_yin.Json.{
  Fields, Value, arr, cons, end, field, get_or_null, int, is_text, item, nil, obj, of_elements, str,
}
use qing_yin.Json.Equality.{eq_value}
use qing_yin.Shape.{dict, require_exact_object, some_or_raise, text}
use qing_yin.Evidence.Access.{Bundles, bundle_of, has_bundle, subscript}
use qing_yin.Evidence.Responses.{response_item, responses_of}

-- The GraphQL texts are cut where their nesting changes; the pieces are joined.
abbrev pub joined : List String → Text
joined [] = []
joined (s ∷ ss) = lit s ++ joined ss

abbrev pub pull_metadata_query : Text
pull_metadata_query = joined (
    "query QingYinPullMetadata($owner:String!,$name:String!,$number:Int!){repository(owner:$owner,name:$name)"
    ∷ "{pullRequest(number:$number){id number title body updatedAt baseRefName headRefName "
    ∷ "baseRefOid headRefOid isDraft mergeable labels(first:100){nodes{id name} pageInfo{"
    ∷ "hasNextPage endCursor}} reviewRequests(first:100){nodes{requestedReviewer{... on "
    ∷ "User{id databaseId login} ... on Team{id databaseId name}}} pageInfo{hasNextPage "
    ∷ "endCursor}} milestone{id title} assignees(first:100){nodes{id databaseId login} "
    ∷ "pageInfo{hasNextPage endCursor}} autoMergeRequest{enabledAt mergeMethod} mergeQueueEntry{"
    ∷ "id position}}}}" ∷ [])

abbrev pub review_threads_query : Text
review_threads_query = joined (
    "query QingYinReviewThreads($owner:String!,$name:String!,$number:Int!){repository(owner:$owner,name:$name)"
    ∷ "{pullRequest(number:$number){id number baseRefOid headRefOid reviewThreads(first:100)"
    ∷ "{nodes{id isResolved isOutdated comments(first:100){nodes{id databaseId author{login "
    ∷ "... on User{id databaseId} ... on Bot{id databaseId} ... on Organization{id databaseId}"
    ∷ " ... on Mannequin{id databaseId}} body createdAt updatedAt outdated state commit{"
    ∷ "oid}} pageInfo{hasNextPage endCursor}}} pageInfo{hasNextPage endCursor}}}}}" ∷ [])

abbrev pub paginated_array_labels : List Text
paginated_array_labels =
    map lit ("pull-files" ∷ "github-reviews" ∷ "issue-comments" ∷ "rulesets" ∷ "collaborators" ∷ [])

-- `PAGINATED_OBJECT_LABELS`: a label, and the field that has its array
abbrev pub paginated_object_labels : List (Text × Text)
paginated_object_labels =
    (lit "check-runs", lit "check_runs")
    ∷ (lit "workflow-runs", lit "workflow_runs")
    ∷ (lit "post-merge-checks", lit "check_runs")
    ∷ []

abbrev pub paginated_labels : List Text
paginated_labels = paginated_array_labels ++ map (λ (e : Text × Text). e.0) paginated_object_labels

-- what a package is about
pub record Identity : Type 0 where
  pub pr_number : ℕ
  pub candidate_head : Text
  pub candidate_tree : Text
  pub effective_merge_sha : Option Text

abbrev pub repository_path : Text
repository_path = lit "/repos/ZhangIvan/QingYin"

abbrev pub pull_path : Identity → String → Text
pull_path i rest = (repository_path ++ lit "/pulls/") ++ (decimal i.pr_number ++ lit rest)

abbrev table_get : Text → List (Text × Text) → Option Text
table_get k [] = none
table_get k ((j, v) ∷ table) = if same j k then some v else table_get k table

-- `expected_paths.get(label)`
unfoldable pub expected_path : Identity → Text → Option Text
expected_path i label = table_get label (
    (lit "pull", pull_path i "")
    ∷ (lit "pull-files", pull_path i "/files")
    ∷ (lit "candidate-commit", lit "/git/commits/" ++ i.candidate_head)
    ∷ (lit "candidate-tree", repository_path ++ (lit "/git/trees/" ++ i.candidate_tree))
    ∷ (lit "github-reviews", pull_path i "/reviews")
    ∷ (
      lit "issue-comments",
      repository_path ++ (lit "/issues/" ++ (decimal i.pr_number ++ lit "/comments")),
    )
    ∷ (
      lit "check-runs",
      repository_path ++ (lit "/commits/" ++ (i.candidate_head ++ lit "/check-runs")),
    )
    ∷ (lit "agent-reviews", lit "/reviews/" ++ i.candidate_head)
    ∷ [])

-- `[[key, value], …]`
abbrev pub query_of : List (Text × Text) → Value
query_of l =
    arr (of_elements (map (λ (e : Text × Text). arr (cons (str e.0) (cons (str e.1) nil))) l))

abbrev pub first_page : List (Text × Text)
first_page = (lit "page", lit "1") ∷ (lit "per_page", lit "100") ∷ []

abbrev pub candidate_runs : Identity → List (Text × Text)
candidate_runs i =
    (lit "event", lit "pull_request") ∷ (lit "head_sha", i.candidate_head) ∷ first_page

-- the query that the branches of the loop ask for
unfoldable pub expected_query : Identity → Text → Value
expected_query i label =
    if same label (lit "candidate-tree")
    then query_of ((lit "recursive", lit "1") ∷ [])
    else if same label (lit "workflow-runs")
    then query_of (candidate_runs i)
    else if contains label paginated_labels
    then query_of first_page
    else query_of []

abbrev pub derived_labels : List Text
derived_labels =
    map lit ("workflow-jobs" ∷ "workflow-logs" ∷ "runner-provenance" ∷ "finding-ledger" ∷ [])

-- `require(item["request"][key] == value, message)`
unfoldable pub require_request : Fields → Text → Value → String → Result (Unit {0})
unfolding subscript
require_request response key expected message = do
  request ← item (lit "request") response
  v ← subscript key request
  require (eq_value v expected) message

abbrev pub require_path : Fields → Option Text → Result (Unit {0})
require_path response none = ok tt
require_path response (some path) =
    require_request response (lit "path") (str path)
      "request target is not bound to package identity"

-- one round of the inner loop; the labels of a validated bundle are texts
unfoldable pub check_binding : Identity → Value → Result (Unit {0})
unfolding dict text expected_path expected_query require_request
check_binding i v = do
  response ← some_or_raise (dict v) "TypeError"
  label_value ← item (lit "label") response
  label ← some_or_raise (text label_value) "TypeError"
  require_path response (expected_path i label)
  require_request response (lit "query") (expected_query i label) "request query drifted"
  if contains label derived_labels
      then require_request response (lit "body") (obj (field (lit "label") (str label) end))
          "derived request operation descriptor mismatch"
      else ok tt

-- the loop over the bundles
unfoldable pub check_bindings : Identity → Bundles → Result (Unit {0})
unfolding responses_of check_binding
check_bindings i [] = ok tt
check_bindings i ((c, bundle) ∷ bundles) = do
  responses ← responses_of bundle
  each (check_binding i) responses
  check_bindings i bundles

abbrev pub graphql_query : Text → Text
graphql_query label =
    if same label (lit "review-threads") then review_threads_query else pull_metadata_query

abbrev pub variable_names : List Text
variable_names = map lit ("owner" ∷ "name" ∷ "number" ∷ [])

-- one round of the loop over `graphql_labels`
unfoldable pub check_graphql : Identity → Bundles → Text × Text → Result (Unit {0})
unfolding bundle_of subscript
check_graphql i bundles (label, component) = do
  bundle ← bundle_of component bundles
  response ← response_item bundle label
  request ← item (lit "request") response
  body_value ← subscript (lit "body") request
  body ← require_exact_object body_value (lit "query" ∷ lit "variables" ∷ [])
  query ← item (lit "query") body
  require (is_text (graphql_query label) query) "GraphQL query text mismatch"
  variables_value ← item (lit "variables") body
  variables ← require_exact_object variables_value variable_names
  require
      (is_text (lit "ZhangIvan") (get_or_null (lit "owner") variables)
        && is_text (lit "QingYin") (get_or_null (lit "name") variables)
        && eq_value (get_or_null (lit "number") variables) (int (pos i.pr_number)))
      "GraphQL variables are not bound to package PR"

abbrev pub graphql_labels : Bundles → List (Text × Text)
graphql_labels bundles =
    (lit "pull-metadata", lit "metadata")
    ∷ (lit "review-threads", lit "discussion")
    ∷ (if has_bundle (lit "merge") bundles
        then (lit "post-merge-metadata", lit "merge") ∷ []
        else [])
