-- ===== src/Tests/Bindings.antt =====
-- A package of three bundles, with the theorem on the requests that are bound to it.
use qing_yin.Prelude.{
  List, String, [], contains, each, false, none, ok, refl, replicate, same, some, traverse, ◌↔◌,
  ◌∷◌, ◌≡◌,
}
use qing_yin.Text.{Text, lit}
use qing_yin.Json.{
  Fields, Value, arr, boolean, get, get_or_null, is_false, is_null, is_text, item, nil, null, obj,
  of_elements, str,
}
use qing_yin.Shape.{list, require_exact_object, same_set}
use qing_yin.Evidence.Access.{Bundles, bundle_of, subscript}
use qing_yin.Evidence.Bundle.{Reader}
use qing_yin.Evidence.Responses.{labelled, response_item, response_value, responses_of}
use qing_yin.Evidence.Bindings.{
  Identity, first_page, pull_metadata_query, query_of, review_threads_query,
}
use qing_yin.Evidence.Bindings.Pages.{validate_package_request_bindings}
use qing_yin.Evidence.Bindings.Accepted.{IsBoundPackage, validate_package_request_bindings_iff}
use qing_yin.Json.Equality.{eq_value}
use qing_yin.Numeral.{decimal}
use qing_yin.Integer.{require_nonnegative_int}
use qing_yin.Evidence.Inventory.{component_inventory, lookup}
use qing_yin.Text.Utf8.{utf8_decode}
use qing_yin.Tests.{plain}
use qing_yin.Tests.Publication.{fields_of, nested, number_of, parse_of}

abbrev package_identity : Identity
package_identity = record {
  pr_number = 19;
  candidate_head = replicate 40 b'b';
  candidate_tree = replicate 40 b'c';
  effective_merge_sha = none;
}

abbrev recorded : String → String → Value → Value → Value
recorded label path query body = obj (
    fields_of (
      ("label", str (lit label))
      ∷ (
        "request",
        obj (fields_of (("path", str (lit path)) ∷ ("query", query) ∷ ("body", body) ∷ [])),
      )
      ∷ ("response_media_type", str (lit "application/json"))
      ∷ ("response_body_base64", str (lit label))
      ∷ []))

abbrev recorded_bundle : String → List Value → Text × Fields
recorded_bundle component responses = (
  lit component,
  fields_of (("component", str (lit component)) ∷ ("responses", arr (of_elements responses)) ∷ []),
)

abbrev graphql_body : Text → Value
graphql_body query = obj (
    fields_of (
      ("query", str query)
      ∷ (
        "variables",
        obj (
            fields_of (
              ("owner", str (lit "ZhangIvan"))
              ∷ ("name", str (lit "QingYin"))
              ∷ ("number", number_of 19)
              ∷ [])),
      )
      ∷ []))

abbrev last_page : List Value → Value
last_page nodes = obj (
    fields_of (
      ("nodes", arr (of_elements nodes))
      ∷ ("pageInfo", obj (fields_of (("hasNextPage", boolean false) ∷ [])))
      ∷ []))

abbrev graphql_answer : List (String × Value) → Value
graphql_answer pull = nested ("data" ∷ "repository" ∷ "pullRequest" ∷ []) (obj (fields_of pull))

abbrev answers : List (String × Value)
answers =
    (
      "pull-metadata",
      graphql_answer (
          ("labels", last_page [])
          ∷ ("reviewRequests", last_page [])
          ∷ ("assignees", last_page [])
          ∷ []),
    )
    ∷ (
      "review-threads",
      graphql_answer (
          ("reviewThreads", last_page (obj (fields_of (("comments", last_page []) ∷ [])) ∷ []))
          ∷ []),
    )
    ∷ ("issue-comments", arr nil)
    ∷ []

abbrev answering : Reader
answering = record {
  b64decode = λ t. some t;
  loads = λ pairs integer decimal_ constant t. parse_of answers t;
}

abbrev package_bundles : Bundles
package_bundles =
    recorded_bundle "metadata"
      (recorded "pull-metadata" "/graphql" (arr nil) (graphql_body pull_metadata_query) ∷ [])
    ∷ recorded_bundle "discussion" (
        recorded "review-threads" "/graphql" (arr nil) (graphql_body review_threads_query)
        ∷ recorded "issue-comments" "/repos/ZhangIvan/QingYin/issues/19/comments"
            (query_of first_page) null
        ∷ [])
    ∷ []

bound : validate_package_request_bindings plain answering package_identity package_bundles ≡ ok tt
unfolding validate_package_request_bindings response_value response_item utf8_decode item is_text
    traverse eq_value same_set contains same lit is_null get_or_null get each decimal
    require_exact_object responses_of labelled subscript bundle_of lookup component_inventory
    require_nonnegative_int list is_false
bound = refl

validate_package_request_bindings_iff_example :
    (validate_package_request_bindings plain answering package_identity package_bundles ≡ ok tt)
    ↔ IsBoundPackage plain answering package_identity package_bundles
validate_package_request_bindings_iff_example =
    validate_package_request_bindings_iff plain answering package_identity package_bundles
