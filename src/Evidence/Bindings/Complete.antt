-- ===== src/Evidence/Bindings/Complete.antt =====
-- What it means that no response leaves out a page.
use qing_yin.Prelude.{
  All, List, String, [], arith, discard, false, length, ltb, map, ok, refl, some, subst, true, ℕ,
  ◌<◌, ◌↔◌, ◌∷◌, ◌≡◌,
}
use qing_yin.Prelude.Checks.{
  and_iff, bind_iff, each_iff, iff_trans, ok_iff, require_iff, self_iff, then_iff,
}
use qing_yin.Text.{Text, lit}
use qing_yin.Platform.{Platform}
use qing_yin.Json.{Fields, Value, boolean, get_or_null, is_false, keys, obj}
use qing_yin.Shape.{dict, list, require_exact_object, same_set, some_or_fail}
use qing_yin.Shape.Digests.{require_exact_object_iff, some_dict_iff}
use qing_yin.Shape.Named.{some_iff}
use qing_yin.Evidence.Access.{Bundles, bundle_of}
use qing_yin.Evidence.Attestation.Accepted.{discard_iff}
use qing_yin.Evidence.Bundle.{Reader}
use qing_yin.Evidence.Responses.{response_value}
use qing_yin.Evidence.Bindings.Pages.{
  check_connection, check_connections, check_thread, complete_page, graphql_pull_request,
}

-- the pull request that a GraphQL response has at `data.repository.pullRequest`
abbrev pub IsGraphqlResponse : Value → Fields → Type 0
IsGraphqlResponse v d =
    (fields : Fields) × ((v ≡ obj fields) × (same_set (keys fields) (lit "data" ∷ []) ≡ true))
    × ((content : Fields) × (get_or_null (lit "data") fields ≡ obj content)
        × ((repository : Fields) × (get_or_null (lit "repository") content ≡ obj repository)
            × (get_or_null (lit "pullRequest") repository ≡ obj d)))

graphql_pull_request_iff :
    (v : Value) (d : Fields) → (graphql_pull_request v ≡ ok d) ↔ IsGraphqlResponse v d
unfolding graphql_pull_request
graphql_pull_request_iff v d =
    bind_iff (require_exact_object v (lit "data" ∷ [])) _
      (require_exact_object_iff v (lit "data" ∷ []))
      λ fields.
        bind_iff (some_or_fail (dict (get_or_null (lit "data") fields)) _) _
          (some_dict_iff (get_or_null (lit "data") fields) _)
          λ content.
            bind_iff (some_or_fail (dict (get_or_null (lit "repository") content)) _) _
              (some_dict_iff (get_or_null (lit "repository") content) _)
              λ repository. some_dict_iff (get_or_null (lit "pullRequest") repository) _ d

is_false_iff : (v : Value) → (is_false v ≡ true) ↔ (v ≡ boolean false)
unfolding is_false
is_false_iff (boolean false) = (λ h. refl, λ h. refl)
is_false_iff (boolean true) = (λ h. cc, λ h. cc)
is_false_iff _ = (λ h. cc, λ h. cc)

pub few_iff : (n : ℕ) → (ltb n 100 ≡ true) ↔ (n < 100)
few_iff n = ground arith

-- fewer than a hundred nodes, and the mark that no page follows
abbrev pub IsComplete : Fields → List Value → Type 0
IsComplete connection nodes =
    (list (get_or_null (lit "nodes") connection) ≡ some nodes)
    × ((info : Fields) × (get_or_null (lit "pageInfo") connection ≡ obj info)
        × ((get_or_null (lit "hasNextPage") info ≡ boolean false) × (length nodes < 100)))

complete_page_iff :
    (invalid_ truncated : String) (connection : Fields) (nodes : List Value)
    → (complete_page invalid_ truncated connection ≡ ok nodes) ↔ IsComplete connection nodes
unfolding complete_page
complete_page_iff invalid_ truncated connection nodes =
    iff_trans
      (bind_iff (some_or_fail (list (get_or_null (lit "nodes") connection)) invalid_) _
        (some_iff (list (get_or_null (lit "nodes") connection)) invalid_)
        λ vs.
          bind_iff (some_or_fail (dict (get_or_null (lit "pageInfo") connection)) invalid_) _
            (some_dict_iff (get_or_null (lit "pageInfo") connection) invalid_)
            λ info.
              then_iff _ _
                (iff_trans (require_iff _ truncated) (
                  and_iff (is_false (get_or_null (lit "hasNextPage") info)) (ltb (length vs) 100)
                    (is_false_iff (get_or_null (lit "hasNextPage") info)) (few_iff (length vs))))
                (ok_iff vs nodes))
      (
        λ (vs, e, (info, h, (p, same_nodes))).
            subst (IsComplete connection) same_nodes (e, (info, h, p)),
        λ (e, (info, h, p)). (nodes, e, (info, h, (p, refl))),
      )

abbrev pub HasConnection : Fields → Text → List Value → Type 0
HasConnection pull_request name nodes =
    (connection : Fields) × (get_or_null name pull_request ≡ obj connection)
    × IsComplete connection nodes

check_connection_iff :
    (pull_request : Fields) (name : Text) (nodes : List Value)
    → (check_connection pull_request name ≡ ok nodes) ↔ HasConnection pull_request name nodes
unfolding check_connection
check_connection_iff pull_request name nodes =
    bind_iff (some_or_fail (dict (get_or_null name pull_request)) _) _
      (some_dict_iff (get_or_null name pull_request) _)
      λ connection. complete_page_iff _ _ connection nodes

-- a thread all of whose comments are there
abbrev pub IsWholeThread : Value → Type 0
IsWholeThread v =
    (thread : Fields) × (v ≡ obj thread)
    × ((comments : Fields) × (get_or_null (lit "comments") thread ≡ obj comments)
        × ((nodes : List Value) × IsComplete comments nodes))

check_thread_iff : (v : Value) → (check_thread v ≡ ok tt) ↔ IsWholeThread v
unfolding check_thread
check_thread_iff v = bind_iff (some_or_fail (dict v) _) _ (some_dict_iff v _) λ thread.
    bind_iff (some_or_fail (dict (get_or_null (lit "comments") thread)) _) _
      (some_dict_iff (get_or_null (lit "comments") thread) _)
      λ comments. discard_iff (complete_page _ _ comments) (complete_page_iff _ _ comments)

abbrev pub HasConnections : Platform → Reader → Bundles → Type 0
HasConnections p r bundles =
    (b : Fields) × (bundle_of (lit "metadata") bundles ≡ ok b)
    × ((v : Value) × (response_value p r b (lit "pull-metadata") ≡ ok v)
        × ((c : Fields) × (bundle_of (lit "discussion") bundles ≡ ok c)
            × ((w : Value) × (response_value p r c (lit "review-threads") ≡ ok w)
                × ((metadata : Fields) × IsGraphqlResponse v metadata
                    × ((threads : Fields) × IsGraphqlResponse w threads
                        × (All (λ name. (nodes : List Value) × HasConnection metadata name nodes)
                              (map lit ("labels" ∷ "reviewRequests" ∷ "assignees" ∷ []))
                            × ((nodes : List Value) × HasConnection threads (lit "reviewThreads")
                                  nodes
                                × All IsWholeThread nodes)))))))

pub check_connections_iff :
    (p : Platform) (r : Reader) (bundles : Bundles)
    → (check_connections p r bundles ≡ ok tt) ↔ HasConnections p r bundles
unfolding check_connections
check_connections_iff p r bundles =
    bind_iff (bundle_of (lit "metadata") bundles) _ (self_iff _) λ b.
      bind_iff (response_value p r b (lit "pull-metadata")) _ (self_iff _) λ v.
        bind_iff (bundle_of (lit "discussion") bundles) _ (self_iff _) λ c.
          bind_iff (response_value p r c (lit "review-threads")) _ (self_iff _) λ w.
            bind_iff (graphql_pull_request v) _ (graphql_pull_request_iff v) λ metadata.
              bind_iff (graphql_pull_request w) _ (graphql_pull_request_iff w) λ threads.
                then_iff _ _
                  (each_iff (λ name. discard (check_connection metadata name))
                    (λ name.
                      discard_iff (check_connection metadata name)
                        (check_connection_iff metadata name))
                    _)
                  (bind_iff (check_connection threads (lit "reviewThreads")) _
                    (check_connection_iff threads (lit "reviewThreads"))
                    λ nodes. each_iff check_thread check_thread_iff nodes)
