-- ===== src/Evidence/Bindings/Bound.antt =====
-- What it means that the requests of a package are bound to its identity.
use qing_yin.Prelude.{
  All, List, Option, String, [], contains, none, ok, refl, some, true, ◌&&◌, ◌↔◌, ◌∷◌, ◌≡◌, ◌⊎◌,
}
use qing_yin.Prelude.Checks.{
  and_iff, bind_iff, branch_iff, each_iff, iff_trans, require_iff, self_iff, then_iff,
}
use qing_yin.Prelude.Int.{pos}
use qing_yin.Text.{Text, lit}
use qing_yin.Json.{Fields, Value, end, field, get, get_or_null, int, is_text, item, keys, obj, str}
use qing_yin.Json.Equality.{eq_value}
use qing_yin.Shape.{dict, require_exact_object, same_set, some_or_raise, text}
use qing_yin.Shape.Digests.{
  Has, HasText, HasText-of_get_or_null, is_text_iff, item_iff, require_exact_object_iff, text_iff,
}
use qing_yin.Evidence.Access.{Bundles, bundle_of, subscript}
use qing_yin.Evidence.Access.Read.{Same, raise_dict_iff, some_or_raise_iff, subscript_iff}
use qing_yin.Evidence.Responses.{response_item, responses_of}
use qing_yin.Evidence.Bindings.{
  Identity, check_binding, check_bindings, check_graphql, derived_labels, expected_path,
  expected_query, graphql_query, require_path, require_request, variable_names,
}

-- the request of a response has this value at a key
abbrev pub Requests : Fields → Text → Value → Type 0
Requests response key v =
    Has response (lit "request") (λ request.
      (w : Value) × ((d : Fields) × (request ≡ obj d) × (get key d ≡ some w)) × Same w v)

pub require_request_iff :
    (response : Fields) (key : Text) (v : Value) (message : String)
    → (require_request response key v message ≡ ok tt) ↔ Requests response key v
unfolding require_request
require_request_iff response key v message =
    bind_iff (item (lit "request") response) _ (item_iff (lit "request") response) λ request.
      bind_iff (subscript key request) _ (subscript_iff key request)
        λ w. require_iff (eq_value w v) _

pub raise_text_iff :
    (v : Value) (error : String) (t : Text) → (some_or_raise (text v) error ≡ ok t) ↔ (v ≡ str t)
raise_text_iff v error t = iff_trans (some_or_raise_iff (text v) error t) (text_iff v t)

-- the path is the one of the table, if the label has one
abbrev pub HasPath : Fields → Option Text → Type 0
HasPath response none = Unit
HasPath response (some path) = Requests response (lit "path") (str path)

require_path_iff :
    (response : Fields) (path : Option Text)
    → (require_path response path ≡ ok tt) ↔ HasPath response path
require_path_iff response none = (λ h. tt, λ h. refl)
require_path_iff response (some path) = require_request_iff response (lit "path") (str path) _

-- a derived operation is described by its label
abbrev pub HasOperation : Fields → Text → Type 0
HasOperation response label =
    ((contains label derived_labels ≡ true)
      × Requests response (lit "body") (obj (field (lit "label") (str label) end)))
    ⊎ (((contains label derived_labels ≡ true) → ⊥) × Unit {0})

-- a response whose request has the path, the query and the operation that go with its label
abbrev pub IsBoundResponse : Identity → Value → Type 0
IsBoundResponse i v =
    (response : Fields) × (v ≡ obj response)
    × Has response (lit "label") (λ given.
      (label : Text) × (given ≡ str label)
      × (HasPath response (expected_path i label)
          × (Requests response (lit "query") (expected_query i label)
              × HasOperation response label)))

check_binding_iff : (i : Identity) (v : Value) → (check_binding i v ≡ ok tt) ↔ IsBoundResponse i v
unfolding check_binding
check_binding_iff i v =
    bind_iff (some_or_raise (dict v) "TypeError") _ (raise_dict_iff v "TypeError") λ response.
      bind_iff (item (lit "label") response) _ (item_iff (lit "label") response) λ given.
        bind_iff (some_or_raise (text given) "TypeError") _ (raise_text_iff given "TypeError")
          λ label. then_iff _ _ (require_path_iff response (expected_path i label)) (
            then_iff _ _ (require_request_iff response (lit "query") (expected_query i label) _) (
              branch_iff (contains label derived_labels) _ (ok tt) (λ h. h, λ h. h)
                (require_request_iff response (lit "body") _ _) (λ h. tt, λ u. refl)))

abbrev pub AreBound : Identity → Bundles → Type 0
AreBound i [] = Unit
AreBound i ((c, bundle) ∷ bundles) =
    ((vs : List Value) × (responses_of bundle ≡ ok vs) × All (IsBoundResponse i) vs)
    × AreBound i bundles

pub check_bindings_iff :
    (i : Identity) (bundles : Bundles) → (check_bindings i bundles ≡ ok tt) ↔ AreBound i bundles
unfolding check_bindings
check_bindings_iff i [] = (λ h. tt, λ h. refl)
check_bindings_iff i ((c, bundle) ∷ bundles) =
    iff_trans
      (bind_iff (responses_of bundle) _ (self_iff (responses_of bundle)) λ vs.
        then_iff _ _ (each_iff (check_binding i) (check_binding_iff i) vs)
          (check_bindings_iff i bundles))
      (λ (vs, e, (p, q)). ((vs, e, p), q), λ ((vs, e, p), q). (vs, e, (p, q)))

-- The GraphQL request of a label has the script's text and the variables of the pull request.
abbrev pub IsQueried : Identity → Bundles → Text × Text → Type 0
IsQueried i bundles (label, component) =
    (bundle : Fields) × (bundle_of component bundles ≡ ok bundle)
    × ((response : Fields) × (response_item bundle label ≡ ok response)
        × Has response (lit "request") (λ request.
          (body_value : Value) × ((d : Fields) × (request ≡ obj d)
            × (get (lit "body") d ≡ some body_value))
          × ((body : Fields) × ((body_value ≡ obj body)
                × (same_set (keys body) (lit "query" ∷ lit "variables" ∷ []) ≡ true))
              × Has body (lit "query") (λ query.
                (query ≡ str (graphql_query label))
                × Has body (lit "variables") (λ variables_value.
                  (variables : Fields) × ((variables_value ≡ obj variables)
                    × (same_set (keys variables) variable_names ≡ true))
                  × ((HasText variables (lit "owner") (lit "ZhangIvan")
                        × HasText variables (lit "name") (lit "QingYin"))
                      × Same (get_or_null (lit "number") variables) (int (pos i.pr_number))))))))

pub check_graphql_iff :
    (i : Identity) (bundles : Bundles) (l : Text × Text)
    → (check_graphql i bundles l ≡ ok tt) ↔ IsQueried i bundles l
unfolding check_graphql
check_graphql_iff i bundles (label, component) =
    bind_iff (bundle_of component bundles) _ (self_iff (bundle_of component bundles)) λ bundle.
      bind_iff (response_item bundle label) _ (self_iff (response_item bundle label)) λ response.
        bind_iff (item (lit "request") response) _ (item_iff (lit "request") response) λ request.
          bind_iff (subscript (lit "body") request) _ (subscript_iff (lit "body") request) λ b.
            bind_iff (require_exact_object b (lit "query" ∷ lit "variables" ∷ [])) _
              (require_exact_object_iff b (lit "query" ∷ lit "variables" ∷ []))
              λ body. bind_iff (item (lit "query") body) _ (item_iff (lit "query") body) λ query.
                then_iff _ _ (iff_trans (require_iff _ _) (is_text_iff (graphql_query label) query))
                  (bind_iff (item (lit "variables") body) _ (item_iff (lit "variables") body) λ w.
                    bind_iff (require_exact_object w variable_names) _
                      (require_exact_object_iff w variable_names)
                      λ variables. iff_trans (require_iff _ _) (
                        and_iff
                          (is_text (lit "ZhangIvan") (get_or_null (lit "owner") variables)
                            && is_text (lit "QingYin") (get_or_null (lit "name") variables))
                          (eq_value (get_or_null (lit "number") variables) (int (pos i.pr_number)))
                          (and_iff (is_text (lit "ZhangIvan") (get_or_null (lit "owner") variables))
                            (is_text (lit "QingYin") (get_or_null (lit "name") variables))
                            (HasText-of_get_or_null (lit "owner") (lit "ZhangIvan") variables)
                            (HasText-of_get_or_null (lit "name") (lit "QingYin") variables))
                          (λ h. h, λ h. h)))
