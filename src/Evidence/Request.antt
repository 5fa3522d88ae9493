-- ===== src/Evidence/Request.antt =====
-- `validate_request_v1` of scripts/validate_governance_state.py.
pub mod Sources
pub mod Query
pub mod Accepted
use qing_yin.Prelude.{
  Bool, List, Option, Result, [], all, any, fail, false, if◌then◌else◌, map, none, not, ok, require,
  same, some, traverse, true, ◌&&◌, ◌==◌, ◌>>=◌, ◌>>◌, ◌||◌, ◌∷◌,
}
use qing_yin.Prelude.Order.{lex_order, nat_order}
use qing_yin.Prelude.Sort.{sorted_by}
use qing_yin.Text.{Bytes, Text, lit, utf16_be, utf16_sort_key}
use qing_yin.Json.{Value, arr, is_null, is_text, item, obj}
use qing_yin.Shape.{list, require_exact_object, some_or_fail, string_list, text}

abbrev pub request_keys : List Text
request_keys =
    map lit ("schema" ∷ "source" ∷ "method" ∷ "authority" ∷ "path" ∷ "query" ∷ "body" ∷ [])

-- `value in (a, b, ...)` for strings
unfoldable pub is_one_of : Value → List Text → Bool
is_one_of v [] = false
is_one_of v (t ∷ ts) = is_text t v || is_one_of v ts

-- `isinstance(value, (dict, list))`
unfoldable pub is_container : Value → Bool
is_container (obj _) = true
is_container (arr _) = true
is_container _ = false

-- `text.startswith("/") and "?" not in text`
unfoldable pub is_request_path : Option Text → Bool
is_request_path none = false
is_request_path (some []) = false
is_request_path (some (c ∷ cs)) = (c == b'/') && all (λ x. not (x == b'?')) (c ∷ cs)

abbrev pub Pair : Type 0
Pair = Text × Text

abbrev pair_of : Option (List Text) → Result Pair
pair_of (some (a ∷ b ∷ [])) = ok (a, b)
pair_of _ = fail "query item must be a string pair"

unfoldable pub query_pair : Value → Result Pair
query_pair v = pair_of (string_list (list v))

abbrev pub same_pair : Pair → Pair → Bool
same_pair (a, b) (c, d) = same a c && same b d

unfoldable pub distinct_pairs : List Pair → Bool
distinct_pairs [] = true
distinct_pairs (x ∷ xs) = not (any (same_pair x) xs) && distinct_pairs xs

unfoldable pub same_pairs : List Pair → List Pair → Bool
same_pairs [] [] = true
same_pairs (x ∷ xs) (y ∷ ys) = same_pair x y && same_pairs xs ys
same_pairs _ _ = false

unfoldable pub pair_key : Pair → Result (List Bytes)
pair_key (a, b) = do x ← utf16_sort_key a; y ← utf16_sort_key b; ok (x ∷ y ∷ [])

-- the same key, of a pair that `pair_key` takes
abbrev pub total_key : Pair → List Bytes
total_key (a, b) = utf16_be a ∷ utf16_be b ∷ []

-- `sorted(pairs, key=...)`
unfoldable pub sorted_pairs : List Pair → Result (List Pair)
unfolding pair_key
sorted_pairs xs = do _ ← traverse pair_key xs; ok (sorted_by total_key xs)

unfoldable pub check_query : Value → Result (Unit {0})
unfolding list query_pair distinct_pairs same_pairs sorted_pairs
check_query v = do
  items ← some_or_fail (list v) "request query must be an array"
  pairs ← traverse query_pair items
  require (distinct_pairs pairs) "request query contains duplicate pairs"
  ascending ← sorted_pairs pairs
  require (same_pairs pairs ascending) "request query is not canonically sorted"

unfoldable pub check_github : Value → Value → Value → Result (Unit {0})
unfolding is_one_of is_container
check_github authority method body = do
  require (is_text (lit "api.github.com") authority) "GitHub request authority mismatch"
  require (is_one_of method (map lit ("GET" ∷ "POST" ∷ "PUT" ∷ []))) "GitHub request method invalid"
  if is_text (lit "GET") method
      then require (is_null body) "GET request body must be null"
      else require (is_container body) "POST/PUT request body preimage must be embedded JSON"

-- the entry of `expected` for a source
abbrev expected_authority : Value → Text
expected_authority source =
    if is_text (lit "git") source
    then lit "ZhangIvan/QingYin"
    else if is_text (lit "agent") source
    then lit "codex-orchestrator"
    else lit "local"

abbrev expected_method : Value → Text
expected_method source =
    if is_text (lit "git") source
    then lit "READ"
    else if is_text (lit "agent") source
    then lit "READ"
    else lit "DERIVE"

unfoldable pub check_local : Value → Value → Value → Value → Result (Unit {0})
unfolding is_one_of is_container
check_local source authority method body = do
  require (is_text (expected_authority source) authority && is_text (expected_method source) method)
      "request authority/method mismatch"
  if is_one_of source (map lit ("git" ∷ "agent" ∷ []))
      then require (is_null body) "request body must be null"
      else require (is_container body) "derived request body must embed its canonical input"

-- the test of the source's own rule
unfoldable pub check_source : Value → Value → Value → Value → Result (Unit {0})
unfolding check_github check_local
check_source source authority method body =
    if is_text (lit "github-api") source
    then check_github authority method body
    else check_local source authority method body

unfoldable pub validate_request_v1 : Value → Result (Unit {0})
unfolding is_request_path
validate_request_v1 v = do
  request ← require_exact_object v request_keys
  schema ← item (lit "schema") request
  require (is_text (lit "gvn-request-v1") schema) "request schema mismatch"
  source ← item (lit "source") request
  require (is_one_of source (map lit ("github-api" ∷ "git" ∷ "agent" ∷ "derived" ∷ [])))
      "request source invalid"
  path ← item (lit "path") request
  require (is_request_path (text path)) "request path invalid"
  query ← item (lit "query") request
  check_query query
  authority ← item (lit "authority") request
  method ← item (lit "method") request
  body ← item (lit "body") request
  check_source source authority method body
