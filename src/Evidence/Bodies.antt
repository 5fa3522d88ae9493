-- ===== src/Evidence/Bodies.antt =====
-- The hashes of human-written bodies: `canonical_human_body_id`, `human_body_hash_entry`,
-- `derive_human_body_hashes` and `validate_human_body_hashes` of
-- scripts/validate_governance_state.py. The entries are records here and become dicts in `to_value`.
use qing_yin.Prelude.{
  Bool, List, Option, Result, String, [], between, fail, false, if◌then◌else◌, map, none, not, ok,
  require, same, some, traverse, ℕ, ◌&&◌, ◌++◌, ◌==◌, ◌>>=◌, ◌>>◌, ◌||◌, ◌∷◌,
}
use qing_yin.Prelude.Order.{lex_order, nat_order}
use qing_yin.Prelude.Sort.{sorted_by}
use qing_yin.Text.{Text, lit, utf8_encode}
use qing_yin.Platform.{Platform}
use qing_yin.Numeral.{decimal, value}
use qing_yin.Json.{Fields, Value, entries, get, get_or_null, int, null, obj, of_entries, str}
use qing_yin.Json.Scalar.{validate_scalar}
use qing_yin.Integer.{require_positive_int}
use qing_yin.Shape.{dict, list, some_or_fail, text}
use qing_yin.Evidence.Request.{Pair, distinct_pairs, total_key}

-- `str.isspace` of one character: what `str.strip` takes off
abbrev pub is_space : ℕ → Bool
is_space c =
    between 9 13 c
    || between 28 32 c
    || c == 0x85
    || c == 0xa0
    || c == 0x1680
    || between 0x2000 0x200a c
    || between 0x2028 0x2029 c
    || c == 0x202f
    || c == 0x205f
    || c == 0x3000

abbrev last_is_space : Text → Bool
last_is_space [] = false
last_is_space (c ∷ []) = is_space c
last_is_space (_ ∷ c ∷ cs) = last_is_space (c ∷ cs)

-- `value.strip() == value and value`
unfoldable pub is_stripped : Text → Bool
is_stripped [] = false
is_stripped (c ∷ cs) = not (is_space c) && not (last_is_space (c ∷ cs))

abbrev text_id : Platform → Option Text → Result Text
text_id p none = fail "must be a non-empty immutable id"
text_id p (some s) = do
  require (is_stripped s) "must be a non-empty immutable id"
  validate_scalar p (str s)
  ok s

unfoldable pub canonical_human_body_id : Platform → Value → Result Text
unfolding decimal is_stripped text
canonical_human_body_id p (int n) = do id ← require_positive_int (int n); ok (decimal id)
canonical_human_body_id p v = text_id p (text v)

-- a body is missing, null or a string, and only a string has a hash
pub data Body : Type 0 where
  missing : Body
  null_body : Body
  hashed : Text → Body

pub record Entry : Type 0 where
  pub kind : Text
  pub immutable_id : Text
  pub body : Body

abbrev body_state : Platform → Option Value → Result Body
body_state p none = ok missing
body_state p (some null) = ok null_body
body_state p (some (str s)) = do bytes ← utf8_encode s; ok (hashed (p.sha256 bytes))
body_state p (some _) = fail "body must be missing, null, or a string"

-- `value.get("id")` stands for `immutable_id` at every call
unfoldable pub human_body_hash_entry : Platform → Text → Fields → Result Entry
unfolding canonical_human_body_id
human_body_hash_entry p kind value = do
  body ← body_state p (get (lit "body") value)
  id ← canonical_human_body_id p (get_or_null (lit "id") value)
  ok (record { kind = kind; immutable_id = id; body = body })

-- `value.get(key)` of an object that must be one
unfoldable pub inner : Text → Fields → Result Fields
unfolding dict
inner key fs = some_or_fail (dict (get_or_null key fs)) "must be an object"

unfoldable pub inner_list : Text → Fields → Result (List Value)
unfolding list
inner_list key fs = some_or_fail (list (get_or_null key fs)) "must be an array"

abbrev an_object : Value → Result Fields
an_object v = some_or_fail (dict v) "must be an object"

abbrev entry_of : Platform → Text → Value → Result Entry
entry_of p kind v = do fs ← an_object v; human_body_hash_entry p kind fs

-- an array of commented items
abbrev array_entries : Platform → Text → Value → Result (List Entry)
array_entries p kind v = do
  items ← some_or_fail (list v) "must be an array"
  traverse (entry_of p kind) items

unfoldable pub pull_request_of : Value → Result Fields
unfolding inner
pull_request_of v = do
  root ← an_object v
  payload ← inner (lit "data") root
  repository ← inner (lit "repository") payload
  inner (lit "pullRequest") repository

abbrev thread_entries : Platform → Value → Result (List Entry)
thread_entries p v = do
  thread ← an_object v
  comments ← inner (lit "comments") thread
  nodes ← inner_list (lit "nodes") comments
  traverse (entry_of p (lit "review-thread-comment-graphql")) nodes

abbrev concat : List (List Entry) → List Entry
concat [] = []
concat (x ∷ xs) = x ++ concat xs

abbrev review_thread_entries : Platform → Value → Result (List Entry)
review_thread_entries p v = do
  pull_request ← pull_request_of v
  review_threads ← inner (lit "reviewThreads") pull_request
  nodes ← inner_list (lit "nodes") review_threads
  entries ← traverse (thread_entries p) nodes
  ok (concat entries)

abbrev one : Result Entry → Result (List Entry)
one m = do e ← m; ok (e ∷ [])

-- the entries in the order of the response, by the label's case
unfoldable pub raw_entries : Platform → Text → Value → Result (List Entry)
unfolding human_body_hash_entry pull_request_of inner inner_list
raw_entries p label v =
    if same label (lit "pull")
    then one (entry_of p (lit "pull-rest") v)
    else if same label (lit "pull-metadata")
    then one (do pr ← pull_request_of v; human_body_hash_entry p (lit "pull-metadata-graphql") pr)
    else if same label (lit "post-merge-metadata")
    then one
        (do pr ← pull_request_of v; human_body_hash_entry p (lit "post-merge-metadata-graphql") pr)
    else if same label (lit "github-reviews")
    then array_entries p (lit "github-review-rest") v
    else if same label (lit "review-threads")
    then review_thread_entries p v
    else if same label (lit "issue-comments")
    then array_entries p (lit "issue-comment-rest") v
    else if same label (lit "attestation-comment")
    then one (entry_of p (lit "attestation-comment-rest") v)
    else ok []

abbrev pub identity : Entry → Pair
identity e = (e.kind, e.immutable_id)

-- The kinds are literals, and every id has passed `validate_scalar` or is a numeral, so no key of
-- the sort raises.
unfoldable pub derive_human_body_hashes : Platform → Text → Value → Result (List Entry)
unfolding raw_entries distinct_pairs
derive_human_body_hashes p label v = do
  values ← raw_entries p label v
  let sorted = sorted_by (λ e. total_key (identity e)) values
  require (distinct_pairs (map identity sorted)) "duplicate human body immutable id"
  ok sorted

abbrev state_text : Body → String
state_text missing = "missing"
state_text null_body = "null"
state_text (hashed _) = "string"

abbrev digest_value : Body → Value
digest_value missing = null
digest_value null_body = null
digest_value (hashed digest) = str digest

unfoldable pub to_value : Entry → Value
to_value e = obj (
    of_entries (
      (lit "kind", str e.kind)
      ∷ (lit "immutable_id", str e.immutable_id)
      ∷ (lit "field", str (lit "body"))
      ∷ (lit "state", str (lit (state_text e.body)))
      ∷ (lit "sha256", digest_value e.body)
      ∷ []))
