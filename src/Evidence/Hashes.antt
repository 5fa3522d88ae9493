-- ===== src/Evidence/Hashes.antt =====
-- `validate_human_body_hashes` of scripts/validate_governance_state.py.
pub mod Accepted
use qing_yin.Prelude.{List, Result, [], if◌then◌else◌, map, ok, require, traverse, ◌>>=◌, ◌>>◌, ◌∷◌}
use qing_yin.Text.{Text, lit}
use qing_yin.Platform.{Platform}
use qing_yin.Numeral.{is_positive_decimal, value}
use qing_yin.Json.{Value, is_null, is_text, item, keys}
use qing_yin.Shape.{list, require_exact_object, require_sha256, some_or_fail, text}
use qing_yin.Evidence.Request.{Pair, distinct_pairs, is_one_of, same_pairs, sorted_pairs}
use qing_yin.Evidence.Bodies.{canonical_human_body_id}

abbrev pub entry_keys : List Text
entry_keys = map lit ("kind" ∷ "immutable_id" ∷ "field" ∷ "state" ∷ "sha256" ∷ [])

abbrev pub rest_kinds : List Text
rest_kinds =
    map lit
      ("pull-rest" ∷ "github-review-rest" ∷ "issue-comment-rest" ∷ "attestation-comment-rest" ∷ [])

abbrev pub body_kinds : List Text
body_kinds = map lit (
    "pull-rest" ∷ "pull-metadata-graphql" ∷ "post-merge-metadata-graphql" ∷ "github-review-rest"
    ∷ "review-thread-comment-graphql" ∷ "issue-comment-rest" ∷ "attestation-comment-rest" ∷ [])

-- the hash that goes with a state
unfoldable pub check_hash : Value → Value → Result (Unit {0})
check_hash state digest =
    if is_text (lit "string") state
    then require_sha256 digest
    else require (is_null digest) "sha256 must be null"

-- One round of the loop. An accepted entry has a kind and an id that are strings, and they come
-- back as its place in the order.
unfoldable pub validate_entry : Platform → Value → Result Pair
unfolding is_one_of check_hash
validate_entry p v = do
  entry ← require_exact_object v entry_keys
  kind ← item (lit "kind") entry
  require (is_one_of kind body_kinds) "kind invalid"
  kind_text ← some_or_fail (text kind) "kind invalid"
  id ← item (lit "immutable_id") entry
  id_text ← some_or_fail (text id) "immutable_id must be a string"
  _ ← canonical_human_body_id p id
  if is_one_of kind rest_kinds
      then require (is_positive_decimal id_text) "immutable_id must be an unpadded REST decimal id"
      else ok tt
  field' ← item (lit "field") entry
  require (is_text (lit "body") field') "field must be body"
  state ← item (lit "state") entry
  require (is_one_of state (map lit ("missing" ∷ "null" ∷ "string" ∷ []))) "state invalid"
  digest ← item (lit "sha256") entry
  check_hash state digest
  ok (kind_text, id_text)

-- the array as it was given comes back
unfoldable pub validate_human_body_hashes : Platform → Value → Result (List Value)
unfolding validate_entry distinct_pairs same_pairs sorted_pairs
validate_human_body_hashes p value = do
  items ← some_or_fail (list value) "must be an array"
  keys ← traverse (validate_entry p) items
  require (distinct_pairs keys) "contains duplicate kind/id pairs"
  ascending ← sorted_pairs keys
  require (same_pairs keys ascending) "is not canonically sorted"
  ok items
