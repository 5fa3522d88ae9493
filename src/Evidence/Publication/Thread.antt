-- ===== src/Evidence/Publication/Thread.antt =====
-- The part of `validate_publication_delta_v1` of scripts/validate_governance_state.py about the
-- discussion: the attestation comment is the one comment that is new.
use qing_yin.Prelude.{
  Bool, List, Option, Result, [], each, false, length, none, not, ok, require, some, traverse, true,
  ℕ, ◌&&◌, ◌+◌, ◌==◌, ◌>>=◌, ◌>>◌, ◌||◌, ◌∷◌,
}
use qing_yin.Text.{lit}
use qing_yin.Text.Utf8.{utf8_decode}
use qing_yin.Platform.{Platform}
use qing_yin.Json.{Fields, Value, arr, get_or_null, int, is_text, item, null, obj, of_elements}
use qing_yin.Json.Equality.{eq_value}
use qing_yin.Json.Canonical.{canonical_json_v1}
use qing_yin.Integer.{require_positive_int}
use qing_yin.Timestamp.Order.{no_later}
use qing_yin.Prelude.Int.{pos}
use qing_yin.Shape.{dict, list, some_or_fail, some_or_raise}
use qing_yin.Evidence.Access.{
  Bundles, bundle_of, earlier, require_equal, require_same_form, strptime,
}
use qing_yin.Evidence.Attestation.{positive}
use qing_yin.Evidence.Inventory.{pre_attestation_components}
use qing_yin.Evidence.Bundle.{Reader}
use qing_yin.Evidence.Responses.{response_value}
use qing_yin.Evidence.Publication.{validate_issue_comment_endpoint_equivalence}
use qing_yin.Evidence.Publication.Delta.{check_component, check_delta, check_metadata, check_pull}

-- `item.get("id") if isinstance(item, dict) else None`
abbrev pub given_id : Option Fields → Value
given_id none = null
given_id (some d) = get_or_null (lit "id") d

-- the positive id of a comment of the list
unfoldable pub comment_id : Value → Result ℕ
unfolding dict
comment_id v = require_positive_int (given_id (dict v))

abbrev pub member : ℕ → List ℕ → Bool
member n [] = false
member n (m ∷ ms) = n == m || member n ms

-- `len(set(ids)) == len(ids)`
abbrev pub distinct_ids : List ℕ → Bool
distinct_ids [] = true
distinct_ids (n ∷ ns) = not (member n ns) && distinct_ids ns

-- `comments[:-1]` and `comments[-1]`
abbrev pub init {ℓ} : {A : Type ℓ} → List A → List A
init [] = []
init (x ∷ []) = []
init (x ∷ y ∷ xs) = x ∷ init (y ∷ xs)

abbrev pub last {ℓ} : {A : Type ℓ} → List A → Option A
last [] = none
last (x ∷ []) = some x
last (x ∷ y ∷ xs) = last (y ∷ xs)

abbrev pub an_array : List Value → Value
an_array vs = arr (of_elements vs)

-- the comments of the two snapshots, and the comment of the single endpoint
pub record Thread : Type 0 where
  pub before : List Value
  pub after : List Value
  pub comment : Fields
  pub user : Fields

unfoldable pub read_thread : Platform → Reader → Bundles → Bundles → Result Thread
unfolding bundle_of dict list
read_thread p r pre snapshot = do
  pre_discussion ← bundle_of (lit "discussion") pre
  snapshot_discussion ← bundle_of (lit "discussion") snapshot
  threads_before ← response_value p r pre_discussion (lit "review-threads")
  threads_after ← response_value p r snapshot_discussion (lit "review-threads")
  require (eq_value threads_before threads_after)
      "review threads changed across attestation publication"
  pre_comments ← response_value p r pre_discussion (lit "issue-comments")
  snapshot_comments ← response_value p r snapshot_discussion (lit "issue-comments")
  attestation_bundle ← bundle_of (lit "attestation") snapshot
  comment_value ← response_value p r attestation_bundle (lit "attestation-comment")
  before ← some_or_fail (list pre_comments) "issue-comments responses must be arrays"
  after ← some_or_fail (list snapshot_comments) "issue-comments responses must be arrays"
  comment ← some_or_fail (dict comment_value) "attestation comment response shape invalid"
  user ←
      some_or_fail (dict (get_or_null (lit "user") comment))
        "attestation comment response shape invalid"
  ok (record { before = before; after = after; comment = comment; user = user })

-- the new comment is appended, and is the single endpoint's
unfoldable pub check_appended : Platform → Thread → Result (Unit {0})
unfolding comment_id require_same_form
check_appended p t = do
  own_id ← require_positive_int (get_or_null (lit "id") t.comment)
  positive (get_or_null (lit "id") t.user)
  ids_before ← traverse comment_id t.before
  ids_after ← traverse comment_id t.after
  require (distinct_ids ids_before) "pre-snapshot comment ids are not unique"
  require (distinct_ids ids_after) "snapshot comment ids are not unique"
  require (length t.after == length t.before + 1)
      "publication must append exactly one attestation comment"
  require_same_form p (an_array (init t.after)) (an_array t.before)
      "publication changed existing comment prefix"
  newest ← some_or_raise (last t.after) "IndexError"
  validate_issue_comment_endpoint_equivalence p newest (obj t.comment)
  require (not (member own_id ids_before))
      "attestation comment id already existed before publication"

-- the comment against the delta and the attestation
unfoldable pub check_author : Platform → Fields → Fields → Thread → Result (Unit {0})
unfolding require_equal utf8_decode
check_author p delta attestation t = do
  require_equal delta (lit "attestation_comment_id") (get_or_null (lit "id") t.comment)
      "publication delta comment id mismatch"
  require_equal delta (lit "attestation_comment_created_at")
      (get_or_null (lit "created_at") t.comment) "publication delta comment created_at mismatch"
  require_equal delta (lit "attestation_comment_updated_at")
      (get_or_null (lit "updated_at") t.comment) "publication delta comment updated_at mismatch"
  require_equal attestation (lit "attestor_login") (get_or_null (lit "login") t.user)
      "publication comment author identity mismatch"
  require_equal attestation (lit "attestor_id") (get_or_null (lit "id") t.user)
      "publication comment author identity mismatch"
  bytes ← canonical_json_v1 p (obj attestation)
  body ← some_or_raise (utf8_decode bytes) "UnicodeDecodeError"
  require (is_text body (get_or_null (lit "body") t.comment))
      "publication comment body differs from canonical attestation"
  updated ← item (lit "attestation_comment_updated_at") delta
  require_equal delta (lit "pull_updated_at_after") updated
      "pull updated_at is not attributable to the attestation comment"
  require_equal delta (lit "pull_comments_before") (int (pos (length t.before)))
      "pull comment count does not match pre-snapshot comments"
  require_equal delta (lit "pull_comments_after") (int (pos (length t.after)))
      "pull comment count does not match snapshot comments"

-- the publication lies between the cutoffs of the snapshots
unfoldable pub check_interval : Fields → Value → Value → Result (Unit {0})
unfolding strptime
check_interval delta pre_cutoff snapshot_cutoff = do
  pre_time ← strptime pre_cutoff
  snapshot_time ← strptime snapshot_cutoff
  created ← item (lit "attestation_comment_created_at") delta
  created_time ← strptime created
  updated ← item (lit "attestation_comment_updated_at") delta
  updated_time ← strptime updated
  require
      (earlier pre_time created_time
        && no_later created_time updated_time
        && no_later updated_time snapshot_time)
      "attestation publication timestamps fall outside snapshot cutoffs"

unfoldable pub validate_publication_delta_v1 :
    Platform → Reader → Value → Bundles → Bundles → Fields → Value → Value → Result (Unit {0})
unfolding check_delta check_component check_pull check_metadata read_thread check_appended
    check_author check_interval
validate_publication_delta_v1 p r v pre snapshot attestation pre_cutoff snapshot_cutoff = do
  delta ← check_delta v
  each (check_component p pre snapshot) pre_attestation_components
  check_pull p r delta pre snapshot
  check_metadata p r delta pre snapshot
  thread ← read_thread p r pre snapshot
  check_appended p thread
  check_author p delta attestation thread
  check_interval delta pre_cutoff snapshot_cutoff
