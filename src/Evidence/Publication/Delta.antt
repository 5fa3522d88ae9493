-- ===== src/Evidence/Publication/Delta.antt =====
-- `validate_publication_delta_v1` of scripts/validate_governance_state.py: what the publication of
-- the attestation may change between two snapshots.
use qing_yin.Prelude.{
  List, Result, [], contains, each, if◌then◌else◌, map, ok, require, ◌>>=◌, ◌>>◌, ◌∷◌,
}
use qing_yin.Text.{Text, lit}
use qing_yin.Platform.{Platform}
use qing_yin.Json.{Fields, Value, get_or_null, item, keys, obj}
use qing_yin.Json.Equality.{eq_value}
use qing_yin.Timestamp.{require_utc_timestamp}
use qing_yin.Shape.{dict, require_exact_object, same_set, some_or_fail, some_or_raise}
use qing_yin.Evidence.Access.{
  Bundles, add_one, bundle_of, nonnegative, require_equal, require_same_form, require_unchanged,
  subscript,
}
use qing_yin.Evidence.Attestation.{positive, require_item, require_text}
use qing_yin.Evidence.Bundle.{Reader}
use qing_yin.Evidence.Responses.{response_item, response_value}

abbrev pub delta_keys : List Text
delta_keys = map lit (
    "schema" ∷ "attestation_comment_id" ∷ "attestation_comment_created_at"
    ∷ "attestation_comment_updated_at" ∷ "pull_updated_at_before" ∷ "pull_updated_at_after"
    ∷ "pull_comments_before" ∷ "pull_comments_after" ∷ [])

-- the form of the delta
unfoldable pub check_delta : Value → Result Fields
unfolding require_text require_item
check_delta v = do
  delta ← require_exact_object v delta_keys
  require_text delta (lit "schema") (lit "gvn-publication-delta-v1")
      "publication delta schema mismatch"
  require_item delta positive (lit "attestation_comment_id")
  each (require_item delta require_utc_timestamp) (
      map lit (
        "attestation_comment_created_at" ∷ "attestation_comment_updated_at"
        ∷ "pull_updated_at_before" ∷ "pull_updated_at_after" ∷ []))
  each (require_item delta nonnegative)
      (map lit ("pull_comments_before" ∷ "pull_comments_after" ∷ []))
  ok delta

abbrev pub changeable_components : List Text
changeable_components = map lit ("pr" ∷ "metadata" ∷ "discussion" ∷ [])

-- one round of the loop over the components
unfoldable pub check_component : Platform → Bundles → Bundles → Text → Result (Unit {0})
unfolding bundle_of require_same_form
check_component p pre snapshot component =
    if contains component changeable_components then ok tt else (do
      before ← bundle_of component pre
      after ← bundle_of component snapshot
      require_same_form p (obj before) (obj after) "publication changed forbidden component")

-- one round of a loop over the keys of an object
unfoldable pub check_key : List Text → Fields → Fields → Text → Result (Unit {0})
unfolding require_unchanged
check_key changeable before after key =
    if contains key changeable
    then ok tt
    else require_unchanged before after "field changed across publication" key

-- the pull request of the REST endpoint
unfoldable pub check_pull : Platform → Reader → Fields → Bundles → Bundles → Result (Unit {0})
unfolding check_key require_equal
check_pull p r delta pre snapshot = do
  before_bundle ← bundle_of (lit "pr") pre
  before_value ← response_value p r before_bundle (lit "pull")
  after_bundle ← bundle_of (lit "pr") snapshot
  after_value ← response_value p r after_bundle (lit "pull")
  before ← some_or_fail (dict before_value) "pull responses must be objects"
  after ← some_or_fail (dict after_value) "pull responses must be objects"
  require (same_set (keys before) (keys after)) "pull response keys changed across publication"
  positive (get_or_null (lit "number") before)
  positive (get_or_null (lit "number") after)
  nonnegative (get_or_null (lit "comments") before)
  nonnegative (get_or_null (lit "comments") after)
  each (check_key (lit "updated_at" ∷ lit "comments" ∷ []) before after) (keys before)
  require_equal delta (lit "pull_updated_at_before") (get_or_null (lit "updated_at") before)
      "publication delta pull_updated_at_before mismatch"
  require_equal delta (lit "pull_updated_at_after") (get_or_null (lit "updated_at") after)
      "publication delta pull_updated_at_after mismatch"
  require_equal delta (lit "pull_comments_before") (get_or_null (lit "comments") before)
      "publication delta pull_comments_before mismatch"
  require_equal delta (lit "pull_comments_after") (get_or_null (lit "comments") after)
      "publication delta pull_comments_after mismatch"
  count_after ← item (lit "pull_comments_after") delta
  count_before ← item (lit "pull_comments_before") delta
  next ← add_one count_before
  require (eq_value count_after next) "publication must increase pull comment count by exactly one"

-- `response["data"]["repository"]["pullRequest"]`, which is an object in a package whose requests
-- are bound
unfoldable pub metadata_pull_request : Value → Result Fields
unfolding subscript
metadata_pull_request response = do
  top ← subscript (lit "data") response
  repository ← subscript (lit "repository") top
  pull_request ← subscript (lit "pullRequest") repository
  some_or_raise (dict pull_request) "TypeError"

-- the pull request of the GraphQL endpoint
unfoldable pub check_metadata : Platform → Reader → Fields → Bundles → Bundles → Result (Unit {0})
unfolding metadata_pull_request check_key require_equal
check_metadata p r delta pre snapshot = do
  before_bundle ← bundle_of (lit "metadata") pre
  before_item ← response_item before_bundle (lit "pull-metadata")
  after_bundle ← bundle_of (lit "metadata") snapshot
  after_item ← response_item after_bundle (lit "pull-metadata")
  require_unchanged before_item after_item "pull metadata request changed across publication"
      (lit "request")
  before_value ← response_value p r before_bundle (lit "pull-metadata")
  before ← metadata_pull_request before_value
  after_value ← response_value p r after_bundle (lit "pull-metadata")
  after ← metadata_pull_request after_value
  require (same_set (keys before) (keys after)) "pull metadata fields changed across publication"
  each (check_key (lit "updatedAt" ∷ []) before after) (keys before)
  require_equal delta (lit "pull_updated_at_before") (get_or_null (lit "updatedAt") before)
      "publication metadata updatedAt before mismatch"
  require_equal delta (lit "pull_updated_at_after") (get_or_null (lit "updatedAt") after)
      "publication metadata updatedAt after mismatch"
