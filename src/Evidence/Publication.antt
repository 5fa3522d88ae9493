-- ===== src/Evidence/Publication.antt =====
-- `validate_issue_comment_endpoint_equivalence` of scripts/validate_governance_state.py: the same
-- comment, as the list endpoint and the single endpoint of GitHub return it.
pub mod Comments
pub mod Delta
pub mod Thread
pub mod Changes
pub mod Pulls
pub mod Appended
pub mod Snapshots
pub mod Accepted
use qing_yin.Prelude.{
  Bool, List, Option, Result, [], all, contains, each, false, if◌then◌else◌, map, none, not, ok,
  require, same, some, ℕ, ◌>>=◌, ◌>>◌, ◌||◌, ◌∷◌,
}
use qing_yin.Text.{Text, lit}
use qing_yin.Platform.{Platform}
use qing_yin.Numeral.{decimal}
use qing_yin.Regex.{Regex, any_of, chars, fullmatch, many, optional, pieces, word}
use qing_yin.Json.{Fields, Value, end, entries, field, get, get_or_null, is_null, item, keys, obj}
use qing_yin.Json.Canonical.{canonical_json_v1}
use qing_yin.Integer.{require_positive_int}
use qing_yin.Shape.{dict, is_hex, some_or_fail, text}
use qing_yin.Evidence.Request.{is_container}

abbrev pub native_comment_keys : List Text
native_comment_keys = map lit (
    "url" ∷ "html_url" ∷ "issue_url" ∷ "id" ∷ "node_id" ∷ "user" ∷ "created_at" ∷ "updated_at"
    ∷ "author_association" ∷ "body" ∷ "reactions" ∷ "performed_via_github_app" ∷ "pin" ∷ "minimized"
    ∷ [])

abbrev pub native_comment_user_keys : List Text
native_comment_user_keys = map lit (
    "login" ∷ "id" ∷ "node_id" ∷ "avatar_url" ∷ "gravatar_id" ∷ "url" ∷ "html_url" ∷ "followers_url"
    ∷ "following_url" ∷ "gists_url" ∷ "starred_url" ∷ "subscriptions_url" ∷ "organizations_url"
    ∷ "repos_url" ∷ "events_url" ∷ "received_events_url" ∷ "type" ∷ "user_view_type" ∷ "site_admin"
    ∷ [])

abbrev pub native_comment_reaction_keys : List Text
native_comment_reaction_keys = map lit (
    "url" ∷ "total_count" ∷ "+1" ∷ "-1" ∷ "laugh" ∷ "hooray" ∷ "confused" ∷ "heart" ∷ "rocket"
    ∷ "eyes" ∷ [])

-- `set(d).issubset(names)`
abbrev pub has_only : List Text → Fields → Bool
has_only names d = all (λ k. contains k names) (keys d)

abbrev pub is_flat : Value → Bool
is_flat v = not (is_container v)

abbrev pub flat_items : Fields → Bool
flat_items d = all (λ (e : Text × Value). is_flat e.1) (entries d)

-- `d.pop(key, None)`
abbrev pub without : Text → Fields → Fields
without k end = end
without k (field j v fs) = if same j k then fs else field j v (without k fs)

-- `d[key] = value`
abbrev pub put : Text → Value → Fields → Fields
put k w end = field k w end
put k w (field j v fs) = if same j k then field j w fs else field j v (put k w fs)

abbrev pub nullable_fields : List Text
nullable_fields = map lit ("minimized" ∷ "performed_via_github_app" ∷ [])

-- `key not in item or item[key] is None`
abbrev pub absent_or_null : Fields → Text → Bool
absent_or_null item key = is_null (get_or_null key item)

-- `if "reactions" in item: …`
unfoldable pub check_reactions : Option Value → Result (Unit {0})
unfolding dict
check_reactions none = ok tt
check_reactions (some v) = do
  reactions ← some_or_fail (dict v) "publication reactions have unknown native fields"
  require (has_only native_comment_reaction_keys reactions)
      "publication reactions have unknown native fields"
  require (flat_items reactions) "publication reaction field has unexpected nested content"

abbrev pub is_flat_entry : Text × Value → Bool
is_flat_entry (k, v) = contains k (lit "user" ∷ lit "reactions" ∷ []) || is_flat v

-- one round of the first loop
unfoldable pub check_native : Fields → Result (Unit {0})
unfolding check_reactions
check_native item = do
  require (has_only native_comment_keys item) "publication comment has unknown native fields"
  require (absent_or_null item (lit "pin")) "publication comment pin must be absent or null"
  each
      (λ key.
        require (absent_or_null item key) "publication comment is outside the frozen owner profile")
      nullable_fields
  check_reactions (get (lit "reactions") item)
  require (all is_flat_entry (entries item))
      "publication native scalar field has unexpected nested content"

-- one round of the second loop; the user and its id come back
unfoldable pub check_user : Value → Result (Fields × ℕ)
unfolding dict
check_user v = do
  user ← some_or_fail (dict v) "publication comment user must be an object"
  number ← require_positive_int (get_or_null (lit "id") user)
  require (has_only native_comment_user_keys user) "publication user has unknown native fields"
  require (flat_items user) "publication user field has unexpected nested content"
  ok (user, number)

-- the pattern of the avatar URL of the user with this id
unfoldable pub avatar_pattern : ℕ → Regex
unfolding chars
avatar_pattern number = pieces (
    word "https://avatars.githubusercontent.com"
    ∷ optional (word ":443")
    ∷ word "/u/"
    ∷ chars (decimal number)
    ∷ word "?"
    ∷ any_of (word "v=4") (pieces (word "u=" ∷ many is_hex 40 (some 40) ∷ word "&v=4" ∷ []) ∷ [])
    ∷ [])

abbrev pub is_avatar : ℕ → Option Text → Bool
is_avatar number none = false
is_avatar number (some url) = fullmatch (λ c. false) (avatar_pattern number) url

-- one round of the third loop: the comment with the user's copy
unfoldable pub check_avatar : Fields → Fields × ℕ → Result Fields
unfolding text
check_avatar item (user, number) = do
  require (is_avatar number (text (get_or_null (lit "avatar_url") user)))
      "publication comment avatar URL is outside the frozen native profile"
  ok (put (lit "user") (obj (without (lit "avatar_url") user)) (without (lit "pin") item))

unfoldable pub validate_issue_comment_endpoint_equivalence :
    Platform → Value → Value → Result (Unit {0})
unfolding check_native check_user check_avatar
validate_issue_comment_endpoint_equivalence p list_comment single_comment = do
  left ← some_or_fail (dict list_comment) "publication comments must be objects"
  right ← some_or_fail (dict single_comment) "publication comments must be objects"
  check_native left
  check_native right
  left_user ← check_user (get_or_null (lit "user") left)
  right_user ← check_user (get_or_null (lit "user") right)
  left_rest ← check_avatar left left_user
  right_rest ← check_avatar right right_user
  x ← canonical_json_v1 p (obj left_rest)
  y ← canonical_json_v1 p (obj right_rest)
  require (same x y) "publication appended comment differs beyond native endpoint representations"
