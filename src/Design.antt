-- ===== src/Design.antt =====
-- scripts/validate_design_assets.py. The file system and the YAML reader are the argument `Tree`. An
-- `invalid` failure is the script's ValueError, which `main` catches.
pub mod Accepted
use qing_yin.Prelude.{
  Bool, List, Option, Result, String, [], all, any, contains, each, err, false, invalid, map, none,
  ok, raised, require, some, traverse, true, ℕ, ◌&&◌, ◌==◌, ◌>>=◌, ◌>>◌, ◌||◌, ◌∷◌,
}
use qing_yin.Text.{Text, lit}
use qing_yin.Json.{
  Fields, Value, arr, elements, end, found, get, get_or_null, is_text, keys, obj, str,
}
use qing_yin.Shape.{dict, some_or_fail}

pub record Tree : Type 0 where
  -- `(ROOT / path).is_file()`
  pub is_file : Text → Bool
  -- `yaml.safe_load((ROOT / path).read_text(encoding="utf-8"))`
  pub load : Text → Result Value

abbrev pub required_documents : List Text
required_documents = map lit (
    "docs/INDEX.md" ∷ "docs/02-architecture/INDEX.md"
    ∷ "docs/02-architecture/QingYin_系统设计目录与实施计划.md"
    ∷ "docs/02-architecture/QingYin_设计冻结审阅与实现准入清单.md" ∷ "docs/04-delivery/INDEX.md"
    ∷ "docs/04-delivery/QingYin_工程实施总计划与GitHub治理.md"
    ∷ "docs/04-delivery/QingYin_M1_Rust核心骨架与运行规范.md"
    ∷ "docs/04-delivery/QingYin_M1_契约Fixture与MockProvider规范.md"
    ∷ "docs/04-delivery/QingYin_M1_实施Backlog与CI门禁.md" ∷ [])

unfoldable pub load_yaml : Tree → Text → Result Fields
unfolding dict
load_yaml t path = do
  require (t.is_file path) "missing contract"
  data_value ← t.load path
  some_or_fail (dict data_value) "contract is not a YAML object"

unfoldable pub validate_documents : Tree → Result (Unit {0})
validate_documents t =
    each (λ path. require (t.is_file path) "missing design document") required_documents

abbrev pub or_empty : Option Value → Value
or_empty none = obj end
or_empty (some v) = v

-- `contract.get(key, {})`
unfoldable pub get_or_empty : Text → Fields → Value
get_or_empty key fs = or_empty (get key fs)

-- `value.get(key)`, which only a dict has
unfoldable pub attribute_get : Text → Value → Result Value
attribute_get key (obj fs) = ok (get_or_null key fs)
attribute_get key _ = err (raised "AttributeError")

-- `value.get(key, {})`
unfoldable pub attribute_get_or_empty : Text → Value → Result Value
unfolding get_or_empty
attribute_get_or_empty key (obj fs) = ok (get_or_empty key fs)
attribute_get_or_empty key _ = err (raised "AttributeError")

abbrev pub begins : Text → Text → Bool
begins [] s = true
begins (c ∷ cs) [] = false
begins (c ∷ cs) (d ∷ s) = (c == d) && begins cs s

abbrev pub substring : Text → Text → Bool
substring t [] = begins t []
substring t (c ∷ s) = begins t (c ∷ s) || substring t s

-- `text in value`
unfoldable pub is_in : Text → Value → Result Bool
is_in t (obj fs) = ok (contains t (keys fs))
is_in t (arr vs) = ok (any (is_text t) (elements vs))
is_in t (str s) = ok (substring t s)
is_in t _ = err (raised "TypeError")

unfoldable pub require_in : Value → String → Text → Result (Unit {0})
unfolding is_in
require_in container message t = do found ← is_in t container; require found message

-- the version and the title
unfoldable pub require_identity : Fields → Text → Text → Text → String → String → Result (Unit {0})
unfolding attribute_get get_or_empty
require_identity contract key version title wrong_version wrong_title = do
  require (is_text version (get_or_null key contract)) wrong_version
  actual ← attribute_get (lit "title") (get_or_empty (lit "info") contract)
  require (is_text title actual) wrong_title

unfoldable pub validate_control_contract : Fields → Result (Unit {0})
unfolding require_identity require_in get_or_empty
validate_control_contract contract = do
  require_identity contract (lit "openapi") (lit "3.1.0") (lit "QingYin Control API")
      "control contract must use OpenAPI 3.1.0" "unexpected control API title"
  let paths = get_or_empty (lit "paths") contract
  require_in paths "control contract is missing capabilities" (lit "/v1/capabilities")
  require_in paths "control contract is missing session creation" (lit "/v1/sessions")
  require_in paths "control contract is missing TTS streaming" (lit "/v1/tts/stream")

abbrev pub admin_paths : List Text
admin_paths = map lit (
    "/v1/admin/workspaces" ∷ "/v1/admin/workspaces/{workspace_id}"
    ∷ "/v1/admin/sessions/{session_id}/diagnostic" ∷ "/v1/admin/operations/{operation_id}" ∷ [])

unfoldable pub validate_admin_contract : Fields → Result (Unit {0})
unfolding require_identity require_in get_or_empty attribute_get_or_empty
validate_admin_contract contract = do
  require_identity contract (lit "openapi") (lit "3.1.0") (lit "QingYin Administration API")
      "admin contract must use OpenAPI 3.1.0" "unexpected admin API title"
  each (require_in (get_or_empty (lit "paths") contract) "admin contract is missing") admin_paths
  parameters ← attribute_get_or_empty (lit "parameters") (get_or_empty (lit "components") contract)
  require_in parameters "admin mutations require If-Match" (lit "IfMatch")
  require_in parameters "admin mutations require a change reason" (lit "ChangeReason")

abbrev pub stream_operations : List Text
stream_operations = map lit (
    "sendAsrInput" ∷ "receiveAsrEvents" ∷ "sendTtsInput" ∷ "receiveTtsOutput" ∷ "sendRealtimeInput"
    ∷ "receiveRealtimeOutput" ∷ [])

-- The members that `set.issubset` sees: the keys of a dict, the items of a list, the characters of
-- a string. A list with an item that has no hash raises a TypeError.
unfoldable pub members : Value → Result (List Value)
members (obj fs) = ok (map str (keys fs))
members (arr vs) = traverse hashable (elements vs)
  where
    hashable : Value → Result Value
    hashable (obj fs) = err (raised "TypeError")
    hashable (arr ws) = err (raised "TypeError")
    hashable v = ok v
members (str s) = ok (map (λ c. str (c ∷ [])) s)
members _ = err (raised "TypeError")

unfoldable pub validate_stream_contract : Fields → Result (Unit {0})
unfolding require_identity get_or_empty members
validate_stream_contract contract = do
  require_identity contract (lit "asyncapi") (lit "3.0.0") (lit "QingYin Streaming API")
      "stream contract must use AsyncAPI 3.0.0" "unexpected streaming API title"
  operations ← members (get_or_empty (lit "operations") contract)
  require (all (λ t. any (is_text t) operations) stream_operations)
      "stream contract is missing a required operation"

-- the body of the `try`
unfoldable pub validate_assets : Tree → Result (Unit {0})
unfolding validate_documents load_yaml validate_control_contract validate_admin_contract
    validate_stream_contract
validate_assets t = do
  validate_documents t
  control ← load_yaml t (lit "contracts/openapi/qingyin-control-v1.yaml")
  validate_control_contract control
  admin ← load_yaml t (lit "contracts/openapi/qingyin-admin-v1.yaml")
  validate_admin_contract admin
  stream ← load_yaml t (lit "contracts/asyncapi/qingyin-stream-v1.yaml")
  validate_stream_contract stream

-- the exit code; another exception ends the script
abbrev pub exit_code : Result (Unit {0}) → Result ℕ
exit_code (ok u) = ok 0
exit_code (err (invalid message)) = ok 1
exit_code (err (raised name)) = err (raised name)

unfoldable pub main : Tree → Result ℕ
unfolding validate_assets
main t = exit_code (validate_assets t)
