-- ===== src/Boundaries.antt =====
-- scripts/validate_workspace_boundaries.py. The TOML documents are the argument `read_toml`, by the
-- path below the repository's root. A float is its token, and a date or a time, which is true, equal
-- to no string and no dict either, is given as its text. An `invalid` failure is the script's SystemExit.
pub mod Accepted
use qing_yin.Prelude.{
  List, Result, String, [], each, err, false, if◌then◌else◌, map, ok, raised, require, zero, ◌++◌,
  ◌>>=◌, ◌>>◌, ◌∷◌,
}
use qing_yin.Prelude.Int.{pos}
use qing_yin.Text.{Text, lit}
use qing_yin.Json.{
  Fields, Value, arr, boolean, end, float, get, get_or_null, int, is_text, keys, nil, null, obj,
  str,
}
use qing_yin.Numeral.Float.{is_zero_float}
use qing_yin.Design.{attribute_get, begins, get_or_empty, members}
use qing_yin.Fixtures.{equals_set, mismatch, or_list, set_of}

abbrev edge : String → List String → Text × List Text
edge crate dependencies = (lit crate, map lit dependencies)

-- `EXPECTED_INTERNAL_DEPENDENCIES`
unfoldable pub expected_internal_dependencies : List (Text × List Text)
expected_internal_dependencies =
    edge "qingyin-types" []
    ∷ edge "qingyin-contract" ("qingyin-types" ∷ [])
    ∷ edge "qingyin-provider" ("qingyin-contract" ∷ "qingyin-types" ∷ [])
    ∷ edge "qingyin-state" ("qingyin-types" ∷ [])
    ∷ edge "qingyin-security" ("qingyin-state" ∷ "qingyin-types" ∷ [])
    ∷ edge "qingyin-admission" ("qingyin-state" ∷ "qingyin-types" ∷ [])
    ∷ edge "qingyin-observe" ("qingyin-security" ∷ "qingyin-types" ∷ [])
    ∷ edge "qingyin-gateway" (
        "qingyin-admission" ∷ "qingyin-contract" ∷ "qingyin-observe" ∷ "qingyin-provider"
        ∷ "qingyin-state" ∷ "qingyin-types" ∷ [])
    ∷ edge "qingyin-mock-provider" ("qingyin-provider" ∷ "qingyin-types" ∷ [])
    ∷ edge "qingyin-testkit" ("qingyin-contract" ∷ "qingyin-state" ∷ "qingyin-types" ∷ [])
    ∷ []

abbrev pub ReadToml : Type 0
ReadToml = Text → Result Fields

abbrev pub crate_path : Text → Text
crate_path crate = lit "crates/" ++ crate

abbrev pub manifest_path : Text → Text
manifest_path crate = crate_path crate ++ lit "/Cargo.toml"

-- `value.get(key, [])`, which only a dict has
unfoldable pub attribute_get_or_list : Text → Value → Result Value
attribute_get_or_list key (obj fs) = ok (or_list (get key fs))
attribute_get_or_list key _ = err (raised "AttributeError")

-- the comparison of two sets, and the SystemExit of the script
unfoldable pub require_members : List Value → List Text → Result (Unit {0})
unfolding mismatch
require_members actual expected =
    if equals_set actual expected then ok tt else mismatch actual expected

-- `value or {}`: a false value gives the empty dict.
unfoldable pub or_empty_dict : Value → Value
unfolding is_zero_float
or_empty_dict null = obj end
or_empty_dict (boolean false) = obj end
or_empty_dict (arr nil) = obj end
or_empty_dict (str []) = obj end
or_empty_dict (int (pos zero)) = obj end
or_empty_dict (float token) = if is_zero_float token then obj end else float token
or_empty_dict v = v

-- `value.keys()`, which only a dict has
unfoldable pub keys_of : Value → Result (List Text)
keys_of (obj fs) = ok (keys fs)
keys_of _ = err (raised "AttributeError")

abbrev pub internal : List Text → List Text
internal [] = []
internal (name ∷ names) =
    let rest = internal names in if begins (lit "qingyin-") name then name ∷ rest else rest

-- the members of the workspace
unfoldable pub check_members : ReadToml → Result (Unit {0})
unfolding get_or_empty attribute_get_or_list set_of require_members expected_internal_dependencies
check_members read_toml = do
  workspace ← read_toml (lit "Cargo.toml")
  members ← attribute_get_or_list (lit "members") (get_or_empty (lit "workspace") workspace)
  actual_members ← set_of members
  require_members actual_members
      (map (λ (e : Text × List Text). crate_path e.0) expected_internal_dependencies)

-- one round of the loop
unfoldable pub check_crate : ReadToml → Text × List Text → Result (Unit {0})
unfolding attribute_get get_or_empty or_empty_dict keys_of require_members
check_crate read_toml (crate, expected) = do
  manifest ← read_toml (manifest_path crate)
  package_name ← attribute_get (lit "name") (get_or_empty (lit "package") manifest)
  require (is_text crate package_name) "crate path/name mismatch"
  dependencies ← keys_of (or_empty_dict (get_or_null (lit "dependencies") manifest))
  require_members (map str (internal dependencies)) expected

unfoldable pub validate_boundaries : ReadToml → Result (Unit {0})
unfolding check_members check_crate expected_internal_dependencies
validate_boundaries read_toml = do
  check_members read_toml
  each (check_crate read_toml) expected_internal_dependencies
