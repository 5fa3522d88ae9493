-- ===== src/Boundaries/Accepted.antt =====
-- The workspaces whose boundaries are accepted.
use qing_yin.Prelude.{All, List, map, ok, require, true, ◌>>=◌, ◌↔◌, ◌≡◌}
use qing_yin.Prelude.Checks.{bind_iff, each_iff, iff_trans, require_iff, then_iff}
use qing_yin.Text.{Text, lit}
use qing_yin.Json.{Fields, Value, get_or_null, is_text, str}
use qing_yin.Design.{attribute_get, get_or_empty}
use qing_yin.Design.Accepted.{HasInner, inner_title_iff}
use qing_yin.Fixtures.{set_of}
use qing_yin.Fixtures.Accepted.{EqualSets, SameSet, compared_iff}
use qing_yin.Boundaries.{
  ReadToml, attribute_get_or_list, check_crate, check_members, crate_path,
  expected_internal_dependencies, internal, keys_of, manifest_path, or_empty_dict, require_members,
  validate_boundaries,
}

require_members_iff :
    (actual : List Value) (expected : List Text)
    → (require_members actual expected ≡ ok tt) ↔ EqualSets actual expected
unfolding require_members
require_members_iff actual expected = compared_iff actual expected

-- a crate's manifest: its own name, and exactly the expected internal dependencies
abbrev pub IsCrate : ReadToml → Text × List Text → Type 0
IsCrate read_toml (crate, expected) =
    (manifest : Fields) × (read_toml (manifest_path crate) ≡ ok manifest)
    × (HasInner manifest (lit "package") (lit "name") crate
        × ((dependencies : List Text) × (keys_of
                (or_empty_dict (get_or_null (lit "dependencies") manifest))
              ≡ ok dependencies)
            × EqualSets (map str (internal dependencies)) expected))

-- the name is read and compared
read_name_iff :
    (manifest : Fields) (crate : Text)
    → ((name : Value) × (attribute_get (lit "name") (get_or_empty (lit "package") manifest)
          ≡ ok name)
        × (is_text crate name ≡ true))
      ↔ ((attribute_get (lit "name") (get_or_empty (lit "package") manifest) >>= λ name.
            require (is_text crate name) "crate path/name mismatch")
          ≡ ok tt)
read_name_iff manifest crate =
    let read =
      bind_iff (attribute_get (lit "name") (get_or_empty (lit "package") manifest))
        (λ name. require (is_text crate name) "crate path/name mismatch") {out = tt}
        (λ v. (λ h. h, λ h. h))
        λ name. require_iff (is_text crate name) "crate path/name mismatch" in
    (read.1, read.0)

name_iff :
    {P : Type 0} (manifest : Fields) (crate : Text)
    → ((name : Value) × (attribute_get (lit "name") (get_or_empty (lit "package") manifest)
          ≡ ok name)
        × ((is_text crate name ≡ true) × P))
      ↔ (HasInner manifest (lit "package") (lit "name") crate × P)
name_iff manifest crate =
    let named =
      iff_trans (read_name_iff manifest crate)
        (inner_title_iff manifest (lit "package") (lit "name") crate _) in
    (
      λ (name, a, (b, p)). (named.0 (name, a, b), p),
      λ (h, p). let parts = named.1 h in (parts.0, parts.1, (parts.2, p)),
    )

check_crate_iff :
    (read_toml : ReadToml) (e : Text × List Text)
    → (check_crate read_toml e ≡ ok tt) ↔ IsCrate read_toml e
unfolding check_crate
check_crate_iff read_toml (crate, expected) =
    bind_iff (read_toml (manifest_path crate)) _ (λ m. (λ h. h, λ h. h))
      λ manifest.
        iff_trans
          (bind_iff (attribute_get (lit "name") (get_or_empty (lit "package") manifest)) _
            (λ v. (λ h. h, λ h. h))
            λ name. then_iff _ _ (require_iff (is_text crate name) _) (
              bind_iff (keys_of (or_empty_dict (get_or_null (lit "dependencies") manifest))) _
                (λ v. (λ h. h, λ h. h))
                λ dependencies. require_members_iff (map str (internal dependencies)) expected))
          (name_iff manifest crate)

abbrev pub directories : List Text
directories = map (λ (e : Text × List Text). crate_path e.0) expected_internal_dependencies

-- the members of the workspace are the crates' directories
abbrev pub HasMembers : ReadToml → Type 0
HasMembers read_toml =
    (workspace : Fields) × (read_toml (lit "Cargo.toml") ≡ ok workspace)
    × ((members : Value) × (attribute_get_or_list (lit "members")
            (get_or_empty (lit "workspace") workspace)
          ≡ ok members)
        × SameSet members directories)

-- The boundaries are accepted exactly when the members of the workspace are the directories of the
-- expected crates, and the manifest of each crate has its name and exactly its expected internal
-- dependencies.
pub validate_boundaries_iff :
    (read_toml : ReadToml)
    → (validate_boundaries read_toml ≡ ok tt)
      ↔ (HasMembers read_toml × All (IsCrate read_toml) expected_internal_dependencies)
unfolding validate_boundaries check_members
validate_boundaries_iff read_toml =
    then_iff (check_members read_toml) _
      (bind_iff (read_toml (lit "Cargo.toml")) _ (λ m. (λ h. h, λ h. h))
        λ workspace.
          bind_iff
            (attribute_get_or_list (lit "members") (get_or_empty (lit "workspace") workspace)) _
            (λ m. (λ h. h, λ h. h))
            λ members.
              bind_iff (set_of members) _ (λ m. (λ h. h, λ h. h))
                λ actual. require_members_iff actual directories)
      (each_iff (check_crate read_toml) (check_crate_iff read_toml) expected_internal_dependencies)
