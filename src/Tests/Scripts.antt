-- ===== src/Tests/Scripts.antt =====
-- The smaller scripts at concrete inputs.
use qing_yin.Prelude.{
  All, List, Result, [], each, err, false, if◌then◌else◌, map, ok, raised, refl, same, traverse,
  true, ◌++◌, ◌↔◌, ◌∷◌, ◌≡◌,
}
use qing_yin.Text.{Text, lit}
use qing_yin.Json.{
  Fields, Value, arr, entries, get, get_or_null, is_text, nil, obj, of_elements, of_entries, str,
}
use qing_yin.Numeral.Float.{is_zero_float}
use qing_yin.Design.{Tree, main}
use qing_yin.Design.Accepted.{IsBaseline, main_iff}
use qing_yin.Fixtures.{required_errors, required_golden, required_profiles, validate_fixtures}
use qing_yin.Fixtures.Accepted.{IsFixtures, validate_fixtures_iff}
use qing_yin.Boundaries.{
  ReadToml, expected_internal_dependencies, manifest_path, validate_boundaries,
}
use qing_yin.Boundaries.Accepted.{HasMembers, IsCrate, directories, validate_boundaries_iff}

-- a tree in which every file exists and holds a YAML list
abbrev tree : Tree
tree = record { is_file = λ path. true; load = λ path. ok (arr nil) }

main_of_tree : main tree ≡ ok 1
unfolding main each
main_of_tree = refl

main_iff_example : (main tree ≡ ok 0) ↔ IsBaseline tree
main_iff_example = main_iff tree

abbrev strings : List Text → Value
strings ts = arr (of_elements (map str ts))

abbrev fixtures : Fields
fixtures = of_entries (
    (lit "schema_version", str (lit "v1"))
    ∷ (lit "privacy_class", str (lit "synthetic"))
    ∷ (lit "golden_paths", strings required_golden)
    ∷ (lit "error_and_resilience", strings required_errors)
    ∷ (lit "mock_profiles", strings required_profiles)
    ∷ [])

fixtures_pass : validate_fixtures (obj fixtures) ≡ ok tt
unfolding validate_fixtures is_text get_or_null get same lit traverse
fixtures_pass = refl

validate_fixtures_iff_example :
    (validate_fixtures (obj fixtures) ≡ ok tt)
    ↔ ((d : Fields) × ((obj fixtures ≡ obj d) × IsFixtures d))
validate_fixtures_iff_example = validate_fixtures_iff (obj fixtures)

-- the floats that `... or {}` replaces
zero_floats :
    map (λ s. is_zero_float (lit s)) ("0.0" ∷ "-0.0" ∷ "+0e5" ∷ "2.4e-324" ∷ [])
    ≡ true ∷ true ∷ true ∷ true ∷ []
unfolding is_zero_float lit
zero_floats = refl

other_floats :
    map (λ s. is_zero_float (lit s)) ("1_0.5" ∷ "2.5e-324" ∷ "inf" ∷ "1e0" ∷ [])
    ≡ false ∷ false ∷ false ∷ false ∷ []
unfolding is_zero_float lit
other_floats = refl

abbrev table : List (Text × Value) → Value
table entries = obj (of_entries entries)

-- the manifest of a crate that has its internal dependencies and one more
abbrev crate_manifest : Text × List Text → Fields
crate_manifest (crate, dependencies) = of_entries (
    (lit "package", table ((lit "name", str crate) ∷ []))
    ∷ (
      lit "dependencies",
      table (
          (lit "serde", str (lit "1"))
          ∷ map (λ name. (name, table ((lit "path", str (lit "../" ++ name)) ∷ []))) dependencies),
    )
    ∷ [])

-- the manifest at a path
abbrev manifest_among : List (Text × List Text) → Text → Result Fields
manifest_among [] path = err (raised "FileNotFoundError")
manifest_among ((crate, dependencies) ∷ rest) path =
    let other = manifest_among rest path in
    if same path (manifest_path crate) then ok (crate_manifest (crate, dependencies)) else other

abbrev workspace_manifest : Fields
workspace_manifest =
    of_entries ((lit "workspace", table ((lit "members", strings directories) ∷ [])) ∷ [])

abbrev workspace : ReadToml
workspace path =
    let crates = manifest_among expected_internal_dependencies path in
    if same path (lit "Cargo.toml") then ok workspace_manifest else crates

boundaries_hold : validate_boundaries workspace ≡ ok tt
unfolding validate_boundaries same lit get traverse is_text each get_or_null
boundaries_hold = refl

validate_boundaries_iff_example :
    (validate_boundaries workspace ≡ ok tt)
    ↔ (HasMembers workspace × All (IsCrate workspace) expected_internal_dependencies)
validate_boundaries_iff_example = validate_boundaries_iff workspace
