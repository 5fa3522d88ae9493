-- ===== src/Fixtures/Accepted.antt =====
-- The fixture manifests that are accepted.
use qing_yin.Prelude.{
  All, Bool, List, Result, [], all, any, err, fail, false, if◌then◌else◌, inl, inr, ok, raised,
  refl, subst, sym, true, ◌↔◌, ◌∷◌, ◌≡◌, ◌⊎◌,
}
use qing_yin.Prelude.Checks.{
  all_iff, and_iff, bind_iff, branch_iff, iff_trans, or_iff, require_iff, then_iff,
}
use qing_yin.Text.{Text, lit}
use qing_yin.Json.{Fields, Value, get, get_or_null, is_text, obj, str}
use qing_yin.Shape.Digests.{HasText, HasText-of_get_or_null, is_text_iff}
use qing_yin.Fixtures.{
  equals_set, expected_member, mismatch, or_list, require_exact, required_errors, required_golden,
  required_profiles, set_of, validate_fixtures,
}

-- one of the strings
abbrev pub Expected : List Text → Value → Type 0
Expected [] v = ⊥
Expected (t ∷ ts) v = (v ≡ str t) ⊎ Expected ts v

expected_member_iff : (ts : List Text) (v : Value) → (expected_member ts v ≡ true) ↔ Expected ts v
expected_member_iff [] v = (λ h. cc, λ s. absurd s)
expected_member_iff (t ∷ ts) v =
    or_iff (is_text t v) (expected_member ts v) (is_text_iff t v) (expected_member_iff ts v)

-- the members are expected ones, and no expected one is missing
abbrev pub EqualSets : List Value → List Text → Type 0
EqualSets members expected =
    All (Expected expected) members × All (λ t. any (is_text t) members ≡ true) expected

-- the members of the set that a value makes
abbrev pub SameSet : Value → List Text → Type 0
SameSet v expected = (members : List Value) × (set_of v ≡ ok members) × EqualSets members expected

neither :
    (b : Bool)
    → Path (Result (Unit {0})) (if b then fail "mismatch" else err (raised "TypeError")) (ok tt)
    → ⊥
neither true h = cc
neither false h = cc

no_mismatch : (members : List Value) (expected : List Text) → mismatch members expected ≡ ok tt → ⊥
unfolding mismatch
no_mismatch members expected h = neither _ h

pub compared_iff :
    (members : List Value) (expected : List Text)
    → ((if equals_set members expected then ok tt else mismatch members expected) ≡ ok tt)
      ↔ EqualSets members expected
compared_iff members expected =
    iff_trans
      (branch_iff (equals_set members expected) (ok tt) (mismatch members expected)
        (and_iff (all (expected_member expected) members) _
          (all_iff (expected_member expected) (expected_member_iff expected) members)
          (all_iff (λ t. any (is_text t) members) (λ t. (λ h. h, λ h. h)) expected))
        (λ h. tt, λ u. refl) (λ h. absurd (no_mismatch members expected h), λ h. absurd h))
      (λ s. elim s [ inl x ↦ x.0 | inr x ↦ absurd x.1 ], λ x. inl (x, tt))

require_exact_iff :
    (v : Value) (expected : List Text) → (require_exact v expected ≡ ok tt) ↔ SameSet v expected
unfolding require_exact
require_exact_iff v expected =
    bind_iff (set_of v) _ (λ m. (λ h. h, λ h. h)) λ members. compared_iff members expected

abbrev pub IsFixtures : Fields → Type 0
IsFixtures d =
    HasText d (lit "schema_version") (lit "v1")
    × (HasText d (lit "privacy_class") (lit "synthetic")
        × (SameSet (or_list (get (lit "golden_paths") d)) required_golden
            × (SameSet (or_list (get (lit "error_and_resilience") d)) required_errors
                × SameSet (or_list (get (lit "mock_profiles") d)) required_profiles)))

-- A manifest is accepted exactly when it is an object with the version and the privacy class whose
-- three lists have exactly the required members.
pub validate_fixtures_iff :
    (v : Value) → (validate_fixtures v ≡ ok tt) ↔ ((d : Fields) × ((v ≡ obj d) × IsFixtures d))
unfolding validate_fixtures
validate_fixtures_iff (obj d) =
    iff_trans
      (then_iff _ _
        (iff_trans (require_iff (is_text (lit "v1") (get_or_null (lit "schema_version") d)) _)
          (HasText-of_get_or_null (lit "schema_version") (lit "v1") d))
        (then_iff _ _
          (iff_trans
            (require_iff (is_text (lit "synthetic") (get_or_null (lit "privacy_class") d)) _)
            (HasText-of_get_or_null (lit "privacy_class") (lit "synthetic") d))
          (then_iff _ _ (require_exact_iff (or_list (get (lit "golden_paths") d)) required_golden) (
            then_iff _ _
              (require_exact_iff (or_list (get (lit "error_and_resilience") d)) required_errors)
              (require_exact_iff (or_list (get (lit "mock_profiles") d)) required_profiles)))))
      (λ h. (d, (refl, h)), λ (e, (f, h)). let equal : d ≡ e = cc in subst IsFixtures (sym equal) h)
validate_fixtures_iff _ = (λ h. cc, λ (d, (e, h)). cc)
