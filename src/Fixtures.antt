-- ===== src/Fixtures.antt =====
-- scripts/validate_contract_fixtures.py, from the value that `json.loads` read. An `invalid` failure
-- is the script's SystemExit.
pub mod Accepted
use qing_yin.Prelude.{
  Bool, List, Option, Result, [], all, any, err, fail, false, if◌then◌else◌, leb, length, map, none,
  ok, raised, require, some, traverse, true, ◌&&◌, ◌>>=◌, ◌>>◌, ◌||◌, ◌∷◌,
}
use qing_yin.Text.{Text, lit}
use qing_yin.Json.Equality.{eq_value}
use qing_yin.Json.{
  Fields, Value, arr, boolean, elements, float, get, get_or_null, int, is_text, keys, nil, obj, str,
}

abbrev pub required_golden : List Text
required_golden = map lit (
    "control.session.create.asr.v1" ∷ "asr.ws.happy.v1" ∷ "tts.ws.happy.v1" ∷ "tts.http.happy.v1"
    ∷ "control.session.cancel.v1" ∷ "capabilities.scoped.v1" ∷ [])

abbrev pub required_errors : List Text
required_errors = map lit (
    "control.idempotency.same.v1" ∷ "control.idempotency.conflict.v1" ∷ "stream.ticket.race.v1"
    ∷ "stream.start.invalid.v1" ∷ "stream.audio.rate.v1" ∷ "provider.create.failure.v1"
    ∷ "provider.stream.failure.v1" ∷ "provider.timeout.v1" ∷ "stream.slow.consumer.v1"
    ∷ "stream.cancel.race.v1" ∷ "state.ttl.recovery.v1" ∷ "policy.local_only.v1" ∷ [])

abbrev pub required_profiles : List Text
required_profiles = map lit (
    "happy" ∷ "slow_first" ∷ "create_reject" ∷ "fail_midstream" ∷ "hang_until_cancel"
    ∷ "quota_exhausted" ∷ "protocol_violation" ∷ [])

hashable : Value → Result Value
hashable (obj fs) = err (raised "TypeError")
hashable (arr vs) = err (raised "TypeError")
hashable v = ok v

-- `set(value)`: the keys of a dict, the items of a list, the characters of a string
unfoldable pub set_of : Value → Result (List Value)
unfolding hashable
set_of (arr vs) = traverse hashable (elements vs)
set_of (obj fs) = ok (map str (keys fs))
set_of (str s) = ok (map (λ c. str (c ∷ [])) s)
set_of _ = err (raised "TypeError")

-- `value in expected`, for a set of strings
abbrev pub expected_member : List Text → Value → Bool
expected_member expected v = any (λ t. is_text t v) expected

-- `actual_set == expected`
abbrev pub equals_set : List Value → List Text → Bool
equals_set actual expected =
    all (expected_member expected) actual && all (λ t. any (is_text t) actual) expected

-- the members of the set that are not expected, each once
extras : List Value → List Text → List Value
extras [] expected = []
extras (v ∷ vs) expected =
    let rest = extras vs expected in
    if expected_member expected v || any (eq_value v) rest then rest else v ∷ rest

abbrev is_string : Value → Bool
is_string (str s) = true
is_string _ = false

abbrev is_number : Value → Bool
is_number (boolean b) = true
is_number (int n) = true
is_number (float t) = true
is_number _ = false

-- whether `sorted` can compare them
abbrev sortable : List Value → Bool
sortable vs = leb (length vs) 1 || all is_string vs || all is_number vs

-- The message sorts the extra members, which raises a TypeError for a mixture of types.
unfoldable pub mismatch : List Value → List Text → Result (Unit {0})
unfolding extras
mismatch actual expected =
    if sortable (extras actual expected) then fail "mismatch" else err (raised "TypeError")

unfoldable pub require_exact : Value → List Text → Result (Unit {0})
unfolding set_of mismatch
require_exact actual expected = do
  actual_set ← set_of actual
  if equals_set actual_set expected then ok tt else mismatch actual_set expected

abbrev pub or_list : Option Value → Value
or_list none = arr nil
or_list (some v) = v

unfoldable pub check_manifest : Fields → Result (Unit {0})
unfolding require_exact
check_manifest manifest = do
  require (is_text (lit "v1") (get_or_null (lit "schema_version") manifest))
      "fixture manifest schema_version must be v1"
  require (is_text (lit "synthetic") (get_or_null (lit "privacy_class") manifest))
      "fixture manifest privacy_class must be synthetic"
  require_exact (or_list (get (lit "golden_paths") manifest)) required_golden
  require_exact (or_list (get (lit "error_and_resilience") manifest)) required_errors
  require_exact (or_list (get (lit "mock_profiles") manifest)) required_profiles

-- `main`, after the file is read
unfoldable pub validate_fixtures : Value → Result (Unit {0})
unfolding check_manifest
validate_fixtures (obj manifest) = check_manifest manifest
validate_fixtures _ = err (raised "AttributeError")
