-- ===== src/Evidence/Access.antt =====
-- How the checks of whole packages in scripts/validate_governance_state.py read their values.
pub mod Read
use qing_yin.Prelude.{
  Bool, List, Result, String, [], any, discard, err, if◌then◌else◌, not, ok, raised, require, same,
  suc, zero, ◌>>=◌, ◌∷◌,
}
use qing_yin.Prelude.Int.{negsuc, pos, ℤ}
use qing_yin.Text.{Text}
use qing_yin.Platform.{Platform}
use qing_yin.Json.{Fields, Value, int, item}
use qing_yin.Json.Equality.{eq_value}
use qing_yin.Json.Canonical.{canonical_json_v1}
use qing_yin.Integer.{require_nonnegative_int}
use qing_yin.Timestamp.{Stamp, utc_timestamp}
use qing_yin.Timestamp.Order.{fields, no_later}
use qing_yin.Shape.{dict, some_or_raise}

-- `value[key]`: only an object can be indexed by a text
unfoldable pub subscript : Text → Value → Result Value
unfolding dict
subscript key v = do fields ← some_or_raise (dict v) "TypeError"; item key fields

-- a dict of bundles by their component
abbrev pub Bundles : Type 0
Bundles = List (Text × Fields)

-- `bundles[component]`
unfoldable pub bundle_of : Text → Bundles → Result Fields
bundle_of c [] = err (raised "KeyError")
bundle_of c ((k, b) ∷ bundles) = if same k c then ok b else bundle_of c bundles

-- `component in bundles`
abbrev pub has_bundle : Text → Bundles → Bool
has_bundle c bundles = any (λ (e : Text × Fields). same e.0 c) bundles

-- `require(canonical_json_v1(v) == canonical_json_v1(w), message)`
unfoldable pub require_same_form : Platform → Value → Value → String → Result (Unit {0})
require_same_form p v w message = do
  x ← canonical_json_v1 p v
  y ← canonical_json_v1 p w
  require (same x y) message

-- `require(d[key] == value, message)`, with the comparison either way round
unfoldable pub require_equal : Fields → Text → Value → String → Result (Unit {0})
require_equal d key v message = do w ← item key d; require (eq_value v w) message

-- `require(d[key] == e[key], message)`
unfoldable pub require_unchanged : Fields → Fields → String → Text → Result (Unit {0})
require_unchanged d e message key = do
  v ← item key d
  w ← item key e
  require (eq_value v w) message

-- `n + 1` on integers
abbrev pub succ : ℤ → ℤ
succ (pos n) = pos (suc n)
succ (negsuc zero) = pos 0
succ (negsuc (suc n)) = negsuc n

-- `value + 1` of a value that has passed a check for integers
abbrev pub add_one : Value → Result Value
add_one (int n) = ok (int (succ n))
add_one _ = err (raised "TypeError")

abbrev pub nonnegative : Value → Result (Unit {0})
nonnegative v = discard (require_nonnegative_int v)

abbrev pub read_time : Result Stamp → Result Stamp
read_time (ok s) = ok s
read_time (err e) = err (raised "ValueError")

-- `datetime.strptime(value, "%Y-%m-%dT%H:%M:%SZ")`, a call of Python's library. The script makes it
-- on values that have passed `require_utc_timestamp`: the cutoffs, the times of a publication delta
-- and of a finding, the `completed_at` of a review and the `merged_at` of a merged pull. Other texts
-- that Python would read (other years, fields without leading zeros) do not get here.
unfoldable pub strptime : Value → Result Stamp
unfolding utc_timestamp
strptime v = read_time (utc_timestamp v)

-- `a < b` on `datetime` values
abbrev pub earlier : Stamp → Stamp → Bool
earlier a b = not (no_later b a)
