-- ===== src/Evidence/Access/Read.antt =====
-- What the ways of reading and comparing values accept.
use qing_yin.Prelude.{
  Option, Result, String, ap, arith, err, none, ok, refl, same, same_iff, some, sym, true, ℕ, ◌↔◌,
  ◌∙◌, ◌≡◌, ◌≤◌,
}
use qing_yin.Prelude.Checks.{bind_iff, iff_trans, require_iff}
use qing_yin.Prelude.Int.{pos}
use qing_yin.Text.{Bytes, Text}
use qing_yin.Platform.{Platform}
use qing_yin.Json.{Fields, Value, get, int, item, obj, str}
use qing_yin.Json.Scalar.{safe_integer_limit}
use qing_yin.Json.Equality.{eq_value}
use qing_yin.Json.Canonical.{canonical_json_v1}
use qing_yin.Integer.{require_nonnegative_int}
use qing_yin.Timestamp.{Stamp, utc_timestamp}
use qing_yin.Timestamp.Printing.{IsStamp, print_stamp}
use qing_yin.Shape.{dict, some_or_raise}
use qing_yin.Shape.Digests.{Has, dict_iff, item_iff}
use qing_yin.Evidence.Attestation.Accepted.{discard_iff, stamp_iff}
use qing_yin.Evidence.Access.{
  nonnegative, read_time, require_equal, require_same_form, require_unchanged, strptime, subscript,
}

pub some_or_raise_iff :
    {A : Type 0} (o : Option A) (error : String) (a : A)
    → (some_or_raise o error ≡ ok a) ↔ (o ≡ some a)
some_or_raise_iff none error a = (λ h. cc, λ h. cc)
some_or_raise_iff (some b) error a = (λ h. cc, λ h. cc)

pub raise_dict_iff :
    (v : Value) (error : String) (d : Fields) → (some_or_raise (dict v) error ≡ ok d) ↔ (v ≡ obj d)
raise_dict_iff v error d = iff_trans (some_or_raise_iff (dict v) error d) (dict_iff v d)

-- the two values have one canonical form
abbrev pub SameForm : Platform → Value → Value → Type 0
SameForm p v w =
    (bytes : Bytes) × (canonical_json_v1 p v ≡ ok bytes) × (canonical_json_v1 p w ≡ ok bytes)

pub require_same_form_iff :
    (p : Platform) (v w : Value) (message : String)
    → (require_same_form p v w message ≡ ok tt) ↔ SameForm p v w
unfolding require_same_form
require_same_form_iff p v w message =
    iff_trans
      (bind_iff (canonical_json_v1 p v) _ (λ x. (λ h. h, λ h. h))
        λ x.
          bind_iff (canonical_json_v1 p w) _ (λ y. (λ h. h, λ h. h))
            λ y. iff_trans (require_iff (same x y) message) (same_iff x y))
      (λ (x, cx, (y, cy, e)). (x, cx, cy ∙ ap ok (sym e)), λ (b, cv, cw). (b, cv, (b, cw, refl)))

-- equal for Python
abbrev pub Same : Value → Value → Type 0
Same v w = eq_value v w ≡ true

pub require_equal_iff :
    (d : Fields) (key : Text) (v : Value) (message : String)
    → (require_equal d key v message ≡ ok tt) ↔ Has d key (Same v)
unfolding require_equal
require_equal_iff d key v message =
    bind_iff (item key d) _ (item_iff key d) λ w. require_iff (eq_value v w) message

abbrev pub SameAt : Fields → Fields → Text → Type 0
SameAt d e key = Has d key (λ v. Has e key (Same v))

pub require_unchanged_iff :
    (d e : Fields) (message : String) (key : Text)
    → (require_unchanged d e message key ≡ ok tt) ↔ SameAt d e key
unfolding require_unchanged
require_unchanged_iff d e message key =
    bind_iff (item key d) _ (item_iff key d)
      λ v. bind_iff (item key e) _ (item_iff key e) λ w. require_iff (eq_value v w) message

abbrev pub IsNonnegative : Value → Type 0
IsNonnegative v = (n : ℕ) × ((v ≡ int (pos n)) × (n ≤ safe_integer_limit))

pub require_nonnegative_int_lem :
    (v : Value) (n : ℕ)
    → (require_nonnegative_int v ≡ ok n) ↔ ((v ≡ int (pos n)) × (n ≤ safe_integer_limit))
unfolding require_nonnegative_int
require_nonnegative_int_lem v n = ground arith

pub nonnegative_iff : (v : Value) → (nonnegative v ≡ ok tt) ↔ IsNonnegative v
nonnegative_iff v = discard_iff (require_nonnegative_int v) (require_nonnegative_int_lem v)

read_time_iff : (r : Result Stamp) (s : Stamp) → (read_time r ≡ ok s) ↔ (r ≡ ok s)
read_time_iff (ok t) s = (λ h. h, λ h. h)
read_time_iff (err e) s = (λ h. cc, λ h. cc)

pub strptime_iff :
    (v : Value) (s : Stamp) → (strptime v ≡ ok s) ↔ ((v ≡ str (print_stamp s)) × IsStamp s)
unfolding strptime
strptime_iff v s = iff_trans (read_time_iff (utc_timestamp v) s) (stamp_iff v s)

-- the value at a key of an object
abbrev pub At : Text → Value → Value → Type 0
At key v w = (d : Fields) × (v ≡ obj d) × (get key d ≡ some w)

pub subscript_iff : (key : Text) (v w : Value) → (subscript key v ≡ ok w) ↔ At key v w
unfolding subscript
subscript_iff key v w =
    bind_iff (some_or_raise (dict v) "TypeError") _ (raise_dict_iff v "TypeError")
      λ d. item_iff key d w
