-- ===== src/Json.antt =====
-- Values as `json.loads` builds them in scripts/validate_governance_state.py. A dict is the list of
-- its items in insertion order, and its keys are strings, as those of every JSON object are.
pub mod Equality
pub mod Scalar
pub mod Canonical
pub mod Strict
use qing_yin.Prelude.{
  Bool, List, Option, Result, [], err, false, if◌then◌else◌, none, ok, raised, same, some, true,
  ◌∷◌,
}
use qing_yin.Prelude.Int.{ℤ}
use qing_yin.Text.{Text}

-- `float` keeps the token that was read.
mutual
  pub data Value : Type 0 where
    null : Value
    boolean : Bool → Value
    int : ℤ → Value
    float : Text → Value
    str : Text → Value
    arr : Items → Value
    obj : Fields → Value

  pub data Items : Type 0 where
    nil : Items
    cons : Value → Items → Items

  pub data Fields : Type 0 where
    end : Fields
    field : Text → Value → Fields → Fields

abbrev pub elements : Items → List Value
elements nil = []
elements (cons v vs) = v ∷ elements vs

abbrev pub entries : Fields → List (Text × Value)
entries end = []
entries (field k v fs) = (k, v) ∷ entries fs

abbrev pub of_elements : List Value → Items
of_elements [] = nil
of_elements (v ∷ vs) = cons v (of_elements vs)

abbrev pub of_entries : List (Text × Value) → Fields
of_entries [] = end
of_entries ((k, v) ∷ fs) = field k v (of_entries fs)

abbrev pub keys : Fields → List Text
keys end = []
keys (field k v fs) = k ∷ keys fs

-- `d.get(k)`, with `none` where the key is missing
unfoldable pub get : Text → Fields → Option Value
get k end = none
get k (field j v fs) = if same j k then some v else get k fs

abbrev pub found : Option Value → Result Value
found none = err (raised "KeyError")
found (some v) = ok v

-- `d[k]`
unfoldable pub item : Text → Fields → Result Value
item k fs = found (get k fs)

-- `d.get(k)` where a missing key reads as None
abbrev pub or_null : Option Value → Value
or_null none = null
or_null (some v) = v

unfoldable pub get_or_null : Text → Fields → Value
get_or_null k fs = or_null (get k fs)

-- `value == "literal"` and `value is None`; a string equals no value of another type
unfoldable pub is_text : Text → Value → Bool
is_text t (str s) = same s t
is_text t null = false
is_text t (boolean _) = false
is_text t (int _) = false
is_text t (float _) = false
is_text t (arr _) = false
is_text t (obj _) = false

unfoldable pub is_null : Value → Bool
is_null null = true
is_null _ = false

-- `value is True` and `value is False`
unfoldable pub is_true : Value → Bool
is_true (boolean b) = b
is_true _ = false

unfoldable pub is_false : Value → Bool
is_false (boolean false) = true
is_false _ = false
