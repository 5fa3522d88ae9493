-- ===== src/Json/Equality.antt =====
-- Python's `==` on JSON values: True equals 1, and the order of a dict does not count.
use qing_yin.Prelude.{Bool, true, false, ◌&&◌, Option, none, some, same, length, ◌==◌}
use qing_yin.Prelude.Int.{ℤ, pos, eqb_ℤ}
use qing_yin.Json.{
  Value, null, boolean, int, float, str, arr, obj, Items, nil, cons, Fields, end, field, keys, get,
}

abbrev of_bool : Bool → ℤ
of_bool true = pos 1
of_bool false = pos 0

abbrev holds : (Value → Bool) → Option Value → Bool
holds test none = false
holds test (some w) = test w

-- A float here is compared by its token: no comparison of the script meets one, since every value
-- has passed `validate_scalar` or is compared with a string.
unfoldable mutual
  pub eq_value : Value → Value → Bool
  eq_value null null = true
  eq_value (boolean a) (boolean b) = eqb_ℤ (of_bool a) (of_bool b)
  eq_value (boolean a) (int b) = eqb_ℤ (of_bool a) b
  eq_value (int a) (boolean b) = eqb_ℤ a (of_bool b)
  eq_value (int a) (int b) = eqb_ℤ a b
  eq_value (float a) (float b) = same a b
  eq_value (str a) (str b) = same a b
  eq_value (arr xs) (arr ys) = eq_items xs ys
  eq_value (obj fs) (obj gs) = (length (keys fs) == length (keys gs)) && eq_fields fs gs
  eq_value _ _ = false

  pub eq_items : Items → Items → Bool
  eq_items nil nil = true
  eq_items (cons x xs) (cons y ys) = eq_value x y && eq_items xs ys
  eq_items _ _ = false

  -- every item of the first is in the second
  pub eq_fields : Fields → Fields → Bool
  eq_fields end gs = true
  eq_fields (field k v fs) gs = holds (eq_value v) (get k gs) && eq_fields fs gs
