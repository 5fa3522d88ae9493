-- ===== src/Stable/Component.antt =====
-- The components of a sort key, `(0, int)`, `(1, utf-16 bytes)` and `(2, canonical bytes)`, in the
-- order of Python's tuples.
use qing_yin.Prelude.{Bool, Result, ap, arith, fail, false, ok, true, ◌>>=◌, ◌>>◌, ◌∷◌, ◌≡◌}
use qing_yin.Prelude.Int.{leb_ℤ, ℤ}
use qing_yin.Prelude.Order.{
  Order, int_antisymm, int_total, int_trans, lex_antisymm, lex_le, lex_total, lex_trans, nat_order,
}
use qing_yin.Text.{Bytes, utf16_sort_key}
use qing_yin.Platform.{Platform}
use qing_yin.Json.{Value, int, str}
use qing_yin.Json.Scalar.{validate_scalar}

pub data Component : Type 0 where
  integer : ℤ → Component
  string : Bytes → Component
  canonical : Bytes → Component

unfoldable pub component_le : Component → Component → Bool
component_le (integer a) (integer b) = leb_ℤ a b
component_le (string a) (string b) = lex_le a b
component_le (canonical a) (canonical b) = lex_le a b
component_le (integer _) _ = true
component_le (string _) (integer _) = false
component_le (string _) (canonical _) = true
component_le (canonical _) _ = false

pub component_total : (a b : Component) → component_le a b ≡ false → component_le b a ≡ true
unfolding component_le
component_total (integer a) (integer b) h = int_total a b h
component_total (string a) (string b) h = lex_total a b h
component_total (canonical a) (canonical b) h = lex_total a b h
component_total _ _ h = ground arith

pub component_trans :
    (a b c : Component)
    → component_le a b ≡ true
    → component_le b c ≡ true
    → component_le a c ≡ true
unfolding component_le
component_trans (integer a) (integer b) (integer c) p q = int_trans a b c p q
component_trans (string a) (string b) (string c) p q = lex_trans a b c p q
component_trans (canonical a) (canonical b) (canonical c) p q = lex_trans a b c p q
component_trans _ _ _ p q = ground arith

pub component_antisymm :
    (a b : Component) → component_le a b ≡ true → component_le b a ≡ true → a ≡ b
unfolding component_le
component_antisymm (integer a) (integer b) p q = ap integer (int_antisymm a b p q)
component_antisymm (string a) (string b) p q = ap string (lex_antisymm a b p q)
component_antisymm (canonical a) (canonical b) p q = ap canonical (lex_antisymm a b p q)
component_antisymm _ _ p q = ground arith

instance abbrev pub component_order : Order Component
component_order = record {
  le = component_le;
  total = component_total;
  trans = component_trans;
  antisymm = component_antisymm;
}

-- `isinstance(value, int) and not isinstance(value, bool)`, then `validate_scalar`
unfoldable pub stable_integer_component : Platform → Value → Result Component
stable_integer_component p (int n) = do validate_scalar p (int n); ok (integer n)
stable_integer_component p _ = fail "must be an integer"

unfoldable pub stable_string_component : Platform → Value → Result Component
stable_string_component p (str (c ∷ cs)) = do
  validate_scalar p (str (c ∷ cs))
  key ← utf16_sort_key (c ∷ cs)
  ok (string key)
stable_string_component p _ = fail "must be a non-empty string"
