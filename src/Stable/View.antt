-- ===== src/Stable/View.antt =====
-- `derive_stable_array_view` and `require_stable_array_order`.
use qing_yin.Prelude.{
  Bool, List, Option, Result, [], false, map, none, not, ok, require, some, suc, true, ℕ, ◌&&◌,
  ◌++◌, ◌>>=◌, ◌>>◌, ◌||◌, ◌∷◌,
}
use qing_yin.Prelude.Order.{lex_le, lex_order}
use qing_yin.Prelude.Sort.{sorted_by}
use qing_yin.Platform.{Platform}
use qing_yin.Json.{Value, arr, of_elements}
use qing_yin.Json.Equality.{eq_value}
use qing_yin.Json.Canonical.{canonical_json_v1}
use qing_yin.Shape.{list, some_or_fail}
use qing_yin.Stable.Component.{Component, canonical, component_order}

abbrev pub Key : Type 0
Key = List Component

-- a callback on an item and its index, which may raise
abbrev pub KeyOf : Type 0
KeyOf = Value → ℕ → Result Key

-- `isinstance(key, tuple) and key`
abbrev pub given : Key → Bool
given [] = false
given (_ ∷ _) = true

unfoldable pub same_key : Key → Key → Bool
same_key a b = lex_le a b && lex_le b a

-- `identity in seen`
unfoldable pub seen_before : Key → List Key → Bool
unfolding same_key
seen_before k [] = false
seen_before k (s ∷ seen) = same_key k s || seen_before k seen

-- `key if unique_key is None else unique_key(item, index)`
abbrev pub identity_of : Option KeyOf → Key → Value → ℕ → Result Key
identity_of none key v index = ok key
identity_of (some unique_key) key v index = unique_key v index

-- What the loop computes of one item: the sort key, with the canonical item as its last component,
-- and the identity.
unfoldable pub keyed : Platform → KeyOf → Option KeyOf → Value → ℕ → Result (Key × Key)
keyed p primary_key unique_key v index = do
  key ← primary_key v index
  require (given key) "stable primary key missing"
  identity ← identity_of unique_key key v index
  require (given identity) "stable unique key missing"
  ok (key, identity)

abbrev pub Decorated : Type 0
Decorated = Key × Value

abbrev pub order_key : Decorated → Key
order_key d = d.0

module _ (p : Platform) (primary_key : KeyOf) (unique_key : Option KeyOf) where
  -- the `for` over `enumerate(values)`
  unfoldable pub decorate : List Key → ℕ → List Value → Result (List Decorated)
  decorate seen index [] = ok []
  decorate seen index (v ∷ vs) = do
    (key, identity) ← keyed p primary_key unique_key v index
    require (not (seen_before identity seen)) "contains a duplicate stable unique key"
    bytes ← canonical_json_v1 p v
    rest ← decorate (identity ∷ seen) (suc index) vs
    ok ((key ++ canonical bytes ∷ [], v) ∷ rest)

  unfoldable pub derive_stable_array_view : Value → Result (List Value)
  unfolding list
  derive_stable_array_view values = do
    items ← some_or_fail (list values) "must be an array"
    decorated ← decorate [] 0 items
    ok (map (λ (d : Decorated). d.1) (sorted_by order_key decorated))

  unfoldable pub require_stable_array_order : Value → Result (Unit {0})
  unfolding derive_stable_array_view
  require_stable_array_order values = do
    stable_view ← derive_stable_array_view values
    require (eq_value values (arr (of_elements stable_view))) "must be in stable canonical order"
