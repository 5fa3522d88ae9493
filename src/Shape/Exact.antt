-- ===== src/Shape/Exact.antt =====
-- What an exact object has: every expected key, and no other.
use mathlib.Core.List.{Mem, mem-cons, not-mem-nil}
use mathlib.Core.Logic.Or
use qing_yin.Prelude.{
  Bool, Bool-cases, List, [], all, and_true, arith, contains, inl, inr, ok, refl, same, same_iff,
  some, subst, sym, true, ◌∷◌, ◌≡◌,
}
use qing_yin.Prelude.Membership.{test-prop}
use qing_yin.Text.{Text}
use qing_yin.Json.{Fields, Value, end, field, get, item, keys, obj}
use qing_yin.Shape.{require_exact_object, same_set}

all→mem :
    (test : Text → Bool) (xs : List Text)
    → all test xs ≡ true
    → (x : Text) → Mem x xs
    → test x ≡ true
all→mem test [] h x m = absurd (not-mem-nil m)
all→mem test (y ∷ ys) h x m =
    let both = and_true (test y) (all test ys) h in
    Or.elim (test-prop _ _) (mem-cons.0 m) (λ e. subst (λ k. test k ≡ true) (sym e) both.0)
      (all→mem test ys both.1 x)

pub contains→get :
    (k : Text) (fs : Fields) → contains k (keys fs) ≡ true → (v : Value) × (get k fs ≡ some v)
unfolding get contains
contains→get k end h = cc
contains→get k (field j v fs) h = elim (Bool-cases (same j k)) [
  | inl e ↦ (v, rw e refl)
  | inr e ↦
      let rest = contains→get k fs (ground (arith, same_iff j k, same_iff k j)) in
      (rest.0, rw e rest.1)
]

pub require_exact_object-eq-ok :
    (v : Value) (names : List Text) (fs : Fields)
    → require_exact_object v names ≡ ok fs
    → (v ≡ obj fs) × (same_set (keys fs) names ≡ true)
unfolding require_exact_object
require_exact_object-eq-ok (obj gs) names fs h = ground arith
require_exact_object-eq-ok _ names fs h = cc

-- A lookup of an expected key in an exact object raises no KeyError.
pub item-exact :
    (v : Value) (names : List Text) (fs : Fields) (k : Text)
    → require_exact_object v names ≡ ok fs
    → Mem k names
    → (w : Value) × (item k fs ≡ ok w)
unfolding item same_set
item-exact v names fs k h m =
    let shape = require_exact_object-eq-ok v names fs h in
    let covered =
      (and_true (all (λ x. contains x names) (keys fs)) (all (λ y. contains y (keys fs)) names)
        shape.1).1 in
    let there = contains→get k fs (all→mem (λ y. contains y (keys fs)) names covered k m) in
    (there.0, rw there.1 refl)
