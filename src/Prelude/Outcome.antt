-- ===== src/Prelude/Outcome.antt =====
-- Checks that may raise. `invalid` is a GovernanceValidationError with the fixed text of its
-- message; `raised` is any other Python exception, by the name of its class.
use Prim.Native.String.{String}
use mathlib.Core.Path.{◌≡◌, refl}
use mathlib.Core.Bool.{Bool, true, false}
use mathlib.Core.Logic.{◌⊎◌, inl, inr}
use mathlib.Core.List.{List, [], ◌∷◌}

pub data Failure : Type 0 where
  invalid : String → Failure
  raised : String → Failure

pub data Result {ℓ} (A : Type ℓ) : Type ℓ where
  ok : A → Result A
  err : Failure → Result A

module _ {ℓ κ} {A : Type ℓ} {B : Type κ} where
  infixl 5 ◌>>=◌
  abbrev pub ◌>>=◌ : Result A → (A → Result B) → Result B
  err why >>= next = err why
  ok value >>= next = next value

module _ {ℓ} {B : Type ℓ} where
  infixl 5 ◌>>◌
  abbrev pub ◌>>◌ : Result (Unit {0}) → Result B → Result B
  check >> next = check >>= λ _. next

-- a check whose value is dropped
abbrev pub discard {ℓ} : {A : Type ℓ} → Result A → Result (Unit {0})
discard (ok a) = ok tt
discard (err e) = err e

abbrev pub fail {ℓ} : {A : Type ℓ} → String → Result A
fail message = err (invalid message)

abbrev pub require : Bool → String → Result (Unit {0})
require true message = ok tt
require false message = fail message

module _ {ℓ κ} {A : Type ℓ} {B : Type κ} where
  -- a comprehension whose element may raise: the first failure ends it
  unfoldable pub traverse : (A → Result B) → List A → Result (List B)
  traverse f [] = ok []
  traverse f (x ∷ xs) = do y ← f x; ys ← traverse f xs; ok (y ∷ ys)

  -- what was returned on the way to a returned value
  pub bind-eq-ok :
      (first : Result A) (next : A → Result B) {out : B}
      → (first >>= next) ≡ ok out
      → (value : A) × (first ≡ ok value) × (next value ≡ ok out)
  bind-eq-ok (err why) next h = cc
  bind-eq-ok (ok value) next h = (value, refl, h)

module _ {ℓ} {B : Type ℓ} where
  -- a passed `require` is its test
  pub require-eq-ok :
      (t : Bool) (message : String) (k : Result B) {b : B}
      → (require t message >> k) ≡ ok b
      → (t ≡ true) × (k ≡ ok b)
  require-eq-ok true message k h = (refl, h)
  require-eq-ok false message k h = cc

-- `for x in xs: check(x)`
unfoldable pub each {ℓ} : {A : Type ℓ} → (A → Result (Unit {0})) → List A → Result (Unit {0})
each check [] = ok tt
each check (x ∷ xs) = check x >> each check xs

-- The value, if there is one, and no exception but GovernanceValidationError.
abbrev pub Graceful {ℓ} : {A : Type ℓ} → Result A → Type 0
Graceful (ok a) = Unit
Graceful (err (invalid m)) = Unit
Graceful (err (raised c)) = ⊥

pub ok-injective {ℓ} : {A : Type ℓ} (a b : A) → ok a ≡ ok b → a ≡ b
ok-injective a b h = cc

-- To split on a computed result and keep the equation.
pub Result-cases {ℓ} :
    {A : Type ℓ} (m : Result A) → ((a : A) × (m ≡ ok a)) ⊎ ((e : Failure) × (m ≡ err e))
Result-cases (ok a) = inl (a, refl)
Result-cases (err e) = inr (e, refl)
