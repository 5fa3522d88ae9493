-- ===== src/Prelude/Order.antt =====
-- Total orders with a Boolean test, and the lexicographic order of lists.
use Prim.Native.Nat.{ℕ}
use mathlib.Core.Path.{◌≡◌, refl}
use mathlib.Core.Bool.{Bool, true, false}
use mathlib.Core.List.{List, [], ◌∷◌}
use native.Mathlib.Omega.{arith}
use qing_yin.Prelude.Tests.{leb, if◌then◌else◌}
use qing_yin.Prelude.Int.{ℤ, leb_ℤ}

pub record Order {ℓ} (A : Type ℓ) : Type ℓ where
  pub le : A → A → Bool
  pub total : (a b : A) → le a b ≡ false → le b a ≡ true
  pub trans : (a b c : A) → le a b ≡ true → le b c ≡ true → le a c ≡ true
  pub antisymm : (a b : A) → le a b ≡ true → le b a ≡ true → a ≡ b

pub nat_trans : (a b c : ℕ) → leb a b ≡ true → leb b c ≡ true → leb a c ≡ true
nat_trans a b c p q = ground arith

pub nat_total : (a b : ℕ) → leb a b ≡ false → leb b a ≡ true
nat_total a b p = ground arith

pub nat_antisymm : (a b : ℕ) → leb a b ≡ true → leb b a ≡ true → a ≡ b
nat_antisymm a b p q = ground arith

instance abbrev pub nat_order : Order ℕ
nat_order = record { le = leb; total = nat_total; trans = nat_trans; antisymm = nat_antisymm }

pub int_trans : (a b c : ℤ) → leb_ℤ a b ≡ true → leb_ℤ b c ≡ true → leb_ℤ a c ≡ true
int_trans a b c p q = ground arith

pub int_total : (a b : ℤ) → leb_ℤ a b ≡ false → leb_ℤ b a ≡ true
int_total a b p = ground arith

pub int_antisymm : (a b : ℤ) → leb_ℤ a b ≡ true → leb_ℤ b a ≡ true → a ≡ b
int_antisymm a b p q = ground arith

instance abbrev pub int_order : Order ℤ
int_order = record { le = leb_ℤ; total = int_total; trans = int_trans; antisymm = int_antisymm }

module _ {ℓ} {A : Type ℓ} ⦃o : Order A⦄ where
  pub le_refl : (a : A) → o.le a a ≡ true
  le_refl a = ground (arith, o.total a a)

  -- Python's `<=` on lists, tuples and byte strings
  unfoldable pub lex_le : List A → List A → Bool
  lex_le [] ys = true
  lex_le (x ∷ xs) [] = false
  lex_le (x ∷ xs) (y ∷ ys) = if o.le x y then (if o.le y x then lex_le xs ys else true) else false

  pub lex_total : (a b : List A) → lex_le a b ≡ false → lex_le b a ≡ true
  unfolding lex_le
  lex_total [] b p = cc
  lex_total (x ∷ a) [] p = refl
  lex_total (x ∷ a) (y ∷ b) p = ground (arith, o.total x y, o.total y x, lex_total a b)

  pub lex_trans : (a b c : List A) → lex_le a b ≡ true → lex_le b c ≡ true → lex_le a c ≡ true
  unfolding lex_le
  lex_trans [] b c p q = refl
  lex_trans (x ∷ a) [] c p q = cc
  lex_trans (x ∷ a) (y ∷ b) [] p q = cc
  lex_trans (x ∷ a) (y ∷ b) (z ∷ c) p q =
      ground (arith, o.trans x y z, o.trans z x y, o.trans y z x, lex_trans a b c)

  pub lex_antisymm : (a b : List A) → lex_le a b ≡ true → lex_le b a ≡ true → a ≡ b
  unfolding lex_le
  lex_antisymm [] [] p q = refl
  lex_antisymm [] (y ∷ b) p q = cc
  lex_antisymm (x ∷ a) [] p q = cc
  lex_antisymm (x ∷ a) (y ∷ b) p q = ground (arith, o.antisymm x y, lex_antisymm a b)

  instance abbrev pub lex_order : Order (List A)
  lex_order = record { le = lex_le; total = lex_total; trans = lex_trans; antisymm = lex_antisymm }
