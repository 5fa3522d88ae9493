-- ===== src/Prelude/Membership.antt =====
-- The list tests of the source against the library's membership, and loops of checks.
use mathlib.Core.Path.{◌≡◌, refl, sym, ap, subst, ◌∙◌}
use mathlib.Core.Logic.{inl, inr}
use mathlib.Core.Logic.Or
use mathlib.Core.Bool.{Bool, true, false, not, ◌&&◌, Bool-discrete}
use mathlib.Core.HLevel.{hedberg}
use mathlib.Core.List.{
  List, [], ◌∷◌, map, Mem, Nodup, Perm, mem-cons, mem-cons_self, mem-cons_of_mem, mem-map_of_mem,
  not-mem-nil, Nodup-cons, Nodup-nil,
}
use mathlib.Core.List.Perm
use Prim.Native.Nat.{ℕ}
use native.Mathlib.Omega.{arith}
use qing_yin.Prelude.Tests.{Bool-cases}
use qing_yin.Prelude.Lists.{contains, same, same_iff}
use qing_yin.Prelude.Outcome.{Result, bind-eq-ok, each, err, ok, ◌>>=◌}

pub test-prop : (a b : Bool) → IsProp (a ≡ b)
test-prop a b = hedberg Bool-discrete a b

-- `len(set(names)) == len(names)`
unfoldable pub distinct : List (List ℕ) → Bool
unfolding contains
distinct [] = true
distinct (k ∷ ks) = not (contains k ks) && distinct ks

pub contains→mem : (x : List ℕ) (l : List (List ℕ)) → contains x l ≡ true → Mem x l
unfolding contains
contains→mem x [] h = cc
contains→mem x (y ∷ ys) h = elim (Bool-cases (same x y)) [
  | inl e ↦ mem-cons.1 (Or.inl ((same_iff x y).0 e))
  | inr e ↦ mem-cons_of_mem y (contains→mem x ys (rw e at h))
]

pub mem→contains : (x : List ℕ) (l : List (List ℕ)) → Mem x l → contains x l ≡ true
unfolding contains
mem→contains x [] m = absurd (not-mem-nil m)
mem→contains x (y ∷ ys) m =
    Or.elim (test-prop _ _) (mem-cons.0 m) (λ e. rw ((same_iff x y).1 e))
      (λ t. ground (arith, mem→contains x ys t))

pub distinct→Nodup : (l : List (List ℕ)) → distinct l ≡ true → Nodup l
unfolding distinct
distinct→Nodup [] h = Nodup-nil
distinct→Nodup (k ∷ ks) h =
    Nodup-cons.1 ((λ m. ground (arith, mem→contains k ks m)), distinct→Nodup ks (ground arith))

pub Nodup→distinct : (l : List (List ℕ)) → Nodup l → distinct l ≡ true
unfolding distinct
Nodup→distinct [] n = refl
Nodup→distinct (k ∷ ks) n = elim (Bool-cases (contains k ks)) [
  | inl e ↦ absurd ((Nodup-cons.0 n).0 (contains→mem k ks e))
  | inr e ↦ rw (e, Nodup→distinct ks (Nodup-cons.0 n).1)
]

pub distinct-perm : (l r : List (List ℕ)) → Perm l r → distinct l ≡ true → distinct r ≡ true
distinct-perm l r p h = Nodup→distinct r ((Perm.Nodup-iff p).0 (distinct→Nodup l h))

abbrev pub passed {ℓ} : {A : Type ℓ} → Result A → Bool
passed (ok a) = true
passed (err e) = false

pub passed→ok : (m : Result (Unit {0})) → passed m ≡ true → m ≡ ok tt
passed→ok (ok a) h = refl
passed→ok (err e) h = cc

pub passed-bind {ℓ κ} :
    {A : Type ℓ} {B : Type κ} (m : Result A) (f : A → Result B)
    → passed (m >>= f) ≡ true
    → (a : A) × (m ≡ ok a) × (passed (f a) ≡ true)
passed-bind (ok a) f h = (a, refl, h)
passed-bind (err e) f h = cc

module _ {ℓ} {A : Type ℓ} (check : A → Result (Unit {0})) where
  -- the loop passes exactly when each round does
  each→mem_passed :
      (l : List A) → each check l ≡ ok tt → (x : A) → Mem x l → passed (check x) ≡ true
  unfolding each
  each→mem_passed [] h x m = absurd (not-mem-nil m)
  each→mem_passed (y ∷ ys) h x m =
      let parts = bind-eq-ok (check y) (λ _. each check ys) h in
      Or.elim (test-prop _ _) (mem-cons.0 m) (λ e. rw e (rw parts.1 refl))
        (each→mem_passed ys parts.2 x)

  pub each→mem : (l : List A) → each check l ≡ ok tt → (x : A) → Mem x l → check x ≡ ok tt
  each→mem l h x m = passed→ok (check x) (each→mem_passed l h x m)

  pub mem→each : (l : List A) → ((x : A) → Mem x l → check x ≡ ok tt) → each check l ≡ ok tt
  unfolding each
  mem→each [] h = refl
  mem→each (y ∷ ys) h = rw (h y mem-cons_self) (mem→each ys λ x m. h x (mem-cons_of_mem y m))

  pub each-perm : (l r : List A) → Perm l r → each check l ≡ ok tt → each check r ≡ ok tt
  each-perm l r p h = mem→each r λ x m. each→mem l h x ((Perm.mem_iff p).1 m)

module _ {ℓ κ} {A : Type ℓ} {K : Type κ} (is_set : IsSet A) (f : A → K) where
  -- where the images are distinct, an image tells the member
  pub member_of_image :
      (l : List A) → Nodup (map f l) → (x y : A) → Mem x l → Mem y l → f x ≡ f y → x ≡ y
  member_of_image [] n x y mx my e = absurd (not-mem-nil mx)
  member_of_image (z ∷ l) n x y mx my e =
      Or.elim (is_set x y) (mem-cons.0 mx)
        (λ p.
          Or.elim (is_set x y) (mem-cons.0 my) (λ q. p ∙ sym q)
            λ m. absurd (
              (Nodup-cons.0 n).0
                (subst (λ k. Mem k (map f l)) (sym e ∙ ap f p) (mem-map_of_mem f m))))
        λ m.
          Or.elim (is_set x y) (mem-cons.0 my)
            (λ q.
              absurd (
                (Nodup-cons.0 n).0
                  (subst (λ k. Mem k (map f l)) (e ∙ ap f q) (mem-map_of_mem f m))))
            λ m'. member_of_image l (Nodup-cons.0 n).1 x y m m' e
