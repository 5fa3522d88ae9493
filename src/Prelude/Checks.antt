-- ===== src/Prelude/Checks.antt =====
-- What a composed check accepts, from what its parts accept.
use mathlib.Core.Path.{◌≡◌, refl, ap, ◌∙◌}
use mathlib.Core.Bool.{Bool, true, false, not, ◌&&◌, ◌||◌}
use mathlib.Core.Logic.{◌↔◌, ◌⊎◌, inl, inr}
use mathlib.Core.List.{List, [], ◌∷◌}
use Prim.Native.String.{String}
use Prim.Native.Nat.{suc}
use qing_yin.Prelude.Tests.{if◌then◌else◌}
use qing_yin.Prelude.Lists.{All, all, length}
use qing_yin.Prelude.Outcome.{
  Result, bind-eq-ok, discard, each, err, ok, require, traverse, ◌>>=◌, ◌>>◌,
}

pub require_iff : (t : Bool) (message : String) → (require t message ≡ ok tt) ↔ (t ≡ true)
require_iff true message = (λ h. refl, λ h. refl)
require_iff false message = (λ h. cc, λ h. cc)

module _ {ℓ} {A : Type ℓ} {P : A → Type ℓ} {B : Type 0} {Q : A → Type 0} where
  pub bind_iff :
      (m : Result A) (next : A → Result B) {out : B}
      → ((a : A) → (m ≡ ok a) ↔ P a)
      → ((a : A) → (next a ≡ ok out) ↔ Q a)
      → ((m >>= next) ≡ ok out) ↔ ((a : A) × P a × Q a)
  bind_iff (ok a) next f g = (
    λ h. (a, (f a).0 refl, (g a).0 h),
    λ (b, p, q). let same : a ≡ b = cc ((f b).1 p) in rw same ((g b).1 q),
  )
  bind_iff (err e) next f g = (λ h. cc, λ (b, p, q). absurd (cc ((f b).1 p)))

module _ {P : Type 0} {B : Type 0} {Q : Type 0} where
  pub then_iff :
      (m : Result (Unit {0})) (next : Result B) {out : B}
      → (m ≡ ok tt) ↔ P
      → (next ≡ ok out) ↔ Q
      → ((m >> next) ≡ ok out) ↔ (P × Q)
  then_iff (ok tt) next f g = (λ h. (f.0 refl, g.0 h), λ (p, q). g.1 q)
  then_iff (err e) next f g = (λ h. cc, λ (p, q). absurd (cc (f.1 p)))

module _ {A : Type 0} {P : A → Type 0} (check : A → Result (Unit {0})) where
  pub each_iff :
      ((a : A) → (check a ≡ ok tt) ↔ P a) → (l : List A) → (each check l ≡ ok tt) ↔ All P l
  unfolding each
  each_iff h [] = (λ e. tt, λ u. refl)
  each_iff h (a ∷ l) = then_iff (check a) (each check l) (h a) (each_iff h l)

pub iff_trans : {P Q R : Type 0} → P ↔ Q → Q ↔ R → P ↔ R
iff_trans f g = (λ p. g.0 (f.0 p), λ r. f.1 (g.1 r))

module _ {A B : Type 0} (Spec : A → B → Type 0) where
  -- two lists of one length, related item by item
  abbrev pub Pointwise : List A → List B → Type 0
  Pointwise [] [] = Unit
  Pointwise (x ∷ xs) (y ∷ ys) = Spec x y × Pointwise xs ys
  Pointwise _ _ = ⊥

  pub length-Pointwise : (xs : List A) (ys : List B) → Pointwise xs ys → length xs ≡ length ys
  length-Pointwise [] [] p = refl
  length-Pointwise (x ∷ xs) (y ∷ ys) p = ap suc (length-Pointwise xs ys p.1)
  length-Pointwise [] (y ∷ ys) p = absurd p
  length-Pointwise (x ∷ xs) [] p = absurd p

  pub traverse_iff :
      (f : A → Result B)
      → ((x : A) (y : B) → (f x ≡ ok y) ↔ Spec x y)
      → (xs : List A) (ys : List B) → (traverse f xs ≡ ok ys) ↔ Pointwise xs ys
  unfolding traverse
  traverse_iff f h [] [] = (λ e. tt, λ p. refl)
  traverse_iff f h [] (y ∷ ys) = (λ e. cc, λ p. absurd p)
  traverse_iff f h (x ∷ xs) [] = (λ e. absurd (not_nil (f x) (traverse f xs) e), λ p. absurd p)
    where
      not_nil :
          (m : Result B) (n : Result (List B)) → ((m >>= λ y. n >>= λ ys. ok (y ∷ ys)) ≡ ok []) → ⊥
      not_nil (err e) n h = cc
      not_nil (ok y) (err e) h = cc
      not_nil (ok y) (ok ys) h = cc
  traverse_iff f h (x ∷ xs) (y ∷ ys) = (
    λ e.
        let first = bind-eq-ok (f x) _ e in
        let rest = bind-eq-ok (traverse f xs) _ first.2 in
        let heads : first.0 ≡ y = cc (rest.2) in
        let tails : rest.0 ≡ ys = cc (rest.2) in
        ((h x y).0 (first.1 ∙ ap ok heads), (traverse_iff f h xs ys).0 (rest.1 ∙ ap ok tails)),
    λ (p, q). rw ((h x y).1 p, (traverse_iff f h xs ys).1 q) refl,
  )

pub ok_iff : {A : Type 0} (a b : A) → (ok a ≡ ok b) ↔ (a ≡ b)
ok_iff a b = (λ h. cc, λ h. cc)

module _ {B C P Q : Type 0} where
  -- a test between two checks
  pub branch_iff :
      (t : Bool) (m k : Result B) {out : B}
      → (t ≡ true) ↔ C
      → (m ≡ ok out) ↔ P
      → (k ≡ ok out) ↔ Q
      → ((if t then m else k) ≡ ok out) ↔ ((C × P) ⊎ ((C → ⊥) × Q))
  branch_iff true m k c f g = (
    λ h. inl (c.0 refl, f.0 h),
    λ s. elim s [ inl x ↦ f.1 x.1 | inr x ↦ absurd (x.0 (c.0 refl)) ],
  )
  branch_iff false m k c f g = (
    λ h. inr ((λ y. absurd (cc (c.1 y))), g.0 h),
    λ s. elim s [ inl x ↦ absurd (cc (c.1 x.0)) | inr x ↦ g.1 x.1 ],
  )

module _ {B : Type 0} where
  both_pass :
      {P Q : Type 0} (m : Result B) (n : Result (List B))
      → (discard m ≡ ok tt) ↔ P
      → (discard n ≡ ok tt) ↔ Q
      → (discard (m >>= λ y. n >>= λ ys. ok (y ∷ ys)) ≡ ok tt) ↔ (P × Q)
  both_pass (err e) n f g = (λ h. cc, λ s. absurd (cc (f.1 s.0)))
  both_pass (ok y) (err e) f g = (λ h. cc, λ s. absurd (cc (g.1 s.1)))
  both_pass (ok y) (ok ys) f g = (λ h. (f.0 refl, g.0 refl), λ s. refl)

module _ {A B : Type 0} where
  -- a step whose value is not used
  pub drop_iff :
      {P Q : Type 0} (m : Result A) (next : Result B) {out : B}
      → (discard m ≡ ok tt) ↔ P
      → (next ≡ ok out) ↔ Q
      → ((m >>= λ _. next) ≡ ok out) ↔ (P × Q)
  drop_iff (ok a) next f g = (λ h. (f.0 refl, g.0 h), λ s. g.1 s.1)
  drop_iff (err e) next f g = (λ h. cc, λ s. absurd (cc (f.1 s.0)))

  -- a comprehension raises nothing exactly when no element does
  pub discard-traverse_iff :
      {P : A → Type 0} (f : A → Result B)
      → ((a : A) → (discard (f a) ≡ ok tt) ↔ P a)
      → (l : List A) → (discard (traverse f l) ≡ ok tt) ↔ All P l
  unfolding traverse
  discard-traverse_iff f h [] = (λ e. tt, λ u. refl)
  discard-traverse_iff f h (a ∷ l) =
      both_pass (f a) (traverse f l) (h a) (discard-traverse_iff f h l)

pub or_iff :
    (a b : Bool) {P Q : Type 0} → (a ≡ true) ↔ P → (b ≡ true) ↔ Q → ((a || b) ≡ true) ↔ (P ⊎ Q)
or_iff true b f g = (λ h. inl (f.0 refl), λ s. refl)
or_iff false b f g = (λ h. inr (g.0 h), λ s. elim s [ inl p ↦ absurd (cc (f.1 p)) | inr q ↦ g.1 q ])

pub and_iff :
    (a b : Bool) {P Q : Type 0} → (a ≡ true) ↔ P → (b ≡ true) ↔ Q → ((a && b) ≡ true) ↔ (P × Q)
and_iff true b f g = (λ h. (f.0 refl, g.0 h), λ s. g.1 s.1)
and_iff false b f g = (λ h. cc, λ s. absurd (cc (f.1 s.0)))

pub not_iff : (b : Bool) → (not b ≡ true) ↔ (b ≡ false)
not_iff true = (λ h. cc, λ h. cc)
not_iff false = (λ h. refl, λ h. refl)

pub all_iff :
    {A : Type 0} {P : A → Type 0} (test : A → Bool)
    → ((a : A) → (test a ≡ true) ↔ P a)
    → (l : List A) → (all test l ≡ true) ↔ All P l
all_iff test h [] = (λ e. tt, λ p. refl)
all_iff test h (a ∷ l) = and_iff (test a) (all test l) (h a) (all_iff test h l)

pub each_equivalent :
    {A : Type 0} {P Q : A → Type 0} → ((a : A) → P a ↔ Q a) → (l : List A) → All P l ↔ All Q l
each_equivalent f [] = (λ p. tt, λ q. tt)
each_equivalent f (a ∷ l) =
    let rest = each_equivalent f l in
    (λ p. ((f a).0 p.0, rest.0 p.1), λ q. ((f a).1 q.0, rest.1 q.1))

-- a value that is described by the check itself
pub self_iff : {A : Type 0} (m : Result A) (a : A) → (m ≡ ok a) ↔ (m ≡ ok a)
self_iff m a = (λ h. h, λ h. h)
