-- ===== src/Prelude/Sort.antt =====
-- Python's `sorted(items, key=...)`: a stable insertion sort, its order, and its permutation.
use mathlib.Core.Path.{◌≡◌, refl, sym, ap₂}
use mathlib.Core.Bool.{true}
use mathlib.Core.List.{
  List, [], ◌∷◌, Mem, Perm, Pairwise, mem-cons_self, mem-cons_of_mem, forall_mem-cons,
  Pairwise-singleton, Pairwise-cons,
}
use mathlib.Core.List.Pairwise
use mathlib.Core.List.Perm
use mathlib.Core.Bool.{Bool-discrete}
use mathlib.Core.HLevel.{hedberg}
use qing_yin.Prelude.Tests.{if◌then◌else◌, Bool-cases}
use mathlib.Core.Logic.{inl, inr}
use qing_yin.Prelude.Order.{Order, le_refl}

module _ {ℓ κ} {A : Type ℓ} {K : Type κ} ⦃o : Order K⦄ (key : A → K) where
  -- before the first item whose key is not below
  unfoldable pub insert_by : A → List A → List A
  insert_by x [] = x ∷ []
  insert_by x (y ∷ ys) = if o.le (key x) (key y) then x ∷ y ∷ ys else y ∷ insert_by x ys

  unfoldable pub sorted_by : List A → List A
  unfolding insert_by
  sorted_by [] = []
  sorted_by (x ∷ xs) = insert_by x (sorted_by xs)

  abbrev pub KeyLe : A → A → Type 0
  KeyLe x y = o.le (key x) (key y) ≡ true

  abbrev pub IsSorted : List A → Type ℓ
  IsSorted = Pairwise KeyLe

  -- nothing of the list sorts before the item
  abbrev IsBelow : A → List A → Type ℓ
  IsBelow first rest = (later : A) → Mem later rest → KeyLe first later

  KeyLe-prop : (x y : A) → IsProp (KeyLe x y)
  KeyLe-prop x y = hedberg Bool-discrete _ _

  pub insert_by-perm : (x : A) (l : List A) → Perm (insert_by x l) (x ∷ l)
  unfolding insert_by
  insert_by-perm x [] = Perm.refl _
  insert_by-perm x (y ∷ ys) = elim (Bool-cases (o.le (key x) (key y))) [
    | inl p ↦ rw p (Perm.refl _)
    | inr p ↦ rw p (Perm.trans (Perm.cons y (insert_by-perm x ys)) (Perm.swap x y ys))
  ]

  pub sorted_by-perm : (l : List A) → Perm (sorted_by l) l
  unfolding sorted_by
  sorted_by-perm [] = Perm.refl _
  sorted_by-perm (x ∷ xs) =
      Perm.trans (insert_by-perm x (sorted_by xs)) (Perm.cons x (sorted_by-perm xs))

  IsBelow-perm : {x : A} {xs ys : List A} → IsBelow x ys → Perm xs ys → IsBelow x xs
  IsBelow-perm below p z m = below z ((Perm.mem_iff p).0 m)

  IsBelow-cons : {x y : A} {ys : List A} → KeyLe x y → IsBelow x ys → IsBelow x (y ∷ ys)
  IsBelow-cons {x} le below = (forall_mem-cons (KeyLe-prop x)).1 (le, below)

  IsBelow-head : {x y : A} {ys : List A} → IsSorted (y ∷ ys) → KeyLe x y → IsBelow x (y ∷ ys)
  IsBelow-head {x} {y} (Pairwise.cons first _) le =
      IsBelow-cons le λ z m. o.trans (key x) (key y) (key z) le (first z m)

  insert_by-IsSorted : (x : A) (l : List A) → IsSorted l → IsSorted (insert_by x l)
  unfolding insert_by
  insert_by-IsSorted x [] s = Pairwise-singleton _ x
  insert_by-IsSorted x (y ∷ ys) s = elim (Bool-cases (o.le (key x) (key y))) [
    | inl p ↦ rw p (Pairwise.cons (IsBelow-head s p) s)
    | inr p ↦
        let below = IsBelow-cons (o.total (key x) (key y) p) (Pairwise-cons.0 s).0 in
        rw p (
          Pairwise.cons (IsBelow-perm below (insert_by-perm x ys))
            (insert_by-IsSorted x ys (Pairwise.of_cons s)))
  ]

  pub sorted_by-IsSorted : (l : List A) → IsSorted (sorted_by l)
  unfolding sorted_by
  sorted_by-IsSorted [] = Pairwise.nil
  sorted_by-IsSorted (x ∷ xs) = insert_by-IsSorted x (sorted_by xs) (sorted_by-IsSorted xs)

  -- no two different members of the list have one key
  abbrev pub KeyInjective : List A → Type (ℓ ⊔ κ)
  KeyInjective l = (x y : A) → Mem x l → Mem y l → key x ≡ key y → x ≡ y

  -- the head of a sorted list is below the head of every permutation of it
  first_is_least :
      (x : A) (xs : List A) (y : A) (ys : List A)
      → IsSorted (x ∷ xs)
      → Perm (y ∷ ys) (x ∷ xs)
      → KeyLe x y
  first_is_least x xs y ys s p = IsBelow-perm (IsBelow-head s (le_refl (key x))) p y mem-cons_self

  same_head :
      (x : A) (xs : List A) (y : A) (ys : List A)
      → IsSorted (x ∷ xs)
      → IsSorted (y ∷ ys)
      → Perm (x ∷ xs) (y ∷ ys)
      → KeyInjective (x ∷ xs)
      → x ≡ y
  same_head x xs y ys sx sy p inj =
      inj x y mem-cons_self ((Perm.mem_iff (Perm.symm p)).0 mem-cons_self) (
        o.antisymm (key x) (key y) (first_is_least x xs y ys sx (Perm.symm p))
          (first_is_least y ys x xs sy p))

  pub sorted_unique : (l r : List A) → IsSorted l → IsSorted r → Perm l r → KeyInjective l → l ≡ r
  sorted_unique [] r sl sr p inj = Perm.nil-eq p
  sorted_unique (x ∷ xs) [] sl sr p inj = Perm.eq-nil p
  sorted_unique (x ∷ xs) (y ∷ ys) sl sr p inj =
      let e = same_head x xs y ys sl sr p inj in
      ap₂ ◌∷◌ e (
        sorted_unique xs ys (Pairwise.of_cons sl) (Pairwise.of_cons sr)
          (Perm.cons_inv (Perm.trans p (Perm.cons' (sym e) Perm.rfl)))
          λ u v mu mv. inj u v (mem-cons_of_mem x mu) (mem-cons_of_mem x mv))

  -- The order of the input does not show in the output, where the keys tell the items apart.
  pub sorted_by-perm_eq : (l r : List A) → Perm l r → KeyInjective l → sorted_by l ≡ sorted_by r
  sorted_by-perm_eq l r p inj =
      sorted_unique (sorted_by l) (sorted_by r) (sorted_by-IsSorted l) (sorted_by-IsSorted r)
        (Perm.trans (sorted_by-perm l) (Perm.trans p (Perm.symm (sorted_by-perm r))))
        λ x y mx my.
          inj x y ((Perm.mem_iff (sorted_by-perm l)).0 mx) ((Perm.mem_iff (sorted_by-perm l)).0 my)

  insert_first : (x : A) (l : List A) → IsBelow x l → insert_by x l ≡ x ∷ l
  unfolding insert_by
  insert_first x [] h = refl
  insert_first x (y ∷ ys) h = rw (h y mem-cons_self)

  -- An ascending list is left as it is.
  pub sorted_by_of_IsSorted : (l : List A) → IsSorted l → sorted_by l ≡ l
  unfolding sorted_by
  sorted_by_of_IsSorted [] s = refl
  sorted_by_of_IsSorted (x ∷ xs) (Pairwise.cons h t) =
      rw (sorted_by_of_IsSorted xs t) (insert_first x xs h)
