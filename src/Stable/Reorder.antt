-- ===== src/Stable/Reorder.antt =====
-- The view does not depend on the order in which the provider listed the items.

use mathlib.Core.List.{Mem, Nodup, Perm, not-mem-nil, mem-map}
use mathlib.Core.List.Perm
use mathlib.Core.Logic.{∥∥₁_elim}
use qing_yin.Prelude.{
  List, Option, Result, [], ap, bind-eq-ok, err, map, none, ok, ok-injective, refl, require, subst,
  sym, ◌++◌, ◌>>=◌, ◌>>◌, ◌∙◌, ◌∷◌, ◌≡◌,
}
use qing_yin.Prelude.Order.{lex_order}
use qing_yin.Prelude.Sort.{KeyInjective, sorted_by, sorted_by-perm, sorted_by-perm_eq}
use qing_yin.Prelude.Membership.{member_of_image}
use qing_yin.Platform.{Platform}
use qing_yin.Json.{Items, Value, arr, elements}
use qing_yin.Stable.Component.{canonical, component_order}
use qing_yin.Stable.View.{Decorated, Key, derive_stable_array_view, given, keyed, order_key}
use qing_yin.Stable.Identity.{Fresh→Nodup, Nodup→Fresh, Value-set, decorated-set}
use qing_yin.Stable.Rounds.{
  Callback, Decorates, at_any_index, both, decorate_complete, decorate_sound, decorated, full,
  id_of, loop, sort_of,
}
use qing_yin.Json.Canonical.{canonical_json_v1}
use qing_yin.Text.{Bytes}

module _ (p : Platform) (key : Callback) (unique : Option Callback) where
  abbrev stamped : List Value → List Decorated
  stamped = decorated p key unique

  -- the whole function, with callbacks that do not look at the index
  abbrev pub view : Value → Result (List Value)
  view = derive_stable_array_view p (λ v _. key v) (at_any_index unique)

  -- items that sort alike have one identity
  abbrev pub Tells : List Value → Type 0
  Tells vs =
      (x y : Value)
      → Mem x vs
      → Mem y vs
      → sort_of p key unique x ≡ sort_of p key unique y
      → id_of p key unique x ≡ id_of p key unique y

  decorated-KeyInjective :
      (vs : List Value)
      → Nodup (map (id_of p key unique) vs)
      → Tells vs
      → KeyInjective order_key (stamped vs)
  decorated-KeyInjective vs n tells a b ma mb e =
      ∥∥₁_elim (mem-map.0 ma) (decorated-set a b) λ (x, mx, ex).
        ∥∥₁_elim (mem-map.0 mb) (decorated-set a b) λ (y, my, ey).
          sym ex
          ∙ ap (λ v. (sort_of p key unique v, v))
              (member_of_image Value-set (id_of p key unique) vs n x y mx my
                (tells x y mx my (ap order_key ex ∙ e ∙ ap order_key (sym ey))))
          ∙ ey

  -- What a view that is returned says of the items, for a list of them.
  view_parts :
      (items : Items) (out : List Value)
      → view (arr items) ≡ ok out
      → Decorates p key unique [] (elements items) (stamped (elements items))
        × (out ≡ map (λ (d : Decorated). d.1) (sorted_by order_key (stamped (elements items))))
  unfolding derive_stable_array_view
  view_parts items out h =
      let done = bind-eq-ok (loop p key unique [] 0 (elements items)) _ h in
      let sound = decorate_sound p key unique [] 0 (elements items) done.0 done.1 in
      (
        record { passes = sound.passes; fresh = sound.fresh; result = refl },
        sym (ok-injective _ out done.2)
            ∙ ap (λ ds. map (λ (d : Decorated). d.1) (sorted_by order_key ds)) sound.result,
      )

  items_of : (vs : List Value) → map (λ (d : Decorated). d.1) (stamped vs) ≡ vs
  items_of [] = refl
  items_of (v ∷ vs) = ap (◌∷◌ v) (items_of vs)

  -- With callbacks that do not look at the index, a view that is returned is a permutation of the
  -- array's items, whose identities are pairwise different.
  pub derive_stable_array_view-perm :
      (items : Items) (out : List Value)
      → view (arr items) ≡ ok out
      → Perm out (elements items) × Nodup (map (id_of p key unique) (elements items))
  derive_stable_array_view-perm items out h =
      let q = view_parts items out h in
      let vs = elements items in
      (
        subst (λ o. Perm o vs) (sym q.1)
            (subst (Perm (map (λ (d : Decorated). d.1) (sorted_by order_key (stamped vs))))
              (items_of vs)
              (Perm.map (λ (d : Decorated). d.1) (sorted_by-perm order_key (stamped vs)))),
        (Fresh→Nodup [] (map (id_of p key unique) vs) q.0.fresh).0,
      )

  -- With callbacks that do not look at the index, a view that is returned for an array is returned
  -- for every reordering of it, where items with equal sort keys have equal identities.
  pub derive_stable_array_view-reorder :
      (l r : Items) (out : List Value)
      → Perm (elements l) (elements r)
      → Tells (elements l)
      → view (arr l) ≡ ok out
      → view (arr r) ≡ ok out
  unfolding derive_stable_array_view
  derive_stable_array_view-reorder l r out perm tells h =
      let q = view_parts l out h in
      let distinct_ids = (Fresh→Nodup [] (map (id_of p key unique) (elements l)) q.0.fresh).0 in
      let fresh =
        Nodup→Fresh [] (map (id_of p key unique) (elements r))
          ((Perm.Nodup-iff (Perm.map (id_of p key unique) perm)).0 distinct_ids)
          (λ k m. not-mem-nil) in
      let loop_passes =
        decorate_complete p key unique [] 0 (elements r)
          (λ v m. q.0.passes v ((Perm.mem_iff perm).1 m)) fresh in
      let same_order =
        sorted_by-perm_eq order_key (stamped (elements l)) (stamped (elements r))
          (Perm.map (λ v. (sort_of p key unique v, v)) perm)
          (decorated-KeyInjective (elements l) distinct_ids tells) in
      rw loop_passes (ap ok (ap (map (λ (d : Decorated). d.1)) (sym same_order) ∙ sym q.1))

front {ℓ} : {A : Type ℓ} → List A → List A
front [] = []
front (x ∷ []) = []
front (x ∷ y ∷ l) = x ∷ front (y ∷ l)

front-concat {ℓ} : {A : Type ℓ} (l : List A) (a : A) → front (l ++ a ∷ []) ≡ l
unfolding front
front-concat [] a = refl
front-concat (x ∷ []) a = refl
front-concat (x ∷ y ∷ l) a = ap (◌∷◌ x) (front-concat (y ∷ l) a)

-- With no `unique_key` the identity is the sort key without its last component.
id_of-front :
    (p : Platform) (key : Callback) (v : Value) → id_of p key none v ≡ front (sort_of p key none v)
unfolding id_of sort_of full keyed front
id_of-front p key v = by_parts (key v) (canonical_json_v1 p v)
  where
    pairs : Result Key → Result Bytes → Result (Key × Key)
    pairs k c = do
      (first, identity) ← (do
        key ← k
        require (given key) "stable primary key missing"
        require (given key) "stable unique key missing"
        ok (key, key))
      bytes ← c
      ok (first ++ canonical bytes ∷ [], identity)

    by_parts :
        (k : Result Key) (c : Result Bytes)
        → (both p key none (pairs k c)).1 ≡ front (both p key none (pairs k c)).0
    by_parts (err e) c = refl
    by_parts (ok []) c = refl
    by_parts (ok (x ∷ k)) (err e) = refl
    by_parts (ok (x ∷ k)) (ok b) = sym (front-concat (x ∷ k) (canonical b))

-- Without `unique_key`, items that sort alike have one identity.
pub Tells-by_key : (p : Platform) (key : Callback) (vs : List Value) → Tells p key none vs
Tells-by_key p key vs x y mx my e = id_of-front p key x ∙ ap front e ∙ sym (id_of-front p key y)

-- With no `unique_key` and a callback that does not look at the index, a view that is returned for
-- an array is returned for every reordering of the array.
pub derive_stable_array_view-reorder_by_key :
    (p : Platform) (key : Callback) (l r : Items) (out : List Value)
    → Perm (elements l) (elements r)
    → view p key none (arr l) ≡ ok out
    → view p key none (arr r) ≡ ok out
derive_stable_array_view-reorder_by_key p key l r out perm =
    derive_stable_array_view-reorder p key none l r out perm (Tells-by_key p key (elements l))
