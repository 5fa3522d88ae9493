-- ===== src/Evidence/Bundle/Contents.antt =====
-- The endpoint bundles that are accepted, and what an accepted response binds together.
use mathlib.Core.Path.{ap₂}
use mathlib.Core.List.{Mem, Nodup, Nodup-cons, Nodup-nil, mem-cons, mem-cons_of_mem, not-mem-nil}
use mathlib.Core.Logic.Or
use qing_yin.Prelude.{
  Bool, Bool-cases, List, Option, [], any, ap, arith, contains, fail, inl, inr, map, none, ok,
  ok-injective, refl, require, some, subst, sym, traverse, true, ◌>>=◌, ◌>>◌, ◌↔◌, ◌∙◌, ◌∷◌, ◌≡◌,
  ◌≢◌,
}
use qing_yin.Prelude.Order.{lex_order, nat_order}
use qing_yin.Prelude.Sort.{IsSorted, sorted_by, sorted_by-IsSorted, sorted_by_of_IsSorted}
use qing_yin.Prelude.Membership.{test-prop}
use qing_yin.Prelude.Checks.{
  Pointwise, and_iff, bind_iff, iff_trans, ok_iff, require_iff, then_iff, traverse_iff,
}
use qing_yin.Text.{Text, lit}
use qing_yin.Platform.{Platform}
use qing_yin.Json.{Fields, Value, item, str}
use qing_yin.Shape.{list, require_exact_object, same_texts, some_or_fail}
use qing_yin.Shape.Digests.{Document, Has, HasText, item_iff, require_exact_object_iff}
use qing_yin.Shape.Named.{some_iff}
use qing_yin.Shape.Strings.{same_texts_iff}
use qing_yin.Evidence.Inventory.{component_inventory, lookup, post_merge_components}
use qing_yin.Evidence.Attestation.Accepted.{require_text_iff}
use qing_yin.Evidence.Bundle.{
  Reader, Tuple, bundle_keys, check_response, component_name, distinct_tuples, label_of,
  same_tuples, some_responses, tuple_key, validate_endpoint_bundle_v3,
}

module _ {A : Type 0} (same_item : A → A → Bool)
    (same_item_iff : (a b : A) → (same_item a b ≡ true) ↔ (a ≡ b)) where
  any-mem : (x : A) (xs : List A) → any (same_item x) xs ≡ true → Mem x xs
  any-mem x [] h = cc
  any-mem x (y ∷ ys) h = elim (Bool-cases (same_item x y)) [
    | inl e ↦ mem-cons.1 (Or.inl ((same_item_iff x y).0 e))
    | inr e ↦ mem-cons_of_mem y (any-mem x ys (rw e at h))
  ]

  mem-any : (x : A) (xs : List A) → Mem x xs → any (same_item x) xs ≡ true
  mem-any x [] m = absurd (not-mem-nil m)
  mem-any x (y ∷ ys) m =
      Or.elim (test-prop _ _) (mem-cons.0 m) (λ e. rw ((same_item_iff x y).1 e))
        λ t. ground (arith, mem-any x ys t)

distinct_tuples_iff : (ts : List Tuple) → (distinct_tuples ts ≡ true) ↔ Nodup ts
unfolding distinct_tuples
distinct_tuples_iff [] = (λ h. Nodup-nil, λ n. refl)
distinct_tuples_iff (t ∷ ts) = (
  λ h. Nodup-cons.1 (
    (λ m. ground (arith, mem-any same_texts same_texts_iff t ts m)),
    (distinct_tuples_iff ts).0 (ground arith),
  ),
  λ n. elim (Bool-cases (any (same_texts t) ts)) [
    | inl e ↦ absurd ((Nodup-cons.0 n).0 (any-mem same_texts same_texts_iff t ts e))
    | inr e ↦ rw (e, (distinct_tuples_iff ts).1 (Nodup-cons.0 n).1)
  ],
)

same_tuples_iff : (a b : List Tuple) → (same_tuples a b ≡ true) ↔ (a ≡ b)
unfolding same_tuples
same_tuples_iff [] [] = (λ h. refl, λ h. refl)
same_tuples_iff [] (y ∷ b) = (λ h. cc, λ h. cc)
same_tuples_iff (x ∷ a) [] = (λ h. cc, λ h. cc)
same_tuples_iff (x ∷ a) (y ∷ b) =
    iff_trans
      (and_iff (same_texts x y) (same_tuples a b) (same_texts_iff x y) (same_tuples_iff a b))
      (λ (e, f). ap₂ ◌∷◌ e f, λ h. (cc, cc))

component_name_iff :
    (v : Value) (name : Text)
    → (component_name v ≡ ok name) ↔ ((v ≡ str name) × (contains name post_merge_components ≡ true))
unfolding component_name
component_name_iff (str s) name =
    iff_trans (then_iff _ _ (require_iff (contains s post_merge_components) _) (ok_iff s name)) (
      λ (h, e). (ap str e, subst (λ n. contains n post_merge_components ≡ true) e h),
      λ (e, h). let equal : s ≡ name = cc in (rw equal h, equal),
    )
component_name_iff _ name = (λ h. cc, λ (e, h). cc)

some_responses_iff :
    (v : Value) (vs : List Value) → (some_responses v ≡ ok vs) ↔ ((list v ≡ some vs) × (vs ≢ []))
unfolding some_responses
some_responses_iff v vs = by_list (list v)
  where
    cons_not_nil : {x : Value} {xs : List Value} → x ∷ xs ≡ [] → ⊥
    cons_not_nil e = cc

    by_list :
        (o : Option (List Value))
        → ((elim o [
          | none ↦ fail "endpoint bundle responses must be non-empty"
          | some [] ↦ fail "endpoint bundle responses must be non-empty"
          | some (x ∷ xs) ↦ ok (x ∷ xs)
        ])
            ≡ ok vs)
          ↔ ((o ≡ some vs) × (vs ≢ []))
    by_list none = (λ h. cc, λ (e, n). cc)
    by_list (some []) = (λ h. cc, λ (e, n). absurd (n cc))
    by_list (some (x ∷ xs)) = (
      λ h. let equal = ok-injective (x ∷ xs) vs h in (ap some equal, λ n. cons_not_nil (equal ∙ n)),
      λ (e, n). cc,
    )

module _ (p : Platform) (r : Reader) where
  -- the responses of a component: each passes, no two are alike, they ascend, and their labels are
  -- the component's labels in the inventory
  abbrev pub IsResponses : Text → Value → Type 0
  IsResponses name given =
      (vs : List Value) × ((list given ≡ some vs) × (vs ≢ []))
      × ((tuples : List Tuple) × Pointwise (λ v t. check_response p r v ≡ ok t) vs tuples
          × (Nodup tuples
              × (IsSorted tuple_key tuples
                  × (lookup name component_inventory ≡ some (map label_of tuples)))))

  abbrev pub IsBundle : Fields → Type 0
  IsBundle d =
      HasText d (lit "schema") (lit "gvn-endpoint-bundle-v3")
      × Has d (lit "component") λ component.
        (name : Text) × ((component ≡ str name) × (contains name post_merge_components ≡ true))
        × Has d (lit "responses") (IsResponses name)

  -- A bundle is accepted exactly when it is an object of the expected keys for a known component,
  -- with at least one response, whose responses all pass, are pairwise different and ascending, and
  -- have the labels that the inventory gives the component.
  pub validate_endpoint_bundle_v3_iff :
      (v : Value) → (validate_endpoint_bundle_v3 p r v ≡ ok tt) ↔ Document bundle_keys IsBundle v
  unfolding validate_endpoint_bundle_v3
  validate_endpoint_bundle_v3_iff v =
      bind_iff (require_exact_object v bundle_keys) _ (require_exact_object_iff v bundle_keys) λ d.
        then_iff _ _ (require_text_iff d _ _ _) (
          bind_iff (item (lit "component") d) _ (item_iff (lit "component") d) λ component.
            bind_iff (component_name component) _ (component_name_iff component) λ name.
              bind_iff (item (lit "responses") d) _ (item_iff (lit "responses") d) λ given.
                bind_iff (some_responses given) _ (some_responses_iff given) λ vs.
                  bind_iff (traverse (check_response p r) vs) _
                    (traverse_iff (λ v t. check_response p r v ≡ ok t) (check_response p r)
                      (λ v t. (λ h. h, λ h. h)) vs)
                    λ tuples. loop_end name tuples)
    where
      loop_end :
          (name : Text) (tuples : List Tuple)
          → ((do
            require (distinct_tuples tuples) "endpoint bundle contains duplicate response tuples"
            require
                (same_tuples tuples (sorted_by tuple_key tuples))
                "endpoint bundle responses are not canonically sorted"
            labels ←
                some_or_fail (lookup name component_inventory) "unknown endpoint bundle component"
            require (same_texts (map label_of tuples) labels) "endpoint inventory mismatch")
              ≡ ok tt)
            ↔ (Nodup tuples
                × (IsSorted tuple_key tuples
                    × (lookup name component_inventory ≡ some (map label_of tuples))))
      loop_end name tuples =
          then_iff _ _
            (iff_trans (require_iff (distinct_tuples tuples) _) (distinct_tuples_iff tuples))
            (then_iff _ _
              (iff_trans (require_iff (same_tuples tuples (sorted_by tuple_key tuples)) _) (
                iff_trans (same_tuples_iff tuples (sorted_by tuple_key tuples)) (
                  λ e. subst (IsSorted tuple_key) (sym e) (sorted_by-IsSorted tuple_key tuples),
                  λ s. sym (sorted_by_of_IsSorted tuple_key tuples s),
                )))
              (iff_trans
                (bind_iff (some_or_fail (lookup name component_inventory) _) _
                  (some_iff (lookup name component_inventory) _)
                  λ labels.
                    iff_trans (require_iff (same_texts (map label_of tuples) labels) _)
                      (same_texts_iff (map label_of tuples) labels))
                (λ (labels, e, f). e ∙ ap some (sym f), λ e. (map label_of tuples, e, refl))))
