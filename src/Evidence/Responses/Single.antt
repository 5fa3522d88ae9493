-- ===== src/Evidence/Responses/Single.antt =====
-- Which response a label picks.
use qing_yin.Prelude.{
  All, Bool, List, Option, [], ap, bind-eq-ok, false, if◌then◌else◌, none, ok, refl, some, traverse,
  true, ◌++◌, ◌↔◌, ◌∙◌, ◌∷◌, ◌≡◌,
}
use qing_yin.Prelude.Checks.{Pointwise, bind_iff, traverse_iff}
use qing_yin.Text.{Text, lit}
use qing_yin.Json.{Fields, Value, found, get, is_text, item}
use qing_yin.Shape.{dict}
use qing_yin.Shape.Digests.{item_iff}
use qing_yin.Evidence.Responses.{
  labelled, picked, response_item, responses_of, the_only, with_label,
}

-- no response of the list has the label
abbrev pub Without : Text → List (Value × Fields) → Type 0
Without label = All (λ r. is_text label r.0 ≡ false)

-- exactly one response of the list has the label: this one
abbrev pub Only : Text → Fields → List (Value × Fields) → Type 0
Only label response rs =
    (before : List (Value × Fields)) × (given : Value) × (after : List (Value × Fields)) × (rs
      ≡ before ++ ((given, response) ∷ after))
    × (is_text label given ≡ true)
    × (Without label before × Without label after)

module _ (label : Text) where
  picked_none_iff : (rs : List (Value × Fields)) → (picked label rs ≡ []) ↔ Without label rs
  picked_none_iff [] = (λ h. tt, λ p. refl)
  picked_none_iff (r ∷ rs) = go (is_text label r.0) refl (picked_none_iff rs)
    where
      go :
          (b : Bool)
          → is_text label r.0 ≡ b
          → (picked label rs ≡ []) ↔ Without label rs
          → ((if b then r.1 ∷ picked label rs else picked label rs) ≡ [])
            ↔ ((is_text label r.0 ≡ false) × Without label rs)
      go true e f = (λ h. cc, λ p. absurd (cc (e, p.0)))
      go false e f = (λ h. (e, f.0 h), λ p. f.1 p.1)

  the_only_lem : (l : List Fields) (x : Fields) → (the_only l ≡ ok x) ↔ (l ≡ x ∷ [])
  the_only_lem [] x = (λ h. cc, λ h. cc)
  the_only_lem (y ∷ []) x = (λ h. cc, λ h. cc)
  the_only_lem (y ∷ z ∷ l) x = (λ h. cc, λ h. cc)

  picked-Only :
      (rs : List (Value × Fields)) (x : Fields) → picked label rs ≡ x ∷ [] → Only label x rs
  picked-Only [] x h = cc
  picked-Only ((v, fields) ∷ rs) x h = go (is_text label v) refl h (picked-Only rs x)
    where
      go :
          (b : Bool)
          → is_text label v ≡ b
          → (if b then fields ∷ picked label rs else picked label rs) ≡ x ∷ []
          → (picked label rs ≡ x ∷ [] → Only label x rs)
          → Only label x ((v, fields) ∷ rs)
      go true e h f =
          let same_head : fields ≡ x = cc h in
          let nothing : picked label rs ≡ [] = cc h in
          ([], v, rs, ap (λ y. (v, y) ∷ rs) same_head, e, (tt, (picked_none_iff rs).0 nothing))
      go false e h f =
          let (before, given, after, split, found, (p, q)) = f h in
          ((v, fields) ∷ before, given, after, ap (λ l. (v, fields) ∷ l) split, found, ((e, p), q))

  Only-picked :
      (before after : List (Value × Fields)) (given : Value) (x : Fields)
      → is_text label given ≡ true
      → Without label before
      → Without label after
      → picked label (before ++ ((given, x) ∷ after)) ≡ x ∷ []
  Only-picked [] after given x e p q = rw (e, (picked_none_iff after).1 q) refl
  Only-picked (r ∷ before) after given x e p q = rw (p.0) (Only-picked before after given x e p.1 q)

  picked_iff :
      (rs : List (Value × Fields)) (x : Fields)
      → (the_only (picked label rs) ≡ ok x) ↔ Only label x rs
  picked_iff rs x = (
    λ h. picked-Only rs x ((the_only_lem (picked label rs) x).0 h),
    λ (before, given, after, split, e, (p, q)).
        (the_only_lem (picked label rs) x).1
          (ap (picked label) split ∙ Only-picked before after given x e p q),
  )

-- a value that is an object with a label
abbrev pub IsLabelled : Value → Value × Fields → Type 0
IsLabelled v r = (dict v ≡ some r.1) × (item (lit "label") r.1 ≡ ok r.0)

with_label_lem :
    (o : Option Fields) (r : Value × Fields)
    → (with_label o ≡ ok r) ↔ ((o ≡ some r.1) × (item (lit "label") r.1 ≡ ok r.0))
with_label_lem none r = (λ h. cc, λ p. absurd (cc (p.0)))
with_label_lem (some fields) r = (
  λ h.
      let (given, found, last) = bind-eq-ok (item (lit "label") fields) _ h in
      let pair : (given, fields) ≡ r = cc last in
      let same_fields : fields ≡ r.1 = ap (λ (x : Value × Fields). x.1) pair in
      let same_label : given ≡ r.0 = ap (λ (x : Value × Fields). x.0) pair in
      (ap some same_fields, cc (found, same_fields, same_label)),
  λ (p, q).
      let same_fields : fields ≡ r.1 = cc p in
      let found : item (lit "label") fields ≡ ok r.0 = cc (q, same_fields) in
      rw found (ap (λ x. ok (r.0, x)) same_fields),
)

pub labelled_iff : (v : Value) (r : Value × Fields) → (labelled v ≡ ok r) ↔ IsLabelled v r
unfolding labelled
labelled_iff v r = with_label_lem (dict v) r

-- A response is returned for a label exactly when the bundle has a component, every response of the
-- bundle is an object with a label, and this response is the only one with that label.
pub response_item_iff :
    (bundle : Fields) (label : Text) (response : Fields)
    → (response_item bundle label ≡ ok response) ↔ (
        (vs : List Value) × (responses_of bundle ≡ ok vs)
        × ((rs : List (Value × Fields)) × Pointwise IsLabelled vs rs
            × ((component : Value) × (get (lit "component") bundle ≡ some component)
                × Only label response rs)))
unfolding response_item
response_item_iff bundle label response =
    bind_iff (responses_of bundle) _ (λ vs. (λ h. h, λ h. h))
      λ vs.
        bind_iff (traverse labelled vs) _ (traverse_iff IsLabelled labelled labelled_iff vs) λ rs.
          bind_iff (item (lit "component") bundle) _ (item_iff (lit "component") bundle)
            λ component. picked_iff label rs response
