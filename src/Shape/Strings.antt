-- ===== src/Shape/Strings.antt =====
-- Which string arrays `require_sorted_unique_strings` takes.
use mathlib.Core.List.{Mem, Nodup, Nodup-nil, Pairwise, Perm, mem-cons, not-mem-nil}
use mathlib.Core.Logic.Or
use qing_yin.Prelude.{
  All, Bool-cases, List, [], any, ap, arith, bind-eq-ok, false, inl, inr, map, ok, ok-injective,
  refl, require-eq-ok, same_iff, some, subst, sym, traverse, true, ◌↔◌, ◌∙◌, ◌∷◌, ◌≡◌,
}
use qing_yin.Prelude.Order.{lex_order, nat_order}
use qing_yin.Prelude.Sort.{
  IsSorted, sorted_by, sorted_by-IsSorted, sorted_by_of_IsSorted, sorted_unique,
}
use qing_yin.Text.{Bytes, IsText, Text, is_surrogate, utf16_be, utf16_sort_key}
use qing_yin.Json.{Value}
use qing_yin.Shape.{
  list, require_sorted_unique_strings, same_texts, some_or_fail, some_or_fail-eq-ok, string_list,
  texts, utf16_sorted,
}
use qing_yin.Prelude.Membership.{Nodup→distinct, distinct, distinct→Nodup, test-prop}
use qing_yin.Text.Utf16.{utf16_be-injective}

pub same_texts_iff : (a b : List Text) → (same_texts a b ≡ true) ↔ (a ≡ b)
unfolding same_texts
same_texts_iff (x ∷ a) (y ∷ b) = ground (arith, same_iff x y, same_texts_iff a b)
same_texts_iff _ _ = ground arith

abbrev pub Encodable : List Text → Type 0
Encodable = All (λ s. any is_surrogate s ≡ false)

encodes : (xs : List Text) {ks : List Bytes} → traverse utf16_sort_key xs ≡ ok ks → Encodable xs
unfolding traverse utf16_sort_key
encodes [] h = tt
encodes (x ∷ xs) h = elim (Bool-cases (any is_surrogate x)) [
  | inl e ↦ absurd (ground arith)
  | inr e ↦
      let rest = bind-eq-ok (traverse utf16_sort_key xs) _ (rw e at h) in (e, encodes xs rest.1)
]

traverse-Encodable :
    (xs : List Text) → Encodable xs → traverse utf16_sort_key xs ≡ ok (map utf16_be xs)
unfolding traverse utf16_sort_key
traverse-Encodable [] h = refl
traverse-Encodable (x ∷ xs) (e, h) = rw (e, traverse-Encodable xs h) refl

-- distinct strings, each with a UTF-16 encoding, in the order of their code units
pub record IsCanonical (xs : List Text) : Type 0 where
  pub distinct_members : Nodup xs
  pub encodable : Encodable xs
  pub ascending : IsSorted utf16_be xs

pub IsCanonical-nil : IsCanonical []
IsCanonical-nil = record { distinct_members = Nodup-nil; encodable = tt; ascending = Pairwise.nil }

sorted_sound :
    (xs ys : List Text) → utf16_sorted xs ≡ ok ys → Encodable xs × (sorted_by utf16_be xs ≡ ys)
unfolding utf16_sorted
sorted_sound xs ys h =
    let keys = bind-eq-ok (traverse utf16_sort_key xs) _ h in
    (encodes xs keys.1, ok-injective _ ys keys.2)

sound :
    (v : Value) (xs : List Text)
    → require_sorted_unique_strings v ≡ ok xs
    → (string_list (list v) ≡ some xs) × IsCanonical xs
unfolding require_sorted_unique_strings
sound v xs h =
    let strings = bind-eq-ok (some_or_fail (string_list (list v)) _) _ h in
    let unique = require-eq-ok (distinct strings.0) _ _ strings.2 in
    let order = bind-eq-ok (utf16_sorted strings.0) _ unique.1 in
    let fixed = require-eq-ok (same_texts strings.0 order.0) _ _ order.2 in
    let back = ok-injective strings.0 xs fixed.1 in
    let sorts = sorted_sound strings.0 order.0 order.1 in
    let stays : sorted_by utf16_be strings.0 ≡ strings.0 =
      sorts.1 ∙ sym ((same_texts_iff strings.0 order.0).0 fixed.0) in
    (
      some_or_fail-eq-ok (string_list (list v)) _ strings.1 ∙ ap some back,
      subst IsCanonical back (record {
        distinct_members = distinct→Nodup strings.0 unique.0;
        encodable = sorts.0;
        ascending = subst (IsSorted utf16_be) stays (sorted_by-IsSorted utf16_be strings.0);
      }),
    )

complete :
    (v : Value) (xs : List Text)
    → string_list (list v) ≡ some xs
    → IsCanonical xs
    → require_sorted_unique_strings v ≡ ok xs
unfolding require_sorted_unique_strings utf16_sorted
complete v xs e c =
    rw
      (
        e,
        Nodup→distinct xs c.distinct_members,
        traverse-Encodable xs c.encodable,
        sorted_by_of_IsSorted utf16_be xs c.ascending,
        (same_texts_iff xs xs).1 refl,
      )
      refl

-- An array of strings is accepted exactly when it is canonical, and its strings come back.
pub require_sorted_unique_strings_iff :
    (v : Value) (xs : List Text)
    → (require_sorted_unique_strings v ≡ ok xs)
      ↔ ((string_list (list v) ≡ some xs) × IsCanonical xs)
require_sorted_unique_strings_iff v xs = (sound v xs, λ (e, c). complete v xs e c)

member :
    (P : Text → Type 0)
    → ((s : Text) → IsProp (P s))
    → (xs : List Text) → All P xs
    → (x : Text) → Mem x xs
    → P x
member P prop [] h x m = absurd (not-mem-nil m)
member P prop (y ∷ ys) (p, h) x m =
    Or.elim (prop x) (mem-cons.0 m) (λ e. subst P (sym e) p) (member P prop ys h x)

-- Two accepted arrays of valid text with the same members are the same array.
pub require_sorted_unique_strings_unique :
    (v w : Value) (xs ys : List Text)
    → require_sorted_unique_strings v ≡ ok xs
    → require_sorted_unique_strings w ≡ ok ys
    → ((x : Text) → Mem x xs → IsText x)
    → Perm xs ys
    → xs ≡ ys
require_sorted_unique_strings_unique v w xs ys h k texts perm =
    let a = (sound v xs h).1 in
    let b = (sound w ys k).1 in
    let encodable = member (λ s. any is_surrogate s ≡ false) (λ s. test-prop _ _) xs a.encodable in
    sorted_unique utf16_be xs ys a.ascending b.ascending perm λ x y mx my.
      utf16_be-injective x y (encodable x mx) (encodable y my) (texts x mx) (texts y my)
