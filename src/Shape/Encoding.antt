-- ===== src/Shape/Encoding.antt =====
-- When `require_sorted_unique_strings` raises what is no GovernanceValidationError.
use mathlib.Core.List.{Nodup}
use qing_yin.Prelude.{
  Bool, Bool-cases, Failure, List, Option, Result, [], any, err, false, inl, inr, none, ok, raised,
  refl, require, some, subst, traverse, true, ◌>>=◌, ◌>>◌, ◌↔◌, ◌∷◌, ◌≡◌, ◌≢◌,
}
use qing_yin.Prelude.Membership.{Nodup→distinct, distinct, distinct→Nodup}
use qing_yin.Text.{Bytes, Text, is_surrogate, utf16_be, utf16_sort_key}
use qing_yin.Json.{Value}
use qing_yin.Shape.{
  list, require_sorted_unique_strings, same_texts, some_or_fail, string_list, utf16_sorted,
}

abbrev encode_error : Failure
encode_error = raised "UnicodeEncodeError"

-- one of the strings has a lone surrogate
abbrev pub HasSurrogate : List Text → Type 0
HasSurrogate xs = any (any is_surrogate) xs ≡ true

raises : (xs : List Text) → HasSurrogate xs → traverse utf16_sort_key xs ≡ err encode_error
unfolding traverse utf16_sort_key
raises [] h = cc
raises (x ∷ xs) h = elim (Bool-cases (any is_surrogate x)) [
  | inl e ↦ rw e refl
  | inr e ↦ rw (e, raises xs (rw e at h)) refl
]

encodes :
    (xs : List Text)
    → any (any is_surrogate) xs ≡ false
    → (ks : List Bytes) × (traverse utf16_sort_key xs ≡ ok ks)
unfolding traverse utf16_sort_key
encodes [] h = ([], refl)
encodes (x ∷ xs) h = elim (Bool-cases (any is_surrogate x)) [
  | inl e ↦ cc (rw e at h)
  | inr e ↦ let (ks, k) = encodes xs (rw e at h) in (utf16_be x ∷ ks, rw (e, k) refl)
]

abbrev string_check : Option (List Text) → Result (List Text)
string_check strings = do
  xs ← some_or_fail strings "must be a string array"
  require (distinct xs) "contains duplicates"
  ascending ← utf16_sorted xs
  require (same_texts xs ascending) "must use UTF-16 code-unit order"
  ok xs

compared :
    (b : Bool) (xs : List Text)
    → (require b "must use UTF-16 code-unit order" >> ok xs) ≢ err encode_error
compared true xs h = cc
compared false xs h = cc

string_check_iff :
    (strings : Option (List Text))
    → (string_check strings ≡ err encode_error)
      ↔ ((xs : List Text) × (strings ≡ some xs) × (Nodup xs × HasSurrogate xs))
unfolding utf16_sorted
string_check_iff none = (λ h. cc, λ (xs, e, k). cc)
string_check_iff (some xs) = elim (Bool-cases (distinct xs)) [
  | inr d ↦ (
    λ h. cc (rw d at h),
    λ (ys, e, (n, s)).
        let equal : ys ≡ xs = cc in
        let yes : distinct xs ≡ true = Nodup→distinct xs (subst Nodup equal n) in cc,
  )
  | inl d ↦ elim (Bool-cases (any (any is_surrogate) xs)) [
    | inl s ↦ (λ h. (xs, refl, (distinct→Nodup xs d, s)), λ k. rw (d, raises xs s) refl)
    | inr s ↦
        let (ks, k) = encodes xs s in
        (
          λ h. absurd (compared _ xs (rw (d, k) at h)),
          λ (ys, e, (n, t)).
              let equal : ys ≡ xs = cc in
              let yes : HasSurrogate xs = subst HasSurrogate equal t in cc,
        )
  ]
]

-- A string array makes the check raise a UnicodeEncodeError exactly when its strings are distinct
-- and one of them has a lone surrogate.
pub require_sorted_unique_strings-raised_iff :
    (v : Value)
    → (require_sorted_unique_strings v ≡ err (raised "UnicodeEncodeError"))
      ↔ ((xs : List Text) × (string_list (list v) ≡ some xs) × (Nodup xs × HasSurrogate xs))
unfolding require_sorted_unique_strings
require_sorted_unique_strings-raised_iff v = string_check_iff (string_list (list v))
