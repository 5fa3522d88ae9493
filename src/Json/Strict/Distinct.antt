-- ===== src/Json/Strict/Distinct.antt =====
-- Which objects `strict_object` takes.
use qing_yin.Prelude.{
  Bool, Bool-cases, List, [], all, and_true, ap, arith, contains, false, inl, inr, map, not, ok,
  ok-injective, refl, same, same_iff, true, ◌&&◌, ◌↔◌, ◌∙◌, ◌∷◌, ◌≡◌,
}
use qing_yin.Prelude.Membership.{distinct}
use qing_yin.Text.{Text}
use qing_yin.Platform.{Platform}
use qing_yin.Json.{Fields, Value, end, field, of_entries}
use qing_yin.Json.Strict.{strict_from, strict_object}
use qing_yin.Prelude.Checks.{bind_iff, iff_trans, ok_iff, require_iff, then_iff}

abbrev fresh : List Text → Text → Bool
fresh seen n = not (contains n seen)

-- every name of the list is new to `seen`, and no name repeats
all_fresh : List Text → List Text → Bool
all_fresh seen [] = true
all_fresh seen (n ∷ ns) = fresh seen n && all_fresh (n ∷ seen) ns

same_comm : (a b : Text) → same a b ≡ same b a
unfolding same
same_comm [] [] = refl
same_comm [] (y ∷ b) = refl
same_comm (x ∷ a) [] = refl
same_comm (x ∷ a) (y ∷ b) = ground (arith, same_comm a b)

all_fresh-cons :
    (n : Text) (seen ns : List Text)
    → (all (fresh (n ∷ seen)) ns ≡ true) ↔ ((contains n ns ≡ false) × (all (fresh seen) ns ≡ true))
unfolding contains
all_fresh-cons n seen [] = (λ h. (refl, refl), λ h. refl)
all_fresh-cons n seen (m ∷ ns) = ground (arith, all_fresh-cons n seen ns, same_comm n m)

all_fresh_iff :
    (seen ns : List Text)
    → (all_fresh seen ns ≡ true) ↔ ((distinct ns ≡ true) × (all (fresh seen) ns ≡ true))
unfolding all_fresh distinct
all_fresh_iff seen [] = (λ h. (refl, refl), λ h. refl)
all_fresh_iff seen (n ∷ ns) = ground (arith, all_fresh_iff (n ∷ seen) ns, all_fresh-cons n seen ns)

module _ (p : Platform) where
  abbrev pub normals : List (Text × Value) → List Text
  normals = map λ (e : Text × Value). p.nfc e.0

  -- a repeated key is a repeated normal form
  contains-map :
      (key : Text) (seen : List Text)
      → contains key seen ≡ true
      → contains (p.nfc key) (map p.nfc seen) ≡ true
  unfolding contains
  contains-map key [] h = cc
  contains-map key (k ∷ seen) h = elim (Bool-cases (same key k)) [
    | inl e ↦
        let equal : p.nfc key ≡ p.nfc k = ap p.nfc ((same_iff key k).0 e) in
        rw ((same_iff (p.nfc key) (p.nfc k)).1 equal) refl
    | inr e ↦ ground (arith, contains-map key seen (ground arith))
  ]

  strict_from_iff :
      (seen : List Text) (pairs : List (Text × Value)) (fs : Fields)
      → (strict_from p seen (map p.nfc seen) pairs ≡ ok fs)
        ↔ ((all_fresh (map p.nfc seen) (normals pairs) ≡ true) × (of_entries pairs ≡ fs))
  unfolding strict_from all_fresh
  strict_from_iff seen [] fs = (λ h. (refl, ok-injective end fs h), λ (u, e). ap ok e)
  strict_from_iff seen ((key, value) ∷ pairs) fs =
      iff_trans
        (then_iff _ _ (require_iff (not (contains key seen)) "duplicate JSON key") (
          then_iff _ _ (require_iff (fresh (map p.nfc seen) (p.nfc key)) "NFC-colliding JSON key") (
            bind_iff (strict_from p (key ∷ seen) (map p.nfc (key ∷ seen)) pairs) _
              (λ rest. strict_from_iff (key ∷ seen) pairs rest)
              λ rest. ok_iff (field key value rest) fs)))
        (
          λ (new, (new_normal, (rest, (others, e), f))).
              (rw (new_normal, others) refl, ap (field key value) e ∙ f),
          λ (h, e).
              let parts = and_true (fresh (map p.nfc seen) (p.nfc key)) _ h in
              (
                ground (arith, contains-map key seen),
                (parts.0, (of_entries pairs, (parts.1, refl), e)),
              ),
        )

  all_fresh_to_none : (ns : List Text) → all (fresh []) ns ≡ true
  unfolding contains
  all_fresh_to_none [] = refl
  all_fresh_to_none (n ∷ ns) = all_fresh_to_none ns

  -- The pairs of an object are accepted exactly when the normal forms of their keys are distinct,
  -- and the object then has all of them in their order.
  pub strict_object_iff :
      (pairs : List (Text × Value)) (fs : Fields)
      → (strict_object p pairs ≡ ok fs)
        ↔ ((distinct (normals pairs) ≡ true) × (of_entries pairs ≡ fs))
  unfolding strict_object
  strict_object_iff pairs fs = iff_trans (strict_from_iff [] pairs fs) (
    λ (h, e). (((all_fresh_iff [] (normals pairs)).0 h).0, e),
    λ (h, e). ((all_fresh_iff [] (normals pairs)).1 (h, all_fresh_to_none (normals pairs)), e),
  )
