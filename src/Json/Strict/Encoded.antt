-- ===== src/Json/Strict/Encoded.antt =====
-- Which bytes `validate_utf8_bytes` takes, described by the text that they encode.
use qing_yin.Prelude.{
  Bool, Bool-cases, List, Option, [], any, arith, false, inl, inr, none, not, ok, ok-injective,
  refl, require, same, same_iff, some, subst, sym, ℕ, ◌++◌, ◌<◌, ◌==◌, ◌>>◌, ◌||◌, ◌↔◌, ◌∙◌, ◌∷◌,
  ◌≡◌,
}
use qing_yin.Prelude.Checks.{bind_iff, iff_trans, not_iff, ok_iff, require_iff, then_iff}
use qing_yin.Text.{Bytes, IsText, Text, is_surrogate, utf8, utf8_encode, utf8_unit}
use qing_yin.Text.Utf8.{utf8_decode}
use qing_yin.Text.Utf8.Decoded.{utf8_decode_iff}
use qing_yin.Platform.{Platform}
use qing_yin.Json.Strict.{decoded, has_bom, is_carriage_return, validate_utf8_bytes}

any-++ :
    {A : Type 0} (test : A → Bool) (a b : List A) → any test (a ++ b) ≡ (any test a || any test b)
any-++ test [] b = refl
any-++ test (x ∷ a) b = ground (arith, any-++ test a b)

unit_carriage_return : (c : ℕ) → any is_carriage_return (utf8_unit c) ≡ is_carriage_return c
unit_carriage_return c = ground arith

-- The bytes have a carriage return where the text has one.
utf8_carriage_return : (s : Text) → any is_carriage_return (utf8 s) ≡ any is_carriage_return s
unfolding utf8
utf8_carriage_return [] = refl
utf8_carriage_return (c ∷ s) =
    any-++ is_carriage_return (utf8_unit c) (utf8 s)
    ∙ rw (unit_carriage_return c, utf8_carriage_return s) refl

-- the text starts with U+FEFF
abbrev pub starts_with_mark : Text → Bool
starts_with_mark [] = false
starts_with_mark (c ∷ s) = c == 0xfeff

unit_bom : (c : ℕ) (rest : Bytes) → c < 0x110000 → has_bom (utf8_unit c ++ rest) ≡ (c == 0xfeff)
unit_bom c rest h = ground arith

utf8_bom : (s : Text) → IsText s → has_bom (utf8 s) ≡ starts_with_mark s
unfolding utf8
utf8_bom [] t = refl
utf8_bom (c ∷ s) (b, t) = unit_bom c (utf8 s) b

-- the text has no byte order mark, no carriage return, and is in NFC
abbrev pub IsClean : Platform → Text → Type 0
IsClean p s = (starts_with_mark s ≡ false) × ((any is_carriage_return s ≡ false) × (p.nfc s ≡ s))

decoded_iff : (o : Option Text) (s : Text) → (decoded o ≡ ok s) ↔ (o ≡ some s)
decoded_iff none s = (λ h. cc, λ h. cc)
decoded_iff (some t) s = (λ h. cc, λ h. cc)

-- what the checks on the bytes say of the text
encoding_lem :
    (raw : Bytes) (s : Text)
    → IsText s
    → utf8_encode s ≡ ok raw
    → (has_bom raw ≡ starts_with_mark s)
      × ((any is_carriage_return raw ≡ any is_carriage_return s) × (any is_surrogate s ≡ false))
unfolding utf8_encode
encoding_lem raw s valid h = elim (Bool-cases (any is_surrogate s)) [
  | inl e ↦ absurd (cc (rw e at h))
  | inr e ↦
      let equal : utf8 s ≡ raw = ok-injective (utf8 s) raw (rw e at h) in
      (
        subst (λ b. has_bom b ≡ starts_with_mark s) equal (utf8_bom s valid),
        (
          subst (λ b. any is_carriage_return b ≡ any is_carriage_return s) equal
              (utf8_carriage_return s),
          e,
        ),
      )
]

-- the checks on the decoded text
guards_iff :
    (p : Platform) (text s : Text)
    → ((do
      require (same (p.nfc text) text) "non-NFC text"
      require (not (any is_surrogate text)) "surrogate forbidden"
      ok text)
        ≡ ok s)
      ↔ ((p.nfc text ≡ text) × ((any is_surrogate text ≡ false) × (text ≡ s)))
guards_iff p text s =
    then_iff _ _ (iff_trans (require_iff _ _) (same_iff (p.nfc text) text))
      (then_iff _ _ (iff_trans (require_iff _ _) (not_iff _)) (ok_iff text s))

-- Bytes are taken, and a text comes back, exactly when they are the UTF-8 encoding of that text,
-- and the text starts with no byte order mark, has no carriage return, and is in NFC.
pub validate_utf8_bytes_iff :
    (p : Platform) (raw : Bytes) (s : Text)
    → (validate_utf8_bytes p raw ≡ ok s) ↔ ((IsText s × (utf8_encode s ≡ ok raw)) × IsClean p s)
unfolding validate_utf8_bytes
validate_utf8_bytes_iff p raw s =
    iff_trans
      (then_iff _ _ (iff_trans (require_iff _ _) (not_iff (has_bom raw))) (
        then_iff _ _ (iff_trans (require_iff _ _) (not_iff (any is_carriage_return raw))) (
          bind_iff (decoded (utf8_decode raw)) _
            (λ text. iff_trans (decoded_iff (utf8_decode raw) text) (utf8_decode_iff raw text))
            λ text. guards_iff p text s)))
      (
        λ (mark, (returns, (text, (valid, encoded), (normal, (scalars, equal))))).
            subst (λ t. (IsText t × (utf8_encode t ≡ ok raw)) × IsClean p t) equal
              (let (same_mark, (same_returns, none_)) = encoding_lem raw text valid encoded in
                ((valid, encoded), (sym same_mark ∙ mark, (sym same_returns ∙ returns, normal)))),
        λ ((valid, encoded), (mark, (returns, normal))).
            let (same_mark, (same_returns, scalars)) = encoding_lem raw s valid encoded in
            (
              same_mark ∙ mark,
              (same_returns ∙ returns, (s, (valid, encoded), (normal, (scalars, refl)))),
            ),
      )
