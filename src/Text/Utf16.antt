-- ===== src/Text/Utf16.antt =====
-- What the sort key tells of a string: no two strings share one.
use qing_yin.Prelude.{◌≡◌, refl, false, [], ◌∷◌, any, arith}
use qing_yin.Text.{Text, IsText, is_surrogate, utf16_be}

pub utf16_be-injective :
    (a b : Text)
    → any is_surrogate a ≡ false
    → any is_surrogate b ≡ false
    → IsText a
    → IsText b
    → utf16_be a ≡ utf16_be b
    → a ≡ b
unfolding utf16_be
utf16_be-injective [] [] sa sb ta tb e = refl
utf16_be-injective [] (y ∷ b) sa sb ta tb e = ground arith
utf16_be-injective (x ∷ a) [] sa sb ta tb e = ground arith
utf16_be-injective (x ∷ a) (y ∷ b) sa sb ta tb e = ground (arith, utf16_be-injective a b)
