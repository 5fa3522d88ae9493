-- ===== src/Archive/Slices.antt =====
-- Slices of byte strings: what a part of a text says of the text.
use qing_yin.Prelude.{
  [], ap, arith, drop, length, refl, suc, sym, take, zero, ℕ, ◌++◌, ◌+◌, ◌-◌, ◌∙◌, ◌∷◌, ◌≡◌, ◌≤◌,
}
use qing_yin.Text.{Bytes}
use qing_yin.Archive.{slice}

pub drop_nil : (n : ℕ) → Path Bytes (drop n []) []
drop_nil zero = refl
drop_nil (suc n) = refl

pub drop_add : (a b : ℕ) (l : Bytes) → drop (a + b) l ≡ drop b (drop a l)
drop_add zero b l = let here : 0 + b ≡ b = omega arith in ap (λ n. drop n l) here
drop_add (suc a) b [] = drop_nil (suc a + b) ∙ sym (drop_nil b)
drop_add (suc a) b (x ∷ l) =
    let later : suc a + b ≡ suc (a + b) = omega arith in
    ap (λ n. drop n (x ∷ l)) later ∙ drop_add a b l

pub length-drop : (n : ℕ) (l : Bytes) → length (drop n l) ≡ length l - n
length-drop zero l = omega arith
length-drop (suc n) [] = omega arith
length-drop (suc n) (x ∷ l) = omega (arith, length-drop n l)

pub take-drop : (n : ℕ) (l : Bytes) → take n l ++ drop n l ≡ l
take-drop zero l = refl
take-drop (suc n) [] = refl
take-drop (suc n) (x ∷ l) = ap (λ t. x ∷ t) (take-drop n l)

pub length-take : (n : ℕ) (l : Bytes) → n ≤ length l → length (take n l) ≡ n
length-take zero l h = refl
length-take (suc n) [] h = absurd (omega arith)
length-take (suc n) (x ∷ l) h = ap suc (length-take n l (omega arith))

pub drop-append : (u v : Bytes) → drop (length u) (u ++ v) ≡ v
drop-append [] v = refl
drop-append (x ∷ u) v = drop-append u v

take-append : (m : ℕ) (u v : Bytes) → m ≤ length u → take m (u ++ v) ≡ take m u
take-append zero u v h = refl
take-append (suc m) [] v h = absurd (omega arith)
take-append (suc m) (x ∷ u) v h = ap (λ t. x ∷ t) (take-append m u v (omega arith))

-- A slice that lies within the first part is a slice of it.
slice-append :
    (i m : ℕ) (u v : Bytes) → i + m ≤ length u → take m (drop i (u ++ v)) ≡ take m (drop i u)
slice-append zero m u v h = take-append m u v (omega arith)
slice-append (suc i) m [] v h = absurd (omega arith)
slice-append (suc i) m (x ∷ u) v h = slice-append i m u v (omega arith)

-- The same at an offset behind which the first part stands.
pub slice_lem :
    (bytes : Bytes) (offset i m : ℕ) (u v : Bytes)
    → drop offset bytes ≡ u ++ v
    → i + m ≤ length u
    → slice bytes (offset + i) m ≡ slice u i m
unfolding slice
slice_lem bytes offset i m u v e h =
    ap (take m) (drop_add offset i bytes ∙ ap (drop i) e) ∙ slice-append i m u v h
