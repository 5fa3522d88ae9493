-- ===== src/Numeral/RoundTrip.antt =====
-- Reading what was printed, printing what was read, and how long a numeral is.
use native.Mathlib.Nat.{pow-suc}
use mathlib.Core.List.{append-nil}
use qing_yin.Prelude.{
  Bool-cases, [], all, and_true, ap, arith, between, false, inl, inr, length, ltb, refl, suc, true,
  zero, ℕ, ◌%◌, ◌*◌, ◌++◌, ◌+◌, ◌-◌, ◌/◌, ◌<◌, ◌^◌, ◌∙◌, ◌∷◌, ◌≡◌, ◌≤◌,
}
use qing_yin.Text.{Text}
use qing_yin.Numeral.{decimal, digits_onto, is_digit, is_positive_decimal, value, value_onto}

-- any fuel above the number prints the same
fuel_irrelevant :
    (f g n : ℕ) (rest : Text) → n < f → n < g → digits_onto f n rest ≡ digits_onto g n rest
unfolding digits_onto
fuel_irrelevant zero g n rest p q = absurd (omega arith)
fuel_irrelevant (suc f) zero n rest p q = absurd (omega arith)
fuel_irrelevant (suc f) (suc g) n rest p q =
    ground (arith, fuel_irrelevant f g (n / 10) ((b'0' + n % 10) ∷ rest))

-- one more digit
digits_onto-step :
    (c acc : ℕ) (rest : Text)
    → is_digit c ≡ true
    → 0 < acc
    → digits_onto (suc (acc * 10 + (c - b'0'))) (acc * 10 + (c - b'0')) rest
      ≡ digits_onto (acc * 10 + (c - b'0')) acc (c ∷ rest)
unfolding digits_onto
digits_onto-step c acc rest d h =
    let large : ltb (acc * 10 + (c - b'0')) 10 ≡ false = ground arith in
    let quotient : (acc * 10 + (c - b'0')) / 10 ≡ acc = ground arith in
    let digit : b'0' + (acc * 10 + (c - b'0')) % 10 ≡ c = ground arith in
    rw large (rw (quotient, digit) refl)

-- the digits behind a positive prefix are printed as they were read
digits_onto-value_onto :
    (cs rest : Text) (f g acc : ℕ)
    → all is_digit cs ≡ true
    → 0 < acc
    → value_onto acc cs < f
    → acc < g
    → digits_onto f (value_onto acc cs) rest ≡ digits_onto g acc (cs ++ rest)
unfolding value_onto
digits_onto-value_onto [] rest f g acc d h p q = fuel_irrelevant f g acc rest p q
digits_onto-value_onto (c ∷ cs) rest f g acc d h p q =
    let digits = and_true (is_digit c) (all is_digit cs) d in
    digits_onto-value_onto cs rest f (suc (acc * 10 + (c - b'0'))) (acc * 10 + (c - b'0')) digits.1
      (omega arith) p (omega arith)
    ∙ digits_onto-step c acc (cs ++ rest) digits.0 h
    ∙ fuel_irrelevant (acc * 10 + (c - b'0')) g acc (c ∷ (cs ++ rest)) (omega arith) q

one_digit :
    (g n c : ℕ) (rest : Text) → n < 10 → c ≡ b'0' + n → digits_onto (suc g) n rest ≡ c ∷ rest
unfolding digits_onto
one_digit g n c rest h e =
    let small : ltb n 10 ≡ true = ground arith in
    let digit : b'0' + n % 10 ≡ c = omega arith in rw small (rw digit)

-- A numeral with no leading zero is printed as it was read.
pub decimal-value : (s : Text) → is_positive_decimal s ≡ true → decimal (value s) ≡ s
unfolding decimal is_positive_decimal value
decimal-value [] h = cc
decimal-value (c ∷ cs) h =
    let digits = and_true (between b'1' b'9' c) (all is_digit cs) h in
    digits_onto-value_onto cs [] (suc (value (c ∷ cs))) (suc (suc (0 * 10 + (c - b'0'))))
      (0 * 10 + (c - b'0')) digits.1 (ground arith) (omega arith) (omega arith)
    ∙ one_digit (suc (0 * 10 + (c - b'0'))) (0 * 10 + (c - b'0')) c (cs ++ []) (ground arith)
        (ground arith)
    ∙ ap (◌∷◌ c) (append-nil cs)

value_onto-digits_onto :
    (f n : ℕ) (rest : Text) → n < f → value_onto 0 (digits_onto f n rest) ≡ value_onto n rest
unfolding digits_onto value_onto
value_onto-digits_onto zero n rest p = absurd (omega arith)
value_onto-digits_onto (suc f) n rest p = elim (Bool-cases (ltb n 10)) [
  | inl small ↦ rw small (ap (λ k. value_onto k rest) (ground arith))
  | inr large ↦ rw large (
      value_onto-digits_onto f (n / 10) ((b'0' + n % 10) ∷ rest) (ground arith)
      ∙ ap (λ k. value_onto k rest) (omega arith))
]

-- A printed number reads as itself.
pub value-decimal : (n : ℕ) → value (decimal n) ≡ n
unfolding decimal value
value-decimal n = value_onto-digits_onto (suc n) n [] (omega arith) ∙ unfold value_onto in refl

is_positive_decimal-digits_onto :
    (f n : ℕ) (rest : Text)
    → 0 < n
    → n < f
    → all is_digit rest ≡ true
    → is_positive_decimal (digits_onto f n rest) ≡ true
unfolding digits_onto is_positive_decimal
is_positive_decimal-digits_onto zero n rest h p d = absurd (omega arith)
is_positive_decimal-digits_onto (suc f) n rest h p d =
    ground (arith, is_positive_decimal-digits_onto f (n / 10) ((b'0' + n % 10) ∷ rest))

pub is_positive_decimal-decimal : (n : ℕ) → 0 < n → is_positive_decimal (decimal n) ≡ true
unfolding decimal
is_positive_decimal-decimal n h = is_positive_decimal-digits_onto (suc n) n [] h (omega arith) refl

length-digits_onto :
    (k f n : ℕ) (rest : Text)
    → n < 10 ^ suc k
    → n < f
    → length (digits_onto f n rest) ≤ suc k + length rest
unfolding digits_onto
length-digits_onto k zero n rest b p = absurd (omega arith)
length-digits_onto zero (suc f) n rest b p = ground arith
length-digits_onto (suc k) (suc f) n rest b p =
    ground (arith, pow-suc 10 (suc k), length-digits_onto k f (n / 10) ((b'0' + n % 10) ∷ rest))

-- A number below 10 ^ k has at most k digits.
pub length-decimal : (k n : ℕ) → n < 10 ^ suc k → length (decimal n) ≤ suc k
unfolding decimal
length-decimal k n b = omega (arith, length-digits_onto k (suc n) n [] b)

le-value_onto : (acc : ℕ) (cs : Text) → acc ≤ value_onto acc cs
unfolding value_onto
le-value_onto acc [] = omega arith
le-value_onto acc (c ∷ cs) = omega (arith, le-value_onto (acc * 10 + (c - b'0')) cs)

pub value-pos : (s : Text) → is_positive_decimal s ≡ true → 0 < value s
unfolding is_positive_decimal value
value-pos [] h = cc
value-pos (c ∷ cs) h =
    let first : 0 < 0 * 10 + (c - b'0') = ground arith in
    unfold value_onto in omega (arith, le-value_onto (0 * 10 + (c - b'0')) cs)
