-- ===== src/Timestamp/Match.antt =====
-- The match of RFC3339_UTC_PATTERN read backwards: what a matched text looks like.
use mathlib.Core.Option.{none-ne-some, some-injective}
use qing_yin.Prelude.{
  ==_iff, Bool, Bool-cases, Option, [], arith, between, inl, inr, refl, some, subst, sym, true, ℕ,
  ◌%◌, ◌&&◌, ◌*◌, ◌+◌, ◌-◌, ◌/◌, ◌==◌, ◌∷◌, ◌≡◌, ◌≤◌,
}
use qing_yin.Text.{Text}
use qing_yin.Timestamp.{Stamp, digit, ended, literal, match_stamp, pair, ◌>>=◌}
use qing_yin.Timestamp.Printing.{print_stamp, two_digits}

abbrev number : ℕ → ℕ → ℕ
number x y = (x - b'0') * 10 + (y - b'0')

abbrev accepts : ℕ → ℕ → ℕ → ℕ → Bool
accepts low high x y = digit x && digit y && between low high (number x y)

two_digits-number :
    (low high x y : ℕ) (rest : Text)
    → accepts low high x y ≡ true
    → two_digits (number x y) rest ≡ x ∷ y ∷ rest
two_digits-number low high x y rest h =
    let tens : b'0' + number x y / 10 ≡ x = ground arith in
    let units : b'0' + number x y % 10 ≡ y = ground arith in rw (tens, units) refl

-- Inversion of one step of the match: the rest of the match is a hypothesis over its variables.
module _ {B : Type 0} {b : B} (P : Text → Type 0) where
  pair-step :
      (low high : ℕ) (f : ℕ × Text → Option B)
      → ((n : ℕ) (rest : Text) → low ≤ n → n ≤ high → f (n, rest) ≡ some b → P (two_digits n rest))
      → (t : Text) → (pair low high t >>= f) ≡ some b
      → P t
  unfolding pair
  pair-step low high f k [] h = absurd (none-ne-some b h)
  pair-step low high f k (x ∷ []) h = absurd (none-ne-some b h)
  pair-step low high f k (x ∷ y ∷ r) h = elim (Bool-cases (accepts low high x y)) [
    | inl e ↦
        subst P (two_digits-number low high x y r e)
          (k (number x y) r (ground arith) (ground arith) (rw e at h))
    | inr e ↦ absurd (none-ne-some b (rw e at h))
  ]

  literal-step :
      (c : ℕ) (f : Text → Option B)
      → ((rest : Text) → f rest ≡ some b → P (c ∷ rest))
      → (t : Text) → (literal c t >>= f) ≡ some b
      → P t
  unfolding literal
  literal-step c f k [] h = absurd (none-ne-some b h)
  literal-step c f k (d ∷ r) h = elim (Bool-cases (d == c)) [
    | inl e ↦ subst (λ x. P (x ∷ r)) (sym ((==_iff d c).0 e)) (k r (rw e at h))
    | inr e ↦ absurd (none-ne-some b (rw e at h))
  ]

-- the ranges that the pattern alone enforces
pub record InPattern (s : Stamp) : Type 0 where
  pub year : (2000 ≤ s.year) × (s.year ≤ 2099)
  pub month : (1 ≤ s.month) × (s.month ≤ 12)
  pub day : 1 ≤ s.day
  pub hour : s.hour ≤ 23
  pub minute : s.minute ≤ 59
  pub second : s.second ≤ 59

-- What a match says of the text and of the fields.
abbrev pub Holds : Text → Stamp → Type 0
Holds u s = (u ≡ print_stamp s) × InPattern s

module _ (c yy m d hh mi ss : ℕ) (low : 20 ≤ c) (high : c ≤ 20) (years : yy ≤ 99) where
  abbrev fields : Stamp
  fields = record { year = c * 100 + yy; month = m; day = d; hour = hh; minute = mi; second = ss }

  abbrev printed : Text → Text
  printed u = two_digits c (
      two_digits yy (
        b'-'
        ∷ two_digits m (
            b'-'
            ∷ two_digits d
                (b'T' ∷ two_digits hh (b':' ∷ two_digits mi (b':' ∷ two_digits ss (b'Z' ∷ u)))))))

  printed-fields : printed [] ≡ print_stamp fields
  unfolding print_stamp
  printed-fields =
      let century : (c * 100 + yy) / 100 ≡ c = omega arith in
      let year : (c * 100 + yy) % 100 ≡ yy = omega arith in rw (century, year) refl

  finish :
      (s : Stamp) (rest : Text)
      → 1 ≤ m
      → m ≤ 12
      → 1 ≤ d
      → hh ≤ 23
      → mi ≤ 59
      → ss ≤ 59
      → ended fields rest ≡ some s
      → Holds (printed rest) s
  unfolding ended
  finish s [] h1 h2 h3 h4 h5 h6 h = subst (Holds (printed [])) (some-injective fields s h) (
    printed-fields,
    record {
      year = (omega arith, omega arith);
      month = (h1, h2);
      day = h3;
      hour = h4;
      minute = h5;
      second = h6;
    },
  )
  finish s (x ∷ rest) h1 h2 h3 h4 h5 h6 h = absurd (none-ne-some s h)

-- A matched text is what its fields print as, and the fields lie in the ranges of the pattern.
pub match_stamp_sound : (t : Text) (s : Stamp) → match_stamp t ≡ some s → Holds t s
unfolding match_stamp
match_stamp_sound t s =
    pair-step (λ u. Holds (u) s) 20 20 _
      (λ c t0 c_low c_high.
        pair-step (λ u. Holds (two_digits c u) s) 0 99 _
          (λ yy t1 yy_low yy_high.
            literal-step (λ u. Holds (two_digits c (two_digits yy u)) s) b'-' _
              (λ t2.
                pair-step (λ u. Holds (two_digits c (two_digits yy (b'-' ∷ u))) s) 1 12 _
                  (λ m t3 m_low m_high.
                    literal-step
                      (λ u. Holds (two_digits c (two_digits yy (b'-' ∷ (two_digits m u)))) s) b'-' _
                      (λ t4.
                        pair-step
                          (λ u.
                            Holds (two_digits c (two_digits yy (b'-' ∷ (two_digits m (b'-' ∷ u)))))
                              s)
                          1 31 _
                          (λ d t5 d_low d_high.
                            literal-step
                              (λ u.
                                Holds
                                  (two_digits c (
                                    two_digits yy
                                      (b'-' ∷ (two_digits m (b'-' ∷ (two_digits d u))))))
                                  s)
                              b'T' _
                              (λ t6.
                                pair-step
                                  (λ u.
                                    Holds
                                      (two_digits c (
                                        two_digits yy (
                                          b'-'
                                          ∷ (two_digits m (b'-' ∷ (two_digits d (b'T' ∷ u)))))))
                                      s)
                                  0 23 _
                                  (λ hh t7 hh_low hh_high.
                                    literal-step
                                      (λ u.
                                        Holds
                                          (two_digits c (
                                            two_digits yy (
                                              b'-'
                                              ∷ (two_digits m (
                                                  b'-'
                                                  ∷ (two_digits d (b'T' ∷ (two_digits hh u))))))))
                                          s)
                                      b':' _
                                      (λ t8.
                                        pair-step
                                          (λ u.
                                            Holds
                                              (two_digits c (
                                                two_digits yy (
                                                  b'-'
                                                  ∷ (two_digits m (
                                                      b'-'
                                                      ∷ (two_digits d
                                                          (b'T' ∷ (two_digits hh (b':' ∷ u)))))))))
                                              s)
                                          0 59 _
                                          (λ mi t9 mi_low mi_high.
                                            literal-step
                                              (λ u.
                                                Holds
                                                  (two_digits c (
                                                    two_digits yy (
                                                      b'-'
                                                      ∷ (two_digits m (
                                                          b'-'
                                                          ∷ (two_digits d (
                                                            b'T'
                                                            ∷ (two_digits hh
                                                            (b':' ∷ (two_digits mi u))))))))))
                                                  s)
                                              b':' _
                                              (λ t10.
                                                pair-step
                                                  (λ u.
                                                    Holds
                                                      (two_digits c (
                                                        two_digits yy (
                                                          b'-'
                                                          ∷ (two_digits m (
                                                            b'-'
                                                            ∷ (two_digits d (
                                                            b'T'
                                                            ∷ (two_digits hh (
                                                            b':'
                                                            ∷ (two_digits mi (b':' ∷ u)))))))))))
                                                      s)
                                                  0 59 _
                                                  (λ ss t11 ss_low ss_high.
                                                    literal-step
                                                      (λ u.
                                                        Holds
                                                          (two_digits c (
                                                            two_digits yy (
                                                            b'-'
                                                            ∷ (two_digits m (
                                                            b'-'
                                                            ∷ (two_digits d (
                                                            b'T'
                                                            ∷ (two_digits hh (
                                                            b':'
                                                            ∷ (two_digits mi
                                                            (b':' ∷ (two_digits ss u))))))))))))
                                                          s)
                                                      b'Z' _
                                                      (λ t12. λ h.
                                                        finish c yy m d hh mi ss c_low c_high
                                                          yy_high s t12 m_low m_high d_low hh_high
                                                          mi_high ss_high h)
                                                      t11)
                                                  t10)
                                              t9)
                                          t8)
                                      t7)
                                  t6)
                              t5)
                          t4)
                      t3)
                  t2)
              t1)
          t0)
      t
