-- ===== src/Timestamp/Printing.antt =====
-- Timestamps as they are written, and that what is written is matched.
use qing_yin.Prelude.{
  [], arith, between, refl, some, true, ℕ, ◌%◌, ◌*◌, ◌+◌, ◌-◌, ◌/◌, ◌<◌, ◌∷◌, ◌≡◌, ◌≤◌,
}
use qing_yin.Text.{Text}
use qing_yin.Timestamp.{Stamp, digit, ended, literal, match_stamp, pair}
use qing_yin.Timestamp.Calendar.{HasDay, HasDay-le}

-- two digits before `rest`
abbrev pub two_digits : ℕ → Text → Text
two_digits n rest = (b'0' + n / 10) ∷ (b'0' + n % 10) ∷ rest

-- `YYYY-MM-DDTHH:MM:SSZ`
unfoldable pub print_stamp : Stamp → Text
print_stamp s = two_digits (s.year / 100) (
    two_digits (s.year % 100) (
      b'-'
      ∷ two_digits s.month (
          b'-'
          ∷ two_digits s.day (
              b'T'
              ∷ two_digits s.hour
                  (b':' ∷ two_digits s.minute (b':' ∷ two_digits s.second (b'Z' ∷ [])))))))

-- a day of the calendar of the years 2000 to 2099, and a time of that day
pub record IsStamp (s : Stamp) : Type 0 where
  pub year : (2000 ≤ s.year) × (s.year ≤ 2099)
  pub month : (1 ≤ s.month) × (s.month ≤ 12)
  pub day : (1 ≤ s.day) × HasDay s.year s.month s.day
  pub hour : s.hour ≤ 23
  pub minute : s.minute ≤ 59
  pub second : s.second ≤ 59

pair-two_digits :
    (low high n : ℕ) (rest : Text)
    → low ≤ n
    → n ≤ high
    → high < 100
    → pair low high (two_digits n rest) ≡ some (n, rest)
unfolding pair
pair-two_digits low high n rest p q h =
    let tens : digit (b'0' + n / 10) ≡ true = ground arith in
    let units : digit (b'0' + n % 10) ≡ true = ground arith in
    let number : (b'0' + n / 10 - b'0') * 10 + (b'0' + n % 10 - b'0') ≡ n = omega arith in
    let within : between low high n ≡ true = ground arith in
    rw (tens, units) (rw (number, within) refl)

literal-cons : (c : ℕ) (rest : Text) → literal c (c ∷ rest) ≡ some rest
unfolding literal
literal-cons c rest = ground arith

-- A printed stamp is matched, and gives the stamp back.
pub match_stamp-print_stamp : (s : Stamp) → IsStamp s → match_stamp (print_stamp s) ≡ some s
unfolding match_stamp print_stamp ended
match_stamp-print_stamp s v =
    rw
      (
        pair-two_digits 20 20 (s.year / 100) _ (omega arith) (omega arith) (omega arith),
        pair-two_digits 0 99 (s.year % 100) _ (omega arith) (omega arith) (omega arith),
        literal-cons b'-' _,
        pair-two_digits 1 12 s.month _ v.month.0 v.month.1 (omega arith),
        literal-cons b'-' _,
        pair-two_digits 1 31 s.day _ v.day.0 (omega (arith, HasDay-le s.year s.month s.day v.day.1))
            (omega arith),
        literal-cons b'T' _,
        pair-two_digits 0 23 s.hour _ (omega arith) v.hour (omega arith),
        literal-cons b':' _,
        pair-two_digits 0 59 s.minute _ (omega arith) v.minute (omega arith),
        literal-cons b':' _,
        pair-two_digits 0 59 s.second _ (omega arith) v.second (omega arith),
        literal-cons b'Z' _,
      )
      (let year : s.year / 100 * 100 + s.year % 100 ≡ s.year = omega arith in rw year)
