-- ===== src/Timestamp/Calendar.antt =====
-- The days of the years 2000 to 2099, described without the program's leap-year rule: in these years
-- every fourth one is a leap year.
use qing_yin.Prelude.{arith, leb, true, ℕ, ◌%◌, ◌≡◌, ◌≢◌, ◌≤◌, ◌⊎◌}
use qing_yin.Timestamp.{days_in_month}

abbrev IsLongMonth : ℕ → Type 0
IsLongMonth m = (m ≡ 1) ⊎ (m ≡ 3) ⊎ (m ≡ 5) ⊎ (m ≡ 7) ⊎ (m ≡ 8) ⊎ (m ≡ 10) ⊎ (m ≡ 12)

abbrev pub HasDay : ℕ → ℕ → ℕ → Type 0
HasDay y m d =
    (d ≤ 28) ⊎ ((d ≡ 29) × (y % 4 ≡ 0)) ⊎ ((d ≤ 30) × (m ≢ 2)) ⊎ ((d ≤ 31) × IsLongMonth m)

pub HasDay-le : (y m d : ℕ) → HasDay y m d → d ≤ 31
HasDay-le y m d h = ground arith

pub days_in_month→HasDay :
    (y m d : ℕ)
    → 2000 ≤ y
    → y ≤ 2099
    → 1 ≤ m
    → m ≤ 12
    → leb d (days_in_month y m) ≡ true
    → HasDay y m d
unfolding days_in_month
days_in_month→HasDay y m d a b c e h = grind arith

pub HasDay→days_in_month :
    (y m d : ℕ)
    → 2000 ≤ y
    → y ≤ 2099
    → 1 ≤ m
    → m ≤ 12
    → HasDay y m d
    → leb d (days_in_month y m) ≡ true
unfolding days_in_month
HasDay→days_in_month y m d a b c e h = ground arith
