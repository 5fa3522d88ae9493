-- ===== src/Evidence/Sequence/Instants.antt =====
-- `(end - start).total_seconds()` of `datetime` values: the seconds of the proleptic Gregorian
-- calendar up to an instant.
use qing_yin.Prelude.{
  ==_iff, Bool-cases, ap, arith, if◌then◌else◌, inl, inr, leb→le, refl, suc, true, zero, ℕ, ◌*◌,
  ◌+◌, ◌-◌, ◌/◌, ◌<◌, ◌==◌, ◌↔◌, ◌≡◌, ◌≤◌, ◌⊎◌,
}
use qing_yin.Prelude.Order.{lex_le, nat_order}
use qing_yin.Timestamp.{Stamp, days_in_month, is_leap}
use qing_yin.Timestamp.Printing.{IsStamp}
use qing_yin.Timestamp.Calendar.{HasDay→days_in_month}
use qing_yin.Timestamp.Order.{no_later}

-- the days of the years before, and of the months before in the year
unfoldable pub days_before_year : ℕ → ℕ
days_before_year y = (y - 1) * 365 + (y - 1) / 4 - (y - 1) / 100 + (y - 1) / 400

unfoldable pub days_before_month : ℕ → ℕ → ℕ
unfolding days_in_month
days_before_month y zero = 0
days_before_month y (suc zero) = 0
days_before_month y (suc (suc m)) = days_before_month y (suc m) + days_in_month y (suc m)

unfoldable pub total_seconds : Stamp → ℕ
unfolding days_before_year days_before_month
total_seconds s =
    let days = days_before_year s.year + days_before_month s.year s.month + s.day in
    ((days * 24 + s.hour) * 60 + s.minute) * 60 + s.second

abbrev leap_day : ℕ → ℕ
unfolding is_leap
leap_day y = if is_leap y then 1 else 0

abbrev day_number : Stamp → ℕ
day_number s = days_before_year s.year + days_before_month s.year s.month + s.day

year_step :
    (y z : ℕ)
    → 2000 ≤ y
    → y < z
    → z ≤ 2099
    → days_before_year y + (365 + leap_day y) ≤ days_before_year z
unfolding days_before_year is_leap
year_step y z a b c = ground arith

whole_year : (y : ℕ) → days_before_month y 13 ≤ 365 + leap_day y
unfolding days_before_month days_in_month is_leap
whole_year y = ground arith

month_step :
    (y m : ℕ) → 1 ≤ m → days_before_month y (suc m) ≡ days_before_month y m + days_in_month y m
unfolding days_before_month
month_step y zero h = absurd (omega arith)
month_step y (suc m) h = refl

months_before :
    (y m n : ℕ) → 1 ≤ m → m < n → days_before_month y m + days_in_month y m ≤ days_before_month y n
months_before y m zero h k = absurd (omega arith)
months_before y m (suc n) h k = elim (Bool-cases (m == n)) [
  | inl e ↦
      let equal : m ≡ n = (==_iff m n).0 e in
      let step = month_step y m h in
      let last : days_before_month y (suc m) ≡ days_before_month y (suc n) =
        ap (λ j. days_before_month y (suc j)) equal in
      omega (arith, step, last)
  | inr e ↦
      let earlier_ = months_before y m n h (ground arith) in
      omega (arith, earlier_, month_step y n (ground arith))
]

-- a day lies within its month, and its month within its year
day_bound : (s : Stamp) → IsStamp s → s.day ≤ days_in_month s.year s.month
day_bound s v =
    leb→le _ _
      (HasDay→days_in_month s.year s.month s.day v.year.0 v.year.1 v.month.0 v.month.1 v.day.1)

abbrev SameDate : Stamp → Stamp → Type 0
SameDate s t = (s.year ≡ t.year) × (s.month ≡ t.month) × (s.day ≡ t.day)

abbrev EarlierDate : Stamp → Stamp → Type 0
EarlierDate s t =
    (s.year < t.year)
    ⊎ ((s.year ≡ t.year) × ((s.month < t.month) ⊎ ((s.month ≡ t.month) × (s.day < t.day))))

day_number-EarlierDate :
    (s t : Stamp) → IsStamp s → IsStamp t → EarlierDate s t → day_number s < day_number t
day_number-EarlierDate s t v w (inl years) = omega (
  arith,
  year_step s.year t.year v.year.0 years w.year.1,
  whole_year s.year,
  months_before s.year s.month 13 v.month.0 (omega (arith, v.month.1)),
  day_bound s v,
  w.day.0,
)
day_number-EarlierDate s t v w (inr (years, inl months)) = omega (
  arith,
  months_before s.year s.month t.month v.month.0 months,
  day_bound s v,
  w.day.0,
  ap days_before_year years,
  ap (λ y. days_before_month y t.month) years,
)
day_number-EarlierDate s t v w (inr (years, inr (months, days))) = omega (
  arith,
  days,
  ap days_before_year years,
  ap (λ y. days_before_month y s.month) years,
  ap (days_before_month t.year) months,
)

dates :
    (s t : Stamp)
    → IsStamp s
    → IsStamp t
    → ((s.year ≡ t.year) × (s.month ≡ t.month) × (s.day ≡ t.day) × (day_number s ≡ day_number t))
      ⊎ ((EarlierDate s t × (day_number s < day_number t))
          ⊎ (EarlierDate t s × (day_number t < day_number s)))
dates s t v w = elim (compare_dates s t) [
  | inl (y, m, d) ↦ inl (
    y,
    m,
    d,
    omega (
      arith,
      ap days_before_year y,
      ap (λ j. days_before_month j s.month) y,
      ap (days_before_month t.year) m,
    ),
  )
  | inr (inl e) ↦ inr (inl (e, day_number-EarlierDate s t v w e))
  | inr (inr e) ↦ inr (inr (e, day_number-EarlierDate t s w v e))
]
  where
    compare_dates : (s t : Stamp) → SameDate s t ⊎ (EarlierDate s t ⊎ EarlierDate t s)
    compare_dates s t = ground arith

-- Of two instants of the calendar the one is no later than the other exactly when no more seconds
-- lead up to it.
pub total_seconds_iff :
    (s t : Stamp)
    → IsStamp s
    → IsStamp t
    → (no_later s t ≡ true) ↔ (total_seconds s ≤ total_seconds t)
unfolding total_seconds lex_le
total_seconds_iff s t v w =
    ground (arith, dates s t v w, v.hour, v.minute, v.second, w.hour, w.minute, w.second)
