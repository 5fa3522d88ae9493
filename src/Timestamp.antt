-- ===== src/Timestamp.antt =====
-- `RFC3339_UTC_PATTERN` and `require_utc_timestamp` of scripts/validate_governance_state.py.
pub mod Calendar
pub mod Printing
mod Match
pub mod Order
pub mod RoundTrip
use qing_yin.Prelude.{
  Bool, Option, Result, [], between, discard, fail, if◌then◌else◌, leb, none, not, ok, require,
  some, ℕ, ◌%◌, ◌&&◌, ◌*◌, ◌+◌, ◌-◌, ◌==◌, ◌>>◌, ◌||◌, ◌∷◌,
}
use qing_yin.Text.{Text}
use qing_yin.Json.{Value, arr, boolean, float, int, null, obj, str}

pub record Stamp : Type 0 where
  pub year : ℕ
  pub month : ℕ
  pub day : ℕ
  pub hour : ℕ
  pub minute : ℕ
  pub second : ℕ

infixl 5 ◌>>=◌
abbrev pub ◌>>=◌ : {A B : Type 0} → Option A → (A → Option B) → Option B
none >>= f = none
some a >>= f = f a

abbrev pub digit : ℕ → Bool
digit = between b'0' b'9'

-- two digits of a numeral within the bounds, and the text behind them
unfoldable pub pair : ℕ → ℕ → Text → Option (ℕ × Text)
pair low high (a ∷ b ∷ rest) =
    let n = (a - b'0') * 10 + (b - b'0') in
    if digit a && digit b && between low high n then some (n, rest) else none
pair low high _ = none

unfoldable pub literal : ℕ → Text → Option Text
literal c [] = none
literal c (d ∷ rest) = if d == c then some rest else none

unfoldable pub ended : Stamp → Text → Option Stamp
ended s [] = some s
ended s (_ ∷ _) = none

-- The fields, where the pattern matches the whole text. Each group of the pattern is two digits
-- with a bound: `(?:0[1-9]|1[0-2])` is 01 to 12, and `20[0-9]{2}` is 20 and 00 to 99.
unfoldable pub match_stamp : Text → Option Stamp
match_stamp t0 = do
  (century, t1) ← pair 20 20 t0
  (years, t2) ← pair 0 99 t1
  t3 ← literal b'-' t2
  (month, t4) ← pair 1 12 t3
  t5 ← literal b'-' t4
  (day, t6) ← pair 1 31 t5
  t7 ← literal b'T' t6
  (hour, t8) ← pair 0 23 t7
  t9 ← literal b':' t8
  (minute, t10) ← pair 0 59 t9
  t11 ← literal b':' t10
  (second, t12) ← pair 0 59 t11
  t13 ← literal b'Z' t12
  ended
      (record {
        year = century * 100 + years;
        month = month;
        day = day;
        hour = hour;
        minute = minute;
        second = second;
      })
      t13

unfoldable pub is_leap : ℕ → Bool
is_leap y = y % 4 == 0 && (not (y % 100 == 0) || y % 400 == 0)

unfoldable pub days_in_month : ℕ → ℕ → ℕ
unfolding is_leap
days_in_month y m =
    if m == 2
    then (if is_leap y then 29 else 28)
    else if m == 4 || m == 6 || m == 9 || m == 11
    then 30
    else 31

-- What `datetime.strptime` refuses of a text that matches the pattern: a day past the month's end.
unfoldable pub is_calendar_day : Stamp → Bool
unfolding days_in_month
is_calendar_day s = leb s.day (days_in_month s.year s.month)

abbrev pub dated : Option Stamp → Result Stamp
dated none = fail "must be second-precision RFC3339 UTC"
dated (some s) = do require (is_calendar_day s) "is not a real UTC calendar timestamp"; ok s

-- The instant that `strptime` then reads from an accepted text comes back with it.
unfoldable pub utc_timestamp : Value → Result Stamp
unfolding is_calendar_day
utc_timestamp (str t) = dated (match_stamp t)
utc_timestamp null = fail "must be second-precision RFC3339 UTC"
utc_timestamp (boolean _) = fail "must be second-precision RFC3339 UTC"
utc_timestamp (int _) = fail "must be second-precision RFC3339 UTC"
utc_timestamp (float _) = fail "must be second-precision RFC3339 UTC"
utc_timestamp (arr _) = fail "must be second-precision RFC3339 UTC"
utc_timestamp (obj _) = fail "must be second-precision RFC3339 UTC"

unfoldable pub require_utc_timestamp : Value → Result (Unit {0})
unfolding utc_timestamp
require_utc_timestamp v = discard (utc_timestamp v)
