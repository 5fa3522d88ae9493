-- ===== src/Timestamp/RoundTrip.antt =====
-- The texts that the timestamp check takes, described by printing.
use qing_yin.Prelude.{Option, ap, none, ok, refl, require-eq-ok, some, subst, sym, true, ◌↔◌, ◌≡◌}
use qing_yin.Text.{Text}
use qing_yin.Json.{str}
use qing_yin.Timestamp.{Stamp, dated, is_calendar_day, match_stamp, utc_timestamp}
use qing_yin.Timestamp.Calendar.{HasDay→days_in_month, days_in_month→HasDay}
use qing_yin.Timestamp.Printing.{IsStamp, match_stamp-print_stamp, print_stamp}
use qing_yin.Timestamp.Match.{InPattern, match_stamp_sound}

dated-eq-ok :
    (o : Option Stamp) (s : Stamp) → dated o ≡ ok s → (o ≡ some s) × (is_calendar_day s ≡ true)
dated-eq-ok none s h = cc
dated-eq-ok (some r) s h =
    let parts = require-eq-ok (is_calendar_day r) _ (ok r) h in
    let equal : r ≡ s = cc (parts.1) in
    (ap some equal, subst (λ x. is_calendar_day x ≡ true) equal parts.0)

IsStamp-of_InPattern : (s : Stamp) → InPattern s → is_calendar_day s ≡ true → IsStamp s
unfolding is_calendar_day
IsStamp-of_InPattern s v h = record {
  year = v.year;
  month = v.month;
  day = (v.day, days_in_month→HasDay s.year s.month s.day v.year.0 v.year.1 v.month.0 v.month.1 h);
  hour = v.hour;
  minute = v.minute;
  second = v.second;
}

is_calendar_day-of_IsStamp : (s : Stamp) → IsStamp s → is_calendar_day s ≡ true
unfolding is_calendar_day
is_calendar_day-of_IsStamp s v =
    HasDay→days_in_month s.year s.month s.day v.year.0 v.year.1 v.month.0 v.month.1 v.day.1

-- A string passes exactly when it writes a day of the calendar of the years 2000 to 2099 and a time
-- of that day in the one fixed layout, and that instant comes back.
pub utc_timestamp_iff :
    (t : Text) (s : Stamp) → (utc_timestamp (str t) ≡ ok s) ↔ ((t ≡ print_stamp s) × IsStamp s)
unfolding utc_timestamp
utc_timestamp_iff t s = (
  λ h.
      let dates = dated-eq-ok (match_stamp t) s h in
      let matched = match_stamp_sound t s dates.0 in
      (matched.0, IsStamp-of_InPattern s matched.1 dates.1),
  λ (e, v).
      subst (λ u. dated (match_stamp u) ≡ ok s) (sym e)
        (rw (match_stamp-print_stamp s v) (rw (is_calendar_day-of_IsStamp s v) refl)),
)
