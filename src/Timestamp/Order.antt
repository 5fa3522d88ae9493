-- ===== src/Timestamp/Order.antt =====
-- The script compares some timestamps as strings and others as `datetime` values. On the texts that
-- the check takes, the two orders agree.
use qing_yin.Prelude.{
  Bool, List, [], arith, false, if◌then◌else◌, leb, ok, refl, true, ℕ, ◌%◌, ◌/◌, ◌<◌, ◌∷◌, ◌≡◌,
}
use qing_yin.Prelude.Order.{lex_le, nat_order}
use qing_yin.Text.{Text}
use qing_yin.Json.{str}
use qing_yin.Timestamp.Printing.{IsStamp, print_stamp, two_digits}
use qing_yin.Timestamp.Calendar.{HasDay-le}
use qing_yin.Timestamp.RoundTrip.{utc_timestamp_iff}
use qing_yin.Timestamp.{Stamp, utc_timestamp}

-- the fields in the order in which `datetime` values are compared
abbrev pub fields : Stamp → List ℕ
fields s = s.year ∷ s.month ∷ s.day ∷ s.hour ∷ s.minute ∷ s.second ∷ []

-- `a <= b` of two `datetime` values
abbrev pub no_later : Stamp → Stamp → Bool
no_later s t = lex_le (fields s) (fields t)

abbrev first_then : ℕ → ℕ → Bool → Bool
first_then a b rest = if leb a b then (if leb b a then rest else true) else false

lex_le-two_digits :
    (a b : ℕ) (x y : Text)
    → a < 100
    → b < 100
    → lex_le (two_digits a x) (two_digits b y) ≡ first_then a b (lex_le x y)
unfolding lex_le
lex_le-two_digits a b x y p q = ground arith

lex_le-cons_self : (c : ℕ) (x y : Text) → lex_le (c ∷ x) (c ∷ y) ≡ lex_le x y
unfolding lex_le
lex_le-cons_self c x y = ground arith

year_halves :
    (a b : ℕ) (rest : Bool)
    → first_then (a / 100) (b / 100) (first_then (a % 100) (b % 100) rest) ≡ first_then a b rest
year_halves a b rest = ground arith

-- on the printed texts
lex_le-print_stamp :
    (s t : Stamp) → IsStamp s → IsStamp t → lex_le (print_stamp s) (print_stamp t) ≡ no_later s t
unfolding print_stamp
lex_le-print_stamp s t v w =
    rw
      (
        lex_le-two_digits (s.year / 100) (t.year / 100) _ _ (omega arith) (omega arith),
        lex_le-two_digits (s.year % 100) (t.year % 100) _ _ (omega arith) (omega arith),
        lex_le-cons_self b'-' _ _,
        lex_le-two_digits s.month t.month _ _ (omega arith) (omega arith),
        lex_le-cons_self b'-' _ _,
        lex_le-two_digits s.day t.day _ _ (omega (arith, HasDay-le s.year s.month s.day v.day.1))
            (omega (arith, HasDay-le t.year t.month t.day w.day.1)),
        lex_le-cons_self b'T' _ _,
        lex_le-two_digits s.hour t.hour _ _ (omega arith) (omega arith),
        lex_le-cons_self b':' _ _,
        lex_le-two_digits s.minute t.minute _ _ (omega arith) (omega arith),
        lex_le-cons_self b':' _ _,
        lex_le-two_digits s.second t.second _ _ (omega arith) (omega arith),
        lex_le-cons_self b'Z' _ _,
        year_halves s.year t.year _,
      )
      (unfold lex_le in refl)

-- Of two strings that the timestamp check takes, the one is at most the other, as Python compares
-- strings, exactly when the instant read from it is no later than the other's, as Python compares
-- `datetime` values.
pub utc_timestamp-lex_le :
    (t u : Text) (s v : Stamp)
    → utc_timestamp (str t) ≡ ok s
    → utc_timestamp (str u) ≡ ok v
    → lex_le t u ≡ no_later s v
utc_timestamp-lex_le t u s v h k =
    let (written, valid) = (utc_timestamp_iff t s).0 h in
    let (other, other_valid) = (utc_timestamp_iff u v).0 k in
    rw (written, other) (lex_le-print_stamp s v valid other_valid)
