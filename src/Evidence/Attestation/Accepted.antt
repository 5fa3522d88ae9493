-- ===== src/Evidence/Attestation/Accepted.antt =====
-- What the field checks of the documents accept.
use qing_yin.Prelude.{
  All, List, Result, String, [], ap, discard, err, map, ok, refl, some, ℕ, ◌<◌, ◌↔◌, ◌∙◌, ◌∷◌, ◌≡◌,
  ◌≤◌,
}
use qing_yin.Prelude.Int.{pos}
use qing_yin.Prelude.Checks.{bind_iff, each_iff, iff_trans, require_iff}
use qing_yin.Text.{Text, lit}
use qing_yin.Json.{Fields, Value, int, is_text, item, str}
use qing_yin.Json.Scalar.{safe_integer_limit}
use qing_yin.Integer.{require_positive_int}
use qing_yin.Integer.Bounds.{require_positive_int_iff}
use qing_yin.Timestamp.{Stamp, require_utc_timestamp, utc_timestamp}
use qing_yin.Timestamp.Printing.{IsStamp, print_stamp}
use qing_yin.Timestamp.RoundTrip.{utc_timestamp_iff}
use qing_yin.Shape.{list, require_sha1, require_sorted_unique_strings, string_list}
use qing_yin.Shape.Digests.{Has, HasText, IsHex, is_text_iff, item_iff, require_sha1_iff}
use qing_yin.Shape.Strings.{IsCanonical, require_sorted_unique_strings_iff}
use qing_yin.Evidence.Attestation.{
  positive, require_candidate, require_item, require_text, sorted_strings,
}

pub discard_iff :
    {A : Type 0} {P : A → Type 0} (m : Result A)
    → ((a : A) → (m ≡ ok a) ↔ P a)
    → (discard m ≡ ok tt) ↔ ((a : A) × P a)
discard_iff (ok a) h = (λ e. (a, (h a).0 refl), λ x. refl)
discard_iff (err e) h = (λ x. cc, λ (a, p). absurd (cc ((h a).1 p)))

pub require_text_iff :
    (d : Fields) (k t : Text) (message : String)
    → (require_text d k t message ≡ ok tt) ↔ HasText d k t
unfolding require_text
require_text_iff d k t message =
    iff_trans
      (bind_iff (item k d) _ (item_iff k d)
        λ v. iff_trans (require_iff (is_text t v) message) (is_text_iff t v))
      (λ (v, e, h). e ∙ ap some h, λ e. (str t, e, refl))

pub require_item_iff :
    {P : Value → Type 0} (d : Fields) (check : Value → Result (Unit {0})) (k : Text)
    → ((v : Value) → (check v ≡ ok tt) ↔ P v)
    → (require_item d check k ≡ ok tt) ↔ Has d k P
unfolding require_item
require_item_iff d check k h = bind_iff (item k d) check (item_iff k d) h

abbrev pub IsPositive : Value → Type 0
IsPositive v = (n : ℕ) × ((v ≡ int (pos n)) × (0 < n) × (n ≤ safe_integer_limit))

pub positive_iff : (v : Value) → (positive v ≡ ok tt) ↔ IsPositive v
positive_iff v = discard_iff (require_positive_int v) (require_positive_int_iff v)

abbrev pub IsSortedStrings : Value → Type 0
IsSortedStrings v = (xs : List Text) × ((string_list (list v) ≡ some xs) × IsCanonical xs)

pub sorted_strings_iff : (v : Value) → (sorted_strings v ≡ ok tt) ↔ IsSortedStrings v
sorted_strings_iff v =
    discard_iff (require_sorted_unique_strings v) (require_sorted_unique_strings_iff v)

-- a timestamp as it is printed
abbrev pub IsTimestamp : Value → Type 0
IsTimestamp v = (s : Stamp) × ((v ≡ str (print_stamp s)) × IsStamp s)

pub stamp_iff :
    (v : Value) (s : Stamp) → (utc_timestamp v ≡ ok s) ↔ ((v ≡ str (print_stamp s)) × IsStamp s)
unfolding utc_timestamp
stamp_iff (str t) s = iff_trans (utc_timestamp_iff t s) (λ (e, h). (ap str e, h), λ (e, h). (cc, h))
stamp_iff _ s = (λ h. cc, λ (e, h). cc)

pub require_utc_timestamp_iff : (v : Value) → (require_utc_timestamp v ≡ ok tt) ↔ IsTimestamp v
unfolding require_utc_timestamp
require_utc_timestamp_iff v = discard_iff (utc_timestamp v) (stamp_iff v)

abbrev pub HasCandidate : Fields → Type 0
HasCandidate d =
    All (λ k. Has d k (IsHex 40)) (map lit ("base_sha" ∷ "candidate_head" ∷ "candidate_tree" ∷ []))

pub require_candidate_iff : (d : Fields) → (require_candidate d ≡ ok tt) ↔ HasCandidate d
unfolding require_candidate
require_candidate_iff d =
    each_iff (require_item d require_sha1) (λ k. require_item_iff d require_sha1 k require_sha1_iff)
      _
