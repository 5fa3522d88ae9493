-- ===== src/Evidence/Ledger/Shape.antt =====
-- The part of `validate_finding_ledger` of scripts/validate_governance_state.py that every finding
-- goes through.
use qing_yin.Prelude.{
  Bool, List, Option, Result, [], any, between, contains, each, false, if◌then◌else◌, map, none,
  not, ok, require, same, some, true, ℕ, ◌&&◌, ◌==◌, ◌>>=◌, ◌>>◌, ◌||◌, ◌∷◌,
}
use qing_yin.Text.{Text, lit}
use qing_yin.Json.{Fields, Value, is_text, item}
use qing_yin.Regex.{Regex, any_of, chars, fullmatch, many, one, pieces, word}
use qing_yin.Timestamp.{Stamp}
use qing_yin.Shape.{some_or_fail, some_or_raise, text}
use qing_yin.Evidence.Attestation.{require_item, sorted_strings}
use qing_yin.Evidence.Bodies.{is_stripped}
use qing_yin.Evidence.Inventory.{after_prefix, lookup}
use qing_yin.Evidence.Request.{is_one_of}
use qing_yin.Evidence.Ledger.{
  common_residual_ids, forbidden_scope_terms, one_time_residual_ids, one_time_target_types,
  residual_ids, residual_scopes,
}

-- what a ledger is checked against
pub record Context : Type 0 where
  -- `str.casefold`
  pub casefold : Text → Text
  pub target_type : Text
  pub root : Fields
  pub cutoff : Stamp
  pub latest_review : Stamp
  pub reports : Value
  pub paths_bundle : Option Fields

abbrev pub expected_residual_ids : Text → List Text
expected_residual_ids target_type =
    if contains target_type one_time_target_types then residual_ids else common_residual_ids

abbrev pub finding_keys : List Text
finding_keys = map lit (
    "id" ∷ "severity" ∷ "status" ∷ "owner" ∷ "scope" ∷ "reason" ∷ "mitigation" ∷ "rollback"
    ∷ "evidence" ∷ "valid_until" ∷ "invalidators" ∷ "disposition" ∷ [])

abbrev pub text_fields : List Text
text_fields =
    map lit ("owner" ∷ "scope" ∷ "reason" ∷ "mitigation" ∷ "rollback" ∷ "disposition" ∷ [])

-- `(?:GVN|REV)-P[0-2]-[0-9]{3}`
unfoldable pub finding_id_pattern : Regex
unfolding chars
finding_id_pattern = pieces (
    any_of (word "GVN") (word "REV" ∷ [])
    ∷ word "-P"
    ∷ one (between b'0' b'2')
    ∷ word "-"
    ∷ many (between b'0' b'9') 3 (some 3)
    ∷ [])

abbrev pub is_finding_id : Text → Bool
is_finding_id t = fullmatch (λ c. false) finding_id_pattern t

abbrev pub onto_first : ℕ → List Text → List Text
onto_first c [] = (c ∷ []) ∷ []
onto_first c (p ∷ ps) = (c ∷ p) ∷ ps

-- `text.split(separator)` for one character
unfoldable pub split_on : ℕ → Text → List Text
split_on d [] = [] ∷ []
split_on d (c ∷ s) = let rest = split_on d s in if c == d then [] ∷ rest else onto_first c rest

-- `parts[1]`
abbrev pub second : List Text → Option Text
second (a ∷ b ∷ rest) = some b
second _ = none

abbrev pub has_part : Value → Option Text → Bool
has_part v none = false
has_part v (some t) = is_text t v

-- `term in text`
abbrev pub starts : Text → Text → Bool
starts [] s = true
starts (c ∷ cs) [] = false
starts (c ∷ cs) (d ∷ s) = (c == d) && starts cs s

abbrev pub occurs : Text → Text → Bool
occurs term [] = starts term []
occurs term (c ∷ s) = starts term (c ∷ s) || occurs term s

abbrev pub is_trimmed : Option Text → Bool
is_trimmed none = false
is_trimmed (some t) = is_stripped t

abbrev pub is_string : Option Text → Bool
is_string none = false
is_string (some t) = true

-- a residual of the decision keeps its owner and scope
unfoldable pub check_fixed_scope : Fields → Text → Result (Unit {0})
unfolding lookup
check_fixed_scope finding finding_id = do
  owner ← item (lit "owner") finding
  scope ← item (lit "scope") finding
  expected ← some_or_raise (lookup finding_id residual_scopes) "KeyError"
  require (is_text (lit "ZhangIvan") owner && is_text expected scope)
      "fixed residual owner/scope drifted"

-- another finding stays within the repository
unfoldable pub check_open_scope : Context → Fields → Result (Unit {0})
unfolding text after_prefix
check_open_scope x finding = do
  scope_value ← item (lit "scope") finding
  scope ← some_or_raise (text scope_value) "AttributeError"
  rest ←
      some_or_fail (after_prefix (lit "repository-only: ") scope)
        "scope must be explicitly repository-only"
  require (not (any (λ term. occurs term (x.casefold rest)) forbidden_scope_terms))
      "scope crosses a forbidden authorization boundary"

unfoldable pub check_scope : Context → Fields → Text → Result (Unit {0})
unfolding check_fixed_scope check_open_scope
check_scope x finding finding_id =
    if contains finding_id residual_ids
    then check_fixed_scope finding finding_id
    else check_open_scope x finding

-- `finding["id"]`, which has to match the pattern
unfoldable pub read_id : Fields → Result Text
unfolding text finding_id_pattern
read_id finding = do
  id_value ← item (lit "id") finding
  finding_id ← some_or_fail (text id_value) "finding id invalid"
  require (is_finding_id finding_id) "finding id invalid"
  ok finding_id

abbrev pub severities : List Text
severities = map lit ("P0" ∷ "P1" ∷ "P2" ∷ [])

abbrev pub statuses : List Text
statuses = map lit ("Open" ∷ "Accepted-Residual" ∷ "Resolved" ∷ "Deferred-P2" ∷ [])

-- a known severity, the one that the id names
abbrev pub severity_of : Text → Value → Result (Unit {0})
severity_of finding_id severity = do
  require (is_one_of severity severities) "finding severity invalid"
  require (has_part severity (second (split_on b'-' finding_id))) "finding id/severity mismatch"

abbrev pub known_status : Value → Result (Unit {0})
known_status status = require (is_one_of status statuses) "finding status invalid"

abbrev pub a_string : Value → Result (Unit {0})
a_string v = require (is_string (text v)) "finding field must be a string"

abbrev pub a_trimmed_string : Value → Result (Unit {0})
a_trimmed_string v = require (is_trimmed (text v)) "finding field must be non-empty and trimmed"

-- from the severity to the invalidators
unfoldable pub check_fields : Context → Fields → Text → Result (Unit {0})
unfolding require_item check_scope
check_fields x finding finding_id = do
  require_item finding (severity_of finding_id) (lit "severity")
  require_item finding known_status (lit "status")
  require
      (not (same x.target_type (lit "ordinary")) || not (contains finding_id one_time_residual_ids))
      "ordinary evidence cannot carry one-time residual finding"
  each (require_item finding a_string) text_fields
  each (require_item finding a_trimmed_string) text_fields
  check_scope x finding finding_id
  require_item finding sorted_strings (lit "invalidators")
