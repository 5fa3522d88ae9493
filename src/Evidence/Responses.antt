-- ===== src/Evidence/Responses.antt =====
-- `response_item` and `response_value` of scripts/validate_governance_state.py: the one response of
-- a validated bundle that has a label.
pub mod Single
use qing_yin.Prelude.{
  List, Option, Result, [], err, fail, if◌then◌else◌, none, ok, raised, require, some, traverse,
  ◌>>=◌, ◌>>◌, ◌∷◌,
}
use qing_yin.Text.{Text, lit}
use qing_yin.Text.Utf8.{utf8_decode}
use qing_yin.Platform.{Platform}
use qing_yin.Json.{Fields, Value, is_text, item}
use qing_yin.Json.Strict.{parse_json_strict}
use qing_yin.Shape.{dict, list, some_or_raise, text}
use qing_yin.Evidence.Bundle.{Reader}

-- A value that is no object cannot be indexed by a text.
abbrev pub with_label : Option Fields → Result (Value × Fields)
with_label none = err (raised "TypeError")
with_label (some fields) = do given ← item (lit "label") fields; ok (given, fields)

-- a response with the value of its label
unfoldable pub labelled : Value → Result (Value × Fields)
unfolding dict
labelled v = with_label (dict v)

-- the responses that a label picks
abbrev pub picked : Text → List (Value × Fields) → List Fields
picked label [] = []
picked label (r ∷ rs) = let rest = picked label rs in if is_text label r.0 then r.1 ∷ rest else rest

-- `require(len(matches) == 1, …)` and `matches[0]`
abbrev pub the_only : List Fields → Result Fields
the_only (x ∷ []) = ok x
the_only _ = fail "expected exactly one response label"

-- `bundle["responses"]`, which is a list in a validated bundle
unfoldable pub responses_of : Fields → Result (List Value)
unfolding list
responses_of bundle = do
  v ← item (lit "responses") bundle
  elim (list v) [ none ↦ err (raised "TypeError") | some vs ↦ ok vs ]

-- The message of the `require` names `bundle["component"]`, which is read before the test.
unfoldable pub response_item : Fields → Text → Result Fields
unfolding responses_of labelled
response_item bundle label = do
  responses ← responses_of bundle
  rs ← traverse labelled responses
  _ ← item (lit "component") bundle
  the_only (picked label rs)

-- Where a body is not base64 or not UTF-8, Python's own errors come out.
unfoldable pub response_value : Platform → Reader → Fields → Text → Result Value
unfolding response_item text utf8_decode parse_json_strict
response_value p r bundle label = do
  response ← response_item bundle label
  media ← item (lit "response_media_type") response
  require (is_text (lit "application/json") media) "response must be JSON"
  encoded ← item (lit "response_body_base64") response
  body ← some_or_raise (text encoded) "TypeError"
  bytes ← some_or_raise (r.b64decode body) "Error"
  source ← some_or_raise (utf8_decode bytes) "UnicodeDecodeError"
  parse_json_strict p r.loads source
