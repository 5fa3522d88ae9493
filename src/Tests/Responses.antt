-- ===== src/Tests/Responses.antt =====
-- A bundle of two responses, with the theorem on the response that a label picks.
use qing_yin.Prelude.{List, [], ok, refl, same, some, traverse, ◌↔◌, ◌∷◌, ◌≡◌}
use qing_yin.Prelude.Checks.{Pointwise}
use qing_yin.Text.{lit}
use qing_yin.Json.{Fields, Value, arr, cons, get, is_text, item, nil, obj, of_entries, str}
use qing_yin.Evidence.Responses.{response_item, responses_of}
use qing_yin.Evidence.Responses.Single.{IsLabelled, Only, response_item_iff}

abbrev commit_response : Fields
commit_response = of_entries ((lit "label", str (lit "merge-commit")) ∷ [])

abbrev two_responses : Fields
two_responses = of_entries (
    (
      lit "responses",
      arr (
          cons (obj (of_entries ((lit "label", str (lit "pull")) ∷ [])))
            (cons (obj commit_response) nil)),
    )
    ∷ (lit "component", str (lit "merge"))
    ∷ [])

picked_response : response_item two_responses (lit "merge-commit") ≡ ok commit_response
unfolding response_item item get same lit traverse is_text
picked_response = refl

response_item_iff_example :
    (response_item two_responses (lit "merge-commit") ≡ ok commit_response) ↔ (
      (vs : List Value) × (responses_of two_responses ≡ ok vs)
      × ((rs : List (Value × Fields)) × Pointwise IsLabelled vs rs
          × ((component : Value) × (get (lit "component") two_responses ≡ some component)
              × Only (lit "merge-commit") commit_response rs)))
response_item_iff_example = response_item_iff two_responses (lit "merge-commit") commit_response
