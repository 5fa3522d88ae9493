-- ===== src/Evidence/Bundle/Binding.antt =====
-- What an accepted response of a bundle binds together: the request, the raw body and their hashes.
use qing_yin.Prelude.{
  ==_iff, List, [], ap, contains, not, ok, ok-injective, same, true, ℕ, ◌<◌, ◌==◌, ◌||◌, ◌↔◌, ◌∙◌,
  ◌∷◌, ◌≡◌, ◌≢◌, ◌≤◌,
}
use qing_yin.Prelude.Int.{pos}
use qing_yin.Json.Scalar.{safe_integer_limit}
use qing_yin.Json.Equality.{eq_value}
use qing_yin.Integer.Bounds.{require_positive_int_iff}
use qing_yin.Evidence.Request.Sources.{OneOf, is_one_of_iff}
use qing_yin.Evidence.Hashes.{validate_human_body_hashes}
use qing_yin.Text.{Bytes, Text, lit}
use qing_yin.Platform.{Platform}
use qing_yin.Json.{Fields, Value, arr, int, is_text, item, of_elements, str}
use qing_yin.Json.Canonical.{canonical_json_v1}
use qing_yin.Shape.{require_exact_object}
use qing_yin.Shape.Digests.{
  Document, Has, IsHex, is_text_iff, item_iff, require_exact_object_iff, require_sha256_iff,
}
use qing_yin.Evidence.Request.{is_one_of, validate_request_v1}
use qing_yin.Evidence.Bundle.{
  Reader, Tuple, check_response, check_rule, expected_hashes, human_labels, media_types,
  nonempty_label, response_body, response_bytes, response_content, response_head, response_keys,
  response_request,
}
use qing_yin.Prelude.Checks.{bind_iff, iff_trans, ok_iff, require_iff, then_iff}
use qing_yin.Shape.Named.{some_text_iff}
use qing_yin.Integer.{require_positive_int}

nonempty_label_iff :
    (v : Value) (label : Text) → (nonempty_label v ≡ ok label) ↔ ((v ≡ str label) × (label ≢ []))
unfolding nonempty_label
nonempty_label_iff (str []) label = (λ h. cc, λ (e, n). absurd (n cc))
nonempty_label_iff (str (c ∷ cs)) label = (
  λ h. let equal = ok-injective (c ∷ cs) label h in (ap str equal, λ n. cons_not_nil (equal ∙ n)),
  λ (e, n). cc,
)
  where
    cons_not_nil : {x : ℕ} {xs : Text} → x ∷ xs ≡ [] → ⊥
    cons_not_nil e = cc
nonempty_label_iff _ label = (λ h. cc, λ (e, n). cc)

same_claim : {P : Type 0} → P ↔ P
same_claim = (λ h. h, λ h. h)

module _ (p : Platform) (r : Reader) where
  -- the label's rule holds of the request, and the recorded hash is that of its canonical form
  abbrev pub RequestParts : Fields → Text × Text → Type 0
  RequestParts d out = Has d (lit "label") λ given.
      (label : Text) × ((given ≡ str label) × (label ≢ []))
      × Has d (lit "request") λ request.
        (validate_request_v1 request ≡ ok tt)
        × ((check_rule label request ≡ ok tt)
            × Has d (lit "request_canonical_sha256") λ recorded.
              IsHex 64 recorded
              × ((bytes : Bytes) × (canonical_json_v1 p request ≡ ok bytes)
                  × ((recorded ≡ str (p.sha256 bytes)) × ((label, p.sha256 bytes) ≡ out))))

  response_request_iff :
      (d : Fields) (out : Text × Text) → (response_request p d ≡ ok out) ↔ RequestParts d out
  unfolding response_request
  response_request_iff d out = bind_iff (item (lit "label") d) _ (item_iff (lit "label") d) λ given.
      bind_iff (nonempty_label given) _ (nonempty_label_iff given) λ label.
        bind_iff (item (lit "request") d) _ (item_iff (lit "request") d) λ request.
          then_iff (validate_request_v1 request) _ same_claim (
            then_iff (check_rule label request) _ same_claim (
              bind_iff (item (lit "request_canonical_sha256") d) _
                (item_iff (lit "request_canonical_sha256") d)
                λ recorded. then_iff _ _ (require_sha256_iff recorded) (
                  bind_iff (canonical_json_v1 p request) _ (λ b. same_claim)
                    λ bytes.
                      then_iff _ _
                        (iff_trans (require_iff (is_text (p.sha256 bytes) recorded) _)
                          (is_text_iff _ recorded))
                        (ok_iff (label, p.sha256 bytes) out))))

  -- status 200 and a known media type
  abbrev pub HeadParts : Fields → Text → Type 0
  HeadParts d media = Has d (lit "response_status") λ status.
      (code : ℕ) × ((status ≡ int (pos code)) × (0 < code) × (code ≤ safe_integer_limit))
      × ((code ≡ 200)
          × Has d (lit "response_media_type")
              λ given. OneOf given media_types × (given ≡ str media))

  response_head_iff : (d : Fields) (media : Text) → (response_head d ≡ ok media) ↔ HeadParts d media
  unfolding response_head
  response_head_iff d media =
      bind_iff (item (lit "response_status") d) _ (item_iff (lit "response_status") d) λ status.
        bind_iff (require_positive_int status) _ (require_positive_int_iff status) λ code.
          then_iff _ _ (iff_trans (require_iff (code == 200) _) (==_iff code 200)) (
            bind_iff (item (lit "response_media_type") d) _ (item_iff (lit "response_media_type") d)
              λ given.
                then_iff _ _
                  (iff_trans (require_iff (is_one_of given media_types) _)
                    (is_one_of_iff given media_types))
                  (some_text_iff given _ media))

  -- the body is the base64 text decoded, and both recorded hashes and the hashes of the human bodies
  -- are those of the body
  abbrev pub BodyParts : Fields → Text → Text → Text × Text → Type 0
  BodyParts d label media out =
      (bytes : Bytes) × (response_bytes r d ≡ ok bytes)
      × Has d (lit "response_body_sha256") λ body_hash.
        IsHex 64 body_hash
        × Has d (lit "response_canonical_sha256") λ canonical_hash.
          IsHex 64 canonical_hash
          × ((body_hash ≡ str (p.sha256 bytes))
              × (((not (contains label human_labels) || same media (lit "application/json")) ≡ true)
                  × ((content : Value × Text) × (response_content p r media bytes ≡ ok content)
                      × ((canonical_hash ≡ str content.1)
                          × Has d (lit "human_body_hashes") λ given.
                            (hashes : List Value) × (validate_human_body_hashes p given ≡ ok hashes)
                            × ((expected : List Value) × (expected_hashes p media label content.0
                                  ≡ ok expected)
                                × ((eq_value (arr (of_elements hashes)) (arr (of_elements expected))
                                      ≡ true)
                                    × ((p.sha256 bytes, content.1) ≡ out)))))))

  response_body_iff :
      (d : Fields) (label media : Text) (out : Text × Text)
      → (response_body p r d label media ≡ ok out) ↔ BodyParts d label media out
  unfolding response_body
  response_body_iff d label media out =
      bind_iff (response_bytes r d) _ (λ b. same_claim)
        λ bytes.
          bind_iff (item (lit "response_body_sha256") d) _ (item_iff (lit "response_body_sha256") d)
            λ body_hash. then_iff _ _ (require_sha256_iff body_hash) (
              bind_iff (item (lit "response_canonical_sha256") d) _
                (item_iff (lit "response_canonical_sha256") d)
                λ canonical_hash. then_iff _ _ (require_sha256_iff canonical_hash) (
                  then_iff _ _
                    (iff_trans (require_iff (is_text (p.sha256 bytes) body_hash) _)
                      (is_text_iff _ body_hash))
                    (then_iff _ _
                      (require_iff
                        (not (contains label human_labels) || same media (lit "application/json"))
                        _)
                      (bind_iff (response_content p r media bytes) _ (λ c. same_claim)
                        λ content.
                          then_iff _ _
                            (iff_trans (require_iff (is_text content.1 canonical_hash) _)
                              (is_text_iff content.1 canonical_hash))
                            (bind_iff (item (lit "human_body_hashes") d) _
                              (item_iff (lit "human_body_hashes") d)
                              λ given.
                                bind_iff (validate_human_body_hashes p given) _ (λ hs. same_claim)
                                  λ hashes.
                                    bind_iff (expected_hashes p media label content.0) _
                                      (λ es. same_claim)
                                      λ expected.
                                        then_iff _ _
                                          (require_iff
                                            (eq_value (arr (of_elements hashes))
                                              (arr (of_elements expected)))
                                            _)
                                          (ok_iff (p.sha256 bytes, content.1) out))))))

  -- A response is accepted exactly when it is an object of the expected keys in which the request
  -- obeys the label's rule, the status is 200, and the recorded hashes of the request, the raw body,
  -- its canonical form and its human bodies are the computed ones; its tuple is then the label and
  -- the three hashes.
  pub check_response_iff :
      (v : Value) (t : Tuple)
      → (check_response p r v ≡ ok t)
        ↔ Document response_keys
            (λ d.
              (request : Text × Text) × RequestParts d request
              × ((media : Text) × HeadParts d media
                  × ((body : Text × Text) × BodyParts d request.0 media body
                      × (request.0 ∷ request.1 ∷ body.0 ∷ body.1 ∷ [] ≡ t))))
            v
  unfolding check_response
  check_response_iff v t =
      bind_iff (require_exact_object v response_keys) _ (require_exact_object_iff v response_keys)
        λ d. bind_iff (response_request p d) _ (response_request_iff d) λ request.
          bind_iff (response_head d) _ (response_head_iff d) λ media.
            bind_iff (response_body p r d request.0 media) _ (response_body_iff d request.0 media)
              λ body. ok_iff (request.0 ∷ request.1 ∷ body.0 ∷ body.1 ∷ []) t
