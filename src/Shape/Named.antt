-- ===== src/Shape/Named.antt =====
-- Which arrays `validate_named_digests` takes.
use qing_yin.Prelude.{
  ==_iff, List, Option, String, ap, length, none, ok, refl, require, some, subst, traverse, true,
  ◌==◌, ◌↔◌, ◌∙◌, ◌≡◌,
}
use qing_yin.Prelude.Checks.{
  Pointwise, bind_iff, iff_trans, length-Pointwise, require_iff, then_iff, traverse_iff,
}
use qing_yin.Text.{Text, lit}
use qing_yin.Json.{Fields, Value, item, keys, obj, str}
use qing_yin.Shape.{
  digest_keys, list, named_digest, require_exact_object, require_sha256, same_set, same_texts,
  some_or_fail, text, validate_named_digests,
}
use qing_yin.Shape.Digests.{
  Has, HasText, IsHex, item_iff, require_exact_object_iff, require_sha256_iff,
}
use qing_yin.Shape.Strings.{same_texts_iff}

-- an object of a name and the digest that goes with it, and nothing else
abbrev pub NamedDigest : Value → Text → Type 0
NamedDigest v name =
    (fs : Fields) × ((v ≡ obj fs)
      × (same_set (keys fs) digest_keys ≡ true)
      × HasText fs (lit "name") name
      × Has fs (lit "endpoint_bundle_sha256") (IsHex 64))

pub some_text_iff :
    (n : Value) (message : String) (s : Text) → (some_or_fail (text n) message ≡ ok s) ↔ (n ≡ str s)
unfolding text
some_text_iff (str t) message s = (λ h. cc, λ h. cc)
some_text_iff _ message s = (λ h. cc, λ h. cc)

pub some_iff :
    {A : Type 0} (o : Option A) (message : String) (a : A)
    → (some_or_fail o message ≡ ok a) ↔ (o ≡ some a)
some_iff none message a = (λ h. cc, λ h. cc)
some_iff (some b) message a = (λ h. cc, λ h. cc)

named_digest_iff : (v : Value) (name : Text) → (named_digest v ≡ ok name) ↔ NamedDigest v name
unfolding named_digest
named_digest_iff v name =
    iff_trans
      (bind_iff (require_exact_object v digest_keys) _ (require_exact_object_iff v digest_keys)
        λ fs. bind_iff (item (lit "name") fs) _ (item_iff (lit "name") fs) λ n.
          bind_iff {Q = λ a. Has fs (lit "endpoint_bundle_sha256") (λ d. IsHex 64 d × (a ≡ name))}
            (some_or_fail (text n) "name must be a string") _ (some_text_iff n _)
            λ actual.
              bind_iff (item (lit "endpoint_bundle_sha256") fs) _
                (item_iff (lit "endpoint_bundle_sha256") fs)
                λ d.
                  then_iff (require_sha256 d) (ok actual) (require_sha256_iff d) (λ h. cc, λ h. cc))
      (
        λ (fs, (e, k), (n, en, (actual, ea, (d, ed, (hex, same_name))))).
            (fs, (e, k, en ∙ ap some (ea ∙ ap str same_name), (d, ed, hex))),
        λ (fs, (e, k, en, (d, ed, hex))).
            (fs, (e, k), (str name, en, (name, refl, (d, ed, (hex, refl))))),
      )

-- one digest for each of the names, in their order
abbrev pub NamedDigests : List Text → Value → Type 0
NamedDigests names v = (vs : List Value) × ((list v ≡ some vs) × Pointwise NamedDigest vs names)

pub validate_named_digests_iff :
    (v : Value) (names : List Text)
    → (validate_named_digests v names ≡ ok tt) ↔ NamedDigests names v
unfolding validate_named_digests
validate_named_digests_iff v names =
    iff_trans
      (bind_iff (some_or_fail (list v) "cardinality mismatch") _ (some_iff (list v) _) λ vs.
        then_iff (require (length vs == length names) "cardinality mismatch") _ (require_iff _ _) (
          bind_iff (traverse named_digest vs) _
            (traverse_iff NamedDigest named_digest named_digest_iff vs)
            λ ns. iff_trans (require_iff (same_texts ns names) _) (same_texts_iff ns names)))
      (
        λ (vs, e, (len, (ns, digests, equal))).
            (vs, (e, subst (Pointwise NamedDigest vs) equal digests)),
        λ (vs, (e, digests)). (
          vs,
          e,
          ((==_iff _ _).1 (length-Pointwise NamedDigest vs names digests), (names, digests, refl)),
        ),
      )
