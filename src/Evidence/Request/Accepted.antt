-- ===== src/Evidence/Request/Accepted.antt =====
-- The requests that `validate_request_v1` takes.
use qing_yin.Prelude.{
  ==_iff, Result, String, [], all, and_true, ap, inl, inr, not, ok, refl, require, some, true, ◌==◌,
  ◌>>=◌, ◌>>◌, ◌↔◌, ◌∙◌, ◌∷◌, ◌≡◌,
}
use qing_yin.Prelude.Checks.{bind_iff, iff_trans, require_iff, then_iff}
use qing_yin.Text.{Text, lit}
use qing_yin.Json.{Fields, Value, is_text, item, str}
use qing_yin.Shape.{require_exact_object, text}
use qing_yin.Shape.Digests.{Document, Has, HasText, is_text_iff, item_iff, require_exact_object_iff}
use qing_yin.Evidence.Request.{
  check_source, is_one_of, is_request_path, request_keys, validate_request_v1,
}
use qing_yin.Evidence.Request.Sources.{OneOf, SourceRule, check_source_iff, is_one_of_iff, sources}
use qing_yin.Evidence.Request.Query.{IsQuery, check_query_iff}

-- an absolute path without a query part
abbrev pub IsPath : Value → Type 0
IsPath v = (cs : Text) × ((v ≡ str (b'/' ∷ cs)) × (all (λ x. not (x == b'?')) cs ≡ true))

is_request_path_iff : (v : Value) → (is_request_path (text v) ≡ true) ↔ IsPath v
unfolding is_request_path text
is_request_path_iff (str []) = (λ h. cc, λ (cs, e). cc)
is_request_path_iff (str (c ∷ cs)) = (
  λ h.
      let parts = and_true (c == b'/') _ h in
      (
        cs,
        (
          ap (λ k. str (k ∷ cs)) ((==_iff c b'/').0 parts.0),
          (and_true (not (c == b'?')) _ parts.1).1,
        ),
      ),
  λ (ds, (e, h)). let slash : c ≡ b'/' = cc in let rest : cs ≡ ds = cc in rw (slash, rest) h,
)
is_request_path_iff _ = (λ h. cc, λ (cs, (e, h)). cc)

abbrev pub IsRequest : Fields → Type 0
IsRequest d =
    HasText d (lit "schema") (lit "gvn-request-v1")
    × (Has d (lit "path") IsPath
        × (Has d (lit "query") IsQuery
            × Has d (lit "source") λ source. Has d (lit "authority") λ authority.
              Has d (lit "method")
                λ method. Has d (lit "body") (SourceRule source authority method)))

-- a step that compares a field with a string
then_text :
    {Q : Type 0} {next : Result (Unit {0})} (d : Fields) (k t : Text) (message : String)
    → (next ≡ ok tt) ↔ Q
    → ((item k d >>= λ v. require (is_text t v) message >> next) ≡ ok tt) ↔ (HasText d k t × Q)
then_text d k t message h =
    iff_trans
      (bind_iff (item k d) _ (item_iff k d)
        λ v. then_iff _ _ (iff_trans (require_iff (is_text t v) _) (is_text_iff t v)) h)
      (λ (v, e, (same_text, q)). (e ∙ ap some same_text, q), λ (e, q). (str t, e, (refl, q)))

SourceRule-OneOf : (s a m b : Value) → SourceRule s a m b → OneOf s sources
SourceRule-OneOf s a m b r = elim r [
  | inl x ↦ inl x.0
  | inr (inl x) ↦ inr (inl x.0)
  | inr (inr (inl x)) ↦ inr (inr (inl x.0))
  | inr (inr (inr x)) ↦ inr (inr (inr (inl x.0)))
]

-- A request is accepted exactly when it is an object of the expected keys with an absolute path, a
-- canonical query, and the authority, method and body that its source asks for.
pub validate_request_v1_iff :
    (v : Value) → (validate_request_v1 v ≡ ok tt) ↔ Document request_keys IsRequest v
unfolding validate_request_v1
validate_request_v1_iff v =
    bind_iff (require_exact_object v request_keys) _ (require_exact_object_iff v request_keys) λ d.
      iff_trans
        (then_text d (lit "schema") (lit "gvn-request-v1") _ (
          bind_iff (item (lit "source") d) _ (item_iff (lit "source") d) λ source.
            then_iff _ _
              (iff_trans (require_iff (is_one_of source sources) _) (is_one_of_iff source sources))
              (bind_iff (item (lit "path") d) _ (item_iff (lit "path") d) λ path.
                then_iff _ _
                  (iff_trans (require_iff (is_request_path (text path)) _)
                    (is_request_path_iff path))
                  (bind_iff (item (lit "query") d) _ (item_iff (lit "query") d) λ query.
                    then_iff _ _ (check_query_iff query) (
                      bind_iff (item (lit "authority") d) _ (item_iff (lit "authority") d)
                        λ authority.
                          bind_iff (item (lit "method") d) _ (item_iff (lit "method") d) λ method.
                            bind_iff {Q = λ body. check_source source authority method body ≡ ok tt}
                              (item (lit "body") d) _ (item_iff (lit "body") d)
                              λ body. (λ h. h, λ h. h))))))
        (
          λ (
            schema,
            (
              source,
              es,
              (
                member,
                (
                  path,
                  ep,
                  (is_path, (query, eq, (is_query, (authority, ea, (method, em, (body, eb, h)))))),
                ),
              ),
            ),
          ).
              (
                schema,
                (
                  (path, ep, is_path),
                  (
                    (query, eq, is_query),
                    (
                      source,
                      es,
                      (
                        authority,
                        ea,
                        (
                          method,
                          em,
                          (body, eb, (check_source_iff source authority method body member).0 h),
                        ),
                      ),
                    ),
                  ),
                ),
              ),
          λ (
            schema,
            (
              (path, ep, is_path),
              ((query, eq, is_query), (source, es, (authority, ea, (method, em, (body, eb, r))))),
            ),
          ).
              let member = SourceRule-OneOf source authority method body r in
              (
                schema,
                (
                  source,
                  es,
                  (
                    member,
                    (
                      path,
                      ep,
                      (
                        is_path,
                        (
                          query,
                          eq,
                          (
                            is_query,
                            (
                              authority,
                              ea,
                              (
                                method,
                                em,
                                (
                                  body,
                                  eb,
                                  (check_source_iff source authority method body member).1 r,
                                ),
                              ),
                            ),
                          ),
                        ),
                      ),
                    ),
                  ),
                ),
              ),
        )
