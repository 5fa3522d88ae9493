-- ===== src/Evidence/Request/Sources.antt =====
-- The rule of each source of a request.
use qing_yin.Prelude.{
  List, [], inl, inr, map, ok, refl, require, same, subst, sym, true, ◌&&◌, ◌↔◌, ◌∷◌, ◌≡◌, ◌≢◌, ◌⊎◌,
}
use qing_yin.Prelude.Checks.{and_iff, branch_iff, iff_trans, or_iff, require_iff, then_iff}
use qing_yin.Text.{Text, lit}
use qing_yin.Json.{Fields, Items, Value, arr, is_null, is_text, null, obj, str}
use qing_yin.Shape.Digests.{is_null_iff, is_text_iff}
use qing_yin.Evidence.Request.{check_github, check_local, check_source, is_container, is_one_of}

-- an object or an array
abbrev pub IsContainer : Value → Type 0
IsContainer v = ((d : Fields) × (v ≡ obj d)) ⊎ ((xs : Items) × (v ≡ arr xs))

is_container_iff : (v : Value) → (is_container v ≡ true) ↔ IsContainer v
unfolding is_container
is_container_iff (obj d) = (λ h. inl (d, refl), λ s. refl)
is_container_iff (arr xs) = (λ h. inr (xs, refl), λ s. refl)
is_container_iff _ = (λ h. cc, λ s. elim s [ inl x ↦ cc (x.1) | inr x ↦ cc (x.1) ])

-- one of the strings
abbrev pub OneOf : Value → List Text → Type 0
OneOf v [] = ⊥
OneOf v (t ∷ ts) = (v ≡ str t) ⊎ OneOf v ts

pub is_one_of_iff : (v : Value) (ts : List Text) → (is_one_of v ts ≡ true) ↔ OneOf v ts
unfolding is_one_of
is_one_of_iff v [] = (λ h. cc, λ s. absurd s)
is_one_of_iff v (t ∷ ts) =
    or_iff (is_text t v) (is_one_of v ts) (is_text_iff t v) (is_one_of_iff v ts)

-- GitHub: GET without a body, POST and PUT with a JSON body
abbrev pub IsGithub : Value → Value → Value → Type 0
IsGithub authority method body =
    (authority ≡ str (lit "api.github.com"))
    × (OneOf method (map lit ("GET" ∷ "POST" ∷ "PUT" ∷ []))
        × (((method ≡ str (lit "GET")) × (body ≡ null))
            ⊎ ((method ≢ str (lit "GET")) × IsContainer body)))

check_github_iff :
    (authority method body : Value)
    → (check_github authority method body ≡ ok tt) ↔ IsGithub authority method body
unfolding check_github
check_github_iff authority method body =
    then_iff _ _
      (iff_trans (require_iff _ "GitHub request authority mismatch") (is_text_iff _ authority))
      (then_iff _ _
        (iff_trans
          (require_iff (is_one_of method (map lit ("GET" ∷ "POST" ∷ "PUT" ∷ [])))
            "GitHub request method invalid")
          (is_one_of_iff method (map lit ("GET" ∷ "POST" ∷ "PUT" ∷ []))))
        (branch_iff (is_text (lit "GET") method) _ _ (is_text_iff (lit "GET") method)
          (iff_trans (require_iff _ "GET request body must be null") (is_null_iff body))
          (iff_trans (require_iff _ "POST/PUT request body preimage must be embedded JSON")
            (is_container_iff body))))

-- every other source has one authority and one method
abbrev pub IsLocal : Text → Text → Value → Value → Type 0
IsLocal a m authority method = (authority ≡ str a) × (method ≡ str m)

authority_iff :
    (a m : Text) (authority method : Value)
    → (require (is_text a authority && is_text m method) "request authority/method mismatch"
        ≡ ok tt)
      ↔ IsLocal a m authority method
authority_iff a m authority method = iff_trans (require_iff _ "request authority/method mismatch") (
    and_iff (is_text a authority) (is_text m method) (is_text_iff a authority)
      (is_text_iff m method))

abbrev pub github : Value
github = str (lit "github-api")

abbrev pub git : Value
git = str (lit "git")

abbrev pub agent : Value
agent = str (lit "agent")

abbrev pub derived : Value
derived = str (lit "derived")

module _ (authority method body : Value) where
  check_source-github :
      (check_source github authority method body ≡ ok tt) ↔ IsGithub authority method body
  unfolding check_source is_text lit same
  check_source-github = check_github_iff authority method body

  check_source-git :
      (check_source git authority method body ≡ ok tt)
      ↔ (IsLocal (lit "ZhangIvan/QingYin") (lit "READ") authority method × (body ≡ null))
  unfolding check_source is_text lit same check_local is_one_of
  check_source-git =
      then_iff _ _ (authority_iff (lit "ZhangIvan/QingYin") (lit "READ") authority method)
        (iff_trans (require_iff (is_null body) "request body must be null") (is_null_iff body))

  check_source-agent :
      (check_source agent authority method body ≡ ok tt)
      ↔ (IsLocal (lit "codex-orchestrator") (lit "READ") authority method × (body ≡ null))
  unfolding check_source is_text lit same check_local is_one_of
  check_source-agent =
      then_iff _ _ (authority_iff (lit "codex-orchestrator") (lit "READ") authority method)
        (iff_trans (require_iff (is_null body) "request body must be null") (is_null_iff body))

  check_source-derived :
      (check_source derived authority method body ≡ ok tt)
      ↔ (IsLocal (lit "local") (lit "DERIVE") authority method × IsContainer body)
  unfolding check_source is_text lit same check_local is_one_of
  check_source-derived =
      then_iff _ _ (authority_iff (lit "local") (lit "DERIVE") authority method) (
        iff_trans
          (require_iff (is_container body) "derived request body must embed its canonical input")
          (is_container_iff body))

-- the sources with their rules
abbrev pub SourceRule : Value → Value → Value → Value → Type 0
SourceRule source authority method body =
    ((source ≡ github) × IsGithub authority method body)
    ⊎ ((source ≡ git)
        × (IsLocal (lit "ZhangIvan/QingYin") (lit "READ") authority method × (body ≡ null)))
    ⊎ ((source ≡ agent)
        × (IsLocal (lit "codex-orchestrator") (lit "READ") authority method × (body ≡ null)))
    ⊎ ((source ≡ derived)
        × (IsLocal (lit "local") (lit "DERIVE") authority method × IsContainer body))

abbrev pub sources : List Text
sources = map lit ("github-api" ∷ "git" ∷ "agent" ∷ "derived" ∷ [])

-- For each of the four sources, the check passes exactly by the rule of the source.
pub check_source_iff :
    (source authority method body : Value)
    → OneOf source sources
    → (check_source source authority method body ≡ ok tt) ↔ SourceRule source authority method body
check_source_iff source authority method body member = (
  λ h. elim member [
    | inl e ↦ inl (e, (check_source-github authority method body).0 (passes e h))
    | inr (inl e) ↦ inr (inl (e, (check_source-git authority method body).0 (passes e h)))
    | inr (inr (inl e)) ↦
        inr (inr (inl (e, (check_source-agent authority method body).0 (passes e h))))
    | inr (inr (inr (inl e))) ↦
        inr (inr (inr (e, (check_source-derived authority method body).0 (passes e h))))
    | inr (inr (inr (inr e))) ↦ absurd e
  ],
  λ s. elim s [
    | inl x ↦ passes (sym x.0) ((check_source-github authority method body).1 x.1)
    | inr (inl x) ↦ passes (sym x.0) ((check_source-git authority method body).1 x.1)
    | inr (inr (inl x)) ↦ passes (sym x.0) ((check_source-agent authority method body).1 x.1)
    | inr (inr (inr x)) ↦ passes (sym x.0) ((check_source-derived authority method body).1 x.1)
  ],
)
  where
    passes :
        {s t : Value}
        → s ≡ t
        → check_source s authority method body ≡ ok tt
        → check_source t authority method body ≡ ok tt
    passes e h = subst (λ w. check_source w authority method body ≡ ok tt) e h
