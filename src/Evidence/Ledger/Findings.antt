-- ===== src/Evidence/Ledger/Findings.antt =====
-- Which findings pass the checks before the branches on the status.
use qing_yin.Prelude.{
  ==_iff, All, Bool, List, Option, [], and_true, any, ap, arith, contains, false, inl, inr, none,
  not, ok, refl, same_iff, some, subst, sym, true, ◌&&◌, ◌++◌, ◌==◌, ◌||◌, ◌↔◌, ◌∙◌, ◌∷◌, ◌≡◌, ◌⊎◌,
}
use qing_yin.Prelude.Checks.{
  and_iff, bind_iff, branch_iff, each_iff, iff_trans, ok_iff, or_iff, require_iff, then_iff,
}
use qing_yin.Text.{Text, lit}
use qing_yin.Json.{Fields, Value, item, str}
use qing_yin.Regex.Language.{Denotes, fullmatch_iff}
use qing_yin.Shape.{some_or_fail, some_or_raise, text}
use qing_yin.Shape.Digests.{Has, HasText, is_text_iff, item_iff}
use qing_yin.Shape.Named.{some_iff, some_text_iff}
use qing_yin.Evidence.Attestation.{require_item, sorted_strings}
use qing_yin.Evidence.Attestation.Accepted.{IsSortedStrings, require_item_iff, sorted_strings_iff}
use qing_yin.Evidence.Access.Read.{some_or_raise_iff}
use qing_yin.Evidence.Bodies.{is_stripped}
use qing_yin.Evidence.Bindings.Bound.{raise_text_iff}
use qing_yin.Evidence.Inventory.{after_prefix, lookup}
use qing_yin.Evidence.Request.Sources.{OneOf, is_one_of_iff}
use qing_yin.Evidence.Ledger.{
  forbidden_scope_terms, one_time_residual_ids, residual_ids, residual_scopes,
}
use qing_yin.Evidence.Ledger.Shape.{
  Context, a_string, a_trimmed_string, check_fields, check_fixed_scope, check_open_scope,
  check_scope, finding_id_pattern, has_part, known_status, occurs, read_id, second, severities,
  severity_of, split_on, starts, statuses, text_fields,
}

pub after_prefix_iff :
    (prefix s rest : Text) → (after_prefix prefix s ≡ some rest) ↔ (s ≡ prefix ++ rest)
unfolding after_prefix
after_prefix_iff [] s rest = (λ h. cc, λ h. cc)
after_prefix_iff (c ∷ cs) [] rest = (λ h. cc, λ h. cc)
after_prefix_iff (c ∷ cs) (d ∷ s) rest = ground (arith, after_prefix_iff cs s rest)

starts_iff : (term s : Text) → (starts term s ≡ true) ↔ ((rest : Text) × (s ≡ term ++ rest))
starts_iff [] s = (λ h. (s, refl), λ h. refl)
starts_iff (c ∷ cs) [] = (λ h. cc, λ (rest, e). cc)
starts_iff (c ∷ cs) (d ∷ s) = (
  λ h.
      let (e, k) = and_true (c == d) (starts cs s) h in
      let (rest, eq) = (starts_iff cs s).0 k in let heads : c ≡ d = (==_iff c d).0 e in (rest, cc),
  λ (rest, e).
      let heads : d ≡ c = cc in
      let tails : s ≡ cs ++ rest = cc in
      and_intro (c == d) (starts cs s) ((==_iff c d).1 (sym heads))
        ((starts_iff cs s).1 (rest, tails)),
)
  where
    and_intro : (a b : Bool) → a ≡ true → b ≡ true → (a && b) ≡ true
    and_intro true b p q = q
    and_intro false b p q = cc

-- the term is a part of the text
abbrev pub Mentions : Text → Text → Type 0
Mentions term s = (before : Text) × (after : Text) × (s ≡ before ++ (term ++ after))

occurs_iff : (term s : Text) → (occurs term s ≡ true) ↔ Mentions term s
occurs_iff term [] =
    iff_trans (starts_iff term [])
      ((λ (rest, e). ([], rest, e)), λ (before, after, e). at_end before after e)
  where
    at_end :
        (before after : Text)
        → [] ≡ before ++ (term ++ after)
        → ((rest : Text) × ([] ≡ term ++ rest))
    at_end [] after e = (after, e)
    at_end (c ∷ before) after e = absurd cc
occurs_iff term (c ∷ s) = iff_trans (or_iff _ _ (starts_iff term (c ∷ s)) (occurs_iff term s)) (
  λ h. elim h [
    | inl (rest, e) ↦ ([], rest, e)
    | inr (before, after, e) ↦ (c ∷ before, after, ap (λ t. c ∷ t) e)
  ],
  λ (before, after, e). here before after e,
)
  where
    here :
        (before after : Text)
        → (c ∷ s) ≡ before ++ (term ++ after)
        → ((rest : Text) × ((c ∷ s) ≡ term ++ rest)) ⊎ Mentions term s
    here [] after e = inl (after, e)
    here (d ∷ before) after e = inr (before, after, cc)

false_iff : {P : Type 0} (b : Bool) → (b ≡ true) ↔ P → (not b ≡ true) ↔ (P → ⊥)
false_iff true f = (λ h. cc, λ h. absurd (h (f.0 refl)))
false_iff false f = (λ h p. cc (f.1 p), λ h. refl)

-- no term of the list is a part of the text
unmentioned_iff :
    (terms : List Text) (s : Text)
    → (not (any (λ term. occurs term s) terms) ≡ true) ↔ All (λ term. Mentions term s → ⊥) terms
unmentioned_iff [] s = (λ h. tt, λ h. refl)
unmentioned_iff (t ∷ ts) s =
    iff_trans (not_or _ _)
      (and_iff _ _ (false_iff (occurs t s) (occurs_iff t s)) (unmentioned_iff ts s))
  where
    not_or : (a b : Bool) → (not (a || b) ≡ true) ↔ ((not a && not b) ≡ true)
    not_or true b = (λ h. h, λ h. h)
    not_or false b = (λ h. h, λ h. h)

-- a residual of the decision with its owner and scope
abbrev pub HasFixedScope : Fields → Text → Type 0
HasFixedScope d id = Has d (lit "owner") (λ owner. Has d (lit "scope") (λ scope.
    (expected : Text) × (lookup id residual_scopes ≡ some expected)
    × ((owner ≡ str (lit "ZhangIvan")) × (scope ≡ str expected))))

check_fixed_scope_iff :
    (d : Fields) (id : Text) → (check_fixed_scope d id ≡ ok tt) ↔ HasFixedScope d id
unfolding check_fixed_scope
check_fixed_scope_iff d id = bind_iff (item (lit "owner") d) _ (item_iff (lit "owner") d) λ owner.
    bind_iff (item (lit "scope") d) _ (item_iff (lit "scope") d) λ scope.
      bind_iff (some_or_raise (lookup id residual_scopes) "KeyError") _
        (some_or_raise_iff (lookup id residual_scopes) "KeyError")
        λ expected.
          iff_trans (require_iff _ _)
            (and_iff _ _ (is_text_iff (lit "ZhangIvan") owner) (is_text_iff expected scope))

-- a scope within the repository that mentions nothing forbidden
abbrev pub HasOpenScope : Context → Fields → Type 0
HasOpenScope x d = Has d (lit "scope") (λ scope.
    (s : Text) × (scope ≡ str s)
    × ((rest : Text) × (s ≡ lit "repository-only: " ++ rest)
        × All (λ term. Mentions term (x.casefold rest) → ⊥) forbidden_scope_terms))

check_open_scope_iff :
    (x : Context) (d : Fields) → (check_open_scope x d ≡ ok tt) ↔ HasOpenScope x d
unfolding check_open_scope
check_open_scope_iff x d = bind_iff (item (lit "scope") d) _ (item_iff (lit "scope") d) λ scope.
    bind_iff (some_or_raise (text scope) "AttributeError") _ (raise_text_iff scope "AttributeError")
      λ s.
        bind_iff (some_or_fail (after_prefix (lit "repository-only: ") s) _) _
          (λ rest.
            iff_trans (some_iff (after_prefix (lit "repository-only: ") s) _ rest)
              (after_prefix_iff (lit "repository-only: ") s rest))
          λ rest.
            iff_trans (require_iff _ _) (unmentioned_iff forbidden_scope_terms (x.casefold rest))

abbrev pub IsScoped : Context → Fields → Text → Type 0
IsScoped x d id =
    ((contains id residual_ids ≡ true) × HasFixedScope d id)
    ⊎ (((contains id residual_ids ≡ true) → ⊥) × HasOpenScope x d)

check_scope_iff :
    (x : Context) (d : Fields) (id : Text) → (check_scope x d id ≡ ok tt) ↔ IsScoped x d id
unfolding check_scope
check_scope_iff x d id =
    branch_iff (contains id residual_ids) _ _ (λ h. h, λ h. h) (check_fixed_scope_iff d id)
      (check_open_scope_iff x d)

-- the part of the id behind its first dash is the severity
abbrev pub NamesSeverity : Text → Value → Type 0
NamesSeverity id v = (t : Text) × (second (split_on b'-' id) ≡ some t) × (v ≡ str t)

has_part_iff :
    (v : Value) (part : Option Text)
    → (has_part v part ≡ true) ↔ ((t : Text) × (part ≡ some t) × (v ≡ str t))
has_part_iff v none = (λ h. cc, λ (t, e, h). cc)
has_part_iff v (some t) =
    iff_trans (is_text_iff t v) (λ e. (t, refl, e), λ (u, e, h). h ∙ ap str cc)

abbrev pub IsSeverity : Text → Value → Type 0
IsSeverity id v = OneOf v severities × NamesSeverity id v

severity_of_iff : (id : Text) (v : Value) → (severity_of id v ≡ ok tt) ↔ IsSeverity id v
severity_of_iff id v =
    then_iff _ _ (iff_trans (require_iff _ _) (is_one_of_iff v severities))
      (iff_trans (require_iff _ _) (has_part_iff v (second (split_on b'-' id))))

abbrev pub IsString : Value → Type 0
IsString v = (s : Text) × (v ≡ str s)

a_string_iff : (v : Value) → (a_string v ≡ ok tt) ↔ IsString v
unfolding text
a_string_iff (str s) = (λ h. (s, refl), λ h. refl)
a_string_iff _ = (λ h. cc, λ (s, e). cc)

abbrev pub IsTrimmedString : Value → Type 0
IsTrimmedString v = (s : Text) × (v ≡ str s) × (is_stripped s ≡ true)

a_trimmed_string_iff : (v : Value) → (a_trimmed_string v ≡ ok tt) ↔ IsTrimmedString v
unfolding text
a_trimmed_string_iff (str s) =
    iff_trans (require_iff _ _)
      (λ h. (s, refl, h), λ (t, e, h). let equal : s ≡ t = cc in rw equal h)
a_trimmed_string_iff _ = (λ h. cc, λ (s, e, h). cc)

-- An ordinary target carries no one-time residual.
abbrev pub IsCarried : Context → Text → Type 0
IsCarried x id =
    ((x.target_type ≡ lit "ordinary") → ⊥) ⊎ ((contains id one_time_residual_ids ≡ true) → ⊥)

-- the fields of a finding with this id
abbrev pub IsFinding : Context → Fields → Text → Type 0
IsFinding x d id =
    Has d (lit "severity") (IsSeverity id)
    × (Has d (lit "status") (λ v. OneOf v statuses)
        × (IsCarried x id
            × (All (λ k. Has d k IsString) text_fields
                × (All (λ k. Has d k IsTrimmedString) text_fields
                    × (IsScoped x d id × Has d (lit "invalidators") IsSortedStrings)))))

pub check_fields_iff :
    (x : Context) (d : Fields) (id : Text) → (check_fields x d id ≡ ok tt) ↔ IsFinding x d id
unfolding check_fields
check_fields_iff x d id =
    then_iff _ _ (require_item_iff d (severity_of id) (lit "severity") (severity_of_iff id)) (
      then_iff _ _
        (require_item_iff d known_status (lit "status")
          λ v. iff_trans (require_iff _ _) (is_one_of_iff v statuses))
        (then_iff _ _
          (iff_trans (require_iff _ _) (
            or_iff _ _ (false_iff _ (same_iff x.target_type (lit "ordinary")))
              (false_iff (contains id one_time_residual_ids) (λ h. h, λ h. h))))
          (then_iff _ _
            (each_iff (require_item d a_string) (λ k. require_item_iff d a_string k a_string_iff)
              text_fields)
            (then_iff _ _
              (each_iff (require_item d a_trimmed_string)
                (λ k. require_item_iff d a_trimmed_string k a_trimmed_string_iff) text_fields)
              (then_iff _ _ (check_scope_iff x d id)
                (require_item_iff d sorted_strings (lit "invalidators") sorted_strings_iff))))))

-- the id matches its pattern as a whole
abbrev pub HasId : Fields → Text → Type 0
HasId d id = HasText d (lit "id") id × Denotes (λ c. false) finding_id_pattern none id []

pub read_id_iff : (d : Fields) (id : Text) → (read_id d ≡ ok id) ↔ HasId d id
unfolding read_id
read_id_iff d id =
    iff_trans
      (bind_iff (item (lit "id") d) _ (item_iff (lit "id") d) λ v.
        bind_iff (some_or_fail (text v) _) _ (some_text_iff v _) λ t.
          then_iff _ _
            (iff_trans (require_iff _ _) (fullmatch_iff (λ c. false) finding_id_pattern t))
            (ok_iff t id))
      (
        λ (v, e, (t, h, (m, same_text))). subst (HasId d) same_text (e ∙ ap some h, m),
        λ (e, m). (str id, e, (id, refl, (m, refl))),
      )
