-- ===== src/Design/Accepted.antt =====
-- The trees for which the script exits with 0.
use qing_yin.Prelude.{
  All, Bool-cases, List, Option, Result, String, all, any, ap, arith, contains, err, false, inl,
  inr, invalid, none, ok, ok-injective, raised, refl, require, same, same_iff, some, subst, sym,
  true, ℕ, ◌>>=◌, ◌↔◌, ◌∙◌, ◌≡◌,
}
use qing_yin.Prelude.Checks.{bind_iff, each_iff, iff_trans, require_iff, then_iff}
use qing_yin.Text.{Text, lit}
use qing_yin.Json.{
  Fields, Value, arr, elements, end, field, get, get_or_null, is_text, keys, obj, str,
}
use qing_yin.Shape.Digests.{HasText, HasText-of_get_or_null}
use qing_yin.Design.{
  Tree, admin_paths, attribute_get, attribute_get_or_empty, exit_code, get_or_empty, load_yaml,
  main, members, or_empty, require_identity, require_in, required_documents, stream_operations,
  substring, validate_admin_contract, validate_assets, validate_control_contract,
  validate_documents, validate_stream_contract,
}
use qing_yin.Shape.{dict}
use qing_yin.Shape.Named.{some_iff}
use qing_yin.Shape.Exact.{contains→get}

-- a dict under the key, with the text under a key of it
abbrev pub HasInner : Fields → Text → Text → Text → Type 0
HasInner d outer k t = (inner : Fields) × ((get outer d ≡ some (obj inner)) × HasText inner k t)

title_iff :
    (k t : Text) (v : Value) (message : String)
    → ((attribute_get k v >>= λ w. require (is_text t w) message) ≡ ok tt)
      ↔ ((inner : Fields) × ((v ≡ obj inner) × HasText inner k t))
unfolding attribute_get
title_iff k t (obj fs) message = iff_trans (require_iff (is_text t (get_or_null k fs)) message) (
    iff_trans (HasText-of_get_or_null k t fs) (
      λ h. (fs, (refl, h)),
      λ (gs, (e, h)). let equal : fs ≡ gs = cc in subst (λ x. HasText x k t) (sym equal) h,
    ))
title_iff k t _ message = (λ h. cc, λ (gs, (e, h)). cc)

abbrev pub HasIdentity : Fields → Text → Text → Text → Type 0
HasIdentity d key version title =
    HasText d key version × HasInner d (lit "info") (lit "title") title

-- an object that is not the default was given
given_object :
    (o : Option Value) (x : Fields) (k t : Text)
    → or_empty o ≡ obj x
    → HasText x k t
    → o ≡ some (obj x)
unfolding get
given_object none end k t e h = cc
given_object none (field j v fs) k t e h = cc
given_object (some v) x k t e h = ap some e

-- a key of a dict, an item of a list, or a part of a string
abbrev pub Names : Text → Value → Type 0
Names t (obj fs) = (w : Value) × (get t fs ≡ some w)
Names t (arr vs) = any (is_text t) (elements vs) ≡ true
Names t (str s) = substring t s ≡ true
Names t _ = ⊥

get→contains :
    (k : Text) (fs : Fields) (w : Value) → get k fs ≡ some w → contains k (keys fs) ≡ true
unfolding get contains
get→contains k end w h = cc
get→contains k (field j v fs) w h = elim (Bool-cases (same k j)) [
  | inl e ↦ rw e refl
  | inr e ↦
      let other : same j k ≡ false = ground (arith, same_iff j k, same_iff k j) in
      rw (e, get→contains k fs w (rw other at h)) refl
]

require_in_iff :
    (t : Text) (v : Value) (message : String) → (require_in v message t ≡ ok tt) ↔ Names t v
unfolding require_in
require_in_iff t (obj fs) message =
    iff_trans (require_iff (contains t (keys fs)) message)
      (contains→get t fs, λ (w, e). get→contains t fs w e)
require_in_iff t (arr vs) message = require_iff _ message
require_in_iff t (str s) message = require_iff _ message
require_in_iff t _ message = (λ h. cc, λ h. absurd h)

pub inner_title_iff :
    (d : Fields) (outer k t : Text) (message : String)
    → ((attribute_get k (get_or_empty outer d) >>= λ w. require (is_text t w) message) ≡ ok tt)
      ↔ HasInner d outer k t
unfolding get_or_empty
inner_title_iff d outer k t message = iff_trans (title_iff k t (get_or_empty outer d) message) (
  λ (x, (e, h)). (x, (given_object (get outer d) x k t e h, h)),
  λ (x, (e, h)). (x, (ap or_empty e, h)),
)

require_identity_iff :
    (d : Fields) (key version title : Text) (a b : String)
    → (require_identity d key version title a b ≡ ok tt) ↔ HasIdentity d key version title
unfolding require_identity get_or_empty
require_identity_iff d key version title a b =
    then_iff _ _
      (iff_trans (require_iff (is_text version (get_or_null key d)) a)
        (HasText-of_get_or_null key version d))
      (inner_title_iff d (lit "info") (lit "title") title b)

abbrev pub IsControl : Fields → Type 0
IsControl d =
    HasIdentity d (lit "openapi") (lit "3.1.0") (lit "QingYin Control API")
    × (Names (lit "/v1/capabilities") (get_or_empty (lit "paths") d)
        × (Names (lit "/v1/sessions") (get_or_empty (lit "paths") d)
            × Names (lit "/v1/tts/stream") (get_or_empty (lit "paths") d)))

validate_control_contract_iff : (d : Fields) → (validate_control_contract d ≡ ok tt) ↔ IsControl d
unfolding validate_control_contract
validate_control_contract_iff d = then_iff _ _ (require_identity_iff d _ _ _ _ _) (
    then_iff _ _ (require_in_iff _ (get_or_empty (lit "paths") d) _) (
      then_iff _ _ (require_in_iff _ (get_or_empty (lit "paths") d) _)
        (require_in_iff _ (get_or_empty (lit "paths") d) _)))

abbrev pub IsAdmin : Fields → Type 0
IsAdmin d =
    HasIdentity d (lit "openapi") (lit "3.1.0") (lit "QingYin Administration API")
    × (All (λ t. Names t (get_or_empty (lit "paths") d)) admin_paths
        × ((parameters : Value) × (attribute_get_or_empty (lit "parameters")
                (get_or_empty (lit "components") d)
              ≡ ok parameters)
            × (Names (lit "IfMatch") parameters × Names (lit "ChangeReason") parameters)))

validate_admin_contract_iff : (d : Fields) → (validate_admin_contract d ≡ ok tt) ↔ IsAdmin d
unfolding validate_admin_contract
validate_admin_contract_iff d = then_iff _ _ (require_identity_iff d _ _ _ _ _) (
    then_iff _ _ (each_iff _ (λ t. require_in_iff t (get_or_empty (lit "paths") d) _) _) (
      bind_iff (attribute_get_or_empty (lit "parameters") (get_or_empty (lit "components") d)) _
        (λ v. (λ h. h, λ h. h))
        λ parameters. then_iff _ _ (require_in_iff _ parameters _) (require_in_iff _ parameters _)))

abbrev pub IsStream : Fields → Type 0
IsStream d =
    HasIdentity d (lit "asyncapi") (lit "3.0.0") (lit "QingYin Streaming API")
    × ((operations : List Value) × (members (get_or_empty (lit "operations") d) ≡ ok operations)
        × (all (λ t. any (is_text t) operations) stream_operations ≡ true))

validate_stream_contract_iff : (d : Fields) → (validate_stream_contract d ≡ ok tt) ↔ IsStream d
unfolding validate_stream_contract
validate_stream_contract_iff d = then_iff _ _ (require_identity_iff d _ _ _ _ _) (
    bind_iff (members (get_or_empty (lit "operations") d)) _ (λ v. (λ h. h, λ h. h))
      λ operations. require_iff _ _)

-- the file exists and holds a YAML object as described
abbrev pub Contract : Tree → Text → (Fields → Type 0) → Type 0
Contract t path P = (d : Fields) × ((t.is_file path ≡ true) × (t.load path ≡ ok (obj d))) × P d

abbrev pub IsBaseline : Tree → Type 0
IsBaseline t =
    All (λ path. t.is_file path ≡ true) required_documents
    × (Contract t (lit "contracts/openapi/qingyin-control-v1.yaml") IsControl
        × (Contract t (lit "contracts/openapi/qingyin-admin-v1.yaml") IsAdmin
            × Contract t (lit "contracts/asyncapi/qingyin-stream-v1.yaml") IsStream))

dict_iff : (v : Value) (d : Fields) → (dict v ≡ some d) ↔ (v ≡ obj d)
unfolding dict
dict_iff (obj fs) d = (λ h. cc, λ h. cc)
dict_iff _ d = (λ h. cc, λ h. cc)

load_yaml_iff :
    (t : Tree) (path : Text) (d : Fields)
    → (load_yaml t path ≡ ok d) ↔ ((t.is_file path ≡ true) × (t.load path ≡ ok (obj d)))
unfolding load_yaml
load_yaml_iff t path d = then_iff _ _ (require_iff (t.is_file path) _) (
    iff_trans
      (bind_iff (t.load path) _ (λ v. (λ h. h, λ h. h))
        λ v. iff_trans (some_iff (dict v) _ d) (dict_iff v d))
      (λ (v, e, f). e ∙ ap ok f, λ e. (obj d, e, refl)))

exit_code_iff : (m : Result (Unit {0})) → (exit_code m ≡ ok 0) ↔ (m ≡ ok tt)
exit_code_iff (ok u) = (λ h. refl, λ h. refl)
exit_code_iff (err (invalid message)) = (λ h. absurd (one_not_zero (ok-injective 1 0 h)), λ h. cc)
  where
    one_not_zero : Path ℕ 1 0 → ⊥
    one_not_zero h = omega arith
exit_code_iff (err (raised name)) = (λ h. cc, λ h. cc)

-- The script exits with 0 exactly when the required documents exist and the three contracts are YAML
-- objects with their versions, titles and required paths, parameters and operations.
pub main_iff : (t : Tree) → (main t ≡ ok 0) ↔ IsBaseline t
unfolding main
main_iff t = iff_trans (exit_code_iff (validate_assets t)) (
    unfold validate_assets validate_documents in
    then_iff _ _ (each_iff _ (λ path. require_iff (t.is_file path) _) _) (
      iff_trans
        (bind_iff (load_yaml t _) _ (load_yaml_iff t _) λ control.
          then_iff _ _ (validate_control_contract_iff control) (
            bind_iff (load_yaml t _) _ (load_yaml_iff t _) λ admin.
              then_iff _ _ (validate_admin_contract_iff admin)
                (bind_iff (load_yaml t _) _ (load_yaml_iff t _) validate_stream_contract_iff)))
        (
          λ (control, e, (c, (admin, f, (a, s)))). ((control, e, c), ((admin, f, a), s)),
          λ ((control, e, c), ((admin, f, a), s)). (control, e, (c, (admin, f, (a, s)))),
        )))
