-- ===== src/Tests/Target.antt =====
-- The evidence of an activation, with the theorem on its target.
use qing_yin.Prelude.{[], none, ok, refl, replicate, same, some, ◌↔◌, ◌∷◌, ◌≡◌}
use qing_yin.Prelude.Int.{pos}
use qing_yin.Text.{lit}
use qing_yin.Json.{Fields, Value, get, get_or_null, int, is_null, item, null, obj, str}
use qing_yin.Shape.Digests.{Has}
use qing_yin.Evidence.Ledger.{derive_evidence_target_type}
use qing_yin.Evidence.Ledger.Target.{HasTarget, derive_evidence_target_type_iff}
use qing_yin.Tests.Publication.{fields_of}
use qing_yin.Integer.{require_positive_int}
use qing_yin.Json.Equality.{eq_value}

abbrev activation_root : Fields
activation_root = fields_of (
    ("pr_number", int (pos 20))
    ∷ ("candidate_head", str (replicate 40 b'a'))
    ∷ ("candidate_tree", str (replicate 40 b'b'))
    ∷ [])

abbrev activation_binding : Value
activation_binding = obj (
    fields_of (
      ("activation_evidence_pr", int (pos 20))
      ∷ ("activation_candidate_head", str (replicate 40 b'a'))
      ∷ ("activation_candidate_tree", str (replicate 40 b'b'))
      ∷ []))

abbrev activation_evidence : Fields
activation_evidence = fields_of (("activation_binding", activation_binding) ∷ [])

activation_target :
    derive_evidence_target_type activation_evidence activation_root
      (some (lit "activation-evidence"))
    ≡ ok (lit "activation-evidence")
unfolding derive_evidence_target_type same lit item get require_positive_int get_or_null eq_value
activation_target = refl

ordinary_target :
    derive_evidence_target_type (fields_of (("activation_binding", null) ∷ [])) activation_root none
    ≡ ok (lit "ordinary")
unfolding derive_evidence_target_type item get same lit is_null eq_value
ordinary_target = refl

derive_evidence_target_type_iff_example :
    (derive_evidence_target_type activation_evidence activation_root
        (some (lit "activation-evidence"))
      ≡ ok (lit "activation-evidence"))
    ↔ Has activation_evidence (lit "activation_binding") (λ v.
      HasTarget activation_root v (some (lit "activation-evidence")) (lit "activation-evidence"))
derive_evidence_target_type_iff_example =
    derive_evidence_target_type_iff activation_evidence activation_root
      (some (lit "activation-evidence")) (lit "activation-evidence")
