-- ===== src/Json/Canonical/Order.antt =====
-- The canonical form of a dict does not depend on the order of its items.
use mathlib.Core.List.{Mem, Perm, mem-map_of_mem}
use mathlib.Core.List.Perm
use text.Mathlib.TextEquality.{IsScalar-prop}
use qing_yin.Prelude.{
  ◌≡◌, refl, ap, subst, true, false, any, List, ◌∷◌, map, ok, require-eq-ok, bind-eq-ok, each,
}
use qing_yin.Prelude.Order.{lex_order, nat_order}
use qing_yin.Prelude.Sort.{KeyInjective, sorted_by-perm_eq}
use qing_yin.Prelude.Membership.{
  distinct, distinct→Nodup, distinct-perm, member_of_image, each→mem, each-perm,
}
use qing_yin.Text.{Text, Bytes, IsText, is_surrogate}
use qing_yin.Text.Utf16.{utf16_be-injective}
use qing_yin.Platform.{Platform}
use qing_yin.Json.{str, obj, Fields, end, field, entries, keys}
use qing_yin.Json.Scalar.{validate_scalar, validate_scalar_iff}
use qing_yin.Json.Canonical.{
  Rendered, sort_key, canonical_object, canonical_json_v1, canonical_fields,
}

Rendered-set : IsSet Rendered
Rendered-set = hlevel IsScalar-prop

-- What the guards before the sort establish of the items.
record Guarded (p : Platform) (fields : List Rendered) : Type 0 where
  normal : distinct (map (λ e. p.nfc e.0) fields) ≡ true
  scalars : each (λ e. validate_scalar p (str e.0)) fields ≡ ok tt

guards : (p : Platform) (l : List Rendered) {b : Bytes} → canonical_object p l ≡ ok b → Guarded p l
unfolding canonical_object
guards p l h =
    let first = require-eq-ok (distinct (map (λ e. p.nfc e.0) l)) _ _ h in
    record {
      normal = first.0;
      scalars = (bind-eq-ok (each (λ e. validate_scalar p (str e.0)) l) _ first.1).1;
    }

Guarded-KeyInjective :
    (p : Platform) (l : List Rendered)
    → Guarded p l
    → ((e : Rendered) → Mem e l → IsText e.0)
    → KeyInjective sort_key l
Guarded-KeyInjective p l g texts x y mx my e =
    member_of_image Rendered-set (λ r. p.nfc r.0) l (distinct→Nodup _ g.normal) x y mx my
      (ap p.nfc
        (utf16_be-injective x.0 y.0 (scalar x mx).1 (scalar y my).1 (texts x mx) (texts y my) e))
  where
    scalar : (r : Rendered) → Mem r l → (p.nfc r.0 ≡ r.0) × (any is_surrogate r.0 ≡ false)
    scalar r m = (validate_scalar_iff p (str r.0)).0 (each→mem _ l g.scalars r m)

canonical_object-perm :
    (p : Platform) (l r : List Rendered) {b : Bytes}
    → Perm l r
    → ((e : Rendered) → Mem e l → IsText e.0)
    → canonical_object p l ≡ ok b
    → canonical_object p r ≡ ok b
canonical_object-perm p l r perm texts h =
    let g = guards p l h in
    let same_order = sorted_by-perm_eq sort_key l r perm (Guarded-KeyInjective p l g texts) in
    unfold canonical_object in
    rw
      (
        distinct-perm _ _ (Perm.map (λ e. p.nfc e.0) perm) g.normal,
        each-perm _ l r perm g.scalars,
        ← same_order,
      )
      (rw (g.normal, g.scalars) at h)

canonical_fields-entries :
    (p : Platform) (fs : Fields)
    → canonical_fields p fs ≡ map (λ (k, v). (k, canonical_json_v1 p v)) (entries fs)
unfolding canonical_json_v1
canonical_fields-entries p end = refl
canonical_fields-entries p (field k v fs) =
    ap (◌∷◌ (k, canonical_json_v1 p v)) (canonical_fields-entries p fs)

keys_rendered :
    (p : Platform) (fs : Fields) → map (λ (r : Rendered). r.0) (canonical_fields p fs) ≡ keys fs
unfolding canonical_json_v1
keys_rendered p end = refl
keys_rendered p (field k v fs) = ap (◌∷◌ k) (keys_rendered p fs)

-- Reordering the items of a dict whose keys are valid text leaves its canonical form as it is.
pub canonical_json_v1-perm :
    (p : Platform) (fs gs : Fields) {b : Bytes}
    → Perm (entries fs) (entries gs)
    → ((k : Text) → Mem k (keys fs) → IsText k)
    → canonical_json_v1 p (obj fs) ≡ ok b
    → canonical_json_v1 p (obj gs) ≡ ok b
unfolding canonical_json_v1
canonical_json_v1-perm p fs gs perm texts h =
    canonical_object-perm p (canonical_fields p fs) (canonical_fields p gs)
      (rw (canonical_fields-entries p fs, canonical_fields-entries p gs) (Perm.map _ perm))
      (λ e m.
        texts e.0 (subst (Mem e.0) (keys_rendered p fs) (mem-map_of_mem (λ (r : Rendered). r.0) m)))
      h
