-- ===== src/Evidence/Sequence/Window.antt =====
-- What `validate_evidence_sequence` of scripts/validate_governance_state.py asks of a
-- merge-ready sequence and of its stable window.
use qing_yin.Prelude.{
  All, Bool, List, Option, String, [], ap, contains, leb→le, le→leb, map, ok, refl, same, same_iff,
  some, sym, true, ◌+◌, ◌↔◌, ◌∙◌, ◌∷◌, ◌≡◌, ◌≤◌,
}
use qing_yin.Prelude.Checks.{bind_iff, each_iff, iff_trans, require_iff, self_iff, then_iff}
use qing_yin.Text.{Text, lit}
use qing_yin.Platform.{Platform}
use qing_yin.Json.{Fields, Value, get, is_null, item, null, obj, str}
use qing_yin.Json.Canonical.{canonical_json_v1}
use qing_yin.Json.Equality.{eq_value}
use qing_yin.Timestamp.{Stamp}
use qing_yin.Timestamp.Printing.{IsStamp, print_stamp}
use qing_yin.Shape.{dict, some_or_raise}
use qing_yin.Shape.Digests.{Has, item_iff}
use qing_yin.Evidence.Access.Read.{At, Same, SameForm, raise_dict_iff, strptime_iff, subscript_iff}
use qing_yin.Evidence.Attestation.{require_item}
use qing_yin.Evidence.Attestation.Accepted.{require_item_iff}
use qing_yin.Evidence.Ledger.{
  derive_evidence_target_type, one_time_target_types, require_merge_ready_freshness,
}
use qing_yin.Evidence.Sequence.{
  are_phases, check_window, constant_fields, manifest_item, not_null, require_complete,
  require_ready, require_same_item, snapshot_cutoff, window_phases,
}
use qing_yin.Evidence.Sequence.Instants.{total_seconds}

-- the two items have one canonical form
abbrev pub SameItem : Platform → Fields → Fields → Text → Type 0
SameItem p d e key = Has d key (λ v. Has e key (SameForm p v))

pub require_same_item_iff :
    (p : Platform) (d e : Fields) (message : String) (key : Text)
    → (require_same_item p d e message key ≡ ok tt) ↔ SameItem p d e key
unfolding require_same_item
require_same_item_iff p d e message key =
    iff_trans
      (bind_iff (item key d) _ (item_iff key d) λ v.
        bind_iff (canonical_json_v1 p v) _ (self_iff (canonical_json_v1 p v)) λ x.
          bind_iff (item key e) _ (item_iff key e) λ w.
            bind_iff (canonical_json_v1 p w) _ (self_iff (canonical_json_v1 p w))
              λ y. iff_trans (require_iff (same x y) message) (same_iff x y))
      (
        λ (v, gv, (x, cx, (w, gw, (y, cy, e)))). (v, gv, (w, gw, (x, cx, cy ∙ ap ok (sym e)))),
        λ (v, gv, (w, gw, (x, cx, cy))). (v, gv, (x, cx, (w, gw, (x, cy, refl)))),
      )

-- the value of the manifest at a key
abbrev pub ManifestAt : Text → Fields → Value → Type 0
ManifestAt key evidence v = (m : Value) × (get (lit "manifest") evidence ≡ some m) × At key m v

pub manifest_item_iff :
    (key : Text) (evidence : Fields) (v : Value)
    → (manifest_item key evidence ≡ ok v) ↔ ManifestAt key evidence v
unfolding manifest_item
manifest_item_iff key evidence v =
    bind_iff (item (lit "manifest") evidence) _ (item_iff (lit "manifest") evidence)
      λ m. subscript_iff key m v

-- the instant at which the snapshot was taken
abbrev pub TakenAt : Fields → Stamp → Type 0
TakenAt evidence s =
    (v : Value) × ManifestAt (lit "snapshot_cutoff_utc") evidence v
    × ((v ≡ str (print_stamp s)) × IsStamp s)

pub snapshot_cutoff_iff :
    (evidence : Fields) (s : Stamp) → (snapshot_cutoff evidence ≡ ok s) ↔ TakenAt evidence s
unfolding snapshot_cutoff
snapshot_cutoff_iff evidence s =
    bind_iff (manifest_item (lit "snapshot_cutoff_utc") evidence) _
      (manifest_item_iff (lit "snapshot_cutoff_utc") evidence) λ v. strptime_iff v s

not_null_iff : (v : Value) → (not_null v ≡ ok tt) ↔ ((v ≡ null) → ⊥)
unfolding is_null
not_null_iff null = (λ h. cc, λ h. absurd (h refl))
not_null_iff _ = (λ h e. cc, λ h. refl)

abbrev pub IsComplete : Fields → Type 0
IsComplete d =
    All (λ k. Has d k (λ v. (v ≡ null) → ⊥))
      (map lit ("attestation" ∷ "publication_delta" ∷ "manifest" ∷ []))

require_complete_iff : (d : Fields) → (require_complete d ≡ ok tt) ↔ IsComplete d
unfolding require_complete
require_complete_iff d =
    each_iff (require_item d not_null) (λ k. require_item_iff d not_null k not_null_iff) _

-- a window with context whose target needs no freshness receipt, and complete packages
abbrev pub IsReady : Bool → Option Text → Fields → List Fields → List Value → Type 0
IsReady has_context authorized first packages phases =
    (has_context ≡ true)
    × ((are_phases window_phases phases ≡ true)
        × Has first (lit "pre_attestation") (λ pre.
          (root : Fields) × (pre ≡ obj root)
          × ((target_type : Text) × (derive_evidence_target_type first root authorized
                ≡ ok target_type)
              × ((contains target_type one_time_target_types ≡ true) × All IsComplete packages))))

pub require_ready_iff :
    (has_context : Bool) (authorized : Option Text) (first : Fields) (packages : List Fields)
    (phases : List Value)
    → (require_ready has_context authorized first packages phases ≡ ok tt)
      ↔ IsReady has_context authorized first packages phases
unfolding require_ready require_merge_ready_freshness
require_ready_iff has_context authorized first packages phases =
    then_iff _ _ (require_iff has_context _) (
      then_iff _ _ (require_iff (are_phases window_phases phases) _) (
        bind_iff (item (lit "pre_attestation") first) _ (item_iff (lit "pre_attestation") first)
          λ pre.
            bind_iff (some_or_raise (dict pre) "TypeError") _ (raise_dict_iff pre "TypeError")
              λ root.
                bind_iff (derive_evidence_target_type first root authorized) _
                  (self_iff (derive_evidence_target_type first root authorized))
                  λ target_type.
                    then_iff _ _ (require_iff (contains target_type one_time_target_types) _)
                      (each_iff require_complete require_complete_iff packages)))

-- the same evidence twice, 600 seconds apart or more
abbrev pub IsWindow : Platform → Fields → Fields → Type 0
IsWindow p start end_ =
    All (SameItem p start end_) constant_fields
    × (SameItem p start end_ (lit "snapshot_endpoint_bundles")
        × ((v : Value) × ManifestAt (lit "component_digests") start v
            × ((w : Value) × ManifestAt (lit "component_digests") end_ w
                × (Same v w
                    × ((s : Stamp) × TakenAt start s
                        × ((t : Stamp) × TakenAt end_ t
                            × (total_seconds s + 600 ≤ total_seconds t)))))))

pub check_window_iff :
    (p : Platform) (start end_ : Fields)
    → (check_window p start end_ ≡ ok tt) ↔ IsWindow p start end_
unfolding check_window
check_window_iff p start end_ =
    then_iff _ _
      (each_iff (require_same_item p start end_ _) (λ k. require_same_item_iff p start end_ _ k)
        constant_fields)
      (then_iff _ _ (require_same_item_iff p start end_ _ _) (
        bind_iff (manifest_item (lit "component_digests") start) _
          (manifest_item_iff (lit "component_digests") start)
          λ v.
            bind_iff (manifest_item (lit "component_digests") end_) _
              (manifest_item_iff (lit "component_digests") end_)
              λ w. then_iff _ _ (require_iff (eq_value v w) _) (
                bind_iff (snapshot_cutoff start) _ (snapshot_cutoff_iff start) λ s.
                  bind_iff (snapshot_cutoff end_) _ (snapshot_cutoff_iff end_)
                    λ t. iff_trans (require_iff _ _) (leb→le _ _, le→leb _ _))))
