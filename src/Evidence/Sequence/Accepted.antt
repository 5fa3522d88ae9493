-- ===== src/Evidence/Sequence/Accepted.antt =====
-- Which sequences of validated packages `validate_evidence_sequence` of
-- scripts/validate_governance_state.py accepts.
use qing_yin.Prelude.{All, List, String, [], ok, refl, some, traverse, true, ◌↔◌, ◌∷◌, ◌≡◌, ◌⊎◌}
use qing_yin.Prelude.Checks.{
  Pointwise, and_iff, bind_iff, branch_iff, each_iff, iff_trans, or_iff, require_iff, then_iff,
  traverse_iff,
}
use qing_yin.Text.{lit}
use qing_yin.Platform.{Platform}
use qing_yin.Json.{Fields, Value, get, is_text, item, str}
use qing_yin.Shape.Digests.{is_text_iff, item_iff}
use qing_yin.Evidence.Bundle.{Reader}
use qing_yin.Evidence.Sequence.{
  Demand, are_phases, check_phases, check_sequence, check_snapshots, merged_phases, require_ready,
  window_phases,
}
use qing_yin.Evidence.Sequence.Window.{
  IsReady, IsWindow, SameItem, check_window_iff, require_ready_iff, require_same_item_iff,
}
use qing_yin.Evidence.Sequence.Merged.{IsMerged, KeepsCommon, check_common_iff, check_merged_iff}

-- a window, or a window and the snapshot after the merge
abbrev pub AreSnapshots : Platform → Reader → List Fields → Type 0
AreSnapshots p r (start ∷ end_ ∷ []) = IsWindow p start end_
AreSnapshots p r (start ∷ end_ ∷ post ∷ []) =
    IsWindow p start end_ × (KeepsCommon p end_ post × IsMerged p r end_ post)
AreSnapshots p r _ = ⊥

check_snapshots_iff :
    (p : Platform) (r : Reader) (packages : List Fields)
    → (check_snapshots p r packages ≡ ok tt) ↔ AreSnapshots p r packages
check_snapshots_iff p r [] = (λ h. cc, λ h. absurd h)
check_snapshots_iff p r (a ∷ []) = (λ h. cc, λ h. absurd h)
check_snapshots_iff p r (start ∷ end_ ∷ []) = check_window_iff p start end_
check_snapshots_iff p r (start ∷ end_ ∷ post ∷ []) =
    then_iff _ _ (check_window_iff p start end_)
      (then_iff _ _ (check_common_iff p end_ post) (check_merged_iff p r end_ post))
check_snapshots_iff p r (a ∷ b ∷ c ∷ d ∷ l) = (λ h. cc, λ h. absurd h)

-- the values are these texts, in order
abbrev pub ArePhases : List String → List Value → Type 0
ArePhases [] [] = Unit
ArePhases (name ∷ names) (v ∷ vs) = (v ≡ str (lit name)) × ArePhases names vs
ArePhases _ _ = ⊥

are_phases_iff :
    (names : List String) (vs : List Value) → (are_phases names vs ≡ true) ↔ ArePhases names vs
are_phases_iff [] [] = (λ h. tt, λ h. refl)
are_phases_iff [] (v ∷ vs) = (λ h. cc, λ h. absurd h)
are_phases_iff (name ∷ names) [] = (λ h. cc, λ h. absurd h)
are_phases_iff (name ∷ names) (v ∷ vs) =
    and_iff (is_text (lit name) v) (are_phases names vs) (is_text_iff (lit name) v)
      (are_phases_iff names vs)

-- a pre-attestation alone, or the snapshots in the order of their phases
abbrev pub IsOrdered : Platform → Reader → List Fields → List Value → Type 0
IsOrdered p r packages phases =
    (ArePhases ("pre-attestation" ∷ []) phases × Unit {0})
    ⊎ ((ArePhases ("pre-attestation" ∷ []) phases → ⊥)
        × ((ArePhases window_phases phases ⊎ ArePhases merged_phases phases)
            × AreSnapshots p r packages))

check_phases_iff :
    (p : Platform) (r : Reader) (packages : List Fields) (phases : List Value)
    → (check_phases p r packages phases ≡ ok tt) ↔ IsOrdered p r packages phases
unfolding check_phases
check_phases_iff p r packages phases =
    branch_iff (are_phases ("pre-attestation" ∷ []) phases) (ok tt) _
      (are_phases_iff ("pre-attestation" ∷ []) phases) (λ h. tt, λ u. refl)
      (then_iff _ _
        (iff_trans (require_iff _ _)
          (or_iff _ _ (are_phases_iff window_phases phases) (are_phases_iff merged_phases phases)))
        (check_snapshots_iff p r packages))

abbrev pub MeetsDemand : Demand → Fields → List Fields → List Value → Type 0
MeetsDemand demand first packages phases =
    ((demand.require_merge_ready ≡ true)
      × IsReady demand.has_context demand.authorized_target_type first packages phases)
    ⊎ (((demand.require_merge_ready ≡ true) → ⊥) × Unit {0})

-- one activation binding, the phases of a sequence, and what was demanded
abbrev pub IsSequence : Platform → Reader → Demand → List Fields → Type 0
IsSequence p r demand [] = ⊥
IsSequence p r demand (first ∷ rest) =
    All (λ e. SameItem p e first (lit "activation_binding")) (first ∷ rest)
    × ((phases : List Value) × Pointwise (λ e v. get (lit "phase") e ≡ some v) (first ∷ rest) phases
        × (MeetsDemand demand first (first ∷ rest) phases × IsOrdered p r (first ∷ rest) phases))

-- A sequence of validated packages is accepted exactly when it is not empty, all packages have the
-- canonical activation binding of the first, what `--require-merge-ready` asks for holds where it is
-- demanded, and the packages are a pre-attestation alone, or a stable window of equal evidence at
-- least 600 seconds long, or such a window and a snapshot behind the merge that keeps the window's
-- evidence, with the merge between the window's end and that snapshot.
pub check_sequence_iff :
    (p : Platform) (r : Reader) (demand : Demand) (packages : List Fields)
    → (check_sequence p r demand packages ≡ ok tt) ↔ IsSequence p r demand packages
unfolding check_sequence
check_sequence_iff p r demand [] = (λ h. cc, λ h. absurd h)
check_sequence_iff p r demand (first ∷ rest) =
    then_iff _ _
      (each_iff _ (λ e. require_same_item_iff p e first _ (lit "activation_binding"))
        (first ∷ rest))
      (bind_iff (traverse (item (lit "phase")) (first ∷ rest)) _
        (traverse_iff (λ e v. get (lit "phase") e ≡ some v) (item (lit "phase"))
          (λ e v. item_iff (lit "phase") e v) (first ∷ rest))
        λ phases.
          then_iff _ _
            (branch_iff demand.require_merge_ready
              (require_ready demand.has_context demand.authorized_target_type first (first ∷ rest)
                phases)
              (ok tt) (λ h. h, λ h. h)
              (require_ready_iff demand.has_context demand.authorized_target_type first
                (first ∷ rest) phases)
              (λ h. tt, λ u. refl))
            (check_phases_iff p r (first ∷ rest) phases))
