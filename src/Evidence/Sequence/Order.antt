-- ===== src/Evidence/Sequence/Order.antt =====
-- In which order the instants of a sequence with a merge stand.
use qing_yin.Prelude.{
  Bool-cases, List, [], arith, false, inl, inr, ltb, ok, ok-injective, some, subst, sym, true, ◌+◌,
  ◌<◌, ◌∙◌, ◌∷◌, ◌≡◌, ◌≤◌,
}
use qing_yin.Prelude.Checks.{Pointwise, not_iff}
use qing_yin.Text.{lit}
use qing_yin.Platform.{Platform}
use qing_yin.Json.{Fields, Value, get}
use qing_yin.Timestamp.{Stamp}
use qing_yin.Timestamp.Order.{no_later}
use qing_yin.Timestamp.Printing.{IsStamp}
use qing_yin.Evidence.Access.{earlier}
use qing_yin.Evidence.Bundle.{Reader}
use qing_yin.Evidence.Sequence.{Demand, check_sequence}
use qing_yin.Evidence.Sequence.Instants.{total_seconds, total_seconds_iff}
use qing_yin.Evidence.Sequence.Window.{TakenAt, snapshot_cutoff_iff}
use qing_yin.Evidence.Sequence.Merged.{MergedAt}
use qing_yin.Evidence.Sequence.Accepted.{AreSnapshots, IsOrdered, check_sequence_iff}

snapshots_of :
    (p : Platform) (r : Reader) (a b : Fields) (l : List Fields) (phases : List Value)
    → Pointwise (λ (e : Fields) (v : Value). get (lit "phase") e ≡ some v) (a ∷ b ∷ l) phases
    → IsOrdered p r (a ∷ b ∷ l) phases
    → AreSnapshots p r (a ∷ b ∷ l)
snapshots_of p r a b l [] q o = absurd q
snapshots_of p r a b l (x ∷ []) q o = absurd (q.1)
snapshots_of p r a b l (x ∷ y ∷ zs) q o = elim o [
  | inl (alone, u) ↦ absurd (alone.1)
  | inr (more, (phases, snapshots)) ↦ snapshots
]

seconds_after :
    (s t : Stamp) → IsStamp s → IsStamp t → earlier s t ≡ true → total_seconds s < total_seconds t
seconds_after s t v w h =
    let late : no_later t s ≡ false = (not_iff (no_later t s)).0 h in
    elim (Bool-cases (ltb (total_seconds s) (total_seconds t))) [
      | inl e ↦ ground arith
      | inr e ↦ absurd (cc ((total_seconds_iff t s w v).1 (ground arith)))
    ]

-- the instants of a window, of the snapshot behind the merge, and of the merge, in their order
abbrev pub RunsInOrder : Platform → Reader → Fields → Fields → Fields → Type 0
RunsInOrder p r start end_ post =
    (s : Stamp) × (t : Stamp) × (u : Stamp) × (m : Stamp) × TakenAt start s
    × (TakenAt end_ t
        × (TakenAt post u
            × (MergedAt p r post m
                × ((total_seconds s + 600 ≤ total_seconds t)
                    × ((total_seconds t < total_seconds m)
                        × (total_seconds m ≤ total_seconds u))))))

-- In an accepted sequence of three packages the window lasts 600 seconds or more, and the instant
-- that `merged_at` of the recorded merged pull names comes after the cutoff of the window's end and
-- no later than the cutoff of the snapshot behind the merge.
pub check_sequence-RunsInOrder :
    (p : Platform) (r : Reader) (demand : Demand) (start end_ post : Fields)
    → check_sequence p r demand (start ∷ end_ ∷ post ∷ []) ≡ ok tt
    → RunsInOrder p r start end_ post
check_sequence-RunsInOrder p r demand start end_ post h =
    let (phases, q, (met, ordered)) =
      ((check_sequence_iff p r demand (start ∷ end_ ∷ post ∷ [])).0 h).1 in
    let (window, (kept, merged)) = snapshots_of p r start end_ (post ∷ []) phases q ordered in
    let (v, mv, (w, mw, (same_digests, (s, taken, (t, ended_, long))))) = window.1.1 in
    let (
      t2,
      ended2,
      (u, later, (k, (bundle, has, (pull, responds, (mval, given, (m, valid, (after, before))))))),
    ) =
      merged in
    let equal : t2 ≡ t =
      ok-injective t2 t
        (sym ((snapshot_cutoff_iff end_ t2).1 ended2) ∙ (snapshot_cutoff_iff end_ t).1 ended_) in
    let (tv, tm, (tp, t_valid)) = ended_ in
    let (uv, um, (up, u_valid)) = later in
    (
      s,
      t,
      u,
      m,
      taken,
      (
        ended_,
        (
          later,
          (
            (bundle, has, (pull, responds, (mval, given, valid))),
            (
              long,
              (
                seconds_after t m t_valid (valid.1) (subst (λ x. earlier x m ≡ true) equal after),
                (total_seconds_iff m u (valid.1) u_valid).0 before,
              ),
            ),
          ),
        ),
      ),
    )
