-- ===== src/Evidence/Publication/Accepted.antt =====
-- Which publications of the attestation `validate_publication_delta_v1` accepts.
use qing_yin.Prelude.{false, length, ok, some, true, ◌&&◌, ◌↔◌, ◌≡◌}
use qing_yin.Prelude.Checks.{and_iff, bind_iff, iff_trans, not_iff, require_iff, then_iff}
use qing_yin.Prelude.Int.{pos}
use qing_yin.Text.{Bytes, Text, lit}
use qing_yin.Platform.{Platform}
use qing_yin.Json.{Fields, Value, get_or_null, int, item, obj, str}
use qing_yin.Shape.{some_or_raise}
use qing_yin.Shape.Digests.{Document, Has, is_text_iff, item_iff}
use qing_yin.Evidence.Access.{Bundles, earlier, strptime}
use qing_yin.Evidence.Access.Read.{Same, require_equal_iff, some_or_raise_iff, strptime_iff}
use qing_yin.Evidence.Bundle.{Reader}
use qing_yin.Evidence.Publication.Thread.{
  Thread, check_author, check_interval, read_thread, validate_publication_delta_v1,
}
use qing_yin.Evidence.Publication.Pulls.{
  MetadataAgrees, PullsAgree, check_metadata_iff, check_pull_iff,
}
use qing_yin.Text.Utf8.{utf8_decode}
use qing_yin.Json.Canonical.{canonical_json_v1}
use qing_yin.Timestamp.{Stamp}
use qing_yin.Timestamp.Printing.{IsStamp, print_stamp}
use qing_yin.Timestamp.Order.{no_later}
use qing_yin.Evidence.Publication.Delta.{check_delta, delta_keys}
use qing_yin.Evidence.Publication.Changes.{
  IsDelta, OnlyComponentsChange, check_delta_iff, components_iff,
}
use qing_yin.Evidence.Publication.Appended.{IsAppended, check_appended_iff}
use qing_yin.Evidence.Publication.Snapshots.{IsThread, read_thread_iff}

-- the comment is the one that the delta names, its author the attestor, its body the canonical
-- attestation, and the delta's counts are those of the lists
abbrev pub IsAuthored : Platform → Fields → Fields → Thread → Type 0
IsAuthored p delta attestation t =
    Has delta (lit "attestation_comment_id") (Same (get_or_null (lit "id") t.comment))
    × (Has delta (lit "attestation_comment_created_at")
          (Same (get_or_null (lit "created_at") t.comment))
        × (Has delta (lit "attestation_comment_updated_at")
              (Same (get_or_null (lit "updated_at") t.comment))
            × (Has attestation (lit "attestor_login") (Same (get_or_null (lit "login") t.user))
                × (Has attestation (lit "attestor_id") (Same (get_or_null (lit "id") t.user))
                    × ((bytes : Bytes) × (canonical_json_v1 p (obj attestation) ≡ ok bytes)
                        × ((body : Text) × (utf8_decode bytes ≡ some body)
                            × ((get_or_null (lit "body") t.comment ≡ str body)
                                × Has delta (lit "attestation_comment_updated_at") (λ updated.
                                  Has delta (lit "pull_updated_at_after") (Same updated)
                                  × (Has delta (lit "pull_comments_before")
                                        (Same (int (pos (length t.before))))
                                      × Has delta (lit "pull_comments_after")
                                          (Same (int (pos (length t.after)))))))))))))

check_author_iff :
    (p : Platform) (delta attestation : Fields) (t : Thread)
    → (check_author p delta attestation t ≡ ok tt) ↔ IsAuthored p delta attestation t
unfolding check_author
check_author_iff p delta attestation t = then_iff _ _ (require_equal_iff delta _ _ _) (
    then_iff _ _ (require_equal_iff delta _ _ _) (
      then_iff _ _ (require_equal_iff delta _ _ _) (
        then_iff _ _ (require_equal_iff attestation _ _ _) (
          then_iff _ _ (require_equal_iff attestation _ _ _) (
            bind_iff (canonical_json_v1 p (obj attestation)) _ (λ x. (λ h. h, λ h. h))
              λ bytes.
                bind_iff (some_or_raise (utf8_decode bytes) "UnicodeDecodeError") _
                  (some_or_raise_iff (utf8_decode bytes) "UnicodeDecodeError")
                  λ body. then_iff _ _ (iff_trans (require_iff _ _) (is_text_iff body _)) (
                    bind_iff (item (lit "attestation_comment_updated_at") delta) _
                      (item_iff (lit "attestation_comment_updated_at") delta)
                      λ updated. then_iff _ _ (require_equal_iff delta _ _ _) (
                        then_iff _ _ (require_equal_iff delta _ _ _)
                          (require_equal_iff delta _ _ _))))))))

-- a text that is printed from an instant
abbrev pub IsTime : Value → Stamp → Type 0
IsTime v s = (v ≡ str (print_stamp s)) × IsStamp s

-- The comment is created after the first cutoff, updated no earlier than created, and updated no
-- later than the second cutoff.
abbrev pub IsBetween : Fields → Value → Value → Type 0
IsBetween delta pre_cutoff snapshot_cutoff =
    (pre_time : Stamp) × IsTime pre_cutoff pre_time
    × ((snapshot_time : Stamp) × IsTime snapshot_cutoff snapshot_time
        × Has delta (lit "attestation_comment_created_at") (λ created.
          (created_time : Stamp) × IsTime created created_time
          × Has delta (lit "attestation_comment_updated_at") (λ updated.
            (updated_time : Stamp) × IsTime updated updated_time
            × (((no_later created_time pre_time ≡ false)
                  × (no_later created_time updated_time ≡ true))
                × (no_later updated_time snapshot_time ≡ true)))))

check_interval_iff :
    (delta : Fields) (pre_cutoff snapshot_cutoff : Value)
    → (check_interval delta pre_cutoff snapshot_cutoff ≡ ok tt)
      ↔ IsBetween delta pre_cutoff snapshot_cutoff
unfolding check_interval
check_interval_iff delta pre_cutoff snapshot_cutoff =
    bind_iff (strptime pre_cutoff) _ (strptime_iff pre_cutoff) λ a.
      bind_iff (strptime snapshot_cutoff) _ (strptime_iff snapshot_cutoff) λ z.
        bind_iff (item (lit "attestation_comment_created_at") delta) _
          (item_iff (lit "attestation_comment_created_at") delta)
          λ v. bind_iff (strptime v) _ (strptime_iff v) λ c.
            bind_iff (item (lit "attestation_comment_updated_at") delta) _
              (item_iff (lit "attestation_comment_updated_at") delta)
              λ w. bind_iff (strptime w) _ (strptime_iff w) λ u. iff_trans (require_iff _ _) (
                and_iff (earlier a c && no_later c u) (no_later u z)
                  (and_iff (earlier a c) (no_later c u) (not_iff (no_later c a)) (λ h. h, λ h. h))
                  (λ h. h, λ h. h))

-- what the publication of an attestation may look like
abbrev pub IsPublication :
    Platform → Reader → Bundles → Bundles → Fields → Value → Value → Fields → Type 0
IsPublication p r pre snapshot attestation pre_cutoff snapshot_cutoff delta =
    IsDelta delta
    × (OnlyComponentsChange p pre snapshot
        × (PullsAgree p r delta pre snapshot
            × (MetadataAgrees p r delta pre snapshot
                × ((t : Thread) × IsThread p r pre snapshot t
                    × (IsAppended p t
                        × (IsAuthored p delta attestation t
                            × IsBetween delta pre_cutoff snapshot_cutoff))))))

-- A publication delta is accepted exactly when it is an object of the expected keys and form, and
-- between the two snapshots no component but the pull request, its metadata and the discussion
-- changes, the pull request changes its update time and its count of comments only, and as the delta
-- says, the review threads stay, and exactly one comment is appended, which is the attestor's
-- canonical attestation, new, and published between the two cutoffs.
pub validate_publication_delta_v1_iff :
    (p : Platform) (r : Reader) (v : Value) (pre snapshot : Bundles) (attestation : Fields)
    (pre_cutoff snapshot_cutoff : Value)
    → (validate_publication_delta_v1 p r v pre snapshot attestation pre_cutoff snapshot_cutoff
        ≡ ok tt)
      ↔ Document delta_keys
          (IsPublication p r pre snapshot attestation pre_cutoff snapshot_cutoff)
          v
unfolding validate_publication_delta_v1
validate_publication_delta_v1_iff p r v pre snapshot attestation pre_cutoff snapshot_cutoff =
    iff_trans
      (bind_iff (check_delta v) _ (check_delta_iff v) λ d.
        then_iff _ _ (components_iff p pre snapshot) (
          then_iff _ _ (check_pull_iff p r d pre snapshot) (
            then_iff _ _ (check_metadata_iff p r d pre snapshot) (
              bind_iff (read_thread p r pre snapshot) _ (read_thread_iff p r pre snapshot) λ t.
                then_iff _ _ (check_appended_iff p t) (
                  then_iff _ _ (check_author_iff p d attestation t)
                    (check_interval_iff d pre_cutoff snapshot_cutoff))))))
      (
        λ (d, (shape, form), rest). (d, shape, (form, rest)),
        λ (d, shape, (form, rest)). (d, (shape, form), rest),
      )
