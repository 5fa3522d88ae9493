-- ===== src/Evidence/Publication/Appended.antt =====
-- Which comments `validate_publication_delta_v1` of scripts/validate_governance_state.py takes
-- as appended.
use qing_yin.Prelude.{
  ==_iff, List, false, length, ok, some, traverse, true, ℕ, ◌+◌, ◌<◌, ◌↔◌, ◌≡◌, ◌≤◌,
}
use qing_yin.Prelude.Checks.{
  Pointwise, bind_iff, iff_trans, not_iff, require_iff, then_iff, traverse_iff,
}
use qing_yin.Prelude.Int.{pos}
use qing_yin.Text.{Bytes, lit}
use qing_yin.Platform.{Platform}
use qing_yin.Json.{Fields, Value, get_or_null, int, obj}
use qing_yin.Json.Scalar.{safe_integer_limit}
use qing_yin.Integer.{require_positive_int}
use qing_yin.Integer.Bounds.{require_positive_int_iff}
use qing_yin.Shape.{dict, some_or_raise}
use qing_yin.Evidence.Access.Read.{SameForm, require_same_form_iff, some_or_raise_iff}
use qing_yin.Evidence.Attestation.Accepted.{IsPositive, positive_iff}
use qing_yin.Evidence.Publication.Comments.{
  IsComment, validate_issue_comment_endpoint_equivalence_iff,
}
use qing_yin.Evidence.Publication.Thread.{
  Thread, an_array, check_appended, comment_id, distinct_ids, given_id, init, last, member,
}

-- a comment of the list with its positive id
abbrev pub IsListed : Value → ℕ → Type 0
IsListed v n = (given_id (dict v) ≡ int (pos n)) × (0 < n) × (n ≤ safe_integer_limit)

comment_id_iff : (v : Value) (n : ℕ) → (comment_id v ≡ ok n) ↔ IsListed v n
unfolding comment_id
comment_id_iff v n = require_positive_int_iff (given_id (dict v)) n

-- the positive id of the comment
abbrev pub IsOwnId : Fields → ℕ → Type 0
IsOwnId comment n =
    (get_or_null (lit "id") comment ≡ int (pos n)) × (0 < n) × (n ≤ safe_integer_limit)

-- The later list is the earlier one and one more comment, which is the single endpoint's and whose
-- id is new.
abbrev pub IsAppended : Platform → Thread → Type 0
IsAppended p t =
    (own_id : ℕ) × IsOwnId t.comment own_id
    × (IsPositive (get_or_null (lit "id") t.user)
        × ((ids_before : List ℕ) × Pointwise IsListed t.before ids_before
            × ((ids_after : List ℕ) × Pointwise IsListed t.after ids_after
                × ((distinct_ids ids_before ≡ true)
                    × ((distinct_ids ids_after ≡ true)
                        × ((length t.after ≡ length t.before + 1)
                            × (SameForm p (an_array (init t.after)) (an_array t.before)
                                × ((newest : Value) × (last t.after ≡ some newest)
                                    × (((bytes : Bytes) × IsComment p newest bytes
                                          × IsComment p (obj t.comment) bytes)
                                        × (member own_id ids_before ≡ false))))))))))

pub check_appended_iff : (p : Platform) (t : Thread) → (check_appended p t ≡ ok tt) ↔ IsAppended p t
unfolding check_appended
check_appended_iff p t =
    bind_iff (require_positive_int (get_or_null (lit "id") t.comment)) _
      (require_positive_int_iff (get_or_null (lit "id") t.comment))
      λ n. then_iff _ _ (positive_iff (get_or_null (lit "id") t.user)) (
        bind_iff (traverse comment_id t.before) _
          (traverse_iff IsListed comment_id comment_id_iff t.before)
          λ xs.
            bind_iff (traverse comment_id t.after) _
              (traverse_iff IsListed comment_id comment_id_iff t.after)
              λ ys. then_iff _ _ (require_iff (distinct_ids xs) _) (
                then_iff _ _ (require_iff (distinct_ids ys) _) (
                  then_iff _ _ (iff_trans (require_iff _ _) (==_iff _ _)) (
                    then_iff _ _ (require_same_form_iff p _ _ _) (
                      bind_iff (some_or_raise (last t.after) "IndexError") _
                        (some_or_raise_iff (last t.after) "IndexError")
                        λ newest.
                          then_iff _ _
                            (validate_issue_comment_endpoint_equivalence_iff p newest
                              (obj t.comment))
                            (iff_trans (require_iff _ _) (not_iff (member n xs))))))))
