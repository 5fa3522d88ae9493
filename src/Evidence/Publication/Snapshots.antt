-- ===== src/Evidence/Publication/Snapshots.antt =====
-- What `validate_publication_delta_v1` of scripts/validate_governance_state.py reads of the two
-- snapshots.
use qing_yin.Prelude.{List, ok, some, ◌↔◌, ◌≡◌}
use qing_yin.Prelude.Checks.{bind_iff, ok_iff, require_iff, self_iff, then_iff}
use qing_yin.Text.{lit}
use qing_yin.Platform.{Platform}
use qing_yin.Json.{Fields, Value, get_or_null, obj}
use qing_yin.Json.Equality.{eq_value}
use qing_yin.Shape.{dict, list, some_or_fail}
use qing_yin.Shape.Digests.{some_dict_iff}
use qing_yin.Shape.Named.{some_iff}
use qing_yin.Evidence.Access.{Bundles, bundle_of}
use qing_yin.Evidence.Access.Read.{Same}
use qing_yin.Evidence.Bundle.{Reader}
use qing_yin.Evidence.Responses.{response_value}
use qing_yin.Evidence.Publication.Thread.{Thread, read_thread}

abbrev thread_of : List Value → List Value → Fields → Fields → Thread
thread_of before after comment user = record {
  before = before;
  after = after;
  comment = comment;
  user = user;
}

-- the comments of both lists, and the attestation comment with its author
abbrev IsRead : Value → Value → Value → Thread → Type 0
IsRead listed later single t =
    (before : List Value) × (list listed ≡ some before)
    × ((after : List Value) × (list later ≡ some after)
        × ((comment : Fields) × (single ≡ obj comment)
            × ((user : Fields) × (get_or_null (lit "user") comment ≡ obj user)
                × (thread_of before after comment user ≡ t))))

-- the discussion of both snapshots, with the same review threads, and the attestation comment
abbrev pub IsThread : Platform → Reader → Bundles → Bundles → Thread → Type 0
IsThread p r pre snapshot t =
    (b : Fields) × (bundle_of (lit "discussion") pre ≡ ok b)
    × ((c : Fields) × (bundle_of (lit "discussion") snapshot ≡ ok c)
        × ((v : Value) × (response_value p r b (lit "review-threads") ≡ ok v)
            × ((w : Value) × (response_value p r c (lit "review-threads") ≡ ok w)
                × (Same v w
                    × ((listed : Value) × (response_value p r b (lit "issue-comments") ≡ ok listed)
                        × ((later : Value) × (response_value p r c (lit "issue-comments")
                              ≡ ok later)
                            × ((a : Fields) × (bundle_of (lit "attestation") snapshot ≡ ok a)
                                × ((single : Value) × (response_value p r a
                                        (lit "attestation-comment")
                                      ≡ ok single)
                                    × IsRead listed later single t))))))))

pub read_thread_iff :
    (p : Platform) (r : Reader) (pre snapshot : Bundles) (t : Thread)
    → (read_thread p r pre snapshot ≡ ok t) ↔ IsThread p r pre snapshot t
unfolding read_thread
read_thread_iff p r pre snapshot t = bind_iff (bundle_of (lit "discussion") pre) _ (self_iff _) λ b.
    bind_iff (bundle_of (lit "discussion") snapshot) _ (self_iff _) λ c.
      bind_iff (response_value p r b (lit "review-threads")) _ (self_iff _) λ v.
        bind_iff (response_value p r c (lit "review-threads")) _ (self_iff _) λ w.
          then_iff _ _ (require_iff (eq_value v w) _) (
            bind_iff (response_value p r b (lit "issue-comments")) _ (self_iff _) λ x.
              bind_iff (response_value p r c (lit "issue-comments")) _ (self_iff _) λ y.
                bind_iff (bundle_of (lit "attestation") snapshot) _ (self_iff _) λ a.
                  bind_iff (response_value p r a (lit "attestation-comment")) _ (self_iff _) λ z.
                    bind_iff (some_or_fail (list x) _) _ (some_iff (list x) _) λ before.
                      bind_iff (some_or_fail (list y) _) _ (some_iff (list y) _) λ after.
                        bind_iff (some_or_fail (dict z) _) _ (some_dict_iff z _) λ comment.
                          bind_iff (some_or_fail (dict (get_or_null (lit "user") comment)) _) _
                            (some_dict_iff (get_or_null (lit "user") comment) _)
                            λ user. ok_iff (thread_of before after comment user) t)
