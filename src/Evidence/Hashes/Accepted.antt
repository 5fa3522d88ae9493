-- ===== src/Evidence/Hashes/Accepted.antt =====
-- The human body hashes that `validate_human_body_hashes` takes, and the order of the derived ones.
use mathlib.Core.List.{Nodup, Perm}
use qing_yin.Prelude.{
  List, [], ap, if◌then◌else◌, map, ok, refl, require, some, subst, sym, traverse, true, ◌↔◌, ◌∙◌,
  ◌∷◌, ◌≡◌, ◌≢◌, ◌⊎◌,
}
use qing_yin.Prelude.Order.{lex_order, nat_order}
use qing_yin.Prelude.Sort.{
  IsSorted, sorted_by, sorted_by-IsSorted, sorted_by-perm, sorted_by_of_IsSorted,
}
use qing_yin.Prelude.Checks.{
  Pointwise, bind_iff, branch_iff, iff_trans, ok_iff, require_iff, then_iff, traverse_iff,
}
use qing_yin.Text.{Bytes, Text, lit}
use qing_yin.Platform.{Platform}
use qing_yin.Numeral.{is_positive_decimal}
use qing_yin.Json.{Value, entries, is_null, is_text, item, keys, null, str}
use qing_yin.Shape.{list, require_exact_object, some_or_fail, text}
use qing_yin.Shape.Digests.{
  Document, Has, IsHex, is_null_iff, is_text_iff, item_iff, require_exact_object_iff,
  require_sha256_iff,
}
use qing_yin.Shape.Named.{some_iff, some_text_iff}
use qing_yin.Evidence.Request.{Pair, distinct_pairs, is_one_of, same_pairs, sorted_pairs, total_key}
use qing_yin.Evidence.Request.Sources.{OneOf, is_one_of_iff}
use qing_yin.Evidence.Request.Query.{
  IsCanonicalQuery, distinct_pairs_iff, same_pairs_iff, sorted_pairs_iff,
}
use qing_yin.Evidence.Bodies.{
  Entry, canonical_human_body_id, derive_human_body_hashes, identity, raw_entries,
}
use qing_yin.Evidence.Hashes.{
  body_kinds, check_hash, entry_keys, rest_kinds, validate_entry, validate_human_body_hashes,
}

-- a digest goes with the state "string", and null with the others
abbrev pub HashOf : Value → Value → Type 0
HashOf state digest =
    ((state ≡ str (lit "string")) × IsHex 64 digest)
    ⊎ ((state ≢ str (lit "string")) × (digest ≡ null))

check_hash_iff : (state digest : Value) → (check_hash state digest ≡ ok tt) ↔ HashOf state digest
unfolding check_hash
check_hash_iff state digest =
    branch_iff (is_text (lit "string") state) _ _ (is_text_iff (lit "string") state)
      (require_sha256_iff digest)
      (iff_trans (require_iff (is_null digest) "sha256 must be null") (is_null_iff digest))

-- an id of the REST API is a positive decimal
abbrev pub RestId : Value → Text → Type 0
RestId kind id =
    (OneOf kind rest_kinds × (is_positive_decimal id ≡ true))
    ⊎ ((OneOf kind rest_kinds → ⊥) × Unit {0})

kind_id_iff :
    (kind : Value) (id : Text)
    → ((if is_one_of kind rest_kinds
          then require (is_positive_decimal id) "immutable_id must be an unpadded REST decimal id"
          else ok tt)
        ≡ ok tt)
      ↔ RestId kind id
kind_id_iff kind id =
    branch_iff (is_one_of kind rest_kinds) _ _ (is_one_of_iff kind rest_kinds)
      (require_iff (is_positive_decimal id) _) (λ h. tt, λ u. refl)

abbrev pub states : List Text
states = map lit ("missing" ∷ "null" ∷ "string" ∷ [])

abbrev pub IsEntry : Platform → Value → Pair → Type 0
IsEntry p v key =
    Document entry_keys
      (λ d. Has d (lit "kind") λ kind.
        OneOf kind body_kinds
        × ((kind_text : Text) × (kind ≡ str kind_text)
            × Has d (lit "immutable_id") λ id.
              (id_text : Text) × (id ≡ str id_text)
              × ((canonical : Text) × (canonical_human_body_id p id ≡ ok canonical)
                  × (RestId kind id_text
                      × Has d (lit "field") λ field_name.
                        (field_name ≡ str (lit "body"))
                        × Has d (lit "state") λ state.
                          OneOf state states
                          × Has d (lit "sha256")
                              λ digest. HashOf state digest × ((kind_text, id_text) ≡ key)))))
      v

validate_entry_iff :
    (p : Platform) (v : Value) (key : Pair) → (validate_entry p v ≡ ok key) ↔ IsEntry p v key
unfolding validate_entry
validate_entry_iff p v key =
    bind_iff (require_exact_object v entry_keys) _ (require_exact_object_iff v entry_keys) λ d.
      bind_iff (item (lit "kind") d) _ (item_iff (lit "kind") d) λ kind.
        then_iff _ _
          (iff_trans (require_iff (is_one_of kind body_kinds) _) (is_one_of_iff kind body_kinds))
          (bind_iff (some_or_fail (text kind) "kind invalid") _ (some_text_iff kind _) λ kind_text.
            bind_iff (item (lit "immutable_id") d) _ (item_iff (lit "immutable_id") d) λ id.
              bind_iff (some_or_fail (text id) "immutable_id must be a string") _
                (some_text_iff id _)
                λ id_text.
                  bind_iff (canonical_human_body_id p id) _ (λ c. (λ h. h, λ h. h))
                    λ canonical. then_iff _ _ (kind_id_iff kind id_text) (
                      bind_iff (item (lit "field") d) _ (item_iff (lit "field") d) λ field_name.
                        then_iff _ _
                          (iff_trans (require_iff (is_text (lit "body") field_name) _)
                            (is_text_iff (lit "body") field_name))
                          (bind_iff (item (lit "state") d) _ (item_iff (lit "state") d) λ state.
                            then_iff _ _
                              (iff_trans (require_iff (is_one_of state states) _)
                                (is_one_of_iff state states))
                              (bind_iff (item (lit "sha256") d) _ (item_iff (lit "sha256") d)
                                λ digest.
                                  then_iff _ _ (check_hash_iff state digest)
                                    (ok_iff (kind_text, id_text) key)))))

-- An array of human body hashes is accepted exactly when each item is an entry, and the pairs of kind
-- and id are distinct, encodable and ascending; it comes back as it was given.
pub validate_human_body_hashes_iff :
    (p : Platform) (v : Value) (out : List Value)
    → (validate_human_body_hashes p v ≡ ok out) ↔ (
        (list v ≡ some out)
        × ((keys : List Pair) × Pointwise (IsEntry p) out keys × IsCanonicalQuery keys))
unfolding validate_human_body_hashes
validate_human_body_hashes_iff p v out =
    iff_trans
      (bind_iff (some_or_fail (list v) "must be an array") _ (some_iff (list v) _) λ vs.
        bind_iff (traverse (validate_entry p) vs) _
          (traverse_iff (IsEntry p) (validate_entry p) (validate_entry_iff p) vs)
          λ keys.
            then_iff _ _ (iff_trans (require_iff (distinct_pairs keys) _) (distinct_pairs_iff keys))
              (bind_iff (sorted_pairs keys) _ (sorted_pairs_iff keys) λ sorted.
                then_iff _ _
                  (iff_trans (require_iff (same_pairs keys sorted) _) (same_pairs_iff keys sorted))
                  (ok_iff vs out)))
      (
        λ (vs, e, (keys, are_entries, (unique, (sorted, (encodable, sorts), (fixed, same_out))))). (
          e ∙ ap some same_out,
          (
            keys,
            subst (λ l. Pointwise (IsEntry p) l keys) same_out are_entries,
            record {
              distinct_members = unique;
              encodable = encodable;
              ascending =
                  subst (IsSorted total_key) (sorts ∙ sym fixed)
                    (sorted_by-IsSorted total_key keys);
            },
          ),
        ),
        λ (e, (keys, are_entries, c)). (
          out,
          e,
          (
            keys,
            are_entries,
            (
              c.distinct_members,
              (keys, (c.encodable, sorted_by_of_IsSorted total_key keys c.ascending), (refl, refl)),
            ),
          ),
        ),
      )

-- The derived entries are those of the response, ascending by kind and id, and no kind and id occur
-- twice.
pub derive_human_body_hashes-perm :
    (p : Platform) (label : Text) (v : Value) (out : List Entry)
    → derive_human_body_hashes p label v ≡ ok out
    → (entries : List Entry) × (raw_entries p label v ≡ ok entries)
      × (Perm out entries × IsSorted (λ e. total_key (identity e)) out × Nodup (map identity out))
unfolding derive_human_body_hashes
derive_human_body_hashes-perm p label v out h =
    let (entries, read, (unique, same_out)) =
      (bind_iff (raw_entries p label v) _ (λ es. (λ e. e, λ e. e))
          λ es.
            then_iff _ _
              (iff_trans (require_iff (distinct_pairs (map identity (sorted_by order es))) _)
                (distinct_pairs_iff _))
              (ok_iff (sorted_by order es) out)).0
        h in
    (
      entries,
      read,
      (
        subst (λ l. Perm l entries) same_out (sorted_by-perm order entries),
        subst (IsSorted order) same_out (sorted_by-IsSorted order entries),
        subst (λ l. Nodup (map identity l)) same_out unique,
      ),
    )
  where
    order : Entry → List Bytes
    order e = total_key (identity e)
