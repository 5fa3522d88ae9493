-- ===== src/Evidence/Request/Query.antt =====
-- The queries that `validate_request_v1` takes.
use mathlib.Core.Path.{ap₂}
use mathlib.Core.List.{Mem, Nodup, Nodup-cons, Nodup-nil, mem-cons, mem-cons_of_mem, not-mem-nil}
use mathlib.Core.Logic.Or
use qing_yin.Prelude.{
  All, Bool-cases, List, Option, [], and_true, any, ap, arith, discard, false, inl, inr, none, ok,
  ok-injective, refl, same, same_iff, some, subst, sym, traverse, true, ◌↔◌, ◌∙◌, ◌∷◌, ◌≡◌,
}
use qing_yin.Prelude.Membership.{test-prop}
use qing_yin.Evidence.Request.{
  Pair, check_query, distinct_pairs, pair_key, pair_of, query_pair, same_pair, same_pairs,
  sorted_pairs, total_key,
}
use qing_yin.Prelude.Order.{lex_order, nat_order}
use qing_yin.Prelude.Sort.{IsSorted, sorted_by, sorted_by-IsSorted, sorted_by_of_IsSorted}
use qing_yin.Prelude.Checks.{
  Pointwise, and_iff, bind_iff, discard-traverse_iff, drop_iff, iff_trans, ok_iff, require_iff,
  then_iff, traverse_iff,
}
use qing_yin.Text.{Text, is_surrogate, utf16_sort_key}
use qing_yin.Json.{Value}
use qing_yin.Shape.{list, some_or_fail, string_list}
use qing_yin.Shape.Named.{some_iff}

same_pair_iff : (x y : Pair) → (same_pair x y ≡ true) ↔ (x ≡ y)
same_pair_iff (a, b) (c, d) = (
  λ h.
      let parts = and_true (same a c) (same b d) h in
      ap₂ (λ x y. (x, y)) ((same_iff a c).0 parts.0) ((same_iff b d).0 parts.1),
  λ e.
      let first : a ≡ c = ap (λ (p : Pair). p.0) e in
      let second : b ≡ d = ap (λ (p : Pair). p.1) e in
      rw ((same_iff a c).1 first, (same_iff b d).1 second) refl,
)

any_same-mem : (x : Pair) (xs : List Pair) → any (same_pair x) xs ≡ true → Mem x xs
any_same-mem x [] h = cc
any_same-mem x (y ∷ ys) h = elim (Bool-cases (same_pair x y)) [
  | inl e ↦ mem-cons.1 (Or.inl ((same_pair_iff x y).0 e))
  | inr e ↦ mem-cons_of_mem y (any_same-mem x ys (rw e at h))
]

mem-any_same : (x : Pair) (xs : List Pair) → Mem x xs → any (same_pair x) xs ≡ true
mem-any_same x [] m = absurd (not-mem-nil m)
mem-any_same x (y ∷ ys) m =
    Or.elim (test-prop _ _) (mem-cons.0 m) (λ e. rw ((same_pair_iff x y).1 e))
      λ t. ground (arith, mem-any_same x ys t)

pub distinct_pairs_iff : (xs : List Pair) → (distinct_pairs xs ≡ true) ↔ Nodup xs
unfolding distinct_pairs
distinct_pairs_iff [] = (λ h. Nodup-nil, λ n. refl)
distinct_pairs_iff (x ∷ xs) = (
  λ h.
      Nodup-cons.1
        ((λ m. ground (arith, mem-any_same x xs m)), (distinct_pairs_iff xs).0 (ground arith)),
  λ n. elim (Bool-cases (any (same_pair x) xs)) [
    | inl e ↦ absurd ((Nodup-cons.0 n).0 (any_same-mem x xs e))
    | inr e ↦ rw (e, (distinct_pairs_iff xs).1 (Nodup-cons.0 n).1)
  ],
)

pub same_pairs_iff : (a b : List Pair) → (same_pairs a b ≡ true) ↔ (a ≡ b)
unfolding same_pairs
same_pairs_iff [] [] = (λ h. refl, λ h. refl)
same_pairs_iff [] (y ∷ b) = (λ h. cc, λ h. cc)
same_pairs_iff (x ∷ a) [] = (λ h. cc, λ h. cc)
same_pairs_iff (x ∷ a) (y ∷ b) =
    iff_trans (and_iff (same_pair x y) (same_pairs a b) (same_pair_iff x y) (same_pairs_iff a b))
      (λ (e, f). ap₂ ◌∷◌ e f, λ h. (cc, cc))

-- both strings of a pair have a UTF-16 encoding
abbrev pub IsEncodable : Pair → Type 0
IsEncodable (a, b) = (any is_surrogate a ≡ false) × (any is_surrogate b ≡ false)

pub pair_key_iff : (x : Pair) → (discard (pair_key x) ≡ ok tt) ↔ IsEncodable x
unfolding pair_key utf16_sort_key
pair_key_iff (a, b) = ground arith

pub sorted_pairs_iff :
    (pairs out : List Pair)
    → (sorted_pairs pairs ≡ ok out) ↔ (All IsEncodable pairs × (sorted_by total_key pairs ≡ out))
unfolding sorted_pairs
sorted_pairs_iff pairs out =
    drop_iff (traverse pair_key pairs) (ok (sorted_by total_key pairs))
      (discard-traverse_iff pair_key pair_key_iff pairs) (ok_iff (sorted_by total_key pairs) out)

-- an array of pairs of strings
abbrev pub IsPair : Value → Pair → Type 0
IsPair v (a, b) = string_list (list v) ≡ some (a ∷ b ∷ [])

query_pair_iff : (v : Value) (x : Pair) → (query_pair v ≡ ok x) ↔ IsPair v x
unfolding query_pair
query_pair_iff v (a, b) = by_strings (string_list (list v))
  where
    by_strings : (o : Option (List Text)) → (pair_of o ≡ ok (a, b)) ↔ (o ≡ some (a ∷ b ∷ []))
    by_strings (some (c ∷ d ∷ [])) = (
      λ h.
          let p = ok-injective (c, d) (a, b) h in
          ap₂ (λ x y. some (x ∷ y ∷ [])) (ap (λ (q : Pair). q.0) p) (ap (λ (q : Pair). q.1) p),
      λ h. let first : c ≡ a = cc in let second : d ≡ b = cc in ap₂ (λ x y. ok (x, y)) first second,
    )
    by_strings none = (λ h. cc, λ h. cc)
    by_strings (some []) = (λ h. cc, λ h. cc)
    by_strings (some (c ∷ [])) = (λ h. cc, λ h. cc)
    by_strings (some (c ∷ d ∷ e ∷ l)) = (λ h. cc, λ h. cc)

-- distinct pairs of strings, ascending by UTF-16 code units
pub record IsCanonicalQuery (pairs : List Pair) : Type 0 where
  pub distinct_members : Nodup pairs
  pub encodable : All IsEncodable pairs
  pub ascending : IsSorted total_key pairs

abbrev pub IsQuery : Value → Type 0
IsQuery v =
    (vs : List Value) × ((list v ≡ some vs)
      × ((pairs : List Pair) × (Pointwise IsPair vs pairs × IsCanonicalQuery pairs)))

pub check_query_iff : (v : Value) → (check_query v ≡ ok tt) ↔ IsQuery v
unfolding check_query sorted_pairs
check_query_iff v =
    iff_trans
      (bind_iff (some_or_fail (list v) "request query must be an array") _ (some_iff (list v) _)
        λ vs.
          bind_iff (traverse query_pair vs) _ (traverse_iff IsPair query_pair query_pair_iff vs)
            λ pairs.
              then_iff _ _
                (iff_trans (require_iff (distinct_pairs pairs) _) (distinct_pairs_iff pairs))
                (bind_iff (sorted_pairs pairs) _
                  (λ out.
                    drop_iff (traverse pair_key pairs) (ok (sorted_by total_key pairs))
                      (discard-traverse_iff pair_key pair_key_iff pairs)
                      (ok_iff (sorted_by total_key pairs) out))
                  λ out.
                    iff_trans (require_iff (same_pairs pairs out) _) (same_pairs_iff pairs out)))
      (
        λ (vs, e, (pairs, are_pairs, (unique, (out, (encodable, sorts), fixed)))). (
          vs,
          (
            e,
            (
              pairs,
              (
                are_pairs,
                record {
                  distinct_members = unique;
                  encodable = encodable;
                  ascending =
                      subst (IsSorted total_key) (sorts ∙ sym fixed)
                        (sorted_by-IsSorted total_key pairs);
                },
              ),
            ),
          ),
        ),
        λ (vs, (e, (pairs, (are_pairs, c)))). (
          vs,
          e,
          (
            pairs,
            are_pairs,
            (
              c.distinct_members,
              (pairs, (c.encodable, sorted_by_of_IsSorted total_key pairs c.ascending), refl),
            ),
          ),
        ),
      )
