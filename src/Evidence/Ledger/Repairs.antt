-- ===== src/Evidence/Ledger/Repairs.antt =====
-- What the digest of a resolution's repair is, and which findings are resolved or deferred.
use qing_yin.Prelude.{List, Option, [], none, ok, refl, some, traverse, true, ℕ, ◌↔◌, ◌∷◌, ◌≡◌}
use qing_yin.Prelude.Checks.{
  Pointwise, bind_iff, iff_trans, ok_iff, require_iff, self_iff, then_iff, traverse_iff,
}
use qing_yin.Text.{Bytes, Text, lit}
use qing_yin.Json.{Fields, Value, get_or_null, item, null, obj, str}
use qing_yin.Platform.{Platform}
use qing_yin.Json.Canonical.{canonical_json_v1}
use qing_yin.Shape.{
  dict, list, require_exact_object, require_sha256, require_sorted_unique_strings, some_or_fail,
  some_or_raise, string_list, text,
}
use qing_yin.Shape.Digests.{
  Document, Has, HasText, IsHex, is_null_iff, item_iff, require_exact_object_iff,
  require_sha256_iff,
}
use qing_yin.Shape.Named.{some_iff}
use qing_yin.Shape.Strings.{IsCanonical, require_sorted_unique_strings_iff}
use qing_yin.Evidence.Attestation.{positive}
use qing_yin.Evidence.Attestation.Accepted.{positive_iff, require_item_iff, require_text_iff}
use qing_yin.Evidence.Access.Read.{
  Same, SameAt, raise_dict_iff, require_equal_iff, require_unchanged_iff, some_or_raise_iff,
}
use qing_yin.Evidence.Bundle.{Reader}
use qing_yin.Evidence.Responses.{response_value}
use qing_yin.Evidence.Ledger.Shape.{Context}
use qing_yin.Evidence.Ledger.Residual.{owner_id, some_invalidators}
use qing_yin.Evidence.Ledger.Resolution.{
  check_deferred, check_patch, check_resolved, deferral_keys, given, is_pair, no_expiry,
  require_candidate_paths, resolution_keys, resolution_patch, resolution_patch_digest, select_file,
  some_paths, two_reports,
}
use qing_yin.Evidence.Ledger.Branches.{
  IsNonemptyList, IsSigned, IsTransition, check_transition_iff, some_invalidators_iff,
}
use qing_yin.Evidence.Ledger.Selected.{IsSelected, select_file_iff}

-- the candidate commit of the paths is the root's
abbrev pub IsCandidateOf : Fields → Fields → Type 0
IsCandidateOf root candidate =
    Has root (lit "candidate_head") (Same (get_or_null (lit "commit") candidate))
    × Has root (lit "candidate_tree") (Same (get_or_null (lit "tree") candidate))

-- The digest is the hash of the candidate's own files at the repair paths.
abbrev pub IsPatchDigest : Platform → Reader → Text → Fields → Option Fields → Value → Text → Type 0
IsPatchDigest p r id root paths_bundle repair_paths digest =
    (bundle : Fields) × (paths_bundle ≡ some bundle)
    × ((paths : List Text) × ((string_list (list repair_paths) ≡ some paths) × IsCanonical paths)
        × ((some_paths paths ≡ true)
            × ((candidate_value : Value) × (response_value p r bundle (lit "candidate-commit")
                  ≡ ok candidate_value)
                × ((candidate : Fields) × (candidate_value ≡ obj candidate)
                    × (IsCandidateOf root candidate
                        × ((files_value : Value) × (response_value p r bundle (lit "pull-files")
                              ≡ ok files_value)
                            × ((files : List Value) × (list files_value ≡ some files)
                                × ((selected : List Value) × Pointwise (IsSelected files) paths
                                      selected
                                    × ((patch : Value) × (resolution_patch id root selected
                                          ≡ ok patch)
                                        × ((bytes : Bytes) × (canonical_json_v1 p patch ≡ ok bytes)
                                            × (p.sha256 bytes ≡ digest)))))))))))

resolution_patch_digest_iff :
    (p : Platform) (r : Reader) (id : Text) (root : Fields) (paths_bundle : Option Fields)
    (repair_paths : Value) (digest : Text)
    → (resolution_patch_digest p r id root paths_bundle repair_paths ≡ ok digest)
      ↔ IsPatchDigest p r id root paths_bundle repair_paths digest
unfolding resolution_patch_digest require_candidate_paths
resolution_patch_digest_iff p r id root paths_bundle repair_paths digest =
    bind_iff (some_or_fail paths_bundle _) _ (some_iff paths_bundle _) λ bundle.
      bind_iff (require_sorted_unique_strings repair_paths) _
        (require_sorted_unique_strings_iff repair_paths)
        λ paths. then_iff _ _ (require_iff (some_paths paths) _) (
          bind_iff (response_value p r bundle (lit "candidate-commit")) _
            (self_iff (response_value p r bundle (lit "candidate-commit")))
            λ c.
              bind_iff (some_or_raise (dict c) "AttributeError") _
                (raise_dict_iff c "AttributeError")
                λ candidate.
                  then_iff _ _
                    (then_iff _ _ (require_equal_iff root _ _ _) (require_equal_iff root _ _ _))
                    (bind_iff (response_value p r bundle (lit "pull-files")) _
                      (self_iff (response_value p r bundle (lit "pull-files")))
                      λ f.
                        bind_iff (some_or_raise (list f) "TypeError") _
                          (some_or_raise_iff (list f) "TypeError")
                          λ files.
                            bind_iff (traverse (select_file files) paths) _
                              (traverse_iff (IsSelected files) (select_file files)
                                (select_file_iff files) paths)
                              λ selected.
                                bind_iff (resolution_patch id root selected) _
                                  (self_iff (resolution_patch id root selected))
                                  λ patch.
                                    bind_iff (canonical_json_v1 p patch) _
                                      (self_iff (canonical_json_v1 p patch))
                                      λ bytes. ok_iff (p.sha256 bytes) digest))

-- the recorded hash is a SHA-256 and the digest of the repair
abbrev pub IsPatched : Platform → Reader → Context → Fields → Text → Type 0
IsPatched p r x e id =
    Has e (lit "patch_sha256") (IsHex 64)
    × Has e (lit "repair_paths") (λ repair_paths.
      (digest : Text) × IsPatchDigest p r id x.root x.paths_bundle repair_paths digest
      × HasText e (lit "patch_sha256") digest)

check_patch_iff :
    (p : Platform) (r : Reader) (x : Context) (e : Fields) (id : Text)
    → (check_patch p r x e id ≡ ok tt) ↔ IsPatched p r x e id
unfolding check_patch
check_patch_iff p r x e id = then_iff _ _ (require_item_iff e require_sha256 _ require_sha256_iff) (
    bind_iff (item (lit "repair_paths") e) _ (item_iff (lit "repair_paths") e) λ v.
      bind_iff (resolution_patch_digest p r id x.root x.paths_bundle v) _
        (resolution_patch_digest_iff p r id x.root x.paths_bundle v)
        λ digest. require_text_iff e _ digest _)

abbrev pub IsPair : Value → Type 0
IsPair v = (a : Value) × (b : Value) × (list v ≡ some (a ∷ b ∷ []))

two_reports_iff : (v : Value) → (two_reports v ≡ ok tt) ↔ IsPair v
two_reports_iff v = iff_trans (require_iff _ _) (by_list (list v))
  where
    by_list :
        (o : Option (List Value))
        → (is_pair o ≡ true) ↔ ((a : Value) × (b : Value) × (o ≡ some (a ∷ b ∷ [])))
    by_list none = (λ h. cc, λ (a, b, e). cc)
    by_list (some []) = (λ h. cc, λ (a, b, e). cc)
    by_list (some (a ∷ [])) = (λ h. cc, λ (c, b, e). cc)
    by_list (some (a ∷ b ∷ [])) = (λ h. (a, b, refl), λ h. refl)
    by_list (some (a ∷ b ∷ c ∷ l)) = (λ h. cc, λ (d, e, f). cc)

no_expiry_iff : (v : Value) → (no_expiry v ≡ ok tt) ↔ (v ≡ null)
no_expiry_iff v = iff_trans (require_iff _ _) (is_null_iff v)

-- resolved by a repair of the candidate that both fresh reviews report on
abbrev pub IsResolved : Platform → Reader → Context → Fields → Text → Type 0
IsResolved p r x d id = Has d (lit "evidence") (
    Document resolution_keys λ e.
      HasText e (lit "schema") (lit "gvn-finding-resolution-v2")
      × (IsTransition x e (lit "Open->Resolved") (lit "resolved_at")
          × (IsPatched p r x e id
              × (Has e (lit "verification_reports") IsPair
                  × (Has e (lit "verification_reports") (Same x.reports)
                      × (Has d (lit "invalidators") IsNonemptyList
                          × Has d (lit "valid_until") (λ v. v ≡ null)))))))

pub check_resolved_iff :
    (p : Platform) (r : Reader) (x : Context) (d : Fields) (id : Text)
    → (check_resolved p r x d id ≡ ok tt) ↔ IsResolved p r x d id
unfolding check_resolved
check_resolved_iff p r x d id =
    bind_iff (item (lit "evidence") d) _ (item_iff (lit "evidence") d) λ v.
      bind_iff (require_exact_object v resolution_keys) _
        (require_exact_object_iff v resolution_keys)
        λ e. then_iff _ _ (require_text_iff e _ _ _) (
          then_iff _ _ (check_transition_iff x e _ _) (
            then_iff _ _ (check_patch_iff p r x e id) (
              then_iff _ _ (require_item_iff e two_reports _ two_reports_iff) (
                then_iff _ _ (require_equal_iff e _ x.reports _) (
                  then_iff _ _ (require_item_iff d some_invalidators _ some_invalidators_iff)
                    (require_item_iff d no_expiry _ no_expiry_iff))))))

abbrev pub IsNonemptyText : Value → Type 0
IsNonemptyText v = (c : ℕ) × (s : Text) × (v ≡ str (c ∷ s))

given_iff : (v : Value) → (given v ≡ ok tt) ↔ IsNonemptyText v
unfolding text
given_iff (str []) = (λ h. cc, λ (c, s, e). cc)
given_iff (str (c ∷ s)) = (λ h. (c, s, refl), λ h. refl)
given_iff _ = (λ h. cc, λ (c, s, e). cc)

-- a P2 that the owner defers with the disposition of the finding
abbrev pub IsDeferred : Context → Fields → Type 0
IsDeferred x d =
    HasText d (lit "severity") (lit "P2")
    × (Has d (lit "disposition") IsNonemptyText
        × (Has d (lit "valid_until") (λ v. v ≡ null)
            × Has d (lit "evidence") (
                Document deferral_keys λ e.
                  HasText e (lit "schema") (lit "gvn-finding-deferral-v1")
                  × (IsTransition x e (lit "Open->Deferred-P2") (lit "deferred_at")
                      × (IsSigned e (lit "deferred_by") (lit "deferred_by_id")
                          × (SameAt e d (lit "disposition")
                              × Has e (lit "verification_reports") (Same x.reports)))))))

pub check_deferred_iff : (x : Context) (d : Fields) → (check_deferred x d ≡ ok tt) ↔ IsDeferred x d
unfolding check_deferred
check_deferred_iff x d = then_iff _ _ (require_text_iff d _ _ _) (
    then_iff _ _ (require_item_iff d given _ given_iff) (
      then_iff _ _ (require_item_iff d no_expiry _ no_expiry_iff) (
        bind_iff (item (lit "evidence") d) _ (item_iff (lit "evidence") d) λ v.
          bind_iff (require_exact_object v deferral_keys) _
            (require_exact_object_iff v deferral_keys)
            λ e. then_iff _ _ (require_text_iff e _ _ _) (
              then_iff _ _ (check_transition_iff x e _ _) (
                iff_trans
                  (then_iff _ _ (require_text_iff e _ _ _) (
                    then_iff _ _ (require_item_iff e positive _ positive_iff) (
                      then_iff _ _ (require_equal_iff e _ owner_id _) (
                        then_iff _ _ (require_unchanged_iff e d _ _)
                          (require_equal_iff e _ x.reports _)))))
                  (
                    λ (l, (p, (o, rest))). ((l, (p, o)), rest),
                    λ ((l, (p, o)), rest). (l, (p, (o, rest))),
                  ))))))
