-- ===== src/Evidence/Ledger/Branches.antt =====
-- Which residuals are accepted, which findings resolved and which deferred.
use qing_yin.Prelude.{
  All, List, Option, Result, [], contains, false, map, none, ok, refl, same_iff, some, true, ◌>>=◌,
  ◌↔◌, ◌∷◌, ◌≡◌, ◌⊎◌,
}
use qing_yin.Prelude.Checks.{
  and_iff, bind_iff, branch_iff, each_iff, iff_trans, require_iff, then_iff,
}
use qing_yin.Text.{Text, lit}
use qing_yin.Json.{Fields, Value, boolean, is_true, item, str}
use qing_yin.Timestamp.{Stamp, require_utc_timestamp}
use qing_yin.Timestamp.Order.{no_later}
use qing_yin.Timestamp.Printing.{IsStamp, print_stamp}
use qing_yin.Shape.{list, require_exact_object, some_or_raise}
use qing_yin.Shape.Digests.{Document, Has, HasText, item_iff, require_exact_object_iff}
use qing_yin.Evidence.Attestation.{positive, require_item}
use qing_yin.Evidence.Attestation.Accepted.{
  IsPositive, IsTimestamp, positive_iff, require_item_iff, require_text_iff,
  require_utc_timestamp_iff,
}
use qing_yin.Evidence.Access.{earlier, require_unchanged, strptime}
use qing_yin.Evidence.Access.Read.{
  Same, SameAt, require_equal_iff, require_unchanged_iff, some_or_raise_iff, strptime_iff,
}
use qing_yin.Evidence.Inventory.{lookup}
use qing_yin.Evidence.Ledger.{residual_scopes, residual_section_sha256, residual_valid_until}
use qing_yin.Evidence.Ledger.Shape.{Context, expected_residual_ids}
use qing_yin.Evidence.Ledger.Residual.{
  acceptance_keys, acceptance_v1, acceptance_v2, affirmed, bound_fields, check_acceptance,
  check_accepted, check_residual, check_transition, derived_status_entries, is_one_time, not_empty,
  owner_id, present, require_entry, some_invalidators,
}

abbrev pub IsNonemptyList : Value → Type 0
IsNonemptyList v = (w : Value) × (ws : List Value) × (list v ≡ some (w ∷ ws))

pub some_invalidators_iff : (v : Value) → (some_invalidators v ≡ ok tt) ↔ IsNonemptyList v
some_invalidators_iff v = iff_trans (require_iff _ _) (by_list (list v))
  where
    by_list :
        (o : Option (List Value))
        → (not_empty o ≡ true) ↔ ((w : Value) × (ws : List Value) × (o ≡ some (w ∷ ws)))
    by_list none = (λ h. cc, λ (w, ws, e). cc)
    by_list (some []) = (λ h. cc, λ (w, ws, e). cc)
    by_list (some (w ∷ ws)) = (λ h. (w, ws, refl), λ h. refl)

-- the time at a key, as described
abbrev pub HasTime : Fields → Text → (Stamp → Type 0) → Type 0
HasTime d key P = Has d key (λ v. (s : Stamp) × ((v ≡ str (print_stamp s)) × IsStamp s) × P s)

has_time_iff :
    {P : Stamp → Type 0} (d : Fields) (key : Text) (next : Stamp → Result (Unit {0}))
    → ((s : Stamp) → (next s ≡ ok tt) ↔ P s)
    → ((do v ← item key d; s ← strptime v; next s) ≡ ok tt) ↔ HasTime d key P
has_time_iff d key next h =
    bind_iff (item key d) _ (item_iff key d) λ v. bind_iff (strptime v) next (strptime_iff v) h

-- a P1 that this target may accept, with owner, scope and expiry as fixed, before it expires
abbrev pub IsResidual : Context → Fields → Text → Type 0
IsResidual x d id =
    HasText d (lit "severity") (lit "P1")
    × ((contains id (expected_residual_ids x.target_type) ≡ true)
        × (HasText d (lit "owner") (lit "ZhangIvan")
            × ((scope : Text) × (lookup id residual_scopes ≡ some scope)
                × (HasText d (lit "scope") scope
                    × (Has d (lit "invalidators") IsNonemptyList
                        × (Has d (lit "valid_until") IsTimestamp
                            × (HasText d (lit "valid_until") residual_valid_until
                                × HasTime d (lit "valid_until")
                                    (λ s. earlier x.cutoff s ≡ true))))))))

check_residual_iff :
    (x : Context) (d : Fields) (id : Text) → (check_residual x d id ≡ ok tt) ↔ IsResidual x d id
unfolding check_residual
check_residual_iff x d id = then_iff _ _ (require_text_iff d _ _ _) (
    then_iff _ _ (require_iff (contains id (expected_residual_ids x.target_type)) _) (
      then_iff _ _ (require_text_iff d _ _ _) (
        bind_iff (some_or_raise (lookup id residual_scopes) "KeyError") _
          (some_or_raise_iff (lookup id residual_scopes) "KeyError")
          λ scope. then_iff _ _ (require_text_iff d _ _ _) (
            then_iff _ _ (require_item_iff d some_invalidators _ some_invalidators_iff) (
              then_iff _ _ (require_item_iff d require_utc_timestamp _ require_utc_timestamp_iff) (
                then_iff _ _ (require_text_iff d _ _ _) (
                  has_time_iff d (lit "valid_until") _
                    λ s. require_iff (earlier x.cutoff s) _)))))))

-- the acceptance of the one-time residual is bound to this pull request and candidate
abbrev pub IsOneTimeAcceptance : Context → Fields → Text → Type 0
IsOneTimeAcceptance x a id =
    HasText a (lit "schema") (lit "gvn-finding-acceptance-v2")
    × (HasText a (lit "finding_id") id
        × (All (λ k. Has x.root k (λ v. Unit)) bound_fields
            × (All (SameAt a x.root) bound_fields
                × (HasText a (lit "target_type") x.target_type
                    × (HasText a (lit "resolution_trigger")
                          (lit "trusted-signed-time-or-validator-direct-fetch-or-trusted-collector")
                        × Has a (lit "derived_status") (
                            Document (map (λ (e : Text × Text). e.0) derived_status_entries) λ d.
                              All (λ (e : Text × Text). HasText d e.0 e.1)
                                derived_status_entries))))))

acceptance_v2_iff :
    (x : Context) (a : Fields) (id : Text)
    → (acceptance_v2 x a id ≡ ok tt) ↔ IsOneTimeAcceptance x a id
unfolding acceptance_v2
acceptance_v2_iff x a id = then_iff _ _ (require_text_iff a _ _ _) (
    then_iff _ _ (require_text_iff a _ _ _) (
      then_iff _ _
        (each_iff (require_item x.root present)
          (λ k. require_item_iff x.root present k λ v. (λ h. tt, λ h. refl)) bound_fields)
        (then_iff _ _
          (each_iff (require_unchanged a x.root _) (λ k. require_unchanged_iff a x.root _ k)
            bound_fields)
          (then_iff _ _ (require_text_iff a _ _ _) (
            then_iff _ _ (require_text_iff a _ _ _) (
              bind_iff (item (lit "derived_status") a) _ (item_iff (lit "derived_status") a) λ v.
                bind_iff (require_exact_object v _) _ (require_exact_object_iff v _) λ d.
                  each_iff (require_entry d) (λ e. require_text_iff d e.0 e.1 _)
                    derived_status_entries))))))

-- the form of an acceptance depends on the id
abbrev pub IsAcceptance : Context → Fields → Text → Type 0
IsAcceptance x a id =
    ((id ≡ lit "GVN-P1-005") × IsOneTimeAcceptance x a id)
    ⊎ (((id ≡ lit "GVN-P1-005") → ⊥) × HasText a (lit "schema") (lit "gvn-finding-acceptance-v1"))

check_acceptance_iff :
    (x : Context) (a : Fields) (id : Text) → (check_acceptance x a id ≡ ok tt) ↔ IsAcceptance x a id
unfolding check_acceptance acceptance_v1
check_acceptance_iff x a id =
    branch_iff (is_one_time id) _ _ (same_iff id (lit "GVN-P1-005")) (acceptance_v2_iff x a id)
      (require_text_iff a _ _ _)

-- from Open, for this candidate, after the last review and within the snapshot
abbrev pub IsTransition : Context → Fields → Text → Text → Type 0
IsTransition x e transition time_key =
    HasText e (lit "from_status") (lit "Open")
    × (HasText e (lit "transition") transition
        × (SameAt e x.root (lit "candidate_head")
            × (Has e time_key IsTimestamp
                × HasTime e time_key
                    (λ s. (no_later x.latest_review s ≡ true) × (no_later s x.cutoff ≡ true)))))

pub check_transition_iff :
    (x : Context) (e : Fields) (transition time_key : Text)
    → (check_transition x e transition time_key ≡ ok tt) ↔ IsTransition x e transition time_key
unfolding check_transition
check_transition_iff x e transition time_key = then_iff _ _ (require_text_iff e _ _ _) (
    then_iff _ _ (require_text_iff e _ _ _) (
      then_iff _ _ (require_unchanged_iff e x.root _ _) (
        then_iff _ _ (require_item_iff e require_utc_timestamp _ require_utc_timestamp_iff) (
          has_time_iff e time_key _ λ s. iff_trans (require_iff _ _) (
            and_iff (no_later x.latest_review s) (no_later s x.cutoff) (λ h. h, λ h. h)
              (λ h. h, λ h. h))))))

affirmed_iff : (v : Value) → (affirmed v ≡ ok tt) ↔ (v ≡ boolean true)
unfolding is_true
affirmed_iff (boolean true) = (λ h. refl, λ h. refl)
affirmed_iff (boolean false) = (λ h. cc, λ h. cc)
affirmed_iff _ = (λ h. cc, λ h. cc)

-- signed by the owner
abbrev pub IsSigned : Fields → Text → Text → Type 0
IsSigned e login_key id_key =
    HasText e login_key (lit "ZhangIvan") × (Has e id_key IsPositive × Has e id_key (Same owner_id))

-- the acceptance of a residual, which the owner signs
abbrev pub IsAcceptedResidual : Context → Fields → Text → Type 0
IsAcceptedResidual x d id =
    IsResidual x d id
    × Has d (lit "evidence") (
        Document (acceptance_keys id) λ a.
          IsAcceptance x a id
          × (IsTransition x a (lit "Open->Accepted-Residual") (lit "accepted_at")
              × (IsSigned a (lit "accepted_by") (lit "accepted_by_id")
                  × (HasText a (lit "decision") (lit "DEC-20260829-001")
                      × ((section : Text) × (lookup id residual_section_sha256 ≡ some section)
                          × (HasText a (lit "section_sha256") section
                              × (Has a (lit "verification_reports") (Same x.reports)
                                  × Has a (lit "owner_attestation_required")
                                      (λ v. v ≡ boolean true))))))))

pub check_accepted_iff :
    (x : Context) (d : Fields) (id : Text)
    → (check_accepted x d id ≡ ok tt) ↔ IsAcceptedResidual x d id
unfolding check_accepted
check_accepted_iff x d id = then_iff _ _ (check_residual_iff x d id) (
    bind_iff (item (lit "evidence") d) _ (item_iff (lit "evidence") d) λ v.
      bind_iff (require_exact_object v (acceptance_keys id)) _
        (require_exact_object_iff v (acceptance_keys id))
        λ a. then_iff _ _ (check_acceptance_iff x a id) (
          then_iff _ _ (check_transition_iff x a _ _) (
            iff_trans
              (then_iff _ _ (require_text_iff a _ _ _) (
                then_iff _ _ (require_item_iff a positive _ positive_iff) (
                  then_iff _ _ (require_equal_iff a _ owner_id _) (
                    then_iff _ _ (require_text_iff a _ _ _) (
                      bind_iff (some_or_raise (lookup id residual_section_sha256) "KeyError") _
                        (some_or_raise_iff (lookup id residual_section_sha256) "KeyError")
                        λ section. then_iff _ _ (require_text_iff a _ _ _) (
                          then_iff _ _ (require_equal_iff a _ x.reports _)
                            (require_item_iff a affirmed _ affirmed_iff)))))))
              (
                λ (l, (p, (o, rest))). ((l, (p, o)), rest),
                λ ((l, (p, o)), rest). (l, (p, (o, rest))),
              ))))
