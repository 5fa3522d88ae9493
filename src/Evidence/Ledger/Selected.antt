-- ===== src/Evidence/Ledger/Selected.antt =====
-- Which files of a candidate `resolution_patch_digest` of scripts/validate_governance_state.py
-- selects.
use qing_yin.Prelude.{
  All, Bool, Bool-cases, List, [], any, ap, false, inl, inr, not, ok, refl, subst, traverse, true,
  ◌↔◌, ◌∙◌, ◌∷◌, ◌≡◌, ◌⊎◌,
}
use qing_yin.Prelude.Checks.{
  Pointwise, bind_iff, iff_trans, ok_iff, require_iff, self_iff, then_iff, traverse_iff,
}
use qing_yin.Text.{Text, lit}
use qing_yin.Json.{Fields, Value, get, get_or_null, is_text, obj, str}
use qing_yin.Shape.{dict, some_or_raise, text}
use qing_yin.Shape.Digests.{HasText, HasText-of_get_or_null}
use qing_yin.Evidence.Access.Read.{raise_dict_iff}
use qing_yin.Evidence.Bodies.{is_space}
use qing_yin.Evidence.Ledger.Resolution.{
  changes_of, chosen, has_content, is_above_zero, only_entry, select_file, with_name,
}

module _ (path : Text) where
  abbrev Named : Fields → Type 0
  Named d = is_text path (get_or_null (lit "filename") d) ≡ true

  -- no object of the list has the file name
  abbrev pub NoneNamed : List Value → Type 0
  NoneNamed vs = All (λ v. (d : Fields) × (v ≡ obj d) × (HasText d (lit "filename") path → ⊥)) vs

  -- the entry is the one object of the list with the file name
  abbrev pub IsOnly : Fields → List Value → Type 0
  IsOnly entry [] = ⊥
  IsOnly entry (v ∷ vs) =
      (d : Fields) × (v ≡ obj d)
      × ((HasText d (lit "filename") path × ((d ≡ entry) × NoneNamed vs))
          ⊎ ((HasText d (lit "filename") path → ⊥) × IsOnly entry vs))

  abbrev IsNamed : Value → Bool × Fields → Type 0
  IsNamed v n = (v ≡ obj n.1) × (is_text path (get_or_null (lit "filename") n.1) ≡ n.0)

  with_name_iff : (v : Value) (n : Bool × Fields) → (with_name path v ≡ ok n) ↔ IsNamed v n
  with_name_iff v n =
      iff_trans
        (bind_iff (some_or_raise (dict v) "AttributeError") _ (raise_dict_iff v "AttributeError")
          λ d. ok_iff (is_text path (get_or_null (lit "filename") d), d) n)
        (λ (d, e, q). subst (IsNamed v) q (e, refl), λ (e, b). (n.1, e, ap (λ t. (t, n.1)) b))

  of_Named : (d : Fields) → Named d → HasText d (lit "filename") path
  of_Named d = (HasText-of_get_or_null (lit "filename") path d).0

  unnamed_of :
      (d : Fields)
      → is_text path (get_or_null (lit "filename") d) ≡ false
      → HasText d (lit "filename") path
      → ⊥
  unnamed_of d b h = cc ((HasText-of_get_or_null (lit "filename") path d).1 h)

  rest_sound :
      (vs : List Value) (ns : List (Bool × Fields))
      → Pointwise IsNamed vs ns
      → chosen ns ≡ []
      → NoneNamed vs
  rest_sound [] [] p c = tt
  rest_sound [] (n ∷ ns) p c = absurd p
  rest_sound (v ∷ vs) [] p c = absurd p
  rest_sound (v ∷ vs) ((true, d) ∷ ns) p c = cc
  rest_sound (v ∷ vs) ((false, d) ∷ ns) ((e, b), p) c =
      ((d, e, unnamed_of d b), rest_sound vs ns p c)

  sound :
      (entry : Fields) (vs : List Value) (ns : List (Bool × Fields))
      → Pointwise IsNamed vs ns
      → chosen ns ≡ entry ∷ []
      → IsOnly entry vs
  sound entry [] [] p c = cc
  sound entry [] (n ∷ ns) p c = absurd p
  sound entry (v ∷ vs) [] p c = absurd p
  sound entry (v ∷ vs) ((true, d) ∷ ns) ((e, b), p) c =
      (d, e, inl (of_Named d b, (cc, rest_sound vs ns p cc)))
  sound entry (v ∷ vs) ((false, d) ∷ ns) ((e, b), p) c =
      (d, e, inr (unnamed_of d b, sound entry vs ns p c))

  false_of :
      (d : Fields)
      → (HasText d (lit "filename") path → ⊥)
      → is_text path (get_or_null (lit "filename") d) ≡ false
  false_of d f = elim (Bool-cases (is_text path (get_or_null (lit "filename") d))) [
    | inl e ↦ absurd (f (of_Named d e))
    | inr e ↦ e
  ]

  rest_complete :
      (vs : List Value)
      → NoneNamed vs
      → (ns : List (Bool × Fields)) × Pointwise IsNamed vs ns × (chosen ns ≡ [])
  rest_complete [] h = ([], tt, refl)
  rest_complete (v ∷ vs) ((d, e, f), h) =
      let (ns, p, c) = rest_complete vs h in ((false, d) ∷ ns, ((e, false_of d f), p), c)

  complete :
      (entry : Fields) (vs : List Value)
      → IsOnly entry vs
      → (ns : List (Bool × Fields)) × Pointwise IsNamed vs ns × (chosen ns ≡ entry ∷ [])
  complete entry [] h = absurd h
  complete entry (v ∷ vs) (d, e, inl (named, (same_entry, h))) =
      let (ns, p, c) = rest_complete vs h in
      (
        (true, d) ∷ ns,
        ((e, (HasText-of_get_or_null (lit "filename") path d).1 named), p),
        rw (same_entry, c) refl,
      )
  complete entry (v ∷ vs) (d, e, inr (f, h)) =
      let (ns, p, c) = complete entry vs h in ((false, d) ∷ ns, ((e, false_of d f), p), c)

  only_entry_iff :
      (found : List Fields) (entry : Fields) → (only_entry found ≡ ok entry) ↔ (found ≡ entry ∷ [])
  only_entry_iff [] entry = (λ h. cc, λ h. cc)
  only_entry_iff (d ∷ []) entry = (λ h. cc, λ h. cc)
  only_entry_iff (d ∷ d2 ∷ ds) entry = (λ h. cc, λ h. cc)

-- some character is no white space
abbrev pub IsInked : Value → Type 0
IsInked v = (t : Text) × (v ≡ str t) × (any (λ c. not (is_space c)) t ≡ true)

has_content_iff : (v : Value) → (has_content (text v) ≡ true) ↔ IsInked v
unfolding text
has_content_iff (str t) = (λ h. (t, refl, h), λ (u, e, h). let equal : t ≡ u = cc in rw equal h)
has_content_iff _ = (λ h. cc, λ (u, e, h). cc)

-- the file of the path with a patch and changes
abbrev pub IsSelected : List Value → Text → Value → Type 0
IsSelected files path v =
    (entry : Fields) × IsOnly path entry files
    × (IsInked (get_or_null (lit "patch") entry)
        × ((is_above_zero (changes_of (get (lit "changes") entry)) ≡ ok true) × (obj entry ≡ v)))

pub select_file_iff :
    (files : List Value) (path : Text) (v : Value)
    → (select_file files path ≡ ok v) ↔ IsSelected files path v
unfolding select_file
select_file_iff files path v =
    iff_trans
      (bind_iff (traverse (with_name path) files) _
        (traverse_iff (IsNamed path) (with_name path) (with_name_iff path) files)
        λ named.
          bind_iff (only_entry (chosen named)) _ (only_entry_iff path (chosen named)) λ entry.
            then_iff _ _
              (iff_trans (require_iff _ _) (has_content_iff (get_or_null (lit "patch") entry)))
              (iff_trans
                (bind_iff (is_above_zero (changes_of (get (lit "changes") entry))) _
                  (self_iff (is_above_zero (changes_of (get (lit "changes") entry))))
                  λ b. then_iff _ _ (require_iff b _) (ok_iff (obj entry) v))
                (λ (b, e, (t, o)). (e ∙ ap ok t, o), λ (e, o). (true, e, (refl, o)))))
      (
        λ (named, p, (entry, c, rest)). (entry, sound path entry files named p c, rest),
        λ (entry, only, rest).
            let (named, p, c) = complete path entry files only in (named, p, (entry, c, rest)),
      )
