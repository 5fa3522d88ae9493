-- ===== src/Evidence/Publication/Comments.antt =====
-- Which pairs of comments count as the same.
use qing_yin.Prelude.{
  All, List, Option, [], ap, contains, false, none, ok, refl, same, same_iff, some, subst, sym,
  true, ℕ, ◌<◌, ◌↔◌, ◌∙◌, ◌∷◌, ◌≡◌, ◌≤◌, ◌⊎◌,
}
use qing_yin.Prelude.Checks.{
  all_iff, bind_iff, each_iff, iff_trans, not_iff, ok_iff, or_iff, require_iff, then_iff,
}
use qing_yin.Prelude.Int.{pos}
use qing_yin.Text.{Bytes, Text, lit}
use qing_yin.Regex.Language.{Denotes, fullmatch_iff}
use qing_yin.Json.{Fields, Value, entries, get, get_or_null, int, item, keys, null, obj, str}
use qing_yin.Json.Scalar.{safe_integer_limit}
use qing_yin.Integer.{require_positive_int}
use qing_yin.Integer.Bounds.{require_positive_int_iff}
use qing_yin.Shape.{dict, some_or_fail, text}
use qing_yin.Shape.Digests.{is_null_iff, some_dict_iff}
use qing_yin.Evidence.Request.{is_container}
use qing_yin.Evidence.Publication.{
  absent_or_null, avatar_pattern, check_avatar, check_native, check_reactions, check_user,
  flat_items, has_only, is_avatar, is_flat, is_flat_entry, native_comment_keys,
  native_comment_reaction_keys, native_comment_user_keys, nullable_fields, put,
  validate_issue_comment_endpoint_equivalence, without,
}
use qing_yin.Platform.{Platform}
use qing_yin.Json.Canonical.{canonical_json_v1}

abbrev pub OnlyKeys : List Text → Fields → Type 0
OnlyKeys names d = All (λ k. contains k names ≡ true) (keys d)

-- neither an object nor an array
abbrev pub IsFlat : Value → Type 0
IsFlat v = is_container v ≡ false

abbrev pub IsFlatObject : Fields → Type 0
IsFlatObject d = All (λ (e : Text × Value). IsFlat e.1) (entries d)

-- no reactions, or a flat object of the known keys
abbrev pub HasReactions : Option Value → Type 0
HasReactions none = Unit
HasReactions (some v) =
    (reactions : Fields) × (v ≡ obj reactions)
    × (OnlyKeys native_comment_reaction_keys reactions × IsFlatObject reactions)

abbrev pub IsNative : Fields → Type 0
IsNative item =
    OnlyKeys native_comment_keys item
    × ((get_or_null (lit "pin") item ≡ null)
        × (All (λ k. get_or_null k item ≡ null) nullable_fields
            × (HasReactions (get (lit "reactions") item)
                × All
                    (λ (e : Text × Value).
                      (contains e.0 (lit "user" ∷ lit "reactions" ∷ []) ≡ true) ⊎ IsFlat e.1)
                    (entries item))))

OnlyKeys_lem : (names : List Text) (d : Fields) → (has_only names d ≡ true) ↔ OnlyKeys names d
OnlyKeys_lem names d = all_iff (λ k. contains k names) (λ k. (λ h. h, λ h. h)) (keys d)

flat_items_lem : (d : Fields) → (flat_items d ≡ true) ↔ IsFlatObject d
flat_items_lem d =
    all_iff (λ (e : Text × Value). is_flat e.1) (λ e. not_iff (is_container e.1)) (entries d)

check_reactions_iff : (o : Option Value) → (check_reactions o ≡ ok tt) ↔ HasReactions o
unfolding check_reactions
check_reactions_iff none = (λ h. tt, λ h. refl)
check_reactions_iff (some v) = bind_iff (some_or_fail (dict v) _) _ (some_dict_iff v _) λ r.
    then_iff _ _ (iff_trans (require_iff _ _) (OnlyKeys_lem _ r))
      (iff_trans (require_iff _ _) (flat_items_lem r))

absent_iff :
    (item : Fields) (key : Text) → (absent_or_null item key ≡ true) ↔ (get_or_null key item ≡ null)
absent_iff item key = is_null_iff (get_or_null key item)

check_native_iff : (item : Fields) → (check_native item ≡ ok tt) ↔ IsNative item
unfolding check_native
check_native_iff item = then_iff _ _ (iff_trans (require_iff _ _) (OnlyKeys_lem _ item)) (
    then_iff _ _ (iff_trans (require_iff _ _) (absent_iff item (lit "pin"))) (
      then_iff _ _
        (each_iff _ (λ key. iff_trans (require_iff _ _) (absent_iff item key)) nullable_fields)
        (then_iff _ _ (check_reactions_iff (get (lit "reactions") item)) (
          iff_trans (require_iff _ _) (
            all_iff is_flat_entry
              (λ (e : Text × Value).
                or_iff (contains e.0 (lit "user" ∷ lit "reactions" ∷ [])) (is_flat e.1)
                  (λ h. h, λ h. h) (not_iff (is_container e.1)))
              (entries item))))))

-- a flat object of the known keys with a positive id
abbrev pub IsUser : Value → Fields × ℕ → Type 0
IsUser v (user, number) =
    (v ≡ obj user)
    × (((get_or_null (lit "id") user ≡ int (pos number))
          × (0 < number)
          × (number ≤ safe_integer_limit))
        × (OnlyKeys native_comment_user_keys user × IsFlatObject user))

check_user_iff : (v : Value) (u : Fields × ℕ) → (check_user v ≡ ok u) ↔ IsUser v u
unfolding check_user
check_user_iff v (user, number) =
    iff_trans
      (bind_iff (some_or_fail (dict v) _) _ (some_dict_iff v _) λ d.
        bind_iff (require_positive_int (get_or_null (lit "id") d)) _
          (require_positive_int_iff (get_or_null (lit "id") d))
          λ n. then_iff _ _ (iff_trans (require_iff _ _) (OnlyKeys_lem _ d)) (
            then_iff _ _ (iff_trans (require_iff _ _) (flat_items_lem d))
              (ok_iff (d, n) (user, number))))
      (
        λ (d, e, (n, r, (o, (f, pair)))).
            subst (λ (x : Fields × ℕ). IsUser v x) pair (e, (r, (o, f))),
        λ (e, (r, (o, f))). (user, e, (number, r, (o, (f, refl)))),
      )

-- the avatar URL is one that the pattern for the user's id matches as a whole
abbrev pub HasAvatar : Fields × ℕ → Type 0
HasAvatar (user, number) =
    (url : Text) × (get_or_null (lit "avatar_url") user ≡ str url)
    × Denotes (λ c. false) (avatar_pattern number) none url []

is_avatar_iff :
    (number : ℕ) (v : Value)
    → (is_avatar number (text v) ≡ true)
      ↔ ((url : Text) × (v ≡ str url) × Denotes (λ c. false) (avatar_pattern number) none url [])
unfolding text
is_avatar_iff number (str s) = iff_trans (fullmatch_iff (λ c. false) (avatar_pattern number) s) (
  λ d. (s, refl, d),
  λ (url, e, d).
      let same_url : url ≡ s = cc e in
      subst (λ t. Denotes (λ c. false) (avatar_pattern number) none t []) same_url d,
)
is_avatar_iff number _ = (λ h. cc, λ (url, e, d). cc)

-- the comment without its pin and its user's avatar URL
abbrev pub stripped : Fields → Fields → Fields
stripped item user =
    put (lit "user") (obj (without (lit "avatar_url") user)) (without (lit "pin") item)

check_avatar_iff :
    (item : Fields) (u : Fields × ℕ) (d : Fields)
    → (check_avatar item u ≡ ok d) ↔ (HasAvatar u × (stripped item u.0 ≡ d))
unfolding check_avatar
check_avatar_iff item (user, number) d =
    then_iff _ _
      (iff_trans (require_iff _ _) (is_avatar_iff number (get_or_null (lit "avatar_url") user)))
      (ok_iff (stripped item user) d)

-- a native comment, with the canonical bytes of what is compared of it
abbrev pub IsComment : Platform → Value → Bytes → Type 0
IsComment p v bytes =
    (item : Fields) × (v ≡ obj item)
    × (IsNative item
        × ((user : Fields × ℕ) × IsUser (get_or_null (lit "user") item) user
            × (HasAvatar user × (canonical_json_v1 p (obj (stripped item user.0)) ≡ ok bytes))))

-- Two comments are accepted as the same exactly when each is a native comment with a user whose
-- avatar URL is the one of the user's id, and what is left of them without pin and avatar URL has
-- the same canonical bytes.
pub validate_issue_comment_endpoint_equivalence_iff :
    (p : Platform) (v w : Value)
    → (validate_issue_comment_endpoint_equivalence p v w ≡ ok tt)
      ↔ ((bytes : Bytes) × IsComment p v bytes × IsComment p w bytes)
unfolding validate_issue_comment_endpoint_equivalence
validate_issue_comment_endpoint_equivalence_iff p v w =
    iff_trans
      (bind_iff (some_or_fail (dict v) _) _ (some_dict_iff v _) λ left.
        bind_iff (some_or_fail (dict w) _) _ (some_dict_iff w _) λ right.
          then_iff _ _ (check_native_iff left) (
            then_iff _ _ (check_native_iff right) (
              bind_iff (check_user (get_or_null (lit "user") left)) _
                (check_user_iff (get_or_null (lit "user") left))
                λ a.
                  bind_iff (check_user (get_or_null (lit "user") right)) _
                    (check_user_iff (get_or_null (lit "user") right))
                    λ b. bind_iff (check_avatar left a) _ (check_avatar_iff left a) λ l.
                      bind_iff (check_avatar right b) _ (check_avatar_iff right b) λ r.
                        bind_iff (canonical_json_v1 p (obj l)) _ (λ x. (λ h. h, λ h. h))
                          λ x.
                            bind_iff (canonical_json_v1 p (obj r)) _ (λ y. (λ h. h, λ h. h))
                              λ y. iff_trans (require_iff (same x y) _) (same_iff x y))))
      (
        λ (
          l,
          el,
          (
            r,
            er,
            (nl, (nr, (ul, hl, (ur, hr, (dl, (al, pl), (dr, (ar, pr), (x, cx, (y, cy, e)))))))),
          ),
        ).
            (
              x,
              (l, el, (nl, (ul, hl, (al, ap (λ d. canonical_json_v1 p (obj d)) pl ∙ cx)))),
              (
                r,
                er,
                (nr, (ur, hr, (ar, ap (λ d. canonical_json_v1 p (obj d)) pr ∙ cy ∙ ap ok (sym e)))),
              ),
            ),
        λ (b, (l, el, (nl, (ul, hl, (al, cl)))), (r, er, (nr, (ur, hr, (ar, cr))))). (
          l,
          el,
          (
            r,
            er,
            (
              nl,
              (
                nr,
                (
                  ul,
                  hl,
                  (
                    ur,
                    hr,
                    (
                      stripped l ul.0,
                      (al, refl),
                      (stripped r ur.0, (ar, refl), (b, cl, (b, cr, refl))),
                    ),
                  ),
                ),
              ),
            ),
          ),
        ),
      )
