-- ===== src/Links/Matches.antt =====
-- Which links the scan of scripts/validate_markdown_links.py finds in a text, described without a
-- matcher: `re.findall` of MARKDOWN_LINK goes from left to right, and on behind each match.
use qing_yin.Prelude.{
  All, Bool-cases, List, Option, [], ap, arith, false, inl, inr, length, none, refl, some, subst,
  suc, sym, zero, ℕ, ◌++◌, ◌==◌, ◌↔◌, ◌∙◌, ◌∷◌, ◌≡◌, ◌≤◌,
}
use qing_yin.Text.{Text}
use qing_yin.Links.{
  after_label, find_links, is_empty, link_targets, match_link, put, scan_on, split_at, target_of,
}
use qing_yin.Links.Accepted.{match_link-shorter}

-- the text does not have the character
abbrev pub Lacks : ℕ → Text → Type 0
Lacks c s = All (λ d. (d == c) ≡ false) s

put_iff :
    (d : ℕ) (o : Option (Text × Text)) (a b : Text)
    → (put d o ≡ some (a, b)) ↔ ((q : Text) × (a ≡ d ∷ q) × (o ≡ some (q, b)))
put_iff d none a b = (λ h. cc, λ (q, e, h). cc h)
put_iff d (some (q, r)) a b = (
  λ h.
      let pair : (d ∷ q, r) ≡ (a, b) = cc h in
      let before : d ∷ q ≡ a = ap (λ (x : Text × Text). x.0) pair in
      let behind : r ≡ b = ap (λ (x : Text × Text). x.1) pair in
      (q, sym before, ap (λ x. some (q, x)) behind),
  λ (x, e, h).
      let pair : (q, r) ≡ (x, b) = cc h in
      let before : q ≡ x = ap (λ (y : Text × Text). y.0) pair in
      let behind : r ≡ b = ap (λ (y : Text × Text). y.1) pair in rw (before, behind, e) refl,
)

split_at_sound :
    (c : ℕ) (s a b : Text) → split_at c s ≡ some (a, b) → (s ≡ a ++ (c ∷ b)) × Lacks c a
unfolding split_at
split_at_sound c [] a b h = cc
split_at_sound c (d ∷ s) a b h = elim (Bool-cases (d == c)) [
  | inl e ↦
      let pair : ([], s) ≡ (a, b) = cc (rw e at h) in
      let before : [] ≡ a = ap (λ (x : Text × Text). x.0) pair in
      let behind : s ≡ b = ap (λ (x : Text × Text). x.1) pair in
      let equal : d ≡ c = ground arith in rw (sym before, equal, behind) (refl, tt)
  | inr e ↦
      let (q, before, later) = (put_iff d (split_at c s) a b).0 (rw e at h) in
      let (split, lacks) = split_at_sound c s q b later in rw (before, split) (refl, (e, lacks))
]

split_at_complete : (c : ℕ) (a b : Text) → Lacks c a → split_at c (a ++ (c ∷ b)) ≡ some (a, b)
unfolding split_at
split_at_complete c [] b p = ground arith
split_at_complete c (d ∷ a) b (e, p) = rw (e, split_at_complete c a b p) refl

-- the text starts with a link to the target, and this is behind it
abbrev pub IsLink : Text → Text → Text → Type 0
IsLink s target rest =
    (label : Text) × (s ≡ b'[' ∷ (label ++ (b']' ∷ b'(' ∷ (target ++ (b')' ∷ rest)))))
    × (Lacks b']' label × (Lacks b')' target × (is_empty target ≡ false)))

target_of_iff :
    (o : Option (Text × Text)) (a b : Text)
    → (target_of o ≡ some (a, b)) ↔ ((o ≡ some (a, b)) × (is_empty a ≡ false))
target_of_iff none a b = (λ h. cc, λ p. absurd (cc (p.0)))
target_of_iff (some ([], r)) a b = (
  λ h. cc,
  λ (h, n).
      let pair : ([], r) ≡ (a, b) = cc h in
      let before : [] ≡ a = ap (λ (x : Text × Text). x.0) pair in
      absurd (cc (ap is_empty before, n)),
)
target_of_iff (some (c ∷ cs, r)) a b = (
  λ h.
      let pair : (c ∷ cs, r) ≡ (a, b) = cc h in
      let before : c ∷ cs ≡ a = ap (λ (x : Text × Text). x.0) pair in (h, sym (ap is_empty before)),
  λ p. p.0,
)

after_label_sound :
    (o : Option (Text × Text)) (target rest : Text)
    → after_label o ≡ some (target, rest)
    → (label : Text) × (u : Text) × (o ≡ some (label, b'(' ∷ u))
      × (target_of (split_at b')' u) ≡ some (target, rest))
after_label_sound none target rest h = cc
after_label_sound (some (label, [])) target rest h = cc
after_label_sound (some (label, c ∷ u)) target rest h = elim (Bool-cases (c == b'(')) [
  | inl e ↦
      let opening : c ≡ b'(' = ground arith in
      (label, u, ap (λ x. some (label, x ∷ u)) opening, rw e at h)
  | inr e ↦ absurd (cc (rw e at h))
]

match_link_sound :
    (s target rest : Text) → match_link s ≡ some (target, rest) → IsLink s target rest
unfolding match_link
match_link_sound [] target rest h = cc
match_link_sound (c ∷ s) target rest h = elim (Bool-cases (c == b'[')) [
  | inl e ↦
      let (label, u, labelled, ended) =
        after_label_sound (split_at b']' s) target rest (rw e at h) in
      let (split, lacks) = split_at_sound b']' s label (b'(' ∷ u) labelled in
      let (given, filled) = (target_of_iff (split_at b')' u) target rest).0 ended in
      let (split_again, lacks_again) = split_at_sound b')' u target rest given in
      let opening : c ≡ b'[' = ground arith in
      (label, rw (opening, split, split_again) refl, (lacks, (lacks_again, filled)))
  | inr e ↦ absurd (cc (rw e at h))
]

match_link_complete :
    (s target rest : Text) → IsLink s target rest → match_link s ≡ some (target, rest)
unfolding match_link
match_link_complete s target rest (label, e, (p, (q, n))) =
    rw
      (
        e,
        split_at_complete b']' label (b'(' ∷ (target ++ (b')' ∷ rest))) p,
        split_at_complete b')' target rest q,
      )
      ((target_of_iff (some (target, rest)) target rest).1 (refl, n))

-- the links of a text from left to right: behind a link, the search goes on behind it, and at a
-- character that starts no link, with the next one
pub data Finds : Text → List Text → Type 0 where
  finished : Finds [] []
  found :
      {s target rest : Text} {targets : List Text}
      → IsLink s target rest
      → Finds rest targets
      → Finds s (target ∷ targets)
  skipped :
      {c : ℕ} {s : Text} {targets : List Text}
      → ((target rest : Text) → ¬ IsLink (c ∷ s) target rest)
      → Finds s targets
      → Finds (c ∷ s) targets

find_links-Finds : (n : ℕ) (s : Text) → length s ≤ n → Finds s (find_links n s)
unfolding find_links
find_links-Finds zero [] h = finished
find_links-Finds zero (c ∷ s) h = absurd (omega (arith, h))
find_links-Finds (suc n) [] h = finished
find_links-Finds (suc n) (c ∷ s) h = go (match_link (c ∷ s)) refl (λ u k. find_links-Finds n u k)
  where
    go :
        (o : Option (Text × Text))
        → match_link (c ∷ s) ≡ o
        → ((u : Text) → length u ≤ n → Finds u (find_links n u))
        → Finds (c ∷ s) (scan_on (λ u. find_links n u) s o)
    go none e smaller =
        skipped (λ target rest l. absurd (cc (e, match_link_complete (c ∷ s) target rest l)))
          (smaller s (omega arith))
    go (some (target, rest)) e smaller =
        let shorter = match_link-shorter (c ∷ s) (target, rest) e in
        found (match_link_sound (c ∷ s) target rest e) (smaller rest (omega arith))

match_link-nil : match_link [] ≡ none
unfolding match_link
match_link-nil = refl

-- one round of the scan at a link
find_links-found :
    (n : ℕ) (s target rest : Text)
    → match_link s ≡ some (target, rest)
    → length s ≤ n
    → (m : ℕ) × (length rest ≤ m) × (find_links n s ≡ target ∷ find_links m rest)
unfolding find_links
find_links-found n [] target rest e h = absurd (cc (e, match_link-nil))
find_links-found zero (c ∷ s) target rest e h = absurd (omega (arith, h))
find_links-found (suc n) (c ∷ s) target rest e h =
    let shorter = match_link-shorter (c ∷ s) (target, rest) e in (n, omega arith, rw e refl)

unmatched : (s : Text) → ((target rest : Text) → ¬ IsLink s target rest) → match_link s ≡ none
unmatched s none_ = go (match_link s) refl
  where
    go : (o : Option (Text × Text)) → match_link s ≡ o → match_link s ≡ none
    go none e = e
    go (some (target, rest)) e = absurd (none_ target rest (match_link_sound s target rest e))

Finds-find_links :
    {s : Text} {targets : List Text}
    → Finds s targets
    → (n : ℕ) → length s ≤ n
    → find_links n s ≡ targets
unfolding find_links
Finds-find_links finished zero h = refl
Finds-find_links finished (suc n) h = refl
Finds-find_links (found {s} {target} {rest} {targets} l f) n h =
    let (m, bound, e) = find_links-found n s target rest (match_link_complete s target rest l) h in
    e ∙ ap (λ ts. target ∷ ts) (Finds-find_links f m bound)
Finds-find_links (skipped {c} {s} {targets} none_ f) zero h = absurd (omega (arith, h))
Finds-find_links (skipped {c} {s} {targets} none_ f) (suc n) h =
    rw (unmatched (c ∷ s) none_) (Finds-find_links f n (omega arith))

-- The scan of a text returns these targets exactly when they are the links of the text from left to
-- right, where a link is a pair of brackets around no closing bracket, and behind it a pair of
-- parentheses around a target that is not empty and has no closing parenthesis, and the search goes
-- on behind each link.
pub link_targets_iff :
    (s : Text) (targets : List Text) → (link_targets s ≡ targets) ↔ Finds s targets
unfolding link_targets
link_targets_iff s targets = (
  λ h. subst (Finds s) h (find_links-Finds (length s) s (omega arith)),
  λ f. Finds-find_links f (length s) (omega arith),
)
