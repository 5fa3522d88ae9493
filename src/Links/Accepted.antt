-- ===== src/Links/Accepted.antt =====
-- What the link check accepts, and that a match of the link pattern takes characters off the text.
use mathlib.Core.Option.{some-injective}
use qing_yin.Prelude.{
  All, Bool, Bool-cases, List, Option, Result, [], ap, arith, err, false, if◌then◌else◌, inl, inr,
  length, none, not, ok, refl, some, traverse, true, ℕ, ◌&&◌, ◌<◌, ◌==◌, ◌>>=◌, ◌||◌, ◌↔◌, ◌∷◌, ◌≡◌,
  ◌⊎◌,
}
use qing_yin.Text.{Text}
use qing_yin.Prelude.Checks.{bind_iff, each_equivalent, iff_trans, ok_iff}
use qing_yin.Links.{
  Repository, after_label, check_links, is_empty, is_external, is_missing, link_targets,
  links_exit_code, markdown_files, match_link, missing_of, path_of, put, reported, split_at,
  target_of, target_text,
}

put-some :
    (d : ℕ) (o : Option (Text × Text)) (r : Text × Text)
    → put d o ≡ some r
    → (q : Text × Text) × (o ≡ some q) × (q.1 ≡ r.1)
put-some d none r h = cc
put-some d (some q) r h = (q, refl, ap (λ (x : Text × Text). x.1) (some-injective _ _ h))

split_at-shorter :
    (c : ℕ) (s : Text) (r : Text × Text) → split_at c s ≡ some r → length r.1 < length s
unfolding split_at
split_at-shorter c [] r h = cc
split_at-shorter c (d ∷ s) r h = elim (Bool-cases (d == c)) [
  | inl e ↦
      let behind : s ≡ r.1 = ap (λ (x : Text × Text). x.1) (some-injective ([], s) r (rw e at h)) in
      omega (arith, ap length behind)
  | inr e ↦
      let q = put-some d (split_at c s) r (rw e at h) in
      omega (arith, split_at-shorter c s q.0 q.1, ap length q.2)
]

target_of-shorter : (o : Option (Text × Text)) (r : Text × Text) → target_of o ≡ some r → o ≡ some r
target_of-shorter none r h = cc
target_of-shorter (some ([], rest)) r h = cc
target_of-shorter (some (c ∷ cs, rest)) r h = h

after_label-shorter :
    (o : Option (Text × Text)) (n : ℕ) (r : Text × Text)
    → ((q : Text × Text) → o ≡ some q → length q.1 < n)
    → after_label o ≡ some r
    → length r.1 < n
after_label-shorter none n r k h = cc
after_label-shorter (some (label, [])) n r k h = cc
after_label-shorter (some (label, c ∷ s)) n r k h = elim (Bool-cases (c == b'(')) [
  | inl e ↦
      let found = target_of-shorter (split_at b')' s) r (rw e at h) in
      omega (arith, k (label, c ∷ s) refl, split_at-shorter b')' s r found)
  | inr e ↦ absurd (none_some (rw e at h))
]
  where
    none_some : Path (Option (Text × Text)) none (some r) → ⊥
    none_some e = cc

pub match_link-shorter :
    (s : Text) (r : Text × Text) → match_link s ≡ some r → length r.1 < length s
unfolding match_link
match_link-shorter [] r h = cc
match_link-shorter (c ∷ s) r h = elim (Bool-cases (c == b'[')) [
  | inl e ↦
      let bound =
        after_label-shorter (split_at b']' s) (length s) r (split_at-shorter b']' s) (rw e at h) in
      omega arith
  | inr e ↦ absurd (none_some (rw e at h))
]
  where
    none_some : Path (Option (Text × Text)) none (some r) → ⊥
    none_some e = cc

reported_iff :
    (test : Text → Bool) (l : List Text) → (reported test l ≡ []) ↔ All (λ x. test x ≡ false) l
reported_iff test [] = (λ h. tt, λ p. refl)
reported_iff test (x ∷ xs) = go (test x) refl (reported_iff test xs)
  where
    go :
        (b : Bool)
        → test x ≡ b
        → (reported test xs ≡ []) ↔ All (λ y. test y ≡ false) xs
        → ((if b then x ∷ reported test xs else reported test xs) ≡ [])
          ↔ ((test x ≡ false) × All (λ y. test y ≡ false) xs)
    go true e f = (λ h. cc, λ p. absurd (cc (e, p.0)))
    go false e f = (λ h. (e, f.0 h), λ p. f.1 p.1)

-- a link that leads somewhere: out of the repository, into the document itself, or to a file
abbrev pub Leads : Repository → Text → Text → Type 0
Leads t source raw =
    (is_external (target_text raw) ≡ true)
    ⊎ ((path_of (target_text raw) ≡ [])
        ⊎ (t.is_file (t.resolve source (path_of (target_text raw))) ≡ true))

is_empty_lem : (s : Text) → (is_empty s ≡ true) ↔ (s ≡ [])
is_empty_lem [] = (λ h. refl, λ h. refl)
is_empty_lem (c ∷ s) = (λ h. cc, λ h. cc)

unreported_iff :
    (a b f : Bool) {P : Type 0}
    → (b ≡ true) ↔ P
    → ((not (a || b) && not f) ≡ false) ↔ ((a ≡ true) ⊎ (P ⊎ (f ≡ true)))
unreported_iff true b f g = (λ h. inl refl, λ s. refl)
unreported_iff false true f g = (λ h. inr (inl (g.0 refl)), λ s. refl)
unreported_iff false false true g = (λ h. inr (inr refl), λ s. refl)
unreported_iff false false false g =
    (λ h. cc, λ s. elim s [ inl e ↦ cc | inr (inl p) ↦ absurd (cc (g.1 p)) | inr (inr e) ↦ cc ])

is_missing_lem :
    (t : Repository) (source raw : Text) → (is_missing t source raw ≡ false) ↔ Leads t source raw
unfolding is_missing
is_missing_lem t source raw =
    unreported_iff (is_external (target_text raw)) (is_empty (path_of (target_text raw)))
      (t.is_file (t.resolve source (path_of (target_text raw))))
      (is_empty_lem (path_of (target_text raw)))

-- a document that is there, can be read, and whose links all lead somewhere
abbrev pub IsLinked : Repository → Text → Type 0
IsLinked t source =
    (t.is_file source ≡ true)
    × ((content : Text) × (t.read source ≡ ok content)
        × All (λ raw. Leads t source raw) (link_targets content))

reported_none_iff :
    (t : Repository) (source content : Text)
    → (ok (reported (is_missing t source) (link_targets content)) ≡ ok [])
      ↔ All (λ raw. Leads t source raw) (link_targets content)
reported_none_iff t source content = iff_trans (ok_iff _ _) (
    iff_trans (reported_iff (is_missing t source) (link_targets content))
      (each_equivalent (λ raw. is_missing_lem t source raw) (link_targets content)))

missing_of_iff :
    (t : Repository) (source : Text) → (missing_of t source ≡ ok []) ↔ IsLinked t source
unfolding missing_of
missing_of_iff t source = go (t.is_file source)
  where
    read_iff :
        ((t.read source >>= λ content. ok (reported (is_missing t source) (link_targets content)))
          ≡ ok [])
        ↔ ((content : Text) × (t.read source ≡ ok content)
            × All (λ raw. Leads t source raw) (link_targets content))
    read_iff =
        bind_iff (t.read source) _ (λ c. (λ h. h, λ h. h)) (λ c. reported_none_iff t source c)

    go :
        (b : Bool)
        → ((if b
              then (t.read source >>= λ content.
                  ok (reported (is_missing t source) (link_targets content)))
              else ok (source ∷ []))
            ≡ ok [])
          ↔ ((b ≡ true)
              × ((content : Text) × (t.read source ≡ ok content)
                  × All (λ raw. Leads t source raw) (link_targets content)))
    go true = (λ h. (refl, read_iff.0 h), λ p. read_iff.1 p.1)
    go false = (λ h. cc, λ p. cc (p.0))

both_none :
    {P Q : Type 0} (m : Result (List Text)) (n : Result (List (List Text)))
    → (m ≡ ok []) ↔ P
    → ((n >>= links_exit_code) ≡ ok 0) ↔ Q
    → (((m >>= λ y. n >>= λ ys. ok (y ∷ ys)) >>= links_exit_code) ≡ ok 0) ↔ (P × Q)
both_none (err e) n f g = (λ h. cc, λ p. absurd (cc (f.1 p.0)))
both_none (ok (x ∷ r)) (err e) f g = (λ h. cc, λ p. absurd (cc (g.1 p.1)))
both_none (ok []) (err e) f g = (λ h. cc, λ p. absurd (cc (g.1 p.1)))
both_none (ok (x ∷ r)) (ok l) f g = (λ h. cc, λ p. absurd (cc (f.1 p.0)))
both_none (ok []) (ok l) f g = (λ h. (f.0 refl, g.0 h), λ p. g.1 p.1)

gathered_iff :
    {P : Text → Type 0} (f : Text → Result (List Text))
    → ((s : Text) → (f s ≡ ok []) ↔ P s)
    → (l : List Text) → ((traverse f l >>= links_exit_code) ≡ ok 0) ↔ All P l
unfolding traverse
gathered_iff f g [] = (λ h. tt, λ p. refl)
gathered_iff f g (x ∷ xs) = both_none (f x) (traverse f xs) (g x) (gathered_iff f g xs)

-- The script exits with 0 exactly when each of the three root documents and of the documents
-- under docs is a file that can be read, whose links all lead out of the repository, into the
-- document itself, or to a file.
pub check_links_iff :
    (t : Repository) → (check_links t ≡ ok 0) ↔ All (IsLinked t) (markdown_files t)
unfolding check_links
check_links_iff t = gathered_iff (missing_of t) (missing_of_iff t) (markdown_files t)
