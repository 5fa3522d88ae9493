-- ===== src/Archive/Records.antt =====
-- Where the search for the end record of an archive finds one.
use qing_yin.Prelude.{
  Bool, Bool-cases, List, [], arith, drop, inl, inr, refl, subst, suc, sym, true, zero, ℕ, ◌+◌, ◌↔◌,
  ◌∙◌, ◌∷◌, ◌≡◌, ◌⊎◌,
}
use qing_yin.Text.{Bytes}
use qing_yin.Archive.{eocd_signature, find_all, kept, starts_with}
use qing_yin.Archive.Slices.{drop_nil}

module _ (test : ℕ → Bool) where
  abbrev Hit : ℕ → Bytes → Type 0
  Hit n rest = (starts_with eocd_signature rest ≡ true) × (test n ≡ true)

  abbrev found_from : ℕ → Bytes → List ℕ
  found_from offset rest = kept test (find_all eocd_signature offset rest)

  -- the signature stands at the place, which is that far into the rest, and the test holds
  abbrev pub StandsAt : ℕ → Bytes → ℕ → Type 0
  StandsAt offset rest n = (k : ℕ) × (n ≡ offset + k) × Hit n (drop k rest)

  here_or_later :
      (offset : ℕ) (b : ℕ) (rest : Bytes)
      → (Hit offset (b ∷ rest)
          × (found_from offset (b ∷ rest) ≡ offset ∷ found_from (offset + 1) rest))
        ⊎ ((Hit offset (b ∷ rest) → ⊥)
            × (found_from offset (b ∷ rest) ≡ found_from (offset + 1) rest))
  unfolding find_all
  here_or_later offset b rest = elim (Bool-cases (starts_with eocd_signature (b ∷ rest))) [
    | inl s ↦ elim (Bool-cases (test offset)) [
      | inl t ↦ inl ((s, t), rw (s, t) refl)
      | inr t ↦ inr ((λ h. cc (h.1)), rw (s, t) refl)
    ]
    | inr s ↦ inr ((λ h. cc (h.0)), rw s refl)
  ]

  -- a place is the first of the rest or one behind it
  first_or_later :
      (offset b : ℕ) (rest : Bytes) (n : ℕ)
      → StandsAt offset (b ∷ rest) n
      → ((n ≡ offset) × Hit offset (b ∷ rest)) ⊎ StandsAt (offset + 1) rest n
  first_or_later offset b rest n (zero, e, h) =
      let equal : n ≡ offset = omega arith in inl (equal, subst (λ m. Hit m (b ∷ rest)) equal h)
  first_or_later offset b rest n (suc k, e, h) = inr (k, omega arith, h)

  later :
      (offset b : ℕ) (rest : Bytes) (n : ℕ)
      → StandsAt (offset + 1) rest n
      → StandsAt offset (b ∷ rest) n
  later offset b rest n (k, e, h) = (suc k, omega arith, h)

  here : (offset b : ℕ) (rest : Bytes) → Hit offset (b ∷ rest) → StandsAt offset (b ∷ rest) offset
  here offset b rest h = (0, omega arith, h)

  nowhere : (offset n : ℕ) → StandsAt offset [] n → ⊥
  nowhere offset n (k, e, h) = cc (drop_nil k)

  none_iff :
      (offset : ℕ) (rest : Bytes)
      → (found_from offset rest ≡ []) ↔ ((n : ℕ) → StandsAt offset rest n → ⊥)
  unfolding find_all
  none_iff offset [] = (λ h n s. nowhere offset n s, λ h. refl)
  none_iff offset (b ∷ rest) = elim (here_or_later offset b rest) [
    | inl (hit, e) ↦ (λ h. cc, λ h. absurd (h offset (here offset b rest hit)))
    | inr (miss, e) ↦ (
      λ h n s. elim (first_or_later offset b rest n s) [
        | inl (same_place, hit) ↦ miss hit
        | inr l ↦ (none_iff (offset + 1) rest).0 (sym e ∙ h) n l
      ],
      λ h. e ∙ (none_iff (offset + 1) rest).1 (λ n s. h n (later offset b rest n s)),
    )
  ]

  -- One place is found exactly when it is the only one.
  pub one_iff :
      (offset : ℕ) (rest : Bytes) (o : ℕ)
      → (found_from offset rest ≡ o ∷ [])
        ↔ (StandsAt offset rest o × ((n : ℕ) → StandsAt offset rest n → n ≡ o))
  unfolding find_all
  one_iff offset [] o = (λ h. cc, λ (s, u). absurd (nowhere offset o s))
  one_iff offset (b ∷ rest) o = elim (here_or_later offset b rest) [
    | inl (hit, e) ↦ (
      λ h.
          let equal : offset ≡ o = cc in
          let empty : found_from (offset + 1) rest ≡ [] = cc in
          (
            subst (StandsAt offset (b ∷ rest)) equal (here offset b rest hit),
            λ n s. elim (first_or_later offset b rest n s) [
              | inl (same_place, h2) ↦ same_place ∙ equal
              | inr l ↦ absurd ((none_iff (offset + 1) rest).0 empty n l)
            ],
          ),
      λ (s, unique).
          let equal = unique offset (here offset b rest hit) in
          let empty = (none_iff (offset + 1) rest).1 (λ n (k, p, q).
            absurd (omega (arith, p, equal, unique n (later offset b rest n (k, p, q))))) in
          e ∙ rw (empty, equal) refl,
    )
    | inr (miss, e) ↦ (
      λ h.
          let (s, unique) = (one_iff (offset + 1) rest o).0 (sym e ∙ h) in
          (
            later offset b rest o s,
            λ n t. elim (first_or_later offset b rest n t) [
              | inl (same_place, hit) ↦ absurd (miss hit)
              | inr l ↦ unique n l
            ],
          ),
      λ (s, unique). elim (first_or_later offset b rest o s) [
        | inl (same_place, hit) ↦ absurd (miss hit)
        | inr l ↦ e ∙ (one_iff (offset + 1) rest o).1 (l, λ n t. unique n (later offset b rest n t))
      ],
    )
  ]
