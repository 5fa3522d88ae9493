-- ===== src/Regex/Language.antt =====
-- What a pattern matches, said of texts, and that the matcher finds exactly that.
use mathlib.Core.List.{append_assoc, append-nil}
use qing_yin.Prelude.{
  Bool, Option, [], all, and_true, ap, arith, false, inl, inr, length, none, refl, some, subst, suc,
  sym, true, ℕ, ◌&&◌, ◌++◌, ◌-◌, ◌==◌, ◌||◌, ◌↔◌, ◌∙◌, ◌∷◌, ◌≡◌, ◌≤◌, ◌⊎◌,
}
use qing_yin.Text.{Text}
use qing_yin.Regex.{
  Regex, Rest, alt, at_boundary, at_end, boundary, empty, fullmatch, head, last_of, less, many, one,
  room, run, run_many, run_one, search, search_from, seq,
}

abbrev pub AtMost : Option ℕ → ℕ → Type 0
AtMost none n = Unit
AtMost (some high) n = n ≤ high

module _ (is_word : ℕ → Bool) where
  -- The pattern matches a text that stands behind a character and before another text.
  pub Denotes : Regex → Option ℕ → Text → Text → Type 0
  Denotes empty before w after = w ≡ []
  Denotes (one test) before w after = (c : ℕ) × (w ≡ c ∷ []) × (test c ≡ true)
  Denotes boundary before w after = (w ≡ []) × (at_boundary is_word before (head after) ≡ true)
  Denotes (seq a b) before w after =
      (u : Text) × (v : Text) × (w ≡ u ++ v)
      × (Denotes a before u (v ++ after) × Denotes b (last_of before u) v after)
  Denotes (alt a b) before w after = Denotes a before w after ⊎ Denotes b before w after
  Denotes (many test low high) before w after =
      (all test w ≡ true) × ((low ≤ length w) × AtMost high (length w))

  -- a beginning of the text matches, and what is behind it is taken
  abbrev Splits : Regex → Rest → Option ℕ → Text → Type 0
  Splits r next p s =
      (w : Text) × (rest : Text) × (s ≡ w ++ rest)
      × (Denotes r p w rest × (next (last_of p w) rest ≡ true))

last_of-append : (p : Option ℕ) (u v : Text) → last_of p (u ++ v) ≡ last_of (last_of p u) v
last_of-append p [] v = refl
last_of-append p (c ∷ u) v = last_of-append (some c) u v

or_cases : (a b : Bool) → (a || b) ≡ true → (a ≡ true) ⊎ (b ≡ true)
or_cases true b h = inl refl
or_cases false b h = inr h

or_left : (a b : Bool) → a ≡ true → (a || b) ≡ true
or_left true b h = refl
or_left false b h = cc

or_right : (a b : Bool) → b ≡ true → (a || b) ≡ true
or_right true b h = refl
or_right false b h = h

abbrev Counted : (ℕ → Bool) → ℕ → Option ℕ → Text → Type 0
Counted test low high w = (all test w ≡ true) × ((low ≤ length w) × AtMost high (length w))

AtMost-zero : (high : Option ℕ) → AtMost high 0
AtMost-zero none = tt
AtMost-zero (some n) = omega arith

AtMost-suc :
    (high : Option ℕ) (n : ℕ) → room high ≡ true → AtMost (less high) n → AtMost high (suc n)
AtMost-suc none n h k = tt
AtMost-suc (some m) n h k = ground arith

less-AtMost :
    (high : Option ℕ) (n : ℕ) → AtMost high (suc n) → (room high ≡ true) × AtMost (less high) n
less-AtMost none n k = (refl, tt)
less-AtMost (some m) n k = ground arith

module _ (test : ℕ → Bool) (next : Rest) where
  many_sound :
      (low : ℕ) (high p : Option ℕ) (s : Text)
      → run_many test next low high p s ≡ true
      → (w : Text) × (rest : Text) × (s ≡ w ++ rest)
        × (Counted test low high w × (next (last_of p w) rest ≡ true))
  unfolding run_many
  many_sound low high p [] h =
      ([], [], refl, ((refl, (ground arith, AtMost-zero high)), ground arith))
  many_sound low high p (c ∷ s) h = elim (or_cases (low == 0 && next p (c ∷ s)) _ h) [
    | inl stop ↦ ([], c ∷ s, refl, ((refl, (ground arith, AtMost-zero high)), ground arith))
    | inr more ↦
        let (tests, found) = and_true (room high && test c) _ more in
        let (open_, fits) = and_true (room high) (test c) tests in
        let (w, rest, e, ((passes, (l, u)), k)) =
          many_sound (low - 1) (less high) (some c) s found in
        (
          c ∷ w,
          rest,
          ap (λ t. c ∷ t) e,
          ((rw (fits, passes) refl, (omega arith, AtMost-suc high (length w) open_ u)), k),
        )
  ]

  many_complete :
      (low : ℕ) (high p : Option ℕ) (w rest : Text)
      → Counted test low high w
      → next (last_of p w) rest ≡ true
      → run_many test next low high p (w ++ rest) ≡ true
  unfolding run_many
  many_complete low high p [] [] (a, (l, u)) k = ground arith
  many_complete low high p [] (c ∷ rest) (a, (l, u)) k =
      let stop : (low == 0 && next p (c ∷ rest)) ≡ true = ground arith in or_left _ _ stop
  many_complete low high p (c ∷ w) rest (a, (l, u)) k =
      let (fits, others) = and_true (test c) _ a in
      let (open_, bound) = less-AtMost high (length w) u in
      let found =
        many_complete (low - 1) (less high) (some c) w rest (others, (omega arith, bound)) k in
      let more : (room high
            && test c
            && run_many test next (low - 1) (less high) (some c) (w ++ rest))
          ≡ true =
        rw (open_, fits) found in
      or_right _ _ more

module _ (is_word : ℕ → Bool) where
  run_sound :
      (r : Regex) (next : Rest) (p : Option ℕ) (s : Text)
      → run is_word r next p s ≡ true
      → Splits is_word r next p s
  unfolding run Denotes
  run_sound empty next p s h = ([], s, refl, (refl, h))
  run_sound (one test) next p [] h = cc
  run_sound (one test) next p (c ∷ s) h =
      let (fits, k) = and_true (test c) _ h in (c ∷ [], s, refl, ((c, refl, fits), k))
  run_sound boundary next p s h =
      let (here, k) = and_true (at_boundary is_word p (head s)) _ h in
      ([], s, refl, ((refl, here), k))
  run_sound (seq a b) next p s h =
      let (u, t, e, (da, h')) = run_sound a (run is_word b next) p s h in
      let (v, rest, e', (db, k)) = run_sound b next (last_of p u) t h' in
      (
        u ++ v,
        rest,
        e ∙ ap (λ x. u ++ x) e' ∙ sym (append_assoc u v rest),
        ((u, v, refl, (subst (Denotes is_word a p u) e' da, db)), rw (last_of-append p u v) k),
      )
  run_sound (alt a b) next p s h = elim (or_cases _ _ h) [
    | inl found ↦ let (w, rest, e, (d, k)) = run_sound a next p s found in (w, rest, e, (inl d, k))
    | inr found ↦ let (w, rest, e, (d, k)) = run_sound b next p s found in (w, rest, e, (inr d, k))
  ]
  run_sound (many test low high) next p s h = many_sound test next low high p s h

  run_complete :
      (r : Regex) (next : Rest) (p : Option ℕ) (w rest : Text)
      → Denotes is_word r p w rest
      → next (last_of p w) rest ≡ true
      → run is_word r next p (w ++ rest) ≡ true
  unfolding run Denotes
  run_complete empty next p w rest e k =
      subst (λ t. next (last_of p t) rest ≡ true → next p (t ++ rest) ≡ true) (sym e) (λ h. h) k
  run_complete (one test) next p w rest (c, e, fits) k =
      subst (λ t. next (last_of p t) rest ≡ true → run_one test next (t ++ rest) ≡ true) (sym e)
        (λ h. rw (fits, h) refl) k
  run_complete boundary next p w rest (e, here) k =
      subst
        (λ t.
          next (last_of p t) rest ≡ true
          → (at_boundary is_word p (head (t ++ rest)) && next p (t ++ rest)) ≡ true)
        (sym e) (λ h. rw (here, h) refl) k
  run_complete (seq a b) next p w rest (u, v, e, (da, db)) k =
      let tail =
        run_complete b next (last_of p u) v rest db
          (rw (← last_of-append p u v) (subst (λ t. next (last_of p t) rest ≡ true) e k)) in
      let whole = run_complete a (run is_word b next) p u (v ++ rest) da tail in
      subst (λ t. run is_word a (run is_word b next) p t ≡ true)
        (sym (ap (λ t. t ++ rest) e ∙ append_assoc u v rest)) whole
  run_complete (alt a b) next p w rest (inl d) k = or_left _ _ (run_complete a next p w rest d k)
  run_complete (alt a b) next p w rest (inr d) k = or_right _ _ (run_complete b next p w rest d k)
  run_complete (many test low high) next p w rest d k =
      many_complete test next low high p w rest d k

  -- the text has a part that the pattern matches
  abbrev pub Contains : Regex → Option ℕ → Text → Type 0
  Contains r p s =
      (before : Text) × (w : Text) × (after : Text) × (s ≡ before ++ (w ++ after))
      × Denotes is_word r (last_of p before) w after

  search_from_sound :
      (r : Regex) (p : Option ℕ) (s : Text) → search_from is_word r p s ≡ true → Contains r p s
  unfolding search_from
  search_from_sound r p [] h =
      let (w, rest, e, (d, k)) = run_sound r (λ q t. true) p [] h in ([], w, rest, e, d)
  search_from_sound r p (c ∷ s) h = elim (or_cases _ _ h) [
    | inl found ↦
        let (w, rest, e, (d, k)) = run_sound r (λ q t. true) p (c ∷ s) found in ([], w, rest, e, d)
    | inr later ↦
        let (before, w, rest, e, d) = search_from_sound r (some c) s later in
        (c ∷ before, w, rest, ap (λ t. c ∷ t) e, d)
  ]

  starts-search :
      (r : Regex) (p : Option ℕ) (s : Text)
      → run is_word r (λ q t. true) p s ≡ true
      → search_from is_word r p s ≡ true
  unfolding search_from
  starts-search r p [] h = h
  starts-search r p (c ∷ s) h = or_left _ _ h

  search_from_complete :
      (r : Regex) (p : Option ℕ) (before w after : Text)
      → Denotes is_word r (last_of p before) w after
      → search_from is_word r p (before ++ (w ++ after)) ≡ true
  unfolding search_from
  search_from_complete r p [] w after d =
      starts-search r p (w ++ after) (run_complete r (λ q t. true) p w after d refl)
  search_from_complete r p (c ∷ before) w after d =
      or_right _ _ (search_from_complete r (some c) before w after d)

  -- A search succeeds exactly when the pattern matches a part of the text where it stands.
  pub search_iff : (r : Regex) (s : Text) → (search is_word r s ≡ true) ↔ Contains r none s
  unfolding search
  search_iff r s = (
    search_from_sound r none s,
    λ (before, w, after, e, d).
        subst (λ t. search_from is_word r none t ≡ true) (sym e)
          (search_from_complete r none before w after d),
  )

  -- A full match succeeds exactly when the pattern matches the whole text.
  pub fullmatch_iff :
      (r : Regex) (s : Text) → (fullmatch is_word r s ≡ true) ↔ Denotes is_word r none s []
  unfolding fullmatch
  fullmatch_iff r s = (
    (λ h. let (w, rest, e, (d, k)) = run_sound r at_end none s h in whole w rest e d k),
    λ d.
        subst (λ t. run is_word r at_end none t ≡ true) (append-nil s)
          (run_complete r at_end none s [] d refl),
  )
    where
      whole :
          (w rest : Text)
          → s ≡ w ++ rest
          → Denotes is_word r none w rest
          → at_end (last_of none w) rest ≡ true
          → Denotes is_word r none s []
      whole w [] e d k = subst (λ t. Denotes is_word r none t []) (sym (e ∙ append-nil w)) d
      whole w (c ∷ rest) e d k = cc
