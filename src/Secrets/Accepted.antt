-- ===== src/Secrets/Accepted.antt =====
-- Which repositories the secret scan passes.
use qing_yin.Prelude.{
  All, Bool, Bool-cases, List, Option, [], ap, arith, each, false, if◌then◌else◌, inl, inr, length,
  length-append, none, ok, refl, some, subst, sym, true, ℕ, ◌+◌, ◌↔◌, ◌∙◌, ◌∷◌, ◌≡◌,
}
use qing_yin.Prelude.Order.{Order, lex_order, nat_order}
use qing_yin.Prelude.Sort.{insert_by, sorted_by}
use qing_yin.Text.{Text}
use qing_yin.Regex.{Regex, search}
use qing_yin.Regex.Language.{Contains, search_iff}
use qing_yin.Secrets.{FileEntry, Host, is_word, secret_patterns}
use qing_yin.Secrets.Scan.{
  Finding, candidate_files, check_representative, check_secrets, is_candidate, line_findings,
  lines_findings, read_text, report, scan, scanned_file, select, split_lines,
}
use qing_yin.Prelude.Checks.{each_equivalent, iff_trans, then_iff}

abbrev pub sum_of {ℓ} : {A : Type ℓ} → (A → ℕ) → List A → ℕ
sum_of f [] = 0
sum_of f (x ∷ xs) = f x + sum_of f xs

module _ {ℓ} {A : Type ℓ} (f : A → ℕ) where
  sum-insert :
      {K : Type 0} ⦃o : Order K⦄ (key : A → K) (x : A) (l : List A)
      → sum_of f (insert_by key x l) ≡ f x + sum_of f l
  unfolding insert_by
  sum-insert key x [] = refl
  sum-insert ⦃o⦄ key x (y ∷ ys) = elim (Bool-cases (o.le (key x) (key y))) [
    | inl e ↦ rw e refl
    | inr e ↦ rw e (omega (arith, sum-insert key x ys))
  ]

  sum-sorted :
      {K : Type 0} ⦃o : Order K⦄ (key : A → K) (l : List A)
      → sum_of f (sorted_by key l) ≡ sum_of f l
  unfolding sorted_by
  sum-sorted key [] = refl
  sum-sorted key (x ∷ xs) = omega (arith, sum-insert key x (sorted_by key xs), sum-sorted key xs)

  sum-select :
      (test : A → Bool) (l : List A)
      → sum_of f (select test l) ≡ sum_of (λ x. if test x then f x else 0) l
  sum-select test [] = refl
  sum-select test (x ∷ xs) = elim (Bool-cases (test x)) [
    | inl e ↦ rw e (omega (arith, sum-select test xs))
    | inr e ↦ rw e (omega (arith, sum-select test xs))
  ]

  sum_zero : (l : List A) → (sum_of f l ≡ 0) ↔ All (λ x. f x ≡ 0) l
  sum_zero [] = (λ h. tt, λ h. refl)
  sum_zero (x ∷ xs) =
      let rest = sum_zero xs in
      (λ h. (omega arith, rest.0 (omega arith)), λ (p, q). omega (arith, p, rest.1 q))

module _ (h : Host) where
  -- no pattern matches a part of a line
  abbrev pub IsCleanLine : Text → Type 0
  IsCleanLine line =
      All (λ (p : Text × Regex). Contains (is_word h) p.1 none line → ⊥) secret_patterns

  abbrev pub IsClean : Text → Type 0
  IsClean content = All IsCleanLine (split_lines content)

  no_match_lem :
      (r : Regex) (s : Text)
      → (search (is_word h) r s ≡ false) ↔ (Contains (is_word h) r none s → ⊥)
  no_match_lem r s = elim (Bool-cases (search (is_word h) r s)) [
    | inl e ↦ ((λ k. absurd (cc (e, k))), λ n. absurd (n ((search_iff (is_word h) r s).0 e)))
    | inr e ↦ ((λ k x. absurd (cc (e, (search_iff (is_word h) r s).1 x))), λ n. e)
  ]

  line_clean :
      (parts : List Text) (n : ℕ) (line : Text) (ps : List (Text × Regex))
      → (length (line_findings h parts n line ps) ≡ 0)
        ↔ All (λ (p : Text × Regex). Contains (is_word h) p.1 none line → ⊥) ps
  line_clean parts n line [] = (λ e. tt, λ e. refl)
  line_clean parts n line ((label, r) ∷ ps) =
      go (search (is_word h) r line) refl (line_clean parts n line ps)
    where
      go :
          (b : Bool)
          → search (is_word h) r line ≡ b
          → (length (line_findings h parts n line ps) ≡ 0)
            ↔ All (λ (p : Text × Regex). Contains (is_word h) p.1 none line → ⊥) ps
          → (length (
                if b
                then (parts, n, label) ∷ line_findings h parts n line ps
                else line_findings h parts n line ps)
              ≡ 0)
            ↔ ((Contains (is_word h) r none line → ⊥)
                × All (λ (p : Text × Regex). Contains (is_word h) p.1 none line → ⊥) ps)
      go true e f =
          (λ k. absurd (omega arith), λ (p, q). absurd (p ((search_iff (is_word h) r line).0 e)))
      go false e f = (λ k. ((no_match_lem r line).0 e, f.0 k), λ (p, q). f.1 q)

  lines_clean :
      (parts : List Text) (n : ℕ) (lines : List Text)
      → (length (lines_findings h parts n lines) ≡ 0) ↔ All IsCleanLine lines
  lines_clean parts n [] = (λ e. tt, λ e. refl)
  lines_clean parts n (line ∷ lines) =
      let here = line_clean parts n line secret_patterns in
      let rest = lines_clean parts (n + 1) lines in
      let both =
        length-append (line_findings h parts n line secret_patterns)
          (lines_findings h parts (n + 1) lines) in
      (
        λ e. (here.0 (omega arith), rest.0 (omega arith)),
        λ (p, q). omega (arith, here.1 p, rest.1 q),
      )

  -- what a file that is a candidate and is UTF-8 has to be
  abbrev pub IsCleanFile : FileEntry → Type 0
  IsCleanFile e =
      is_candidate e ≡ true → (content : Text) → read_text e ≡ some content → IsClean content

  abbrev found_in : FileEntry → ℕ
  found_in e = length (scanned_file h e (read_text e)).1

  abbrev read_in : FileEntry → ℕ
  read_in e = (scanned_file h e (read_text e)).0

  scan_sums :
      (es : List FileEntry)
      → ((scan h es).0 ≡ sum_of read_in es) × (length (scan h es).1 ≡ sum_of found_in es)
  unfolding scan
  scan_sums [] = (refl, refl)
  scan_sums (e ∷ es) =
      let rest = scan_sums es in
      let both = length-append (scanned_file h e (read_text e)).1 (scan h es).1 in
      (omega (arith, rest.0), omega (arith, rest.1, both))

  file_clean : (e : FileEntry) → ((if is_candidate e then found_in e else 0) ≡ 0) ↔ IsCleanFile e
  file_clean e = go (is_candidate e) (read_text e)
    where
      go :
          (b : Bool) (o : Option Text)
          → ((if b then length (scanned_file h e o).1 else 0) ≡ 0)
            ↔ (b ≡ true → (content : Text) → o ≡ some content → IsClean content)
      go false o = ((λ k p. cc), λ k. refl)
      go true none = ((λ k p c q. cc), λ k. refl)
      go true (some t) =
          let lines = lines_clean e.parts 1 (split_lines t) in
          (
            (λ k p c q. subst IsClean (let same_text : t ≡ c = cc q in same_text) (lines.0 k)),
            λ k. lines.1 (k refl t refl),
          )

  candidates_clean : (length (scan h (candidate_files h)).1 ≡ 0) ↔ All IsCleanFile h.entries
  unfolding candidate_files
  candidates_clean =
      let total : length (scan h (candidate_files h)).1
          ≡ sum_of (λ e. if is_candidate e then found_in e else 0) h.entries =
        (scan_sums (candidate_files h)).1
        ∙ sum-sorted found_in (λ (e : FileEntry). e.parts) (select is_candidate h.entries)
        ∙ sum-select found_in is_candidate h.entries in
      let each_file = sum_zero (λ e. if is_candidate e then found_in e else 0) h.entries in
      let files =
        each_equivalent {P = λ e. (if is_candidate e then found_in e else 0) ≡ 0} {Q = IsCleanFile}
          file_clean h.entries in
      (λ k. files.0 (each_file.0 (sym total ∙ k)), λ k. total ∙ each_file.1 (files.1 k))

  -- how many candidates are UTF-8
  abbrev is_utf8 : Option Text → ℕ
  is_utf8 none = 0
  is_utf8 (some t) = 1

  abbrev pub utf8_candidates : ℕ
  utf8_candidates = sum_of (λ e. if is_candidate e then is_utf8 (read_text e) else 0) h.entries

  candidates_read : (scan h (candidate_files h)).0 ≡ utf8_candidates
  unfolding candidate_files
  candidates_read =
      (scan_sums (candidate_files h)).0
      ∙ sum-sorted read_in (λ (e : FileEntry). e.parts) (select is_candidate h.entries)
      ∙ sum-select read_in is_candidate h.entries
      ∙ (λ i. sum_of (λ e. same_count e i) h.entries)
    where
      by_text : (e : FileEntry) (o : Option Text) → (scanned_file h e o).0 ≡ is_utf8 o
      by_text e none = refl
      by_text e (some t) = refl

      same_count :
          (e : FileEntry)
          → (if is_candidate e then read_in e else 0)
            ≡ (if is_candidate e then is_utf8 (read_text e) else 0)
      same_count e = ap (λ (n : ℕ). if is_candidate e then n else 0) (by_text e (read_text e))

  self_test : each (check_representative h) secret_patterns ≡ ok tt
  unfolding check_representative secret_patterns each qing_yin.Prelude.same qing_yin.Text.lit search
  self_test = refl

  report_iff : (r : ℕ × List Finding) (n : ℕ) → (report r ≡ ok n) ↔ ((length r.1 ≡ 0) × (r.0 ≡ n))
  report_iff (m, []) n = (λ e. (refl, cc), λ (p, q). ap ok q)
  report_iff (m, f ∷ fs) n = (λ e. cc, λ (p, q). absurd (omega (arith, p)))

  -- The scan passes and reports n files exactly when in no file that is to be scanned and is UTF-8 a
  -- line has a part that one of the twelve patterns matches, and n is the number of these files.
  pub check_secrets_iff :
      (n : ℕ) → (check_secrets h ≡ ok n) ↔ (All IsCleanFile h.entries × (utf8_candidates ≡ n))
  unfolding check_secrets
  check_secrets_iff n =
      iff_trans
        (then_iff {P = Unit {0}} (each (check_representative h) secret_patterns) _
          (λ k. tt, λ k. self_test) (report_iff (scan h (candidate_files h)) n))
        (
          λ (u, (p, q)). (candidates_clean.0 p, sym candidates_read ∙ q),
          λ (p, q). (tt, (candidates_clean.1 p, candidates_read ∙ q)),
        )
