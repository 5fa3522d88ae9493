-- ===== src/Archive/Directory.antt =====
-- The loop over the central directory, described by the list of its members' records.
use mathlib.Core.List.{append_assoc}
use qing_yin.Prelude.{
  All, Bool-cases, List, Result, [], and_true, ap, arith, drop, false, inl, inr, leb, leb→le,
  length, length-append, le→leb, ltb, not, ok, ok-injective, refl, require-eq-ok, same_iff, suc,
  sym, take, true, zero, ℕ, ◌++◌, ◌+◌, ◌∙◌, ◌∷◌, ◌≡◌, ◌≤◌,
}
use qing_yin.Text.{Bytes}
use qing_yin.Archive.{central_signature, entry_size, is_header, read_number, slice, walk}
use qing_yin.Archive.Slices.{drop-append, drop_add, length-drop, length-take, slice_lem, take-drop}

-- the signature, and as long as its three lengths say
abbrev pub IsEntry : Bytes → Type 0
IsEntry e = (slice e 0 4 ≡ central_signature) × (length e ≡ entry_size e 0)

abbrev pub concatenated : List Bytes → Bytes
concatenated [] = []
concatenated (e ∷ es) = e ++ concatenated es

entry_size-at :
    (bytes : Bytes) (offset : ℕ) (u v : Bytes)
    → drop offset bytes ≡ u ++ v
    → 46 ≤ length u
    → entry_size bytes offset ≡ entry_size u 0
unfolding read_number
entry_size-at bytes offset u v e h =
    rw
      (
        slice_lem bytes offset 28 2 u v e (omega arith),
        slice_lem bytes offset 30 2 u v e (omega arith),
        slice_lem bytes offset 32 2 u v e (omega arith),
      )
      refl

-- the records from an offset to the end record
abbrev pub AreEntries : Bytes → ℕ → ℕ → List Bytes → Type 0
AreEntries bytes offset eocd_offset es =
    (drop offset bytes ≡ concatenated es ++ drop eocd_offset bytes) × All IsEntry es

module _ (bytes : Bytes) (eocd_offset : ℕ) (within : eocd_offset ≤ length bytes) where
  split_off :
      (offset : ℕ)
      → is_header bytes offset eocd_offset ≡ true
      → offset + entry_size bytes offset ≤ eocd_offset
      → let e = take (entry_size bytes offset) (drop offset bytes) in
        (drop offset bytes ≡ e ++ drop (offset + entry_size bytes offset) bytes) × IsEntry e
  unfolding slice
  split_off offset header bound =
      let k = entry_size bytes offset in
      let rest = drop offset bytes in
      let e = take k rest in
      let parts : rest ≡ e ++ drop (offset + k) bytes =
        sym (take-drop k rest) ∙ ap (λ t. e ++ t) (sym (drop_add offset k bytes)) in
      let size : length e ≡ k =
        length-take k rest (omega (arith, length-drop offset bytes, within, bound)) in
      let (fits, signed) = and_true (leb (offset + 46) eocd_offset) _ header in
      (
        parts,
        (
          sym (slice_lem bytes offset 0 4 e _ parts (omega arith))
              ∙ ap (λ n. slice bytes n 4) (omega arith)
              ∙ (same_iff _ _).0 signed,
          size ∙ entry_size-at bytes offset e _ parts (omega arith),
        ),
      )

  at_end :
      (offset parsed : ℕ) (reached : ℕ × ℕ)
      → offset ≡ eocd_offset
      → Path (Result (ℕ × ℕ)) (ok (offset, parsed)) (ok reached)
      → (es : List Bytes) × AreEntries bytes offset eocd_offset es
        × ((reached.0 ≡ eocd_offset) × (reached.1 ≡ parsed + length es))
  at_end offset parsed reached equal e =
      let back = sym (ok-injective (offset, parsed) reached e) in
      (
        [],
        (ap (λ n. drop n bytes) equal, tt),
        (ap (λ (r : ℕ × ℕ). r.0) back ∙ equal, ap (λ (r : ℕ × ℕ). r.1) back ∙ omega arith),
      )

  pub walk_sound :
      (room offset parsed : ℕ) (reached : ℕ × ℕ)
      → walk room bytes eocd_offset offset parsed ≡ ok reached
      → offset ≤ eocd_offset
      → (es : List Bytes) × AreEntries bytes offset eocd_offset es
        × ((reached.0 ≡ eocd_offset) × (reached.1 ≡ parsed + length es))
  unfolding walk
  walk_sound zero offset parsed reached h le =
      let (stop, e) = require-eq-ok (not (ltb offset eocd_offset)) _ _ h in
      at_end offset parsed reached (ground arith) e
  walk_sound (suc room) offset parsed reached h le = elim (Bool-cases (ltb offset eocd_offset)) [
    | inl more ↦
        let (header, k) = require-eq-ok (is_header bytes offset eocd_offset) _ _ (rw more at h) in
        let (bound, rest) =
          require-eq-ok (leb (offset + entry_size bytes offset) eocd_offset) _ _ k in
        let le2 = leb→le _ _ bound in
        let (parts, entry) = split_off offset header le2 in
        let (es, (tail, all_entries), (at, count)) =
          walk_sound room (offset + entry_size bytes offset) (suc parsed) reached rest le2 in
        (
          take (entry_size bytes offset) (drop offset bytes) ∷ es,
          (
            parts
                ∙ ap (λ t. take (entry_size bytes offset) (drop offset bytes) ++ t) tail
                ∙ sym (append_assoc _ (concatenated es) _),
            (entry, all_entries),
          ),
          (at, count ∙ omega arith),
        )
    | inr stop ↦ at_end offset parsed reached (ground arith) (rw stop at h)
  ]

  entry_at :
      (offset : ℕ) (e rest : Bytes)
      → drop offset bytes ≡ e ++ rest
      → IsEntry e
      → (length e ≡ entry_size bytes offset) × (drop (offset + length e) bytes ≡ rest)
  entry_at offset e rest parts entry = (
    entry.1 ∙ sym (entry_size-at bytes offset e rest parts (omega (arith, entry.1))),
    drop_add offset (length e) bytes ∙ ap (drop (length e)) parts ∙ drop-append e rest,
  )

  -- an offset in front of a suffix is not behind where the suffix starts
  ahead :
      (offset : ℕ) (u : Bytes)
      → offset ≤ length bytes
      → drop offset bytes ≡ u ++ drop eocd_offset bytes
      → offset + length u ≡ eocd_offset
  ahead offset u le e = omega (
    arith,
    length-drop offset bytes,
    length-drop eocd_offset bytes,
    ap length e,
    length-append u (drop eocd_offset bytes),
    within,
  )

  stopped :
      (offset parsed : ℕ)
      → offset ≡ eocd_offset
      → Path (Result (ℕ × ℕ)) (ok (offset, parsed)) (ok (eocd_offset, parsed + 0))
  stopped offset parsed h =
      let count : parsed ≡ parsed + 0 = omega arith in
      ap (λ n. ok (n, parsed)) h ∙ ap (λ n. ok (eocd_offset, n)) count

  header_at :
      (offset : ℕ) (e rest : Bytes)
      → drop offset bytes ≡ e ++ rest
      → IsEntry e
      → offset + length e ≤ eocd_offset
      → is_header bytes offset eocd_offset ≡ true
  unfolding slice
  header_at offset e rest parts entry le =
      let here : offset ≡ offset + 0 = omega arith in
      let size : 46 ≤ length e = omega (arith, entry.1) in
      let signed : slice bytes offset 4 ≡ central_signature =
        ap (λ n. slice bytes n 4) here
        ∙ slice_lem bytes offset 0 4 e rest parts (omega arith)
        ∙ entry.0 in
      rw (le→leb (offset + 46) eocd_offset (omega arith), (same_iff _ _).1 signed) refl

  -- Records up to the end record are walked, if there is room for them.
  pub walk_complete :
      (room offset parsed : ℕ) (es : List Bytes)
      → AreEntries bytes offset eocd_offset es
      → offset ≤ length bytes
      → length es ≤ room
      → walk room bytes eocd_offset offset parsed ≡ ok (eocd_offset, parsed + length es)
  unfolding walk
  walk_complete zero offset parsed [] (e, t) le enough =
      let equal : offset ≡ eocd_offset = omega (arith, ahead offset [] le e) in
      let stop : ltb offset eocd_offset ≡ false = ground arith in
      rw stop (stopped offset parsed equal)
  walk_complete (suc room) offset parsed [] (e, t) le enough =
      let equal : offset ≡ eocd_offset = omega (arith, ahead offset [] le e) in
      let stop : ltb offset eocd_offset ≡ false = ground arith in
      rw stop (stopped offset parsed equal)
  walk_complete zero offset parsed (x ∷ es) (e, t) le enough = absurd (omega arith)
  walk_complete (suc room) offset parsed (x ∷ es) (e, (entry, t)) le enough =
      let parts = e ∙ append_assoc x (concatenated es) _ in
      let (size, tail) = entry_at offset x _ parts entry in
      let end_at = ahead offset (x ++ concatenated es) le e in
      let fits : offset + length x ≤ eocd_offset =
        omega (arith, end_at, length-append x (concatenated es)) in
      let more : ltb offset eocd_offset ≡ true = ground (arith, entry.1) in
      let bound : leb (offset + entry_size bytes offset) eocd_offset ≡ true =
        le→leb _ _ (omega (arith, size)) in
      let next : offset + length x ≡ offset + entry_size bytes offset = ap (λ n. offset + n) size in
      let rest =
        walk_complete room (offset + length x) (suc parsed) es (tail, t) (omega (arith, within))
          (omega arith) in
      let count : suc parsed + length es ≡ parsed + suc (length es) = omega arith in
      rw (more, header_at offset x _ parts entry fits, bound, sym next)
        (rest ∙ ap (λ n. ok (eocd_offset, n)) count)
