-- ===== src/Archive/Accepted.antt =====
-- Which archives `preflight_zip_archive` of scripts/validate_governance_state.py accepts.
use qing_yin.Prelude.{
  ==_iff, List, Result, [], and_true, arith, bind-eq-ok, drop, err, leb, leb→le, length, le→leb,
  not, ok, refl, require, true, ℕ, ◌&&◌, ◌+◌, ◌-◌, ◌==◌, ◌>>=◌, ◌>>◌, ◌↔◌, ◌∷◌, ◌≡◌, ◌≢◌, ◌≤◌,
}
use qing_yin.Prelude.Checks.{bind_iff, iff_trans, require_iff, then_iff}
use qing_yin.Text.{Bytes}
use qing_yin.Archive.{
  Eocd, candidates, check_eocd, ends_file, is_zip64, max_zip_eocd_search_bytes, one_disk,
  only_offset, preflight_zip_archive, unpack_eocd, walk, zip_eocd_size,
}
use qing_yin.Archive.Directory.{AreEntries, walk_complete, walk_sound}
use qing_yin.Archive.Records.{StandsAt, one_iff}

-- An end record that fits, with a comment that ends the file, starts at the offset, which is no
-- further from the end than the longest comment allows.
abbrev pub IsRecordAt : Bytes → ℕ → Type 0
IsRecordAt bytes n =
    let search_start = length bytes - max_zip_eocd_search_bytes in
    StandsAt (ends_file bytes) search_start (drop search_start bytes) n

only_offset_iff : (ns : List ℕ) (n : ℕ) → (only_offset ns ≡ ok n) ↔ (ns ≡ n ∷ [])
only_offset_iff [] n = (λ h. cc, λ h. cc)
only_offset_iff (m ∷ []) n = (λ h. cc, λ h. cc)
only_offset_iff (m ∷ m2 ∷ ms) n = (λ h. cc, λ h. cc)

abbrev pub IsOnlyRecord : Bytes → ℕ → Type 0
IsOnlyRecord bytes o = IsRecordAt bytes o × ((n : ℕ) → IsRecordAt bytes n → n ≡ o)

candidates_iff :
    (bytes : Bytes) (o : ℕ) → (only_offset (candidates bytes) ≡ ok o) ↔ IsOnlyRecord bytes o
unfolding candidates
candidates_iff bytes o =
    let search_start = length bytes - max_zip_eocd_search_bytes in
    iff_trans (only_offset_iff (candidates bytes) o)
      (one_iff (ends_file bytes) search_start (drop search_start bytes) o)

-- one disk, no ZIP64 marks, at most 1000 members, and the directory ends at the record
abbrev pub IsEnd : Bytes → ℕ → Eocd → Type 0
IsEnd bytes o e =
    (o + zip_eocd_size + e.comment_length ≡ length bytes)
    × (((e.disk_number ≡ 0)
          × (e.central_directory_disk ≡ 0)
          × (e.entries_on_disk ≡ e.total_entries))
        × (((e.entries_on_disk ≢ 0xffff)
              × (e.total_entries ≢ 0xffff)
              × (e.central_directory_size ≢ 0xffffffff)
              × (e.central_directory_offset ≢ 0xffffffff))
            × ((e.total_entries ≤ 1000)
                × (e.central_directory_offset + e.central_directory_size ≡ o))))

one_disk_iff :
    (e : Eocd)
    → (one_disk e ≡ true) ↔ (
        (e.disk_number ≡ 0)
        × (e.central_directory_disk ≡ 0)
        × (e.entries_on_disk ≡ e.total_entries))
one_disk_iff e = ground arith

zip64_iff :
    (e : Eocd)
    → (not (is_zip64 e) ≡ true) ↔ (
        (e.entries_on_disk ≢ 0xffff)
        × (e.total_entries ≢ 0xffff)
        × (e.central_directory_size ≢ 0xffffffff)
        × (e.central_directory_offset ≢ 0xffffffff))
zip64_iff e = ground arith

leb_iff : (a b : ℕ) → (leb a b ≡ true) ↔ (a ≤ b)
leb_iff a b = (leb→le a b, le→leb a b)

check_eocd_iff :
    (bytes : Bytes) (o : ℕ) (e : Eocd) → (check_eocd bytes o e ≡ ok tt) ↔ IsEnd bytes o e
unfolding check_eocd
check_eocd_iff bytes o e = then_iff _ _ (iff_trans (require_iff _ _) (==_iff _ _)) (
    then_iff _ _ (iff_trans (require_iff _ _) (one_disk_iff e)) (
      then_iff _ _ (iff_trans (require_iff _ _) (zip64_iff e)) (
        then_iff _ _ (iff_trans (require_iff _ _) (leb_iff _ _))
          (iff_trans (require_iff _ _) (==_iff _ _)))))

-- the members' records from the start of the directory to the end record
abbrev pub IsDirectory : Bytes → ℕ → Eocd → Type 0
IsDirectory bytes o e =
    (es : List Bytes) × AreEntries bytes e.central_directory_offset o es
    × (length es ≡ e.total_entries)

abbrev checked_walk : Bytes → ℕ → Eocd → Result (Unit {0})
checked_walk bytes o e = do
  reached ← walk 1000 bytes o e.central_directory_offset 0
  require ((reached.0 == o) && (reached.1 == e.total_entries))
      "evidence ZIP central-directory count/size mismatch"

checked_walk_iff :
    (bytes : Bytes) (o : ℕ) (e : Eocd)
    → IsEnd bytes o e
    → (checked_walk bytes o e ≡ ok tt) ↔ IsDirectory bytes o e
checked_walk_iff bytes o e (c, (disk, (zip, (few, place)))) =
    let within : o ≤ length bytes = omega arith in
    (
      λ h.
          let (reached, w, k) = bind-eq-ok (walk 1000 bytes o e.central_directory_offset 0) _ h in
          let (es, entries, (at, count)) =
            walk_sound bytes o within 1000 e.central_directory_offset 0 reached w (omega arith) in
          let (at2, total) = and_true (reached.0 == o) _ ((require_iff _ _).0 k) in
          (es, entries, omega (arith, count, (==_iff _ _).0 total)),
      λ (es, entries, count).
          let w =
            walk_complete bytes o within 1000 e.central_directory_offset 0 es entries (omega arith)
              (omega (arith, count, few)) in
          let at : (o == o) ≡ true = (==_iff o o).1 refl in
          let total : (0 + length es == e.total_entries) ≡ true =
            (==_iff _ _).1 (omega (arith, count)) in
          rw w (rw (at, total) refl),
    )

-- an archive with one end record and a directory of as many members as it says
abbrev pub IsArchive : Bytes → Type 0
IsArchive bytes =
    (22 ≤ length bytes)
    × ((o : ℕ) × IsOnlyRecord bytes o
        × (IsEnd bytes o (unpack_eocd bytes o) × IsDirectory bytes o (unpack_eocd bytes o)))

-- the second check after the first has passed
after_iff :
    {P Q : Type 0} (m : Result (Unit {0})) (k : Result (Unit {0}))
    → (m ≡ ok tt) ↔ P
    → (P → (k ≡ ok tt) ↔ Q)
    → ((m >> k) ≡ ok tt) ↔ (P × Q)
after_iff (ok tt) k f g = (λ h. let p = f.0 refl in (p, (g p).0 h), λ (p, q). (g p).1 q)
after_iff (err e) k f g = (λ h. cc, λ (p, q). absurd (cc (f.1 p)))

-- An archive passes exactly when it is no shorter than an end record, has one end record whose
-- comment ends the file, on one disk, without ZIP64 marks and with at most 1000 members, whose
-- directory, from its offset to the record, is that many members' records one behind the other,
-- each with its signature and as long as its three lengths say.
pub preflight_zip_archive_iff :
    (bytes : Bytes) → (preflight_zip_archive bytes ≡ ok tt) ↔ IsArchive bytes
unfolding preflight_zip_archive
preflight_zip_archive_iff bytes =
    then_iff _ _ (iff_trans (require_iff _ _) (leb_iff 22 (length bytes))) (
      bind_iff (only_offset (candidates bytes)) _ (candidates_iff bytes) λ o.
        after_iff _ _ (check_eocd_iff bytes o (unpack_eocd bytes o))
          (checked_walk_iff bytes o (unpack_eocd bytes o)))
