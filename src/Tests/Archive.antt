-- ===== src/Tests/Archive.antt =====
-- A small ZIP archive of one empty member, with the theorem on it.
use qing_yin.Prelude.{[], fail, ok, refl, replicate, same, ℕ, ◌++◌, ◌↔◌, ◌∷◌, ◌≡◌}
use qing_yin.Text.{Bytes}
use qing_yin.Archive.{central_signature, eocd_signature, preflight_zip_archive}
use qing_yin.Archive.Accepted.{IsArchive, preflight_zip_archive_iff}

-- the member's record: the name `a` behind 46 bytes
abbrev member_record : Bytes
member_record = central_signature ++ replicate 24 0 ++ (1 ∷ 0 ∷ []) ++ replicate 16 0 ++ (b'a' ∷ [])

abbrev end_record : ℕ → Bytes
end_record members =
    eocd_signature
    ++ replicate 4 0
    ++ (members ∷ 0 ∷ members ∷ 0 ∷ [])
    ++ (47 ∷ 0 ∷ 0 ∷ 0 ∷ [])
    ++ (3 ∷ 0 ∷ 0 ∷ 0 ∷ [])
    ++ replicate 2 0

abbrev small_archive : Bytes
small_archive = (7 ∷ 7 ∷ 7 ∷ []) ++ member_record ++ end_record 1

passes : preflight_zip_archive small_archive ≡ ok tt
unfolding preflight_zip_archive same
passes = refl

-- a second member that is not there
miscounted :
    preflight_zip_archive (member_record ++ end_record 2)
    ≡ fail "evidence ZIP central directory does not end at EOCD"
unfolding preflight_zip_archive
miscounted = refl

preflight_zip_archive_iff_example :
    (preflight_zip_archive small_archive ≡ ok tt) ↔ IsArchive small_archive
preflight_zip_archive_iff_example = preflight_zip_archive_iff small_archive
