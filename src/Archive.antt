-- ===== src/Archive.antt =====
-- `preflight_zip_archive` of scripts/validate_governance_state.py: the bounds of a ZIP archive's
-- central directory, before it is opened.
pub mod Slices
pub mod Directory
pub mod Records
pub mod Accepted
use qing_yin.Prelude.{
  Bool, List, Result, [], drop, fail, false, if◌then◌else◌, leb, length, ltb, not, ok, require,
  same, suc, take, true, zero, ℕ, ◌&&◌, ◌*◌, ◌+◌, ◌-◌, ◌==◌, ◌>>=◌, ◌>>◌, ◌||◌, ◌∷◌,
}
use qing_yin.Text.{Bytes}

-- `ZIP_EOCD_SIZE`, `ZIP_CENTRAL_DIRECTORY_HEADER_SIZE` and `MAX_ZIP_EOCD_SEARCH_BYTES`
abbrev pub zip_eocd_size : ℕ
zip_eocd_size = 22

abbrev pub zip_central_directory_header_size : ℕ
zip_central_directory_header_size = 46

abbrev pub max_zip_eocd_search_bytes : ℕ
max_zip_eocd_search_bytes = 22 + 65535

abbrev pub eocd_signature : Bytes
eocd_signature = b'P' ∷ b'K' ∷ 5 ∷ 6 ∷ []

abbrev pub central_signature : Bytes
central_signature = b'P' ∷ b'K' ∷ 1 ∷ 2 ∷ []

-- `int.from_bytes(data, "little")`
abbrev pub little : Bytes → ℕ
little [] = 0
little (b ∷ bs) = b + 256 * little bs

-- `data[offset : offset + count]`
unfoldable pub slice : Bytes → ℕ → ℕ → Bytes
slice bytes offset count = take count (drop offset bytes)

-- `int.from_bytes(data[offset : offset + count], "little")`
unfoldable pub read_number : Bytes → ℕ → ℕ → ℕ
unfolding slice
read_number bytes offset count = little (slice bytes offset count)

abbrev pub starts_with : Bytes → Bytes → Bool
starts_with [] bytes = true
starts_with (b ∷ bs) [] = false
starts_with (b ∷ bs) (c ∷ bytes) = (b == c) && starts_with bs bytes

-- The offsets from `offset` on that the loop of `data.find(signature, …)` stops at; the last
-- argument is the data from there on.
unfoldable pub find_all : Bytes → ℕ → Bytes → List ℕ
find_all signature offset [] = []
find_all signature offset (b ∷ rest) =
    let later = find_all signature (offset + 1) rest in
    if starts_with signature (b ∷ rest) then offset ∷ later else later

-- the record fits, and its comment ends with the data
unfoldable pub ends_file : Bytes → ℕ → Bool
unfolding read_number
ends_file bytes offset =
    leb (offset + zip_eocd_size) (length bytes)
    && (offset + zip_eocd_size + read_number bytes (offset + 20) 2 == length bytes)

abbrev pub kept : (ℕ → Bool) → List ℕ → List ℕ
kept test [] = []
kept test (n ∷ ns) = let rest = kept test ns in if test n then n ∷ rest else rest

unfoldable pub candidates : Bytes → List ℕ
unfolding find_all ends_file
candidates bytes =
    let search_start = length bytes - max_zip_eocd_search_bytes in
    kept (ends_file bytes) (find_all eocd_signature search_start (drop search_start bytes))

abbrev pub only_offset : List ℕ → Result ℕ
only_offset (n ∷ []) = ok n
only_offset _ = fail "evidence ZIP must have one EOF-terminated EOCD"

-- `struct.unpack_from("<4s4H2LH", data, eocd_offset)` without the signature
pub record Eocd : Type 0 where
  pub disk_number : ℕ
  pub central_directory_disk : ℕ
  pub entries_on_disk : ℕ
  pub total_entries : ℕ
  pub central_directory_size : ℕ
  pub central_directory_offset : ℕ
  pub comment_length : ℕ

abbrev pub unpack_eocd : Bytes → ℕ → Eocd
unpack_eocd bytes offset = record {
  disk_number = read_number bytes (offset + 4) 2;
  central_directory_disk = read_number bytes (offset + 6) 2;
  entries_on_disk = read_number bytes (offset + 8) 2;
  total_entries = read_number bytes (offset + 10) 2;
  central_directory_size = read_number bytes (offset + 12) 4;
  central_directory_offset = read_number bytes (offset + 16) 4;
  comment_length = read_number bytes (offset + 20) 2;
}

abbrev pub one_disk : Eocd → Bool
one_disk e =
    (e.disk_number == 0)
    && (e.central_directory_disk == 0)
    && (e.entries_on_disk == e.total_entries)

abbrev pub is_zip64 : Eocd → Bool
is_zip64 e =
    (e.entries_on_disk == 0xffff)
    || (e.total_entries == 0xffff)
    || (e.central_directory_size == 0xffffffff)
    || (e.central_directory_offset == 0xffffffff)

-- the checks of the record before the loop
unfoldable pub check_eocd : Bytes → ℕ → Eocd → Result (Unit {0})
check_eocd bytes eocd_offset e = do
  require (eocd_offset + zip_eocd_size + e.comment_length == length bytes)
      "evidence ZIP EOCD comment does not end at EOF"
  require (one_disk e) "multi-disk evidence ZIP is forbidden"
  require (not (is_zip64 e)) "ZIP64 evidence archives are forbidden"
  require (leb e.total_entries 1000) "evidence ZIP has too many members"
  require (e.central_directory_offset + e.central_directory_size == eocd_offset)
      "evidence ZIP central directory does not end at EOCD"

-- the size of the member's record at an offset
abbrev pub entry_size : Bytes → ℕ → ℕ
entry_size bytes offset =
    zip_central_directory_header_size
    + read_number bytes (offset + 28) 2
    + read_number bytes (offset + 30) 2
    + read_number bytes (offset + 32) 2

abbrev pub is_header : Bytes → ℕ → ℕ → Bool
is_header bytes offset eocd_offset =
    leb (offset + zip_central_directory_header_size) eocd_offset
    && same (slice bytes offset 4) central_signature

-- The loop, from the place and the count that it has reached. Its own guard
-- `parsed_entries < 1000` is the room that is left.
unfoldable pub walk : ℕ → Bytes → ℕ → ℕ → ℕ → Result (ℕ × ℕ)
unfolding read_number slice
walk zero bytes eocd_offset offset parsed = do
  require (not (ltb offset eocd_offset))
      "evidence ZIP has too many actual central-directory members"
  ok (offset, parsed)
walk (suc room) bytes eocd_offset offset parsed =
    if ltb offset eocd_offset
    then (do
      require (is_header bytes offset eocd_offset) "invalid evidence ZIP central-directory header"
      require (leb (offset + entry_size bytes offset) eocd_offset)
          "evidence ZIP central-directory entry exceeds bounds"
      walk room bytes eocd_offset (offset + entry_size bytes offset) (suc parsed))
    else ok (offset, parsed)

unfoldable pub preflight_zip_archive : Bytes → Result (Unit {0})
unfolding candidates check_eocd walk
preflight_zip_archive bytes = do
  require (leb zip_eocd_size (length bytes)) "evidence ZIP is shorter than EOCD"
  eocd_offset ← only_offset (candidates bytes)
  check_eocd bytes eocd_offset (unpack_eocd bytes eocd_offset)
  reached ← walk 1000 bytes eocd_offset (unpack_eocd bytes eocd_offset).central_directory_offset 0
  require
      ((reached.0 == eocd_offset) && (reached.1 == (unpack_eocd bytes eocd_offset).total_entries))
      "evidence ZIP central-directory count/size mismatch"
