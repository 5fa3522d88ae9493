-- ===== src/Links.antt =====
-- scripts/validate_markdown_links.py. The file system is the argument `Repository`; paths are texts below
-- the repository's root.
pub mod Accepted
pub mod Matches
use qing_yin.Prelude.{
  Bool, List, Option, Result, [], any, false, if◌then◌else◌, length, map, none, not, ok, some, suc,
  traverse, true, zero, ℕ, ◌&&◌, ◌++◌, ◌==◌, ◌>>=◌, ◌>>◌, ◌||◌, ◌∷◌,
}
use qing_yin.Text.{Text, lit}
use qing_yin.Evidence.Bodies.{is_space}

pub record Repository : Type 0 where
  -- `path.is_file()`
  pub is_file : Text → Bool
  -- `path.read_text(encoding="utf-8")`
  pub read : Text → Result Text
  -- `(source.parent / path_text).resolve()`
  pub resolve : Text → Text → Text
  -- `(ROOT / "docs").rglob("*.md")`
  pub documents : List Text

abbrev put : ℕ → Option (Text × Text) → Option (Text × Text)
put d none = none
put d (some r) = some (d ∷ r.0, r.1)

-- the text before a character, and the text behind it
unfoldable pub split_at : ℕ → Text → Option (Text × Text)
split_at c [] = none
split_at c (d ∷ s) = let rest = split_at c s in if d == c then some ([], s) else put d rest

abbrev target_of : Option (Text × Text) → Option (Text × Text)
target_of (some (c ∷ cs, rest)) = some (c ∷ cs, rest)
target_of _ = none

abbrev after_label : Option (Text × Text) → Option (Text × Text)
after_label (some (label, c ∷ s)) = if c == b'(' then target_of (split_at b')' s) else none
after_label _ = none

-- a match of MARKDOWN_LINK at the start: its group, and the text behind it
unfoldable pub match_link : Text → Option (Text × Text)
unfolding split_at
match_link [] = none
match_link (c ∷ s) = if c == b'[' then after_label (split_at b']' s) else none

-- the search goes on behind a match, or at the next character
abbrev pub scan_on : (Text → List Text) → Text → Option (Text × Text) → List Text
scan_on scan s none = scan s
scan_on scan s (some r) = r.0 ∷ scan r.1

-- `MARKDOWN_LINK.findall(text)`; the fuel is the length of the text
unfoldable pub find_links : ℕ → Text → List Text
find_links zero s = []
find_links (suc fuel) [] = []
find_links (suc fuel) (c ∷ s) = scan_on (λ rest. find_links fuel rest) s (match_link (c ∷ s))

unfoldable pub link_targets : Text → List Text
unfolding find_links
link_targets s = find_links (length s) s

-- `text.strip(...)` of the characters of a test
drop_while : (ℕ → Bool) → Text → Text
drop_while test [] = []
drop_while test (c ∷ s) = let rest = drop_while test s in if test c then rest else c ∷ s

abbrev reverse_onto : Text → Text → Text
reverse_onto [] acc = acc
reverse_onto (c ∷ s) acc = reverse_onto s (c ∷ acc)

unfoldable pub strip : (ℕ → Bool) → Text → Text
unfolding drop_while
strip test s = reverse_onto (drop_while test (reverse_onto (drop_while test s) [])) []

-- `text.startswith(prefix)`
abbrev starts_with : Text → Text → Bool
starts_with [] s = true
starts_with (c ∷ cs) [] = false
starts_with (c ∷ cs) (d ∷ s) = (c == d) && starts_with cs s

unfoldable pub is_external : Text → Bool
is_external target =
    any (λ p. starts_with p target) (map lit ("#" ∷ "http://" ∷ "https://" ∷ "mailto:" ∷ []))

-- `target.split("#", maxsplit=1)[0]`
unfoldable pub path_of : Text → Text
path_of [] = []
path_of (c ∷ s) = let rest = path_of s in if c == b'#' then [] else c ∷ rest

abbrev is_empty : Text → Bool
is_empty [] = true
is_empty (_ ∷ _) = false

abbrev pub target_text : Text → Text
target_text raw = strip (λ c. (c == b'<') || (c == b'>')) (strip is_space raw)

-- whether a link is reported
unfoldable pub is_missing : Repository → Text → Text → Bool
unfolding is_external path_of strip
is_missing t source raw =
    let target = target_text raw in
    not (is_external target || is_empty (path_of target))
    && not (t.is_file (t.resolve source (path_of target)))

abbrev pub reported : (Text → Bool) → List Text → List Text
reported test [] = []
reported test (x ∷ xs) = let rest = reported test xs in if test x then x ∷ rest else rest

-- what one file adds to `missing`
unfoldable pub missing_of : Repository → Text → Result (List Text)
unfolding is_missing link_targets
missing_of t source =
    if t.is_file source
    then (do content ← t.read source; ok (reported (is_missing t source) (link_targets content)))
    else ok (source ∷ [])

abbrev pub root_markdown_files : List Text
root_markdown_files = map lit ("README.md" ∷ "CONTRIBUTING.md" ∷ "SECURITY.md" ∷ [])

abbrev pub markdown_files : Repository → List Text
markdown_files t = root_markdown_files ++ t.documents

abbrev pub none_missing : List (List Text) → Bool
none_missing [] = true
none_missing ([] ∷ l) = none_missing l
none_missing ((_ ∷ _) ∷ l) = false

abbrev pub links_exit_code : List (List Text) → Result ℕ
links_exit_code reports = ok (if none_missing reports then 0 else 1)

-- `main()`, which returns the exit code
unfoldable pub check_links : Repository → Result ℕ
unfolding missing_of
check_links t = traverse (missing_of t) (markdown_files t) >>= links_exit_code
