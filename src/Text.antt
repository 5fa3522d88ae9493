-- ===== src/Text.antt =====
-- Python strings as lists of code points, and the encodings that scripts/validate_governance_state.py
-- asks for. A lone surrogate is a code point of a string, and no encoding takes it.
pub mod Utf16
pub mod Utf8
use Prim.Native.Char.{code}
use qing_yin.Prelude.{
  ℕ, ◌+◌, ◌-◌, ◌/◌, ◌%◌, ◌<◌, Bool, String, List, [], ◌∷◌, ◌++◌, ltb, between, any, All,
  if◌then◌else◌, Result, ok, err, raised,
}

abbrev pub Text : Type 0
Text = List ℕ

abbrev pub Bytes : Type 0
Bytes = List ℕ

abbrev codes : String → Text
codes String.[] = []
codes (String.◌∷◌ c s) = code c ∷ codes s

-- a literal of the source
unfoldable pub lit : String → Text
lit s = codes s

abbrev pub IsText : Text → Type 0
IsText = All (λ c. c < 0x110000)

-- `0xD800 <= ord(character) <= 0xDFFF`
abbrev pub is_surrogate : ℕ → Bool
is_surrogate = between 0xd800 0xdfff

-- `value.encode("utf-16-be")` of a string without surrogates
unfoldable pub utf16_be : Text → Bytes
utf16_be [] = []
utf16_be (c ∷ cs) =
    let rest = utf16_be cs in
    if ltb c 0x10000
    then c / 256 ∷ c % 256 ∷ rest
    else (let hi = 0xd800 + (c - 0x10000) / 1024 in
        let lo = 0xdc00 + (c - 0x10000) % 1024 in hi / 256 ∷ hi % 256 ∷ lo / 256 ∷ lo % 256 ∷ rest)

unfoldable pub utf16_sort_key : Text → Result Bytes
utf16_sort_key value =
    if any is_surrogate value then err (raised "UnicodeEncodeError") else ok (utf16_be value)

-- one code point in UTF-8
abbrev pub utf8_unit : ℕ → Bytes
utf8_unit c =
    if ltb c 0x80
    then c ∷ []
    else if ltb c 0x800
    then (0xc0 + c / 64) ∷ (0x80 + c % 64) ∷ []
    else if ltb c 0x10000
    then (0xe0 + c / 4096) ∷ (0x80 + c / 64 % 64) ∷ (0x80 + c % 64) ∷ []
    else (0xf0 + c / 262144) ∷ (0x80 + c / 4096 % 64) ∷ (0x80 + c / 64 % 64) ∷ (0x80 + c % 64) ∷ []

unfoldable pub utf8 : Text → Bytes
utf8 [] = []
utf8 (c ∷ cs) = utf8_unit c ++ utf8 cs

-- `value.encode("utf-8")`
unfoldable pub utf8_encode : Text → Result Bytes
unfolding utf8
utf8_encode value =
    if any is_surrogate value then err (raised "UnicodeEncodeError") else ok (utf8 value)
