-- ===== src/Secrets.antt =====
-- scripts/validate_secret_regressions.py. The files of the repository and the letters beyond ASCII,
-- which `\b` asks for, are the argument `Host`.
pub mod Scan
pub mod Accepted
use qing_yin.Prelude.{
  Bool, List, String, [], any, between, if◌then◌else◌, ltb, map, none, some, ℕ, ◌+◌, ◌-◌, ◌==◌,
  ◌||◌, ◌∷◌,
}
use qing_yin.Text.{Bytes, Text, lit}
use qing_yin.Evidence.Bodies.{is_space}
use qing_yin.Regex.{
  Regex, alt, any_of, boundary, chars, empty, many, one, optional, pieces, seq, word,
}

-- what `ROOT.rglob("*")` finds: the parts of the relative path, and the bytes of a file
pub record FileEntry : Type 0 where
  pub parts : List Text
  pub is_file : Bool
  pub content : Bytes

pub record Host : Type 0 where
  -- `str.isalnum` of a character above U+007F
  pub is_alphanumeric : ℕ → Bool
  pub entries : List FileEntry

-- a word character of `re`
unfoldable pub is_word : Host → ℕ → Bool
is_word h c =
    if ltb c 0x80
    then between b'0' b'9' c || between b'A' b'Z' c || between b'a' b'z' c || c == b'_'
    else h.is_alphanumeric c

-- the ASCII letters that `re.IGNORECASE` takes for a character, and the character itself
abbrev pub folds : ℕ → List ℕ
folds c =
    if between b'A' b'Z' c
    then c ∷ (c + 32) ∷ []
    else if between b'a' b'z' c
    then c ∷ (c - 32) ∷ []
    else if between 0x130 0x131 c
    then b'I' ∷ b'i' ∷ []
    else if c == 0x17f
    then b'S' ∷ b's' ∷ []
    else if c == 0x212a
    then b'K' ∷ b'k' ∷ []
    else c ∷ []

-- `(?i)`
unfoldable pub ignoring_case : Regex → Regex
ignoring_case empty = empty
ignoring_case (one test) = one (λ c. any test (folds c))
ignoring_case boundary = boundary
ignoring_case (seq a b) = seq (ignoring_case a) (ignoring_case b)
ignoring_case (alt a b) = alt (ignoring_case a) (ignoring_case b)
ignoring_case (many test low high) = many (λ c. any test (folds c)) low high

abbrev digit : ℕ → Bool
digit = between b'0' b'9'

abbrev upper : ℕ → Bool
upper = between b'A' b'Z'

abbrev lower : ℕ → Bool
lower = between b'a' b'z'

-- `[0-9A-Za-z]`, and with more characters
abbrev letter_or_digit : ℕ → Bool
letter_or_digit c = digit c || upper c || lower c

abbrev also : String → ℕ → Bool
also more c = letter_or_digit c || any (λ x. c == x) (lit more)

abbrev either : ℕ → ℕ → ℕ → Bool
either a b c = (c == a) || (c == b)

abbrev exactly : ℕ → (ℕ → Bool) → Regex
exactly n test = many test n (some n)

abbrev some_of : String → Regex
some_of these = one (λ c. any (λ x. c == x) (lit these))

abbrev assignment : Regex
assignment = ignoring_case (
    pieces (
      boundary
      ∷ any_of (pieces (word "api" ∷ many (either b'_' b'-') 0 (some 1) ∷ word "key" ∷ [])) (
          pieces (word "client" ∷ many (either b'_' b'-') 0 (some 1) ∷ word "secret" ∷ [])
          ∷ pieces (word "access" ∷ many (either b'_' b'-') 0 (some 1) ∷ word "token" ∷ [])
          ∷ word "password"
          ∷ [])
      ∷ boundary
      ∷ many is_space 0 none
      ∷ some_of ":="
      ∷ many is_space 0 none
      ∷ some_of "\"'"
      ∷ many (also "_./+=-") 20 none
      ∷ some_of "\"'"
      ∷ []))

-- `SECRET_PATTERNS`
unfoldable pub secret_patterns : List (Text × Regex)
unfolding chars ignoring_case
secret_patterns =
    map (λ ((label, r) : String × Regex). (lit label, r))
      ((
        "private key",
        pieces (
            word "-----BEGIN "
            ∷ optional
                (any_of (word "RSA ") (word "EC " ∷ word "OPENSSH " ∷ word "ENCRYPTED " ∷ []))
            ∷ word "PRIVATE KEY-----"
            ∷ []),
      )
        ∷ (
          "AWS access key",
          pieces (
              boundary
              ∷ any_of (word "AKIA") (word "ASIA" ∷ [])
              ∷ exactly 16 (λ c. digit c || upper c)
              ∷ boundary
              ∷ []),
        )
        ∷ (
          "Alibaba Cloud access key",
          pieces (boundary ∷ word "LTAI" ∷ many letter_or_digit 12 (some 20) ∷ boundary ∷ []),
        )
        ∷ (
          "Tencent Cloud secret ID",
          pieces (boundary ∷ word "AKID" ∷ many letter_or_digit 13 (some 40) ∷ boundary ∷ []),
        )
        ∷ (
          "Google API key",
          pieces (boundary ∷ word "AIza" ∷ exactly 35 (also "_-") ∷ boundary ∷ []),
        )
        ∷ (
          "GitHub token",
          pieces (
              boundary
              ∷ word "gh"
              ∷ some_of "pousr"
              ∷ word "_"
              ∷ many letter_or_digit 36 (some 255)
              ∷ boundary
              ∷ []),
        )
        ∷ (
          "GitLab token",
          pieces (boundary ∷ word "glpat-" ∷ many (also "_-") 20 none ∷ boundary ∷ []),
        )
        ∷ (
          "Slack token",
          pieces (
              boundary
              ∷ word "xox"
              ∷ some_of "baprs"
              ∷ word "-"
              ∷ many (also "-") 20 none
              ∷ boundary
              ∷ []),
        )
        ∷ (
          "OpenAI-style key",
          pieces (
              boundary
              ∷ word "sk-"
              ∷ optional (word "proj-")
              ∷ many (also "_-") 20 none
              ∷ boundary
              ∷ []),
        )
        ∷ (
          "QingYin project credential",
          pieces (
              boundary
              ∷ word "qy_"
              ∷ any_of (word "live") (word "test" ∷ [])
              ∷ word "_"
              ∷ many (also "_-") 16 none
              ∷ boundary
              ∷ []),
        )
        ∷ (
          "Authorization bearer value",
          ignoring_case (
              pieces (
                boundary
                ∷ word "Bearer"
                ∷ many is_space 1 none
                ∷ many (also "._~+/-") 20 none
                ∷ many (λ c. c == b'=') 0 (some 2)
                ∷ boundary
                ∷ [])),
        )
        ∷ ("inline credential assignment", assignment)
        ∷ [])
