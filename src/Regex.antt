-- ===== src/Regex.antt =====
-- The regular expressions of the scripts, as far as their `re` patterns need them: a matcher that
-- tries the alternatives in turn, as `re` does. A pattern is matched behind a character, which `\b`
-- looks at, and the rest of the pattern is the continuation.
pub mod Language
use qing_yin.Prelude.{
  Bool, List, Option, String, [], false, if◌then◌else◌, none, not, some, true, ℕ, ◌&&◌, ◌-◌, ◌==◌,
  ◌||◌, ◌∷◌,
}
use qing_yin.Text.{Text, lit}

pub data Regex : Type 0 where
  empty : Regex
  -- a character that passes a test
  one : (ℕ → Bool) → Regex
  -- `\b`
  boundary : Regex
  seq : Regex → Regex → Regex
  alt : Regex → Regex → Regex
  -- `[…]{low,high}`, where `none` is no upper bound
  many : (ℕ → Bool) → ℕ → Option ℕ → Regex

abbrev pub head : Text → Option ℕ
head [] = none
head (c ∷ s) = some c

-- the last character of a text that stands behind a character
abbrev pub last_of : Option ℕ → Text → Option ℕ
last_of p [] = p
last_of p (c ∷ s) = last_of (some c) s

abbrev pub room : Option ℕ → Bool
room none = true
room (some n) = not (n == 0)

abbrev pub less : Option ℕ → Option ℕ
less none = none
less (some n) = some (n - 1)

abbrev pub Rest : Type 0
Rest = Option ℕ → Text → Bool

abbrev pub run_one : (ℕ → Bool) → Rest → Text → Bool
run_one test next [] = false
run_one test next (c ∷ s) = test c && next (some c) s

unfoldable pub run_many : (ℕ → Bool) → Rest → ℕ → Option ℕ → Option ℕ → Text → Bool
run_many test next low high p [] = low == 0 && next p []
run_many test next low high p (c ∷ s) =
    (low == 0 && next p (c ∷ s))
    || (room high && test c && run_many test next (low - 1) (less high) (some c) s)

module _ (is_word : ℕ → Bool) where
  abbrev pub is_word_at : Option ℕ → Bool
  is_word_at none = false
  is_word_at (some c) = is_word c

  abbrev pub at_boundary : Option ℕ → Option ℕ → Bool
  at_boundary before after = if is_word_at before then not (is_word_at after) else is_word_at after

  unfoldable pub run : Regex → Rest → Rest
  unfolding run_many
  run empty next p s = next p s
  run (one test) next p s = run_one test next s
  run boundary next p s = at_boundary p (head s) && next p s
  run (seq a b) next p s = run a (run b next) p s
  run (alt a b) next p s = run a next p s || run b next p s
  run (many test low high) next p s = run_many test next low high p s

  -- `pattern.search(text) is not None`
  unfoldable pub search_from : Regex → Option ℕ → Text → Bool
  unfolding run
  search_from r p [] = run r (λ q s. true) p []
  search_from r p (c ∷ s) = run r (λ q s. true) p (c ∷ s) || search_from r (some c) s

  unfoldable pub search : Regex → Text → Bool
  unfolding search_from
  search r s = search_from r none s

abbrev pub at_end : Rest
at_end p [] = true
at_end p (_ ∷ _) = false

-- `re.fullmatch(pattern, text) is not None`
unfoldable pub fullmatch : (ℕ → Bool) → Regex → Text → Bool
unfolding run
fullmatch is_word r s = run is_word r at_end none s

-- the literal characters of a pattern
unfoldable pub chars : Text → Regex
chars [] = empty
chars (c ∷ s) = seq (one (λ x. x == c)) (chars s)

abbrev pub word : String → Regex
word s = chars (lit s)

-- a sequence, and the alternatives of a group
abbrev pub pieces : List Regex → Regex
pieces [] = empty
pieces (r ∷ []) = r
pieces (r ∷ q ∷ rs) = seq r (pieces (q ∷ rs))

-- `(?:a|b|…)`
abbrev pub any_of : Regex → List Regex → Regex
any_of r [] = r
any_of r (q ∷ rs) = alt r (any_of q rs)

-- `[…]?` and `(?:…)?`
abbrev pub optional : Regex → Regex
optional r = alt r empty
