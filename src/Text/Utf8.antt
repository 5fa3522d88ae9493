-- ===== src/Text/Utf8.antt =====
-- `bytes.decode("utf-8")`, byte by byte, and the round trip with `str.encode`.
pub mod Decoded
use qing_yin.Prelude.{
  Bool, Bool-cases, Option, [], any, ap, arith, between, false, if◌then◌else◌, inl, inr, leb, ltb,
  none, not, ok, ok-injective, refl, some, subst, suc, true, zero, ℕ, ◌%◌, ◌&&◌, ◌*◌, ◌++◌, ◌+◌,
  ◌-◌, ◌/◌, ◌<◌, ◌∙◌, ◌∷◌, ◌≡◌, ◌≤◌,
}
use qing_yin.Text.{Bytes, IsText, Text, is_surrogate, utf8, utf8_encode, utf8_unit}

-- inside a code point: how many bytes are still to come, the bits so far, and the least value that
-- has a sequence of this length
pub record Pending : Type 0 where
  pub more : ℕ
  pub bits : ℕ
  pub least : ℕ

abbrev idle : Pending
idle = record { more = 0; bits = 0; least = 0 }

abbrev opened : ℕ → ℕ → ℕ → Option (Text × Pending)
opened more bits least = some ([], record { more = more; bits = bits; least = least })

abbrev first_byte : ℕ → Option (Text × Pending)
first_byte b =
    if ltb b 0x80
    then some (b ∷ [], idle)
    else if between 0xc2 0xdf b
    then opened 1 (b - 0xc0) 0x80
    else if between 0xe0 0xef b
    then opened 2 (b - 0xe0) 0x800
    else if between 0xf0 0xf4 b
    then opened 3 (b - 0xf0) 0x10000
    else none

abbrev is_scalar : ℕ → ℕ → Bool
is_scalar least c = leb least c && ltb c 0x110000 && not (is_surrogate c)

abbrev next_byte : ℕ → ℕ → ℕ → ℕ → Option (Text × Pending)
next_byte zero least bits b =
    if is_scalar least (bits * 64 + (b - 0x80))
    then some ((bits * 64 + (b - 0x80)) ∷ [], idle)
    else none
next_byte (suc more) least bits b = opened (suc more) (bits * 64 + (b - 0x80)) least

-- what one byte adds to the text, or `none` for a UnicodeDecodeError
step : Pending → ℕ → Option (Text × Pending)
step s b = elim s.more [
  | zero ↦ first_byte b
  | suc more ↦ if between 0x80 0xbf b then next_byte more s.least s.bits b else none
]

abbrev finished : ℕ → Option Text
finished zero = some []
finished (suc _) = none

prepend : Text → Option Text → Option Text
prepend s none = none
prepend s (some t) = some (s ++ t)

-- the text of the bytes that follow, behind what this byte added
resume : Option (Text × Pending) → (Pending → Option Text) → Option Text
unfolding prepend
resume none later = none
resume (some r) later = prepend r.0 (later r.1)

decode_from : Pending → Bytes → Option Text
unfolding resume step
decode_from s [] = finished s.more
decode_from s (b ∷ bytes) = resume (step s b) λ t. decode_from t bytes

unfoldable pub utf8_decode : Bytes → Option Text
unfolding decode_from
utf8_decode = decode_from idle

prepend_nil : (o : Option Text) → prepend [] o ≡ o
unfolding prepend
prepend_nil none = refl
prepend_nil (some t) = refl

advance :
    (s : Pending) (b : ℕ) (rest : Bytes) (r : Text × Pending)
    → step s b ≡ some r
    → decode_from s (b ∷ rest) ≡ prepend r.0 (decode_from r.1 rest)
unfolding decode_from resume
advance s b rest r e = ap (λ o. resume o λ t. decode_from t rest) e

-- inside a sequence nothing is added to the text
advance_inside :
    (s t : Pending) (b : ℕ) (rest : Bytes)
    → step s b ≡ some ([], t)
    → decode_from s (b ∷ rest) ≡ decode_from t rest
advance_inside s t b rest e = advance s b rest ([], t) e ∙ prepend_nil (decode_from t rest)

abbrev pending : ℕ → ℕ → ℕ → Pending
pending more bits least = record { more = more; bits = bits; least = least }

step-one : (b : ℕ) → b < 0x80 → step idle b ≡ some (b ∷ [], idle)
unfolding step
step-one b h = ground arith

step-two : (x : ℕ) → 2 ≤ x → x < 32 → step idle (0xc0 + x) ≡ some ([], pending 1 x 0x80)
unfolding step
step-two x h k = ground arith

step-three : (x : ℕ) → x < 16 → step idle (0xe0 + x) ≡ some ([], pending 2 x 0x800)
unfolding step
step-three x h = ground arith

step-four : (x : ℕ) → x < 5 → step idle (0xf0 + x) ≡ some ([], pending 3 x 0x10000)
unfolding step
step-four x h = ground arith

step-more :
    (more bits least x : ℕ)
    → x < 64
    → step (pending (suc (suc more)) bits least) (0x80 + x)
      ≡ some ([], pending (suc more) (bits * 64 + x) least)
unfolding step
step-more more bits least x h = ground arith

step-last :
    (bits least x c : ℕ)
    → x < 64
    → bits * 64 + x ≡ c
    → is_scalar least c ≡ true
    → step (pending 1 bits least) (0x80 + x) ≡ some (c ∷ [], idle)
unfolding step
step-last bits least x c h e k = ground arith

module _ (c : ℕ) (rest : Bytes) where
  abbrev Decodes : Bytes → Type 0
  Decodes bytes = decode_from idle bytes ≡ prepend (c ∷ []) (decode_from idle rest)

  two_bytes :
      (x y : ℕ)
      → 2 ≤ x
      → x < 32
      → y < 64
      → x * 64 + y ≡ c
      → is_scalar 0x80 c ≡ true
      → Decodes ((0xc0 + x) ∷ (0x80 + y) ∷ rest)
  two_bytes x y low high hy e k =
      advance_inside idle (pending 1 x 0x80) (0xc0 + x) _ (step-two x low high)
      ∙ advance (pending 1 x 0x80) (0x80 + y) rest _ (step-last x 0x80 y c hy e k)

  three_bytes :
      (x y z : ℕ)
      → x < 16
      → y < 64
      → z < 64
      → (x * 64 + y) * 64 + z ≡ c
      → is_scalar 0x800 c ≡ true
      → Decodes ((0xe0 + x) ∷ (0x80 + y) ∷ (0x80 + z) ∷ rest)
  three_bytes x y z hx hy hz e k =
      advance_inside idle (pending 2 x 0x800) (0xe0 + x) _ (step-three x hx)
      ∙ advance_inside (pending 2 x 0x800) (pending 1 (x * 64 + y) 0x800) (0x80 + y) _
          (step-more 0 x 0x800 y hy)
      ∙ advance (pending 1 (x * 64 + y) 0x800) (0x80 + z) rest _
          (step-last (x * 64 + y) 0x800 z c hz e k)

  four_bytes :
      (w x y z : ℕ)
      → w < 5
      → x < 64
      → y < 64
      → z < 64
      → ((w * 64 + x) * 64 + y) * 64 + z ≡ c
      → is_scalar 0x10000 c ≡ true
      → Decodes ((0xf0 + w) ∷ (0x80 + x) ∷ (0x80 + y) ∷ (0x80 + z) ∷ rest)
  four_bytes w x y z hw hx hy hz e k =
      advance_inside idle (pending 3 w 0x10000) (0xf0 + w) _ (step-four w hw)
      ∙ advance_inside (pending 3 w 0x10000) (pending 2 (w * 64 + x) 0x10000) (0x80 + x) _
          (step-more 1 w 0x10000 x hx)
      ∙ advance_inside (pending 2 (w * 64 + x) 0x10000) (pending 1 ((w * 64 + x) * 64 + y) 0x10000)
          (0x80 + y) _ (step-more 0 (w * 64 + x) 0x10000 y hy)
      ∙ advance (pending 1 ((w * 64 + x) * 64 + y) 0x10000) (0x80 + z) rest _
          (step-last ((w * 64 + x) * 64 + y) 0x10000 z c hz e k)

  decode_unit : c < 0x110000 → is_surrogate c ≡ false → Decodes (utf8_unit c ++ rest)
  decode_unit h k = elim (Bool-cases (ltb c 0x80)) [
    | inl e ↦ rw e (advance idle c rest _ (step-one c (ground arith)))
    | inr e ↦ elim (Bool-cases (ltb c 0x800)) [
      | inl e2 ↦
          rw (e, e2)
            (two_bytes (c / 64) (c % 64) (ground arith) (ground arith) (omega arith) (omega arith)
              (ground arith))
      | inr e2 ↦ elim (Bool-cases (ltb c 0x10000)) [
        | inl e3 ↦
            rw (e, e2, e3)
              (three_bytes (c / 4096) (c / 64 % 64) (c % 64) (ground arith) (omega arith)
                (omega arith) (omega arith) (ground arith))
        | inr e3 ↦
            rw (e, e2, e3)
              (four_bytes (c / 262144) (c / 4096 % 64) (c / 64 % 64) (c % 64) (omega arith)
                (omega arith) (omega arith) (omega arith) (omega arith) (ground arith))
      ]
    ]
  ]

decode-utf8 :
    (s : Text) → IsText s → any is_surrogate s ≡ false → decode_from idle (utf8 s) ≡ some s
unfolding utf8 decode_from prepend
decode-utf8 [] t h = refl
decode-utf8 (c ∷ s) (b, t) h =
    decode_unit c (utf8 s) b (ground arith) ∙ ap (prepend (c ∷ [])) (decode-utf8 s t (ground arith))

-- What `encode("utf-8")` gives for a text, `decode("utf-8")` reads back as that text.
pub utf8_decode-utf8_encode :
    (s : Text) (bytes : Bytes) → IsText s → utf8_encode s ≡ ok bytes → utf8_decode bytes ≡ some s
unfolding utf8_decode utf8_encode
utf8_decode-utf8_encode s bytes t h = elim (Bool-cases (any is_surrogate s)) [
  | inl e ↦ absurd (ground arith)
  | inr e ↦
      let same_bytes : utf8 s ≡ bytes = ok-injective (utf8 s) bytes (rw e at h) in
      subst (λ b. decode_from idle b ≡ some s) same_bytes (decode-utf8 s t e)
]
