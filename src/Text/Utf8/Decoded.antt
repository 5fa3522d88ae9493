-- ===== src/Text/Utf8/Decoded.antt =====
-- What `bytes.decode("utf-8")` reads is written back as the same bytes.
use qing_yin.Prelude.{
  Bool-cases, Option, [], any, ap, arith, between, false, inl, inr, ltb, none, ok, refl, some,
  subst, suc, sym, true, zero, ℕ, ◌*◌, ◌++◌, ◌+◌, ◌-◌, ◌<◌, ◌↔◌, ◌∙◌, ◌∷◌, ◌≡◌, ◌≤◌,
}
use qing_yin.Text.{Bytes, IsText, Text, is_surrogate, utf8, utf8_encode, utf8_unit}
use qing_yin.Text.Utf8.{
  Pending, decode_from, finished, first_byte, idle, is_scalar, next_byte, opened, pending, prepend,
  resume, step, utf8_decode, utf8_decode-utf8_encode,
}

-- the bytes are the text's
abbrev Encodes : Bytes → Text → Type 0
Encodes bytes s = (bytes ≡ utf8 s) × (IsText s × (any is_surrogate s ≡ false))

-- the bytes end a code point and go on with those of a text
abbrev Finishes : ℕ → ℕ → ℕ → Bytes → Text → Type 0
Finishes zero bits least bytes s =
    (t : Text) × (s ≡ bits ∷ t) × ((is_scalar least bits ≡ true) × Encodes bytes t)
Finishes (suc more) bits least bytes s =
    (x : ℕ) × (rest : Bytes) × (x < 64)
    × ((bytes ≡ (0x80 + x) ∷ rest) × Finishes more (bits * 64 + x) least rest s)

prepend-eq-some :
    (a : Text) (o : Option Text) (s : Text)
    → prepend a o ≡ some s
    → (t : Text) × (o ≡ some t) × (a ++ t ≡ s)
unfolding prepend
prepend-eq-some a none s h = cc
prepend-eq-some a (some t) s h = (t, refl, cc h)

resume-eq-some :
    (o : Option (Text × Pending)) (later : Pending → Option Text) (s : Text)
    → resume o later ≡ some s
    → (r : Text × Pending) × (o ≡ some r) × (prepend r.0 (later r.1) ≡ some s)
unfolding resume
resume-eq-some none later s h = cc
resume-eq-some (some r) later s h = (r, refl, h)

-- a code point that is finished starts a text that is encoded
Encodes-cons :
    (c : ℕ) (bytes rest : Bytes) (s t : Text)
    → bytes ≡ utf8_unit c ++ rest
    → s ≡ c ∷ t
    → c < 0x110000
    → is_surrogate c ≡ false
    → Encodes rest t
    → Encodes bytes s
unfolding utf8
Encodes-cons c bytes rest s t e f h k (g, (valid, none_)) =
    subst (λ x. Encodes bytes x) (sym f)
      ((e ∙ ap (λ r. utf8_unit c ++ r) g, ((h, valid), ground arith)))

unit_two :
    (x y : ℕ) → 2 ≤ x → x < 32 → y < 64 → utf8_unit (x * 64 + y) ≡ (0xc0 + x) ∷ (0x80 + y) ∷ []
unit_two x y low high hy = ground arith

unit_three :
    (x y z : ℕ)
    → x < 16
    → y < 64
    → z < 64
    → is_scalar 0x800 ((x * 64 + y) * 64 + z) ≡ true
    → utf8_unit ((x * 64 + y) * 64 + z) ≡ (0xe0 + x) ∷ (0x80 + y) ∷ (0x80 + z) ∷ []
unit_three x y z hx hy hz h = ground arith

unit_four :
    (w x y z : ℕ)
    → w < 5
    → x < 64
    → y < 64
    → z < 64
    → is_scalar 0x10000 (((w * 64 + x) * 64 + y) * 64 + z) ≡ true
    → utf8_unit (((w * 64 + x) * 64 + y) * 64 + z)
      ≡ (0xf0 + w) ∷ (0x80 + x) ∷ (0x80 + y) ∷ (0x80 + z) ∷ []
unit_four w x y z hw hx hy hz h = ground arith

finish_two :
    (x : ℕ) (bytes : Bytes) (s : Text)
    → 2 ≤ x
    → x < 32
    → Finishes 1 x 0x80 bytes s
    → Encodes ((0xc0 + x) ∷ bytes) s
finish_two x bytes s low high (y, rest, hy, (e, (t, f, (scalar, encoded)))) =
    Encodes-cons (x * 64 + y) _ rest s t (rw (e, unit_two x y low high hy) refl) f (ground arith)
      (ground arith) encoded

finish_three :
    (x : ℕ) (bytes : Bytes) (s : Text)
    → x < 16
    → Finishes 2 x 0x800 bytes s
    → Encodes ((0xe0 + x) ∷ bytes) s
finish_three x bytes s hx (y, more, hy, (d, (z, rest, hz, (e, (t, f, (scalar, encoded)))))) =
    Encodes-cons ((x * 64 + y) * 64 + z) _ rest s t
      (rw (d, e, unit_three x y z hx hy hz scalar) refl) f (ground arith) (ground arith) encoded

finish_four :
    (w : ℕ) (bytes : Bytes) (s : Text)
    → w < 5
    → Finishes 3 w 0x10000 bytes s
    → Encodes ((0xf0 + w) ∷ bytes) s
finish_four w bytes s hw
      (x, first, hx, (c, (y, more, hy, (d, (z, rest, hz, (e, (t, f, (scalar, encoded)))))))) =
    Encodes-cons (((w * 64 + x) * 64 + y) * 64 + z) _ rest s t
      (rw (c, d, e, unit_four w x y z hw hx hy hz scalar) refl) f (ground arith) (ground arith)
      encoded

abbrev Reads : ℕ → ℕ → ℕ → Bytes → Text → Type 0
Reads zero bits least bytes s = Encodes bytes s
Reads (suc more) bits least bytes s = Finishes (suc more) bits least bytes s

-- what follows a byte, with what that byte added, is the text
abbrev Follows : Bytes → Text → Text × Pending → Type 0
Follows bytes s (added, p) =
    (t : Text) × (added ++ t ≡ s) × Reads (p.more) (p.bits) (p.least) bytes t

Follows-some :
    (bytes : Bytes) (s : Text) (a r : Text × Pending)
    → some a ≡ some r
    → Follows bytes s r
    → Follows bytes s a
Follows-some bytes s a r e f = let equal : r ≡ a = cc e in subst (Follows bytes s) equal f

finished-Reads :
    (more bits least : ℕ) (s : Text) → finished more ≡ some s → Reads more bits least [] s
unfolding utf8
finished-Reads zero bits least s h =
    let nothing : [] ≡ s = cc h in subst (Encodes []) nothing (refl, (tt, refl))
finished-Reads (suc more) bits least s h = cc

opened-Finishes :
    (more bits least : ℕ) (bytes : Bytes) (s : Text) (r : Text × Pending)
    → opened (suc more) bits least ≡ some r
    → Follows bytes s r
    → Finishes (suc more) bits least bytes s
opened-Finishes more bits least bytes s r h f =
    let (t, joined, finishes) = Follows-some bytes s ([], pending (suc more) bits least) r h f in
    subst (Finishes (suc more) bits least bytes) joined finishes

byte_from : (low b : ℕ) (bytes : Bytes) → low ≤ b → (low + (b - low)) ∷ bytes ≡ b ∷ bytes
byte_from low b bytes h = ap (λ x. x ∷ bytes) (omega arith)

first_byte-Encodes :
    (b : ℕ) (bytes : Bytes) (s : Text) (r : Text × Pending)
    → first_byte b ≡ some r
    → Follows bytes s r
    → Encodes (b ∷ bytes) s
first_byte-Encodes b bytes s r h f = elim (Bool-cases (ltb b 0x80)) [
  | inl e ↦
      let (t, joined, encoded) = Follows-some bytes s (b ∷ [], idle) r (rw e at h) f in
      Encodes-cons b (b ∷ bytes) bytes s t (rw e refl) (sym joined) (ground arith) (ground arith)
        encoded
  | inr e ↦ elim (Bool-cases (between 0xc2 0xdf b)) [
    | inl e2 ↦
        subst (λ x. Encodes x s) (byte_from 0xc0 b bytes (ground arith))
          (finish_two (b - 0xc0) bytes s (ground arith) (ground arith)
            (opened-Finishes 0 (b - 0xc0) 0x80 bytes s r (rw (e, e2) at h) f))
    | inr e2 ↦ elim (Bool-cases (between 0xe0 0xef b)) [
      | inl e3 ↦
          subst (λ x. Encodes x s) (byte_from 0xe0 b bytes (ground arith))
            (finish_three (b - 0xe0) bytes s (ground arith)
              (opened-Finishes 1 (b - 0xe0) 0x800 bytes s r (rw (e, e2, e3) at h) f))
      | inr e3 ↦ elim (Bool-cases (between 0xf0 0xf4 b)) [
        | inl e4 ↦
            subst (λ x. Encodes x s) (byte_from 0xf0 b bytes (ground arith))
              (finish_four (b - 0xf0) bytes s (ground arith)
                (opened-Finishes 2 (b - 0xf0) 0x10000 bytes s r (rw (e, e2, e3, e4) at h) f))
        | inr e4 ↦ absurd (cc (rw (e, e2, e3, e4) at h))
      ]
    ]
  ]
]

next_byte-Finishes :
    (more bits least b : ℕ) (bytes : Bytes) (s : Text) (r : Text × Pending)
    → between 0x80 0xbf b ≡ true
    → next_byte more least bits b ≡ some r
    → Follows bytes s r
    → Finishes (suc more) bits least (b ∷ bytes) s
next_byte-Finishes zero bits least b bytes s r low h f =
    elim (Bool-cases (is_scalar least (bits * 64 + (b - 0x80)))) [
      | inl e ↦
          let (t, joined, encoded) =
            Follows-some bytes s ((bits * 64 + (b - 0x80)) ∷ [], idle) r (rw e at h) f in
          (
            b - 0x80,
            bytes,
            ground arith,
            (sym (byte_from 0x80 b bytes (ground arith)), (t, sym joined, (e, encoded))),
          )
      | inr e ↦ absurd (cc (rw e at h))
    ]
next_byte-Finishes (suc more) bits least b bytes s r low h f = (
  b - 0x80,
  bytes,
  ground arith,
  (
    sym (byte_from 0x80 b bytes (ground arith)),
    opened-Finishes more (bits * 64 + (b - 0x80)) least bytes s r h f,
  ),
)

step-Reads :
    (more bits least b : ℕ) (bytes : Bytes) (s : Text) (r : Text × Pending)
    → step (pending more bits least) b ≡ some r
    → Follows bytes s r
    → Reads more bits least (b ∷ bytes) s
unfolding step
step-Reads zero bits least b bytes s r h f = first_byte-Encodes b bytes s r h f
step-Reads (suc more) bits least b bytes s r h f = elim (Bool-cases (between 0x80 0xbf b)) [
  | inl e ↦ next_byte-Finishes more bits least b bytes s r e (rw e at h) f
  | inr e ↦ absurd (cc (rw e at h))
]

decode_from-Reads :
    (bytes : Bytes) (p : Pending) (s : Text)
    → decode_from p bytes ≡ some s
    → Reads (p.more) (p.bits) (p.least) bytes s
unfolding decode_from
decode_from-Reads [] p s h = finished-Reads (p.more) (p.bits) (p.least) s h
decode_from-Reads (b ∷ bytes) p s h =
    let (r, stepped, later) = resume-eq-some (step p b) (λ t. decode_from t bytes) s h in
    let (t, read, joined) = prepend-eq-some (r.0) (decode_from r.1 bytes) s later in
    step-Reads (p.more) (p.bits) (p.least) b bytes s r stepped
      (t, joined, decode_from-Reads bytes r.1 t read)

-- Bytes are read as a text exactly when they are its encoding.
pub utf8_decode_iff :
    (bytes : Bytes) (s : Text)
    → (utf8_decode bytes ≡ some s) ↔ (IsText s × (utf8_encode s ≡ ok bytes))
unfolding utf8_decode utf8_encode
utf8_decode_iff bytes s = (
  λ h.
      let (same_bytes, (valid, scalars)) = decode_from-Reads bytes idle s h in
      (valid, rw scalars (ap ok (sym same_bytes))),
  λ (valid, h). utf8_decode-utf8_encode s bytes valid h,
)
