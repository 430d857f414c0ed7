-- ===== src/Validate/Utf8.antt =====
-- `ax_validate_utf8` (src/validate.c) against the encoding of RFC 3629.
use axioma_oracle.Prelude.{
  ℕ, zero, suc, subst, bit_and, bit_or, ◌+◌, ◌-◌, ◌*◌, ◌/◌, ◌%◌, ◌≤◌, ◌<◌, ◌≡◌, refl, ◌⊎◌, inl, inr,
  ◌↔◌, true, List, [], ◌∷◌, ◌++◌, sym, ap, ◌∙◌, some, arith, Bytes, IsByte, All, All-split, length,
  ltb, if◌then◌else◌, bit_and_e0, bit_and_f0, bit_and_f8, bit_and_c0, bit_and_1e, bit_and_3f,
  bit_and_0f, bit_and_07, join_three, join_four, Option-cases,
}
use native.Mathlib.Decide.{dec_lt, ℕ_discrete}
use axioma_oracle.Validate.{scan, utf8_round, two_bytes, three_bytes, four_bytes, validate_utf8}

-- The Unicode scalar values: code points that are no surrogates.
abbrev pub IsScalar : ℕ → Type 0
IsScalar cp = (cp < 0xD800) ⊎ ((0xE000 ≤ cp) × (cp < 0x110000))

-- The bytes of one scalar value.
unfoldable pub encode : ℕ → Bytes
encode cp =
    if ltb cp 0x80
    then cp ∷ []
    else if ltb cp 0x800
    then (0xC0 + cp / 64) ∷ (0x80 + cp % 64) ∷ []
    else if ltb cp 0x10000
    then (0xE0 + cp / 4096) ∷ (0x80 + cp / 64 % 64) ∷ (0x80 + cp % 64) ∷ []
    else (0xF0 + cp / 262144)
      ∷ (0x80 + cp / 4096 % 64)
      ∷ (0x80 + cp / 64 % 64)
      ∷ (0x80 + cp % 64)
      ∷ []

unfoldable pub encode_all : List ℕ → Bytes
encode_all [] = []
encode_all (cp ∷ cps) = encode cp ++ encode_all cps

-- A byte string that encodes a sequence of scalar values.
abbrev pub IsUtf8 : Bytes → Type 0
IsUtf8 s = (cps : List ℕ) × All IsScalar cps × (encode_all cps ≡ s)

-- What one round reads: the encoding of a scalar value.
abbrev Reads : ℕ → Bytes → Bytes → Type 0
Reads c p rest = (cp : ℕ) × IsScalar cp × (c ∷ p ≡ encode cp ++ rest)

two_bytes_sound :
    (c : ℕ) (p : Bytes) (rest : Bytes)
    → c < 256
    → All IsByte p
    → c / 32 * 32 ≡ 0xC0
    → two_bytes c p ≡ some rest
    → Reads c p rest
unfolding two_bytes encode
two_bytes_sound c [] rest b _ h e = cc
two_bytes_sound c (p1 ∷ p) rest b (b1, _) h e = (
  (c - 0xC0) * 64 + (p1 - 0x80),
  ground (arith, bit_and_c0 p1 b1, bit_and_1e c b),
  ground (arith, bit_and_c0 p1 b1, bit_and_1e c b),
)

three_bytes_sound :
    (c : ℕ) (p : Bytes) (rest : Bytes)
    → c < 256
    → All IsByte p
    → c / 16 * 16 ≡ 0xE0
    → three_bytes c p ≡ some rest
    → Reads c p rest
unfolding three_bytes encode
three_bytes_sound c [] rest b _ h e = cc
three_bytes_sound c (p1 ∷ []) rest b _ h e = cc
three_bytes_sound c (p1 ∷ p2 ∷ p) rest b (b1, (b2, _)) h e = (
  c % 16 * 4096 + p1 % 64 * 64 + p2 % 64,
  ground (arith, facts, bit_and_c0 p1 b1, bit_and_c0 p2 b2, masks),
  ground (arith, facts, bit_and_c0 p1 b1, bit_and_c0 p2 b2, masks),
)
  where
    facts :
        bit_or (bit_or (c % 16 * 4096) (p1 % 64 * 64)) (p2 % 64)
        ≡ c % 16 * 4096 + p1 % 64 * 64 + p2 % 64
    facts = join_three (c % 16) (p1 % 64) (p2 % 64) (omega arith) (omega arith)

    masks : (bit_and c 0x0F ≡ c % 16) × (bit_and p1 0x3F ≡ p1 % 64) × (bit_and p2 0x3F ≡ p2 % 64)
    masks = (bit_and_0f c b, bit_and_3f p1 b1, bit_and_3f p2 b2)

four_bytes_sound :
    (c : ℕ) (p : Bytes) (rest : Bytes)
    → c < 256
    → All IsByte p
    → c / 8 * 8 ≡ 0xF0
    → four_bytes c p ≡ some rest
    → Reads c p rest
unfolding four_bytes encode
four_bytes_sound c [] rest b _ h e = cc
four_bytes_sound c (p1 ∷ []) rest b _ h e = cc
four_bytes_sound c (p1 ∷ p2 ∷ []) rest b _ h e = cc
four_bytes_sound c (p1 ∷ p2 ∷ p3 ∷ p) rest b (b1, (b2, (b3, _))) h e = (
  c % 8 * 262144 + p1 % 64 * 4096 + p2 % 64 * 64 + p3 % 64,
  ground (arith, facts, bit_and_c0 p1 b1, bit_and_c0 p2 b2, bit_and_c0 p3 b3, masks),
  ground (arith, facts, bit_and_c0 p1 b1, bit_and_c0 p2 b2, bit_and_c0 p3 b3, masks),
)
  where
    facts :
        bit_or (bit_or (bit_or (c % 8 * 262144) (p1 % 64 * 4096)) (p2 % 64 * 64)) (p3 % 64)
        ≡ c % 8 * 262144 + p1 % 64 * 4096 + p2 % 64 * 64 + p3 % 64
    facts =
        join_four (c % 8) (p1 % 64) (p2 % 64) (p3 % 64) (omega arith) (omega arith) (omega arith)

    masks :
        (bit_and c 0x07 ≡ c % 8)
        × (bit_and p1 0x3F ≡ p1 % 64)
        × (bit_and p2 0x3F ≡ p2 % 64)
        × (bit_and p3 0x3F ≡ p3 % 64)
    masks = (bit_and_07 c b, bit_and_3f p1 b1, bit_and_3f p2 b2, bit_and_3f p3 b3)

round_sound :
    (c : ℕ) (p : Bytes) (rest : Bytes)
    → c < 256
    → All IsByte p
    → utf8_round c p ≡ some rest
    → Reads c p rest
unfolding utf8_round
round_sound c p rest b bs e = elim (dec_lt c 0x80) [
  | yes low ↦ (c, inl (omega arith), unfold encode in ground arith)
  | no high ↦ elim (ℕ_discrete (c / 32 * 32) 0xC0) [
    | yes two ↦ two_bytes_sound c p rest b bs two (ground (arith, bit_and_e0 c b))
    | no n2 ↦ elim (ℕ_discrete (c / 16 * 16) 0xE0) [
      | yes three ↦
          three_bytes_sound c p rest b bs three (ground (arith, bit_and_e0 c b, bit_and_f0 c b))
      | no n3 ↦ elim (ℕ_discrete (c / 8 * 8) 0xF0) [
        | yes four ↦
            four_bytes_sound c p rest b bs four
              (ground (arith, bit_and_e0 c b, bit_and_f0 c b, bit_and_f8 c b))
        | no n4 ↦ absurd (ground (arith, bit_and_e0 c b, bit_and_f0 c b, bit_and_f8 c b))
      ]
    ]
  ]
]

round_two :
    (cp : ℕ) (rest : Bytes)
    → 0x80 ≤ cp
    → cp < 0x800
    → utf8_round (0xC0 + cp / 64) ((0x80 + cp % 64) ∷ rest) ≡ some rest
unfolding utf8_round two_bytes
round_two cp rest lo hi =
    let c = 0xC0 + cp / 64 in
    let p1 = 0x80 + cp % 64 in
    ground
      (arith, bit_and_e0 c (omega arith), bit_and_1e c (omega arith), bit_and_c0 p1 (omega arith))

round_three :
    (cp : ℕ) (rest : Bytes)
    → 0x800 ≤ cp
    → cp < 0x10000
    → IsScalar cp
    → utf8_round (0xE0 + cp / 4096) ((0x80 + cp / 64 % 64) ∷ (0x80 + cp % 64) ∷ rest) ≡ some rest
unfolding utf8_round three_bytes
round_three cp rest lo hi s =
    let c = 0xE0 + cp / 4096 in
    let p1 = 0x80 + cp / 64 % 64 in
    let p2 = 0x80 + cp % 64 in
    ground (
      arith,
      bit_and_e0 c (omega arith),
      bit_and_f0 c (omega arith),
      bit_and_0f c (omega arith),
      bit_and_c0 p1 (omega arith),
      bit_and_c0 p2 (omega arith),
      bit_and_3f p1 (omega arith),
      bit_and_3f p2 (omega arith),
      join_three (c % 16) (p1 % 64) (p2 % 64) (omega arith) (omega arith),
    )

round_four :
    (cp : ℕ) (rest : Bytes)
    → 0x10000 ≤ cp
    → cp < 0x110000
    → utf8_round
        (0xF0 + cp / 262144)
        ((0x80 + cp / 4096 % 64) ∷ (0x80 + cp / 64 % 64) ∷ (0x80 + cp % 64) ∷ rest)
      ≡ some rest
unfolding utf8_round four_bytes
round_four cp rest lo hi =
    let c = 0xF0 + cp / 262144 in
    let p1 = 0x80 + cp / 4096 % 64 in
    let p2 = 0x80 + cp / 64 % 64 in
    let p3 = 0x80 + cp % 64 in
    ground (
      arith,
      bit_and_e0 c (omega arith),
      bit_and_f0 c (omega arith),
      bit_and_f8 c (omega arith),
      bit_and_07 c (omega arith),
      bit_and_c0 p1 (omega arith),
      bit_and_c0 p2 (omega arith),
      bit_and_c0 p3 (omega arith),
      bit_and_3f p1 (omega arith),
      bit_and_3f p2 (omega arith),
      bit_and_3f p3 (omega arith),
      join_four (c % 8) (p1 % 64) (p2 % 64) (p3 % 64) (omega arith) (omega arith) (omega arith),
    )

-- The head and the tail of an encoding, with what one round makes of them.
round_complete :
    (cp : ℕ) (rest : Bytes)
    → IsScalar cp
    → (c : ℕ) × (p : Bytes) × (encode cp ++ rest ≡ c ∷ p)
      × (utf8_round c p ≡ some rest)
      × (length rest ≤ length p)
unfolding encode
round_complete cp rest s = elim (dec_lt cp 0x80) [
  | yes low ↦ (cp, rest, ground arith, unfold utf8_round in ground arith, omega arith)
  | no h1 ↦ elim (dec_lt cp 0x800) [
    | yes two ↦ (_, _, ground arith, round_two cp rest (omega arith) two, omega arith)
    | no h2 ↦ elim (dec_lt cp 0x10000) [
      | yes three ↦ (_, _, ground arith, round_three cp rest (omega arith) three s, omega arith)
      | no h3 ↦ (_, _, ground arith, round_four cp rest (omega arith) (ground arith), omega arith)
    ]
  ]
]

scan_sound : (fuel : ℕ) (s : Bytes) → All IsByte s → scan utf8_round fuel s ≡ true → IsUtf8 s
unfolding scan encode_all
scan_sound fuel [] b e = ([], tt, refl)
scan_sound zero (c ∷ p) b e = cc
scan_sound (suc fuel) (c ∷ p) (b, bs) e = elim (Option-cases (utf8_round c p)) [
  | inl stop ↦ absurd (ground (arith, stop))
  | inr (rest, next) ↦
      let (cp, scalar, read) = round_sound c p rest b bs next in
      let whole : All IsByte (encode cp ++ rest) = subst (All IsByte) read (b, bs) in
      let (cps, scalars, encoded) =
        scan_sound fuel rest (All-split IsByte (encode cp) rest whole).1 (rw (next, scan) at e) in
      (cp ∷ cps, (scalar, scalars), ap (λ t. encode cp ++ t) encoded ∙ sym read)
]

scan_head :
    (fuel : ℕ) (c : ℕ) (p rest : Bytes)
    → utf8_round c p ≡ some rest
    → length p < fuel
    → ((f : ℕ) → length p ≤ f → scan utf8_round f rest ≡ true)
    → scan utf8_round fuel (c ∷ p) ≡ true
unfolding scan
scan_head zero c p rest next h more = absurd (omega arith)
scan_head (suc fuel) c p rest next h more = rw (next, scan) (more fuel (omega arith))

scan_complete :
    (cps : List ℕ) (fuel : ℕ)
    → All IsScalar cps
    → length (encode_all cps) ≤ fuel
    → scan utf8_round fuel (encode_all cps) ≡ true
unfolding encode_all
scan_complete [] fuel _ h = unfold scan in refl
scan_complete (cp ∷ cps) fuel (scalar, scalars) h =
    let (c, p, shape, next, shorter) = round_complete cp (encode_all cps) scalar in
    let h' : length (c ∷ p) ≤ fuel = subst (λ t. length t ≤ fuel) shape h in
    rw shape (
      scan_head fuel c p (encode_all cps) next h'
        (λ f k. scan_complete cps f scalars (omega arith)))

-- On bytes, `ax_validate_utf8` returns 1 exactly for the encodings of sequences of Unicode scalar
-- values: no overlong form, no surrogate, nothing above U+10FFFF, no truncated sequence.
pub validate_utf8_iff : (s : Bytes) → All IsByte s → (validate_utf8 s ≡ true) ↔ IsUtf8 s
unfolding validate_utf8
validate_utf8_iff s b = (
  scan_sound (length s) s b,
  λ (cps, scalars, encoded).
      rw (← encoded) (scan_complete cps (length (encode_all cps)) scalars (omega arith)),
)
