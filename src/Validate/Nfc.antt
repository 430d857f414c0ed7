-- ===== src/Validate/Nfc.antt =====
-- `ax_is_nfc` (src/validate.c) on UTF-8: which code points it refuses.
use native.Mathlib.Decide.{dec_lt}
use axioma_oracle.Prelude.{
  ℕ, zero, suc, ◌+◌, ◌/◌, ◌%◌, ◌≤◌, ◌<◌, ◌≡◌, refl, subst, Bool, true, ◌&&◌, ◌||◌, not, List, [],
  ◌∷◌, ◌++◌, Option, none, some, arith, Bytes, All, length, leb, if◌then◌else◌, Bool-cases, inl,
  inr, bit_and_e0, bit_and_f0, bit_and_f8, bit_and_3f, bit_and_1f, bit_and_0f, bit_or_64,
  join_three,
}
use axioma_oracle.Validate.{scan, nfc_round, nfc_two, nfc_three, is_nfc}
use axioma_oracle.Validate.Utf8.{IsScalar, encode, encode_all}

-- The four blocks of combining marks that the check knows.
unfoldable pub is_combining : ℕ → Bool
is_combining cp =
    (leb 0x0300 cp && leb cp 0x036F)
    || (leb 0x1DC0 cp && leb cp 0x1DFF)
    || (leb 0x20D0 cp && leb cp 0x20FF)
    || (leb 0xFE20 cp && leb cp 0xFE2F)

unfoldable pub no_combining : List ℕ → Bool
no_combining [] = true
no_combining (cp ∷ cps) = not (is_combining cp) && no_combining cps

abbrev verdict : ℕ → Bytes → Option Bytes
verdict cp rest = if is_combining cp then none else some rest

round_two :
    (cp : ℕ) (rest : Bytes)
    → 0x80 ≤ cp
    → cp < 0x800
    → nfc_round (0xC0 + cp / 64) ((0x80 + cp % 64) ∷ rest) ≡ verdict cp rest
unfolding nfc_round nfc_two is_combining
round_two cp rest lo hi =
    let c = 0xC0 + cp / 64 in
    let p1 = 0x80 + cp % 64 in
    ground (
      arith,
      bit_and_e0 c (omega arith),
      bit_and_1f c (omega arith),
      bit_and_3f p1 (omega arith),
      bit_or_64 (c % 32) (p1 % 64) (omega arith),
    )

round_three :
    (cp : ℕ) (rest : Bytes)
    → 0x800 ≤ cp
    → cp < 0x10000
    → nfc_round (0xE0 + cp / 4096) ((0x80 + cp / 64 % 64) ∷ (0x80 + cp % 64) ∷ rest)
      ≡ verdict cp rest
unfolding nfc_round nfc_three is_combining
round_three cp rest lo hi =
    let c = 0xE0 + cp / 4096 in
    let p1 = 0x80 + cp / 64 % 64 in
    let p2 = 0x80 + cp % 64 in
    ground (
      arith,
      bit_and_e0 c (omega arith),
      bit_and_f0 c (omega arith),
      bit_and_0f c (omega arith),
      bit_and_3f p1 (omega arith),
      bit_and_3f p2 (omega arith),
      join_three (c % 16) (p1 % 64) (p2 % 64) (omega arith) (omega arith),
    )

round_four :
    (cp : ℕ) (rest : Bytes)
    → 0x10000 ≤ cp
    → cp < 0x110000
    → nfc_round
        (0xF0 + cp / 262144)
        ((0x80 + cp / 4096 % 64) ∷ (0x80 + cp / 64 % 64) ∷ (0x80 + cp % 64) ∷ rest)
      ≡ verdict cp rest
unfolding nfc_round is_combining
round_four cp rest lo hi =
    let c = 0xF0 + cp / 262144 in
    ground
      (arith, bit_and_e0 c (omega arith), bit_and_f0 c (omega arith), bit_and_f8 c (omega arith))

round_lem :
    (cp : ℕ) (rest : Bytes)
    → IsScalar cp
    → (c : ℕ) × (p : Bytes) × (encode cp ++ rest ≡ c ∷ p)
      × (nfc_round c p ≡ verdict cp rest)
      × (length rest ≤ length p)
unfolding encode
round_lem cp rest s = elim (dec_lt cp 0x80) [
  | yes low ↦ (cp, rest, ground arith, unfold nfc_round is_combining in ground arith, omega arith)
  | no h1 ↦ elim (dec_lt cp 0x800) [
    | yes two ↦ (_, _, ground arith, round_two cp rest (omega arith) two, omega arith)
    | no h2 ↦ elim (dec_lt cp 0x10000) [
      | yes three ↦ (_, _, ground arith, round_three cp rest (omega arith) three, omega arith)
      | no h3 ↦ (_, _, ground arith, round_four cp rest (omega arith) (ground arith), omega arith)
    ]
  ]
]

scan_head :
    (fuel : ℕ) (c : ℕ) (p : Bytes) (cp : ℕ) (rest : Bytes) (tail : Bool)
    → nfc_round c p ≡ verdict cp rest
    → length p < fuel
    → ((f : ℕ) → length p ≤ f → scan nfc_round f rest ≡ tail)
    → scan nfc_round fuel (c ∷ p) ≡ (not (is_combining cp) && tail)
unfolding scan
scan_head zero c p cp rest tail next h more = absurd (omega arith)
scan_head (suc fuel) c p cp rest tail next h more = elim (Bool-cases (is_combining cp)) [
  | inl mark ↦ rw (next, scan) (rw mark)
  | inr free ↦ rw (next, scan) (rw free (more fuel (omega arith)))
]

scan_lem :
    (cps : List ℕ) (fuel : ℕ)
    → All IsScalar cps
    → length (encode_all cps) ≤ fuel
    → scan nfc_round fuel (encode_all cps) ≡ no_combining cps
unfolding encode_all no_combining
scan_lem [] fuel _ h = unfold scan in refl
scan_lem (cp ∷ cps) fuel (scalar, scalars) h =
    let (c, p, shape, next, shorter) = round_lem cp (encode_all cps) scalar in
    let h' : length (c ∷ p) ≤ fuel = subst (λ t. length t ≤ fuel) shape h in
    rw shape (
      scan_head fuel c p cp (encode_all cps) (no_combining cps) next h'
        (λ f k. scan_lem cps f scalars (omega arith)))

-- On the UTF-8 encoding of scalar values, `ax_is_nfc` returns 1 exactly when none of them lies in the
-- blocks U+0300-036F, U+1DC0-1DFF, U+20D0-20FF and U+FE20-FE2F.
pub is_nfc_lem : (cps : List ℕ) → All IsScalar cps → is_nfc (encode_all cps) ≡ no_combining cps
unfolding is_nfc
is_nfc_lem cps scalars = scan_lem cps (length (encode_all cps)) scalars (omega arith)
