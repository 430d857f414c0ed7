-- ===== src/Gateway/Json/WellFormed.antt =====
-- The two UTF-8 checks of the program, of gateway/src/gw_json.c and of src/validate.c, compared.
use axioma_oracle.Prelude.{
  ℕ, zero, suc, ◌+◌, ◌*◌, ◌%◌, ◌≤◌, ◌<◌, ◌≡◌, refl, ◌&&◌, [], ◌∷◌, ◌++◌, none, some, Option, arith,
  Bytes, All, IsByte, bit_and, length, take-all, drop, get_or, append-nil, append_assoc,
  length-append, inl, inr, leb, ltb, ◌==◌, if◌then◌else◌, bit_and_e0, bit_and_f0, bit_and_f8,
  bit_and_c0, bit_and_1e, bit_and_3f, bit_and_0f, bit_and_07, join_three, join_four, Bool-cases,
}
use native.Mathlib.Decide.{dec_lt}
use axioma_oracle.Validate.{scan, utf8_round, two_bytes, three_bytes, four_bytes, validate_utf8}
use axioma_oracle.Gateway.Json.Escape.{
  escaped_byte, escape_loop, gwj_escape, utf8_seq_len, seq_three, seq_four, all_utf8,
  gwj_escape_utf8,
}

-- What a sequence of `n` bytes leaves of `s`.
abbrev leaves : ℕ → Bytes → Option Bytes
leaves n s = if n == 0 then none else some (drop n s)

three_lem :
    (c : ℕ) (p : Bytes)
    → c < 256
    → All IsByte p
    → 0xE0 ≤ c
    → c ≤ 0xEF
    → three_bytes c p ≡ leaves (seq_three c (c ∷ p)) (c ∷ p)
unfolding three_bytes seq_three
three_lem c [] b _ lo hi = ground arith
three_lem c (p1 ∷ []) b _ lo hi = ground arith
three_lem c (p1 ∷ p2 ∷ p) b (b1, (b2, _)) lo hi = ground (
  arith,
  join_three (c % 16) (p1 % 64) (p2 % 64) (omega arith) (omega arith),
  bit_and_c0 p1 b1,
  bit_and_c0 p2 b2,
  bit_and_0f c b,
  bit_and_3f p1 b1,
  bit_and_3f p2 b2,
)

four_lem :
    (c : ℕ) (p : Bytes)
    → c < 256
    → All IsByte p
    → 0xF0 ≤ c
    → c ≤ 0xF4
    → four_bytes c p ≡ leaves (seq_four c (c ∷ p)) (c ∷ p)
unfolding four_bytes seq_four
four_lem c [] b _ lo hi = ground arith
four_lem c (p1 ∷ []) b _ lo hi = ground arith
four_lem c (p1 ∷ p2 ∷ []) b _ lo hi = ground arith
four_lem c (p1 ∷ p2 ∷ p3 ∷ p) b (b1, (b2, (b3, _))) lo hi = ground (
  arith,
  join_four (c % 8) (p1 % 64) (p2 % 64) (p3 % 64) (omega arith) (omega arith) (omega arith),
  bit_and_c0 p1 b1,
  bit_and_c0 p2 b2,
  bit_and_c0 p3 b3,
  bit_and_07 c b,
  bit_and_3f p1 b1,
  bit_and_3f p2 b2,
  bit_and_3f p3 b3,
)

four_high :
    (c : ℕ) (p : Bytes) → c < 256 → All IsByte p → 0xF5 ≤ c → c ≤ 0xF7 → four_bytes c p ≡ none
unfolding four_bytes
four_high c [] b _ lo hi = refl
four_high c (p1 ∷ []) b _ lo hi = refl
four_high c (p1 ∷ p2 ∷ []) b _ lo hi = refl
four_high c (p1 ∷ p2 ∷ p3 ∷ p) b (b1, (b2, (b3, _))) lo hi = ground (
  arith,
  join_four (c % 8) (p1 % 64) (p2 % 64) (p3 % 64) (omega arith) (omega arith) (omega arith),
  bit_and_c0 p1 b1,
  bit_and_c0 p2 b2,
  bit_and_c0 p3 b3,
  bit_and_07 c b,
  bit_and_3f p1 b1,
  bit_and_3f p2 b2,
  bit_and_3f p3 b3,
)

-- The result of the branch on two bytes.
abbrev seq_two : Bytes → ℕ
seq_two s = if leb 2 (length s) && (bit_and (get_or s 1 0) 0xC0 == 0x80) then 2 else 0

two_lem :
    (c : ℕ) (p : Bytes)
    → c < 256
    → All IsByte p
    → 0xC0 ≤ c
    → c ≤ 0xDF
    → two_bytes c p ≡ leaves (if ltb c 0xC2 then 0 else seq_two (c ∷ p)) (c ∷ p)
unfolding two_bytes
two_lem c [] b _ lo hi = ground arith
two_lem c (p1 ∷ p) b (b1, _) lo hi = ground (arith, bit_and_c0 p1 b1, bit_and_1e c b)

-- The two checks take the same step.
round_lem :
    (c : ℕ) (p : Bytes)
    → c < 256
    → All IsByte p
    → utf8_round c p ≡ leaves (utf8_seq_len (c ∷ p)) (c ∷ p)
unfolding utf8_round utf8_seq_len
round_lem c p b h = elim (dec_lt c 0xC0) [
  | yes low ↦ ground (arith, bit_and_e0 c b, bit_and_f0 c b, bit_and_f8 c b)
  | no c0 ↦ elim (dec_lt c 0xE0) [
    | yes two ↦ ground (arith, bit_and_e0 c b, two_lem c p b h)
    | no e0 ↦ elim (dec_lt c 0xF0) [
      | yes three ↦ ground (arith, bit_and_e0 c b, bit_and_f0 c b, three_lem c p b h)
      | no f0 ↦ elim (dec_lt c 0xF5) [
        | yes four ↦
            ground (arith, bit_and_e0 c b, bit_and_f0 c b, bit_and_f8 c b, four_lem c p b h)
        | no high ↦
            ground (arith, bit_and_e0 c b, bit_and_f0 c b, bit_and_f8 c b, four_high c p b h)
      ]
    ]
  ]
]

IsByte-drop : (n : ℕ) (s : Bytes) → All IsByte s → All IsByte (drop n s)
IsByte-drop zero s h = h
IsByte-drop (suc n) [] h = tt
IsByte-drop (suc n) (c ∷ s) (h, hs) = IsByte-drop n s hs

all_utf8-scan : (fuel : ℕ) (s : Bytes) → All IsByte s → all_utf8 fuel s ≡ scan utf8_round fuel s
unfolding all_utf8 scan
all_utf8-scan fuel [] h = refl
all_utf8-scan zero (c ∷ s) h = refl
all_utf8-scan (suc fuel) (c ∷ s) (h, hs) =
    let n = utf8_seq_len (c ∷ s) in
    let more = all_utf8-scan fuel (drop n (c ∷ s)) (IsByte-drop n (c ∷ s) (h, hs)) in
    let step = round_lem c s h hs in
    elim (Bool-cases (n == 0)) [
      | inl stop ↦ rw (all_utf8, scan, step, stop) refl
      | inr on ↦ rw (all_utf8, scan, step, on) more
    ]

unfoldable pub escape_all : Bytes → Bytes
escape_all [] = []
escape_all (c ∷ s) = escaped_byte c ++ escape_all s

escape_loop_lem :
    (cap : ℕ) (dst s : Bytes)
    → length dst ≤ cap
    → escape_loop cap dst s
      ≡ (if leb (length dst + length (escape_all s)) cap then some (dst ++ escape_all s) else none)
unfolding escape_loop escape_all
escape_loop_lem cap dst [] h = ground (arith, append-nil dst)
escape_loop_lem cap dst (c ∷ s) h = ground (
  arith,
  escape_loop_lem cap (dst ++ escaped_byte c) s,
  length-append dst (escaped_byte c),
  length-append (escaped_byte c) (escape_all s),
  append_assoc dst (escaped_byte c) (escape_all s),
)

pub gwj_escape_lem :
    (cap : ℕ) (s : Bytes)
    → gwj_escape cap s ≡ (if leb (length (escape_all s)) cap then some (escape_all s) else none)
unfolding gwj_escape
gwj_escape_lem cap s = ground (arith, escape_loop_lem cap [] s)

pub length-escaped_byte : (c : ℕ) → length (escaped_byte c) ≤ 6
unfolding escaped_byte
length-escaped_byte c = ground arith

pub length-escape_all : (s : Bytes) → length (escape_all s) ≤ 6 * length s
unfolding escape_all
length-escape_all [] = omega arith
length-escape_all (c ∷ s) = omega (
  arith,
  length-escape_all s,
  length-escaped_byte c,
  length-append (escaped_byte c) (escape_all s),
)

-- The check of `gwj_escape_utf8` is that of `ax_validate_utf8`: on bytes, a text is escaped exactly when
-- that function accepts it, and into six times its length there is always room.
pub gwj_escape_utf8_lem :
    (cap : ℕ) (s : Bytes)
    → All IsByte s
    → 6 * length s ≤ cap
    → gwj_escape_utf8 cap (some s) (length s)
      ≡ (if validate_utf8 s then some (escape_all s) else none)
unfolding gwj_escape_utf8 validate_utf8
gwj_escape_utf8_lem cap s b h =
    rw (take-all (length s) s (omega arith), all_utf8-scan (length s) s b)
      (ground (arith, gwj_escape_lem cap s, length-escape_all s))
