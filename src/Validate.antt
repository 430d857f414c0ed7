-- ===== src/Validate.antt =====
-- src/validate.c: UTF-8, control characters, line endings, combining marks, and the combined checks.
-- A pointer with its length is the list of the bytes that it names, and `1` is `true`.
-- A round of the two loops `while (p < end)` is a function from the bytes at `p` to those at the
-- next `p`, where `none` is `return 0`.
pub mod Utf8
pub mod Nfc
pub mod Normalise
pub mod Text
use axioma_oracle.Prelude.{
  ℕ, zero, suc, ◌+◌, ◌*◌, ◌<◌, bit_and, bit_or, Bool, true, false, ◌&&◌, ◌||◌, not, List, [], ◌∷◌,
  ◌++◌, Option, none, some, Bytes, length, drop, ltb, leb, ◌==◌, if◌then◌else◌,
}
use axioma_oracle.Types
use axioma_oracle.Types.{Code, Result, done, fail, Faults, room}

-- `while (p < end)` over the bytes left; every round takes at least one, so their number is fuel
-- enough.
unfoldable pub scan : (ℕ → Bytes → Option Bytes) → ℕ → Bytes → Bool
scan round fuel [] = true
scan round zero (c ∷ p) = false
scan round (suc fuel) (c ∷ p) = elim (round c p) [ none ↦ false | some rest ↦ scan round fuel rest ]

-- Rounds of `ax_validate_utf8`.

unfoldable pub two_bytes : ℕ → Bytes → Option Bytes
two_bytes c [] = none
two_bytes c (p1 ∷ p) =
    if not (bit_and p1 0xC0 == 0x80) then none else if bit_and c 0x1E == 0 then none else some p

abbrev pub code_point_3 : ℕ → ℕ → ℕ → ℕ
code_point_3 c p1 p2 =
    bit_or (bit_or (bit_and c 0x0F * 4096) (bit_and p1 0x3F * 64)) (bit_and p2 0x3F)

unfoldable pub three_bytes : ℕ → Bytes → Option Bytes
three_bytes c [] = none
three_bytes c (p1 ∷ []) = none
three_bytes c (p1 ∷ p2 ∷ p) =
    let cp = code_point_3 c p1 p2 in
    if not (bit_and p1 0xC0 == 0x80)
    then none
    else if not (bit_and p2 0xC0 == 0x80)
    then none
    else if ltb cp 0x800
    then none
    else if leb 0xD800 cp && leb cp 0xDFFF
    then none
    else some p

abbrev pub code_point_4 : ℕ → ℕ → ℕ → ℕ → ℕ
code_point_4 c p1 p2 p3 =
    bit_or
      (bit_or (bit_or (bit_and c 0x07 * 262144) (bit_and p1 0x3F * 4096)) (bit_and p2 0x3F * 64))
      (bit_and p3 0x3F)

unfoldable pub four_bytes : ℕ → Bytes → Option Bytes
four_bytes c [] = none
four_bytes c (p1 ∷ []) = none
four_bytes c (p1 ∷ p2 ∷ []) = none
four_bytes c (p1 ∷ p2 ∷ p3 ∷ p) =
    let cp = code_point_4 c p1 p2 p3 in
    if not (bit_and p1 0xC0 == 0x80)
    then none
    else if not (bit_and p2 0xC0 == 0x80)
    then none
    else if not (bit_and p3 0xC0 == 0x80)
    then none
    else if ltb cp 0x10000 || ltb 0x10FFFF cp
    then none
    else some p

unfoldable pub utf8_round : ℕ → Bytes → Option Bytes
utf8_round c p =
    if ltb c 0x80
    then some p
    else if bit_and c 0xE0 == 0xC0
    then two_bytes c p
    else if bit_and c 0xF0 == 0xE0
    then three_bytes c p
    else if bit_and c 0xF8 == 0xF0
    then four_bytes c p
    else none

unfoldable pub validate_utf8 : Bytes → Bool
unfolding scan utf8_round two_bytes three_bytes four_bytes
validate_utf8 p = scan utf8_round (length p) p

-- `ax_contains_forbidden_control`
unfoldable pub contains_forbidden_control : Bytes → Bool
contains_forbidden_control [] = false
contains_forbidden_control (c ∷ s) =
    if ltb c 0x20 && not (c == 0x0A)
    then true
    else if c == 0x7F
    then true
    else contains_forbidden_control s

-- The loop of `ax_normalise_line_endings`, where `cap` is `dst_size - 1`: the bytes written so far,
-- and those from `src[si]` on.
normalise_loop : ℕ → Bytes → Bytes → Result Bytes
normalise_loop cap dst [] = done dst
normalise_loop cap dst (c ∷ []) =
    let line = normalise_loop cap (dst ++ b'\n' ∷ []) [] in
    let copy = normalise_loop cap (dst ++ c ∷ []) [] in
    if ltb (length dst) cap then if c == b'\r' then line else copy else fail Code.buffer
normalise_loop cap dst (c ∷ n ∷ src) =
    let both = normalise_loop cap (dst ++ b'\n' ∷ []) src in
    let line = normalise_loop cap (dst ++ b'\n' ∷ []) (n ∷ src) in
    let copy = normalise_loop cap (dst ++ c ∷ []) (n ∷ src) in
    if ltb (length dst) cap
    then if c == b'\r' then if n == b'\n' then both else line else copy
    else fail Code.buffer

-- `dst_size - 1` is computed in `size_t`: for an empty buffer it is the largest `size_t`, and the first byte, the
-- terminator at the latest, is written out of bounds.
unfoldable pub normalise_line_endings : ℕ → Bytes → Result Bytes
unfolding normalise_loop
normalise_line_endings zero src = fail Code.overrun
normalise_line_endings (suc cap) src = normalise_loop cap [] src

-- Rounds of `ax_is_nfc`. That of a 4-byte sequence steps over the end where bytes are missing.

unfoldable pub nfc_two : ℕ → Bytes → Option Bytes
nfc_two c [] = none
nfc_two c (p1 ∷ p) =
    let cp = bit_or (bit_and c 0x1F * 64) (bit_and p1 0x3F) in
    if leb 0x0300 cp && leb cp 0x036F then none else some p

unfoldable pub nfc_three : ℕ → Bytes → Option Bytes
nfc_three c [] = none
nfc_three c (p1 ∷ []) = none
nfc_three c (p1 ∷ p2 ∷ p) =
    let cp = code_point_3 c p1 p2 in
    if (leb 0x1DC0 cp && leb cp 0x1DFF)
      || (leb 0x20D0 cp && leb cp 0x20FF)
      || (leb 0xFE20 cp && leb cp 0xFE2F)
    then none
    else some p

unfoldable pub nfc_round : ℕ → Bytes → Option Bytes
nfc_round c p =
    if ltb c 0x80
    then some p
    else if bit_and c 0xE0 == 0xC0
    then nfc_two c p
    else if bit_and c 0xF0 == 0xE0
    then nfc_three c p
    else if bit_and c 0xF8 == 0xF0
    then some (drop 3 p)
    else none

unfoldable pub is_nfc : Bytes → Bool
unfolding scan nfc_round nfc_two nfc_three
is_nfc p = scan nfc_round (length p) p

-- `ax_validate_encoding`
unfoldable pub validate_encoding : Bytes → Code
validate_encoding s =
    if not (validate_utf8 s)
    then Code.encoding
    else if not (is_nfc s)
    then Code.encoding
    else Code.ok

-- The checks of `ax_validate_and_normalise` on the normalised text, and its result.
unfoldable pub check_normalised : Bytes → Faults → Result Bytes × Faults
check_normalised dst faults =
    if contains_forbidden_control dst
    then (fail Code.encoding, record faults { encoding = true })
    else if not (is_nfc dst)
    then (fail Code.encoding, record faults { encoding = true })
    else (done dst, faults)

unfoldable pub after_normalise : Result Bytes → Faults → Result Bytes × Faults
unfolding check_normalised
after_normalise (fail e) faults = (fail e, record faults { size = true })
after_normalise (done dst) faults = check_normalised dst faults

unfoldable pub validate_and_normalise : ℕ → Bytes → Faults → Result Bytes × Faults
unfolding after_normalise
validate_and_normalise dst_size src faults =
    if not (validate_utf8 src)
    then (fail Code.encoding, record faults { encoding = true })
    else after_normalise (normalise_line_endings dst_size src) faults
