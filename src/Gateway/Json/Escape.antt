-- ===== src/Gateway/Json/Escape.antt =====
-- gateway/src/gw_json.c: escaping for the request body. A buffer is the list of the bytes in it, `cap` its
-- size, and `none` is -1.
use axioma_oracle.Prelude.{
  ℕ, zero, suc, ◌+◌, ◌/◌, ◌%◌, Bool, true, false, ◌&&◌, [], ◌∷◌, ◌++◌, Option, none, some, Bytes,
  codes, bit_and, length, take, drop, get_or, ltb, leb, ◌==◌, if◌then◌else◌,
}
use axioma_oracle.Canonical.{hex_at}

-- What is written for one byte: `rep`, or the byte itself.
unfoldable pub escaped_byte : ℕ → Bytes
unfolding hex_at
escaped_byte c =
    if c == b'"'
    then codes "\\\""
    else if c == b'\\'
    then codes "\\\\"
    else if c == b'\n'
    then codes "\\n"
    else if c == b'\r'
    then codes "\\r"
    else if c == b'\t'
    then codes "\\t"
    else if ltb c 0x20
    then b'\\' ∷ b'u' ∷ b'0' ∷ b'0' ∷ hex_at (c / 16 % 16) ∷ hex_at (c % 16) ∷ []
    else c ∷ []

-- The loop, `dst` being `dst[0..o)`.
unfoldable pub escape_loop : ℕ → Bytes → Bytes → Option Bytes
escape_loop cap dst [] = some dst
escape_loop cap dst (c ∷ src) =
    let rest = escape_loop cap (dst ++ escaped_byte c) src in
    if ltb cap (length dst + length (escaped_byte c)) then none else rest

unfoldable pub gwj_escape : ℕ → Bytes → Option Bytes
gwj_escape cap src = escape_loop cap [] src

-- `s[i]`, behind a test that there is one.
abbrev at : Bytes → ℕ → ℕ
at s i = get_or s i 0

abbrev is_tail : ℕ → Bool
is_tail b = bit_and b 0xC0 == 0x80

-- The branches of `utf8_seq_len` on three and four bytes, of which the first is `c`.

unfoldable pub seq_three : ℕ → Bytes → ℕ
seq_three c s =
    let lo = if c == 0xE0 then 0xA0 else 0x80 in
    let hi = if c == 0xED then 0x9F else 0xBF in
    if leb 3 (length s) && leb lo (at s 1) && leb (at s 1) hi && is_tail (at s 2) then 3 else 0

unfoldable pub seq_four : ℕ → Bytes → ℕ
seq_four c s =
    let lo = if c == 0xF0 then 0x90 else 0x80 in
    let hi = if c == 0xF4 then 0x8F else 0xBF in
    if leb 4 (length s)
      && leb lo (at s 1)
      && leb (at s 1) hi
      && is_tail (at s 2)
      && is_tail (at s 3)
    then 4
    else 0

-- The list is `s[0..len)`, of which the first byte exists.
unfoldable pub utf8_seq_len : Bytes → ℕ
unfolding seq_three seq_four
utf8_seq_len s =
    let c = at s 0 in
    if ltb c 0x80
    then 1
    else if leb 0xC2 c && leb c 0xDF
    then (if leb 2 (length s) && is_tail (at s 1) then 2 else 0)
    else if leb 0xE0 c && leb c 0xEF
    then seq_three c s
    else if leb 0xF0 c && leb c 0xF4
    then seq_four c s
    else 0

-- `while (i < len)` over the bytes left; every round takes at least one, so their number is fuel enough.
unfoldable pub all_utf8 : ℕ → Bytes → Bool
all_utf8 fuel [] = true
all_utf8 zero (c ∷ s) = false
all_utf8 (suc fuel) (c ∷ s) =
    let n = utf8_seq_len (c ∷ s) in
    let rest = all_utf8 fuel (drop n (c ∷ s)) in if n == 0 then false else rest

-- `len` is the second argument; `src` is none for NULL.
unfoldable pub gwj_escape_utf8 : ℕ → Option Bytes → ℕ → Option Bytes
gwj_escape_utf8 cap none len = if ltb 0 len then none else gwj_escape cap []
gwj_escape_utf8 cap (some src) len =
    let s = take len src in if all_utf8 (length s) s then gwj_escape cap s else none
