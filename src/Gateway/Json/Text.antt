-- ===== src/Gateway/Json/Text.antt =====
-- gateway/src/gw_json.c: white space and strings. A scanner is the list of its bytes from `p` to `end`; a
-- function that moves it returns the bytes that are left, and `none` is -1.
use axioma_oracle.Prelude.{
  ◌>>=◌, ℕ, ◌+◌, ◌-◌, ◌*◌, ◌/◌, Bool, ◌&&◌, ◌||◌, not, [], ◌∷◌, ◌++◌, Option, none, some, Bytes,
  bit_and, bit_or, length, ltb, leb, ◌==◌, if◌then◌else◌,
}

abbrev pub is_ws : ℕ → Bool
is_ws c = c == b' ' || c == b'\t' || c == b'\n' || c == b'\r'

unfoldable pub s_ws : Bytes → Bytes
s_ws [] = []
s_ws (c ∷ s) = let rest = s_ws s in if is_ws c then rest else c ∷ s

-- `s_skip_string`. The rounds behind the opening quote; `skip_escape` is the one that has read a
-- backslash, and `skip_u4` steps over four digits.
unfoldable mutual
  pub skip_rest : Bytes → Option Bytes
  skip_rest [] = none
  skip_rest (c ∷ s) =
      let escape = skip_escape s in
      let more = skip_rest s in if c == b'"' then some s else if c == b'\\' then escape else more

  pub skip_escape : Bytes → Option Bytes
  skip_escape [] = none
  skip_escape (c ∷ s) =
      let digits = skip_u4 s in let more = skip_rest s in if c == b'u' then digits else more

  pub skip_u4 : Bytes → Option Bytes
  skip_u4 (a ∷ b ∷ c ∷ d ∷ s) = skip_rest s
  skip_u4 s = none

unfoldable pub s_skip_string : Bytes → Option Bytes
unfolding skip_rest
s_skip_string [] = none
s_skip_string (c ∷ s) = if c == b'"' then skip_rest s else none

unfoldable pub hexval : ℕ → Option ℕ
hexval c =
    if leb b'0' c && leb c b'9'
    then some (c - b'0')
    else if leb b'a' c && leb c b'f'
    then some (c - b'a' + 10)
    else if leb b'A' c && leb c b'F'
    then some (c - b'A' + 10)
    else none

-- One round of `s_read_u4`: `v = (v << 4) | h`.
unfoldable pub add_digit : ℕ → ℕ → Option ℕ
add_digit v c = do h ← hexval c; some (bit_or (v * 16) h)

-- `s_read_u4` on the four bytes at `p`.
unfoldable pub s_read_u4 : ℕ → ℕ → ℕ → ℕ → Option ℕ
s_read_u4 a b c d = do v1 ← add_digit 0 a; v2 ← add_digit v1 b; v3 ← add_digit v2 c; add_digit v3 d

-- The bytes that `put_utf8` builds; none for a number above U+10FFFF.
unfoldable pub utf8_bytes : ℕ → Option Bytes
utf8_bytes cp =
    if ltb cp 0x80
    then some (cp ∷ [])
    else if ltb cp 0x800
    then some (bit_or 0xC0 (cp / 64) ∷ bit_or 0x80 (bit_and cp 0x3F) ∷ [])
    else if ltb cp 0x10000
    then some (
        bit_or 0xE0 (cp / 4096)
        ∷ bit_or 0x80 (bit_and (cp / 64) 0x3F)
        ∷ bit_or 0x80 (bit_and cp 0x3F)
        ∷ [])
    else if leb cp 0x10FFFF
    then some (
        bit_or 0xF0 (cp / 262144)
        ∷ bit_or 0x80 (bit_and (cp / 4096) 0x3F)
        ∷ bit_or 0x80 (bit_and (cp / 64) 0x3F)
        ∷ bit_or 0x80 (bit_and cp 0x3F)
        ∷ [])
    else none

-- `if (o + n > cap) return -1;` and the copy.
unfoldable pub put : ℕ → Bytes → Bytes → Option Bytes
put cap dst s = if ltb cap (length dst + length s) then none else some (dst ++ s)

unfoldable pub put_utf8 : ℕ → Bytes → ℕ → Option Bytes
put_utf8 cap dst cp = do b ← utf8_bytes cp; put cap dst b

-- The bytes of the escapes of one letter.
unfoldable pub simple_escape : ℕ → Option Bytes
simple_escape e =
    if e == b'"' || e == b'\\' || e == b'/'
    then some (e ∷ [])
    else if e == b'b'
    then some (8 ∷ [])
    else if e == b'f'
    then some (12 ∷ [])
    else if e == b'n'
    then some (10 ∷ [])
    else if e == b'r'
    then some (13 ∷ [])
    else if e == b't'
    then some (9 ∷ [])
    else none

abbrev pub is_high : ℕ → Bool
is_high u = leb 0xD800 u && leb u 0xDBFF

abbrev pub is_low : ℕ → Bool
is_low u = leb 0xDC00 u && leb u 0xDFFF

-- The code point of a surrogate pair.
unfoldable pub surrogate_pair : ℕ → ℕ → Option ℕ
surrogate_pair u1 u2 =
    if not (is_low u2) then none else some (0x10000 + bit_or ((u1 - 0xD800) * 1024) (u2 - 0xDC00))

-- `s_decode_string`. The rounds behind the opening quote, `dst` being `dst[0..o)`; `decode_escape` is the
-- one that has read a backslash, `decode_u4` the case of `u`, `decode_low` its part behind a high
-- surrogate. They return `dst` and the bytes that are left.
unfoldable mutual
  pub decode_rest : ℕ → Bytes → Bytes → Option (Bytes × Bytes)
  decode_rest cap dst [] = none
  decode_rest cap dst (c ∷ s) =
      let escape = decode_escape cap dst s in
      let more = put cap dst (c ∷ []) >>= λ dst'. decode_rest cap dst' s in
      if c == b'"' then some (dst, s) else if c == b'\\' then escape else more

  pub decode_escape : ℕ → Bytes → Bytes → Option (Bytes × Bytes)
  decode_escape cap dst [] = none
  decode_escape cap dst (e ∷ s) =
      let unicode = decode_u4 cap dst s in
      let more = simple_escape e >>= λ b. put cap dst b >>= λ dst'. decode_rest cap dst' s in
      if e == b'u' then unicode else more

  pub decode_u4 : ℕ → Bytes → Bytes → Option (Bytes × Bytes)
  decode_u4 cap dst (a ∷ b ∷ c ∷ d ∷ s) = s_read_u4 a b c d >>= λ u1.
      (let high = decode_low cap dst u1 s in
        let more = put_utf8 cap dst u1 >>= λ dst'. decode_rest cap dst' s in
        if is_high u1 then high else if is_low u1 then none else more)
  decode_u4 cap dst s = none

  pub decode_low : ℕ → Bytes → ℕ → Bytes → Option (Bytes × Bytes)
  decode_low cap dst u1 (x ∷ y ∷ a ∷ b ∷ c ∷ d ∷ s) =
      let more = s_read_u4 a b c d >>= λ u2.
      surrogate_pair u1 u2 >>= λ cp. put_utf8 cap dst cp >>= λ dst'. decode_rest cap dst' s in
      if not (x == b'\\') || not (y == b'u') then none else more
  decode_low cap dst u1 s = none

-- `dst` is what `dst[0..*out_len)` holds before the call.
unfoldable pub s_decode_string : ℕ → Bytes → Bytes → Option (Bytes × Bytes)
unfolding decode_rest
s_decode_string cap dst [] = none
s_decode_string cap dst (c ∷ s) = if c == b'"' then decode_rest cap dst s else none
