-- ===== src/Canonical/Hex.antt =====
-- `ax_format_hash_hex` (src/canonical.c): two lower-case digits for each byte, and they read back.
use axioma_oracle.Prelude.{
  ℕ, ◌+◌, ◌-◌, ◌*◌, ◌/◌, ◌%◌, ◌≤◌, ◌<◌, ◌≡◌, refl, ◌&&◌, [], ◌∷◌, ◌⊎◌, inl, inr, Option, none, some,
  arith, Bytes, All, IsByte, Lacks, length, ltb, leb, if◌then◌else◌, agree_below, agree_below→eq,
}
use native.Mathlib.Decide.{dec_lt}
use axioma_oracle.Types.{Code, done, fail, hash_size, hash_hex_size}
use axioma_oracle.Canonical.{hex_at, hex_loop, format_hash_hex}

abbrev pub IsHexDigit : ℕ → Type 0
IsHexDigit c = (b'0' ≤ c) × (c ≤ b'f')

-- The value of a digit, in either case.
unfoldable pub unhex : ℕ → Option ℕ
unhex c =
    if leb b'0' c && leb c b'9'
    then some (c - b'0')
    else if leb b'a' c && leb c b'f'
    then some (c - b'a' + 10)
    else if leb b'A' c && leb c b'F'
    then some (c - b'A' + 10)
    else none

hex_at_table : (i : ℕ) → i < 16 → hex_at i ≡ (if ltb i 10 then b'0' + i else b'a' + (i - 10))
unfolding hex_at
hex_at_table =
    agree_below→eq hex_at (λ i. if ltb i 10 then b'0' + i else b'a' + (i - 10)) 16
      (unfold agree_below in refl)

pub unhex-hex_at : (i : ℕ) → i < 16 → unhex (hex_at i) ≡ some i
unfolding unhex
unhex-hex_at i h = ground (arith, hex_at_table i h)

pub hex_at-IsHexDigit : (i : ℕ) → i < 16 → IsHexDigit (hex_at i)
hex_at-IsHexDigit i h = ground (arith, hex_at_table i h)

-- One byte from two digits, in front of what was read.
join_byte : Option ℕ → Option ℕ → Option Bytes → Option Bytes
join_byte (some a) (some b) (some rest) = some ((a * 16 + b) ∷ rest)
join_byte a b rest = none

pub from_hex : Bytes → Option Bytes
from_hex [] = some []
from_hex (a ∷ []) = none
from_hex (a ∷ b ∷ s) = join_byte (unhex a) (unhex b) (from_hex s)

pub from_hex-hex_loop : (hash : Bytes) → All IsByte hash → from_hex (hex_loop hash) ≡ some hash
unfolding from_hex hex_loop join_byte
from_hex-hex_loop [] h = refl
from_hex-hex_loop (b ∷ hash) (h, hs) = ground (
  arith,
  unhex-hex_at (b / 16 % 16) (omega arith),
  unhex-hex_at (b % 16) (omega arith),
  from_hex-hex_loop hash hs,
)

pub length-hex_loop : (hash : Bytes) → length (hex_loop hash) ≡ length hash * 2
unfolding hex_loop
length-hex_loop [] = omega arith
length-hex_loop (b ∷ hash) = omega (arith, length-hex_loop hash)

pub hex_loop-IsHexDigit : (hash : Bytes) → All IsHexDigit (hex_loop hash)
unfolding hex_loop
hex_loop-IsHexDigit [] = tt
hex_loop-IsHexDigit (b ∷ hash) = (
  hex_at-IsHexDigit (b / 16 % 16) (omega arith),
  (hex_at-IsHexDigit (b % 16) (omega arith), hex_loop-IsHexDigit hash),
)

IsHexDigit-Lacks : (c : ℕ) (s : Bytes) → ¬ (IsHexDigit c) → All IsHexDigit s → Lacks c s
IsHexDigit-Lacks c [] no_digit h = tt
IsHexDigit-Lacks c (d ∷ s) no_digit (h, hs) =
    (λ e. no_digit (rw (← e) h), IsHexDigit-Lacks c s no_digit hs)

pub hex_loop-Lacks : (hash : Bytes) (c : ℕ) → ¬ (IsHexDigit c) → Lacks c (hex_loop hash)
hex_loop-Lacks hash c h = IsHexDigit-Lacks c (hex_loop hash) h (hex_loop-IsHexDigit hash)

pub format_hash_hex_text :
    (hash : Bytes)
    → length hash ≡ hash_size
    → format_hash_hex hash_hex_size hash ≡ done (hex_loop hash)
unfolding format_hash_hex
format_hash_hex_text hash h = ground arith

-- `ax_format_hash_hex` fails exactly when the buffer has no room for two digits a byte and the
-- terminator; else the digits are lower-case hex and read back as the bytes.
pub format_hash_hex_lem :
    (dst_size : ℕ) (hash : Bytes)
    → All IsByte hash
    → ((dst_size < length hash * 2 + 1) × (format_hash_hex dst_size hash ≡ fail Code.buffer))
      ⊎ ((text : Bytes) × (format_hash_hex dst_size hash ≡ done text)
          × (length text ≡ length hash * 2)
          × (from_hex text ≡ some hash))
format_hash_hex_lem dst_size hash b = elim (dec_lt dst_size (length hash * 2 + 1)) [
  | yes small ↦ inl (small, unfold format_hash_hex in ground arith)
  | no large ↦ inr (
    hex_loop hash,
    unfold format_hash_hex in ground arith,
    length-hex_loop hash,
    from_hex-hex_loop hash b,
  )
]
