-- ===== src/Canonical/Decimal.antt =====
-- Numbers of src/canonical.c: 24 bytes hold the digits of every 64-bit value, and the printed text
-- reads back as the value.
use axioma_oracle.Prelude.{
  ℕ, zero, suc, ◌+◌, ◌-◌, ◌*◌, ◌/◌, ◌^◌, ◌≤◌, ◌<◌, ◌≡◌, ◌≢◌, refl, sym, ap, ◌∙◌, [], ◌∷◌, ◌++◌,
  reverse, arith, Bytes, All, All-append, Lacks, length, length-append, ◌==◌, if◌then◌else◌,
  Bool-cases, inl, inr,
}
use mathlib.Core.List.{reverse-append}
use axioma_oracle.Prelude.Int.{ℤ, pos, negsuc, IsInt64}
use axioma_oracle.Types.{done}
use axioma_oracle.Canonical.{
  digit_loop, reversed_digits, copy_out, format_uint64, format_int64, num_buf_size,
}

-- 10 to the power of `k`
pow_ten : ℕ → ℕ
pow_ten zero = 1
pow_ten (suc k) = 10 * pow_ten k

abbrev pub IsDigit : ℕ → Type 0
IsDigit c = (b'0' ≤ c) × (c ≤ b'9')

-- The number that digits spell, the highest first, behind `n`.
unfoldable pub decimal : ℕ → Bytes → ℕ
decimal n [] = n
decimal n (c ∷ s) = decimal (n * 10 + (c - b'0')) s

-- The same, the lowest first.
low_first : Bytes → ℕ
low_first [] = 0
low_first (c ∷ s) = (c - b'0') + 10 * low_first s

decimal-append :
    (n : ℕ) (s : Bytes) (c : ℕ) → decimal n (s ++ c ∷ []) ≡ decimal n s * 10 + (c - b'0')
unfolding decimal
decimal-append n [] c = refl
decimal-append n (d ∷ s) c = decimal-append (n * 10 + (d - b'0')) s c

decimal-reverse : (s : Bytes) → decimal 0 (reverse s) ≡ low_first s
unfolding low_first
decimal-reverse [] = unfold decimal in refl
decimal-reverse (c ∷ s) =
    ap (decimal 0) (reverse-append (c ∷ []) s)
    ∙ decimal-append 0 (reverse s) c
    ∙ omega (arith, decimal-reverse s)

low_first-digit_loop : (fuel n : ℕ) → n < pow_ten fuel → low_first (digit_loop fuel n) ≡ n
unfolding digit_loop low_first pow_ten
low_first-digit_loop zero n h = omega arith
low_first-digit_loop (suc fuel) n h = ground (arith, low_first-digit_loop fuel (n / 10))

digit_loop-IsDigit : (fuel n : ℕ) → All IsDigit (digit_loop fuel n)
unfolding digit_loop
digit_loop-IsDigit zero n = tt
digit_loop-IsDigit (suc fuel) n = ground (arith, digit_loop-IsDigit fuel (n / 10))

length-digit_loop : (fuel k n : ℕ) → n < pow_ten k → length (digit_loop fuel n) ≤ k
unfolding digit_loop pow_ten
length-digit_loop zero k n h = omega arith
length-digit_loop (suc fuel) zero n h = ground arith
length-digit_loop (suc fuel) (suc k) n h = ground (arith, length-digit_loop fuel k (n / 10))

length-reverse : (s : Bytes) → length (reverse s) ≡ length s
length-reverse [] = refl
length-reverse (c ∷ s) =
    ap length (reverse-append (c ∷ []) s)
    ∙ omega (arith, length-append (reverse s) (c ∷ []), length-reverse s)

All-reverse : (s : Bytes) → All IsDigit s → All IsDigit (reverse s)
All-reverse [] h = tt
All-reverse (c ∷ s) (h, hs) =
    rw (reverse-append (c ∷ []) s)
      (All-append IsDigit (reverse s) (c ∷ []) (All-reverse s hs) (h, tt))

-- What the formatting functions print for a number.
unfoldable pub digits_text : ℕ → Bytes
unfolding reversed_digits
digits_text n = reverse (reversed_digits n)

reversed_digits-IsDigit : (n : ℕ) → All IsDigit (reversed_digits n)
unfolding reversed_digits
reversed_digits-IsDigit n = ground (arith, digit_loop-IsDigit num_buf_size n)

pub digits_text-IsDigit : (n : ℕ) → All IsDigit (digits_text n)
unfolding digits_text
digits_text-IsDigit n = All-reverse (reversed_digits n) (reversed_digits-IsDigit n)

fits_twenty : (n : ℕ) → n < 2 ^ 64 → n < pow_ten 20
unfolding pow_ten
fits_twenty n h = omega arith

fits_num_buf : (n : ℕ) → n < 2 ^ 64 → n < pow_ten num_buf_size
unfolding pow_ten
fits_num_buf n h = omega arith

length-reversed_digits : (n : ℕ) → n < 2 ^ 64 → length (reversed_digits n) ≤ 20
unfolding reversed_digits
length-reversed_digits n h = ground (arith, length-digit_loop num_buf_size 20 n (fits_twenty n h))

pub length-digits_text : (n : ℕ) → n < 2 ^ 64 → length (digits_text n) ≤ 20
unfolding digits_text
length-digits_text n h =
    omega (arith, length-reverse (reversed_digits n), length-reversed_digits n h)

low_first-reversed_digits : (n : ℕ) → n < 2 ^ 64 → low_first (reversed_digits n) ≡ n
unfolding reversed_digits
low_first-reversed_digits n h = elim (Bool-cases (n == 0)) [
  | inl zero_value ↦ rw zero_value (unfold low_first in ground arith)
  | inr more ↦ rw more (low_first-digit_loop num_buf_size n (fits_num_buf n h))
]

pub decimal-digits_text : (n : ℕ) → n < 2 ^ 64 → decimal 0 (digits_text n) ≡ n
unfolding digits_text
decimal-digits_text n h = decimal-reverse (reversed_digits n) ∙ low_first-reversed_digits n h

-- `ax_format_uint64` prints every 64-bit value into the buffers of 24 bytes that its callers give: at
-- most 20 digits, which spell the value.
pub format_uint64_lem :
    (n : ℕ)
    → n < 2 ^ 64
    → (text : Bytes) × (format_uint64 num_buf_size n ≡ done text)
      × (length text ≤ 20)
      × All IsDigit text
      × (decimal 0 text ≡ n)
unfolding format_uint64 copy_out
format_uint64_lem n h = (
  digits_text n,
  unfold digits_text in ground (arith, length-reversed_digits n h),
  length-digits_text n h,
  digits_text-IsDigit n,
  decimal-digits_text n h,
)

pub format_uint64_text : (n : ℕ) → n < 2 ^ 64 → format_uint64 num_buf_size n ≡ done (digits_text n)
unfolding format_uint64 copy_out digits_text
format_uint64_text n h = ground (arith, length-reversed_digits n h)

-- The text of a signed value.
unfoldable pub signed_text : ℤ → Bytes
unfolding digits_text
signed_text (pos n) = digits_text n
signed_text (negsuc n) = b'-' ∷ digits_text (n + 1)

-- The integer that a text spells.
pub signed : Bytes → ℤ
unfolding decimal
signed [] = pos 0
signed (c ∷ s) = if c == b'-' then negsuc (decimal 0 s - 1) else pos (decimal 0 (c ∷ s))

signed-IsDigit : (s : Bytes) → All IsDigit s → signed s ≡ pos (decimal 0 s)
unfolding signed
signed-IsDigit [] h = refl
signed-IsDigit (c ∷ s) (h, _) = ground arith

pub signed-signed_text : (z : ℤ) → IsInt64 z → signed (signed_text z) ≡ z
unfolding signed_text
signed-signed_text (pos n) h =
    signed-IsDigit (digits_text n) (digits_text-IsDigit n)
    ∙ ap pos (decimal-digits_text n (omega arith))
signed-signed_text (negsuc n) h =
    unfold signed in ap negsuc (omega (arith, decimal-digits_text (n + 1) (omega arith)))

copy_out-done : (n : ℕ) (temp : Bytes) → length temp < n → copy_out n temp ≡ done (reverse temp)
unfolding copy_out
copy_out-done n temp h = ground arith

pub format_int64_text : (z : ℤ) → IsInt64 z → format_int64 num_buf_size z ≡ done (signed_text z)
unfolding format_int64 signed_text digits_text
format_int64_text (pos n) h =
    copy_out-done num_buf_size (reversed_digits n)
      (omega (arith, length-reversed_digits n (omega arith)))
format_int64_text (negsuc n) h =
    copy_out-done num_buf_size (reversed_digits (n + 1) ++ b'-' ∷ []) (
      omega (
        arith,
        length-append (reversed_digits (n + 1)) (b'-' ∷ []),
        length-reversed_digits (n + 1) (omega arith),
      ))
    ∙ ap done (reverse-append (reversed_digits (n + 1)) (b'-' ∷ []))

pub length-signed_text : (z : ℤ) → IsInt64 z → length (signed_text z) ≤ 21
unfolding signed_text
length-signed_text (pos n) h = omega (arith, length-digits_text n (omega arith))
length-signed_text (negsuc n) h = omega (arith, length-digits_text (n + 1) (omega arith))

-- `ax_format_int64` prints every `int64_t`, the least one included, into a buffer of 24 bytes, and the
-- text reads back as the value.
pub format_int64_lem :
    (z : ℤ)
    → IsInt64 z
    → (text : Bytes) × (format_int64 num_buf_size z ≡ done text)
      × (length text ≤ 21)
      × (signed text ≡ z)
format_int64_lem z h =
    (signed_text z, format_int64_text z h, length-signed_text z h, signed-signed_text z h)

IsDigit-Lacks : (c : ℕ) (s : Bytes) → ¬ (IsDigit c) → All IsDigit s → Lacks c s
IsDigit-Lacks c [] no_digit h = tt
IsDigit-Lacks c (d ∷ s) no_digit (h, hs) =
    (λ e. no_digit (rw (← e) h), IsDigit-Lacks c s no_digit hs)

pub digits_text-Lacks : (n c : ℕ) → ¬ (IsDigit c) → Lacks c (digits_text n)
digits_text-Lacks n c h = IsDigit-Lacks c (digits_text n) h (digits_text-IsDigit n)

pub signed_text-Lacks : (z : ℤ) (c : ℕ) → ¬ (IsDigit c) → c ≢ b'-' → Lacks c (signed_text z)
unfolding signed_text
signed_text-Lacks (pos n) c h k = digits_text-Lacks n c h
signed_text-Lacks (negsuc n) c h k = (λ e. k (sym e), digits_text-Lacks (n + 1) c h)

reversed_digits_nonempty : (n : ℕ) → 0 < length (reversed_digits n)
unfolding reversed_digits digit_loop
reversed_digits_nonempty n = ground arith

pub digits_text_nonempty : (n : ℕ) → 0 < length (digits_text n)
unfolding digits_text
digits_text_nonempty n =
    omega (arith, length-reverse (reversed_digits n), reversed_digits_nonempty n)

pub signed_text_nonempty : (z : ℤ) → 0 < length (signed_text z)
unfolding signed_text
signed_text_nonempty (pos n) = digits_text_nonempty n
signed_text_nonempty (negsuc n) = omega arith

length-digits_text_below : (k n : ℕ) → n < pow_ten (suc k) → length (digits_text n) ≤ suc k
unfolding digits_text reversed_digits
length-digits_text_below k n h = omega (arith, length-reverse (reversed_digits n), reversed_below)
  where
    reversed_below : length (reversed_digits n) ≤ suc k
    reversed_below = ground (arith, length-digit_loop num_buf_size (suc k) n h)

pub length-digits_text_5 : (n : ℕ) → n < 100000 → length (digits_text n) ≤ 5
unfolding pow_ten
length-digits_text_5 n h = length-digits_text_below 4 n (omega (arith, h))

pub length-digits_text_6 : (n : ℕ) → n < 1000000 → length (digits_text n) ≤ 6
unfolding pow_ten
length-digits_text_6 n h = length-digits_text_below 5 n (omega (arith, h))
