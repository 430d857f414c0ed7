-- ===== src/Gateway/Wal/Field.antt =====
-- One line of the intent file of gateway/src/gw_wal.c, printed and read back.
use axioma_oracle.Prelude.{
  ℕ, ◌+◌, ◌-◌, ◌<◌, ◌≡◌, ◌∙◌, refl, ap, false, [], ◌∷◌, ◌++◌, some, Bytes, All, Lacks, length,
  c_str, c_str_lem, append_assoc, arith, All-append,
}
use axioma_oracle.Prelude.Int.{ℤ, pos, negsuc, IsInt32, IsInt64}
use axioma_oracle.Canonical.Decimal.{
  signed_text, digits_text, decimal, IsDigit, digits_text-IsDigit, decimal-digits_text,
  signed_text-Lacks,
}
use axioma_oracle.Gateway.Wal.{
  fgets_lines, strip_end, behind, value_of, parse_field, skip_space, leading_digits, clamp,
  strtol_sign, strtol, to_int32,
}

-- A text without the bytes that end a line or a string.
abbrev pub IsLine : Bytes → Type 0
IsLine l = Lacks b'\n' l × Lacks b'\r' l × Lacks 0 l

pub fgets-piece :
    (room : ℕ) (line l rest : Bytes)
    → Lacks b'\n' l
    → length l < room
    → fgets_lines room line (l ++ b'\n' ∷ rest)
      ≡ (line ++ (l ++ b'\n' ∷ [])) ∷ fgets_lines 599 [] rest
unfolding fgets_lines
fgets-piece room line [] rest h k = refl
fgets-piece room line (c ∷ l) rest (n, h) k = ground (
  arith,
  fgets-piece (room - 1) (line ++ c ∷ []) l rest h (omega (arith, k)),
  append_assoc line (c ∷ []) (l ++ b'\n' ∷ []),
)

strip_end-line : (l : Bytes) → Lacks b'\n' l → Lacks b'\r' l → strip_end (l ++ b'\n' ∷ []) ≡ l
unfolding strip_end
strip_end-line [] _ _ = refl
strip_end-line (c ∷ l) (n, hn) (r, hr) = rw (strip_end-line l hn hr) (ground arith)

pub clean : (l : Bytes) → IsLine l → strip_end (c_str (l ++ b'\n' ∷ [])) ≡ l
clean l (n, r, z) =
    ap strip_end
      (c_str_lem (l ++ b'\n' ∷ []) (All-append _ l (b'\n' ∷ []) z ((λ e. omega (arith, e)), tt)))
    ∙ strip_end-line l n r

behind-append : (key rest : Bytes) → behind key (key ++ rest) ≡ some rest
unfolding behind
behind-append [] rest = refl
behind-append (k ∷ key) rest = ground (arith, behind-append key rest)

pub parse_field-own :
    (key value : Bytes) (cap : ℕ)
    → 0 < length value
    → length value < cap
    → parse_field (key ++ b'=' ∷ value) key cap ≡ some value
unfolding parse_field value_of
parse_field-own key value cap h k = rw (behind-append key (b'=' ∷ value)) (ground (arith, h, k))

skip_space-IsDigit : (s : Bytes) → All IsDigit s → skip_space s ≡ s
unfolding skip_space
skip_space-IsDigit [] h = refl
skip_space-IsDigit (c ∷ s) (h, _) = ground arith

leading_digits-IsDigit : (s : Bytes) → All IsDigit s → leading_digits s ≡ s
unfolding leading_digits
leading_digits-IsDigit [] h = refl
leading_digits-IsDigit (c ∷ s) (h, hs) = rw (leading_digits-IsDigit s hs) (ground arith)

strtol_sign-IsDigit : (s : Bytes) → All IsDigit s → strtol_sign s ≡ clamp false (decimal 0 s)
unfolding strtol_sign clamp decimal
strtol_sign-IsDigit [] h = refl
strtol_sign-IsDigit (c ∷ s) (h, hs) = rw (leading_digits-IsDigit s hs) (ground (arith, h))

pub strtol-signed_text : (z : ℤ) → IsInt64 z → strtol (signed_text z) ≡ z
unfolding strtol signed_text clamp
strtol-signed_text (pos n) h =
    ap strtol_sign (skip_space-IsDigit (digits_text n) (digits_text-IsDigit n))
    ∙ strtol_sign-IsDigit (digits_text n) (digits_text-IsDigit n)
    ∙ rw (decimal-digits_text n (omega (arith, h))) (ground (arith, h))
strtol-signed_text (negsuc n) h =
    rw
      (
        leading_digits-IsDigit (digits_text (n + 1)) (digits_text-IsDigit (n + 1)),
        decimal-digits_text (n + 1) (omega (arith, h)),
      )
      (ground (arith, h))

pub to_int32_lem : (z : ℤ) → IsInt32 z → to_int32 z ≡ z
unfolding to_int32
to_int32_lem (pos n) h = ground (arith, h)
to_int32_lem (negsuc n) h = ground (arith, h)

pub signed_text-IsLine : (z : ℤ) → IsLine (signed_text z)
signed_text-IsLine z = (
  signed_text-Lacks z b'\n' (λ h. omega (arith, h.0)) (λ e. omega (arith, e)),
  signed_text-Lacks z b'\r' (λ h. omega (arith, h.0)) (λ e. omega (arith, e)),
  signed_text-Lacks z 0 (λ h. omega (arith, h.0)) (λ e. omega (arith, e)),
)
