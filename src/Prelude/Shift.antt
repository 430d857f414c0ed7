-- ===== src/Prelude/Shift.antt =====
-- Shifts by a number of binary digits, and `|` with a number that fits below them.
use axioma_oracle.Prelude.{ℕ, zero, suc, ◌+◌, ◌*◌, ◌/◌, ◌<◌, ◌≡◌, ◌∙◌, bit_or, arith}
use axioma_oracle.Prelude.Bits.{zero-bit_or, bit_or-zero, bit_or_step}

unfoldable pub shift : ℕ → ℕ → ℕ
shift zero a = a
shift (suc k) a = 2 * shift k a

pub bit_or_low : (k a b : ℕ) → a < shift k 1 → bit_or a (shift k b) ≡ a + shift k b
unfolding shift
bit_or_low zero zero b h = zero-bit_or b ∙ omega arith
bit_or_low zero (suc a) b h = absurd (omega arith)
bit_or_low (suc k) a b h =
    let e : 2 * shift k b / 2 ≡ shift k b = omega arith in
    let s = rw e at (bit_or_step a (2 * shift k b)) in
    omega (arith, s, bit_or_low k (a / 2) b (omega arith))

pub bit_or_high : (k a b : ℕ) → b < shift k 1 → bit_or (shift k a) b ≡ shift k a + b
unfolding shift
bit_or_high zero a zero h = bit_or-zero a ∙ omega arith
bit_or_high zero a (suc b) h = absurd (omega arith)
bit_or_high (suc k) a b h =
    let e : 2 * shift k a / 2 ≡ shift k a = omega arith in
    let s = rw e at (bit_or_step (2 * shift k a) b) in
    omega (arith, s, bit_or_high k a (b / 2) (omega arith))
