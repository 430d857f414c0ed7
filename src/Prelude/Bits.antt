-- ===== src/Prelude/Bits.antt =====
-- Masks of one byte as arithmetic, and `|` of numbers with no common digit as `+`.
use Prim.Native.Nat.{
  ℕ, zero, suc, ◌+◌, ◌*◌, ◌/◌, ◌%◌, ◌≤◌, ◌<◌, max, bit_and, bit_or, digits, bit_or-bitwise,
}
use mathlib.Core.Path.{◌≡◌, refl, ◌∙◌}
use mathlib.Core.Bool.{Bool, true, false}
use mathlib.Core.Logic.{ite}
use native.Mathlib.Decide.{ℕ_discrete}
use native.Mathlib.Omega.{arith}

module _ (f g : ℕ → ℕ) where
  unfoldable pub agree_below : ℕ → Bool
  unfolding ℕ_discrete
  agree_below zero = true
  agree_below (suc n) = ite (ℕ_discrete (f n) (g n)) (agree_below n) false

  pub agree_below→eq : (n : ℕ) → agree_below n ≡ true → (i : ℕ) → i < n → f i ≡ g i
  unfolding agree_below
  agree_below→eq zero e i h = absurd (omega arith)
  agree_below→eq (suc n) e i h = ground (arith, agree_below→eq n (ground arith) i)

pub bit_and_e0 : (b : ℕ) → b < 256 → bit_and b 0xE0 ≡ b / 32 * 32
unfolding agree_below
bit_and_e0 = agree_below→eq _ _ 256 refl

pub bit_and_f0 : (b : ℕ) → b < 256 → bit_and b 0xF0 ≡ b / 16 * 16
unfolding agree_below
bit_and_f0 = agree_below→eq _ _ 256 refl

pub bit_and_f8 : (b : ℕ) → b < 256 → bit_and b 0xF8 ≡ b / 8 * 8
unfolding agree_below
bit_and_f8 = agree_below→eq _ _ 256 refl

pub bit_and_c0 : (b : ℕ) → b < 256 → bit_and b 0xC0 ≡ b / 64 * 64
unfolding agree_below
bit_and_c0 = agree_below→eq _ _ 256 refl

pub bit_and_1e : (b : ℕ) → b < 256 → bit_and b 0x1E ≡ b / 2 % 16 * 2
unfolding agree_below
bit_and_1e = agree_below→eq _ _ 256 refl

pub bit_and_3f : (b : ℕ) → b < 256 → bit_and b 0x3F ≡ b % 64
unfolding agree_below
bit_and_3f = agree_below→eq _ _ 256 refl

pub bit_and_1f : (b : ℕ) → b < 256 → bit_and b 0x1F ≡ b % 32
unfolding agree_below
bit_and_1f = agree_below→eq _ _ 256 refl

pub bit_and_0f : (b : ℕ) → b < 256 → bit_and b 0x0F ≡ b % 16
unfolding agree_below
bit_and_0f = agree_below→eq _ _ 256 refl

pub bit_and_07 : (b : ℕ) → b < 256 → bit_and b 0x07 ≡ b % 8
unfolding agree_below
bit_and_07 = agree_below→eq _ _ 256 refl

-- The law for the lowest digit, from the definition that the native operation stands for.
abbrev or_digits : ℕ → ℕ → ℕ → ℕ
or_digits n a b = digits (λ b. b) max n a b

or_digits_fuel : (n m a b : ℕ) → a ≤ n → a ≤ m → or_digits n a b ≡ or_digits m a b
or_digits_fuel zero zero a b p q = refl
or_digits_fuel zero (suc m) zero b p q = refl
or_digits_fuel zero (suc m) (suc a) b p q = absurd (omega arith)
or_digits_fuel (suc n) zero zero b p q = refl
or_digits_fuel (suc n) zero (suc a) b p q = absurd (omega arith)
or_digits_fuel (suc n) (suc m) zero b p q = refl
or_digits_fuel (suc n) (suc m) (suc a) b p q =
    omega (arith, or_digits_fuel n m (suc a / 2) (b / 2) (omega arith) (omega arith))

pub zero-bit_or : (b : ℕ) → bit_or 0 b ≡ b
zero-bit_or b = bit_or-bitwise 0 b

pub bit_or_step : (a b : ℕ) → bit_or a b ≡ bit_or (a / 2) (b / 2) * 2 + max (a % 2) (b % 2)
bit_or_step zero b = omega (arith, zero-bit_or b, zero-bit_or (b / 2))
bit_or_step (suc a) b = omega (
  arith,
  bit_or-bitwise (suc a) b,
  bit_or-bitwise (suc a / 2) (b / 2),
  or_digits_fuel a (suc a / 2) (suc a / 2) (b / 2) (omega arith) (omega arith),
)

bit_or-zero_fuel : (n a : ℕ) → a ≤ n → bit_or a 0 ≡ a
bit_or-zero_fuel n zero h = zero-bit_or 0
bit_or-zero_fuel zero (suc a) h = absurd (omega arith)
bit_or-zero_fuel (suc n) (suc a) h =
    omega (arith, bit_or_step (suc a) 0, bit_or-zero_fuel n (suc a / 2) (omega arith))

pub bit_or-zero : (a : ℕ) → bit_or a 0 ≡ a
bit_or-zero a = bit_or-zero_fuel a a (omega arith)

-- One more low digit of the right side.
bit_or_double : (a b : ℕ) → bit_or a (b / 2) ≡ a + b / 2 → bit_or (2 * a) b ≡ 2 * a + b
bit_or_double a b h =
    let e : 2 * a / 2 ≡ a = omega arith in
    let s : bit_or (2 * a) b ≡ bit_or a (b / 2) * 2 + max (2 * a % 2) (b % 2) =
      rw e at (bit_or_step (2 * a) b) in
    omega (arith, s, h)

bit_or_8 : (a b : ℕ) → b < 8 → bit_or (2 * (2 * (2 * a))) b ≡ 2 * (2 * (2 * a)) + b
bit_or_8 a b h =
    let z : b / 2 / 2 / 2 ≡ 0 = omega arith in
    let s0 : bit_or a (b / 2 / 2 / 2) ≡ a + b / 2 / 2 / 2 =
      rw z (rw (bit_or-zero a) (omega arith)) in
    bit_or_double (2 * (2 * a)) b (bit_or_double (2 * a) (b / 2) (bit_or_double a (b / 2 / 2) s0))

-- `x << 6 | y` for a `y` of six digits.
pub bit_or_64 : (a b : ℕ) → b < 64 → bit_or (a * 64) b ≡ a * 64 + b
bit_or_64 a b h =
    let c = 2 * (2 * (2 * a)) in
    let e : a * 64 ≡ 2 * (2 * (2 * c)) = omega arith in
    let s3 = bit_or_8 a (b / 2 / 2 / 2) (omega arith) in
    rw e (
      bit_or_double (2 * (2 * c)) b
        (bit_or_double (2 * c) (b / 2) (bit_or_double c (b / 2 / 2) s3)))

bit_or_even : (a b : ℕ) → bit_or a b ≡ a + b → bit_or (2 * a) (2 * b) ≡ 2 * a + 2 * b
bit_or_even a b h = let e : 2 * b / 2 ≡ b = omega arith in bit_or_double a (2 * b) (rw e h)

bit_or_shift : (a b : ℕ) → bit_or a b ≡ a + b → bit_or (a * 64) (b * 64) ≡ (a + b) * 64
bit_or_shift a b h =
    let three = λ (x y : ℕ) (p : bit_or x y ≡ x + y).
      bit_or_even (2 * (2 * x)) (2 * (2 * y)) (bit_or_even (2 * x) (2 * y) (bit_or_even x y p)) in
    let s = three (2 * (2 * (2 * a))) (2 * (2 * (2 * b))) (three a b h) in
    let ea : a * 64 ≡ 2 * (2 * (2 * (2 * (2 * (2 * a))))) = omega arith in
    let eb : b * 64 ≡ 2 * (2 * (2 * (2 * (2 * (2 * b))))) = omega arith in
    rw (ea, eb) (s ∙ omega arith)

-- The code points that three and four bytes carry.
pub join_three :
    (x y z : ℕ) → y < 64 → z < 64 → bit_or (bit_or (x * 4096) (y * 64)) z ≡ x * 4096 + y * 64 + z
join_three x y z hy hz =
    let e : x * 4096 ≡ x * 64 * 64 = omega arith in
    let s = bit_or_shift (x * 64) y (bit_or_64 x y hy) in
    rw (e, s) (bit_or_64 (x * 64 + y) z hz ∙ omega arith)

pub join_four :
    (x y z w : ℕ)
    → y < 64
    → z < 64
    → w < 64
    → bit_or (bit_or (bit_or (x * 262144) (y * 4096)) (z * 64)) w
      ≡ x * 262144 + y * 4096 + z * 64 + w
join_four x y z w hy hz hw =
    let ex : x * 262144 ≡ x * 64 * 64 * 64 = omega arith in
    let ey : y * 4096 ≡ y * 64 * 64 = omega arith in
    let p : bit_or (x * 64 * 64 * 64) (y * 64 * 64) ≡ (x * 64 + y) * 64 * 64 =
      bit_or_shift (x * 64 * 64) (y * 64) (bit_or_shift (x * 64) y (bit_or_64 x y hy) ∙ omega arith)
      ∙ omega arith in
    let q = bit_or_shift ((x * 64 + y) * 64) z (bit_or_64 (x * 64 + y) z hz) in
    rw (ex, ey, p, q) (bit_or_64 ((x * 64 + y) * 64 + z) w hw ∙ omega arith)
