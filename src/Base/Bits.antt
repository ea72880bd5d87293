-- ===== src/Base/Bits.antt =====
-- Bytes that are shifted and or-ed.
use Prim.Native.Nat.{
  ℕ, zero, suc, ◌+◌, ◌*◌, ◌/◌, ◌%◌, ◌≤◌, ◌<◌, max, bit_or, digits, bit_or-bitwise,
}
use mathlib.Core.Path.{◌≡◌, refl}
use native.Mathlib.Omega.{arith}

-- The recursion on the digits of the first number, which the native operation stands for.
abbrev or_digits : ℕ → ℕ → ℕ → ℕ
or_digits n a b = digits (λ b. b) max n a b

-- Any count of digits that covers the first number gives the same result.
or_digits_enough : (n m a b : ℕ) → a ≤ n → a ≤ m → or_digits n a b ≡ or_digits m a b
or_digits_enough zero zero a b p q = refl
or_digits_enough zero (suc m) zero b p q = refl
or_digits_enough zero (suc m) (suc a) b p q = absurd (omega arith)
or_digits_enough (suc n) zero zero b p q = refl
or_digits_enough (suc n) zero (suc a) b p q = absurd (omega arith)
or_digits_enough (suc n) (suc m) zero b p q = refl
or_digits_enough (suc n) (suc m) (suc a) b p q =
    omega (arith, or_digits_enough n m (suc a / 2) (b / 2) (omega arith) (omega arith))

zero-bit_or : (b : ℕ) → bit_or 0 b ≡ b
zero-bit_or b = bit_or-bitwise 0 b

-- The lowest binary digit comes off both numbers.
bit_or_step : (a b : ℕ) → bit_or a b ≡ bit_or (a / 2) (b / 2) * 2 + max (a % 2) (b % 2)
bit_or_step zero b = omega (arith, zero-bit_or b, zero-bit_or (b / 2))
bit_or_step (suc a) b = omega (
  arith,
  bit_or-bitwise (suc a) b,
  bit_or-bitwise (suc a / 2) (b / 2),
  or_digits_enough a (suc a / 2) (suc a / 2) (b / 2) (omega arith) (omega arith),
)

bit_or_of_even : (c a b : ℕ) → c ≡ 2 * a → bit_or c b ≡ bit_or a (b / 2) * 2 + b % 2
bit_or_of_even c a b h =
    let half : c / 2 ≡ a = omega arith in
    let step = bit_or_step c b in
    let step' : bit_or c b ≡ bit_or a (b / 2) * 2 + max (c % 2) (b % 2) = rw half at step in
    omega arith

bit_or-zero_upto : (n a : ℕ) → a ≤ n → bit_or a 0 ≡ a
bit_or-zero_upto n zero h = zero-bit_or 0
bit_or-zero_upto zero (suc a) h = absurd (omega arith)
bit_or-zero_upto (suc n) (suc a) h =
    omega (arith, bit_or_step (suc a) 0, bit_or-zero_upto n (suc a / 2) (omega arith))

-- `(hi << 8) | lo` for a byte `lo`.
pub bit_or-shifted : (hi lo : ℕ) → lo < 256 → bit_or (hi * 256) lo ≡ hi * 256 + lo
bit_or-shifted hi lo h =
    let b₁ = bit_or_of_even (hi * 256) (hi * 128) lo (omega arith) in
    let b₂ = bit_or_of_even (hi * 128) (hi * 64) (lo / 2) (omega arith) in
    let b₃ = bit_or_of_even (hi * 64) (hi * 32) (lo / 2 / 2) (omega arith) in
    let b₄ = bit_or_of_even (hi * 32) (hi * 16) (lo / 2 / 2 / 2) (omega arith) in
    let b₅ = bit_or_of_even (hi * 16) (hi * 8) (lo / 2 / 2 / 2 / 2) (omega arith) in
    let b₆ = bit_or_of_even (hi * 8) (hi * 4) (lo / 2 / 2 / 2 / 2 / 2) (omega arith) in
    let b₇ = bit_or_of_even (hi * 4) (hi * 2) (lo / 2 / 2 / 2 / 2 / 2 / 2) (omega arith) in
    let b₈ = bit_or_of_even (hi * 2) hi (lo / 2 / 2 / 2 / 2 / 2 / 2 / 2) (omega arith) in
    let gone : lo / 2 / 2 / 2 / 2 / 2 / 2 / 2 / 2 ≡ 0 = omega arith in
    let b₈' : bit_or (hi * 2) (lo / 2 / 2 / 2 / 2 / 2 / 2 / 2)
        ≡ bit_or hi 0 * 2 + lo / 2 / 2 / 2 / 2 / 2 / 2 / 2 % 2 =
      rw gone at b₈ in
    omega (arith, bit_or-zero_upto hi hi (omega arith))
