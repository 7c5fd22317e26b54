-- ===== src/Base/Digits.antt =====
-- Masks on words of any width: `|` of two parts with no bit in common is their sum.
use Prim.Native.Nat.{
  ℕ, zero, suc, ◌+◌, ◌*◌, ◌/◌, ◌%◌, ◌^◌, ◌≤◌, ◌<◌, max, bit_or, digits, bit_or-bitwise,
}
use mathlib.Core.Path.{◌≡◌, refl, ap}
use native.Mathlib.Nat.{pow-suc}
use native.Mathlib.Omega.{arith}

abbrev or_digits : ℕ → ℕ → ℕ → ℕ
or_digits n a b = digits (λ y. y) max n a b

-- More fuel than the first number has digits changes nothing.
or_digits_enough : (a b n : ℕ) → a ≤ n → (m : ℕ) → a ≤ m → or_digits n a b ≡ or_digits m a b
or_digits_enough zero b zero h zero k = refl
or_digits_enough zero b zero h (suc m) k = refl
or_digits_enough zero b (suc n) h zero k = refl
or_digits_enough zero b (suc n) h (suc m) k = refl
or_digits_enough (suc a) b zero h m k = absurd (omega arith)
or_digits_enough (suc a) b (suc n) h zero k = absurd (omega arith)
or_digits_enough (suc a) b (suc n) h (suc m) k =
    let ih = or_digits_enough (suc a / 2) (b / 2) n (omega arith) m (omega arith) in
    ap (λ d. d * 2 + max (suc a % 2) (b % 2)) ih

-- The lowest digit of `|`.
or_halves : (a b : ℕ) → bit_or a b ≡ bit_or (a / 2) (b / 2) * 2 + max (a % 2) (b % 2)
or_halves zero b = omega (arith, bit_or-bitwise 0 b, bit_or-bitwise 0 (b / 2))
or_halves (suc a) b = omega (
  arith,
  bit_or-bitwise (suc a) b,
  bit_or-bitwise (suc a / 2) (b / 2),
  or_digits_enough (suc a / 2) (b / 2) a (omega arith) (suc a / 2) (omega arith),
)

zero-bit_or : (b : ℕ) → bit_or 0 b ≡ b
zero-bit_or b = bit_or-bitwise 0 b

doubled : (b k : ℕ) → b * 2 ^ suc k ≡ 2 * (b * 2 ^ k)
doubled b k = omega (arith, ap (λ (t : ℕ). b * t) (pow-suc 2 k))

-- `a | (b << k)` where `a` has `k` bits at most.
pub bit_or-shift : (k a b : ℕ) → a < 2 ^ k → bit_or a (b * 2 ^ k) ≡ a + b * 2 ^ k
bit_or-shift zero zero b h = omega (arith, zero-bit_or (b * 2 ^ 0))
bit_or-shift zero (suc a) b h = absurd (omega arith)
bit_or-shift (suc k) a b h =
    ground (arith, or_halves a (b * 2 ^ suc k), doubled b k, pow-suc 2 k, bit_or-shift k (a / 2) b)
