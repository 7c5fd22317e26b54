-- ===== src/Base/Words.antt =====
-- `bit_or` and `bit_and` on numbers of any size, digit by digit.
use Prim.Native.Nat.{
  ℕ, zero, suc, ◌+◌, ◌-◌, ◌*◌, ◌/◌, ◌%◌, ◌^◌, ◌≤◌, ◌<◌, min, max, bit_and, bit_or, digits, bitwise,
  bit_and-bitwise, bit_or-bitwise,
}
use mathlib.Core.Path.{◌≡◌, ◌∙◌, sym, ap, refl}
use native.Mathlib.Nat.{mul_assoc}
use native.Mathlib.Omega.{arith}

-- An operation digit by digit. `z` is what it makes of a second number when the first has no more
-- digits, and `split` that this too is done digit by digit.
module _ (z : ℕ → ℕ) (f : ℕ → ℕ → ℕ) (split : (b : ℕ) → z b ≡ z (b / 2) * 2 + f 0 (b % 2)) where
  one_more : (n a b : ℕ) → a ≤ n → digits z f (suc n) a b ≡ digits z f n a b
  one_more zero zero b h = refl
  one_more (suc n) zero b h = refl
  one_more zero (suc a) b h = absurd (omega (arith, h))
  one_more (suc n) (suc a) b h =
      ap (λ d. d * 2 + f (suc a % 2) (b % 2)) (one_more n (suc a / 2) (b / 2) (omega (arith, h)))

  enough : (k a b : ℕ) → digits z f (a + k) a b ≡ bitwise z f a b
  enough zero a b = ap (λ n. digits z f n a b) (omega arith)
  enough (suc k) a b =
      let count : a + suc k ≡ suc (a + k) = omega arith in
      ap (λ n. digits z f n a b) count ∙ one_more (a + k) a b (omega arith) ∙ enough k a b

  bitwise_step : (a b : ℕ) → bitwise z f a b ≡ bitwise z f (a / 2) (b / 2) * 2 + f (a % 2) (b % 2)
  bitwise_step zero b = split b
  bitwise_step (suc a) b =
      let half = suc a / 2 in
      let count : a ≡ half + (a - half) = omega arith in
      ap (λ d. d * 2 + f (suc a % 2) (b % 2))
        (ap (λ n. digits z f n half (b / 2)) count ∙ enough (a - half) half (b / 2))

pub bit_or_step : (a b : ℕ) → bit_or a b ≡ bit_or (a / 2) (b / 2) * 2 + max (a % 2) (b % 2)
bit_or_step a b =
    let here = bit_or-bitwise a b in
    let halves = bit_or-bitwise (a / 2) (b / 2) in
    omega (arith, here, halves, bitwise_step (λ d. d) max (λ d. omega arith) a b)

pub bit_and_step : (a b : ℕ) → bit_and a b ≡ bit_and (a / 2) (b / 2) * 2 + min (a % 2) (b % 2)
bit_and_step a b =
    let here = bit_and-bitwise a b in
    let halves = bit_and-bitwise (a / 2) (b / 2) in
    omega (arith, here, halves, bitwise_step (λ d. 0) min (λ d. omega arith) a b)

-- Nothing is added by 0, and nothing of it is kept. The count is any that the number does not exceed.
with_none : (n a : ℕ) → a ≤ n → (bit_or a 0 ≡ a) × (bit_and a 0 ≡ 0)
with_none n zero h = (bit_or-bitwise 0 0, bit_and-bitwise 0 0)
with_none zero (suc a) h = absurd (omega (arith, h))
with_none (suc n) (suc a) h =
    let (or, and) = with_none n (suc a / 2) (omega (arith, h)) in
    (omega (arith, or, bit_or_step (suc a) 0), omega (arith, and, bit_and_step (suc a) 0))

bit_or-zero : (a : ℕ) → bit_or a 0 ≡ a
bit_or-zero a = (with_none a a (omega arith)).0

bit_and-zero : (a : ℕ) → bit_and a 0 ≡ 0
bit_and-zero a = (with_none a a (omega arith)).1

-- Below the digits of a multiple of a power of two there is room for a smaller number.
pub bit_or-below : (k a b : ℕ) → b < 2 ^ k → bit_or (a * 2 ^ k) b ≡ a * 2 ^ k + b
bit_or-below zero a b h =
    let none_left : b ≡ 0 = omega (arith, h) in
    let same : a * 1 ≡ a = omega arith in rw (none_left, same) (omega (arith, bit_or-zero a))
bit_or-below (suc k) a b h =
    let power : 2 ^ suc k ≡ 2 ^ k * 2 = omega arith in
    let double : a * 2 ^ suc k ≡ a * 2 ^ k * 2 =
      ap (λ p. a * p) power ∙ sym (mul_assoc a (2 ^ k) 2) in
    let half : a * 2 ^ suc k / 2 ≡ a * 2 ^ k = omega (arith, double) in
    let rest : bit_or (a * 2 ^ suc k / 2) (b / 2) ≡ a * 2 ^ k + b / 2 =
      rw half (bit_or-below k a (b / 2) (omega (arith, h))) in
    omega (arith, bit_or_step (a * 2 ^ suc k) b, rest, half, double)

-- `n` ones as a mask keep a number of `n` digits.
pub bit_and-ones : (n a : ℕ) → a < 2 ^ n → bit_and a (2 ^ n - 1) ≡ a
bit_and-ones zero a h = omega (arith, h, bit_and-zero a)
bit_and-ones (suc n) a h =
    let half : (2 ^ suc n - 1) / 2 ≡ 2 ^ n - 1 = omega arith in
    let rest : bit_and (a / 2) ((2 ^ suc n - 1) / 2) ≡ a / 2 =
      rw half (bit_and-ones n (a / 2) (omega (arith, h))) in
    let odd : (2 ^ suc n - 1) % 2 ≡ 1 = omega arith in
    omega (arith, bit_and_step a (2 ^ suc n - 1), rest, odd)

-- The bits 2 and 1 of a word of 32 bits.
pub and_four : (w : ℕ) → bit_and w 4 ≡ w / 4 % 2 * 4
and_four w = omega (
  arith,
  bit_and_step w 4,
  bit_and_step (w / 2) 2,
  bit_and_step (w / 2 / 2) 1,
  bit_and-zero (w / 2 / 2 / 2),
)

pub and_two : (w : ℕ) → bit_and w 2 ≡ w / 2 % 2 * 2
and_two w = omega (arith, bit_and_step w 2, bit_and_step (w / 2) 1, bit_and-zero (w / 2 / 2))

pub or_four : (w : ℕ) → bit_or w 4 ≡ w + (1 - w / 4 % 2) * 4
or_four w = omega (
  arith,
  bit_or_step w 4,
  bit_or_step (w / 2) 2,
  bit_or_step (w / 2 / 2) 1,
  bit_or-zero (w / 2 / 2 / 2),
)

pub or_two : (w : ℕ) → bit_or w 2 ≡ w + (1 - w / 2 % 2) * 2
or_two w = omega (arith, bit_or_step w 2, bit_or_step (w / 2) 1, bit_or-zero (w / 2 / 2))

pub and_not_four : (w : ℕ) → w < 2 ^ 32 → bit_and w (2 ^ 32 - 1 - 4) ≡ w - w / 4 % 2 * 4
and_not_four w h = omega (
  arith,
  h,
  bit_and_step w (2 ^ 32 - 1 - 4),
  bit_and_step (w / 2) 0x7FFFFFFD,
  bit_and_step (w / 2 / 2) 0x3FFFFFFE,
  bit_and-ones 29 (w / 2 / 2 / 2) (omega (arith, h)),
)

pub and_not_two : (w : ℕ) → w < 2 ^ 32 → bit_and w (2 ^ 32 - 1 - 2) ≡ w - w / 2 % 2 * 2
and_not_two w h = omega (
  arith,
  h,
  bit_and_step w (2 ^ 32 - 1 - 2),
  bit_and_step (w / 2) 0x7FFFFFFE,
  bit_and-ones 30 (w / 2 / 2) (omega (arith, h)),
)
