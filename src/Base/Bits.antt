-- ===== src/Base/Bits.antt =====
-- Facts about masks on small words, each a table that is checked by evaluation.
use Prim.Native.Nat.{ℕ, zero, suc, ◌+◌, ◌-◌, ◌*◌, ◌/◌, ◌%◌, ◌^◌, ◌<◌, bit_and, bit_or}
use mathlib.Core.Path.{◌≡◌, refl}
use mathlib.Core.Bool.{Bool, true, false, not, ◌&&◌, ◌||◌}
use native.Mathlib.Omega.{arith}
use aos.Base.Tests.{◌==◌, ltb}

module _ (test : ℕ → Bool) where
  holds_below : ℕ → Bool
  holds_below zero = true
  holds_below (suc n) = test n && holds_below n

  holds_below_sound : (n : ℕ) → holds_below n ≡ true → (i : ℕ) → i < n → test i ≡ true
  unfolding holds_below
  holds_below_sound zero e i h = absurd (omega arith)
  holds_below_sound (suc n) e i h = ground (arith, holds_below_sound n (ground arith) i)

-- Is bit `k` of `w` set? As C asks it: `w & (1 << k)` is not 0.
abbrev pub has_bit : ℕ → ℕ → Bool
has_bit w k = not (bit_and w (2 ^ k) == 0)

abbrev same : Bool → Bool → Bool
same true b = b
same false b = not b

same→eq : (a b : Bool) → same a b ≡ true → a ≡ b
same→eq a b h = ground arith

-- `w | (1 << k)` sets bit `k` alone and stays a byte.
or_test : ℕ → Bool
or_test x =
    let w = x / 64 in
    let k = x / 8 % 8 in
    let j = x % 8 in
    let v = bit_or w (2 ^ k) in ltb v 256 && same (has_bit v j) (j == k || has_bit w j)

or_table : holds_below or_test 16384 ≡ true
unfolding holds_below or_test
or_table = refl

-- `w & ~(1 << k)` clears bit `k` alone; the complement is taken on 64 bits.
and_test : ℕ → Bool
and_test x =
    let w = x / 64 in
    let k = x / 8 % 8 in
    let j = x % 8 in
    let v = bit_and w (2 ^ 64 - 1 - 2 ^ k) in
    ltb v 256 && same (has_bit v j) (not (j == k) && has_bit w j)

and_table : holds_below and_test 16384 ≡ true
unfolding holds_below and_test
and_table = refl

-- A word, a bit that is changed and a bit that is read, as one index into the tables.
abbrev code : ℕ → ℕ → ℕ → ℕ
code w k j = w * 64 + k * 8 + j

module _ (w k j : ℕ) (hw : w < 256) (hk : k < 8) (hj : j < 8) where
  decode : (code w k j / 64 ≡ w) × (code w k j / 8 % 8 ≡ k) × (code w k j % 8 ≡ j)
  decode = omega arith

  or_entry : or_test (code w k j) ≡ true
  or_entry = holds_below_sound or_test 16384 or_table (code w k j) (omega arith)

  and_entry : and_test (code w k j) ≡ true
  and_entry = holds_below_sound and_test 16384 and_table (code w k j) (omega arith)

  pub has_bit-or :
      (bit_or w (2 ^ k) < 256) × (has_bit (bit_or w (2 ^ k)) j ≡ (j == k || has_bit w j))
  unfolding or_test
  has_bit-or = ground (arith, or_entry, decode)

  pub has_bit-and :
      (bit_and w (2 ^ 64 - 1 - 2 ^ k) < 256)
      × (has_bit (bit_and w (2 ^ 64 - 1 - 2 ^ k)) j ≡ (not (j == k) && has_bit w j))
  unfolding and_test
  has_bit-and = ground (arith, and_entry, decode)

-- The three masks of a package length's first byte.
masks_test : ℕ → Bool
masks_test b =
    bit_and b 0x3F == b % 64 && (bit_and (b / 16) 3 == b / 16 % 4 && bit_and b 0xF == b % 16)

masks_table : holds_below masks_test 256 ≡ true
unfolding holds_below masks_test
masks_table = refl

pub low_masks :
    (b : ℕ)
    → b < 256
    → (bit_and b 0x3F ≡ b % 64) × (bit_and (b / 16) 3 ≡ b / 16 % 4) × (bit_and b 0xF ≡ b % 16)
unfolding masks_test
low_masks b h = ground (arith, holds_below_sound masks_test 256 masks_table b h)
