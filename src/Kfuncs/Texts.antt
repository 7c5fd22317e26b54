-- ===== src/Kfuncs/Texts.antt =====
-- Kernel/src/kfuncs.c: texts of digits in memory, as the printing functions leave them and the
-- reading functions find them.
use aos.Base.{ℕ, zero, suc, ◌+◌, ◌-◌, ◌*◌, ◌/◌, ◌%◌, ◌^◌, ◌<◌, ◌≤◌, ◌≡◌, refl, ap, ◌∙◌, arith}
use aos.Base.{Bool, true, false, List, [], ◌∷◌, some, ltb, ◌==◌}
use aos.Base.{◌↔◌}
use mathlib.Core.Path.{subst}
use native.Mathlib.Nat.{div-lt_iff_lt-mul, mod-lt, mul-le-mul_left, div-add-mod'}
use aos.Kfuncs.Chars.{char_to_digit}
use aos.Kfuncs.Parse.{skip}
use aos.Kfuncs.Numerals.{digits_of, numeral}
use aos.Kfuncs.Print.{Buffer, put, digit_to_char, turn}
use aos.Kfuncs.Reverse.{turn_lem}
use aos.Kfuncs.Printing.{shifted, shifted-suc}

-- The `k` characters from an offset on.
abbrev pub text : Buffer → ℕ → ℕ → List ℕ
text buf a zero = []
text buf a (suc k) = buf a ∷ text buf (a + 1) k

digit-char : (caps : Bool) (d : ℕ) → d < 36 → char_to_digit (digit_to_char caps d) ≡ some d
digit-char true d h = ground arith
digit-char false d h = ground arith

-- The characters from `a` on are the digits of `v`, highest first.
unfoldable pub IsNumeral : ℕ → Bool → ℕ → Buffer → ℕ → ℕ → Type 0
IsNumeral base caps v buf a k =
    (j : ℕ) → j < k → buf (a + (k - 1 - j)) ≡ digit_to_char caps (shifted base j v % base)

read_digit :
    (base n c d : ℕ) (s : List ℕ)
    → char_to_digit c ≡ some d
    → ltb d base ≡ true
    → numeral base n (digits_of base (c ∷ s)) ≡ numeral base (n * base + d) (digits_of base s)
unfolding numeral digits_of
read_digit base n c d s e fits = rw (digits_of, e, fits) refl

module _ (base : ℕ) (lo : 1 < base) (hi : base ≤ 36) (caps : Bool) (v : ℕ) (buf : Buffer) where
  numeral-text :
      (a k : ℕ)
      → IsNumeral base caps v buf a k
      → numeral base (shifted base k v) (digits_of base (text buf a k)) ≡ v
  unfolding numeral digits_of IsNumeral shifted
  numeral-text a zero h = refl
  numeral-text a (suc k) h =
      let first : buf a ≡ digit_to_char caps (shifted base k v % base) =
        ap buf (omega arith) ∙ h k (omega arith) in
      let low : shifted base k v % base < base = mod-lt (shifted base k v) (omega arith) in
      let in_base : ltb (shifted base k v % base) base ≡ true = ground arith in
      let joined : shifted base (suc k) v * base + shifted base k v % base ≡ shifted base k v =
        rw (shifted-suc base k v) (div-add-mod' (shifted base k v) base) in
      rw (first) (
        read_digit base (shifted base (suc k) v) (digit_to_char caps (shifted base k v % base))
          (shifted base k v % base) (text buf (a + 1) k)
          (digit-char caps (shifted base k v % base) (omega arith)) in_base
        ∙ rw joined (numeral-text (a + 1) k (λ j l. ap buf (omega arith) ∙ h j (omega arith))))

-- The digits that the loop left, behind the byte that was put there and the turn.
pub turned :
    (base : ℕ) (caps : Bool) (v q : ℕ) (buf : Buffer)
    → 0 < q
    → ((i : ℕ) → i < q → buf i ≡ digit_to_char caps (shifted base i v % base))
    → IsNumeral base caps v (turn q 0 (q - 1) (put buf q 0)) 0 q
unfolding IsNumeral
turned base caps v q buf pos_q h j l =
    let same : 0 + (q - 1) - (0 + (q - 1 - j)) ≡ j = omega arith in
    turn_lem q 0 (q - 1) (put buf q 0) (0 + (q - 1 - j)) (omega arith) (omega arith) (omega arith)
    ∙ rw same (ground (arith, h j l))

digit_to_char-high : (caps : Bool) (d : ℕ) → 47 < digit_to_char caps d
digit_to_char-high true d = ground arith
digit_to_char-high false d = ground arith

-- A text that starts with a digit has no sign.
pub no_sign :
    (base : ℕ) (caps : Bool) (v : ℕ) (buf : Buffer) (a k sign : ℕ)
    → sign < 48
    → IsNumeral base caps v buf a k
    → skip sign (text buf a k) ≡ (false, text buf a k)
unfolding IsNumeral
no_sign base caps v buf a zero sign low h = refl
no_sign base caps v buf a (suc k) sign low h =
    let first : buf a ≡ digit_to_char caps (shifted base k v % base) =
      ap buf (omega arith) ∙ h k (omega arith) in
    let high = digit_to_char-high caps (shifted base k v % base) in
    let other : (buf a == sign) ≡ false = rw first (ground (arith, high)) in rw other refl

pub whole-text :
    (base : ℕ) (caps : Bool) (v : ℕ) (buf : Buffer) (a k : ℕ)
    → 1 < base
    → base ≤ 36
    → shifted base k v ≡ 0
    → IsNumeral base caps v buf a k
    → numeral base 0 (digits_of base (text buf a k)) ≡ v
whole-text base caps v buf a k lo hi all h =
    subst (λ n. numeral base n (digits_of base (text buf a k)) ≡ v) all
      (numeral-text base lo hi caps v buf a k h)

-- A number below 2 ^ n has at most n digits.
pub shifted-small : (n base v : ℕ) → 1 < base → v < 2 ^ n → shifted base n v ≡ 0
unfolding shifted
shifted-small zero base v lo h = omega arith
shifted-small (suc n) base v lo h = shifted-small n base (v / base) lo (
    fewer.1
      let more : 2 ^ n * 2 ≤ 2 ^ n * base = mul-le-mul_left (2 ^ n) lo in omega (arith, h, more))
  where
    fewer : (v / base < 2 ^ n) ↔ (v < 2 ^ n * base)
    fewer = div-lt_iff_lt-mul (omega arith)
