-- ===== src/Kfuncs/Uint.antt =====
-- Kernel/src/kfuncs.c: what `str_to_uint` finds in a text.
use aos.Base.{ℕ, ◌+◌, ◌-◌, ◌*◌, ◌%◌, ◌^◌, ◌≡◌, refl, ap, ◌∙◌, arith}
use aos.Base.{Bool, false, not, List, [], ◌∷◌, Option, none, some, ◌==◌, if◌then◌else◌}
use aos.Base.{Bool-cases, inl, inr}
use aos.Kfuncs.Chars.{between}
use aos.Kfuncs.Numerals.{numeral}
use aos.Kfuncs.Strings.{hex_digit, hex_loop, decimal_loop, tail, is_hex, str_to_uint}

-- The hexadecimal digits that a text starts with, and whether another character follows them.
pub hex_digits : List ℕ → List ℕ
hex_digits [] = []
hex_digits (c ∷ s) = elim (hex_digit c) [ none ↦ [] | some d ↦ d ∷ hex_digits s ]

pub has_stray : List ℕ → Bool
has_stray [] = false
has_stray (c ∷ s) = elim (hex_digit c) [ none ↦ not (c == 0) | some d ↦ has_stray s ]

-- One character, whose digit is known.
hex_step :
    (n c : ℕ) (s : List ℕ) (o : Option ℕ)
    → ((m : ℕ)
        → hex_loop (m % 2 ^ 32) s
          ≡ numeral 16 m (hex_digits s) * (if has_stray s then 16 else 1) % 2 ^ 32)
    → elim o [
      | none ↦ if c == 0 then n % 2 ^ 32 else n % 2 ^ 32 * 16 % 2 ^ 32
      | some d ↦ hex_loop ((n % 2 ^ 32 * 16 % 2 ^ 32 + d) % 2 ^ 32) s
    ]
      ≡ numeral 16 n (elim o [ none ↦ [] | some d ↦ d ∷ hex_digits s ])
        * (if (elim o [ none ↦ not (c == 0) | some d ↦ has_stray s ]) then 16 else 1)
        % 2 ^ 32
unfolding numeral
hex_step n c s none ih = elim (Bool-cases (c == 0)) [
  | inl e ↦ rw e (omega arith)
  | inr e ↦ rw e (omega arith)
]
hex_step n c s (some d) ih =
    let same : (n % 2 ^ 32 * 16 % 2 ^ 32 + d) % 2 ^ 32 ≡ (n * 16 + d) % 2 ^ 32 = omega arith in
    ap (λ r. hex_loop r s) same ∙ ih (n * 16 + d)

hex_loop_lem :
    (n : ℕ) (s : List ℕ)
    → hex_loop (n % 2 ^ 32) s
      ≡ numeral 16 n (hex_digits s) * (if has_stray s then 16 else 1) % 2 ^ 32
unfolding hex_loop numeral hex_digits has_stray
hex_loop_lem n [] = omega arith
hex_loop_lem n (c ∷ s) = hex_step n c s (hex_digit c) (λ m. hex_loop_lem m s)

-- The decimal digits that a text starts with.
pub decimal_digits : List ℕ → List ℕ
decimal_digits [] = []
decimal_digits (c ∷ s) =
    let rest = decimal_digits s in if between b'0' b'9' c then (c - b'0') ∷ rest else []

decimal_loop_lem :
    (n : ℕ) (s : List ℕ) → decimal_loop (n % 2 ^ 32) s ≡ numeral 10 n (decimal_digits s) % 2 ^ 32
unfolding decimal_loop numeral decimal_digits
decimal_loop_lem n [] = refl
decimal_loop_lem n (c ∷ s) = elim (Bool-cases (between b'0' b'9' c)) [
  | inr e ↦ rw e refl
  | inl e ↦
      let same : (n % 2 ^ 32 * 10 + (c - b'0')) % 2 ^ 32 ≡ (n * 10 + (c - b'0')) % 2 ^ 32 =
        omega arith in
      rw (e, same) (decimal_loop_lem (n * 10 + (c - b'0')) s)
]

-- The number that a text writes, for `str_to_uint`: behind 0x its hexadecimal digits, times 16 if
-- another character follows them, else its decimal digits.
abbrev pub uint_value : List ℕ → ℕ
uint_value s =
    if is_hex s
    then numeral 16 0 (hex_digits (tail (tail s))) * (if has_stray (tail (tail s)) then 16 else 1)
    else numeral 10 0 (decimal_digits s)

-- `str_to_uint` gives the number that the digits at the start of a text write, modulo 2 ^ 32: in
-- base 16 behind 0x, else in base 10. But where another character follows hexadecimal digits, it
-- gives 16 times their number.
pub str_to_uint_lem : (s : List ℕ) → str_to_uint s ≡ uint_value s % 2 ^ 32
unfolding str_to_uint
str_to_uint_lem s = elim (Bool-cases (is_hex s)) [
  | inl e ↦ rw e (hex_loop_lem 0 (tail (tail s)))
  | inr e ↦ rw e (decimal_loop_lem 0 s)
]
