-- ===== src/Kfuncs/Parse.antt =====
-- Kernel/src/kfuncs.c: `kstr_to_u64` and `kstr_to_i64`.
use aos.Base.{ℕ, zero, suc, ◌+◌, ◌-◌, ◌*◌, ◌/◌, ◌^◌, Bool, true, false, ◌||◌}
use aos.Base.{List, [], ◌∷◌, Option, none, some, ltb, leb, ◌==◌, if◌then◌else◌}
use aos.Kfuncs.Chars.{char_to_digit}

-- An `int64_t`: `negsuc n` is - (n + 1).
pub data ℤ : Type 0 where
  pos negsuc : ℕ → ℤ

abbrev pub neg : ℕ → ℤ
neg zero = pos 0
neg (suc n) = negsuc n

abbrev pub uint64_max : ℕ
uint64_max = 2 ^ 64 - 1

abbrev pub int64_max : ℕ
int64_max = 2 ^ 63 - 1

abbrev pub int64_min : ℤ
int64_min = negsuc int64_max

-- The loop of both functions: `none` is the return on overflow.
unfoldable pub read_digits : (base result : ℕ) → List ℕ → Option ℕ
read_digits base result [] = some result
read_digits base result (c ∷ str) = elim (char_to_digit c) [
  | none ↦ some result
  | some digit ↦
      let rest = read_digits base (result * base + digit) str in
      if leb base digit
      then some result
      else if ltb ((uint64_max - digit) / base) result
      then none
      else rest
]

-- `if (*str == c) str++`, with whether it did.
abbrev pub skip : ℕ → List ℕ → Bool × List ℕ
skip sign [] = (false, [])
skip sign (c ∷ str) = if c == sign then (true, str) else (false, c ∷ str)

abbrev pub bad_base : ℕ → Bool
bad_base base = ltb base 2 || ltb 36 base

abbrev pub or_max : Option ℕ → ℕ
or_max none = uint64_max
or_max (some n) = n

unfoldable pub str_to_u64 : List ℕ → ℕ → ℕ
str_to_u64 str base = if bad_base base then 0 else or_max (read_digits base 0 (skip b'+' str).1)

-- The end of `kstr_to_i64`. Where the sign is minus and the number 2 ^ 63, the negation wraps.
abbrev pub to_i64 : Bool → Option ℕ → ℤ
to_i64 true none = int64_min
to_i64 false none = pos int64_max
to_i64 true (some n) = if ltb (int64_max + 1) n then int64_min else neg n
to_i64 false (some n) = if ltb int64_max n then pos int64_max else pos n

-- `if ('-') … else if ('+') …`.
abbrev pub skip_sign : List ℕ → Bool × List ℕ
skip_sign str = if (skip b'-' str).0 then skip b'-' str else (false, (skip b'+' str).1)

unfoldable pub str_to_i64 : List ℕ → ℕ → ℤ
str_to_i64 str base =
    if bad_base base then pos 0 else to_i64 (skip_sign str).0 (read_digits base 0 (skip_sign str).1)
