-- ===== src/Kfuncs/Numerals.antt =====
-- Kernel/src/kfuncs.c: the number that `kstr_to_u64` and `kstr_to_i64` find in a text.
use aos.Base.{ℕ, zero, suc, ◌+◌, ◌-◌, ◌*◌, ◌/◌, ◌<◌, ◌≤◌, ◌≡◌, refl, ap, arith, min}
use aos.Base.{Bool, true, false, List, [], ◌∷◌, Option, none, some, ltb, leb}
use aos.Base.{if◌then◌else◌, Bool-cases, inl, inr, ◌↔◌}
use native.Mathlib.Nat.{div-lt_iff_lt-mul}
use aos.Kfuncs.Chars.{char_to_digit}
use aos.Kfuncs.Parse.{ℤ, pos, neg, uint64_max, int64_max, read_digits, skip}
use aos.Kfuncs.Parse.{bad_base, or_max, str_to_u64, to_i64, skip_sign, str_to_i64}

-- The digits in this base that a text starts with.
unfoldable pub digits_of : ℕ → List ℕ → List ℕ
digits_of base [] = []
digits_of base (c ∷ s) = elim (char_to_digit c) [
  | none ↦ []
  | some d ↦ let rest = digits_of base s in if ltb d base then d ∷ rest else []
]

-- The number that they write after `n`, which no width bounds.
unfoldable pub numeral : ℕ → ℕ → List ℕ → ℕ
numeral base n [] = n
numeral base n (d ∷ ds) = numeral base (n * base + d) ds

numeral-grows : (base n : ℕ) (ds : List ℕ) → 0 < base → n ≤ numeral base n ds
unfolding numeral
numeral-grows base n [] h = omega arith
numeral-grows zero n (d ∷ ds) h = omega arith
numeral-grows (suc b) n (d ∷ ds) h = omega (arith, numeral-grows (suc b) (n * suc b + d) ds h)

-- The overflow test is exact.
room_lem :
    (base digit n : ℕ)
    → 0 < base
    → digit ≤ uint64_max
    → ltb ((uint64_max - digit) / base) n ≡ ltb uint64_max (n * base + digit)
room_lem base digit n some_base small =
    let exact : ((uint64_max - digit) / base < n) ↔ (uint64_max - digit < n * base) =
      div-lt_iff_lt-mul some_base in
    ground (arith, exact.0, exact.1)

-- What `read_digits` gives for the number `n` that a text writes.
abbrev pub Counts : ℕ → Option ℕ → Type 0
Counts n none = uint64_max < n
Counts n (some m) = (m ≡ n) × (n ≤ uint64_max)

-- One character, whose digit is known.
Counts-digit :
    (base : ℕ)
    → 1 < base
    → base ≤ 36
    → (n : ℕ) (s : List ℕ) → n ≤ uint64_max
    → ((m : ℕ) → m ≤ uint64_max → Counts (numeral base m (digits_of base s)) (read_digits base m s))
    → (o : Option ℕ)
    → Counts
        (numeral base n
          (elim o [ none ↦ [] | some d ↦ if ltb d base then d ∷ digits_of base s else [] ]))
        (elim o [
          | none ↦ some n
          | some d ↦
              if leb base d
              then some n
              else if ltb ((uint64_max - d) / base) n
              then none
              else read_digits base (n * base + d) s
        ])
unfolding numeral
Counts-digit base lo hi n s small ih none = (refl, small)
Counts-digit base lo hi n s small ih (some d) = elim (Bool-cases (leb base d)) [
  | inl big ↦ let over : ltb d base ≡ false = ground arith in rw (big, over) (refl, small)
  | inr fits ↦
      let under : ltb d base ≡ true = ground arith in
      let digit : d ≤ uint64_max = ground arith in
      let later = numeral-grows base (n * base + d) (digits_of base s) (omega arith) in
      rw (fits, under, room_lem base d n (omega arith) digit)
        (elim (Bool-cases (ltb uint64_max (n * base + d))) [
          | inl e ↦ rw e (ground (arith, later))
          | inr e ↦ rw e (ih (n * base + d) (ground arith))
        ])
]

pub read_digits-Counts :
    (base : ℕ)
    → 1 < base
    → base ≤ 36
    → (n : ℕ) (s : List ℕ) → n ≤ uint64_max
    → Counts (numeral base n (digits_of base s)) (read_digits base n s)
unfolding read_digits numeral digits_of
read_digits-Counts base lo hi n [] small = (refl, small)
read_digits-Counts base lo hi n (c ∷ s) small =
    Counts-digit base lo hi n s small (λ m. read_digits-Counts base lo hi m s) (char_to_digit c)

-- The text behind a plus sign, and the number that it writes.
abbrev pub unsigned_numeral : ℕ → List ℕ → ℕ
unsigned_numeral base s = numeral base 0 (digits_of base (skip b'+' s).1)

or_max-Counts : (n : ℕ) (o : Option ℕ) → Counts n o → or_max o ≡ min n uint64_max
or_max-Counts n none h = ground arith
or_max-Counts n (some m) h = ground (arith, h.0, h.1)

-- In a base from 2 to 36 `kstr_to_u64` gives the number that the digits at the start of the text
-- write, behind a plus sign if there is one, or the greatest number of 64 bits where that is less.
pub str_to_u64_lem :
    (s : List ℕ) (base : ℕ)
    → 1 < base
    → base ≤ 36
    → str_to_u64 s base ≡ min (unsigned_numeral base s) uint64_max
unfolding str_to_u64
str_to_u64_lem s base lo hi =
    let good : bad_base base ≡ false = ground arith in
    rw good (
      or_max-Counts _ (read_digits base 0 (skip b'+' s).1)
        (read_digits-Counts base lo hi 0 (skip b'+' s).1 (omega arith)))

-- The number of `int64_t` nearest to the number `n` with this sign.
abbrev pub nearest : Bool → ℕ → ℤ
nearest true n = neg (min n (int64_max + 1))
nearest false n = pos (min n int64_max)

to_i64-Counts : (n : ℕ) (sign : Bool) (o : Option ℕ) → Counts n o → to_i64 sign o ≡ nearest sign n
to_i64-Counts n true none h =
    let least : int64_max + 1 ≡ min n (int64_max + 1) = ground arith in ap neg least
to_i64-Counts n false none h = ap pos (ground arith)
to_i64-Counts n true (some m) h = elim (Bool-cases (ltb (int64_max + 1) m)) [
  | inl e ↦
      let least : int64_max + 1 ≡ min n (int64_max + 1) = ground (arith, h.0) in rw e (ap neg least)
  | inr e ↦ rw e (ap neg (ground (arith, h.0)))
]
to_i64-Counts n false (some m) h = elim (Bool-cases (ltb int64_max m)) [
  | inl e ↦ rw e (ap pos (ground (arith, h.0)))
  | inr e ↦ rw e (ap pos (ground (arith, h.0)))
]

-- In a base from 2 to 36 `kstr_to_i64` gives the number that the text writes with its sign and the
-- digits behind it, or the `int64_t` nearest to it.
pub str_to_i64_lem :
    (s : List ℕ) (base : ℕ)
    → 1 < base
    → base ≤ 36
    → str_to_i64 s base ≡ nearest (skip_sign s).0 (numeral base 0 (digits_of base (skip_sign s).1))
unfolding str_to_i64
str_to_i64_lem s base lo hi =
    let good : bad_base base ≡ false = ground arith in
    rw good (
      to_i64-Counts _ (skip_sign s).0 (read_digits base 0 (skip_sign s).1)
        (read_digits-Counts base lo hi 0 (skip_sign s).1 (omega arith)))
