-- ===== src/Kfuncs/Strings.antt =====
-- Kernel/src/kfuncs.c: `strcmp`, `strncmp`, `strcpy`, `strncpy` and `str_to_uint`.
use aos.Base.{ℕ, zero, suc, ◌+◌, ◌-◌, ◌*◌, ◌%◌, ◌^◌, Bool, not, ◌&&◌, ◌||◌}
use aos.Base.{List, [], ◌∷◌, Option, none, some, leb, ◌==◌, if◌then◌else◌}
use aos.Kfuncs.Chars.{between}
use aos.Kfuncs.Parse.{ℤ, pos, neg}
use aos.Kfuncs.Print.{Buffer, put}

-- `*s`: the byte 0 stands behind a text.
abbrev pub head : List ℕ → ℕ
head [] = 0
head (c ∷ s) = c

abbrev pub tail : List ℕ → List ℕ
tail [] = []
tail (c ∷ s) = s

-- The difference of two bytes, as an `int`.
abbrev pub byte_diff : ℕ → ℕ → ℤ
byte_diff a b = if leb b a then pos (a - b) else neg (b - a)

unfoldable pub strcmp : List ℕ → List ℕ → ℤ
strcmp [] s2 = byte_diff 0 (head s2)
strcmp (c ∷ s1) s2 =
    let rest = strcmp s1 (tail s2) in
    if not (c == 0) && c == head s2 then rest else byte_diff c (head s2)

unfoldable pub strncmp : List ℕ → List ℕ → ℕ → ℤ
strncmp s1 s2 zero = pos 0
strncmp [] s2 (suc n) = byte_diff 0 (head s2)
strncmp (c ∷ s1) s2 (suc n) =
    let rest = strncmp s1 (tail s2) n in
    if not (c == 0) && c == head s2 then rest else byte_diff c (head s2)

-- `strcpy` to the offset `dest` of the memory, from a text that lies elsewhere.
unfoldable pub strcpy : Buffer → ℕ → List ℕ → Buffer
strcpy buf dest [] = put buf dest 0
strcpy buf dest (c ∷ src) =
    let rest = strcpy (put buf dest c) (dest + 1) src in if c == 0 then put buf dest 0 else rest

-- The loop `while (n--) *dest++ = 0`.
unfoldable pub fill : Buffer → ℕ → ℕ → Buffer
fill buf dest zero = buf
fill buf dest (suc n) = fill (put buf dest 0) (dest + 1) n

unfoldable pub strncpy : Buffer → ℕ → List ℕ → ℕ → Buffer
strncpy buf dest src zero = buf
strncpy buf dest [] (suc n) = fill buf dest (suc n)
strncpy buf dest (c ∷ src) (suc n) =
    let rest = strncpy (put buf dest c) (dest + 1) src n in
    if c == 0 then fill buf dest (suc n) else rest

-- The digit of a hexadecimal character.
abbrev pub hex_digit : ℕ → Option ℕ
hex_digit c =
    if between b'0' b'9' c
    then some (c - b'0')
    else if between b'a' b'f' c
    then some (c - b'a' + 10)
    else if between b'A' b'F' c
    then some (c - b'A' + 10)
    else none

-- The loop over hexadecimal digits: the result is shifted before the character is looked at.
unfoldable pub hex_loop : ℕ → List ℕ → ℕ
hex_loop result [] = result
hex_loop result (c ∷ str) =
    let shifted = result * 16 % 2 ^ 32 in
    elim (hex_digit c) [
      | none ↦ if c == 0 then result else shifted
      | some d ↦ hex_loop ((shifted + d) % 2 ^ 32) str
    ]

unfoldable pub decimal_loop : ℕ → List ℕ → ℕ
decimal_loop result [] = result
decimal_loop result (c ∷ str) =
    let rest = decimal_loop ((result * 10 + (c - b'0')) % 2 ^ 32) str in
    if between b'0' b'9' c then rest else result

abbrev pub is_hex : List ℕ → Bool
is_hex str = (head str == b'0') && (head (tail str) == b'x' || head (tail str) == b'X')

unfoldable pub str_to_uint : List ℕ → ℕ
str_to_uint str = if is_hex str then hex_loop 0 (tail (tail str)) else decimal_loop 0 str
