-- ===== src/Kfuncs/Chars.antt =====
-- Kernel/src/kfuncs.c: characters, from `kc_is_alpha` to `kchar_to_digit`. A text is the list of
-- its bytes, which ends where the byte 0 stands in memory.
use aos.Base.{ℕ, ◌+◌, ◌-◌, Bool, true, false, not, ◌&&◌, ◌||◌, List, [], ◌∷◌, Option, none, some}
use aos.Base.{leb, ◌==◌, if◌then◌else◌, bit_or}

abbrev pub between : ℕ → ℕ → ℕ → Bool
between lo hi c = leb lo c && leb c hi

abbrev pub is_alpha_char : ℕ → Bool
is_alpha_char c = between b'a' b'z' (bit_or c 0x20)

abbrev pub is_digit_char : ℕ → Bool
is_digit_char c = between b'0' b'9' c

abbrev pub is_alphanum_char : ℕ → Bool
is_alphanum_char c = is_alpha_char c || is_digit_char c

abbrev pub is_printable_char : ℕ → Bool
is_printable_char c = between 32 126 c

-- The loop of `kis_alpha`, `kis_digit`, `kis_alphanum` and `kis_printable`.
abbrev pub each : (ℕ → Bool) → List ℕ → Bool
each test [] = true
each test (c ∷ s) =
    let rest = each test s in if c == 0 then true else if not (test c) then false else rest

abbrev pub is_alpha : List ℕ → Bool
is_alpha = each is_alpha_char

abbrev pub is_digit : List ℕ → Bool
is_digit = each is_digit_char

abbrev pub is_alphanum : List ℕ → Bool
is_alphanum = each is_alphanum_char

abbrev pub is_printable : List ℕ → Bool
is_printable = each is_printable_char

-- The loop of `kis_float`.
abbrev pub float_chars : (has_digit has_dot : Bool) → List ℕ → Bool
float_chars has_digit has_dot [] = has_digit
float_chars has_digit has_dot (c ∷ s) =
    let digit = float_chars true has_dot s in
    let dot = float_chars has_digit true s in
    if c == 0
    then has_digit
    else if is_digit_char c
    then digit
    else if (c == b'.') && not has_dot
    then dot
    else false

abbrev pub is_float : List ℕ → Bool
is_float [] = false
is_float (c ∷ s) =
    let signed = float_chars false false s in
    let plain = float_chars false false (c ∷ s) in
    if c == 0 then false else if (c == b'+') || (c == b'-') then signed else plain

-- `none` is the code's -1.
abbrev pub char_to_digit : ℕ → Option ℕ
char_to_digit c =
    if between b'0' b'9' c
    then some (c - b'0')
    else if between b'a' b'z' c
    then some (c - b'a' + 10)
    else if between b'A' b'Z' c
    then some (c - b'A' + 10)
    else none
