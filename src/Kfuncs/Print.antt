-- ===== src/Kfuncs/Print.antt =====
-- Kernel/src/kfuncs.c: `ku64_to_str` and `ki64_to_str`, which print into a buffer of the caller.
use aos.Base.{ℕ, zero, suc, ◌+◌, ◌-◌, ◌/◌, ◌%◌, ◌^◌, Bool, true, false, Option, none, some}
use aos.Base.{ltb, ◌==◌, if◌then◌else◌}
use aos.Kfuncs.Parse.{ℤ, pos, negsuc}

-- The memory from the buffer on.
abbrev pub Buffer : Type 0
Buffer = ℕ → ℕ

abbrev pub put : Buffer → ℕ → ℕ → Buffer
put buf i c j = if j == i then c else buf j

abbrev pub digit_to_char : Bool → ℕ → ℕ
digit_to_char caps digit =
    if ltb digit 10 then b'0' + digit else (if caps then b'A' else b'a') + digit - 10

-- The loop that writes the digits, lowest first, with `room` characters left: the offset behind
-- the last of them, or none where the buffer is full, and the memory.
unfoldable pub put_digits : (room val base : ℕ) → Bool → (p : ℕ) → Buffer → Option ℕ × Buffer
put_digits zero val base caps p buf = (none, buf)
put_digits (suc room) val base caps p buf =
    let buf' = put buf p (digit_to_char caps (val % base)) in
    let again = put_digits room (val / base) base caps (p + 1) buf' in
    if room == 0 then (none, buf') else if val / base == 0 then (some (p + 1), buf') else again

-- The loop that turns the characters between two offsets round, for at most `n` rounds.
unfoldable pub turn : (n start end : ℕ) → Buffer → Buffer
turn zero start end buf = buf
turn (suc n) start end buf =
    let rest = turn n (start + 1) (end - 1) (put (put buf start (buf end)) end (buf start)) in
    if ltb start end then rest else buf

-- What both functions do behind the digits: the byte 0, and the turn. At most as many rounds as
-- there are characters are needed.
abbrev pub finish : (max_size p : ℕ) → Buffer → Bool × Buffer
finish max_size p buf =
    let buf' = put buf p 0 in
    if (p + 1) == max_size then (false, buf') else (true, turn p 0 (p - 1) buf')

abbrev pub finish_digits : ℕ → Option ℕ × Buffer → Bool × Buffer
finish_digits max_size (none, buf) = (false, buf)
finish_digits max_size (some p, buf) = finish max_size p buf

-- Whether a text is returned, and the memory.
unfoldable pub u64_to_str : (v : ℕ) → Buffer → (max_size base : ℕ) → Bool → Bool × Buffer
u64_to_str v buf max_size base caps =
    if max_size == 0
    then (false, buf)
    else finish_digits max_size (put_digits max_size v base caps 0 buf)

-- The sign, behind the digits.
abbrev pub finish_neg : ℕ → Option ℕ × Buffer → Bool × Buffer
finish_neg max_size (none, buf) = (false, buf)
finish_neg max_size (some p, buf) =
    let buf' = put buf p b'-' in
    if (p + 1) == max_size then (false, buf') else finish max_size (p + 1) buf'

-- In base 10 a negative number gets a sign; in the others its word is printed.
unfoldable pub i64_to_str : (v : ℤ) → Buffer → (max_size base : ℕ) → Bool → Bool × Buffer
i64_to_str (pos n) buf max_size base caps =
    if max_size == 0
    then (false, buf)
    else finish_digits max_size (put_digits max_size n base caps 0 buf)
i64_to_str (negsuc n) buf max_size base caps =
    if max_size == 0
    then (false, buf)
    else if base == 10
    then finish_neg max_size (put_digits max_size (n + 1) base caps 0 buf)
    else finish_digits max_size (put_digits max_size (2 ^ 64 - (n + 1)) base caps 0 buf)
