-- ===== src/Kfuncs/Tests.antt =====
-- Kernel/src/kfuncs.c: numbers printed and read.
use aos.Base.{ℕ, ◌+◌, ◌^◌, ◌%◌, ◌≡◌, refl, arith, min, true, false, List, [], ◌∷◌, ◌↔◌, ◌*◌, ◌-◌}
use aos.Kfuncs.Chars.{is_float}
use aos.Kfuncs.Parse.{pos, negsuc, uint64_max, str_to_u64, str_to_i64, read_digits}
use aos.Kfuncs.Numerals.{
  numeral, digits_of, unsigned_numeral, nearest, str_to_u64_lem, str_to_i64_lem,
}
use aos.Kfuncs.Print.{Buffer, u64_to_str, i64_to_str, put_digits, turn}
use aos.Kfuncs.Strings.{strcmp, strncmp, strcpy, strncpy, str_to_uint, hex_loop}
use aos.Kfuncs.Compare.{take, strcmp_iff, strncmp-take}
use aos.Kfuncs.Copy.{Copied, strcpy_lem, strncpy_lem}
use aos.Kfuncs.Uint.{uint_value, str_to_uint_lem}
use aos.Kfuncs.Clock.{
  rtc_to_timestamp, add_months, years_before, months_before, rtc_to_timestamp_lem,
}
use aos.Kfuncs.ReadBack.{Printed, u64_to_str_lem, parse-print_u64}
use aos.Kfuncs.Signed.{parse-print_i64}

abbrev zeros : Buffer
zeros i = 0

-- The text "-2a".
abbrev minus_2a : List ℕ
minus_2a = b'-' ∷ b'2' ∷ b'a' ∷ []

float : is_float (b'+' ∷ b'1' ∷ b'.' ∷ b'5' ∷ []) ≡ true
float = refl

hex : str_to_i64 minus_2a 16 ≡ negsuc 41
unfolding str_to_i64 read_digits
hex = refl

-- One digit and the byte 0 are two characters, and a buffer of two is refused.
two_refused : (u64_to_str 7 zeros 2 10 false).0 ≡ false
unfolding u64_to_str put_digits
two_refused = refl

three_taken : (u64_to_str 7 zeros 3 10 false).0 ≡ true
unfolding u64_to_str put_digits turn
three_taken = refl

str_to_u64_lem_example : str_to_u64 minus_2a 16 ≡ min (unsigned_numeral 16 minus_2a) uint64_max
str_to_u64_lem_example = str_to_u64_lem minus_2a 16 (omega arith) (omega arith)

str_to_i64_lem_example :
    str_to_i64 minus_2a 16 ≡ nearest true (numeral 16 0 (digits_of 16 (b'2' ∷ b'a' ∷ [])))
str_to_i64_lem_example = str_to_i64_lem minus_2a 16 (omega arith) (omega arith)

u64_to_str_lem_example : Printed 10 1024 6 (u64_to_str 1024 zeros 6 10 false)
u64_to_str_lem_example =
    u64_to_str_lem 1024 zeros 6 10 false (omega arith) (omega arith) (omega arith)

parse-print_u64_example : aos.Kfuncs.ReadBack.Returns 16 48879 (u64_to_str 48879 zeros 70 16 true)
parse-print_u64_example =
    parse-print_u64 48879 zeros 70 16 true (omega arith) (omega arith) (omega arith) (omega arith)

parse-print_i64_example :
    aos.Kfuncs.Signed.Returns 10 (negsuc 41) (i64_to_str (negsuc 41) zeros 67 10 false)
parse-print_i64_example =
    parse-print_i64 (negsuc 41) zeros 67 10 false (omega arith) (omega arith) (omega arith, refl)
      (omega arith)

-- The text "0x12G" reads as 0x120.
abbrev stray_text : List ℕ
stray_text = b'0' ∷ b'x' ∷ b'1' ∷ b'2' ∷ b'G' ∷ []

stray : str_to_uint stray_text ≡ 0x120
unfolding str_to_uint hex_loop
stray = refl

str_to_uint_lem_example : str_to_uint stray_text ≡ uint_value stray_text % 2 ^ 32
str_to_uint_lem_example = str_to_uint_lem stray_text

abbrev ab : List ℕ
ab = b'a' ∷ b'b' ∷ []

strcmp_iff_example : (strcmp ab minus_2a ≡ pos 0) ↔ (ab ≡ minus_2a)
strcmp_iff_example =
    strcmp_iff ab minus_2a (omega arith, (omega arith, tt))
      (omega arith, (omega arith, (omega arith, tt)))

strncmp-take_example : strncmp ab minus_2a 1 ≡ strcmp (take 1 ab) (take 1 minus_2a)
strncmp-take_example = strncmp-take ab minus_2a 1

strncpy_lem_example : Copied zeros 4 ab 2 (strncpy zeros 4 ab 2)
strncpy_lem_example = strncpy_lem zeros 4 ab 2 (omega arith, (omega arith, tt))

strcpy_lem_example : Copied zeros 4 ab 3 (strcpy zeros 4 ab)
strcpy_lem_example = strcpy_lem zeros 4 ab (omega arith, (omega arith, tt))

-- The 29th of February 2000, at 12:00:00.
leap_day : rtc_to_timestamp 2000 2 29 12 0 0 ≡ 951825600
unfolding rtc_to_timestamp add_months
leap_day = refl

rtc_to_timestamp_lem_example :
    rtc_to_timestamp (1970 + 30) 2 29 12 0 0
    ≡ (years_before 30 + months_before (1970 + 30) (2 - 1) + (29 - 1)) * 86400
      + 12 * 3600
      + 0 * 60
      + 0
rtc_to_timestamp_lem_example =
    rtc_to_timestamp_lem 30 2 29 12 0 0 (omega arith) (omega arith) (omega arith) (omega arith)
      (omega arith)
