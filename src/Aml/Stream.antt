-- ===== src/Aml/Stream.antt =====
-- Kernel/drivers/aml/aml_parser.c: reading bytes, and the numbers made of them.
pub mod Numbers
pub mod Pkglen
use aos.Base.{ℕ, zero, suc, ◌+◌, ◌*◌, ◌/◌, ◌%◌, ◌^◌, Bool, ◌||◌, ◌&&◌, not, Option, none, some}
use aos.Base.{bit_and, bit_or, ltb, leb, ◌==◌, if◌then◌else◌, done}
use aos.Aml.{Parser, M, ◌>>=◌, pure, fail}

-- `aml_peek`: its bound lets it read the byte at `end` itself.
unfoldable pub peek : M ℕ
peek s = if ltb s.stop s.ptr then done (none, s) else done (some (s.mem s.ptr), s)

-- `aml_next`.
unfoldable pub next : M ℕ
next s =
    if leb s.stop s.ptr
    then done (none, s)
    else done (some (s.mem s.ptr), record s { ptr = s.ptr + 1 })

-- `aml_eof`.
abbrev pub eof : Parser → Bool
eof s = leb s.stop s.ptr

abbrev pub is_lead_name_char : ℕ → Bool
is_lead_name_char c = (leb b'A' c && leb c b'Z') || c == b'_'

abbrev pub is_name_char : ℕ → Bool
is_name_char c = is_lead_name_char c || (leb b'0' c && leb c b'9')

-- One byte of a little-endian number: `value |= (T)aml_next(s, &v) << shift`, in a type of
-- `width` bits.
unfoldable pub or_next : ℕ → ℕ → ℕ → M ℕ
or_next width shift value = do b ← next; pure (bit_or value (b * 2 ^ shift % 2 ^ width))

-- The loop of `aml_parse_pkglen`, with `n` bytes to go from the `i`-th on.
unfoldable pub pkglen_bytes : ℕ → ℕ → ℕ → M ℕ
pkglen_bytes zero i length = pure length
pkglen_bytes (suc n) i length = do
  length' ← or_next 32 (4 + 8 * i) length
  pkglen_bytes n (i + 1) length'

unfoldable pub parse_pkglen : M ℕ
parse_pkglen = do
  lead ← next
  let bytes_follow = lead / 64
  if bytes_follow == 0
      then pure (bit_and lead 0x3F)
      else if ltb 3 bytes_follow
      then fail
      else if not (bit_and (lead / 16) 3 == 0)
      then fail
      else pkglen_bytes bytes_follow 0 (bit_and lead 0xF)

unfoldable pub parse_byte : M ℕ
parse_byte = next

unfoldable pub parse_word : M ℕ
parse_word = do v0 ← next; or_next 16 8 v0

unfoldable pub parse_dword : M ℕ
parse_dword = do v0 ← next; v1 ← or_next 32 8 v0; v2 ← or_next 32 16 v1; or_next 32 24 v2

unfoldable pub parse_qword : M ℕ
parse_qword = do
  v0 ← next
  v1 ← or_next 64 8 v0
  v2 ← or_next 64 16 v1
  v3 ← or_next 64 24 v2
  v4 ← or_next 64 32 v3
  v5 ← or_next 64 40 v4
  v6 ← or_next 64 48 v5
  or_next 64 56 v6
