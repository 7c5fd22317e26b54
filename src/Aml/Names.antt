-- ===== src/Aml/Names.antt =====
-- Kernel/drivers/aml/aml_parser.c: names, from `aml_parse_nameseg` to `aml_parse_namepath`.
use aos.Base.{ℕ, zero, suc, ◌+◌, not, [], ◌∷◌, ltb, ◌==◌, if◌then◌else◌}
use aos.Aml.{Ptr, name_seg, dual_name_seg, multi_name_seg, null_name}
use aos.Aml.{M, ◌>>=◌, ◌>>◌, pure, fail}
use aos.Aml.Stream.{peek, next, is_lead_name_char, is_name_char}
use aos.Aml.Pool.{new_node}
use aos.Aml.Consts.{expect, get_ptr, bytes_left}

abbrev pub dual_name_prefix : ℕ
dual_name_prefix = 0x2E

abbrev pub multi_name_prefix : ℕ
multi_name_prefix = 0x2F

-- `if (!v || !aml_is_lead_name_char(c)) goto error`, and its like for the later characters.
unfoldable pub lead_char : M ℕ
unfolding next
lead_char = do c ← next; if is_lead_name_char c then pure c else fail

unfoldable pub name_char : M ℕ
unfolding next
name_char = do c ← next; if is_name_char c then pure c else fail

unfoldable pub parse_nameseg : M Ptr
unfolding lead_char name_char
parse_nameseg = do
  c0 ← lead_char
  c1 ← name_char
  c2 ← name_char
  c3 ← name_char
  new_node (name_seg (c0 ∷ c1 ∷ c2 ∷ c3 ∷ []))

unfoldable pub parse_dual_namepath : M Ptr
unfolding lead_char name_char expect
parse_dual_namepath = do
  expect dual_name_prefix
  c0 ← lead_char
  c1 ← name_char
  c2 ← name_char
  c3 ← name_char
  c4 ← lead_char
  c5 ← name_char
  c6 ← name_char
  c7 ← name_char
  new_node (dual_name_seg (c0 ∷ c1 ∷ c2 ∷ c3 ∷ c4 ∷ c5 ∷ c6 ∷ c7 ∷ []))

-- The loop of `aml_parse_multi_namepath`, with `n` bytes left before `end`. It also ends, with no
-- failure, where the bytes run out before the segments are complete.
unfoldable pub segment_bytes :
    ℕ → (segments segments_consumed bytes_per_seg_consumed : ℕ) → M (Unit {0})
unfolding next
segment_bytes zero segments consumed bytes = pure tt
segment_bytes (suc n) segments consumed bytes = do
  c ← next
  let more = segment_bytes n segments consumed (bytes + 1)
  let next_segment = segment_bytes n segments (consumed + 1) 0
  if not (if bytes == 0 then is_lead_name_char c else is_name_char c)
      then fail
      else if not ((bytes + 1) == 4)
      then more
      else if (consumed + 1) == segments
      then pure tt
      else next_segment

unfoldable pub parse_multi_namepath : M Ptr
unfolding next expect
parse_multi_namepath = do
  expect multi_name_prefix
  segments ← next
  if ltb segments 1 then fail else (do
    start ← get_ptr
    left ← bytes_left
    segment_bytes left segments 0 0
    new_node (multi_name_seg segments start))

unfoldable pub parse_null_namepath : M Ptr
unfolding expect
parse_null_namepath = do expect 0; new_node null_name

unfoldable pub parse_namepath : M Ptr
parse_namepath = do
  enc ← peek
  if enc == dual_name_prefix
      then parse_dual_namepath
      else if enc == multi_name_prefix
      then parse_multi_namepath
      else if enc == 0
      then parse_null_namepath
      else parse_nameseg
