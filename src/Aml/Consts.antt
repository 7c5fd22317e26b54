-- ===== src/Aml/Consts.antt =====
-- Kernel/drivers/aml/aml_parser.c: constants, from `aml_parse_zero_const` to
-- `aml_parse_string_const`, and `aml_parse_data_object`, which chooses among them.
use aos.Base.{ℕ, zero, suc, ◌-◌, ◌^◌, ◌||◌, ltb, ◌==◌, if◌then◌else◌, done, some}
use aos.Aml.{Ptr, integer, string, M, ◌>>=◌, ◌>>◌, pure, fail}
use aos.Aml.Stream.{peek, next, parse_byte, parse_word, parse_dword, parse_qword}
use aos.Aml.Pool.{new_node}

-- The opcodes of `enum aml_single_bytes_opcodes` that a data object starts with.
abbrev pub zero_op : ℕ
zero_op = 0x00

abbrev pub one_op : ℕ
one_op = 0x01

abbrev pub byte_prefix : ℕ
byte_prefix = 0x0A

abbrev pub word_prefix : ℕ
word_prefix = 0x0B

abbrev pub dword_prefix : ℕ
dword_prefix = 0x0C

abbrev pub string_prefix : ℕ
string_prefix = 0x0D

abbrev pub qword_prefix : ℕ
qword_prefix = 0x0E

abbrev pub ones_op : ℕ
ones_op = 0xFF

-- `if (aml_next(s, &prefix_valid) != op || !prefix_valid) goto error`.
unfoldable pub expect : ℕ → M (Unit {0})
unfolding next
expect op = do b ← next; if b == op then pure tt else fail

-- The three constants without a byte behind the opcode.
unfoldable pub parse_zero_const : M Ptr
parse_zero_const = do expect zero_op; new_node (integer 0 1)

unfoldable pub parse_one_const : M Ptr
parse_one_const = do expect one_op; new_node (integer 1 1)

unfoldable pub parse_ones_const : M Ptr
parse_ones_const = do expect ones_op; new_node (integer (2 ^ 64 - 1) 1)

unfoldable pub parse_byte_const : M Ptr
parse_byte_const = do expect byte_prefix; value ← parse_byte; new_node (integer value 1)

unfoldable pub parse_word_const : M Ptr
parse_word_const = do expect word_prefix; value ← parse_word; new_node (integer value 2)

unfoldable pub parse_dword_const : M Ptr
parse_dword_const = do expect dword_prefix; value ← parse_dword; new_node (integer value 4)

unfoldable pub parse_qword_const : M Ptr
parse_qword_const = do expect qword_prefix; value ← parse_qword; new_node (integer value 8)

-- The loop of `aml_parse_string_const`, with `n` bytes left before `end`: it stops behind the
-- byte 0, and fails on a byte that is not ASCII or where there is no byte 0.
unfoldable pub string_bytes : ℕ → M (Unit {0})
unfolding next
string_bytes zero = fail
string_bytes (suc n) = do
  c ← next
  let rest = string_bytes n
  if c == 0 then pure tt else if ltb c 1 || ltb 0x7F c then fail else rest

abbrev pub get_ptr : M ℕ
get_ptr s = done (some s.ptr, s)

abbrev pub bytes_left : M ℕ
bytes_left s = done (some (s.stop - s.ptr), s)

unfoldable pub parse_string_const : M Ptr
parse_string_const = do
  expect string_prefix
  start ← get_ptr
  left ← bytes_left
  string_bytes left
  after ← get_ptr
  new_node (string start (after - start - 1))

unfoldable pub parse_data_object : M Ptr
parse_data_object = do
  enc ← peek
  if enc == zero_op
      then parse_zero_const
      else if enc == one_op
      then parse_one_const
      else if enc == ones_op
      then parse_ones_const
      else if enc == byte_prefix
      then parse_byte_const
      else if enc == word_prefix
      then parse_word_const
      else if enc == dword_prefix
      then parse_dword_const
      else if enc == qword_prefix
      then parse_qword_const
      else if enc == string_prefix
      then parse_string_const
      else fail
