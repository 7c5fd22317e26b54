-- ===== src/Aml/Tests.antt =====
-- Kernel/drivers/aml/aml_parser.c: short streams parsed.
use aos.Base.{ℕ, ◌-◌, ◌<◌, ◌≡◌, refl, arith, true, none, some, ◌==◌}
use aos.Base.{List, [], ◌∷◌, length, if◌then◌else◌, Exec, Option, done, fault}
use aos.Aml.{Parser, Ptr, NodePool, raw_node, store, string}
use aos.Aml.Stream.{peek, next, parse_word, parse_dword, parse_qword, parse_pkglen}
use aos.Aml.Stream.Numbers.{IsByteMem, moved, Reads, numbers_read}
use aos.Aml.Stream.Pkglen.{encode_pkglen, parse-encode_pkglen}
use aos.Aml.Pool.{get_new_node, new_node, nodes_per_page}
use aos.Aml.Consts.{
  parse_data_object, parse_zero_const, parse_one_const, parse_string_const, string_bytes, expect,
}
use aos.Aml.Terms.{parse_term, link_node, parse_terms, Loop, ended, running}
use aos.Aml.Looping.{Runs, parse_terms_forever, parse_terms-Runs}
use aos.Aml.Frame.{Frame, push, pop, held, Pushes, Pops, frame_is_list}
use aos.Aml.Names.{segment_bytes}
use aos.Aml.Truncated.{segment_bytes_lem}
use aos.Aml.Growth.{parse_terms-grows}

-- Memory that holds these bytes from address 0 on, and zeros behind them.
abbrev bytes_of : List ℕ → ℕ → ℕ
bytes_of [] i = 0
bytes_of (b ∷ bs) i = if i == 0 then b else bytes_of bs (i - 1)

abbrev no_pool : NodePool
no_pool = record { block = 0; cap = 0; count = 0; cells = λ i. raw_node }

-- A stream of these bytes, before the first allocation.
abbrev stream : List ℕ → Parser
stream bytes = record {
  mem = bytes_of bytes;
  stop = length bytes;
  ptr = 0;
  grants = λ i. true;
  calls = 0;
  pool = no_pool;
}

-- The pool is one block, and its 73 nodes are taken.
abbrev full_pool : NodePool
full_pool = record {
  block = 5;
  cap = nodes_per_page;
  count = nodes_per_page;
  cells = λ i. raw_node;
}

abbrev full_stream : Parser
full_stream = record (stream (1 ∷ 1 ∷ [])) { pool = full_pool }

AreBytes : List ℕ → Type 0
AreBytes [] = Unit {0}
AreBytes (b ∷ bs) = (b < 256) × AreBytes bs

bytes_of-bound : (bytes : List ℕ) → AreBytes bytes → (a : ℕ) → bytes_of bytes a < 256
unfolding AreBytes
bytes_of-bound [] h a = omega arith
bytes_of-bound (b ∷ bs) h a = ground (arith, bytes_of-bound bs h.1 (a - 1), h.0)

abbrev pkglen_stream : Parser
pkglen_stream = stream (0x4D ∷ 0x12 ∷ [])

pkglen_stream-IsByteMem : IsByteMem pkglen_stream
unfolding AreBytes
pkglen_stream-IsByteMem = bytes_of-bound (0x4D ∷ 0x12 ∷ []) (omega arith, (omega arith, tt))

-- 0x4D 0x12 is the length 0x12D.
parse-encode_pkglen_example : parse_pkglen pkglen_stream ≡ done (some 0x12D, moved pkglen_stream 2)
unfolding encode_pkglen
parse-encode_pkglen_example =
    parse-encode_pkglen pkglen_stream 0x12D pkglen_stream-IsByteMem (omega arith) (refl, (refl, tt))
      (omega arith)

numbers_read_example :
    Reads 2 parse_word pkglen_stream
    × Reads 4 parse_dword pkglen_stream
    × Reads 8 parse_qword pkglen_stream
numbers_read_example = numbers_read pkglen_stream pkglen_stream-IsByteMem

abbrev root_node : Ptr
root_node = record { block = 5; index = 3 }

-- A method's opcode, 0x14: after a thousand rounds the loop still stands before it.
parse_terms_forever_example :
    parse_terms 1000 root_node none (stream (0x14 ∷ 0 ∷ []))
    ≡ done (some running, stream (0x14 ∷ 0 ∷ []))
parse_terms_forever_example =
    parse_terms_forever 1000 root_node none (stream (0x14 ∷ 0 ∷ [])) (omega arith, refl)

-- The parser as it stands behind the root: the first block holds it, and nothing else.
abbrev rooted : List ℕ → Parser
rooted bytes = record (stream bytes) {
  calls = 1;
  pool = record { block = 1; cap = nodes_per_page; count = 1; cells = λ i. raw_node };
}

abbrev first_node : Ptr
first_node = record { block = 1; index = 0 }

-- Where a parse ends: whether its loop has ended or still runs, and at which byte.
abbrev ending : Exec (Option Loop × Parser) → Option (Option Loop × ℕ)
ending fault = none
ending (done (r, s)) = some (r, s.ptr)

-- The numbers 0 and 1: the stream is consumed.
two_numbers : ending (parse_terms 2 first_node none (rooted (0 ∷ 1 ∷ []))) ≡ some (some ended, 2)
unfolding parse_terms parse_term parse_data_object link_node new_node get_new_node store peek next
    parse_zero_const parse_one_const expect
two_numbers = refl

-- The number 1, then a method: the loop has moved on to the opcode 0x14, and still runs.
then_method :
    ending (parse_terms 4 first_node none (rooted (1 ∷ 0x14 ∷ 0 ∷ []))) ≡ some (some running, 1)
unfolding parse_terms parse_term parse_data_object link_node new_node get_new_node store peek next
    parse_one_const expect
then_method = refl

parse_terms-Runs_example :
    Runs (rooted (1 ∷ 0x14 ∷ 0 ∷ [])) (parse_terms 4 first_node none (rooted (1 ∷ 0x14 ∷ 0 ∷ [])))
parse_terms-Runs_example =
    parse_terms-Runs 4 first_node none (rooted (1 ∷ 0x14 ∷ 0 ∷ [])) (omega arith)

parse_terms-grows_example : parse_terms 2 root_node none full_stream ≡ fault
parse_terms-grows_example =
    parse_terms-grows 1 root_node none full_stream
      (record { in_use = omega arith; full = refl; more = refl; fresh = omega arith }) (omega arith)
      refl refl tt

-- The text "A" becomes the first node of the first block.
one_text :
    parse_data_object (stream (0x0D ∷ b'A' ∷ 0 ∷ []))
    ≡ done (
      some (record { block = 1; index = 0 }),
      record (stream (0x0D ∷ b'A' ∷ 0 ∷ [])) {
        ptr = 3;
        calls = 1;
        pool = record {
          block = 1;
          cap = nodes_per_page;
          count = 1;
          cells = λ i. if i == 0 then record raw_node { payload = string 1 1 } else raw_node;
        };
      },
    )
unfolding parse_data_object parse_string_const string_bytes expect peek next new_node get_new_node
    store
one_text = refl

abbrev one_object : Frame
one_object = record { stack = λ i. 7; stack_top = 1 }

push_then_pop : (pop (push one_object 9).1).0 ≡ 9
unfolding push pop
push_then_pop = refl

frame_is_list_example :
    Pushes one_object 9 (push one_object 9) × Pops one_object (held one_object) (pop one_object)
frame_is_list_example = frame_is_list one_object 9 (omega arith)

-- Two segments are announced, and the stream ends within the second.
abbrev cut_short : Parser
cut_short = stream (b'_' ∷ b'S' ∷ b'B' ∷ b'_' ∷ b'P' ∷ [])

segment_bytes_lem_example : segment_bytes 5 2 0 0 cut_short ≡ done (some tt, moved cut_short 5)
segment_bytes_lem_example =
    segment_bytes_lem cut_short 2 (omega arith) (omega arith)
      (refl, (refl, (refl, (refl, (refl, tt)))))
