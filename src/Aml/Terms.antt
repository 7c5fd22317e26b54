-- ===== src/Aml/Terms.antt =====
-- Kernel/drivers/aml/aml_parser.c: `aml_parse_term`, `aml_parse` and `aml_parse_root`. The loop of
-- `aml_parse` need not end, so it takes fuel.
use aos.Base.{ℕ, zero, suc, ◌||◌, Bool, Option, none, some, ◌==◌, if◌then◌else◌, done}
use aos.Aml.{Ptr, to, null_node, root}
use aos.Aml.{M, ◌>>=◌, ◌>>◌, pure, store}
use aos.Aml.Stream.{peek, eof}
use aos.Aml.Pool.{new_node}
use aos.Aml.Consts.{expect, parse_data_object, zero_op, one_op, ones_op}
use aos.Aml.Consts.{byte_prefix, word_prefix, dword_prefix, qword_prefix, string_prefix}

abbrev pub root_char : ℕ
root_char = 0x5C

-- The opcodes that `aml_parse_term` hands to `aml_parse_data_object`.
abbrev pub is_data_op : ℕ → Bool
is_data_op op =
    op == zero_op
    || (op == one_op
        || (op == ones_op
            || (op == byte_prefix
                || (op == word_prefix
                    || (op == dword_prefix || (op == qword_prefix || op == string_prefix))))))

-- `none` within the answer is the NULL that comes with `*valid = AOS_TRUE`.
unfoldable pub parse_term : Ptr → M (Option Ptr)
parse_term parent = do
  op ← peek
  if is_data_op op
      then (do n ← parse_data_object; store n (λ c. record c { parent = to parent }); pure (some n))
      else pure none

-- What a loop on fuel has come to: it ended, or the fuel ran out while it ran.
pub data Loop : Type 0 where
  ended running : Loop

-- The place where `aml_parse` hangs a new node: below `n`, or beside the node before.
unfoldable pub link_node : Ptr → Option Ptr → Ptr → M (Unit {0})
link_node n none cnode = store n (λ c. record c { child = to cnode })
link_node n (some prev) cnode = store prev (λ c. record c { sibling = to cnode })

-- The loop of `aml_parse`, for at most `fuel` rounds.
unfoldable pub parse_terms : ℕ → Ptr → Option Ptr → M Loop
parse_terms zero n prev s = done (some (if eof s then ended else running), s)
parse_terms (suc fuel) n prev s =
    let again = parse_terms fuel n prev in
    let on = λ (cnode : Ptr). parse_terms fuel n (some cnode) in
    if eof s
    then done (some ended, s)
    else (do
      found ← parse_term n
      elim found [ none ↦ again | some cnode ↦ do link_node n prev cnode; on cnode ])
        s

-- `if (parent) n->parent = parent`.
unfoldable pub set_parent : Ptr → Option Ptr → M (Unit {0})
set_parent n none = pure tt
set_parent n (some p) = store n (λ c. record c { parent = to p })

-- `aml_parse`, with the node that it returns.
unfoldable pub parse : ℕ → Option Ptr → M (Loop × Ptr)
parse fuel parent = do
  n ← new_node null_node
  set_parent n parent
  l ← parse_terms fuel n none
  pure (l, n)

unfoldable pub parse_root : ℕ → M (Loop × Ptr)
parse_root fuel = do
  expect root_char
  n ← new_node root
  (l, children) ← parse fuel (some n)
  store n (λ c. record c { child = to children })
  pure (l, n)
