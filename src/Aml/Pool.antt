-- ===== src/Aml/Pool.antt =====
-- Kernel/drivers/aml/aml_parser.c: `get_new_node`, the pool of nodes and how it grows.
use aos.Base.{ℕ, ◌+◌, Bool, Option, none, some, ltb, leb, ◌==◌, if◌then◌else◌, done}
use aos.Aml.{Parser, Ptr, Node, NodePool, Payload, raw_node, M, ◌>>=◌, ◌>>◌, pure, store}

-- `NODES_PER_PAGE`: a node takes 56 bytes.
abbrev pub nodes_per_page : ℕ
nodes_per_page = 73

-- The next call of `avmf_alloc`: the block, if there is memory. It moves no node.
abbrev pub counted : Parser → Parser
counted s = record s { calls = s.calls + 1 }

abbrev pub granted : Parser → Bool
granted s = s.grants s.calls

-- `&node_pool[node_pool_count++]`.
abbrev pub take_cell : Parser → Option Ptr × Parser
take_cell s = (
  some (record { block = s.pool.block; index = s.pool.count }),
  record s { pool = record (s.pool) { count = s.pool.count + 1 } },
)

-- `memcpy` carries the nodes in use over; what lies behind them was never written.
abbrev pub copied : NodePool → ℕ → ℕ → Node
copied p count i = if ltb i count then p.cells i else raw_node

abbrev pub first_block : Parser → Parser
first_block s = record (counted s) {
  pool = record { block = s.calls + 1; cap = nodes_per_page; count = 0; cells = λ i. raw_node };
}

-- The old block is freed here: pointers into it do not move with the nodes.
abbrev pub next_block : Parser → ℕ → Parser
next_block s count = record (counted s) {
  pool = record {
    block = s.calls + 1;
    cap = s.pool.cap + nodes_per_page;
    count = count;
    cells = copied s.pool count;
  };
}

abbrev pub clamped : NodePool → ℕ
clamped p = if ltb p.cap p.count then p.cap else p.count

abbrev pub with_count : Parser → ℕ → Parser
with_count s count = record s { pool = record (s.pool) { count = count } }

unfoldable pub get_new_node : M Ptr
get_new_node s =
    if s.pool.block == 0
    then (if granted s then done (take_cell (first_block s)) else done (none, counted s))
    else if leb s.pool.cap (clamped s.pool)
    then (if granted s
        then done (take_cell (next_block s (clamped s.pool)))
        else done (none, counted (with_count s (clamped s.pool))))
    else done (take_cell (with_count s (clamped s.pool)))

abbrev pub set_payload : Payload → Node → Node
set_payload payload c = record c { payload = payload }

-- A new node whose type and value are set at once.
unfoldable pub new_node : Payload → M Ptr
new_node payload = do n ← get_new_node; store n (set_payload payload); pure n
