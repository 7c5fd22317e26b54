-- ===== src/Aml.antt =====
-- Kernel/drivers/aml/aml_parser.c: the parser of ACPI machine language. This file declares its
-- state, the operations on pointers, and the monad in which the other files write the parser.
pub mod Stream
pub mod Pool
pub mod Consts
pub mod Names
pub mod Terms
pub mod Progress
pub mod Looping
pub mod Growth
pub mod Frame
mod Truncated
mod Tests
use aos.Base.{ℕ, ◌+◌, ◌<◌, Bool, true, false, ◌&&◌, List, Option, none, some, ltb, ◌==◌}
use aos.Base.{if◌then◌else◌, Exec, done, fault, ◌≡◌}

-- A pointer into the pool of nodes: the block it points into, and the node's index there. A block
-- is named by the allocation that made it, counted from 1.
pub record Ptr : Type 0 where
  pub block : ℕ
  pub index : ℕ

-- What a pointer field holds. `unset` is memory that was never written.
pub data Link : Type 0 where
  unset null : Link
  to : Ptr → Link

-- `aml_node_t.type` with the member of the union that goes with it. Texts are addresses.
pub data Payload : Type 0 where
  garbage null_node root null_name : Payload
  name_seg dual_name_seg : List ℕ → Payload
  multi_name_seg : (count segments : ℕ) → Payload
  integer : (v size_in_bytes : ℕ) → Payload
  string : (start len : ℕ) → Payload

-- `aml_node_t`; no code writes its `object`.
pub record Node : Type 0 where
  pub payload : Payload
  pub parent : Link
  pub child : Link
  pub sibling : Link

-- A node as the allocator hands it out: `avmf_alloc` does not clear memory.
abbrev pub raw_node : Node
raw_node = record { payload = garbage; parent = unset; child = unset; sibling = unset }

-- `node_pool` with `node_pool_cap` and `node_pool_count`; block 0 is NULL.
pub record NodePool : Type 0 where
  pub block : ℕ
  pub cap : ℕ
  pub count : ℕ
  pub cells : ℕ → Node

-- `aml_stream_t` over the memory that it reads, the pool, and the allocator as far as the parser
-- uses it: whether the call with this number succeeds, and the number of calls so far.
pub record Parser : Type 0 where
  pub mem : ℕ → ℕ
  pub stop : ℕ
  pub ptr : ℕ
  pub grants : ℕ → Bool
  pub calls : ℕ
  pub pool : NodePool

-- Code that may fail (`*valid = AOS_FALSE`) or fault, over the parser's state. What it consumed
-- before it failed stays consumed.
abbrev pub M : Type 0 → Type 0
M A = Parser → Exec (Option A × Parser)

infixl 5 ◌>>=◌ ◌>>◌
abbrev pub ◌>>=◌ : {A B : Type 0} → M A → (A → M B) → M B
◌>>=◌ m f s = elim (m s) [
  | fault ↦ fault
  | done (none, s') ↦ done (none, s')
  | done (some a, s') ↦ f a s'
]

abbrev pub ◌>>◌ : {B : Type 0} → M (Unit {0}) → M B → M B
m >> k = m >>= λ _. k

abbrev pub pure : {A : Type 0} → A → M A
pure a s = done (some a, s)

abbrev pub fail : {A : Type 0} → M A
fail s = done (none, s)

abbrev pub stored : Ptr → (Node → Node) → Parser → Parser
stored p change s = record s {
  pool = record (s.pool) {
    cells = λ i. if i == p.index then change (s.pool.cells i) else s.pool.cells i;
  };
}

-- A write through a pointer, which faults if its block was freed.
unfoldable pub store : Ptr → (Node → Node) → M (Unit {0})
store p change s =
    if p.block == s.pool.block && ltb p.index s.pool.cap
    then done (some tt, stored p change s)
    else fault

pub bind-some :
    {A B : Type 0} (m : M A) (f : A → M B) (s : Parser) {a : A} {s' : Parser}
    → m s ≡ done (some a, s')
    → (m >>= f) s ≡ f a s'
bind-some m f s e = rw (e, ◌>>=◌)

pub bind-none :
    {A B : Type 0} (m : M A) (f : A → M B) (s : Parser) {s' : Parser}
    → m s ≡ done (none, s')
    → (m >>= f) s ≡ done (none, s')
bind-none m f s e = rw (e, ◌>>=◌)
