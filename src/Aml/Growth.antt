-- ===== src/Aml/Growth.antt =====
-- Kernel/drivers/aml/aml_parser.c: what happens when the pool of nodes grows under the parser.
use aos.Base.{ℕ, suc, ◌+◌, ◌<◌, ◌≡◌, ◌≢◌, refl, sym, ◌∙◌, arith}
use aos.Base.{true, false, ◌&&◌, Option, none, some, ltb, leb, ◌==◌, done, fault}
use aos.Aml.{Parser, Ptr, Node, Payload, integer, to, M, ◌>>=◌, store, stored, bind-some}
use aos.Aml.Stream.{peek, next, eof}
use aos.Aml.Pool.{get_new_node, new_node, set_payload, clamped, next_block}
use aos.Aml.Consts.{expect, parse_one_const, parse_data_object}
use aos.Aml.Terms.{is_data_op, parse_term, link_node, parse_terms}
use aos.Aml.Looping.{peek-some}

-- The pool is full, and the allocator has another block for it, which is not the one in use.
pub record IsFull (s : Parser) : Type 0 where
  pub in_use : s.pool.block ≢ 0
  pub full : s.pool.count ≡ s.pool.cap
  pub more : s.grants s.calls ≡ true
  pub fresh : s.calls + 1 ≢ s.pool.block

-- A pointer into the block in use, or none.
abbrev pub InBlock : ℕ → Option Ptr → Type 0
InBlock b none = Unit {0}
InBlock b (some p) = p.block ≡ b

-- A parser whose pool is the block `b`, with room for the node `p`.
abbrev Holding : ℕ → Ptr → Parser → Type 0
Holding b p s = (p.block ≡ b) × (s.pool.block ≡ b) × (p.index < s.pool.cap)

store_live :
    (b : ℕ) (p : Ptr) (change : Node → Node) (s : Parser)
    → Holding b p s
    → (s' : Parser) × (store p change s ≡ done (some tt, s')) × Holding b p s'
unfolding store
store_live b p change s (e, f, l) =
    let live : (p.block == s.pool.block && ltb p.index s.pool.cap) ≡ true = ground arith in
    (stored p change s, rw live refl, (e, f, l))

store_freed :
    (b : ℕ) (p : Ptr) (change : Node → Node) (s : Parser)
    → s.pool.block ≡ b
    → p.block ≢ b
    → store p change s ≡ fault
unfolding store
store_freed b p change s e ne =
    let freed : (p.block == s.pool.block && ltb p.index s.pool.cap) ≡ false = ground arith in
    rw freed refl

get_new_node_grows :
    (s : Parser)
    → IsFull s
    → (p : Ptr) × (s' : Parser) × (get_new_node s ≡ done (some p, s')) × Holding (s.calls + 1) p s'
unfolding get_new_node
get_new_node_grows s f =
    let used : (s.pool.block == 0) ≡ false = ground (arith, f.in_use) in
    let at_cap : leb s.pool.cap (clamped s.pool) ≡ true = ground (arith, f.full) in
    let s1 = next_block s (clamped s.pool) in
    let s2 = record s1 { pool = record (s1.pool) { count = clamped s.pool + 1 } } in
    (
      record { block = s.calls + 1; index = clamped s.pool },
      s2,
      rw (used, at_cap, f.more) refl,
      (refl, refl, ground (arith, f.full)),
    )

-- Where `m` succeeds at `s`, what follows it in `m >>= f` runs at the state that it leaves.
new_node_grows :
    (payload : Payload) (s : Parser)
    → IsFull s
    → (p : Ptr) × (s' : Parser) × (new_node payload s ≡ done (some p, s'))
      × Holding (s.calls + 1) p s'
unfolding new_node
new_node_grows payload s f =
    let (p, s1, e1, h1) = get_new_node_grows s f in
    let (s2, e2, h2) = store_live (s.calls + 1) p (set_payload payload) s1 h1 in
    (p, s2, bind-some get_new_node _ s e1 ∙ bind-some (store p (set_payload payload)) _ s1 e2, h2)

behind-IsFull : (s : Parser) → IsFull s → IsFull (record s { ptr = s.ptr + 1 })
behind-IsFull s f = record { in_use = f.in_use; full = f.full; more = f.more; fresh = f.fresh }

-- The constant 1 takes one byte.
abbrev behind : Parser → Parser
behind s = record s { ptr = s.ptr + 1 }

next_at : (s : Parser) → s.ptr < s.stop → next s ≡ done (some (s.mem s.ptr), behind s)
unfolding next
next_at s room = ground arith

expect_one : (s : Parser) → s.ptr < s.stop → s.mem s.ptr ≡ 1 → expect 1 s ≡ done (some tt, behind s)
unfolding expect
expect_one s room one =
    let same : (s.mem s.ptr == 1) ≡ true = ground arith in
    bind-some next _ s (next_at s room) ∙ rw same refl

one_const_at :
    (s : Parser)
    → s.ptr < s.stop
    → s.mem s.ptr ≡ 1
    → parse_data_object s ≡ new_node (integer 1 1) (behind s)
unfolding parse_data_object parse_one_const
one_const_at s room one =
    let not_zero : (s.mem s.ptr == 0) ≡ false = ground arith in
    let same : (s.mem s.ptr == 1) ≡ true = ground arith in
    bind-some peek _ s (peek-some s room)
    ∙ rw (not_zero, same)
        (bind-some (expect 1) (λ _. new_node (integer 1 1)) s (expect_one s room one))

link_node_freed :
    (a b : ℕ) (n : Ptr) (prev : Option Ptr) (c : Ptr) (s : Parser)
    → a ≢ b
    → s.pool.block ≡ b
    → n.block ≡ a
    → InBlock a prev
    → link_node n prev c s ≡ fault
unfolding link_node
link_node_freed a b n none c s gone e en ep = store_freed b n _ s e (λ x. gone (sym en ∙ x))
link_node_freed a b n (some p) c s gone e en ep = store_freed b p _ s e (λ x. gone (sym ep ∙ x))

bind-fault : {A B : Type 0} (m : M A) (f : A → M B) (s : Parser) → m s ≡ fault → (m >>= f) s ≡ fault
bind-fault m f s e = rw (e, ◌>>=◌)

-- Where the pool is full when the loop of `aml_parse` meets the constant 1, with the node it fills
-- and the node before in the pool, and the allocator has another block for it, the pool moves to
-- that block, and the write that hangs the new node below or beside the earlier one goes through a
-- pointer into the block that was freed.
pub parse_terms-grows :
    (fuel : ℕ) (n : Ptr) (prev : Option Ptr) (s : Parser)
    → IsFull s
    → s.ptr < s.stop
    → s.mem s.ptr ≡ 1
    → n.block ≡ s.pool.block
    → InBlock s.pool.block prev
    → parse_terms (suc fuel) n prev s ≡ fault
unfolding parse_terms parse_term
parse_terms-grows fuel n prev s f room one en ep =
    let (c, s1, e1, h1) = new_node_grows (integer 1 1) (behind s) (behind-IsFull s f) in
    let (s2, e2, h2) = store_live (s.calls + 1) c (λ x. record x { parent = to n }) s1 h1 in
    let more : eof s ≡ false = ground arith in
    let data_op : is_data_op (s.mem s.ptr) ≡ true = ground arith in
    let made : parse_data_object s ≡ done (some c, s1) = one_const_at s room one ∙ e1 in
    let term : parse_term n s ≡ done (some (some c), s2) =
      bind-some peek _ s (peek-some s room)
      ∙ rw data_op (bind-some parse_data_object _ s made ∙ bind-some (store c _) _ s1 e2) in
    let gone : s.pool.block ≢ s.calls + 1 = λ e. f.fresh (sym e) in
    rw more (
      bind-some (parse_term n) _ s term
      ∙ bind-fault (link_node n prev c) (λ _. parse_terms fuel n (some c)) s2
          (link_node_freed s.pool.block (s.calls + 1) n prev c s2 gone h2.1 en ep))
