-- ===== src/Aml/Progress.antt =====
-- Kernel/drivers/aml/aml_parser.c: no code moves the stream back or changes the bytes in it, and
-- what expects an opcode moves it on.
use aos.Base.{ℕ, zero, suc, ◌+◌, ◌-◌, ◌≤◌, ◌≡◌, refl, ◌∙◌, arith}
use aos.Base.{Bool, true, false, ◌||◌, Option, none, some, ltb, leb, ◌==◌, if◌then◌else◌}
use aos.Base.{Exec, done, fault, Bool-cases, ◌⊎◌, inl, inr, ◌&&◌}
use aos.Aml.{Parser, Ptr, Node, Payload, string, M, ◌>>=◌, ◌>>◌, pure, fail, store}
use aos.Aml.Stream.{peek, next, or_next, parse_byte, parse_word, parse_dword, parse_qword}
use aos.Aml.Pool.{clamped, set_payload, get_new_node, new_node}
use aos.Aml.Consts.{expect, string_bytes, get_ptr, bytes_left, parse_data_object}
use aos.Aml.Consts.{parse_zero_const, parse_one_const, parse_ones_const, parse_byte_const}
use aos.Aml.Consts.{parse_word_const, parse_dword_const, parse_qword_const, parse_string_const}

-- `s'` reads the same bytes as `s`, at `k` bytes further on or more.
abbrev pub Further : ℕ → Parser → Parser → Type 0
Further k s s' = (s.ptr + k ≤ s'.ptr) × (s'.stop ≡ s.stop) × (s'.mem ≡ s.mem)

abbrev pub Leaves : {A : Type 0} → ℕ → Parser → Exec (Option A × Parser) → Type 0
Leaves k s fault = Unit {0}
Leaves k s (done (none, s')) = Unit {0}
Leaves k s (done (some a, s')) = Further k s s'

-- Where the code succeeds it has moved the stream on by `k` bytes or more.
pub record Moves {A : Type 0} (k : ℕ) (m : M A) : Type 0 where
  pub leaves : (s : Parser) → Leaves k s (m s)

Leaves-bind :
    {A B : Type 0} (j k : ℕ) (s : Parser) (r : Exec (Option A × Parser)) (f : A → M B)
    → Leaves j s r
    → ((a : A) → Moves k (f a))
    → Leaves
        (j + k)
        s
        (elim r [ fault ↦ fault | done (none, s') ↦ done (none, s') | done (some a, s') ↦ f a s' ])
Leaves-bind j k s fault f h g = tt
Leaves-bind j k s (done (none, s')) f h g = tt
Leaves-bind {B = B} j k s (done (some a, s')) f h g = further (f a s') ((g a).leaves s')
  where
    further : (r : Exec (Option B × Parser)) → Leaves k s' r → Leaves (j + k) s r
    further fault l = tt
    further (done (none, t)) l = tt
    further (done (some b, t)) l = (omega arith, l.1 ∙ h.1, l.2 ∙ h.2)

pub Moves-bind :
    {A B : Type 0} (j k : ℕ) (m : M A) (f : A → M B)
    → Moves j m
    → ((a : A) → Moves k (f a))
    → Moves (j + k) (m >>= f)
Moves-bind j k m f h g = record { leaves = λ s. Leaves-bind j k s (m s) f (h.leaves s) g }

Moves-pure : {A : Type 0} (a : A) → Moves 0 (pure a)
Moves-pure a = record { leaves = λ s. (omega arith, refl, refl) }

Moves-fail : {A : Type 0} (k : ℕ) → Moves {A = A} k fail
Moves-fail k = record { leaves = λ s. tt }

Moves-if :
    {A : Type 0} (k : ℕ) (b : Bool) (m n : M A)
    → Moves k m
    → Moves k n
    → Moves k (if b then m else n)
Moves-if k true m n h g = h
Moves-if k false m n h g = g

Moves-next : Moves 1 next
unfolding next
Moves-next = record {
  leaves = λ s. elim (Bool-cases (leb s.stop s.ptr)) [
    | inl full ↦ rw full tt
    | inr room ↦ rw room (omega arith, refl, refl)
  ];
}

Moves-peek : Moves 0 peek
unfolding peek
Moves-peek = record {
  leaves = λ s. elim (Bool-cases (ltb s.stop s.ptr)) [
    | inl past ↦ rw past tt
    | inr room ↦ rw room (omega arith, refl, refl)
  ];
}

pub Moves-store : (p : Ptr) (change : Node → Node) → Moves 0 (store p change)
unfolding store
Moves-store p change = record {
  leaves = λ s. elim (Bool-cases (p.block == s.pool.block && ltb p.index s.pool.cap)) [
    | inl live ↦ rw live (omega arith, refl, refl)
    | inr freed ↦ rw freed tt
  ];
}

Moves-get_new_node : Moves 0 get_new_node
unfolding get_new_node
Moves-get_new_node = record {
  leaves = λ s.
      let old = Bool-cases (s.pool.block == 0) in
      let full = Bool-cases (leb s.pool.cap (clamped s.pool)) in
      let more = Bool-cases (s.grants s.calls) in first s old full more;
}
  where
    first :
        (s : Parser)
        → (((s.pool.block == 0) ≡ true) ⊎ ((s.pool.block == 0) ≡ false))
        → ((leb s.pool.cap (clamped s.pool) ≡ true) ⊎ (leb s.pool.cap (clamped s.pool) ≡ false))
        → ((s.grants s.calls ≡ true) ⊎ (s.grants s.calls ≡ false))
        → Leaves 0 s (get_new_node s)
    first s (inl e) f (inl g) = rw (e, g) (omega arith, refl, refl)
    first s (inl e) f (inr g) = rw (e, g) tt
    first s (inr e) (inl f) (inl g) = rw (e, f, g) (omega arith, refl, refl)
    first s (inr e) (inl f) (inr g) = rw (e, f, g) tt
    first s (inr e) (inr f) g = rw (e, f) (omega arith, refl, refl)

pub Moves-new_node : (payload : Payload) → Moves 0 (new_node payload)
unfolding new_node
Moves-new_node payload = Moves-bind 0 0 get_new_node _ Moves-get_new_node (λ n.
    Moves-bind 0 0 (store n (set_payload payload)) _ (Moves-store n (set_payload payload))
      (λ _. Moves-pure n))

Moves-expect : (op : ℕ) → Moves 1 (expect op)
unfolding expect
Moves-expect op =
    Moves-bind 1 0 next _ Moves-next
      (λ b. Moves-if 0 (b == op) (pure tt) fail (Moves-pure tt) (Moves-fail 0))

Moves-or_next : (width shift v : ℕ) → Moves 1 (or_next width shift v)
unfolding or_next
Moves-or_next width shift v = Moves-bind 1 0 next _ Moves-next (λ b. Moves-pure _)

Moves-parse_word : Moves 2 parse_word
unfolding parse_word
Moves-parse_word = Moves-bind 1 1 next _ Moves-next (λ v. Moves-or_next 16 8 v)

Moves-parse_dword : Moves 4 parse_dword
unfolding parse_dword
Moves-parse_dword = Moves-bind 1 3 next _ Moves-next λ v0.
    Moves-bind 1 2 (or_next 32 8 v0) _ (Moves-or_next 32 8 v0) λ v1.
      Moves-bind 1 1 (or_next 32 16 v1) _ (Moves-or_next 32 16 v1) λ v2. Moves-or_next 32 24 v2

Moves-parse_qword : Moves 8 parse_qword
unfolding parse_qword
Moves-parse_qword = Moves-bind 1 7 next _ Moves-next λ v0.
    Moves-bind 1 6 (or_next 64 8 v0) _ (Moves-or_next 64 8 v0) λ v1.
      Moves-bind 1 5 (or_next 64 16 v1) _ (Moves-or_next 64 16 v1) λ v2.
        Moves-bind 1 4 (or_next 64 24 v2) _ (Moves-or_next 64 24 v2) λ v3.
          Moves-bind 1 3 (or_next 64 32 v3) _ (Moves-or_next 64 32 v3) λ v4.
            Moves-bind 1 2 (or_next 64 40 v4) _ (Moves-or_next 64 40 v4) λ v5.
              Moves-bind 1 1 (or_next 64 48 v5) _ (Moves-or_next 64 48 v5)
                λ v6. Moves-or_next 64 56 v6

Moves-less : {A : Type 0} (j k : ℕ) (m : M A) → j ≤ k → Moves k m → Moves j m
Moves-less {A = A} j k m h g = record { leaves = λ s. less s (m s) (g.leaves s) }
  where
    less : (s : Parser) (r : Exec (Option A × Parser)) → Leaves k s r → Leaves j s r
    less s fault l = tt
    less s (done (none, t)) l = tt
    less s (done (some a, t)) l = (omega arith, l.1, l.2)

Moves-string_bytes : (n : ℕ) → Moves 0 (string_bytes n)
unfolding string_bytes
Moves-string_bytes zero = Moves-fail 0
Moves-string_bytes (suc n) = Moves-less 0 1 _ (omega arith) (
    Moves-bind 1 0 next _ Moves-next (λ c. Moves-if 0 (c == 0) (pure tt) _ (Moves-pure tt) (
      Moves-if 0 (ltb c 1 || ltb 0x7F c) fail (string_bytes n) (Moves-fail 0)
        (Moves-string_bytes n))))

Moves-parse_string_const : Moves 1 parse_string_const
unfolding parse_string_const
Moves-parse_string_const = Moves-bind 1 0 (expect _) _ (Moves-expect _) λ _.
    Moves-bind 0 0 get_ptr _ (record { leaves = λ s. (omega arith, refl, refl) })
      λ start.
        Moves-bind 0 0 bytes_left _ (record { leaves = λ s. (omega arith, refl, refl) })
          λ left. Moves-bind 0 0 (string_bytes left) _ (Moves-string_bytes left) λ _.
            Moves-bind 0 0 get_ptr _ (record { leaves = λ s. (omega arith, refl, refl) })
              λ after. Moves-new_node (string start (after - start - 1))

-- A constant: an opcode, the bytes of its value, and a new node.
Moves-const :
    (k op : ℕ) (m : M ℕ) (payload : ℕ → Payload)
    → Moves k m
    → Moves 1 (expect op >> (m >>= λ v. new_node (payload v)))
Moves-const k op m payload h =
    Moves-bind 1 0 (expect op) _ (Moves-expect op)
      (λ _. Moves-bind 0 0 m _ (Moves-less 0 k m (omega arith) h) (λ v. Moves-new_node (payload v)))

Moves-plain : (op : ℕ) (payload : Payload) → Moves 1 (expect op >> new_node payload)
Moves-plain op payload =
    Moves-bind 1 0 (expect op) _ (Moves-expect op) (λ _. Moves-new_node payload)

pub Moves-parse_data_object : Moves 1 parse_data_object
unfolding parse_data_object parse_zero_const parse_one_const parse_ones_const parse_byte_const
    parse_word_const parse_dword_const parse_qword_const parse_byte
Moves-parse_data_object = Moves-bind 0 1 peek _ Moves-peek λ enc.
    Moves-if 1 (enc == 0) _ _ (Moves-plain _ _) (
      Moves-if 1 (enc == 1) _ _ (Moves-plain _ _) (
        Moves-if 1 (enc == 0xFF) _ _ (Moves-plain _ _) (
          Moves-if 1 (enc == 0x0A) _ _ (Moves-const 1 _ next _ Moves-next) (
            Moves-if 1 (enc == 0x0B) _ _ (Moves-const 2 _ parse_word _ Moves-parse_word) (
              Moves-if 1 (enc == 0x0C) _ _ (Moves-const 4 _ parse_dword _ Moves-parse_dword) (
                Moves-if 1 (enc == 0x0E) _ _ (Moves-const 8 _ parse_qword _ Moves-parse_qword)
                  (Moves-if 1 (enc == 0x0D) _ _ Moves-parse_string_const (Moves-fail 1))))))))
