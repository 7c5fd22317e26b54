-- ===== src/Aml/Stream/Numbers.antt =====
-- Kernel/drivers/aml/aml_parser.c: the numbers of fixed width are little-endian, and are refused
-- where the stream is too short.
use aos.Base.{ℕ, zero, suc, ◌+◌, ◌*◌, ◌^◌, ◌≤◌, ◌<◌, ◌≡◌, sym, ◌∙◌, arith}
use aos.Base.{Option, none, some}
use aos.Base.{Exec, done, fault}
use native.Mathlib.Nat.{mod-eq_of_lt}
use native.Mathlib.Decide.{dec_lt}
use mathlib.Core.Path.{subst}
use aos.Base.Digits.{bit_or-shift}
use aos.Aml.{Parser, M, ◌>>=◌, bind-some, bind-none}
use aos.Aml.Stream.{next, or_next, parse_word, parse_dword, parse_qword}

-- The number in `k` bytes from the address `a` on, lowest byte first.
abbrev pub le_number : (ℕ → ℕ) → ℕ → ℕ → ℕ
le_number mem a zero = 0
le_number mem a (suc k) = mem a + 256 * le_number mem (a + 1) k

abbrev pub IsByteMem : Parser → Type 0
IsByteMem s = (a : ℕ) → s.mem a < 256

-- The state with its pointer elsewhere.
abbrev pub moved : Parser → ℕ → Parser
moved s p = record s { ptr = p }

abbrev pub Fails : {A : Type 0} → Exec (Option A × Parser) → Type 0
Fails fault = ⊥
Fails (done (none, s)) = Unit {0}
Fails (done (some a, s)) = ⊥

-- Where `k` bytes are left the code gives their number and moves behind them; else it fails.
abbrev pub Reads : ℕ → M ℕ → Parser → Type 0
Reads k m s =
    (s.ptr + k ≤ s.stop → m s ≡ done (some (le_number s.mem s.ptr k), moved s (s.ptr + k)))
    × (s.stop < s.ptr + k → Fails (m s))

pub next-some :
    (s : Parser) (p : ℕ) → p < s.stop → next (moved s p) ≡ done (some (s.mem p), moved s (p + 1))
unfolding next
next-some s p room = ground arith

pub next-none : (s : Parser) (p : ℕ) → s.stop ≤ p → next (moved s p) ≡ done (none, moved s p)
unfolding next
next-none s p full = ground arith

pub or_next-some :
    (width shift v : ℕ) (s : Parser) (p : ℕ)
    → p < s.stop
    → v < 2 ^ shift
    → s.mem p * 2 ^ shift < 2 ^ width
    → or_next width shift v (moved s p) ≡ done (some (v + s.mem p * 2 ^ shift), moved s (p + 1))
unfolding or_next
or_next-some width shift v s p room small fits =
    bind-some next _ (moved s p) (next-some s p room)
    ∙ rw (mod-eq_of_lt fits, bit_or-shift shift v (s.mem p) small)

pub or_next-none :
    (width shift v : ℕ) (s : Parser) (p : ℕ)
    → s.stop ≤ p
    → or_next width shift v (moved s p) ≡ done (none, moved s p)
unfolding or_next
or_next-none width shift v s p full = bind-none next _ (moved s p) (next-none s p full)

pub same_answer :
    (s : Parser) (v v' p p' : ℕ)
    → v ≡ v'
    → p ≡ p'
    → ◌≡◌ {A = Exec (Option ℕ × Parser)} (done (some v, moved s p)) (done (some v', moved s p'))
same_answer s v v' p p' e f = rw (e, f)

module _ (s : Parser) (bytes : IsByteMem s) where
  read_word :
      (p : ℕ)
      → p + 2 ≤ s.stop
      → parse_word (moved s p) ≡ done (some (le_number s.mem p 2), moved s (p + 2))
  unfolding parse_word
  read_word p room =
      bind-some next _ (moved s p) (next-some s p (omega arith))
      ∙ or_next-some 16 8 (s.mem p) s (p + 1) (omega arith) (omega (arith, bytes p))
          (omega (arith, bytes (p + 1)))
      ∙ same_answer s _ _ _ _ (omega arith) (omega arith)

  -- One more byte of a number on the way.
  pub step :
      (width shift : ℕ) (p v : ℕ) (rest : ℕ → M ℕ)
      → p < s.stop
      → v < 2 ^ shift
      → s.mem p * 2 ^ shift < 2 ^ width
      → (or_next width shift v >>= rest) (moved s p)
        ≡ rest (v + s.mem p * 2 ^ shift) (moved s (p + 1))
  step width shift p v rest room small fits =
      bind-some (or_next width shift v) rest (moved s p)
        (or_next-some width shift v s p room small fits)

  read_dword :
      (p : ℕ)
      → p + 4 ≤ s.stop
      → parse_dword (moved s p) ≡ done (some (le_number s.mem p 4), moved s (p + 4))
  unfolding parse_dword
  read_dword p room =
      let b0 = bytes p in
      let b1 = bytes (p + 1) in
      let b2 = bytes (p + 1 + 1) in
      let b3 = bytes (p + 1 + 1 + 1) in
      bind-some next _ (moved s p) (next-some s p (omega arith))
      ∙ step 32 8 _ _ _ (omega arith) (omega arith) (omega arith)
      ∙ step 32 16 _ _ _ (omega arith) (omega arith) (omega arith)
      ∙ or_next-some 32 24 _ s _ (omega arith) (omega arith) (omega arith)
      ∙ same_answer s _ _ _ _ (omega arith) (omega arith)

  read_qword :
      (p : ℕ)
      → p + 8 ≤ s.stop
      → parse_qword (moved s p) ≡ done (some (le_number s.mem p 8), moved s (p + 8))
  unfolding parse_qword
  read_qword p room =
      let b0 = bytes p in
      let b1 = bytes (p + 1) in
      let b2 = bytes (p + 1 + 1) in
      let b3 = bytes (p + 1 + 1 + 1) in
      let b4 = bytes (p + 1 + 1 + 1 + 1) in
      let b5 = bytes (p + 1 + 1 + 1 + 1 + 1) in
      let b6 = bytes (p + 1 + 1 + 1 + 1 + 1 + 1) in
      let b7 = bytes (p + 1 + 1 + 1 + 1 + 1 + 1 + 1) in
      bind-some next _ (moved s p) (next-some s p (omega arith))
      ∙ step 64 8 _ _ _ (omega arith) (omega arith) (omega arith)
      ∙ step 64 16 _ _ _ (omega arith) (omega arith) (omega arith)
      ∙ step 64 24 _ _ _ (omega arith) (omega arith) (omega arith)
      ∙ step 64 32 _ _ _ (omega arith) (omega arith) (omega arith)
      ∙ step 64 40 _ _ _ (omega arith) (omega arith) (omega arith)
      ∙ step 64 48 _ _ _ (omega arith) (omega arith) (omega arith)
      ∙ or_next-some 64 56 _ s _ (omega arith) (omega arith) (omega arith)
      ∙ same_answer s _ _ _ _ (omega arith) (omega arith)

-- What follows a byte decides whether the whole fails; where there is no byte it fails at once.
next-Fails :
    {A : Type 0} (s : Parser) (p : ℕ) (rest : ℕ → M A)
    → (p < s.stop → Fails (rest (s.mem p) (moved s (p + 1))))
    → Fails ((next >>= rest) (moved s p))
next-Fails s p rest h = elim (dec_lt p s.stop) [
  | yes room ↦ subst Fails (sym (bind-some next rest (moved s p) (next-some s p room))) (h room)
  | no full ↦ subst Fails (sym (bind-none next rest (moved s p) (next-none s p (omega arith)))) tt
]

or_next-Fails :
    {A : Type 0} (s : Parser) (p width shift v : ℕ) (rest : ℕ → M A)
    → (p < s.stop → (v' : ℕ) → Fails (rest v' (moved s (p + 1))))
    → Fails ((or_next width shift v >>= rest) (moved s p))
unfolding or_next
or_next-Fails s p width shift v rest h = elim (dec_lt p s.stop) [
  | yes room ↦
      subst Fails
        (sym (
          bind-some (or_next width shift v) rest (moved s p)
            (bind-some next _ (moved s p) (next-some s p room))))
        (h room _)
  | no full ↦
      subst Fails
        (sym (
          bind-none (or_next width shift v) rest (moved s p)
            (or_next-none width shift v s p (omega arith))))
        tt
]

last-Fails :
    (s : Parser) (p width shift v : ℕ) → s.stop ≤ p → Fails (or_next width shift v (moved s p))
last-Fails s p width shift v full = subst Fails (sym (or_next-none width shift v s p full)) tt

module _ (s : Parser) (p : ℕ) where
  word-Fails : s.stop < p + 2 → Fails (parse_word (moved s p))
  unfolding parse_word
  word-Fails short = next-Fails s p _ (λ r0. last-Fails s (p + 1) 16 8 _ (omega arith))

  dword-Fails : s.stop < p + 4 → Fails (parse_dword (moved s p))
  unfolding parse_dword
  dword-Fails short = next-Fails s p _ λ r0.
      or_next-Fails s _ 32 8 _ _
        λ r1 v1. or_next-Fails s _ 32 16 _ _ λ r2 v2. last-Fails s _ 32 24 _ (omega arith)

  qword-Fails : s.stop < p + 8 → Fails (parse_qword (moved s p))
  unfolding parse_qword
  qword-Fails short = next-Fails s p _ λ r0. or_next-Fails s _ 64 8 _ _ λ r1 v1.
      or_next-Fails s _ 64 16 _ _ λ r2 v2. or_next-Fails s _ 64 24 _ _ λ r3 v3.
        or_next-Fails s _ 64 32 _ _ λ r4 v4.
          or_next-Fails s _ 64 40 _ _
            λ r5 v5. or_next-Fails s _ 64 48 _ _ λ r6 v6. last-Fails s _ 64 56 _ (omega arith)

-- Over memory whose cells are bytes, `aml_parse_word`, `aml_parse_dword` and `aml_parse_qword` read
-- 2, 4 and 8 bytes of the stream as a little-endian number and move behind them, and fail where
-- fewer bytes are left.
pub numbers_read :
    (s : Parser)
    → IsByteMem s
    → Reads 2 parse_word s × Reads 4 parse_dword s × Reads 8 parse_qword s
numbers_read s bytes = (
  (read_word s bytes s.ptr, word-Fails s s.ptr),
  (read_dword s bytes s.ptr, dword-Fails s s.ptr),
  (read_qword s bytes s.ptr, qword-Fails s s.ptr),
)
