-- ===== src/Descriptors/Stacks.antt =====
-- Kernel/drivers/core/tss_gdt.c: what the selectors name, and the stacks of the task state.
use aos.Base.{ℕ, ◌+◌, ◌*◌, ◌/◌, ◌%◌, ◌^◌, ◌<◌, ◌≤◌, ◌≡◌, ◌⊎◌, refl, arith, false, ◌==◌}
use aos.Base.{zero, suc, List, [], ◌∷◌, Option, none, some, length, All}
use aos.Descriptors.{Tss, gdt_init, gdt_bytes, tss_init, stack_size, sizeof_tss}
use aos.Descriptors.{kernel_cs, kernel_ds, user_ds, user_cs, tss_selector}

-- The descriptor of 8 bytes at an offset of the table, and the one of 16 bytes that names a task
-- state, read as the processor does: base, limit, access byte and flags, from the byte each has.
abbrev pub byte_at : List ℕ → (i : ℕ) → ℕ
byte_at [] i = 0
byte_at (b ∷ bs) zero = b
byte_at (b ∷ bs) (suc i) = byte_at bs i

-- The number of `n` bytes from `i` on.
abbrev pub number_at : List ℕ → (i n : ℕ) → ℕ
number_at table i zero = 0
number_at table i (suc n) = byte_at table i + 2 ^ 8 * number_at table (i + 1) n

abbrev pub access_at : List ℕ → (i : ℕ) → ℕ
access_at table i = byte_at table (i + 5)

abbrev pub limit_at : List ℕ → (i : ℕ) → ℕ
limit_at table i = number_at table i 2 + byte_at table (i + 6) % 2 ^ 4 * 2 ^ 16

abbrev pub base_at : List ℕ → (i : ℕ) → ℕ
base_at table i =
    number_at table (i + 2) 3 + byte_at table (i + 7) * 2 ^ 24 + number_at table (i + 8) 4 * 2 ^ 32

-- Where the entry of a selector begins.
abbrev pub offset_of : (selector : ℕ) → ℕ
offset_of selector = selector / 8 * 8

-- A selector names an entry that lies in the table, is present, is a segment of code or not, and has
-- the privilege of the selector; code runs in 64 bits.
abbrev pub Names : List ℕ → (selector code : ℕ) → Type 0
Names table selector code =
    let i = offset_of selector in
    (i + 8 ≤ length table)
    × (access_at table i / 2 ^ 7 ≡ 1)
    × (access_at table i / 2 ^ 4 % 2 ≡ 1)
    × (access_at table i / 2 ^ 3 % 2 ≡ code)
    × (byte_at table (i + 6) / 2 ^ 5 % 2 ≡ code)
    × (access_at table i / 2 ^ 5 % 4 ≡ selector % 4)

-- A selector names an entry of 16 bytes in the table: a task state of 64 bits, present and free, at
-- that address and of that size.
abbrev pub NamesTss : List ℕ → (selector tss size : ℕ) → Type 0
NamesTss table selector tss size =
    let i = offset_of selector in
    (i + 16 ≤ length table)
    × (access_at table i ≡ 0x89)
    × (base_at table i ≡ tss)
    × (limit_at table i + 1 ≡ size)

-- In the bytes that gdt_init_ex stores, for a task state whose address has 64 bits: the selectors of
-- the kernel and of the user name code and data of their privilege, the selector of the task state
-- names the entry that gives back its address and its size, the null selector names an entry that is
-- not present, and the register holds the address of the table and its last byte.
pub gdt_init_lem :
    (gdt tss : ℕ)
    → tss < 2 ^ 64
    → let (g, r) = gdt_init gdt tss in
      let table = gdt_bytes g in
      Names table kernel_cs 1
      × Names table kernel_ds 0
      × Names table user_cs 1
      × Names table user_ds 0
      × NamesTss table tss_selector tss sizeof_tss
      × (access_at table 0 / 2 ^ 7 ≡ 0)
      × (r.base ≡ gdt)
      × (r.limit + 1 ≡ length table)
unfolding gdt_init
gdt_init_lem gdt tss fit = (
  (omega arith, refl, refl, refl, refl, refl),
  (omega arith, refl, refl, refl, refl, refl),
  (omega arith, refl, refl, refl, refl, refl),
  (omega arith, refl, refl, refl, refl, refl),
  (omega arith, refl, omega (arith, fit), refl),
  refl,
  refl,
  refl,
)

-- The ends of the stacks.
abbrev pub stacks : Tss → List ℕ
stacks t =
    t.rsp0 ∷ t.rsp1 ∷ t.rsp2 ∷ t.ist1 ∷ t.ist2 ∷ t.ist3 ∷ t.ist4 ∷ t.ist5 ∷ t.ist6 ∷ t.ist7 ∷ []

-- Stacks that end there do not meet.
abbrev pub Apart : List ℕ → Type 0
Apart [] = Unit {0}
Apart (x ∷ xs) = All (λ y. (x + stack_size ≤ y) ⊎ (y + stack_size ≤ x)) xs × Apart xs

abbrev pub HasStacks : (stack : ℕ) → Option Tss → Type 0
HasStacks stack none = ⊥
HasStacks stack (some t) =
    All (λ x. (stack + stack_size ≤ x) × (x ≤ stack + 10 * stack_size)) (stacks t)
    × Apart (stacks t)

-- tss_init_ex, where memory for ten stacks was found, sets ten stacks of 16 KiB that lie in it and do
-- not meet.
pub tss_init_lem : (stack : ℕ) → 0 < stack → HasStacks stack (tss_init stack)
unfolding tss_init
tss_init_lem stack found = let there : (stack == 0) ≡ false = ground arith in rw there (omega arith)
