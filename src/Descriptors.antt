-- ===== src/Descriptors.antt =====
-- Kernel/drivers/core/tss_gdt.c and idt.c: the tables of descriptors that the processor reads.
pub mod Stacks
pub mod Vectors
mod Tests
use aos.Base.{
  ℕ, zero, suc, ◌+◌, ◌-◌, ◌*◌, ◌/◌, ◌%◌, ◌^◌, Bool, true, false, ltb, ◌==◌, if◌then◌else◌,
}
use aos.Base.{List, [], ◌∷◌, ◌++◌, Option, none, some}

-- `gdt_entry_t`.
pub record GdtEntry : Type 0 where
  pub limit_low : ℕ
  pub base_low : ℕ
  pub base_mid : ℕ
  pub access : ℕ
  pub granularity : ℕ
  pub base_high : ℕ

-- `gdt_tss_entry_t`.
pub record TssEntry : Type 0 where
  pub limit_low : ℕ
  pub base_low : ℕ
  pub base_mid1 : ℕ
  pub access : ℕ
  pub granularity : ℕ
  pub base_mid2 : ℕ
  pub base_high : ℕ
  pub reserved : ℕ

-- `gdt_t`.
pub record Gdt : Type 0 where
  pub null : GdtEntry
  pub kernel_code : GdtEntry
  pub kernel_data : GdtEntry
  pub user_data : GdtEntry
  pub user_code : GdtEntry
  pub tss : TssEntry

-- The bytes of a number of `n` bytes, the lowest first, as memory holds it.
abbrev pub word_bytes : (n x : ℕ) → List ℕ
word_bytes zero x = []
word_bytes (suc n) x = x % 2 ^ 8 ∷ word_bytes n (x / 2 ^ 8)

-- The packed structs as memory holds them, their members in the order of the declarations.
abbrev pub entry_bytes : GdtEntry → List ℕ
entry_bytes e =
    word_bytes 2 e.limit_low
    ++ word_bytes 2 e.base_low
    ++ word_bytes 1 e.base_mid
    ++ word_bytes 1 e.access
    ++ word_bytes 1 e.granularity
    ++ word_bytes 1 e.base_high

abbrev pub tss_entry_bytes : TssEntry → List ℕ
tss_entry_bytes e =
    word_bytes 2 e.limit_low
    ++ word_bytes 2 e.base_low
    ++ word_bytes 1 e.base_mid1
    ++ word_bytes 1 e.access
    ++ word_bytes 1 e.granularity
    ++ word_bytes 1 e.base_mid2
    ++ word_bytes 4 e.base_high
    ++ word_bytes 4 e.reserved

abbrev pub gdt_bytes : Gdt → List ℕ
gdt_bytes g =
    entry_bytes g.null
    ++ entry_bytes g.kernel_code
    ++ entry_bytes g.kernel_data
    ++ entry_bytes g.user_data
    ++ entry_bytes g.user_code
    ++ tss_entry_bytes g.tss

-- `gdtr_t`, and `idt_ptr_t`, which is the same.
pub record Gdtr : Type 0 where
  pub limit : ℕ
  pub base : ℕ

-- `tss_t`, less the fields that are reserved.
pub record Tss : Type 0 where
  pub rsp0 : ℕ
  pub rsp1 : ℕ
  pub rsp2 : ℕ
  pub ist1 : ℕ
  pub ist2 : ℕ
  pub ist3 : ℕ
  pub ist4 : ℕ
  pub ist5 : ℕ
  pub ist6 : ℕ
  pub ist7 : ℕ
  pub iomap_base : ℕ

-- The sizes of `tss_t`, `gdt_t` and `idt_entry_t` in bytes, packed.
abbrev pub sizeof_tss : ℕ
sizeof_tss = 104

abbrev pub sizeof_gdt : ℕ
sizeof_gdt = 56

abbrev pub sizeof_idt_entry : ℕ
sizeof_idt_entry = 16

abbrev pub access_kernel_code : ℕ
access_kernel_code = 0x9A

abbrev pub access_kernel_data : ℕ
access_kernel_data = 0x92

abbrev pub access_user_code : ℕ
access_user_code = 0xFA

abbrev pub access_user_data : ℕ
access_user_data = 0xF2

abbrev pub access_tss : ℕ
access_tss = 0x89

abbrev pub flag_long_mode : ℕ
flag_long_mode = 0x20

-- A segment with base and limit 0.
abbrev pub segment : (access granularity : ℕ) → GdtEntry
segment access granularity = record {
  limit_low = 0;
  base_low = 0;
  base_mid = 0;
  access = access;
  granularity = granularity;
  base_high = 0;
}

abbrev pub tss_entry : (tss : ℕ) → TssEntry
tss_entry tss = record {
  limit_low = sizeof_tss - 1;
  base_low = tss % 2 ^ 16;
  base_mid1 = tss / 2 ^ 16 % 2 ^ 8;
  access = access_tss;
  granularity = (sizeof_tss - 1) / 2 ^ 16 % 2 ^ 4;
  base_mid2 = tss / 2 ^ 24 % 2 ^ 8;
  base_high = tss / 2 ^ 32;
  reserved = 0;
}

-- `gdt_init_ex`, and `gdt_init` for the tables of the first core: the table that is stored at `gdt`,
-- for the task state at `tss`, and what the register is loaded with.
unfoldable pub gdt_init : (gdt tss : ℕ) → Gdt × Gdtr
gdt_init gdt tss = (
  record {
    null = segment 0 0;
    kernel_code = segment access_kernel_code flag_long_mode;
    kernel_data = segment access_kernel_data 0;
    user_data = segment access_user_data 0;
    user_code = segment access_user_code flag_long_mode;
    tss = tss_entry tss;
  },
  record { limit = sizeof_gdt - 1; base = gdt },
)

-- `SEGMENT_SELECTOR`, and the selectors that the code uses.
abbrev pub selector : (index rpl : ℕ) → ℕ
selector index rpl = index * 8 + rpl

abbrev pub kernel_cs : ℕ
kernel_cs = selector 1 0

abbrev pub kernel_ds : ℕ
kernel_ds = selector 2 0

abbrev pub user_ds : ℕ
user_ds = selector 3 3

abbrev pub user_cs : ℕ
user_cs = selector 4 3

abbrev pub tss_selector : ℕ
tss_selector = selector 5 0

abbrev pub stack_size : ℕ
stack_size = 0x4000

-- `tss_init_ex`, for what `avmf_alloc` answers for ten stacks; 0 is NULL. `none` is `AOS_FALSE`.
unfoldable pub tss_init : (stack : ℕ) → Option Tss
tss_init stack =
    if stack == 0
    then none
    else some (record {
      rsp0 = stack + stack_size;
      rsp1 = stack + stack_size + stack_size;
      rsp2 = stack + stack_size * 2 + stack_size;
      ist1 = stack + stack_size * 3 + stack_size;
      ist2 = stack + stack_size * 4 + stack_size;
      ist3 = stack + stack_size * 5 + stack_size;
      ist4 = stack + stack_size * 6 + stack_size;
      ist5 = stack + stack_size * 7 + stack_size;
      ist6 = stack + stack_size * 8 + stack_size;
      ist7 = stack + stack_size * 9 + stack_size;
      iomap_base = sizeof_tss;
    })

-- `idt_entry_t`.
pub record IdtEntry : Type 0 where
  pub offset_low : ℕ
  pub selector : ℕ
  pub ist : ℕ
  pub type_attr : ℕ
  pub offset_mid : ℕ
  pub offset_high : ℕ
  pub zero : ℕ

abbrev pub Idt : Type 0
Idt = ℕ → IdtEntry

abbrev pub gate : (offset sel attr : ℕ) → IdtEntry
gate offset sel attr = record {
  offset_low = offset % 2 ^ 16;
  selector = sel;
  ist = 0;
  type_attr = attr;
  offset_mid = offset / 2 ^ 16 % 2 ^ 16;
  offset_high = offset / 2 ^ 32 % 2 ^ 32;
  zero = 0;
}

-- `set_idt_entry`.
abbrev pub set_idt_entry : Idt → (num offset sel attr : ℕ) → Idt
set_idt_entry idt num offset sel attr v = if v == num then gate offset sel attr else idt v

-- The entries for the exceptions from `num` on.
unfoldable pub set_exceptions : Idt → (handler : ℕ → ℕ) → (count num : ℕ) → Idt
set_exceptions idt handler ℕ.zero num = idt
set_exceptions idt handler (suc count) num =
    set_exceptions (set_idt_entry idt num (handler num) 0x08 0x8E) handler count (num + 1)

-- The handlers of the interrupts that cores and devices send.
pub record Handlers : Type 0 where
  pub smp_timer : ℕ
  pub smp_ipi : ℕ
  pub smp_tlb_ipi : ℕ
  pub avmss : ℕ
  pub gpu_switch_off : ℕ

-- `idt_init` on a table that memory was found for: 32 exceptions and five interrupts.
unfoldable pub idt_init : Idt → (handler : ℕ → ℕ) → Handlers → Idt
idt_init idt handler h =
    let t0 = set_exceptions idt handler 32 0 in
    let t1 = set_idt_entry t0 0x30 h.smp_timer 0x08 0x8E in
    let t2 = set_idt_entry t1 0x40 h.smp_ipi 0x08 0x8E in
    let t3 = set_idt_entry t2 0x41 h.smp_tlb_ipi 0x08 0x8E in
    let t4 = set_idt_entry t3 0x50 h.avmss 0x08 0x8E in
    set_idt_entry t4 0x51 h.gpu_switch_off 0x08 0x8E

-- What `lidt` loads.
abbrev pub idt_pointer : (idt : ℕ) → Gdtr
idt_pointer idt = record { limit = sizeof_idt_entry * 256 - 1; base = idt }
