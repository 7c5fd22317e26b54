-- ===== src/Descriptors/Vectors.antt =====
-- Kernel/drivers/core/idt.c: where the entries that `idt_init` sets lead to.
use aos.Base.{
  ℕ, zero, suc, ◌+◌, ◌*◌, ◌/◌, ◌%◌, ◌^◌, ◌<◌, ◌≡◌, ◌∙◌, refl, arith, ◌&&◌, ltb, leb, ◌==◌,
}
use aos.Base.{if◌then◌else◌, Option, none, some, Bool-cases, inl, inr}
use aos.Descriptors.{IdtEntry, Idt, gate, set_idt_entry, set_exceptions, Handlers, idt_init}

-- The address that the processor puts together from an entry.
abbrev pub offset_of : IdtEntry → ℕ
offset_of e = e.offset_low + e.offset_mid * 2 ^ 16 + e.offset_high * 2 ^ 32

-- A gate for interrupts that is present, for the kernel only, in the code segment of the kernel and
-- with no stack of its own, and that leads to `handler`.
pub record LeadsTo (e : IdtEntry) (handler : ℕ) : Type 0 where
  pub offset : offset_of e ≡ handler
  pub kernel : e.selector ≡ 8
  pub present : e.type_attr / 2 ^ 7 ≡ 1
  pub privilege : e.type_attr / 2 ^ 5 % 4 ≡ 0
  pub interrupt : e.type_attr % 2 ^ 4 ≡ 14
  pub no_stack : e.ist ≡ 0

-- The handler that an interrupt should have, if it is one that the kernel knows.
abbrev pub handler_of : (ℕ → ℕ) → Handlers → (v : ℕ) → Option ℕ
handler_of handler h v =
    if ltb v 32
    then some (handler v)
    else if v == 0x30
    then some h.smp_timer
    else if v == 0x40
    then some h.smp_ipi
    else if v == 0x41
    then some h.smp_tlb_ipi
    else if v == 0x50
    then some h.avmss
    else if v == 0x51
    then some h.gpu_switch_off
    else none

-- The entry leads to the handler, or is as it was.
abbrev pub Leads : (e old : IdtEntry) → Option ℕ → Type 0
Leads e old none = e ≡ old
Leads e old (some handler) = handler < 2 ^ 64 → LeadsTo e handler

gate-LeadsTo : (handler : ℕ) → handler < 2 ^ 64 → LeadsTo (gate handler 0x08 0x8E) handler
gate-LeadsTo handler fit = record {
  offset = omega arith;
  kernel = refl;
  present = refl;
  privilege = refl;
  interrupt = refl;
  no_stack = refl;
}

set_exceptions_lem :
    (idt : Idt) (handler : ℕ → ℕ) (count num v : ℕ)
    → set_exceptions idt handler count num v
      ≡ (if leb num v && ltb v (num + count) then gate (handler v) 0x08 0x8E else idt v)
unfolding set_exceptions
set_exceptions_lem idt handler zero num v = ground arith
set_exceptions_lem idt handler (suc count) num v =
    set_exceptions_lem (set_idt_entry idt num (handler num) 0x08 0x8E) handler count (num + 1) v
    ∙ elim (Bool-cases (v == num)) [
      | inl t ↦ let same : v ≡ num = ground (arith, t) in rw same (ground arith)
      | inr t ↦ rw t (ground (arith, t))
    ]

abbrev entry_for : (old : IdtEntry) → Option ℕ → IdtEntry
entry_for old none = old
entry_for old (some handler) = gate handler 0x08 0x8E

entry_for-Leads : (old : IdtEntry) (o : Option ℕ) → Leads (entry_for old o) old o
entry_for-Leads old none = refl
entry_for-Leads old (some handler) = gate-LeadsTo handler

idt_init-entry_for :
    (idt : Idt) (handler : ℕ → ℕ) (h : Handlers) (v : ℕ)
    → idt_init idt handler h v ≡ entry_for (idt v) (handler_of handler h v)
unfolding idt_init
idt_init-entry_for idt handler h v = ground (arith, set_exceptions_lem idt handler 32 0 v)

-- After idt_init the entry of each of the 32 exceptions and of the interrupts 0x30, 0x40, 0x41, 0x50
-- and 0x51 is a gate of the kernel that leads to the handler of that number, where its address has 64
-- bits, and every other entry is as it was.
pub idt_init_lem :
    (idt : Idt) (handler : ℕ → ℕ) (h : Handlers) (v : ℕ)
    → Leads (idt_init idt handler h v) (idt v) (handler_of handler h v)
unfolding idt_init
idt_init_lem idt handler h v =
    rw idt_init-entry_for (entry_for-Leads (idt v) (handler_of handler h v))
