-- ===== src/Descriptors/Tests.antt =====
-- Kernel/drivers/core/tss_gdt.c and idt.c: the tables for some addresses.
use aos.Base.{ℕ, ◌+◌, ◌*◌, ◌/◌, ◌^◌, ◌≡◌, arith, length}
use aos.Descriptors.{
  Idt, Handlers, gate, idt_init, gdt_init, gdt_bytes, tss_init, kernel_cs, kernel_ds, user_ds,
  user_cs,
}
use aos.Descriptors.{tss_selector, sizeof_tss}
use aos.Descriptors.Vectors.{Leads, handler_of, idt_init_lem}
use aos.Descriptors.Stacks.{Names, NamesTss, access_at, gdt_init_lem, HasStacks, tss_init_lem}

abbrev no_gates : Idt
no_gates v = gate 0 0 0

abbrev stubs : ℕ → ℕ
stubs n = 0xFFFF900000100000 + 16 * n

abbrev handlers : Handlers
handlers = record { smp_timer = 1; smp_ipi = 2; smp_tlb_ipi = 3; avmss = 4; gpu_switch_off = 5 }

idt_init_lem_example :
    Leads (idt_init no_gates stubs handlers 14) (no_gates 14) (handler_of stubs handlers 14)
idt_init_lem_example = idt_init_lem no_gates stubs handlers 14

gdt_init_lem_example :
    let (g, r) = gdt_init 0x5000 0xFFFF900012345678 in
    let table = gdt_bytes g in
    Names table kernel_cs 1
    × Names table kernel_ds 0
    × Names table user_cs 1
    × Names table user_ds 0
    × NamesTss table tss_selector 0xFFFF900012345678 sizeof_tss
    × (access_at table 0 / 2 ^ 7 ≡ 0)
    × (r.base ≡ 0x5000)
    × (r.limit + 1 ≡ length table)
gdt_init_lem_example = gdt_init_lem 0x5000 0xFFFF900012345678 (omega arith)

tss_init_lem_example : HasStacks 0x100000 (tss_init 0x100000)
tss_init_lem_example = tss_init_lem 0x100000 (omega arith)
