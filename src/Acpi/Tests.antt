-- ===== src/Acpi/Tests.antt =====
-- Kernel/drivers/core/acpi.c: a root pointer, a table of cores and timers.
use aos.Base.{ℕ, ◌+◌, ◌-◌, ◌*◌, ◌%◌, ◌≡◌, refl, arith, true, leb, ◌==◌}
use aos.Base.{List, [], ◌∷◌, ◌++◌, Option, none, some, if◌then◌else◌, get_elem?}
use aos.Pager.Boot.{SmmapEntry, reserved}
use aos.Acpi.{Memory, direct_map, virt, rsdp_sign, find_rsdp, le, scan_area, checksum}
use aos.Acpi.Search.{Found, in_map_or_bios, find_rsdp_lem}
use aos.Acpi.Tables.{
  Acpi, ended, no_end, page, parse_entries, parse_madt, table_length, device_flags,
}
use aos.Acpi.Tables.{parse_rsdt}
use aos.Acpi.Roots.{parse_rsdt_same}
use aos.Acpi.Cores.{parse_madt_lem, parse_madt_forever}
use aos.Acpi.Timer.{mdelay, readings, first_sum, mdelay_lem, mdelay-no_timer}

abbrev or_zero : Option ℕ → ℕ
or_zero none = 0
or_zero (some b) = b

-- Zeros, but for the bytes at an address.
abbrev bytes_at : (base : ℕ) → List ℕ → Memory
bytes_at base bytes a = if leb base a then or_zero (get_elem? bytes (a - base)) else 0

-- A root pointer of the first revision at the second step of the area of the BIOS.
abbrev rsdp_memory : Memory
rsdp_memory = bytes_at (direct_map + 0xE0010) (rsdp_sign ++ 225 ∷ [])

rsdp_found : find_rsdp rsdp_memory none ≡ some (direct_map + 0xE0010)
unfolding find_rsdp scan_area le
rsdp_found = refl

abbrev smmap : Option (List SmmapEntry)
smmap = some (record { type = reserved; phys_start = 0x1000; size = 0x40 } ∷ [])

find_rsdp_lem_example : Found rsdp_memory (in_map_or_bios smmap) (find_rsdp rsdp_memory smmap)
find_rsdp_lem_example = find_rsdp_lem rsdp_memory smmap (omega arith, tt)

-- A table of 16 bytes behind its head, at 0, whose two entries are given.
abbrev madt_memory : List ℕ → Memory
madt_memory entries a = if leb 44 a then bytes_at 44 entries a else bytes_at 4 (60 ∷ []) a

-- Two cores, of which only the first may be used.
abbrev two_cores : Memory
two_cores = madt_memory (0 ∷ 8 ∷ 0 ∷ 7 ∷ 1 ∷ 0 ∷ 0 ∷ 0 ∷ 0 ∷ 8 ∷ 1 ∷ 9 ∷ [])

-- A core, and an entry without a length.
abbrev cut_short : Memory
cut_short = madt_memory (0 ∷ 8 ∷ 0 ∷ 7 ∷ 1 ∷ 0 ∷ 0 ∷ 0 ∷ 1 ∷ 0 ∷ [])

abbrev acpi : Acpi
acpi = record {
  mcfg_table = 0;
  madt_table = 0;
  fadt_table = 0;
  apic_ids = [];
  pm_timer_port = 0;
  pm_timer_24bit = true;
  maps = [];
}

parse_madt_lem_example :
    parse_madt two_cores 0 acpi
    ≡ ended (record acpi { apic_ids = 7 ∷ []; maps = page (virt 0) 0 device_flags ∷ [] })
unfolding le
parse_madt_lem_example =
    parse_madt_lem two_cores 0 acpi
      (record { len = 8; cores = 7 ∷ [] } ∷ record { len = 8; cores = [] } ∷ [])
      (omega arith, refl, omega arith, refl, (omega arith, refl, omega arith, refl, omega arith))
      (omega arith)

parse_madt_forever_example :
    parse_entries cut_short 1000 44 (0 + table_length cut_short 0) [] ≡ no_end
unfolding le
parse_madt_forever_example =
    parse_madt_forever cut_short 0 1000 [] (record { len = 8; cores = 7 ∷ [] } ∷ []) 52
      (omega arith, refl, refl, refl) (omega arith) refl refl (omega arith)

mdelay_lem_example :
    mdelay 0x608 true 2 (0xFFFF00 % 0x1000000) (readings true 0xFFFF00 (5000 ∷ 5000 ∷ []))
    ≡ first_sum (2 * 3580) 0 (5000 ∷ 5000 ∷ [])
mdelay_lem_example =
    mdelay_lem 0x608 true 2 0xFFFF00 (5000 ∷ 5000 ∷ []) (omega arith) (omega arith)
      (omega arith, (omega arith, tt))

mdelay-no_timer_example : mdelay 0 true 10 0 (5 ∷ 6 ∷ []) ≡ none
mdelay-no_timer_example = mdelay-no_timer true 10 0 (5 ∷ 6 ∷ []) (omega arith) (omega arith)

-- Two root pointers, at 0 with the revision 2 and at 0x40, and their root tables, which name the
-- table at 0x300.
abbrev roots : Memory
roots a =
    if a == 15
    then 2
    else if a == 25
    then 1
    else if a == 0x40 + 17
    then 2
    else if a == direct_map + 0x104
    then 44
    else if a == direct_map + 0x109
    then 209
    else if a == direct_map + 0x100 + 37
    then 3
    else if a == direct_map + 0x204
    then 40
    else if a == direct_map + 0x209
    then 213
    else if a == direct_map + 0x200 + 37
    then 3
    else 0

parse_rsdt_same_example : parse_rsdt roots 0 acpi ≡ parse_rsdt roots 0x40 acpi
unfolding le checksum
parse_rsdt_same_example =
    parse_rsdt_same roots 0 0x40 1 acpi (omega arith) (omega arith) (omega arith) (refl, refl)
      (refl, refl) (refl, tt)
