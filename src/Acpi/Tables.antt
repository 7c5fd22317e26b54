-- ===== src/Acpi/Tables.antt =====
-- Kernel/drivers/core/acpi.c: the parsing of the tables that the kernel uses, and what it keeps.
use aos.Base.{ℕ, zero, suc, ◌+◌, ◌-◌, ◌*◌, ◌/◌, ◌%◌, ◌^◌, Bool, false, ◌&&◌, ltb, leb, ◌==◌}
use aos.Base.{List, [], ◌∷◌, ◌++◌, length, if◌then◌else◌}
use aos.Base.{Option, none, some}
use aos.Pager.Boot.{SmmapEntry}
use aos.Acpi.{find_rsdp, Memory, le, virt, matches, checksum, mcfg_sign, madt_sign, fadt_sign}

-- How a loop ends: with a value, with an access outside of an array, or not within its rounds.
pub data Parse {ℓ} (A : Type ℓ) : Type ℓ where
  ended : A → Parse A
  overrun : Parse A
  no_end : Parse A

infixl 5 ◌>>=◌
abbrev pub ◌>>=◌ {ℓ κ} : {A : Type ℓ} {B : Type κ} → Parse A → (A → Parse B) → Parse B
ended a >>= f = f a
overrun >>= f = overrun
no_end >>= f = no_end

-- A call of `pager_map` or `pager_map_range`.
pub data MapCall : Type 0 where
  page : (virt phys flags : ℕ) → MapCall
  range : (virt phys size flags : ℕ) → MapCall

-- The static variables. A table that was not found is at 0; `maps` has the calls of the pager, the
-- last first.
pub record Acpi : Type 0 where
  pub mcfg_table : ℕ
  pub madt_table : ℕ
  pub fadt_table : ℕ
  pub apic_ids : List ℕ
  pub pm_timer_port : ℕ
  pub pm_timer_24bit : Bool
  pub maps : List MapCall

-- `PAGE_PRESENT | PAGE_RW | PAGE_PCD | PAGE_PWT`.
abbrev pub device_flags : ℕ
device_flags = 0x1B

-- The identity of the core that an entry stands for, if it is there and may be used.
abbrev pub is_core : Memory → (ptr : ℕ) → Bool
is_core mem ptr = mem ptr == 0 && le mem (ptr + 4) 4 % 2 == 1

-- The loop of `acpi_parse_madt` from `ptr` on. There is room for 256 identities.
unfoldable pub parse_entries : Memory → (rounds ptr end : ℕ) → List ℕ → Parse (List ℕ)
unfolding le
parse_entries mem zero ptr end ids = no_end
parse_entries mem (suc rounds) ptr end ids =
    let next = ptr + mem (ptr + 1) in
    let added = parse_entries mem rounds next end (ids ++ mem (ptr + 3) ∷ []) in
    let skipped = parse_entries mem rounds next end ids in
    if ltb ptr end
    then (if is_core mem ptr then (if leb 256 (length ids) then overrun else added) else skipped)
    else ended ids

abbrev pub table_length : Memory → (table : ℕ) → ℕ
table_length mem table = le mem (table + 4) 4

-- `acpi_parse_madt`. The rounds are enough for entries that are not empty.
unfoldable pub parse_madt : Memory → (madt : ℕ) → Acpi → Parse Acpi
unfolding parse_entries le
parse_madt mem madt s = do
  ids ←
      parse_entries mem (table_length mem madt + 1) (madt + 44) (madt + table_length mem madt)
        s.apic_ids
  ended (record s {
    apic_ids = ids;
    maps = page (virt (le mem (madt + 36) 4)) (le mem (madt + 36) 4) device_flags ∷ s.maps;
  })

-- `acpi_parse_fadt` and `acpi_timer_init`.
unfoldable pub parse_fadt : Memory → (fadt : ℕ) → Acpi → Acpi
unfolding le
parse_fadt mem fadt s = record s {
  pm_timer_port = le mem (fadt + 76) 4;
  pm_timer_24bit = if le mem (fadt + 112) 4 / 256 % 2 == 1 then false else s.pm_timer_24bit;
}

-- The size of the configuration space of an entry, an `int` that becomes a `uint64_t`.
abbrev pub ecam_size : (start_bus end_bus : ℕ) → ℕ
ecam_size start_bus end_bus = (2 ^ 64 + (end_bus + 1) * 0x100000 - start_bus * 0x100000) % 2 ^ 64

-- The loop of `acpi_parse_mcfg` from the entry at `e` on.
unfoldable pub map_spaces : Memory → (count e : ℕ) → List MapCall → List MapCall
unfolding le
map_spaces mem zero e maps = maps
map_spaces mem (suc count) e maps =
    let base = le mem e 8 in
    map_spaces mem count (e + 16)
      (range (virt base) base (ecam_size (mem (e + 10)) (mem (e + 11))) device_flags ∷ maps)

-- `acpi_parse_mcfg`. The length is taken off by 44 in 64 bits.
unfoldable pub parse_mcfg : Memory → (mcfg : ℕ) → Acpi → Acpi
unfolding map_spaces le
parse_mcfg mem mcfg s =
    let count = (2 ^ 64 + table_length mem mcfg - 44) % 2 ^ 64 / 16 in
    record s { maps = map_spaces mem count (mcfg + 44) s.maps }

-- A table that the root table lists, by its signature.
unfoldable pub take_table : Memory → (table : ℕ) → Acpi → Parse Acpi
unfolding parse_mcfg parse_madt parse_fadt matches
take_table mem table s =
    if matches mem table mcfg_sign
    then ended (parse_mcfg mem table (record s { mcfg_table = table }))
    else if matches mem table madt_sign
    then parse_madt mem table (record s { madt_table = table })
    else if matches mem table fadt_sign
    then ended (parse_fadt mem table (record s { fadt_table = table }))
    else ended s

-- The loop over the entries of the root table, which are `width` bytes wide, from the one at `e` on.
unfoldable pub take_tables : Memory → (width rounds e : ℕ) → Acpi → Parse Acpi
take_tables mem width zero e s = ended s
take_tables mem width (suc rounds) e s = do
  s' ← take_table mem (virt (le mem e width)) s
  take_tables mem width rounds (e + width) s'

-- A number of 32 bits as the bound of a loop over an `int` from 0 on.
abbrev pub int_rounds : ℕ → ℕ
int_rounds n = if ltb n (2 ^ 31) then n else 0

-- A root table, whose entries are 4 bytes (RSDT) or 8 bytes (XSDT) wide, is used where its checksum is 0.
unfoldable pub parse_root : Memory → (width root : ℕ) → Acpi → Parse Acpi
parse_root mem width root s =
    if checksum mem root (table_length mem root) == 0
    then take_tables mem width
        (int_rounds ((2 ^ 64 + table_length mem root - 36) % 2 ^ 64 / width % 2 ^ 32)) (root + 36) s
    else ended s

-- `acpi_parse_rsdt`.
unfoldable pub parse_rsdt : Memory → (rsdp : ℕ) → Acpi → Parse Acpi
parse_rsdt mem rsdp s =
    if leb 2 (mem (rsdp + 15))
    then parse_root mem 8 (virt (le mem (rsdp + 24) 8)) s
    else parse_root mem 4 (virt (le mem (rsdp + 16) 4)) s

-- What follows the search for the root pointer; without one the kernel stops.
abbrev pub parse_found : Memory → Option ℕ → Acpi → Parse Acpi
parse_found mem none s = no_end
parse_found mem (some rsdp) s = parse_rsdt mem rsdp s

-- `acpi_init`.
unfoldable pub acpi_init : Memory → Option (List SmmapEntry) → Acpi → Parse Acpi
acpi_init mem map s = parse_found mem (find_rsdp mem map) s
