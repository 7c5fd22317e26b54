-- ===== src/Acpi.antt =====
-- Kernel/drivers/core/acpi.c: the tables of the firmware, in memory as bytes by address, from the
-- search for the root pointer to the state that the kernel keeps. An address is physical, behind
-- `AOS_DIRECT_MAP_BASE` where the code adds it.
pub mod Search
pub mod Tables
pub mod Timer
pub mod Cores
pub mod Roots
mod Tests
use aos.Base.{
  ℕ, zero, suc, ◌+◌, ◌-◌, ◌*◌, ◌/◌, ◌%◌, ◌^◌, Bool, true, false, not, ◌&&◌, ◌||◌, ltb, leb, ◌==◌,
}
use aos.Base.{List, [], ◌∷◌, ◌++◌, Option, none, some, length, if◌then◌else◌}
use aos.Pager.Boot.{
  SmmapType, SmmapEntry, unusable, reserved, acpi_nvs, acpi_reclaim, uniboot_structs, free,
}

abbrev pub Memory : Type 0
Memory = ℕ → ℕ

-- A field of `n` bytes, the lowest first.
unfoldable pub le : Memory → (addr n : ℕ) → ℕ
le mem addr zero = 0
le mem addr (suc n) = mem addr + 256 * le mem (addr + 1) n

-- `AOS_DIRECT_MAP_BASE`.
abbrev pub direct_map : ℕ
direct_map = 0xFFFF800000000000

abbrev pub virt : (phys : ℕ) → ℕ
virt phys = (direct_map + phys) % 2 ^ 64

-- `memcmp(addr, text, length) == 0`.
unfoldable pub matches : Memory → (addr : ℕ) → List ℕ → Bool
matches mem addr [] = true
matches mem addr (c ∷ text) = (mem addr == c) && matches mem (addr + 1) text

-- The loop of `acpi_checksum`, on a sum of 8 bits.
unfoldable pub checksum_from : Memory → (sum addr len : ℕ) → ℕ
checksum_from mem sum addr zero = sum
checksum_from mem sum addr (suc len) = checksum_from mem ((sum + mem addr) % 256) (addr + 1) len

unfoldable pub checksum : Memory → (addr len : ℕ) → ℕ
unfolding checksum_from
checksum mem addr len = checksum_from mem 0 addr len

-- "RSD PTR ", "MCFG", "APIC" and "FACP".
abbrev pub rsdp_sign : List ℕ
rsdp_sign = 82 ∷ 83 ∷ 68 ∷ 32 ∷ 80 ∷ 84 ∷ 82 ∷ 32 ∷ []

abbrev pub mcfg_sign : List ℕ
mcfg_sign = 77 ∷ 67 ∷ 70 ∷ 71 ∷ []

abbrev pub madt_sign : List ℕ
madt_sign = 65 ∷ 80 ∷ 73 ∷ 67 ∷ []

abbrev pub fadt_sign : List ℕ
fadt_sign = 70 ∷ 65 ∷ 67 ∷ 80 ∷ []

-- The tests on a root pointer: the first 20 bytes, and all 36 from revision 2 on.
unfoldable pub is_rsdp : Memory → (addr : ℕ) → Bool
unfolding matches checksum
is_rsdp mem addr =
    matches mem addr rsdp_sign
    && (checksum mem addr 20 == 0 && (ltb (mem (addr + 15)) 2 || checksum mem addr 36 == 0))

-- A loop over the addresses of an area in steps of 16 bytes, as far as `rounds`.
unfoldable pub scan : Memory → (rounds addr limit : ℕ) → Option ℕ
unfolding is_rsdp
scan mem zero addr limit = none
scan mem (suc rounds) addr limit =
    let rest = scan mem rounds ((addr + 16) % 2 ^ 64) limit in
    if ltb addr limit then (if is_rsdp mem addr then some addr else rest) else none

-- The number of its steps is enough for it, where the last does not wrap.
unfoldable pub scan_area : Memory → (base limit : ℕ) → Option ℕ
unfolding scan
scan_area mem base limit = scan mem ((limit - base + 15) / 16) base limit

-- The types of memory that are searched.
abbrev pub is_searched : SmmapType → Bool
is_searched unusable = false
is_searched reserved = true
is_searched acpi_nvs = true
is_searched acpi_reclaim = true
is_searched uniboot_structs = false
is_searched free = false

abbrev pub or_else {ℓ} : {A : Type ℓ} → Option A → Option A → Option A
or_else none other = other
or_else (some a) other = some a

unfoldable pub search_map : Memory → List SmmapEntry → Option ℕ
unfolding scan_area
search_map mem [] = none
search_map mem (e ∷ entries) =
    or_else
      (if is_searched e.type
        then scan_area mem (virt e.phys_start) (virt (e.phys_start + e.size))
        else none)
      (search_map mem entries)

-- The address of the extended data of the BIOS, from the word at 0x40E.
abbrev pub ebda : Memory → ℕ
ebda mem = le mem (virt 0x40E) 2 * 16 % 2 ^ 32

-- The loop starts behind `AOS_DIRECT_MAP_BASE`, and ends 1024 bytes behind the physical address.
abbrev pub search_ebda : Memory → Option ℕ
search_ebda mem = scan_area mem (virt (ebda mem)) ((ebda mem + 1024) % 2 ^ 32)

abbrev pub search_bios : Memory → Option ℕ
search_bios mem = scan_area mem (virt 0xE0000) (virt 0x100000)

abbrev pub map_or_nothing : Memory → Option (List SmmapEntry) → Option ℕ
map_or_nothing mem none = none
map_or_nothing mem (some entries) = search_map mem entries

-- `acpi_find_rsdp`, for the map that the boot loader has left, if it has left one.
unfoldable pub find_rsdp : Memory → Option (List SmmapEntry) → Option ℕ
find_rsdp mem map = or_else (map_or_nothing mem map) (or_else (search_ebda mem) (search_bios mem))
