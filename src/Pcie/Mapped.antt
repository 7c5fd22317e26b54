-- ===== src/Pcie/Mapped.antt =====
-- Kernel/drivers/core/pcie.c and acpi.c: the addresses at which registers are read are those that the
-- parsing of the ACPI tables has mapped.
use aos.Base.{
  ℕ, zero, suc, ◌+◌, ◌-◌, ◌/◌, ◌%◌, ◌^◌, ◌<◌, ◌≤◌, ◌≡◌, ◌⊎◌, inl, inr, refl, arith, ◌&&◌, leb, ◌==◌,
}
use aos.Base.{List, [], ◌∷◌, some, Bool-cases}
use aos.Acpi.{Memory, le, virt}
use aos.Acpi.Tables.{
  Acpi, MapCall, page, range, ecam_size, map_spaces, parse_mcfg, device_flags, table_length,
}
use aos.Pcie.{
  Segment, segment_at, segments_at, mcfg_at, get_segment, segment_of, Access, memory, ports,
}
use aos.Pcie.{read_access, space_offset}
use aos.Pcie.Address.{InFunction, Covers}

-- The four bytes at an address lie in a range that a call has mapped.
abbrev pub IsMapped : List MapCall → (address : ℕ) → Type 0
IsMapped [] address = ⊥
IsMapped (page v p flags ∷ maps) address = IsMapped maps address
IsMapped (range v p size flags ∷ maps) address =
    ((d : ℕ) × (d + 4 ≤ size) × (address ≡ (v + d) % 2 ^ 64)) ⊎ IsMapped maps address

abbrev pub IsReached : List MapCall → Access → Type 0
IsReached maps (memory address) = IsMapped maps address
IsReached maps (ports address) = Unit {0}

map_spaces-keeps :
    (mem : Memory) (count e : ℕ) (maps : List MapCall) (address : ℕ)
    → IsMapped maps address
    → IsMapped (map_spaces mem count e maps) address
unfolding map_spaces
map_spaces-keeps mem zero e maps address h = h
map_spaces-keeps mem (suc count) e maps address h =
    let base = le mem e 8 in
    map_spaces-keeps mem count (e + 16)
      (range (virt base) base (ecam_size (mem (e + 10)) (mem (e + 11))) device_flags ∷ maps) address
      (inr h)

-- A register in the space of a segment that covers its bus.
in_space :
    (e : Segment) (bus slot func offset : ℕ)
    → Covers (some e) bus
    → e.end_bus < 256
    → InFunction slot func offset
    → space_offset e bus slot func offset + 4 ≤ ecam_size e.start_bus e.end_bus
in_space e bus slot func offset (low, high) small (s, f, o) =
    omega (arith, low, high, small, s, f, o)

map_spaces-IsReached :
    (mem : Memory) (count e : ℕ) (maps : List MapCall) (bus slot func offset : ℕ)
    → ((a : ℕ) → mem a < 256)
    → InFunction slot func offset
    → IsReached
        (map_spaces mem count e maps)
        (read_access (get_segment (segments_at mem count e) bus) bus slot func offset)
unfolding map_spaces segments_at get_segment
map_spaces-IsReached mem zero e maps bus slot func offset bytes i = tt
map_spaces-IsReached mem (suc count) e maps bus slot func offset bytes i =
    let seg = segment_at mem e in
    let base = le mem e 8 in
    let here : MapCall =
      range (virt base) base (ecam_size (mem (e + 10)) (mem (e + 11))) device_flags in
    let d = space_offset seg bus slot func offset in
    elim (Bool-cases (leb (mem (e + 10)) bus && leb bus (mem (e + 11)))) [
      | inl t ↦
          let covers : Covers (some seg) bus = (ground (arith, t), ground (arith, t)) in
          rw t (
            map_spaces-keeps mem count (e + 16) (here ∷ maps) ((virt base + d) % 2 ^ 64)
              (inl (d, in_space seg bus slot func offset covers (bytes (e + 11)) i, refl)))
      | inr t ↦
          rw t (map_spaces-IsReached mem count (e + 16) (here ∷ maps) bus slot func offset bytes i)
    ]

-- After acpi_parse_mcfg, with the segments that pcie_init takes from the same table, pcie_read of any
-- register goes through the ports, or reads four bytes that lie in a range that was mapped.
pub pcie_read-mapped :
    (mem : Memory) (mcfg : ℕ) (s : Acpi) (bus slot func offset : ℕ)
    → ((a : ℕ) → mem a < 256)
    → InFunction slot func offset
    → IsReached
        (parse_mcfg mem mcfg s).maps
        (read_access (segment_of (mcfg_at mem mcfg) bus) bus slot func offset)
unfolding parse_mcfg mcfg_at
pcie_read-mapped mem mcfg s bus slot func offset bytes i = elim (Bool-cases (mcfg == 0)) [
  | inl n ↦ rw n tt
  | inr n ↦ rw n (
      map_spaces-IsReached mem ((2 ^ 64 + table_length mem mcfg - 44) % 2 ^ 64 / 16) (mcfg + 44)
        s.maps bus slot func offset bytes i)
]
