-- ===== src/Pcie/Address.antt =====
-- Kernel/drivers/core/pcie.c: registers of the functions on the bus do not overlap, and the addresses
-- at which they are read are those that the parsing of the ACPI tables has mapped.
use aos.Base.{
  ℕ, ◌+◌, ◌*◌, ◌/◌, ◌^◌, ◌<◌, ◌≤◌, ◌≡◌, refl, sym, arith, bit_or, Bool, false, ◌&&◌, leb, ◌==◌,
}
use aos.Base.{List, [], ◌∷◌, Option, none, some, if◌then◌else◌, if_cases}
use aos.Base.Words.{bit_or-below}
use aos.Pcie.{Segment, get_segment, segment_of}
use aos.Pcie.{dword_offset, legacy_address, read_access, write_access, same_access}
use aos.Pcie.{Registers, pcie_read, pcie_write}

-- A slot, a function and a byte of the 256 that the code can name.
abbrev pub InFunction : (slot func offset : ℕ) → Type 0
InFunction slot func offset = (slot < 32) × (func < 8) × (offset < 256)

-- The ports take one number for each register.
legacy_sum :
    (bus slot func offset : ℕ)
    → bus < 256
    → InFunction slot func offset
    → legacy_address bus slot func offset
      ≡ 2 ^ 31 + bus * 2 ^ 16 + slot * 2 ^ 11 + func * 2 ^ 8 + dword_offset offset
legacy_sum bus slot func offset b (s, f, o) =
    let first : bit_or (2 ^ 31) (bus * 2 ^ 16) ≡ 2 ^ 31 + bus * 2 ^ 16 =
      bit_or-below 24 128 (bus * 2 ^ 16) (omega (arith, b)) in
    let second : 2 ^ 31 + bus * 2 ^ 16 ≡ (2 ^ 15 + bus) * 2 ^ 16 = omega arith in
    let third : (2 ^ 15 + bus) * 2 ^ 16 + slot * 2 ^ 11 ≡ (2 ^ 20 + bus * 2 ^ 5 + slot) * 2 ^ 11 =
      omega arith in
    let fourth : (2 ^ 20 + bus * 2 ^ 5 + slot) * 2 ^ 11 + func * 2 ^ 8
        ≡ (2 ^ 23 + bus * 2 ^ 8 + slot * 2 ^ 3 + func) * 2 ^ 8 =
      omega arith in
    rw
      (
        first,
        second,
        bit_or-below 16 (2 ^ 15 + bus) (slot * 2 ^ 11) (omega (arith, s)),
        third,
        bit_or-below 11 (2 ^ 20 + bus * 2 ^ 5 + slot) (func * 2 ^ 8) (omega (arith, f)),
        fourth,
        bit_or-below 8 (2 ^ 23 + bus * 2 ^ 8 + slot * 2 ^ 3 + func) (dword_offset offset)
            (omega (arith, o)),
      )
      (omega arith)

-- The number of a segment is 0, where there is one.
abbrev pub IsUnnumbered : Option Segment → Type 0
IsUnnumbered none = Unit {0}
IsUnnumbered (some e) = e.pcie_segment ≡ 0

-- Where a segment covers a bus, the bus is in its range.
abbrev pub Covers : Option Segment → (bus : ℕ) → Type 0
Covers none bus = Unit {0}
Covers (some e) bus = (e.start_bus ≤ bus) × (bus ≤ e.end_bus)

pub get_segment-Covers : (segments : List Segment) (bus : ℕ) → Covers (get_segment segments bus) bus
unfolding get_segment
get_segment-Covers [] bus = tt
get_segment-Covers (e ∷ segments) bus =
    if_cases (λ (o : Option Segment). Covers o bus) (leb e.start_bus bus && leb bus e.end_bus)
      (λ t. (ground (arith, t), ground (arith, t))) (λ t. get_segment-Covers segments bus)

segment_of-Covers : (mcfg : Option (List Segment)) (bus : ℕ) → Covers (segment_of mcfg bus) bus
segment_of-Covers none bus = tt
segment_of-Covers (some segments) bus = get_segment-Covers segments bus

-- Is it the same register?
abbrev pub same_register : (bus slot func offset bus' slot' func' offset' : ℕ) → Bool
same_register bus slot func offset bus' slot' func' offset' =
    bus == bus' && (slot == slot' && (func == func' && offset / 4 == offset' / 4))

same_access-register :
    (o : Option Segment) (bus slot func offset bus' slot' func' offset' : ℕ)
    → (bus < 256) × InFunction slot func offset
    → (bus' < 256) × InFunction slot' func' offset'
    → Covers o bus
    → Covers o bus'
    → IsUnnumbered o
    → same_access (read_access o bus' slot' func' offset') (write_access o bus slot func offset)
      ≡ same_register bus slot func offset bus' slot' func' offset'
same_access-register none bus slot func offset bus' slot' func' offset' (b, i) (b', i') c c' u =
    rw (legacy_sum bus slot func offset b i, legacy_sum bus' slot' func' offset' b' i')
      (ground (arith, b, i, b', i'))
same_access-register (some e) bus slot func offset bus' slot' func' offset' (b, i) (b', i') c c' u =
    rw u (ground (arith, b, i, b', i', c, c'))

-- Two registers on buses that one segment covers, or that none covers.
abbrev pub OneSpace : Option (List Segment) → (bus bus' : ℕ) → Type 0
OneSpace mcfg bus bus' = segment_of mcfg bus ≡ segment_of mcfg bus'

pub pcie_read-write :
    (mcfg : Option (List Segment)) (regs : Registers) (value : ℕ)
    (bus slot func offset bus' slot' func' offset' : ℕ)
    → (bus < 256) × InFunction slot func offset
    → (bus' < 256) × InFunction slot' func' offset'
    → OneSpace mcfg bus bus'
    → IsUnnumbered (segment_of mcfg bus')
    → pcie_read mcfg (pcie_write mcfg regs bus slot func offset value) bus' slot' func' offset' ≡ (
        if same_register bus slot func offset bus' slot' func' offset'
        then value
        else pcie_read mcfg regs bus' slot' func' offset')
unfolding pcie_read pcie_write
pcie_read-write mcfg regs value bus slot func offset bus' slot' func' offset' i i' one u =
    let covers : Covers (segment_of mcfg bus') bus = rw (sym one) (segment_of-Covers mcfg bus) in
    rw
      (
        one,
        same_access-register (segment_of mcfg bus') bus slot func offset bus' slot' func' offset' i
            i' covers (segment_of-Covers mcfg bus') u,
      )
      refl

numbered_apart :
    (e : Segment) (bus slot func offset : ℕ)
    → 0 < e.pcie_segment
    → e.pcie_segment < 2 ^ 16
    → same_access
        (read_access (some e) bus slot func offset)
        (write_access (some e) bus slot func offset)
      ≡ false
numbered_apart e bus slot func offset pos small = ground (arith, pos, small)

-- On a bus of a segment whose number is not 0, pcie_write writes elsewhere: pcie_read answers what it
-- answered before.
pub read-write_numbered :
    (mcfg : Option (List Segment)) (e : Segment) (regs : Registers) (bus slot func offset value : ℕ)
    → segment_of mcfg bus ≡ some e
    → 0 < e.pcie_segment
    → e.pcie_segment < 2 ^ 16
    → pcie_read mcfg (pcie_write mcfg regs bus slot func offset value) bus slot func offset
      ≡ pcie_read mcfg regs bus slot func offset
unfolding pcie_read pcie_write
read-write_numbered mcfg e regs bus slot func offset value found pos small =
    rw (found, numbered_apart e bus slot func offset pos small) refl
