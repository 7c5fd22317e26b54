-- ===== src/Pcie.antt =====
-- Kernel/drivers/core/pcie.c: the registers of the functions on the bus, through the configuration
-- spaces of the ACPI tables or through the ports, and the searches for a function.
pub mod Address
pub mod Mapped
pub mod Command
pub mod Loops
pub mod Find
pub mod Init
pub mod Registered
mod Tests
use aos.Base.{
  ℕ, zero, suc, ◌+◌, ◌-◌, ◌*◌, ◌/◌, ◌%◌, ◌^◌, bit_and, bit_or, Bool, true, false, not, ◌&&◌, ltb,
  leb, ◌==◌,
}
use aos.Base.{List, [], ◌∷◌, Option, none, some, if◌then◌else◌}
use aos.Acpi.{Memory, le, virt}
use aos.Acpi.Tables.{table_length}

-- `struct acpi_mcfg_entry`.
pub record Segment : Type 0 where
  pub base_addr : ℕ
  pub pcie_segment : ℕ
  pub start_bus : ℕ
  pub end_bus : ℕ

abbrev pub segment_at : Memory → (e : ℕ) → Segment
segment_at mem e = record {
  base_addr = le mem e 8;
  pcie_segment = le mem (e + 8) 2;
  start_bus = mem (e + 10);
  end_bus = mem (e + 11);
}

unfoldable pub segments_at : Memory → (count e : ℕ) → List Segment
segments_at mem zero e = []
segments_at mem (suc count) e = segment_at mem e ∷ segments_at mem count (e + 16)

-- `mcfg_table` and `mcfg_num_segs` as `pcie_init` sets them, of a table at an address or NULL.
unfoldable pub mcfg_at : Memory → (mcfg : ℕ) → Option (List Segment)
unfolding segments_at
mcfg_at mem mcfg =
    if mcfg == 0
    then none
    else some (segments_at mem ((2 ^ 64 + table_length mem mcfg - 44) % 2 ^ 64 / 16) (mcfg + 44))

-- `get_segment`, with the entry in place of its index.
unfoldable pub get_segment : List Segment → (bus : ℕ) → Option Segment
get_segment [] bus = none
get_segment (e ∷ segments) bus =
    let rest = get_segment segments bus in
    if leb e.start_bus bus && leb bus e.end_bus then some e else rest

abbrev pub segment_of : Option (List Segment) → (bus : ℕ) → Option Segment
segment_of none bus = none
segment_of (some segments) bus = get_segment segments bus

-- Where a register is reached: at an address of memory, or by the address that is written to the port
-- 0xCF8.
pub data Access : Type 0 where
  memory : (address : ℕ) → Access
  ports : (address : ℕ) → Access

abbrev pub dword_offset : (offset : ℕ) → ℕ
dword_offset offset = offset / 4 * 4

-- The byte in a configuration space.
abbrev pub space_offset : Segment → (bus slot func offset : ℕ) → ℕ
space_offset e bus slot func offset =
    (bus - e.start_bus) * 2 ^ 20 + slot * 2 ^ 15 + func * 2 ^ 12 + dword_offset offset

abbrev pub legacy_address : (bus slot func offset : ℕ) → ℕ
legacy_address bus slot func offset =
    bit_or (bit_or (bit_or (bit_or (2 ^ 31) (bus * 2 ^ 16)) (slot * 2 ^ 11)) (func * 2 ^ 8))
      (dword_offset offset)

abbrev pub read_access : Option Segment → (bus slot func offset : ℕ) → Access
read_access none bus slot func offset = ports (legacy_address bus slot func offset)
read_access (some e) bus slot func offset =
    memory ((virt e.base_addr + space_offset e bus slot func offset) % 2 ^ 64)

-- The number of the segment counts here too.
abbrev pub write_access : Option Segment → (bus slot func offset : ℕ) → Access
write_access none bus slot func offset = ports (legacy_address bus slot func offset)
write_access (some e) bus slot func offset =
    memory
      ((virt e.base_addr + e.pcie_segment * 2 ^ 28 + space_offset e bus slot func offset) % 2 ^ 64)

abbrev pub same_access : Access → Access → Bool
same_access (memory a) (memory b) = a == b
same_access (memory a) (ports b) = false
same_access (ports a) (memory b) = false
same_access (ports a) (ports b) = a == b

-- The registers, of 32 bits each, that keep what is written.
abbrev pub Registers : Type 0
Registers = Access → ℕ

-- A bit of the command register, set or cleared.
abbrev pub with_bit : (mask : ℕ) (toggle : Bool) (cmd_reg : ℕ) → ℕ
with_bit mask toggle cmd_reg =
    if toggle then bit_or cmd_reg mask else bit_and cmd_reg (2 ^ 32 - 1 - mask)

module _ (mcfg : Option (List Segment)) where
  -- `pcie_read`.
  unfoldable pub pcie_read : Registers → (bus slot func offset : ℕ) → ℕ
  unfolding get_segment
  pcie_read regs bus slot func offset =
      regs (read_access (segment_of mcfg bus) bus slot func offset)

  -- `pcie_write`.
  unfoldable pub pcie_write : Registers → (bus slot func offset value : ℕ) → Registers
  unfolding get_segment
  pcie_write regs bus slot func offset value a =
      if same_access a (write_access (segment_of mcfg bus) bus slot func offset)
      then value
      else regs a

  -- `pcie_read_bar` and `pcie_write_bar`, from `PCI_BAR0` on.
  abbrev pub read_bar : Registers → (bus slot func bar_index : ℕ) → ℕ
  read_bar regs bus slot func bar_index =
      pcie_read regs bus slot func ((0x10 + bar_index * 4) % 256)

  abbrev pub write_bar : Registers → (bus slot func bar_index value : ℕ) → Registers
  write_bar regs bus slot func bar_index value =
      pcie_write regs bus slot func ((0x10 + bar_index * 4) % 256) value

  -- `pcie_config_read16`.
  unfoldable pub config_read16 : Registers → (bus slot func offset : ℕ) → ℕ
  config_read16 regs bus slot func offset =
      let value = pcie_read regs bus slot func (bit_and (dword_offset offset) 0xFC) in
      if bit_and (dword_offset offset) 2 == 0 then value % 2 ^ 16 else value / 2 ^ 16

  -- `pcie_toggle_busmaster` and `pcie_toggle_memory_space`.
  unfoldable pub toggle_busmaster : Registers → (bus slot func : ℕ) → (toggle : Bool) → Registers
  toggle_busmaster regs bus slot func toggle =
      pcie_write regs bus slot func 0x04 (with_bit 4 toggle (pcie_read regs bus slot func 0x04))

  unfoldable pub toggle_memory_space : Registers → (bus slot func : ℕ) → (toggle : Bool) → Registers
  toggle_memory_space regs bus slot func toggle =
      pcie_write regs bus slot func 0x04 (with_bit 2 toggle (pcie_read regs bus slot func 0x04))

  -- `pcie_get_busmaster_toggled` and `pcie_get_memory_space_toggled`.
  unfoldable pub get_busmaster_toggled : Registers → (bus slot func : ℕ) → ℕ
  get_busmaster_toggled regs bus slot func = bit_and (pcie_read regs bus slot func 0x04) 4

  unfoldable pub get_memory_space_toggled : Registers → (bus slot func : ℕ) → ℕ
  get_memory_space_toggled regs bus slot func = bit_and (pcie_read regs bus slot func 0x04) 2
