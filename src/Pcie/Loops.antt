-- ===== src/Pcie/Loops.antt =====
-- Kernel/drivers/core/pcie.c: the searches for a function on the bus.
use aos.Base.{ℕ, zero, suc, ◌+◌, ◌-◌, ◌/◌, ◌%◌, ◌^◌, Bool, false, not, ◌&&◌, ◌==◌}
use aos.Base.{List, [], ◌∷◌, map, Option, none, some, if◌then◌else◌}
use aos.Acpi.{or_else}
use aos.Pcie.{Segment, Registers, pcie_read}

-- What a search answers.
pub record Function : Type 0 where
  pub bus : ℕ
  pub slot : ℕ
  pub func : ℕ
  pub bar0 : ℕ

-- The vendor that is asked for, if one is.
abbrev pub Vendor : Type 0
Vendor = Option ℕ

abbrev pub other_vendor : (target : Vendor) (vendor : ℕ) → Bool
other_vendor none vendor = false
other_vendor (some target) vendor = not (vendor == target)

-- The tests of `pcie_find`, `pcie_find_ex` and `pcie_find_rex` on the class register.
abbrev pub is_class : (target_class : ℕ) (class_data : ℕ) → Bool
is_class target_class class_data = class_data / 2 ^ 24 % 256 == target_class

abbrev pub is_class_ex :
    (target_class target_subclass target_progifclass : ℕ) (class_data : ℕ) → Bool
is_class_ex target_class target_subclass target_progifclass class_data =
    is_class target_class class_data
    && (class_data / 2 ^ 16 % 256 == target_subclass
        && class_data / 2 ^ 8 % 256 == target_progifclass)

abbrev pub is_class_rex :
    (target_class target_subclass target_progifclass target_revision : ℕ) (class_data : ℕ) → Bool
is_class_rex target_class target_subclass target_progifclass target_revision class_data =
    is_class target_class class_data
    && (class_data / 2 ^ 16 % 256 == target_subclass
        && (class_data / 2 ^ 8 % 256 == target_progifclass && class_data % 256 == target_revision))

-- The buses of the segments, or all of them without a table.
abbrev pub bus_ranges : Option (List Segment) → List (ℕ × ℕ)
bus_ranges none = (0, 255) ∷ []
bus_ranges (some segments) = map (λ e. (e.start_bus, e.end_bus)) segments

-- The nested loops of the searches, over a test of the class register; `read` answers the registers.
module _ (read : (bus slot func offset : ℕ) → ℕ) (is_wanted : ℕ → Bool) (vendor : Vendor) where
  abbrev pub max_funcs : (bus slot : ℕ) → ℕ
  max_funcs bus slot = if read bus slot 0 0x0C / 2 ^ 16 % 256 / 128 % 2 == 1 then 8 else 1

  unfoldable pub find_func : (bus slot func rounds : ℕ) → Option Function
  find_func bus slot func zero = none
  find_func bus slot func (suc rounds) =
      let rest = find_func bus slot (func + 1) rounds in
      let id = read bus slot func 0 % 2 ^ 16 in
      if id == 0xFFFF
      then rest
      else if other_vendor vendor id
      then rest
      else if is_wanted (read bus slot func 0x08)
      then some (record { bus = bus; slot = slot; func = func; bar0 = read bus slot func 0x10 })
      else rest

  unfoldable pub find_slot : (bus slot rounds : ℕ) → Option Function
  unfolding find_func
  find_slot bus slot zero = none
  find_slot bus slot (suc rounds) =
      or_else (find_func bus slot 0 (max_funcs bus slot)) (find_slot bus (slot + 1) rounds)

  unfoldable pub find_bus : (bus rounds : ℕ) → Option Function
  unfolding find_slot
  find_bus bus zero = none
  find_bus bus (suc rounds) = or_else (find_slot bus 0 32) (find_bus (bus + 1) rounds)

  unfoldable pub find_in : List (ℕ × ℕ) → Option Function
  unfolding find_bus
  find_in [] = none
  find_in ((start_bus, end_bus) ∷ ranges) =
      or_else (find_bus start_bus (end_bus + 1 - start_bus)) (find_in ranges)

module _ (mcfg : Option (List Segment)) where
  -- `pcie_find`, `pcie_find_ex` and `pcie_find_rex`.
  unfoldable pub pcie_find : Registers → (target_class : ℕ) → Vendor → Option Function
  pcie_find regs target_class vendor =
      find_in (pcie_read mcfg regs) (is_class target_class) vendor (bus_ranges mcfg)

  unfoldable pub pcie_find_ex :
      Registers → (target_class target_subclass target_progifclass : ℕ) → Vendor → Option Function
  pcie_find_ex regs target_class target_subclass target_progifclass vendor =
      find_in (pcie_read mcfg regs) (is_class_ex target_class target_subclass target_progifclass)
        vendor (bus_ranges mcfg)

  unfoldable pub pcie_find_rex :
      Registers
      → (target_class target_subclass target_progifclass target_revision : ℕ) → Vendor
      → Option Function
  pcie_find_rex regs target_class target_subclass target_progifclass target_revision vendor =
      find_in (pcie_read mcfg regs)
        (is_class_rex target_class target_subclass target_progifclass target_revision) vendor
        (bus_ranges mcfg)
