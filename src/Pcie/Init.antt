-- ===== src/Pcie/Init.antt =====
-- Kernel/drivers/core/pcie.c: `pcie_init`, which registers a copy of a driver for each function that
-- one fits.
use aos.Base.{ℕ, zero, suc, ◌+◌, ◌-◌, ◌/◌, ◌%◌, ◌^◌, Bool, true, not, ◌&&◌, ◌||◌, ◌==◌}
use aos.Base.{List, [], ◌∷◌, Option, if◌then◌else◌, Exec, done, ◌>>=◌}
use aos.Modules.{Registry, Query, module_register, is_registered}
use aos.Modules.Copies.{get_driver_alloced}
use aos.Pcie.{Segment}
use aos.Pcie.Loops.{Function, bus_ranges}

-- What the loop changes: the registry, the places in `pcie_device` of the copies, and the copies that
-- are freed; the latest first.
pub record Enumeration : Type 0 where
  pub registry : Registry
  pub places : List (ℕ × Function)
  pub freed : List ℕ

-- What is asked for a function, by its class register and its vendor.
abbrev pub query_for : (class_data vendor : ℕ) → Query
query_for class_data vendor = record {
  class = class_data / 2 ^ 24 % 256;
  subclass = class_data / 2 ^ 16 % 256;
  use_subclass = true;
  progif = class_data / 2 ^ 8 % 256;
  use_progif = true;
  revision = class_data % 256;
  use_revision = true;
  vendor = vendor;
  use_vendor = true;
}

-- The registers, which do not change meanwhile, the modules of the kernel, and for each function what
-- `avmf_alloc` answers for a copy and what `init_module` answers.
pub record Machine : Type 0 where
  pub read : (bus slot func offset : ℕ) → ℕ
  pub core_modules : List ℕ
  pub answer : (bus slot func : ℕ) → Option ℕ
  pub is_initialized : (bus slot func : ℕ) → Bool

module _ (m : Machine) where
  -- A copy with its place is initialized, where it asks for it, and registered.
  abbrev pub register_copy : Enumeration → Function → (address : ℕ) → Enumeration
  register_copy s x address =
      let s' = record s { places = (address, x) ∷ s.places } in
      if (s.registry.modules address).initialize_on_register
        && not (m.is_initialized x.bus x.slot x.func)
      then record s' { freed = address ∷ s.freed }
      else record s' { registry = (module_register s.registry address).1 }

  abbrev pub take_copy : Enumeration → Function → ℕ × Registry → Enumeration
  take_copy s x (address, r) =
      if (address == 0 || not (r.modules address).is_driver) || is_registered r.slots address
      then record s { registry = r }
      else register_copy (record s { registry = r }) x address

  -- The body of the loop on a function.
  unfoldable pub visit : Enumeration → (bus slot func : ℕ) → Exec Enumeration
  visit s bus slot func =
      let vendor = m.read bus slot func 0 % 2 ^ 16 in
      let x : Function = record {
        bus = bus;
        slot = slot;
        func = func;
        bar0 = m.read bus slot func 0x10;
      } in
      if vendor == 0xFFFF
      then done s
      else get_driver_alloced s.registry m.core_modules
          (query_for (m.read bus slot func 0x08) vendor) 0 (m.answer bus slot func)
        >>= λ copy. done (take_copy s x copy)

  unfoldable pub visit_funcs : (bus slot func rounds : ℕ) → Enumeration → Exec Enumeration
  unfolding visit
  visit_funcs bus slot func zero s = done s
  visit_funcs bus slot func (suc rounds) s =
      visit s bus slot func >>= visit_funcs bus slot (func + 1) rounds

  unfoldable pub visit_slots : (bus slot rounds : ℕ) → Enumeration → Exec Enumeration
  unfolding visit_funcs
  visit_slots bus slot zero s = done s
  visit_slots bus slot (suc rounds) s =
      let max_funcs = if m.read bus slot 0 0x0C / 2 ^ 16 % 256 / 128 % 2 == 1 then 8 else 1 in
      visit_funcs bus slot 0 max_funcs s >>= visit_slots bus (slot + 1) rounds

  unfoldable pub visit_buses : (bus rounds : ℕ) → Enumeration → Exec Enumeration
  unfolding visit_slots
  visit_buses bus zero s = done s
  visit_buses bus (suc rounds) s = visit_slots bus 0 32 s >>= visit_buses (bus + 1) rounds

  unfoldable pub visit_ranges : List (ℕ × ℕ) → Enumeration → Exec Enumeration
  unfolding visit_buses
  visit_ranges [] s = done s
  visit_ranges ((start_bus, end_bus) ∷ ranges) s =
      visit_buses start_bus (end_bus + 1 - start_bus) s >>= visit_ranges ranges

  -- `pcie_init` behind the reading of the table.
  unfoldable pub pcie_init : Option (List Segment) → Registry → Exec Enumeration
  unfolding visit_ranges
  pcie_init mcfg r =
      visit_ranges (bus_ranges mcfg) (record { registry = r; places = []; freed = [] })
