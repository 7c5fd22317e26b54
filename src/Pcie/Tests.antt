-- ===== src/Pcie/Tests.antt =====
-- Kernel/drivers/core/pcie.c: two configuration spaces and a controller on the second.
use aos.Base.{ℕ, ◌+◌, ◌-◌, ◌*◌, ◌%◌, ◌^◌, ◌≡◌, refl, arith, true, ◌==◌, leb}
use aos.Base.{List, [], ◌∷◌, Option, none, some, if◌then◌else◌, get_elem?}
use aos.Acpi.{Memory, virt}
use aos.Acpi.Tables.{Acpi, parse_mcfg}
use aos.Pcie.{
  Segment, mcfg_at, get_segment, ports, segment_of, memory, read_access, Registers, pcie_read,
  pcie_write,
}
use aos.Pcie.{toggle_busmaster, get_busmaster_toggled}
use aos.Base.{false, Exec, done, fault, Ends}
use aos.Modules.{Registry, is_registered, module_register, get_driver, is_applicable, has_free}
use aos.Modules.Core.{sata}
use aos.Modules.Search.{fitting}
use aos.Modules.Copies.{get_driver_alloced}
use aos.Drives
use aos.Drives.{Sata, mass_storage, get_available_drives_pcie}
use aos.Drives.Walk.{walk}
use aos.Pcie.Init.{Enumeration, Machine, pcie_init}
use aos.Pcie.Registered.{IsFull, IsPlaced, pcie_init_lem}
use aos.Pcie.Address.{IsUnnumbered, read-write_numbered}
use aos.Pcie.Mapped.{IsReached, pcie_read-mapped}
use aos.Pcie.Command.{Toggled, get-toggle_busmaster}
use aos.Pcie.Loops.{
  is_class, is_class_ex, is_class_rex, find_in, pcie_find, pcie_find_ex, pcie_find_rex,
}
use aos.Pcie.Find.{Finds, pcie_find_lem}

abbrev space : (number start_bus end_bus : ℕ) → Segment
space number start_bus end_bus = record {
  base_addr = 0xB0000000;
  pcie_segment = number;
  start_bus = start_bus;
  end_bus = end_bus;
}

abbrev spaces : List Segment
spaces = space 0 2 0x0F ∷ space 1 0x10 0x1F ∷ []

-- A disk controller as function 0 of slot 3 on bus 2, and no other function.
abbrev at : (offset : ℕ) → ℕ
at offset = (virt 0xB0000000 + 3 * 2 ^ 15 + offset) % 2 ^ 64

abbrev disk : (address : ℕ) → ℕ
disk address =
    if address == at 0
    then 0x29228086
    else if address == at 8
    then 0x01060102
    else if address == at 0x10
    then 0xFEBF0000
    else if address == at 0x0C
    then 0
    else if address == at 4
    then 0x02B00003
    else 0xFFFFFFFF

abbrev regs : Registers
regs (memory address) = disk address
regs (ports address) = 0xFFFFFFFF

disk_found :
    pcie_find_rex (some (space 0 2 2 ∷ [])) regs 1 6 1 2 (some 0x8086)
    ≡ some (record { bus = 2; slot = 3; func = 0; bar0 = 0xFEBF0000 })
unfolding pcie_find_rex find_in pcie_read
disk_found = refl

pcie_find_lem_example :
    Finds (some spaces) regs none (is_class 1) (pcie_find (some spaces) regs 1 none)
    × Finds (some spaces) regs none (is_class_ex 1 6 1) (pcie_find_ex (some spaces) regs 1 6 1 none)
    × Finds
        (some spaces)
        regs
        none
        (is_class_rex 1 6 1 2)
        (pcie_find_rex (some spaces) regs 1 6 1 2 none)
pcie_find_lem_example = pcie_find_lem (some spaces) regs none 1 6 1 2

read-write_numbered_example :
    pcie_read (some spaces) (pcie_write (some spaces) regs 0x12 3 0 0x10 5) 0x12 3 0 0x10
    ≡ pcie_read (some spaces) regs 0x12 3 0 0x10
unfolding get_segment
read-write_numbered_example =
    read-write_numbered (some spaces) (space 1 0x10 0x1F) regs 0x12 3 0 0x10 5 refl (omega arith)
      (omega arith)

on_IsUnnumbered : IsUnnumbered (segment_of (some spaces) 2)
unfolding get_segment
on_IsUnnumbered = refl

get-toggle_busmaster_example :
    Toggled 4 true
      (get_busmaster_toggled (some spaces) (toggle_busmaster (some spaces) regs 2 3 0 true) 2 3 0)
      (pcie_read (some spaces) regs 2 3 0 0x04)
      (pcie_read (some spaces) (toggle_busmaster (some spaces) regs 2 3 0 true) 2 3 0 0x04)
unfolding get_segment pcie_read
get-toggle_busmaster_example =
    get-toggle_busmaster (some spaces) regs 2 3 0
      (omega arith, (omega arith, omega arith, omega arith)) on_IsUnnumbered true (omega arith)

-- A table of one segment behind its head, at 0x100.
abbrev mcfg_bytes : List ℕ
mcfg_bytes = 0 ∷ 0 ∷ 0 ∷ 0xB0 ∷ 0 ∷ 0 ∷ 0 ∷ 0 ∷ 0 ∷ 0 ∷ 0 ∷ 0x3F ∷ 0 ∷ 0 ∷ 0 ∷ 0 ∷ []

abbrev or_zero : Option ℕ → ℕ
or_zero none = 0
or_zero (some b) = b

abbrev mem : Memory
mem a =
    if a == 0x104
    then 60
    else if leb 0x12C a
    then or_zero (get_elem? mcfg_bytes (a - 0x12C)) % 256
    else 0

abbrev acpi : Acpi
acpi = record {
  mcfg_table = 0x100;
  madt_table = 0;
  fadt_table = 0;
  apic_ids = [];
  pm_timer_port = 0;
  pm_timer_24bit = true;
  maps = [];
}

pcie_read-mapped_example :
    IsReached
      (parse_mcfg mem 0x100 acpi).maps
      (read_access (segment_of (mcfg_at mem 0x100) 2) 2 3 0 0x10)
pcie_read-mapped_example =
    pcie_read-mapped mem 0x100 acpi 2 3 0 0x10 (λ a. ground arith)
      (omega arith, omega arith, omega arith)

abbrev sata_operations : Sata ℕ
sata_operations = record {
  device = λ s address. record {
    type = Drives.sata;
    initialize_on_register = true;
    place = record { bus = 2; slot = 3; func = 0 };
    controller_idx = 0;
  };
  init = λ s address. (true, s);
  ports = λ s cidx. 1 ∷ [];
  block_device = λ s cidx port. (some 100, s);
}

-- A kernel with the driver of SATA at 0x1000, whose copies are made at 0x9000.
abbrev machine : Machine
machine = record {
  read = pcie_read (some (space 0 2 2 ∷ [])) regs;
  core_modules = 0x1000 ∷ [];
  answer = λ bus slot func. some 0x9000;
  is_initialized = λ bus slot func. true;
}

abbrev no_registry : Registry
no_registry = record {
  slots = [];
  allocated = false;
  cap = 0;
  modules = λ a. sata;
  answers = true ∷ [];
}

no_registry-IsFull : IsFull no_registry
unfolding is_registered
no_registry-IsFull = (record { room = omega arith; empty = λ t. refl }, refl)

abbrev slots_of : Exec Enumeration → List ℕ
slots_of (done s) = s.registry.slots
slots_of fault = []

disk_registered : slots_of (pcie_init machine (some (space 0 2 2 ∷ [])) no_registry) ≡ 0x9000 ∷ []
unfolding pcie_init pcie_read is_registered get_driver_alloced module_register get_driver
    is_applicable has_free
disk_registered = refl

pcie_init_lem_example : Ends (pcie_init machine (some spaces) no_registry) (λ s.
    IsFull s.registry
    × IsPlaced machine no_registry s
    × (get_available_drives_pcie sata_operations s.registry
          (record { bus = 2; slot = 3; func = 0 })
          0
        ≡ walk sata_operations
            (record { bus = 2; slot = 3; func = 0 })
            (fitting s.registry.modules mass_storage s.registry.slots)
            0))
unfolding is_registered
pcie_init_lem_example =
    pcie_init_lem sata_operations (record { bus = 2; slot = 3; func = 0 }) 0 machine (some spaces)
      no_registry refl no_registry-IsFull
