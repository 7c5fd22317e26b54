-- ===== src/Drives/Tests.antt =====
-- The search for drives of Kernel/drivers/io/drive.c at concrete inputs.
use aos.Base.{ℕ, ◌+◌, ◌≡◌, refl, ◌==◌, if◌then◌else◌, true, [], ◌∷◌, some, done}
use aos.Modules.{Registry, is_registered}
use aos.Modules.Core.{nvme, sata}
use aos.Modules.Search.{fitting}
use aos.Drives
use aos.Drives.{
  Place, Device, Sata, Drive, mass_storage, get_available_drives_pcie, get_available_drives,
}
use aos.Drives.First.{first_drive, get_available_drives_lem}
use aos.Drives.Walk.{walk, get_available_drives_pcie_lem}

abbrev place : ℕ → Place
place slot = record { bus = 0; slot = slot; func = 0 }

abbrev device : (address : ℕ) → Device
device address = record {
  type = if address == 0x1000 then Drives.nvme else Drives.sata;
  initialize_on_register = true;
  place = place (if address == 0x3000 then 5 else 4);
  controller_idx = if address == 0x3000 then 1 else 0;
}

-- Two controllers with a disk at port 2, of 100 and 101.
abbrev controllers : Sata ℕ
controllers = record {
  device = λ s. device;
  init = λ s address. (true, s);
  ports = λ s cidx. 0 ∷ 0 ∷ 1 ∷ 0 ∷ [];
  block_device = λ s cidx port. (some (100 + cidx), s + 1);
}

abbrev registry : Registry
registry = record {
  slots = 0x1000 ∷ 0x2000 ∷ 0x3000 ∷ [];
  allocated = true;
  cap = 16;
  modules = λ a. if a == 0x1000 then nvme else sata;
  answers = [];
}

found_second :
    walk controllers (place 5) (fitting registry.modules mass_storage registry.slots) 0
    ≡ done (some (record { controller = 1; cur_port = 2; block_dev = 101 }), 1)
unfolding Drives.first_port
found_second = refl

get_available_drives_pcie_lem_example :
    get_available_drives_pcie controllers registry (place 5) 0
    ≡ walk controllers (place 5) (fitting registry.modules mass_storage registry.slots) 0
unfolding is_registered
get_available_drives_pcie_lem_example =
    get_available_drives_pcie_lem controllers (place 5) registry 0 refl

-- A machine without a driver for drives, but with a legacy drive.
abbrev no_modules : Registry
no_modules = record registry { slots = [] }

get_available_drives_lem_example :
    get_available_drives controllers no_modules true true 0
    ≡ first_drive controllers true true 0 (fitting no_modules.modules mass_storage [])
unfolding is_registered
get_available_drives_lem_example = get_available_drives_lem controllers true true 0 no_modules refl
