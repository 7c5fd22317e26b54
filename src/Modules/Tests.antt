-- ===== src/Modules/Tests.antt =====
-- Kernel/src/module.c: the built-in modules registered at some addresses.
use aos.Base.{ℕ, ◌<◌, ◌≡◌, refl, arith, true, false, not, ◌&&◌, ◌==◌, if◌then◌else◌}
use aos.Base.{[], ◌∷◌, get_elem?, done, fault}
use aos.Modules.{
  Module, Registry, Query, module_register, module_unregister, is_registered, clear_module,
}
use aos.Modules.{get_registered_driver}
use aos.Modules.Core.{sata, nvme, xhci}
use aos.Modules.Sets.{IsSound, Added, module_register_lem, module_unregister_lem}
use aos.Modules.Search.{fitting, or_null, get_registered_driver_lem, search-unregistered}

abbrev at_addresses : ℕ → Module
at_addresses a = if a == 0x1000 then sata else if a == 0x2000 then nvme else xhci

abbrev registry : Registry
registry = record {
  slots = 0x1000 ∷ 0x2000 ∷ 0x3000 ∷ [];
  allocated = true;
  cap = 16;
  modules = at_addresses;
  answers = [];
}

registry-IsSound : IsSound registry
registry-IsSound = record { room = omega arith; empty = λ t. cc }

-- Any driver for a drive.
abbrev drives : Query
drives = record {
  class = 1;
  subclass = 0;
  use_subclass = false;
  progif = 0;
  use_progif = false;
  revision = 0;
  use_revision = false;
  vendor = 0;
  use_vendor = false;
}

module_register_lem_example :
    Added registry 0x4000 (module_register registry 0x4000).0 (module_register registry 0x4000).1
module_register_lem_example = module_register_lem registry 0x4000 registry-IsSound

module_unregister_lem_example :
    IsSound (module_unregister registry 0x2000).1
    × ((b : ℕ)
        → 0 < b
        → is_registered (module_unregister registry 0x2000).1.slots b
          ≡ (not (0x2000 == b) && is_registered registry.slots b))
module_unregister_lem_example = module_unregister_lem registry 0x2000 registry-IsSound

get_registered_driver_lem_example :
    get_registered_driver registry drives 1
    ≡ done (or_null (get_elem? (fitting at_addresses drives registry.slots) 1))
unfolding is_registered
get_registered_driver_lem_example = get_registered_driver_lem registry drives 1 refl

search-unregistered_example :
    get_registered_driver (module_unregister registry 0x1000).1 drives 1 ≡ fault
unfolding is_registered clear_module
search-unregistered_example = search-unregistered registry 0x1000 drives 1 refl (omega arith)
