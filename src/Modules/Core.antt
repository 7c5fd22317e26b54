-- ===== src/Modules/Core.antt =====
-- Kernel/src/module.c: the modules that `modules_init` sets up.
use aos.Base.{ℕ, Bool, true, false, List, [], ◌∷◌, if◌then◌else◌}
use aos.Modules.{Module}

abbrev driver :
    (initialize_on_register : Bool) (class subclass progif : ℕ) (use_progif : Bool) (vendor : ℕ)
    (use_vendor : Bool)
    → Module
driver initialize_on_register class subclass progif use_progif vendor use_vendor = record {
  is_driver = true;
  initialize_on_register = initialize_on_register;
  registered = false;
  target_class = class;
  target_subclass = subclass;
  target_progifclass = progif;
  target_use_progifclass = use_progif;
  target_revision = 0;
  target_use_revision = false;
  target_vendor = vendor;
  target_use_vendor = use_vendor;
}

abbrev pub sata : Module
sata = driver true 0x01 0x06 0x01 true 0 false

abbrev pub nvme : Module
nvme = driver true 0x01 0x08 0x02 true 0 false

abbrev pub virtio_gpu : Module
virtio_gpu = driver false 0x03 0x00 0 false 0x1AF4 true

abbrev pub xhci : Module
xhci = driver true 0x0C 0x03 0x30 true 0 false

-- The modules of a kernel that leaves none of them out. There are none where memory is out.
abbrev pub modules_init : (allocated : Bool) → List Module
modules_init allocated = if allocated then sata ∷ nvme ∷ virtio_gpu ∷ xhci ∷ [] else []
