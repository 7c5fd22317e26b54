-- ===== src/Drives.antt =====
-- Kernel/drivers/io/drive.c: which drive a search of the registered modules finds. 0 is NULL.
pub mod Walk
pub mod First
mod Tests
use aos.Base.{ℕ, zero, suc, ◌+◌, Bool, true, false, not, ◌&&◌, ◌||◌, ◌==◌, if◌then◌else◌}
use aos.Base.{List, [], ◌∷◌, length, Option, none, some, Exec, done, fault, ◌>>=◌}
use aos.Modules.{Module, Registry, Query, get_registered_driver}

pub data DriverType : Type 0 where
  sata hdd nvme gpu xhci : DriverType

-- Where a device is on the bus.
pub record Place : Type 0 where
  pub bus : ℕ
  pub slot : ℕ
  pub func : ℕ

-- The part of a module that drive.c reads behind its class.
pub record Device : Type 0 where
  pub type : DriverType
  pub initialize_on_register : Bool
  pub place : Place
  pub controller_idx : ℕ

-- The driver Kernel/drivers/io/SATA/sata.c over its own state, in which the devices of the modules
-- stand too: the device of a module, `sata_init`, the bytes of `sata_get_available_ports`, and
-- `sata_get_block_device`.
pub record Sata (State : Type 0) : Type 0 where
  pub device : State → (address : ℕ) → Device
  pub init : State → (address : ℕ) → Bool × State
  pub ports : State → (cidx : ℕ) → List ℕ
  pub block_device : State → (cidx port : ℕ) → Option ℕ × State

-- `struct drive_device` as the search leaves it.
pub record Drive : Type 0 where
  pub controller : ℕ
  pub cur_port : ℕ
  pub block_dev : ℕ

-- Any driver of a drive, and the query of both searches.
abbrev pub mass_storage : Query
mass_storage = record {
  class = 0x01;
  subclass = 0;
  use_subclass = false;
  progif = 0;
  use_progif = false;
  revision = 0;
  use_revision = false;
  vendor = 0;
  use_vendor = false;
}

abbrev pub same_place : Place → Place → Bool
same_place p q = not ((not (p.bus == q.bus) || not (p.slot == q.slot)) || not (p.func == q.func))

unfoldable pub first_port : List ℕ → (i : ℕ) → Option ℕ
first_port [] i = none
first_port (p ∷ ports) i = let rest = first_port ports (i + 1) in if p == 1 then some i else rest

-- What a module comes to: the search goes on, fails or ends.
pub data Outcome : Type 0 where
  next : Outcome
  failed : Outcome
  taken : Drive → Outcome

-- What `get_available_drives` leaves: AOS_FALSE, a drive of SATA, or the drive of a module as
-- `set_legacy_ata` has left it.
pub data Found : Type 0 where
  nothing legacy : Found
  drive : Drive → Found

module _ {State : Type 0} (ops : Sata State) where
  abbrev pub take_device : (cidx port : ℕ) → Option ℕ × State → Outcome × State
  take_device cidx port (none, s) = (failed, s)
  take_device cidx port (some dev, s) =
      (taken (record { controller = cidx; cur_port = port; block_dev = dev }), s)

  -- `set_sata`, with an answer as that of a module.
  abbrev pub set_sata_port : State → (cidx : ℕ) → Option ℕ → Outcome × State
  set_sata_port s cidx none = (failed, s)
  set_sata_port s cidx (some port) = take_device cidx port (ops.block_device s cidx port)

  abbrev pub set_sata : State → (cidx : ℕ) → Outcome × State
  set_sata s cidx = set_sata_port s cidx (first_port (ops.ports s cidx) 0)

  -- Behind `sata_init`, where it fails the search goes on.
  abbrev pub set_initialized : (address : ℕ) → Bool × State → Outcome × State
  set_initialized address (false, s) = (next, s)
  set_initialized address (true, s) = set_sata s (ops.device s address).controller_idx

  abbrev pub by_type : State → (address : ℕ) → DriverType → Outcome × State
  by_type s address sata =
      if not (ops.device s address).initialize_on_register
      then set_initialized address (ops.init s address)
      else set_initialized address (true, s)
  by_type s address hdd = (next, s)
  by_type s address nvme = (next, s)
  by_type s address gpu = (next, s)
  by_type s address xhci = (next, s)

  -- The body of the loop of `get_available_drives_pcie` on a driver.
  abbrev pub try_driver : State → Place → (address : ℕ) → Outcome × State
  try_driver s place address =
      if not (same_place (ops.device s address).place place)
      then (next, s)
      else by_type s address (ops.device s address).type

  -- The drive, or none where the answer is AOS_FALSE.
  abbrev pub continue_search :
      Outcome × State → (State → Exec (Option Drive × State)) → Exec (Option Drive × State)
  continue_search (next, s) rest = rest s
  continue_search (failed, s) rest = done (none, s)
  continue_search (taken d, s) rest = done (some d, s)

  -- The rounds of `get_available_drives_pcie` from the index `i` on.
  unfoldable pub drives_from :
      Registry → Place → (i rounds : ℕ) → State → Exec (Option Drive × State)
  drives_from r place i zero s = done (none, s)
  drives_from r place i (suc rounds) s =
      let rest = drives_from r place (i + 1) rounds in
      get_registered_driver r mass_storage i >>= λ address.
      if address == 0 || not (r.modules address).is_driver
      then rest s
      else continue_search (try_driver s place address) rest

  -- `get_available_drives_pcie`.
  unfoldable pub get_available_drives_pcie : Registry → Place → State → Exec (Option Drive × State)
  unfolding drives_from
  get_available_drives_pcie r place s = drives_from r place 0 (length r.slots) s

  -- The branch of SATA in `get_available_drives`, behind `sata_init`.
  abbrev pub as_found : Outcome × State → Found × State
  as_found (next, s) = (nothing, s)
  as_found (failed, s) = (nothing, s)
  as_found (taken d, s) = (drive d, s)

  abbrev pub find_initialized : (address : ℕ) → Bool × State → Found × State
  find_initialized address (false, s) = (nothing, s)
  find_initialized address (true, s) = as_found (set_sata s (ops.device s address).controller_idx)

  -- The switch of `get_available_drives`.
  abbrev pub find_by_type : State → (address : ℕ) → DriverType → Found × State
  find_by_type s address sata =
      if not (ops.device s address).initialize_on_register
      then find_initialized address (ops.init s address)
      else find_initialized address (true, s)
  find_by_type s address hdd = (nothing, s)
  find_by_type s address nvme = (nothing, s)
  find_by_type s address gpu = (nothing, s)
  find_by_type s address xhci = (nothing, s)

  -- `get_available_drives`, by the answers of `ata_exists` and of `set_legacy_ata`. Without a driver
  -- it reads the name of the drive through NULL, once the legacy drive is set.
  unfoldable pub get_available_drives :
      Registry → (ata_exists ata_set : Bool) → State → Exec (Found × State)
  get_available_drives r ata_exists ata_set s =
      get_registered_driver r mass_storage 0 >>= λ address.
      if address == 0
      then (if ata_exists && ata_set then fault else done (nothing, s))
      else if not (r.modules address).is_driver
      then done (if ata_exists && not ata_set then legacy else nothing, s)
      else done (find_by_type s address (ops.device s address).type)
