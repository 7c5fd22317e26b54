-- ===== src/Modules.antt =====
-- Kernel/src/module.c: the modules that are registered, and the search for a driver. Modules stand in
-- a store by their addresses; 0 is NULL.
pub mod Sets
pub mod Search
pub mod Core
pub mod Copies
mod Tests
use aos.Base.{ℕ, zero, suc, ◌+◌, Bool, true, false, not, ◌&&◌, ◌||◌, ltb, leb, ◌==◌, if◌then◌else◌}
use aos.Base.{List, [], ◌∷◌, ◌++◌, length, Exec, done, fault, ◌>>=◌}

-- The part of `struct AOS_Module` and of its `struct AOS_ModuleDriver` that the searches and
-- `pcie_init` read.
pub record Module : Type 0 where
  pub is_driver : Bool
  pub initialize_on_register : Bool
  pub registered : Bool
  pub target_class : ℕ
  pub target_subclass : ℕ
  pub target_progifclass : ℕ
  pub target_use_progifclass : Bool
  pub target_revision : ℕ
  pub target_use_revision : Bool
  pub target_vendor : ℕ
  pub target_use_vendor : Bool

-- `registered_modules` up to its count, whether it was allocated, its capacity, the modules, and what
-- `avmf_alloc` answers for call after call.
pub record Registry : Type 0 where
  pub slots : List ℕ
  pub allocated : Bool
  pub cap : ℕ
  pub modules : ℕ → Module
  pub answers : List Bool

abbrev pub set_registered : Registry → (address : ℕ) → Registry
set_registered r address = record r {
  modules = λ a. if a == address then record (r.modules a) { registered = true } else r.modules a;
}

-- Is a place free?
unfoldable pub has_free : List ℕ → Bool
has_free [] = false
has_free (p ∷ slots) = p == 0 || has_free slots

-- The module in the first place that is free.
unfoldable pub fill_free : List ℕ → (address : ℕ) → List ℕ
fill_free [] address = []
fill_free (p ∷ slots) address =
    let rest = fill_free slots address in if p == 0 then address ∷ slots else p ∷ rest

-- Room for 16 more, where memory is to be had.
abbrev pub grow_by : Registry → List Bool → Bool × Registry
grow_by r [] = (false, r)
grow_by r (false ∷ answers) = (false, record r { answers = answers })
grow_by r (true ∷ answers) =
    (true, record r { allocated = true; cap = r.cap + 16; answers = answers })

abbrev pub ensure_room : Registry → Bool × Registry
ensure_room r =
    if not r.allocated || leb r.cap (length r.slots) then grow_by r r.answers else (true, r)

abbrev pub append_module : (address : ℕ) → Bool × Registry → Bool × Registry
append_module address (false, r) = (false, r)
append_module address (true, r) =
    (true, set_registered (record r { slots = r.slots ++ address ∷ [] }) address)

-- `module_register`.
unfoldable pub module_register : Registry → (address : ℕ) → Bool × Registry
module_register r address =
    if has_free r.slots
    then (true, set_registered (record r { slots = fill_free r.slots address }) address)
    else append_module address (ensure_room r)

unfoldable pub clear_module : List ℕ → (address : ℕ) → List ℕ
clear_module [] address = []
clear_module (p ∷ slots) address = (if address == p then 0 else p) ∷ clear_module slots address

-- `module_unregister`. The mark in the module stays.
unfoldable pub module_unregister : Registry → (address : ℕ) → Bool × Registry
unfolding clear_module
module_unregister r address = (true, record r { slots = clear_module r.slots address })

-- `module_already_initialized`.
unfoldable pub is_registered : List ℕ → (address : ℕ) → Bool
is_registered [] address = false
is_registered (p ∷ slots) address = p == address || is_registered slots address

-- What a driver is searched by.
pub record Query : Type 0 where
  pub class : ℕ
  pub subclass : ℕ
  pub use_subclass : Bool
  pub progif : ℕ
  pub use_progif : Bool
  pub revision : ℕ
  pub use_revision : Bool
  pub vendor : ℕ
  pub use_vendor : Bool

-- The tests of the search, one after the other.
unfoldable pub is_applicable : Query → Module → Bool
is_applicable q m =
    if not m.is_driver
    then false
    else if not (m.target_class == q.class)
    then false
    else if q.use_subclass && not (m.target_subclass == q.subclass)
    then false
    else if (q.use_progif && m.target_use_progifclass) && not (m.target_progifclass == q.progif)
    then false
    else if (q.use_revision && m.target_use_revision) && not (m.target_revision == q.revision)
    then false
    else if (q.use_vendor && m.target_use_vendor) && not (m.target_vendor == q.vendor)
    then false
    else true

-- The loop of the search over registered modules, from which NULL is followed too: the applicable
-- driver of the index `loop_idx`, or 0.
unfoldable pub find_from : (ℕ → Module) → Query → (loop_idx found : ℕ) → List ℕ → Exec ℕ
find_from modules q loop_idx found [] = done 0
find_from modules q loop_idx found (p ∷ slots) =
    let hit = is_applicable q (modules p) in
    let rest = find_from modules q loop_idx (if hit then found + 1 else found) slots in
    if p == 0 then fault else if hit && loop_idx == found then done p else rest

-- `module_get_applicable_registered_driver`.
unfoldable pub get_registered_driver : Registry → Query → (loop_idx : ℕ) → Exec ℕ
unfolding find_from
get_registered_driver r q loop_idx = find_from r.modules q loop_idx 0 r.slots

-- `module_get_applicable_driver`, over the modules that the kernel was built with.
unfoldable pub get_driver : (ℕ → Module) → (core_modules : List ℕ) → Query → (loop_idx : ℕ) → Exec ℕ
unfolding find_from
get_driver modules core_modules q loop_idx = find_from modules q loop_idx 0 core_modules
