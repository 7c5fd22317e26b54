-- ===== src/Pcie/Registered.antt =====
-- Kernel/drivers/core/pcie.c and Kernel/drivers/io/drive.c: the registry that `pcie_init` leaves.
use aos.Base.{
  ℕ, zero, suc, ◌+◌, ◌-◌, ◌/◌, ◌%◌, ◌^◌, ◌<◌, ◌≡◌, refl, sym, arith, Bool, true, false, not, ◌&&◌,
  ◌||◌, ◌==◌,
}
use aos.Base.{
  List, [], ◌∷◌, Option, none, some, if◌then◌else◌, if_cases, get_elem?, Bool-cases, inl, inr, Ends,
  Ends-bind, Ends-map,
}
use aos.Modules.{Registry, is_registered, get_driver}
use aos.Modules.Sets.{IsSound, module_register_lem, module_register_full}
use aos.Modules.Search.{fitting, or_null, find_from_lem}
use aos.Modules.Copies.{copy_module, get_driver_alloced}
use aos.Drives.{Place, Sata, mass_storage, get_available_drives_pcie}
use aos.Drives.Walk.{walk, get_available_drives_pcie_lem}
use aos.Pcie.{Segment}
use aos.Pcie.Loops.{Function, bus_ranges}
use aos.Pcie.Init.{
  Enumeration, query_for, Machine, register_copy, take_copy, visit, visit_funcs, visit_slots,
  visit_buses, visit_ranges, pcie_init,
}

-- A sound registry of which no place is free.
abbrev pub IsFull : Registry → Type 0
IsFull r = IsSound r × (is_registered r.slots 0 ≡ false)

copy_module-IsFull :
    (answer : Option ℕ) (r : Registry) (address : ℕ)
    → IsFull r
    → IsFull (copy_module answer r address).1
copy_module-IsFull none r address h = h
copy_module-IsFull (some a) r address (s, full) = (record { room = s.room; empty = s.empty }, full)

register_copy-IsFull :
    (m : Machine) (s : Enumeration) (x : Function) (address : ℕ)
    → 0 < address
    → IsFull s.registry
    → IsFull (register_copy m s x address).registry
register_copy-IsFull m s x address pos h =
    if_cases (λ (s' : Enumeration). IsFull s'.registry)
      ((s.registry.modules address).initialize_on_register
        && not (m.is_initialized x.bus x.slot x.func))
      (λ t. h)
      (λ t. (
        (module_register_lem s.registry address h.0).sound,
        module_register_full s.registry address h.0 pos h.1,
      ))

take_copy-IsFull :
    (m : Machine) (s : Enumeration) (x : Function) (copy : ℕ × Registry)
    → IsFull copy.1
    → IsFull (take_copy m s x copy).registry
take_copy-IsFull m s x (address, r) h =
    if_cases (λ (s' : Enumeration). IsFull s'.registry)
      ((address == 0 || not (r.modules address).is_driver) || is_registered r.slots address)
      (λ t. h)
      (λ t. register_copy-IsFull m (record s { registry = r }) x address (ground (arith, t)) h)

copied-IsFull :
    (answer : Option ℕ) (r : Registry) (address : ℕ)
    → IsFull r
    → IsFull (if address == 0 then (0, r) else copy_module answer r address).1
copied-IsFull answer r address h =
    if_cases (λ (x : ℕ × Registry). IsFull x.1) (address == 0) (λ t. h)
      (λ t. copy_module-IsFull answer r address h)

-- A function of the bus that has answered a vendor.
abbrev pub has_answered : Machine → Function → Bool
has_answered m x = not (m.read x.bus x.slot x.func 0 % 2 ^ 16 == 0xFFFF)

-- A module has the place of such a function.
abbrev pub has_place : Machine → List (ℕ × Function) → (address : ℕ) → Bool
has_place m [] address = false
has_place m ((a, x) ∷ places) address =
    (a == address && has_answered m x) || has_place m places address

-- Every module that is registered was so before, or has its place.
abbrev pub IsPlaced : Machine → (before : Registry) → Enumeration → Type 0
IsPlaced m before s =
    (b : ℕ)
    → 0 < b
    → is_registered s.registry.slots b ≡ true
    → (is_registered before.slots b || has_place m s.places b) ≡ true

register_copy-IsPlaced :
    (m : Machine) (before : Registry) (s : Enumeration) (x : Function) (address : ℕ)
    → has_answered m x ≡ true
    → IsSound s.registry
    → IsPlaced m before s
    → IsPlaced m before (register_copy m s x address)
register_copy-IsPlaced m before s x address there sound h =
    if_cases (IsPlaced m before)
      ((s.registry.modules address).initialize_on_register
        && not (m.is_initialized x.bus x.slot x.func))
      (λ t b pos e. ground (arith, h b pos e))
      (λ t b pos e.
        let added = (module_register_lem s.registry address sound).members b pos in
        ground (arith, added, e, there, h b pos))

take_copy-IsPlaced :
    (m : Machine) (before : Registry) (s : Enumeration) (x : Function) (copy : ℕ × Registry)
    → has_answered m x ≡ true
    → IsSound copy.1
    → copy.1.slots ≡ s.registry.slots
    → IsPlaced m before s
    → IsPlaced m before (take_copy m s x copy)
take_copy-IsPlaced m before s x (address, r) there sound same h =
    let kept : IsPlaced m before (record s { registry = r }) =
      λ b pos e. h b pos (rw (sym same) e) in
    if_cases (IsPlaced m before)
      ((address == 0 || not (r.modules address).is_driver) || is_registered r.slots address)
      (λ t. kept)
      (λ t. register_copy-IsPlaced m before (record s { registry = r }) x address there sound kept)

copy_module-slots :
    (answer : Option ℕ) (r : Registry) (address : ℕ)
    → (copy_module answer r address).1.slots ≡ r.slots
copy_module-slots none r address = refl
copy_module-slots (some a) r address = refl

copied-slots :
    (answer : Option ℕ) (r : Registry) (address : ℕ)
    → (if address == 0 then (0, r) else copy_module answer r address).1.slots ≡ r.slots
copied-slots answer r address =
    if_cases (λ (x : ℕ × Registry). x.1.slots ≡ r.slots) (address == 0) (λ t. refl)
      (λ t. copy_module-slots answer r address)

module _ (m : Machine) (core : is_registered m.core_modules 0 ≡ false) (before : Registry) where
  abbrev Full : Enumeration → Type 0
  Full s = IsFull s.registry × IsPlaced m before s

  visit-Full : (s : Enumeration) (bus slot func : ℕ) → Full s → Ends (visit m s bus slot func) Full
  unfolding visit get_driver_alloced get_driver
  visit-Full s bus slot func h =
      let vendor = m.read bus slot func 0 % 2 ^ 16 in
      let q = query_for (m.read bus slot func 0x08) vendor in
      let p = or_null (get_elem? (fitting s.registry.modules q m.core_modules) 0) in
      elim (Bool-cases (vendor == 0xFFFF)) [
        | inl t ↦ rw t h
        | inr t ↦
            rw (t, find_from_lem s.registry.modules q 0 0 0 m.core_modules (omega arith) core)
              (let copy =
                  if p == 0
                  then (0, s.registry)
                  else copy_module (m.answer bus slot func) s.registry p in
                let x : Function = record {
                  bus = bus;
                  slot = slot;
                  func = func;
                  bar0 = m.read bus slot func 0x10;
                } in
                let (is_sound, no_null) = h.0 in
                let full =
                  copied-IsFull (m.answer bus slot func) s.registry p (is_sound, no_null) in
                (
                  take_copy-IsFull m s x copy full,
                  take_copy-IsPlaced m before s x copy (ground (arith, t)) full.0
                      (copied-slots (m.answer bus slot func) s.registry p) h.1,
                ))
      ]

  visit_funcs-Full :
      (bus slot func rounds : ℕ) (s : Enumeration)
      → Full s
      → Ends (visit_funcs m bus slot func rounds s) Full
  unfolding visit_funcs
  visit_funcs-Full bus slot func zero s h = h
  visit_funcs-Full bus slot func (suc rounds) s h =
      Ends-bind Full (visit m s bus slot func) (visit_funcs m bus slot (func + 1) rounds)
        (visit-Full s bus slot func h) (visit_funcs-Full bus slot (func + 1) rounds)

  visit_slots-Full :
      (bus slot rounds : ℕ) (s : Enumeration) → Full s → Ends (visit_slots m bus slot rounds s) Full
  unfolding visit_slots
  visit_slots-Full bus slot zero s h = h
  visit_slots-Full bus slot (suc rounds) s h =
      let funcs = if m.read bus slot 0 0x0C / 2 ^ 16 % 256 / 128 % 2 == 1 then 8 else 1 in
      Ends-bind Full (visit_funcs m bus slot 0 funcs s) (visit_slots m bus (slot + 1) rounds)
        (visit_funcs-Full bus slot 0 funcs s h) (visit_slots-Full bus (slot + 1) rounds)

  visit_buses-Full :
      (bus rounds : ℕ) (s : Enumeration) → Full s → Ends (visit_buses m bus rounds s) Full
  unfolding visit_buses
  visit_buses-Full bus zero s h = h
  visit_buses-Full bus (suc rounds) s h =
      Ends-bind Full (visit_slots m bus 0 32 s) (visit_buses m (bus + 1) rounds)
        (visit_slots-Full bus 0 32 s h) (visit_buses-Full (bus + 1) rounds)

  visit_ranges-Full :
      (ranges : List (ℕ × ℕ)) (s : Enumeration) → Full s → Ends (visit_ranges m ranges s) Full
  unfolding visit_ranges
  visit_ranges-Full [] s h = h
  visit_ranges-Full ((start_bus, end_bus) ∷ ranges) s h =
      Ends-bind Full (visit_buses m start_bus (end_bus + 1 - start_bus) s) (visit_ranges m ranges)
        (visit_buses-Full start_bus (end_bus + 1 - start_bus) s h) (visit_ranges-Full ranges)

-- For a kernel without a module at NULL, pcie_init on a sound registry of which no place is free ends
-- without a fault and leaves such a registry. Every module that is registered then was so before, or
-- is a copy that has the place of a function that has answered a vendor. On the registry
-- get_available_drives_pcie tries the registered drivers of drives, each once and in their order.
pub pcie_init_lem :
    {State : Type 0} (ops : Sata State) (place : Place) (st : State) (m : Machine)
    (mcfg : Option (List Segment)) (r : Registry)
    → is_registered m.core_modules 0 ≡ false
    → IsFull r
    → Ends (pcie_init m mcfg r) (λ s.
      IsFull s.registry
      × IsPlaced m r s
      × (get_available_drives_pcie ops s.registry place st
          ≡ walk ops place (fitting s.registry.modules mass_storage s.registry.slots) st))
unfolding pcie_init
pcie_init_lem ops place st m mcfg r core h =
    let start : Enumeration = record { registry = r; places = []; freed = [] } in
    let placed : IsPlaced m r start = λ b pos e. ground (arith, e) in
    Ends-map (visit_ranges m (bus_ranges mcfg) start)
      (λ s end. (end.0, end.1, get_available_drives_pcie_lem ops place s.registry st end.0.1))
      (visit_ranges-Full m core r (bus_ranges mcfg) start (h, placed))
