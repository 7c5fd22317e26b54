-- ===== src/Pcie/Find.antt =====
-- Kernel/drivers/core/pcie.c: what the searches for a function find.
use aos.Base.{
  ℕ, zero, suc, ◌+◌, ◌-◌, ◌%◌, ◌^◌, ◌<◌, ◌≤◌, ◌≡◌, refl, sym, arith, Bool, true, false, not, ◌&&◌,
  ◌==◌,
}
use aos.Base.{List, [], ◌∷◌, Option, none, some, if◌then◌else◌, ◌⊎◌, inl, inr, Bool-cases}
use aos.Acpi.{or_else}
use aos.Pcie.{Segment, Registers, pcie_read}
use aos.Pcie.Loops.{Function, Vendor, other_vendor, is_class, is_class_ex, is_class_rex, bus_ranges}
use aos.Pcie.Loops.{
  max_funcs, find_func, find_slot, find_bus, find_in, pcie_find, pcie_find_ex, pcie_find_rex,
}

module _ (read : (bus slot func offset : ℕ) → ℕ) (is_wanted : ℕ → Bool) (vendor : Vendor) where
  -- There is a function, of the vendor and of the class that are asked for.
  abbrev pub is_target : (bus slot func : ℕ) → Bool
  is_target bus slot func =
      let id = read bus slot func 0 % 2 ^ 16 in
      not (id == 0xFFFF) && (not (other_vendor vendor id) && is_wanted (read bus slot func 0x08))

  -- The answer to a search over some functions: one of them that is a target, with its first base address,
  -- or none where none is a target.
  abbrev pub Answers : (Among : ℕ → ℕ → ℕ → Type 0) → Option Function → Type 0
  Answers Among none = (bus slot func : ℕ) → Among bus slot func → is_target bus slot func ≡ false
  Answers Among (some x) =
      Among x.bus x.slot x.func
      × (is_target x.bus x.slot x.func ≡ true)
      × (x.bar0 ≡ read x.bus x.slot x.func 0x10)

  module _ {Among First Rest : ℕ → ℕ → ℕ → Type 0}
      (either : (bus slot func : ℕ)
        → Among bus slot func
        → First bus slot func ⊎ Rest bus slot func)
      (first : (bus slot func : ℕ) → First bus slot func → Among bus slot func)
      (rest : (bus slot func : ℕ) → Rest bus slot func → Among bus slot func) where
    -- One search behind another.
    Answers-or_else :
        (o o' : Option Function) → Answers First o → Answers Rest o' → Answers Among (or_else o o')
    Answers-or_else none none h h' = λ bus slot func a. elim (either bus slot func a) [
      | inl x ↦ h bus slot func x
      | inr x ↦ h' bus slot func x
    ]
    Answers-or_else none (some x) h h' = (rest x.bus x.slot x.func h'.0, h'.1, h'.2)
    Answers-or_else (some x) o' h h' = (first x.bus x.slot x.func h.0, h.1, h.2)

  -- One function alone.
  abbrev Only : (bus slot func : ℕ) → ℕ → ℕ → ℕ → Type 0
  Only bus slot func b s f = (b ≡ bus) × (s ≡ slot) × (f ≡ func)

  abbrev only : (bus slot func : ℕ) → Option Function
  only bus slot func =
      if is_target bus slot func
      then some (record { bus = bus; slot = slot; func = func; bar0 = read bus slot func 0x10 })
      else none

  only-Answers : (bus slot func : ℕ) → Answers (Only bus slot func) (only bus slot func)
  only-Answers bus slot func = elim (Bool-cases (is_target bus slot func)) [
    | inl t ↦ rw t ((refl, refl, refl), t, refl)
    | inr t ↦ rw t (λ b s f e. rw (e.0, e.1, e.2) t)
  ]

  find_func-only :
      (bus slot func rounds : ℕ)
      → find_func read is_wanted vendor bus slot func (suc rounds)
        ≡ or_else (only bus slot func) (find_func read is_wanted vendor bus slot (func + 1) rounds)
  unfolding find_func
  find_func-only bus slot func rounds =
      let id = read bus slot func 0 % 2 ^ 16 in
      elim (Bool-cases (id == 0xFFFF)) [
        | inl t ↦ rw t refl
        | inr t ↦ elim (Bool-cases (other_vendor vendor id)) [
          | inl u ↦ rw (t, u) refl
          | inr u ↦ elim (Bool-cases (is_wanted (read bus slot func 0x08))) [
            | inl v ↦ rw (t, u, v) refl
            | inr v ↦ rw (t, u, v) refl
          ]
        ]
      ]

  -- The functions of a slot from one on.
  abbrev InSlot : (bus slot func rounds : ℕ) → ℕ → ℕ → ℕ → Type 0
  InSlot bus slot func rounds b s f = (b ≡ bus) × (s ≡ slot) × (func ≤ f) × (f < func + rounds)

  find_func-Answers :
      (bus slot func rounds : ℕ)
      → Answers (InSlot bus slot func rounds) (find_func read is_wanted vendor bus slot func rounds)
  unfolding find_func
  find_func-Answers bus slot func zero = λ b s f i. absurd (omega (arith, i.2, i.3))
  find_func-Answers bus slot func (suc rounds) = rw (find_func-only bus slot func rounds) (
      Answers-or_else
        (λ b s f i. elim (Bool-cases (f == func)) [
          | inl t ↦ inl (i.0, i.1, ground (arith, t))
          | inr t ↦ inr (i.0, i.1, ground (arith, t, i.2), omega (arith, i.3))
        ])
        (λ b s f i. (i.0, i.1, omega (arith, i.2), omega (arith, i.2)))
        (λ b s f i. (i.0, i.1, omega (arith, i.2), omega (arith, i.3))) (only bus slot func)
        (find_func read is_wanted vendor bus slot (func + 1) rounds) (only-Answers bus slot func)
        (find_func-Answers bus slot (func + 1) rounds))

  -- The functions of the slots from one on, and of the buses from one on.
  abbrev OnBus : (bus slot rounds : ℕ) → ℕ → ℕ → ℕ → Type 0
  OnBus bus slot rounds b s f =
      (b ≡ bus) × (slot ≤ s) × (s < slot + rounds) × (f < max_funcs read is_wanted vendor b s)

  find_slot-Answers :
      (bus slot rounds : ℕ)
      → Answers (OnBus bus slot rounds) (find_slot read is_wanted vendor bus slot rounds)
  unfolding find_slot
  find_slot-Answers bus slot zero = λ b s f i. absurd (omega (arith, i.1, i.2))
  find_slot-Answers bus slot (suc rounds) =
      let funcs = max_funcs read is_wanted vendor bus slot in
      Answers-or_else {Among = OnBus bus slot (suc rounds)}
        (λ b s f i. elim (Bool-cases (s == slot)) [
          | inl t ↦
              let same : s ≡ slot = ground (arith, t) in
              inl (i.0, same, omega arith, rw (sym i.0, sym same) (omega (arith, i.3)))
          | inr t ↦ inr (i.0, ground (arith, t, i.1), omega (arith, i.2), i.3)
        ])
        (λ b s f i.
          let below : f < funcs = omega (arith, i.3) in
          (i.0, omega (arith, i.1), omega (arith, i.1), rw (i.0, i.1) below))
        (λ b s f i. (i.0, omega (arith, i.1), omega (arith, i.2), i.3))
        (find_func read is_wanted vendor bus slot 0 funcs)
        (find_slot read is_wanted vendor bus (slot + 1) rounds) (find_func-Answers bus slot 0 funcs)
        (find_slot-Answers bus (slot + 1) rounds)

  abbrev FromBus : (bus rounds : ℕ) → ℕ → ℕ → ℕ → Type 0
  FromBus bus rounds b s f =
      (bus ≤ b) × (b < bus + rounds) × (s < 32) × (f < max_funcs read is_wanted vendor b s)

  find_bus-Answers :
      (bus rounds : ℕ) → Answers (FromBus bus rounds) (find_bus read is_wanted vendor bus rounds)
  unfolding find_bus
  find_bus-Answers bus zero = λ b s f i. absurd (omega (arith, i.0, i.1))
  find_bus-Answers bus (suc rounds) =
      Answers-or_else
        (λ b s f i. elim (Bool-cases (b == bus)) [
          | inl t ↦ inl (ground (arith, t), omega arith, i.2, i.3)
          | inr t ↦ inr (ground (arith, t, i.0), omega (arith, i.1), i.2, i.3)
        ])
        (λ b s f i. (omega (arith, i.0), omega (arith, i.0), i.2, i.3))
        (λ b s f i. (omega (arith, i.0), omega (arith, i.1), i.2, i.3))
        (find_slot read is_wanted vendor bus 0 32) (find_bus read is_wanted vendor (bus + 1) rounds)
        (find_slot-Answers bus 0 32) (find_bus-Answers (bus + 1) rounds)

  -- The bus is in one of the ranges.
  abbrev pub InRanges : List (ℕ × ℕ) → (bus : ℕ) → Type 0
  InRanges [] bus = ⊥
  InRanges ((start_bus, end_bus) ∷ ranges) bus =
      ((start_bus ≤ bus) × (bus ≤ end_bus)) ⊎ InRanges ranges bus

  -- A function of a slot on such a bus; a device that does not say that it has more has one.
  abbrev pub IsThere : List (ℕ × ℕ) → (bus slot func : ℕ) → Type 0
  IsThere ranges bus slot func =
      InRanges ranges bus × (slot < 32) × (func < max_funcs read is_wanted vendor bus slot)

  find_in-Answers :
      (ranges : List (ℕ × ℕ)) → Answers (IsThere ranges) (find_in read is_wanted vendor ranges)
  unfolding find_in
  find_in-Answers [] = λ b s f i. absurd i.0
  find_in-Answers ((start_bus, end_bus) ∷ ranges) =
      Answers-or_else
        (λ b s f i. elim i.0 [
          | inl x ↦ inl (x.0, omega (arith, x.0, x.1), i.1, i.2)
          | inr x ↦ inr (x, i.1, i.2)
        ])
        (λ b s f i. (inl (i.0, omega (arith, i.0, i.1)), i.2, i.3)) (λ b s f i. (inr i.0, i.1, i.2))
        (find_bus read is_wanted vendor start_bus (end_bus + 1 - start_bus))
        (find_in read is_wanted vendor ranges)
        (find_bus-Answers start_bus (end_bus + 1 - start_bus)) (find_in-Answers ranges)

module _ (mcfg : Option (List Segment)) (regs : Registers) (vendor : Vendor) where
  -- What a search with a test of the class answers.
  abbrev pub Finds : (is_wanted : ℕ → Bool) → Option Function → Type 0
  Finds is_wanted =
      Answers (pcie_read mcfg regs) is_wanted vendor
        (IsThere (pcie_read mcfg regs) is_wanted vendor (bus_ranges mcfg))

  -- pcie_find, pcie_find_ex and pcie_find_rex answer a function on the buses of the segments, or on
  -- all without a table, with its first base address, that is of the vendor, if one is asked for, and
  -- of the class, of the class, the subclass and the interface, or of these and of the revision. They
  -- answer none only where no function is.
  pub pcie_find_lem :
      (class subclass progifclass revision : ℕ)
      → Finds (is_class class) (pcie_find mcfg regs class vendor)
        × Finds
            (is_class_ex class subclass progifclass)
            (pcie_find_ex mcfg regs class subclass progifclass vendor)
        × Finds
            (is_class_rex class subclass progifclass revision)
            (pcie_find_rex mcfg regs class subclass progifclass revision vendor)
  unfolding pcie_find pcie_find_ex pcie_find_rex
  pcie_find_lem class subclass progifclass revision =
      let read = pcie_read mcfg regs in
      let ranges = bus_ranges mcfg in
      (
        find_in-Answers read (is_class class) vendor ranges,
        find_in-Answers read (is_class_ex class subclass progifclass) vendor ranges,
        find_in-Answers read (is_class_rex class subclass progifclass revision) vendor ranges,
      )
