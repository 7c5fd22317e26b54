-- ===== src/Pcie/Command.antt =====
-- Kernel/drivers/core/pcie.c: the bits of the command register.
use aos.Base.{ℕ, ◌*◌, ◌/◌, ◌%◌, ◌^◌, ◌<◌, ◌≡◌, ◌∙◌, refl, arith, Bool, true, false}
use aos.Base.{List, Option, if◌then◌else◌}
use aos.Base.Words.{and_four, and_two, or_four, or_two, and_not_four, and_not_two}
use aos.Pcie.{Segment, segment_of, Registers, pcie_read, pcie_write, with_bit}
use aos.Pcie.{
  toggle_busmaster, toggle_memory_space, get_busmaster_toggled, get_memory_space_toggled,
}
use aos.Pcie.Address.{InFunction, IsUnnumbered, same_register, pcie_read-write}

-- A word differs from another at most in one bit, which is as it was asked for.
abbrev pub HasBit : (bit : ℕ) (toggle : Bool) (w w' : ℕ) → Type 0
HasBit bit toggle w w' =
    (w' / bit % 2 ≡ (if toggle then 1 else 0))
    × (w' % bit ≡ w % bit)
    × (w' / (2 * bit) ≡ w / (2 * bit))

with_busmaster : (toggle : Bool) (w : ℕ) → w < 2 ^ 32 → HasBit 4 toggle w (with_bit 4 toggle w)
with_busmaster true w h = rw (or_four w) (omega arith, omega arith, omega arith)
with_busmaster false w h = rw (and_not_four w h) (omega arith, omega arith, omega arith)

with_memory_space : (toggle : Bool) (w : ℕ) → w < 2 ^ 32 → HasBit 2 toggle w (with_bit 2 toggle w)
with_memory_space true w h = rw (or_two w) (omega arith, omega arith, omega arith)
with_memory_space false w h = rw (and_not_two w h) (omega arith, omega arith, omega arith)

masked :
    (toggle : Bool) (digit bit : ℕ)
    → digit ≡ (if toggle then 1 else 0)
    → digit * bit ≡ (if toggle then bit else 0)
masked true digit bit h = rw h (omega arith)
masked false digit bit h = rw h (omega arith)

-- What a getter tells of the bit, and what has become of the command register.
abbrev pub Toggled : (bit : ℕ) (toggle : Bool) (answer w w' : ℕ) → Type 0
Toggled bit toggle answer w w' = (answer ≡ (if toggle then bit else 0)) × HasBit bit toggle w w'

module _ (mcfg : Option (List Segment)) (regs : Registers) (bus slot func : ℕ)
    (in_bus : (bus < 256) × InFunction slot func 0x04)
    (unnumbered : IsUnnumbered (segment_of mcfg bus)) where
  -- The register that was written is read back.
  read_back :
      (value : ℕ)
      → pcie_read mcfg (pcie_write mcfg regs bus slot func 0x04 value) bus slot func 0x04 ≡ value
  read_back value =
      let same : same_register bus slot func 0x04 bus slot func 0x04 ≡ true = ground arith in
      pcie_read-write mcfg regs value bus slot func 0x04 bus slot func 0x04 in_bus in_bus refl
        unnumbered
      ∙ rw same refl

  -- On a bus whose segment has the number 0, if it has one, pcie_toggle_busmaster sets or clears the
  -- bit 2 of the command register, which keeps its other bits, and pcie_get_busmaster_toggled answers a
  -- number other than 0 if it was set.
  pub get-toggle_busmaster :
      (toggle : Bool)
      → pcie_read mcfg regs bus slot func 0x04 < 2 ^ 32
      → let regs' = toggle_busmaster mcfg regs bus slot func toggle in
        Toggled 4 toggle
          (get_busmaster_toggled mcfg regs' bus slot func)
          (pcie_read mcfg regs bus slot func 0x04)
          (pcie_read mcfg regs' bus slot func 0x04)
  unfolding toggle_busmaster get_busmaster_toggled
  get-toggle_busmaster toggle h =
      let w = pcie_read mcfg regs bus slot func 0x04 in
      let changed = with_busmaster toggle w h in
      rw (read_back (with_bit 4 toggle w)) (
        and_four (with_bit 4 toggle w) ∙ masked toggle (with_bit 4 toggle w / 4 % 2) 4 changed.0,
        changed,
      )

  -- So does pcie_toggle_memory_space with the bit 1, and pcie_get_memory_space_toggled.
  pub get-toggle_memory_space :
      (toggle : Bool)
      → pcie_read mcfg regs bus slot func 0x04 < 2 ^ 32
      → let regs' = toggle_memory_space mcfg regs bus slot func toggle in
        Toggled 2 toggle
          (get_memory_space_toggled mcfg regs' bus slot func)
          (pcie_read mcfg regs bus slot func 0x04)
          (pcie_read mcfg regs' bus slot func 0x04)
  unfolding toggle_memory_space get_memory_space_toggled
  get-toggle_memory_space toggle h =
      let w = pcie_read mcfg regs bus slot func 0x04 in
      let changed = with_memory_space toggle w h in
      rw (read_back (with_bit 2 toggle w)) (
        and_two (with_bit 2 toggle w) ∙ masked toggle (with_bit 2 toggle w / 2 % 2) 2 changed.0,
        changed,
      )
