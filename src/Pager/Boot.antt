-- ===== src/Pager/Boot.antt =====
-- Kernel/mm/pager.c: the part of `pager_init` that finds the free memory in the map of the boot
-- loader, and hands it to `avmf_init`.
use aos.Base.{
  ℕ, ◌+◌, ◌-◌, ◌*◌, ◌/◌, ◌%◌, ◌^◌, ◌<◌, ◌≤◌, ◌≡◌, arith, Bool, true, false, not, ◌&&◌, ◌||◌,
}
use aos.Base.{
  List, [], ◌∷◌, ltb, leb, ◌==◌, length, All, if◌then◌else◌, if_cases, Exec, done, fault, ◌>>=◌,
}
use aos.Base.{◌∙◌, Ends, Ends-bind, Ends-map}
use aos.Avmf.{uint64_max, page_size}
use aos.Avmf.Virtual.{Slot}
use aos.Avmf.Init.{
  avmf_init, avmf_init-IsFresh, IsRoom, IsFresh, Spans, virtual_bounds, any_covers, in_bounds,
}

-- `uniboot_smmap_type`.
pub data SmmapType : Type 0 where
  unusable reserved acpi_nvs acpi_reclaim uniboot_structs free : SmmapType

-- `uniboot_smmap_entry`, less its attributes.
pub record SmmapEntry : Type 0 where
  pub type : SmmapType
  pub phys_start : ℕ
  pub size : ℕ

abbrev pub is_free : SmmapType → Bool
is_free free = true
is_free unusable = false
is_free reserved = false
is_free acpi_nvs = false
is_free acpi_reclaim = false
is_free uniboot_structs = false

-- The end of the kernel and 16 MiB, raised to a page.
abbrev pub privileged_end : (bss_end : ℕ) → ℕ
privileged_end bss_end = (bss_end + 0x1000000 + (page_size - 1)) % 2 ^ 64 / page_size * page_size

-- The loop over the memory map: the bases and limits from the index `phys_idx` on. The arrays have
-- 256 places.
unfoldable pub free_ranges : (privileged phys_idx : ℕ) → List SmmapEntry → Exec (List (ℕ × ℕ))
free_ranges privileged phys_idx [] = done []
free_ranges privileged phys_idx (e ∷ entries) =
    let end_addr = (e.phys_start + e.size) % 2 ^ 64 in
    let start = if ltb e.phys_start privileged then privileged else e.phys_start in
    let skip = free_ranges privileged phys_idx entries in
    let rest = free_ranges privileged (phys_idx + 1) entries in
    if e.size == 0 || not (is_free e.type)
    then skip
    else if ltb e.phys_start privileged && leb e.size (privileged - e.phys_start)
    then skip
    else if leb 256 phys_idx
    then fault
    else (do bounds ← rest; done ((start, end_addr) ∷ bounds))

-- The regions after it. The number of bounds is passed as a `uint8_t`.
abbrev pub boot_regions : (table bss_end : ℕ) → List SmmapEntry → Exec (List Slot × List Slot)
boot_regions table bss_end entries = do
  bounds ← free_ranges (privileged_end bss_end) 0 entries
  done (avmf_init table bounds (length bounds % 256))

-- An entry whose addresses 64 bits can hold.
abbrev pub IsEntry : SmmapEntry → Type 0
IsEntry e = e.phys_start + e.size ≤ uint64_max

-- Is the address free memory by the map?
abbrev pub any_free : List SmmapEntry → ℕ → Bool
any_free [] a = false
any_free (e ∷ entries) a =
    (is_free e.type && (leb e.phys_start a && ltb a (e.phys_start + e.size))) || any_free entries a

-- The bounds are those of the free memory behind the kernel.
abbrev pub Found : (privileged : ℕ) → List SmmapEntry → List (ℕ × ℕ) → Type 0
Found privileged entries bounds =
    All IsRoom bounds
    × (length bounds ≤ length entries)
    × ((a : ℕ) → in_bounds bounds a ≡ (leb privileged a && any_free entries a))

free_ranges-Found :
    (privileged phys_idx : ℕ) (entries : List SmmapEntry)
    → All IsEntry entries
    → phys_idx + length entries ≤ 256
    → Ends (free_ranges privileged phys_idx entries) (Found privileged entries)
unfolding free_ranges
free_ranges-Found privileged phys_idx [] h l = (tt, omega arith, λ a. ground arith)
free_ranges-Found privileged phys_idx (e ∷ entries) h l =
    let wrap : (e.phys_start + e.size) % 2 ^ 64 ≡ e.phys_start + e.size = omega (arith, h.0) in
    let start = if ltb e.phys_start privileged then privileged else e.phys_start in
    let room : leb 256 phys_idx ≡ false = ground (arith, l) in
    let P : Exec (List (ℕ × ℕ)) → Type 0 = λ m. Ends m (Found privileged (e ∷ entries)) in
    let skipped = free_ranges-Found privileged phys_idx entries h.1 (omega (arith, l)) in
    let later = free_ranges-Found privileged (phys_idx + 1) entries h.1 (omega (arith, l)) in
    rw (wrap, room)
      (if_cases P (e.size == 0 || not (is_free e.type))
        (λ t.
          Ends-map (free_ranges privileged phys_idx entries)
            (λ bounds f. (f.0, omega (arith, f.1), λ a. ground (arith, f.2 a, t))) skipped)
        (λ t.
          if_cases P (ltb e.phys_start privileged && leb e.size (privileged - e.phys_start))
            (λ u.
              Ends-map (free_ranges privileged phys_idx entries)
                (λ bounds f. (f.0, omega (arith, f.1), λ a. ground (arith, f.2 a, t, u))) skipped)
            (λ u.
              Ends-bind (Found privileged (e ∷ entries))
                (free_ranges privileged (phys_idx + 1) entries)
                (λ bounds. done ((start, e.phys_start + e.size) ∷ bounds)) later
                (λ bounds f. (
                  ((ground (arith, t, u), h.0), f.0),
                  omega (arith, f.1),
                  λ a. ground (arith, f.2 a, t, u),
                )))))

-- Where the map has less than 256 entries, whose addresses 64 bits can hold, the regions are set up
-- without a fault: all are sound, with all their addresses free and no headers, the virtual ones are
-- those of the user, the kernel, the drivers and the sensitive data, and the physical ones have
-- exactly the addresses that the map calls free and that do not lie below the end of the kernel and
-- 16 MiB, raised to a page.
pub boot_regions_lem :
    (table bss_end : ℕ) (entries : List SmmapEntry)
    → All IsEntry entries
    → length entries < 256
    → Ends (boot_regions table bss_end entries) (λ (physical, virtual).
      All IsFresh physical
      × All IsFresh virtual
      × Spans virtual virtual_bounds
      × ((a : ℕ) → any_covers physical a ≡ (leb (privileged_end bss_end) a && any_free entries a)))
boot_regions_lem table bss_end entries h few =
    Ends-bind _ (free_ranges (privileged_end bss_end) 0 entries) _
      (free_ranges-Found (privileged_end bss_end) 0 entries h (omega (arith, few)))
      (λ bounds (room, short, found).
        let (p, v, s, c) = avmf_init-IsFresh table bounds room (omega (arith, short, few)) in
        (p, v, s, λ a. c a ∙ found a))
