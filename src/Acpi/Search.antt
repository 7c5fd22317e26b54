-- ===== src/Acpi/Search.antt =====
-- Kernel/drivers/core/acpi.c: which root pointer `acpi_find_rsdp` finds.
use aos.Base.{
  ℕ, zero, suc, ◌+◌, ◌-◌, ◌*◌, ◌/◌, ◌%◌, ◌^◌, ◌<◌, ◌≤◌, ◌≡◌, refl, arith, Bool, true, false, ◌&&◌,
  ◌||◌,
}
use aos.Base.{
  ltb, leb, ◌==◌, List, [], ◌∷◌, Option, none, some, if◌then◌else◌, if_cases, All, Bool-cases, inl,
  inr,
}
use aos.Pager.Boot.{SmmapEntry}
use aos.Acpi.{
  Memory, le, direct_map, virt, is_rsdp, scan, scan_area, is_searched, or_else, search_map,
}
use aos.Acpi.{search_ebda, search_bios, map_or_nothing, find_rsdp}

-- An address of an area that a step of 16 bytes reaches.
abbrev pub in_area : (base limit a : ℕ) → Bool
in_area base limit a = leb base a && (ltb a limit && (a - base) % 16 == 0)

-- The addresses that the map has looked at.
abbrev pub in_map : List SmmapEntry → ℕ → Bool
in_map [] a = false
in_map (e ∷ entries) a =
    (is_searched e.type
      && in_area (direct_map + e.phys_start) (direct_map + e.phys_start + e.size) a)
    || in_map entries a

abbrev pub in_bios : ℕ → Bool
in_bios a = in_area (direct_map + 0xE0000) (direct_map + 0x100000) a

abbrev pub in_map_or_bios : Option (List SmmapEntry) → ℕ → Bool
in_map_or_bios none a = in_bios a
in_map_or_bios (some entries) a = in_map entries a || in_bios a

-- A range that ends 16 bytes or more below the last address.
abbrev pub IsBelow : SmmapEntry → Type 0
IsBelow e = direct_map + e.phys_start + e.size + 16 ≤ 2 ^ 64

abbrev pub AreBelow : Option (List SmmapEntry) → Type 0
AreBelow none = Unit {0}
AreBelow (some entries) = All IsBelow entries

-- A root pointer among the places is answered, or there is none.
abbrev pub Found : Memory → (places : ℕ → Bool) → Option ℕ → Type 0
Found mem places none = (a : ℕ) → places a && is_rsdp mem a ≡ false
Found mem places (some a) = places a && is_rsdp mem a ≡ true

module _ (mem : Memory) where
  -- Where there is none at the first address, the steps behind it decide.
  widen :
      (addr limit : ℕ)
      → is_rsdp mem addr ≡ false
      → (o : Option ℕ) → Found mem (in_area (addr + 16) limit) o
      → Found mem (in_area addr limit) o
  widen addr limit u none f = λ a. elim (Bool-cases (a == addr)) [
    | inl p ↦ let same : a ≡ addr = ground (arith, p) in rw (same, u) (ground arith)
    | inr p ↦ ground (arith, p, f a)
  ]
  widen addr limit u (some a) f = ground (arith, f)

  scan-Found :
      (rounds addr limit : ℕ)
      → limit ≤ addr + 16 * rounds
      → limit + 16 ≤ 2 ^ 64
      → Found mem (in_area addr limit) (scan mem rounds addr limit)
  unfolding scan
  scan-Found zero addr limit enough below = λ a. ground (arith, enough)
  scan-Found (suc rounds) addr limit enough below =
      let F = λ (o : Option ℕ). Found mem (in_area addr limit) o in
      if_cases F (ltb addr limit)
        (λ t.
          if_cases F (is_rsdp mem addr) (λ u. rw u (ground (arith, t)))
            (λ u.
              let here : addr < limit = ground (arith, t) in
              let step : (addr + 16) % 2 ^ 64 ≡ addr + 16 = omega (arith, here, below) in
              rw step (
                widen addr limit u (scan mem rounds (addr + 16) limit)
                  (scan-Found rounds (addr + 16) limit (omega (arith, enough)) below))))
        (λ t a. ground (arith, t))

  or_else-Found :
      (c d : ℕ → Bool) (o o' : Option ℕ)
      → Found mem c o
      → Found mem d o'
      → Found mem (λ a. c a || d a) (or_else o o')
  or_else-Found c d none none f g = λ a. ground (arith, f a, g a)
  or_else-Found c d none (some a) f g = ground (arith, f a, g)
  or_else-Found c d (some a) o' f g = ground (arith, f)

  area-Found :
      (base limit : ℕ)
      → limit + 16 ≤ 2 ^ 64
      → Found mem (in_area base limit) (scan_area mem base limit)
  unfolding scan_area
  area-Found base limit below = scan-Found ((limit - base + 15) / 16) base limit (omega arith) below

  searched :
      (t : Bool) (e : SmmapEntry)
      → IsBelow e
      → Found mem
          (λ a. t && in_area (direct_map + e.phys_start) (direct_map + e.phys_start + e.size) a)
          (if t then scan_area mem (virt e.phys_start) (virt (e.phys_start + e.size)) else none)
  searched false e below = λ a. refl
  searched true e below =
      let base : virt e.phys_start ≡ direct_map + e.phys_start = omega arith in
      let limit : virt (e.phys_start + e.size) ≡ direct_map + e.phys_start + e.size = omega arith in
      rw (base, limit)
        (area-Found (direct_map + e.phys_start) (direct_map + e.phys_start + e.size) below)

  entry-Found :
      (e : SmmapEntry)
      → IsBelow e
      → Found mem
          (λ a.
            is_searched e.type
            && in_area (direct_map + e.phys_start) (direct_map + e.phys_start + e.size) a)
          (if is_searched e.type
            then scan_area mem (virt e.phys_start) (virt (e.phys_start + e.size))
            else none)
  entry-Found e below = searched (is_searched e.type) e below

  search_map-Found :
      (entries : List SmmapEntry)
      → All IsBelow entries
      → Found mem (in_map entries) (search_map mem entries)
  unfolding search_map
  search_map-Found [] h = λ a. refl
  search_map-Found (e ∷ entries) h =
      or_else-Found
        (λ a.
          is_searched e.type
          && in_area (direct_map + e.phys_start) (direct_map + e.phys_start + e.size) a)
        (in_map entries) _ (search_map mem entries) (entry-Found e h.0)
        (search_map-Found entries h.1)

  area-none : (base limit : ℕ) → limit ≤ base → scan_area mem base limit ≡ none
  unfolding scan_area scan
  area-none base limit behind = let rounds : (limit - base + 15) / 16 ≡ 0 = omega arith in rw rounds

  -- The loop over the extended data of the BIOS looks at no address.
  ebda-none : (e : ℕ) → scan_area mem (virt (e % 2 ^ 32)) ((e % 2 ^ 32 + 1024) % 2 ^ 32) ≡ none
  ebda-none e = area-none (virt (e % 2 ^ 32)) ((e % 2 ^ 32 + 1024) % 2 ^ 32) (omega arith)

  nowhere : (o : Option ℕ) → o ≡ none → Found mem (λ a. false) o
  nowhere none p = λ a. refl
  nowhere (some a) p = cc

  in_either :
      (map : Option (List SmmapEntry)) (o : Option ℕ)
      → AreBelow map
      → Found mem in_bios o
      → Found mem (in_map_or_bios map) (or_else (map_or_nothing mem map) o)
  in_either none o h f = f
  in_either (some entries) o h f =
      or_else-Found (in_map entries) in_bios (search_map mem entries) o (search_map-Found entries h)
        f

  -- On a map of ranges that end below the last 16 addresses, acpi_find_rsdp answers a sound root
  -- pointer on a step of 16 bytes in the searched ranges of the map or in the area of the BIOS, and
  -- answers NULL where there is none. The extended data of the BIOS are not among these.
  pub find_rsdp_lem :
      (map : Option (List SmmapEntry))
      → AreBelow map
      → Found mem (in_map_or_bios map) (find_rsdp mem map)
  unfolding find_rsdp
  find_rsdp_lem map h =
      let rest =
        or_else-Found (λ a. false) in_bios (search_ebda mem) (search_bios mem)
          (nowhere (search_ebda mem) (ebda-none (le mem (virt 0x40E) 2 * 16)))
          (area-Found (virt 0xE0000) (virt 0x100000) (omega arith)) in
      in_either map (or_else (search_ebda mem) (search_bios mem)) h rest
