-- ===== src/Pager/Tests.antt =====
-- Kernel/mm/pager.c: the pager on small trees of tables.
use aos.Base.{◌≡◌, refl, true, [], ◌∷◌, none, some, ◌==◌}
use aos.Base.{if◌then◌else◌, done, Ends, List, ℕ, All, ◌&&◌, leb, arith}
use aos.Pager.{Tables, Pager, Source, pager_map, pager_unmap, write}
use aos.Pager.Walk.{resolve}
use aos.Pager.Owned.{Owners, IsTree}
use aos.Pager.Writes.{write-IsTree}
use aos.Pager.Map.{Outcome, pager_map_lem}
use aos.Pager.Boot.{
  SmmapEntry, free, reserved, boot_regions, privileged_end, any_free, boot_regions_lem,
}
use aos.Avmf.Init.{IsFresh, Spans, any_covers, virtual_bounds}
use aos.Pager.Unmap.{Unmapped, pager_unmap_lem, remap_large}

-- The pager is ready, and three tables are to be had.
abbrev source : Source
source = record {
  pager_ready = true;
  first_pagemaps = 0;
  first_pagemaps_end = 0;
  first_pagemaps_ptr = 0;
  answers = (0x2000, 1) ∷ (0x3000, 1) ∷ (0x4000, 1) ∷ [];
}

abbrev pager : Tables → Pager
pager tables = record {
  pml4 = 0x1000;
  cpu_phys_bits = 40;
  mapped = true;
  tables = tables;
  source = source;
}

-- Only the PML4, with no entry.
abbrev no_entries : Tables
no_entries t i = 0

abbrev only_pml4 : Owners
only_pml4 t = if t == 0x1000 then some [] else none

pager_map_lem_example :
    Ends
      (pager_map (pager no_entries) 0x400000 0x800000 0x3)
      (Outcome (pager no_entries) 0x400000 0x800000)
pager_map_lem_example =
    pager_map_lem (pager no_entries) 0x400000 0x800000 0x3 only_pml4
      (record { top = refl; child = λ t i l o h p q. absurd cc })
      (refl, refl, λ m. (refl, refl, λ n. (refl, refl, λ o. tt))) refl

-- A large page at 0x400000, in a tree of three tables.
abbrev large : Tables
large = write (write (write no_entries 0x1000 0 0x2003) 0x2000 0 0x3003) 0x3000 2 0x800083

abbrev owners : Owners
owners t =
    if t == 0x1000
    then some []
    else if t == 0x2000
    then some (0 ∷ [])
    else if t == 0x3000
    then some (0 ∷ 0 ∷ [])
    else none

large-IsTree : IsTree owners large 0x1000
large-IsTree =
    let none_there : IsTree owners no_entries 0x1000 = record {
      top = refl;
      child = λ t i l o h p q. absurd cc;
    } in
    let one =
      write-IsTree owners no_entries 0x1000 none_there 0x1000 0 [] refl 0x2003 (λ h p q. refl) in
    let two =
      write-IsTree owners (write no_entries 0x1000 0 0x2003) 0x1000 one 0x2000 0 (0 ∷ []) refl
        0x3003 (λ h p q. refl) in
    write-IsTree owners (write (write no_entries 0x1000 0 0x2003) 0x2000 0 0x3003) 0x1000 two 0x3000
      2 (0 ∷ 0 ∷ []) refl 0x800083 (λ h p q. let no_large = q refl in absurd cc)

pager_unmap_lem_example : Unmapped (pager large) 0x400000 (pager_unmap (pager large) 0x400000)
pager_unmap_lem_example = pager_unmap_lem (pager large) 0x400000 owners large-IsTree refl

remap_large_example :
    (pager_map (pager_unmap (pager large) 0x400000) 0x400000 0x800000 0x3
      ≡ done (true, pager_unmap (pager large) 0x400000))
    × (resolve (pager_unmap (pager large) 0x400000) 0x400000 ≡ none)
unfolding write
remap_large_example =
    remap_large (pager large) 0x400000 owners large-IsTree 0x800000 0x3 refl refl refl refl refl
      refl refl

-- Some memory below the end of the kernel, a reserved range, and 96 MiB of free memory.
abbrev entries : List SmmapEntry
entries =
    record { type = free; phys_start = 0x100000; size = 0x2000000 }
    ∷ record { type = reserved; phys_start = 0x2100000; size = 0x100000 }
    ∷ record { type = free; phys_start = 0x2200000; size = 0x6000000 }
    ∷ []

boot_regions_lem_example : Ends (boot_regions 0x700000 0x800000 entries) (λ (physical, virtual).
    All IsFresh physical
    × All IsFresh virtual
    × Spans virtual virtual_bounds
    × ((a : ℕ) → any_covers physical a ≡ (leb (privileged_end 0x800000) a && any_free entries a)))
boot_regions_lem_example =
    boot_regions_lem 0x700000 0x800000 entries (omega arith, (omega arith, (omega arith, tt)))
      (omega arith)
