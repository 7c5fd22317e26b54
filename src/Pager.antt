-- ===== src/Pager.antt =====
-- Kernel/mm/pager.c: the page tables of the kernel. Tables stand in a store by their physical
-- addresses, which `pager_phys_to_virt` makes pointers of; the lock is left out.
pub mod Walk
pub mod Owned
pub mod Writes
pub mod Descent
pub mod Map
pub mod Unmap
pub mod Boot
mod Tests
use aos.Base.{
  ℕ, zero, suc, ◌+◌, ◌-◌, ◌*◌, ◌/◌, ◌%◌, ◌^◌, Bool, true, false, not, ◌&&◌, ◌||◌, ltb, leb, ◌==◌,
}
use aos.Base.{List, [], ◌∷◌, Option, none, some, if◌then◌else◌, Exec, done, fault, ◌>>=◌}
use aos.Avmf.{page_size}

-- `struct page_table`s: the entries of each.
abbrev pub Tables : Type 0
Tables = ℕ → ℕ → ℕ

-- What tables are made of: before the pager is ready, `first_pagemaps`, `first_pagemaps_end` and
-- `first_pagemaps_ptr`; then what `avmf_alloc_phys_contiguous` and `avmf_alloc_virt` come to, call
-- after call, 0 where they refuse.
pub record Source : Type 0 where
  pub pager_ready : Bool
  pub first_pagemaps : ℕ
  pub first_pagemaps_end : ℕ
  pub first_pagemaps_ptr : ℕ
  pub answers : List (ℕ × ℕ)

-- `kernel_pml4.table_phys`, 0 while there is no table, `cpu_phys_bits`, whether `mapped_pml4` is
-- set, and the tables with what others are made of.
pub record Pager : Type 0 where
  pub pml4 : ℕ
  pub cpu_phys_bits : ℕ
  pub mapped : Bool
  pub tables : Tables
  pub source : Source

-- A table behind those that were made before.
abbrev pub early_table : Source → Option ℕ × Source
early_table s =
    let phys = s.first_pagemaps + s.first_pagemaps_ptr in
    if ltb s.first_pagemaps_end (phys + page_size) then (none, s) else (
      if phys == 0 then none else some phys,
      record s { first_pagemaps_ptr = s.first_pagemaps_ptr + page_size },
    )

-- A table of the memory manager. Its physical address is not looked at.
abbrev pub ready_table : Source → List (ℕ × ℕ) → Option ℕ × Source
ready_table s [] = (none, s)
ready_table s ((phys, virt) ∷ answers) =
    (if virt == 0 then none else some phys, record s { answers = answers })

-- `alloc_page_table`: the physical address of the table, none for NULL. The table is cleared where
-- it is attached, by `clear`.
abbrev pub alloc_page_table : Source → Option ℕ × Source
alloc_page_table s = if s.pager_ready then ready_table s s.answers else early_table s

-- `PAGE_PRESENT`, `PAGE_HUGE`, and an entry with them.
abbrev pub is_present : ℕ → Bool
is_present e = e % 2 == 1

abbrev pub is_huge : ℕ → Bool
is_huge e = e / 0x80 % 2 == 1

abbrev pub set_present : ℕ → ℕ
set_present e = e / 2 * 2 + 1

abbrev pub clear_present : ℕ → ℕ
clear_present e = e / 2 * 2

abbrev pub set_huge : ℕ → ℕ
set_huge flags = if is_huge flags then flags else flags + 0x80

-- `& ~0xFFFULL` and `& ~0x1FFFFFULL`.
abbrev pub page_of : ℕ → ℕ
page_of e = e / 0x1000 * 0x1000

abbrev pub huge_page_of : ℕ → ℕ
huge_page_of e = e / 0x200000 * 0x200000

-- `phys | PAGE_PRESENT | PAGE_RW`.
abbrev pub link_to : ℕ → ℕ
link_to phys = phys / 4 * 4 + 3

-- The entry for a page whose low bits are clear: the flags take their place.
abbrev pub entry_for : (base flags : ℕ) → ℕ
entry_for base flags = set_present (base + flags % 0x1000)

-- The index into a table of the level, 0 for the page tables and 3 for the PML4.
abbrev pub index : (level virt : ℕ) → ℕ
index level virt = virt / 2 ^ (12 + 9 * level) % 512

unfoldable pub write : Tables → (table i e : ℕ) → Tables
write tables table i e t j = if t == table && j == i then e else tables t j

unfoldable pub clear : Tables → (table : ℕ) → Tables
clear tables table t j = if t == table then 0 else tables t j

-- A new table, linked from an entry. The answer is not looked at: an access through NULL faults.
abbrev pub attach_new : Pager → (table i : ℕ) → Option ℕ × Source → Exec (ℕ × Pager)
attach_new p table i (none, s) = fault
attach_new p table i (some phys, s) =
    done
      (phys, record p { tables = write (clear p.tables phys) table i (link_to phys); source = s })

-- The table that an entry leads to, a new one if there is none.
unfoldable pub descend : Pager → (table i : ℕ) → Exec (ℕ × Pager)
descend p table i =
    let e = p.tables table i in
    if is_present e then done (page_of e, p) else attach_new p table i (alloc_page_table p.source)

-- A page of 2 MiB, in an entry of the directory.
unfoldable pub map_huge : Pager → (pd virt phys flags : ℕ) → Bool × Pager
map_huge p pd virt phys flags =
    let i = index 1 virt in
    let old = p.tables pd i in
    if is_present old
    then (is_huge old && huge_page_of old == huge_page_of phys, p)
    else (true, record p { tables = write p.tables pd i (entry_for (huge_page_of phys) flags) })

-- An entry of a page table.
unfoldable pub map_small : Pager → (pt virt phys flags : ℕ) → Bool × Pager
map_small p pt virt phys flags =
    let i = index 0 virt in
    let old = p.tables pt i in
    if is_present old
    then (page_of old == page_of phys, p)
    else (true, record p { tables = write p.tables pt i (entry_for (page_of phys) flags) })

unfoldable pub map_in : Pager → (pd virt phys flags : ℕ) → Exec (Bool × Pager)
map_in p pd virt phys flags =
    let e = p.tables pd (index 1 virt) in
    if is_huge flags
    then done (map_huge p pd virt phys flags)
    else if is_huge e
    then done (huge_page_of e == huge_page_of phys, p)
    else (do (pt, p') ← descend p pd (index 1 virt); done (map_small p' pt virt phys flags))

-- `pager_map`: does it answer a pointer, or NULL?
unfoldable pub pager_map : Pager → (virt phys flags : ℕ) → Exec (Bool × Pager)
pager_map p virt phys flags =
    if leb (2 ^ p.cpu_phys_bits) phys || p.pml4 == 0 then done (false, p) else (do
      (pdpt, p1) ← descend p p.pml4 (index 3 virt)
      (pd, p2) ← descend p1 pdpt (index 2 virt)
      map_in p2 pd virt phys flags)

-- `pager_map_range`, with `rounds` left of its loop.
unfoldable pub map_rounds : (rounds : ℕ) → Pager → (virt phys size flags offset : ℕ) → Exec Pager
map_rounds zero p virt phys size flags offset = done p
map_rounds (suc rounds) p virt phys size flags offset =
    let v = (virt + offset) % 2 ^ 64 in
    let f = (phys + offset) % 2 ^ 64 in
    let is_large = leb 0x200000 (size - offset) && (v % 0x200000 == 0 && f % 0x200000 == 0) in
    let step = if is_large then 0x200000 else page_size in
    let rest = λ (q : Pager). map_rounds rounds q virt phys size flags (offset + step) in
    if leb size offset
    then done p
    else (do (mapped, q) ← pager_map p v f (if is_large then set_huge flags else flags); rest q)

unfoldable pub pager_map_range : Pager → (virt phys size flags : ℕ) → Exec Pager
pager_map_range p virt phys size flags =
    map_rounds ((size + (page_size - 1)) / page_size) p virt phys size flags 0

-- The entry of a page table is no longer present.
abbrev pub drop_entry : Pager → (table i : ℕ) → Pager
drop_entry p table i = record p {
  tables = write p.tables table i (clear_present (p.tables table i));
}

unfoldable pub pager_unmap : Pager → (virt : ℕ) → Pager
pager_unmap p virt =
    let pdpt = page_of (p.tables p.pml4 (index 3 virt)) in
    let pd = page_of (p.tables pdpt (index 2 virt)) in
    let e = p.tables pd (index 1 virt) in
    if not p.mapped
    then p
    else if not (is_present (p.tables p.pml4 (index 3 virt)))
    then p
    else if not (is_present (p.tables pdpt (index 2 virt)))
    then p
    else if is_huge e
    then drop_entry p pd (index 1 virt)
    else if not (is_present e)
    then p
    else drop_entry p (page_of e) (index 0 virt)

-- `pager_load`, less the register that it loads.
abbrev pub pager_load : Pager → Pager
pager_load p = record p { mapped = true }
