-- ===== src/Avmf/Virtual.antt =====
-- Kernel/mm/avmf.c: `avmf_alloc_virt`, `avmf_alloc` and `avmf_free`, which bring the regions of
-- virtual addresses, the physical pages and the pager together.
pub mod Again
mod Tests
use aos.Base.{
  ℕ, zero, suc, ◌+◌, ◌-◌, ◌*◌, ◌/◌, ◌%◌, ◌^◌, Bool, true, false, not, ◌&&◌, ◌||◌, ltb, leb, ◌==◌,
}
use aos.Base.{List, [], ◌∷◌, map, Option, none, some, if◌then◌else◌, Exec, done, ◌>>=◌}
use aos.Avmf.{Region, page_size, uint64_max, align4k}
use aos.Avmf.Bitmap.{bitmap_clear}
use aos.Avmf.Phys.{Phys, add64, alloc_phys_contiguous}
use aos.Avmf.Search.{find_region}
use aos.Avmf.Carve.{Carver, Supply}
use aos.Avmf.Headers.{Header, HeaderList, Space, change, alloc, cache, same_type, is_bad}
use aos.Avmf.RegionAlloc.{Request, Vm, region_alloc}
use aos.Avmf.RegionFree.{region_free}
use aos.Pager.{Pager, pager_map_range, pager_unmap}

-- An element of the table `regions`.
pub record Slot : Type 0 where
  pub region : Region
  pub allocs : HeaderList
  pub caches : HeaderList

-- The regions up to `region_count`, the headers and the memory for them and for ranges, the
-- physical pages and the page tables.
pub record Memory : Type 0 where
  pub slots : List Slot
  pub headers : ℕ → Header
  pub hdrs : Carver
  pub ranges : Carver
  pub supply : Supply
  pub phys : Phys
  pub pager : Pager

-- A region with what its operations work on, and the memory after them.
abbrev pub view : Memory → Slot → Vm
view m s = record {
  space = record { region = s.region; allocs = s.allocs; caches = s.caches; headers = m.headers };
  hdrs = m.hdrs;
  ranges = m.ranges;
  supply = m.supply;
}

abbrev pub slot_of : Vm → Slot
slot_of w = record { region = w.space.region; allocs = w.space.allocs; caches = w.space.caches }

abbrev pub put_slot : ℕ → Slot → List Slot → List Slot
put_slot i s [] = []
put_slot zero s (x ∷ xs) = s ∷ xs
put_slot (suc i) s (x ∷ xs) = x ∷ put_slot i s xs

abbrev pub put_back : Memory → ℕ → Vm → Memory
put_back m i w = record m {
  slots = put_slot i (slot_of w) m.slots;
  headers = w.space.headers;
  hdrs = w.hdrs;
  ranges = w.ranges;
  supply = w.supply;
}

-- The places of the table from `i` on, with their regions.
abbrev pub places : ℕ → List Region → List (ℕ × Region)
places i [] = []
places i (r ∷ rs) = (i, r) ∷ places (i + 1) rs

abbrev pub slot_at : ℕ → List Slot → Option Slot
slot_at i [] = none
slot_at zero (x ∷ xs) = some x
slot_at (suc i) (x ∷ xs) = slot_at i xs

abbrev pub place_of : Option (ℕ × Region) → Option ℕ
place_of none = none
place_of (some x) = some x.0

-- `avmf_find_region`: the place of the region in the table.
unfoldable pub find_place : Memory → (min_virt max_virt min_size : ℕ) → Option ℕ
find_place m min_virt max_virt min_size =
    place_of
      (find_region (λ x. x.1) (places 0 (map (λ s. s.region) m.slots)) min_virt max_virt min_size)

-- `MemoryAllocType`, and the addresses of each type; none for a type that is not valid.
pub data AllocType : Type 0 where
  unknown user kernel driver sensitive : AllocType

abbrev pub user_space_base : ℕ
user_space_base = 0x1000

abbrev pub direct_map_base : ℕ
direct_map_base = 0xFFFF800000000000

abbrev pub kernel_space_base : ℕ
kernel_space_base = 0xFFFFA00000000000

abbrev pub driver_space_base : ℕ
driver_space_base = 0xFFFFC00000000000

abbrev pub sensitive_space_base : ℕ
sensitive_space_base = 0xFFFFE00000000000

abbrev pub addresses : AllocType → Option (ℕ × ℕ)
addresses unknown = none
addresses user = some (user_space_base, direct_map_base)
addresses kernel = some (kernel_space_base, driver_space_base)
addresses driver = some (driver_space_base, sensitive_space_base)
addresses sensitive = some (sensitive_space_base, uint64_max)

-- The header that the region at a place gives, 0 for NULL.
unfoldable pub alloc_at : Memory → Request → (i : ℕ) → Option Slot → ℕ × Memory
alloc_at m q i none = (0, m)
alloc_at m q i (some s) = let (h, w) = region_alloc q (view m s) in (h, put_back m i w)

-- `avmf_alloc_hdr_internal`, with the place of the region.
unfoldable pub alloc_in : Memory → Request → Option ℕ → ℕ × Option ℕ × Memory
alloc_in m q none = (0, none, m)
alloc_in m q (some i) = let (h, m') = alloc_at m q i (slot_at i m.slots) in (h, some i, m')

abbrev pub with_bounds : Memory → (size : ℕ) → Option (ℕ × ℕ) → ℕ × Option ℕ × Memory
with_bounds m size none = (0, none, m)
with_bounds m size (some (low, high)) =
    alloc_in m (record { size = size; align = page_size; min_virt = low; max_virt = high })
      (find_place m low high size)

unfoldable pub alloc_hdr_internal : Memory → (size : ℕ) → AllocType → ℕ × Option ℕ × Memory
unfolding alloc_in
alloc_hdr_internal m size type =
    if ltb size 1 then (0, none, m) else with_bounds m size (addresses type)

pub avmf_alloc_virt : Memory → (size : ℕ) → AllocType → ℕ × Memory
unfolding alloc_hdr_internal
avmf_alloc_virt m size type =
    let (h, i, m') = alloc_hdr_internal m (align4k size) type in
    (if h == 0 then 0 else (m'.headers h).virt_addr, m')

-- The flags of a `uint32_t` and those of the pager.
abbrev pub flag : (flags bit : ℕ) → Bool
flag flags bit = flags / bit % 2 == 1

unfoldable pub convert_flags : ℕ → ℕ
convert_flags flags =
    (if flag flags 0x4 then 0 else 2 ^ 63)
    + (if flag flags 0x2 || flag flags 0x1 then 0x2 else 0)
    + (if flag flags 0x10 then 0x10 else 0)
    + (if flag flags 0x8 then 0x4 else 0)
    + (if flag flags 0x20 then 0x100 else 0)
    + (if flag flags 0x40 then 0x40 else 0)

-- The header has its pages already, as one from the cache has.
abbrev pub reuse : Memory → Header → (flags : ℕ) → Exec ((ℕ × ℕ) × Memory)
reuse m x flags = if same_type x.type cache then done ((x.virt_addr, x.phys_addr), m) else (do
  pager ← pager_map_range m.pager x.virt_addr x.phys_addr x.size flags
  done ((x.virt_addr, x.phys_addr), record m { pager = pager }))

-- The region takes its addresses back.
abbrev pub free_at : Memory → (i virt size : ℕ) → Option Slot → Memory
free_at m i virt size none = m
free_at m i virt size (some s) = put_back m i (region_free (view m s) virt size)

-- Pages are taken for the header, and mapped.
abbrev pub populate : Memory → (h i flags : ℕ) → ℕ × Phys → Exec ((ℕ × ℕ) × Memory)
populate m h i flags (phys, pages) =
    let x = m.headers h in
    if phys == 0
    then done ((0, 0), free_at (record m { phys = pages }) i x.virt_addr x.size (slot_at i m.slots))
    else (do
      pager ← pager_map_range m.pager x.virt_addr phys x.size flags
      done (
        (x.virt_addr, phys),
        record m {
          headers = λ a. if a == h then record (m.headers a) { phys_addr = phys } else m.headers a;
          phys = pages;
          pager = pager;
        },
      ))

abbrev pub back : (flags : ℕ) → ℕ × Option ℕ × Memory → Exec ((ℕ × ℕ) × Memory)
back flags (h, none, m) = done ((0, 0), m)
back flags (h, some i, m) =
    let x = m.headers h in
    if h == 0
    then done ((0, 0), m)
    else if ltb 0 x.phys_addr
    then reuse m x flags
    else (do taken ← alloc_phys_contiguous m.phys x.size; populate m h i flags taken)

-- `avmf_alloc`: the address and `*phys_out`, 0 where it gives up.
unfoldable pub avmf_alloc : Memory → (size : ℕ) → AllocType → (flags : ℕ) → Exec ((ℕ × ℕ) × Memory)
unfolding alloc_hdr_internal convert_flags
avmf_alloc m size type flags =
    if align4k size == 0
    then done ((0, 0), m)
    else back (convert_flags flags) (alloc_hdr_internal m (align4k size) type)

-- The loop of `avmf_free` for the header that holds an address, which follows `next` without a
-- bound; here as far as `rounds` headers.
unfoldable pub holder : (rounds : ℕ) → (ℕ → Header) → (virt h : ℕ) → Option ℕ
holder zero headers virt h = none
holder (suc rounds) headers virt h =
    let x = headers h in
    let rest = holder rounds headers virt x.next in
    if h == 0
    then none
    else if not (same_type x.type alloc) || is_bad x
    then rest
    else if leb x.virt_addr virt && ltb virt (add64 x.virt_addr x.size)
    then some h
    else rest

-- The pages of a header, `n` from the `i`th on: each is marked as free and unmapped.
unfoldable pub drop_pages : (n : ℕ) → Phys → Pager → (page virt i : ℕ) → Exec (Phys × Pager)
drop_pages zero phys pager page virt i = done (phys, pager)
drop_pages (suc n) phys pager page virt i = do
  b ← bitmap_clear phys.bitmap (page + i)
  drop_pages n (record phys { bitmap = b }) (pager_unmap pager ((virt + page_size * i) % 2 ^ 64))
      page virt (i + 1)

abbrev pub free_header_at : Memory → (i : ℕ) → Slot → Option ℕ → Exec Memory
free_header_at m i s none = done m
free_header_at m i s (some h) =
    let x = m.headers h in
    do
      (phys, pager) ←
          drop_pages (x.size / page_size) m.phys m.pager (x.phys_addr / page_size) x.virt_addr 0
      done (
          put_back (record m { phys = phys; pager = pager }) i
            (region_free (view m s) x.virt_addr x.size))

abbrev pub free_in : (rounds : ℕ) → Memory → (virt i : ℕ) → Option Slot → Exec Memory
free_in rounds m virt i none = done m
free_in rounds m virt i (some s) = free_header_at m i s (holder rounds m.headers virt s.allocs.list)

abbrev pub free_place : (rounds : ℕ) → Memory → (virt : ℕ) → Option ℕ → Exec Memory
free_place rounds m virt none = done m
free_place rounds m virt (some i) = free_in rounds m virt i (slot_at i m.slots)

unfoldable pub avmf_free : (rounds : ℕ) → Memory → (virt : ℕ) → Exec Memory
unfolding holder drop_pages
avmf_free rounds m virt =
    if virt == 0
    then done m
    else free_place rounds m virt (find_place m virt uint64_max (add64 virt 1))
