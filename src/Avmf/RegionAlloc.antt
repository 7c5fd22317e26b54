-- ===== src/Avmf/RegionAlloc.antt =====
-- Kernel/mm/avmf.c: `avmf_region_alloc`, which takes a run of addresses from the headers that a
-- region caches, or from its free list.
pub mod Cut
pub mod Kept
pub mod Fit
pub mod First
mod Tests
use aos.Base.{ℕ, zero, suc, ◌+◌, ◌-◌, ◌%◌, ◌^◌, Bool, true, false, not, ◌&&◌, ◌||◌, ltb, leb, ◌==◌}
use aos.Base.{List, [], ◌∷◌, Option, none, some, if◌then◌else◌}
use aos.Avmf.{Region, Range, usable, avmf_signature, avmf_version, uint64_max}
use aos.Avmf.FreeList.{add64, free_list_append, is_empty}
use aos.Avmf.Carve.{Carver, Supply, header_size, range_size, carve, uncarve}
use aos.Avmf.Headers.{Header, HeaderType, cache, alloc, Space, change, set_type, is_bad, is_corrupt}
use aos.Avmf.Headers.{same_type, unlink_header, link_header}

pub record Request : Type 0 where
  pub size : ℕ
  pub align : ℕ
  pub min_virt : ℕ
  pub max_virt : ℕ

-- A region with what its operations take from: the memory for headers and for ranges.
pub record Vm : Type 0 where
  pub space : Space
  pub hdrs : Carver
  pub ranges : Carver
  pub supply : Supply

abbrev pub with_space : Vm → Space → Vm
with_space vm v = record vm { space = v }

abbrev pub with_region : Vm → Region → Vm
with_region vm r = record vm { space = record (vm.space) { region = r } }

unfoldable pub alloc_header : Vm → ℕ × Vm
unfolding carve
alloc_header vm =
    let (h, c, s) = carve header_size vm.hdrs vm.supply in (h, record vm { hdrs = c; supply = s })

unfoldable pub alloc_range : Vm → ℕ × Vm
unfolding carve
alloc_range vm =
    let (h, c, s) = carve range_size vm.ranges vm.supply in
    (h, record vm { ranges = c; supply = s })

unfoldable pub free_header : Vm → ℕ → Vm
unfolding uncarve
free_header vm h = record vm { hdrs = uncarve header_size vm.hdrs h }

unfoldable pub free_range : Vm → ℕ → Vm
unfolding uncarve
free_range vm h = record vm { ranges = uncarve range_size vm.ranges h }

-- The header of an allocation, as it is filled in.
abbrev pub new_header : (virt phys size : ℕ) → Header
new_header virt phys size = record {
  signature = avmf_signature;
  version = avmf_version;
  type = alloc;
  virt_addr = virt;
  phys_addr = phys;
  size = size;
  used = true;
  next = 0;
  parent = 0;
}

abbrev pub sub64 : ℕ → ℕ → ℕ
sub64 a b = (a + 2 ^ 64 - b) % 2 ^ 64

-- A cached header that is larger gives up its first `size` bytes.
abbrev pub shorten : ℕ → Header → Header
shorten size x = record x {
  size = x.size - size;
  virt_addr = add64 x.virt_addr size;
  phys_addr = add64 x.phys_addr size;
}

-- What is left of a cached header, if it is less than 512 bytes, goes to the free list.
unfoldable pub drop_rest : Vm → (c : ℕ) → Vm
unfolding alloc_range free_range
drop_rest vm c =
    let x = vm.space.headers c in
    let (at, vm1) = alloc_range vm in
    let (appended, r) =
      free_list_append vm1.space.region (record { at = at; base = x.virt_addr; size = x.size }) in
    if not (ltb x.size 0x200)
    then vm
    else if at == 0
    then vm1
    else if not appended
    then free_range (with_region vm1 r) at
    else with_space vm1 (
        unlink_header
          (record (vm1.space) {
            region = record r { allocated_bytes = sub64 r.allocated_bytes x.size };
          })
          c)

-- A cached header of the right size becomes an allocation; none where it cannot be linked.
unfoldable pub take_whole : Vm → (c : ℕ) → Option ℕ × Vm
take_whole vm c =
    let (linked, v) = link_header (change (unlink_header vm.space c) c (set_type alloc)) c in
    if linked
    then (some c, with_space vm (change v c (λ x. record x { used = true })))
    else (none, with_space vm v)

-- A larger one is cut in two, the first part an allocation.
unfoldable pub take_part : Vm → (c size : ℕ) → Option ℕ × Vm
unfolding alloc_header free_header drop_rest
take_part vm c size =
    let x = vm.space.headers c in
    let (h, vm1) = alloc_header vm in
    let (linked, v) =
      link_header (change vm1.space h (λ _. new_header x.virt_addr x.phys_addr size)) h in
    if h == 0
    then (none, vm1)
    else if not linked
    then (none, free_header (with_space vm1 v) h)
    else (some h, drop_rest (with_space vm1 (change v c (shorten size))) c)

-- A cached header outside of the addresses asked for.
abbrev pub out_of_bounds : Request → Header → Bool
out_of_bounds q x =
    (ltb 0 q.min_virt && ltb x.virt_addr q.min_virt)
    || ((ltb 0 q.max_virt && (ltb q.max_virt x.virt_addr || ltb (q.max_virt - x.virt_addr) q.size))
        || q.align == 0)

-- `continue_next` where a cached header could not be used.
abbrev pub or_skip : Option ℕ × Vm → (Vm → Option ℕ × Vm) → Option ℕ × Vm
or_skip (some h, vm) skip = (some h, vm)
or_skip (none, vm) skip = skip vm

-- The loop over the cache, with `rounds` left: the header that is returned, if one is. A header that
-- is too small, or not aligned, is looked at again in the next round.
unfoldable pub search_cache : (rounds : ℕ) → Request → Vm → (i c : ℕ) → Option ℕ × Vm
search_cache zero q vm i c = (none, vm)
search_cache (suc rounds) q vm i c =
    let x = vm.space.headers c in
    let dropped = with_space vm (unlink_header vm.space c) in
    let lost = is_corrupt x.type in
    let bad = not (same_type x.type cache) || is_bad x in
    let vm' = if lost then vm else dropped in
    let past = search_cache rounds q vm' (i + 1) x.next in
    let skip = λ (w : Vm). search_cache rounds q w (i + 1) x.next in
    let stay = search_cache rounds q vm (i + 1) c in
    let aligned = x.virt_addr % q.align == 0 in
    if not (ltb i vm.space.caches.count) || c == 0
    then (none, vm)
    else if lost || bad
    then (if x.next == 0 || not (same_type (vm'.space.headers x.next).type cache)
        then (none, vm')
        else past)
    else if out_of_bounds q x
    then skip vm
    else if x.size == q.size && aligned
    then or_skip (take_whole vm c) skip
    else if ltb q.size x.size && aligned
    then or_skip (take_part vm c q.size) skip
    else stay

-- The start of the allocation in the first free range, raised to the least address and to a
-- multiple of the alignment.
abbrev pub raised : Request → ℕ → ℕ
raised q base = if ltb base q.min_virt then q.min_virt else base

abbrev pub aligned_up : ℕ → ℕ → ℕ
aligned_up align a = if a % align == 0 then a else add64 a (align - a % align)

-- `alloc_base`, or none for each `goto next_free`.
unfoldable pub fit : Request → Range → Option ℕ
fit q cur =
    let range_end = cur.base + cur.size in
    let base = aligned_up q.align (raised q cur.base) in
    if cur.size == 0 || (ltb (uint64_max - cur.size) cur.base || q.align == 0)
    then none
    else if ltb base cur.base || (ltb range_end base || ltb (range_end - base) q.size)
    then none
    else if not (q.max_virt == 0) && (ltb q.max_virt base || ltb (q.max_virt - base) q.size)
    then none
    else some base

-- What cutting `size` bytes from `base` on out of the first range needs and leaves: `rest` is the
-- list behind it, and `at` the address of a new node.
unfoldable pub is_inner : Range → (base size : ℕ) → Bool
is_inner cur base size =
    not (base - cur.base == 0) && not (cur.base + cur.size - (base + size) == 0)

unfoldable pub cut : Range → List Range → (base size at : ℕ) → List Range
cut cur rest base size at =
    let prefix = base - cur.base in
    let suffix = cur.base + cur.size - (base + size) in
    if prefix == 0 && suffix == 0
    then rest
    else if prefix == 0
    then record cur { base = base + size; size = suffix } ∷ rest
    else if suffix == 0
    then record cur { size = prefix } ∷ rest
    else record cur { size = prefix } ∷ record { at = at; base = base + size; size = suffix } ∷ rest

-- The region with the cut made. `prev` is NULL, since the range is the first.
unfoldable pub cut_region : Region → Range → List Range → (base size at : ℕ) → Region
unfolding cut is_inner
cut_region r cur rest base size at =
    let whole = base - cur.base == 0 && cur.base + cur.size - (base + size) == 0 in
    let inner = is_inner cur base size in
    record r {
      free_list = cut cur rest base size at;
      free_count =
          if whole then r.free_count - 1 else if inner then add64 r.free_count 1 else r.free_count;
      free_list_end =
          if not (r.free_list_end == cur.at)
          then r.free_list_end
          else if whole
          then 0
          else if inner
          then at
          else r.free_list_end;
    }

-- A range that the list gives up whole is handed back.
unfoldable pub give_back : Vm → Range → (base size : ℕ) → Vm
unfolding free_range
give_back vm cur base size =
    if base - cur.base == 0 && cur.base + cur.size - (base + size) == 0
    then free_range vm cur.at
    else vm

-- `rollback`, where the header cannot be linked.
unfoldable pub roll_back : Vm → (h base size : ℕ) → Vm
unfolding alloc_range free_range free_header
roll_back vm h base size =
    let (at, vm1) = alloc_range vm in
    let (appended, r) =
      free_list_append vm1.space.region (record { at = at; base = base; size = size }) in
    if at == 0
    then free_header vm1 h
    else if appended
    then free_header (with_region vm1 r) h
    else free_header (free_range (with_region vm1 r) at) h

-- The header is linked, and the region charged.
unfoldable pub commit : Vm → (h base size : ℕ) → ℕ × Vm
commit vm h base size =
    let (linked, v) = link_header vm.space h in
    let r = v.region in
    if linked
    then (
      h,
      with_space vm
          (record v { region = record r { allocated_bytes = add64 r.allocated_bytes size } }),
    )
    else (0, roll_back (with_space vm v) h base size)

-- The header for an allocation at `base` is filled in, the cut made, and the header linked.
unfoldable pub take_from : Vm → Range → List Range → (base size : ℕ) → ℕ × Vm
unfolding alloc_header alloc_range free_header
take_from vm cur rest base size =
    let (h, vm1) = alloc_header vm in
    let vm2 = with_space vm1 (change vm1.space h (λ _. new_header base 0 size)) in
    let (at, vm3) = if is_inner cur base size then alloc_range vm2 else (0, vm2) in
    if h == 0
    then (0, vm1)
    else if is_inner cur base size && at == 0
    then (0, free_header vm3 h)
    else commit
        (give_back (with_region vm3 (cut_region vm3.space.region cur rest base size at)) cur base
          size)
        h base size

-- The part of `avmf_region_alloc` behind the cache. The label `next_free` stands behind the loop, so
-- that only the first range is ever looked at.
unfoldable pub alloc_from_list : Request → Vm → List Range → ℕ × Vm
alloc_from_list q vm [] = (0, vm)
alloc_from_list q vm (cur ∷ rest) =
    if vm.space.region.free_count == 0
    then (0, vm)
    else (elim (fit q cur) [ none ↦ (0, vm) | some base ↦ take_from vm cur rest base q.size ])

-- What the cache does not give is taken from the free list.
unfoldable pub or_list : Request → Option ℕ × Vm → ℕ × Vm
or_list q (some h, vm) = (h, vm)
or_list q (none, vm) = alloc_from_list q vm vm.space.region.free_list

unfoldable pub region_alloc : Request → Vm → ℕ × Vm
region_alloc q vm =
    let caches = vm.space.caches in
    if not (usable vm.space.region)
    then (0, vm)
    else or_list q (search_cache caches.count q vm 0 caches.list)
