-- ===== src/Avmf/RegionFree.antt =====
-- Kernel/mm/avmf.c: `avmf_region_free`, which gives the header of an allocation to the cache of its
-- region, or its addresses to the free list.
pub mod Again
use aos.Base.{ℕ, zero, suc, ◌+◌, ◌-◌, ◌%◌, ◌^◌, Bool, true, false, not, ◌&&◌, ◌||◌, ltb, ◌==◌}
use aos.Base.{if◌then◌else◌}
use aos.Avmf.{Region, Range, usable, uint64_max, align4k}
use aos.Avmf.FreeList.{free_list_append}
use aos.Avmf.Headers.{Header, HeaderType, cache, alloc, Space, change, set_type, is_bad, is_corrupt}
use aos.Avmf.Headers.{same_type, unlink_header, link_header}
use aos.Avmf.RegionAlloc.{Vm, with_space, with_region, alloc_range, free_range, sub64}

-- The header goes to the cache; false where it cannot be linked there.
unfoldable pub to_cache : Vm → (c : ℕ) → Bool × Vm
to_cache vm c =
    let (linked, v) = link_header (change (unlink_header vm.space c) c (set_type cache)) c in
    if linked
    then (true, with_space vm (change v c (λ x. record x { type = cache; used = false })))
    else (false, with_space vm v)

-- The header is taken from its list, and its bytes are no longer charged.
abbrev pub forget : Space → (c : ℕ) → Space
forget v c =
    let w = change (unlink_header v c) c (λ x. record x { used = false }) in
    record w {
      region = record (w.region) {
        allocated_bytes = sub64 w.region.allocated_bytes (w.headers c).size;
      };
    }

-- `add_to_free_list`.
unfoldable pub to_free_list : Vm → (c : ℕ) → Vm
unfolding alloc_range free_range
to_free_list vm c =
    let x = vm.space.headers c in
    let (at, vm1) = alloc_range vm in
    let (appended, r) =
      free_list_append vm1.space.region (record { at = at; base = x.virt_addr; size = x.size }) in
    if at == 0
    then vm1
    else if not appended
    then free_range (with_region vm1 r) at
    else with_space vm1 (forget (record (vm1.space) { region = r }) c)

abbrev pub or_free_list : Bool × Vm → (c : ℕ) → Vm
or_free_list (true, vm) c = vm
or_free_list (false, vm) c = to_free_list vm c

unfoldable pub release : Vm → (c : ℕ) → Vm
unfolding to_free_list
release vm c =
    if ltb 0x200 (vm.space.headers c).size
    then or_free_list (to_cache vm c) c
    else to_free_list vm c

-- The loop over the allocations, with `rounds` left, for the header of `size` bytes at `base`.
unfoldable pub free_loop : (rounds : ℕ) → Vm → (base size i c : ℕ) → Vm
unfolding release
free_loop zero vm base size i c = vm
free_loop (suc rounds) vm base size i c =
    let x = vm.space.headers c in
    let lost = is_corrupt x.type in
    let bad = is_bad x || not (same_type x.type alloc) in
    let vm' = if lost then vm else with_space vm (unlink_header vm.space c) in
    let past = free_loop rounds vm' base size (i + 1) x.next in
    let over = free_loop rounds vm base size (i + 1) x.next in
    if not (ltb i vm.space.allocs.count) || c == 0
    then vm
    else if lost || bad
    then (if x.next == 0 || not (same_type (vm'.space.headers x.next).type alloc)
        then vm'
        else past)
    else if not (x.virt_addr == base) || not (x.size == size)
    then over
    else release vm c

-- `size` is first raised to a multiple of a page.
unfoldable pub region_free : Vm → (base size : ℕ) → Vm
region_free vm base size =
    let allocs = vm.space.allocs in
    let bytes = align4k size in
    if not (usable vm.space.region)
    then vm
    else if bytes == 0 || (ltb (uint64_max - bytes) base || (allocs.count == 0 || allocs.list == 0))
    then vm
    else free_loop allocs.count vm base bytes 0 allocs.list
