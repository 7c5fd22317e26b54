-- ===== src/Avmf/Virtual/Tests.antt =====
-- Kernel/mm/avmf.c: an allocation that is given back and made again.
use aos.Base.{
  ℕ, ◌+◌, ◌/◌, ◌<◌, ◌≤◌, ◌≡◌, refl, arith, true, false, [], ◌∷◌, done, ◌&&◌, ◌==◌, if◌then◌else◌,
}
use aos.Avmf.{page_size, avmf_signature, avmf_version, align4k}
use aos.Avmf.Bitmap.{used}
use aos.Avmf.RegionAlloc.{new_header}
use aos.Avmf.Search.{find_region, best_region}
use aos.Avmf.Virtual.{Memory, Slot, user, find_place, convert_flags, avmf_alloc, avmf_free}
use aos.Avmf.Virtual.Again.{unmap_pages, alloc-free_unmarked}
use aos.Pager.{Tables, Pager, write, descend, map_small, map_in, pager_map, map_rounds}
use aos.Pager.{pager_map_range, pager_unmap}

abbrev slot : Slot
slot = record {
  region = record {
    signature = avmf_signature;
    version = avmf_version;
    base = 0x1000;
    limit = 0x20000000;
    allocated_bytes = 0x1000;
    free_list = [];
    free_count = 0;
    free_list_end = 0;
  };
  allocs = record { list = 72; count = 1; end = 72 };
  caches = record { list = 0; count = 0; end = 0 };
}

-- Tables that map the page 0x2000 to the physical page 7.
abbrev mapped_page : Tables
mapped_page t i =
    if t == 0x1000 && i == 0
    then 0x10003
    else if t == 0x10000 && i == 0
    then 0x11003
    else if t == 0x11000 && i == 0
    then 0x12003
    else if t == 0x12000 && i == 2
    then 0x7003
    else 0

-- One page at 0x2000, on the physical page 7.
abbrev memory : Memory
memory = record {
  slots = slot ∷ [];
  headers = λ a. new_header 0x2000 0x7000 0x1000;
  hdrs = record { page = 0x200000; remaining = 4096 };
  ranges = record { page = 0x300000; remaining = 4096 };
  supply = [];
  phys = record { regions = []; bitmap = λ a. 0x80 };
  pager = record {
    pml4 = 0x1000;
    cpu_phys_bits = 40;
    mapped = true;
    tables = mapped_page;
    source = record {
      pager_ready = true;
      first_pagemaps = 0;
      first_pagemaps_end = 0;
      first_pagemaps_ptr = 0;
      answers = [];
    };
  };
}

-- The page is unmapped, and mapped again.
abbrev unmapped : Pager
unmapped = record (memory.pager) { tables = write mapped_page 0x12000 2 0x7002 }

abbrev remapped : Pager
remapped = record unmapped { tables = write unmapped.tables 0x12000 2 0x7003 }

pages_unmapped : unmap_pages 1 memory.pager 0x2000 0 ≡ unmapped
unfolding pager_unmap write
pages_unmapped = refl

alloc-free_unmarked_example :
    (m1 : Memory) × (m2 : Memory) × (avmf_free 4 memory 0x2000 ≡ done m1)
    × (m1.pager ≡ unmap_pages 1 memory.pager 0x2000 0)
    × (avmf_alloc m1 0x1000 user 3 ≡ done ((0x2000, 0x7000), m2))
    × (m2.pager ≡ remapped)
    × (m2.phys ≡ m1.phys)
    × ((q : ℕ)
        → 0x7000 / page_size ≤ q
        → q < 0x7000 / page_size + 0x1000 / page_size
        → used m2.phys.bitmap q ≡ false)
unfolding align4k find_place find_region best_region pager_map_range map_rounds pager_map descend
    map_in map_small write pager_unmap convert_flags
alloc-free_unmarked_example =
    alloc-free_unmarked memory 0 72 slot user 0x1000 0xFFFF800000000000 refl refl refl
      (λ e. omega (arith, e)) refl refl (λ e. omega (arith, e)) (omega arith) (omega arith) refl
      (omega arith) refl (λ e. omega (arith, e)) refl refl refl refl refl (λ i. omega arith)
      (omega arith) 3 3 remapped refl
