-- ===== src/Avmf/RegionAlloc/Tests.antt =====
-- Kernel/mm/avmf.c: allocations of addresses on small regions.
use aos.Base.{ℕ, ◌≡◌, refl, arith, List, [], ◌∷◌}
use aos.Avmf.{Region, Range, avmf_signature, avmf_version, align4k}
use aos.Avmf.Headers.{HeaderList, Space}
use aos.Avmf.Headers.Linked.{link, chain, link_drops}
use aos.Avmf.RegionAlloc.{Request, Vm, region_alloc, new_header, fit}
use aos.Avmf.RegionAlloc.First.{Outcome, region_alloc_lem, only_first}
use aos.Avmf.RegionAlloc.Kept.{data_of}
use aos.Avmf.RegionFree.{region_free}
use aos.Avmf.RegionFree.Again.{region_alloc-free}

abbrev region : List Range → ℕ → Region
region free count = record {
  signature = avmf_signature;
  version = avmf_version;
  base = 0x1000;
  limit = 0x100000;
  allocated_bytes = 0;
  free_list = free;
  free_count = count;
  free_list_end = 0;
}

abbrev no_headers : HeaderList
no_headers = record { list = 0; count = 0; end = 0 }

abbrev one_header : HeaderList
one_header = record { list = 72; count = 1; end = 72 }

-- A region over headers that are all filled in.
abbrev space : Region → HeaderList → Space
space r allocs = record {
  region = r;
  allocs = allocs;
  caches = no_headers;
  headers = λ a. new_header 0x2000 0x7000 0x1000;
}

abbrev vm : Space → Vm
vm v = record {
  space = v;
  hdrs = record { page = 0x200000; remaining = 4096 };
  ranges = record { page = 0x300000; remaining = 4096 };
  supply = [];
}

abbrev two_ranges : List Range
two_ranges =
    record { at = 24; base = 0x1000; size = 0x1000 }
    ∷ record { at = 48; base = 0x8000; size = 0x8000 }
    ∷ []

abbrev one_page : Request
one_page = record { size = 0x1000; align = 0x1000; min_virt = 0x1000; max_virt = 0x100000 }

abbrev two_pages : Request
two_pages = record { size = 0x2000; align = 0x1000; min_virt = 0x1000; max_virt = 0x100000 }

abbrev free_vm : Vm
free_vm = vm (space (region two_ranges 2) no_headers)

abbrev used_vm : Vm
used_vm = vm (space (region two_ranges 2) one_header)

region_alloc_lem_example : Outcome one_page free_vm (region_alloc one_page free_vm)
region_alloc_lem_example =
    region_alloc_lem one_page free_vm
      (record {
        sound = refl;
        order =
            (omega arith, omega arith, omega arith, (omega arith, omega arith, omega arith, tt));
        count = refl;
        bounded = omega arith;
      })
      refl (omega arith) (omega arith)

-- The second range has room for two pages.
only_first_example : region_alloc two_pages free_vm ≡ (0, free_vm)
unfolding fit
only_first_example =
    only_first two_pages free_vm (record { at = 24; base = 0x1000; size = 0x1000 })
      (record { at = 48; base = 0x8000; size = 0x8000 } ∷ []) refl refl refl refl

link_drops_example :
    ((link (link (link (space (region [] 0) no_headers) 72) 144) 216).allocs.count ≡ 3)
    × (chain
          (link (link (link (space (region [] 0) no_headers) 72) 144) 216).headers
          4
          (link (link (link (space (region [] 0) no_headers) 72) 144) 216).allocs.list
        ≡ 72 ∷ 216 ∷ [])
link_drops_example =
    link_drops (space (region [] 0) no_headers) 72 144 216 refl
      (record { present = λ e. absurd (omega (arith, e)); sound = refl; kind = refl })
      (record { present = λ e. absurd (omega (arith, e)); sound = refl; kind = refl })
      (record { present = λ e. absurd (omega (arith, e)); sound = refl; kind = refl })
      (λ e. omega (arith, e)) (λ e. omega (arith, e)) (λ e. omega (arith, e)) refl

region_alloc-free_example :
    ((region_alloc one_page (region_free used_vm 0x2000 0x1000)).0 ≡ 72)
    × ((region_alloc one_page (region_free used_vm 0x2000 0x1000)).1.space.region
        ≡ used_vm.space.region)
    × (data_of ((region_alloc one_page (region_free used_vm 0x2000 0x1000)).1.space.headers 72)
        ≡ data_of (new_header 0x2000 0x7000 0x1000))
unfolding align4k
region_alloc-free_example =
    region_alloc-free used_vm 72 0x2000 0x1000 refl (λ e. omega (arith, e)) refl refl refl refl
      (omega arith) refl (omega arith) refl (λ e. omega (arith, e)) refl one_page refl refl refl
