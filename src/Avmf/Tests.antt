-- ===== src/Avmf/Tests.antt =====
-- Kernel/mm/avmf.c: the search for a region.
use aos.Base.{ℕ, ◌+◌, ◌^◌, ◌%◌, ◌≡◌, refl, List, [], ◌∷◌, some}
use aos.Avmf.{Region, avmf_signature}
use aos.Avmf.Search.{find_region, best_region, is_candidate, last_such, find_region_lem}

abbrev region : ℕ → ℕ → Region
region base limit = record {
  signature = avmf_signature;
  version = 1;
  base = base;
  limit = limit;
  allocated_bytes = 0;
  free_list = [];
  free_count = 0;
  free_list_end = 0;
}

-- The first region ends behind 0x9000, the second only behind the size asked for.
abbrev two_regions : List Region
two_regions = region 0x1000 0xA000 ∷ region 0x1000 0x8000 ∷ []

-- The second is answered, although its score is less.
later_region : find_region (λ r. r) two_regions 0x2000 0x9000 0x100 ≡ some (region 0x1000 0x8000)
unfolding find_region best_region
later_region = refl

find_region_lem_example :
    find_region (λ r. r) two_regions 0x2000 0x9000 0x100
    ≡ last_such (λ x. is_candidate 0x2000 0x9000 ((0x100 + 0x2000) % 2 ^ 64) x) two_regions
find_region_lem_example = find_region_lem (λ r. r) two_regions 0x2000 0x9000 0x100
