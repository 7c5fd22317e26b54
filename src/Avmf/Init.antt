-- ===== src/Avmf/Init.antt =====
-- Kernel/mm/avmf.c: `avmf_region_init` and `avmf_init`, which set the regions up.
use aos.Base.{ℕ, zero, suc, ◌+◌, ◌-◌, ◌*◌, ◌%◌, ◌<◌, ◌≤◌, ◌≡◌, refl, arith, Bool, false, ◌&&◌, ◌||◌}
use aos.Base.{List, [], ◌∷◌, map, ltb, leb, length, All, if◌then◌else◌}
use aos.Avmf.{avmf_signature, avmf_version, uint64_max}
use aos.Avmf.FreeList.Order.{covers}
use aos.Avmf.FreeList.Append.{IsSound}
use aos.Avmf.RegionAlloc.{sub64}
use aos.Avmf.Virtual.{
  Slot, user_space_base, kernel_space_base, driver_space_base, sensitive_space_base,
}

-- `AVMF_STATIC_SIZE`, and `AOS_USER_SPACE_BASE_END` and `AOS_SENSITIVE_SPACE_BASE_END`.
abbrev pub static_size : ℕ
static_size = 1024

abbrev pub user_space_base_end : ℕ
user_space_base_end = 0x20000000

abbrev pub sensitive_space_base_end : ℕ
sensitive_space_base_end = 0xFFFFF00000000000

-- `&static_ranges[count]`: nodes of 24 bytes in a table at `table`.
abbrev pub static_range : (table count : ℕ) → ℕ
static_range table count = table + 24 * count

-- `avmf_region_init`: one free range, which is the node at `at`, and no headers.
unfoldable pub region_init : (at base limit : ℕ) → Slot
region_init at base limit = record {
  region = record {
    signature = avmf_signature;
    version = avmf_version;
    base = base;
    limit = limit;
    allocated_bytes = 0;
    free_list = record { at = at; base = base; size = sub64 limit base } ∷ [];
    free_count = 1;
    free_list_end = at;
  };
  allocs = record { list = 0; count = 0; end = 0 };
  caches = record { list = 0; count = 0; end = 0 };
}

-- The regions for a list of bases and limits, of which `entries` are taken at most, with nodes from
-- the one of index `count` on.
unfoldable pub init_regions : (entries table count : ℕ) → List (ℕ × ℕ) → List Slot
unfolding region_init
init_regions zero table count bounds = []
init_regions (suc entries) table count [] = []
init_regions (suc entries) table count ((base, limit) ∷ bounds) =
    region_init (static_range table count) base limit
    ∷ init_regions entries table (count + 1) bounds

abbrev pub virtual_bounds : List (ℕ × ℕ)
virtual_bounds =
    (user_space_base, user_space_base_end)
    ∷ (kernel_space_base, driver_space_base)
    ∷ (driver_space_base, sensitive_space_base)
    ∷ (sensitive_space_base, sensitive_space_base_end)
    ∷ []

-- `avmf_init` at the start of the kernel, when no region is set up: the physical regions, for the
-- first `entries` of the bases and limits, and the virtual ones.
unfoldable pub avmf_init : (table : ℕ) → List (ℕ × ℕ) → (entries : ℕ) → List Slot × List Slot
unfolding init_regions
avmf_init table bounds entries =
    let ent = if leb entries static_size then entries else static_size in
    let physical = init_regions ent table 0 bounds in
    (physical, init_regions 4 table (length physical) virtual_bounds)

-- A region from `base` up to `limit` that a 64-bit address can hold.
abbrev pub IsRoom : ℕ × ℕ → Type 0
IsRoom (base, limit) = (base < limit) × (limit ≤ uint64_max)

-- A sound region all of whose addresses are free, and that has no headers.
pub record IsFresh (s : Slot) : Type 0 where
  pub sound : IsSound s.region
  pub free : (a : ℕ) → covers s.region.free_list a ≡ (leb s.region.base a && ltb a s.region.limit)
  pub no_allocs : s.allocs.count ≡ 0
  pub no_caches : s.caches.count ≡ 0

region_init-IsFresh :
    (at base limit : ℕ) → IsRoom (base, limit) → IsFresh (region_init at base limit)
unfolding region_init
region_init-IsFresh at base limit (room, fit) =
    let size : sub64 limit base ≡ limit - base = omega arith in
    record {
      sound = record {
        sound = ground arith;
        order = (omega arith, omega arith, omega arith, tt);
        count = refl;
        bounded = omega arith;
      };
      free = λ a. ground (arith, size);
      no_allocs = refl;
      no_caches = refl;
    }

init_regions-IsFresh :
    (entries table count : ℕ) (bounds : List (ℕ × ℕ))
    → All IsRoom bounds
    → All IsFresh (init_regions entries table count bounds)
unfolding init_regions
init_regions-IsFresh zero table count bounds h = tt
init_regions-IsFresh (suc entries) table count [] h = tt
init_regions-IsFresh (suc entries) table count (b ∷ bounds) h = (
  region_init-IsFresh (static_range table count) b.0 b.1 h.0,
  init_regions-IsFresh entries table (count + 1) bounds h.1,
)

-- The rows of bases and limits that a table of regions is set up for.
abbrev pub Spans : List Slot → List (ℕ × ℕ) → Type 0
Spans slots bounds =
    map (λ (s : Slot). let b : ℕ × ℕ = (s.region.base, s.region.limit) in b) slots ≡ bounds

-- Is the address free in a region of the table?
abbrev pub any_covers : List Slot → ℕ → Bool
any_covers [] a = false
any_covers (s ∷ slots) a = covers s.region.free_list a || any_covers slots a

abbrev pub in_bounds : List (ℕ × ℕ) → ℕ → Bool
in_bounds [] a = false
in_bounds ((base, limit) ∷ bounds) a = (leb base a && ltb a limit) || in_bounds bounds a

covers-init_regions :
    (n table count : ℕ) (bounds : List (ℕ × ℕ)) (a : ℕ)
    → All IsRoom bounds
    → length bounds ≤ n
    → any_covers (init_regions n table count bounds) a ≡ in_bounds bounds a
unfolding init_regions region_init
covers-init_regions zero table count [] a h l = refl
covers-init_regions zero table count (b ∷ bounds) a h l = absurd (omega (arith, l))
covers-init_regions (suc n) table count [] a h l = refl
covers-init_regions (suc n) table count (b ∷ bounds) a h l =
    let size : sub64 b.1 b.0 ≡ b.1 - b.0 = omega (arith, h.0.0, h.0.1) in
    ground
      (arith, size, h.0.0, covers-init_regions n table (count + 1) bounds a h.1 (omega (arith, l)))

-- On bases that lie below their limits, which 64 bits can hold, all regions are fresh, the virtual
-- ones are those of the user, the kernel, the drivers and the sensitive data, and the physical ones
-- have all the addresses of the bounds.
pub avmf_init-IsFresh :
    (table : ℕ) (bounds : List (ℕ × ℕ))
    → All IsRoom bounds
    → length bounds < 256
    → All IsFresh (avmf_init table bounds (length bounds % 256)).0
      × All IsFresh (avmf_init table bounds (length bounds % 256)).1
      × Spans (avmf_init table bounds (length bounds % 256)).1 virtual_bounds
      × ((a : ℕ)
          → any_covers (avmf_init table bounds (length bounds % 256)).0 a ≡ in_bounds bounds a)
unfolding avmf_init init_regions region_init
avmf_init-IsFresh table bounds h few =
    let n = length bounds % 256 in
    let all : n ≡ length bounds = omega (arith, few) in
    let ent = if leb n static_size then n else static_size in
    let enough : length bounds ≤ ent = ground (arith, all, few) in
    (
      init_regions-IsFresh ent table 0 bounds h,
      init_regions-IsFresh 4 table (length (init_regions ent table 0 bounds)) virtual_bounds (
        (omega arith, omega arith),
        (
          (omega arith, omega arith),
          ((omega arith, omega arith), ((omega arith, omega arith), tt)),
        ),
      ),
      refl,
      λ a. covers-init_regions ent table 0 bounds a h enough,
    )
