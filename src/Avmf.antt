-- ===== src/Avmf.antt =====
-- Kernel/mm/avmf.c and Kernel/inc/mm/avmf.h: the memory manager. This file declares the region
-- header that its physical and its virtual side share, and passes nothing on.
pub mod Bitmap
pub mod Phys
pub mod FreeList
pub mod Search
pub mod Headers
pub mod Carve
pub mod RegionAlloc
pub mod RegionFree
pub mod Virtual
pub mod Init
mod Tests
use aos.Base.{ℕ, ◌+◌, ◌-◌, ◌*◌, ◌/◌, ◌^◌, ◌≤◌, ◌<◌, Bool, not, ◌&&◌, ◌||◌, List, ltb, leb, ◌==◌}
use aos.Base.{if◌then◌else◌}

abbrev pub page_size : ℕ
page_size = 4096

abbrev pub avmf_signature : ℕ
avmf_signature = 0xA1322F

abbrev pub avmf_version : ℕ
avmf_version = 1

-- `UINT64_MAX`.
abbrev pub uint64_max : ℕ
uint64_max = 2 ^ 64 - 1

-- `struct AVMF_Range`: a run of free addresses, with the address `at` of the node itself. The
-- list in which it stands gives its `next`.
pub record Range : Type 0 where
  pub at : ℕ
  pub base : ℕ
  pub size : ℕ

-- `struct AVMF_Region_Header`, less its lock and its two lists of headers. A pointer is the
-- address of what it points to, 0 for NULL.
pub record Region : Type 0 where
  pub signature : ℕ
  pub version : ℕ
  pub base : ℕ
  pub limit : ℕ
  pub allocated_bytes : ℕ
  pub free_list : List Range
  pub free_count : ℕ
  pub free_list_end : ℕ

-- The test with which every operation passes over, or refuses, a region that is not sound.
abbrev pub usable : Region → Bool
usable r =
    r.signature == avmf_signature
    && (r.version == avmf_version && not (ltb r.limit 1 || leb r.limit r.base))

-- `align4k`: the next multiple of a page, and 0 where that does not fit 64 bits.
unfoldable pub align4k : ℕ → ℕ
align4k value =
    if ltb (uint64_max - (page_size - 1)) value
    then 0
    else (value + (page_size - 1)) / page_size * page_size
