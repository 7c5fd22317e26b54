-- ===== src/Avmf/Carve.antt =====
-- Kernel/mm/avmf.c: the memory for headers and for nodes of the free lists, which is carved from
-- pages, `avmf_alloc_ihdr`, `avmf_free_ihdr`, `avmf_alloc_irange` and `avmf_free_irange`.
use aos.Base.{ℕ, ◌+◌, ◌-◌, not, ◌&&◌, List, [], ◌∷◌, leb, ◌==◌, if◌then◌else◌}
use aos.Avmf.{page_size}

-- `ihdr_cpage` and `ihdr_cpage_remaining`, or the same two of the ranges.
pub record Carver : Type 0 where
  pub page : ℕ
  pub remaining : ℕ

-- What the attempts to get and map another page come to, one after the other: the address of the
-- page in the direct map, or 0 where the physical allocator or the pager refuses.
abbrev pub Supply : Type 0
Supply = List ℕ

-- `sizeof(avmf_header_t)` and `sizeof(avmf_range_t)`.
abbrev pub header_size : ℕ
header_size = 72

abbrev pub range_size : ℕ
range_size = 24

-- A page is started with one object of this size.
abbrev pub new_page : (size : ℕ) → Carver → Supply → ℕ × Carver × Supply
new_page size c [] = (0, c, [])
new_page size c (a ∷ supply) =
    if a == 0
    then (0, c, supply)
    else (a, record { page = a; remaining = page_size - size }, supply)

unfoldable pub carve : (size : ℕ) → Carver → Supply → ℕ × Carver × Supply
carve size c supply =
    if leb size c.remaining && not (c.page == 0)
    then (c.page + (page_size - c.remaining), record c { remaining = c.remaining - size }, supply)
    else new_page size c supply

-- Only the first object of a page is taken back, and only while it is the last.
unfoldable pub uncarve : (size : ℕ) → Carver → (h : ℕ) → Carver
uncarve size c h =
    if not (h == 0) && (h == c.page && c.remaining == page_size - size)
    then record c { remaining = page_size }
    else c
