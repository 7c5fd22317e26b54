-- ===== src/Pager/Walk.antt =====
-- Kernel/mm/pager.c: what the tables mean. The processor walks them from the PML4 down; this is its
-- documented behaviour, and independent of the code.
use aos.Base.{ℕ, zero, suc, ◌+◌, ◌-◌, ◌%◌, ◌≡◌, refl, ap, not, ◌&&◌, ◌==◌}
use aos.Base.{List, [], ◌∷◌, Option, none, some, if◌then◌else◌, length}
use aos.Pager.{Tables, Pager, index, is_present, is_huge, page_of, huge_page_of}

-- The physical address that a table of the level maps an address to.
unfoldable pub walk : Tables → (level table virt : ℕ) → Option ℕ
walk tables zero table virt =
    let e = tables table (index 0 virt) in
    if is_present e then some (page_of e + virt % 0x1000) else none
walk tables (suc level) table virt =
    let e = tables table (index (suc level) virt) in
    let below = walk tables level (page_of e) virt in
    if not (is_present e)
    then none
    else if level == 0 && is_huge e
    then some (huge_page_of e + virt % 0x200000)
    else below

unfoldable pub resolve : Pager → (virt : ℕ) → Option ℕ
resolve p virt = walk p.tables 3 p.pml4 virt

-- The indices by which an address reaches a table that lies `depth` links below the PML4, the last
-- first.
unfoldable pub path : (depth virt : ℕ) → List ℕ
path zero virt = []
path (suc depth) virt = index (3 - depth) virt ∷ path depth virt

pub length-path : (depth virt : ℕ) → length (path depth virt) ≡ depth
unfolding path
length-path zero virt = refl
length-path (suc depth) virt = ap suc (length-path depth virt)
