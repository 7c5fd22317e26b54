-- ===== src/Avmf/Phys.antt =====
-- Kernel/mm/avmf.c: the physical page allocator, on a bitmap that the physical regions share. The
-- locks are left out: an operation runs as one step.
pub mod Sets
pub mod Alloc
pub mod Free
pub mod Runs
pub mod AllocRun
pub mod FreeRun
pub mod RoundTrip
mod Tests
use aos.Base.{ℕ, zero, suc, ◌+◌, ◌-◌, ◌*◌, ◌/◌, ◌%◌, ◌^◌, Bool, true, false, not, ◌&&◌, ◌||◌}
use aos.Base.{List, [], ◌∷◌, Option, none, some, ltb, leb, ◌==◌, if◌then◌else◌, Exec, done, ◌>>=◌}
use aos.Avmf.{Region, usable, page_size, align4k}
use aos.Avmf.Bitmap.{Bitmap, bitmap_set, bitmap_clear, bitmap_test}

-- `physical_regions` up to `physical_region_count`, and `avmf_bitmap`.
pub record Phys : Type 0 where
  pub regions : List Region
  pub bitmap : Bitmap

abbrev pub start_page : Region → ℕ
start_page r = r.base / page_size

abbrev pub end_page : Region → ℕ
end_page r = r.limit / page_size

-- A `uint64_t` sum.
abbrev pub add64 : ℕ → ℕ → ℕ
add64 a b = (a + b) % 2 ^ 64

abbrev pub charge : Region → ℕ → Region
charge r n = record r { allocated_bytes = add64 r.allocated_bytes n }

-- What is given back beyond what was counted leaves the count at 0.
abbrev pub discharge : Region → ℕ → Region
discharge r n = record r {
  allocated_bytes = if leb n r.allocated_bytes then r.allocated_bytes - n else 0;
}

-- The inner loop of `avmf_alloc_phys_page`, with `n` pages left from `p` on: the first free page.
unfoldable pub first_free : Bitmap → ℕ → ℕ → Exec (Option ℕ)
first_free b p zero = done none
first_free b p (suc n) =
    let rest = first_free b (p + 1) n in
    do taken ← bitmap_test b p; if taken then rest else done (some p)

-- Its outer loop over the regions: the page, with the regions and the bitmap after it.
unfoldable pub alloc_page_in : List Region → Bitmap → Exec (Option ℕ × List Region × Bitmap)
alloc_page_in [] b = done (none, [], b)
alloc_page_in (r ∷ rs) b =
    let skip : Exec (Option ℕ × List Region × Bitmap) = do
      (page, rs', b') ← alloc_page_in rs b
      done (page, r ∷ rs', b')
    in if not (usable r) then skip else do
      found ← first_free b (start_page r) (end_page r - start_page r)
      elim found [
        | none ↦ skip
        | some p ↦ do b' ← bitmap_set b p; done (some p, charge r page_size ∷ rs, b')
      ]

-- The address of the page, or 0.
abbrev pub address : Option ℕ → ℕ
address none = 0
address (some p) = p * page_size

pub alloc_phys_page : Phys → Exec (ℕ × Phys)
alloc_phys_page s = do
  (page, rs, b) ← alloc_page_in s.regions s.bitmap
  done (address page, record { regions = rs; bitmap = b })

-- The loop of `avmf_free_phys_page`. It stops at the first usable region that holds the page,
-- whether the page was taken or not.
unfoldable pub free_page_in : List Region → Bitmap → ℕ → Exec (List Region × Bitmap)
free_page_in [] b page = done ([], b)
free_page_in (r ∷ rs) b page =
    let skip : Exec (List Region × Bitmap) = do
      (rs', b') ← free_page_in rs b page
      done (r ∷ rs', b')
    in if not (usable r) || (ltb page (start_page r) || leb (end_page r) page) then skip else do
      taken ← bitmap_test b page
      if not taken
          then done (r ∷ rs, b)
          else do b' ← bitmap_clear b page; done (discharge r page_size ∷ rs, b')

pub free_phys_page : Phys → ℕ → Exec Phys
free_phys_page s phys = do
  (rs, b) ← free_page_in s.regions s.bitmap (phys / page_size)
  done (record { regions = rs; bitmap = b })

-- The inner loop of `avmf_alloc_phys_contiguous`, with `n` pages left from `p` on: it counts the
-- free pages that stand in a row before `p` and stops when there are `needed`. Its answer is the
-- first page of that row.
unfoldable pub find_run : Bitmap → ℕ → ℕ → ℕ → ℕ → ℕ → Exec (Option ℕ)
find_run b needed p zero consecutive first_page = done none
find_run b needed p (suc n) consecutive first_page =
    let first_page' = if consecutive == 0 then p else first_page in
    let after_taken = find_run b needed (p + 1) n 0 first_page in
    let after_free = find_run b needed (p + 1) n (consecutive + 1) first_page' in
    do
      taken ← bitmap_test b p
      if taken
          then after_taken
          else if consecutive + 1 == needed
          then done (some first_page')
          else after_free

-- `bitmap_set` on `n` pages from `p` on.
unfoldable pub set_run : Bitmap → ℕ → ℕ → Exec Bitmap
set_run b p zero = done b
set_run b p (suc n) = do b' ← bitmap_set b p; set_run b' (p + 1) n

unfoldable pub alloc_run_in : List Region → Bitmap → ℕ → Exec (Option ℕ × List Region × Bitmap)
alloc_run_in [] b needed = done (none, [], b)
alloc_run_in (r ∷ rs) b needed =
    let skip : Exec (Option ℕ × List Region × Bitmap) = do
      (page, rs', b') ← alloc_run_in rs b needed
      done (page, r ∷ rs', b')
    in if not (usable r) then skip else do
      found ← find_run b needed (start_page r) (end_page r - start_page r) 0 0
      elim found [
        | none ↦ skip
        | some p ↦ do b' ← set_run b p needed; done (some p, charge r (needed * page_size) ∷ rs, b')
      ]

pub alloc_phys_contiguous : Phys → ℕ → Exec (ℕ × Phys)
alloc_phys_contiguous s size = if size == 0 || align4k size == 0 then done (0, s) else do
  (page, rs, b) ← alloc_run_in s.regions s.bitmap (align4k size / page_size)
  done (address page, record { regions = rs; bitmap = b })

-- Are the `n` pages from `p` on all taken?
unfoldable pub test_run : Bitmap → ℕ → ℕ → Exec Bool
test_run b p zero = done true
test_run b p (suc n) =
    let rest = test_run b (p + 1) n in
    do taken ← bitmap_test b p; if not taken then done false else rest

unfoldable pub clear_run : Bitmap → ℕ → ℕ → Exec Bitmap
clear_run b p zero = done b
clear_run b p (suc n) = do b' ← bitmap_clear b p; clear_run b' (p + 1) n

-- The loop of `avmf_free_phys_contiguous`, for `n` pages from `first_page` on.
unfoldable pub free_run_in : List Region → Bitmap → ℕ → ℕ → Exec (List Region × Bitmap)
free_run_in [] b first_page n = done ([], b)
free_run_in (r ∷ rs) b first_page n =
    let skip : Exec (List Region × Bitmap) = do
      (rs', b') ← free_run_in rs b first_page n
      done (r ∷ rs', b')
    in if not (usable r) || (ltb first_page (start_page r) || leb (end_page r) first_page)
      then skip
      else if ltb (end_page r - first_page) n
      then skip
      else do
        found ← test_run b first_page n
        if not found
            then skip
            else do b' ← clear_run b first_page n; done (discharge r (n * page_size) ∷ rs, b')

pub free_phys_contiguous : Phys → ℕ → ℕ → Exec Phys
free_phys_contiguous s phys size = if size == 0 || align4k size == 0 then done s else do
  (rs, b) ← free_run_in s.regions s.bitmap (phys / page_size) (align4k size / page_size)
  done (record { regions = rs; bitmap = b })
