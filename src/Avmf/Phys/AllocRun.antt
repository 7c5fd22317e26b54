-- ===== src/Avmf/Phys/AllocRun.antt =====
-- Kernel/mm/avmf.c: `avmf_alloc_phys_contiguous`, as an operation on the set of the pages that are
-- taken.
use aos.Base.{ℕ, ◌+◌, ◌-◌, ◌*◌, ◌/◌, ◌^◌, ◌≤◌, ◌<◌, ◌≡◌, refl, ap, arith}
use aos.Base.{true, false, ◌||◌, List, [], ◌∷◌, Option, none, some, ◌⊎◌, inl, inr}
use aos.Base.{◌==◌, Exec, done, fault, ◌>>=◌, Ends, Ends-bind}
use aos.Base.{All, Bool-cases, Exec-cases}
use aos.Avmf.{Region, usable, page_size, align4k}
use aos.Avmf.Bitmap.{Bitmap, used, bitmap_size}
use aos.Avmf.Bitmap.Laws.{IsBytes}
use aos.Avmf.Phys.{Phys, start_page, end_page, charge, address, find_run, set_run}
use aos.Avmf.Phys.{alloc_run_in, alloc_phys_contiguous}
use aos.Avmf.Phys.Sets.{Fits, bare, SameButCounts, run_fits}
use aos.Avmf.Phys.Runs.{in_run, FreeRun, Counted-zero, find_run-some, find_run-none}
use aos.Avmf.Phys.Runs.{find_run-ends, set_run_lem}

-- The `n` pages from `page` on were free and are now the only ones that are newly taken.
pub record TookRun (rs : List Region) (b : Bitmap) (n page : ℕ) (rs' : List Region) (b' : Bitmap)
    : Type 0 where
  pub room : run_fits rs page n ≡ true
  pub was_free : FreeRun b page n
  pub marks : (q : ℕ) → used b' q ≡ (in_run page n q || used b q)
  pub same_regions : SameButCounts rs rs'
  pub bytes : IsBytes b'

-- The region has no row of `n` free pages.
abbrev pub NoRoom : Bitmap → ℕ → Region → Type 0
NoRoom b n r = usable r ≡ true → (q : ℕ) → start_page r ≤ q → q + n ≤ end_page r → FreeRun b q n → ⊥

pub record NoRun (rs : List Region) (b : Bitmap) (n : ℕ) (rs' : List Region) (b' : Bitmap)
    : Type 0 where
  pub no_room : All (NoRoom b n) rs
  pub same_regions : rs' ≡ rs
  pub same_bitmap : b' ≡ b

abbrev Outcome : Type 0
Outcome = Option ℕ × List Region × Bitmap

abbrev Result : List Region → Bitmap → ℕ → Outcome → Type 0
Result rs b n (none, rs', b') = NoRun rs b n rs' b'
Result rs b n (some page, rs', b') = TookRun rs b n page rs' b'

abbrev pass : Region → Exec Outcome → Exec Outcome
pass r m = do (page, rs', b') ← m; done (page, r ∷ rs', b')

Result-pass :
    (r : Region) (rs : List Region) (b : Bitmap) (n : ℕ) (m : Exec Outcome)
    → NoRoom b n r
    → Ends m (Result rs b n)
    → Ends (pass r m) (Result (r ∷ rs) b n)
Result-pass r rs b n fault full h = absurd h
Result-pass r rs b n (done (none, rs', b')) full h = record {
  no_room = (full, h.no_room);
  same_regions = ap (λ l. r ∷ l) h.same_regions;
  same_bitmap = h.same_bitmap;
}
Result-pass r rs b n (done (some page, rs', b')) full h = record {
  room = ground (arith, h.room);
  was_free = h.was_free;
  marks = h.marks;
  same_regions = ap (λ l. bare r ∷ l) h.same_regions;
  bytes = h.bytes;
}

module _ (r : Region) (rs : List Region) (b : Bitmap) (n : ℕ) (pos : 0 < n) (h : IsBytes b)
    (on : usable r ≡ true) where
  pages : ℕ
  pages = end_page r - start_page r

  found_none : find_run b n (start_page r) pages 0 0 ≡ done none → NoRoom b n r
  unfolding pages
  found_none e on' q lo hi free =
      find_run-none b n (start_page r) pages 0 0 q pos (omega arith) (omega arith) free e

  found_some :
      (p : ℕ)
      → end_page r ≤ 8 * bitmap_size
      → find_run b n (start_page r) pages 0 0 ≡ done (some p)
      → Ends
          (do
            b' ← set_run b p n
            done (let o : Outcome = (some p, charge r (n * page_size) ∷ rs, b') in o))
          (Result (r ∷ rs) b n)
  unfolding pages
  found_some p fit e =
      let (row, lo, hi) =
        find_run-some b n (start_page r) pages 0 0 p (Counted-zero b (start_page r) 0) pos e in
      let hi' : p + n ≤ end_page r = ground arith in
      Ends-bind (Result (r ∷ rs) b n) (set_run b p n) _ (set_run_lem b p n h (omega arith)) (λ b' m.
        record {
          room = ground arith;
          was_free = row;
          marks = m.1;
          same_regions = refl;
          bytes = m.0;
        })

alloc_run_in-Result :
    (rs : List Region) (b : Bitmap) (n : ℕ)
    → 0 < n
    → IsBytes b
    → All Fits rs
    → Ends (alloc_run_in rs b n) (Result rs b n)
unfolding alloc_run_in pages
alloc_run_in-Result [] b n pos h fits = record {
  no_room = tt;
  same_regions = refl;
  same_bitmap = refl;
}
alloc_run_in-Result (r ∷ rs) b n pos h (fit, fits) =
    let ih = alloc_run_in-Result rs b n pos h fits in
    let found = find_run b n (start_page r) (end_page r - start_page r) 0 0 in
    elim (Bool-cases (usable r)) [
      | inr off ↦
          rw off (Result-pass r rs b n (alloc_run_in rs b n) (λ on. absurd (ground arith)) ih)
      | inl on ↦ elim (Exec-cases found) [
        | inr e ↦ absurd (
            find_run-ends b n (start_page r) (end_page r - start_page r) 0 0
              (ground (arith, fit on)) e)
        | inl (none, e) ↦
            rw (on, e)
              (Result-pass r rs b n (alloc_run_in rs b n) (found_none r rs b n pos h on e) ih)
        | inl (some p, e) ↦ rw (on, e) (found_some r rs b n pos h on p (fit on) e)
      ]
    ]

-- The pages of a request: `size` bytes rounded up to whole pages.
abbrev pub pages_of : ℕ → ℕ
pages_of size = (size + (page_size - 1)) / page_size

pub align4k_pages :
    (size : ℕ) → size ≤ 2 ^ 64 - page_size → align4k size / page_size ≡ pages_of size
unfolding align4k
align4k_pages size small = ground arith

pub accepted :
    (size : ℕ) → 0 < size → size ≤ 2 ^ 64 - page_size → (size == 0 || align4k size == 0) ≡ false
unfolding align4k
accepted size pos small = ground arith

-- `avmf_alloc_phys_contiguous` took the pages from `a` on, or it returned 0.
abbrev pub AllocatedRun : Phys → ℕ → ℕ × Phys → Type 0
AllocatedRun s n (a, s') =
    ((p : ℕ) × (a ≡ p * page_size) × TookRun s.regions s.bitmap n p s'.regions s'.bitmap)
    ⊎ ((a ≡ 0) × NoRun s.regions s.bitmap n s'.regions s'.bitmap)

Result-AllocatedRun :
    (s : Phys) (n : ℕ) (o : Outcome)
    → Result s.regions s.bitmap n o
    → AllocatedRun s n (address o.0, record { regions = o.1; bitmap = o.2 })
Result-AllocatedRun s n (none, rs', b') h = inr (refl, h)
Result-AllocatedRun s n (some page, rs', b') h = inl (page, refl, h)

-- For a size that is not 0 and does not overflow when it is rounded up, and where the bitmap has
-- a bit for every page of the usable regions, `avmf_alloc_phys_contiguous` ends without a fault.
-- Either it takes as many pages in a row as the size needs, all of them free before and held by
-- usable regions, and marks exactly these, or it returns 0, no usable region had such a row of
-- free pages, and nothing changed.
pub alloc_phys_contiguous_lem :
    (s : Phys) (size : ℕ)
    → IsBytes s.bitmap
    → All Fits s.regions
    → 0 < size
    → size ≤ 2 ^ 64 - page_size
    → Ends (alloc_phys_contiguous s size) (AllocatedRun s (pages_of size))
unfolding alloc_phys_contiguous
alloc_phys_contiguous_lem s size h fits pos small =
    let n = pages_of size in
    rw (accepted size pos small, align4k_pages size small)
      (Ends-bind (AllocatedRun s n) (alloc_run_in s.regions s.bitmap n) _
        (alloc_run_in-Result s.regions s.bitmap n (omega arith) h fits) (Result-AllocatedRun s n))
