-- ===== src/Avmf/Virtual/Again.antt =====
-- Kernel/mm/avmf.c: `avmf_free`, and the next `avmf_alloc` of the same size.
use mathlib.Core.Path.{subst}
use aos.Base.{ℕ, zero, suc, ◌+◌, ◌*◌, ◌/◌, ◌%◌, ◌^◌, ◌<◌, ◌≤◌, ◌≡◌, ◌≢◌, refl, sym, ap, ◌∙◌, arith}
use aos.Base.{Bool, true, false, ◌&&◌, leb, ltb, ◌==◌, List, [], ◌∷◌, map, Option, some}
use aos.Base.{Exec, done, fault, ◌>>=◌, Exec-cases, Ends-done, inl, inr}
use aos.Avmf.{page_size, usable, uint64_max, align4k}
use aos.Avmf.Bitmap.{Bitmap, used, bitmap_size, bitmap_clear}
use aos.Avmf.Bitmap.Laws.{IsBytes}
use aos.Avmf.Phys.{Phys, add64, clear_run}
use aos.Avmf.Phys.Runs.{clear_run_lem}
use aos.Avmf.Headers.{alloc, cache, same_type, is_bad}
use aos.Avmf.RegionAlloc.{Request, Vm, out_of_bounds, region_alloc}
use aos.Avmf.RegionAlloc.Kept.{data_of}
use aos.Avmf.RegionFree.{region_free}
use aos.Avmf.RegionFree.Again.{region_alloc-free, region_alloc-free_uncached, region_free-region}
use aos.Avmf.Virtual.{Memory, Slot, AllocType, view, slot_of, put_slot, put_back, slot_at}
use aos.Avmf.Virtual.{
  find_place, addresses, alloc_at, alloc_in, alloc_hdr_internal, convert_flags, reuse, back,
}
use aos.Avmf.Virtual.{avmf_alloc, avmf_free, holder, drop_pages}
use aos.Pager.{Pager, pager_unmap, pager_map_range}

-- The page tables after the loop of `avmf_free` over `n` pages from the `i`th on.
abbrev pub unmap_pages : (n : ℕ) → Pager → (virt i : ℕ) → Pager
unmap_pages zero p virt i = p
unmap_pages (suc n) p virt i =
    unmap_pages n (pager_unmap p ((virt + page_size * i) % 2 ^ 64)) virt (i + 1)

-- The pages that the loop of `avmf_free` gives back are those of `clear_run`.
drop_pages-clear :
    (n : ℕ) (phys : Phys) (pager : Pager) (page virt i : ℕ) (b : Bitmap)
    → clear_run phys.bitmap (page + i) n ≡ done b
    → drop_pages n phys pager page virt i
      ≡ done (record phys { bitmap = b }, unmap_pages n pager virt i)
unfolding drop_pages clear_run
drop_pages-clear zero phys pager page virt i b e =
    let give : Bitmap → Exec (Phys × Pager) = λ b. done (record phys { bitmap = b }, pager) in
    ap (λ (m : Exec Bitmap). m >>= give) e
drop_pages-clear (suc n) phys pager page virt i b e =
    elim (Exec-cases (bitmap_clear phys.bitmap (page + i))) [
      | inl (b', c) ↦
          let next : page + i + 1 ≡ page + (i + 1) = omega arith in
          let rest : clear_run b' (page + i + 1) n ≡ done b =
            ap (λ (m : Exec Bitmap). m >>= λ b. clear_run b (page + i + 1) n) (sym c) ∙ e in
          let later =
            drop_pages-clear n (record phys { bitmap = b' })
              (pager_unmap pager ((virt + page_size * i) % 2 ^ 64)) page virt (i + 1) b
              (subst (λ k. clear_run b' k n ≡ done b) next rest) in
          rw c later
      | inr f ↦
          let stuck : fault ≡ done b =
            ap (λ (m : Exec Bitmap). m >>= λ b. clear_run b (page + i + 1) n) (sym f) ∙ e in
          absurd cc
    ]

slot_at-put :
    (i : ℕ) (x s : Slot) (l : List Slot)
    → slot_at i l ≡ some x
    → slot_at i (put_slot i s l) ≡ some s
slot_at-put i x s [] e = absurd cc
slot_at-put zero x s (y ∷ l) e = refl
slot_at-put (suc i) x s (y ∷ l) e = slot_at-put i x s l e

regions-put :
    (i : ℕ) (x s : Slot) (l : List Slot)
    → slot_at i l ≡ some x
    → s.region ≡ x.region
    → map (λ (s : Slot). s.region) (put_slot i s l) ≡ map (λ (s : Slot). s.region) l
regions-put i x s [] e r = refl
regions-put zero x s (y ∷ l) e r =
    let same : y ≡ x = injective e in
    ap (λ a. a ∷ map (λ (s : Slot). s.region) l) (r ∙ ap (λ (s : Slot). s.region) (sym same))
  where
    injective : {a b : Slot} → some a ≡ some b → a ≡ b
    injective e = cc
regions-put (suc i) x s (y ∷ l) e r = ap (λ l. y.region ∷ l) (regions-put i x s l e r)

module _ (m : Memory) (i h : ℕ) (s : Slot) (type : AllocType) (low high : ℕ)
    (here : slot_at i m.slots ≡ some s) (kinds : addresses type ≡ some (low, high))
    (region : usable s.region ≡ true) (present : h ≢ 0) (sound : is_bad (m.headers h) ≡ false)
    (kind : (m.headers h).type ≡ alloc) (nonzero : (m.headers h).virt_addr ≢ 0)
    (populated : 0 < (m.headers h).phys_addr) (large : 0x200 < (m.headers h).size)
    (whole : align4k (m.headers h).size ≡ (m.headers h).size)
    (fits : (m.headers h).virt_addr + (m.headers h).size ≤ uint64_max) (first : s.allocs.list ≡ h)
    (some_count : s.allocs.count ≢ 0) (empty : s.caches.count ≡ 0)
    (aligned : (m.headers h).virt_addr % page_size ≡ 0)
    (bounds : out_of_bounds
        (record { size = (m.headers h).size; align = page_size; min_virt = low; max_virt = high })
        (m.headers h)
      ≡ false)
    (place : find_place m (m.headers h).virt_addr uint64_max (add64 (m.headers h).virt_addr 1)
      ≡ some i)
    (place' : find_place m low high (m.headers h).size ≡ some i) (bytes : IsBytes m.phys.bitmap)
    (pages : (m.headers h).phys_addr / page_size + (m.headers h).size / page_size
      ≤ 8 * bitmap_size) where
  abbrev virt : ℕ
  virt = (m.headers h).virt_addr

  abbrev size : ℕ
  size = (m.headers h).size

  abbrev first_page : ℕ
  first_page = (m.headers h).phys_addr / page_size

  abbrev request : Request
  request = record { size = size; align = page_size; min_virt = low; max_virt = high }

  abbrev freed : Vm
  freed = region_free (view m s) virt size

  abbrev after_free : Phys → Pager → Memory
  after_free phys pager = put_back (record m { phys = phys; pager = pager }) i freed

  freed-region : freed.space.region ≡ s.region
  freed-region =
      region_free-region (view m s) h virt size region present sound kind refl refl large whole fits
        first some_count empty

  given : (region_alloc request freed).0 ≡ h
  given =
      (region_alloc-free (view m s) h virt size region present sound kind refl refl large whole fits
        first some_count empty request refl aligned bounds).0

  fields :
      data_of ((region_alloc request freed).1.space.headers h)
      ≡ ((m.headers h).signature, (m.headers h).version, virt, (m.headers h).phys_addr, size, true)
  fields =
      (region_alloc-free (view m s) h virt size region present sound kind refl refl large whole fits
        first some_count empty request refl aligned bounds).2

  uncached : same_type ((region_alloc request freed).1.space.headers h).type cache ≡ false
  uncached =
      region_alloc-free_uncached (view m s) h virt size region present sound kind refl refl large
        whole fits first some_count empty request refl aligned bounds

  free-gives :
      (rounds : ℕ) (phys : Phys) (pager : Pager)
      → drop_pages (size / page_size) m.phys m.pager first_page virt 0 ≡ done (phys, pager)
      → avmf_free (suc rounds) m virt ≡ done (after_free phys pager)
  unfolding avmf_free holder
  free-gives rounds phys pager e =
      let not_null : (virt == 0) ≡ false = ground (arith, nonzero) in
      let there : (h == 0) ≡ false = ground (arith, present) in
      let inside : (leb virt virt && ltb virt (add64 virt size)) ≡ true =
        ground (arith, fits, large) in
      let found : holder (suc rounds) m.headers virt h ≡ some h =
        rw (there, kind, sound, inside) refl in
      let found' : holder (suc rounds) m.headers virt s.allocs.list ≡ some h = rw first found in
      rw (not_null, place, here, found', e) refl

  place-after :
      (phys : Phys) (pager : Pager) → find_place (after_free phys pager) low high size ≡ some i
  unfolding find_place
  place-after phys pager = rw (regions-put i s (slot_of freed) m.slots here freed-region) place'

  alloc-gives :
      (phys : Phys) (pager : Pager)
      → alloc_hdr_internal (after_free phys pager) size type
        ≡ (h, some i, put_back (after_free phys pager) i (region_alloc request freed).1)
  unfolding alloc_hdr_internal alloc_in alloc_at
  alloc-gives phys pager =
      let big : ltb size 1 ≡ false = ground (arith, large) in
      rw (big, kinds, place-after phys pager, slot_at-put i s (slot_of freed) m.slots here)
        (ap
          (λ (k : ℕ).
            let r : ℕ × Option ℕ × Memory =
              (k, some i, put_back (after_free phys pager) i (region_alloc request freed).1) in
            r)
          given)

  abbrev after_alloc : Phys → Pager → Memory
  after_alloc phys pager = put_back (after_free phys pager) i (region_alloc request freed).1

  held :
      (phys : Phys) (pager : Pager)
      → ((after_alloc phys pager).headers h).phys_addr ≡ (m.headers h).phys_addr
  held phys pager = ap (λ (d : ℕ × ℕ × ℕ × ℕ × ℕ × Bool). d.3) fields

  alloc-again :
      (phys : Phys) (pager : Pager) (flags : ℕ)
      → avmf_alloc (after_free phys pager) size type flags
        ≡ reuse (after_alloc phys pager) ((after_alloc phys pager).headers h) (convert_flags flags)
  unfolding avmf_alloc
  alloc-again phys pager flags =
      let f = convert_flags flags in
      let m1 = after_free phys pager in
      let some_size : (align4k size == 0) ≡ false = rw whole (ground (arith, large)) in
      let there : (h == 0) ≡ false = ground (arith, present) in
      let filled : ltb 0 ((after_alloc phys pager).headers h).phys_addr ≡ true =
        rw (held phys pager) (ground (arith, populated)) in
      rw some_size (
        ap (λ (k : ℕ). back f (alloc_hdr_internal m1 k type)) whole
        ∙ ap (back f) (alloc-gives phys pager)
        ∙ rw (there, filled) refl)

  -- What `avmf_alloc` does with the header: its addresses are mapped, and handed out.
  reuse-gives :
      (phys : Phys) (pager pager' : Pager) (flags : ℕ)
      → pager_map_range pager virt (m.headers h).phys_addr size flags ≡ done pager'
      → reuse (after_alloc phys pager) ((after_alloc phys pager).headers h) flags
        ≡ done ((virt, (m.headers h).phys_addr), record (after_alloc phys pager) { pager = pager' })
  reuse-gives phys pager pager' flags e =
      let virt' = ap (λ (d : ℕ × ℕ × ℕ × ℕ × ℕ × Bool). d.2) fields in
      let size' = ap (λ (d : ℕ × ℕ × ℕ × ℕ × ℕ × Bool). d.4) fields in
      rw (uncached, virt', held phys pager, size', e) refl

  -- An allocation that has physical pages stands at the start of the list of a sound region whose
  -- cache is empty; it is larger than 512 bytes and a multiple of a page, its address is not 0 and
  -- meets the bounds of its type, the bitmap has a bit for each of its pages, and
  -- `avmf_find_region` answers the region for its address and for its size. Then `avmf_free` ends
  -- without a fault, with the pages of the allocation unmapped; and where `pager_map_range` for its
  -- addresses then ends without a fault, the next `avmf_alloc` of its size and type ends with the page
  -- tables that come of it, answers the same virtual and physical addresses again, and leaves all the
  -- physical pages that it hands out marked as free.
  pub alloc-free_unmarked :
      (rounds flags : ℕ) (pager' : Pager)
      → let pager = unmap_pages (size / page_size) m.pager virt 0 in
        pager_map_range pager virt (m.headers h).phys_addr size (convert_flags flags) ≡ done pager'
        → (m1 : Memory) × (m2 : Memory) × (avmf_free (suc rounds) m virt ≡ done m1)
          × (m1.pager ≡ unmap_pages (size / page_size) m.pager virt 0)
          × (avmf_alloc m1 size type flags ≡ done ((virt, (m.headers h).phys_addr), m2))
          × (m2.pager ≡ pager')
          × (m2.phys ≡ m1.phys)
          × ((q : ℕ)
              → first_page ≤ q
              → q < first_page + size / page_size
              → used m2.phys.bitmap q ≡ false)
  alloc-free_unmarked rounds flags pager' mapped =
      let n = size / page_size in
      let (b, ran, clears) =
        Ends-done (clear_run m.phys.bitmap first_page n)
          (clear_run_lem m.phys.bitmap first_page n bytes pages) in
      let start : first_page ≡ first_page + 0 = omega arith in
      let pager = unmap_pages n m.pager virt 0 in
      let phys : Phys = record (m.phys) { bitmap = b } in
      let dropped =
        drop_pages-clear n m.phys m.pager first_page virt 0 b
          (subst (λ k. clear_run m.phys.bitmap k n ≡ done b) start ran) in
      (
        after_free phys pager,
        record (after_alloc phys pager) { pager = pager' },
        free-gives rounds phys pager dropped,
        refl,
        alloc-again phys pager flags ∙ reuse-gives phys pager pager' (convert_flags flags) mapped,
        refl,
        refl,
        λ q l u. clears.1 q ∙ ground (arith, l, u),
      )
