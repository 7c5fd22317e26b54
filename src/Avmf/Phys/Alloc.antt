-- ===== src/Avmf/Phys/Alloc.antt =====
-- Kernel/mm/avmf.c: `avmf_alloc_phys_page`, as an operation on the set of the pages that are taken.
use aos.Base.{ℕ, zero, suc, ◌+◌, ◌-◌, ◌*◌, ◌≤◌, ◌<◌, ◌≡◌, refl, ap, arith}
use aos.Base.{true, false, ◌||◌, List, [], ◌∷◌, Option, none, some, ◌≢◌, ◌⊎◌, inl, inr, Ends}
use aos.Base.{◌==◌, Exec, done, fault, ◌>>=◌, All, Bool-cases, Exec-cases}
use aos.Avmf.{Region, usable, page_size}
use aos.Avmf.Bitmap.{Bitmap, used, mark, bitmap_set, bitmap_test, in_array, bitmap_size}
use aos.Avmf.Bitmap.Laws.{IsBytes, mark-IsBytes, used-mark}
use aos.Avmf.Phys.{Phys, start_page, end_page, charge, address, first_free}
use aos.Avmf.Phys.{alloc_page_in, alloc_phys_page}
use aos.Avmf.Phys.Sets.{holds, manages, Fits, bare, SameButCounts, run_fits}

first_free-some :
    (b : Bitmap) (p n q : ℕ)
    → first_free b p n ≡ done (some q)
    → (p ≤ q) × (q < p + n) × (used b q ≡ false) × (in_array q ≡ true)
unfolding first_free bitmap_test
first_free-some b p zero q e = ground arith
first_free-some b p (suc n) q e = ground (arith, first_free-some b (p + 1) n q)

first_free-none :
    (b : Bitmap) (p n i : ℕ) → first_free b p n ≡ done none → p ≤ i → i < p + n → used b i ≡ true
unfolding first_free bitmap_test
first_free-none b p zero i e lo hi = absurd (omega arith)
first_free-none b p (suc n) i e lo hi = ground (arith, first_free-none b (p + 1) n i)

first_free-ends : (b : Bitmap) (p n : ℕ) → p + n ≤ 8 * bitmap_size → first_free b p n ≢ fault
unfolding first_free bitmap_test
first_free-ends b p zero h e = cc
first_free-ends b p (suc n) h e = ground (arith, first_free-ends b (p + 1) n)

-- What one allocation did: `page` was free and is now the only page that is newly taken.
pub record Took (rs : List Region) (b : Bitmap) (page : ℕ) (rs' : List Region) (b' : Bitmap)
    : Type 0 where
  pub room : run_fits rs page 1 ≡ true
  pub was_free : used b page ≡ false
  pub marks : (q : ℕ) → used b' q ≡ (q == page || used b q)
  pub same_regions : SameButCounts rs rs'
  pub bytes : IsBytes b'

-- There was no free page, and nothing changed.
pub record Full (rs : List Region) (b : Bitmap) (rs' : List Region) (b' : Bitmap) : Type 0 where
  pub taken : (q : ℕ) → manages rs q ≡ true → used b q ≡ true
  pub same_regions : rs' ≡ rs
  pub same_bitmap : b' ≡ b

abbrev Outcome : Type 0
Outcome = Option ℕ × List Region × Bitmap

abbrev Allocates : List Region → Bitmap → Exec Outcome → Type 0
Allocates rs b fault = ⊥
Allocates rs b (done (none, rs', b')) = Full rs b rs' b'
Allocates rs b (done (some page, rs', b')) = Took rs b page rs' b'

abbrev pass : Region → Exec Outcome → Exec Outcome
pass r m = do (page, rs', b') ← m; done (page, r ∷ rs', b')

-- A region with no free page is passed over.
Allocates-pass :
    (r : Region) (rs : List Region) (b : Bitmap) (m : Exec Outcome)
    → ((q : ℕ) → holds r q ≡ true → used b q ≡ true)
    → Allocates rs b m
    → Allocates (r ∷ rs) b (pass r m)
Allocates-pass r rs b fault full h = absurd h
Allocates-pass r rs b (done (none, rs', b')) full h = record {
  taken = λ q e. ground (arith, full q, h.taken q);
  same_regions = ap (λ l. r ∷ l) h.same_regions;
  same_bitmap = h.same_bitmap;
}
Allocates-pass r rs b (done (some page, rs', b')) full h = record {
  room = ground (arith, h.room);
  was_free = h.was_free;
  marks = h.marks;
  same_regions = ap (λ l. bare r ∷ l) h.same_regions;
  bytes = h.bytes;
}

module _ (r : Region) (rs : List Region) (b : Bitmap) (on : usable r ≡ true) (h : IsBytes b) where
  -- The pages of `r` that the inner loop visits are all of its pages.
  holds-taken :
      first_free b (start_page r) (end_page r - start_page r) ≡ done none
      → (q : ℕ) → holds r q ≡ true
      → used b q ≡ true
  holds-taken e q hq =
      ground (arith, first_free-none b (start_page r) (end_page r - start_page r) q e)

  Took-mark :
      (p : ℕ)
      → first_free b (start_page r) (end_page r - start_page r) ≡ done (some p)
      → Took (r ∷ rs) b p (charge r page_size ∷ rs) (mark b p)
  Took-mark p e =
      let (lo, hi, free, inside) =
        first_free-some b (start_page r) (end_page r - start_page r) p e in
      record {
        room = ground arith;
        was_free = free;
        marks = λ q. used-mark b p q h;
        same_regions = refl;
        bytes = mark-IsBytes b p h;
      }

alloc_page_in-Allocates :
    (rs : List Region) (b : Bitmap) → IsBytes b → All Fits rs → Allocates rs b (alloc_page_in rs b)
unfolding alloc_page_in bitmap_set
alloc_page_in-Allocates [] b h fits = record {
  taken = λ q e. ground arith;
  same_regions = refl;
  same_bitmap = refl;
}
alloc_page_in-Allocates (r ∷ rs) b h (fit, fits) =
    let ih = alloc_page_in-Allocates rs b h fits in
    let n = end_page r - start_page r in
    elim (Bool-cases (usable r)) [
      | inr off ↦ rw off (Allocates-pass r rs b (alloc_page_in rs b) (λ q e. ground arith) ih)
      | inl on ↦ elim (Exec-cases (first_free b (start_page r) n)) [
        | inr e ↦ absurd (first_free-ends b (start_page r) n (ground (arith, fit on)) e)
        | inl (none, e) ↦
            rw (on, e) (Allocates-pass r rs b (alloc_page_in rs b) (holds-taken r rs b on h e) ih)
        | inl (some p, e) ↦
            rw (on, e, (first_free-some b (start_page r) n p e).3) (Took-mark r rs b on h p e)
      ]
    ]

-- `avmf_alloc_phys_page` took the page at `a`, or it returned 0 and there was none to take.
abbrev pub Allocated : Phys → ℕ × Phys → Type 0
Allocated s (a, s') =
    ((p : ℕ) × (a ≡ p * page_size) × Took s.regions s.bitmap p s'.regions s'.bitmap)
    ⊎ ((a ≡ 0) × Full s.regions s.bitmap s'.regions s'.bitmap)

Allocates-Allocated :
    (rs : List Region) (b : Bitmap) (m : Exec Outcome)
    → Allocates rs b m
    → Ends
        (do (page, rs', b') ← m; done (address page, record { regions = rs'; bitmap = b' }))
        (Allocated (record { regions = rs; bitmap = b }))
Allocates-Allocated rs b fault h = h
Allocates-Allocated rs b (done (none, rs', b')) h = inr (refl, h)
Allocates-Allocated rs b (done (some page, rs', b')) h = inl (page, refl, h)

-- Where the bitmap has a bit for every page of the usable regions, `avmf_alloc_phys_page` ends
-- without a fault: either it takes one page that was free and that a usable region holds, marks
-- exactly that page and returns its address, or it returns 0, every page of a usable region was
-- taken, and nothing changed.
pub alloc_phys_page_lem :
    (s : Phys) → IsBytes s.bitmap → All Fits s.regions → Ends (alloc_phys_page s) (Allocated s)
unfolding alloc_phys_page
alloc_phys_page_lem s h fits =
    Allocates-Allocated s.regions s.bitmap (alloc_page_in s.regions s.bitmap)
      (alloc_page_in-Allocates s.regions s.bitmap h fits)
