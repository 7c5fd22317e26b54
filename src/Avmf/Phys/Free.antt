-- ===== src/Avmf/Phys/Free.antt =====
-- Kernel/mm/avmf.c: `avmf_free_phys_page`, as an operation on the set of the pages that are taken.
use aos.Base.{ap, ℕ, ◌/◌, ◌≡◌, refl, arith}
use aos.Base.{true, false, not, ◌&&◌, ◌||◌, List, [], ◌∷◌, inl, inr, Ends}
use aos.Base.{ltb, leb, ◌==◌, Exec, done, fault, ◌>>=◌, All, Bool-cases}
use aos.Avmf.{Region, usable, page_size}
use aos.Avmf.Bitmap.{Bitmap, used, unmark, bitmap_clear, bitmap_test, in_array}
use aos.Avmf.Bitmap.Laws.{IsBytes, unmark-IsBytes, used-unmark}
use aos.Avmf.Phys.{Phys, start_page, end_page, discharge}
use aos.Avmf.Phys.{free_page_in, free_phys_page}
use aos.Avmf.Phys.Sets.{holds, manages, Fits, bare, SameButCounts}

-- What giving `page` back did: if a usable region holds it, it is free, and no other page changed.
pub record Gave (rs : List Region) (b : Bitmap) (page : ℕ) (rs' : List Region) (b' : Bitmap)
    : Type 0 where
  pub clears : (q : ℕ) → used b' q ≡ (not (q == page && manages rs page) && used b q)
  pub same_regions : SameButCounts rs rs'
  pub bytes : IsBytes b'

abbrev Gives : List Region → Bitmap → ℕ → Exec (List Region × Bitmap) → Type 0
Gives rs b page m = Ends m (λ out. Gave rs b page out.0 out.1)

Gave-pass :
    (r : Region) (rs : List Region) (b : Bitmap) (page : ℕ) (rs' : List Region) (b' : Bitmap)
    → holds r page ≡ false
    → Gave rs b page rs' b'
    → Gave (r ∷ rs) b page (r ∷ rs') b'
Gave-pass r rs b page rs' b' off h = record {
  clears = λ q. ground (arith, h.clears q);
  same_regions = ap (λ l. bare r ∷ l) h.same_regions;
  bytes = h.bytes;
}

Gives-pass :
    (r : Region) (rs : List Region) (b : Bitmap) (page : ℕ) (m : Exec (List Region × Bitmap))
    → holds r page ≡ false
    → Gives rs b page m
    → Gives (r ∷ rs) b page (do (rs', b') ← m; done (r ∷ rs', b'))
Gives-pass r rs b page fault off h = h
Gives-pass r rs b page (done (rs', b')) off h = Gave-pass r rs b page rs' b' off h

Gave-none :
    (r : Region) (rs : List Region) (b : Bitmap) (page : ℕ)
    → IsBytes b
    → used b page ≡ false
    → Gave (r ∷ rs) b page (r ∷ rs) b
Gave-none r rs b page h free = record {
  clears = λ q. elim (Bool-cases (q == page)) [
    | inl e ↦ let e' : q ≡ page = ground arith in rw (e', free) (ground arith)
    | inr e ↦ rw e refl
  ];
  same_regions = refl;
  bytes = h;
}

Gave-unmark :
    (r : Region) (rs : List Region) (b : Bitmap) (page : ℕ)
    → IsBytes b
    → holds r page ≡ true
    → Gave (r ∷ rs) b page (discharge r page_size ∷ rs) (unmark b page)
Gave-unmark r rs b page h on = record {
  clears = λ q. ground (arith, used-unmark b page q h);
  same_regions = refl;
  bytes = unmark-IsBytes b page h;
}

free_page_in-Gives :
    (rs : List Region) (b : Bitmap) (page : ℕ)
    → IsBytes b
    → All Fits rs
    → Gives rs b page (free_page_in rs b page)
unfolding free_page_in bitmap_test bitmap_clear
free_page_in-Gives [] b page h fits = record {
  clears = λ q. ground arith;
  same_regions = refl;
  bytes = h;
}
free_page_in-Gives (r ∷ rs) b page h (fit, fits) =
    let ih = free_page_in-Gives rs b page h fits in
    elim (Bool-cases (not (usable r) || (ltb page (start_page r) || leb (end_page r) page))) [
      | inl off ↦ rw off (Gives-pass r rs b page (free_page_in rs b page) (ground arith) ih)
      | inr on ↦
          let inside : in_array page ≡ true = ground (arith, fit (ground arith)) in
          elim (Bool-cases (used b page)) [
            | inl e ↦ rw (on, inside, e) (Gave-unmark r rs b page h (ground arith))
            | inr e ↦ rw (on, inside, e) (Gave-none r rs b page h e)
          ]
    ]

-- `avmf_free_phys_page` ends without a fault where the bitmap has a bit for every page of the
-- usable regions: the page of the address becomes free if a usable region holds it, no other
-- page changes, and the regions hold the same pages as before.
pub free_phys_page_lem :
    (s : Phys) (phys : ℕ)
    → IsBytes s.bitmap
    → All Fits s.regions
    → Ends
        (free_phys_page s phys)
        (λ s'. Gave s.regions s.bitmap (phys / page_size) s'.regions s'.bitmap)
unfolding free_phys_page
free_phys_page_lem s phys h fits =
    go (free_page_in s.regions s.bitmap (phys / page_size))
      (free_page_in-Gives s.regions s.bitmap (phys / page_size) h fits)
  where
    go :
        (m : Exec (List Region × Bitmap))
        → Gives s.regions s.bitmap (phys / page_size) m
        → Ends
            (do (rs, b) ← m; done (let t : Phys = record { regions = rs; bitmap = b } in t))
            (λ s'. Gave s.regions s.bitmap (phys / page_size) s'.regions s'.bitmap)
    go (done (rs, b)) g = g
    go fault g = g
