-- ===== src/Avmf/Phys/Sets.antt =====
-- Kernel/mm/avmf.c: which pages the usable physical regions hold.
use mathlib.Core.Path.{subst}
use aos.Base.{arith, map, refl, ap, sym, ◌∙◌, ℕ, ◌*◌, ◌≤◌, ◌≡◌}
use aos.Base.{Bool, true, false, ◌&&◌, ◌||◌, List, [], ◌∷◌}
use aos.Base.{ltb, leb, ◌-◌, All}
use aos.Avmf.{Region, usable}
use aos.Avmf.Bitmap.{bitmap_size}
use aos.Avmf.Phys.{start_page, end_page}

-- The pages of the region, if the region is usable.
abbrev pub holds : Region → ℕ → Bool
holds r p = usable r && (leb (start_page r) p && ltb p (end_page r))

-- The pages that the allocator hands out.
abbrev pub manages : List Region → ℕ → Bool
manages [] p = false
manages (r ∷ rs) p = holds r p || manages rs p

-- The bitmap has a bit for each page of the region.
abbrev pub Fits : Region → Type 0
Fits r = usable r ≡ true → end_page r ≤ 8 * bitmap_size

-- The region is usable and holds all of the `n` pages from `first` on.
abbrev pub holds_run : Region → ℕ → ℕ → Bool
holds_run r first n =
    usable r && (leb (start_page r) first && (ltb first (end_page r) && leb n (end_page r - first)))

-- Some usable region holds all of the `n` pages from `first` on.
abbrev pub run_fits : List Region → ℕ → ℕ → Bool
run_fits [] first n = false
run_fits (r ∷ rs) first n = holds_run r first n || run_fits rs first n

-- The region but for the count of its bytes.
abbrev pub bare : Region → Region
bare r = record r { allocated_bytes = 0 }

-- The regions are the same but for the counts of their bytes.
abbrev pub SameButCounts : List Region → List Region → Type 0
SameButCounts rs rs' = map bare rs' ≡ map bare rs

manages-bare : (rs : List Region) (q : ℕ) → manages (map bare rs) q ≡ manages rs q
manages-bare [] q = refl
manages-bare (r ∷ rs) q = ap (λ m. holds r q || m) (manages-bare rs q)

run_fits-bare : (rs : List Region) (p n : ℕ) → run_fits (map bare rs) p n ≡ run_fits rs p n
run_fits-bare [] p n = refl
run_fits-bare (r ∷ rs) p n = ap (λ m. holds_run r p n || m) (run_fits-bare rs p n)

Fits-bare : (rs : List Region) → All Fits rs → All Fits (map bare rs)
Fits-bare [] h = tt
Fits-bare (r ∷ rs) (h, hs) = (h, Fits-bare rs hs)

Fits-unbare : (rs : List Region) → All Fits (map bare rs) → All Fits rs
Fits-unbare [] h = tt
Fits-unbare (r ∷ rs) (h, hs) = (h, Fits-unbare rs hs)

module _ (rs rs' : List Region) (same : SameButCounts rs rs') where
  pub manages-same : (q : ℕ) → manages rs' q ≡ manages rs q
  manages-same q = sym (manages-bare rs' q) ∙ ap (λ l. manages l q) same ∙ manages-bare rs q

  pub run_fits-same : (p n : ℕ) → run_fits rs' p n ≡ run_fits rs p n
  run_fits-same p n =
      sym (run_fits-bare rs' p n) ∙ ap (λ l. run_fits l p n) same ∙ run_fits-bare rs p n

  pub Fits-same : All Fits rs → All Fits rs'
  Fits-same h = Fits-unbare rs' (subst (All Fits) (sym same) (Fits-bare rs h))

pub run_fits-manages : (rs : List Region) (p : ℕ) → run_fits rs p 1 ≡ true → manages rs p ≡ true
run_fits-manages [] p h = h
run_fits-manages (r ∷ rs) p h = ground (arith, run_fits-manages rs p)
