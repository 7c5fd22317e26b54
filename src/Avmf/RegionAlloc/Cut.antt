-- ===== src/Avmf/RegionAlloc/Cut.antt =====
-- Kernel/mm/avmf.c: the free list of a region after `avmf_region_alloc` has cut a run of addresses
-- out of its first range.
use aos.Base.{ℕ, ◌+◌, ◌-◌, ◌<◌, ◌≤◌, ◌≡◌, refl, arith, false, not, ◌&&◌}
use aos.Base.{List, [], ◌∷◌, ltb, leb, ◌==◌, length, Bool-cases, inl, inr}
use aos.Avmf.{Range, Region, uint64_max}
use aos.Avmf.FreeList.Order.{Ordered, Ordered-mono, covers}
use aos.Avmf.RegionAlloc.{cut, cut_region, is_inner}

-- No address below the list is covered.
covers-below : (lo : ℕ) (l : List Range) (a : ℕ) → Ordered lo l → a < lo → covers l a ≡ false
covers-below lo [] a o h = refl
covers-below lo (x ∷ xs) a o h =
    ground (arith, o.0, covers-below (x.base + x.size + 1) xs a o.3 (omega (arith, o.0)))

module _ (cur : Range) (rest : List Range) (base size at : ℕ) (pos : 0 < size)
    (low : cur.base ≤ base) (high : base + size ≤ cur.base + cur.size) where
  pub cut-Ordered : (lo : ℕ) → Ordered lo (cur ∷ rest) → Ordered lo (cut cur rest base size at)
  unfolding cut
  cut-Ordered lo o =
      let after : (n : ℕ) → n ≤ cur.base + cur.size + 1 → Ordered n rest =
        λ n h. Ordered-mono _ n rest h o.3 in
      let touch = Bool-cases (base - cur.base == 0) in
      let full = Bool-cases (cur.base + cur.size - (base + size) == 0) in
      elim touch [
        | inl p ↦ elim full [
          | inl s ↦ rw (p, s) (after lo (omega (arith, o.0)))
          | inr s ↦
              rw (p, s)
                (omega (arith, o.0), ground arith, ground (arith, o.2), after _ (ground arith))
        ]
        | inr p ↦ elim full [
          | inl s ↦ rw (p, s) (o.0, ground arith, ground (arith, o.2), after _ (ground arith))
          | inr s ↦
              rw (p, s)
                (
                  o.0,
                  ground arith,
                  ground (arith, o.2),
                  (ground arith, ground arith, ground (arith, o.2), after _ (ground arith)),
                )
        ]
      ]

  pub covers-cut :
      (lo a : ℕ)
      → Ordered lo (cur ∷ rest)
      → covers (cut cur rest base size at) a
        ≡ (covers (cur ∷ rest) a && not (leb base a && ltb a (base + size)))
  unfolding cut
  covers-cut lo a o =
      let none = covers-below (cur.base + cur.size + 1) rest a o.3 in
      elim (Bool-cases (ltb a (cur.base + cur.size + 1))) [
        | inl below ↦ ground (arith, none (ground arith))
        | inr above ↦ ground arith
      ]

  pub cut-count :
      (r : Region)
      → r.free_count ≡ length (cur ∷ rest)
      → length (cur ∷ rest) < uint64_max
      → (cut_region r cur rest base size at).free_count ≡ length (cut cur rest base size at)
  unfolding cut_region is_inner cut
  cut-count r e b = ground arith
