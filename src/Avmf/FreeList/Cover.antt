-- ===== src/Avmf/FreeList/Cover.antt =====
-- Kernel/mm/avmf.c: the addresses and the number of nodes of a list into which a range was put.
use aos.Base.{ℕ, suc, ◌+◌, ◌-◌, ◌<◌, ◌≤◌, ◌≡◌, refl, ap, sym, ◌∙◌, arith}
use aos.Base.{Bool, false, ◌||◌, List, [], ◌∷◌, ◌++◌}
use aos.Base.{◌==◌, length}
use aos.Avmf.{Range, uint64_max}
use aos.Avmf.FreeList.{weave, join_next, joined_prev, joint, merges_prev, merges_next, Joint}
use aos.Avmf.FreeList.{both, prev_only, next_only, neither}
use aos.Avmf.FreeList.Order.{Ordered, within, covers, Placed, Above}

-- Does a node of the list start, or end, at the address?
abbrev pub starts_at : List Range → ℕ → Bool
starts_at [] a = false
starts_at (x ∷ xs) a = x.base == a || starts_at xs a

abbrev pub ends_at : List Range → ℕ → Bool
ends_at [] a = false
ends_at (x ∷ xs) a = (x.base + x.size) == a || ends_at xs a

-- The number of nodes when a range is put between others.
abbrev pub grown : Joint → ℕ → ℕ
grown both n = n - 1
grown prev_only n = n
grown next_only n = n
grown neither n = n + 1

grown-suc : (j : Joint) (n : ℕ) → grown j (suc (suc n)) ≡ suc (grown j (suc n))
grown-suc both n = omega arith
grown-suc prev_only n = refl
grown-suc next_only n = refl
grown-suc neither n = omega arith

module _ (range : Range) (pos : 0 < range.size) (fit : range.base + range.size ≤ uint64_max) where
  covers-join_next :
      (lo : ℕ) (after : List Range) (a : ℕ)
      → Ordered lo after
      → Above range pos fit after
      → covers (join_next range after) a ≡ (within range a || covers after a)
  unfolding join_next
  covers-join_next lo [] a o h = refl
  covers-join_next lo (cur ∷ rest) a o h = ground arith

  covers-joined_prev :
      (lo : ℕ) (x : Range) (after : List Range) (a : ℕ)
      → Placed range pos fit lo (x ∷ []) after
      → x.base + x.size ≡ range.base
      → covers (joined_prev x range after) a ≡ (within range a || (within x a || covers after a))
  unfolding joined_prev
  covers-joined_prev lo x [] a p e = ground (arith, p.1)
  covers-joined_prev lo x (cur ∷ rest) a p e = ground (arith, p.1, p.3.1, p.3.0)

  pub covers-weave :
      (lo : ℕ) (before after : List Range) (a : ℕ)
      → lo ≤ range.base
      → Placed range pos fit lo before after
      → covers (weave before range after) a ≡ (within range a || covers (before ++ after) a)
  unfolding weave
  covers-weave lo [] after a h p = covers-join_next lo after a p.0 p.1
  covers-weave lo (x ∷ []) after a h p = ground (
    arith,
    p.1,
    p.2,
    covers-joined_prev lo x after a p,
    covers-join_next (x.base + x.size + 1) after a p.3.0 p.3.1,
  )
  covers-weave lo (x ∷ y ∷ before) after a h p =
      ground
        (arith, covers-weave (x.base + x.size + 1) (y ∷ before) after a (omega (arith, p.3)) p.3)

  starts_at-above :
      (lo : ℕ) (l : List Range) (a : ℕ) → Ordered lo l → a < lo → starts_at l a ≡ false
  starts_at-above lo [] a o h = refl
  starts_at-above lo (x ∷ xs) a o h = ground (arith, starts_at-above (x.base + x.size + 1) xs a o.3)

  ends_at-above : (lo : ℕ) (l : List Range) (a : ℕ) → Ordered lo l → a ≤ lo → ends_at l a ≡ false
  ends_at-above lo [] a o h = refl
  ends_at-above lo (x ∷ xs) a o h = ground (arith, ends_at-above (x.base + x.size + 1) xs a o.3)

  Ordered-Above :
      (lo : ℕ) (after : List Range)
      → Ordered lo after
      → Above range pos fit after
      → Ordered (range.base + range.size) after
  Ordered-Above lo [] o h = tt
  Ordered-Above lo (cur ∷ rest) o h = (h, o.1, o.2, o.3)

  -- The neighbour tests at the place that was found are tests on the whole list.
  pub merges_next-starts_at :
      (lo : ℕ) (before after : List Range)
      → Placed range pos fit lo before after
      → merges_next range after ≡ starts_at (before ++ after) (range.base + range.size)
  unfolding merges_next
  merges_next-starts_at lo [] [] p = refl
  merges_next-starts_at lo [] (cur ∷ rest) p = ground (
    arith,
    p.0,
    p.1,
    starts_at-above (cur.base + cur.size + 1) rest (range.base + range.size) p.0.3,
  )
  merges_next-starts_at lo (x ∷ before) after p =
      ground (arith, p.1, p.2, merges_next-starts_at (x.base + x.size + 1) before after p.3)

  pub merges_prev-ends_at :
      (lo : ℕ) (before after : List Range)
      → Placed range pos fit lo before after
      → merges_prev before range ≡ ends_at (before ++ after) range.base
  unfolding merges_prev
  merges_prev-ends_at lo [] [] p = refl
  merges_prev-ends_at lo [] (cur ∷ rest) p =
      ground (arith, p.0, p.1, ends_at-above (cur.base + cur.size + 1) rest range.base p.0.3)
  merges_prev-ends_at lo (x ∷ []) after p = ground (
    arith,
    p.1,
    p.2,
    ends_at-above (range.base + range.size) after range.base
        (Ordered-Above (x.base + x.size + 1) after p.3.0 p.3.1) (omega arith),
  )
  merges_prev-ends_at lo (x ∷ y ∷ before) after p =
      ground
        (arith, p.1, p.2, p.3, merges_prev-ends_at (x.base + x.size + 1) (y ∷ before) after p.3)

  pub length-weave :
      (before after : List Range)
      → length (weave before range after)
        ≡ grown (joint before range after) (length (before ++ after))
  unfolding weave joint merges_prev merges_next joined_prev join_next
  length-weave [] [] = refl
  length-weave [] (cur ∷ rest) = ground arith
  length-weave (x ∷ []) [] = ground arith
  length-weave (x ∷ []) (cur ∷ rest) = ground arith
  length-weave (x ∷ y ∷ before) after =
      ap suc (length-weave (y ∷ before) after)
      ∙ sym (grown-suc (joint (y ∷ before) range after) (length (before ++ after)))
