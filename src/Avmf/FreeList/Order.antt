-- ===== src/Avmf/FreeList/Order.antt =====
-- Kernel/mm/avmf.c: where `avmf_free_list_append` puts a range, and what the list covers then.
use aos.Base.{ℕ, ◌+◌, ◌-◌, ◌<◌, ◌≤◌, ◌≡◌, refl, ap, arith}
use aos.Base.{Bool, true, false, ◌&&◌, ◌||◌, List, [], ◌∷◌, ◌++◌, Option, none, some}
use aos.Base.{ltb, leb, ◌==◌, length, Bool-cases, inl, inr}
use aos.Avmf.{Range, uint64_max}
use aos.Avmf.FreeList.{passed, locate, weave, join_next, joined_prev, add64, end_of}

-- The nodes lie at `lo` or above, in the order of their addresses, each with room and none
-- wrapping, and no two touch.
abbrev pub Ordered : ℕ → List Range → Type 0
Ordered lo [] = Unit {0}
Ordered lo (x ∷ xs) =
    (lo ≤ x.base) × (0 < x.size) × (x.base + x.size ≤ uint64_max) × Ordered (x.base + x.size + 1) xs

abbrev pub within : Range → ℕ → Bool
within x a = leb x.base a && ltb a (x.base + x.size)

-- Is the address free?
abbrev pub covers : List Range → ℕ → Bool
covers [] a = false
covers (x ∷ xs) a = within x a || covers xs a

-- Has the range an address in common with a node of the list?
abbrev pub overlaps : Range → List Range → Bool
overlaps range [] = false
overlaps range (x ∷ xs) =
    (ltb range.base (x.base + x.size) && ltb x.base (range.base + range.size)) || overlaps range xs

pub Ordered-mono : (lo lo' : ℕ) (l : List Range) → lo' ≤ lo → Ordered lo l → Ordered lo' l
Ordered-mono lo lo' [] h o = tt
Ordered-mono lo lo' (x ∷ xs) h o = (omega arith, o.1, o.2, o.3)

module _ (range : Range) (pos : 0 < range.size) (fit : range.base + range.size ≤ uint64_max) where
  abbrev pub Above : List Range → Type 0
  Above [] = Unit {0}
  Above (cur ∷ after) = range.base + range.size ≤ cur.base

  -- The place of the range: the nodes before it end at its start or earlier, those after it
  -- start at its end or later.
  abbrev pub Placed : ℕ → List Range → List Range → Type 0
  Placed lo [] after = Ordered lo after × Above after
  Placed lo (p ∷ before) after =
      (lo ≤ p.base)
      × (0 < p.size)
      × (p.base + p.size ≤ range.base)
      × Placed (p.base + p.size + 1) before after

  abbrev pub Located : ℕ → List Range → Option (List Range × List Range) → Type 0
  Located lo l none = overlaps range l ≡ true
  Located lo l (some (before, after)) =
      (overlaps range l ≡ false) × (l ≡ before ++ after) × Placed lo before after

  clear-above :
      (lo : ℕ) (l : List Range)
      → Ordered lo l
      → range.base + range.size ≤ lo
      → overlaps range l ≡ false
  clear-above lo [] o h = refl
  clear-above lo (x ∷ xs) o h = ground (arith, clear-above (x.base + x.size + 1) xs o.3)

  -- A node that ends before the range is passed.
  Located-passed :
      (lo : ℕ) (x : Range) (xs : List Range) (o : Option (List Range × List Range))
      → Ordered lo (x ∷ xs)
      → x.base + x.size ≤ range.base
      → Located (x.base + x.size + 1) xs o
      → Located lo (x ∷ xs) (passed x o)
  Located-passed lo x xs none o h l = ground arith
  Located-passed lo x xs (some (before, after)) o h (free, parts, placed) =
      (ground arith, ap (λ t. x ∷ t) parts, (o.0, o.1, h, placed))

  pub locate-Located :
      (lo : ℕ) (l : List Range) → Ordered lo l → Located lo l (locate range (length l) l)
  unfolding locate
  locate-Located lo [] o = (refl, refl, (tt, tt))
  locate-Located lo (x ∷ xs) o =
      let ih = locate-Located (x.base + x.size + 1) xs o.3 in
      let ex : end_of x ≡ x.base + x.size = omega arith in
      let er : end_of range ≡ range.base + range.size = omega arith in
      let sound : ltb (uint64_max - x.size) x.base ≡ false = ground arith in
      elim (Bool-cases (ltb range.base (end_of x) && ltb x.base (end_of range))) [
        | inl hit ↦ rw (sound, hit) (ground (arith, ex, er))
        | inr miss ↦ elim (Bool-cases (ltb range.base x.base)) [
          | inl before ↦
              let above : range.base + range.size ≤ x.base = ground (arith, ex, er) in
              rw (sound, miss, before)
                (
                  clear-above (range.base + range.size) (x ∷ xs) (above, o.1, o.2, o.3)
                      (omega arith),
                  refl,
                  (o, above),
                )
          | inr behind ↦
              rw (sound, miss, behind)
                (Located-passed lo x xs (locate range (length xs) xs) o (ground (arith, ex, er)) ih)
        ]
      ]

  join_next-Ordered :
      (lo : ℕ) (after : List Range)
      → lo ≤ range.base
      → Ordered lo after
      → Above after
      → Ordered lo (join_next range after)
  unfolding join_next
  join_next-Ordered lo [] h o a = (h, pos, fit, tt)
  join_next-Ordered lo (cur ∷ rest) h o a = elim (Bool-cases (end_of range == cur.base)) [
    | inl touch ↦
        let e : range.base + range.size ≡ cur.base = ground arith in
        let size : add64 range.size cur.size ≡ range.size + cur.size = omega (arith, o.2) in
        rw (touch, size)
          (h, omega arith, omega (arith, o.2), Ordered-mono _ _ rest (omega arith) o.3)
    | inr apart ↦ rw apart (h, pos, fit, (ground arith, o.1, o.2, o.3))
  ]

  join_prev-Ordered :
      (lo : ℕ) (x : Range) (after : List Range)
      → Placed lo (x ∷ []) after
      → x.base + x.size ≡ range.base
      → Ordered lo (joined_prev x range after)
  unfolding joined_prev
  join_prev-Ordered lo x [] p e =
      let size : add64 x.size range.size ≡ x.size + range.size = omega (arith, p.1) in
      rw size (p.0, omega arith, omega arith, tt)
  join_prev-Ordered lo x (cur ∷ rest) p e =
      let o = p.3.0 in
      let a : range.base + range.size ≤ cur.base = p.3.1 in
      let size : add64 x.size range.size ≡ x.size + range.size = omega (arith, p.1) in
      elim (Bool-cases (end_of range == cur.base)) [
        | inl touch ↦
            let t : range.base + range.size ≡ cur.base = ground arith in
            let all : add64 (x.size + range.size) cur.size ≡ x.size + range.size + cur.size =
              omega (arith, o.2) in
            rw (touch, size, all)
              (p.0, omega arith, omega (arith, o.2), Ordered-mono _ _ rest (omega arith) o.3)
        | inr apart ↦
            rw (apart, size) (p.0, omega arith, omega arith, (ground arith, o.1, o.2, o.3))
      ]

  pub weave-Ordered :
      (lo : ℕ) (before after : List Range)
      → lo ≤ range.base
      → Placed lo before after
      → Ordered lo (weave before range after)
  unfolding weave
  weave-Ordered lo [] after h p = join_next-Ordered lo after h p.0 p.1
  weave-Ordered lo (x ∷ []) after h p = elim (Bool-cases (end_of x == range.base)) [
    | inl touch ↦ rw touch (join_prev-Ordered lo x after p (ground arith))
    | inr apart ↦ rw apart (
      p.0,
      p.1,
      omega arith,
      join_next-Ordered (x.base + x.size + 1) after (ground arith) p.3.0 p.3.1,
    )
  ]
  weave-Ordered lo (x ∷ y ∷ before) after h p = (
    p.0,
    p.1,
    omega arith,
    weave-Ordered (x.base + x.size + 1) (y ∷ before) after (omega arith) p.3,
  )
