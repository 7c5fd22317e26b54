-- ===== src/Avmf/FreeList/Append.antt =====
-- Kernel/mm/avmf.c: `avmf_free_list_append` on a list in order whose count is right.
use aos.Base.{ℕ, ◌+◌, ◌-◌, ◌<◌, ◌≤◌, ◌≡◌, refl, sym, arith}
use aos.Base.{Bool, true, false, not, ◌&&◌, ◌||◌, List, [], ◌∷◌, ◌++◌, Option, none, some}
use aos.Base.{ltb, ◌==◌, if◌then◌else◌, length}
use mathlib.Core.Path.{subst}
use aos.Avmf.{Range, Region, usable, uint64_max}
use aos.Avmf.FreeList.{
  free_list_append, is_empty, put_between, put_alone, locate, weave, joint, joint_of,
}
use aos.Avmf.FreeList.{merges_prev, merges_next, joined_prev, count_after}
use aos.Avmf.FreeList.Order.{Ordered, within, covers, overlaps, Located, Placed}
use aos.Avmf.FreeList.Order.{locate-Located, weave-Ordered}
use aos.Avmf.FreeList.Cover.{starts_at, ends_at, grown, covers-weave, length-weave}
use aos.Avmf.FreeList.Cover.{merges_next-starts_at, merges_prev-ends_at}

-- A sound region, whose free list is in order and as long as it says.
pub record IsSound (r : Region) : Type 0 where
  pub sound : usable r ≡ true
  pub order : Ordered 0 r.free_list
  pub count : r.free_count ≡ length r.free_list
  pub bounded : length r.free_list < uint64_max

-- The range starts right behind no node and ends right where a node starts.
abbrev pub joins_only_next : Range → List Range → Bool
joins_only_next range l = starts_at l (range.base + range.size) && not (ends_at l range.base)

-- The range is refused, and nothing changes, or it is put in: the list stays in order, covers the
-- addresses that it covered and those of the range, and its count falls one short if the range is
-- joined with the node after it alone.
abbrev pub Appended : Region → Range → Bool × Region → Type 0
Appended r range (false, r') = (overlaps range r.free_list ≡ true) × (r' ≡ r)
Appended r range (true, r') =
    (overlaps range r.free_list ≡ false)
    × Ordered 0 r'.free_list
    × ((a : ℕ) → covers r'.free_list a ≡ (within range a || covers r.free_list a))
    × (r'.free_count + (if joins_only_next range r.free_list then 1 else 0) ≡ length r'.free_list)

-- The count of the code against the number of nodes.
count_after-grown :
    (prev next : Bool) (m : ℕ)
    → m < uint64_max
    → 0 < m
    → count_after (joint_of prev next) m + (if next && not prev then 1 else 0)
      ≡ grown (joint_of prev next) m
count_after-grown true true m h k = omega arith
count_after-grown true false m h k = omega arith
count_after-grown false true m h k = omega arith
count_after-grown false false m h k = omega arith

module _ (r : Region) (range : Range) (pos : 0 < range.size)
    (fit : range.base + range.size ≤ uint64_max) (v : IsSound r) where
  put_between-count :
      (before after : List Range)
      → 0 < length r.free_list
      → r.free_list ≡ before ++ after
      → Placed range pos fit 0 before after
      → count_after (joint before range after) r.free_count
          + (if joins_only_next range r.free_list then 1 else 0)
        ≡ length (weave before range after)
  unfolding joint
  put_between-count before after full parts placed =
      let next = merges_next-starts_at range pos fit 0 before after placed in
      let prev = merges_prev-ends_at range pos fit 0 before after placed in
      rw (v.count, parts, ← next, ← prev, length-weave range pos fit before after)
        (count_after-grown (merges_prev before range) (merges_next range after)
          (length (before ++ after)) (subst (λ l. length l < uint64_max) parts v.bounded)
          (subst (λ l. 0 < length l) parts full))

  put_between-Appended :
      (before after : List Range)
      → 0 < length r.free_list
      → overlaps range r.free_list ≡ false
      → r.free_list ≡ before ++ after
      → Placed range pos fit 0 before after
      → Appended r range (true, put_between r range (before, after))
  unfolding put_between
  put_between-Appended before after full free parts placed = (
    free,
    weave-Ordered range pos fit 0 before after (omega arith) placed,
    λ a. rw parts (covers-weave range pos fit 0 before after a (omega arith) placed),
    put_between-count before after full parts placed,
  )

  put_alone-Appended : r.free_list ≡ [] → Appended r range (true, put_alone r range)
  put_alone-Appended e = (
    subst (λ l. overlaps range l ≡ false) (sym e) refl,
    (omega arith, pos, fit, tt),
    λ a. subst (λ l. covers (range ∷ []) a ≡ (within range a || covers l a)) (sym e) refl,
    subst (λ l. 1 + (if joins_only_next range l then 1 else 0) ≡ 1) (sym e) (omega arith),
  )

  abbrev located : Option (List Range × List Range) → Bool × Region
  located none = (false, r)
  located (some parts) = (true, put_between r range parts)

  located-Appended :
      (o : Option (List Range × List Range))
      → 0 < length r.free_list
      → Located range pos fit 0 r.free_list o
      → Appended r range (located o)
  located-Appended none full h = (h, refl)
  located-Appended (some (before, after)) full (free, parts, placed) =
      put_between-Appended before after full free parts placed

  -- On a sound region and a range that is not empty and does not wrap, `avmf_free_list_append`
  -- refuses the range exactly when it overlaps the list, and then nothing changes. Otherwise the
  -- list stays in order and covers the addresses that it covered and those of the range. The
  -- count is the number of nodes, but one less if the range is joined only with the next node.
  pub free_list_append_lem : Appended r range (free_list_append r range)
  unfolding free_list_append
  free_list_append_lem = go r.free_list refl
    where
      guards :
          ((range.size == 0 || not (usable r)) ≡ false)
          × (ltb (uint64_max - range.size) range.base ≡ false)
      guards = ground (arith, v.sound)

      go : (l : List Range) → r.free_list ≡ l → Appended r range (free_list_append r range)
      go [] e =
          let alone : (is_empty r.free_list || r.free_count == 0) ≡ true =
            subst (λ l. (is_empty l || r.free_count == 0) ≡ true) (sym e) refl in
          rw (guards.0, guards.1, alone) (put_alone-Appended e)
      go (x ∷ xs) e =
          let full : 0 < length r.free_list = subst (λ l. 0 < length l) (sym e) (omega arith) in
          let filled : (is_empty r.free_list || r.free_count == 0) ≡ false =
            subst (λ l. (is_empty l || r.free_count == 0) ≡ false) (sym e)
              (ground (arith, v.count)) in
          rw (guards.0, guards.1, filled)
            (subst (λ n. Appended r range (located (locate range n r.free_list))) (sym v.count)
              (located-Appended (locate range (length r.free_list) r.free_list) full
                (locate-Located range pos fit 0 r.free_list v.order)))

-- A range that ends where the only node of the free list of a sound region starts brings the count
-- down to 0, and the next range that is appended, whichever it is, replaces the whole list. None of
-- the three ranges is empty or wraps.
pub append_forgets :
    (r : Region) (x range other : Range)
    → usable r ≡ true
    → x.base + x.size ≤ uint64_max
    → 0 < x.size
    → range.base + range.size ≡ x.base
    → 0 < range.size
    → other.base + other.size ≤ uint64_max
    → 0 < other.size
    → (free_list_append (free_list_append (put_alone r x) range).1 other).1.free_list ≡ other ∷ []
unfolding free_list_append merges_prev merges_next joined_prev
append_forgets r x range other u fx px touch pr fo po = ground arith
