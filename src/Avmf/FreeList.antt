-- ===== src/Avmf/FreeList.antt =====
-- Kernel/mm/avmf.c: `avmf_free_list_append`, which gives a range of addresses back to the free
-- list of a region. The list is in the order of the addresses, and neighbours are joined.
pub mod Order
pub mod Cover
pub mod Append
mod Tests
use aos.Base.{ℕ, zero, suc, ◌+◌, ◌-◌, ◌%◌, ◌^◌, ◌<◌, ◌≤◌, Bool, true, false, not, ◌&&◌, ◌||◌}
use aos.Base.{List, [], ◌∷◌, Option, none, some, ltb, leb, ◌==◌, if◌then◌else◌}
use aos.Avmf.{Region, Range, usable, uint64_max}

-- A `uint64_t` sum.
abbrev pub add64 : ℕ → ℕ → ℕ
add64 a b = (a + b) % 2 ^ 64

abbrev pub end_of : Range → ℕ
end_of x = add64 x.base x.size

abbrev pub passed : Range → Option (List Range × List Range) → Option (List Range × List Range)
passed cur none = none
passed cur (some (before, after)) = some (cur ∷ before, after)

-- The loop, with `n` rounds left: it passes the nodes that lie below `range` and gives them with
-- the nodes that follow. `none` is its `return AOS_FALSE`: the list is shorter than its count, a
-- node wraps, or a node overlaps `range`.
unfoldable pub locate : Range → ℕ → List Range → Option (List Range × List Range)
locate range zero l = some ([], l)
locate range (suc n) [] = none
locate range (suc n) (cur ∷ rest) =
    let later = passed cur (locate range n rest) in
    if ltb (uint64_max - cur.size) cur.base
    then none
    else if ltb range.base (end_of cur) && ltb cur.base (end_of range)
    then none
    else if ltb range.base cur.base
    then some ([], cur ∷ rest)
    else later

-- What happens at the place that was found: which neighbours `range` is joined with.
pub data Joint : Type 0 where
  both prev_only next_only neither : Joint

abbrev pub joint_of : Bool → Bool → Joint
joint_of true true = both
joint_of true false = prev_only
joint_of false true = next_only
joint_of false false = neither

-- `merge_prev` for the last of the nodes that were passed.
unfoldable pub merges_prev : List Range → Range → Bool
merges_prev [] range = false
merges_prev (prev ∷ []) range = end_of prev == range.base
merges_prev (_ ∷ prev ∷ before) range = merges_prev (prev ∷ before) range

-- `merge_next` for the first of the nodes that follow.
unfoldable pub merges_next : Range → List Range → Bool
merges_next range [] = false
merges_next range (cur ∷ after) = end_of range == cur.base

unfoldable pub joint : List Range → Range → List Range → Joint
unfolding merges_prev merges_next
joint before range after = joint_of (merges_prev before range) (merges_next range after)

-- The range and what follows it.
unfoldable pub join_next : Range → List Range → List Range
join_next range [] = range ∷ []
join_next range (cur ∷ after) =
    if end_of range == cur.base
    then record range { size = add64 range.size cur.size } ∷ after
    else range ∷ cur ∷ after

-- The previous node grown by the range, and by the next node too if they touch.
unfoldable pub joined_prev : Range → Range → List Range → List Range
joined_prev prev range [] = record prev { size = add64 prev.size range.size } ∷ []
joined_prev prev range (cur ∷ rest) =
    if end_of range == cur.base
    then record prev { size = add64 (add64 prev.size range.size) cur.size } ∷ rest
    else record prev { size = add64 prev.size range.size } ∷ cur ∷ rest

-- The list after the call.
unfoldable pub weave : List Range → Range → List Range → List Range
weave [] range after = join_next range after
weave (prev ∷ []) range after =
    if end_of prev == range.base then joined_prev prev range after else prev ∷ join_next range after
weave (p ∷ q ∷ before) range after = p ∷ weave (q ∷ before) range after

-- The address of the last node that was passed, and of the first that follows; 0 for none.
unfoldable pub prev_at : List Range → ℕ
prev_at [] = 0
prev_at (prev ∷ []) = prev.at
prev_at (_ ∷ prev ∷ before) = prev_at (prev ∷ before)

unfoldable pub cur_at : List Range → ℕ
cur_at [] = 0
cur_at (cur ∷ after) = cur.at

-- `free_count` and `free_list_end` after the call.
abbrev pub count_after : Joint → ℕ → ℕ
count_after both n = n - 1
count_after prev_only n = n
count_after next_only n = n - 1
count_after neither n = add64 n 1

abbrev pub end_after : Joint → List Range → Range → List Range → ℕ → ℕ
end_after both before range after last = if last == cur_at after then prev_at before else last
end_after prev_only before range after last = last
end_after next_only before range after last = if last == cur_at after then range.at else last
end_after neither before range [] last = range.at
end_after neither before range (cur ∷ after) last = last

-- The region with `range` put between the two parts of its list.
unfoldable pub put_between : Region → Range → List Range × List Range → Region
unfolding joint weave join_next joined_prev prev_at cur_at
put_between r range (before, after) =
    let j = joint before range after in
    record r {
      free_list = weave before range after;
      free_count = count_after j r.free_count;
      free_list_end = end_after j before range after r.free_list_end;
    }

abbrev pub is_empty : List Range → Bool
is_empty [] = true
is_empty (x ∷ xs) = false

-- The range alone, which is what an empty list, or one whose count is 0, becomes.
abbrev pub put_alone : Region → Range → Region
put_alone r range = record r { free_list = range ∷ []; free_count = 1; free_list_end = range.at }

unfoldable pub free_list_append : Region → Range → Bool × Region
unfolding locate put_between
free_list_append r range =
    if range.size == 0 || not (usable r)
    then (false, r)
    else if ltb (uint64_max - range.size) range.base
    then (false, r)
    else if is_empty r.free_list || r.free_count == 0
    then (true, put_alone r range)
    else (elim (locate range r.free_count r.free_list) [
      | none ↦ (false, r)
      | some parts ↦ (true, put_between r range parts)
    ])
