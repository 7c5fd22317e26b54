-- ===== src/Pager/Map.antt =====
-- Kernel/mm/pager.c: `pager_map` of a page of 4 KiB.
use aos.Base.{ℕ, ◌+◌, ◌%◌, ◌^◌, ◌≡◌, ◌≢◌, refl, sym, ◌∙◌, arith}
use aos.Base.{Bool, true, false, ◌||◌, leb, ◌==◌, none, some}
use aos.Base.{if_lem, if_cases, Bool-cases, ◌⊎◌, inl, inr, Exec, done, Ends, Ends-bind}
use aos.Pager.{Pager, pager_map, map_in, map_small, descend, index, is_present, is_huge}
use aos.Pager.{page_of, write, entry_for}
use aos.Pager.Walk.{walk, resolve, path, length-path}
use aos.Pager.Owned.{Owners, IsTree, Reaches, Reaches-own, Reaches-same, Reaches-walk}
use aos.Pager.Writes.{write-IsTree, walk-write}
use aos.Pager.Descent.{At, Stocked, descend-At, eq_self, above-apart}

-- The directory entry of the address has the bit of a large page.
abbrev pub UnderLarge : Pager → (virt : ℕ) → Type 0
UnderLarge p v =
    (pd : ℕ) × Reaches p.tables p.pml4 v 2 pd × (is_huge (p.tables pd (index 1 v)) ≡ true)

-- What the address is mapped to then: to the page that was asked for, by the call or before it;
-- or, where NULL is answered, to what it was.
abbrev pub After : Pager → (virt phys : ℕ) → Bool × Pager → Type 0
After start v phys (true, p) =
    (resolve p v ≡ some (page_of phys + v % 0x1000))
    × ((resolve start v ≡ none) ⊎ (resolve start v ≡ resolve p v))
After start v phys (false, p) = resolve p v ≡ resolve start v

-- The tables are a tree still. Under an entry for a large page nothing has changed; elsewhere no
-- other page is mapped otherwise.
abbrev pub Outcome : Pager → (virt phys : ℕ) → Bool × Pager → Type 0
Outcome start v phys (r, p) =
    ((own : Owners) × IsTree own p.tables p.pml4)
    × ((UnderLarge p v × ((w : ℕ) → resolve p w ≡ resolve start w))
        ⊎ (((w : ℕ) → path 4 v ≢ path 4 w → resolve p w ≡ resolve start w)
            × After start v phys (r, p)))

module _ (start : Pager) (v phys flags : ℕ) where
  unchanged :
      (r : Bool) (p : Pager)
      → ((own : Owners) × IsTree own p.tables p.pml4)
      → ((w : ℕ) → resolve p w ≡ resolve start w)
      → (r ≡ true → resolve p v ≡ some (page_of phys + v % 0x1000))
      → Outcome start v phys (r, p)
  unchanged true p tree same hit = (tree, inr ((λ w _. same w), (hit refl, inr (sym (same v)))))
  unchanged false p tree same hit = (tree, inr ((λ w _. same w), same v))

  map_small-Outcome :
      (k : ℕ) (own : Owners) (pt : ℕ) (p : Pager)
      → At start v k 3 own pt p
      → Outcome start v phys (map_small p pt v phys flags)
  unfolding map_small walk resolve path write
  map_small-Outcome k own pt p here =
      let i = index 0 v in
      let old = p.tables pt i in
      let m = path 3 v in
      let new = entry_for (page_of phys) flags in
      let owned = Reaches-own own p.tables p.pml4 here.tree v 3 pt (omega arith) here.reach in
      let leaf = Reaches-walk p.tables p.pml4 v 3 0 pt refl here.reach in
      let three = length-path 3 v in
      if_cases (Outcome start v phys) (is_present old)
        (λ present.
          unchanged (page_of old == page_of phys) p (own, here.tree) here.same
            (λ hit.
              let page : page_of old ≡ page_of phys = ground (arith, hit) in
              leaf ∙ rw (present, page) refl))
        (λ absent.
          let present : is_present new ≡ true = ground arith in
          let page : page_of new ≡ page_of phys = omega arith in
          let reach =
            Reaches-same own p.tables p.pml4 here.tree (write p.tables pt i new) v 3 pt
              (omega arith) (λ k u h o. rw (above-apart own v k 3 u pt h o owned) refl)
              here.reach in
          (
            (
              own,
              write-IsTree own p.tables p.pml4 here.tree pt i m owned new
                  (λ h. absurd (omega (arith, three, h))),
            ),
            inr (
              (λ w apart.
                  walk-write own p.tables p.pml4 here.tree pt i m owned new 3 0 p.pml4 w apart refl
                    here.tree.top
                  ∙ here.same w),
              (
                Reaches-walk (write p.tables pt i new) p.pml4 v 3 0 pt refl reach
                    ∙ rw (eq_self pt, eq_self i, present, page) refl,
                inl (sym (here.same v) ∙ leaf ∙ rw absent refl),
              ),
            ),
          ))

  map_in-Outcome :
      (own : Owners) (pd : ℕ) (p : Pager)
      → is_huge flags ≡ false
      → At start v 1 2 own pd p
      → Ends (map_in p pd v phys flags) (Outcome start v phys)
  unfolding map_in
  map_in-Outcome own pd p small here =
      rw small (elim (Bool-cases (is_huge (p.tables pd (index 1 v)))) [
        | inl large ↦ rw large ((own, here.tree), inl ((pd, here.reach, large), here.same))
        | inr fine ↦ rw fine (
            Ends-bind (Outcome start v phys) (descend p pd (index 1 v))
              (λ (pt, p'). done (map_small p' pt v phys flags))
              (descend-At start v 0 2 own pd p (omega arith) here (λ _. fine))
              (λ (pt, p') (own', at). map_small-Outcome 0 own' pt p' at))
      ])

  -- `pager_map` of a page of 4 KiB, on tables that form a tree and with three tables to be had that
  -- start a page and are not in the tree, ends without a fault, and the tables form a tree. If the
  -- directory entry of the address has the bit of a large page, no address is mapped otherwise than
  -- before. Else no address on another page is, and where a pointer is answered, the address is
  -- mapped to the physical page and was mapped to no other before; where NULL is answered, it is
  -- mapped as before.
  pub pager_map_lem :
      (own : Owners)
      → IsTree own start.tables start.pml4
      → Stocked 3 own start.source
      → is_huge flags ≡ false
      → Ends (pager_map start v phys flags) (Outcome start v phys)
  unfolding pager_map
  pager_map_lem own tree stock small =
      if_lem (λ (m : Exec (Bool × Pager)). Ends m (Outcome start v phys))
        (leb (2 ^ start.cpu_phys_bits) phys || start.pml4 == 0)
        (unchanged false start (own, tree) (λ w. refl) (λ e. absurd cc))
        (Ends-bind (Outcome start v phys) (descend start start.pml4 (index 3 v)) _
          (descend-At start v 2 0 own start.pml4 start (omega arith)
            (record { tree = tree; reach = refl; same = λ w. refl; stock = stock })
            (λ e. absurd (omega (arith, e))))
          (λ (pdpt, p1) (own1, at1).
            Ends-bind (Outcome start v phys) (descend p1 pdpt (index 2 v)) _
              (descend-At start v 1 1 own1 pdpt p1 (omega arith) at1
                (λ e. absurd (omega (arith, e))))
              (λ (pd, p2) (own2, at2). map_in-Outcome own2 pd p2 small at2)))
