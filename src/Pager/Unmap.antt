-- ===== src/Pager/Unmap.antt =====
-- Kernel/mm/pager.c: `pager_unmap`, and `pager_map` under a large page that was unmapped.
use aos.Base.{ℕ, zero, suc, ◌+◌, ◌-◌, ◌^◌, ◌≡◌, ◌≢◌, refl, ap, ◌∙◌, arith}
use aos.Base.{true, false, ◌||◌, leb, ◌==◌, List, ◌∷◌, none}
use aos.Base.{Bool-cases, ◌⊎◌, inl, inr, done}
use aos.Pager.{Pager, pager_unmap, pager_map, drop_entry, clear_present, index, is_present, is_huge}
use aos.Pager.{page_of, huge_page_of, write, descend, map_in}
use aos.Pager.Walk.{walk, resolve, path, length-path}
use aos.Pager.Owned.{Owners, IsTree, Reaches, Reaches-own, Reaches-same, Reaches-walk}
use aos.Pager.Writes.{write-IsTree, walk-write}
use aos.Pager.Descent.{eq_self, above-apart}
use aos.Pager.Map.{UnderLarge}

abbrev pub Tree : Pager → Type 0
Tree p = (own : Owners) × IsTree own p.tables p.pml4

-- The directory that the address is looked up in.
abbrev pub directory : Pager → (virt : ℕ) → ℕ
directory p v = page_of (p.tables (page_of (p.tables p.pml4 (index 3 v))) (index 2 v))

-- The address is mapped to nothing; what lies outside of its 2 MiB is as it was, and outside of the
-- page itself too, unless the directory entry is one for a large page.
abbrev pub Unmapped : Pager → (virt : ℕ) → Pager → Type 0
Unmapped p v p' =
    Tree p'
    × (resolve p' v ≡ none)
    × ((w : ℕ) → path 3 v ≢ path 3 w → resolve p' w ≡ resolve p w)
    × (UnderLarge p v ⊎ ((w : ℕ) → path 4 v ≢ path 4 w → resolve p' w ≡ resolve p w))

module _ (p : Pager) (v : ℕ) (own : Owners) (tree : IsTree own p.tables p.pml4) where
  -- An entry on the way of the address is dropped.
  drop_entry_lem :
      (d n t : ℕ)
      → d + n ≡ 3
      → Reaches p.tables p.pml4 v d t
      → Tree (drop_entry p t (index n v))
        × (resolve (drop_entry p t (index n v)) v ≡ none)
        × ((w : ℕ)
            → path (suc d) v ≢ path (suc d) w
            → resolve (drop_entry p t (index n v)) w ≡ resolve p w)
  unfolding resolve walk path write
  drop_entry_lem d n t e r =
      let i = index n v in
      let new = clear_present (p.tables t i) in
      let owned = Reaches-own own p.tables p.pml4 tree v d t (omega (arith, e)) r in
      let absent : is_present new ≡ false = ground arith in
      let len = length-path d v in
      let level : 3 - d ≡ n = omega (arith, e) in
      let reach =
        Reaches-same own p.tables p.pml4 tree (write p.tables t i new) v d t (omega (arith, e))
          (λ k u h o. rw (above-apart own v k d u t h o owned) refl) r in
      (
        (own, write-IsTree own p.tables p.pml4 tree t i (path d v) owned new (λ h q. absurd cc)),
        Reaches-walk (write p.tables t i new) p.pml4 v d n t e reach ∙ gone n t i new absent refl,
        λ w apart.
            walk-write own p.tables p.pml4 tree t i (path d v) owned new 3 0 p.pml4 w
              (λ same.
                apart (ap (λ k. index k v ∷ path d v) level ∙ same ∙ ap (λ k. path (suc k) w) len))
              refl tree.top,
      )
    where
      gone :
          (n t i new : ℕ)
          → is_present new ≡ false
          → i ≡ index n v
          → walk (write p.tables t i new) n t v ≡ none
      gone zero t i new absent e = rw (eq_self t, ← e, eq_self i, absent) refl
      gone (suc n) t i new absent e = rw (eq_self t, ← e, eq_self i, absent) refl

  -- What is left when nothing was to be dropped.
  kept : resolve p v ≡ none → Unmapped p v p
  kept gone = ((own, tree), gone, (λ w _. refl), inr (λ w _. refl))

  -- `pager_unmap`, on tables that form a tree and are loaded: the tables form a tree, and the address
  -- is mapped to nothing. Nothing else changes outside of its 2 MiB, and, unless its directory entry
  -- has the bit of a large page, outside of its page.
  pub pager_unmap_lem : p.mapped ≡ true → Unmapped p v (pager_unmap p v)
  unfolding pager_unmap resolve walk path
  pager_unmap_lem loaded =
      let e3 = p.tables p.pml4 (index 3 v) in
      let pdpt = page_of e3 in
      let e2 = p.tables pdpt (index 2 v) in
      let pd = page_of e2 in
      let e1 = p.tables pd (index 1 v) in
      rw loaded (elim (Bool-cases (is_present e3)) [
        | inr a ↦ rw a (kept (rw a refl))
        | inl h3 ↦ elim (Bool-cases (is_present e2)) [
          | inr a ↦ rw (h3, a) (kept (rw (h3, a) refl))
          | inl h2 ↦
              let at : Reaches p.tables p.pml4 v 2 pd = (
                pdpt,
                (p.pml4, refl, h3, (λ e. absurd (omega (arith, e))), refl),
                h2,
                (λ e. absurd (omega (arith, e))),
                refl,
              ) in
              elim (Bool-cases (is_huge e1)) [
                | inl large ↦
                    let (t, none_there, others) = drop_entry_lem 2 1 pd refl at in
                    rw (h3, h2, large) (t, none_there, others, inl (pd, at, large))
                | inr small ↦ elim (Bool-cases (is_present e1)) [
                  | inr a ↦ rw (h3, h2, small, a) (kept (rw (h3, h2, small, a) refl))
                  | inl h1 ↦
                      let (t, none_there, others) =
                        drop_entry_lem 3 0 (page_of e1) refl (pd, at, h1, (λ _. small), refl) in
                      rw (h3, h2, small, h1)
                        (t, none_there, (λ w apart. others w (λ e. apart (behind e))), inr others)
                ]
              ]
        ]
      ])
    where
      behind : {a b : ℕ} {l m : List ℕ} → a ∷ l ≡ b ∷ m → l ≡ m
      behind e = cc

  -- A page of 4 KiB in a large page that `pager_unmap` has unmapped, on tables that form a tree and
  -- are loaded: if `pager_map` is asked for a physical page of the same 2 MiB that the large page was
  -- mapped to, which the processor can address, it answers a pointer and changes nothing, and the
  -- address is still mapped to nothing.
  pub remap_large :
      (phys flags : ℕ)
      → p.mapped ≡ true
      → is_present (p.tables p.pml4 (index 3 v)) ≡ true
      → is_present (p.tables (page_of (p.tables p.pml4 (index 3 v))) (index 2 v)) ≡ true
      → is_huge (p.tables (directory p v) (index 1 v)) ≡ true
      → huge_page_of (p.tables (directory p v) (index 1 v)) ≡ huge_page_of phys
      → (leb (2 ^ p.cpu_phys_bits) phys || p.pml4 == 0) ≡ false
      → is_huge flags ≡ false
      → (pager_map (pager_unmap p v) v phys flags ≡ done (true, pager_unmap p v))
        × (resolve (pager_unmap p v) v ≡ none)
  unfolding pager_unmap pager_map map_in descend write path
  remap_large phys flags loaded h3 h2 large page fits small =
      let pdpt = page_of (p.tables p.pml4 (index 3 v)) in
      let pd = directory p v in
      let i = index 1 v in
      let e1 = p.tables pd i in
      let new = clear_present e1 in
      let one : Reaches p.tables p.pml4 v 1 pdpt =
        (p.pml4, refl, h3, (λ e. absurd (omega (arith, e))), refl) in
      let two : Reaches p.tables p.pml4 v 2 pd =
        (pdpt, one, h2, (λ e. absurd (omega (arith, e))), refl) in
      let own2 = Reaches-own own p.tables p.pml4 tree v 2 pd (omega arith) two in
      let own1 = Reaches-own own p.tables p.pml4 tree v 1 pdpt (omega arith) one in
      let top : (p.pml4 == pd) ≡ false =
        above-apart own v 0 2 p.pml4 pd (omega arith) tree.top own2 in
      let mid : (pdpt == pd) ≡ false = above-apart own v 1 2 pdpt pd (omega arith) own1 own2 in
      let huge : is_huge new ≡ true = ground (arith, large) in
      let same : (huge_page_of new == huge_page_of phys) ≡ true = ground (arith, page) in
      let unmapped : pager_unmap p v ≡ drop_entry p pd i = rw (loaded, h3, h2, large) refl in
      let mapped : pager_map (drop_entry p pd i) v phys flags ≡ done (true, drop_entry p pd i) =
        rw (fits, top, h3, mid, h2, small, eq_self pd, eq_self i, huge, same) refl in
      (rw unmapped mapped, (pager_unmap_lem loaded).1)
