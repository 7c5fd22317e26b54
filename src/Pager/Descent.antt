-- ===== src/Pager/Descent.antt =====
-- Kernel/mm/pager.c: the way of `pager_map` down the tables, which are made where they are missing.
use aos.Base.{ℕ, zero, suc, ◌-◌, ◌<◌, ◌≡◌, refl, sym, ap, ◌∙◌, arith}
use aos.Base.{true, false, ◌==◌, List, ◌∷◌, Option, none, some}
use aos.Base.{Bool-cases, inl, inr, length, Ends}
use aos.Pager.{Pager, Source, alloc_page_table, attach_new, descend, index, is_present, is_huge}
use aos.Pager.{page_of, write, clear, link_to}
use aos.Pager.Walk.{resolve, path, length-path}
use aos.Pager.Owned.{Owners, IsTree, Reaches, Reaches-own, Reaches-same, own-apart, some_injective}
use aos.Pager.Writes.{extend, extend-owned, clear-IsTree, walk-clear, write-IsTree, walk-link}

-- A table is given: it starts a page and is not in the tree, and more follows.
abbrev pub Given : (Owners → Source → Type 0) → Owners → Option ℕ × Source → Type 0
Given More own (none, s) = ⊥
Given More own (some a, s) =
    (own a ≡ none) × (page_of a ≡ a) × ((m : List ℕ) → More (extend own a m) s)

-- The source gives `n` tables.
abbrev pub Stocked : ℕ → Owners → Source → Type 0
Stocked zero own s = Unit {0}
Stocked (suc n) own s = Given (Stocked n) own (alloc_page_table s)

Given-less :
    (P Q : Owners → Source → Type 0) (own : Owners) (r : Option ℕ × Source)
    → ((o : Owners) (s : Source) → P o s → Q o s)
    → Given P own r
    → Given Q own r
Given-less P Q own (none, s) f g = g
Given-less P Q own (some a, s) f (e, p, more) = (e, p, λ m. f (extend own a m) s (more m))

Stocked-less : (n : ℕ) (own : Owners) (s : Source) → Stocked (suc n) own s → Stocked n own s
Stocked-less zero own s h = tt
Stocked-less (suc n) own s h =
    Given-less (Stocked (suc n)) (Stocked n) own (alloc_page_table s) (Stocked-less n) h

-- On the way to `v`, from the tables of `start`: at a table `d` links below the root, with `k`
-- tables to be had, and no address is mapped otherwise than at the start.
pub record At (start : Pager) (v k d : ℕ) (own : Owners) (t : ℕ) (p : Pager) : Type 0 where
  pub tree : IsTree own p.tables p.pml4
  pub reach : Reaches p.tables p.pml4 v d t
  pub same : (w : ℕ) → resolve p w ≡ resolve start w
  pub stock : Stocked k own p.source

pub eq_self : (a : ℕ) → (a == a) ≡ true
eq_self a = ground arith

-- A table above is another one.
pub above-apart :
    (own : Owners) (v k d u t : ℕ)
    → k < d
    → own u ≡ some (path k v)
    → own t ≡ some (path d v)
    → (u == t) ≡ false
above-apart own v k d u t h o e = elim (Bool-cases (u == t)) [
  | inr apart ↦ apart
  | inl same ↦
      let eq : u ≡ t = ground (arith, same) in
      let p = some_injective (sym o ∙ ap own eq ∙ e) in
      let len = sym (length-path k v) ∙ ap length p ∙ length-path d v in
      absurd (omega (arith, len, h))
]

module _ (start : Pager) (v k d : ℕ) (own : Owners) (t : ℕ) (p : Pager) (short : d < 3)
    (here : At start v (suc k) d own t p) where
  i : ℕ
  i = index (3 - d) v

  owned : own t ≡ some (path d v)
  owned = Reaches-own own p.tables p.pml4 here.tree v d t (omega (arith, short)) here.reach

  attach_new-At :
      (r : Option ℕ × Source)
      → Given (Stocked k) own r
      → is_present (p.tables t (index (3 - d) v)) ≡ false
      → Ends
          (attach_new p t (index (3 - d) v) r)
          (λ (t', p'). (own' : Owners) × At start v k (suc d) own' t' p')
  unfolding path clear write resolve
  attach_new-At (none, s) g absent = g
  attach_new-At (some a, s) (new, page, more) absent =
      let j = index (3 - d) v in
      let m = path d v in
      let root = p.pml4 in
      let own' = extend own a (j ∷ m) in
      let cleared = clear p.tables a in
      let len = length-path d v in
      let tree1 = clear-IsTree own p.tables root here.tree a (j ∷ m) new in
      let owned1 : own' t ≡ some m = extend-owned own a t (j ∷ m) m new owned in
      let t-a : (t == a) ≡ false = own-apart own a t m new owned in
      let a-t : (a == t) ≡ false = ground (arith, t-a) in
      let target : page_of (link_to a) ≡ a = omega (arith, page) in
      let present : is_present (link_to a) ≡ true = ground arith in
      let tree2 =
        write-IsTree own' cleared root tree1 t j m owned1 (link_to a)
          (λ h q small. rw (target, eq_self a) refl) in
      let entry : write cleared t j (link_to a) t j ≡ link_to a = rw (eq_self t, eq_self j) refl in
      (
        own',
        record {
          tree = tree2;
          reach = (
            t,
            Reaches-same own p.tables root here.tree (write cleared t j (link_to a)) v d t
                (omega (arith, short))
                (λ k u h o.
                  rw (above-apart own v k d u t h o owned, own-apart own a u (path k v) new o) refl)
                here.reach,
            ap is_present entry ∙ present,
            (λ two. ap is_huge entry ∙ ground (arith, page)),
            ap page_of entry ∙ target,
          );
          same = λ w.
              walk-link own' cleared root tree1 t j m owned1 a (omega (arith, len, short))
                (rw t-a absent) (λ i. rw (eq_self a) refl) a-t page 3 0 root w refl tree1.top
              ∙ walk-clear own p.tables root here.tree a 3 0 root w new refl here.tree.top
              ∙ here.same w;
          stock = more (j ∷ m);
        },
      )

  pub descend-At :
      (d ≡ 2 → is_huge (p.tables t (index (3 - d) v)) ≡ false)
      → Ends
          (descend p t (index (3 - d) v))
          (λ (t', p'). (own' : Owners) × At start v k (suc d) own' t' p')
  unfolding descend
  descend-At small = elim (Bool-cases (is_present (p.tables t (index (3 - d) v)))) [
    | inl present ↦ rw present (
      own,
      record {
        tree = here.tree;
        reach = (t, here.reach, present, small, refl);
        same = here.same;
        stock = Stocked-less k own p.source here.stock;
      },
    )
    | inr absent ↦ rw absent (attach_new-At (alloc_page_table p.source) here.stock absent)
  ]
