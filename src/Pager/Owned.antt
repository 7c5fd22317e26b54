-- ===== src/Pager/Owned.antt =====
-- Kernel/mm/pager.c: tables that form a tree. Each table of the tree has an owner, the indices that
-- lead to it from the PML4, so that no table is reached in two ways.
use mathlib.Core.Path.{subst}
use aos.Base.{ℕ, zero, suc, ◌+◌, ◌-◌, ◌<◌, ◌≤◌, ◌≡◌, refl, sym, ap, ◌∙◌, arith}
use aos.Base.{Bool, true, false, ◌&&◌, ◌==◌, List, [], ◌∷◌, Option, none, some}
use aos.Base.{Bool-cases, inl, inr, length}
use aos.Pager.{Tables, index, is_present, is_huge, page_of}
use aos.Pager.Walk.{walk, path, length-path}

abbrev pub Owners : Type 0
Owners = ℕ → Option (List ℕ)

pub record IsTree (own : Owners) (tables : Tables) (root : ℕ) : Type 0 where
  pub top : own root ≡ some []
  pub child :
      (t i : ℕ) (l : List ℕ)
      → own t ≡ some l
      → length l < 3
      → is_present (tables t i) ≡ true
      → (length l ≡ 2 → is_huge (tables t i) ≡ false)
      → own (page_of (tables t i)) ≡ some (i ∷ l)

-- The table lies `depth` links below the root on the way to `virt`.
abbrev pub Reaches : Tables → (root virt depth table : ℕ) → Type 0
Reaches tables root virt zero t = t ≡ root
Reaches tables root virt (suc d) t =
    (u : ℕ) × Reaches tables root virt d u
    × (is_present (tables u (index (3 - d) virt)) ≡ true)
    × (d ≡ 2 → is_huge (tables u (index (3 - d) virt)) ≡ false)
    × (page_of (tables u (index (3 - d) virt)) ≡ t)

pub some_injective : {a b : List ℕ} → some a ≡ some b → a ≡ b
some_injective e = cc

pub own-apart :
    (own : Owners) (a t : ℕ) (l : List ℕ) → own a ≡ none → own t ≡ some l → (t == a) ≡ false
own-apart own a t l e f = elim (Bool-cases (t == a)) [
  | inl same ↦
      let eq : t ≡ a = ground (arith, same) in absurd (clash (own a) l e (ap own (sym eq) ∙ f))
  | inr apart ↦ apart
]
  where
    clash : (o : Option (List ℕ)) (l : List ℕ) → o ≡ none → o ≡ some l → ⊥
    clash o l e f = cc

not_both : (n : ℕ) (b : Bool) → (n ≡ 0 → b ≡ false) → (n == 0 && b) ≡ false
not_both n b h = elim (Bool-cases (n == 0)) [
  | inl z ↦ rw (z, h (ground (arith, z))) refl
  | inr z ↦ rw z refl
]

module _ (own : Owners) (tables : Tables) (root : ℕ) (tree : IsTree own tables root) where
  pub child-path :
      (n d t w : ℕ)
      → d + suc n ≡ 3
      → own t ≡ some (path d w)
      → is_present (tables t (index (suc n) w)) ≡ true
      → (n ≡ 0 → is_huge (tables t (index (suc n) w)) ≡ false)
      → own (page_of (tables t (index (suc n) w))) ≡ some (path (suc d) w)
  unfolding path
  child-path n d t w e o p q =
      let level : 3 - d ≡ suc n = omega (arith, e) in
      let len = length-path d w in
      rw level (
        tree.child t (index (suc n) w) (path d w) o (omega (arith, len, e)) p
          (λ two. q (omega (arith, len, e, two))))

  pub Reaches-own : (v d t : ℕ) → d ≤ 3 → Reaches tables root v d t → own t ≡ some (path d v)
  unfolding path
  Reaches-own v zero t h r = ap own r ∙ tree.top
  Reaches-own v (suc d) t h (u, r, p, q, e) =
      let o = Reaches-own v d u (omega (arith, h)) r in
      let len = length-path d v in
      ap own (sym e)
      ∙ tree.child u (index (3 - d) v) (path d v) o (omega (arith, len, h)) p
          (λ two. q (omega (arith, len, two)))

  -- Where the entries on the way of an address are the same, so is what it is mapped to.
  pub walk-same :
      (tables' : Tables) (w : ℕ)
      → ((n d t : ℕ)
          → d + n ≡ 3
          → own t ≡ some (path d w)
          → tables' t (index n w) ≡ tables t (index n w))
      → (n d t : ℕ) → d + n ≡ 3
      → own t ≡ some (path d w)
      → walk tables' n t w ≡ walk tables n t w
  unfolding walk
  walk-same tables' w same zero d t e o = rw (same zero d t e o) refl
  walk-same tables' w same (suc n) d t e o =
      rw (same (suc n) d t e o) (elim (Bool-cases (is_present (tables t (index (suc n) w)))) [
        | inr absent ↦ rw absent refl
        | inl p ↦ elim (Bool-cases (n == 0 && is_huge (tables t (index (suc n) w)))) [
          | inl huge ↦ rw (p, huge) refl
          | inr small ↦
              rw (p, small)
                (walk-same tables' w same n (suc d) (page_of (tables t (index (suc n) w)))
                  (omega (arith, e)) (child-path n d t w e o p (λ z. ground (arith, small, z))))
        ]
      ])

  -- What is reached is reached still where the entries of the tables above are the same.
  pub Reaches-same :
      (tables' : Tables) (v d t : ℕ)
      → d ≤ 3
      → ((k u : ℕ)
          → k < d
          → own u ≡ some (path k v)
          → tables' u (index (3 - k) v) ≡ tables u (index (3 - k) v))
      → Reaches tables root v d t
      → Reaches tables' root v d t
  Reaches-same tables' v zero t h same r = r
  Reaches-same tables' v (suc d) t h same (u, r, p, q, e) =
      let o = Reaches-own v d u (omega (arith, h)) r in
      let s = same d u (omega arith) o in
      (
        u,
        Reaches-same tables' v d u (omega (arith, h)) (λ k x l. same k x (omega (arith, l))) r,
        ap is_present s ∙ p,
        λ two. ap is_huge s ∙ q two,
        ap page_of s ∙ e,
      )

-- The walk from the root goes through the tables that are reached.
pub Reaches-walk :
    (tables : Tables) (root v d n t : ℕ)
    → d + n ≡ 3
    → Reaches tables root v d t
    → walk tables 3 root v ≡ walk tables n t v
unfolding walk
Reaches-walk tables root v zero n t e r = let three : n ≡ 3 = omega (arith, e) in rw (three, r) refl
Reaches-walk tables root v (suc d) n t e (u, r, p, q, f) =
    let level : 3 - d ≡ suc n = omega (arith, e) in
    let present : is_present (tables u (index (suc n) v)) ≡ true =
      subst (λ k. is_present (tables u (index k v)) ≡ true) level p in
    let small : (n == 0 && is_huge (tables u (index (suc n) v))) ≡ false =
      not_both n _ (λ z.
        subst (λ k. is_huge (tables u (index k v)) ≡ false) level (q (omega (arith, e, z)))) in
    let below : page_of (tables u (index (suc n) v)) ≡ t =
      subst (λ k. page_of (tables u (index k v)) ≡ t) level f in
    Reaches-walk tables root v d (suc n) u (omega (arith, e)) r ∙ rw (present, small, below) refl
