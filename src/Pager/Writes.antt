-- ===== src/Pager/Writes.antt =====
-- Kernel/mm/pager.c: what a write to one entry of a tree of tables changes, and a new table.
use aos.Base.{ℕ, zero, suc, ◌+◌, ◌-◌, ◌%◌, ◌<◌, ◌≡◌, ◌≢◌, refl, sym, ap, ◌∙◌, arith}
use aos.Base.{Bool, true, false, ◌&&◌, ◌==◌, List, [], ◌∷◌, none, some, if◌then◌else◌}
use aos.Base.{if_cases, Bool-cases, inl, inr, length}
use aos.Pager.{Tables, index, is_present, is_huge, page_of, write, clear, link_to}
use aos.Pager.Walk.{walk, path, length-path}
use aos.Pager.Owned.{Owners, IsTree, walk-same, own-apart, some_injective, child-path}

-- The owners, with another for a new table.
abbrev pub extend : Owners → (table : ℕ) → List ℕ → Owners
extend own a m x = if x == a then some m else own x

pub extend-owned :
    (own : Owners) (a t : ℕ) (m l : List ℕ)
    → own a ≡ none
    → own t ≡ some l
    → extend own a m t ≡ some l
extend-owned own a t m l e o = rw (own-apart own a t l e o) o

-- A table that is cleared maps nothing.
walk-empty : (tables : Tables) (n a w : ℕ) → ((i : ℕ) → tables a i ≡ 0) → walk tables n a w ≡ none
unfolding walk
walk-empty tables zero a w e = rw (e (index 0 w)) refl
walk-empty tables (suc n) a w e = rw (e (index (suc n) w)) refl

module _ (own : Owners) (tables : Tables) (root : ℕ) (tree : IsTree own tables root) where
  -- A new table, which is not in the tree yet.
  pub clear-IsTree :
      (a : ℕ) (m : List ℕ) → own a ≡ none → IsTree (extend own a m) (clear tables a) root
  unfolding clear
  clear-IsTree a m e = record {
    top = extend-owned own a root m [] e tree.top;
    child = λ t i l o h p q. extend-owned own a _ m (i ∷ l) e (go t i l (t == a) o h p q);
  }
    where
      go :
          (t i : ℕ) (l : List ℕ) (c : Bool)
          → (if c then some m else own t) ≡ some l
          → length l < 3
          → is_present (if c then 0 else tables t i) ≡ true
          → (length l ≡ 2 → is_huge (if c then 0 else tables t i) ≡ false)
          → own (page_of (if c then 0 else tables t i)) ≡ some (i ∷ l)
      go t i l true o h p q = absurd cc
      go t i l false o h p q = tree.child t i l o h p q

  pub walk-clear :
      (a n d t w : ℕ)
      → own a ≡ none
      → d + n ≡ 3
      → own t ≡ some (path d w)
      → walk (clear tables a) n t w ≡ walk tables n t w
  unfolding clear
  walk-clear a n d t w e h o =
      walk-same own tables root tree (clear tables a) w
        (λ n d t h o. rw (own-apart own a t (path d w) e o) refl) n d t h o

  module _ (s j : ℕ) (m : List ℕ) (owned : own s ≡ some m) where
    at_entry :
        (n d t w : ℕ)
        → d + n ≡ 3
        → own t ≡ some (path d w)
        → (t == s && index n w == j) ≡ true
        → j ∷ m ≡ path (suc (length m)) w
    unfolding path
    at_entry n d t w h o e =
        let same : t ≡ s = ground (arith, e) in
        let i : index n w ≡ j = ground (arith, e) in
        let p : m ≡ path d w = some_injective (sym owned ∙ ap own (sym same) ∙ o) in
        let len : length m ≡ d = ap length p ∙ length-path d w in
        let level : 3 - d ≡ n = omega (arith, h) in rw (len, level, i) (ap (λ l. j ∷ l) p)

    pub walk-write :
        (e n d t w : ℕ)
        → j ∷ m ≢ path (suc (length m)) w
        → d + n ≡ 3
        → own t ≡ some (path d w)
        → walk (write tables s j e) n t w ≡ walk tables n t w
    unfolding write
    walk-write e n d t w apart h o =
        walk-same own tables root tree (write tables s j e) w
          (λ n d t h o.
            if_cases (λ x. x ≡ tables t (index n w)) (t == s && index n w == j)
              (λ hit. absurd (apart (at_entry n d t w h o hit))) (λ _. refl))
          n d t h o

    pub write-IsTree :
        (e : ℕ)
        → (length m < 3
            → is_present e ≡ true
            → (length m ≡ 2 → is_huge e ≡ false)
            → own (page_of e) ≡ some (j ∷ m))
        → IsTree own (write tables s j e) root
    unfolding write
    write-IsTree e new = record {
      top = tree.top;
      child = λ t i l o h.
          if_cases
            (λ x.
              is_present x ≡ true
              → (length l ≡ 2 → is_huge x ≡ false)
              → own (page_of x) ≡ some (i ∷ l))
            (t == s && i == j)
            (λ hit.
              let same : t ≡ s = ground (arith, hit) in
              let at : i ≡ j = ground (arith, hit) in
              let p : m ≡ l = some_injective (sym owned ∙ ap own (sym same) ∙ o) in
              rw (at, ← p) (new (rw p h)))
            (λ _. tree.child t i l o h);
    }

    -- A table that is linked from an entry that was not present maps nothing yet.
    pub walk-link :
        (a : ℕ)
        → length m < 3
        → is_present (tables s j) ≡ false
        → ((i : ℕ) → tables a i ≡ 0)
        → (a == s) ≡ false
        → page_of a ≡ a
        → (n d t w : ℕ) → d + n ≡ 3
        → own t ≡ some (path d w)
        → walk (write tables s j (link_to a)) n t w ≡ walk tables n t w
    unfolding walk write
    walk-link a short absent zeros apart page zero d t w h o =
        if_cases
          (λ x. (if is_present x then some (page_of x + w % 0x1000) else none) ≡ walk tables 0 t w)
          (t == s && index 0 w == j)
          (λ hit.
            let same : t ≡ s = ground (arith, hit) in
            let p : m ≡ path d w = some_injective (sym owned ∙ ap own (sym same) ∙ o) in
            let len : length m ≡ d = ap length p ∙ length-path d w in
            absurd (omega (arith, len, h, short)))
          (λ _. refl)
    walk-link a short absent zeros apart page (suc n) d t w h o =
        let link = link_to a in
        elim (Bool-cases (t == s && index (suc n) w == j)) [
          | inl hit ↦
              let same : t ≡ s = ground (arith, hit) in
              let at : index (suc n) w ≡ j = ground (arith, hit) in
              let present : is_present link ≡ true = ground arith in
              let small : (n == 0 && is_huge link) ≡ false = ground (arith, page) in
              let target : page_of link ≡ a = omega (arith, page) in
              let none_there : is_present (tables t (index (suc n) w)) ≡ false =
                rw (same, at) absent in
              rw (hit, present, small, target, none_there)
                (walk-empty (write tables s j link) n a w (λ i. rw apart (zeros i)))
          | inr miss ↦ rw miss (elim (Bool-cases (is_present (tables t (index (suc n) w)))) [
            | inr gone ↦ rw gone refl
            | inl p ↦ elim (Bool-cases (n == 0 && is_huge (tables t (index (suc n) w)))) [
              | inl huge ↦ rw (p, huge) refl
              | inr small ↦
                  rw (p, small)
                    (walk-link a short absent zeros apart page n (suc d)
                      (page_of (tables t (index (suc n) w))) w (omega (arith, h))
                      (child-path own tables root tree n d t w h o p
                        (λ z. ground (arith, small, z))))
            ]
          ])
        ]
