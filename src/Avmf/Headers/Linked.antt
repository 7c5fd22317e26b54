-- ===== src/Avmf/Headers/Linked.antt =====
-- Kernel/mm/avmf.c: `avmf_link_header` and `avmf_unlink_header` on lists whose headers are sound.
use aos.Base.{ℕ, zero, suc, ◌+◌, ◌≡◌, ◌≢◌, refl, sym, ap, arith, Bool, true, false, ◌||◌}
use aos.Base.{List, [], ◌∷◌, ◌==◌, if◌then◌else◌}
use aos.Avmf.{usable}
use aos.Avmf.Headers.{
  Header, alloc, Space, set_count, attach, change, is_bad, reset_list, link_header,
}

-- The addresses of the headers from `a` on, by their `next`, as far as `n` of them.
abbrev pub chain : (ℕ → Header) → ℕ → ℕ → List ℕ
chain headers zero a = []
chain headers (suc n) a =
    let rest = chain headers n (headers a).next in if a == 0 then [] else a ∷ rest

-- A header that `avmf_link_header` puts into the list of allocations.
pub record IsNew (v : Space) (h : ℕ) : Type 0 where
  pub present : h ≢ 0
  pub sound : is_bad (v.headers h) ≡ false
  pub kind : (v.headers h).type ≡ alloc

cleared : Space → ℕ → Space
cleared v h = change v h (λ x. record x { next = 0; parent = 0 })

-- The first header of a list that is empty.
link-first :
    (v : Space) (h : ℕ)
    → usable v.region ≡ true
    → IsNew v h
    → v.allocs.count ≡ 0
    → link_header v h ≡ (true, reset_list alloc (cleared v h) h)
unfolding link_header cleared
link-first v h u n e =
    let here : (h == 0) ≡ false = ground (arith, n.present) in
    let empty : (v.allocs.count == 0) ≡ true = ground arith in rw (u, here, n.kind, empty) refl

-- A header behind the one that the list calls its end.
link-behind :
    (v : Space) (h : ℕ)
    → usable v.region ≡ true
    → IsNew v h
    → v.allocs.count ≢ 0
    → v.allocs.list ≢ 0
    → IsNew v v.allocs.end
    → h ≢ v.allocs.end
    → link_header v h
      ≡ (true, attach (set_count alloc (cleared v h) (v.allocs.count + 1)) v.allocs.end h)
unfolding link_header cleared
link-behind v h u n some_count some_list last apart =
    let here : (h == 0) ≡ false = ground (arith, n.present) in
    let full : (v.allocs.count == 0 || v.allocs.list == 0) ≡ false =
      ground (arith, some_count, some_list) in
    let end : (v.allocs.end == 0) ≡ false = ground (arith, last.present) in
    let other : (v.allocs.end == h) ≡ false = ground (arith, apart) in
    rw (u, here, n.kind, full, end, other, last.sound, last.kind) refl

chain_two :
    (headers : ℕ → Header) (a c : ℕ)
    → a ≢ 0
    → c ≢ 0
    → (headers a).next ≡ c
    → (headers c).next ≡ 0
    → chain headers 4 a ≡ a ∷ c ∷ []
chain_two headers a c na nc e f =
    let here : (a == 0) ≡ false = ground (arith, na) in
    let there : (c == 0) ≡ false = ground (arith, nc) in rw (here, e, there, f) refl

-- The space after `avmf_link_header`.
abbrev pub link : Space → ℕ → Space
link v h = (link_header v h).1

abbrev first : Space → ℕ → Space
first v a = reset_list alloc (cleared v a) a

abbrev behind : Space → ℕ → Space
behind v h = attach (set_count alloc (cleared v h) (v.allocs.count + 1)) v.allocs.end h

module _ (v : Space) (a b c : ℕ) (u : usable v.region ≡ true) (na : IsNew v a) (nb : IsNew v b)
    (nc : IsNew v c) (ab : a ≢ b) (ac : a ≢ c) (bc : b ≢ c) (empty : v.allocs.count ≡ 0) where
  b-a : (b == a) ≡ false
  b-a = ground (arith, ab)

  c-a : (c == a) ≡ false
  c-a = ground (arith, ac)

  c-b : (c == b) ≡ false
  c-b = ground (arith, bc)

  a-a : (a == a) ≡ true
  a-a = ground arith

  one_linked : link v a ≡ first v a
  one_linked = ap (λ (r : Bool × Space). r.1) (link-first v a u na empty)

  two_linked : link (first v a) b ≡ behind (first v a) b
  unfolding cleared
  two_linked =
      ap (λ (r : Bool × Space). r.1)
        (link-behind (first v a) b u
          (record { present = nb.present; sound = rw b-a nb.sound; kind = rw b-a nb.kind })
          (omega arith) na.present
          (record { present = na.present; sound = rw a-a na.sound; kind = rw a-a na.kind })
          (λ e. ab (sym e)))

  three_linked : link (behind (first v a) b) c ≡ behind (behind (first v a) b) c
  unfolding cleared
  three_linked =
      ap (λ (r : Bool × Space). r.1)
        (link-behind (behind (first v a) b) c u
          (record {
            present = nc.present;
            sound = ground (arith, nc.sound, ac, bc);
            kind = ground (arith, nc.kind, ac, bc);
          })
          (omega arith) na.present
          (record {
            present = na.present;
            sound = ground (arith, na.sound, ab);
            kind = ground (arith, na.kind, ab);
          })
          (λ e. ac (sym e)))

  next_first : ((behind (behind (first v a) b) c).headers a).next ≡ c
  unfolding cleared
  next_first = ground (arith, ac)

  next_third : ((behind (behind (first v a) b) c).headers c).next ≡ 0
  unfolding cleared
  next_third = ground (arith, ac)

  -- Of three headers that are linked into an empty list, the list holds the first and the third,
  -- and its count says three: `avmf_link_header` never moves the end of a list that is not empty.
  pub link_drops :
      ((link (link (link v a) b) c).allocs.count ≡ 3)
      × (chain (link (link (link v a) b) c).headers 4 (link (link (link v a) b) c).allocs.list
          ≡ a ∷ c ∷ [])
  unfolding cleared
  link_drops =
      rw (one_linked, two_linked, three_linked)
        (
          refl,
          chain_two (behind (behind (first v a) b) c).headers a c na.present nc.present next_first
              next_third,
        )
