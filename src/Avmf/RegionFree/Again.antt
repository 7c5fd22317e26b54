-- ===== src/Avmf/RegionFree/Again.antt =====
-- Kernel/mm/avmf.c: an allocation that `avmf_region_free` puts into an empty cache, and the next
-- `avmf_region_alloc` of its size.
use mathlib.Core.Path.{subst}
use aos.Base.{ℕ, zero, suc, ◌+◌, ◌-◌, ◌%◌, ◌<◌, ◌≤◌, ◌≡◌, ◌≢◌, refl, sym, ap, ◌∙◌, arith}
use aos.Base.{Bool, true, false, not, ◌&&◌, ◌||◌, Option, none, some, ltb, ◌==◌}
use aos.Base.{if_lem}
use aos.Avmf.{usable, uint64_max, align4k, avmf_signature, avmf_version}
use aos.Avmf.Headers.{Header, cache, alloc, Space, change, set_type, is_bad, same_type}
use aos.Avmf.Headers.{is_corrupt, reset_list, unlinked}
use aos.Avmf.Headers.{detach_next, detach_parent, unlink_header, link_header}
use aos.Avmf.RegionAlloc.{Request, Vm, with_space, out_of_bounds, take_whole, search_cache, or_skip}
use aos.Avmf.RegionAlloc.{region_alloc, or_list}
use aos.Avmf.RegionAlloc.Kept.{Kept, data_of, link_header-Kept, unlink_header-Kept}
use aos.Avmf.RegionAlloc.First.{link_header-linked}
use aos.Avmf.RegionFree.{to_cache, release, free_loop, region_free}

-- A header that is taken from the list of allocations leaves the cache alone.
detach-caches : (v : Space) (n p : ℕ) → (detach_parent (detach_next v n p) p).0.caches ≡ v.caches
detach-caches v n p =
    let P : Space × ℕ × Bool → Type 0 = λ r. r.0.caches ≡ v.caches in
    behind (detach_next v n p) (if_lem P (n == 0) refl (if_lem P (is_bad (v.headers n)) refl refl))
  where
    behind :
        (r : Space × ℕ × Bool) → r.0.caches ≡ v.caches → (detach_parent r p).0.caches ≡ v.caches
    behind (w, m, poisoned) e =
        let Q : Space × Bool → Type 0 = λ r. r.0.caches ≡ v.caches in
        if_lem Q (p == 0) e
          (if_lem Q (not (is_bad (w.headers p))) e (if_lem Q (not poisoned && not (m == 0)) e e))

unlinked-caches : (h : ℕ) (r : Space × Bool) → (unlinked alloc h r).caches ≡ r.0.caches
unlinked-caches h (v, true) = refl
unlinked-caches h (v, false) = refl

unlink_header-caches :
    (v : Space) (h : ℕ) → (v.headers h).type ≡ alloc → (unlink_header v h).caches ≡ v.caches
unfolding unlink_header
unlink_header-caches v h t =
    let x = v.headers h in
    let P : Space → Type 0 = λ w. w.caches ≡ v.caches in
    rw t (
      if_lem P (h == 0 || not (usable v.region)) refl (
        if_lem P (v.allocs.count == 0) refl (
          unlinked-caches h (detach_parent (detach_next v x.next x.parent) x.parent)
          ∙ detach-caches v x.next x.parent)))

link_header-cached :
    (v : Space) (h : ℕ)
    → usable v.region ≡ true
    → h ≢ 0
    → (v.headers h).type ≡ cache
    → v.caches.count ≡ 0
    → link_header v h
      ≡ (true, reset_list cache (change v h (λ x. record x { next = 0; parent = 0 })) h)
unfolding link_header
link_header-cached v h u n t e =
    let here : (h == 0) ≡ false = ground (arith, n) in
    let empty : (v.caches.count == 0) ≡ true = ground (arith, e) in rw (u, here, t, empty) refl

abbrev bad_of : ℕ → ℕ → Bool
bad_of signature version = not (signature == avmf_signature) || not (version == avmf_version)

-- A sound region whose cache has the one header.
pub record HoldsOne (v : Space) (h : ℕ) : Type 0 where
  pub sound : usable v.region ≡ true
  pub list : v.caches.list ≡ h
  pub count : v.caches.count ≡ 1
  pub kind : (v.headers h).type ≡ cache
  pub good : is_bad (v.headers h) ≡ false

-- The header is handed out with the data that it has.
abbrev pub Handed : Header → ℕ → Space → Option ℕ × Vm → Type 0
Handed x h v (o, w) =
    (o ≡ some h)
    × (w.space.region ≡ v.region)
    × (data_of (w.space.headers h)
        ≡ (x.signature, x.version, x.virt_addr, x.phys_addr, x.size, true))
    × (same_type (w.space.headers h).type cache ≡ false)

take_whole-Handed :
    (vm : Vm) (h : ℕ)
    → h ≢ 0
    → usable vm.space.region ≡ true
    → Handed (vm.space.headers h) h vm.space (take_whole vm h)
unfolding take_whole
take_whole-Handed vm h n u =
    let here : (h == h) ≡ true = ground arith in
    let k = unlink_header-Kept vm.space h in
    let v = change (unlink_header vm.space h) h (set_type alloc) in
    let l = link_header-Kept v h in
    let set : data_of (v.headers h) ≡ data_of (vm.space.headers h) = rw here (k.same h) in
    let fields : data_of ((link_header v h).1.headers h) ≡ data_of (vm.space.headers h) =
      l.same h ∙ set in
    rw (link_header-linked v h (rw k.region u) n (rw here refl)) (
      refl,
      l.region ∙ k.region,
      rw here (ap (λ (d : ℕ × ℕ × ℕ × ℕ × ℕ × Bool). (d.0, d.1, d.2, d.3, d.4, true)) fields),
      rw here (l.uncached h (rw here refl)),
    )

search-Handed :
    (q : Request) (vm : Vm) (h : ℕ)
    → h ≢ 0
    → HoldsOne vm.space h
    → out_of_bounds q (vm.space.headers h) ≡ false
    → (vm.space.headers h).size ≡ q.size
    → (vm.space.headers h).virt_addr % q.align ≡ 0
    → Handed (vm.space.headers h) h vm.space (search_cache 1 q vm 0 h)
unfolding search_cache
search-Handed q vm h n c out same aligned =
    let there : (h == 0) ≡ false = ground (arith, n) in
    let some_count : ltb 0 vm.space.caches.count ≡ true = ground (arith, c.count) in
    let sizes : ((vm.space.headers h).size == q.size) ≡ true = ground (arith, same) in
    let multiple : ((vm.space.headers h).virt_addr % q.align == 0) ≡ true =
      ground (arith, aligned) in
    let kind : (is_corrupt (vm.space.headers h).type
          || (not (same_type (vm.space.headers h).type cache) || is_bad (vm.space.headers h)))
        ≡ false =
      rw (c.kind, c.good) refl in
    rw (some_count, there, kind, out, sizes, multiple)
      (handed (take_whole vm h) _ (take_whole-Handed vm h n c.sound))
  where
    handed :
        (r : Option ℕ × Vm) (skip : Vm → Option ℕ × Vm)
        → Handed (vm.space.headers h) h vm.space r
        → Handed (vm.space.headers h) h vm.space (or_skip r skip)
    handed (some a, w) skip e = e
    handed (none, w) skip (e, f, g, i) = absurd cc

or_list-Handed :
    (q : Request) (x : Header) (h : ℕ) (v : Space) (r : Option ℕ × Vm)
    → Handed x h v r
    → ((or_list q r).0 ≡ h)
      × ((or_list q r).1.space.region ≡ v.region)
      × (data_of ((or_list q r).1.space.headers h)
          ≡ (x.signature, x.version, x.virt_addr, x.phys_addr, x.size, true))
      × (same_type ((or_list q r).1.space.headers h).type cache ≡ false)
unfolding or_list
or_list-Handed q x h v (some a, w) (e, f, g, i) = (some_injective e, f, g, i)
  where
    some_injective : {a b : ℕ} → some a ≡ some b → a ≡ b
    some_injective e = cc
or_list-Handed q x h v (none, w) (e, f, g, i) = absurd cc

region_alloc-cached :
    (q : Request) (vm : Vm) (h : ℕ)
    → HoldsOne vm.space h
    → region_alloc q vm ≡ or_list q (search_cache 1 q vm 0 h)
unfolding region_alloc
region_alloc-cached q vm h c = rw c.sound (
    ap (λ (n : ℕ). or_list q (search_cache n q vm 0 vm.space.caches.list)) c.count
    ∙ ap (λ (a : ℕ). or_list q (search_cache 1 q vm 0 a)) c.list)

module _ (vm : Vm) (h base size : ℕ) (u : usable vm.space.region ≡ true) (n : h ≢ 0)
    (sound : is_bad (vm.space.headers h) ≡ false) (kind : (vm.space.headers h).type ≡ alloc)
    (at : (vm.space.headers h).virt_addr ≡ base) (bytes : (vm.space.headers h).size ≡ size)
    (large : 0x200 < size) (whole : align4k size ≡ size) (fit : base + size ≤ uint64_max)
    (first : vm.space.allocs.list ≡ h) (some_count : vm.space.allocs.count ≢ 0)
    (empty : vm.space.caches.count ≡ 0) where
  -- The space with the header out of its list, and then in the cache.
  abbrev out_of_list : Space
  out_of_list = change (unlink_header vm.space h) h (set_type cache)

  abbrev cached : Space
  cached =
      change (reset_list cache (change out_of_list h (λ x. record x { next = 0; parent = 0 })) h) h
        (λ x. record x { type = cache; used = false })

  here : (h == h) ≡ true
  here = ground arith

  there : (h == 0) ≡ false
  there = ground (arith, n)

  kept : Kept vm.space (unlink_header vm.space h)
  kept = unlink_header-Kept vm.space h

  to_cache-cached : to_cache vm h ≡ (true, with_space vm cached)
  unfolding to_cache
  to_cache-cached =
      rw
        (link_header-cached out_of_list h (rw kept.region u) n (rw here refl)
          (rw (unlink_header-caches vm.space h kind) empty))
        refl

  free_loop-first : (m : ℕ) → m ≢ 0 → free_loop m vm base size 0 h ≡ with_space vm cached
  unfolding free_loop release
  free_loop-first zero e = elim (e refl) [ ]
  free_loop-first (suc m) e =
      let counted : ltb 0 vm.space.allocs.count ≡ true = ground (arith, some_count) in
      let right : (not ((vm.space.headers h).virt_addr == base)
            || not ((vm.space.headers h).size == size))
          ≡ false =
        ground (arith, at, bytes) in
      let big : ltb 0x200 (vm.space.headers h).size ≡ true = ground (arith, bytes, large) in
      rw (counted, there, kind, sound, right, big, to_cache-cached) refl

  region_free-cached : region_free vm base size ≡ with_space vm cached
  unfolding region_free
  region_free-cached =
      let nonzero : (size == 0) ≡ false = ground (arith, large) in
      let room : ltb (uint64_max - size) base ≡ false = ground (arith, fit) in
      let counted : (vm.space.allocs.count == 0) ≡ false = ground (arith, some_count) in
      let listed : (vm.space.allocs.list == 0) ≡ false = ground (arith, first, n) in
      rw (u, whole, nonzero, room, counted, listed)
        (subst (λ c. free_loop vm.space.allocs.count vm base size 0 c ≡ with_space vm cached)
          (sym first) (free_loop-first vm.space.allocs.count some_count))

  -- The fields of the header in the cache.
  fields : data_of (cached.headers h) ≡ (
    (vm.space.headers h).signature,
    (vm.space.headers h).version,
    (vm.space.headers h).virt_addr,
    (vm.space.headers h).phys_addr,
    (vm.space.headers h).size,
    false,
  )
  fields =
      rw here
        (ap (λ (d : ℕ × ℕ × ℕ × ℕ × ℕ × Bool). (d.0, d.1, d.2, d.3, d.4, false)) (kept.same h))

  pub cached-HoldsOne : HoldsOne cached h
  cached-HoldsOne = record {
    sound = rw kept.region u;
    list = refl;
    count = refl;
    kind = rw here refl;
    good = ap (λ (d : ℕ × ℕ × ℕ × ℕ × ℕ × Bool). bad_of d.0 d.1) fields ∙ sound;
  }

  pub region_free-region : (region_free vm base size).space.region ≡ vm.space.region
  region_free-region = ap (λ (w : Vm). w.space.region) region_free-cached ∙ kept.region

  -- The next allocation of the size, with the type of the header that it answers.
  handed_again :
      (q : Request)
      → q.size ≡ size
      → base % q.align ≡ 0
      → out_of_bounds q (vm.space.headers h) ≡ false
      → ((region_alloc q (region_free vm base size)).0 ≡ h)
        × ((region_alloc q (region_free vm base size)).1.space.region ≡ vm.space.region)
        × (data_of ((region_alloc q (region_free vm base size)).1.space.headers h) ≡ (
          (vm.space.headers h).signature,
          (vm.space.headers h).version,
          (vm.space.headers h).virt_addr,
          (vm.space.headers h).phys_addr,
          (vm.space.headers h).size,
          true,
        ))
        × (same_type ((region_alloc q (region_free vm base size)).1.space.headers h).type cache
            ≡ false)
  handed_again q e a b =
      let same : (cached.headers h).size ≡ q.size =
        ap (λ (d : ℕ × ℕ × ℕ × ℕ × ℕ × Bool). d.4) fields ∙ bytes ∙ sym e in
      let virt : (cached.headers h).virt_addr ≡ (vm.space.headers h).virt_addr =
        ap (λ (d : ℕ × ℕ × ℕ × ℕ × ℕ × Bool). d.2) fields in
      let aligned : (cached.headers h).virt_addr % q.align ≡ 0 = rw (virt, at) a in
      let bounds : out_of_bounds q (cached.headers h) ≡ false = rw virt b in
      let found = search-Handed q (with_space vm cached) h n cached-HoldsOne bounds same aligned in
      let all =
        or_list-Handed q (cached.headers h) h cached (search_cache 1 q (with_space vm cached) 0 h)
          found in
      rw (region_free-cached, region_alloc-cached q (with_space vm cached) h cached-HoldsOne)
        (
          all.0,
          all.1 ∙ kept.region,
          all.2 ∙ ap (λ (d : ℕ × ℕ × ℕ × ℕ × ℕ × Bool). (d.0, d.1, d.2, d.3, d.4, true)) fields,
          all.3,
        )

  pub region_alloc-free_uncached :
      (q : Request)
      → q.size ≡ size
      → base % q.align ≡ 0
      → out_of_bounds q (vm.space.headers h) ≡ false
      → same_type ((region_alloc q (region_free vm base size)).1.space.headers h).type cache ≡ false
  region_alloc-free_uncached q e a b = (handed_again q e a b).3

  -- An allocation that `avmf_region_free` puts into an empty cache: the header stands at the start
  -- of the list of allocations and is sound, its size is a multiple of a page, and the region is
  -- sound. The next `avmf_region_alloc` of its size, with an alignment and bounds that its address
  -- meets, answers the same header, with the virtual and the physical address that it had, and the
  -- free list and the bytes that are charged are as they were before both.
  pub region_alloc-free :
      (q : Request)
      → q.size ≡ size
      → base % q.align ≡ 0
      → out_of_bounds q (vm.space.headers h) ≡ false
      → ((region_alloc q (region_free vm base size)).0 ≡ h)
        × ((region_alloc q (region_free vm base size)).1.space.region ≡ vm.space.region)
        × (data_of ((region_alloc q (region_free vm base size)).1.space.headers h) ≡ (
          (vm.space.headers h).signature,
          (vm.space.headers h).version,
          (vm.space.headers h).virt_addr,
          (vm.space.headers h).phys_addr,
          (vm.space.headers h).size,
          true,
        ))
  region_alloc-free q e a b = let all = handed_again q e a b in (all.0, all.1, all.2)
