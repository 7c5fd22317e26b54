-- ===== src/Avmf/RegionAlloc/First.antt =====
-- Kernel/mm/avmf.c: `avmf_region_alloc` on a region whose cache is empty, which takes the run of
-- addresses from the first range of the free list.
use mathlib.Core.Path.{subst}
use aos.Base.{ℕ, ◌+◌, ◌%◌, ◌^◌, ◌<◌, ◌≤◌, ◌≡◌, ◌≢◌, refl, sym, ap, ◌∙◌, arith}
use aos.Base.{Bool, true, false, not, ◌&&◌, ◌||◌, List, [], ◌∷◌, none, ltb, leb, ◌==◌}
use aos.Base.{length, if_lem, if_cases, Bool-cases, ◌⊎◌, inl, inr, Option-cases}
use aos.Avmf.{Range, Region, usable, uint64_max}
use aos.Avmf.FreeList.{add64}
use aos.Avmf.FreeList.Order.{Ordered, covers}
use aos.Avmf.FreeList.Append.{IsSound}
use aos.Avmf.Headers.{Header, alloc, Space, change, link_header}
use aos.Avmf.RegionAlloc.{Request, Vm, fit, cut_region, take_from, commit}
use aos.Avmf.RegionAlloc.{alloc_from_list, region_alloc, or_list, search_cache, new_header}
use aos.Avmf.RegionAlloc.{alloc_header, alloc_range, free_header, free_range, give_back, is_inner}
use aos.Avmf.RegionAlloc.{with_space}
use aos.Avmf.RegionAlloc.Cut.{cut-Ordered, covers-cut, cut-count}
use aos.Avmf.RegionAlloc.Fit.{Fitting, Fits, fit-Fits}
use aos.Avmf.RegionAlloc.Kept.{data_of, link_header-Kept}

-- The header is the one that was asked for.
pub record Answers (q : Request) (x : Header) : Type 0 where
  pub size : x.size ≡ q.size
  pub aligned : x.virt_addr % q.align ≡ 0
  pub least : q.min_virt ≤ x.virt_addr
  pub most : q.max_virt ≢ 0 → x.virt_addr + q.size ≤ q.max_virt
  pub used : x.used ≡ true

-- The run of addresses was free, and is so no longer; nothing else of the free list has changed,
-- and the run is charged to the region.
pub record IsTaken (r r' : Region) (virt size : ℕ) : Type 0 where
  pub was_free : (a : ℕ) → virt ≤ a → a < virt + size → covers r.free_list a ≡ true
  pub covered :
      (a : ℕ)
      → covers r'.free_list a ≡ (covers r.free_list a && not (leb virt a && ltb a (virt + size)))
  pub order : Ordered 0 r'.free_list
  pub count : r'.free_count ≡ length r'.free_list
  pub charged : r'.allocated_bytes ≡ add64 r.allocated_bytes size

-- NULL, and the region is as it was; or a header for the run that was taken, and the addresses and
-- sizes of all other headers are as they were.
abbrev pub Outcome : Request → Vm → ℕ × Vm → Type 0
Outcome q vm (h, vm') =
    ((h ≡ 0) × (vm'.space.region ≡ vm.space.region))
    ⊎ ((h ≢ 0)
        × Answers q (vm'.space.headers h)
        × IsTaken vm.space.region vm'.space.region (vm'.space.headers h).virt_addr q.size
        × ((a : ℕ) → a ≢ h → data_of (vm'.space.headers a) ≡ data_of (vm.space.headers a)))

-- A header of an allocation is linked on a sound region.
pub link_header-linked :
    (v : Space) (h : ℕ)
    → usable v.region ≡ true
    → h ≢ 0
    → (v.headers h).type ≡ alloc
    → (link_header v h).0 ≡ true
unfolding link_header
link_header-linked v h u n t =
    let here : (h == 0) ≡ false = ground (arith, n) in
    let P : Bool × Space → Type 0 = λ r. r.0 ≡ true in
    let l = v.allocs in
    rw (u, here, t) (if_lem P (l.count == 0 || l.list == 0) refl (if_lem P _ refl refl))

-- The header is linked.
commit-linked :
    (vm : Vm) (h base size : ℕ)
    → usable vm.space.region ≡ true
    → h ≢ 0
    → (vm.space.headers h).type ≡ alloc
    → commit vm h base size ≡ (
      h,
      with_space vm (record ((link_header vm.space h).1) {
        region = record ((link_header vm.space h).1.region) {
          allocated_bytes = add64 (link_header vm.space h).1.region.allocated_bytes size;
        };
      }),
    )
unfolding commit
commit-linked vm h base size u n t = rw (link_header-linked vm.space h u n t) refl

give_back-space :
    (vm : Vm) (cur : Range) (base size : ℕ) → (give_back vm cur base size).space ≡ vm.space
unfolding give_back free_range
give_back-space vm cur base size = if_lem (λ (w : Vm). w.space ≡ vm.space) _ refl refl

module _ (q : Request) (vm : Vm) (cur : Range) (rest : List Range) (base : ℕ)
    (v : IsSound vm.space.region) (pos : 0 < q.size) (fits : Fitting q cur base)
    (list : vm.space.region.free_list ≡ cur ∷ rest) where
  -- The space in which the header is linked.
  abbrev ready : (h at : ℕ) → Space
  ready h at = record (change vm.space h (λ _. new_header base 0 q.size)) {
    region = cut_region vm.space.region cur rest base q.size at;
  }

  landed :
      (w : Vm) (h at : ℕ) → h ≢ 0 → w.space ≡ ready h at → Outcome q vm (commit w h base q.size)
  unfolding cut_region
  landed w h at n e =
      let k = link_header-Kept w.space h in
      let x = (link_header w.space h).1 in
      let here : (h == h) ≡ true = ground arith in
      let new : w.space.headers h ≡ new_header base 0 q.size = rw (e, here) refl in
      let sound : usable w.space.region ≡ true = rw e v.sound in
      let fields : data_of (x.headers h) ≡ data_of (new_header base 0 q.size) =
        k.same h ∙ ap data_of new in
      let virt : (x.headers h).virt_addr ≡ base =
        ap (λ (d : ℕ × ℕ × ℕ × ℕ × ℕ × Bool). d.2) fields in
      let region : x.region ≡ cut_region vm.space.region cur rest base q.size at =
        k.region ∙ ap (λ (s : Space). s.region) e in
      let order : Ordered 0 (cur ∷ rest) = subst (λ l. Ordered 0 l) list v.order in
      let kept_others : (a : ℕ)
          → a ≢ h
          → data_of (w.space.headers a) ≡ data_of (vm.space.headers a) =
        λ a d. let there : (a == h) ≡ false = ground (arith, d) in rw (e, there) refl in
      rw (commit-linked w h base q.size sound n (ap (λ (x : Header). x.type) new)) (
        inr (
          n,
          record {
            size = ap (λ (d : ℕ × ℕ × ℕ × ℕ × ℕ × Bool). d.4) fields;
            aligned = rw virt fits.aligned;
            least = rw virt fits.least;
            most = rw virt fits.most;
            used = ap (λ (d : ℕ × ℕ × ℕ × ℕ × ℕ × Bool). d.5) fields;
          },
          record {
            was_free = rw virt (λ a l g. rw list (ground (arith, fits.low, fits.high)));
            covered =
                rw (virt, region, list)
                  (λ a. covers-cut cur rest base q.size at pos fits.low fits.high 0 a order);
            order = rw region (cut-Ordered cur rest base q.size at pos fits.low fits.high 0 order);
            count = rw region (
                cut-count cur rest base q.size at pos fits.low fits.high vm.space.region
                  (v.count ∙ ap length list) (subst (λ l. length l < uint64_max) list v.bounded));
            charged = rw region refl;
          },
          λ a d. k.same a ∙ kept_others a d,
        ))

  take_from-Outcome : Outcome q vm (take_from vm cur rest base q.size)
  unfolding take_from alloc_header alloc_range free_header
  take_from-Outcome =
      let (h, vm1) = alloc_header vm in
      let vm2 = with_space vm1 (change vm1.space h (λ _. new_header base 0 q.size)) in
      let (at, vm3) = alloc_range vm2 in
      if_cases (Outcome q vm) (h == 0) (λ _. inl (refl, refl))
        (λ n. elim (Bool-cases (is_inner cur base q.size)) [
          | inl inner ↦ rw inner (
              if_cases (Outcome q vm) (at == 0) (λ _. inl (refl, refl))
                (λ _. landed _ h at (ground (arith, n)) (give_back-space _ cur base q.size)))
          | inr outer ↦
              rw outer (landed _ h 0 (ground (arith, n)) (give_back-space _ cur base q.size))
        ])

alloc_from_list-Outcome :
    (q : Request) (vm : Vm) (l : List Range)
    → IsSound vm.space.region
    → 0 < q.size
    → q.min_virt + q.align ≤ 2 ^ 64
    → vm.space.region.free_list ≡ l
    → Outcome q vm (alloc_from_list q vm l)
unfolding alloc_from_list
alloc_from_list-Outcome q vm [] v pos room e = inl (refl, refl)
alloc_from_list-Outcome q vm (cur ∷ rest) v pos room e =
    if_lem (Outcome q vm) (vm.space.region.free_count == 0) (inl (refl, refl))
      (elim (Option-cases (fit q cur)) [
        | inl out ↦ rw out (inl (refl, refl))
        | inr (base, at) ↦ rw at (
            take_from-Outcome q vm cur rest base v pos (subst (Fits q cur) at (fit-Fits q cur room))
              e)
      ])

search-nothing :
    (n : ℕ) (q : Request) (vm : Vm) (c : ℕ) → n ≡ 0 → search_cache n q vm 0 c ≡ (none, vm)
unfolding search_cache
search-nothing n q vm c e = subst (λ m. search_cache m q vm 0 c ≡ (none, vm)) (sym e) refl

region_alloc-list :
    (q : Request) (vm : Vm)
    → usable vm.space.region ≡ true
    → vm.space.caches.count ≡ 0
    → region_alloc q vm ≡ alloc_from_list q vm vm.space.region.free_list
unfolding region_alloc or_list
region_alloc-list q vm u empty =
    rw (u, search-nothing vm.space.caches.count q vm vm.space.caches.list empty) refl

-- On a sound region whose cache is empty, and for a size that is not 0, `avmf_region_alloc` answers
-- NULL and leaves the region as it was, or it answers a header of the size, the alignment and
-- within the bounds that were asked for: its addresses were free and are so no longer, the free
-- list stays in order and its count right, nothing else of it changes, the bytes are charged to the
-- region, and no other header's data change. The least address and the alignment together do not
-- exceed 2 ^ 64.
pub region_alloc_lem :
    (q : Request) (vm : Vm)
    → IsSound vm.space.region
    → vm.space.caches.count ≡ 0
    → 0 < q.size
    → q.min_virt + q.align ≤ 2 ^ 64
    → Outcome q vm (region_alloc q vm)
region_alloc_lem q vm v empty pos room =
    rw (region_alloc-list q vm v.sound empty)
      (alloc_from_list-Outcome q vm vm.space.region.free_list v pos room refl)

-- On a sound region whose cache is empty, a request that the first free range does not fit is
-- answered with NULL, whatever other ranges are free.
pub only_first :
    (q : Request) (vm : Vm) (cur : Range) (rest : List Range)
    → usable vm.space.region ≡ true
    → vm.space.caches.count ≡ 0
    → vm.space.region.free_list ≡ cur ∷ rest
    → fit q cur ≡ none
    → region_alloc q vm ≡ (0, vm)
unfolding alloc_from_list
only_first q vm cur rest u empty e out =
    rw (region_alloc-list q vm u empty, ap (alloc_from_list q vm) e, out)
      (if_lem (λ (r : ℕ × Vm). r ≡ (0, vm)) (vm.space.region.free_count == 0) refl refl)
