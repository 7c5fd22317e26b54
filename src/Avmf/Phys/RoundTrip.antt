-- ===== src/Avmf/Phys/RoundTrip.antt =====
-- Kernel/mm/avmf.c: giving physical pages back undoes their allocation.
use aos.Base.{ℕ, ◌-◌, ◌/◌, ◌^◌, ◌≤◌, ◌<◌, ◌≡◌, ◌≢◌, ◌∙◌, arith}
use aos.Base.{true, inl, inr, ◌==◌, done, Ends, Ends-map, All}
use aos.Base.{Bool-cases}
use mathlib.Core.Path.{subst}
use aos.Avmf.{page_size}
use aos.Avmf.Bitmap.{used}
use aos.Avmf.Bitmap.Laws.{IsBytes}
use aos.Avmf.Phys.{
  Phys, alloc_phys_page, free_phys_page, alloc_phys_contiguous, free_phys_contiguous,
}
use aos.Avmf.Phys.Sets.{
  Fits, SameButCounts, manages, manages-same, run_fits-manages, run_fits-same, Fits-same,
}
use aos.Avmf.Phys.Runs.{in_run}
use aos.Avmf.Phys.Alloc.{Allocated, Took, alloc_phys_page_lem}
use aos.Avmf.Phys.Free.{Gave, free_phys_page_lem}
use aos.Avmf.Phys.AllocRun.{AllocatedRun, TookRun, pages_of, alloc_phys_contiguous_lem}
use aos.Avmf.Phys.FreeRun.{FreedRun, free_phys_contiguous_lem}

-- The two states have the same pages taken and the same regions but for the counts of bytes.
abbrev pub Restored : Phys → Phys → Type 0
Restored s t = ((q : ℕ) → used t.bitmap q ≡ used s.bitmap q) × SameButCounts s.regions t.regions

module _ (s : Phys) (h : IsBytes s.bitmap) (fits : All Fits s.regions) where
  Took-Gave :
      (p : ℕ) (s' s'' : Phys)
      → Took s.regions s.bitmap p s'.regions s'.bitmap
      → Gave s'.regions s'.bitmap p s''.regions s''.bitmap
      → Restored s s''
  Took-Gave p s' s'' t g = (
    λ q. elim (Bool-cases (q == p)) [
      | inl e ↦
          let e' : q ≡ p = ground arith in
          let m : manages s'.regions p ≡ true =
            manages-same s.regions s'.regions t.same_regions p
            ∙ run_fits-manages s.regions p t.room in
          rw e' (ground (arith, g.clears p, t.was_free))
      | inr e ↦ ground (arith, g.clears q, t.marks q)
    ],
    g.same_regions ∙ t.same_regions,
  )

  TookRun-Released :
      (p n : ℕ) (s' s'' : Phys)
      → 0 < n
      → TookRun s.regions s.bitmap n p s'.regions s'.bitmap
      → FreedRun s'.regions s'.bitmap p n s''.regions s''.bitmap
      → Restored s s''
  TookRun-Released p n s' s'' pos t (inl g) = (
    λ q. elim (Bool-cases (in_run p n q)) [
      | inl e ↦ ground (arith, g.clears q, t.was_free q (ground arith) (ground arith))
      | inr e ↦ ground (arith, g.clears q, t.marks q)
    ],
    g.same_regions ∙ t.same_regions,
  )
  TookRun-Released p n s' s'' pos t (inr g) =
      let room = run_fits-same s.regions s'.regions t.same_regions p n ∙ t.room in
      let (q, lo, hi, free) = g.reason room in absurd (ground (arith, t.marks q))

  -- `avmf_free_phys_page` on an address that `avmf_alloc_phys_page` returned, if it is not 0,
  -- ends without a fault and leaves the pages taken that were taken before the allocation.
  pub free-alloc_page :
      (a : ℕ) (s' : Phys)
      → alloc_phys_page s ≡ done (a, s')
      → a ≢ 0
      → Ends (free_phys_page s' a) (Restored s)
  free-alloc_page a s' e pos =
      elim (subst (λ m. Ends m (Allocated s)) e (alloc_phys_page_lem s h fits)) [
        | inr (zero_a, full) ↦ absurd (pos zero_a)
        | inl (p, at, t) ↦
            let page : a / page_size ≡ p = omega arith in
            Ends-map (free_phys_page s' a)
              (λ s'' g.
                Took-Gave p s' s'' t
                  (subst (λ i. Gave s'.regions s'.bitmap i s''.regions s''.bitmap) page g))
              (free_phys_page_lem s' a t.bytes (Fits-same s.regions s'.regions t.same_regions fits))
      ]

  -- `avmf_free_phys_contiguous` on an address that `avmf_alloc_phys_contiguous` returned for the
  -- same size, if it is not 0, ends without a fault and leaves the pages taken that were taken
  -- before the allocation.
  pub free-alloc_contiguous :
      (size a : ℕ) (s' : Phys)
      → 0 < size
      → size ≤ 2 ^ 64 - page_size
      → alloc_phys_contiguous s size ≡ done (a, s')
      → a ≢ 0
      → Ends (free_phys_contiguous s' a size) (Restored s)
  free-alloc_contiguous size a s' big small e pos =
      let n = pages_of size in
      elim (subst (λ m. Ends m (AllocatedRun s n)) e
        (alloc_phys_contiguous_lem s size h fits big small)) [
          | inr (zero_a, full) ↦ absurd (pos zero_a)
          | inl (p, at, t) ↦
              let page : a / page_size ≡ p = omega arith in
              Ends-map (free_phys_contiguous s' a size)
                (λ s'' g.
                  TookRun-Released p n s' s'' (omega arith) t
                    (subst (λ i. FreedRun s'.regions s'.bitmap i n s''.regions s''.bitmap) page g))
                (free_phys_contiguous_lem s' a size t.bytes
                  (Fits-same s.regions s'.regions t.same_regions fits) big small)
        ]
