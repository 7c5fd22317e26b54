-- ===== src/Avmf/Phys/FreeRun.antt =====
-- Kernel/mm/avmf.c: `avmf_free_phys_contiguous`, as an operation on the set of the pages that are
-- taken.
use aos.Base.{ℕ, ◌+◌, ◌-◌, ◌*◌, ◌/◌, ◌^◌, ◌≤◌, ◌<◌, ◌≡◌, refl, ap, arith}
use aos.Base.{Bool, true, false, not, ◌&&◌, ◌||◌, List, [], ◌∷◌, ◌⊎◌, inl, inr}
use aos.Base.{ltb, leb, if◌then◌else◌, Exec, done, ◌>>=◌, Ends, Ends-bind}
use aos.Base.{All, Bool-cases}
use aos.Avmf.{Region, usable, page_size}
use aos.Avmf.Bitmap.{Bitmap, used, bitmap_size}
use aos.Avmf.Bitmap.Laws.{IsBytes}
use aos.Avmf.Phys.{Phys, start_page, end_page, discharge, test_run, clear_run}
use aos.Avmf.Phys.{free_run_in, free_phys_contiguous}
use aos.Avmf.Phys.Sets.{Fits, bare, SameButCounts, holds_run, run_fits}
use aos.Avmf.Phys.Runs.{in_run, Tests, test_run_lem, clear_run_lem}
use aos.Avmf.Phys.AllocRun.{pages_of, accepted, align4k_pages}

abbrev TakenRun : Bitmap → ℕ → ℕ → Type 0
TakenRun b p n = (q : ℕ) → p ≤ q → q < p + n → used b q ≡ true

-- The row was taken, and exactly its pages are free now.
pub record Released (rs : List Region) (b : Bitmap) (p n : ℕ) (rs' : List Region) (b' : Bitmap)
    : Type 0 where
  pub room : run_fits rs p n ≡ true
  pub was_taken : TakenRun b p n
  pub clears : (q : ℕ) → used b' q ≡ (not (in_run p n q) && used b q)
  pub same_regions : SameButCounts rs rs'
  pub bytes : IsBytes b'

-- No usable region holds the row, or one of its pages is free; nothing changed.
pub record Refused (rs : List Region) (b : Bitmap) (p n : ℕ) (rs' : List Region) (b' : Bitmap)
    : Type 0 where
  pub reason : run_fits rs p n ≡ true → (q : ℕ) × (p ≤ q) × (q < p + n) × (used b q ≡ false)
  pub no_change : (rs' ≡ rs) × (b' ≡ b)

abbrev pub FreedRun : List Region → Bitmap → ℕ → ℕ → List Region → Bitmap → Type 0
FreedRun rs b p n rs' b' = Released rs b p n rs' b' ⊎ Refused rs b p n rs' b'

abbrev Result : List Region → Bitmap → ℕ → ℕ → List Region × Bitmap → Type 0
Result rs b p n o = FreedRun rs b p n o.0 o.1

module _ (r : Region) (rs : List Region) (b : Bitmap) (p n : ℕ) where
  abbrev Misses : Type 0
  Misses = holds_run r p n ≡ true → (q : ℕ) × (p ≤ q) × (q < p + n) × (used b q ≡ false)

  Result-pass :
      (o : List Region × Bitmap) → Misses → Result rs b p n o → Result (r ∷ rs) b p n (r ∷ o.0, o.1)
  Result-pass o miss (inl h) = inl (record {
    room = ground (arith, h.room);
    was_taken = h.was_taken;
    clears = h.clears;
    same_regions = ap (λ l. bare r ∷ l) h.same_regions;
    bytes = h.bytes;
  })
  Result-pass o miss (inr h) = inr (record {
    reason = λ e. elim (Bool-cases (holds_run r p n)) [
      | inl here ↦ miss here
      | inr off ↦ h.reason (ground arith)
    ];
    no_change = (ap (λ l. r ∷ l) h.no_change.0, h.no_change.1);
  })

  skip-Result :
      (m : Exec (List Region × Bitmap))
      → Misses
      → Ends m (Result rs b p n)
      → Ends
          (do (rs', b') ← m; done (let o : List Region × Bitmap = (r ∷ rs', b') in o))
          (Result (r ∷ rs) b p n)
  skip-Result m miss h = Ends-bind (Result (r ∷ rs) b p n) m _ h (λ o. Result-pass o miss)

  clear-Result :
      IsBytes b
      → p + n ≤ 8 * bitmap_size
      → holds_run r p n ≡ true
      → TakenRun b p n
      → Ends
          (do
            b' ← clear_run b p n
            done (let o : List Region × Bitmap = (discharge r (n * page_size) ∷ rs, b') in o))
          (Result (r ∷ rs) b p n)
  clear-Result h fit here taken =
      Ends-bind (Result (r ∷ rs) b p n) (clear_run b p n) _ (clear_run_lem b p n h fit) (λ b' c.
        inl (record {
          room = ground arith;
          was_taken = taken;
          clears = c.1;
          same_regions = refl;
          bytes = c.0;
        }))

free_run_in-Result :
    (rs : List Region) (b : Bitmap) (p n : ℕ)
    → IsBytes b
    → All Fits rs
    → Ends (free_run_in rs b p n) (Result rs b p n)
unfolding free_run_in
free_run_in-Result [] b p n h fits =
    inr (record { reason = λ e. absurd (ground arith); no_change = (refl, refl) })
free_run_in-Result (r ∷ rs) b p n h (fit, fits) =
    let ih = free_run_in-Result rs b p n h fits in
    elim (Bool-cases (not (usable r) || (ltb p (start_page r) || leb (end_page r) p))) [
      | inl off ↦
          rw off (skip-Result r rs b p n (free_run_in rs b p n) (λ e. absurd (ground arith)) ih)
      | inr on ↦ elim (Bool-cases (ltb (end_page r - p) n)) [
        | inl short ↦
            rw (on, short)
              (skip-Result r rs b p n (free_run_in rs b p n) (λ e. absurd (ground arith)) ih)
        | inr room ↦
            let here : holds_run r p n ≡ true = ground arith in
            let fit' : p + n ≤ 8 * bitmap_size = ground (arith, fit (ground arith)) in
            rw (on, room)
              (Ends-bind (Result (r ∷ rs) b p n) (test_run b p n) _ (test_run_lem b p n fit')
                (λ found t. tested found here fit' t ih))
      ]
    ]
  where
    tested :
        (found : Bool)
        → holds_run r p n ≡ true
        → p + n ≤ 8 * bitmap_size
        → Tests b p n found
        → Ends (free_run_in rs b p n) (Result rs b p n)
        → Ends
            (if not found
              then (do
                (rs', b') ← free_run_in rs b p n
                done (let o : List Region × Bitmap = (r ∷ rs', b') in o))
              else (do
                b' ← clear_run b p n
                done (let o : List Region × Bitmap = (discharge r (n * page_size) ∷ rs, b') in o)))
            (Result (r ∷ rs) b p n)
    tested true here fit' t ih = clear-Result r rs b p n h fit' here t
    tested false here fit' t ih = skip-Result r rs b p n (free_run_in rs b p n) (λ e. t) ih

-- For a size that is not 0 and does not overflow when it is rounded up, and where the bitmap has
-- a bit for every page of the usable regions, `avmf_free_phys_contiguous` ends without a fault.
-- Either one usable region holds all the pages of the row, all were taken and exactly these are
-- free now; or no region holds the row, or a page of it is free, and then nothing changed.
pub free_phys_contiguous_lem :
    (s : Phys) (phys size : ℕ)
    → IsBytes s.bitmap
    → All Fits s.regions
    → 0 < size
    → size ≤ 2 ^ 64 - page_size
    → Ends
        (free_phys_contiguous s phys size)
        (λ s'. FreedRun s.regions s.bitmap (phys / page_size) (pages_of size) s'.regions s'.bitmap)
unfolding free_phys_contiguous
free_phys_contiguous_lem s phys size h fits pos small =
    let n = pages_of size in
    rw (accepted size pos small, align4k_pages size small)
      (Ends-bind _ (free_run_in s.regions s.bitmap (phys / page_size) n) _
        (free_run_in-Result s.regions s.bitmap (phys / page_size) n h fits) (λ o r. r))
