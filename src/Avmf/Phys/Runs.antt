-- ===== src/Avmf/Phys/Runs.antt =====
-- Kernel/mm/avmf.c: the loops of the contiguous allocator over pages that stand in a row.
use aos.Base.{ℕ, zero, suc, ◌+◌, ◌*◌, ◌≤◌, ◌<◌, ◌≡◌, ◌≢◌, refl, arith}
use aos.Base.{
  Bool, true, false, not, ◌&&◌, ◌||◌, none, some, inl, inr, ltb, leb, ◌==◌, if◌then◌else◌,
}
use aos.Base.{done, fault, Ends, Ends-map, Bool-cases}
use aos.Avmf.Bitmap.{
  Bitmap, used, mark, unmark, bitmap_set, bitmap_clear, bitmap_test, in_array, bitmap_size,
}
use aos.Avmf.Bitmap.Laws.{IsBytes, mark-IsBytes, unmark-IsBytes, used-mark, used-unmark}
use aos.Avmf.Phys.{find_run, set_run, test_run, clear_run}

-- Is `q` one of the `n` pages from `p` on?
abbrev pub in_run : ℕ → ℕ → ℕ → Bool
in_run p n q = leb p q && ltb q (p + n)

-- The `n` pages from `p` on are free.
abbrev pub FreeRun : Bitmap → ℕ → ℕ → Type 0
FreeRun b p n = (q : ℕ) → p ≤ q → q < p + n → used b q ≡ false

-- The pages that the loop counts are free, and they stand right before `p`.
pub record Counted (b : Bitmap) (p consecutive first_page : ℕ) : Type 0 where
  pub row : FreeRun b first_page consecutive
  pub ends : 0 < consecutive → first_page + consecutive ≡ p

pub Counted-zero : (b : Bitmap) (p first_page : ℕ) → Counted b p 0 first_page
Counted-zero b p first_page = record {
  row = λ q lo hi. absurd (omega arith);
  ends = λ h. absurd (omega arith);
}

Counted-suc :
    (b : Bitmap) (p c f : ℕ)
    → Counted b p c f
    → used b p ≡ false
    → Counted b (p + 1) (c + 1) (if c == 0 then p else f)
Counted-suc b p zero f h free = record {
  row = λ q lo hi. let e : q ≡ p = omega arith in rw e free;
  ends = λ pos. refl;
}
Counted-suc b p (suc c) f h free = record {
  row = λ q lo hi. elim (Bool-cases (q == p)) [
    | inl e ↦ let e' : q ≡ p = ground arith in rw e' free
    | inr e ↦ h.row q (ground arith) (ground (arith, h.ends (omega arith)))
  ];
  ends = λ pos. ground (arith, h.ends (omega arith));
}

pub find_run-some :
    (b : Bitmap) (needed p n c f q : ℕ)
    → Counted b p c f
    → c < needed
    → find_run b needed p n c f ≡ done (some q)
    → FreeRun b q needed × (p ≤ q + c) × (q + needed ≤ p + n)
unfolding find_run
find_run-some b needed p zero c f q h lt e = absurd (ground arith)
find_run-some b needed p (suc n) c f q h lt e = elim (Bool-cases (used b p)) [
  | inl taken ↦
      let e' : find_run b needed (p + 1) n 0 f ≡ done (some q) =
        unfold bitmap_test in ground arith in
      let (row, lo, hi) =
        find_run-some b needed (p + 1) n 0 f q (Counted-zero b (p + 1) f) (omega arith) e' in
      (row, omega arith, omega arith)
  | inr free ↦
      let f' : ℕ = if c == 0 then p else f in
      let h' = Counted-suc b p c f h free in
      elim (Bool-cases (c + 1 == needed)) [
        | inl full ↦
            let e' : f' ≡ q = unfold bitmap_test in ground arith in
            let n' : c + 1 ≡ needed = ground arith in
            (
              λ i l r. h'.row i (omega arith) (omega arith),
              omega (arith, h'.ends (omega arith)),
              omega (arith, h'.ends (omega arith)),
            )
        | inr more ↦
            let e' : find_run b needed (p + 1) n (c + 1) f' ≡ done (some q) =
              unfold bitmap_test in ground arith in
            let (row, lo, hi) =
              find_run-some b needed (p + 1) n (c + 1) f' q h' (ground arith) e' in
            (row, omega arith, omega arith)
      ]
]

pub find_run-none :
    (b : Bitmap) (needed p n c f q : ℕ)
    → c < needed
    → p ≤ q + c
    → q + needed ≤ p + n
    → FreeRun b q needed
    → find_run b needed p n c f ≢ done none
unfolding find_run bitmap_test
find_run-none b needed p zero c f q lt lo hi free e = absurd (omega arith)
find_run-none b needed p (suc n) c f q lt lo hi free e = elim (Bool-cases (used b p)) [
  | inl taken ↦ ground (
    arith,
    find_run-none b needed (p + 1) n 0 f q (omega arith)
        (outside (λ l. false_or_true (free p l (omega arith)) taken)) (omega arith) free,
  )
  | inr not_taken ↦ ground (
    arith,
    λ (l : c + 1 < needed).
        find_run-none b needed (p + 1) n (c + 1) (if c == 0 then p else f) q l (omega arith)
          (omega arith) free,
  )
]
  where
    false_or_true : used b p ≡ false → used b p ≡ true → ⊥
    false_or_true x y = cc

    outside : (q ≤ p → ⊥) → p + 1 ≤ q + 0
    outside no_run = ground arith

pub find_run-ends :
    (b : Bitmap) (needed p n c f : ℕ) → p + n ≤ 8 * bitmap_size → find_run b needed p n c f ≢ fault
unfolding find_run bitmap_test
find_run-ends b needed p zero c f h e = cc
find_run-ends b needed p (suc n) c f h e = ground (
  arith,
  find_run-ends b needed (p + 1) n 0 f,
  find_run-ends b needed (p + 1) n (c + 1) (if c == 0 then p else f),
)

-- Setting a row marks exactly its pages.
abbrev pub Marks : Bitmap → ℕ → ℕ → Bitmap → Type 0
Marks b p n b' = IsBytes b' × ((q : ℕ) → used b' q ≡ (in_run p n q || used b q))

pub set_run_lem :
    (b : Bitmap) (p n : ℕ)
    → IsBytes b
    → p + n ≤ 8 * bitmap_size
    → Ends (set_run b p n) (Marks b p n)
unfolding set_run bitmap_set
set_run_lem b p zero h fits = (h, λ q. ground arith)
set_run_lem b p (suc n) h fits =
    let inside : in_array p ≡ true = ground arith in
    rw inside (
      Ends-map (set_run (mark b p) (p + 1) n)
        (λ b' m. (m.0, λ q. ground (arith, m.1 q, used-mark b p q h)))
        (set_run_lem (mark b p) (p + 1) n (mark-IsBytes b p h) (omega arith)))

-- Clearing a row frees exactly its pages.
abbrev pub Clears : Bitmap → ℕ → ℕ → Bitmap → Type 0
Clears b p n b' = IsBytes b' × ((q : ℕ) → used b' q ≡ (not (in_run p n q) && used b q))

pub clear_run_lem :
    (b : Bitmap) (p n : ℕ)
    → IsBytes b
    → p + n ≤ 8 * bitmap_size
    → Ends (clear_run b p n) (Clears b p n)
unfolding clear_run bitmap_clear
clear_run_lem b p zero h fits = (h, λ q. ground arith)
clear_run_lem b p (suc n) h fits =
    let inside : in_array p ≡ true = ground arith in
    rw inside (
      Ends-map (clear_run (unmark b p) (p + 1) n)
        (λ b' m. (m.0, λ q. ground (arith, m.1 q, used-unmark b p q h)))
        (clear_run_lem (unmark b p) (p + 1) n (unmark-IsBytes b p h) (omega arith)))

-- The test of a row answers whether all of its pages are taken.
abbrev pub Tests : Bitmap → ℕ → ℕ → Bool → Type 0
Tests b p n true = (q : ℕ) → p ≤ q → q < p + n → used b q ≡ true
Tests b p n false = (q : ℕ) × (p ≤ q) × (q < p + n) × (used b q ≡ false)

pub test_run_lem :
    (b : Bitmap) (p n : ℕ) → p + n ≤ 8 * bitmap_size → Ends (test_run b p n) (Tests b p n)
unfolding test_run bitmap_test
test_run_lem b p zero fits = λ q lo hi. absurd (omega arith)
test_run_lem b p (suc n) fits =
    let inside : in_array p ≡ true = ground arith in
    elim (Bool-cases (used b p)) [
      | inr free ↦ rw (inside, free) (p, omega arith, omega arith, free)
      | inl taken ↦
          rw (inside, taken)
            (Ends-map (test_run b (p + 1) n) (extend taken)
              (test_run_lem b (p + 1) n (omega arith)))
    ]
  where
    extend : used b p ≡ true → (t : Bool) → Tests b (p + 1) n t → Tests b p (suc n) t
    extend taken true h = λ q lo hi. elim (Bool-cases (q == p)) [
      | inl e ↦ let e' : q ≡ p = ground arith in rw e' taken
      | inr e ↦ h q (ground arith) (omega arith)
    ]
    extend taken false (q, lo, hi, free) = (q, omega arith, omega arith, free)
