-- ===== src/Avmf/RegionAlloc/Fit.antt =====
-- Kernel/mm/avmf.c: where `avmf_region_alloc` places an allocation in the first free range.
use native.Mathlib.Nat.{mod-add-div, add-mul-mod_self_left, mod_self, mod-lt}
use mathlib.Core.Path.{subst}
use aos.Base.{ℕ, ◌+◌, ◌-◌, ◌*◌, ◌/◌, ◌%◌, ◌^◌, ◌<◌, ◌≤◌, ◌≡◌, ◌≢◌, arith}
use aos.Base.{Bool, not, ◌&&◌, ◌||◌, Option, none, some, ltb, ◌==◌}
use aos.Base.{if_cases, if◌then◌else◌, Bool-cases, inl, inr}
use aos.Avmf.{Range, uint64_max}
use aos.Avmf.FreeList.{add64}
use aos.Avmf.RegionAlloc.{Request, fit, aligned_up, raised}

add_up : (a r m p : ℕ) → r + p ≡ a → r < m → a + (m - r) ≡ m + p
add_up a r m p e h = omega arith

wrap_up :
    (a r m : ℕ)
    → a < 2 ^ 64
    → m ≤ 2 ^ 64
    → 0 < r
    → a ≤ add64 a (m - r)
    → add64 a (m - r) ≡ a + (m - r)
wrap_up a r m h k p l = omega arith

-- The next multiple is one.
next_multiple : (a m : ℕ) → m ≢ 0 → (a + (m - a % m)) % m ≡ 0
next_multiple a m n =
    rw
      (
        add_up a (a % m) m (m * (a / m)) (mod-add-div a m) (mod-lt a (ground (arith, n))),
        add-mul-mod_self_left m m (a / m),
      )
      (mod_self m)

-- Where it does not wrap, which shows in that it is not less.
aligned_up-mod :
    (m a : ℕ) → m ≢ 0 → a < 2 ^ 64 → m ≤ 2 ^ 64 → a ≤ aligned_up m a → aligned_up m a % m ≡ 0
aligned_up-mod m a n h k l = elim (Bool-cases (a % m == 0)) [
  | inl e ↦ rw e (ground arith)
  | inr e ↦
      let le : a ≤ add64 a (m - a % m) =
        subst (λ (t : Bool). a ≤ (if t then a else add64 a (m - a % m))) e l in
      let same : add64 a (m - a % m) ≡ a + (m - a % m) =
        wrap_up a (a % m) m h k (ground arith) le in
      rw (e, same) (next_multiple a m n)
]

le-aligned_up : (m a : ℕ) → m ≢ 0 → a + m ≤ 2 ^ 64 → a ≤ aligned_up m a
le-aligned_up m a n h =
    if_cases (λ x. a ≤ x) (a % m == 0) (λ e. omega arith)
      (λ e.
        let pos : 0 < a % m = ground arith in let some : 0 < m = ground (arith, n) in omega arith)

-- The start is not lowered, where the range does not wrap and the least address leaves room.
raised-le :
    (q : Request) (b : ℕ)
    → q.align ≢ 0
    → q.min_virt + q.align ≤ 2 ^ 64
    → b ≤ aligned_up q.align (raised q b)
    → raised q b ≤ aligned_up q.align (raised q b)
raised-le q b n h l = elim (Bool-cases (ltb b q.min_virt)) [
  | inl e ↦ rw e (le-aligned_up q.align q.min_virt n h)
  | inr e ↦ rw e (subst (λ (t : Bool). b ≤ aligned_up q.align (if t then q.min_virt else b)) e l)
]

pub record Fitting (q : Request) (cur : Range) (base : ℕ) : Type 0 where
  pub low : cur.base ≤ base
  pub high : base + q.size ≤ cur.base + cur.size
  pub aligned : base % q.align ≡ 0
  pub least : q.min_virt ≤ base
  pub most : q.max_virt ≢ 0 → base + q.size ≤ q.max_virt

abbrev pub Fits : Request → Range → Option ℕ → Type 0
Fits q cur none = Unit {0}
Fits q cur (some base) = Fitting q cur base

pub fit-Fits : (q : Request) (cur : Range) → q.min_virt + q.align ≤ 2 ^ 64 → Fits q cur (fit q cur)
unfolding fit
fit-Fits q cur h =
    let low = raised q cur.base in
    let base = aligned_up q.align low in
    let range_end = cur.base + cur.size in
    let bad = cur.size == 0 || (ltb (uint64_max - cur.size) cur.base || q.align == 0) in
    let out = ltb base cur.base || (ltb range_end base || ltb (range_end - base) q.size) in
    let high = not (q.max_virt == 0) && (ltb q.max_virt base || ltb (q.max_virt - base) q.size) in
    if_cases (Fits q cur) bad (λ _. tt)
      (λ a.
        if_cases (Fits q cur) out (λ _. tt)
          (λ b.
            if_cases (Fits q cur) high (λ _. tt)
              (λ c.
                let up : low ≤ base = raised-le q cur.base (ground arith) h (ground arith) in
                record {
                  low = ground arith;
                  high = ground arith;
                  aligned =
                      aligned_up-mod q.align low (ground arith) (ground arith) (omega (arith, h))
                        up;
                  least = ground (arith, up);
                  most = λ n. ground arith;
                })))
