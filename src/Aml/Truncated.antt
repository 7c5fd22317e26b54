-- ===== src/Aml/Truncated.antt =====
-- Kernel/drivers/aml/aml_parser.c: the loop of `aml_parse_multi_namepath` over well-formed segments.
use aos.Base.{ℕ, zero, suc, ◌+◌, ◌-◌, ◌*◌, ◌<◌, ◌≤◌, ◌≡◌, refl, ap, ◌∙◌, arith, min}
use aos.Base.{Bool, true, false, some, ◌==◌, if◌then◌else◌, done, Bool-cases, inl, inr}
use mathlib.Core.Path.{subst}
use aos.Aml.{Parser, pure, bind-some}
use aos.Aml.Stream.{next, is_lead_name_char, is_name_char}
use aos.Aml.Stream.Numbers.{moved, next-some}
use aos.Aml.Names.{segment_bytes}

-- Whether a character may stand at this place of a segment.
abbrev pub fits_at : (place c : ℕ) → Bool
fits_at place c = if place == 0 then is_lead_name_char c else is_name_char c

abbrev pub next_place : ℕ → ℕ
next_place place = if (place + 1) == 4 then 0 else place + 1

-- The `k` bytes from an address on go on with segments, from this place of one on.
abbrev pub AreNames : (ℕ → ℕ) → (a place k : ℕ) → Type 0
AreNames mem a place zero = Unit {0}
AreNames mem a place (suc k) =
    (fits_at place (mem a) ≡ true) × AreNames mem (a + 1) (next_place place) k

-- The characters that are still to come.
abbrev pub missing : (segments consumed place : ℕ) → ℕ
missing segments consumed place = 4 * (segments - consumed) - place

ends_at :
    (s : Parser) (p q : ℕ) → p ≡ q → pure {A = Unit {0}} tt (moved s p) ≡ done (some tt, moved s q)
ends_at s p q e = ap (λ x. done (some tt, moved s x)) e

on_inside : (place : ℕ) → ((place + 1) == 4) ≡ false → next_place place ≡ place + 1
on_inside place e = rw e refl

on_last : (place : ℕ) → ((place + 1) == 4) ≡ true → next_place place ≡ 0
on_last place e = rw e refl

segment_bytes-AreNames :
    (n segments consumed place : ℕ) (s : Parser) (p k : ℕ)
    → place < 4
    → consumed < segments
    → p + n ≤ s.stop
    → k ≡ min n (missing segments consumed place)
    → AreNames s.mem p place k
    → segment_bytes n segments consumed place (moved s p) ≡ done (some tt, moved s (p + k))
unfolding segment_bytes
segment_bytes-AreNames zero segments consumed place s p k lo more room e ok =
    let none_left : k ≡ 0 = omega (arith, e) in
    rw none_left (ap (λ q. done (some tt, moved s q)) (omega arith))
segment_bytes-AreNames (suc n) segments consumed place s p zero lo more room e ok =
    absurd (omega (arith, e))
segment_bytes-AreNames (suc n) segments consumed place s p (suc k) lo more room e (fit, ok) =
    let one_on = ends_at s (p + 1 + k) (p + suc k) (omega arith) in
    let only_one = ends_at s (p + 1) (p + suc k) in
    bind-some next _ (moved s p) (next-some s p (omega arith))
    ∙ rw fit (elim (Bool-cases ((place + 1) == 4)) [
      | inr inside ↦ rw inside (
          segment_bytes-AreNames n segments consumed (place + 1) s (p + 1) k (ground arith) more
            (omega arith) (ground arith)
            (subst (λ x. AreNames s.mem (p + 1) x k) (on_inside place inside) ok)
          ∙ one_on)
      | inl last ↦ rw last (elim (Bool-cases ((consumed + 1) == segments)) [
        | inl all ↦ rw all (only_one (ground arith))
        | inr again ↦ rw again (
            segment_bytes-AreNames n segments (consumed + 1) 0 s (p + 1) k (omega arith)
              (ground arith) (omega arith) (ground arith)
              (subst (λ x. AreNames s.mem (p + 1) x k) (on_last place last) ok)
            ∙ one_on)
      ])
    ])

-- Where the stream goes on with well-formed segments, as many as `aml_parse_multi_namepath` read the
-- count of or as far as there are bytes, its loop succeeds and has consumed them: also where the
-- stream ends before the last segment is complete.
pub segment_bytes_lem :
    (s : Parser) (segments : ℕ)
    → 0 < segments
    → s.ptr ≤ s.stop
    → AreNames s.mem s.ptr 0 (min (s.stop - s.ptr) (4 * segments))
    → segment_bytes (s.stop - s.ptr) segments 0 0 s
      ≡ done (some tt, moved s (s.ptr + min (s.stop - s.ptr) (4 * segments)))
segment_bytes_lem s segments some_segment inside names =
    segment_bytes-AreNames (s.stop - s.ptr) segments 0 0 s s.ptr
      (min (s.stop - s.ptr) (4 * segments)) (omega arith) some_segment (omega arith)
      (ap (min (s.stop - s.ptr)) (omega arith)) names
