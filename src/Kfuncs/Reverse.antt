-- ===== src/Kfuncs/Reverse.antt =====
-- Kernel/src/kfuncs.c: the loop of `ku64_to_str` and `ki64_to_str` that turns the text round.
use aos.Base.{ℕ, zero, suc, ◌+◌, ◌-◌, ◌*◌, ◌<◌, ◌≤◌, ◌≡◌, refl, ap, ◌∙◌, arith}
use aos.Base.{false, ltb, ◌==◌, Bool-cases, inl, inr}
use aos.Kfuncs.Print.{Buffer, put, turn}

abbrev swapped : ℕ → ℕ → Buffer → Buffer
swapped start end buf = put (put buf start (buf end)) end (buf start)

-- Outside of the two offsets nothing changes.
pub turn-outside :
    (n start end : ℕ) (buf : Buffer) (i : ℕ) → end < i → turn n start end buf i ≡ buf i
unfolding turn
turn-outside zero start end buf i h = refl
turn-outside (suc n) start end buf i h =
    ground (
      arith,
      turn-outside n (start + 1) (end - 1) (put (put buf start (buf end)) end (buf start)) i,
    )

turn-before : (n start end : ℕ) (buf : Buffer) (i : ℕ) → i < start → turn n start end buf i ≡ buf i
unfolding turn
turn-before zero start end buf i h = refl
turn-before (suc n) start end buf i h =
    ground
      (arith, turn-before n (start + 1) (end - 1) (put (put buf start (buf end)) end (buf start)) i)

swapped-mid :
    (start end : ℕ) (buf : Buffer) (i : ℕ)
    → start < i
    → i < end
    → swapped start end buf (start + 1 + (end - 1) - i) ≡ buf (start + end - i)
swapped-mid start end buf i lo hi =
    let same : start + 1 + (end - 1) - i ≡ start + end - i = omega arith in
    let not_last : (start + end - i == end) ≡ false = ground arith in
    let not_first : (start + end - i == start) ≡ false = ground arith in
    rw (same, not_last, not_first) refl

-- With a round for each pair, an offset holds what its mirror image held.
pub turn_lem :
    (n start end : ℕ) (buf : Buffer) (i : ℕ)
    → end < start + 2 * n + 1
    → start ≤ i
    → i ≤ end
    → turn n start end buf i ≡ buf (start + end - i)
unfolding turn
turn_lem zero start end buf i h lo hi = ap buf (omega arith)
turn_lem (suc n) start end buf i h lo hi = elim (Bool-cases (ltb start end)) [
  | inr e ↦ rw e (ap buf (ground arith))
  | inl e ↦ rw e (elim (Bool-cases (i == start)) [
    | inl first ↦
        turn-before n (start + 1) (end - 1) (swapped start end buf) i (ground arith)
        ∙ ground (arith, ap buf {x = end} {y = start + end - i})
    | inr later ↦ elim (Bool-cases (i == end)) [
      | inl last ↦
          turn-outside n (start + 1) (end - 1) (swapped start end buf) i (ground arith)
          ∙ rw last (ap buf (ground arith))
      | inr mid ↦
          turn_lem n (start + 1) (end - 1) (swapped start end buf) i (ground arith) (ground arith)
            (ground arith)
          ∙ swapped-mid start end buf i (ground arith) (ground arith)
    ]
  ])
]
