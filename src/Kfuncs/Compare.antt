-- ===== src/Kfuncs/Compare.antt =====
-- Kernel/src/kfuncs.c: what `strcmp`, `strncmp`, `strncpy` and `str_to_uint` promise.
use aos.Base.{ℕ, zero, suc, ◌+◌, ◌-◌, ◌<◌, ◌≡◌, refl, ap, arith}
use aos.Base.{false, not, ◌&&◌, List, [], ◌∷◌, All}
use aos.Base.{◌==◌, Bool-cases, inl, inr, ◌↔◌}
use mathlib.Core.Path.{subst}
use aos.Kfuncs.Parse.{ℤ, pos, negsuc, neg}
use aos.Kfuncs.Strings.{head, tail, byte_diff, strcmp, strncmp}

-- A C text: none of its bytes is 0.
abbrev pub IsText : List ℕ → Type 0
IsText s = All (λ c. 0 < c) s

abbrev pub take : ℕ → List ℕ → List ℕ
take zero s = []
take (suc n) [] = []
take (suc n) (c ∷ s) = c ∷ take n s

-- `strncmp` compares the first `n` characters of the two texts as `strcmp` compares whole texts.
pub strncmp-take : (s1 s2 : List ℕ) (n : ℕ) → strncmp s1 s2 n ≡ strcmp (take n s1) (take n s2)
unfolding strcmp strncmp
strncmp-take s1 s2 zero = refl
strncmp-take [] [] (suc n) = refl
strncmp-take [] (d ∷ s2) (suc n) = refl
strncmp-take (c ∷ s1) [] (suc n) =
    let stops : (not (c == 0) && c == 0) ≡ false = ground arith in rw stops refl
strncmp-take (c ∷ s1) (d ∷ s2) (suc n) = rw (strncmp-take s1 s2 n) refl

-- The number that stands for a difference of two bytes.
abbrev size : ℤ → ℕ
size (pos n) = n
size (negsuc n) = n + 1

size-neg : (n : ℕ) → size (neg n) ≡ n
size-neg zero = refl
size-neg (suc n) = omega arith

byte_diff-same : (a b : ℕ) → byte_diff a b ≡ pos 0 → a ≡ b
byte_diff-same a b h = let none_left = ap size h in ground (arith, none_left, size-neg (b - a))

-- The first characters of two texts that are equal for `strcmp`.
strcmp-first :
    (c : ℕ) (s1 s2 : List ℕ)
    → 0 < c
    → strcmp (c ∷ s1) s2 ≡ pos 0
    → (c ≡ head s2) × (strcmp s1 (tail s2) ≡ pos 0)
unfolding strcmp
strcmp-first c s1 s2 lo h = elim (Bool-cases (not (c == 0) && c == head s2)) [
  | inl e ↦ (ground arith, rw e at h)
  | inr e ↦ let same = byte_diff-same c (head s2) (rw e at h) in ground (arith, same)
]

strcmp_refl : (s : List ℕ) → strcmp s s ≡ pos 0
unfolding strcmp
strcmp_refl [] = refl
strcmp_refl (c ∷ s) = ground (arith, strcmp_refl s)

strcmp-only : (s1 s2 : List ℕ) → IsText s1 → IsText s2 → strcmp s1 s2 ≡ pos 0 → s1 ≡ s2
unfolding strcmp
strcmp-only [] [] t1 t2 h = refl
strcmp-only [] (d ∷ s2) t1 t2 h = let e = byte_diff-same 0 d h in absurd (omega (arith, e, t2.0))
strcmp-only (c ∷ s1) [] t1 t2 h =
    let e = (strcmp-first c s1 [] t1.0 h).0 in absurd (omega (arith, e, t1.0))
strcmp-only (c ∷ s1) (d ∷ s2) t1 t2 h =
    let (e, rest) = strcmp-first c s1 (d ∷ s2) t1.0 h in
    rw (e, strcmp-only s1 s2 t1.1 t2.1 rest) refl

-- `strcmp` answers 0 on two texts without the byte 0 exactly if they are equal.
pub strcmp_iff : (s1 s2 : List ℕ) → IsText s1 → IsText s2 → (strcmp s1 s2 ≡ pos 0) ↔ (s1 ≡ s2)
strcmp_iff s1 s2 t1 t2 =
    (strcmp-only s1 s2 t1 t2, λ e. subst (λ s. strcmp s1 s ≡ pos 0) e (strcmp_refl s1))
