-- ===== src/Avmf/Bitmap/Laws.antt =====
-- Kernel/mm/avmf.c: the bitmap is a set of pages, and setting or clearing one leaves the others.
use aos.Base.{ℕ, ◌/◌, ◌%◌, ◌<◌, ◌≡◌, not, ◌&&◌, ◌||◌, ◌==◌, arith}
use aos.Base.Bits.{has_bit-or, has_bit-and}
use aos.Avmf.Bitmap.{Bitmap, used, mark, unmark}

-- Only the low eight bits of a word are ever set.
abbrev pub IsBytes : Bitmap → Type 0
IsBytes b = (i : ℕ) → b i < 256

pub mark-IsBytes : (b : Bitmap) (p : ℕ) → IsBytes b → IsBytes (mark b p)
unfolding mark
mark-IsBytes b p h i = ground (
  arith,
  h i,
  h (p / 8),
  has_bit-or (b (p / 8)) (p % 8) 0 (h (p / 8)) (omega arith) (omega arith),
)

pub unmark-IsBytes : (b : Bitmap) (p : ℕ) → IsBytes b → IsBytes (unmark b p)
unfolding unmark
unmark-IsBytes b p h i = ground (
  arith,
  h i,
  h (p / 8),
  has_bit-and (b (p / 8)) (p % 8) 0 (h (p / 8)) (omega arith) (omega arith),
)

pub used-mark : (b : Bitmap) (p q : ℕ) → IsBytes b → used (mark b p) q ≡ (q == p || used b q)
unfolding mark used
used-mark b p q h =
    ground (arith, has_bit-or (b (p / 8)) (p % 8) (q % 8) (h (p / 8)) (omega arith) (omega arith))

pub used-unmark :
    (b : Bitmap) (p q : ℕ) → IsBytes b → used (unmark b p) q ≡ (not (q == p) && used b q)
unfolding unmark used
used-unmark b p q h =
    ground (arith, has_bit-and (b (p / 8)) (p % 8) (q % 8) (h (p / 8)) (omega arith) (omega arith))
