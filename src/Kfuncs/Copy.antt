-- ===== src/Kfuncs/Copy.antt =====
-- Kernel/src/kfuncs.c: what `strcpy` and `strncpy` leave in memory.
use aos.Base.{ℕ, zero, suc, ◌+◌, ◌<◌, ◌≤◌, ◌≡◌, refl, ap, ◌∙◌, arith}
use aos.Base.{false, List, [], ◌∷◌, length, ◌==◌}
use aos.Kfuncs.Print.{Buffer, put}
use aos.Kfuncs.Strings.{strcpy, fill, strncpy}
use aos.Kfuncs.Compare.{IsText}

-- The character of a text at an index, and the byte 0 behind the text.
abbrev pub char_at : List ℕ → ℕ → ℕ
char_at [] i = 0
char_at (c ∷ s) zero = c
char_at (c ∷ s) (suc i) = char_at s i

-- The `n` cells from `dest` on hold the text and zeros behind it; the others are as before.
abbrev pub Copied : Buffer → ℕ → List ℕ → ℕ → Buffer → Type 0
Copied buf dest s n buf' =
    ((i : ℕ) → i < n → buf' (dest + i) ≡ char_at s i)
    × ((j : ℕ) → j < dest → buf' j ≡ buf j)
    × ((j : ℕ) → dest + n ≤ j → buf' j ≡ buf j)

Copied-put :
    (buf : Buffer) (dest c : ℕ) (s : List ℕ) (n : ℕ) (buf' : Buffer)
    → Copied (put buf dest c) (dest + 1) s n buf'
    → Copied buf dest (c ∷ s) (suc n) buf'
Copied-put buf dest c s n buf' (cells, below, above) =
    (at, λ j l. below j (omega arith) ∙ ground arith, λ j l. above j (omega arith) ∙ ground arith)
  where
    at : (i : ℕ) → i < suc n → buf' (dest + i) ≡ char_at (c ∷ s) i
    at zero l = ap buf' (omega arith) ∙ below dest (omega arith) ∙ ground arith
    at (suc i) l = ap buf' (omega arith) ∙ cells i (omega arith)

Copied-nothing : (buf : Buffer) (dest : ℕ) (s : List ℕ) → Copied buf dest s 0 buf
Copied-nothing buf dest s = (λ i l. omega arith, λ j l. refl, λ j l. refl)

-- A text that is over is as good as one with another byte 0.
Copied-over :
    (buf : Buffer) (dest n : ℕ) (buf' : Buffer)
    → Copied buf dest (0 ∷ []) (suc n) buf'
    → Copied buf dest [] (suc n) buf'
Copied-over buf dest n buf' (cells, below, above) = (at, below, above)
  where
    at : (i : ℕ) → i < suc n → buf' (dest + i) ≡ 0
    at zero l = cells zero l
    at (suc i) l = cells (suc i) l

fill-Copied : (buf : Buffer) (dest n : ℕ) → Copied buf dest [] n (fill buf dest n)
unfolding fill
fill-Copied buf dest zero = Copied-nothing buf dest []
fill-Copied buf dest (suc n) =
    Copied-over buf dest n _
      (Copied-put buf dest 0 [] n _ (fill-Copied (put buf dest 0) (dest + 1) n))

-- `strncpy`, for a text without the byte 0, writes exactly `n` cells: the text as far as they go, and zeros behind it. So the copy
-- of a text of `n` characters or more has no byte 0 at its end.
pub strncpy_lem :
    (buf : Buffer) (dest : ℕ) (src : List ℕ) (n : ℕ)
    → IsText src
    → Copied buf dest src n (strncpy buf dest src n)
unfolding strncpy
strncpy_lem buf dest src zero t = Copied-nothing buf dest src
strncpy_lem buf dest [] (suc n) t = fill-Copied buf dest (suc n)
strncpy_lem buf dest (c ∷ src) (suc n) (some_char, t) =
    let more : (c == 0) ≡ false = ground arith in
    rw more (Copied-put buf dest c src n _ (strncpy_lem (put buf dest c) (dest + 1) src n t))

-- `strcpy`, for a text without the byte 0, writes the text and one byte 0 behind it, and nothing else.
pub strcpy_lem :
    (buf : Buffer) (dest : ℕ) (src : List ℕ)
    → IsText src
    → Copied buf dest src (suc (length src)) (strcpy buf dest src)
unfolding strcpy fill
strcpy_lem buf dest [] t = fill-Copied buf dest 1
strcpy_lem buf dest (c ∷ src) (some_char, t) =
    let more : (c == 0) ≡ false = ground arith in
    rw more (
      Copied-put buf dest c src (suc (length src)) _ (strcpy_lem (put buf dest c) (dest + 1) src t))
