-- ===== src/Keyboard/Keys.antt =====
-- Kernel/drivers/keyboard/keyboard.c: what caps lock and shift do to the keys.
use aos.Base.{ℕ, ◌+◌, ◌-◌, ◌≡◌, refl, arith, Bool, true, false, not, xor, ◌&&◌}
use aos.Base.{List, [], ◌∷◌, leb, if◌then◌else◌}
use aos.Keyboard.{KeyboardState, shift_down, entry, keymap, is_letter, translate}

abbrev pub is_upper : ℕ → Bool
is_upper ch = leb b'A' ch && leb ch b'Z'

abbrev pub is_lower : ℕ → Bool
is_lower ch = leb b'a' ch && leb ch b'z'

-- No table names a capital letter.
no_capitals : List (ℕ × ℕ) → Bool
no_capitals [] = true
no_capitals ((code, ch) ∷ rest) = not (is_upper ch) && no_capitals rest

entry-no_capitals :
    (table : List (ℕ × ℕ)) (sc : ℕ) → no_capitals table ≡ true → is_upper (entry table sc) ≡ false
unfolding no_capitals
entry-no_capitals [] sc h = refl
entry-no_capitals ((code, ch) ∷ rest) sc h = ground (arith, entry-no_capitals rest sc)

keymap-lower : (sc : ℕ) → is_letter (entry keymap sc) ≡ true → is_lower (entry keymap sc) ≡ true
unfolding no_capitals
keymap-lower sc letter = ground (arith, entry-no_capitals keymap sc refl)

-- A letter, whichever its case, as a small one.
abbrev pub lower_case : ℕ → ℕ
lower_case ch = if is_upper ch then ch + 32 else ch

-- What the two locks may change: on a letter key the letter stays and is a capital exactly if one
-- of shift and caps lock is on, not both; on any other key caps lock changes nothing.
abbrev pub Cased : ℕ → KeyboardState → Type 0
Cased sc s =
    (is_letter (entry keymap sc) ≡ true
      → (lower_case (translate sc s) ≡ entry keymap sc)
        × (is_upper (translate sc s) ≡ xor (shift_down s) s.capslock))
    × (is_letter (entry keymap sc) ≡ false
        → translate sc (record s { capslock = not s.capslock }) ≡ translate sc s)

translate-letter :
    (ch : ℕ) (up : Bool)
    → is_lower ch ≡ true
    → (lower_case (if up then ch - 32 else ch) ≡ ch) × (is_upper (if up then ch - 32 else ch) ≡ up)
translate-letter ch true h = (ground arith, ground arith)
translate-letter ch false h = (ground arith, ground arith)

-- On a letter key `keyboard_ps2_get_char` answers the key's letter, as a capital exactly if one of
-- shift and caps lock is on, not both; on any other key caps lock changes nothing.
pub translate_lem : (sc : ℕ) (s : KeyboardState) → Cased sc s
unfolding translate
translate_lem sc s = (
  λ letter.
      rw letter (
        translate-letter (entry keymap sc) (xor (shift_down s) s.capslock)
          (keymap-lower sc letter)),
  λ other. rw other refl,
)
