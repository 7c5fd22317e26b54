-- ===== src/Keyboard.antt =====
-- Kernel/drivers/keyboard/keyboard.c: the PS/2 keyboard. The scan code that `ps2_read_scan` or
-- `ps2_try_read_scan` answers is an argument, none where they answer -1.
mod Held
mod Keys
mod Tests
use aos.Base.{
  ℕ, ◌+◌, ◌-◌, Bool, true, false, not, xor, ◌&&◌, ◌||◌, List, [], ◌∷◌, Option, none, some,
}
use aos.Base.{bit_and, ltb, leb, ◌==◌, ◌%◌, if◌then◌else◌}

-- `struct keyboard_state`.
pub record KeyboardState : Type 0 where
  pub lshift : Bool
  pub rshift : Bool
  pub capslock : Bool

abbrev pub shift_down : KeyboardState → Bool
shift_down s = s.lshift || s.rshift

-- The entry of a table, 0 where the initializer names none.
abbrev pub entry : List (ℕ × ℕ) → ℕ → ℕ
entry [] sc = 0
entry ((code, ch) ∷ rest) sc = let later = entry rest sc in if sc == code then ch else later

abbrev pub keymap : List (ℕ × ℕ)
keymap =
    (0x01, 27)
    ∷ (0x02, b'1')
    ∷ (0x03, b'2')
    ∷ (0x04, b'3')
    ∷ (0x05, b'4')
    ∷ (0x06, b'5')
    ∷ (0x07, b'6')
    ∷ (0x08, b'7')
    ∷ (0x09, b'8')
    ∷ (0x0A, b'9')
    ∷ (0x0B, b'0')
    ∷ (0x0C, b'-')
    ∷ (0x0D, b'=')
    ∷ (0x0E, 8)
    ∷ (0x0F, 9)
    ∷ (0x10, b'q')
    ∷ (0x11, b'w')
    ∷ (0x12, b'e')
    ∷ (0x13, b'r')
    ∷ (0x14, b't')
    ∷ (0x15, b'y')
    ∷ (0x16, b'u')
    ∷ (0x17, b'i')
    ∷ (0x18, b'o')
    ∷ (0x19, b'p')
    ∷ (0x1A, b'[')
    ∷ (0x1B, b']')
    ∷ (0x1C, 10)
    ∷ (0x1E, b'a')
    ∷ (0x1F, b's')
    ∷ (0x20, b'd')
    ∷ (0x21, b'f')
    ∷ (0x22, b'g')
    ∷ (0x23, b'h')
    ∷ (0x24, b'j')
    ∷ (0x25, b'k')
    ∷ (0x26, b'l')
    ∷ (0x27, b';')
    ∷ (0x28, 39)
    ∷ (0x29, b'`')
    ∷ (0x2B, 92)
    ∷ (0x2C, b'z')
    ∷ (0x2D, b'x')
    ∷ (0x2E, b'c')
    ∷ (0x2F, b'v')
    ∷ (0x30, b'b')
    ∷ (0x31, b'n')
    ∷ (0x32, b'm')
    ∷ (0x33, b',')
    ∷ (0x34, b'.')
    ∷ (0x35, b'/')
    ∷ (0x39, 32)
    ∷ (0x47, b'7')
    ∷ (0x48, b'8')
    ∷ (0x49, b'9')
    ∷ (0x4B, b'4')
    ∷ (0x4C, b'5')
    ∷ (0x4D, b'6')
    ∷ (0x4F, b'1')
    ∷ (0x50, b'2')
    ∷ (0x51, b'3')
    ∷ (0x52, b'0')
    ∷ (0x53, b'.')
    ∷ (0x37, b'*')
    ∷ (0x4A, b'-')
    ∷ (0x4E, b'+')
    ∷ []

abbrev pub keymap_shift : List (ℕ × ℕ)
keymap_shift =
    (0x02, b'!')
    ∷ (0x03, b'@')
    ∷ (0x04, b'#')
    ∷ (0x05, b'$')
    ∷ (0x06, b'%')
    ∷ (0x07, b'^')
    ∷ (0x08, b'&')
    ∷ (0x09, b'*')
    ∷ (0x0A, b'(')
    ∷ (0x0B, b')')
    ∷ (0x0C, b'_')
    ∷ (0x0D, b'+')
    ∷ (0x1A, b'{')
    ∷ (0x1B, b'}')
    ∷ (0x27, b':')
    ∷ (0x28, b'"')
    ∷ (0x29, b'~')
    ∷ (0x2B, b'|')
    ∷ (0x33, b'<')
    ∷ (0x34, b'>')
    ∷ (0x35, b'?')
    ∷ (0x37, b'*')
    ∷ (0x4A, b'-')
    ∷ (0x4E, b'+')
    ∷ []

unfoldable pub update_state : ℕ → KeyboardState → KeyboardState
update_state sc s =
    if sc == 0x2A
    then record s { lshift = true }
    else if sc == 0x36
    then record s { rshift = true }
    else if sc == 0xAA
    then record s { lshift = false }
    else if sc == 0xB6
    then record s { rshift = false }
    else if sc == 0x3A
    then record s { capslock = not s.capslock }
    else s

abbrev pub is_letter : ℕ → Bool
is_letter ch = (leb b'a' ch && leb ch b'z') || (leb b'A' ch && leb ch b'Z')

-- The character of a key that is pressed in this state.
unfoldable pub translate : ℕ → KeyboardState → ℕ
translate sc s =
    let ch = entry keymap sc in
    if is_letter ch
    then (if xor (shift_down s) s.capslock then ch - 32 else ch)
    else if shift_down s && not (entry keymap_shift sc == 0)
    then entry keymap_shift sc
    else ch

-- `keyboard_ps2_get_char` and `keyboard_ps2_try_get_char`, whose code is the same but for the read.
unfoldable pub get_char : Option ℕ → KeyboardState → ℕ × KeyboardState
get_char none s = (0, s)
get_char (some sc) s =
    let s' = update_state sc s in
    if not (bit_and sc 0x80 == 0)
    then (0, s')
    else if not (ltb sc 128)
    then (sc % 256, s')
    else (translate sc s', s')

-- The state after a row of scan codes.
unfoldable pub run : List ℕ → KeyboardState → KeyboardState
run [] s = s
run (sc ∷ codes) s = run codes (get_char (some sc) s).1
