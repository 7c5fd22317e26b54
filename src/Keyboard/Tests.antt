-- ===== src/Keyboard/Tests.antt =====
-- Kernel/drivers/keyboard/keyboard.c: keys pressed in a row.
use aos.Base.{◌≡◌, refl, true, false, xor, [], ◌∷◌, some}
use aos.Keyboard.{KeyboardState, update_state, translate, get_char, run}
use aos.Keyboard.Held.{left_by, run_lem}
use aos.Keyboard.Keys.{Cased, translate_lem}

abbrev at_rest : KeyboardState
at_rest = record { lshift = false; rshift = false; capslock = false }

abbrev shifted_caps : KeyboardState
shifted_caps = record { lshift = true; rshift = false; capslock = true }

small_a : (get_char (some 0x1E) at_rest).0 ≡ b'a'
unfolding get_char translate update_state xor
small_a = refl

-- With shift and caps lock the letter is small again, and the digit is not.
shifted_keys :
    ((get_char (some 0x1E) shifted_caps).0 ≡ b'a') × ((get_char (some 0x02) shifted_caps).0 ≡ b'!')
unfolding get_char translate update_state xor
shifted_keys = (refl, refl)

run_lem_example :
    run (0x2A ∷ 0x3A ∷ 0x1E ∷ 0xAA ∷ []) at_rest ≡ left_by (0x2A ∷ 0x3A ∷ 0x1E ∷ 0xAA ∷ []) at_rest
run_lem_example = run_lem (0x2A ∷ 0x3A ∷ 0x1E ∷ 0xAA ∷ []) at_rest

translate_lem_example : Cased 0x1E shifted_caps
translate_lem_example = translate_lem 0x1E shifted_caps
