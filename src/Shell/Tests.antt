-- ===== src/Shell/Tests.antt =====
-- The shell of Kernel/src/vshell.c at concrete inputs.
use aos.Base.{ℕ, ◌≡◌, refl, arith, true, ◌==◌, List, [], ◌∷◌, none, some}
use aos.Shell.{read_line, is_ascii, input_line, handle_line, reboot, reboot_text}
use aos.Shell.{Turn, waiting, complete, shell_turn, after}
use aos.Shell.Lines.{IsLine, edited, any_key, read_line_lem}
use aos.Shell.Typed.{IsTyped, input_line_lem}
use aos.Shell.Confirm.{Confirms, Stops, line_of, last_line, is_refused, confirmed}

-- "hi!", the last character erased, then "x" and Enter, in a buffer of four bytes.
abbrev typed_chars : List ℕ
typed_chars = 104 ∷ 105 ∷ 33 ∷ 8 ∷ 0 ∷ 120 ∷ 121 ∷ 10 ∷ []

typed_line : edited any_key 3 [] typed_chars ≡ some (120 ∷ 105 ∷ 104 ∷ [])
typed_line = refl

read_line_lem_example :
    IsLine 4 (λ i. 7) (edited any_key 3 [] typed_chars) (read_line 4 (λ i. 7) typed_chars)
read_line_lem_example = read_line_lem 4 (λ i. 7) typed_chars (omega arith)

input_line_lem_example :
    IsTyped 3 (λ i. 7) (edited is_ascii 3 [] typed_chars) (input_line 3 (λ i. 7) 0 typed_chars)
input_line_lem_example = input_line_lem 3 (λ i. 7) typed_chars

-- "reboot", a turn without a line, an empty line, then "y", on a screen that takes everything.
abbrev asked : List Turn
asked =
    complete [] (λ i. true) true true
    ∷ waiting true
    ∷ complete reboot_text (λ i. true) true true
    ∷ []

abbrev yes : Turn
yes = complete (121 ∷ []) (λ i. true) true true

rebooted : shell_turn 2 yes ≡ (some 0, reboot)
unfolding shell_turn handle_line
rebooted = refl

-- The screen refuses the new line behind the answer.
gives_up : shell_turn 2 (complete (121 ∷ []) (λ i. i == 0) true true) ≡ (none, reboot)
unfolding shell_turn handle_line
gives_up = refl

confirmed_example :
    Confirms (shell_turn 2 yes).1 (line_of yes) (last_line asked)
    × Stops (is_refused yes) (shell_turn 2 yes)
unfolding after shell_turn handle_line
confirmed_example = confirmed asked 2 yes refl
