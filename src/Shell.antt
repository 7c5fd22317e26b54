-- ===== src/Shell.antt =====
-- Kernel/src/vshell.c and `ps2_read_line` of Kernel/drivers/io/io.c: how lines are typed, and which
-- of them the shell acts on. Characters are numbers, and a key that gives none is 0.
pub mod Lines
pub mod Typed
pub mod Confirm
mod Tests
use aos.Base.{
  ℕ, zero, suc, ◌+◌, ◌-◌, Bool, true, false, not, ◌&&◌, ◌||◌, ltb, leb, ◌==◌, if◌then◌else◌,
}
use aos.Base.{List, [], ◌∷◌, Option, none, some, length}

abbrev pub Buffer : Type 0
Buffer = ℕ → ℕ

abbrev pub put : Buffer → (i c : ℕ) → Buffer
put buf i c j = if j == i then c else buf j

-- The loop of `ps2_read_line` over the characters of the keyboard: the buffer when Enter ends it.
unfoldable pub read_line_from : (max_len : ℕ) → Buffer → (idx : ℕ) → List ℕ → Option Buffer
read_line_from max_len buf idx [] = none
read_line_from max_len buf idx (c ∷ chars) =
    let skipped = read_line_from max_len buf idx chars in
    let erased = read_line_from max_len buf (idx - 1) chars in
    let typed = read_line_from max_len (put buf idx c) (idx + 1) chars in
    if c == 0
    then skipped
    else if c == b'\n'
    then some (put buf idx 0)
    else if c == 8
    then erased
    else if ltb (idx + 1) max_len
    then typed
    else skipped

unfoldable pub read_line : (max_len : ℕ) → Buffer → List ℕ → Option Buffer
unfolding read_line_from
read_line max_len buf chars = read_line_from max_len buf 0 chars

abbrev pub is_ascii : (c : ℕ) → Bool
is_ascii c = leb 0x20 c && leb c 0x7E

-- `vshell_handle_user_input` for a key, where the screen takes what is printed or not: whether a line
-- is complete, the buffer, and the number of characters in it.
unfoldable pub handle_user_input :
    (max_len : ℕ) → Buffer → (len key : ℕ) → (printed : Bool) → Bool × Buffer × ℕ
handle_user_input max_len buf len key printed =
    if key == 0
    then (false, buf, len)
    else if key == 8
    then (false, buf, if leb len 0 || not printed then len else len - 1)
    else if key == b'\n'
    then (printed, buf, len)
    else if len == max_len || not (is_ascii key)
    then (false, buf, len)
    else (false, put buf len key, if printed then len + 1 else len)

-- The keys one after the other, on a screen that takes everything: the buffer and the length of the
-- line when it is complete, if it is.
unfoldable pub input_line : (max_len : ℕ) → Buffer → (len : ℕ) → List ℕ → Option (Buffer × ℕ)
unfolding handle_user_input
input_line max_len buf len [] = none
input_line max_len buf len (key ∷ keys) =
    let (complete, buf', len') = handle_user_input max_len buf len key true in
    let rest = input_line max_len buf' len' keys in if complete then some (buf', len') else rest

abbrev pub same_text : List ℕ → List ℕ → Bool
same_text [] [] = true
same_text [] (d ∷ ds) = false
same_text (c ∷ cs) [] = false
same_text (c ∷ cs) (d ∷ ds) = c == d && same_text cs ds

-- "exit", "reboot", "y" and "Y".
abbrev pub exit_text : List ℕ
exit_text = 101 ∷ 120 ∷ 105 ∷ 116 ∷ []

abbrev pub reboot_text : List ℕ
reboot_text = 114 ∷ 101 ∷ 98 ∷ 111 ∷ 111 ∷ 116 ∷ []

abbrev pub is_yes : List ℕ → Bool
is_yes line = same_text line (121 ∷ []) || same_text line (89 ∷ [])

-- What the shell does on a line: nothing but print, leave for the safety shell, reboot, or run
-- another command.
pub data Action : Type 0 where
  print exit reboot command : Action

-- Which of the calls that draw, one after the other in a turn of the shell, the screen takes, and
-- whether it takes the first `n`.
abbrev pub Screen : Type 0
Screen = ℕ → Bool

abbrev pub all_taken : Screen → (n : ℕ) → Bool
all_taken screen zero = true
all_taken screen (suc n) = all_taken screen n && screen n

-- What `vshell_handle_shell` returns, `vshell_running` and `last_cmd` then, and what was done.
pub record LineResult : Type 0 where
  pub returned : Bool
  pub running : Bool
  pub last_cmd : ℕ
  pub action : Action

-- A question: `last_cmd` is set when it has been printed.
abbrev pub ask : Screen → (question last_cmd : ℕ) → LineResult
ask screen question last_cmd = record {
  returned = screen 0;
  running = true;
  last_cmd = if screen 0 then question else last_cmd;
  action = print;
}

-- The line has been acted on: `prints` calls, then `last_cmd` is reset, and the directory and the
-- prompt are printed.
abbrev pub act : Screen → (prints last_cmd : ℕ) → (running : Bool) → Action → LineResult
act screen prints last_cmd running action = record {
  returned = all_taken screen (suc (suc prints));
  running = running;
  last_cmd = if all_taken screen prints then 0 else last_cmd;
  action = action;
}

-- `vshell_handle_shell` on a complete line, with `last_cmd`; `command_done` is whether another command
-- comes to its end, which it does not where it cannot print. A reboot that fails goes on as after any
-- other answer.
unfoldable pub handle_line : Screen → (command_done : Bool) → (last_cmd : ℕ) → List ℕ → LineResult
handle_line screen command_done last_cmd [] = record {
  returned = true;
  running = true;
  last_cmd = last_cmd;
  action = print;
}
handle_line screen command_done last_cmd (c ∷ cs) =
    let line = c ∷ cs in
    if last_cmd == 1 || same_text line exit_text
    then (if last_cmd == 1
        then (if is_yes line
            then act screen 1 last_cmd false exit
            else act screen 2 last_cmd true print)
        else ask screen 1 last_cmd)
    else if last_cmd == 2 || same_text line reboot_text
    then (if last_cmd == 2
        then (if is_yes line
            then act screen 2 last_cmd true reboot
            else act screen 2 last_cmd true print)
        else ask screen 2 last_cmd)
    else if last_cmd == 0
    then (if command_done
        then act screen 0 last_cmd true command
        else record { returned = false; running = true; last_cmd = last_cmd; action = command })
    else act screen 3 0 true print

-- A turn of the loop of `vshell`: no line is complete, a line is complete, or the screen is set up
-- again after a command has asked for it. `flushed` is the answer of `pyrion_flush`.
pub data Turn : Type 0 where
  waiting : (flushed : Bool) → Turn
  complete : (line : List ℕ) (screen : Screen) (command_done flushed : Bool) → Turn
  reload : (screen : Screen) → Turn

-- `last_cmd` after a turn, none where the loop is left, and what was done.
unfoldable pub shell_turn : (last_cmd : ℕ) → Turn → Option ℕ × Action
unfolding handle_line
shell_turn last_cmd (waiting flushed) = (if flushed then some last_cmd else none, print)
shell_turn last_cmd (complete line screen command_done flushed) =
    let r = handle_line screen command_done last_cmd line in
    (if r.returned && flushed && r.running then some r.last_cmd else none, r.action)
shell_turn last_cmd (reload screen) = (if all_taken screen 5 then some last_cmd else none, print)

abbrev pub turn_after : Option ℕ → Turn → Option ℕ
turn_after none t = none
turn_after (some last_cmd) t = (shell_turn last_cmd t).0

-- `last_cmd` after turns of the loop, the latest first; none where it has been left.
unfoldable pub after : List Turn → Option ℕ
unfolding shell_turn
after [] = some 0
after (t ∷ earlier) = turn_after (after earlier) t
