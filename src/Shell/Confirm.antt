-- ===== src/Shell/Confirm.antt =====
-- Kernel/src/vshell.c: leaving the shell and rebooting are asked about first.
use aos.Base.{ℕ, ◌≡◌, ◌≢◌, ◌⊎◌, ◌∙◌, refl, sym, ap, arith, Bool, true, false, not, ◌||◌, ◌&&◌, ◌==◌}
use aos.Base.{List, [], ◌∷◌, Option, none, some, if◌then◌else◌, Bool-cases, Option-cases, inl, inr}
use mathlib.Core.Path.{subst}
use aos.Shell.{same_text, exit_text, reboot_text, is_yes, Action, print, exit, reboot, command}
use aos.Shell.{Screen, all_taken, LineResult, ask, act, handle_line}
use aos.Shell.{Turn, waiting, complete, reload, shell_turn, turn_after, after}

-- The line of a turn, empty where none is complete, and the latest line that is not empty.
abbrev pub line_of : Turn → List ℕ
line_of (waiting flushed) = []
line_of (complete line screen command_done flushed) = line
line_of (reload screen) = []

abbrev pub or_last : (line last : List ℕ) → List ℕ
or_last [] last = last
or_last (c ∷ cs) last = c ∷ cs

abbrev pub last_line : List Turn → List ℕ
last_line [] = []
last_line (t ∷ earlier) = or_last (line_of t) (last_line earlier)

-- Is a call of the turn that draws refused, or does its command fail? A line takes five calls at most.
abbrev pub is_refused : Turn → Bool
is_refused (waiting flushed) = not flushed
is_refused (complete line screen command_done flushed) =
    not (all_taken screen 5 && command_done && flushed)
is_refused (reload screen) = not (all_taken screen 5)

same_text_eq : (s t : List ℕ) → same_text s t ≡ true → s ≡ t
same_text_eq [] [] h = refl
same_text_eq [] (d ∷ ds) h = cc
same_text_eq (c ∷ cs) [] h = cc
same_text_eq (c ∷ cs) (d ∷ ds) h =
    let heads : c ≡ d = ground (arith, h) in
    let tails : cs ≡ ds = same_text_eq cs ds (ground (arith, h)) in cc

-- The question that `last_cmd` stands for was asked for that line.
abbrev pub Asks : (last_cmd : ℕ) → List ℕ → Type 0
Asks last_cmd line =
    (last_cmd ≡ 1 → same_text line exit_text ≡ true)
    × (last_cmd ≡ 2 → same_text line reboot_text ≡ true)

-- Is an action the one that this line, the answer to the line before it, confirms?
abbrev pub Confirms : Action → (line last : List ℕ) → Type 0
Confirms print line last = Unit {0}
Confirms exit line last = (is_yes line ≡ true) × (last ≡ exit_text)
Confirms reboot line last = (is_yes line ≡ true) × (last ≡ reboot_text)
Confirms command line last = Unit {0}

-- The shell goes on where it does not leave for the safety shell, and stops only where it does or
-- where the turn is refused.
abbrev pub Stops : (refused : Bool) → Option ℕ × Action → Type 0
Stops refused (some last_cmd, action) = action ≢ exit
Stops refused (none, action) = (action ≡ exit) ⊎ (refused ≡ true)

-- What a line leads to, by what it is: "exit", "reboot", or a yes.
abbrev outcome :
    Screen → (command_done : Bool) (last_cmd : ℕ) (is_exit is_reboot agreed : Bool) → LineResult
outcome screen command_done last_cmd is_exit is_reboot agreed =
    if last_cmd == 1 || is_exit
    then (if last_cmd == 1
        then (if agreed then act screen 1 last_cmd false exit else act screen 2 last_cmd true print)
        else ask screen 1 last_cmd)
    else if last_cmd == 2 || is_reboot
    then (if last_cmd == 2
        then (if agreed
            then act screen 2 last_cmd true reboot
            else act screen 2 last_cmd true print)
        else ask screen 2 last_cmd)
    else if last_cmd == 0
    then (if command_done
        then act screen 0 last_cmd true command
        else record { returned = false; running = true; last_cmd = last_cmd; action = command })
    else act screen 3 0 true print

handle_line-outcome :
    (screen : Screen) (command_done : Bool) (last_cmd c : ℕ) (cs : List ℕ)
    → let line = c ∷ cs in
      handle_line screen command_done last_cmd line
      ≡ outcome screen command_done last_cmd
          (same_text line exit_text)
          (same_text line reboot_text)
          (is_yes line)
unfolding handle_line
handle_line-outcome screen command_done last_cmd c cs = refl

outcome_exit :
    (s : Screen) (d : Bool) (k : ℕ) (x y z : Bool)
    → (outcome s d k x y z).returned ≡ true
    → (outcome s d k x y z).last_cmd ≡ 1
    → x ≡ true
outcome_exit s d k x y z r e = ground (arith, r, e)

outcome_reboot :
    (s : Screen) (d : Bool) (k : ℕ) (x y z : Bool)
    → (outcome s d k x y z).returned ≡ true
    → (outcome s d k x y z).last_cmd ≡ 2
    → y ≡ true
outcome_reboot s d k x y z r e = ground (arith, r, e)

outcome_stops :
    (s : Screen) (d : Bool) (k : ℕ) (x y z : Bool)
    → all_taken s 5 ≡ true
    → d ≡ true
    → (outcome s d k x y z).returned ≡ true
outcome_stops s d k x y z r e = ground (arith, r, e)

outcome_running :
    (s : Screen) (d : Bool) (k : ℕ) (x y z : Bool)
    → (outcome s d k x y z).running ≡ false
    → (outcome s d k x y z).action ≡ exit
outcome_running s d k x y z e = ground (arith, e)

outcome_leaves :
    (s : Screen) (d : Bool) (k : ℕ) (x y z : Bool)
    → (outcome s d k x y z).running ≡ true
    → (outcome s d k x y z).action ≢ exit
outcome_leaves s d k x y z e = ground (arith, e)

outcome-Confirms :
    (s : Screen) (d : Bool) (k : ℕ) (x y z : Bool) (line last : List ℕ)
    → z ≡ is_yes line
    → Asks k last
    → Confirms (outcome s d k x y z).action line last
outcome-Confirms s d k x y z line last e (asks_exit, asks_reboot) = elim (Bool-cases (k == 1)) [
  | inl t ↦ elim (Bool-cases z) [
    | inl a ↦ rw (t, a) (sym e ∙ a, same_text_eq last exit_text (asks_exit (ground (arith, t))))
    | inr a ↦ rw (t, a) tt
  ]
  | inr t ↦ elim (Bool-cases x) [
    | inl a ↦ rw (t, a) tt
    | inr a ↦ elim (Bool-cases (k == 2)) [
      | inl u ↦ elim (Bool-cases z) [
        | inl b ↦
            rw (t, a, u, b)
              (sym e ∙ b, same_text_eq last reboot_text (asks_reboot (ground (arith, u))))
        | inr b ↦ rw (t, a, u, b) tt
      ]
      | inr u ↦ elim (Bool-cases y) [
        | inl b ↦ rw (t, a, u, b) tt
        | inr b ↦ elim (Bool-cases (k == 0)) [
          | inl v ↦ elim (Bool-cases d) [
            | inl w ↦ rw (t, a, u, b, v, w) tt
            | inr w ↦ rw (t, a, u, b, v, w) tt
          ]
          | inr v ↦ rw (t, a, u, b, v) tt
        ]
      ]
    ]
  ]
]

kept :
    (stays : Bool) (k l : ℕ) → (if stays then some k else none) ≡ some l → (stays ≡ true) × (k ≡ l)
kept true k l e = (refl, cc)
kept false k l e = absurd cc

-- The invariant of the loop: the latest line asks what `last_cmd` stands for.
line-Asks :
    (k l c : ℕ) (cs : List ℕ) (screen : Screen) (d f : Bool)
    → (shell_turn k (complete (c ∷ cs) screen d f)).0 ≡ some l
    → Asks l (c ∷ cs)
unfolding shell_turn handle_line
line-Asks k l c cs screen d f e =
    let line = c ∷ cs in
    let x = same_text line exit_text in
    let y = same_text line reboot_text in
    let z = is_yes line in
    let r = outcome screen d k x y z in
    let (stays, same) = kept (r.returned && f && r.running) r.last_cmd l e in
    let returned : r.returned ≡ true = ground (arith, stays) in
    (
      λ one. outcome_exit screen d k x y z returned (same ∙ one),
      λ two. outcome_reboot screen d k x y z returned (same ∙ two),
    )

turn-Asks :
    (k l : ℕ) (t : Turn) (last : List ℕ)
    → Asks k last
    → (shell_turn k t).0 ≡ some l
    → Asks l (or_last (line_of t) last)
unfolding shell_turn handle_line
turn-Asks k l (waiting f) last asked e = subst (λ (n : ℕ). Asks n last) (kept f k l e).1 asked
turn-Asks k l (reload screen) last asked e =
    subst (λ (n : ℕ). Asks n last) (kept (all_taken screen 5) k l e).1 asked
turn-Asks k l (complete [] screen d f) last asked e =
    subst (λ (n : ℕ). Asks n last) (kept (true && f && true) k l e).1 asked
turn-Asks k l (complete (c ∷ cs) screen d f) last asked e = line-Asks k l c cs screen d f e

after-Asks : (turns : List Turn) (k : ℕ) → after turns ≡ some k → Asks k (last_line turns)
unfolding after shell_turn handle_line
after-Asks [] k e = (λ one. absurd cc, λ two. absurd cc)
after-Asks (t ∷ earlier) l e = elim (Option-cases (after earlier)) [
  | inl n ↦
      let gone : none ≡ some l = ap (λ (o : Option ℕ). turn_after o t) (sym n) ∙ e in absurd cc
  | inr (k, s) ↦
      turn-Asks k l t (last_line earlier) (after-Asks earlier k s)
        (ap (λ (o : Option ℕ). turn_after o t) (sym s) ∙ e)
]

-- Whether the loop stops after a line, by what came of the line.
Stops-line :
    (r : LineResult) (flushed refused : Bool)
    → (r.running ≡ false → r.action ≡ exit)
    → (r.running ≡ true → r.action ≢ exit)
    → (refused ≡ false → (r.returned ≡ true) × (flushed ≡ true))
    → Stops refused (if r.returned && flushed && r.running then some r.last_cmd else none, r.action)
Stops-line r flushed refused leave stay going = elim (Bool-cases refused) [
  | inl r1 ↦ elim (Bool-cases (r.returned && flushed && r.running)) [
    | inl b ↦ rw b (stay (ground (arith, b)))
    | inr b ↦ rw b (inr r1)
  ]
  | inr r0 ↦ elim (Bool-cases r.running) [
    | inl b ↦ rw ((going r0).0, (going r0).1, b) (stay b)
    | inr b ↦ rw ((going r0).0, (going r0).1, b) (inl (leave b))
  ]
]

turn-Stops : (k : ℕ) (t : Turn) → Stops (is_refused t) (shell_turn k t)
unfolding shell_turn handle_line
turn-Stops k (waiting true) = λ e. absurd cc
turn-Stops k (waiting false) = inr refl
turn-Stops k (reload screen) = elim (Bool-cases (all_taken screen 5)) [
  | inl b ↦ rw b (λ e. absurd cc)
  | inr b ↦ rw b (inr refl)
]
turn-Stops k (complete [] screen d f) =
    Stops-line (handle_line screen d k []) f (is_refused (complete [] screen d f)) (λ e. absurd cc)
      (λ e same. cc) (λ e. (refl, ground (arith, e)))
turn-Stops k (complete (c ∷ cs) screen d f) =
    let line = c ∷ cs in
    let x = same_text line exit_text in
    let y = same_text line reboot_text in
    let z = is_yes line in
    Stops-line (outcome screen d k x y z) f (is_refused (complete line screen d f))
      (outcome_running screen d k x y z) (outcome_leaves screen d k x y z)
      (λ e.
        (outcome_stops screen d k x y z (ground (arith, e)) (ground (arith, e)), ground (arith, e)))

turn-Confirms :
    (k : ℕ) (t : Turn) (last : List ℕ) → Asks k last → Confirms (shell_turn k t).1 (line_of t) last
unfolding shell_turn handle_line
turn-Confirms k (waiting f) last asked = tt
turn-Confirms k (reload screen) last asked = tt
turn-Confirms k (complete [] screen d f) last asked = tt
turn-Confirms k (complete (c ∷ cs) screen d f) last asked =
    let line = c ∷ cs in
    outcome-Confirms screen d k (same_text line exit_text) (same_text line reboot_text)
      (is_yes line) line last refl asked

-- In a turn that the loop of vshell comes to, the shell leaves for the safety shell only on the answer
-- "y" or "Y" to an "exit", and the machine is rebooted only on such an answer to a "reboot": the latest
-- line before it that was not empty. The loop stops after the turn where it leaves so; otherwise it
-- stops only where a call that draws is refused in the turn or its command fails.
pub confirmed :
    (earlier : List Turn) (k : ℕ) (t : Turn)
    → after earlier ≡ some k
    → Confirms (shell_turn k t).1 (line_of t) (last_line earlier)
      × Stops (is_refused t) (shell_turn k t)
confirmed earlier k t e =
    (turn-Confirms k t (last_line earlier) (after-Asks earlier k e), turn-Stops k t)
