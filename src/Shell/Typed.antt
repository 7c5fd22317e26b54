-- ===== src/Shell/Typed.antt =====
-- Kernel/src/vshell.c: the line that the shell takes.
use aos.Base.{ℕ, ◌-◌, ◌≤◌, ◌≡◌, ◌∙◌, refl, arith, true, false, not, ◌&&◌, ◌||◌, ltb, leb, ◌==◌}
use aos.Base.{if◌then◌else◌, List, [], ◌∷◌, length, Option, none, some, Bool-cases, inl, inr}
use native.Mathlib.Numerals.{add-one}
use aos.Shell.{Buffer, put, is_ascii, handle_user_input, input_line}
use aos.Shell.Lines.{edited, without_last, Holds, put-Holds, other}

-- The line and its length, in the first `max_len` cells; the others are as they were.
abbrev pub IsTyped : (max_len : ℕ) (buf : Buffer) → Option (List ℕ) → Option (Buffer × ℕ) → Type 0
IsTyped max_len buf none none = Unit {0}
IsTyped max_len buf none (some x) = ⊥
IsTyped max_len buf (some line) none = ⊥
IsTyped max_len buf (some line) (some (buf', len)) =
    Holds buf' line
    × (len ≡ length line)
    × (len ≤ max_len)
    × ((i : ℕ) → max_len ≤ i → buf' i ≡ buf i)

Holds-without_last : (buf : Buffer) (line : List ℕ) → Holds buf line → Holds buf (without_last line)
Holds-without_last buf [] h = h
Holds-without_last buf (c ∷ line) h = h.1

length-without_last :
    (line : List ℕ)
    → (if leb (length line) 0 || false then length line else length line - 1)
      ≡ length (without_last line)
length-without_last [] = refl
length-without_last (c ∷ line) = ground arith

without_last_le : (line : List ℕ) → length (without_last line) ≤ length line
without_last_le [] = omega arith
without_last_le (c ∷ line) = omega arith

input_line_from :
    (max_len : ℕ) (buf0 buf : Buffer) (line keys : List ℕ)
    → length line ≤ max_len
    → Holds buf line
    → ((i : ℕ) → max_len ≤ i → buf i ≡ buf0 i)
    → IsTyped max_len buf0
        (edited is_ascii max_len line keys)
        (input_line max_len buf (length line) keys)
unfolding input_line handle_user_input
input_line_from max_len buf0 buf line [] l h same = tt
input_line_from max_len buf0 buf line (key ∷ keys) l h same =
    let next = λ (b : Buffer) (line' : List ℕ). input_line_from max_len buf0 b line' keys in
    elim (Bool-cases (key == 0)) [
      | inl z ↦
          let enter : (key == b'\n') ≡ false = ground (arith, z) in
          let erase : (key == 8) ≡ false = ground (arith, z) in
          let taken : is_ascii key ≡ false = ground (arith, z) in
          rw (z, enter, erase, taken) (next buf line l h same)
      | inr z ↦ elim (Bool-cases (key == 8)) [
        | inl erase ↦
            let enter : (key == b'\n') ≡ false = ground (arith, erase) in
            let shorter : length (without_last line) ≤ max_len =
              omega (arith, l, without_last_le line) in
            rw (z, enter, erase, length-without_last line)
              (next buf (without_last line) shorter (Holds-without_last buf line h) same)
        | inr erase ↦ elim (Bool-cases (key == b'\n')) [
          | inl enter ↦ rw (z, enter, erase) (h, refl, l, same)
          | inr enter ↦ elim (Bool-cases (is_ascii key && ltb (length line) max_len)) [
            | inl t ↦
                let free : (length line == max_len || not (is_ascii key)) ≡ false =
                  ground (arith, t) in
                rw (z, enter, erase, t, free, add-one)
                  (next (put buf (length line) key) (key ∷ line) (ground (arith, t))
                    (ground arith, put-Holds buf (length line) key line (omega arith) h)
                    (λ i far. other buf (length line) key i (ground (arith, t, far)) ∙ same i far))
            | inr t ↦
                let full : (length line == max_len || not (is_ascii key)) ≡ true =
                  ground (arith, t, l) in
                rw (z, enter, erase, t, full) (next buf line l h same)
          ]
        ]
      ]
    ]

-- The shell takes the line that the keys have typed when Enter ends it, printable characters as far as
-- they fit into max_len bytes, and writes to no byte behind them; where Enter does not come there is
-- no line.
pub input_line_lem :
    (max_len : ℕ) (buf : Buffer) (keys : List ℕ)
    → IsTyped max_len buf (edited is_ascii max_len [] keys) (input_line max_len buf 0 keys)
input_line_lem max_len buf keys =
    input_line_from max_len buf buf [] keys (omega arith) tt (λ i far. refl)
