-- ===== src/Shell/Lines.antt =====
-- Kernel/src/vshell.c and `ps2_read_line` of Kernel/drivers/io/io.c: the line that the keys type.
use aos.Base.{
  ℕ, suc, ◌+◌, ◌-◌, ◌<◌, ◌≤◌, ◌≡◌, ◌∙◌, refl, arith, Bool, true, false, not, ◌&&◌, ltb, ◌==◌,
}
use aos.Base.{if◌then◌else◌, List, [], ◌∷◌, length, Option, none, some, Bool-cases, inl, inr}
use native.Mathlib.Numerals.{add-one}
use aos.Shell.{Buffer, put, read_line_from, read_line}

abbrev pub without_last : List ℕ → List ℕ
without_last [] = []
without_last (c ∷ line) = line

-- A line as it is typed, its last character first. A key that is not taken changes nothing.
abbrev pub edit : (takes : ℕ → Bool) (room : ℕ) (line : List ℕ) (key : ℕ) → List ℕ
edit takes room line key =
    if key == 8
    then without_last line
    else if takes key && ltb (length line) room
    then key ∷ line
    else line

-- The line when Enter ends it.
abbrev pub edited : (takes : ℕ → Bool) (room : ℕ) (line : List ℕ) → List ℕ → Option (List ℕ)
edited takes room line [] = none
edited takes room line (key ∷ keys) =
    let rest = edited takes room (edit takes room line key) keys in
    if key == b'\n' then some line else rest

-- The buffer holds the line from its start on.
abbrev pub Holds : Buffer → List ℕ → Type 0
Holds buf [] = Unit {0}
Holds buf (c ∷ line) = (buf (length line) ≡ c) × Holds buf line

pub put-Holds :
    (buf : Buffer) (i c : ℕ) (line : List ℕ)
    → length line ≤ i
    → Holds buf line
    → Holds (put buf i c) line
put-Holds buf i c [] l h = tt
put-Holds buf i c (d ∷ line) l h =
    (ground (arith, l, h.0), put-Holds buf i c line (omega (arith, l)) h.1)

abbrev pub any_key : ℕ → Bool
any_key c = not (c == 0)

-- The line and a byte 0 behind it, in the first `max_len` cells; the others are as they were.
abbrev pub IsLine : (max_len : ℕ) (buf : Buffer) → Option (List ℕ) → Option Buffer → Type 0
IsLine max_len buf none none = Unit {0}
IsLine max_len buf none (some buf') = ⊥
IsLine max_len buf (some line) none = ⊥
IsLine max_len buf (some line) (some buf') =
    Holds buf' line
    × (buf' (length line) ≡ 0)
    × (length line < max_len)
    × ((i : ℕ) → max_len ≤ i → buf' i ≡ buf i)

pub other : (buf : Buffer) (i c j : ℕ) → i < j → put buf i c j ≡ buf j
other buf i c j far = ground (arith, far)

-- Behind an erased character the rest goes on as from the line without it.
erased :
    (max_len : ℕ) (buf0 buf : Buffer) (chars : List ℕ)
    → ((line : List ℕ)
        → length line < max_len
        → Holds buf line
        → IsLine max_len buf0
            (edited any_key (max_len - 1) line chars)
            (read_line_from max_len buf (length line) chars))
    → (line : List ℕ) → length line < max_len
    → Holds buf line
    → IsLine max_len buf0
        (edited any_key (max_len - 1) (without_last line) chars)
        (read_line_from max_len buf (length line - 1) chars)
erased max_len buf0 buf chars next [] l h = next [] l h
erased max_len buf0 buf chars next (d ∷ line) l h =
    let back : suc (length line) - 1 ≡ length line = omega arith in
    rw back (next line (omega (arith, l)) h.1)

read_line_from_lem :
    (max_len : ℕ) (buf0 buf : Buffer) (line chars : List ℕ)
    → length line < max_len
    → Holds buf line
    → ((i : ℕ) → max_len ≤ i → buf i ≡ buf0 i)
    → IsLine max_len buf0
        (edited any_key (max_len - 1) line chars)
        (read_line_from max_len buf (length line) chars)
unfolding read_line_from
read_line_from_lem max_len buf0 buf line [] l h same = tt
read_line_from_lem max_len buf0 buf line (c ∷ chars) l h same =
    let next = λ (b : Buffer) (line' : List ℕ). read_line_from_lem max_len buf0 b line' chars in
    elim (Bool-cases (c == 0)) [
      | inl z ↦
          let enter : (c == b'\n') ≡ false = ground (arith, z) in
          let erase : (c == 8) ≡ false = ground (arith, z) in
          rw (z, enter, erase) (next buf line l h same)
      | inr z ↦ elim (Bool-cases (c == b'\n')) [
        | inl enter ↦
            rw (z, enter)
              (
                put-Holds buf (length line) 0 line (omega arith) h,
                ground arith,
                l,
                λ i far. other buf (length line) 0 i (omega (arith, l, far)) ∙ same i far,
              )
        | inr enter ↦ elim (Bool-cases (c == 8)) [
          | inl erase ↦
              rw (z, enter, erase)
                (erased max_len buf0 buf chars (λ line' l' h'. next buf line' l' h' same) line l h)
          | inr erase ↦ elim (Bool-cases (ltb (length line + 1) max_len)) [
            | inl t ↦
                let free : ltb (length line) (max_len - 1) ≡ true = ground (arith, t) in
                rw (z, enter, erase, t, free, add-one)
                  (next (put buf (length line) c) (c ∷ line) (ground (arith, t))
                    (ground arith, put-Holds buf (length line) c line (omega arith) h)
                    (λ i far. other buf (length line) c i (omega (arith, l, far)) ∙ same i far))
            | inr t ↦
                let full : ltb (length line) (max_len - 1) ≡ false = ground (arith, t) in
                rw (z, enter, erase, t, full) (next buf line l h same)
          ]
        ]
      ]
    ]

-- ps2_read_line, for a buffer of at least one byte, leaves the line that the keys have typed when
-- Enter ends it, as far as it fits with the byte 0 behind it, and writes to no byte behind the buffer;
-- where Enter does not come it does not end.
pub read_line_lem :
    (max_len : ℕ) (buf : Buffer) (chars : List ℕ)
    → 0 < max_len
    → IsLine max_len buf (edited any_key (max_len - 1) [] chars) (read_line max_len buf chars)
unfolding read_line
read_line_lem max_len buf chars pos =
    read_line_from_lem max_len buf buf [] chars pos tt (λ i far. refl)
