-- ===== src/Keyboard/Held.antt =====
-- Kernel/drivers/keyboard/keyboard.c: the shift keys and caps lock over a row of scan codes.
use aos.Base.{
  ℕ, ◌≡◌, refl, sym, ◌∙◌, arith, Bool, true, false, not, xor, List, [], ◌∷◌, Option, none, some,
}
use aos.Base.{◌==◌, if◌then◌else◌, Bool-cases, ==_iff, inl, inr}
use mathlib.Core.Path.{subst}
use aos.Keyboard.{KeyboardState, update_state, get_char, run}

-- What the last of the two codes in the row says: pressed or released.
abbrev pub latest : (press release : ℕ) → List ℕ → Option Bool
latest press release [] = none
latest press release (c ∷ codes) = elim (latest press release codes) [
  | some b ↦ some b
  | none ↦ if c == press then some true else if c == release then some false else none
]

abbrev pub or_before : Option Bool → Bool → Bool
or_before none was = was
or_before (some b) was = b

-- Whether a code stands in the row an odd number of times.
abbrev pub is_odd : (code : ℕ) → List ℕ → Bool
is_odd code [] = false
is_odd code (c ∷ codes) = xor (c == code) (is_odd code codes)

-- The state that a row of codes leaves: a shift key is down if it was pressed last, up if it was
-- released last, and as before if neither; caps lock is toggled once for each press.
abbrev pub left_by : List ℕ → KeyboardState → KeyboardState
left_by codes s = record {
  lshift = or_before (latest 0x2A 0xAA codes) s.lshift;
  rshift = or_before (latest 0x36 0xB6 codes) s.rshift;
  capslock = xor s.capslock (is_odd 0x3A codes);
}

get_char-state : (sc : ℕ) (s : KeyboardState) → (get_char (some sc) s).1 ≡ update_state sc s
unfolding get_char
get_char-state sc s = ground arith

-- The three keys do not get in each other's way.
abbrev apart : ℕ → KeyboardState → KeyboardState
apart sc s = record {
  lshift = if sc == 0x2A then true else if sc == 0xAA then false else s.lshift;
  rshift = if sc == 0x36 then true else if sc == 0xB6 then false else s.rshift;
  capslock = if sc == 0x3A then not s.capslock else s.capslock;
}

update_state-apart : (sc : ℕ) (s : KeyboardState) → update_state sc s ≡ apart sc s
unfolding update_state
update_state-apart sc s = elim (Bool-cases (sc == 0x2A)) [
  | inl e ↦ subst (λ c. update_state c s ≡ apart c s) (sym ((==_iff sc 0x2A).0 e)) refl
  | inr e ↦ elim (Bool-cases (sc == 0x36)) [
    | inl f ↦ subst (λ c. update_state c s ≡ apart c s) (sym ((==_iff sc 0x36).0 f)) refl
    | inr f ↦ elim (Bool-cases (sc == 0xAA)) [
      | inl g ↦ subst (λ c. update_state c s ≡ apart c s) (sym ((==_iff sc 0xAA).0 g)) refl
      | inr g ↦ elim (Bool-cases (sc == 0xB6)) [
        | inl h ↦ subst (λ c. update_state c s ≡ apart c s) (sym ((==_iff sc 0xB6).0 h)) refl
        | inr h ↦ rw (e, f, g, h) (only_caps (sc == 0x3A))
      ]
    ]
  ]
]
  where
    only_caps :
        (b : Bool)
        → (if b then record s { capslock = not s.capslock } else s)
          ≡ record s { capslock = if b then not s.capslock else s.capslock }
    only_caps true = refl
    only_caps false = refl

or_before-later :
    (o : Option Bool) (press release was : Bool)
    → or_before o (if press then true else if release then false else was)
      ≡ or_before
          (elim o [
            | some b ↦ some b
            | none ↦ if press then some true else if release then some false else none
          ])
          was
or_before-later (some b) press release was = refl
or_before-later none true release was = refl
or_before-later none false true was = refl
or_before-later none false false was = refl

toggled :
    (press was odd : Bool) → xor (if press then not was else was) odd ≡ xor was (xor press odd)
unfolding xor
toggled true true true = refl
toggled true true false = refl
toggled true false true = refl
toggled true false false = refl
toggled false true true = refl
toggled false true false = refl
toggled false false true = refl
toggled false false false = refl

xor-false : (b : Bool) → xor b false ≡ b
unfolding xor
xor-false true = refl
xor-false false = refl

left_by-later :
    (sc : ℕ) (codes : List ℕ) (s : KeyboardState)
    → left_by codes (update_state sc s) ≡ left_by (sc ∷ codes) s
left_by-later sc codes s =
    rw
      (
        update_state-apart sc s,
        or_before-later (latest 0x2A 0xAA codes) (sc == 0x2A) (sc == 0xAA) s.lshift,
        or_before-later (latest 0x36 0xB6 codes) (sc == 0x36) (sc == 0xB6) s.rshift,
        toggled (sc == 0x3A) s.capslock (is_odd 0x3A codes),
      )
      refl

-- After any row of scan codes a shift key counts as held exactly if it was pressed after it was
-- last released, or neither and it was held before, and caps lock has been toggled once for each
-- press of its key: what characters were read on the way plays no part.
pub run_lem : (codes : List ℕ) (s : KeyboardState) → run codes s ≡ left_by codes s
unfolding run
run_lem [] s = rw (xor-false s.capslock) refl
run_lem (sc ∷ codes) s =
    run_lem codes (get_char (some sc) s).1 ∙ rw (get_char-state sc s) (left_by-later sc codes s)
