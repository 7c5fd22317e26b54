-- ===== src/Kfuncs/ReadBack.antt =====
-- Kernel/src/kfuncs.c: what `ku64_to_str` prints, `kstr_to_u64` reads back.
use aos.Base.{ℕ, zero, suc, ◌+◌, ◌-◌, ◌/◌, ◌^◌, ◌<◌, ◌≤◌, ◌≡◌, ◌≢◌, sym, ap, ◌∙◌, arith}
use aos.Base.{Bool, true, false, Option, none, some, ◌==◌}
use aos.Base.{Bool-cases, inl, inr, ◌⊎◌}
use mathlib.Core.Path.{subst}
use native.Mathlib.Nat.{zero-div, pow-le-pow_right}
use aos.Kfuncs.Parse.{uint64_max, str_to_u64}
use aos.Kfuncs.Numerals.{str_to_u64_lem}
use aos.Kfuncs.Print.{Buffer, put, turn, finish, finish_digits, u64_to_str}
use aos.Kfuncs.Texts.{text, IsNumeral, turned, no_sign, whole-text, shifted-small}
use aos.Kfuncs.Reverse.{turn-outside}
use aos.Kfuncs.Printing.{shifted, shifted-suc, Written, IsLong, Digits, put_digits-Digits}

-- What a call of `ku64_to_str` comes to: a text that `kstr_to_u64` reads back, ended by the byte 0,
-- or no text where the number has more digits than fit with two characters behind them.
abbrev pub Printed : (base v max_size : ℕ) → Bool × Buffer → Type 0
Printed base v max_size (false, buf) = (max_size ≤ 2) ⊎ (shifted base (max_size - 2) v ≢ 0)
Printed base v max_size (true, buf) =
    (k : ℕ) × (0 < k) × (k + 1 < max_size) × (buf k ≡ 0) × (str_to_u64 (text buf 0 k) base ≡ v)

reads_u64 :
    (base : ℕ) (caps : Bool) (v : ℕ) (buf : Buffer) (k : ℕ)
    → 1 < base
    → base ≤ 36
    → v ≤ uint64_max
    → shifted base k v ≡ 0
    → IsNumeral base caps v buf 0 k
    → str_to_u64 (text buf 0 k) base ≡ v
reads_u64 base caps v buf k lo hi small all h =
    str_to_u64_lem (text buf 0 k) base lo hi
    ∙ rw
        (
          no_sign base caps v buf 0 k b'+' (omega arith) h,
          whole-text base caps v buf 0 k lo hi all h,
        )
        (ground arith)

too_long :
    (base v q max_size : ℕ)
    → q + 1 ≡ max_size
    → (q ≡ 0 + 1) ⊎ (shifted base (q - (0 + 1)) v ≢ 0)
    → (max_size ≤ 2) ⊎ (shifted base (max_size - 2) v ≢ 0)
too_long base v q max_size e (inl one) = inl (omega arith)
too_long base v q max_size e (inr more) =
    let same : max_size - 2 ≡ q - (0 + 1) = omega arith in
    inr (λ z. more (sym (ap (λ k. shifted base k v) same) ∙ z))

finish-Printed :
    (base : ℕ) (caps : Bool) (v max_size : ℕ) (buf : Buffer) (q : ℕ) (buf' : Buffer)
    → 1 < base
    → base ≤ 36
    → v ≤ uint64_max
    → q < max_size
    → Written base caps v 0 buf q buf'
    → Printed base v max_size (finish max_size q buf')
finish-Printed base caps v max_size buf q buf' lo hi small fit w =
    let same : q - 0 ≡ q = omega arith in
    let numeral_here =
      turned base caps v q buf' w.some_digit
        (λ i l. ap buf' (omega arith) ∙ w.digit i (omega arith)) in
    let ended : turn q 0 (q - 1) (put buf' q 0) q ≡ 0 =
      turn-outside q 0 (q - 1) (put buf' q 0) q (omega (arith, w.some_digit)) ∙ ground arith in
    elim (Bool-cases ((q + 1) == max_size)) [
      | inl e ↦ rw e (too_long base v q max_size (ground arith) w.no_more)
      | inr e ↦ rw e (
        q,
        w.some_digit,
        ground arith,
        ended,
        reads_u64 base caps v _ q lo hi small (subst (λ k. shifted base k v ≡ 0) same w.all_digits)
            numeral_here,
      )
    ]

IsLong-less :
    (base v max_size : ℕ)
    → 0 < base
    → IsLong base v max_size
    → (max_size ≤ 2) ⊎ (shifted base (max_size - 2) v ≢ 0)
IsLong-less base v zero h l = inl (omega arith)
IsLong-less base v (suc zero) h l = inl (omega arith)
IsLong-less base v (suc (suc n)) h l =
    let same : suc (suc n) - 2 ≡ n = omega arith in
    inr (λ z. l (
      shifted-suc base n v
      ∙ ap (λ x. x / base) (ap (λ k. shifted base k v) (sym same) ∙ z)
      ∙ zero-div base))

finish_digits-Printed :
    (base : ℕ) (caps : Bool) (v max_size : ℕ) (buf : Buffer) (r : Option ℕ × Buffer)
    → 1 < base
    → base ≤ 36
    → v ≤ uint64_max
    → Digits base caps v max_size 0 buf r
    → Printed base v max_size (finish_digits max_size r)
finish_digits-Printed base caps v max_size buf (none, buf') lo hi small l =
    IsLong-less base v max_size (omega arith) l
finish_digits-Printed base caps v max_size buf (some q, buf') lo hi small (fit, w) =
    finish-Printed base caps v max_size buf q buf' lo hi small (omega arith) w

-- In a base from 2 to 36 `ku64_to_str` prints a number of 64 bits as a text that the byte 0 ends
-- within the buffer, and `kstr_to_u64` reads the number back from it. It gives up only where the
-- buffer is smaller than the digits, the byte 0 and one character more.
pub u64_to_str_lem :
    (v : ℕ) (buf : Buffer) (max_size base : ℕ) (caps : Bool)
    → 1 < base
    → base ≤ 36
    → v ≤ uint64_max
    → Printed base v max_size (u64_to_str v buf max_size base caps)
unfolding u64_to_str
u64_to_str_lem v buf zero base caps lo hi small = inl (omega arith)
u64_to_str_lem v buf (suc n) base caps lo hi small =
    let some_room : (suc n == 0) ≡ false = ground arith in
    rw some_room (
      finish_digits-Printed base caps v (suc n) buf _ lo hi small
        (put_digits-Digits (suc n) v base caps 0 buf))

-- The text that a call returns is read back.
abbrev pub Returns : (base v : ℕ) → Bool × Buffer → Type 0
Returns base v (false, buf) = ⊥
Returns base v (true, buf) = (k : ℕ) × (buf k ≡ 0) × (str_to_u64 (text buf 0 k) base ≡ v)

below_room : (v max_size : ℕ) → v ≤ uint64_max → 66 ≤ max_size → v < 2 ^ (max_size - 2)
below_room v max_size small room =
    let fit : 64 ≤ max_size - 2 = omega arith in
    let more : 2 ^ 64 ≤ 2 ^ (max_size - 2) = pow-le-pow_right (omega arith) fit in
    omega (arith, more)

Printed-Returns :
    (base v max_size : ℕ) (r : Bool × Buffer)
    → 1 < base
    → v ≤ uint64_max
    → 66 ≤ max_size
    → Printed base v max_size r
    → Returns base v r
Printed-Returns base v max_size (true, buf) lo small room h = (h.0, h.3, h.4)
Printed-Returns base v max_size (false, buf) lo small room (inl h) = omega arith
Printed-Returns base v max_size (false, buf) lo small room (inr h) =
    h (shifted-small (max_size - 2) base v lo (below_room v max_size small room))

-- In a base from 2 to 36 and into a buffer of 66 characters or more, `ku64_to_str` prints every
-- number of 64 bits, and `kstr_to_u64` reads it back.
pub parse-print_u64 :
    (v : ℕ) (buf : Buffer) (max_size base : ℕ) (caps : Bool)
    → 1 < base
    → base ≤ 36
    → v ≤ uint64_max
    → 66 ≤ max_size
    → Returns base v (u64_to_str v buf max_size base caps)
parse-print_u64 v buf max_size base caps lo hi small room =
    Printed-Returns base v max_size (u64_to_str v buf max_size base caps) lo small room
      (u64_to_str_lem v buf max_size base caps lo hi small)
