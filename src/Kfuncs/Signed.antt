-- ===== src/Kfuncs/Signed.antt =====
-- Kernel/src/kfuncs.c: what `ki64_to_str` prints, `kstr_to_i64` reads back.
use aos.Base.{ℕ, zero, suc, ◌+◌, ◌-◌, ◌^◌, ◌%◌, ◌<◌, ◌≤◌, ◌≡◌, ◌≢◌, ap, ◌∙◌, arith}
use aos.Base.{Bool, true, false, Option, none, some, leb, min, ◌==◌}
use aos.Base.{Bool-cases, inl, inr, ◌⊎◌}
use mathlib.Core.Path.{subst}
use native.Mathlib.Nat.{pow-le-pow_right}
use aos.Kfuncs.Parse.{ℤ, pos, negsuc, neg, int64_max, str_to_i64}
use aos.Kfuncs.Numerals.{str_to_i64_lem}
use aos.Kfuncs.Print.{Buffer, put, digit_to_char, turn, finish_digits, finish_neg, i64_to_str}
use aos.Kfuncs.Reverse.{turn_lem, turn-outside}
use aos.Kfuncs.Printing.{shifted, Written, Digits, put_digits-Digits}
use aos.Kfuncs.Texts.{text, IsNumeral, turned, no_sign, whole-text, shifted-small}

-- The text that a call returns ends with the byte 0 and is read back as `v`.
abbrev pub Returns : (base : ℕ) → ℤ → Bool × Buffer → Type 0
Returns base v (false, buf) = ⊥
Returns base v (true, buf) = (k : ℕ) × (buf k ≡ 0) × (str_to_i64 (text buf 0 k) base ≡ v)

no_long : (base v k : ℕ) → 1 < base → v ≤ int64_max + 1 → 64 ≤ k → shifted base k v ≡ 0
no_long base v k lo small room =
    let more : 2 ^ 64 ≤ 2 ^ k = pow-le-pow_right (omega arith) room in
    shifted-small k base v lo (omega (arith, more))

-- The loop over the digits ends before the buffer is full, three characters or more before its end.
abbrev pub Fits : ℕ → Bool → (v max_size : ℕ) → Buffer → Option ℕ × Buffer → Type 0
Fits base caps v max_size buf (none, buf') = ⊥
Fits base caps v max_size buf (some q, buf') = (q + 3 ≤ max_size) × Written base caps v 0 buf q buf'

Digits-Fits :
    (base : ℕ) (caps : Bool) (v max_size : ℕ) (buf : Buffer) (r : Option ℕ × Buffer)
    → 1 < base
    → v ≤ int64_max + 1
    → 67 ≤ max_size
    → Digits base caps v max_size 0 buf r
    → Fits base caps v max_size buf r
Digits-Fits base caps v zero buf (none, buf') lo small room l = omega arith
Digits-Fits base caps v (suc zero) buf (none, buf') lo small room l = omega arith
Digits-Fits base caps v (suc (suc n)) buf (none, buf') lo small room l =
    l (no_long base v (suc n) lo small (omega arith))
Digits-Fits base caps v max_size buf (some q, buf') lo small room (fit, w) = (
  elim (Bool-cases (leb (q + 3) max_size)) [
    | inl e ↦ ground arith
    | inr e ↦ few w.no_more (ground arith)
  ],
  w,
)
  where
    few : (q ≡ 0 + 1) ⊎ (shifted base (q - (0 + 1)) v ≢ 0) → max_size < q + 3 → q + 3 ≤ max_size
    few (inl one) h = omega arith
    few (inr more) h = absurd (more (no_long base v (q - (0 + 1)) lo small (omega arith)))

module _ (base : ℕ) (lo : 1 < base) (hi : base ≤ 36) (caps : Bool) where
  reads_pos :
      (v : ℕ) (buf : Buffer) (k : ℕ)
      → v ≤ int64_max
      → shifted base k v ≡ 0
      → IsNumeral base caps v buf 0 k
      → str_to_i64 (text buf 0 k) base ≡ pos v
  reads_pos v buf k small all h =
      str_to_i64_lem (text buf 0 k) base lo hi
      ∙ rw
          (
            no_sign base caps v buf 0 k b'-' (omega arith) h,
            no_sign base caps v buf 0 k b'+' (omega arith) h,
            whole-text base caps v buf 0 k lo hi all h,
          )
          (ap pos (ground arith))

  reads_neg :
      (n : ℕ) (buf : Buffer) (k : ℕ)
      → n ≤ int64_max
      → shifted base k (n + 1) ≡ 0
      → buf 0 ≡ b'-'
      → IsNumeral base caps (n + 1) buf 1 k
      → str_to_i64 (text buf 0 (suc k)) base ≡ negsuc n
  reads_neg n buf k small all sign h =
      let least : min (n + 1) (int64_max + 1) ≡ suc n = ground arith in
      str_to_i64_lem (text buf 0 (suc k)) base lo hi
      ∙ rw (sign, whole-text base caps (n + 1) buf 1 k lo hi all h) (ap neg least)

  pos-Returns :
      (v max_size : ℕ) (buf : Buffer) (r : Option ℕ × Buffer)
      → v ≤ int64_max
      → Fits base caps v max_size buf r
      → Returns base (pos v) (finish_digits max_size r)
  pos-Returns v max_size buf (none, buf') small h = absurd h
  pos-Returns v max_size buf (some q, buf') small (fit, w) =
      let not_full : ((q + 1) == max_size) ≡ false = ground arith in
      let same : q - 0 ≡ q = omega arith in
      let all = subst (λ k. shifted base k v ≡ 0) same w.all_digits in
      let ended : turn q 0 (q - 1) (put buf' q 0) q ≡ 0 =
        turn-outside q 0 (q - 1) (put buf' q 0) q (omega (arith, w.some_digit)) ∙ ground arith in
      rw not_full (
        q,
        ended,
        reads_pos v _ q small all (
            turned base caps v q buf' w.some_digit
              (λ i l. ap buf' (omega arith) ∙ w.digit i (omega arith))),
      )

  -- The memory behind the sign, the byte 0 and the turn.
  abbrev signed : Buffer → ℕ → Buffer
  signed buf q = turn (q + 1) 0 (q + 1 - 1) (put (put buf q b'-') (q + 1) 0)

  signed-mirror :
      (buf : Buffer) (q i : ℕ) → i ≤ q → signed buf q i ≡ put (put buf q b'-') (q + 1) 0 (q - i)
  signed-mirror buf q i l =
      turn_lem (q + 1) 0 (q + 1 - 1) (put (put buf q b'-') (q + 1) 0) i (omega arith) (omega arith)
        (omega arith)
      ∙ ap (put (put buf q b'-') (q + 1) 0) (omega arith)

  signed-ended : (buf : Buffer) (q : ℕ) → signed buf q (suc q) ≡ 0
  signed-ended buf q =
      turn-outside (q + 1) 0 (q + 1 - 1) (put (put buf q b'-') (q + 1) 0) (suc q) (omega arith)
      ∙ ground arith

  signed-sign : (buf : Buffer) (q : ℕ) → signed buf q 0 ≡ b'-'
  signed-sign buf q = signed-mirror buf q 0 (omega arith) ∙ ground arith

  signed-IsNumeral :
      (v q : ℕ) (buf : Buffer)
      → ((i : ℕ) → i < q → buf i ≡ digit_to_char caps (shifted base i v % base))
      → IsNumeral base caps v (signed buf q) 1 q
  unfolding IsNumeral
  signed-IsNumeral v q buf h j l =
      let there : q - (1 + (q - 1 - j)) ≡ j = omega arith in
      let before : (j == q) ≡ false = ground arith in
      let before' : (j == (q + 1)) ≡ false = ground arith in
      signed-mirror buf q (1 + (q - 1 - j)) (omega arith) ∙ rw (there, before, before') (h j l)

  neg-Returns :
      (n max_size : ℕ) (buf : Buffer) (r : Option ℕ × Buffer)
      → n ≤ int64_max
      → Fits base caps (n + 1) max_size buf r
      → Returns base (negsuc n) (finish_neg max_size r)
  neg-Returns n max_size buf (none, buf') small h = absurd h
  neg-Returns n max_size buf (some q, buf') small (fit, w) =
      let not_full : ((q + 1) == max_size) ≡ false = ground arith in
      let not_full' : ((q + 1 + 1) == max_size) ≡ false = ground arith in
      let same : q - 0 ≡ q = omega arith in
      let all = subst (λ k. shifted base k (n + 1) ≡ 0) same w.all_digits in
      rw (not_full, not_full')
        (
          suc q,
          signed-ended buf' q,
          reads_neg n _ q small all (signed-sign buf' q) (
              signed-IsNumeral (n + 1) q buf'
                (λ i l. ap buf' (omega arith) ∙ w.digit i (omega arith))),
        )

-- The numbers of `int64_t` that are printed with their sign: in base 10 all, in other bases those
-- that are not negative.
abbrev pub HasSign : ℕ → ℤ → Type 0
HasSign base (pos n) = n ≤ int64_max
HasSign base (negsuc n) = (n ≤ int64_max) × (base ≡ 10)

-- In base 10, and in the bases from 2 to 36 for numbers that are not negative, `ki64_to_str` prints
-- every number of `int64_t` into a buffer of 67 characters or more, as a text that the byte 0 ends
-- and that `kstr_to_i64` reads back.
pub parse-print_i64 :
    (v : ℤ) (buf : Buffer) (max_size base : ℕ) (caps : Bool)
    → 1 < base
    → base ≤ 36
    → HasSign base v
    → 67 ≤ max_size
    → Returns base v (i64_to_str v buf max_size base caps)
unfolding i64_to_str
parse-print_i64 (pos n) buf max_size base caps lo hi small room =
    let some_room : (max_size == 0) ≡ false = ground arith in
    rw some_room (
      pos-Returns base lo hi caps n max_size buf _ small (
        Digits-Fits base caps n max_size buf _ lo (omega arith) room
          (put_digits-Digits max_size n base caps 0 buf)))
parse-print_i64 (negsuc n) buf max_size base caps lo hi (small, ten) room =
    let some_room : (max_size == 0) ≡ false = ground arith in
    let base_ten : (base == 10) ≡ true = ground arith in
    rw (some_room, base_ten)
      (neg-Returns base lo hi caps n max_size buf _ small (
        Digits-Fits base caps (n + 1) max_size buf _ lo (omega arith) room
          (put_digits-Digits max_size (n + 1) base caps 0 buf)))
