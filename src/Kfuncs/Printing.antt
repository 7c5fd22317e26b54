-- ===== src/Kfuncs/Printing.antt =====
-- Kernel/src/kfuncs.c: the text that `ku64_to_str` and `ki64_to_str` print.
use aos.Base.{ℕ, zero, suc, ◌+◌, ◌-◌, ◌/◌, ◌%◌, ◌<◌, ◌≡◌, ◌≢◌, refl, sym, ap, ◌∙◌, arith}
use aos.Base.{Bool, false, Option, none, some, ◌==◌}
use aos.Base.{Bool-cases, inl, inr, ◌⊎◌}
use aos.Kfuncs.Print.{Buffer, put, digit_to_char, put_digits}

-- The number without its lowest `i` digits.
unfoldable pub shifted : ℕ → ℕ → ℕ → ℕ
shifted base zero v = v
shifted base (suc i) v = shifted base i (v / base)

pub shifted-suc : (base i v : ℕ) → shifted base (suc i) v ≡ shifted base i v / base
unfolding shifted
shifted-suc base zero v = refl
shifted-suc base (suc i) v = shifted-suc base i (v / base)

-- All digits of the number stand in the memory from `p` to `q`, lowest first, and no others.
pub record Written (base : ℕ) (caps : Bool) (v p : ℕ) (buf : Buffer) (q : ℕ) (buf' : Buffer)
    : Type 0 where
  pub some_digit : p < q
  pub all_digits : shifted base (q - p) v ≡ 0
  pub digit : (i : ℕ) → p + i < q → buf' (p + i) ≡ digit_to_char caps (shifted base i v % base)
  pub no_more : (q ≡ p + 1) ⊎ (shifted base (q - (p + 1)) v ≢ 0)
  pub kept : (i : ℕ) → i < p → buf' i ≡ buf i

-- The number has more digits than the room, less one character, holds.
abbrev pub IsLong : (base v room : ℕ) → Type 0
IsLong base v zero = Unit {0}
IsLong base v (suc zero) = Unit {0}
IsLong base v (suc (suc room)) = shifted base (suc room) v ≢ 0

abbrev pub Digits : (base : ℕ) → Bool → (v room p : ℕ) → Buffer → Option ℕ × Buffer → Type 0
Digits base caps v room p buf (none, buf') = IsLong base v room
Digits base caps v room p buf (some q, buf') = (q < p + room) × Written base caps v p buf q buf'

module _ (base : ℕ) (caps : Bool) (v p : ℕ) (buf : Buffer) where
  abbrev first_put : Buffer
  first_put = put buf p (digit_to_char caps (v % base))

  Written-one : v / base ≡ 0 → Written base caps v p buf (p + 1) first_put
  unfolding shifted
  Written-one e = record {
    some_digit = omega arith;
    all_digits = rw (the_one p) e;
    digit = λ i l. ground arith;
    no_more = inl refl;
    kept = λ i l. ground arith;
  }
    where
      the_one : (p : ℕ) → p + 1 - p ≡ 1
      the_one p = omega arith

  Written-more :
      (q : ℕ) (buf' : Buffer)
      → v / base ≢ 0
      → Written base caps (v / base) (p + 1) first_put q buf'
      → Written base caps v p buf q buf'
  unfolding shifted
  Written-more q buf' e w = record {
    some_digit = omega (arith, w.some_digit);
    all_digits = rw longer w.all_digits;
    digit = at;
    no_more = inr (leading w.no_more);
    kept = λ i l. w.kept i (omega arith) ∙ ground arith;
  }
    where
      longer : q - p ≡ suc (q - (p + 1))
      longer = omega (arith, w.some_digit)

      leading :
          (q ≡ p + 1 + 1) ⊎ (shifted base (q - (p + 1 + 1)) (v / base) ≢ 0)
          → shifted base (q - (p + 1)) v ≢ 0
      leading (inl last) z = e (sym (ap (λ k. shifted base k v) (one last)) ∙ z)
        where
          one : q ≡ p + 1 + 1 → q - (p + 1) ≡ 1
          one h = omega (arith, h)
      leading (inr more) z = more (sym (ap (λ k. shifted base k v) (next_one w.some_digit)) ∙ z)
        where
          next_one : p + 1 < q → q - (p + 1) ≡ suc (q - (p + 1 + 1))
          next_one h = omega (arith, h)

      at : (i : ℕ) → p + i < q → buf' (p + i) ≡ digit_to_char caps (shifted base i v % base)
      at zero l = ap buf' (omega arith) ∙ w.kept p (omega arith) ∙ ground arith
      at (suc i) l = ap buf' (omega arith) ∙ w.digit i (omega arith)

  Digits-more :
      (room : ℕ) (r : Option ℕ × Buffer)
      → v / base ≢ 0
      → Digits base caps (v / base) (suc room) (p + 1) first_put r
      → Digits base caps v (suc (suc room)) p buf r
  unfolding shifted
  Digits-more room (some q, buf') e (l, w) = (omega arith, Written-more q buf' e w)
  Digits-more zero (none, buf') e h = e
  Digits-more (suc room) (none, buf') e h = h

pub put_digits-Digits :
    (room v base : ℕ) (caps : Bool) (p : ℕ) (buf : Buffer)
    → Digits base caps v room p buf (put_digits room v base caps p buf)
unfolding put_digits
put_digits-Digits zero v base caps p buf = tt
put_digits-Digits (suc zero) v base caps p buf = tt
put_digits-Digits (suc (suc room)) v base caps p buf =
    let not_full : (suc room == 0) ≡ false = ground arith in
    elim (Bool-cases (v / base == 0)) [
      | inl e ↦ rw (not_full, e) (omega arith, Written-one base caps v p buf (ground arith))
      | inr e ↦
          rw (not_full, e)
            (Digits-more base caps v p buf room _ (ground arith) (
              put_digits-Digits (suc room) (v / base) base caps (p + 1)
                (first_put base caps v p buf)))
    ]
