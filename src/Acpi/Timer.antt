-- ===== src/Acpi/Timer.antt =====
-- Kernel/drivers/core/acpi.c: `acpi_mdelay`, over what the port of the timer reads time after time.
use aos.Base.{ℕ, ◌+◌, ◌-◌, ◌*◌, ◌%◌, ◌^◌, ◌<◌, ◌≤◌, ◌≡◌, refl, arith, Bool, true, false, ltb, ◌==◌}
use aos.Base.{List, [], ◌∷◌, Option, none, some, if◌then◌else◌, All, Bool-cases, inl, inr}

-- The ticks from one reading to the next, of a timer of 24 or of 32 bits. A difference for 24 bits is
-- one of 32 bits.
abbrev pub ticks_between : (bits24 : Bool) → (last current : ℕ) → ℕ
ticks_between bits24 last current =
    if ltb current last
    then (if bits24
        then (2 ^ 32 + current + 0x1000000 - last) % 2 ^ 32
        else current + 0x100000000 - last)
    else current - last

-- `acpi_timer_read`, where the port reads `x`.
abbrev pub timer_read : (port x : ℕ) → ℕ
timer_read port x = if port == 0 then 0 else x

-- The loop of `acpi_mdelay`: the ticks that have gone by when it ends, if it does so within the
-- readings.
unfoldable pub wait : (port : ℕ) (bits24 : Bool) (needed elapsed last : ℕ) → List ℕ → Option ℕ
wait port bits24 needed elapsed last [] = if ltb elapsed needed then none else some elapsed
wait port bits24 needed elapsed last (x ∷ readings) =
    let current = timer_read port x in
    let rest =
      wait port bits24 needed ((elapsed + ticks_between bits24 last current) % 2 ^ 64) current
        readings in
    if ltb elapsed needed then rest else some elapsed

-- `acpi_mdelay`, with the first reading.
unfoldable pub mdelay : (port : ℕ) (bits24 : Bool) (ms first : ℕ) → List ℕ → Option ℕ
unfolding wait
mdelay port bits24 ms first readings =
    wait port bits24 (ms * 3580 % 2 ^ 64) 0 (timer_read port first) readings

abbrev pub modulus : (bits24 : Bool) → ℕ
modulus true = 0x1000000
modulus false = 0x100000000

-- What a timer at `time` reads after so many ticks, and so many more, and so on.
abbrev pub readings : (bits24 : Bool) (time : ℕ) → List ℕ → List ℕ
readings bits24 time [] = []
readings bits24 time (d ∷ ticks) = (time + d) % modulus bits24 ∷ readings bits24 (time + d) ticks

-- The first sum of the ticks that reaches what is needed.
abbrev pub first_sum : (needed elapsed : ℕ) → List ℕ → Option ℕ
first_sum needed elapsed [] = if ltb elapsed needed then none else some elapsed
first_sum needed elapsed (d ∷ ticks) =
    let rest = first_sum needed (elapsed + d) ticks in
    if ltb elapsed needed then rest else some elapsed

ticks_between-mod :
    (bits24 : Bool) (time d : ℕ)
    → d < modulus bits24
    → ticks_between bits24 (time % modulus bits24) ((time + d) % modulus bits24) ≡ d
ticks_between-mod true time d h = ground (arith, h)
ticks_between-mod false time d h = ground (arith, h)

below_modulus : (bits24 : Bool) (d : ℕ) → d < modulus bits24 → d < 0x100000000
below_modulus true d h = omega (arith, h)
below_modulus false d h = omega (arith, h)

wait-first_sum :
    (port : ℕ) (bits24 : Bool) (needed elapsed time : ℕ) (ticks : List ℕ)
    → (port == 0) ≡ false
    → needed + 0x100000000 ≤ 2 ^ 64
    → All (λ d. d < modulus bits24) ticks
    → wait port bits24 needed elapsed (time % modulus bits24) (readings bits24 time ticks)
      ≡ first_sum needed elapsed ticks
unfolding wait
wait-first_sum port bits24 needed elapsed time [] there fit short = refl
wait-first_sum port bits24 needed elapsed time (d ∷ ticks) there fit short =
    elim (Bool-cases (ltb elapsed needed)) [
      | inl t ↦
          let below : elapsed < needed = ground (arith, t) in
          let small : d < 0x100000000 = below_modulus bits24 d short.0 in
          let sum : (elapsed + d) % 2 ^ 64 ≡ elapsed + d = omega (arith, below, fit, small) in
          rw (t, there, ticks_between-mod bits24 time d short.0, sum)
            (wait-first_sum port bits24 needed (elapsed + d) (time + d) ticks there fit short.1)
      | inr t ↦ rw t
    ]

-- On a timer that is there and is read before it has gone round, a delay of ms milliseconds ends at
-- the first reading that is 3580 ticks for each of them behind the first one.
pub mdelay_lem :
    (port : ℕ) (bits24 : Bool) (ms time : ℕ) (ticks : List ℕ)
    → 0 < port
    → ms * 3580 + 0x100000000 ≤ 2 ^ 64
    → All (λ d. d < modulus bits24) ticks
    → mdelay port bits24 ms (time % modulus bits24) (readings bits24 time ticks)
      ≡ first_sum (ms * 3580) 0 ticks
unfolding mdelay
mdelay_lem port bits24 ms time ticks there fit short =
    let found : (port == 0) ≡ false = ground (arith, there) in
    let needed : ms * 3580 % 2 ^ 64 ≡ ms * 3580 = omega (arith, fit) in
    rw (needed, found) (wait-first_sum port bits24 (ms * 3580) 0 time ticks found fit short)

wait-no_timer :
    (bits24 : Bool) (needed : ℕ) (xs : List ℕ) → 0 < needed → wait 0 bits24 needed 0 0 xs ≡ none
unfolding wait
wait-no_timer bits24 needed [] pos = ground (arith, pos)
wait-no_timer bits24 needed (x ∷ xs) pos =
    let below : ltb 0 needed ≡ true = ground (arith, pos) in
    rw below (wait-no_timer bits24 needed xs pos)

-- Where no timer was found, a delay that is not 0 never ends.
pub mdelay-no_timer :
    (bits24 : Bool) (ms first : ℕ) (xs : List ℕ)
    → 0 < ms
    → ms * 3580 < 2 ^ 64
    → mdelay 0 bits24 ms first xs ≡ none
unfolding mdelay
mdelay-no_timer bits24 ms first xs pos fit =
    wait-no_timer bits24 (ms * 3580 % 2 ^ 64) xs (omega (arith, pos, fit))
