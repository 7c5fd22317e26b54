-- ===== src/Kfuncs/Clock.antt =====
-- Kernel/src/kfuncs.c: `is_leap_year` and `rtc_to_timestamp`.
use aos.Base.{ℕ, zero, suc, ◌+◌, ◌-◌, ◌*◌, ◌/◌, ◌%◌, ◌^◌, ◌<◌, ◌≤◌, ◌≡◌, refl, ap, arith}
use aos.Base.{Bool, true, false, not, ◌&&◌, ◌||◌, List, [], ◌∷◌, ◌==◌, if◌then◌else◌}

abbrev pub is_leap_year : ℕ → Bool
is_leap_year year = (year % 4 == 0) && (not (year % 100 == 0) || (year % 400 == 0))

-- A `uint32_t` difference.
abbrev pub sub32 : ℕ → ℕ → ℕ
sub32 a b = (a + 2 ^ 32 - b) % 2 ^ 32

abbrev pub month_table : List ℕ
month_table = 31 ∷ 28 ∷ 31 ∷ 30 ∷ 31 ∷ 30 ∷ 31 ∷ 31 ∷ 30 ∷ 31 ∷ 30 ∷ 31 ∷ []

-- `month_days[i]`; no month of a clock reads behind the table.
abbrev pub days_at : List ℕ → ℕ → ℕ
days_at [] i = 0
days_at (d ∷ ds) zero = d
days_at (d ∷ ds) (suc i) = days_at ds i

-- The loop over the months, for `k` rounds from the month with the index `i` on.
unfoldable pub add_months : (k i year days : ℕ) → ℕ
add_months zero i year days = days
add_months (suc k) i year days =
    add_months k (suc i) year
      (days + days_at month_table i + (if (i == 1) && is_leap_year year then 1 else 0))

abbrev pub leaps : ℕ → ℕ
leaps year =
    (sub32 (sub32 (sub32 year 1 / 4) 492) (sub32 (sub32 year 1 / 100) 19)
      + sub32 (sub32 year 1 / 400) 4)
    % 2 ^ 32

unfoldable pub rtc_to_timestamp : (year month day hour minute second : ℕ) → ℕ
rtc_to_timestamp year month day hour minute second =
    let days = sub32 year 1970 * 365 % 2 ^ 32 + leaps year in
    (add_months (month - 1) 0 year days + sub32 day 1) * 86400 + hour * 3600 + minute * 60 + second

-- The calendar: the days of a year, and those of the years and of the months before a date.
abbrev pub year_length : ℕ → ℕ
year_length year = if is_leap_year year then 366 else 365

abbrev pub years_before : ℕ → ℕ
years_before zero = 0
years_before (suc n) = years_before n + year_length (1970 + n)

-- January has the index 0.
abbrev pub month_length : (year i : ℕ) → ℕ
month_length year i =
    if i == 1
    then (if is_leap_year year then 29 else 28)
    else if (i == 3) || ((i == 5) || ((i == 8) || (i == 10)))
    then 30
    else 31

abbrev pub months_before : (year i : ℕ) → ℕ
months_before year zero = 0
months_before year (suc i) = months_before year i + month_length year i

years_before-leaps :
    (n : ℕ)
    → years_before n + ((1969 + n) / 100)
      ≡ 365 * n + ((1969 + n) / 4 - 492) + ((1969 + n) / 400 - 4) + 19
years_before-leaps zero = omega arith
years_before-leaps (suc n) = ground (arith, years_before-leaps n)

-- The days of a month by its index and whether the year is a leap year.
table-month :
    (leap : Bool) (i : ℕ)
    → i < 12
    → days_at month_table i + (if (i == 1) && leap then 1 else 0) ≡ (
        if i == 1
        then (if leap then 29 else 28)
        else if (i == 3) || ((i == 5) || ((i == 8) || (i == 10)))
        then 30
        else 31)
table-month leap zero h = refl
table-month true (suc zero) h = refl
table-month false (suc zero) h = refl
table-month leap (suc (suc zero)) h = refl
table-month leap (suc (suc (suc zero))) h = refl
table-month leap (suc (suc (suc (suc zero)))) h = refl
table-month leap (suc (suc (suc (suc (suc zero))))) h = refl
table-month leap (suc (suc (suc (suc (suc (suc zero)))))) h = refl
table-month leap (suc (suc (suc (suc (suc (suc (suc zero))))))) h = refl
table-month leap (suc (suc (suc (suc (suc (suc (suc (suc zero)))))))) h = refl
table-month leap (suc (suc (suc (suc (suc (suc (suc (suc (suc zero))))))))) h = refl
table-month leap (suc (suc (suc (suc (suc (suc (suc (suc (suc (suc zero)))))))))) h = refl
table-month leap (suc (suc (suc (suc (suc (suc (suc (suc (suc (suc (suc zero))))))))))) h = refl
table-month leap (suc (suc (suc (suc (suc (suc (suc (suc (suc (suc (suc (suc i)))))))))))) h =
    omega arith

add_months-sum :
    (k i year days : ℕ)
    → i + k ≤ 12
    → add_months k i year days + months_before year i ≡ days + months_before year (i + k)
unfolding add_months
add_months-sum zero i year days h = ap (λ j. days + months_before year j) (omega arith)
add_months-sum (suc k) i year days h =
    let ih =
      add_months-sum k (suc i) year
        (days + days_at month_table i + (if (i == 1) && is_leap_year year then 1 else 0))
        (omega arith) in
    let here = table-month (is_leap_year year) i (omega arith) in
    let same : months_before year (i + suc k) ≡ months_before year (suc i + k) =
      ap (months_before year) (omega arith) in
    omega (arith, ih, here, same)

leaps-years : (n : ℕ) → n < 8030 → 365 * n + leaps (1970 + n) ≡ years_before n
leaps-years n h = omega (arith, years_before-leaps n)

-- For the dates of the years 1970 to 9999 `rtc_to_timestamp` gives the seconds since the start of
-- 1970 by the Gregorian calendar: those of the whole years, months and days before the date and of
-- the time of day.
pub rtc_to_timestamp_lem :
    (n month day hour minute second : ℕ)
    → n < 8030
    → 0 < month
    → month ≤ 12
    → 0 < day
    → day ≤ 31
    → rtc_to_timestamp (1970 + n) month day hour minute second
      ≡ (years_before n + months_before (1970 + n) (month - 1) + (day - 1)) * 86400
        + hour * 3600
        + minute * 60
        + second
unfolding rtc_to_timestamp
rtc_to_timestamp_lem n month day hour minute second hn lo hi dlo dhi =
    let days = sub32 (1970 + n) 1970 * 365 % 2 ^ 32 + leaps (1970 + n) in
    let months = add_months-sum (month - 1) 0 (1970 + n) days (omega arith) in
    let years = leaps-years n hn in
    let day_index : sub32 day 1 ≡ day - 1 = omega arith in
    let elapsed : sub32 (1970 + n) 1970 * 365 % 2 ^ 32 ≡ 365 * n = omega arith in
    let same : months_before (1970 + n) (0 + (month - 1)) ≡ months_before (1970 + n) (month - 1) =
      ap (months_before (1970 + n)) (omega arith) in
    let summed : add_months (month - 1) 0 (1970 + n) days
        ≡ years_before n + months_before (1970 + n) (month - 1) =
      omega (arith, months, years, elapsed, same) in
    rw (summed, day_index) refl
