-- ===== src/Mktime/Calendar.antt =====
-- The Gregorian calendar counted day by day, and `kernel_mktime` against it.
use linux.Common.{
  ℕ, zero, suc, ◌+◌, ◌-◌, ◌*◌, ◌/◌, ◌%◌, ◌≤◌, ◌<◌, ◌≡◌, refl, ap, ◌∙◌, Bool, true, false, ◌&&◌,
  ◌||◌, not, some, List, [], ◌∷◌, arith, ltb, leb, length, ◌==◌, ◌!=◌, if◌then◌else◌, get_or,
  get_elem?, holds_below, holds-of_below,
}
use linux.Common.Int.{pos, ◌+ℤ◌, ◌-ℤ◌, ◌*ℤ◌, quot, rem, pos_laws, pos--ℤ, wrap32-pos}
use linux.Mktime.{Tm, year, day, month, kernel_mktime, not_leap}

pub is_leap : ℕ → Bool
is_leap y = (y % 4 == 0 && y % 100 != 0) || y % 400 == 0

pub days_in_year : ℕ → ℕ
unfolding is_leap
days_in_year y = if is_leap y then 366 else 365

pub days_in_month : Bool → ℕ → ℕ
days_in_month leap m =
    if m == 1
    then (if leap then 29 else 28)
    else get_or (31 ∷ 28 ∷ 31 ∷ 30 ∷ 31 ∷ 30 ∷ 31 ∷ 31 ∷ 30 ∷ 31 ∷ 30 ∷ 31 ∷ []) m 0

-- The days from 1 January 1970 to 1 January of the year `1970 + n`.
pub days_before_year : ℕ → ℕ
unfolding days_in_year
days_before_year zero = 0
days_before_year (suc n) = days_before_year n + days_in_year (1970 + n)

-- The days of the months before month `m`, in a leap year or in another.
pub days_before_month : Bool → ℕ → ℕ
unfolding days_in_month
days_before_month leap zero = 0
days_before_month leap (suc m) = days_before_month leap m + days_in_month leap m

pub epoch_seconds : Tm → ℕ
unfolding days_before_year days_before_month is_leap
epoch_seconds t =
    86_400
      * (days_before_year (t.tm_year - 70)
          + days_before_month (is_leap (1900 + t.tm_year)) t.tm_mon
          + (t.tm_mday - 1))
    + 3600 * t.tm_hour
    + 60 * t.tm_min
    + t.tm_sec

-- A date and time of day that a clock shows, from 1970 up to the end of 2037.
pub record IsClockTime (t : Tm) : Type 0 where
  pub from_1970 : 70 ≤ t.tm_year
  pub to_2037 : t.tm_year ≤ 137
  pub month_in : t.tm_mon < 12
  pub day_from : 1 ≤ t.tm_mday
  pub day_to : t.tm_mday ≤ 31
  pub hour_in : t.tm_hour < 24
  pub minute_in : t.tm_min < 60
  pub second_in : t.tm_sec < 60

-- The rule that the code goes by in place of the Gregorian one.
abbrev fourth_year : ℕ → Bool
fourth_year n = (n + 2) % 4 == 0

year_table :
    holds_below 68 (λ n.
      days_before_year n == 365 * n + (n + 1) / 4
      && (if is_leap (1970 + n) then fourth_year n else not (fourth_year n)))
    ≡ true
unfolding holds_below days_before_year is_leap
year_table = refl

days_before_year_lem : (n : ℕ) → n < 68 → days_before_year n ≡ 365 * n + (n + 1) / 4
days_before_year_lem n h = ground (arith, holds-of_below 68 _ n year_table h)

is_leap_lem : (n : ℕ) → n < 68 → is_leap (1970 + n) ≡ fourth_year n
is_leap_lem n h = ground (arith, holds-of_below 68 _ n year_table h)

leap_of_tm : (y : ℕ) → 70 ≤ y → y ≤ 137 → is_leap (1900 + y) ≡ fourth_year (y - 70)
leap_of_tm y h k =
    let shift : 1900 + y ≡ 1970 + (y - 70) = omega arith in
    rw shift (is_leap_lem (y - 70) (omega arith))

-- What the loads from `month` give, for the months of a leap year and of another.
month_agrees : Bool → ℕ → Bool
month_agrees leap m =
    get_or month m 0 == 86_400 * (days_before_month leap m + (if ltb 1 m && not leap then 1 else 0))

month_table : holds_below 12 (λ m. month_agrees true m && month_agrees false m) ≡ true
unfolding holds_below month_agrees days_before_month
month_table = refl

month-days :
    (leap : Bool) (m : ℕ)
    → m < 12
    → get_or month m 0
      ≡ 86_400 * (days_before_month leap m + (if ltb 1 m && not leap then 1 else 0))
unfolding month_agrees
month-days true m h = ground (arith, holds-of_below 12 _ m month_table h)
month-days false m h = ground (arith, holds-of_below 12 _ m month_table h)

bounded : ℕ → Bool
bounded m =
    leb (get_or month m 0) (335 * 86_400)
    && (if ltb 1 m then leb 86_400 (get_or month m 0) else true)

bounds_table : holds_below 12 bounded ≡ true
unfolding holds_below bounded
bounds_table = refl

month-bounds :
    (m : ℕ)
    → m < 12
    → (get_or month m 0 ≤ 335 * 86_400) × (ltb 1 m ≡ true → 86_400 ≤ get_or month m 0)
unfolding bounded
month-bounds m h = ground (arith, holds-of_below 12 bounded m bounds_table h)

get_elem?-eq-get_or : (xs : List ℕ) (m : ℕ) → m < length xs → get_elem? xs m ≡ some (get_or xs m 0)
get_elem?-eq-get_or [] m h = absurd (omega arith)
get_elem?-eq-get_or (x ∷ xs) zero h = refl
get_elem?-eq-get_or (x ∷ xs) (suc m) h = get_elem?-eq-get_or xs m (omega arith)

year_of : (y : ℕ) → 70 ≤ y → pos y -ℤ pos 70 ≡ pos (y - 70)
unfolding ◌-ℤ◌
year_of y h = ground arith

not_leap_lem : (n : ℕ) → not_leap (pos n) ≡ not (fourth_year n)
unfolding not_leap rem ◌+ℤ◌
not_leap_lem n = ground arith

-- The sums of `kernel_mktime` while every term is within its range.
sums :
    (n d s h m x : ℕ) (less : Bool)
    → 1 ≤ d
    → (less ≡ true → 86_400 ≤ s)
    → (let res = pos year *ℤ pos n +ℤ pos day *ℤ quot (pos n +ℤ pos 1) 4 +ℤ pos s in
          if less then res -ℤ pos day else res)
        +ℤ pos day *ℤ (pos d -ℤ pos 1)
        +ℤ pos h
        +ℤ pos m
        +ℤ pos x
      ≡ pos (
          86_400 * (365 * n + (n + 1) / 4 + (d - 1))
          + (s - (if less then 86_400 else 0))
          + h
          + m
          + x)
sums n d s h m x true p q = simp pos_laws (
    rw (pos--ℤ d 1 p, pos--ℤ (year * n + day * ((n + 1) / 4) + s) day (omega (arith, q refl)))
      (simp pos_laws (ap pos (omega (arith, q refl)))))
sums n d s h m x false p q =
    simp pos_laws (rw (pos--ℤ d 1 p) (simp pos_laws (ap pos (omega arith))))

if_same :
    (less : Bool) (before days : ℕ) (a : ℕ)
    → before ≡ 86_400 * (days + (if less then 1 else 0))
    → 86_400 * a + (before - (if less then 86_400 else 0)) ≡ 86_400 * (a + days)
if_same true before days e = omega arith
if_same false before days e = omega arith

module _ {t : Tm} (c : IsClockTime t) where
  -- For a clock time from 1970 to 2037 `kernel_mktime` is the number of seconds since the start of
  -- 1970, counted over the days of the Gregorian years and months, and it does not overflow.
  pub kernel_mktime-epoch : kernel_mktime t ≡ some (pos (epoch_seconds t))
  unfolding kernel_mktime epoch_seconds
  kernel_mktime-epoch =
      let n = t.tm_year - 70 in
      let m = t.tm_mon in
      let before = get_or month m 0 in
      let less = ltb 1 m && not (fourth_year n) in
      let in_range : n < 68 = omega (arith, c.from_1970, c.to_2037) in
      let bounds = month-bounds m c.month_in in
      let late : (less ≡ true → 86_400 ≤ before) = λ e. ground arith in
      let dates = days_before_year_lem n in_range in
      let months = month-days (fourth_year n) m c.month_in in
      rw
        (
          year_of t.tm_year c.from_1970,
          get_elem?-eq-get_or month m c.month_in,
          not_leap_lem,
          sums n t.tm_mday before _ _ _ less c.day_from late,
          leap_of_tm t.tm_year c.from_1970 c.to_2037,
        )
        (ap some (
          wrap32-pos _ (omega arith)
          ∙ ap pos (
              rw dates (
                omega (
                  arith,
                  if_same less before _ (365 * n + (n + 1) / 4 + (t.tm_mday - 1)) months,
                )))))
