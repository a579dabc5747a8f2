-- ===== src/Mktime.antt =====
-- kernel/mktime.c: the seconds since 1970 of a broken-down time.
pub mod Calendar
mod Tests
use linux.Common.{
  ℕ, ◌+◌, ◌*◌, Bool, Option, none, some, List, [], ◌∷◌, ltb, ◌!=◌, ◌&&◌, if◌then◌else◌, get_elem?,
  ◌>>=◌,
}
use linux.Common.Int.{ℤ, pos, ◌+ℤ◌, ◌-ℤ◌, ◌*ℤ◌, quot, rem, wrap32, pos_part, neg_part}

abbrev pub minute : ℕ
minute = 60

abbrev pub hour : ℕ
hour = 60 * minute

abbrev pub day : ℕ
day = 24 * hour

abbrev pub year : ℕ
year = 365 * day

-- `struct tm`, as far as `kernel_mktime` reads it. The fields come from the CMOS clock and are
-- not negative.
pub record Tm : Type 0 where
  pub tm_sec : ℕ
  pub tm_min : ℕ
  pub tm_hour : ℕ
  pub tm_mday : ℕ
  pub tm_mon : ℕ
  pub tm_year : ℕ

-- Seconds before each month, of a leap year.
abbrev pub month : List ℕ
month =
    0
    ∷ (day * 31)
    ∷ (day * (31 + 29))
    ∷ (day * (31 + 29 + 31))
    ∷ (day * (31 + 29 + 31 + 30))
    ∷ (day * (31 + 29 + 31 + 30 + 31))
    ∷ (day * (31 + 29 + 31 + 30 + 31 + 30))
    ∷ (day * (31 + 29 + 31 + 30 + 31 + 30 + 31))
    ∷ (day * (31 + 29 + 31 + 30 + 31 + 30 + 31 + 31))
    ∷ (day * (31 + 29 + 31 + 30 + 31 + 30 + 31 + 31 + 30))
    ∷ (day * (31 + 29 + 31 + 30 + 31 + 30 + 31 + 31 + 30 + 31))
    ∷ (day * (31 + 29 + 31 + 30 + 31 + 30 + 31 + 31 + 30 + 31 + 30))
    ∷ []

-- `(year+2)%4` as a truth value.
not_leap : ℤ → Bool
not_leap y = let r = rem (y +ℤ pos 2) 4 in pos_part r + neg_part r != 0

-- `none` is the read of `month[]` out of range. The sums wrap in 32 bits; since each step is a sum,
-- one wrap at the end gives the same word.
pub kernel_mktime : Tm → Option ℤ
unfolding not_leap
kernel_mktime tm = do
  let y = pos tm.tm_year -ℤ pos 70
  let res = pos year *ℤ y +ℤ pos day *ℤ quot (y +ℤ pos 1) 4
  m ← get_elem? month tm.tm_mon
  let res1 = res +ℤ pos m
  let res2 = if ltb 1 tm.tm_mon && not_leap y then res1 -ℤ pos day else res1
  let res3 = res2 +ℤ pos day *ℤ (pos tm.tm_mday -ℤ pos 1)
  some (wrap32 (res3 +ℤ pos (hour * tm.tm_hour) +ℤ pos (minute * tm.tm_min) +ℤ pos tm.tm_sec))
