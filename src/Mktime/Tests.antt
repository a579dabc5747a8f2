-- ===== src/Mktime/Tests.antt =====
-- `kernel_mktime` at concrete dates.
use linux.Common.{◌≡◌, refl, some, arith}
use linux.Common.Int.{pos, ◌+ℤ◌, ◌-ℤ◌, ◌*ℤ◌, quot, rem, wrap32}
use linux.Mktime.{Tm, kernel_mktime, not_leap}
use linux.Mktime.Calendar.{IsClockTime, epoch_seconds, kernel_mktime-epoch}

-- 29 February 2000, 12:30:05.
abbrev leap_day : Tm
leap_day = record { tm_sec = 5; tm_min = 30; tm_hour = 12; tm_mday = 29; tm_mon = 1; tm_year = 100 }

leap_day-IsClockTime : IsClockTime leap_day
leap_day-IsClockTime = omega arith

kernel_mktime_runs : kernel_mktime leap_day ≡ some (pos 951827405)
unfolding kernel_mktime not_leap ◌+ℤ◌ ◌-ℤ◌ ◌*ℤ◌ quot rem wrap32
kernel_mktime_runs = refl

kernel_mktime-epoch_example : kernel_mktime leap_day ≡ some (pos (epoch_seconds leap_day))
kernel_mktime-epoch_example = kernel_mktime-epoch leap_day-IsClockTime
