-- ===== src/Examples/Times.antt =====
-- Examples of the times and the weeks.
use dgnss_server.Common.{ℕ, ◌+◌, ◌%◌, ◌<◌, ◌≤◌, ◌≡◌, arith}
use dgnss_server.Common.Int.{ℤ, pos}
use dgnss_server.Double.{whole, whole-IsExact}
use dgnss_server.Time.{
  epoch2time, time2epoch, gpst2time, time2gpst, adjust_week, utc2gpst, gpst2utc,
}
use dgnss_server.Time.Leaps.{second, gpst2utc-utc2gpst}
use dgnss_server.Time.Calendar.{Stamp, stamp_epoch, time2epoch-epoch2time}
use dgnss_server.Time.Week.{reference_week, adjust_week_lem, time2gpst-gpst2time}

abbrev leap_day : Stamp
leap_day = record { year = 2024; mon = 2; day = 29; hour = 23; minute = 59; sec = 58 }

time2epoch-epoch2time_example :
    time2epoch (epoch2time (stamp_epoch {F = ℤ} leap_day)) ≡ stamp_epoch leap_day
time2epoch-epoch2time_example = time2epoch-epoch2time whole-IsExact leap_day (omega arith)

time2gpst-gpst2time_example :
    time2gpst (gpst2time {F = ℤ} (pos 2200) (pos 123456)) ≡ (pos 2200, pos 123456)
time2gpst-gpst2time_example =
    time2gpst-gpst2time whole-IsExact 2200 123456 (omega arith) (omega arith)

adjust_week_lem_example :
    (r : ℕ) × (adjust_week (pos 2200) (pos 152) ≡ pos r)
    × (r % 1024 ≡ 152 % 1024)
    × (r ≤ reference_week 2200 + 512)
    × (reference_week 2200 < r + 512)
adjust_week_lem_example = adjust_week_lem 2200 152 (omega arith)

gpst2utc-utc2gpst_example :
    gpst2utc (utc2gpst (second whole-IsExact 1483228799)) ≡ second whole-IsExact 1483228799
gpst2utc-utc2gpst_example = gpst2utc-utc2gpst whole-IsExact 1483228799 (omega arith) (omega arith)
