-- ===== src/Time/Week.antt =====
-- Weeks: the adjustment of a truncated week number, and GPS time to and from calendar time.
use dgnss_server.Common.{
  ℕ, ◌+◌, ◌-◌, ◌*◌, ◌/◌, ◌%◌, ◌^◌, ◌≤◌, ◌<◌, false, ltb, if◌then◌else◌, ◌≡◌, refl, ◌∙◌, arith,
}
use dgnss_server.Common.Int.{pos, negsuc, ◌+ℤ◌, ◌-ℤ◌, ◌*ℤ◌, quot, int32}
use dgnss_server.Double.{Double, IsExact}
use dgnss_server.Time.{epoch2time, gpst0, gpst2time, time2gpst, year_days, adjust_week}
use dgnss_server.Time.Calendar.{Stamp, IsStamp, epoch2time-stamp, stamp_seconds}

-- The week that `adjgpsweek` takes for the current one.
abbrev pub reference_week : ℕ → ℕ
reference_week current = if ltb current 1560 then 1560 else current

-- Unless the week is more than 512 ahead of the reference week, the result is a week with the same
-- remainder by 1024, and the one nearest to the reference week: above it by 512 at most, and
-- below it by less than 512.
pub adjust_week_lem :
    (current week : ℕ)
    → week ≤ reference_week current + 512
    → (r : ℕ) × (adjust_week (pos current) (pos week) ≡ pos r)
      × (r % 1024 ≡ week % 1024)
      × (r ≤ reference_week current + 512)
      × (reference_week current < r + 512)
unfolding adjust_week ◌+ℤ◌ ◌-ℤ◌ ◌*ℤ◌
adjust_week_lem current week h =
    let w = reference_week current in
    (week + (w + 512 - week) / 1024 * 1024, ground arith, omega arith, omega arith, omega arith)

-- A week that is further ahead is returned as it is.
pub adjust_week_ahead :
    (current week : ℕ)
    → reference_week current + 512 < week
    → week < reference_week current + 1536
    → adjust_week (pos current) (pos week) ≡ pos week
unfolding adjust_week ◌+ℤ◌ ◌-ℤ◌ ◌*ℤ◌
adjust_week_ahead current week h k = ground arith

abbrev gps_start : Stamp
gps_start = record { year = 1980; mon = 1; day = 6; hour = 0; minute = 0; sec = 0 }

gps_start-IsStamp : IsStamp gps_start
gps_start-IsStamp = omega arith

gps_start_seconds : stamp_seconds gps_start ≡ 315964800
unfolding year_days
gps_start_seconds = refl

-- The integers of `gpst2time` and `time2gpst`, from the start of week 0.
module _ (start : ℕ) (w s : ℕ) (hs : s < 604800) (hw : w ≤ 3549) where
  forward :
      pos start +ℤ int32 (int32 (pos 604800 *ℤ pos w) +ℤ pos s) ≡ pos (start + (604800 * w + s))
  unfolding ◌+ℤ◌ ◌*ℤ◌
  forward = ground arith

  since : pos (start + (604800 * w + s)) -ℤ pos start ≡ pos (604800 * w + s)
  unfolding ◌-ℤ◌
  since = ground arith

module _ (w s : ℕ) (hs : s < 604800) (hw : w ≤ 3549) where
  week_back : int32 (quot (pos (604800 * w + s)) 604800) ≡ pos w
  week_back = let e : (604800 * w + s) / 604800 ≡ w = omega arith in rw e (ground arith)

  rest_back : pos (604800 * w + s) -ℤ int32 (pos w *ℤ pos 604800) ≡ pos s
  unfolding ◌-ℤ◌ ◌*ℤ◌
  rest_back = ground arith

sub_same : (n : ℕ) → pos n -ℤ pos n ≡ pos 0
unfolding ◌-ℤ◌
sub_same n = ground arith

sum_none : (n : ℕ) → pos n +ℤ pos 0 ≡ pos n
unfolding ◌+ℤ◌
sum_none n = ground arith

module _ {F : Type 0} ⦃d : Double F⦄ (exact : IsExact F) where
  epoch2time-gpst0 : epoch2time gpst0 ≡ record { time = pos 315964800; sec = d.of_int (pos 0) }
  epoch2time-gpst0 = epoch2time-stamp exact gps_start gps_start-IsStamp ∙ rw gps_start_seconds

  module _ (w s : ℕ) (hs : s < 604800) (hw : w ≤ 3549) where
    -- The guards of `gpst2time`.
    not_less : d.lt (d.of_int (pos s)) (d.decimal (negsuc 0) (pos 9)) ≡ false
    unfolding ◌*ℤ◌
    not_less =
        rw
          (
            exact.decimal-of_int (negsuc 0) 9 (omega arith),
            exact.lt-of_int (pos s) (negsuc 0 *ℤ pos (10 ^ 9)) (omega arith) (omega arith),
          )
          (ground arith)

    not_more : d.lt (d.decimal (pos 1) (pos 9)) (d.of_int (pos s)) ≡ false
    unfolding ◌*ℤ◌
    not_more =
        rw
          (
            exact.decimal-of_int (pos 1) 9 (omega arith),
            exact.lt-of_int (pos 1 *ℤ pos (10 ^ 9)) (pos s) (omega arith) (omega arith),
          )
          (ground arith)

    gpst2time-eq :
        gpst2time (pos w) (d.of_int (pos s))
        ≡ record { time = pos (315964800 + (604800 * w + s)); sec = d.of_int (pos 0) }
    unfolding gpst2time
    gpst2time-eq = rw (
      not_less,
      not_more,
      exact.to_int-of_int (pos s) (omega arith),
      epoch2time-gpst0,
      forward 315964800 w s hs hw,
      exact.sub-of_int (pos s) (pos s) (omega arith) (omega arith) (rw (sub_same s) (omega arith)),
      sub_same s,
    )

    -- `time2gpst` returns the week and the whole second, below 604800, that `gpst2time` was given,
    -- for the weeks to 3549, past which the source's `int` product overflows, if the doubles are
    -- exact on whole numbers up to 2^53 and their conversion to int is for those of 32 bits.
    pub time2gpst-gpst2time :
        time2gpst (gpst2time (pos w) (d.of_int (pos s))) ≡ (pos w, d.of_int (pos s))
    unfolding time2gpst
    time2gpst-gpst2time = rw (
      gpst2time-eq,
      epoch2time-gpst0,
      since 315964800 w s hs hw,
      week_back w s hs hw,
      rest_back w s hs hw,
      exact.add-of_int (pos s) (pos 0) (omega arith) (omega arith) (rw (sum_none s) (omega arith)),
      sum_none s,
    )
