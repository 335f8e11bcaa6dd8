-- ===== src/Time.antt =====
-- The time functions of AgnssServer/AssistData.c, but for the printing ones: epoch2time,
-- time2epoch, timeadd, timediff, gpst2time, time2gpst, utc2gpst, gpst2utc, bdt2time, bdt2gpst,
-- gpst2bdt, adjgpsweek, locktime and is_tint. A time_t is an integer; an `int` that the source
-- computes with can wrap, by `int32`. The system clock that timeget reads is an argument.
pub mod Calendar
pub mod Week
pub mod Leaps
use dgnss_server.Common.{
  ℕ, zero, suc, ◌+◌, ◌-◌, ◌*◌, ◌/◌, ◌%◌, Bool, true, false, ◌&&◌, ◌||◌, List, [], ◌∷◌, get_or, ltb,
  leb, ◌==◌, if◌then◌else◌,
}
use dgnss_server.Common.Int.{
  ℤ, pos, negsuc, pos_part, ◌+ℤ◌, ◌-ℤ◌, ◌*ℤ◌, neg_ℤ, quot, rem, ltb_ℤ, leb_ℤ, eq_ℤ, int32,
}
use dgnss_server.Double.{Double}

-- `gtime_t`.
pub record GTime (F : Type 0) : Type 0 where
  pub time : ℤ
  pub sec : F

-- The array `ep` of six doubles.
pub record Epoch (F : Type 0) : Type 0 where
  pub year : F
  pub mon : F
  pub day : F
  pub hour : F
  pub minute : F
  pub sec : F

abbrev pub doy : List ℕ
doy = 1 ∷ 32 ∷ 60 ∷ 91 ∷ 121 ∷ 152 ∷ 182 ∷ 213 ∷ 244 ∷ 274 ∷ 305 ∷ 335 ∷ []

-- `mday`: the days of the months of four years, from 1970 on, the third a leap year.
abbrev pub mday : List ℕ
mday =
    31 ∷ 28 ∷ 31 ∷ 30 ∷ 31 ∷ 30 ∷ 31 ∷ 31 ∷ 30 ∷ 31 ∷ 30 ∷ 31 ∷ 31 ∷ 28 ∷ 31 ∷ 30 ∷ 31 ∷ 30 ∷ 31
    ∷ 31 ∷ 30 ∷ 31 ∷ 30 ∷ 31 ∷ 31 ∷ 29 ∷ 31 ∷ 30 ∷ 31 ∷ 30 ∷ 31 ∷ 31 ∷ 30 ∷ 31 ∷ 30 ∷ 31 ∷ 31 ∷ 28
    ∷ 31 ∷ 30 ∷ 31 ∷ 30 ∷ 31 ∷ 31 ∷ 30 ∷ 31 ∷ 30 ∷ 31 ∷ []

-- The first part of `days` in `epoch2time`, for a year from 1970 and a month from 1 to 12:
-- (year - 1970) * 365 + (year - 1969) / 4 + doy[mon - 1] + (a leap day has passed ? 1 : 0).
unfoldable pub year_days : ℕ → ℕ → ℕ
year_days year mon =
    (year - 1970) * 365
    + (year - 1969) / 4
    + get_or doy (mon - 1) 0
    + (if (year % 4 == 0) && leb 3 mon then 1 else 0)

-- `days * 86400 + hour * 3600 + min * 60 + sec`, whose later products are of type int.
unfoldable pub clock_seconds : ℤ → ℤ → ℤ → ℤ → ℤ
clock_seconds days hour minute sec =
    days *ℤ pos 86400 +ℤ int32 (hour *ℤ pos 3600) +ℤ int32 (minute *ℤ pos 60) +ℤ sec

-- The loop of `time2epoch`, with the months still to be looked at: the month and the day found.
unfoldable pub find_month : List ℕ → ℤ → ℕ → ℕ × ℤ
find_month [] day mon = (mon, day)
find_month (m ∷ ms) day mon =
    let rest = find_month ms (day -ℤ pos m) (mon + 1) in
    if leb_ℤ (pos m) day then rest else (mon, day)

module _ {F : Type 0} ⦃d : Double F⦄ where
  open d use {of_int, decimal, add, sub, mul, floor, lt, le, fmod, to_int, to_word}

  unfoldable pub epoch2time : Epoch F → GTime F
  epoch2time ep =
      let year = to_int ep.year in
      let mon = to_int ep.mon in
      let s = to_int (floor ep.sec) in
      if ltb_ℤ year (pos 1970) || ltb_ℤ (pos 2099) year || ltb_ℤ mon (pos 1) || ltb_ℤ (pos 12) mon
      then record { time = pos 0; sec = of_int (pos 0) }
      else record {
        time =
            clock_seconds
              (int32 (pos (year_days (pos_part year) (pos_part mon)) +ℤ to_int ep.day -ℤ pos 2))
              (to_int ep.hour) (to_int ep.minute) s;
        sec = sub ep.sec (of_int s);
      }

  unfoldable pub time2epoch : GTime F → Epoch F
  time2epoch t =
      let days = int32 (quot t.time 86400) in
      let s = t.time -ℤ days *ℤ pos 86400 in
      let (mon, day) = find_month mday (rem days 1461) 0 in
      record {
        year = of_int (pos 1970 +ℤ quot days 1461 *ℤ pos 4 +ℤ pos (mon / 12));
        mon = of_int (pos (mon % 12 + 1));
        day = of_int (day +ℤ pos 1);
        hour = of_int (quot s 3600);
        minute = of_int (quot (rem s 3600) 60);
        sec = add (of_int (rem s 60)) t.sec;
      }

  unfoldable pub timeadd : GTime F → F → GTime F
  timeadd t s =
      let s' = add t.sec s in
      let tt = floor s' in record { time = t.time +ℤ to_int tt; sec = sub s' tt }

  -- `difftime` is the difference of its arguments as a double.
  unfoldable pub timediff : GTime F → GTime F → F
  timediff t1 t2 = sub (add (of_int (t1.time -ℤ t2.time)) t1.sec) t2.sec

  abbrev pub epoch_of : ℕ → ℕ → ℕ → Epoch F
  epoch_of y m n = record {
    year = of_int (pos y);
    mon = of_int (pos m);
    day = of_int (pos n);
    hour = of_int (pos 0);
    minute = of_int (pos 0);
    sec = of_int (pos 0);
  }

  abbrev pub gpst0 : Epoch F
  gpst0 = epoch_of 1980 1 6

  abbrev pub bdt0 : Epoch F
  bdt0 = epoch_of 2006 1 1

  -- The common body of `gpst2time` and `bdt2time`: `86400 * 7 * week` is an int.
  abbrev week2time : Epoch F → ℤ → F → GTime F
  week2time ep week sec =
      let t = epoch2time ep in
      let s =
        if lt sec (decimal (negsuc 0) (pos 9)) || lt (decimal (pos 1) (pos 9)) sec
        then of_int (pos 0)
        else sec in
      record {
        time = t.time +ℤ int32 (int32 (pos 604800 *ℤ week) +ℤ to_int s);
        sec = sub s (of_int (to_int s));
      }

  unfoldable pub gpst2time : ℤ → F → GTime F
  gpst2time week sec = week2time gpst0 week sec

  unfoldable pub bdt2time : ℤ → F → GTime F
  bdt2time week sec = week2time bdt0 week sec

  -- The week and the time of week.
  unfoldable pub time2gpst : GTime F → ℤ × F
  time2gpst t =
      let sec = t.time -ℤ (epoch2time gpst0).time in
      let w = int32 (quot sec 604800) in (w, add (of_int (sec -ℤ int32 (w *ℤ pos 604800))) t.sec)

  unfoldable pub bdt2gpst : GTime F → GTime F
  bdt2gpst t = timeadd t (of_int (pos 14))

  unfoldable pub gpst2bdt : GTime F → GTime F
  gpst2bdt t = timeadd t (of_int (negsuc 13))

-- A row of `leaps`, which holds midnights only, without the zeros: the day from which the offset
-- of UTC from GPS time holds.
pub record Leap : Type 0 where
  pub year : ℕ
  pub mon : ℕ
  pub day : ℕ
  pub offset : ℤ

abbrev leap : ℕ → ℕ → ℕ → ℤ → Leap
leap y m n o = record { year = y; mon = m; day = n; offset = o }

-- The rows of `leaps` above the one that ends the table.
abbrev pub leaps : List Leap
leaps =
    leap 2017 1 1 (negsuc 17)
    ∷ leap 2015 7 1 (negsuc 16)
    ∷ leap 2012 7 1 (negsuc 15)
    ∷ leap 2009 1 1 (negsuc 14)
    ∷ leap 2006 1 1 (negsuc 13)
    ∷ leap 1999 1 1 (negsuc 12)
    ∷ leap 1997 7 1 (negsuc 11)
    ∷ leap 1996 1 1 (negsuc 10)
    ∷ leap 1994 7 1 (negsuc 9)
    ∷ leap 1993 7 1 (negsuc 8)
    ∷ leap 1992 7 1 (negsuc 7)
    ∷ leap 1991 1 1 (negsuc 6)
    ∷ leap 1990 1 1 (negsuc 5)
    ∷ leap 1988 1 1 (negsuc 4)
    ∷ leap 1985 7 1 (negsuc 3)
    ∷ leap 1983 7 1 (negsuc 2)
    ∷ leap 1982 7 1 (negsuc 1)
    ∷ leap 1981 7 1 (negsuc 0)
    ∷ []

module _ {F : Type 0} ⦃d : Double F⦄ where
  open d use {of_int, decimal, add, mul, neg, le, fmod, to_int}

  abbrev pub leap_time : Leap → GTime F
  leap_time l = epoch2time (epoch_of l.year l.mon l.day)

  -- The loop of `utc2gpst` over the rows.
  unfoldable pub utc2gpst_rows : List Leap → GTime F → GTime F
  utc2gpst_rows [] t = t
  utc2gpst_rows (l ∷ ls) t =
      if le (of_int (pos 0)) (timediff t (leap_time l))
      then timeadd t (neg (of_int l.offset))
      else utc2gpst_rows ls t

  unfoldable pub utc2gpst : GTime F → GTime F
  utc2gpst = utc2gpst_rows leaps

  unfoldable pub gpst2utc_rows : List Leap → GTime F → GTime F
  gpst2utc_rows [] t = t
  gpst2utc_rows (l ∷ ls) t =
      let tu = timeadd t (of_int l.offset) in
      if le (of_int (pos 0)) (timediff tu (leap_time l)) then tu else gpst2utc_rows ls t

  unfoldable pub gpst2utc : GTime F → GTime F
  gpst2utc = gpst2utc_rows leaps

  -- The current GPS week, from the clock's time, which is what `timeget` returns.
  abbrev pub current_week : GTime F → ℤ
  current_week now = (time2gpst (utc2gpst now)).0

  -- `locktime` also updates the time that it is given a pointer to: that comes first.
  unfoldable pub locktime : GTime F → GTime F → ℕ → GTime F × ℤ
  locktime time lltime lli =
      let lltime' = if eq_ℤ lltime.time (pos 0) || (lli % 2 == 1) then time else lltime in
      (lltime', to_int (timediff time lltime'))

  -- `is_tint`; DTTOL is 0.005.
  unfoldable pub is_tint : GTime F → F → Bool
  is_tint time tint =
      if le tint (of_int (pos 0))
      then true
      else le (fmod (add (time2gpst time).1 (decimal (pos 5) (negsuc 2))) tint)
          (mul (of_int (pos 2)) (decimal (pos 5) (negsuc 2)))

-- `week + (w - week + 512) / 1024 * 1024`, where `w` is the current week, 1560 at least.
unfoldable pub adjust_week : ℤ → ℤ → ℤ
adjust_week current week =
    let w = if ltb_ℤ current (pos 1560) then pos 1560 else current in
    week +ℤ quot (w -ℤ week +ℤ pos 512) 1024 *ℤ pos 1024

unfoldable pub adjgpsweek : {F : Type 0} ⦃d : Double F⦄ → GTime F → ℤ → ℤ
adjgpsweek now week = adjust_week (current_week now) week
