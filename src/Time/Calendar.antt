-- ===== src/Time/Calendar.antt =====
-- Dates and times: what epoch2time computes, time2epoch takes apart again.
use dgnss_server.Common.{
  ℕ, ◌+◌, ◌-◌, ◌*◌, ◌/◌, ◌%◌, ◌^◌, ◌≤◌, ◌<◌, Bool, true, false, ◌&&◌, ◌||◌, get_or, ltb, leb, ◌==◌,
  if◌then◌else◌, ◌≡◌, refl, ◌∙◌, arith, holds_below, holds_below_lt, not, ltb→lt, lt→ltb, leb→le,
  subst, ap₂,
}
use dgnss_server.Common.Int.{ℤ, pos, negsuc, ◌+ℤ◌, ◌-ℤ◌, ◌*ℤ◌, quot, ltb_ℤ, eq_ℤ, int32}
use dgnss_server.Double.{Double, IsExact}
use dgnss_server.Time.{
  Epoch, doy, mday, year_days, clock_seconds, find_month, epoch2time, time2epoch,
}

-- The length of a month: in these years every fourth year is a leap year.
abbrev pub month_length : ℕ → ℕ → ℕ
month_length year mon =
    if mon == 2
    then (if year % 4 == 0 then 29 else 28)
    else if (mon == 4) || (mon == 6) || (mon == 9) || (mon == 11)
    then 30
    else 31

-- Days from the start of a block of four years that starts as 1970 does.
abbrev cycle_day : ℕ → ℕ → ℕ → ℕ
cycle_day k mon day =
    k * 365
    + (k + 1) / 4
    + get_or doy (mon - 1) 0
    + (if (k == 2) && leb 3 mon then 1 else 0)
    + day
    - 2

abbrev month_found : ℕ × ℤ → ℕ → ℕ → Bool
month_found r mon day = (r.0 == mon) && eq_ℤ r.1 (pos day)

abbrev cycle_law : ℕ → ℕ → ℕ → Bool
cycle_law k m n =
    not (ltb n (month_length (1970 + k) (m + 1)))
    || (ltb (cycle_day k (m + 1) (n + 1)) 1461
        && month_found (find_month mday (pos (cycle_day k (m + 1) (n + 1))) 0) (12 * k + m) n)

cycle_table :
    holds_below 4 (λ k. holds_below 12 (λ m. holds_below 31 (λ n. cycle_law k m n))) ≡ true
unfolding holds_below find_month ◌-ℤ◌
cycle_table = refl

guarded : (a b c : Bool) → (not a || (b && c)) ≡ true → a ≡ true → (b ≡ true) × (c ≡ true)
guarded true true true h e = (refl, refl)
guarded true true false h e = (refl, h)
guarded true false c h e = absurd (ground arith)
guarded false b c h e = absurd (ground arith)

-- Where a day of a block of four years is found by the loop of `time2epoch`.
record IsFound (k mon day : ℕ) : Type 0 where
  in_block : cycle_day k mon day < 1461
  found : find_month mday (pos (cycle_day k mon day)) 0 ≡ (12 * k + (mon - 1), pos (day - 1))

month_found-eq : (r : ℕ × ℤ) (mon day : ℕ) → month_found r mon day ≡ true → r ≡ (mon, pos day)
month_found-eq (a, pos b) mon day h = ground arith
month_found-eq (a, negsuc b) mon day h = absurd (ground arith)

find_month-IsFound :
    (k m n : ℕ)
    → k < 4
    → m < 12
    → n < month_length (1970 + k) (m + 1)
    → n < 31
    → IsFound k (m + 1) (n + 1)
find_month-IsFound k m n hk hm hn short =
    let law : cycle_law k m n ≡ true =
      holds_below_lt 31 _ n (holds_below_lt 12 _ m (holds_below_lt 4 _ k cycle_table hk) hm)
        short in
    let day = cycle_day k (m + 1) (n + 1) in
    let (a, b) : (ltb day 1461 ≡ true)
        × (month_found (find_month mday (pos day) 0) (12 * k + m) n ≡ true) =
      guarded _ _ _ law (lt→ltb n _ hn) in
    record {
      in_block = ltb→lt _ _ a;
      found = month_found-eq _ _ _ b ∙ ap₂ (λ (i j : ℕ). (i, pos j)) (omega arith) (omega arith);
    }

-- A day of the years 1970 to 2099.
pub record IsDate (year mon day : ℕ) : Type 0 where
  pub year_in : (1970 ≤ year) × (year ≤ 2099)
  pub mon_in : (1 ≤ mon) × (mon ≤ 12)
  pub day_in : (1 ≤ day) × (day ≤ month_length year mon)

month_length-le : (y m : ℕ) → month_length y m ≤ 31
month_length-le y m = ground arith

abbrev date_days : ℕ → ℕ → ℕ → ℕ
date_days year mon day = year_days year mon + day - 2

module _ {y m n : ℕ} (v : IsDate y m n) where
  abbrev block : ℕ
  block = (y - 1970) / 4

  abbrev place : ℕ
  place = (y - 1970) % 4

  date_days-eq : date_days y m n ≡ 1461 * block + cycle_day place m n
  unfolding year_days
  date_days-eq = ground (arith, v)

  same_length : month_length (1970 + place) m ≡ month_length y m
  same_length = ground (arith, v)

  place_of_month : (m - 1 + 1 ≡ m) × (n - 1 + 1 ≡ n)
  place_of_month = omega (arith, v)

  IsFound-date : IsFound place m n
  IsFound-date =
      subst (λ t. IsFound place m t) (place_of_month.1)
        (subst (λ t. IsFound place t (n - 1 + 1)) (place_of_month.0)
          (find_month-IsFound place (m - 1) (n - 1) (omega arith) (omega (arith, v))
            (rw (place_of_month.0, same_length) (omega (arith, v)))
            (omega (arith, v, month_length-le y m))))

-- The six numbers of a date and a time of day.
abbrev pub Stamp : Type 0
Stamp = record { year : ℕ; mon : ℕ; day : ℕ; hour : ℕ; minute : ℕ; sec : ℕ }

pub record IsStamp (s : Stamp) : Type 0 where
  pub date : IsDate s.year s.mon s.day
  pub hour_in : s.hour < 24
  pub minute_in : s.minute < 60
  pub sec_in : s.sec < 60

abbrev day_seconds : Stamp → ℕ
day_seconds s = s.hour * 3600 + s.minute * 60 + s.sec

-- The seconds from 1970 on.
abbrev pub stamp_seconds : Stamp → ℕ
stamp_seconds s = date_days s.year s.mon s.day * 86400 + day_seconds s

clock_seconds-pos :
    (a n h m k : ℕ)
    → 2 ≤ a + n
    → a + n < 50000
    → h < 24
    → m < 60
    → clock_seconds (int32 (pos a +ℤ pos n -ℤ pos 2)) (pos h) (pos m) (pos k)
      ≡ pos ((a + n - 2) * 86400 + (h * 3600 + m * 60 + k))
unfolding clock_seconds ◌+ℤ◌ ◌-ℤ◌ ◌*ℤ◌
clock_seconds-pos a n h m k lo hi hh hm = ground arith

sub_self : (n : ℕ) → pos n -ℤ pos n ≡ pos 0
unfolding ◌-ℤ◌
sub_self n = ground arith

doy_table : holds_below 12 (λ m. leb 1 (get_or doy m 0)) ≡ true
unfolding holds_below
doy_table = refl

year_days_pos : (y m : ℕ) → m - 1 < 12 → 1 ≤ year_days y m
unfolding year_days
year_days_pos y m h = omega (arith, leb→le _ _ (holds_below_lt 12 _ (m - 1) doy_table h))

year_back :
    (y m b k : ℕ)
    → 1970 + (4 * b + k) ≡ y
    → m < 12
    → pos 1970 +ℤ pos b *ℤ pos 4 +ℤ pos ((12 * k + m) / 12) ≡ pos y
unfolding ◌+ℤ◌ ◌*ℤ◌
year_back y m b k e h = ground arith

day_back : (n : ℕ) → 1 ≤ n → pos (n - 1) +ℤ pos 1 ≡ pos n
unfolding ◌+ℤ◌
day_back n h = ground arith

sum_zero : (n : ℕ) → pos n +ℤ pos 0 ≡ pos n
unfolding ◌+ℤ◌
sum_zero n = ground arith

-- The integers that `time2epoch` computes, for a day `q` and the seconds `r` of that day.
module _ (q r : ℕ) (hq : q < 50000) (hr : r < 86400) where
  whole_days : int32 (quot (pos (q * 86400 + r)) 86400) ≡ pos q
  whole_days = let e : (q * 86400 + r) / 86400 ≡ q = omega arith in rw e (ground arith)

  rest_seconds : pos (q * 86400 + r) -ℤ pos q *ℤ pos 86400 ≡ pos r
  unfolding ◌-ℤ◌ ◌*ℤ◌
  rest_seconds = ground arith

module _ {F : Type 0} ⦃d : Double F⦄ where
  abbrev pub stamp_epoch : Stamp → Epoch F
  stamp_epoch s = record {
    year = d.of_int (pos s.year);
    mon = d.of_int (pos s.mon);
    day = d.of_int (pos s.day);
    hour = d.of_int (pos s.hour);
    minute = d.of_int (pos s.minute);
    sec = d.of_int (pos s.sec);
  }

  module _ (exact : IsExact F) (s : Stamp) (v : IsStamp s) where
    to_int_small : (n : ℕ) → n < 2 ^ 31 → d.to_int (d.of_int (pos n)) ≡ pos n
    to_int_small n h = exact.to_int-of_int (pos n) (omega arith)

    date_days-lt : date_days s.year s.mon s.day < 48213
    date_days-lt = omega (arith, date_days-eq v.date, (IsFound-date v.date).in_block, v.date)

    stamp_in_range :
        (ltb_ℤ (pos s.year) (pos 1970)
          || ltb_ℤ (pos 2099) (pos s.year)
          || ltb_ℤ (pos s.mon) (pos 1)
          || ltb_ℤ (pos 12) (pos s.mon))
        ≡ false
    stamp_in_range = ground (arith, v.date)

    day_of_block :
        (date_days s.year s.mon s.day / 1461 ≡ block v.date)
        × (date_days s.year s.mon s.day % 1461 ≡ cycle_day (place v.date) s.mon s.day)
    day_of_block = omega (arith, date_days-eq v.date, (IsFound-date v.date).in_block)

    small_parts :
        ((12 * place v.date + (s.mon - 1)) % 12 + 1 ≡ s.mon)
        × (day_seconds s / 3600 ≡ s.hour)
        × (day_seconds s % 3600 / 60 ≡ s.minute)
        × (day_seconds s % 60 ≡ s.sec)
    small_parts = (omega (arith, v.date), omega (arith, v), omega (arith, v), omega (arith, v))

    -- The seconds of `epoch2time`.
    pub epoch2time-stamp :
        epoch2time (stamp_epoch s) ≡ record { time = pos (stamp_seconds s); sec = d.of_int (pos 0) }
    unfolding epoch2time
    epoch2time-stamp =
        rw
          (
            to_int_small s.year (omega (arith, v.date)),
            to_int_small s.mon (omega (arith, v.date)),
            to_int_small s.day (omega (arith, v.date, month_length-le s.year s.mon)),
            to_int_small s.hour (omega (arith, v)),
            to_int_small s.minute (omega (arith, v)),
            exact.floor-of_int (pos s.sec) (omega (arith, v)),
            to_int_small s.sec (omega (arith, v)),
          )
          (rw (
            stamp_in_range,
            clock_seconds-pos (year_days s.year s.mon) s.day s.hour s.minute s.sec
                (omega (arith, v.date, year_days_pos s.year s.mon (omega (arith, v.date))))
                (omega (arith, date_days-lt)) v.hour_in v.minute_in,
            exact.sub-of_int (pos s.sec) (pos s.sec) (omega (arith, v)) (omega (arith, v))
                (rw (sub_self s.sec) (omega arith)),
            sub_self s.sec,
          ))

    pub time2epoch-stamp :
        time2epoch (record { time = pos (stamp_seconds s); sec = d.of_int (pos 0) }) ≡ stamp_epoch s
    unfolding time2epoch
    time2epoch-stamp =
        rw
          (
            whole_days (date_days s.year s.mon s.day) (day_seconds s) (omega (arith, date_days-lt))
                (omega (arith, v)),
            rest_seconds (date_days s.year s.mon s.day) (day_seconds s)
                (omega (arith, date_days-lt)) (omega (arith, v)),
          )
          (rw ((day_of_block).0, (day_of_block).1, (IsFound-date v.date).found)
            (rw (
              year_back s.year (s.mon - 1) (block v.date) (place v.date) (omega (arith, v.date))
                  (omega (arith, v.date)),
              day_back s.day v.date.day_in.0,
              small_parts.0,
              small_parts.1,
              small_parts.2,
              small_parts.3,
              exact.add-of_int (pos s.sec) (pos 0) (omega (arith, v)) (omega arith)
                  (rw (sum_zero s.sec) (omega (arith, v))),
              sum_zero s.sec,
            )))

    -- In the years 1970 to 2099 `time2epoch` gives back the date and the time of day, to the
    -- second, from which `epoch2time` made a time, if the doubles are exact on whole numbers.
    pub time2epoch-epoch2time : time2epoch (epoch2time (stamp_epoch s)) ≡ stamp_epoch s
    time2epoch-epoch2time = rw epoch2time-stamp time2epoch-stamp
