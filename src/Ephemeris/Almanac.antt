-- ===== src/Ephemeris/Almanac.antt =====
-- The almanac pages, subframes 4 and 5 of GPS, and decode_frame. A pointer that may be NULL is an
-- option.
use dgnss_server.Common.{
  ℕ, zero, suc, ◌+◌, ◌-◌, ◌*◌, ◌&&◌, Option, none, some, List, get_or, set, leb, ◌==◌,
  if◌then◌else◌,
}
use dgnss_server.Common.Int.{ℤ, pos, negsuc, ◌+ℤ◌, ◌-ℤ◌, eq_ℤ, int32}
use dgnss_server.Double.{Double}
use dgnss_server.Time.{GTime, gpst2time, timediff, adjgpsweek}
use dgnss_server.Bits.{getbitu, getbits}
use dgnss_server.Rtcm.{p2_24}
use dgnss_server.Ephemeris.{
  Eph, nil, half_week, sc2rad, scaled, angle, scaled_u, p2_11, p2_17, p2_19, p2_20, p2_21, p2_23,
  p2_27, p2_30, p2_38, p2_50, decode_subfrm1, decode_subfrm2, decode_subfrm3,
}

-- `alm_t`
pub record Alm (F : Type 0) : Type 0 where
  pub sat : ℕ
  pub svh : ℕ
  pub svconf : ℕ
  pub week : ℤ
  pub toa : GTime F
  pub axis : F
  pub ecc : F
  pub i0 : F
  pub omg0 : F
  pub omg : F
  pub m0 : F
  pub omgd : F
  pub toas : F
  pub f0 : F
  pub f1 : F

-- What the pointers of `decode_frame` point to.
pub record Frame (F : Type 0) : Type 0 where
  pub eph : Eph F
  pub alm : Option (List (Alm F))
  pub ion : Option (List F)
  pub utc : Option (List F)
  pub leaps : Option ℤ

-- The leap seconds of page 18.
unfoldable pub read_leaps : List ℕ → Option ℤ → Option ℤ
read_leaps buff none = none
read_leaps buff (some leaps) = some (getbits buff 192 8)

module _ {F : Type 0} ⦃d : Double F⦄ where
  open d use {of_int, decimal, add, mul, lt}

  abbrev pub no_alm : Alm F
  no_alm = record {
    sat = 0;
    svh = 0;
    svconf = 0;
    week = pos 0;
    toa = record { time = pos 0; sec = nil };
    axis = nil;
    ecc = nil;
    i0 = nil;
    omg0 = nil;
    omg = nil;
    m0 = nil;
    omgd = nil;
    toas = nil;
    f0 = nil;
    f1 = nil;
  }

  abbrev pub alm_of : List (Alm F) → ℕ → Alm F
  alm_of alm sat = get_or alm (sat - 1) no_alm

  abbrev pub change_alm : (Alm F → Alm F) → ℕ → List (Alm F) → List (Alm F)
  change_alm change sat alm = set alm (sat - 1) (change (alm_of alm sat))

  -- The fields that `decode_almanac` reads; the page's number stands in the bits from 50 to 55.
  unfoldable pub read_almanac : List ℕ → ℕ → Alm F → Alm F
  read_almanac buff sat a =
      let sqrt_a = scaled_u buff 114 24 p2_11 in
      record a {
        sat = sat;
        ecc = scaled buff 50 16 p2_21;
        toas = scaled_u buff 66 8 (of_int (pos 4096));
        omgd = angle buff 90 16 p2_38;
        svh = getbitu buff 106 8;
        omg0 = angle buff 138 24 p2_23;
        omg = angle buff 162 24 p2_23;
        m0 = angle buff 186 24 p2_23;
        f1 = scaled buff 218 11 p2_38;
        f0 = add (scaled buff 229 3 p2_17) (scaled_u buff 210 8 p2_20);
        axis = mul sqrt_a sqrt_a;
        i0 = add (mul (decimal (pos 3) (negsuc 0)) sc2rad) (angle buff 74 16 p2_19);
      }

  -- The change of the week, by the time since the old one.
  unfoldable pub adjust_toa : Alm F → Alm F
  adjust_toa a =
      let tt = timediff (gpst2time a.week a.toas) a.toa in
      let week =
        if lt tt half_week
        then int32 (a.week -ℤ pos 1)
        else if lt half_week tt
        then int32 (a.week +ℤ pos 1)
        else a.week in
      record a { week = week; toa = gpst2time week a.toas }

  unfoldable pub decode_almanac : List ℕ → ℕ → List (Alm F) → List (Alm F)
  decode_almanac buff sat alm =
      if eq_ℤ (alm_of alm sat).week (pos 0)
      then alm
      else change_alm (λ (a : Alm F). adjust_toa (read_almanac buff sat a)) sat alm

  -- `if (alm)`
  unfoldable pub with_alm :
      (List (Alm F) → List (Alm F)) → Option (List (Alm F)) → Option (List (Alm F))
  with_alm f none = none
  with_alm f (some alm) = some (f alm)

  -- The loops over satellites, from `sat` on, on fields from `i` on.
  unfoldable pub read_configs : List ℕ → ℕ → ℕ → ℕ → List (Alm F) → List (Alm F)
  read_configs buff zero sat i alm = alm
  read_configs buff (suc left) sat i alm =
      read_configs buff left (sat + 1) (i + 4)
        (change_alm (λ (a : Alm F). record a { svconf = getbitu buff i 4 }) sat alm)

  unfoldable pub read_healths : List ℕ → ℕ → ℕ → ℕ → List (Alm F) → List (Alm F)
  read_healths buff zero sat i alm = alm
  read_healths buff (suc left) sat i alm =
      read_healths buff left (sat + 1) (i + 6)
        (change_alm (λ (a : Alm F). record a { svh = getbitu buff i 6 }) sat alm)

  unfoldable pub set_times : F → ℤ → ℕ → ℕ → List (Alm F) → List (Alm F)
  set_times toas week zero sat alm = alm
  set_times toas week (suc left) sat alm = set_times toas week left (sat + 1) (
      change_alm (λ (a : Alm F). record a { toas = toas; week = week; toa = gpst2time week toas })
        sat alm)

  -- The parameters of the ionosphere and of UTC.
  unfoldable pub read_ion : List ℕ → Option (List F) → Option (List F)
  read_ion buff none = none
  read_ion buff (some ion) =
      let i0 = set ion 0 (scaled buff 56 8 p2_30) in
      let i1 = set i0 1 (scaled buff 64 8 p2_27) in
      let i2 = set i1 2 (scaled buff 72 8 p2_24) in
      let i3 = set i2 3 (scaled buff 80 8 p2_24) in
      let i4 = set i3 4 (scaled buff 88 8 (of_int (pos 2048))) in
      let i5 = set i4 5 (scaled buff 96 8 (of_int (pos 16384))) in
      let i6 = set i5 6 (scaled buff 104 8 (of_int (pos 65536))) in
      some (set i6 7 (scaled buff 112 8 (of_int (pos 65536))))

  unfoldable pub read_utc : List ℕ → Option (List F) → Option (List F)
  read_utc buff none = none
  read_utc buff (some utc) =
      let u1 = set utc 1 (scaled buff 120 24 p2_50) in
      let u0 = set u1 0 (scaled buff 144 32 p2_30) in
      let u2 = set u0 2 (scaled buff 176 8 (of_int (pos 4096))) in
      some (set u2 3 (of_int (pos (getbitu buff 184 8))))

  unfoldable pub decode_gps_subfrm4 : List ℕ → Frame F → Frame F
  decode_gps_subfrm4 buff f =
      let svid = getbitu buff 50 6 in
      if leb 25 svid && leb svid 32
      then record f { alm = with_alm (decode_almanac buff svid) f.alm }
      else if svid == 63
      then record f {
        alm =
            with_alm
              (λ (alm : List (Alm F)). read_healths buff 8 25 186 (read_configs buff 32 1 56 alm))
              f.alm;
      }
      else if svid == 56
      then record f {
        ion = read_ion buff f.ion;
        utc = read_utc buff f.utc;
        leaps = read_leaps buff f.leaps;
      }
      else f

  -- `toas` is a product of ints; the clock is read by `adjgpsweek`.
  unfoldable pub decode_gps_subfrm5 : GTime F → List ℕ → Frame F → Frame F
  decode_gps_subfrm5 now buff f =
      let svid = getbitu buff 50 6 in
      let toas = of_int (pos (getbitu buff 56 8 * 4096)) in
      let week = adjgpsweek now (pos (getbitu buff 64 8)) in
      if leb 1 svid && leb svid 24
      then record f { alm = with_alm (decode_almanac buff svid) f.alm }
      else if svid == 51
      then record f {
        alm =
            with_alm
              (λ (alm : List (Alm F)). set_times toas week 32 1 (read_healths buff 24 1 72 alm))
              f.alm;
      }
      else f

  -- `decode_subfrm4` and `decode_subfrm5`, which return 4 and 5.
  unfoldable pub decode_subfrm4 : List ℕ → Frame F → ℕ × Frame F
  decode_subfrm4 buff f = (4, (if getbitu buff 48 2 == 1 then decode_gps_subfrm4 buff f else f))

  unfoldable pub decode_subfrm5 : GTime F → List ℕ → Frame F → ℕ × Frame F
  decode_subfrm5 now buff f =
      (5, (if getbitu buff 48 2 == 1 then decode_gps_subfrm5 now buff f else f))

  -- `decode_frame`, with what it returns.
  unfoldable pub decode_frame : GTime F → List ℕ → Frame F → ℕ × Frame F
  decode_frame now buff f =
      let id = getbitu buff 43 3 in
      let (found, eph3) = decode_subfrm3 buff f.eph in
      if id == 1
      then (1, record f { eph = decode_subfrm1 now buff f.eph })
      else if id == 2
      then (2, record f { eph = decode_subfrm2 buff f.eph })
      else if id == 3
      then (found, record f { eph = eph3 })
      else if id == 4
      then decode_subfrm4 buff f
      else if id == 5
      then decode_subfrm5 now buff f
      else (0, f)
