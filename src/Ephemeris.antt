-- ===== src/Ephemeris.antt =====
-- The navigation messages of AgnssServer/AssistData.c: the subframes of GPS, decode_subfrm1 to
-- decode_subfrm3, on the ephemeris that they fill; the almanac pages are in Almanac, and the
-- messages of the receiver in Message. Positions of bits are the values of the variable `i`.
pub mod Almanac
pub mod Message
pub mod Frames
pub mod Handover
pub mod Table
pub mod Layout
pub mod Received
use dgnss_server.Common.{
  ℕ, ◌+◌, ◌-◌, ◌*◌, ◌/◌, ◌%◌, ◌^◌, Bool, ◌||◌, not, List, [], ◌∷◌, set, replicate, ◌==◌,
  if◌then◌else◌,
}
use dgnss_server.Common.Int.{ℤ, pos, negsuc, ◌+ℤ◌, ◌-ℤ◌, eq_ℤ, int32, to_word32}
use dgnss_server.Double.{Double}
use dgnss_server.Time.{GTime, gpst2time, time2gpst, adjgpsweek}
use dgnss_server.Bits.{getbitu, getbits}
use dgnss_server.Rtcm.{p2_29}

-- `eph_t`, without what no function here sets.
pub record Eph (F : Type 0) : Type 0 where
  pub sat : ℕ
  pub iode : ℤ
  pub iodc : ℤ
  pub sva : ℕ
  pub svh : ℕ
  pub week : ℤ
  pub code : ℕ
  pub flag : ℕ
  pub toe : GTime F
  pub toc : GTime F
  pub ttr : GTime F
  pub axis : F
  pub ecc : F
  pub i0 : F
  pub omg0 : F
  pub omg : F
  pub m0 : F
  pub deln : F
  pub omgd : F
  pub idot : F
  pub crc : F
  pub crs : F
  pub cuc : F
  pub cus : F
  pub cic : F
  pub cis : F
  pub toes : F
  pub tocs : F
  pub fit : F
  pub f0 : F
  pub f1 : F
  pub f2 : F
  pub tgd : List F

module _ {F : Type 0} ⦃d : Double F⦄ where
  open d use {of_int, decimal, add, sub, mul, lt, eq}

  abbrev pub p2_5 : F
  p2_5 = decimal (pos 3125) (negsuc 4)

  abbrev pub p2_11 : F
  p2_11 = decimal (pos 48828125) (negsuc 10)

  abbrev pub p2_17 : F
  p2_17 = decimal (pos 762939453125) (negsuc 16)

  abbrev pub p2_19 : F
  p2_19 = decimal (pos 19073486328125) (negsuc 18)

  abbrev pub p2_20 : F
  p2_20 = decimal (pos 95367431640625) (negsuc 19)

  abbrev pub p2_21 : F
  p2_21 = decimal (pos 476837158203125) (negsuc 20)

  abbrev pub p2_23 : F
  p2_23 = decimal (pos 119209289550781) (negsuc 20)

  abbrev pub p2_27 : F
  p2_27 = decimal (pos 7450580596923828) (negsuc 23)

  abbrev pub p2_30 : F
  p2_30 = decimal (pos 9313225746154785) (negsuc 24)

  abbrev pub p2_31 : F
  p2_31 = decimal (pos 4656612873077393) (negsuc 24)

  abbrev pub p2_33 : F
  p2_33 = decimal (pos 1164153218269348) (negsuc 24)

  abbrev pub p2_38 : F
  p2_38 = decimal (pos 363797880709171) (negsuc 25)

  abbrev pub p2_43 : F
  p2_43 = decimal (pos 113686837721616) (negsuc 26)

  abbrev pub p2_50 : F
  p2_50 = decimal (pos 8881784197001252) (negsuc 30)

  abbrev pub p2_55 : F
  p2_55 = decimal (pos 2775557561562891) (negsuc 31)

  abbrev pub sc2rad : F
  sc2rad = decimal (pos 31415926535898) (negsuc 12)

  -- The constants 0.0, 0.3, 302400.0 and 604800.0.
  abbrev pub nil : F
  nil = of_int (pos 0)

  abbrev pub half_week : F
  half_week = of_int (pos 302400)

  abbrev pub one_week : F
  one_week = of_int (pos 604800)

  -- `{ 0 }`
  abbrev pub no_eph : Eph F
  no_eph = record {
    sat = 0;
    iode = pos 0;
    iodc = pos 0;
    sva = 0;
    svh = 0;
    week = pos 0;
    code = 0;
    flag = 0;
    toe = record { time = pos 0; sec = nil };
    toc = record { time = pos 0; sec = nil };
    ttr = record { time = pos 0; sec = nil };
    axis = nil;
    ecc = nil;
    i0 = nil;
    omg0 = nil;
    omg = nil;
    m0 = nil;
    deln = nil;
    omgd = nil;
    idot = nil;
    crc = nil;
    crs = nil;
    cuc = nil;
    cus = nil;
    cic = nil;
    cis = nil;
    toes = nil;
    tocs = nil;
    fit = nil;
    f0 = nil;
    f1 = nil;
    f2 = nil;
    tgd = replicate 4 nil;
  }

  -- A signed field times a constant, and the same as an angle; and an unsigned field.
  abbrev pub scaled : List ℕ → ℕ → ℕ → F → F
  scaled buff i len unit = mul (of_int (getbits buff i len)) unit

  abbrev pub angle : List ℕ → ℕ → ℕ → F → F
  angle buff i len unit = mul (scaled buff i len unit) sc2rad

  abbrev pub scaled_u : List ℕ → ℕ → ℕ → F → F
  scaled_u buff i len unit = mul (of_int (pos (getbitu buff i len))) unit

  unfoldable pub decode_subfrm1 : GTime F → List ℕ → Eph F → Eph F
  decode_subfrm1 now buff eph =
      let tow = scaled_u buff 24 17 (of_int (pos 6)) in
      let week = adjgpsweek now (pos (getbitu buff 48 10)) in
      let tgd = getbits buff 160 8 in
      record eph {
        code = getbitu buff 58 2;
        sva = getbitu buff 60 4;
        svh = getbitu buff 64 6;
        flag = getbitu buff 72 1;
        f2 = scaled buff 192 8 p2_55;
        f1 = scaled buff 200 16 p2_43;
        f0 = scaled buff 216 22 p2_31;
        tgd = set eph.tgd 0 (if eq_ℤ tgd (negsuc 127) then nil else mul (of_int tgd) p2_31);
        iodc = pos (getbitu buff 70 2 * 256 + getbitu buff 168 8);
        week = week;
        ttr = gpst2time week tow;
        toc = gpst2time week (scaled_u buff 176 16 (of_int (pos 16)));
      }

  unfoldable pub decode_subfrm2 : List ℕ → Eph F → Eph F
  decode_subfrm2 buff eph =
      let sqrt_a = scaled_u buff 184 32 p2_19 in
      record eph {
        iode = pos (getbitu buff 48 8);
        crs = scaled buff 56 16 p2_5;
        deln = angle buff 72 16 p2_43;
        m0 = angle buff 88 32 p2_31;
        cuc = scaled buff 120 16 p2_29;
        ecc = scaled_u buff 136 32 p2_33;
        cus = scaled buff 168 16 p2_29;
        toes = scaled_u buff 216 16 (of_int (pos 16));
        fit = if getbitu buff 232 1 == 0 then of_int (pos 4) else nil;
        axis = mul sqrt_a sqrt_a;
      }

  -- The adjustment for the handover of weeks: the week and the time of week.
  unfoldable pub handover : F → ℤ → F → ℤ × F
  handover toes week tow =
      if lt toes (sub tow half_week)
      then (int32 (week +ℤ pos 1), sub tow one_week)
      else if lt (add tow half_week) toes
      then (int32 (week -ℤ pos 1), add tow one_week)
      else (week, tow)

  -- The assignments in front of the check.
  unfoldable pub read_subfrm3 : List ℕ → Eph F → Eph F
  read_subfrm3 buff eph = record eph {
    cic = scaled buff 48 16 p2_29;
    omg0 = angle buff 64 32 p2_31;
    cis = scaled buff 96 16 p2_29;
    i0 = angle buff 112 32 p2_31;
    crc = scaled buff 144 16 p2_5;
    omg = angle buff 160 32 p2_31;
    omgd = angle buff 192 24 p2_43;
    idot = angle buff 224 14 p2_43;
  }

  -- Those behind it.
  unfoldable pub adjust_times : Eph F → Eph F
  adjust_times eph =
      let (week, tow) = time2gpst eph.ttr in
      let toc = (time2gpst eph.toc).1 in
      let (week', tow') = handover eph.toes week tow in
      record eph {
        week = week';
        toe = gpst2time week' eph.toes;
        toc = gpst2time week' toc;
        ttr = gpst2time week' tow';
      }

  -- The check of `iode` and `iodc`, an int.
  unfoldable pub iode_differs : ℕ → Eph F → Bool
  iode_differs iode eph = not (eq_ℤ (pos iode) eph.iode) || not (iode == to_word32 eph.iodc % 256)

  -- `decode_subfrm3`, with what it returns.
  unfoldable pub decode_subfrm3 : List ℕ → Eph F → ℕ × Eph F
  decode_subfrm3 buff eph =
      let read = read_subfrm3 buff eph in
      if iode_differs (getbitu buff 216 8) read then (0, read) else (3, adjust_times read)
