-- ===== src/Examples/Navigation.antt =====
-- Examples of the navigation messages.
use dgnss_server.Common.{ℕ, ◌*◌, ◌≡◌, refl, arith, List, ◌∷◌, ◌++◌, replicate}
use dgnss_server.Common.Int.{ℤ, pos, negsuc}
use dgnss_server.Double.{whole, whole-IsExact}
use dgnss_server.Bits.{u2, u4, getbitu, read_bits}
use dgnss_server.Sat.{max_sat, satno, strstr}
use dgnss_server.Ephemeris.{
  handover, decode_subfrm1, decode_subfrm2, decode_subfrm3, iode_differs, read_subfrm3,
  adjust_times,
}
use dgnss_server.Ephemeris.Almanac.{decode_frame}
use dgnss_server.Ephemeris.Message.{
  NavRaw, finish_rawephemb, read_frames, decode_rawephemb, decode_gpsephemerisb,
  decode_bdsephemerisb,
}
use dgnss_server.Ephemeris.Table.{eph0, fresh_table-IsNav, Keeps, decode_ephemeris-Keeps}
use dgnss_server.Ephemeris.Frames.{IsRawEphemeris, rawephemb-IsRawEphemeris}
use dgnss_server.Ephemeris.Layout.{
  Broadcast, IsBroadcast, IsBlank, subframe1, subframe2, subframe3, sent,
}
use dgnss_server.Ephemeris.Received.{clock, orbit, plane, decode-subframes}
use dgnss_server.Ephemeris.Handover.{IsHandover, handover-IsHandover}
use dgnss_server.Examples.{now, zeros, zeros-IsBytes, fresh_raw}

abbrev subframe : ℕ → List ℕ
subframe id = zeros 5 ++ ((id * 4) ∷ zeros 24)

-- The message of GPS satellite 5, with three subframes of issue 0.
abbrev sample : NavRaw ℤ
sample = record {
  raw = record fresh_raw {
    len = 130;
    buff =
        zeros 28 ++ (5 ∷ 0 ∷ 0 ∷ 0 ∷ zeros 8) ++ subframe 1 ++ subframe 2 ++ subframe 3 ++ zeros 4;
  };
  eph = replicate max_sat eph0;
  ephsat = 0;
}

sample_stored : (decode_rawephemb now sample).0 ≡ pos 2
unfolding decode_rawephemb satno u4 u2 finish_rawephemb read_frames decode_frame getbitu read_bits
    decode_subfrm3 iode_differs read_subfrm3 decode_subfrm2 decode_subfrm1 strstr adjust_times
sample_stored = refl

rawephemb-IsRawEphemeris_example : IsRawEphemeris sample (decode_rawephemb now sample).1
rawephemb-IsRawEphemeris_example =
    rawephemb-IsRawEphemeris now sample fresh_table-IsNav sample_stored

decode_ephemeris-Keeps_example :
    Keeps 2 sample (decode_rawephemb now sample)
    × Keeps 7 sample (decode_gpsephemerisb sample)
    × Keeps 1047 sample (decode_bdsephemerisb sample)
decode_ephemeris-Keeps_example = decode_ephemeris-Keeps now sample fresh_table-IsNav

handover-IsHandover_example :
    (week' tow' : ℤ) × (handover (pos 100) (pos 2200) (pos 600000) ≡ (week', tow'))
    × IsHandover 100 2200 600000 week' tow'
handover-IsHandover_example =
    handover-IsHandover whole-IsExact 100 2200 600000 (omega arith) (omega arith) (omega arith)
      (omega arith)

-- A satellite's three subframes of issue 77.
abbrev satellite : Broadcast
satellite = record {
  tow = 50000;
  week = 152;
  code = 1;
  sva = 2;
  svh = 0;
  iodc = 589;
  flag = 0;
  tgd = negsuc 22;
  toc = 18900;
  f2 = pos 0;
  f1 = negsuc 40;
  f0 = pos 912345;
  iode = 77;
  crs = negsuc 1500;
  deln = pos 12345;
  m0 = negsuc 1999999999;
  cuc = negsuc 900;
  ecc = 4000000000;
  cus = pos 4321;
  root = 2702000000;
  toes = 18900;
  fit = 0;
  cic = pos 17;
  omg0 = pos 2000000000;
  cis = negsuc 5;
  i0 = pos 650000000;
  crc = pos 7000;
  omg = negsuc 1;
  omgd = negsuc 22500;
  idot = negsuc 300;
  alert = 68;
  spare1 = 5592405;
  spare2 = 2863311530;
  spare3 = 1431655765;
}

satellite-IsBroadcast : IsBroadcast satellite
satellite-IsBroadcast = record {
  first = omega arith;
  second = omega arith;
  third = omega arith;
  issue = omega arith;
}

room-IsBlank : IsBlank (zeros 30)
room-IsBlank = record { bytes = zeros-IsBytes 30; long = omega arith }

decode-subframes_example :
    decode_subfrm3 (sent (zeros 30) 48 (subframe3 satellite)) (
      decode_subfrm2
        (sent (zeros 30) 48 (subframe2 satellite))
        (decode_subfrm1 now (sent (zeros 30) 24 (subframe1 satellite)) eph0))
    ≡ (3, adjust_times (plane satellite (orbit satellite (clock now satellite eph0))))
decode-subframes_example =
    decode-subframes now satellite (zeros 30) (zeros 30) (zeros 30) eph0 satellite-IsBroadcast
      room-IsBlank room-IsBlank room-IsBlank
