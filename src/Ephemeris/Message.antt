-- ===== src/Ephemeris/Message.antt =====
-- The receiver's messages with ephemerides: decode_rawephemb, decode_gpsephemerisb and
-- decode_bdsephemerisb, on the table of `nav_t`; uraindex. Texts for `msgtype` are left out.
use dgnss_server.Common.{
  ℕ, ◌+◌, ◌-◌, ◌%◌, Bool, not, ◌&&◌, none, List, [], ◌∷◌, get_or, set, drop, ltb, ◌==◌,
  if◌then◌else◌,
}
use dgnss_server.Common.Int.{ℤ, pos, negsuc, eq_ℤ, to_int32}
use dgnss_server.Double.{Double}
use dgnss_server.Time.{GTime, timediff, gpst2time, bdt2time, bdt2gpst}
use dgnss_server.Bits.{u4, u8}
use dgnss_server.Sat.{satno, sys_gps, sys_cmp, strstr, opt_ephall}
use dgnss_server.Receiver.{Raw, oem4_hlen}
use dgnss_server.Ephemeris.{Eph, no_eph, nil}
use dgnss_server.Ephemeris.Almanac.{Frame, decode_frame}

-- The receiver's state with its table of ephemerides.
pub record NavRaw (F : Type 0) : Type 0 where
  pub raw : Raw F
  pub eph : List (Eph F)
  pub ephsat : ℕ

module _ {F : Type 0} ⦃d : Double F⦄ where
  open d use {of_int, decimal, sqrt, le, eq, of_bits64}

  abbrev pub eph_of : List (Eph F) → ℕ → Eph F
  eph_of table sat = get_or table (sat - 1) no_eph

  -- `ura_eph`, without the last element, which the loop does not read.
  abbrev pub ura_eph : List F
  ura_eph =
      decimal (pos 24) (negsuc 0)
      ∷ decimal (pos 34) (negsuc 0)
      ∷ decimal (pos 485) (negsuc 1)
      ∷ decimal (pos 685) (negsuc 1)
      ∷ decimal (pos 965) (negsuc 1)
      ∷ decimal (pos 1365) (negsuc 1)
      ∷ of_int (pos 24)
      ∷ of_int (pos 48)
      ∷ of_int (pos 96)
      ∷ of_int (pos 192)
      ∷ of_int (pos 384)
      ∷ of_int (pos 768)
      ∷ of_int (pos 1536)
      ∷ of_int (pos 3072)
      ∷ of_int (pos 6144)
      ∷ []

  unfoldable pub find_ura : List F → ℕ → F → ℕ
  find_ura [] i value = i
  find_ura (u ∷ us) i value = let rest = find_ura us (i + 1) value in if le value u then i else rest

  unfoldable pub uraindex : F → ℕ
  uraindex value = find_ura ura_eph 0 value

  -- A new ephemeris at its place.
  unfoldable pub store_eph : Eph F → ℕ → NavRaw F → NavRaw F
  store_eph eph sat n = record n { eph = set n.eph (sat - 1) eph; ephsat = sat }

  abbrev pub frame_of : Eph F → Frame F
  frame_of eph = record { eph = eph; alm = none; ion = none; utc = none; leaps = none }

  -- The end of `decode_rawephemb`, with what the three frames return.
  unfoldable pub finish_rawephemb : Bool → Eph F → ℕ → NavRaw F → ℤ × NavRaw F
  finish_rawephemb done eph sat n =
      if not done
      then (negsuc 0, n)
      else if not (strstr n.raw.opt opt_ephall) && eq_ℤ eph.iode (eph_of n.eph sat).iode
      then (pos 0, n)
      else (pos 2, store_eph (record eph { sat = sat }) sat n)

  -- The three frames, of which a later one is read only where the ones before it are right.
  unfoldable pub read_frames : GTime F → List ℕ → Bool × Eph F
  read_frames now buff =
      let p = oem4_hlen in
      let (id1, f1) = decode_frame now (drop (p + 12) buff) (frame_of no_eph) in
      let (id2, f2) = decode_frame now (drop (p + 42) buff) (frame_of f1.eph) in
      let (id3, f3) = decode_frame now (drop (p + 72) buff) (frame_of f2.eph) in
      (id1 == 1 && (id2 == 2 && id3 == 3), f3.eph)

  unfoldable pub decode_rawephemb : GTime F → NavRaw F → ℤ × NavRaw F
  decode_rawephemb now n =
      let sat = satno sys_gps (to_int32 (u4 n.raw.buff oem4_hlen)) in
      let (done, eph) = read_frames now n.raw.buff in
      if ltb n.raw.len (oem4_hlen + 102)
      then (negsuc 0, n)
      else if sat == 0
      then (negsuc 0, n)
      else finish_rawephemb done eph sat n

  -- The double at a byte.
  abbrev r8 : List ℕ → ℕ → F
  r8 buff p = of_bits64 (u8 buff p)

  -- The fields that both messages have, from the byte behind the header on.
  unfoldable pub read_ephemeris : List ℕ → Eph F
  read_ephemeris buff =
      let tgd = r8 buff 200 in
      record no_eph {
        svh = u4 buff 40 % 2;
        iode = to_int32 (u4 buff 44);
        toes = r8 buff 60;
        deln = r8 buff 76;
        m0 = r8 buff 84;
        ecc = r8 buff 92;
        omg = r8 buff 100;
        cuc = r8 buff 108;
        cus = r8 buff 116;
        crc = r8 buff 124;
        crs = r8 buff 132;
        cic = r8 buff 140;
        cis = r8 buff 148;
        i0 = r8 buff 156;
        idot = r8 buff 164;
        omg0 = r8 buff 172;
        omgd = r8 buff 180;
        iodc = to_int32 (u4 buff 188);
        tocs = r8 buff 192;
        tgd = tgd ∷ tgd ∷ nil ∷ nil ∷ [];
        f0 = r8 buff 208;
        f1 = r8 buff 216;
        f2 = r8 buff 224;
        axis = sqrt (r8 buff 68);
        week = pos (u4 buff 52 % 1024);
        sva = uraindex (r8 buff 244);
      }

  -- Their end: an ephemeris of the same time is not stored.
  unfoldable pub finish_ephemerisb : Eph F → ℕ → NavRaw F → ℤ × NavRaw F
  finish_ephemerisb eph code n =
      if not (strstr n.raw.opt opt_ephall) && eq (timediff (eph_of n.eph eph.sat).toe eph.toe) nil
      then (pos 0, n)
      else (pos code, store_eph eph eph.sat n)

  -- The common body: the system, the time of a week and a second, and what is returned.
  unfoldable pub decode_ephemerisb : ℕ → (ℤ → F → GTime F) → ℕ → NavRaw F → ℤ × NavRaw F
  decode_ephemerisb sys to_time code n =
      let sat = satno sys (to_int32 (u4 n.raw.buff oem4_hlen)) in
      let read = read_ephemeris n.raw.buff in
      let eph = record read {
        sat = sat;
        toe = to_time read.week read.toes;
        toc = to_time read.week read.tocs;
        ttr = n.raw.time;
      } in
      if ltb n.raw.len (oem4_hlen + 224)
      then (negsuc 0, n)
      else if sat == 0
      then (negsuc 0, n)
      else finish_ephemerisb eph code n

  unfoldable pub decode_gpsephemerisb : NavRaw F → ℤ × NavRaw F
  decode_gpsephemerisb n = decode_ephemerisb sys_gps gpst2time 7 n

  unfoldable pub decode_bdsephemerisb : NavRaw F → ℤ × NavRaw F
  decode_bdsephemerisb n =
      decode_ephemerisb sys_cmp (λ (week : ℤ) (sec : F). bdt2gpst (bdt2time week sec)) 1047 n
