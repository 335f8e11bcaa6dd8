-- ===== src/Ephemeris/Received.antt =====
-- decode_subfrm1, decode_subfrm2 and decode_subfrm3 read the fields of the subframes that a
-- satellite sends.
use dgnss_server.Common.{
  ℕ, ◌+◌, ◌*◌, ◌/◌, ◌%◌, ◌<◌, ◌≡◌, refl, ◌∙◌, ap, ap₂, arith, List, set, if◌then◌else◌, ◌==◌, false,
}
use dgnss_server.Common.Int.{ℤ, pos, negsuc, eq_ℤ}
use dgnss_server.Double.{Double}
use dgnss_server.Time.{GTime, gpst2time, adjgpsweek}
use dgnss_server.Bits.{getbitu}
use dgnss_server.Rtcm.Held.{HoldsAll, put_all-HoldsAll}
use dgnss_server.Ephemeris.{
  Eph, p2_5, p2_19, p2_29, p2_31, p2_33, p2_43, p2_55, sc2rad, nil, decode_subfrm1, decode_subfrm2,
  decode_subfrm3, read_subfrm3, adjust_times, iode_differs,
}
use dgnss_server.Ephemeris.Layout.{
  Broadcast, subframe1, subframe2, subframe3, sent, IsBroadcast, IsBlank,
}

module _ {F : Type 0} ⦃d : Double F⦄ where
  open d use {of_int, mul}

  -- An integer in a unit, and an angle in semicircles.
  abbrev unit : ℤ → F → F
  unit n u = mul (of_int n) u

  abbrev turn : ℤ → F → F
  turn n u = mul (unit n u) sc2rad

  -- What the subframes say of an ephemeris.
  abbrev pub clock : GTime F → Broadcast → Eph F → Eph F
  clock now b eph =
      let week = adjgpsweek now (pos b.week) in
      record eph {
        code = b.code;
        sva = b.sva;
        svh = b.svh;
        flag = b.flag;
        f2 = unit b.f2 p2_55;
        f1 = unit b.f1 p2_43;
        f0 = unit b.f0 p2_31;
        tgd = set eph.tgd 0 (if eq_ℤ b.tgd (negsuc 127) then nil else unit b.tgd p2_31);
        iodc = pos b.iodc;
        week = week;
        ttr = gpst2time week (unit (pos b.tow) (of_int (pos 6)));
        toc = gpst2time week (unit (pos b.toc) (of_int (pos 16)));
      }

  abbrev pub orbit : Broadcast → Eph F → Eph F
  orbit b eph =
      let root = unit (pos b.root) p2_19 in
      record eph {
        iode = pos b.iode;
        crs = unit b.crs p2_5;
        deln = turn b.deln p2_43;
        m0 = turn b.m0 p2_31;
        cuc = unit b.cuc p2_29;
        ecc = unit (pos b.ecc) p2_33;
        cus = unit b.cus p2_29;
        toes = unit (pos b.toes) (of_int (pos 16));
        fit = if b.fit == 0 then of_int (pos 4) else nil;
        axis = mul root root;
      }

  abbrev pub plane : Broadcast → Eph F → Eph F
  plane b eph = record eph {
    cic = unit b.cic p2_29;
    omg0 = turn b.omg0 p2_31;
    cis = unit b.cis p2_29;
    i0 = turn b.i0 p2_31;
    crc = unit b.crc p2_5;
    omg = turn b.omg p2_31;
    omgd = turn b.omgd p2_43;
    idot = turn b.idot p2_43;
  }

  subfrm1-clock :
      (now : GTime F) (b : Broadcast) (buff : List ℕ) (eph : Eph F)
      → HoldsAll buff (subframe1 b) 24
      → decode_subfrm1 now buff eph ≡ clock now b eph
  unfolding decode_subfrm1
  subfrm1-clock now b buff eph
        (
          tow,
          (
            _,
            (
              week,
              (
                code,
                (
                  sva,
                  (svh, (high, (flag, (_, (_, (_, (tgd, (low, (toc, (f2, (f1, (f0, _)))))))))))),
                ),
              ),
            ),
          ),
        ) =
      let iodc : b.iodc / 256 * 256 + b.iodc % 256 ≡ b.iodc = omega arith in
      let whole = ap₂ (λ (x : ℕ) (y : ℕ). x * 256 + y) high low ∙ iodc in
      λ i.
        clock now
          (record b {
            tow = tow i;
            week = week i;
            code = code i;
            sva = sva i;
            svh = svh i;
            iodc = whole i;
            flag = flag i;
            tgd = tgd i;
            toc = toc i;
            f2 = f2 i;
            f1 = f1 i;
            f0 = f0 i;
          })
          eph

  subfrm2-orbit :
      (b : Broadcast) (buff : List ℕ) (eph : Eph F)
      → HoldsAll buff (subframe2 b) 48
      → decode_subfrm2 buff eph ≡ orbit b eph
  unfolding decode_subfrm2
  subfrm2-orbit b buff eph
        (iode, (crs, (deln, (m0, (cuc, (ecc, (cus, (root, (toes, (fit, _)))))))))) =
      λ i.
        orbit
          (record b {
            iode = iode i;
            crs = crs i;
            deln = deln i;
            m0 = m0 i;
            cuc = cuc i;
            ecc = ecc i;
            cus = cus i;
            root = root i;
            toes = toes i;
            fit = fit i;
          })
          eph

  subfrm3-plane :
      (b : Broadcast) (buff : List ℕ) (eph : Eph F)
      → HoldsAll buff (subframe3 b) 48
      → read_subfrm3 buff eph ≡ plane b eph
  unfolding read_subfrm3
  subfrm3-plane b buff eph (cic, (omg0, (cis, (i0, (crc, (omg, (omgd, (iode, (idot, _))))))))) =
      λ i.
        plane
          (record b {
            cic = cic i;
            omg0 = omg0 i;
            cis = cis i;
            i0 = i0 i;
            crc = crc i;
            omg = omg i;
            omgd = omgd i;
            idot = idot i;
          })
          eph

  same_issue :
      (b : Broadcast) (eph : Eph F)
      → b.iodc % 256 ≡ b.iode
      → b.iodc < 1024
      → eph.iode ≡ pos b.iode
      → eph.iodc ≡ pos b.iodc
      → iode_differs b.iode eph ≡ false
  unfolding iode_differs
  same_issue b eph issue small same_iode same_iodc = rw (same_iode, same_iodc) (ground arith)

  subfrm3-received :
      (b : Broadcast) (buff : List ℕ) (eph : Eph F)
      → IsBroadcast b
      → HoldsAll buff (subframe3 b) 48
      → eph.iode ≡ pos b.iode
      → eph.iodc ≡ pos b.iodc
      → decode_subfrm3 buff eph ≡ (3, adjust_times (plane b eph))
  unfolding decode_subfrm3
  subfrm3-received b buff eph v held same_iode same_iodc =
      let iode : getbitu buff 216 8 ≡ b.iode = held.1.1.1.1.1.1.1.0 in
      let small : b.iodc < 1024 = omega (arith, v.first.1.1.1.1.1.1.0.1) in
      let same = same_issue b (plane b eph) v.issue small same_iode same_iodc in
      ap₂
        (λ (read : Eph F) (n : ℕ).
          if iode_differs n read then (0, read) else (3, adjust_times read))
        (subfrm3-plane b buff eph held) iode
      ∙ rw same refl

  -- If the fields of the three subframes are written where the interface specification has them,
  -- and the issues of clock and orbit agree, the three functions find every field, in its unit,
  -- the check of the issues lets the ephemeris pass, and only the times are adjusted.
  pub decode-subframes :
      (now : GTime F) (b : Broadcast) (x y z : List ℕ) (eph : Eph F)
      → IsBroadcast b
      → IsBlank x
      → IsBlank y
      → IsBlank z
      → decode_subfrm3 (sent z 48 (subframe3 b)) (
          decode_subfrm2
            (sent y 48 (subframe2 b))
            (decode_subfrm1 now (sent x 24 (subframe1 b)) eph))
        ≡ (3, adjust_times (plane b (orbit b (clock now b eph))))
  decode-subframes now b x y z eph v room_x room_y room_z =
      let one = sent y 48 (subframe2 b) in
      let two = sent z 48 (subframe3 b) in
      let first = subfrm1-clock now b _ eph (
        put_all-HoldsAll (subframe1 b) (x, 24) room_x.bytes (omega (arith, room_x.long)) v.first) in
      let second = subfrm2-orbit b _ (clock now b eph) (
        put_all-HoldsAll (subframe2 b) (y, 48) room_y.bytes (omega (arith, room_y.long))
          v.second) in
      let third =
        subfrm3-received b _ (orbit b (clock now b eph)) v
          (put_all-HoldsAll (subframe3 b) (z, 48) room_z.bytes (omega (arith, room_z.long)) v.third)
          refl refl in
      ap (λ (e : Eph F). decode_subfrm3 two (decode_subfrm2 one e)) first
      ∙ ap (λ (e : Eph F). decode_subfrm3 two e) second
      ∙ third
