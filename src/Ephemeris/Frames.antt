-- ===== src/Ephemeris/Frames.antt =====
-- What a raw ephemeris that is stored was made of: the subframes 1, 2 and 3 of one issue of data.
use dgnss_server.Common.{
  ℕ, ◌+◌, ◌-◌, ◌%◌, ◌≡◌, ◌⊎◌, inl, inr, refl, sym, ◌∙◌, ap, arith, Bool, true, false, not, ◌&&◌,
  List, length, drop, set, get_or-set_self, ◌<◌, ltb, ◌==◌, Bool-cases, ◌≤◌,
}
use dgnss_server.Common.Int.{pos, eq_ℤ, eq_ℤ-eq, to_int32, to_word32}
use dgnss_server.Double.{Double}
use dgnss_server.Time.{GTime}
use dgnss_server.Bits.{getbitu, u4}
use dgnss_server.Sat.{satno, sys_gps, strstr, opt_ephall}
use dgnss_server.Receiver.{oem4_hlen}
use dgnss_server.Receiver.Range.{IsTracked}
use dgnss_server.Ephemeris.{Eph, no_eph, decode_subfrm3, read_subfrm3, iode_differs, adjust_times}
use dgnss_server.Ephemeris.Almanac.{Frame, decode_subfrm4, decode_subfrm5, decode_frame}
use dgnss_server.Ephemeris.Table.{IsNav, satno-IsSat}
use dgnss_server.Ephemeris.Message.{
  NavRaw, eph_of, store_eph, frame_of, finish_rawephemb, read_frames, decode_rawephemb,
}

pub ltb-le : (a b : ℕ) → ltb a b ≡ false → b ≤ a
ltb-le a b h = ground arith

-- The bytes of a frame in the message.
abbrev pub frame_at : List ℕ → ℕ → List ℕ
frame_at buff p = drop (oem4_hlen + p) buff

module _ {F : Type 0} ⦃d : Double F⦄ where
  -- The issue of data of the orbit is that of the clock.
  abbrev pub IsOneIssue : Eph F → Type 0
  IsOneIssue eph = eph.iode ≡ pos (to_word32 eph.iodc % 256)

  adjust_times-IsOneIssue : (eph : Eph F) → IsOneIssue eph → IsOneIssue (adjust_times eph)
  unfolding adjust_times
  adjust_times-IsOneIssue eph h = h

  iode_differs-IsOneIssue :
      (iode : ℕ) (eph : Eph F) → iode_differs iode eph ≡ false → IsOneIssue eph
  unfolding iode_differs
  iode_differs-IsOneIssue iode eph h =
      let same : pos iode ≡ eph.iode = eq_ℤ-eq (pos iode) eph.iode (ground (arith, h)) in
      let low : iode ≡ to_word32 eph.iodc % 256 = ground (arith, h) in sym same ∙ ap pos low

  subfrm3-IsOneIssue :
      (buff : List ℕ) (eph : Eph F)
      → (decode_subfrm3 buff eph).0 ≡ 3
      → IsOneIssue (decode_subfrm3 buff eph).1
  unfolding decode_subfrm3
  subfrm3-IsOneIssue buff eph h =
      let read = read_subfrm3 buff eph in
      elim (Bool-cases (iode_differs (getbitu buff 216 8) read)) [
        | inl differs ↦ absurd (omega (arith, rw differs at h))
        | inr same ↦ rw same (adjust_times-IsOneIssue read (iode_differs-IsOneIssue _ read same))
      ]

  subfrm3_returns :
      (buff : List ℕ) (eph : Eph F)
      → ((decode_subfrm3 buff eph).0 ≡ 0) ⊎ ((decode_subfrm3 buff eph).0 ≡ 3)
  unfolding decode_subfrm3
  subfrm3_returns buff eph =
      elim (Bool-cases (iode_differs (getbitu buff 216 8) (read_subfrm3 buff eph))) [
        | inl differs ↦ rw differs (inl refl)
        | inr same ↦ rw same (inr refl)
      ]

  -- What a frame returns from 1 to 3 is its number.
  frame_id :
      (now : GTime F) (buff : List ℕ) (f : Frame F) (k : ℕ)
      → 1 ≤ k
      → k ≤ 3
      → (decode_frame now buff f).0 ≡ k
      → getbitu buff 43 3 ≡ k
  unfolding decode_frame decode_subfrm4 decode_subfrm5
  frame_id now buff f k lo hi h = ground (arith, subfrm3_returns buff f.eph)

  frame3-IsOneIssue :
      (now : GTime F) (buff : List ℕ) (f : Frame F)
      → (decode_frame now buff f).0 ≡ 3
      → IsOneIssue (decode_frame now buff f).1.eph
  unfolding decode_frame
  frame3-IsOneIssue now buff f h =
      let id = frame_id now buff f 3 (omega arith) (omega arith) h in
      rw id (subfrm3-IsOneIssue buff f.eph (rw id at h))

  record AreFrames (buff : List ℕ) (eph : Eph F) : Type 0 where
    first : getbitu (frame_at buff 12) 43 3 ≡ 1
    second : getbitu (frame_at buff 42) 43 3 ≡ 2
    third : getbitu (frame_at buff 72) 43 3 ≡ 3
    issue : IsOneIssue eph

  read_frames-AreFrames :
      (now : GTime F) (buff : List ℕ)
      → (read_frames now buff).0 ≡ true
      → AreFrames buff (read_frames now buff).1
  unfolding read_frames
  read_frames-AreFrames now buff h =
      let r1 = decode_frame now (frame_at buff 12) (frame_of no_eph) in
      let r2 = decode_frame now (frame_at buff 42) (frame_of r1.1.eph) in
      let r3 = decode_frame now (frame_at buff 72) (frame_of r2.1.eph) in
      let h1 : r1.0 ≡ 1 = ground (arith, h) in
      let h2 : r2.0 ≡ 2 = ground (arith, h) in
      let h3 : r3.0 ≡ 3 = ground (arith, h) in
      record {
        first = frame_id now (frame_at buff 12) _ 1 (omega arith) (omega arith) h1;
        second = frame_id now (frame_at buff 42) _ 2 (omega arith) (omega arith) h2;
        third = frame_id now (frame_at buff 72) _ 3 (omega arith) (omega arith) h3;
        issue = frame3-IsOneIssue now (frame_at buff 72) (frame_of r2.1.eph) h3;
      }

  finish-stored :
      (done : Bool) (eph : Eph F) (sat : ℕ) (n : NavRaw F)
      → (finish_rawephemb done eph sat n).0 ≡ pos 2
      → (done ≡ true)
        × ((finish_rawephemb done eph sat n).1 ≡ store_eph (record eph { sat = sat }) sat n)
  unfolding finish_rawephemb
  finish-stored false eph sat n h = cc
  finish-stored true eph sat n h =
      elim (Bool-cases
        (not (strstr n.raw.opt opt_ephall) && eq_ℤ eph.iode (eph_of n.eph sat).iode)) [
          | inl same ↦ absurd (ground (arith, rw same at h))
          | inr new ↦ (refl, rw new)
        ]

  stored-IsOneIssue :
      (eph : Eph F) (sat : ℕ) (n : NavRaw F)
      → IsNav n.eph
      → IsTracked sat
      → IsOneIssue eph
      → IsOneIssue (eph_of (set n.eph (sat - 1) (record eph { sat = sat })) sat)
  stored-IsOneIssue eph sat n nav t h =
      let size = nav.size in
      let inside : sat - 1 < length n.eph = omega arith in
      rw (get_or-set_self n.eph (sat - 1) (record eph { sat = sat }) no_eph inside) h

  -- What a return of 2 says: the length of the message, its satellite, the numbers of its subframes,
  -- and the ephemeris that is in the table.
  pub record IsRawEphemeris (n n' : NavRaw F) : Type 0 where
    pub long : oem4_hlen + 102 ≤ n.raw.len
    pub sat : n'.ephsat ≡ satno sys_gps (to_int32 (u4 n.raw.buff oem4_hlen))
    pub first : getbitu (frame_at n.raw.buff 12) 43 3 ≡ 1
    pub second : getbitu (frame_at n.raw.buff 42) 43 3 ≡ 2
    pub third : getbitu (frame_at n.raw.buff 72) 43 3 ≡ 3
    pub issue : IsOneIssue (eph_of n'.eph n'.ephsat)

  pub rawephemb-IsRawEphemeris :
      (now : GTime F) (n : NavRaw F)
      → IsNav n.eph
      → (decode_rawephemb now n).0 ≡ pos 2
      → IsRawEphemeris n (decode_rawephemb now n).1
  unfolding decode_rawephemb
  rawephemb-IsRawEphemeris now n nav h =
      let sat = satno sys_gps (to_int32 (u4 n.raw.buff oem4_hlen)) in
      let frames = read_frames now n.raw.buff in
      elim (Bool-cases (ltb n.raw.len (oem4_hlen + 102))) [
        | inl short ↦ absurd (ground (arith, rw short at h))
        | inr long ↦ elim (Bool-cases (sat == 0)) [
          | inl no_sat ↦ absurd (ground (arith, rw (long, no_sat) at h))
          | inr found ↦
              let track =
                satno-IsSat sys_gps (to_int32 (u4 n.raw.buff oem4_hlen)) (inl refl)
                  (ground (arith, found)) in
              let (done, stored) = finish-stored frames.0 frames.1 sat n (rw (long, found) at h) in
              let all = read_frames-AreFrames now n.raw.buff done in
              rw (long, found)
                (rw stored (record {
                  long = ltb-le n.raw.len (oem4_hlen + 102) long;
                  sat = unfold store_eph in refl;
                  first = all.first;
                  second = all.second;
                  third = all.third;
                  issue = unfold store_eph in stored-IsOneIssue frames.1 sat n nav track all.issue;
                }))
        ]
      ]
