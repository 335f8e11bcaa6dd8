-- ===== src/Ephemeris/Table.antt =====
-- The table of ephemerides: each message leaves it alone, or stores one satellite at its place.
use dgnss_server.Common.{
  ℕ, zero, suc, ◌+◌, ◌-◌, ◌<◌, ◌≡◌, ◌≢◌, ◌⊎◌, inl, inr, refl, sym, ◌∙◌, arith, Bool, true, false,
  not, ◌&&◌, List, length, length-replicate, replicate, get_or, set, ltb, ◌==◌, Bool-cases,
  if◌then◌else◌, length-set, get_or-set_self, get_or-set_ne, ℕ_discrete,
}
use dgnss_server.Common.Int.{ℤ, pos, negsuc, eq_ℤ, to_int32}
use dgnss_server.Double.{Double}
use dgnss_server.Time.{GTime, timediff, gpst2time, bdt2time, bdt2gpst}
use dgnss_server.Bits.{u4}
use dgnss_server.Sat.{satno, sys_gps, sys_cmp, strstr, opt_ephall, max_sat}
use dgnss_server.Receiver.{oem4_hlen}
use dgnss_server.Receiver.Range.{IsTracked}
use dgnss_server.Ephemeris.{Eph, no_eph, nil}
use dgnss_server.Ephemeris.Message.{
  NavRaw, eph_of, store_eph, finish_rawephemb, read_frames, decode_rawephemb, read_ephemeris,
  finish_ephemerisb, decode_ephemerisb, decode_gpsephemerisb, decode_bdsephemerisb,
}

pub satno-IsSat :
    (sys : ℕ) (prn : ℤ)
    → (sys ≡ sys_gps) ⊎ (sys ≡ sys_cmp)
    → satno sys prn ≢ 0
    → IsTracked (satno sys prn)
unfolding satno
satno-IsSat sys prn s h = ground arith

module _ {F : Type 0} ⦃d : Double F⦄ where
  -- The table has MAXSAT places, and each is free or holds the satellite with its number.
  pub record IsNav (table : List (Eph F)) : Type 0 where
    pub size : length table ≡ max_sat
    pub places : (i : ℕ) → ((get_or table i no_eph).sat ≡ 0) ⊎ ((get_or table i no_eph).sat ≡ i + 1)

  -- One new ephemeris, of a GPS or a BeiDou satellite, at its place, and the number of that.
  pub record IsStored (n n' : NavRaw F) : Type 0 where
    pub eph : Eph F
    pub sat : IsTracked eph.sat
    pub table : n'.eph ≡ set n.eph (eph.sat - 1) eph
    pub ephsat : n'.ephsat ≡ eph.sat
    pub raw : n'.raw ≡ n.raw

  abbrev pub IsOutcome : ℕ → NavRaw F → ℤ × NavRaw F → Type 0
  IsOutcome code n (r, n') =
      (((r ≡ negsuc 0) ⊎ (r ≡ pos 0)) × (n' ≡ n)) ⊎ ((r ≡ pos code) × IsStored n n')

  abbrev pub eph0 : Eph F
  eph0 = record no_eph { iode = negsuc 0; iodc = negsuc 0 }

  free_places : (e : Eph F) → e.sat ≡ 0 → (k i : ℕ) → (get_or (replicate k e) i no_eph).sat ≡ 0
  free_places e h zero i = refl
  free_places e h (suc k) zero = h
  free_places e h (suc k) (suc i) = free_places e h k i

  -- The table of AssistData_Init.
  pub fresh_table-IsNav : IsNav (replicate max_sat eph0)
  fresh_table-IsNav = record {
    size = length-replicate max_sat eph0;
    places = λ i. inl (free_places eph0 refl max_sat i);
  }

  set-IsNav :
      (table : List (Eph F)) (eph : Eph F)
      → IsTracked eph.sat
      → IsNav table
      → IsNav (set table (eph.sat - 1) eph)
  set-IsNav table eph t h =
      let size = h.size in
      let inside : eph.sat - 1 < length table = omega arith in
      let place : eph.sat ≡ eph.sat - 1 + 1 = omega arith in
      record {
        size = length-set table (eph.sat - 1) eph ∙ h.size;
        places = λ i. elim (ℕ_discrete (eph.sat - 1) i) [
          | no ne ↦ rw (get_or-set_ne table (eph.sat - 1) i eph no_eph ne) (h.places i)
          | yes e ↦ rw (← e, get_or-set_self table (eph.sat - 1) eph no_eph inside) (inr place)
        ];
      }

  pub outcome-IsNav :
      (code : ℕ) (n : NavRaw F) (r : ℤ × NavRaw F)
      → IsOutcome code n r
      → IsNav n.eph
      → IsNav r.1.eph
  outcome-IsNav code n (r, n') (inl (e, same)) h = rw same h
  outcome-IsNav code n (r, n') (inr (e, s)) h = rw s.table (set-IsNav n.eph s.eph s.sat h)

  store_eph-IsStored :
      (eph : Eph F) (sat : ℕ) (n : NavRaw F)
      → eph.sat ≡ sat
      → IsTracked sat
      → IsStored n (store_eph eph sat n)
  unfolding store_eph
  store_eph-IsStored eph sat n e t = record {
    eph = eph;
    sat = rw e t;
    table = rw e;
    ephsat = sym e;
    raw = refl;
  }

  finish-IsOutcome :
      (done : Bool) (eph : Eph F) (sat : ℕ) (n : NavRaw F)
      → IsTracked sat
      → IsOutcome 2 n (finish_rawephemb done eph sat n)
  unfolding finish_rawephemb
  finish-IsOutcome false eph sat n t = inl (inl refl, refl)
  finish-IsOutcome true eph sat n t =
      elim (Bool-cases
        (not (strstr n.raw.opt opt_ephall) && eq_ℤ eph.iode (eph_of n.eph sat).iode)) [
          | inl same ↦ rw same (inl (inr refl, refl))
          | inr new ↦
              rw new (inr (refl, store_eph-IsStored (record eph { sat = sat }) sat n refl t))
        ]

  finish_ephemerisb-IsOutcome :
      (eph : Eph F) (code : ℕ) (n : NavRaw F)
      → IsTracked eph.sat
      → IsOutcome code n (finish_ephemerisb eph code n)
  unfolding finish_ephemerisb
  finish_ephemerisb-IsOutcome eph code n t =
      elim (Bool-cases (
        not (strstr n.raw.opt opt_ephall)
        && d.eq (timediff (eph_of n.eph eph.sat).toe eph.toe) nil)) [
          | inl same ↦ rw same (inl (inr refl, refl))
          | inr new ↦ rw new (inr (refl, store_eph-IsStored eph eph.sat n refl t))
        ]

  -- A guard that refuses the message.
  guard-IsOutcome :
      (code : ℕ) (n : NavRaw F) (short : Bool) (r : ℤ × NavRaw F)
      → (short ≡ false → IsOutcome code n r)
      → IsOutcome code n (if short then (negsuc 0, n) else r)
  guard-IsOutcome code n true r h = inl (inl refl, refl)
  guard-IsOutcome code n false r h = h refl

  rawephemb-IsOutcome : (now : GTime F) (n : NavRaw F) → IsOutcome 2 n (decode_rawephemb now n)
  unfolding decode_rawephemb
  rawephemb-IsOutcome now n =
      let prn = to_int32 (u4 n.raw.buff oem4_hlen) in
      let sat = satno sys_gps prn in
      let frames = read_frames now n.raw.buff in
      guard-IsOutcome 2 n (ltb n.raw.len (oem4_hlen + 102)) _ (λ _.
        guard-IsOutcome 2 n (sat == 0) _ (λ found.
          finish-IsOutcome frames.0 frames.1 sat n
            (satno-IsSat sys_gps prn (inl refl) (ground (arith, found)))))

  ephemerisb-IsOutcome :
      (sys : ℕ) (to_time : ℤ → F → GTime F) (code : ℕ) (n : NavRaw F)
      → (sys ≡ sys_gps) ⊎ (sys ≡ sys_cmp)
      → IsOutcome code n (decode_ephemerisb sys to_time code n)
  unfolding decode_ephemerisb
  ephemerisb-IsOutcome sys to_time code n s =
      let prn = to_int32 (u4 n.raw.buff oem4_hlen) in
      let sat = satno sys prn in
      let read = read_ephemeris n.raw.buff in
      let eph = record read {
        sat = sat;
        toe = to_time read.week read.toes;
        toc = to_time read.week read.tocs;
        ttr = n.raw.time;
      } in
      guard-IsOutcome code n (ltb n.raw.len (oem4_hlen + 224)) _ (λ _.
        guard-IsOutcome code n (sat == 0) _ (λ found.
          finish_ephemerisb-IsOutcome eph code n (satno-IsSat sys prn s (ground (arith, found)))))

  abbrev pub Keeps : ℕ → NavRaw F → ℤ × NavRaw F → Type 0
  Keeps code n r = IsOutcome code n r × IsNav r.1.eph

  -- With a table of MAXSAT places, each free or with the satellite of its number, the three messages
  -- with ephemerides keep it so: a return of -1 or 0 changes nothing, and any other return, which is
  -- 2, 7 or 1047, stores one ephemeris of a GPS or a BeiDou satellite at its place and its number in
  -- ephsat, and changes nothing else.
  pub decode_ephemeris-Keeps :
      (now : GTime F) (n : NavRaw F)
      → IsNav n.eph
      → Keeps 2 n (decode_rawephemb now n)
        × Keeps 7 n (decode_gpsephemerisb n)
        × Keeps 1047 n (decode_bdsephemerisb n)
  decode_ephemeris-Keeps now n h =
      let raw = rawephemb-IsOutcome now n in
      let gps : IsOutcome 7 n (decode_gpsephemerisb n) =
        unfold decode_gpsephemerisb in ephemerisb-IsOutcome sys_gps gpst2time 7 n (inl refl) in
      let bds : IsOutcome 1047 n (decode_bdsephemerisb n) =
        unfold decode_bdsephemerisb in
        ephemerisb-IsOutcome sys_cmp (λ (week : ℤ) (sec : F). bdt2gpst (bdt2time week sec)) 1047 n
          (inr refl) in
      (
        (raw, outcome-IsNav 2 n (decode_rawephemb now n) raw h),
        (gps, outcome-IsNav 7 n (decode_gpsephemerisb n) gps h),
        (bds, outcome-IsNav 1047 n (decode_bdsephemerisb n) bds h),
      )
