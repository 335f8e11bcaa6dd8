-- ===== src/Receiver/Range.antt =====
-- The range message: decode_rangeb keeps the table of observations well-formed.
use dgnss_server.Common.{
  ℕ, zero, suc, ◌+◌, ◌*◌, ◌≤◌, ◌<◌, ◌≡◌, ◌≢◌, ◌⊎◌, inl, inr, refl, ◌∙◌, ap, arith, true, length,
  ◌==◌, ◌||◌, Option, none, some, Option-cases, length-set, get_or-set_self, get_or-set_ne,
  if_holds, ℕ_discrete, Bool-cases, if◌then◌else◌,
}
use dgnss_server.Common.Int.{ℤ, pos, negsuc, pos_part, to_int32, ◌+ℤ◌, ◌*ℤ◌, ltb_ℤ}
use dgnss_server.Double.{Double}
use dgnss_server.Time.{GTime}
use dgnss_server.Bits.{u2, u4}
use dgnss_server.Sat.{Track, decode_trackstat, checkpri, satno, sys_gps, sys_cmp, sys_glo, max_sat}
use dgnss_server.Sat.Number.{satno_range}
use dgnss_server.Receiver.{
  Obs, ObsTable, Raw, Measured, max_obs, blank_obs, obsindex, restart, store_obs, keep_sat,
  range_sat, range_at, range_tracked, range_step, range_loop, range_len, decode_rangeb, oem4_hlen,
}
use dgnss_server.Receiver.Observation.{
  sat_at, IsTable, IsIndexed, obsindex-IsIndexed, obsindex_full,
}

-- The numbers of GPS and of BeiDou satellites.
abbrev pub IsTracked : ℕ → Type 0
IsTracked sat = ((1 ≤ sat) × (sat ≤ 32)) ⊎ ((84 ≤ sat) × (sat ≤ max_sat))

trackstat_sys :
    (stat : ℕ) (t : Track) → decode_trackstat stat ≡ some t → (t.sys ≡ sys_gps) ⊎ (t.sys ≡ sys_cmp)
unfolding decode_trackstat
trackstat_sys stat t h = ground arith

pub satno-IsTracked :
    (stat prn : ℕ) (t : Track)
    → decode_trackstat stat ≡ some t
    → satno t.sys (pos prn) ≢ 0
    → IsTracked (satno t.sys (pos prn))
satno-IsTracked stat prn t h some_sat = elim (trackstat_sys stat t h) [
  | inl e ↦ inl ((satno_range t.sys prn some_sat).0 e)
  | inr e ↦ inr ((satno_range t.sys prn some_sat).1 e)
]

-- For up to 48806444 records, the length that the message must have is that of the records. With
-- 97612894 records more the product has wrapped around, and the length is only 40 bytes more.
pub range_len_lem :
    (n : ℕ)
    → n ≤ 48806444
    → (range_len (pos n) ≡ pos (oem4_hlen + 4 + 44 * n))
      × (range_len (pos (97612894 + n)) ≡ pos (oem4_hlen + 4 + 44 * n + 40))
unfolding range_len ◌+ℤ◌ ◌*ℤ◌
range_len_lem n h = (ground arith, ground arith)

module _ {F : Type 0} ⦃d : Double F⦄ where
  -- A well-formed table of GPS and BeiDou satellites.
  pub record IsObserved (obs : ObsTable F) : Type 0 where
    pub table : IsTable obs
    pub tracked : (i : ℕ) → i < obs.n → IsTracked (sat_at obs.items i)

  restart-IsObserved : (raw : Raw F) → IsObserved raw.obs → IsObserved (restart raw)
  unfolding restart
  restart-IsObserved raw v =
      let empty : IsObserved (record raw.obs { n = 0 }) = record {
        table = record {
          size = v.table.size;
          within = omega arith;
          distinct = λ (i : ℕ) (j : ℕ) (lt : i < j) (hi : j < 0). absurd (omega arith);
        };
        tracked = λ (i : ℕ) (hi : i < 0). absurd (omega arith);
      } in
      if_holds (λ (o : ObsTable F). IsObserved o) _ _ _ empty v

  module _ (obs : ObsTable F) (index p lli code : ℕ) (m : Measured F)
      (inside : index < length obs.items) where
    store_obs-sat : (j : ℕ) → sat_at (store_obs obs index p lli code m).items j ≡ sat_at obs.items j
    unfolding store_obs
    store_obs-sat j = elim (ℕ_discrete index j) [
      | yes e ↦
          rw (← e) (ap (λ (o : Obs F). o.sat) (get_or-set_self obs.items index _ blank_obs inside))
      | no ne ↦ ap (λ (o : Obs F). o.sat) (get_or-set_ne obs.items index j _ blank_obs ne)
    ]

    store_obs-IsObserved : IsObserved obs → IsObserved (store_obs obs index p lli code m)
    unfolding store_obs
    store_obs-IsObserved v = record {
      table = record {
        size = length-set obs.items index _ ∙ v.table.size;
        within = v.table.within;
        distinct = λ i j lt hi. rw (store_obs-sat i, store_obs-sat j) (v.table.distinct i j lt hi);
      };
      tracked = λ i hi. rw (store_obs-sat i) (v.tracked i hi);
    }

  module _ (obs : ObsTable F) (time : GTime F) (sat : ℕ) (v : IsObserved obs)
      (real : IsTracked sat) where
    indexed-IsObserved :
        (result : Option ℕ × ObsTable F) → IsIndexed obs time sat result → IsObserved result.1
    indexed-IsObserved result r = record {
      table = r.valid;
      tracked = λ i hi. elim (ℕ_discrete i r.index) [
        | yes e ↦ rw (e, r.sat_is) real
        | no ne ↦
            rw (ap (λ (o : Obs F). o.sat) (r.others i ne)) (v.tracked i (omega (arith, r.grows)))
      ];
    }

    -- The record that the loop writes, in the table that `obsindex` leaves.
    abbrev stored : Option ℕ × ObsTable F → ℕ → ℕ → ℕ → Measured F → ObsTable F
    stored result p lli code m = elim result.0 [
      | none ↦ result.1
      | some i ↦ store_obs result.1 i p lli code m
    ]

    stored-IsObserved :
        (p lli code : ℕ) (m : Measured F) → IsObserved (stored (obsindex obs time sat) p lli code m)
    stored-IsObserved p lli code m = elim (ℕ_discrete obs.n max_obs) [
      | yes full ↦ rw (obsindex_full obs time sat v.table full) v
      | no ne ↦
          let r = obsindex-IsIndexed obs time sat v.table (omega (arith, v.table.within)) in
          let w = indexed-IsObserved (obsindex obs time sat) r in
          rw r.returns (
            store_obs-IsObserved _ r.index p lli code m
              (omega (arith, r.in_use, w.table.within, w.table.size)) w)
    ]

  pub keep_sat-IsObserved :
      (raw : Raw F) (sat p : ℕ) (t : Track) (lli : ℕ) (m : Measured F)
      → IsTracked sat
      → IsObserved raw.obs
      → IsObserved (keep_sat raw sat p t lli m).obs
  unfolding keep_sat
  keep_sat-IsObserved raw sat p t lli m real v =
      stored-IsObserved (restart raw) raw.time sat (restart-IsObserved raw v) real p lli t.code m

  range_sat-IsObserved :
      (raw : Raw F) (q sat p : ℕ) (t : Track)
      → IsTracked sat
      → IsObserved raw.obs
      → IsObserved (range_sat raw q sat p t).obs
  unfolding range_sat
  range_sat-IsObserved raw q sat p t real v = keep_sat-IsObserved raw sat p t _ _ real v

  range_at-IsObserved :
      (raw : Raw F) (q stat : ℕ) (t : Track) (o : Option ℕ)
      → decode_trackstat stat ≡ some t
      → IsObserved raw.obs
      → IsObserved (range_at raw q t o).obs
  unfolding range_at
  range_at-IsObserved raw q stat t none h v = v
  range_at-IsObserved raw q stat t (some p) h v =
      let sat = satno t.sys (pos (u2 raw.buff q)) in
      elim (ℕ_discrete sat 0) [
        | yes e ↦ let skip : ((t.sys == sys_glo) || (sat == 0)) ≡ true = ground arith in rw skip v
        | no ne ↦
            if_holds (λ (r : Raw F). IsObserved r.obs) _ raw _ v
              (range_sat-IsObserved raw q sat p t (satno-IsTracked stat (u2 raw.buff q) t h ne) v)
      ]

  range_step-IsObserved :
      (raw : Raw F) (q : ℕ) → IsObserved raw.obs → IsObserved (range_step raw q).obs
  unfolding range_step range_tracked
  range_step-IsObserved raw q v =
      let stat : ℕ = u4 raw.buff (q + 40) in
      elim (Option-cases (decode_trackstat stat)) [
        | inl e ↦ rw e v
        | inr (t, e) ↦
            rw e (range_at-IsObserved raw q stat t (checkpri raw.opt t.sys t.code t.freq) e v)
      ]

  range_loop-IsObserved :
      (n q : ℕ) (raw : Raw F) → IsObserved raw.obs → IsObserved (range_loop n q raw).obs
  unfolding range_loop
  range_loop-IsObserved zero q raw v = v
  range_loop-IsObserved (suc n) q raw v =
      range_loop-IsObserved n (q + 44) (range_step raw q) (range_step-IsObserved raw q v)

  -- Whatever the message holds, also where its announced length has wrapped around.
  pub decode_rangeb-IsObserved :
      (raw : Raw F) → IsObserved raw.obs → IsObserved (decode_rangeb raw).1.obs
  unfolding decode_rangeb
  decode_rangeb-IsObserved raw v =
      let loop =
        range_loop-IsObserved (pos_part (to_int32 (u4 raw.buff oem4_hlen))) (oem4_hlen + 4) raw v in
      if_holds (λ (r : ℤ × Raw F). IsObserved r.1.obs) _ _ _ v loop

  -- How many records a range message announces, of which the length is still an int.
  abbrev pub announced : Raw F → ℕ
  announced raw = u4 raw.buff oem4_hlen

  -- What becomes of a range message with records of some size: it is accepted where all records
  -- that it announces lie in it, and refused where one does not.
  abbrev pub IsRanged : ℕ → Raw F → ℤ × Raw F → Type 0
  IsRanged size raw result =
      ((oem4_hlen + 4 + size * announced raw ≤ raw.len)
        × (result.0 ≡ pos 43)
        × IsObserved result.1.obs)
      ⊎ ((raw.len < oem4_hlen + 4 + size * announced raw) × (result ≡ (negsuc 0, raw)))

  -- The two outcomes, by the length that is asked for.
  pub ranged :
      (size : ℕ) (raw : Raw F) (wanted : ℤ) (decoded : Raw F)
      → wanted ≡ pos (oem4_hlen + 4 + size * announced raw)
      → IsObserved decoded.obs
      → IsRanged size raw
          (if ltb_ℤ (pos raw.len) wanted then (negsuc 0, raw) else (pos 43, decoded))
  ranged size raw wanted decoded e v =
      let need = oem4_hlen + 4 + size * announced raw in
      elim (Bool-cases (ltb_ℤ (pos raw.len) (pos need))) [
        | inl short ↦ rw (e, short) (inr (ground (arith, short), refl))
        | inr long ↦ rw (e, long) (inl (ground (arith, long), refl, v))
      ]

  pub decode_rangeb-IsRanged :
      (raw : Raw F)
      → IsObserved raw.obs
      → announced raw ≤ 48806444
      → IsRanged 44 raw (decode_rangeb raw)
  unfolding decode_rangeb
  decode_rangeb-IsRanged raw v few =
      let n : ℕ = announced raw in
      let count : to_int32 n ≡ pos n = ground arith in
      let loop = range_loop-IsObserved (pos_part (to_int32 n)) (oem4_hlen + 4) raw v in
      ranged 44 raw (range_len (to_int32 n)) _ (ap range_len count ∙ (range_len_lem n few).0) loop
