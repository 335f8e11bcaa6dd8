-- ===== src/Rtcm/Msm.antt =====
-- encode_msm_head, the encoders of the fields, encode_msm4 and encode_rtcm3.
pub mod Size
pub mod Short
use dgnss_server.Common.{
  ℕ, zero, suc, ◌+◌, ◌-◌, ◌*◌, ◌/◌, ◌%◌, ◌^◌, min, Bool, true, false, ◌&&◌, ◌||◌, Option, none,
  some, List, [], ◌∷◌, ◌++◌, get_or, set, each, ltb, leb, ◌==◌, if◌then◌else◌,
}
use dgnss_server.Common.Int.{ℤ, pos, negsuc, to_word32}
use dgnss_server.Double.{Double}
use dgnss_server.Time.{GTime, time2gpst, gpst2bdt, locktime}
use dgnss_server.Receiver.{nought}
use dgnss_server.Sat.{sys_gps, sys_cmp}
use dgnss_server.Rtcm.{Rtcm, range_ms, p2_10, p2_24, p2_29, round, round_u}
use dgnss_server.Rtcm.Cursor.{Field, unsigned, signed, put_all}
use dgnss_server.Rtcm.Lock.{to_lock, to_msm_lock}
use dgnss_server.Rtcm.Index.{Index, gen_msm_index}
use dgnss_server.Rtcm.Cells.{Cells, gen_msm_sat, gen_msm_sig}

-- `ind[j] ? 1 : 0`, in one bit.
abbrev pub mask_bit : List ℕ → ℕ → Field
mask_bit ind j = unsigned 1 (if get_or ind j 0 == 0 then 0 else 1)

-- The three masks: the satellites, the signals, and the first 64 cells.
unfoldable pub mask_fields : Index → List Field
mask_fields ind =
    each 64 0 (mask_bit ind.sat_ind)
    ++ each 32 0 (mask_bit ind.sig_ind)
    ++ each (min (ind.nsat * ind.nsig) 64) 0 (mask_bit ind.cell_ind)

-- The message number; `none` is the return of 0.
unfoldable pub msm_type : ℕ → ℕ → Option ℕ
msm_type type sys =
    if sys == sys_gps
    then some (type + 1070)
    else if sys == sys_cmp
    then some (type + 1120)
    else none

unfoldable pub encode_msm_lock : List ℤ → ℕ → List Field
encode_msm_lock lock ncell = each ncell 0 (λ j. unsigned 4 (to_msm_lock (get_or lock j (pos 0))))

unfoldable pub encode_msm_half_amb : List ℕ → ℕ → List Field
encode_msm_half_amb half ncell = each ncell 0 (λ j. unsigned 1 (get_or half j 0))

-- The state and the position after the header, the index, and the arrays for the data fields.
pub record Head (F : Type 0) : Type 0 where
  pub at : ℕ
  pub index : Index
  pub rrng : List F
  pub cells : Cells F

module _ {F : Type 0} ⦃d : Double F⦄ where
  open d use {of_int, decimal, mul, quo, fabs, lt, le, eq}

  -- The milliseconds of the week, in the time of the system.
  unfoldable pub msm_epoch : ℕ → GTime F → ℕ
  msm_epoch sys time =
      let t = if sys == sys_cmp then gpst2bdt time else time in
      round_u (mul (time2gpst t).1 (decimal (pos 1) (pos 3)))

  -- The fields before the masks.
  unfoldable pub header_fields : ℕ → ℕ → ℕ → Rtcm F → ℤ → List Field
  header_fields type sys sync rtcm tt =
      unsigned 12 type
      ∷ unsigned 12 rtcm.staid
      ∷ unsigned 30 (msm_epoch sys rtcm.time)
      ∷ unsigned 1 sync
      ∷ unsigned 3 rtcm.seqno
      ∷ unsigned 7 (to_lock tt)
      ∷ unsigned 2 0
      ∷ unsigned 2 0
      ∷ unsigned 1 0
      ∷ unsigned 3 0
      ∷ []

  unfoldable pub encode_head : ℕ → Rtcm F → ℕ → ℕ → Head F
  encode_head type rtcm sys sync =
      let ind = gen_msm_index rtcm.obs sys in
      let (time_s, tt) = locktime rtcm.time rtcm.time_s 0 in
      let (buff, i) =
        put_all (header_fields type sys sync rtcm tt ++ mask_fields ind) (rtcm.buff, 24) in
      let rtcm' = record rtcm { time_s = time_s; buff = buff } in
      let rates = gen_msm_sat rtcm' sys ind in
      record { at = i; index = ind; rrng = rates.0; cells = gen_msm_sig rtcm' sys ind rates.0 }

  unfoldable pub encode_msm_head : ℕ → Rtcm F → ℕ → ℕ → Option (Head F)
  encode_msm_head type rtcm sys sync = elim (msm_type type sys) [
    | none ↦ none
    | some number ↦ some (encode_head number rtcm sys sync)
  ]

  unfoldable pub int_rrng : F → ℕ
  int_rrng x =
      if eq x nought
      then 255
      else if lt x nought || lt (mul range_ms (of_int (pos 255))) x
      then 255
      else round_u (quo (quo x range_ms) p2_10) / 2 ^ 10

  unfoldable pub mod_rrng : F → ℕ
  mod_rrng x =
      if le x nought || lt (mul range_ms (of_int (pos 255))) x
      then 0
      else round_u (quo (quo x range_ms) p2_10) % 2 ^ 10

  unfoldable pub psrng_val : F → ℤ
  psrng_val x =
      if eq x nought
      then negsuc 16383
      else if lt (decimal (pos 2927) (negsuc 0)) (fabs x)
      then negsuc 16383
      else round (quo (quo x range_ms) p2_24)

  unfoldable pub phrng_val : F → ℤ
  phrng_val x =
      if eq x nought
      then negsuc 2097151
      else if lt (of_int (pos 1171)) (fabs x)
      then negsuc 2097151
      else round (quo (quo x range_ms) p2_29)

  -- Each encoder gives the fields that the function of its name writes from its position on;
  -- `encode_data` writes them one after the other.
  unfoldable pub encode_msm_int_rrng : List F → ℕ → List Field
  encode_msm_int_rrng rrng nsat = each nsat 0 (λ j. unsigned 8 (int_rrng (get_or rrng j nought)))

  unfoldable pub encode_msm_mod_rrng : List F → ℕ → List Field
  encode_msm_mod_rrng rrng nsat = each nsat 0 (λ j. unsigned 10 (mod_rrng (get_or rrng j nought)))

  unfoldable pub encode_msm_psrng : List F → ℕ → List Field
  encode_msm_psrng psrng ncell = each ncell 0 (λ j. signed 15 (psrng_val (get_or psrng j nought)))

  unfoldable pub encode_msm_phrng : List F → ℕ → List Field
  encode_msm_phrng phrng ncell = each ncell 0 (λ j. signed 22 (phrng_val (get_or phrng j nought)))

  unfoldable pub encode_msm_cnr : List F → ℕ → List Field
  encode_msm_cnr cnr ncell =
      each ncell 0
        (λ j. unsigned 6 (to_word32 (round (quo (get_or cnr j nought) (of_int (pos 1))))))

  -- The fields after the header, in the order of `encode_msm4`.
  unfoldable pub data_fields : Head F → List Field
  data_fields h =
      encode_msm_int_rrng h.rrng h.index.nsat
      ++ encode_msm_mod_rrng h.rrng h.index.nsat
      ++ encode_msm_psrng h.cells.psrng h.index.ncell
      ++ encode_msm_phrng h.cells.phrng h.index.ncell
      ++ encode_msm_lock h.cells.lock h.index.ncell
      ++ encode_msm_half_amb h.cells.half h.index.ncell
      ++ encode_msm_cnr h.cells.cnr h.index.ncell

  -- What `encode_msm4` does when the header is there.
  unfoldable pub encode_data : Head F → Rtcm F
  encode_data h =
      let (buff, i) = put_all (data_fields h) (h.cells.rtcm.buff, h.at) in
      record h.cells.rtcm { buff = buff; nbit = i }

  unfoldable pub encode_msm4 : Rtcm F → ℕ → ℕ → Bool × Rtcm F
  encode_msm4 rtcm sys sync = elim (encode_msm_head 4 rtcm sys sync) [
    | none ↦ (false, rtcm)
    | some h ↦ (true, encode_data h)
  ]

  -- The counter of a message that was made.
  unfoldable pub count_message : Rtcm F → ℕ → Rtcm F
  count_message rtcm type =
      let slot : ℕ = if leb 1001 type && leb type 1299 then type - 1000 else 0 in
      record rtcm { nmsg3 = set rtcm.nmsg3 slot ((get_or rtcm.nmsg3 slot 0 + 1) % 2 ^ 32) }

  unfoldable pub encode_rtcm3 : Rtcm F → ℕ → ℕ → Bool × Rtcm F
  encode_rtcm3 rtcm type sync =
      let (ret, rtcm') =
        if type == 1074
        then encode_msm4 rtcm sys_gps sync
        else if type == 1124
        then encode_msm4 rtcm sys_cmp sync
        else (false, rtcm) in
      if ret then (true, count_message rtcm' type) else (false, rtcm')
