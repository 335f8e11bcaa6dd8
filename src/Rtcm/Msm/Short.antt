-- ===== src/Rtcm/Msm/Short.antt =====
-- No field of a message has more than 32 bits.
use dgnss_server.Common.{
  ℕ, zero, suc, ◌+◌, ◌*◌, ◌≤◌, ◌≡◌, refl, arith, Bool, true, List, [], ◌∷◌, ◌++◌, get_or, All,
  All-append, each, leb, ◌&&◌, min,
}
use dgnss_server.Double.{Double}
use dgnss_server.Time.{locktime}
use dgnss_server.Rtcm.{Rtcm, round}
use dgnss_server.Rtcm.Cursor.{Field, unsigned, signed, width}
use dgnss_server.Common.Int.{ℤ, pos, to_word32}
use dgnss_server.Receiver.{nought}
use dgnss_server.Rtcm.Lock.{to_msm_lock}
use dgnss_server.Rtcm.Index.{Index}
use dgnss_server.Rtcm.Msm.{
  Head, mask_bit, int_rrng, mod_rrng, psrng_val, phrng_val, mask_fields, header_fields, encode_head,
  encode_msm_int_rrng, encode_msm_mod_rrng, encode_msm_psrng, encode_msm_phrng, encode_msm_lock,
  encode_msm_half_amb, encode_msm_cnr, data_fields,
}
use dgnss_server.Rtcm.Msm.Size.{message_fields}

-- Fields that one call writes.
abbrev pub IsShort : List Field → Type 0
IsShort = All (λ f. width f ≤ 32)

All-each : (n i : ℕ) (f : ℕ → Field) → ((j : ℕ) → width (f j) ≤ 32) → IsShort (each n i f)
unfolding each
All-each zero i f h = tt
All-each (suc n) i f h = (h i, All-each n (i + 1) f h)

-- By evaluation.
abbrev narrow : List Field → Bool
narrow [] = true
narrow (f ∷ fs) = leb (width f) 32 && narrow fs

pub All-narrow : (fs : List Field) → narrow fs ≡ true → IsShort fs
All-narrow [] h = tt
All-narrow (f ∷ fs) h = (ground arith, All-narrow fs (ground arith))

abbrev joined : (xs ys : List Field) → IsShort xs → IsShort ys → IsShort (xs ++ ys)
joined = All-append (λ (f : Field). width f ≤ 32)

mask-IsShort : (n : ℕ) (ind : List ℕ) → IsShort (each n 0 (mask_bit ind))
mask-IsShort n ind = All-each n 0 (mask_bit ind) (λ j. omega arith)

mask_fields-IsShort : (ind : Index) → IsShort (mask_fields ind)
unfolding mask_fields
mask_fields-IsShort ind =
    joined _ _ (joined _ _ (mask-IsShort 64 ind.sat_ind) (mask-IsShort 32 ind.sig_ind))
      (mask-IsShort (min (ind.nsat * ind.nsig) 64) ind.cell_ind)

msm_lock-IsShort : (lock : List ℤ) (n : ℕ) → IsShort (encode_msm_lock lock n)
unfolding encode_msm_lock
msm_lock-IsShort lock n =
    All-each n 0 (λ j. unsigned 4 (to_msm_lock (get_or lock j (pos 0)))) (λ j. omega arith)

half_amb-IsShort : (half : List ℕ) (n : ℕ) → IsShort (encode_msm_half_amb half n)
unfolding encode_msm_half_amb
half_amb-IsShort half n = All-each n 0 (λ j. unsigned 1 (get_or half j 0)) (λ j. omega arith)

module _ {F : Type 0} ⦃d : Double F⦄ where
  open d use {of_int, quo}

  header_fields-IsShort :
      (type sys sync : ℕ) (rtcm : Rtcm F) (tt : ℤ) → IsShort (header_fields type sys sync rtcm tt)
  unfolding header_fields
  header_fields-IsShort type sys sync rtcm t = All-narrow (header_fields type sys sync rtcm t) refl

  -- The fields of the cells and the satellites.
  module _ (xs : List F) (n : ℕ) where
    int_rrng-IsShort : IsShort (encode_msm_int_rrng xs n)
    unfolding encode_msm_int_rrng
    int_rrng-IsShort =
        All-each n 0 (λ j. unsigned 8 (int_rrng (get_or xs j nought))) (λ j. omega arith)

    mod_rrng-IsShort : IsShort (encode_msm_mod_rrng xs n)
    unfolding encode_msm_mod_rrng
    mod_rrng-IsShort =
        All-each n 0 (λ j. unsigned 10 (mod_rrng (get_or xs j nought))) (λ j. omega arith)

    psrng-IsShort : IsShort (encode_msm_psrng xs n)
    unfolding encode_msm_psrng
    psrng-IsShort =
        All-each n 0 (λ j. signed 15 (psrng_val (get_or xs j nought))) (λ j. omega arith)

    phrng-IsShort : IsShort (encode_msm_phrng xs n)
    unfolding encode_msm_phrng
    phrng-IsShort =
        All-each n 0 (λ j. signed 22 (phrng_val (get_or xs j nought))) (λ j. omega arith)

    cnr-IsShort : IsShort (encode_msm_cnr xs n)
    unfolding encode_msm_cnr
    cnr-IsShort =
        All-each n 0
          (λ j. unsigned 6 (to_word32 (round (quo (get_or xs j nought) (of_int (pos 1))))))
          (λ j. omega arith)

  data_fields-IsShort : (h : Head F) → IsShort (data_fields h)
  unfolding data_fields
  data_fields-IsShort h =
      let n : ℕ = h.index.ncell in
      let rough = h.rrng in
      let ranges =
        joined _ _
          (joined _ _ (int_rrng-IsShort rough h.index.nsat) (mod_rrng-IsShort rough h.index.nsat))
          (psrng-IsShort h.cells.psrng n) in
      let phases =
        joined _ _ (joined _ _ ranges (phrng-IsShort h.cells.phrng n))
          (msm_lock-IsShort h.cells.lock n) in
      joined _ _ (joined _ _ phases (half_amb-IsShort h.cells.half n)) (cnr-IsShort h.cells.cnr n)

  pub message_fields-IsShort :
      (type : ℕ) (rtcm : Rtcm F) (sys sync : ℕ) → IsShort (message_fields type rtcm sys sync)
  message_fields-IsShort type rtcm sys sync =
      let h = encode_head type rtcm sys sync in
      let tt' = (locktime rtcm.time rtcm.time_s 0).1 in
      joined (header_fields type sys sync rtcm tt' ++ mask_fields h.index) (data_fields h)
        (joined (header_fields type sys sync rtcm tt') (mask_fields h.index)
          (header_fields-IsShort type sys sync rtcm tt') (mask_fields-IsShort h.index))
        (data_fields-IsShort h)
