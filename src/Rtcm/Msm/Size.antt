-- ===== src/Rtcm/Msm/Size.antt =====
-- How many bits a message has, and where they are written.
use dgnss_server.Common.{
  ℕ, zero, suc, ◌+◌, ◌*◌, ◌≤◌, min, ◌≡◌, refl, arith, List, [], ◌∷◌, ◌++◌, each,
}
use dgnss_server.Double.{Double}
use dgnss_server.Time.{locktime}
use dgnss_server.Rtcm.{Rtcm}
use dgnss_server.Rtcm.Cursor.{Field, width, total, put_all, put_all-append}
use dgnss_server.Rtcm.Index.{Index, gen_msm_index}
use dgnss_server.Rtcm.Index.Counts.{gen_msm_index_bounds}
use dgnss_server.Rtcm.Cells.{gen_msm_sat}
use dgnss_server.Rtcm.Cells.Buffer.{gen_msm_sig-buff}
use dgnss_server.Rtcm.Msm.{
  Head, mask_fields, header_fields, encode_head, encode_msm_int_rrng, encode_msm_mod_rrng,
  encode_msm_psrng, encode_msm_phrng, encode_msm_lock, encode_msm_half_amb, encode_msm_cnr,
  data_fields, encode_data,
}

total-append : (xs ys : List Field) → total (xs ++ ys) ≡ total xs + total ys
total-append [] ys = omega arith
total-append (x ∷ xs) ys = omega (arith, total-append xs ys)

total-each : (w n i : ℕ) (f : ℕ → Field) → ((j : ℕ) → width (f j) ≡ w) → total (each n i f) ≡ n * w
unfolding each
total-each w zero i f h = omega arith
total-each w (suc n) i f h = omega (arith, h i, total-each w n (i + 1) f h)

-- The bits of the masks.
total-mask_fields : (ind : Index) → total (mask_fields ind) ≡ 96 + min (ind.nsat * ind.nsig) 64
unfolding mask_fields
total-mask_fields ind =
    rw
      (
        total-append,
        total-append,
        total-each 1 _ _ _ (λ j. refl),
        total-each 1 _ _ _ (λ j. refl),
        total-each 1 _ _ _ (λ j. refl),
      )
      (omega arith)

module _ {F : Type 0} ⦃d : Double F⦄ where
  total-data_fields : (h : Head F) → total (data_fields h) ≡ 18 * h.index.nsat + 48 * h.index.ncell
  unfolding data_fields encode_msm_int_rrng encode_msm_mod_rrng encode_msm_psrng encode_msm_phrng
      encode_msm_lock encode_msm_half_amb encode_msm_cnr
  total-data_fields h =
      rw
        (
          total-append,
          total-append,
          total-append,
          total-append,
          total-append,
          total-append,
          total-each 8 _ _ _ (λ j. refl),
          total-each 10 _ _ _ (λ j. refl),
          total-each 15 _ _ _ (λ j. refl),
          total-each 22 _ _ _ (λ j. refl),
          total-each 4 _ _ _ (λ j. refl),
          total-each 1 _ _ _ (λ j. refl),
          total-each 6 _ _ _ (λ j. refl),
        )
        (omega arith)

  module _ (type : ℕ) (rtcm : Rtcm F) (sys sync : ℕ) where
    -- All the fields of a message, after its first 24 bits.
    abbrev pub message_fields : List Field
    message_fields =
        let h = encode_head type rtcm sys sync in
        (header_fields type sys sync rtcm (locktime rtcm.time rtcm.time_s 0).1
          ++ mask_fields h.index)
        ++ data_fields h

    pub encode_data-fields :
        let out = encode_data (encode_head type rtcm sys sync) in
        (out.buff, out.nbit) ≡ put_all message_fields (rtcm.buff, 24)
    unfolding encode_data encode_head
    encode_data-fields =
        let ind = gen_msm_index rtcm.obs sys in
        let (time_s, tt) = locktime rtcm.time rtcm.time_s 0 in
        let head = header_fields type sys sync rtcm tt ++ mask_fields ind in
        let c = put_all head (rtcm.buff, 24) in
        let rtcm' = record rtcm { time_s = time_s; buff = c.0 } in
        rw (
          put_all-append head _ (rtcm.buff, 24),
          gen_msm_sig-buff rtcm' sys ind (gen_msm_sat rtcm' sys ind).0,
        )

    -- The header has 73 bits, the masks 96 and one for each cell, and each satellite 18 and each
    -- cell 48.
    pub total-message_fields :
        let ind = gen_msm_index rtcm.obs sys in
        total message_fields ≡ 169 + min (ind.nsat * ind.nsig) 64 + 18 * ind.nsat + 48 * ind.ncell
    unfolding encode_head header_fields
    total-message_fields =
        rw (total-append, total-append, total-data_fields, total-mask_fields) (omega arith)

    pub total-message_fields_le : total message_fields ≤ 4457
    total-message_fields_le =
        let b = gen_msm_index_bounds rtcm.obs sys in omega (arith, total-message_fields, b)
