-- ===== src/Assist.antt =====
-- raw2rtcm and AssistData_Input of AgnssServer/AssistData.c: the bytes of the receiver go in, and
-- each range message brings out three RTCM messages, in `dgnssDat`.
pub mod Split
pub mod Rtcm3
pub mod Publish
pub mod Output
pub mod Init
use dgnss_server.Common.{
  ℕ, zero, suc, ◌+◌, Bool, true, false, ◌&&◌, List, [], ◌∷◌, ◌++◌, get_or, set, take, replicate,
  for_loop, ltb, ◌==◌, if◌then◌else◌,
}
use dgnss_server.Common.Int.{ℤ, pos, eq_ℤ}
use dgnss_server.Double.{Double}
use dgnss_server.Time.{GTime}
use dgnss_server.Receiver.{Obs, ObsTable, Raw, item, input_oem4}
use dgnss_server.Rtcm.{Rtcm}
use dgnss_server.Rtcm.Message.{gen_rtcm3, encode_type1005}

-- `DgnssDat`, each array with the bytes that its length counts.
pub record DgnssDat : Type 0 where
  pub dgnss_flag : ℕ
  pub dgnss_refstat : List ℕ
  pub dgnss_gps : List ℕ
  pub dgnss_bds : List ℕ

-- `raw_t`, with its three control structs for RTCM.
pub record Assist (F : Type 0) : Type 0 where
  pub raw : Raw F
  pub dgnss_dat : DgnssDat
  pub gps_dgnssdata : Rtcm F
  pub bds_dgnssdata : Rtcm F
  pub refstation : Rtcm F

-- The bytes that `memcpy` copies.
abbrev pub message : {F : Type 0} → Rtcm F → List ℕ
message rtcm = take rtcm.nbyte rtcm.buff

-- The bytes of an array from its start on become 0.
abbrev pub clear : ℕ → List ℕ → List ℕ
clear n buff = for_loop n 0 (λ i b. set b i 0) buff

module _ {F : Type 0} ⦃d : Double F⦄ where
  abbrev pub append_obs : Rtcm F → ℕ → Obs F → Rtcm F
  append_obs out n o = record out {
    time = o.time;
    obs = record out.obs { items = set out.obs.items n o };
  }

  -- The body of the loop of `raw2rtcm`, on the two outputs and the two counters.
  unfoldable pub split_obs : Obs F → (Rtcm F × ℕ) × (Rtcm F × ℕ) → (Rtcm F × ℕ) × (Rtcm F × ℕ)
  split_obs o ((gps, gf), (bds, bf)) =
      if ltb o.sat 84
      then ((append_obs gps gf o, gf + 1), (bds, bf))
      else ((gps, gf), (append_obs bds bf o, bf + 1))

  unfoldable pub raw2rtcm : Rtcm F → Rtcm F → Raw F → ℤ → Rtcm F × Rtcm F
  raw2rtcm gpsout bdsout raw ret =
      let gps = record gpsout { time = raw.time } in
      let bds = record bdsout { time = raw.time } in
      let ((gps', gf), (bds', bf)) =
        for_loop raw.obs.n 0 (λ i. split_obs (item raw.obs i)) ((gps, 0), (bds, 0)) in
      if eq_ℤ ret (pos 43)
      then (
        record gps' { obs = record gps'.obs { n = gf } },
        record bds' { obs = record bds'.obs { n = bf } },
      )
      else (gps, bds)

  abbrev pub no_obs : Rtcm F → Rtcm F
  no_obs rtcm = record rtcm { obs = record rtcm.obs { n = 0 } }

  -- The messages become the ones to send when both systems have observations.
  unfoldable pub publish : Assist F → Assist F
  publish s =
      if ltb 0 s.bds_dgnssdata.obs.n && ltb 0 s.gps_dgnssdata.obs.n
      then record s {
        dgnss_dat = record {
          dgnss_flag = 1;
          dgnss_refstat = message s.refstation;
          dgnss_gps = message s.gps_dgnssdata;
          dgnss_bds = message s.bds_dgnssdata;
        };
        gps_dgnssdata = no_obs s.gps_dgnssdata;
        bds_dgnssdata = no_obs s.bds_dgnssdata;
      }
      else s

  unfoldable pub clear_buffers : Assist F → Assist F
  clear_buffers s = record s {
    refstation = record s.refstation { buff = clear 200 s.refstation.buff };
    bds_dgnssdata = record s.bds_dgnssdata { buff = clear 1200 s.bds_dgnssdata.buff };
    gps_dgnssdata = record s.gps_dgnssdata { buff = clear 1200 s.gps_dgnssdata.buff };
  }

  -- What follows a range message.
  unfoldable pub make_messages : Assist F → Assist F
  make_messages s =
      let (gps, bds) = raw2rtcm s.gps_dgnssdata s.bds_dgnssdata s.raw (pos 43) in
      record s {
        refstation = (encode_type1005 s.refstation).1;
        gps_dgnssdata = (gen_rtcm3 gps 1074 0).1;
        bds_dgnssdata = (gen_rtcm3 bds 1124 1).1;
      }

  -- The body of the loop of `AssistData_Input`.
  unfoldable pub input_byte : GTime F → Assist F → ℕ → Assist F
  input_byte now s byte =
      let (ret, raw) = input_oem4 now s.raw byte in
      let s' = record s { raw = raw } in
      if eq_ℤ ret (pos 43) then clear_buffers (publish (make_messages s')) else s'

  unfoldable pub assist_data_input : GTime F → Assist F → List ℕ → Assist F
  assist_data_input now s [] = s
  assist_data_input now s (b ∷ bs) = assist_data_input now (input_byte now s b) bs
