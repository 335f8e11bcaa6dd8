-- ===== src/Assist/Publish.antt =====
-- What AssistData_Input publishes: whole RTCM 3 messages with their checksums.
use dgnss_server.Common.{
  ℕ, ◌<◌, ◌≡◌, ◌⊎◌, inr, refl, ◌∙◌, arith, List, [], ◌∷◌, length, set, All-set, for_loop_invariant,
  if_holds, length-set, ltb,
}
use dgnss_server.Common.Int.{pos}
use dgnss_server.Double.{Double}
use dgnss_server.Time.{GTime}
use dgnss_server.Bits.Byte.{IsBytes}
use dgnss_server.Receiver.{Obs, Raw, item, input_oem4}
use dgnss_server.Receiver.Safety.{IsReceiver, input_oem4-IsReceiver}
use dgnss_server.Sat.{sys_gps, sys_cmp}
use dgnss_server.Rtcm.{Rtcm, buff_size}
use dgnss_server.Rtcm.Msm.Size.{total-message_fields, total-message_fields_le}
use dgnss_server.Rtcm.Msm.{header_fields}
use dgnss_server.Rtcm.Message.{begin_message, type1005_fields}
use dgnss_server.Rtcm.Message.Sent.{
  total-type1005_fields, gps, cmp, gen_rtcm3-IsMessage, encode_type1005-IsMessage,
}
use dgnss_server.Assist.Rtcm3.{IsRtcm3, message-IsRtcm3, first_type}
use dgnss_server.Assist.{
  DgnssDat, Assist, split_obs, raw2rtcm, message, clear, publish, clear_buffers, make_messages,
  input_byte, assist_data_input,
}

-- A message buffer of 1200 bytes.
pub record IsBuffer {F : Type 0} (rtcm : Rtcm F) : Type 0 where
  pub bytes : IsBytes rtcm.buff
  pub size : length rtcm.buff ≡ buff_size

clear-IsBytes : (n : ℕ) (buff : List ℕ) → IsBytes buff → IsBytes (clear n buff)
clear-IsBytes n buff =
    for_loop_invariant IsBytes n 0 (λ i b. set b i 0) buff
      (λ j t h. All-set (λ (x : ℕ). x < 256) t j 0 h (omega arith))

length-clear : (n : ℕ) (buff : List ℕ) (m : ℕ) → length buff ≡ m → length (clear n buff) ≡ m
length-clear n buff m =
    for_loop_invariant (λ (b : List ℕ). length b ≡ m) n 0 (λ i b. set b i 0) buff
      (λ j t h. length-set t j 0 ∙ h)

-- What is published, if anything is: three messages that a receiver of RTCM 3 accepts, of the
-- types 1005, 1074 and 1124, which fit the arrays of `DgnssDat`.
pub record IsPublished (dat : DgnssDat) : Type 0 where
  pub refstat : IsRtcm3 1005 25 dat.dgnss_refstat
  pub gps_message : IsRtcm3 1074 564 dat.dgnss_gps
  pub bds_message : IsRtcm3 1124 564 dat.dgnss_bds

abbrev pub IsData : DgnssDat → Type 0
IsData dat = (dat.dgnss_flag ≡ 0) ⊎ IsPublished dat

module _ {F : Type 0} ⦃d : Double F⦄ where
  -- The two outputs of `raw2rtcm` while it runs, whose messages it leaves alone.
  module _ (gpsout bdsout : Rtcm F) where
    SameBuffs : (Rtcm F × ℕ) × (Rtcm F × ℕ) → Type 0
    SameBuffs s = (s.0.0.buff ≡ gpsout.buff) × (s.1.0.buff ≡ bdsout.buff)

    split_obs-buff :
        (o : Obs F) (s : (Rtcm F × ℕ) × (Rtcm F × ℕ)) → SameBuffs s → SameBuffs (split_obs o s)
    unfolding split_obs SameBuffs
    split_obs-buff o s h =
        if_holds
          (λ (s : (Rtcm F × ℕ) × (Rtcm F × ℕ)).
            (s.0.0.buff ≡ gpsout.buff) × (s.1.0.buff ≡ bdsout.buff))
          (ltb o.sat 84) _ _ h h

    pub raw2rtcm-buff :
        (raw : Raw F)
        → let (g, b) = raw2rtcm gpsout bdsout raw (pos 43) in
          (g.buff ≡ gpsout.buff) × (b.buff ≡ bdsout.buff)
    unfolding raw2rtcm SameBuffs
    raw2rtcm-buff raw =
        for_loop_invariant SameBuffs raw.obs.n 0 (λ i. split_obs (item raw.obs i)) _
          (λ j. split_obs-buff (item raw.obs j)) (refl, refl)

  -- The three messages after a range message.
  record IsMade (s : Assist F) : Type 0 where
    refstation : IsRtcm3 1005 25 (message s.refstation)
    gps_data : IsRtcm3 1074 564 (message s.gps_dgnssdata)
    bds_data : IsRtcm3 1124 564 (message s.bds_dgnssdata)
    buffers : IsBuffer s.refstation × IsBuffer s.gps_dgnssdata × IsBuffer s.bds_dgnssdata

  make_messages-IsMade :
      (s : Assist F)
      → IsBuffer s.refstation
      → IsBuffer s.gps_dgnssdata
      → IsBuffer s.bds_dgnssdata
      → IsMade (make_messages s)
  unfolding make_messages
  make_messages-IsMade s r g b =
      let (gps', bds') = raw2rtcm s.gps_dgnssdata s.bds_dgnssdata s.raw (pos 43) in
      let same = raw2rtcm-buff s.gps_dgnssdata s.bds_dgnssdata s.raw in
      let (rd, rm, rn) = encode_type1005-IsMessage s.refstation r.bytes r.size in
      let (gd, gm) = gen_rtcm3-IsMessage gps gps' 0 (rw same.0 g.bytes) (rw same.0 g.size) in
      let (bd, bm) = gen_rtcm3-IsMessage cmp bds' 1 (rw same.1 b.bytes) (rw same.1 b.size) in
      record {
        refstation =
            message-IsRtcm3 _ _ 1005 25 rm
              (unfold type1005_fields in first_type 1005 _ _ (omega arith) rm)
              (omega (arith, total-type1005_fields s.refstation))
              (omega (arith, total-type1005_fields s.refstation)) (omega arith);
        gps_data =
            message-IsRtcm3 _ _ 1074 564 gm
              (unfold header_fields in first_type 1074 _ _ (omega arith) gm)
              (omega (arith, total-message_fields 1074 (begin_message gps') sys_gps 0))
              (omega (arith, total-message_fields_le 1074 (begin_message gps') sys_gps 0))
              (omega arith);
        bds_data =
            message-IsRtcm3 _ _ 1124 564 bm
              (unfold header_fields in first_type 1124 _ _ (omega arith) bm)
              (omega (arith, total-message_fields 1124 (begin_message bds') sys_cmp 1))
              (omega (arith, total-message_fields_le 1124 (begin_message bds') sys_cmp 1))
              (omega arith);
        buffers = (
          record { bytes = rm.bytes; size = rm.size },
          record { bytes = gm.bytes; size = gm.size },
          record { bytes = bm.bytes; size = bm.size },
        );
      }

  -- The state between two bytes.
  pub record IsAssist (s : Assist F) : Type 0 where
    pub receiver : IsReceiver s.raw
    pub station_buffer : IsBuffer s.refstation
    pub gps_buffer : IsBuffer s.gps_dgnssdata
    pub bds_buffer : IsBuffer s.bds_dgnssdata
    pub data_is : IsData s.dgnss_dat

  clear-IsBuffer :
      (n : ℕ) (rtcm : Rtcm F) → IsBuffer rtcm → IsBuffer (record rtcm { buff = clear n rtcm.buff })
  clear-IsBuffer n rtcm b = record {
    bytes = clear-IsBytes n rtcm.buff b.bytes;
    size = length-clear n rtcm.buff buff_size b.size;
  }

  clear_buffers-IsAssist : (s : Assist F) → IsAssist s → IsAssist (clear_buffers s)
  unfolding clear_buffers
  clear_buffers-IsAssist s v = record {
    receiver = v.receiver;
    station_buffer = clear-IsBuffer 200 s.refstation v.station_buffer;
    gps_buffer = clear-IsBuffer 1200 s.gps_dgnssdata v.gps_buffer;
    bds_buffer = clear-IsBuffer 1200 s.bds_dgnssdata v.bds_buffer;
    data_is = v.data_is;
  }

  publish-IsAssist :
      (s : Assist F) → IsReceiver s.raw → IsData s.dgnss_dat → IsMade s → IsAssist (publish s)
  unfolding publish
  publish-IsAssist s receiver old m =
      if_holds (λ (t : Assist F). IsAssist t) _ _ _
        (record {
          receiver = receiver;
          station_buffer = m.buffers.0;
          gps_buffer = record { bytes = m.buffers.1.bytes; size = m.buffers.1.size };
          bds_buffer = record { bytes = m.buffers.2.bytes; size = m.buffers.2.size };
          data_is = inr (record {
            refstat = m.refstation;
            gps_message = m.gps_data;
            bds_message = m.bds_data;
          });
        })
        (record {
          receiver = receiver;
          station_buffer = m.buffers.0;
          gps_buffer = m.buffers.1;
          bds_buffer = m.buffers.2;
          data_is = old;
        })

  pub input_byte-IsAssist :
      (now : GTime F) (s : Assist F) (byte : ℕ)
      → byte < 256
      → IsAssist s
      → IsAssist (input_byte now s byte)
  unfolding input_byte make_messages
  input_byte-IsAssist now s byte lt v =
      let raw = (input_oem4 now s.raw byte).1 in
      let s' = record s { raw = raw } in
      let receiver = input_oem4-IsReceiver now s.raw byte lt v.receiver in
      let made = make_messages-IsMade s' v.station_buffer v.gps_buffer v.bds_buffer in
      let kept : IsAssist s' = record {
        receiver = receiver;
        station_buffer = v.station_buffer;
        gps_buffer = v.gps_buffer;
        bds_buffer = v.bds_buffer;
        data_is = v.data_is;
      } in
      if_holds (λ (t : Assist F). IsAssist t) _ _ _
        (clear_buffers-IsAssist _ (publish-IsAssist (make_messages s') receiver v.data_is made))
        kept

  -- Whatever bytes come from the receiver, in whatever order: the state stays well-formed, with
  -- every buffer of its size, and what is published is three messages that a receiver of RTCM 3
  -- accepts, of the types 1005, 1074 and 1124, within 25, 564 and 564 bytes.
  pub assist_data_input-IsAssist :
      (now : GTime F) (s : Assist F) (bytes : List ℕ)
      → IsBytes bytes
      → IsAssist s
      → IsAssist (assist_data_input now s bytes)
  unfolding assist_data_input
  assist_data_input-IsAssist now s [] h v = v
  assist_data_input-IsAssist now s (b ∷ bs) h v =
      assist_data_input-IsAssist now (input_byte now s b) bs h.1 (input_byte-IsAssist now s b h.0 v)
