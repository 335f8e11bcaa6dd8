-- ===== src/Examples/Messages.antt =====
-- Examples of the messages that are sent.
use dgnss_server.Common.{
  ℕ, ◌≡◌, refl, inl, arith, true, [], ◌∷◌, ◌++◌, length, replicate, length-replicate,
}
use dgnss_server.Common.Int.{ℤ, pos}
use dgnss_server.Double.{whole}
use dgnss_server.Receiver.{Obs, Raw, max_obs, blank_obs}
use dgnss_server.Sat.{sys_gps}
use dgnss_server.Rtcm.{Rtcm, buff_size}
use dgnss_server.Rtcm.Msm.Size.{message_fields}
use dgnss_server.Rtcm.Message.{begin_message, gen_rtcm3, encode_type1005, type1005_fields}
use dgnss_server.Rtcm.Message.Sent.{IsMessage, gps, gen_rtcm3-IsMessage, encode_type1005-IsMessage}
use dgnss_server.Assist.{raw2rtcm, assist_data_input}
use dgnss_server.Assist.Publish.{IsAssist, assist_data_input-IsAssist}
use dgnss_server.Assist.Split.{records, raw2rtcm-records}
use dgnss_server.Examples.{
  now, zeros-IsBytes, length-zeros, fresh_raw, fresh_rtcm, fresh_assist, two_obs, obs_of,
  range_message, range_crc,
}
use dgnss_server.Examples.Stream.{fresh_raw-IsReceiver}

abbrev one_obs : Rtcm ℤ
one_obs = record fresh_rtcm { obs = record two_obs { n = 1 } }

gen_rtcm3-IsMessage_example :
    let (ret, out) = gen_rtcm3 one_obs 1074 0 in
    (ret ≡ true) × IsMessage (message_fields 1074 (begin_message one_obs) sys_gps 0) out
gen_rtcm3-IsMessage_example =
    gen_rtcm3-IsMessage gps one_obs 0 (zeros-IsBytes buff_size) (length-zeros buff_size)

encode_type1005-IsMessage_example :
    let (ret, out) = encode_type1005 fresh_rtcm in
    (ret ≡ true) × IsMessage (type1005_fields fresh_rtcm) out × (out.nbyte ≡ 25)
encode_type1005-IsMessage_example =
    encode_type1005-IsMessage fresh_rtcm (zeros-IsBytes buff_size) (length-zeros buff_size)

abbrev seen : Raw ℤ
seen = record fresh_raw { obs = two_obs }

length-blank : (n : ℕ) → length (replicate n (blank_obs {F = ℤ})) ≡ n
length-blank n = length-replicate {A = Obs ℤ} n blank_obs

raw2rtcm-records_example :
    let (first, second) = raw2rtcm fresh_rtcm fresh_rtcm seen (pos 43) in
    (records first.obs ≡ obs_of 5 1 ∷ []) × (records second.obs ≡ obs_of 84 47 ∷ [])
raw2rtcm-records_example =
    raw2rtcm-records fresh_rtcm fresh_rtcm seen (length-blank max_obs) (length-blank max_obs)
      (omega (arith, length-blank 62)) (omega arith)

range-IsBytes : dgnss_server.Bits.Byte.IsBytes (range_message ++ range_crc)
range-IsBytes = ground arith

fresh_assist-IsAssist : IsAssist fresh_assist
fresh_assist-IsAssist = record {
  receiver = fresh_raw-IsReceiver;
  station_buffer = record { bytes = zeros-IsBytes buff_size; size = length-zeros buff_size };
  gps_buffer = record { bytes = zeros-IsBytes buff_size; size = length-zeros buff_size };
  bds_buffer = record { bytes = zeros-IsBytes buff_size; size = length-zeros buff_size };
  data_is = inl refl;
}

assist_data_input-IsAssist_example :
    IsAssist (assist_data_input now fresh_assist (range_message ++ range_crc))
assist_data_input-IsAssist_example =
    assist_data_input-IsAssist now fresh_assist (range_message ++ range_crc) range-IsBytes
      fresh_assist-IsAssist
