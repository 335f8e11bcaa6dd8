-- ===== src/Examples/Published.antt =====
-- Examples of messages that are published.
use dgnss_server.Common.{
  ℕ, ◌<◌, ◌≡◌, refl, inl, inr, ◌⊎◌, ap, length, ◌∙◌, arith, List, [], ◌∷◌, ◌++◌, length-append,
  All-append, All,
}
use dgnss_server.Common.Int.{ℤ, pos, ◌+ℤ◌, ◌-ℤ◌, ◌*ℤ◌}
use dgnss_server.Double.{whole}
use dgnss_server.Bits.{u1, u2, u4}
use dgnss_server.Bits.Byte.{IsBytes}
use dgnss_server.Crc.{crc32, crc32_loop, crc32_shift}
use dgnss_server.Common.{for_loop}
use dgnss_server.Time.{
  timediff, gpst2time, epoch2time, clock_seconds, year_days, adjgpsweek, adjust_week, time2gpst,
  utc2gpst, utc2gpst_rows, timeadd,
}
use dgnss_server.Sat.{strstr, decode_trackstat, checkpri, satno}
use dgnss_server.Assist.{raw2rtcm, split_obs}
use dgnss_server.Receiver.{
  decode_oem4, sync_oem4, decode_rangeb, range_len, range_loop, range_step, range_tracked, range_at,
  range_sat, keep_sat, obsindex, find_sat, restart, store_obs, input_oem4, max_obs,
}
use dgnss_server.Rtcm.{buff_size}
use dgnss_server.Assist.{Assist, input_byte}
use dgnss_server.Assist.Publish.{IsAssist, input_byte-IsAssist}
use dgnss_server.Assist.Output.{
  outputs, IsAnswered, IsSilent, input_byte-IsAnswered, input_byte-both,
}
use dgnss_server.Server
use dgnss_server.Server.{UtcTm, AgnssFrameHeader, Processor, handle_output}
use dgnss_server.Server.Output.{IsSent, handle_output-IsSent}
use dgnss_server.Server.Events.{Event, arrived, fired, IsSentMessage, run, run-AreSent}
use dgnss_server.Examples.{now, zeros, zeros-IsBytes, length-zeros, fresh_raw, fresh_assist}
use dgnss_server.Examples.Stream.{no_table-IsObserved}

-- A range message of GPS 5 and of the first BeiDou satellite, but for its last byte.
abbrev both : List ℕ
both =
    (0xAA ∷ 0x44 ∷ 0x12 ∷ 28 ∷ 43 ∷ 0 ∷ 0 ∷ 0 ∷ 92 ∷ 0 ∷ 0 ∷ 0 ∷ 0 ∷ 0 ∷ 152 ∷ 8 ∷ 64 ∷ 226 ∷ 1 ∷ 0
      ∷ [])
    ++ zeros 8
    ++ (2 ∷ 0 ∷ 0 ∷ 0 ∷ 5 ∷ 0 ∷ [])
    ++ zeros 39
    ++ (28 ∷ 0 ∷ 0 ∷ 0xA1 ∷ 0 ∷ [])
    ++ zeros 39
    ++ (28 ∷ 4 ∷ 0 ∷ 112 ∷ 42 ∷ 96 ∷ [])

abbrev waiting : Assist ℤ
waiting = record fresh_assist {
  raw = record fresh_raw { nbyte = 123; len = 120; buff = both ++ zeros 3973 };
}

both-IsBytes : IsBytes both
both-IsBytes = ground arith

waiting-IsAssist : IsAssist waiting
waiting-IsAssist = record {
  receiver = record {
    frame = record {
      whole_buff = length-append both (zeros 3973) ∙ omega (arith, length-zeros 3973);
      bytes = All-append (λ (b : ℕ). b < 256) both (zeros 3973) both-IsBytes (zeros-IsBytes 3973);
      started = inr (omega arith);
      room = inr (omega arith, omega arith);
    };
    observed = no_table-IsObserved;
  };
  station_buffer = record { bytes = zeros-IsBytes buff_size; size = length-zeros buff_size };
  gps_buffer = record { bytes = zeros-IsBytes buff_size; size = length-zeros buff_size };
  bds_buffer = record { bytes = zeros-IsBytes buff_size; size = length-zeros buff_size };
  data_is = inl refl;
}

reported : (input_oem4 now waiting.raw 115).0 ≡ pos 43
unfolding input_oem4 decode_oem4 sync_oem4 crc32 crc32_loop crc32_shift u1 u2 u4 decode_rangeb
    range_len ◌+ℤ◌ ◌*ℤ◌
reported = refl

sizes : ((outputs now waiting 115).0.obs.n ≡ 1) × ((outputs now waiting 115).1.obs.n ≡ 1)
unfolding input_oem4 decode_oem4 sync_oem4 crc32 crc32_loop crc32_shift u1 u2 u4 decode_rangeb
    range_len ◌+ℤ◌ ◌*ℤ◌ raw2rtcm split_obs for_loop range_loop range_step range_tracked range_at
    range_sat keep_sat decode_trackstat checkpri satno obsindex find_sat restart store_obs timediff
    gpst2time strstr ◌-ℤ◌ epoch2time clock_seconds year_days adjgpsweek adjust_week time2gpst
    utc2gpst utc2gpst_rows timeadd
sizes = (refl, refl)

no_observations : length (waiting.gps_dgnssdata.obs.items) ≡ max_obs
no_observations = refl

input_byte-IsAnswered_example :
    IsAnswered now waiting 115
    ⊎ (IsSilent now waiting 115 × ((input_byte now waiting 115).dgnss_dat ≡ waiting.dgnss_dat))
input_byte-IsAnswered_example =
    input_byte-IsAnswered now waiting 115 (omega arith) waiting-IsAssist no_observations
      no_observations

-- The processor of a device that is called "A" after this byte.
abbrev device_a : Processor ℤ
device_a = record { device_type = 1; device = 65 ∷ []; assist = input_byte now waiting 115 }

device_a-flag : device_a.assist.dgnss_dat.dgnss_flag ≡ 1
device_a-flag =
    ap (λ t. t.dgnss_flag)
      (input_byte-both now waiting 115 (ground (arith, reported))
        (ground (arith, sizes.0, sizes.1)))

abbrev new_year : UtcTm
new_year = record { year = 2024; month = 1; day = 1; hour = 0; minute = 0; sec = 0 }

handle_output-IsSent_example :
    let dat = device_a.assist.dgnss_dat in
    let (sent, p) = handle_output new_year 1704067200 device_a in
    ((m : Server.Published) × (text : List ℕ) × (sent ≡ m ∷ [])
      × IsSent m dat.dgnss_refstat dat.dgnss_gps dat.dgnss_bds text)
    × (p ≡ record device_a {
      assist = record device_a.assist { dgnss_dat = record dat { dgnss_flag = 0 } };
    })
    × ((later : UtcTm) (time : ℕ) → handle_output later time p ≡ ([], p))
handle_output-IsSent_example =
    handle_output-IsSent new_year 1704067200 device_a
      (input_byte-IsAssist now waiting 115 (omega arith) waiting-IsAssist) device_a-flag

-- A message of the device "A" with the byte 115, and the timer twice.
abbrev events : List (Event ℤ)
events =
    arrived now (zeros 8 ∷ (115 ∷ []) ∷ [])
    ∷ fired new_year 1704067200
    ∷ fired new_year 1704067203
    ∷ []

abbrev header_a : List ℕ → AgnssFrameHeader
header_a bytes = record {
  tag = 2;
  subtype = 0;
  device_type = 1;
  device = 65 ∷ [];
  time = 0;
  length_of = 1;
}

run-AreSent_example :
    let start = record device_a { assist = waiting } in
    let (sent, rest) = run header_a events (start ∷ []) in
    All IsSentMessage sent × All (λ (p : Processor ℤ). IsAssist p.assist) rest
run-AreSent_example =
    run-AreSent header_a events (record device_a { assist = waiting } ∷ []) (omega arith)
      (waiting-IsAssist, tt)
