-- ===== src/Examples.antt =====
-- Examples of the theorems at concrete inputs, with whole numbers in the place of the doubles.
pub mod Coding
pub mod Times
pub mod Stream
pub mod Messages
pub mod Published
pub mod Library
pub mod Captured
pub mod Navigation
pub mod Configured
use dgnss_server.Common.{
  ℕ, ◌<◌, ◌≤◌, ◌≡◌, refl, ◌⊎◌, inl, inr, arith, List, [], ◌∷◌, ◌++◌, length, replicate,
  length-replicate, All, All-replicate,
}
use dgnss_server.Common.Int.{ℤ, pos}
use dgnss_server.Double.{whole}
use dgnss_server.Time.{GTime}
use dgnss_server.Bits.Byte.{IsBytes}
use dgnss_server.Receiver.{Obs, ObsTable, Raw, blank_obs, no_time, max_obs, max_raw_len}
use dgnss_server.Rtcm.{Rtcm, buff_size}
use dgnss_server.Assist.{Assist, DgnssDat}

-- A time in the year 2024.
abbrev pub now : GTime ℤ
now = record { time = pos 1718000000; sec = pos 0 }

abbrev pub zeros : ℕ → List ℕ
zeros n = replicate n 0

pub zeros-IsBytes : (n : ℕ) → IsBytes (zeros n)
zeros-IsBytes n = All-replicate (λ (b : ℕ). b < 256) n 0 (omega arith)

pub length-zeros : (n : ℕ) → length (zeros n) ≡ n
length-zeros n = length-replicate {A = ℕ} n 0

abbrev pub no_table : ObsTable ℤ
no_table = record { n = 0; items = replicate max_obs blank_obs }

-- A receiver that awaits a message.
abbrev pub fresh_raw : Raw ℤ
fresh_raw = record {
  time = no_time;
  tobs = no_time;
  obs = no_table;
  lockt = [];
  halfc = [];
  nbyte = 0;
  len = 0;
  buff = zeros max_raw_len;
  opt = [];
}

-- A record of GPS satellite 5 or of BeiDou satellite 84, with a pseudorange and a level.
abbrev pub obs_of : ℕ → ℕ → Obs ℤ
obs_of sat code = record {
  time = now;
  sat = sat;
  snr = 160 ∷ 0 ∷ 0 ∷ [];
  lli = 0 ∷ 0 ∷ 0 ∷ [];
  code = code ∷ 0 ∷ 0 ∷ [];
  phase = pos 110000000 ∷ pos 0 ∷ pos 0 ∷ [];
  range = pos 21000000 ∷ pos 0 ∷ pos 0 ∷ [];
  doppler = pos 500 ∷ pos 0 ∷ pos 0 ∷ [];
}

abbrev pub two_obs : ObsTable ℤ
two_obs = record { n = 2; items = obs_of 5 1 ∷ obs_of 84 47 ∷ replicate 62 blank_obs }

abbrev pub fresh_rtcm : Rtcm ℤ
fresh_rtcm = record {
  staid = 1;
  seqno = 0;
  time = now;
  time_s = no_time;
  obs = no_table;
  cp = [];
  lltime = [];
  nbyte = 0;
  nbit = 0;
  len = 0;
  buff = zeros buff_size;
  nmsg3 = zeros 300;
}

abbrev pub fresh_assist : Assist ℤ
fresh_assist = record {
  raw = fresh_raw;
  dgnss_dat = record { dgnss_flag = 0; dgnss_refstat = []; dgnss_gps = []; dgnss_bds = [] };
  gps_dgnssdata = fresh_rtcm;
  bds_dgnssdata = fresh_rtcm;
  refstation = fresh_rtcm;
}

-- A range message with one satellite, GPS 5, up to its checksum, and the checksum.
abbrev pub range_message : List ℕ
range_message =
    (0xAA ∷ 0x44 ∷ 0x12 ∷ 28 ∷ 43 ∷ 0 ∷ 0 ∷ 0 ∷ 48 ∷ 0 ∷ 0 ∷ 0 ∷ 0 ∷ 0 ∷ 152 ∷ 8 ∷ 64 ∷ 226 ∷ 1 ∷ 0
      ∷ [])
    ++ zeros 8
    ++ (1 ∷ 0 ∷ 0 ∷ 0 ∷ 5 ∷ 0 ∷ [])
    ++ zeros 39
    ++ (28 ∷ 0 ∷ 0 ∷ [])

abbrev pub range_crc : List ℕ
range_crc = 202 ∷ 230 ∷ 30 ∷ 193 ∷ []
