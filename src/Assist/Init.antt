-- ===== src/Assist/Init.antt =====
-- AssistData_Init and DgnssData_Init of AgnssServer/AssistData.c, on memory for which `malloc`
-- never fails, and the state that they make.
use dgnss_server.Common.{ℕ, ◌<◌, refl, inl, arith, [], replicate, length-replicate, All-replicate}
use dgnss_server.Double.{Double}
use dgnss_server.Bits.Byte.{IsBytes}
use dgnss_server.Sat.{max_sat, nfreq}
use dgnss_server.Receiver.{Obs, ObsTable, blank_obs, no_time, nought, max_obs, max_raw_len}
use dgnss_server.Rtcm.{Rtcm, buff_size}
use dgnss_server.Assist.{Assist}
use dgnss_server.Assist.Publish.{IsAssist, IsBuffer}

zeros-IsBytes : (n : ℕ) → IsBytes (replicate n 0)
zeros-IsBytes n = All-replicate (λ (b : ℕ). b < 256) n 0 (omega arith)

module _ {F : Type 0} ⦃d : Double F⦄ where
  abbrev empty_table : ObsTable F
  empty_table = record { n = 0; items = replicate max_obs blank_obs }

  -- `DgnssData_Init` after the `memset` of the struct.
  unfoldable pub dgnss_data_init : Rtcm F
  dgnss_data_init = record {
    staid = 0;
    seqno = 0;
    time = no_time;
    time_s = no_time;
    obs = empty_table;
    cp = replicate max_sat (replicate nfreq nought);
    lltime = replicate max_sat (replicate nfreq no_time);
    nbyte = 0;
    nbit = 0;
    len = 0;
    buff = replicate buff_size 0;
    nmsg3 = replicate 300 0;
  }

  unfoldable pub assist_data_init : Assist F
  assist_data_init = record {
    raw = record {
      time = no_time;
      tobs = no_time;
      obs = empty_table;
      lockt = replicate max_sat (replicate nfreq nought);
      halfc = replicate max_sat (replicate nfreq 0);
      nbyte = 0;
      len = 0;
      buff = replicate max_raw_len 0;
      opt = [];
    };
    dgnss_dat = record { dgnss_flag = 0; dgnss_refstat = []; dgnss_gps = []; dgnss_bds = [] };
    gps_dgnssdata = dgnss_data_init;
    bds_dgnssdata = dgnss_data_init;
    refstation = dgnss_data_init;
  }

  init-IsBuffer : IsBuffer dgnss_data_init
  unfolding dgnss_data_init
  init-IsBuffer = record {
    bytes = zeros-IsBytes buff_size;
    size = length-replicate {A = ℕ} buff_size 0;
  }

  pub assist_data_init-IsAssist : IsAssist assist_data_init
  unfolding assist_data_init
  assist_data_init-IsAssist = record {
    receiver = record {
      frame = record {
        whole_buff = length-replicate {A = ℕ} max_raw_len 0;
        bytes = zeros-IsBytes max_raw_len;
        started = inl refl;
        room = inl (omega arith);
      };
      observed = record {
        table = record {
          size = length-replicate {A = Obs F} max_obs (blank_obs {F = F});
          within = omega arith;
          distinct = λ (i : ℕ) (j : ℕ) (lt : i < j) (hi : j < 0). absurd (omega arith);
        };
        tracked = λ (i : ℕ) (hi : i < 0). absurd (omega arith);
      };
    };
    station_buffer = init-IsBuffer;
    gps_buffer = init-IsBuffer;
    bds_buffer = init-IsBuffer;
    data_is = inl refl;
  }
