-- ===== src/Rtcm.antt =====
-- The sender's side of AgnssServer/AssistData.c: the RTCM 3 messages 1074, 1124 and 1005. The
-- state is the part of `rtcm_t` that the functions use.
pub mod Cursor
pub mod Held
pub mod Lock
pub mod Index
pub mod Cells
pub mod Msm
pub mod Message
use dgnss_server.Common.{ℕ, List}
use dgnss_server.Common.Int.{ℤ, pos, negsuc}
use dgnss_server.Double.{Double}
use dgnss_server.Time.{GTime}
use dgnss_server.Receiver.{ObsTable}

abbrev pub rtcm3_preamb : ℕ
rtcm3_preamb = 0xD3

-- The length of `rtcm_t.buff`.
abbrev pub buff_size : ℕ
buff_size = 1200

pub record Rtcm (F : Type 0) : Type 0 where
  pub staid : ℕ
  pub seqno : ℕ
  pub time : GTime F
  pub time_s : GTime F
  pub obs : ObsTable F
  pub cp : List (List F)
  pub lltime : List (List (GTime F))
  pub nbyte : ℕ
  pub nbit : ℕ
  pub len : ℕ
  pub buff : List ℕ
  pub nmsg3 : List ℕ

module _ {F : Type 0} ⦃d : Double F⦄ where
  open d use {of_int, decimal, mul, add, floor, to_int, to_word}

  abbrev pub clight : F
  clight = of_int (pos 299792458)

  -- RANGE_MS
  abbrev pub range_ms : F
  range_ms = mul clight (decimal (pos 1) (negsuc 2))

  abbrev pub p2_10 : F
  p2_10 = decimal (pos 9765625) (negsuc 9)

  abbrev pub p2_24 : F
  p2_24 = decimal (pos 5960464477539063) (negsuc 22)

  abbrev pub p2_29 : F
  p2_29 = decimal (pos 1862645149230957) (negsuc 23)

  -- ROUND and ROUND_U
  abbrev pub round : F → ℤ
  round x = to_int (floor (add x (decimal (pos 5) (negsuc 0))))

  abbrev pub round_u : F → ℕ
  round_u x = to_word (floor (add x (decimal (pos 5) (negsuc 0))))
