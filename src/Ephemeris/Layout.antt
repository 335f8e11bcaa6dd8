-- ===== src/Ephemeris/Layout.antt =====
-- Where the subframes 1 to 3 of GPS have their fields: as the interface specification IS-GPS-200
-- has them in 20.3.3.3 and 20.3.3.4, without the parity bits, which the receiver has taken out.
use dgnss_server.Common.{ℕ, ◌/◌, ◌%◌, ◌≤◌, ◌≡◌, List, [], ◌∷◌, length, All}
use dgnss_server.Common.Int.{ℤ}
use dgnss_server.Bits.Byte.{IsBytes}
use dgnss_server.Rtcm.Cursor.{Field, unsigned, signed, put_all}
use dgnss_server.Rtcm.Held.{HasRoom}

-- What a satellite sends in the three subframes, as integers; the last four are bits that the
-- functions here do not read.
pub record Broadcast : Type 0 where
  pub tow : ℕ
  pub week : ℕ
  pub code : ℕ
  pub sva : ℕ
  pub svh : ℕ
  pub iodc : ℕ
  pub flag : ℕ
  pub tgd : ℤ
  pub toc : ℕ
  pub f2 : ℤ
  pub f1 : ℤ
  pub f0 : ℤ
  pub iode : ℕ
  pub crs : ℤ
  pub deln : ℤ
  pub m0 : ℤ
  pub cuc : ℤ
  pub ecc : ℕ
  pub cus : ℤ
  pub root : ℕ
  pub toes : ℕ
  pub fit : ℕ
  pub cic : ℤ
  pub omg0 : ℤ
  pub cis : ℤ
  pub i0 : ℤ
  pub crc : ℤ
  pub omg : ℤ
  pub omgd : ℤ
  pub idot : ℤ
  pub alert : ℕ
  pub spare1 : ℕ
  pub spare2 : ℕ
  pub spare3 : ℕ

-- From bit 24 on, where the hand-over word starts.
abbrev pub subframe1 : Broadcast → List Field
subframe1 b =
    unsigned 17 b.tow
    ∷ unsigned 7 b.alert
    ∷ unsigned 10 b.week
    ∷ unsigned 2 b.code
    ∷ unsigned 4 b.sva
    ∷ unsigned 6 b.svh
    ∷ unsigned 2 (b.iodc / 256)
    ∷ unsigned 1 b.flag
    ∷ unsigned 23 b.spare1
    ∷ unsigned 32 b.spare2
    ∷ unsigned 32 b.spare3
    ∷ signed 8 b.tgd
    ∷ unsigned 8 (b.iodc % 256)
    ∷ unsigned 16 b.toc
    ∷ signed 8 b.f2
    ∷ signed 16 b.f1
    ∷ signed 22 b.f0
    ∷ []

-- The other two from bit 48 on.
abbrev pub subframe2 : Broadcast → List Field
subframe2 b =
    unsigned 8 b.iode
    ∷ signed 16 b.crs
    ∷ signed 16 b.deln
    ∷ signed 32 b.m0
    ∷ signed 16 b.cuc
    ∷ unsigned 32 b.ecc
    ∷ signed 16 b.cus
    ∷ unsigned 32 b.root
    ∷ unsigned 16 b.toes
    ∷ unsigned 1 b.fit
    ∷ []

abbrev pub subframe3 : Broadcast → List Field
subframe3 b =
    signed 16 b.cic
    ∷ signed 32 b.omg0
    ∷ signed 16 b.cis
    ∷ signed 32 b.i0
    ∷ signed 16 b.crc
    ∷ signed 32 b.omg
    ∷ signed 24 b.omgd
    ∷ unsigned 8 b.iode
    ∷ signed 14 b.idot
    ∷ []

-- The values fit into their fields, and the issue of the ephemeris is that of the clock.
pub record IsBroadcast (b : Broadcast) : Type 0 where
  pub first : All HasRoom (subframe1 b)
  pub second : All HasRoom (subframe2 b)
  pub third : All HasRoom (subframe3 b)
  pub issue : b.iodc % 256 ≡ b.iode

-- A buffer in which a subframe has room.
pub record IsBlank (buff : List ℕ) : Type 0 where
  pub bytes : IsBytes buff
  pub long : 30 ≤ length buff

-- A subframe in a buffer from a bit position on.
abbrev pub sent : List ℕ → ℕ → List Field → List ℕ
sent blank i fields = (put_all fields (blank, i)).0
