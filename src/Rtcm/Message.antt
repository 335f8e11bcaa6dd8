-- ===== src/Rtcm/Message.antt =====
-- gen_rtcm3, set38bits and encode_type1005. The two that make a message begin and end in the
-- same words of C, which are `begin_message` and `end_message` here.
pub mod Frame
pub mod Sent
use dgnss_server.Common.{
  ℕ, zero, suc, ◌+◌, ◌-◌, ◌*◌, ◌/◌, ◌%◌, ◌^◌, Bool, true, false, Option, none, some, List, [], ◌∷◌,
  ◌++◌, leb, ◌==◌, if◌then◌else◌,
}
use dgnss_server.Common.Int.{ℤ, pos, negsuc}
use dgnss_server.Double.{Double}
use dgnss_server.Bits.{setbitu}
use dgnss_server.Crc.{crc24q}
use dgnss_server.Rtcm.{Rtcm, rtcm3_preamb}
use dgnss_server.Rtcm.Cursor.{Field, unsigned, signed, Cursor, put_all}
use dgnss_server.Rtcm.Msm.{encode_rtcm3}

-- `for (i = rtcm->nbit; i % 8; i++) setbitu(rtcm->buff, i, 1, 0);`, at most `left` rounds.
unfoldable pub pad_loop : ℕ → Cursor → Cursor
pad_loop zero c = c
pad_loop (suc left) (buff, i) =
    let rest = pad_loop left (setbitu buff i 1 0, i + 1) in if i % 8 == 0 then (buff, i) else rest

-- Seven rounds are enough.
unfoldable pub pad : Cursor → Cursor
pad = pad_loop 7

module _ {F : Type 0} where
  -- The preamble, the reserved bits, and room for the length.
  unfoldable pub begin_message : Rtcm F → Rtcm F
  begin_message rtcm = record rtcm {
    nbit = 0;
    len = 0;
    nbyte = 0;
    buff = (put_all (unsigned 8 rtcm3_preamb ∷ unsigned 6 0 ∷ unsigned 10 0 ∷ []) (rtcm.buff, 0)).0;
  }

  -- The end of a message of `nbit` bits: padding, length and checksum. A message has 24 bits at
  -- least, so that `rtcm->len - 3` does not fall below 0.
  unfoldable pub end_message : Rtcm F → Bool × Rtcm F
  end_message rtcm =
      let (padded, i) = pad (rtcm.buff, rtcm.nbit) in
      let len = i / 8 in
      let announced = setbitu padded 14 10 (len - 3) in
      if leb (3 + 1024) len then (false, record rtcm { nbit = 0; len = 0; buff = padded }) else (
        true,
        record rtcm {
          len = len;
          nbyte = len + 3;
          buff = setbitu announced i 24 (crc24q announced len);
        },
      )

module _ {F : Type 0} ⦃d : Double F⦄ where
  open d use {of_int, decimal, sub, mul, quo, floor, to_int, to_word}

  unfoldable pub gen_rtcm3 : Rtcm F → ℕ → ℕ → Bool × Rtcm F
  gen_rtcm3 rtcm type sync =
      let (ret, rtcm') = encode_rtcm3 (begin_message rtcm) type sync in
      if ret then end_message rtcm' else (false, rtcm')

  -- `set38bits`: a word of 32 bits with the sign, and 6 bits.
  unfoldable pub set38bits : F → List Field
  set38bits value =
      let word_h = to_int (floor (quo value (of_int (pos 64)))) in
      let word_l = to_word (sub value (mul (of_int word_h) (of_int (pos 64)))) in
      signed 32 word_h ∷ unsigned 6 word_l ∷ []

  -- The antenna's place, in metres.
  abbrev pub station_x : F
  station_x = decimal (negsuc 22715995879) (negsuc 3)

  abbrev pub station_y : F
  station_y = decimal (pos 50091413718) (negsuc 3)

  abbrev pub station_z : F
  station_z = decimal (pos 32188281104) (negsuc 3)

  unfoldable pub type1005_fields : Rtcm F → List Field
  type1005_fields rtcm =
      let step = decimal (pos 1) (negsuc 3) in
      unsigned 12 1005
      ∷ unsigned 12 rtcm.staid
      ∷ unsigned 6 0
      ∷ unsigned 1 1
      ∷ unsigned 1 1
      ∷ unsigned 1 0
      ∷ unsigned 1 0
      ∷ (set38bits (quo station_x step)
          ++ unsigned 1 1
            ∷ unsigned 1 0
            ∷ (set38bits (quo station_y step) ++ unsigned 2 0 ∷ set38bits (quo station_z step)))

  unfoldable pub encode_type1005 : Rtcm F → Bool × Rtcm F
  encode_type1005 rtcm =
      let begun = begin_message rtcm in
      let (buff, i) = put_all (type1005_fields rtcm) (begun.buff, 24) in
      end_message (record begun { buff = buff; nbit = i })
