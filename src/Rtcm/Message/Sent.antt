-- ===== src/Rtcm/Message/Sent.antt =====
-- The messages that gen_rtcm3 and encode_type1005 make.
use dgnss_server.Common.{
  if_holds, Bool, ℕ, ◌+◌, ◌-◌, ◌*◌, ◌/◌, ◌%◌, ◌^◌, ◌≤◌, ◌≡◌, inl, inr, refl, ap, ◌∙◌, arith, true,
  List, [], ◌∷◌, length, get_or, map,
}
use dgnss_server.Double.{Double}
use dgnss_server.Bits.{getbitu}
use dgnss_server.Bits.Byte.{IsBytes}
use dgnss_server.Crc.{crc24q}
use dgnss_server.Sat.{sys_gps, sys_cmp}
use dgnss_server.Rtcm.{Rtcm, buff_size, rtcm3_preamb}
use dgnss_server.Rtcm.Cursor.{
  Field, unsigned, width, word, total, Cursor, put_all, get_all, put_all-position, length-put_all,
  put_all-IsBytes, put_all_before, get_all-put_all, get_all_ext,
}
use dgnss_server.Rtcm.Msm.{
  encode_head, encode_data, encode_msm_head, encode_msm4, encode_rtcm3, count_message, msm_type,
}
use dgnss_server.Rtcm.Msm.Size.{message_fields, encode_data-fields, total-message_fields_le}
use dgnss_server.Rtcm.Cells.Buffer.{gen_msm_sig-obs}
use dgnss_server.Rtcm.Msm.Short.{IsShort, All-narrow, message_fields-IsShort}
use dgnss_server.Rtcm.Message.{
  begin_message, end_message, gen_rtcm3, set38bits, type1005_fields, encode_type1005,
}
use dgnss_server.Rtcm.Message.Frame.{end_message-IsFrame}

-- A message with these fields, in its frame.
pub record IsMessage {F : Type 0} (fs : List Field) (rtcm : Rtcm F) : Type 0 where
  pub size : length rtcm.buff ≡ buff_size
  pub bytes : IsBytes rtcm.buff
  pub preamble : getbitu rtcm.buff 0 8 ≡ rtcm3_preamb
  pub reserved : getbitu rtcm.buff 8 6 ≡ 0
  pub announced : getbitu rtcm.buff 14 10 ≡ rtcm.len - 3
  pub body : get_all rtcm.buff fs 24 ≡ map (λ f. word f % 2 ^ width f) fs
  pub parity : getbitu rtcm.buff (8 * rtcm.len) 24 ≡ crc24q rtcm.buff rtcm.len
  pub len_is : rtcm.len ≡ (24 + total fs + 7) / 8
  pub nbyte_is : rtcm.nbyte ≡ rtcm.len + 3

-- A message starts with its preamble.
record IsBegun {F : Type 0} (rtcm : Rtcm F) : Type 0 where
  size : length (begin_message rtcm).buff ≡ buff_size
  bytes : IsBytes (begin_message rtcm).buff
  preamble : getbitu (begin_message rtcm).buff 0 8 ≡ rtcm3_preamb
  reserved : getbitu (begin_message rtcm).buff 8 6 ≡ 0

module _ {F : Type 0} (rtcm : Rtcm F) (bytes : IsBytes rtcm.buff)
    (whole : length rtcm.buff ≡ buff_size) where
  abbrev start_fields : List Field
  start_fields = unsigned 8 rtcm3_preamb ∷ unsigned 6 0 ∷ unsigned 10 0 ∷ []

  begin_message-IsBegun : IsBegun rtcm
  unfolding begin_message get_all
  begin_message-IsBegun =
      let read =
        get_all-put_all start_fields (rtcm.buff, 0) bytes (omega (arith, whole))
          (omega arith, (omega arith, (omega arith, tt))) in
      let buff = (put_all start_fields (rtcm.buff, 0)).0 in
      record {
        size = length-put_all start_fields (rtcm.buff, 0) ∙ whole;
        bytes = put_all-IsBytes start_fields (rtcm.buff, 0) bytes;
        preamble = ap (λ (xs : List ℕ). get_or xs 0 0) read;
        reserved = ap (λ (xs : List ℕ). get_or xs 1 0) read;
      }

  -- Fields that follow the first 24 bits are framed with them.
  module _ (fs : List Field) (short : IsShort fs) (few : total fs ≤ 8184) (out : Rtcm F)
      (written : (out.buff, out.nbit) ≡ put_all fs ((begin_message rtcm).buff, 24)) where
    pub framed : ((end_message out).0 ≡ true) × IsMessage fs (end_message out).1
    framed =
        let b = begin_message-IsBegun in
        let start : Cursor = ((begin_message rtcm).buff, 24) in
        let buff_is : out.buff ≡ (put_all fs start).0 = ap (λ (c : Cursor). c.0) written in
        let nbit_is : out.nbit ≡ 24 + total fs =
          ap (λ (c : Cursor). c.1) written ∙ put_all-position fs start in
        let fits : 24 + total fs ≤ 8 * length start.0 = omega (arith, b.size) in
        let bytes' : IsBytes out.buff = rw buff_is (put_all-IsBytes fs start b.bytes) in
        let whole' : length out.buff ≡ buff_size = rw buff_is (length-put_all fs start ∙ b.size) in
        let (made, frame) =
          end_message-IsFrame out bytes' whole' (omega (arith, nbit_is)) (omega (arith, nbit_is)) in
        let before : (q n : ℕ)
            → n ≤ 32
            → q + n ≤ 14
            → getbitu (end_message out).1.buff q n ≡ getbitu (begin_message rtcm).buff q n =
          λ q n few first.
            frame.keeps q n few (omega (arith, nbit_is)) (inl first)
            ∙ ap (λ (b : List ℕ). getbitu b q n) buff_is
            ∙ put_all_before fs start q n b.bytes fits few (omega arith) in
        (
          made,
          record {
            size = frame.size ∙ whole';
            bytes = frame.bytes;
            preamble = before 0 8 (omega arith) (omega arith) ∙ b.preamble;
            reserved = before 8 6 (omega arith) (omega arith) ∙ b.reserved;
            announced = frame.announced;
            body =
                get_all_ext _ out.buff fs 24 out.nbit short (omega (arith, nbit_is))
                  (λ q w h lo hi. frame.keeps q w h hi (inr lo))
                ∙ ap (λ (b : List ℕ). get_all b fs 24) buff_is
                ∙ get_all-put_all fs start b.bytes fits short;
            parity = frame.parity;
            len_is = frame.len_is ∙ ap (λ (n : ℕ). (n + 7) / 8) nbit_is;
            nbyte_is = frame.nbyte_is;
          },
        )

-- The message types, and the systems of their satellites.
pub data IsMsm : ℕ → ℕ → Type 0 where
  gps : IsMsm 1074 sys_gps
  cmp : IsMsm 1124 sys_cmp

module _ {F : Type 0} ⦃d : Double F⦄ where
  encode_rtcm3-eq :
      {type sys : ℕ}
      → IsMsm type sys
      → (rtcm : Rtcm F) (sync : ℕ)
      → encode_rtcm3 rtcm type sync
        ≡ (true, count_message (encode_data (encode_head type rtcm sys sync)) type)
  unfolding encode_rtcm3 encode_msm4 encode_msm_head msm_type
  encode_rtcm3-eq gps rtcm sync = refl
  encode_rtcm3-eq cmp rtcm sync = refl

  -- `gen_rtcm3` always makes a message of the types 1074 and 1124: all its fields are read back
  -- from the buffer, after the preamble and a length that is the message's, and before the
  -- checksum of all bytes.
  pub gen_rtcm3-IsMessage :
      {type sys : ℕ}
      → IsMsm type sys
      → (rtcm : Rtcm F) (sync : ℕ) → IsBytes rtcm.buff
      → length rtcm.buff ≡ buff_size
      → let (ret, out) = gen_rtcm3 rtcm type sync in
        (ret ≡ true) × IsMessage (message_fields type (begin_message rtcm) sys sync) out
  unfolding gen_rtcm3 count_message
  gen_rtcm3-IsMessage {type} {sys} msm rtcm sync bytes whole =
      let begun = begin_message rtcm in
      rw (encode_rtcm3-eq msm begun sync) (
        framed rtcm bytes whole (message_fields type begun sys sync)
          (message_fields-IsShort type begun sys sync)
          (omega (arith, total-message_fields_le type begun sys sync)) _
          (encode_data-fields type begun sys sync))

  pub total-type1005_fields : (rtcm : Rtcm F) → total (type1005_fields rtcm) ≡ 152
  unfolding type1005_fields set38bits
  total-type1005_fields rtcm = omega arith

  -- The antenna's message: 19 bytes of fields, 22 with the header, and 25 with the checksum. It is
  -- always made.
  pub encode_type1005-IsMessage :
      (rtcm : Rtcm F)
      → IsBytes rtcm.buff
      → length rtcm.buff ≡ buff_size
      → let (ret, out) = encode_type1005 rtcm in
        (ret ≡ true) × IsMessage (type1005_fields rtcm) out × (out.nbyte ≡ 25)
  unfolding encode_type1005 type1005_fields set38bits
  encode_type1005-IsMessage rtcm bytes whole =
      let (made, sent) =
        framed rtcm bytes whole (type1005_fields rtcm) (All-narrow (type1005_fields rtcm) refl)
          (omega arith) _ refl in
      (made, sent, omega (arith, sent.nbyte_is, sent.len_is))

  end_message-obs : (rtcm : Rtcm F) → (end_message rtcm).1.obs ≡ rtcm.obs
  unfolding end_message
  end_message-obs rtcm = if_holds (λ (r : Bool × Rtcm F). r.1.obs ≡ rtcm.obs) _ _ _ refl refl

  -- Making a message leaves the observations.
  pub gen_rtcm3-obs :
      {type sys : ℕ}
      → IsMsm type sys
      → (rtcm : Rtcm F) (sync : ℕ) → (gen_rtcm3 rtcm type sync).1.obs ≡ rtcm.obs
  unfolding gen_rtcm3 count_message encode_data encode_head begin_message
  gen_rtcm3-obs msm rtcm sync =
      rw (encode_rtcm3-eq msm (begin_message rtcm) sync)
        (end_message-obs _ ∙ gen_msm_sig-obs _ _ _ _)
