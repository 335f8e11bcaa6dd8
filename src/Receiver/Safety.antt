-- ===== src/Receiver/Safety.antt =====
-- What input_oem4 keeps on every byte.
use dgnss_server.Common.{ℕ, ◌<◌, ◌≡◌, arith}
use dgnss_server.Common.Int.{pos, negsuc}
use dgnss_server.Double.{Double}
use dgnss_server.Time.{GTime, adjgpsweek, gpst2time}
use dgnss_server.Bits.{u2, u4}
use dgnss_server.Crc.{crc32}
use dgnss_server.Receiver.{Raw, input_oem4, decode_oem4, id_range}
use dgnss_server.Receiver.Frame.{framing, IsFraming, input_oem4-IsFraming, complete}
use dgnss_server.Receiver.Range.{IsObserved, decode_rangeb-IsObserved}

-- The receiver's state between two bytes.
pub record IsReceiver {F : Type 0} ⦃d : Double F⦄ (raw : Raw F) : Type 0 where
  pub frame : IsFraming (framing raw)
  pub observed : IsObserved raw.obs

module _ {F : Type 0} ⦃d : Double F⦄ (now : GTime F) where
  decode_oem4-IsObserved :
      (raw : Raw F) → IsObserved raw.obs → IsObserved (decode_oem4 now raw).1.obs
  unfolding decode_oem4
  decode_oem4-IsObserved raw v =
      let week = adjgpsweek now (pos (u2 raw.buff 14)) in
      let tow = d.mul (d.of_int (pos (u4 raw.buff 16))) (d.decimal (pos 1) (negsuc 2)) in
      ground (arith, (decode_rangeb-IsObserved (record raw { time = gpst2time week tow }) v))

  input_oem4-IsObserved :
      (raw : Raw F) (byte : ℕ) → IsObserved raw.obs → IsObserved (input_oem4 now raw byte).1.obs
  unfolding input_oem4
  input_oem4-IsObserved raw byte v =
      ground (arith, decode_oem4-IsObserved (complete now raw byte) v)

  -- Every byte, good or bad, keeps the receiver's state well-formed: the message stays inside its
  -- buffer, and the table has different satellites of GPS and BeiDou, at most 64 of them.
  pub input_oem4-IsReceiver :
      (raw : Raw F) (byte : ℕ)
      → byte < 256
      → IsReceiver raw
      → IsReceiver (input_oem4 now raw byte).1
  input_oem4-IsReceiver raw byte lt v = record {
    frame = input_oem4-IsFraming now raw byte lt v.frame;
    observed = input_oem4-IsObserved raw byte v.observed;
  }

  -- A return of 43 is that of a range message with its checksum.
  pub decode_oem4_43 :
      (raw : Raw F)
      → (decode_oem4 now raw).0 ≡ pos 43
      → (crc32 raw.buff raw.len ≡ u4 raw.buff raw.len) × (u2 raw.buff 4 ≡ id_range)
  unfolding decode_oem4
  decode_oem4_43 raw h = ground arith
