-- ===== src/Examples/Stream.antt =====
-- Examples of the receiver's messages.
use dgnss_server.Common.{
  ℕ, ◌+◌, ◌≡◌, refl, inl, arith, List, [], ◌∷◌, ◌++◌, drop, replicate, length-replicate,
}
use dgnss_server.Common.Int.{ℤ, pos, ◌+ℤ◌, ◌*ℤ◌}
use dgnss_server.Double.{whole}
use dgnss_server.Bits.{u1, u2, u4}
use dgnss_server.Crc.{crc32, crc32_loop, crc32_shift}
use dgnss_server.Receiver.{
  Raw, sync_oem4, input_oem4, decode_oem4, decode_rangeb, obsindex, range_len, oem4_hlen, max_obs,
  max_raw_len, blank_obs, oem4_sync1, oem4_sync2, oem4_sync3, Obs,
}
use dgnss_server.Receiver.Delivery.{feed, feed_frame}
use dgnss_server.Receiver.Observation.{IsTable, IsIndexed, obsindex-IsIndexed}
use dgnss_server.Receiver.Range.{IsObserved, IsRanged, announced}
use dgnss_server.Receiver.Compressed.{decode_rangecmpb, ranges-AreRanged}
use dgnss_server.Receiver.Known.{IsHeard}
use dgnss_server.Receiver.Heard.{listen, listen-IsHeard}
use dgnss_server.Receiver.Safety.{IsReceiver, input_oem4-IsReceiver}
use dgnss_server.Examples.{
  now, zeros, zeros-IsBytes, length-zeros, no_table, fresh_raw, range_message,
}

-- A message of another kind, which is all zeros after its sync bytes.
abbrev plain_rest : List ℕ
plain_rest = zeros 28

abbrev plain_message : List ℕ
plain_message = oem4_sync1 ∷ oem4_sync2 ∷ oem4_sync3 ∷ 0 ∷ plain_rest

plain_len : u2 plain_message 8 + oem4_hlen ≡ 28
unfolding u2
plain_len = refl

feed_frame_example :
    let end = decode_oem4 now (record fresh_raw {
      buff = plain_message ++ drop 32 (zeros max_raw_len);
      nbyte = 0;
      len = 28;
    }) in
    feed now fresh_raw plain_message
    ≡ (pos 0 ∷ pos 0 ∷ pos 0 ∷ (replicate 28 (pos 0) ++ end.0 ∷ []), end.1)
feed_frame_example =
    feed_frame now plain_message 28 plain_len (omega arith) refl 0 plain_rest fresh_raw refl refl
      (length-zeros max_raw_len)

no_table-IsTable : IsTable no_table
no_table-IsTable = record {
  size = length-replicate {A = Obs ℤ} max_obs blank_obs;
  within = omega arith;
  distinct = λ i j lt hi. absurd (omega (arith, hi));
}

pub no_table-IsObserved : IsObserved no_table
no_table-IsObserved = record {
  table = no_table-IsTable;
  tracked = λ i hi. absurd (omega (arith, hi));
}

pub fresh_raw-IsReceiver : IsReceiver fresh_raw
fresh_raw-IsReceiver = record {
  frame = record {
    whole_buff = length-zeros max_raw_len;
    bytes = zeros-IsBytes max_raw_len;
    started = inl refl;
    room = inl (omega arith);
  };
  observed = no_table-IsObserved;
}

obsindex-IsIndexed_example : IsIndexed no_table now 5 (obsindex no_table now 5)
obsindex-IsIndexed_example = obsindex-IsIndexed no_table now 5 no_table-IsTable (omega arith)

input_oem4-IsReceiver_example : IsReceiver (input_oem4 now fresh_raw 0xAA).1
input_oem4-IsReceiver_example =
    input_oem4-IsReceiver now fresh_raw 0xAA (omega arith) fresh_raw-IsReceiver

-- The receiver after the range message but for its last byte.
abbrev almost : Raw ℤ
almost = record fresh_raw {
  nbyte = 79;
  len = 76;
  buff = range_message ++ 202 ∷ 230 ∷ 30 ∷ 0 ∷ zeros 4;
}

almost_announced : announced almost ≡ 1
unfolding u4 u2
almost_announced = refl

ranges-AreRanged_example :
    IsRanged 44 almost (decode_rangeb almost) × IsRanged 24 almost (decode_rangecmpb (pos 1) almost)
ranges-AreRanged_example =
    ranges-AreRanged (pos 1) almost no_table-IsObserved (omega (arith, almost_announced))

-- The stream of the whole message but for its last byte.
abbrev stream : List ℕ
stream = 0 ∷ 0xAA ∷ (range_message ++ 202 ∷ 230 ∷ 30 ∷ [])

stream_43 : (input_oem4 now (listen now fresh_raw stream) 193).0 ≡ pos 43
unfolding listen input_oem4 decode_oem4 sync_oem4 crc32 crc32_loop crc32_shift u1 u2 u4
    decode_rangeb range_len ◌+ℤ◌ ◌*ℤ◌
stream_43 = refl

listen-IsHeard_example : IsHeard (stream ++ 193 ∷ [])
listen-IsHeard_example =
    listen-IsHeard now fresh_raw stream 193 fresh_raw-IsReceiver refl (omega arith) (omega arith)
      (omega arith) stream_43
