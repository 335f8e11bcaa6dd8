-- ===== src/Receiver/Frame.antt =====
-- The frame machine: input_oem4 stays inside the message buffer, and hands a whole frame to
-- decode_oem4 exactly at its last byte.
use dgnss_server.Common.{
  ℕ, zero, suc, ◌+◌, ◌-◌, ◌≤◌, ◌<◌, ◌≡◌, ◌⊎◌, refl, ◌∙◌, arith, List, set, length, if◌then◌else◌,
  ◌==◌, length-set, All-set, All-get_or,
}
use dgnss_server.Common.Int.{pos, negsuc, pos_part, to_int32}
use dgnss_server.Double.{Double}
use dgnss_server.Time.{GTime, adjgpsweek, gpst2time}
use dgnss_server.Bits.{byte_at, u2, u4}
use dgnss_server.Bits.Byte.{IsBytes}
use dgnss_server.Receiver.{
  Raw, sync_oem4, input_oem4, decode_oem4, decode_rangeb, range_loop, range_step, range_tracked,
  range_at, range_sat, keep_sat, oem4_hlen, max_raw_len,
}

-- The part of the state that belongs to the frame machine.
abbrev pub Framing : Type 0
Framing = record { buff : List ℕ; nbyte : ℕ; len : ℕ }

module _ {F : Type 0} ⦃d : Double F⦄ where
  abbrev pub framing : Raw F → Framing
  framing raw = record { buff = raw.buff; nbyte = raw.nbyte; len = raw.len }

  framing-range_step : (raw : Raw F) (q : ℕ) → framing (range_step raw q) ≡ framing raw
  unfolding range_step range_tracked range_at range_sat keep_sat
  framing-range_step raw q = ground arith

  framing-range_loop : (n q : ℕ) (raw : Raw F) → framing (range_loop n q raw) ≡ framing raw
  unfolding range_loop
  framing-range_loop zero q raw = refl
  framing-range_loop (suc n) q raw =
      framing-range_loop n (q + 44) (range_step raw q) ∙ framing-range_step raw q

  framing-decode_rangeb : (raw : Raw F) → framing (decode_rangeb raw).1 ≡ framing raw
  unfolding decode_rangeb
  framing-decode_rangeb raw =
      ground (
        arith,
        framing-range_loop (pos_part (to_int32 (u4 raw.buff oem4_hlen))) (oem4_hlen + 4) raw,
      )

  -- Decoding a message leaves the frame machine alone.
  pub framing-decode_oem4 :
      (now : GTime F) (raw : Raw F) → framing (decode_oem4 now raw).1 ≡ framing raw
  unfolding decode_oem4
  framing-decode_oem4 now raw =
      let week = adjgpsweek now (pos (u2 raw.buff 14)) in
      let tow = d.mul (d.of_int (pos (u4 raw.buff 16))) (d.decimal (pos 1) (negsuc 2)) in
      ground (arith, framing-decode_rangeb (record raw { time = gpst2time week tow }))

-- Between two bytes: either the sync bytes are still awaited, or the message so far fits the
-- buffer, and so does the length that it announces, once that is read.
pub record IsFraming (f : Framing) : Type 0 where
  pub whole_buff : length f.buff ≡ max_raw_len
  pub bytes : IsBytes f.buff
  pub started : (f.nbyte ≡ 0) ⊎ (3 ≤ f.nbyte)
  pub room : (f.nbyte < 10) ⊎ ((f.nbyte < f.len + 4) × (f.len ≤ max_raw_len - 4))

set-IsBytes : (buff : List ℕ) (i b : ℕ) → IsBytes buff → b < 256 → IsBytes (set buff i b)
set-IsBytes buff i b h lt = All-set (λ (x : ℕ). x < 256) buff i b h lt

byte_at-lt : (buff : List ℕ) (i : ℕ) → IsBytes buff → byte_at buff i < 256
byte_at-lt buff i h = All-get_or (λ (x : ℕ). x < 256) buff i 0 h (omega arith)

sync_oem4-IsBytes :
    (buff : List ℕ) (byte : ℕ) → IsBytes buff → byte < 256 → IsBytes (sync_oem4 buff byte).1
unfolding sync_oem4
sync_oem4-IsBytes buff byte h lt =
    let first = set-IsBytes buff 0 _ h (byte_at-lt buff 1 h) in
    let second = set-IsBytes _ 1 _ first (byte_at-lt (set buff 0 (byte_at buff 1)) 2 first) in
    set-IsBytes _ 2 byte second lt

length-sync_oem4 : (buff : List ℕ) (byte : ℕ) → length (sync_oem4 buff byte).1 ≡ length buff
unfolding sync_oem4
length-sync_oem4 buff byte = rw (length-set, length-set, length-set)

module _ {F : Type 0} ⦃d : Double F⦄ (now : GTime F) where
  -- What `input_oem4` hands to `decode_oem4`.
  abbrev pub complete : Raw F → ℕ → Raw F
  complete raw byte =
      let buff = set raw.buff raw.nbyte byte in
      record raw {
        buff = buff;
        nbyte = 0;
        len = if raw.nbyte + 1 == 10 then u2 buff 8 + oem4_hlen else raw.len;
      }

  -- `input_oem4` keeps the frame machine's invariant: no byte is written past the buffer, and no
  -- message is announced that would not fit it with its checksum.
  pub input_oem4-IsFraming :
      (raw : Raw F) (byte : ℕ)
      → byte < 256
      → IsFraming (framing raw)
      → IsFraming (framing (input_oem4 now raw byte).1)
  unfolding input_oem4
  input_oem4-IsFraming raw byte lt v = ground (
    arith,
    sync_oem4-IsBytes raw.buff byte v.bytes lt,
    length-sync_oem4 raw.buff byte,
    set-IsBytes raw.buff raw.nbyte byte v.bytes lt,
    length-set raw.buff raw.nbyte byte,
    framing-decode_oem4 now (complete raw byte),
  )

  -- Where the invariant holds, the byte is written inside the buffer.
  pub nbyte-lt : (raw : Raw F) → IsFraming (framing raw) → raw.nbyte < length raw.buff
  nbyte-lt raw v = omega (arith, v)
