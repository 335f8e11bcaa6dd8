-- ===== src/Rtcm/Message/Frame.antt =====
-- The frame of a message: preamble, length, whole bytes and checksum.
use dgnss_server.Common.{
  ℕ, zero, suc, ◌+◌, ◌-◌, ◌*◌, ◌/◌, ◌%◌, ◌^◌, ◌≤◌, ◌≡◌, ◌⊎◌, inl, inr, refl, sym, ap, ◌∙◌, arith,
  Bool, true, false, List, length, ◌==◌, leb, if_holds, Bool-cases, get_or-set_ne,
}
use dgnss_server.Bits.{setbitu, getbitu, byte_at, set_bit, write_bits}
use dgnss_server.Bits.Byte.{IsBytes}
use dgnss_server.Bits.Field.{length-setbitu, setbitu-IsBytes, getbitu-setbitu, getbitu-setbitu_ne}
use dgnss_server.Crc.{crc24q}
use dgnss_server.Crc.Bounds.{crc24q-lt, crc24q_ext}
use dgnss_server.Rtcm.{Rtcm, buff_size}
use dgnss_server.Rtcm.Cursor.{Cursor}
use dgnss_server.Rtcm.Message.{pad_loop, pad, end_message}

-- A write of bits leaves the bytes before them.
set_bit-byte :
    (buff : List ℕ) (i j : ℕ) (v : Bool)
    → 8 * j + 8 ≤ i
    → byte_at (set_bit buff i v) j ≡ byte_at buff j
unfolding set_bit
set_bit-byte buff i j v h =
    if_holds (λ (b : List ℕ). byte_at b j ≡ byte_at buff j) v _ _
      (get_or-set_ne buff (i / 8) j _ 0 (λ e. absurd (omega arith)))
      (get_or-set_ne buff (i / 8) j _ 0 (λ e. absurd (omega arith)))

write_bits-byte :
    (n i mask value : ℕ) (buff : List ℕ) (j : ℕ)
    → 8 * j + 8 ≤ i
    → byte_at (write_bits n i mask value buff) j ≡ byte_at buff j
unfolding write_bits
write_bits-byte zero i mask value buff j h = refl
write_bits-byte (suc n) i mask value buff j h =
    write_bits-byte n (i + 1) (mask / 2) value _ j (omega arith) ∙ set_bit-byte buff i j _ h

setbitu-byte :
    (buff : List ℕ) (p len value j : ℕ)
    → 8 * j + 8 ≤ p
    → byte_at (setbitu buff p len value) j ≡ byte_at buff j
unfolding setbitu
setbitu-byte buff p len value j h =
    if_holds (λ (b : List ℕ). byte_at b j ≡ byte_at buff j) _ _ _ refl
      (write_bits-byte len p (2 ^ (len - 1)) value buff j h)

-- What padding does: it ends at the next whole byte, and keeps everything before it.
record IsPadded (from to : Cursor) : Type 0 where
  size : length to.0 ≡ length from.0
  bytes : IsBytes to.0
  end : to.1 ≡ from.1 + (8 - from.1 % 8) % 8
  keeps : (q n : ℕ) → n ≤ 32 → q + n ≤ from.1 → getbitu to.0 q n ≡ getbitu from.0 q n

module _ (left : ℕ) (buff : List ℕ) (i : ℕ) (bytes : IsBytes buff)
    (inside : i + 1 ≤ 8 * length buff) (off : (i % 8 == 0) ≡ false) where
  pad_more : {to : Cursor} → IsPadded (setbitu buff i 1 0, i + 1) to → IsPadded (buff, i) to
  pad_more p = record {
    size = p.size ∙ length-setbitu buff i 1 0;
    bytes = p.bytes;
    end = p.end ∙ ground arith;
    keeps = λ q n short before.
        p.keeps q n short (omega arith)
        ∙ getbitu-setbitu_ne buff i 1 0 bytes q n inside short (inl before);
  }

pad_loop-IsPadded :
    (left : ℕ) (buff : List ℕ) (i : ℕ)
    → IsBytes buff
    → i ≤ 8 * length buff
    → (i % 8 ≡ 0) ⊎ (8 ≤ i % 8 + left)
    → IsPadded (buff, i) (pad_loop left (buff, i))
unfolding pad_loop
pad_loop-IsPadded zero buff i bytes room near = record {
  size = refl;
  bytes = bytes;
  end = omega arith;
  keeps = λ q n short before. refl;
}
pad_loop-IsPadded (suc left) buff i bytes room near = elim (Bool-cases (i % 8 == 0)) [
  | inl e ↦
      rw e (record {
        size = refl;
        bytes = bytes;
        end = ground arith;
        keeps = λ q n short before. refl;
      })
  | inr e ↦
      let inside : i + 1 ≤ 8 * length buff = ground arith in
      rw e (
        pad_more left buff i bytes inside e (
          pad_loop-IsPadded left (setbitu buff i 1 0) (i + 1) (setbitu-IsBytes buff i 1 0 bytes)
            (rw (length-setbitu buff i 1 0) inside) (ground arith)))
]

-- A message of `nbit` bits, from its first bit on, in its frame.
pub record IsFrame {F : Type 0} (body framed : Rtcm F) : Type 0 where
  pub size : length framed.buff ≡ length body.buff
  pub bytes : IsBytes framed.buff
  pub len_is : framed.len ≡ (body.nbit + 7) / 8
  pub nbyte_is : framed.nbyte ≡ framed.len + 3
  pub announced : getbitu framed.buff 14 10 ≡ framed.len - 3
  pub parity : getbitu framed.buff (8 * framed.len) 24 ≡ crc24q framed.buff framed.len
  pub keeps :
      (q n : ℕ)
      → n ≤ 32
      → q + n ≤ body.nbit
      → (q + n ≤ 14) ⊎ (24 ≤ q)
      → getbitu framed.buff q n ≡ getbitu body.buff q n

module _ {F : Type 0} (rtcm : Rtcm F) (bytes : IsBytes rtcm.buff)
    (whole : length rtcm.buff ≡ buff_size) (least : 24 ≤ rtcm.nbit) (most : rtcm.nbit ≤ 8208) where
  padded : IsPadded (rtcm.buff, rtcm.nbit) (pad (rtcm.buff, rtcm.nbit))
  unfolding pad
  padded = pad_loop-IsPadded 7 rtcm.buff rtcm.nbit bytes (omega arith) (omega arith)

  -- A message of 24 to 8208 bits, in a buffer of 1200 bytes, is framed.
  pub end_message-IsFrame : ((end_message rtcm).0 ≡ true) × IsFrame rtcm (end_message rtcm).1
  unfolding end_message
  end_message-IsFrame =
      let c = pad (rtcm.buff, rtcm.nbit) in
      let p = padded in
      let len : ℕ = c.1 / 8 in
      let len_is : len ≡ (rtcm.nbit + 7) / 8 = omega (arith, p.end) in
      let at : c.1 ≡ 8 * len = omega (arith, p.end) in
      let short : leb (3 + 1024) len ≡ false = ground arith in
      let b1 = setbitu c.0 14 10 (len - 3) in
      let crc = crc24q b1 len in
      let bytes1 = setbitu-IsBytes c.0 14 10 (len - 3) p.bytes in
      let size1 : length b1 ≡ buff_size = length-setbitu c.0 14 10 (len - 3) ∙ p.size ∙ whole in
      let inside : 24 ≤ 8 * length c.0 = omega (arith, p.size) in
      let room : c.1 + 24 ≤ 8 * length b1 = omega (arith, size1) in
      rw short (
        refl,
        record {
          size = length-setbitu b1 c.1 24 crc ∙ size1 ∙ sym whole;
          bytes = setbitu-IsBytes b1 c.1 24 crc bytes1;
          len_is = len_is;
          nbyte_is = refl;
          announced =
              getbitu-setbitu_ne b1 c.1 24 crc bytes1 14 10 room (omega arith) (inl (omega arith))
              ∙ getbitu-setbitu c.0 14 10 (len - 3) p.bytes inside (omega arith)
              ∙ omega arith;
          parity =
              ap (λ (q : ℕ). getbitu (setbitu b1 c.1 24 crc) q 24) (sym at)
              ∙ getbitu-setbitu b1 c.1 24 crc bytes1 room (omega arith)
              ∙ omega (arith, crc24q-lt b1 len)
              ∙ crc24q_ext b1 (setbitu b1 c.1 24 crc) len
                  (λ j lt. sym (setbitu-byte b1 c.1 24 crc j (omega arith)));
          keeps = λ q n few before apart.
              getbitu-setbitu_ne b1 c.1 24 crc bytes1 q n room few (inl (omega arith))
              ∙ getbitu-setbitu_ne c.0 14 10 (len - 3) p.bytes q n inside few (ground arith)
              ∙ p.keeps q n few before;
        },
      )
