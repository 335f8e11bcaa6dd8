-- ===== src/Comn/ByteBuffer.antt =====
-- The class ByteBuffer of comn/include/TByteBuffer.h, an array of bytes that grows. `bytes` is the
-- array, empty for NULL; what a new array holds before it is written is 0 here, since nothing reads
-- it. A `new` that fails throws, and is left out, as are the pointers that are handed out.
pub mod Contents
use dgnss_server.Common.{
  ℕ, zero, suc, ◌+◌, ◌-◌, ◌*◌, ◌%◌, ◌^◌, List, [], ◌∷◌, length, take, set, replicate, leb, ◌==◌,
  if◌then◌else◌,
}
use dgnss_server.Comn.Memory.{◌+size◌, ◌-size◌, slice, blit}

pub record ByteBuffer : Type 0 where
  pub bytes : List ℕ
  pub capacity : ℕ
  pub length_of : ℕ

abbrev pub reserved_size : ℕ
reserved_size = 16

unfoldable pub new_byte_buffer : ByteBuffer
new_byte_buffer = record { bytes = []; capacity = 0; length_of = 0 }

unfoldable pub internal_ensure : ByteBuffer → ℕ → ByteBuffer
internal_ensure b n =
    let want = n +size reserved_size in
    let larger = (b.capacity + want) * 2 % 2 ^ 64 in
    if leb want b.capacity then b else record b {
      bytes = set (blit (replicate larger 0) 0 (take b.length_of b.bytes)) b.length_of 0;
      capacity = larger;
    }

unfoldable pub write_bytes : ByteBuffer → List ℕ → ByteBuffer
write_bytes b src =
    let n = length src in
    let room = internal_ensure b (b.length_of +size n) in
    let end = room.length_of +size n in
    if n == 0
    then b
    else record room { bytes = set (blit room.bytes room.length_of src) end 0; length_of = end }

unfoldable pub trim : ByteBuffer → ℕ → ByteBuffer
trim b n =
    if b.capacity == 0
    then b
    else if leb b.length_of n
    then record b { length_of = 0 }
    else record b {
      bytes = blit b.bytes 0 (slice b.bytes n (b.length_of - n));
      length_of = b.length_of - n;
    }

unfoldable pub clear_bytes : ByteBuffer → ByteBuffer
clear_bytes b = record b { length_of = 0 }

unfoldable pub resize : ByteBuffer → ℕ → ByteBuffer
resize b n = record (internal_ensure b n) { length_of = n }

-- `capacity()`, as it is written.
unfoldable pub capacity_of : ByteBuffer → ℕ
capacity_of b = b.capacity -size reserved_size
