-- ===== src/Comn/IoBuffer.antt =====
-- The class IOBuffer of comn/include/TIOBuffer.h, a buffer of bytes that are written at one
-- position and read at another. `bytes` is the bytes of the array `m_ptr`; it is empty for NULL,
-- since no array of 0 bytes is allocated. A `new` that fails throws, and is left out. So are the
-- functions on streams and files, `toString`, and the pointers that are handed out.
pub mod Move
pub mod Refine
pub mod Calls
pub mod Fits
pub mod Queue
use dgnss_server.Common.{
  ℕ, zero, suc, ◌+◌, ◌-◌, ◌*◌, ◌/◌, ◌%◌, ◌^◌, Bool, true, false, ◌||◌, not, List, [], ◌∷◌, length,
  replicate, for_loop, ltb, leb, ◌==◌, if◌then◌else◌, min,
}
use dgnss_server.Comn.Memory.{◌+size◌, ◌-size◌, slice, blit}

pub record IoBuffer : Type 0 where
  pub bytes : List ℕ
  pub size : ℕ
  pub read_pos : ℕ
  pub write_pos : ℕ
  pub step : ℕ

abbrev pub memory_increase_step : ℕ
memory_increase_step = 1024

unfoldable pub new_buffer : IoBuffer
new_buffer = record {
  bytes = [];
  size = 0;
  read_pos = 0;
  write_pos = 0;
  step = memory_increase_step;
}

unfoldable pub readable : IoBuffer → ℕ
readable b = b.write_pos -size b.read_pos

unfoldable pub writable : IoBuffer → ℕ
writable b = b.size -size b.write_pos

-- The body of the loop of `moveData`: the array, and the position of `pDest`; `pSrc` is always
-- `read_pos` past it.
unfoldable pub move_chunk : ℕ → ℕ → List ℕ × ℕ → List ℕ × ℕ
move_chunk r i (bytes, dest) = (blit bytes (i * r) (slice bytes (i * r + r) r), i * r)

unfoldable pub move_chunks : ℕ → ℕ → List ℕ → List ℕ
move_chunks r n bytes =
    let (moved, dest) = for_loop (n / r) 0 (move_chunk r) (bytes, 0) in
    let left = n % r in
    if left == 0 then moved else blit moved (dest + r) (slice moved (dest + r + r) left)

unfoldable pub move_data : IoBuffer → IoBuffer
move_data b =
    let n = readable b in
    if b.read_pos == 0
    then b
    else if leb n b.read_pos
    then record b {
      bytes = blit b.bytes 0 (slice b.bytes b.read_pos n);
      write_pos = n;
      read_pos = 0;
    }
    else record b { bytes = move_chunks b.read_pos n b.bytes; write_pos = n; read_pos = 0 }

-- The array that `new` and `memset` make.
abbrev pub fresh : ℕ → List ℕ
fresh n = replicate n 0

unfoldable pub expect : IoBuffer → ℕ → IoBuffer
expect b n =
    let larger = b.write_pos +size n +size b.step in
    if n == 0
    then b
    else if leb (b.write_pos +size n) b.size
    then b
    else if length b.bytes == 0
    then record b { bytes = fresh n; size = n; read_pos = 0; write_pos = 0 }
    else if leb (readable b +size n) b.size
    then move_data b
    else record b {
      bytes = blit (fresh larger) 0 (slice b.bytes b.read_pos (readable b));
      size = larger;
      write_pos = readable b;
      read_pos = 0;
    }

unfoldable pub ensure : IoBuffer → ℕ → IoBuffer
ensure b n = if leb n b.size then b else expect b (n -size b.write_pos)

unfoldable pub clear_buffer : IoBuffer → IoBuffer
clear_buffer b = record b { read_pos = 0; write_pos = 0 }

unfoldable pub recycle : IoBuffer → IoBuffer
recycle b = if b.read_pos == b.write_pos then clear_buffer b else b

-- `read` into an array of `n` bytes: the bytes that are copied, and the buffer.
unfoldable pub read : IoBuffer → ℕ → List ℕ × IoBuffer
read b n =
    let count = min n (readable b) in
    if n == 0
    then ([], b)
    else (slice b.bytes b.read_pos count, record b { read_pos = b.read_pos + count })

-- `write` of the bytes of an array: their number, and the buffer.
unfoldable pub write : IoBuffer → List ℕ → ℕ × IoBuffer
write b src =
    let n = length src in
    let room = expect b n in
    if n == 0 then (0, b) else (
      n,
      record room {
        bytes = blit room.bytes room.write_pos src;
        write_pos = room.write_pos +size n;
      },
    )

unfoldable pub check_readable : IoBuffer → ℕ → Bool
check_readable b n = leb n (readable b)

unfoldable pub check_writable : IoBuffer → ℕ → Bool
check_writable b n = leb n (writable b)

-- `readString` into `value` with a given length, also the default one, which is the largest size_t:
-- with nothing to read, `value` stays.
unfoldable pub read_string : List ℕ → IoBuffer → ℕ → List ℕ × IoBuffer
read_string value b n =
    let count = min n (readable b) in
    if count == 0
    then (value, b)
    else (slice b.bytes b.read_pos count, recycle (record b { read_pos = b.read_pos + count }))

unfoldable pub skip : IoBuffer → ℕ → Bool × IoBuffer
skip b n =
    if check_readable b n
    then (true, recycle (record b { read_pos = b.read_pos +size n }))
    else (false, b)

unfoldable pub skip_all : IoBuffer → IoBuffer
skip_all b = record b { read_pos = 0; write_pos = 0 }

unfoldable pub advance : IoBuffer → ℕ → Bool × IoBuffer
advance b n =
    if check_writable b n then (true, record b { write_pos = b.write_pos +size n }) else (false, b)

-- `writeFrom` and `moveFrom`, from another buffer.
unfoldable pub write_from : IoBuffer → IoBuffer → ℕ → ℕ × IoBuffer
write_from b from n = write b (slice from.bytes from.read_pos (min n (readable from)))

unfoldable pub move_from : IoBuffer → IoBuffer → ℕ → ℕ × IoBuffer × IoBuffer
move_from b from n = let (count, b') = write_from b from n in (count, b', (skip from count).1)

unfoldable pub set_increase_step : IoBuffer → ℕ → IoBuffer
set_increase_step b n = if n == 0 then b else record b { step = n }

-- `getReadPos` and `getWritePos`, as they are written.
unfoldable pub get_read_pos : IoBuffer → ℕ
get_read_pos b = b.write_pos

unfoldable pub get_write_pos : IoBuffer → ℕ
get_write_pos b = b.read_pos
