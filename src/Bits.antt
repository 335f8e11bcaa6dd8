-- ===== src/Bits.antt =====
-- The bit fields and byte fields of AgnssServer/AssistData.c: setbitu, getbitu, setbits, getbits,
-- exsign, and the little-endian readers U1, U2, U4 and I4. A buffer is the list of its bytes. A
-- read past its end, which C leaves undefined, gives 0, and a write there changes nothing.
-- A bit position, a length and an unsigned value are natural numbers; an `int` is an integer.
pub mod Byte
pub mod Field
pub mod Signed
use dgnss_server.Common.{
  ℕ, zero, suc, ◌+◌, ◌-◌, ◌*◌, ◌/◌, ◌%◌, ◌^◌, bit_and, bit_or, Bool, ◌||◌, not, List, get_or, set,
  ltb, leb, ◌==◌, if◌then◌else◌,
}
use dgnss_server.Common.Int.{ℤ, pos, to_int32, to_word32, ltb_ℤ}

abbrev pub byte_at : List ℕ → ℕ → ℕ
byte_at buff i = get_or buff i 0

-- `1u << (7 - i % 8)`
abbrev pub bit_mask : ℕ → ℕ
bit_mask i = 2 ^ (7 - i % 8)

-- The body of the loop of `setbitu`: `v` is the result of the test `data&mask`.
unfoldable pub set_bit : List ℕ → ℕ → Bool → List ℕ
set_bit buff i v =
    if v
    then set buff (i / 8) (bit_or (byte_at buff (i / 8)) (bit_mask i))
    else set buff (i / 8) (bit_and (byte_at buff (i / 8)) (2 ^ 32 - 1 - bit_mask i))

-- The loop of `setbitu`, with `left` rounds to go. `mask` has one bit, so that `data&mask` is not
-- 0 when that digit of `data` is 1.
unfoldable pub write_bits : ℕ → ℕ → ℕ → ℕ → List ℕ → List ℕ
write_bits zero i mask value buff = buff
write_bits (suc left) i mask value buff =
    write_bits left (i + 1) (mask / 2) value (set_bit buff i (value / mask % 2 == 1))

-- `setbitu`: a length of 0 or above 32 writes nothing.
unfoldable pub setbitu : List ℕ → ℕ → ℕ → ℕ → List ℕ
setbitu buff p len value =
    if (len == 0) || ltb 32 len then buff else write_bits len p (2 ^ (len - 1)) value buff

-- `(buff[i / 8] >> (7 - i % 8)) & 1u`
abbrev pub bit_at : List ℕ → ℕ → ℕ
bit_at buff i = byte_at buff (i / 8) / bit_mask i % 2

-- The loop of `getbitu`, with `left` rounds to go.
unfoldable pub read_bits : ℕ → ℕ → ℕ → List ℕ → ℕ
read_bits zero i bits buff = bits
read_bits (suc left) i bits buff =
    read_bits left (i + 1) ((bits * 2 % 2 ^ 32 + bit_at buff i) % 2 ^ 32) buff

unfoldable pub getbitu : List ℕ → ℕ → ℕ → ℕ
getbitu buff p len = read_bits len p 0 buff

-- `(int)(bits | (~0u << len))`, for a `len` below 32.
abbrev pub extend_sign : ℕ → ℕ → ℤ
extend_sign bits len = to_int32 (bit_or bits ((2 ^ 32 - 1) * 2 ^ len % 2 ^ 32))

unfoldable pub getbits : List ℕ → ℕ → ℕ → ℤ
getbits buff p len =
    let bits = getbitu buff p len in
    if (len == 0) || leb 32 len || not (bits / 2 ^ (len - 1) % 2 == 1)
    then to_int32 bits
    else extend_sign bits len

-- `setbits` with a `len` from 1 to 32, as its callers have it.
unfoldable pub setbits : List ℕ → ℕ → ℕ → ℤ → List ℕ
setbits buff p len value = setbitu buff p len (
    if ltb_ℤ value (pos 0)
    then bit_or (to_word32 value) (2 ^ (len - 1))
    else bit_and (to_word32 value) (2 ^ 32 - 1 - 2 ^ (len - 1)))

-- `exsign` with a `bits` from 1 to 31, as its caller has it.
unfoldable pub exsign : ℕ → ℕ → ℤ
exsign v bits = if v / 2 ^ (bits - 1) % 2 == 1 then extend_sign v bits else to_int32 v

-- The fields of a receiver message, in the byte order of the machine, least byte first.
unfoldable pub u1 : List ℕ → ℕ → ℕ
u1 = byte_at

unfoldable pub u2 : List ℕ → ℕ → ℕ
u2 buff p = byte_at buff p + 256 * byte_at buff (p + 1)

unfoldable pub u4 : List ℕ → ℕ → ℕ
u4 buff p = u2 buff p + 65536 * u2 buff (p + 2)

unfoldable pub i4 : List ℕ → ℕ → ℤ
i4 buff p = to_int32 (u4 buff p)

-- The 64 bits that R8 reads.
unfoldable pub u8 : List ℕ → ℕ → ℕ
u8 buff p = u4 buff p + 2 ^ 32 * u4 buff (p + 4)
