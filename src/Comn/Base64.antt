-- ===== src/Comn/Base64.antt =====
-- The class Base64 of comn/src/Base64.cpp. The texts are the characters without the end mark, and
-- a result NULL or -1 is `none`; what `decode` wrote before it returns -1 is left out. The shifts
-- of `encode` are those of an unsigned int; where its `i_shift` is negative in the end, nothing
-- reads it. Of the int `v` of `decode` only the lowest 12 bits are read, so it is taken modulo 2^32.
pub mod Steps
pub mod RoundTrip
pub mod Errors
use mathlib.Core.Option
use dgnss_server.Common.{
  ℕ, zero, suc, ◌+◌, ◌-◌, ◌*◌, ◌/◌, ◌%◌, ◌^◌, Bool, true, false, not, ◌&&◌, ◌||◌, Option, none,
  some, List, [], ◌∷◌, ◌++◌, length, get_or, ltb, leb, ◌==◌, if◌then◌else◌,
}

abbrev pub map2 : List ℕ
map2 =
    0x3e ∷ 0xff ∷ 0xff ∷ 0xff ∷ 0x3f ∷ 0x34 ∷ 0x35 ∷ 0x36 ∷ 0x37 ∷ 0x38 ∷ 0x39 ∷ 0x3a ∷ 0x3b ∷ 0x3c
    ∷ 0x3d ∷ 0xff ∷ 0xff ∷ 0xff ∷ 0xff ∷ 0xff ∷ 0xff ∷ 0xff ∷ 0x00 ∷ 0x01 ∷ 0x02 ∷ 0x03 ∷ 0x04
    ∷ 0x05 ∷ 0x06 ∷ 0x07 ∷ 0x08 ∷ 0x09 ∷ 0x0a ∷ 0x0b ∷ 0x0c ∷ 0x0d ∷ 0x0e ∷ 0x0f ∷ 0x10 ∷ 0x11
    ∷ 0x12 ∷ 0x13 ∷ 0x14 ∷ 0x15 ∷ 0x16 ∷ 0x17 ∷ 0x18 ∷ 0x19 ∷ 0xff ∷ 0xff ∷ 0xff ∷ 0xff ∷ 0xff
    ∷ 0xff ∷ 0x1a ∷ 0x1b ∷ 0x1c ∷ 0x1d ∷ 0x1e ∷ 0x1f ∷ 0x20 ∷ 0x21 ∷ 0x22 ∷ 0x23 ∷ 0x24 ∷ 0x25
    ∷ 0x26 ∷ 0x27 ∷ 0x28 ∷ 0x29 ∷ 0x2a ∷ 0x2b ∷ 0x2c ∷ 0x2d ∷ 0x2e ∷ 0x2f ∷ 0x30 ∷ 0x31 ∷ 0x32
    ∷ 0x33 ∷ []

-- The characters "A" to "Z", "a" to "z", "0" to "9", "+" and "/".
abbrev pub b64_chars : List ℕ
b64_chars =
    65 ∷ 66 ∷ 67 ∷ 68 ∷ 69 ∷ 70 ∷ 71 ∷ 72 ∷ 73 ∷ 74 ∷ 75 ∷ 76 ∷ 77 ∷ 78 ∷ 79 ∷ 80 ∷ 81 ∷ 82 ∷ 83
    ∷ 84 ∷ 85 ∷ 86 ∷ 87 ∷ 88 ∷ 89 ∷ 90 ∷ 97 ∷ 98 ∷ 99 ∷ 100 ∷ 101 ∷ 102 ∷ 103 ∷ 104 ∷ 105 ∷ 106
    ∷ 107 ∷ 108 ∷ 109 ∷ 110 ∷ 111 ∷ 112 ∷ 113 ∷ 114 ∷ 115 ∷ 116 ∷ 117 ∷ 118 ∷ 119 ∷ 120 ∷ 121 ∷ 122
    ∷ 48 ∷ 49 ∷ 50 ∷ 51 ∷ 52 ∷ 53 ∷ 54 ∷ 55 ∷ 56 ∷ 57 ∷ 43 ∷ 47 ∷ []

abbrev pub equals_sign : ℕ
equals_sign = 61

-- The index `in[i] - 43` of type unsigned int.
abbrev pub index : ℕ → ℕ
index c = (c + 2 ^ 32 - 43) % 2 ^ 32

unfoldable pub refused : ℕ → Bool
refused c = leb 80 (index c) || get_or map2 (index c) 0 == 0xff

unfoldable pub next_v : ℕ → ℕ → ℕ
next_v v c = (v * 64 + get_or map2 (index c) 0) % 2 ^ 32

-- The loop of `decode` at the index `i`, with room for `room` bytes: the bytes that it writes.
unfoldable pub decode_loop : List ℕ → ℕ → ℕ → ℕ → Option (List ℕ)
decode_loop [] i v room = some []
decode_loop (c ∷ cs) i v room =
    let v' = next_v v c in
    let byte = v' / 2 ^ (6 - 2 * (i % 4)) % 256 in
    let writes = not (i % 4 == 0) && ltb 0 room in
    let rest = decode_loop cs (i + 1) v' (if writes then room - 1 else room) in
    if c == equals_sign
    then some []
    else if refused c
    then none
    else if writes
    then Option.map (λ (out : List ℕ). byte ∷ out) rest
    else rest

unfoldable pub decode : ℕ → List ℕ → Option (List ℕ)
decode out_size input = decode_loop input 0 0 out_size

unfoldable pub b64 : ℕ → ℕ
b64 i = get_or b64_chars i 0

-- The inner loop of `encode`, of at most three rounds: the characters, and `i_shift`.
unfoldable pub emit : Bool → ℕ → ℕ → ℕ → List ℕ × ℕ
emit is_last zero bits shift = ([], shift)
emit is_last (suc rounds) bits shift =
    let c = b64 (bits * 64 % 2 ^ 32 / 2 ^ shift % 64) in
    let next = shift - 6 in
    let (cs, end) = emit is_last rounds bits next in
    if ltb 6 next || (is_last && ltb 0 next) then (c ∷ cs, end) else (c ∷ [], next)

-- The outer loop of `encode`.
unfoldable pub encode_loop : List ℕ → ℕ → ℕ → List ℕ
encode_loop [] bits shift = []
encode_loop (x ∷ xs) bits shift =
    let bits' = (bits * 256 + x) % 2 ^ 32 in
    let (cs, shift') = emit (length xs == 0) 3 bits' (shift + 8) in
    cs ++ encode_loop xs bits' shift'

-- The loop that fills up to a multiple of four, of at most three rounds.
unfoldable pub pad : ℕ → List ℕ → List ℕ
pad zero out = out
pad (suc rounds) out =
    let longer = pad rounds (out ++ (equals_sign ∷ [])) in
    if length out % 4 == 0 then out else longer

unfoldable pub encode : ℕ → List ℕ → Option (List ℕ)
encode out_size input =
    let in_size = length input in
    if leb (0xffffffff / 4) in_size || ltb out_size ((in_size + 2) / 3 * 4 + 1)
    then none
    else some (pad 3 (encode_loop input 0 0))
