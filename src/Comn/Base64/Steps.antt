-- ===== src/Comn/Base64/Steps.antt =====
-- How `encode` and `decode` go on by a byte, and by a character.
use dgnss_server.Common.{
  ℕ, suc, ◌+◌, ◌-◌, ◌*◌, ◌/◌, ◌%◌, ◌^◌, ◌<◌, ◌≡◌, refl, arith, Bool, true, false, not, ◌&&◌, some,
  List, [], ◌∷◌, length, get_or, ltb, ◌==◌, ==_iff, holds_below, holds_below_lt,
}
use dgnss_server.Comn.Base64.{
  map2, equals_sign, index, refused, next_v, decode_loop, b64, emit, encode_loop,
}

-- Each character of `encode` is read as its place in the table.
abbrev pub is_read : ℕ → Bool
is_read k =
    not (b64 k == equals_sign) && not (refused (b64 k)) && (get_or map2 (index (b64 k)) 0 == k)

all_read : holds_below 64 is_read ≡ true
all_read = unfold b64 refused holds_below in refl

module _ (k : ℕ) (h : k < 64) where
  read_char : is_read k ≡ true
  read_char = holds_below_lt 64 is_read k all_read h

  no_end : (b64 k == equals_sign) ≡ false
  no_end = ground (arith, read_char)

  not_refused : refused (b64 k) ≡ false
  not_refused = ground (arith, read_char)

  next_v-b64 : (v : ℕ) → next_v v (b64 k) ≡ (v * 64 + k) % 2 ^ 32
  unfolding next_v
  next_v-b64 v =
      let e = (==_iff (get_or map2 (index (b64 k)) 0) k).0 (ground (arith, read_char)) in rw e

  module _ (cs out : List ℕ) (i v room : ℕ) where
    -- A character that completes no byte, and one that does.
    pub silent :
        i % 4 ≡ 0
        → decode_loop cs (i + 1) ((v * 64 + k) % 2 ^ 32) room ≡ some out
        → decode_loop (b64 k ∷ cs) i v room ≡ some out
    unfolding decode_loop
    silent first rest = rw (no_end, not_refused, next_v-b64 v, first) rest

    pub writing :
        (j : ℕ)
        → i % 4 ≡ suc j
        → decode_loop cs (i + 1) ((v * 64 + k) % 2 ^ 32) room ≡ some out
        → decode_loop (b64 k ∷ cs) i v (suc room)
          ≡ some ((v * 64 + k) % 2 ^ 32 / 2 ^ (6 - 2 * suc j) % 256 ∷ out)
    unfolding decode_loop
    writing j later rest =
        let less : suc room - 1 ≡ room = omega arith in
        let test : (suc j == 0) ≡ false = ground arith in
        let has_room : ltb 0 (suc room) ≡ true = ground arith in
        rw (no_end, not_refused, next_v-b64 v, later, test, has_room, less, rest) refl

-- `i_bits` after a byte, and the six bits that a character takes from it.
abbrev pub bits_after : ℕ → ℕ → ℕ
bits_after bits x = (bits * 256 + x) % 2 ^ 32

abbrev pub sextet : ℕ → ℕ → ℕ
sextet bits shift = bits * 64 % 2 ^ 32 / 2 ^ shift % 64

-- What `encode` still writes where `shift` bits of the last byte are left.
abbrev pub rest_text : ℕ → ℕ → List ℕ → List ℕ
rest_text shift bits [] = b64 (sextet bits shift) ∷ []
rest_text shift bits (x ∷ xs) = encode_loop (x ∷ xs) bits shift

pub encode_0 :
    (x : ℕ) (xs : List ℕ) (bits : ℕ)
    → let b = bits_after bits x in encode_loop (x ∷ xs) bits 0 ≡ b64 (sextet b 8) ∷ rest_text 2 b xs
unfolding encode_loop emit
encode_0 x [] bits = refl
encode_0 x (y ∷ xs) bits = let test : (length (y ∷ xs) == 0) ≡ false = ground arith in rw test refl

pub encode_2 :
    (x : ℕ) (xs : List ℕ) (bits : ℕ)
    → let b = bits_after bits x in
      encode_loop (x ∷ xs) bits 2 ≡ b64 (sextet b 10) ∷ rest_text 4 b xs
unfolding encode_loop emit
encode_2 x [] bits = refl
encode_2 x (y ∷ xs) bits = let test : (length (y ∷ xs) == 0) ≡ false = ground arith in rw test refl

pub encode_4 :
    (x : ℕ) (xs : List ℕ) (bits : ℕ)
    → let b = bits_after bits x in
      encode_loop (x ∷ xs) bits 4 ≡ b64 (sextet b 12) ∷ rest_text 6 b xs
unfolding encode_loop emit
encode_4 x [] bits = refl
encode_4 x (y ∷ xs) bits = let test : (length (y ∷ xs) == 0) ≡ false = ground arith in rw test refl

pub encode_6 :
    (x : ℕ) (xs : List ℕ) (bits : ℕ)
    → let b = bits_after bits x in
      encode_loop (x ∷ xs) bits 6 ≡ b64 (sextet b 14) ∷ b64 (sextet b 8) ∷ rest_text 2 b xs
unfolding encode_loop emit
encode_6 x [] bits = refl
encode_6 x (y ∷ xs) bits = let test : (length (y ∷ xs) == 0) ≡ false = ground arith in rw test refl

-- `decode` at the index `i`, where `encode` has `shift` bits of the last byte left and `decode`
-- has not written this byte.
pub record Follows (shift bits i v : ℕ) : Type 0 where
  pub phase : i % 4 ≡ shift / 2
  pub agree : v % 4096 ≡ bits / 2 ^ shift % 4096

abbrev pub v_after : ℕ → ℕ → ℕ
v_after v k = (v * 64 + k) % 2 ^ 32

module _ (x : ℕ) (byte : x < 256) (bits i v : ℕ) where
  abbrev pub b : ℕ
  b = bits_after bits x

  pub step_0 :
      i % 4 ≡ 0 → Follows 2 (bits_after 0 x) (i + 1) (v_after 0 (sextet (bits_after 0 x) 8))
  step_0 h = record { phase = omega arith; agree = omega arith }

  pub step_2 : Follows 2 bits i v → Follows 4 b (i + 1) (v_after v (sextet b 10))
  step_2 f = record { phase = omega (arith, f); agree = omega (arith, f) }

  pub step_4 : Follows 4 bits i v → Follows 6 b (i + 1) (v_after v (sextet b 12))
  step_4 f = record { phase = omega (arith, f); agree = omega (arith, f) }

  pub step_6 :
      Follows 6 bits i v → Follows 2 b (i + 1 + 1) (v_after (v_after v (sextet b 14)) (sextet b 8))
  step_6 f = record { phase = omega (arith, f); agree = omega (arith, f) }

  pub written_2 : Follows 2 bits i v → v_after v (sextet b 10) / 2 ^ (6 - 2 * 1) % 256 ≡ bits % 256
  written_2 f = omega (arith, f)

  pub written_4 : Follows 4 bits i v → v_after v (sextet b 12) / 2 ^ (6 - 2 * 2) % 256 ≡ bits % 256
  written_4 f = omega (arith, f)

  pub written_6 : Follows 6 bits i v → v_after v (sextet b 14) / 2 ^ (6 - 2 * 3) % 256 ≡ bits % 256
  written_6 f = omega (arith, f)

  pub last_byte : b % 256 ≡ x
  last_byte = omega arith
