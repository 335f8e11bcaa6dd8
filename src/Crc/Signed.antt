-- ===== src/Crc/Signed.antt =====
-- CalCheckSum of AgnssServer/AssistData.c: the checksum of a whole text with `char` signed, in 32
-- bits, next to MxtChkSum_Cal, which keeps one byte.
use dgnss_server.Common.{
  ℕ, zero, suc, ◌+◌, ◌-◌, ◌*◌, ◌/◌, ◌%◌, ◌^◌, ◌<◌, ◌≡◌, refl, ◌∙◌, ap, arith, bit_xor, List, [],
  ◌∷◌, ltb, ◌==◌, if◌then◌else◌, Bool-cases, inl, inr,
}
use dgnss_server.Bits.{byte_at}
use dgnss_server.Crc.{mxt_chk_sum_cal, check_sum_loop}
use dgnss_server.Crc.Xor.{bit_xor_parts, bit_xor-lt}

-- `strlen`.
unfoldable pub str_len : List ℕ → ℕ
str_len [] = 0
str_len (x ∷ xs) = let rest = str_len xs in if x == 0 then 0 else suc rest

-- A `char` converted to unsigned int.
unfoldable pub signed_char : ℕ → ℕ
signed_char c = if ltb c 128 then c else c + (2 ^ 32 - 256)

-- The loop of `CalCheckSum` at index `i`, with `left` characters to go.
unfoldable pub cal_loop : List ℕ → ℕ → ℕ → ℕ → ℕ
cal_loop str zero i sum = sum
cal_loop str (suc left) i sum =
    cal_loop str left (i + 1) (bit_xor sum (signed_char (byte_at str i)))

unfoldable pub cal_check_sum : List ℕ → ℕ
cal_check_sum str = cal_loop str (str_len str) 0 0 % 256

signed_char_low : (c : ℕ) → c < 256 → signed_char c % 256 ≡ c
unfolding signed_char
signed_char_low c h = elim (Bool-cases (ltb c 128)) [
  | inl e ↦ ground (arith, e)
  | inr e ↦ ground (arith, e)
]

low_byte : (a b : ℕ) → bit_xor a b % 256 ≡ bit_xor (a % 256) (b % 256)
low_byte a b =
    let parts : (x : ℕ) → x ≡ x / 256 * 2 ^ 8 + x % 256 = λ (x : ℕ). omega arith in
    let small = bit_xor-lt 8 (a % 256) (b % 256) (omega arith) (omega arith) in
    omega (
      arith,
      small,
      ap (λ (t : ℕ). bit_xor t b) (parts a),
      ap (λ (t : ℕ). bit_xor (a / 256 * 2 ^ 8 + a % 256) t) (parts b),
      bit_xor_parts 8 (a / 256) (a % 256) (b / 256) (b % 256) (omega arith) (omega arith),
    )

cal_loop-check_sum_loop :
    (str : List ℕ) (left i sum : ℕ)
    → ((j : ℕ) → byte_at str j < 256)
    → cal_loop str left i sum % 256 ≡ check_sum_loop str left i (sum % 256)
unfolding cal_loop check_sum_loop
cal_loop-check_sum_loop str zero i sum h = refl
cal_loop-check_sum_loop str (suc left) i sum h =
    let char = signed_char (byte_at str i) in
    let low : char % 256 ≡ byte_at str i = signed_char_low (byte_at str i) (h i) in
    let step : bit_xor sum char % 256 ≡ bit_xor (sum % 256) (byte_at str i) % 256 = omega (
      arith,
      low_byte sum char,
      ap (λ (t : ℕ). bit_xor (sum % 256) t) low,
      bit_xor-lt 8 (sum % 256) (char % 256) (omega arith) (omega arith),
    ) in
    cal_loop-check_sum_loop str left (i + 1) (bit_xor sum char) h
    ∙ ap (λ (t : ℕ). check_sum_loop str left (i + 1) t) step

-- On a text of bytes CalCheckSum is MxtChkSum_Cal of all its characters.
pub cal_check_sum-mxt_chk_sum_cal :
    (str : List ℕ)
    → ((j : ℕ) → byte_at str j < 256)
    → cal_check_sum str ≡ mxt_chk_sum_cal str (str_len str)
unfolding cal_check_sum mxt_chk_sum_cal
cal_check_sum-mxt_chk_sum_cal str h = cal_loop-check_sum_loop str (str_len str) 0 0 h
