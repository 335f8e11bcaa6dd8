-- ===== src/Crc/Division.antt =====
-- crc24q, which goes by bytes through a table, is the division of polynomials by bits.
use dgnss_server.Common.{
  bit_xor, ℕ, zero, suc, ◌+◌, ◌*◌, ◌/◌, ◌%◌, ◌^◌, ◌<◌, ◌≤◌, ◌≡◌, refl, sym, ◌∙◌, ap, ap₂, arith,
  List, [], ◌∷◌, get_or, All, length, true, false, leb, ◌==◌, ==_iff, if◌then◌else◌, dec_lt,
  holds_below, holds_below_lt, pow_pos, pow_double, mul-le-mul_right,
}
use dgnss_server.Crc.{crc24q_step, crc24q_loop, crc24q, tbl_crc24q}
use dgnss_server.Crc.Bounds.{crc24q_step-lt, table_entry}
use dgnss_server.Crc.Xor.{
  bit_xor-lt, bit_xor_comm, bit_xor_parts, bit_xor_double, zero-bit_xor, bit_xor_swap,
}

-- A step of the division by the polynomial 0x1864CFB: its top bit is the one that is shifted out.
unfoldable pub divide_bit : ℕ → ℕ
divide_bit crc = if leb (2 ^ 23) crc then bit_xor (crc * 2 % 2 ^ 24) 0x864CFB else crc * 2

unfoldable pub divide_bits : ℕ → ℕ → ℕ
divide_bits zero crc = crc
divide_bits (suc n) crc = divide_bits n (divide_bit crc)

-- The remainder of a message, whose bytes enter at the top.
unfoldable pub remainder : List ℕ → ℕ → ℕ
remainder [] crc = crc
remainder (x ∷ xs) crc = remainder xs (divide_bits 8 (bit_xor crc (x * 2 ^ 16)))

divide_bit-lt : (a : ℕ) → a < 2 ^ 24 → divide_bit a < 2 ^ 24
unfolding divide_bit
divide_bit-lt a h = elim (dec_lt a (2 ^ 23)) [
  | yes lt ↦ ground arith
  | no ge ↦ ground (arith, bit_xor-lt 24 (a * 2 % 2 ^ 24) 0x864CFB (omega arith) (omega arith))
]

-- The digits of `a` and of a `b` without top bit.
low_parts :
    (a b : ℕ) → a < 2 ^ 24 → b < 2 ^ 23 → bit_xor a b ≡ a / 2 ^ 23 * 2 ^ 23 + bit_xor (a % 2 ^ 23) b
low_parts a b small h =
    let parts : a ≡ a / 2 ^ 23 * 2 ^ 23 + a % 2 ^ 23 = omega arith in
    let none : b ≡ 0 * 2 ^ 23 + b = omega arith in
    ap₂ bit_xor parts none
    ∙ bit_xor_parts 23 (a / 2 ^ 23) (a % 2 ^ 23) 0 b (omega arith) h
    ∙ ap (λ (t : ℕ). t * 2 ^ 23 + bit_xor (a % 2 ^ 23) b)
        (bit_xor_comm 1 (a / 2 ^ 23) 0 (omega arith) (omega arith) ∙ zero-bit_xor (a / 2 ^ 23))

divide_bit-bit_xor :
    (a b : ℕ) → a < 2 ^ 24 → b < 2 ^ 23 → divide_bit (bit_xor a b) ≡ bit_xor (divide_bit a) (b * 2)
unfolding divide_bit
divide_bit-bit_xor a b h k = elim (dec_lt a (2 ^ 23)) [
  | yes lt ↦
      let less : bit_xor a b < 2 ^ 23 = bit_xor-lt 23 a b lt k in
      let test : leb (2 ^ 23) (bit_xor a b) ≡ false = ground arith in
      let test_a : leb (2 ^ 23) a ≡ false = ground arith in
      rw (test, test_a) (sym (bit_xor_double a b))
  | no ge ↦
      let parts = low_parts a b h k in
      let low = a % 2 ^ 23 in
      let top : a / 2 ^ 23 ≡ 1 = omega arith in
      let less : bit_xor low b < 2 ^ 23 = bit_xor-lt 23 low b (omega arith) k in
      let test : leb (2 ^ 23) (bit_xor a b) ≡ true = ground (arith, parts, top, less) in
      let test_a : leb (2 ^ 23) a ≡ true = ground arith in
      let double : bit_xor a b * 2 % 2 ^ 24 ≡ bit_xor (low * 2) (b * 2) =
        omega (arith, bit_xor_double low b) in
      let double_a : a * 2 % 2 ^ 24 ≡ low * 2 = omega arith in
      rw (test, test_a, double, double_a)
        (bit_xor_swap 24 (low * 2) (b * 2) 0x864CFB (omega arith) (omega arith) (omega arith))
]

-- The bits that are not shifted out do not take part.
divide_bits-bit_xor :
    (n a b : ℕ)
    → a < 2 ^ 24
    → b * 2 ^ n < 2 ^ 24
    → divide_bits n (bit_xor a b) ≡ bit_xor (divide_bits n a) (b * 2 ^ n)
unfolding divide_bits
divide_bits-bit_xor zero a b h k =
    let e : b ≡ b * 2 ^ 0 = omega arith in ap (λ (t : ℕ). bit_xor a t) e
divide_bits-bit_xor (suc n) a b h k =
    let shift : b * 2 ^ suc n ≡ b * 2 * 2 ^ n = grind (arith, pow_double n) in
    let less : b * 2 * 1 ≤ b * 2 * 2 ^ n =
      omega (arith, mul-le-mul_right {m = 1} {n = 2 ^ n} (b * 2) (pow_pos n)) in
    ap (divide_bits n) (divide_bit-bit_xor a b h (omega arith))
    ∙ divide_bits-bit_xor n (divide_bit a) (b * 2) (divide_bit-lt a h) (omega arith)
    ∙ ap (λ (t : ℕ). bit_xor (divide_bits n (divide_bit a)) t) (sym shift)

-- The table has the remainders of the 256 bytes.
table_lem : (x : ℕ) → x < 256 → divide_bits 8 (x * 2 ^ 16) ≡ get_or tbl_crc24q x 0
table_lem x h =
    (==_iff (divide_bits 8 (x * 2 ^ 16)) (get_or tbl_crc24q x 0)).0 (
      holds_below_lt 256 (λ (y : ℕ). divide_bits 8 (y * 2 ^ 16) == get_or tbl_crc24q y 0) x tested
        h)
  where
    tested : holds_below 256 (λ (y : ℕ). divide_bits 8 (y * 2 ^ 16) == get_or tbl_crc24q y 0) ≡ true
    tested = unfold holds_below divide_bits divide_bit in refl

crc24q_step_lem :
    (crc x : ℕ)
    → crc < 2 ^ 24
    → x < 256
    → divide_bits 8 (bit_xor crc (x * 2 ^ 16)) ≡ crc24q_step crc x
unfolding crc24q_step
crc24q_step_lem crc x h k =
    let top = crc / 2 ^ 16 in
    let low = crc % 2 ^ 16 in
    let i = bit_xor top x in
    let few : i < 2 ^ 8 = bit_xor-lt 8 top x (omega arith) k in
    let parts : crc ≡ top * 2 ^ 16 + low = omega arith in
    let none : x * 2 ^ 16 ≡ x * 2 ^ 16 + 0 = omega arith in
    let low_none : bit_xor low 0 ≡ low =
      bit_xor_comm 16 low 0 (omega arith) (omega arith) ∙ zero-bit_xor low in
    let zero_i : i * 2 ^ 16 ≡ i * 2 ^ 16 + 0 = omega arith in
    let zero_low : low ≡ 0 * 2 ^ 16 + low = omega arith in
    let i_none : bit_xor i 0 ≡ i = bit_xor_comm 8 i 0 few (omega arith) ∙ zero-bit_xor i in
    let split : bit_xor (i * 2 ^ 16) low ≡ i * 2 ^ 16 + low =
      ap₂ bit_xor zero_i zero_low
      ∙ bit_xor_parts 16 i 0 0 low (omega arith) (omega arith)
      ∙ ap₂ (λ (s t : ℕ). s * 2 ^ 16 + t) i_none (zero-bit_xor low) in
    let shifted : low * 2 ^ 8 ≡ crc * 256 % 2 ^ 24 = omega arith in
    let entry = table_lem i few in
    ap (divide_bits 8) (
      ap₂ bit_xor parts none
      ∙ bit_xor_parts 16 top low x 0 (omega arith) (omega arith)
      ∙ ap (λ (t : ℕ). i * 2 ^ 16 + t) low_none
      ∙ sym split)
    ∙ divide_bits-bit_xor 8 (i * 2 ^ 16) low (omega arith) (omega arith)
    ∙ ap₂ bit_xor entry shifted
    ∙ bit_xor_comm 24 (get_or tbl_crc24q i 0) (crc * 256 % 2 ^ 24) (table_entry i) (omega arith)

crc24q_loop-suc :
    (x : ℕ) (xs : List ℕ) (left i crc : ℕ)
    → crc24q_loop (x ∷ xs) left (suc i) crc ≡ crc24q_loop xs left i crc
unfolding crc24q_loop
crc24q_loop-suc x xs zero i crc = refl
crc24q_loop-suc x xs (suc left) i crc =
    let e : suc i + 1 ≡ suc (i + 1) = omega arith in rw e (crc24q_loop-suc x xs left (i + 1) _)

crc24q_loop_lem :
    (buff : List ℕ) (crc : ℕ)
    → All (λ (x : ℕ). x < 256) buff
    → crc < 2 ^ 24
    → crc24q_loop buff (length buff) 0 crc ≡ remainder buff crc
unfolding crc24q_loop remainder
crc24q_loop_lem [] crc bytes h = refl
crc24q_loop_lem (x ∷ xs) crc bytes h =
    crc24q_loop-suc x xs (length xs) 0 (crc24q_step crc x)
    ∙ crc24q_loop_lem xs (crc24q_step crc x) bytes.1 (crc24q_step-lt crc x)
    ∙ ap (remainder xs) (sym (crc24q_step_lem crc x h bytes.0))

-- The checksum of a list of bytes, which crc24q takes through its table a byte at a time, is the
-- remainder of their bits in the division by the polynomial 0x1864CFB, a bit at a time.
pub crc24q-remainder :
    (buff : List ℕ) → All (λ (x : ℕ). x < 256) buff → crc24q buff (length buff) ≡ remainder buff 0
unfolding crc24q
crc24q-remainder buff bytes = crc24q_loop_lem buff 0 bytes (omega arith)
