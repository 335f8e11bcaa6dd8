-- ===== src/Bits/Signed.antt =====
-- Signed fields: getbits returns what setbits wrote, and exsign what a narrow field stands for.
use native.Mathlib.Nat.{div-eq_of_lt-le, mul-add-mod_self_right}
use dgnss_server.Common.{
  ℕ, suc, ◌+◌, ◌-◌, ◌*◌, ◌/◌, ◌%◌, ◌^◌, ◌≤◌, ◌<◌, bit_and, bit_or, List, length, ◌≡◌, sym, ap, ◌∙◌,
  arith, if◌then◌else◌, pow_pos, pow_double, pow_add, pow_mono, mod-eq_of_lt,
}
use dgnss_server.Common.Int.{ℤ, pos, negsuc, pos_part, neg_part, to_int32, to_word32, ltb_ℤ}
use dgnss_server.Common.Digits.{bit_or_present, bit_and_absent, bit_or_disjoint}
use dgnss_server.Bits.{getbitu, getbits, setbits, exsign, extend_sign}
use dgnss_server.Bits.Byte.{IsBytes}
use dgnss_server.Bits.Field.{getbitu-setbitu}

-- The integers of `len` bits in two's complement.
abbrev pub Fits : ℕ → ℤ → Type 0
Fits len value = (pos_part value < 2 ^ (len - 1)) × (neg_part value ≤ 2 ^ (len - 1))

-- The lengths 1 to 32 as 2 ^ (len - 1) = half, and 2 ^ 32 = (more + 1) * (2 * half).
record IsWidth (len half more : ℕ) : Type 0 where
  whole_is : 2 * half ≡ 2 ^ len
  half_pos : 1 ≤ half
  word_is : (more + 1) * (2 * half) ≡ 2 ^ 32

width : (len : ℕ) → 0 < len → len ≤ 32 → IsWidth len (2 ^ (len - 1)) (2 ^ (32 - len) - 1)
width len lo hi =
    let up : len ≡ suc (len - 1) = omega arith in
    let whole : 2 * 2 ^ (len - 1) ≡ 2 ^ len =
      sym (ap (λ (n : ℕ). 2 ^ n) up ∙ pow_double (len - 1)) in
    let total : 32 ≡ 32 - len + len = omega arith in
    let back : 2 ^ (32 - len) - 1 + 1 ≡ 2 ^ (32 - len) = omega (arith, pow_pos (32 - len)) in
    record {
      whole_is = whole;
      half_pos = pow_pos (len - 1);
      word_is = rw (whole, back) (sym (ap (λ (n : ℕ). 2 ^ n) total ∙ pow_add (32 - len) len));
    }

module _ (len half more : ℕ) (w : IsWidth len half more) (n : ℕ) (small : n < half) where
  -- The digit `half` of the pattern of -(n + 1).
  negative_digit : (2 ^ 32 - 1 - n) / half % 2 ≡ 1
  negative_digit =
      let q : (2 ^ 32 - 1 - n) / half ≡ 2 * more + 1 =
        div-eq_of_lt-le half (omega (arith, w.word_is)) (omega (arith, w.word_is)) in
      omega arith

  negative_low : (2 ^ 32 - 1 - n) % (2 * half) ≡ 2 * half - 1 - n
  negative_low =
      let split : 2 ^ 32 - 1 - n ≡ more * (2 * half) + (2 * half - 1 - n) =
        omega (arith, w.word_is) in
      rw split
        (mul-add-mod_self_right more (2 * half) (2 * half - 1 - n) ∙ mod-eq_of_lt (omega arith))

  low_digit : (2 * half - 1 - n) / half % 2 ≡ 1
  low_digit =
      let q : (2 * half - 1 - n) / half ≡ 1 = div-eq_of_lt-le half (omega arith) (omega arith) in
      omega arith

  extended : (2 ^ 32 - 1) * 2 ^ len % 2 ^ 32 ≡ more * 2 ^ len
  extended = omega (arith, w.word_is, w.half_pos, w.whole_is, ap (λ (t : ℕ). more * t) w.whole_is)

  -- Sign extension turns the low digits of the pattern into the whole pattern.
  pattern : bit_or (2 * half - 1 - n) (more * 2 ^ len) ≡ 2 ^ 32 - 1 - n
  pattern =
      bit_or_disjoint len more (2 * half - 1 - n) (omega (arith, w.whole_is, w.half_pos))
      ∙ omega (arith, w.word_is, ap (λ (t : ℕ). more * t) w.whole_is)

  to_int32-negative : to_int32 (2 ^ 32 - 1 - n) ≡ negsuc n
  to_int32-negative = ground (arith, w.word_is, w.half_pos)

  extend_sign-negative : extend_sign (2 * half - 1 - n) len ≡ negsuc n
  extend_sign-negative = rw (extended, pattern) to_int32-negative

-- The word that `setbits` hands to `setbitu`.
abbrev pub signed_word : ℕ → ℤ → ℕ
signed_word len value =
    if ltb_ℤ value (pos 0)
    then bit_or (to_word32 value) (2 ^ (len - 1))
    else bit_and (to_word32 value) (2 ^ 32 - 1 - 2 ^ (len - 1))

module _ (len : ℕ) (lo : 0 < len) (hi : len ≤ 32) where
  abbrev half : ℕ
  half = 2 ^ (len - 1)

  half-le : half ≤ 2 ^ 31
  half-le = pow_mono (len - 1) 31 (omega arith)

  signed_word-pos : (n : ℕ) → n < half → signed_word len (pos n) ≡ n
  signed_word-pos n small =
      let same : n % 2 ^ 32 ≡ n = omega (arith, half-le) in
      let absent : n / half ≡ 0 = div-eq_of_lt-le half (omega arith) (omega arith) in
      rw same (
        ground (
          arith,
          bit_and_absent 32 (len - 1) n (omega (arith, half-le)) (omega arith) (omega arith),
        ))

  signed_word-negsuc : (n : ℕ) → n < half → signed_word len (negsuc n) ≡ 2 ^ 32 - 1 - n
  signed_word-negsuc n small =
      let same : n % 2 ^ 32 ≡ n = omega (arith, half-le) in
      rw same (
        ground (
          arith,
          bit_or_present 32 (len - 1) (2 ^ 32 - 1 - n) (omega arith) (omega arith)
              (negative_digit len half _ (width len lo hi) n small),
        ))

  -- `getbits` of a field with the bits of a small number.
  getbits_pos :
      (buff : List ℕ) (p n : ℕ) → n < half → getbitu buff p len ≡ n → getbits buff p len ≡ pos n
  unfolding getbits
  getbits_pos buff p n small e =
      let absent : n / half ≡ 0 = div-eq_of_lt-le half (omega arith) (omega arith) in
      rw e (ground (arith, half-le))

  getbits_negsuc :
      (buff : List ℕ) (p n : ℕ)
      → n < half
      → getbitu buff p len ≡ 2 * half - 1 - n
      → getbits buff p len ≡ negsuc n
  unfolding getbits
  getbits_negsuc buff p n small e = rw e (
      ground (
        arith,
        low_digit len half _ (width len lo hi) n small,
        extend_sign-negative len half _ (width len lo hi) n small,
        to_int32-negative len half _ (width len lo hi) n small,
        ap (λ (t : ℕ). 2 ^ t) {x = len} {y = 32},
        (width len lo hi).whole_is,
      ))

  -- `getbits` of a field with the low bits of the word of an integer that fits.
  pub getbits_word :
      (buff : List ℕ) (p : ℕ) (value : ℤ)
      → Fits len value
      → getbitu buff p len ≡ signed_word len value % 2 ^ len
      → getbits buff p len ≡ value
  getbits_word buff p (pos n) range e = getbits_pos _ p n range.0 (
      e ∙ rw (signed_word-pos n range.0, ← (width len lo hi).whole_is) (mod-eq_of_lt (omega arith)))
  getbits_word buff p (negsuc n) range e = getbits_negsuc _ p n range.1 (
      e
      ∙ rw (signed_word-negsuc n range.1, ← (width len lo hi).whole_is)
          (negative_low len half _ (width len lo hi) n range.1))

  -- Inside the buffer, `getbits` returns the integer that `setbits` wrote, if the field's length
  -- is 1 to 32 and can hold it.
  getbits-setbits :
      (buff : List ℕ) (p : ℕ) (value : ℤ)
      → IsBytes buff
      → p + len ≤ 8 * length buff
      → Fits len value
      → getbits (setbits buff p len value) p len ≡ value
  unfolding setbits
  getbits-setbits buff p value bytes fits range =
      getbits_word _ p value range (getbitu-setbitu buff p len _ bytes fits hi)

-- `exsign` reads a field of 1 to 31 bits as two's complement: the low half stands for itself, and
-- the high half for the negative numbers.
pub exsign_lem :
    (len n : ℕ) (lo : 0 < len) (hi : len < 32)
    → n < 2 ^ (len - 1)
    → (exsign n len ≡ pos n) × (exsign (2 * 2 ^ (len - 1) - 1 - n) len ≡ negsuc n)
unfolding exsign
exsign_lem len n lo hi small =
    let w = width len lo (omega arith) in
    let absent : n / 2 ^ (len - 1) ≡ 0 =
      div-eq_of_lt-le (2 ^ (len - 1)) (omega arith) (omega arith) in
    (
      ground (arith, half-le len lo (omega arith)),
      ground (arith, low_digit len _ _ w n small, extend_sign-negative len _ _ w n small),
    )
