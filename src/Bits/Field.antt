-- ===== src/Bits/Field.antt =====
-- Unsigned fields: what setbitu writes, getbitu reads, and no other bit changes.
use dgnss_server.Common.{
  ℕ, zero, suc, ◌+◌, ◌-◌, ◌*◌, ◌/◌, ◌%◌, ◌^◌, ◌≤◌, ◌<◌, ◌||◌, List, length, ltb, ◌==◌, ◌≡◌, refl,
  sym, ap, ◌∙◌, ◌⊎◌, inl, inr, arith, pow_pos, pow_double, pow_mono, mod-pow-suc, mul-le-mul_right,
  Bool-cases, ℕ_discrete,
}
use dgnss_server.Bits.{set_bit, bit_at, write_bits, setbitu, read_bits, getbitu}
use dgnss_server.Bits.Byte.{
  IsBytes, length-set_bit, set_bit-IsBytes, bit_at-set_bit_self, bit_at-set_bit_ne,
}

-- The value of the `n` bits from `i` on, first bit highest.
abbrev pub field : List ℕ → ℕ → ℕ → ℕ
field buff i zero = 0
field buff i (suc n) = bit_at buff i * 2 ^ n + field buff (i + 1) n

pub field-lt : (buff : List ℕ) (i n : ℕ) → field buff i n < 2 ^ n
field-lt buff i zero = omega arith
field-lt buff i (suc n) = omega (
  arith,
  mul-le-mul_right {m = bit_at buff i} {n = 1} (2 ^ n) (omega arith),
  field-lt buff (i + 1) n,
  pow_double n,
)

read_bits-eq :
    (buff : List ℕ) (n i acc : ℕ)
    → acc * 2 ^ n + field buff i n < 2 ^ 32
    → read_bits n i acc buff ≡ acc * 2 ^ n + field buff i n
unfolding read_bits
read_bits-eq buff zero i acc h = omega arith
read_bits-eq buff (suc n) i acc h =
    let b : ℕ = bit_at buff i in
    let grown : acc * 2 ^ suc n ≡ acc * (2 * 2 ^ n) = ap (λ (t : ℕ). acc * t) (pow_double n) in
    let small : acc * 2 + b < 2 ^ 32 =
      omega (arith, mul-le-mul_right {m = 1} {n = 2 ^ n} (acc * 2 + b) (pow_pos n)) in
    let same : (acc * 2 % 2 ^ 32 + b) % 2 ^ 32 ≡ acc * 2 + b = omega arith in
    rw same (read_bits-eq buff n (i + 1) (acc * 2 + b) (omega arith) ∙ omega arith)

-- Up to 32 bits, `getbitu` returns the value of the field.
pub getbitu-eq : (buff : List ℕ) (p len : ℕ) → len ≤ 32 → getbitu buff p len ≡ field buff p len
unfolding getbitu
getbitu-eq buff p len h =
    let small : field buff p len < 2 ^ 32 = omega (arith, field-lt buff p len, pow_mono len 32 h) in
    read_bits-eq buff len p 0 (omega arith) ∙ omega arith

-- Fields are equal where their bits are.
pub field_ext :
    (xs ys : List ℕ) (i n : ℕ)
    → ((j : ℕ) → i ≤ j → j < i + n → bit_at xs j ≡ bit_at ys j)
    → field xs i n ≡ field ys i n
field_ext xs ys i zero h = refl
field_ext xs ys i (suc n) h = rw (
  h i (omega arith) (omega arith),
  field_ext xs ys (i + 1) n (λ j p q. h j (omega arith) (omega arith)),
)

module _ (value : ℕ) where
  pub length-write_bits :
      (n i mask : ℕ) (buff : List ℕ) → length (write_bits n i mask value buff) ≡ length buff
  unfolding write_bits
  length-write_bits zero i mask buff = refl
  length-write_bits (suc n) i mask buff =
      length-write_bits n (i + 1) (mask / 2) _ ∙ length-set_bit buff i _

  pub write_bits-IsBytes :
      (n i mask : ℕ) (buff : List ℕ) → IsBytes buff → IsBytes (write_bits n i mask value buff)
  unfolding write_bits
  write_bits-IsBytes zero i mask buff h = h
  write_bits-IsBytes (suc n) i mask buff h =
      write_bits-IsBytes n (i + 1) (mask / 2) _ (set_bit-IsBytes buff i _ h)

  write_bits-outside :
      (n i mask j : ℕ) (buff : List ℕ)
      → IsBytes buff
      → i + n ≤ 8 * length buff
      → (j < i) ⊎ (i + n ≤ j)
      → bit_at (write_bits n i mask value buff) j ≡ bit_at buff j
  unfolding write_bits
  write_bits-outside zero i mask j buff h fits out = refl
  write_bits-outside (suc n) i mask j buff h fits out =
      let v = value / mask % 2 == 1 in
      write_bits-outside n (i + 1) (mask / 2) j (set_bit buff i v) (set_bit-IsBytes buff i v h)
        (rw (length-set_bit buff i v) (omega arith)) (omega arith)
      ∙ bit_at-set_bit_ne buff i j v h (omega arith) (omega arith)

  field-write_bits :
      (n i mask : ℕ) (buff : List ℕ)
      → IsBytes buff
      → i + n ≤ 8 * length buff
      → mask ≡ 2 ^ n / 2
      → field (write_bits n i mask value buff) i n ≡ value % 2 ^ n
  unfolding write_bits
  field-write_bits zero i mask buff h fits e = omega arith
  field-write_bits (suc n) i mask buff h fits e =
      let is_pow : mask ≡ 2 ^ n = omega (arith, pow_double n) in
      let v = value / mask % 2 == 1 in
      let buff' = set_bit buff i v in
      let h' = set_bit-IsBytes buff i v h in
      let fits' : i + 1 + n ≤ 8 * length buff' = rw (length-set_bit buff i v) (omega arith) in
      let first = write_bits-outside n (i + 1) (mask / 2) i buff' h' fits' (inl (omega arith)) in
      let rest =
        field-write_bits n (i + 1) (mask / 2) buff' h' fits' (ap (λ (t : ℕ). t / 2) is_pow) in
      rw (first, rest, bit_at-set_bit_self buff i v h (omega arith))
        (rw is_pow (ground (arith, mod-pow-suc value n)))

module _ (buff : List ℕ) (p len value : ℕ) where
  pub length-setbitu : length (setbitu buff p len value) ≡ length buff
  unfolding setbitu
  length-setbitu = ground (arith, length-write_bits value len p (2 ^ (len - 1)) buff)

  module _ (bytes : IsBytes buff) where
    pub setbitu-IsBytes : IsBytes (setbitu buff p len value)
    unfolding setbitu
    setbitu-IsBytes = elim (Bool-cases ((len == 0) || ltb 32 len)) [
      | inl e ↦ rw e bytes
      | inr e ↦ rw e (write_bits-IsBytes value len p (2 ^ (len - 1)) buff bytes)
    ]

    pub bit_at-setbitu :
        (j : ℕ)
        → p + len ≤ 8 * length buff
        → (j < p) ⊎ (p + len ≤ j)
        → bit_at (setbitu buff p len value) j ≡ bit_at buff j
    unfolding setbitu
    bit_at-setbitu j fits out = elim (Bool-cases ((len == 0) || ltb 32 len)) [
      | inl e ↦ rw e
      | inr e ↦ rw e (write_bits-outside value len p (2 ^ (len - 1)) j buff bytes fits out)
    ]

    module _ (fits : p + len ≤ 8 * length buff) (short : len ≤ 32) where
      setbitu-eq : 0 < len → setbitu buff p len value ≡ write_bits len p (2 ^ (len - 1)) value buff
      unfolding setbitu
      setbitu-eq some_bits = ground arith

      half_power : 0 < len → 2 ^ (len - 1) ≡ 2 ^ len / 2
      half_power some_bits =
          let e : len ≡ suc (len - 1) = omega arith in
          let double : 2 ^ len ≡ 2 * 2 ^ (len - 1) =
            ap (λ (n : ℕ). 2 ^ n) e ∙ pow_double (len - 1) in
          omega arith

      pub field-setbitu : field (setbitu buff p len value) p len ≡ value % 2 ^ len
      field-setbitu = elim (ℕ_discrete len 0) [
        | yes e ↦ rw e (omega arith)
        | no ne ↦ rw (setbitu-eq (omega arith)) (
            field-write_bits value len p (2 ^ (len - 1)) buff bytes fits (half_power (omega arith)))
      ]

      -- Inside the buffer, `getbitu` returns what `setbitu` wrote, cut to the field's length.
      pub getbitu-setbitu : getbitu (setbitu buff p len value) p len ≡ value % 2 ^ len
      getbitu-setbitu = getbitu-eq _ p len short ∙ field-setbitu

    -- A field that shares no bit with the one that is written keeps its value.
    pub getbitu-setbitu_ne :
        (q n : ℕ)
        → p + len ≤ 8 * length buff
        → n ≤ 32
        → (q + n ≤ p) ⊎ (p + len ≤ q)
        → getbitu (setbitu buff p len value) q n ≡ getbitu buff q n
    getbitu-setbitu_ne q n fits short apart =
        getbitu-eq _ q n short
        ∙ field_ext (setbitu buff p len value) buff q n
            (λ j lo hi. bit_at-setbitu j fits (omega arith))
        ∙ sym (getbitu-eq buff q n short)

-- `getbitu` of up to 32 bits stays below the power of its length.
pub getbitu-lt : (buff : List ℕ) (p len : ℕ) → len ≤ 32 → getbitu buff p len < 2 ^ len
getbitu-lt buff p len short = rw (getbitu-eq buff p len short) (field-lt buff p len)
