-- ===== src/Double/Defs.antt =====
-- The operations on floating-point numbers, and what IEEE 754 says of those on whole numbers.
use dgnss_server.Common.{ℕ, ◌^◌, ◌≤◌, ◌<◌, ◌≡◌, Bool}
use dgnss_server.Common.Int.{ℤ, pos, pos_part, neg_part, ◌+ℤ◌, ◌-ℤ◌, ◌*ℤ◌, neg_ℤ, ltb_ℤ, leb_ℤ}

pub record Double (F : Type 0) : Type 0 where
  -- (double)n
  pub of_int : ℤ → F
  -- the literal m * 10^e
  pub decimal : ℤ → ℤ → F
  pub add : F → F → F
  pub sub : F → F → F
  pub mul : F → F → F
  pub quo : F → F → F
  pub neg : F → F
  pub fabs : F → F
  pub floor : F → F
  pub sqrt : F → F
  pub fmod : F → F → F
  -- (float)x
  pub single : F → F
  pub lt : F → F → Bool
  pub le : F → F → Bool
  pub eq : F → F → Bool
  -- (int)x, (unsigned int)x and (unsigned char)x
  pub to_int : F → ℤ
  pub to_word : F → ℕ
  pub to_byte : F → ℕ
  -- the double of 64 bits, and the float of 32 bits
  pub of_bits64 : ℕ → F
  pub of_bits32 : ℕ → F

-- The whole numbers that a double holds exactly.
abbrev pub IsExactInt : ℤ → Type 0
IsExactInt z = (pos_part z ≤ 2 ^ 53) × (neg_part z ≤ 2 ^ 53)

-- The integers of 32 bits, to which C converts a double.
abbrev pub IsInt32 : ℤ → Type 0
IsInt32 z = (pos_part z < 2 ^ 31) × (neg_part z ≤ 2 ^ 31)

-- On whole numbers the operations that the time functions use are exact, and the conversion to an
-- int where an int can hold the number.
pub record IsExact (F : Type 0) ⦃d : Double F⦄ : Type 0 where
  pub to_int-of_int : (z : ℤ) → IsInt32 z → d.to_int (d.of_int z) ≡ z
  pub floor-of_int : (z : ℤ) → IsExactInt z → d.floor (d.of_int z) ≡ d.of_int z
  pub add-of_int :
      (a b : ℤ)
      → IsExactInt a
      → IsExactInt b
      → IsExactInt (a +ℤ b)
      → d.add (d.of_int a) (d.of_int b) ≡ d.of_int (a +ℤ b)
  pub sub-of_int :
      (a b : ℤ)
      → IsExactInt a
      → IsExactInt b
      → IsExactInt (a -ℤ b)
      → d.sub (d.of_int a) (d.of_int b) ≡ d.of_int (a -ℤ b)
  pub le-of_int :
      (a b : ℤ) → IsExactInt a → IsExactInt b → d.le (d.of_int a) (d.of_int b) ≡ leb_ℤ a b
  pub lt-of_int :
      (a b : ℤ) → IsExactInt a → IsExactInt b → d.lt (d.of_int a) (d.of_int b) ≡ ltb_ℤ a b
  -- a literal that is a whole number
  pub decimal-of_int :
      (m : ℤ) (e : ℕ)
      → IsExactInt (m *ℤ pos (10 ^ e))
      → d.decimal m (pos e) ≡ d.of_int (m *ℤ pos (10 ^ e))
  -- 0 is left out: its negative is another double
  pub neg-of_int :
      (z : ℤ) → IsExactInt z → (z ≡ pos 0 → ⊥) → d.neg (d.of_int z) ≡ d.of_int (neg_ℤ z)
