-- ===== src/Crc/Xor.antt =====
-- The laws of the exclusive or that the checksums need, by binary digits.
use Prim.Native.Nat.{
  ℕ, zero, suc, ◌+◌, ◌*◌, ◌/◌, ◌%◌, ◌^◌, ◌<◌, ◌≤◌, bit_xor, bit_xor-bitwise, differ,
}
use mathlib.Core.Path.{◌≡◌, refl, sym, ◌∙◌, ap, ap₂}
use dgnss_server.Common.{arith, pow_double}
use dgnss_server.Common.Digits.{bitwise_digit}

bit_xor_digit : (a b : ℕ) → bit_xor a b ≡ bit_xor (a / 2) (b / 2) * 2 + differ (a % 2) (b % 2)
bit_xor_digit zero b = simp bit_xor-bitwise (absurd_digit b)
  where
    digit : (r : ℕ) → r < 2 → differ 0 r ≡ r
    digit zero h = refl
    digit (suc zero) h = refl
    digit (suc (suc r)) h = absurd (omega arith)

    absurd_digit : (b : ℕ) → b ≡ b / 2 * 2 + differ 0 (b % 2)
    absurd_digit b = omega (arith, digit (b % 2) (omega arith))
bit_xor_digit (suc a) b = simp bit_xor-bitwise (bitwise_digit (λ y. y) differ a b)

differ-le : (x y : ℕ) → x < 2 → y < 2 → differ x y ≤ 1
differ-le zero zero h k = omega arith
differ-le zero (suc zero) h k = omega arith
differ-le (suc zero) zero h k = omega arith
differ-le (suc zero) (suc zero) h k = omega arith
differ-le zero (suc (suc y)) h k = absurd (omega arith)
differ-le (suc zero) (suc (suc y)) h k = absurd (omega arith)
differ-le (suc (suc x)) y h k = absurd (omega arith)

pub bit_xor-lt : (n a b : ℕ) → a < 2 ^ n → b < 2 ^ n → bit_xor a b < 2 ^ n
bit_xor-lt zero zero zero h k = omega arith
bit_xor-lt zero (suc a) b h k = absurd (omega arith)
bit_xor-lt zero zero (suc b) h k = absurd (omega arith)
bit_xor-lt (suc n) a b h k = omega (
  arith,
  bit_xor_digit a b,
  differ-le (a % 2) (b % 2) (omega arith) (omega arith),
  pow_double n,
  bit_xor-lt n (a / 2) (b / 2) (omega (arith, pow_double n)) (omega (arith, pow_double n)),
)

differ-sum : (x y : ℕ) → x < 2 → y < 2 → differ x y ≡ (x + y) % 2
differ-sum zero zero h k = refl
differ-sum zero (suc zero) h k = refl
differ-sum (suc zero) zero h k = refl
differ-sum (suc zero) (suc zero) h k = refl
differ-sum zero (suc (suc y)) h k = absurd (omega arith)
differ-sum (suc zero) (suc (suc y)) h k = absurd (omega arith)
differ-sum (suc (suc x)) y h k = absurd (omega arith)

-- The binary digits above the lowest one, and the lowest one.
pub bit_xor_half : (a b : ℕ) → bit_xor a b / 2 ≡ bit_xor (a / 2) (b / 2)
bit_xor_half a b =
    omega (arith, bit_xor_digit a b, differ-sum (a % 2) (b % 2) (omega arith) (omega arith))

pub bit_xor_low : (a b : ℕ) → bit_xor a b % 2 ≡ (a + b) % 2
bit_xor_low a b =
    omega (arith, bit_xor_digit a b, differ-sum (a % 2) (b % 2) (omega arith) (omega arith))

pub zero-bit_xor : (b : ℕ) → bit_xor 0 b ≡ b
zero-bit_xor b = simp bit_xor-bitwise

pub bit_xor_comm : (n a b : ℕ) → a < 2 ^ n → b < 2 ^ n → bit_xor a b ≡ bit_xor b a
bit_xor_comm zero a b h k =
    let zero_a : a ≡ 0 = omega arith in let zero_b : b ≡ 0 = omega arith in rw (zero_a, zero_b)
bit_xor_comm (suc n) a b h k = omega (
  arith,
  bit_xor_half a b,
  bit_xor_low a b,
  bit_xor_half b a,
  bit_xor_low b a,
  bit_xor_comm n (a / 2) (b / 2) (omega (arith, pow_double n)) (omega (arith, pow_double n)),
)

pub bit_xor_assoc :
    (n a b c : ℕ)
    → a < 2 ^ n
    → b < 2 ^ n
    → c < 2 ^ n
    → bit_xor (bit_xor a b) c ≡ bit_xor a (bit_xor b c)
bit_xor_assoc zero a b c h k l =
    let zero_a : a ≡ 0 = omega arith in
    let zero_b : b ≡ 0 = omega arith in rw (zero_a, zero_b, zero-bit_xor c) (sym (zero-bit_xor c))
bit_xor_assoc (suc n) a b c h k l = omega (
  arith,
  bit_xor_half (bit_xor a b) c,
  ap (λ (t : ℕ). bit_xor t (c / 2)) (bit_xor_half a b),
  bit_xor_low (bit_xor a b) c,
  bit_xor_low a b,
  bit_xor_half a (bit_xor b c),
  ap (λ (t : ℕ). bit_xor (a / 2) t) (bit_xor_half b c),
  bit_xor_low a (bit_xor b c),
  bit_xor_low b c,
  bit_xor_assoc n (a / 2) (b / 2) (c / 2) (omega (arith, pow_double n))
      (omega (arith, pow_double n)) (omega (arith, pow_double n)),
)

-- The digits from the digit `k` on, and those below it.
pub bit_xor_parts :
    (k h l g m : ℕ)
    → l < 2 ^ k
    → m < 2 ^ k
    → bit_xor (h * 2 ^ k + l) (g * 2 ^ k + m) ≡ bit_xor h g * 2 ^ k + bit_xor l m
bit_xor_parts zero h l g m less_l less_m =
    let zero_l : l ≡ 0 = omega arith in
    let zero_m : m ≡ 0 = omega arith in
    let one_h : h * 2 ^ 0 + 0 ≡ h = omega arith in
    let one_g : g * 2 ^ 0 + 0 ≡ g = omega arith in
    rw (zero_l, zero_m, one_h, one_g, zero-bit_xor) (omega arith)
bit_xor_parts (suc k) h l g m less_l less_m =
    let x = h * 2 ^ suc k + l in
    let y = g * 2 ^ suc k + m in
    let shift : (a : ℕ) → a * 2 ^ suc k ≡ 2 * (a * 2 ^ k) =
      λ (a : ℕ). omega (arith, ap (λ (t : ℕ). a * t) (pow_double k)) in
    let half_x : x / 2 ≡ h * 2 ^ k + l / 2 = omega (arith, shift h) in
    let half_y : y / 2 ≡ g * 2 ^ k + m / 2 = omega (arith, shift g) in
    omega (
      arith,
      bit_xor_half x y,
      bit_xor_low x y,
      ap₂ (λ (s t : ℕ). bit_xor s t) half_x half_y,
      bit_xor_parts k h (l / 2) g (m / 2) (omega (arith, pow_double k))
          (omega (arith, pow_double k)),
      shift h,
      shift g,
      shift (bit_xor h g),
      bit_xor_half l m,
      bit_xor_low l m,
    )

-- A double.
pub bit_xor_double : (a b : ℕ) → bit_xor (a * 2) (b * 2) ≡ bit_xor a b * 2
bit_xor_double a b =
    let half_a : a * 2 / 2 ≡ a = omega arith in
    let half_b : b * 2 / 2 ≡ b = omega arith in
    omega (
      arith,
      bit_xor_half (a * 2) (b * 2),
      bit_xor_low (a * 2) (b * 2),
      ap₂ (λ (s t : ℕ). bit_xor s t) half_a half_b,
    )

pub bit_xor_swap :
    (n a b c : ℕ)
    → a < 2 ^ n
    → b < 2 ^ n
    → c < 2 ^ n
    → bit_xor (bit_xor a b) c ≡ bit_xor (bit_xor a c) b
bit_xor_swap n a b c h k l =
    bit_xor_assoc n a b c h k l
    ∙ ap (λ (t : ℕ). bit_xor a t) (bit_xor_comm n b c k l)
    ∙ sym (bit_xor_assoc n a c b h l k)
