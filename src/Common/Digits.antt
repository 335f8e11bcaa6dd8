-- ===== src/Common/Digits.antt =====
-- Laws of the bit operations at variables, from their meaning on binary digits.
use Prim.Native.Nat.{
  ℕ, zero, suc, ◌+◌, ◌-◌, ◌*◌, ◌/◌, ◌%◌, ◌^◌, ◌≤◌, ◌<◌, min, max, bit_and, bit_or, digits, bitwise,
  bit_and-bitwise, bit_or-bitwise,
}
use mathlib.Core.Path.{◌≡◌, refl, ap}
use native.Mathlib.Nat.{div-div-eq-div-mul}
use native.Mathlib.Omega.{arith}
use dgnss_server.Common.Powers.{pow_pos, pow_double, pow_mono}

-- A digit recursion does not depend on its fuel, once there is enough.
module _ (z : ℕ → ℕ) (f : ℕ → ℕ → ℕ) where
  digits_enough :
      (x left right y : ℕ) → x ≤ left → x ≤ right → digits z f right x y ≡ digits z f left x y
  digits_enough zero zero zero y h k = refl
  digits_enough zero zero (suc right) y h k = refl
  digits_enough zero (suc left) zero y h k = refl
  digits_enough zero (suc left) (suc right) y h k = refl
  digits_enough (suc x) zero right y h k = elim h [ ]
  digits_enough (suc x) (suc left) zero y h k = elim k [ ]
  digits_enough (suc x) (suc left) (suc right) y h k =
      ap (λ (high : ℕ). high * 2 + f (suc x % 2) (y % 2))
        (digits_enough (suc x / 2) left right (y / 2) (omega arith) (omega arith))

  pub bitwise_digit :
      (x y : ℕ)
      → bitwise z f (suc x) y ≡ bitwise z f (suc x / 2) (y / 2) * 2 + f (suc x % 2) (y % 2)
  bitwise_digit x y =
      ap (λ (high : ℕ). high * 2 + f (suc x % 2) (y % 2))
        (digits_enough (suc x / 2) (suc x / 2) x (y / 2) (omega arith) (omega arith))

-- Each operation in terms of the lowest digits and of the rest.
pub bit_and_digit : (x y : ℕ) → bit_and x y ≡ bit_and (x / 2) (y / 2) * 2 + min (x % 2) (y % 2)
bit_and_digit (suc x) y = simp bit_and-bitwise (bitwise_digit (λ y. 0) min x y)
bit_and_digit zero y = simp bit_and-bitwise (omega arith)

pub bit_or_digit : (x y : ℕ) → bit_or x y ≡ bit_or (x / 2) (y / 2) * 2 + max (x % 2) (y % 2)
bit_or_digit (suc x) y = simp bit_or-bitwise (bitwise_digit (λ y. y) max x y)
bit_or_digit zero y = simp bit_or-bitwise (omega arith)

-- `x | 0` for an `x` with up to `n` digits.
bit_or_none : (n x : ℕ) → x < 2 ^ n → bit_or x 0 ≡ x
bit_or_none zero x h = let e : x ≡ 0 = omega arith in rw e
bit_or_none (suc n) x h =
    omega
      (arith, bit_or_digit x 0, pow_double n, bit_or_none n (x / 2) (omega (arith, pow_double n)))

bit_and_none : (n x : ℕ) → x < 2 ^ n → bit_and x 0 ≡ 0
bit_and_none zero x h = let e : x ≡ 0 = omega arith in rw e
bit_and_none (suc n) x h =
    omega
      (arith, bit_and_digit x 0, pow_double n, bit_and_none n (x / 2) (omega (arith, pow_double n)))

-- A digit that is already 1 is not changed by setting it.
pub bit_or_present : (n k x : ℕ) → x < 2 ^ n → k < n → x / 2 ^ k % 2 ≡ 1 → bit_or x (2 ^ k) ≡ x
bit_or_present zero k x h lt e = elim lt [ ]
bit_or_present (suc n) zero x h lt e =
    omega (arith, bit_or_digit x 1, bit_or_none n (x / 2) (omega (arith, pow_double n)))
bit_or_present (suc n) (suc k) x h lt e =
    let up : x / 2 / 2 ^ k % 2 ≡ 1 =
      omega (arith, div-div-eq-div-mul x 2 (2 ^ k), ap (λ (t : ℕ). x / t) (pow_double k)) in
    let rest = bit_or_present n k (x / 2) (omega (arith, pow_double n)) (omega arith) up in
    let half : 2 ^ suc k / 2 ≡ 2 ^ k = omega (arith, pow_double k) in
    omega
      (arith, bit_or_digit x (2 ^ suc k), ap (λ (t : ℕ). bit_or (x / 2) t) half, rest, pow_double k)

-- A mask of `n` ones keeps a number of `n` digits.
pub bit_and_ones : (n x : ℕ) → x < 2 ^ n → bit_and x (2 ^ n - 1) ≡ x
bit_and_ones zero x h = let e : x ≡ 0 = omega arith in rw e
bit_and_ones (suc n) x h =
    let half : (2 ^ suc n - 1) / 2 ≡ 2 ^ n - 1 = omega (arith, pow_double n, pow_pos n) in
    omega (
      arith,
      bit_and_digit x (2 ^ suc n - 1),
      ap (λ (t : ℕ). bit_and (x / 2) t) half,
      bit_and_ones n (x / 2) (omega (arith, pow_double n)),
      pow_double n,
      pow_pos n,
    )

-- A digit that is already 0 is not changed by clearing it.
pub bit_and_absent :
    (n k x : ℕ) → x < 2 ^ n → k < n → x / 2 ^ k % 2 ≡ 0 → bit_and x (2 ^ n - 1 - 2 ^ k) ≡ x
bit_and_absent zero k x h lt e = elim lt [ ]
bit_and_absent (suc n) zero x h lt e =
    let half : (2 ^ suc n - 1 - 1) / 2 ≡ 2 ^ n - 1 = omega (arith, pow_double n, pow_pos n) in
    omega (
      arith,
      bit_and_digit x (2 ^ suc n - 1 - 1),
      ap (λ (t : ℕ). bit_and (x / 2) t) half,
      bit_and_ones n (x / 2) (omega (arith, pow_double n)),
      pow_double n,
      pow_pos n,
    )
bit_and_absent (suc n) (suc k) x h lt e =
    let up : x / 2 / 2 ^ k % 2 ≡ 0 =
      omega (arith, div-div-eq-div-mul x 2 (2 ^ k), ap (λ (t : ℕ). x / t) (pow_double k)) in
    let rest = bit_and_absent n k (x / 2) (omega (arith, pow_double n)) (omega arith) up in
    let room : 2 ^ suc k ≤ 2 ^ n = pow_mono (suc k) n (omega arith) in
    let half : (2 ^ suc n - 1 - 2 ^ suc k) / 2 ≡ 2 ^ n - 1 - 2 ^ k =
      omega (arith, pow_double n, pow_double k, room) in
    omega (
      arith,
      bit_and_digit x (2 ^ suc n - 1 - 2 ^ suc k),
      ap (λ (t : ℕ). bit_and (x / 2) t) half,
      rest,
      pow_double n,
      pow_double k,
      room,
    )

zero-bit_or : (x : ℕ) → bit_or 0 x ≡ x
zero-bit_or x = simp bit_or-bitwise

-- `q << k | r` is a sum where `r` fits below the shift.
pub bit_or_disjoint : (k q r : ℕ) → r < 2 ^ k → bit_or r (q * 2 ^ k) ≡ q * 2 ^ k + r
bit_or_disjoint zero q r fits = let e : r ≡ 0 = omega arith in rw (e, zero-bit_or) (omega arith)
bit_or_disjoint (suc k) q r fits =
    let shift : q * 2 ^ suc k ≡ 2 * (q * 2 ^ k) =
      omega (arith, ap (λ (t : ℕ). q * t) (pow_double k)) in
    let half : q * 2 ^ suc k / 2 ≡ q * 2 ^ k = omega arith in
    omega (
      arith,
      bit_or_digit r (q * 2 ^ suc k),
      ap (λ (t : ℕ). bit_or (r / 2) t) half,
      bit_or_disjoint k q (r / 2) (omega (arith, pow_double k)),
      shift,
    )
