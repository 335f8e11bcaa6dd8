-- ===== src/Common/Powers.antt =====
-- Quotients and remainders by a power of two, one digit at a time.
use Prim.Native.Nat.{ℕ, zero, suc, ◌+◌, ◌*◌, ◌/◌, ◌%◌, ◌^◌, ◌≤◌, ◌<◌}
use mathlib.Core.Path.{◌≡◌, ap, ◌∙◌}
use native.Mathlib.Nat.{
  pow-suc, one-le-pow, mul-le-mul_right, div-add-mod', mod-lt, mod-eq_of_lt, mul-add-mod_self_left,
}
use native.Mathlib.Decide.{dec_le}
use native.Mathlib.Omega.{arith}

pub pow_pos : (n : ℕ) → 1 ≤ 2 ^ n
pow_pos n = one-le-pow n 2 (omega arith)

pub pow_double : (n : ℕ) → 2 ^ suc n ≡ 2 * 2 ^ n
pow_double n = omega (arith, pow-suc 2 n)

-- `d` in digits: a multiple of `2 * p`, the digit above `p`, and what is below `p`.
split_double : (d p : ℕ) → d ≡ 2 * p * (d / p / 2) + (d / p % 2 * p + d % p)
split_double d p =
    let halves : d / p ≡ 2 * (d / p / 2) + d / p % 2 = omega arith in
    omega (arith, div-add-mod' d p, ap (λ (t : ℕ). t * p) halves)

mod_double : (d p : ℕ) → 1 ≤ p → d % (2 * p) ≡ d / p % 2 * p + d % p
mod_double d p h =
    let fits : d / p % 2 * p + d % p < 2 * p =
      omega (arith, mod-lt d h, mul-le-mul_right {m = d / p % 2} {n = 1} p (omega arith)) in
    ap (λ (t : ℕ). t % (2 * p)) (split_double d p)
    ∙ mul-add-mod_self_left (2 * p) (d / p / 2) (d / p % 2 * p + d % p)
    ∙ mod-eq_of_lt fits

pub mod-pow-suc : (d n : ℕ) → d % 2 ^ suc n ≡ d / 2 ^ n % 2 * 2 ^ n + d % 2 ^ n
mod-pow-suc d n = rw (pow_double n) (mod_double d (2 ^ n) (pow_pos n))

pub pow_mono : (m n : ℕ) → m ≤ n → 2 ^ m ≤ 2 ^ n
pow_mono m zero h = let e : m ≡ 0 = omega arith in rw e (omega arith)
pow_mono m (suc n) h = elim (dec_le m n) [
  | yes le ↦ omega (arith, pow_mono m n le, pow_double n)
  | no gt ↦ let e : m ≡ suc n = omega arith in rw e (omega arith)
]

pub pow_add : (m n : ℕ) → 2 ^ (m + n) ≡ 2 ^ m * 2 ^ n
pow_add zero n = let e : zero + n ≡ n = omega arith in rw e (omega arith)
pow_add (suc m) n =
    let e : suc m + n ≡ suc (m + n) = omega arith in
    rw e (omega (arith, pow_double (m + n), pow_add m n, ap (λ (t : ℕ). t * 2 ^ n) (pow_double m)))
