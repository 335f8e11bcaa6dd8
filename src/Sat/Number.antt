-- ===== src/Sat/Number.antt =====
-- Satellite numbers and numbers within a system.
use dgnss_server.Common.{ℕ, ◌+◌, ◌-◌, ◌≤◌, ◌<◌, ◌≡◌, ◌≢◌, arith, if◌then◌else◌, ◌==◌}
use dgnss_server.Common.Int.{pos}
use dgnss_server.Sat.{sys_gps, sys_glo, sys_gal, sys_qzs, sys_cmp, max_sat, satsys, satno}

-- The range of numbers of each system that `satno` accepts, and that does not collide with another.
pub data IsPrn : ℕ → ℕ → Type 0 where
  gps : (n : ℕ) → 1 ≤ n → n ≤ 32 → IsPrn sys_gps n
  glo : (n : ℕ) → 1 ≤ n → n ≤ 24 → IsPrn sys_glo n
  gal : (n : ℕ) → 1 ≤ n → n ≤ 27 → IsPrn sys_gal n
  cmp : (n : ℕ) → 161 ≤ n → n ≤ 197 → IsPrn sys_cmp n

-- The number within the system that `satsys` gives: for BeiDou it counts from 1.
abbrev pub system_index : ℕ → ℕ → ℕ
system_index sys prn = if sys == sys_cmp then prn - 160 else prn

-- `satsys` finds the system of the number that `satno` makes, and the number within the system,
-- which for BeiDou is not the one that was given but counts from 1.
pub satsys-satno :
    {sys prn : ℕ} → IsPrn sys prn → satsys (satno sys (pos prn)) ≡ (sys, system_index sys prn)
unfolding satsys satno
satsys-satno (gps n lo hi) = ground arith
satsys-satno (glo n lo hi) = ground arith
satsys-satno (gal n lo hi) = ground arith
satsys-satno (cmp n lo hi) = ground arith

-- A GPS satellite has a number from 1 to 32, and a BeiDou satellite one from 84 to 120.
pub satno_range :
    (sys prn : ℕ)
    → satno sys (pos prn) ≢ 0
    → ((sys ≡ sys_gps) → (1 ≤ satno sys (pos prn)) × (satno sys (pos prn) ≤ 32))
      × ((sys ≡ sys_cmp) → (84 ≤ satno sys (pos prn)) × (satno sys (pos prn) ≤ max_sat))
unfolding satno
satno_range sys prn h = (λ e. ground arith, λ e. ground arith)

-- The numbers of QZSS satellites are also those of BeiDou satellites.
pub satno-qzs_collides :
    (k : ℕ) → k < 7 → satno sys_qzs (pos (193 + k)) ≡ satno sys_cmp (pos (161 + k))
unfolding satno
satno-qzs_collides k h = ground arith
