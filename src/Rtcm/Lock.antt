-- ===== src/Rtcm/Lock.antt =====
-- The lock time indicators: to_lock and to_msm_lock.
use dgnss_server.Common.{ℕ, ◌+◌, ◌/◌, ◌^◌, ◌≤◌, ◌<◌, arith, ltb, if◌then◌else◌}
use dgnss_server.Common.Int.{ℤ, pos, negsuc, ◌≤ℤ◌}

unfoldable pub to_lock : ℤ → ℕ
to_lock (negsuc n) = 0
to_lock (pos lock) =
    if ltb lock 24
    then lock
    else if ltb lock 72
    then (lock + 24) / 2
    else if ltb lock 168
    then (lock + 120) / 4
    else if ltb lock 360
    then (lock + 408) / 8
    else if ltb lock 744
    then (lock + 1176) / 16
    else if ltb lock 937
    then (lock + 3096) / 32
    else 127

unfoldable pub to_msm_lock : ℤ → ℕ
to_msm_lock (negsuc n) = 0
to_msm_lock (pos lock) =
    if ltb lock 32
    then 0
    else if ltb lock 64
    then 1
    else if ltb lock 128
    then 2
    else if ltb lock 256
    then 3
    else if ltb lock 512
    then 4
    else if ltb lock 1024
    then 5
    else if ltb lock 2048
    then 6
    else if ltb lock 4096
    then 7
    else if ltb lock 8192
    then 8
    else if ltb lock 16384
    then 9
    else if ltb lock 32768
    then 10
    else if ltb lock 65536
    then 11
    else if ltb lock 131072
    then 12
    else if ltb lock 262144
    then 13
    else if ltb lock 524288
    then 14
    else 15

-- The session time indicator fits its seven bits, and never falls when the time grows.
pub to_lock-monotone : (a b : ℤ) → a ≤ℤ b → (to_lock a ≤ to_lock b) × (to_lock b ≤ 127)
unfolding to_lock
to_lock-monotone (pos a) (pos b) h = (ground arith, ground arith)
to_lock-monotone (pos a) (negsuc b) h = (ground arith, ground arith)
to_lock-monotone (negsuc a) (pos b) h = (ground arith, ground arith)
to_lock-monotone (negsuc a) (negsuc b) h = (ground arith, ground arith)

-- The lock indicator is the power of two that the lock time has reached: from 32 seconds on, and
-- below 2^20, the time is at least 2^(k + 4) and less than 2^(k + 5) for the indicator k.
pub to_msm_lock_lem :
    (lock : ℕ)
    → 32 ≤ lock
    → lock < 2 ^ 20
    → (2 ^ (to_msm_lock (pos lock) + 4) ≤ lock) × (lock < 2 ^ (to_msm_lock (pos lock) + 5))
unfolding to_msm_lock
to_msm_lock_lem lock lo hi = ground arith
