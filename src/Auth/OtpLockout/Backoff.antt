-- ===== src/Auth/OtpLockout/Backoff.antt =====
-- The length of the lockout window of backend/src/auth/otp-lockout.service.ts.
use native.Mathlib.Nat.{one-le-pow, pow-le-pow_right}
use open_bastion.Base.{ℕ, ◌-◌, ◌^◌, ◌≤◌, arith, max}
use open_bastion.Auth.OtpLockout.{backoff_ms, wait_seconds}

-- For counters m ≤ n: a lockout window lasts between 30 seconds and 30 minutes, so do the seconds
-- that are reported, and the window after n attempts is no shorter than that after m.
pub backoff_bounds :
    (m n : ℕ)
    → m ≤ n
    → (30_000 ≤ backoff_ms m)
      × (backoff_ms n ≤ 1_800_000)
      × (backoff_ms m ≤ backoff_ms n)
      × (30 ≤ wait_seconds (backoff_ms m))
      × (wait_seconds (backoff_ms n) ≤ 1800)
unfolding backoff_ms wait_seconds
backoff_bounds m n h =
    let mono : 2 ^ max 0 (m - 5 - 1) ≤ 2 ^ max 0 (n - 5 - 1) =
      pow-le-pow_right {n = 2} (omega arith) (omega arith) in
    let low : 1 ≤ 2 ^ max 0 (m - 5 - 1) = one-le-pow (max 0 (m - 5 - 1)) 2 (omega arith) in
    (omega arith, omega arith, omega arith, omega arith, omega arith)
