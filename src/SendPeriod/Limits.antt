-- ===== src/SendPeriod/Limits.antt =====
-- The limits of the longest normal send period.
use redundant_mptcp_r_mptcp.Prelude.{
  ℕ, ◌≤◌, ◌≡◌, ℤ, pos, ◌≤ℤ◌, ◌*ℤ◌, ◌+ℤ◌, s32, s64, s32_id, arith, ◌*◌,
}
use redundant_mptcp_r_mptcp.Register.{Register, Sysctl, Kernel}
use redundant_mptcp_r_mptcp.SendPeriod.{limit_max, calc_send_period, mean_step, var_step, adapt_max}

pos_times : (t : ℕ) → pos t *ℤ pos 1000 ≡ pos (t * 1000)
unfolding ◌*ℤ◌
pos_times t = ground arith

-- The user's timeout in microseconds, as the source computes it in an `int`.
timeout_us : (t : ℕ) → t ≤ 2147483 → s32 (pos t *ℤ pos 1000) ≡ pos (t * 1000)
timeout_us t h = rw (pos_times t) (s32_id (pos (t * 1000)) (omega arith) (omega arith))

limit_max_bounds :
    (t : ℕ) (mean var max : ℤ)
    → 1 ≤ t
    → t ≤ 2147483
    → (pos 0 ≤ℤ limit_max (pos t) mean var max) × (limit_max (pos t) mean var max ≤ℤ pos (t * 1000))
unfolding limit_max
limit_max_bounds t mean var max low high = rw (timeout_us t high) (ground arith)

-- For a timeout of 1 ms to about 35 minutes, the longest that an `int` of microseconds holds, the
-- longest normal send period lies between 0 and that timeout after each measurement.
pub calc_send_period_bounds :
    (k : Kernel) (sys : Sysctl) (run_start : ℤ) (r : Register) (t : ℕ)
    → r.red_timeout ≡ pos t
    → 1 ≤ t
    → t ≤ 2147483
    → let max = (calc_send_period k sys run_start r).send_period_max in
      (pos 0 ≤ℤ max) × (max ≤ℤ pos (t * 1000))
unfolding calc_send_period
calc_send_period_bounds k sys run_start r t e low high =
    let period = k.ktime_us_delta run_start r.last_send in
    rw e (
      limit_max_bounds t (mean_step 32 period r.send_period_mean)
        (var_step period r.send_period_mean r.send_period_var)
        (adapt_max k sys run_start period r).0 low high)

-- For such a timeout it can be 0: the test that is meant to rule this out lets a maximum of 0
-- through whenever the sum of mean and variance is not above it.
limit_max_zero :
    (t : ℕ) (mean var : ℤ)
    → 1 ≤ t
    → t ≤ 2147483
    → s64 (mean +ℤ var) ≤ℤ pos 0
    → limit_max (pos t) mean var (pos 0) ≡ pos 0
unfolding limit_max
limit_max_zero t mean var low high h = rw (timeout_us t high) (ground arith)
