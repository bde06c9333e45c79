-- ===== src/SendPeriod.antt =====
-- `rmptcp_calc_sendPeriod` of rmptcp.c: the time between two segments, its mean and variance, and
-- the longest time that is still normal.
pub mod Limits
pub mod Frame
use redundant_mptcp_r_mptcp.Prelude.{
  ℕ, ◌+◌, Bool, not, ◌&&◌, ◌||◌, map, ℤ, pos, ◌+ℤ◌, ◌-ℤ◌, ◌*ℤ◌, quot, ltb_ℤ, u32, s32, s64, ltb,
  ◌==◌, if◌then◌else◌,
}
use redundant_mptcp_r_mptcp.Register.{RedSk, Register, Sysctl, Kernel}

-- `mean += err/div`
unfoldable pub mean_step : (div : ℕ) → (sample mean : ℤ) → ℤ
mean_step div sample mean = s64 (mean +ℤ quot (s64 (sample -ℤ mean)) div)

-- `err = |sample - mean| - var; var += err/64`
unfoldable pub var_step : (sample mean var : ℤ) → ℤ
var_step sample mean var =
    let err = s64 (sample -ℤ mean) in
    let size = if ltb_ℤ err (pos 0) then s64 (pos 0 -ℤ err) else err in
    s64 (var +ℤ quot (s64 (size -ℤ var)) 64)

-- "is the sending periode within the user specified range?"
in_range : Sysctl → (period max : ℤ) → Bool
in_range sys period max =
    ltb_ℤ (quot (s64 (max *ℤ pos 90)) 100) period
    && ltb_ℤ period (quot (s64 (max *ℤ s32 (pos 100 +ℤ sys.varperiod_th))) 100)

-- The new maximum before its limits, and whether it was adapted. The step is larger while less
-- than a megabyte was sent.
adapt_max : Kernel → Sysctl → (run_start period : ℤ) → Register → ℤ × Bool
unfolding in_range
adapt_max k sys run_start period r =
    let max = r.send_period_max in
    let err = s64 (period -ℤ max) in
    if r.state.in_timeout || not (r.timeout == 0)
    then (max, Bool.false)
    else if in_range sys period max
    then (if ltb r.effective_byte_count 1000000
        then (s64 (max +ℤ quot err 8), Bool.true)
        else (s64 (max +ℤ quot err 64), Bool.true))
    else if k.ktime_before (k.ktime_add_ms r.last_period_max 1000) run_start
    then (s64 (max -ℤ quot max 4), Bool.true)
    else (max, Bool.false)

-- The three limits, in the order of the source: at least the mean and the variance, at most the
-- user's timeout, and not negative.
unfoldable pub limit_max : (red_timeout mean var max : ℤ) → ℤ
limit_max red_timeout mean var max =
    let sum = s64 (mean +ℤ var) in
    let raised = if ltb_ℤ max sum then sum else max in
    let user = s32 (red_timeout *ℤ pos 1000) in
    let cut = if ltb_ℤ user raised then user else raised in if ltb_ℤ cut (pos 0) then pos 1 else cut

-- The loop over the subflows that take the segment.
sub_period : Kernel → (run_start : ℤ) → (timed_out in_timeout : Bool) → RedSk → RedSk
unfolding mean_step var_step
sub_period k run_start timed_out in_timeout e =
    let period = k.ktime_us_delta run_start e.last_used in
    if not e.state.available
    then e
    else if not timed_out
    then record e {
      send_period = period;
      send_period_mean = mean_step 64 period e.send_period_mean;
      send_period_var = var_step period e.send_period_mean e.send_period_var;
    }
    else if not in_timeout
    then record e { send_period = period }
    else e

unfoldable pub calc_send_period : Kernel → Sysctl → (run_start : ℤ) → Register → Register
unfolding mean_step var_step adapt_max limit_max sub_period
calc_send_period k sys run_start r =
    let period = k.ktime_us_delta run_start r.last_send in
    let mean = mean_step 32 period r.send_period_mean in
    let var = var_step period r.send_period_mean r.send_period_var in
    let (max, adapted) = adapt_max k sys run_start period r in
    let timed_out = not (r.timeout == 0) in
    record r {
      send_period = period;
      last_send = run_start;
      timeout_start = pos 0;
      send_period_mean = mean;
      send_period_var = var;
      in_time_cnt =
          if not timed_out && r.state.in_timeout then u32 (r.in_time_cnt + 1) else r.in_time_cnt;
      send_period_max = limit_max r.red_timeout mean var max;
      last_period_max = if adapted then run_start else r.last_period_max;
      sk_list = map (sub_period k run_start timed_out r.state.in_timeout) r.sk_list;
    }
