-- ===== src/Tests/Quotas.antt =====
-- The quota, the means and the send period at concrete values.
use redundant_mptcp_r_mptcp.Prelude.{◌*◌, ◌≤◌, ◌<◌, ◌≡◌, refl, ◌⊎◌, pos, ◌≤ℤ◌, arith}
use redundant_mptcp_r_mptcp.Register.{Register, redf_cong}
use redundant_mptcp_r_mptcp.Quota.{adapt_r, calc_control_q}
use redundant_mptcp_r_mptcp.Quota.Bounds.{Brackets, adapt_r_bounds, calc_control_q_steers}
use redundant_mptcp_r_mptcp.Quota.Actual.{measured, measured_converges}
use redundant_mptcp_r_mptcp.SendPeriod.{calc_send_period}
use redundant_mptcp_r_mptcp.SendPeriod.Limits.{calc_send_period_bounds}
use redundant_mptcp_r_mptcp.Tests.Fixtures.{clock, defaults, now, open_reg}
use redundant_mptcp_r_mptcp.Tests.Program.{program}

-- The congestion was entered just now: the failed path carried half of the bandwidth.
abbrev failed_reg : Register
failed_reg = record open_reg {
  state = redf_cong;
  cong_flag = 1;
  q_target_user = 250;
  total_bw_mean = 2000;
  effective_util_mean_before_cong = 700;
}

adapted_target : (adapt_r clock defaults now failed_reg).q_target ≡ 100
unfolding program
adapted_target = refl

adapt_r_bounds_example :
    let r' = adapt_r clock defaults now failed_reg in
    (100 ≤ r'.q_target)
    × (r'.q_target ≤ 250)
    × Brackets r'.q_control_low r'.q_target r'.q_control_high
adapt_r_bounds_example = adapt_r_bounds clock defaults now failed_reg (omega arith) (omega arith)

-- A target of 250 lies between two and three copies.
abbrev between : Register
between = record open_reg { q_target = 250; q_actual = 240; q_control_low = 2; q_control_high = 3 }

control_steps_up : (calc_control_q between).q_control ≡ 3
unfolding program
control_steps_up = refl

calc_control_q_steers_example :
    let q = (calc_control_q between).q_control in
    (1 ≤ q)
    × (q ≤ 3)
    × (250 ≤ between.q_actual → (q * 100 ≤ 250) ⊎ (q ≡ 1))
    × (between.q_actual < 250 → 250 ≤ q * 100)
calc_control_q_steers_example = calc_control_q_steers between (omega arith)

measured_converges_example : measured 100 3 200 ≡ 300
measured_converges_example =
    measured_converges 100 3 200 (omega arith) (omega arith) (omega arith) (omega arith)
      (omega arith)

calc_send_period_bounds_example :
    let max = (calc_send_period clock defaults now open_reg).send_period_max in
    (pos 0 ≤ℤ max) × (max ≤ℤ pos (50 * 1000))
calc_send_period_bounds_example =
    calc_send_period_bounds clock defaults now open_reg 50 refl (omega arith) (omega arith)
