-- ===== src/Tests/Program.antt =====
-- The functions that a run of the model computes with, as one name.
use redundant_mptcp_r_mptcp.Scheduler.{send_next_segment}
use redundant_mptcp_r_mptcp.Prelude.{
  s64, ◌-ℤ◌, ◌+ℤ◌, ◌*ℤ◌, u32_of, u64_of, s32_of, s64_of, s32, quot,
}
use redundant_mptcp_r_mptcp.Check.{check_avail_sk, limit_control, patience, kick}
use redundant_mptcp_r_mptcp.Quota.{
  calc_control_q, set_q, control_high, control_low, set_q_actual, next_actual, adapt_r, set_control,
  first_cong, regulate_q,
}
use redundant_mptcp_r_mptcp.AdaptPath.{adapt_path}
use redundant_mptcp_r_mptcp.Availability.{is_available, mptcp_sk_can_send, out_of_order}
use redundant_mptcp_r_mptcp.Send.{send_skb}
use redundant_mptcp_r_mptcp.Failure.{check_failure, collapsed, statechange_cong}
use redundant_mptcp_r_mptcp.SendPeriod.{calc_send_period, mean_step, var_step, limit_max}
use redundant_mptcp_r_mptcp.Main.{update_main_sk}
use redundant_mptcp_r_mptcp.Bandwidth.{update_bw}
use redundant_mptcp_r_mptcp.Settings.{update_sysctl, reset_meta}
use redundant_mptcp_r_mptcp.SkList.{update_sk_list, set_enable_flag}
use redundant_mptcp_r_mptcp.PathCheck.{path_checker, get_path_combinations, get_addresses}
use redundant_mptcp_r_mptcp.Lowpass.Queue.{add_to_sk_queue, get_from_sk_queue, peak_dsn_sk_queue}
use redundant_mptcp_r_mptcp.Lowpass.Learn.{
  delta_mean_max, current_delta, max_wait, calc_lowpass_timeout,
}
use redundant_mptcp_r_mptcp.Lowpass.Gate.{reset_stale, register, is_silent, lowpass}
use redundant_mptcp_r_mptcp.RoundRobin.Subflow.{mptcp_rr_is_available}
use redundant_mptcp_r_mptcp.RoundRobin.Segment.{scan, rounds, mptcp_rr_next_segment}

-- What a run computes with.
unfoldable pub program : Unit {0}
unfolding send_next_segment s64 ◌-ℤ◌ ◌+ℤ◌ ◌*ℤ◌ u32_of u64_of s32_of s64_of s32 quot check_avail_sk
    limit_control calc_control_q set_q adapt_path control_high control_low is_available send_skb
    check_failure calc_send_period set_q_actual next_actual patience adapt_r update_main_sk
    update_bw update_sysctl update_sk_list reset_meta path_checker set_control first_cong regulate_q
    kick mptcp_sk_can_send out_of_order mean_step var_step limit_max collapsed statechange_cong
    add_to_sk_queue get_from_sk_queue peak_dsn_sk_queue delta_mean_max current_delta max_wait
    calc_lowpass_timeout reset_stale register is_silent lowpass get_path_combinations get_addresses
    set_enable_flag mptcp_rr_is_available scan rounds mptcp_rr_next_segment
program = tt
