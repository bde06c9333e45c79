-- ===== src/Settings.antt =====
-- `rmptcp_update_sysctl` and `rmptcp_reset_meta` of rmptcp.c: the user's settings enter the
-- register, and a new connection resets it.
pub mod Ranges
pub mod Frame
use redundant_mptcp_r_mptcp.Prelude.{
  Bool, ◌&&◌, ◌||◌, [], ◌++◌, ℤ, pos, ◌+ℤ◌, ◌*ℤ◌, ltb_ℤ, leb_ℤ, nonzero, u32_of, u64_of, s32, ltb,
  leb, ◌==◌, get_or, pos_part, if◌then◌else◌,
}
use redundant_mptcp_r_mptcp.Register.{Register, Sysctl, PathMeasurements, PathIndex, redf_open}

abbrev pub empty_measurements : PathMeasurements
empty_measurements = record {
  mask = 0;
  lowest_rtt = 0;
  rtt_sum = 0;
  total_bw = 0;
  min_subflow_bw = 0;
}

-- `if (x <= 0) x = 1;`
at_least_one : ℤ → ℤ
at_least_one a = if leb_ℤ a (pos 0) then pos 1 else a

-- The user asks for the next path combination, and there is one.
unfoldable pub wants_path : Sysctl → PathIndex → Bool
wants_path sys p = nonzero sys.set_path && ltb 0 p.num_path_combinations

-- The index after `pI.active++` and its test; the first comparison is unsigned.
next_active : PathIndex → ℤ
next_active p =
    let active = s32 (p.active +ℤ pos 1) in
    if leb p.num_path_combinations (u32_of active) || ltb_ℤ active (pos 0) then pos 0 else active

select_path : PathIndex → Sysctl → PathIndex × Sysctl
unfolding next_active wants_path
select_path p sys =
    let active = next_active p in
    let m = get_or p.path_measurements (pos_part active) empty_measurements in
    if wants_path sys p
    then (record p { active = active }, record sys { enablemask = m.mask; set_path = pos 0 })
    else (p, sys)

min_quota : Sysctl → Sysctl
min_quota sys = if ltb_ℤ sys.quota (pos 100) then record sys { quota = pos 100 } else sys

copy_settings : Sysctl → Register → Register
unfolding at_least_one
copy_settings sys r =
    let noshow = u64_of sys.maxnoshow in
    record r {
      sk_reg_update_period = at_least_one (s32 (sys.skreg_update *ℤ pos 1000000));
      max_sk_noshow = if noshow == 0 then 1 else noshow;
      red_timeout = at_least_one sys.timeout;
      q_target_user = u32_of sys.quota;
      enable_mask = sys.enablemask;
      collapse_th =
          if ltb_ℤ (pos 0) sys.collapse_th && ltb_ℤ sys.collapse_th (pos 100)
          then sys.collapse_th
          else r.collapse_th;
    }

pub record Settings : Type 0 where
  pub reg : Register
  pub sys : Sysctl
  pub paths : PathIndex

unfoldable pub update_sysctl : Settings → Settings
unfolding min_quota select_path copy_settings
update_sysctl s =
    let (paths, sys) = select_path s.paths (min_quota s.sys) in
    record { reg = copy_settings sys s.reg; sys = sys; paths = paths }

-- All slots of the list become spare; their contents stay.
reset_register : Register → Register
reset_register r = record r {
  state = redf_open;
  cong_flag = 0;
  send_period = pos 0;
  send_period_mean = pos 0;
  send_period_var = pos 0;
  send_period_max = pos 0;
  sk_list = [];
  spare = r.sk_list ++ r.spare;
  num_enabled = 0;
  total_bw = 0;
  total_bw_mean = 0;
  effective_util = 0;
  effective_util_mean = 0;
  effective_util_mean_mean = 0;
  effective_util_var = 0;
  effective_util_mean_before_cong = 0;
  effective_byte_count = 0;
  effective_byte_count_old = 0;
  q_control = 0;
  q_control_high = 0;
  q_control_low = 0;
  q_actual = 0;
  q_target = 0;
  q_target_user = 0;
  send_period_max_before_cong = pos 50000;
}

unfoldable pub reset_meta : Settings → Settings
unfolding reset_register
reset_meta s = record {
  reg = reset_register s.reg;
  sys = record s.sys { runpathcheck = pos 0 };
  paths = record s.paths { num_path_combinations = 0 };
}
