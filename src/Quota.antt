-- ===== src/Quota.antt =====
-- The redundancy quota Q of rmptcp.c: `rmptcp_regulateQ`, `rmptcp_setQ`, `rmptcp_adaptR`,
-- `rmptcp_setQActual` and `rmptcp_calc_controlQ`. A quota of 100 is one copy of each segment.
pub mod Bounds
pub mod Actual
pub mod Frame
use redundant_mptcp_r_mptcp.Prelude.{
  ℕ, suc, ◌+◌, ◌*◌, ◌/◌, not, ◌&&◌, ◌||◌, List, [], ◌∷◌, ℤ, pos, negsuc, ◌+ℤ◌, quot, ltb_ℤ, nonzero,
  u32, u32_of, u64, s32_of, sub32, sub64, ltb, leb, ◌==◌, if◌then◌else◌,
}
use redundant_mptcp_r_mptcp.Register.{RedSk, Register, Sysctl, Kernel, slot}

-- The step of the target, by the state and the utilization.
regulate_target : Register → ℕ
regulate_target r =
    let high = u64 (r.effective_util_mean_before_cong * 21) / 20 in
    let up = u32 (r.q_target + 1) in
    if r.state.in_recovery
    then up
    else if ltb high r.effective_util_mean && ltb high r.effective_util
    then (if ltb r.q_target r.q_actual then u32 (up + sub32 r.q_actual up / 16) else up)
    else if ltb r.effective_util_mean r.effective_util_mean_before_cong
    then sub32 r.q_target 1
    else r.q_target

-- In the congestion state the target is held below what the enabled subflows can carry.
cap_target : Sysctl → Register → ℕ → ℕ
cap_target sys r target =
    let cap =
      if nonzero sys.adaptiv_path_enable
      then u32 (r.num_enabled * 100)
      else u32 (sub32 r.num_enabled 1 * 100) in
    if r.state.in_cong && ltb cap target then cap else target

unfoldable pub regulate_q : Kernel → Sysctl → (run_start : ℤ) → Register → Register
unfolding regulate_target cap_target
regulate_q k sys run_start r =
    if k.ktime_before (k.ktime_add_ms r.last_in_decrease 20) run_start
    then record r { last_in_decrease = run_start; q_target = cap_target sys r (regulate_target r) }
    else r

-- The two control values between which `q_control` switches.
unfoldable pub control_low : ℕ → ℕ
control_low target = u32_of (quot (s32_of target) 100)

unfoldable pub control_high : ℕ → ℕ
control_high target = u32_of (quot (s32_of (sub32 target 1)) 100 +ℤ pos 1)

unfoldable pub set_control : Register → Register
set_control r = record r {
  q_control_low = control_low r.q_target;
  q_control_high = control_high r.q_target;
}

unfoldable pub set_q : Register → Register
unfolding set_control
set_q r = set_control (record r { q_target = r.q_target_user })

-- The index of the first congested subflow, or 0.
unfoldable pub first_cong_from : ℕ → List RedSk → ℕ
first_cong_from i [] = 0
first_cong_from i (e ∷ es) = if e.state.cong then i else first_cong_from (suc i) es

unfoldable pub first_cong : List RedSk → ℕ
unfolding first_cong_from
first_cong es = first_cong_from 0 es

-- After entering the congestion state: the share of the old utilization that the other subflows
-- can still carry, as a quota.
adapt_cong : (run_start : ℤ) → Register → Register
unfolding first_cong
adapt_cong run_start r =
    let before =
      if ltb r.effective_util_mean_before_cong 1 then 1 else r.effective_util_mean_before_cong in
    let failed = slot r (first_cong r.sk_list) in
    let target = u32 (u64 (sub64 r.total_bw_mean failed.bandwidth_mean * 100) / before) in
    let cap = u32 (sub32 r.num_enabled 1 * 100) in
    record r {
      last_in_decrease = run_start;
      effective_util_mean_before_cong = before;
      q_target = if ltb cap target then cap else target;
    }

-- "last sanity check"
clamp_target : Register → Register
clamp_target r = record r {
  q_target =
      if ltb r.q_target 100
      then 100
      else if ltb r.q_target_user r.q_target
      then r.q_target_user
      else r.q_target;
}

adapt_target : Kernel → Sysctl → (run_start : ℤ) → Register → Register
unfolding adapt_cong set_q regulate_q
adapt_target k sys run_start r =
    if not (r.cong_flag == 0) && r.state.in_cong
    then adapt_cong run_start r
    else if not (r.cong_flag == 0) && r.state.is_open
    then set_q r
    else if r.state.in_cong || r.state.in_recovery
    then regulate_q k sys run_start r
    else record r { q_target = r.q_target_user }

unfoldable pub adapt_r : Kernel → Sysctl → (run_start : ℤ) → Register → Register
unfolding adapt_target clamp_target set_control
adapt_r k sys run_start r = set_control (clamp_target (adapt_target k sys run_start r))

-- The new value of `q_actual`, from the number of subflows that a segment goes out on.
unfoldable pub next_actual : (num_available : ℕ) → (q_actual : ℕ) → ℕ
next_actual n q =
    let err = s32_of (sub32 (u32 (n * 100)) q) in
    if q == 0
    then u32 (n * 100)
    else if ltb_ℤ err (pos 16) && ltb_ℤ (pos 0) err
    then u32 (q + 1)
    else if ltb_ℤ (negsuc 15) err && ltb_ℤ err (pos 0)
    then sub32 q 1
    else u32 (q + u32_of (quot err 16))

unfoldable pub set_q_actual : (num_available : ℕ) → Register → Register
set_q_actual n r = record r { q_actual = next_actual n r.q_actual }

unfoldable pub calc_control_q : Register → Register
calc_control_q r =
    let q = if leb r.q_target r.q_actual then r.q_control_low else r.q_control_high in
    record r { q_control = if ltb q 1 then 1 else q }
